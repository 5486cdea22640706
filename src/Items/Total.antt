-- ===== src/Items/Total.antt =====
-- The assertions of `do_item_link`, `do_item_unlink` and `do_item_remove`.
use log_memcached.Base.{
  ℕ, ◌<◌, ◌≡◌, refl, Bool, true, false, ◌&&◌, not, Option, some, List, ltb, ◌==◌, arith,
  if◌then◌else◌, ◌>>=◌, ◌>>◌, Bool-cases, inl, inr,
}
use mathlib.Core.Path.{fun_ext}
use log_memcached.Base.Words.{sub32}
use log_memcached.Assoc
use log_memcached.Assoc.{Table}
use log_memcached.Assoc.Update.{delete-Deleted}
use log_memcached.Items.{Cache, key_of, assert, freelist_free, item_free, do_item_remove}
use log_memcached.Items.Link.{
  count_size, item_link_q, item_unlink_q, mark_linked, mark_unlinked, stamp, do_item_link,
  do_item_unlink,
}
use log_memcached.Items.Lookup.{dropped, cut_off, cut_off-SameKeys}
use log_memcached.Items.Map.{lookup, IsPlacedCache, hash_of}

pub >>=-eq :
    {A B : Type 0} (m : Option A) (f : A → Option B) (a : A) {r : Option B}
    → m ≡ some a
    → f a ≡ r
    → (m >>= f) ≡ r
>>=-eq m f a e g = rw e g

pub assert-eq :
    {A : Type 0} (b : Bool) (m : Option A) {r : Option A} → b ≡ true → m ≡ r → (assert b >> m) ≡ r
assert-eq b m e g = rw e g

pub if-true :
    {A : Type 0} (b : Bool) (x y : A) {r : A} → b ≡ true → x ≡ r → (if b then x else y) ≡ r
if-true b x y e g = rw e g

pub if-false :
    {A : Type 0} (b : Bool) (x y : A) {r : A} → b ≡ false → y ≡ r → (if b then x else y) ≡ r
if-false b x y e g = rw e g

pub stamp_metas : (s : Cache) (it : ℕ) → (stamp s it).metas ≡ s.metas
unfolding stamp
stamp_metas s it = ground arith

pub count_size_metas : (f : ℕ → ℕ) (s : Cache) (it : ℕ) → (count_size f s it).metas ≡ s.metas
unfolding count_size
count_size_metas f s it = ground arith

-- An item that is neither linked nor free can be linked.
pub link_total :
    (s : Cache) (it hv : ℕ)
    → (s.metas it).it_flags.linked ≡ false
    → (s.metas it).it_flags.slabbed ≡ false
    → (s' : Cache) × (do_item_link s it hv ≡ some s')
unfolding do_item_link item_link_q
link_total s it hv unlinked used =
    let a : not (s.metas it).it_flags.linked && not (s.metas it).it_flags.slabbed ≡ true =
      rw (unlinked, used) refl in
    let m : (stamp (mark_linked s it) it).metas ≡ (mark_linked s it).metas =
      stamp_metas (mark_linked s it) it in
    let b : not ((stamp (mark_linked s it) it).metas it).it_flags.slabbed ≡ true =
      rw m (unfold mark_linked in ground arith) in
    (_, assert-eq _ _ a (>>=-eq _ _ _ (assert-eq _ _ b refl) refl))

-- One reference can be given back.
pub remove_total :
    (s : Cache) (it : ℕ)
    → (s.metas it).it_flags.linked ≡ false
    → (s.metas it).it_flags.slabbed ≡ false
    → 0 < (s.metas it).refcount
    → (s' : Cache) × (do_item_remove s it ≡ some s')
unfolding do_item_remove item_free
remove_total s it unlinked used pos =
    let a : not (s.metas it).it_flags.slabbed ≡ true = rw used refl in
    let b : ltb 0 (s.metas it).refcount ≡ true = ground arith in
    let c : not ((dropped s it).metas it).it_flags.linked ≡ true = ground arith in
    elim (Bool-cases (((dropped s it).metas it).refcount == 0)) [
      | inl last ↦ (
        freelist_free (dropped s it) it,
        assert-eq _ _ a
            (assert-eq _ _ b (if-true _ _ _ last (assert-eq _ _ c (assert-eq _ _ last refl)))),
      )
      | inr more ↦ (dropped s it, assert-eq _ _ a (assert-eq _ _ b (if-false _ _ _ more refl)))
    ]

-- A linked item that the table holds, with a reference, can be unlinked.
pub unlink_total :
    (hash : List ℕ → ℕ) (s : Cache) (it : ℕ)
    → IsPlacedCache hash s
    → lookup hash s (key_of s it) ≡ some it
    → (s.metas it).it_flags.linked ≡ true
    → (s.metas it).it_flags.slabbed ≡ false
    → 0 < (s.metas it).refcount
    → (s' : Cache) × (do_item_unlink s it (hash_of hash s it) ≡ some s')
unfolding do_item_unlink
unlink_total hash s it v found linked used pos =
    let hv = hash_of hash s it in
    let s₁ = cut_off s it in
    let (t₁, k₁) = cut_off-SameKeys s it in
    let keys : key_of s₁ ≡ key_of s = fun_ext k₁ in
    let (t, d) = delete-Deleted (key_of s) hash s.table (key_of s it) it v found in
    let del : Assoc.delete (key_of s₁) s₁.table (key_of s₁ it) hv ≡ some t =
      rw (t₁, keys) d.returns in
    let s₂ : Cache = item_unlink_q (record s₁ { table = t }) it in
    let m : s₂.metas ≡ (mark_unlinked s it).metas =
      unfold item_unlink_q in count_size_metas (λ n. sub32 n 1) (mark_unlinked s it) it in
    let (s', e) =
      remove_total s₂ it (rw m (unfold mark_unlinked in ground arith))
        (rw m (unfold mark_unlinked in ground arith))
        (rw m (unfold mark_unlinked in ground arith)) in
    (s', if-true _ _ _ linked (>>=-eq _ _ t del e))
