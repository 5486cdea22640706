-- ===== src/Items/Lookup.antt =====
-- The table and the keys that linking and unlinking leave.
use log_memcached.Base.{
  ℕ, ◌≡◌, refl, ap, ◌∙◌, Bool, true, false, ◌&&◌, not, Option, none, some, ltb, ◌==◌, arith,
  if◌then◌else◌, ◌>>=◌, ◌>>◌, ◌⊎◌, inl, inr,
}
use mathlib.Core.Path.{fun_ext, subst}
use log_memcached.Base.Memory.{store}
use log_memcached.Base.Words.{add32, sub32, add64}
use log_memcached.Assoc
use log_memcached.Assoc.{Table}
use log_memcached.Items.{
  Cache, item_of, key_of, set_meta, assert, refcount_incr, refcount_decr, freelist_free, item_free,
  do_item_remove,
}
use log_memcached.Items.Link.{
  count_size, item_link_q, item_unlink_q, mark_linked, stamp, do_item_link, mark_unlinked,
  do_item_unlink,
}

-- `s'` has the table of `s`, and no item has another key.
abbrev pub SameKeys : Cache → Cache → Type 0
SameKeys s s' = (s'.table ≡ s.table) × ((p : ℕ) → key_of s' p ≡ key_of s p)

pub count_size-SameKeys : (f : ℕ → ℕ) (s : Cache) (it : ℕ) → SameKeys s (count_size f s it)
unfolding count_size
count_size-SameKeys f s it = (ground arith, λ p. ground arith)

mark_linked-SameKeys : (s : Cache) (it : ℕ) → SameKeys s (mark_linked s it)
unfolding mark_linked
mark_linked-SameKeys s it = (refl, λ p. ground arith)

mark_unlinked-SameKeys : (s : Cache) (it : ℕ) → SameKeys s (mark_unlinked s it)
unfolding mark_unlinked
mark_unlinked-SameKeys s it = (refl, λ p. ground arith)

stamp-SameKeys : (s : Cache) (it : ℕ) → SameKeys s (stamp s it)
unfolding stamp
stamp-SameKeys s it = (ground arith, λ p. ground arith)

-- inversion of an assertion, and of a step
pub assert-some :
    {A : Type 0} (b : Bool) (m : Option A) {a : A}
    → (assert b >> m) ≡ some a
    → (b ≡ true) × (m ≡ some a)
assert-some true m e = (refl, e)
assert-some false m e = cc

pub >>=-some :
    {A B : Type 0} (m : Option A) (f : A → Option B) {b : B}
    → (m >>= f) ≡ some b
    → (a : A) × (m ≡ some a) × (f a ≡ some b)
>>=-some none f e = cc
>>=-some (some a) f e = (a, refl, e)

pub if-cases :
    {A : Type 0} (b : Bool) (x y : A) {r : A}
    → (if b then x else y) ≡ r
    → ((b ≡ true) × (x ≡ r)) ⊎ ((b ≡ false) × (y ≡ r))
if-cases true x y e = inl (refl, e)
if-cases false x y e = inr (refl, e)

pub some_eq : {a b : Cache} → ◌≡◌ {A = Option Cache} (some a) (some b) → a ≡ b
some_eq e = cc

item_link_q_same : (s s' : Cache) (it : ℕ) → item_link_q s it ≡ some s' → SameKeys s s'
unfolding item_link_q
item_link_q_same s s' it e =
    let id = (s.metas it).slabs_clsid in
    let counted : Cache = record s {
      sizes = store s.sizes id (add32 (s.sizes id) 1);
      sizes_bytes = store s.sizes_bytes id (add64 (s.sizes_bytes id) (item_of s it).nbytes);
    } in
    let (_, e₁) = assert-some (not (s.metas it).it_flags.slabbed) (some counted) e in
    subst (SameKeys s) (some_eq e₁) (refl, λ p. refl)

item_unlink_q-SameKeys : (s : Cache) (it : ℕ) → SameKeys s (item_unlink_q s it)
unfolding item_unlink_q
item_unlink_q-SameKeys s it = (refl, λ p. refl)

freelist_free-SameKeys : (s : Cache) (it : ℕ) → SameKeys s (freelist_free s it)
unfolding freelist_free
freelist_free-SameKeys s it = (ground arith, λ p. ground arith)

SameKeys-trans : (s t u : Cache) → SameKeys s t → SameKeys t u → SameKeys s u
SameKeys-trans s t u f g = (g.0 ∙ f.0, λ p. g.1 p ∙ f.1 p)

item_free-SameKeys : (s s' : Cache) (it : ℕ) → item_free s it ≡ some s' → SameKeys s s'
unfolding item_free
item_free-SameKeys s s' it e =
    let (_, e₁) = assert-some (not (s.metas it).it_flags.linked) _ e in
    let (_, e₂) = assert-some ((s.metas it).refcount == 0) (some (freelist_free s it)) e₁ in
    let same : freelist_free s it ≡ s' = cc in subst (SameKeys s) same (freelist_free-SameKeys s it)

abbrev pub dropped : Cache → ℕ → Cache
dropped s it =
    set_meta s it (record (s.metas it) { refcount = refcount_decr (s.metas it).refcount })

dropped-SameKeys : (s : Cache) (it : ℕ) → SameKeys s (dropped s it)
dropped-SameKeys s it = (refl, λ p. ground arith)

-- Giving a reference back changes no lookup, also where it frees the metadata.
pub do_item_remove-SameKeys :
    (s s' : Cache) (it : ℕ) → do_item_remove s it ≡ some s' → SameKeys s s'
unfolding do_item_remove
do_item_remove-SameKeys s s' it e =
    let (_, e₁) = assert-some (not (s.metas it).it_flags.slabbed) _ e in
    let (_, e₂) = assert-some (ltb 0 (s.metas it).refcount) _ e₁ in
    elim (if-cases (((dropped s it).metas it).refcount == 0) (item_free (dropped s it) it)
      (some (dropped s it)) e₂) [
        | inl (last, e₃) ↦
            SameKeys-trans s (dropped s it) s' (dropped-SameKeys s it)
              (item_free-SameKeys (dropped s it) s' it e₃)
        | inr (more, e₃) ↦ subst (SameKeys s) (some_eq e₃) (dropped-SameKeys s it)
      ]

abbrev pub linked_up : Cache → ℕ → ℕ → Cache
linked_up s it hv =
    let s₁ = stamp (mark_linked s it) it in record s₁ { table = Assoc.insert s₁.table it hv }

-- The table after `do_item_link`, and the keys.
pub link_table :
    (s s' : Cache) (it hv : ℕ)
    → do_item_link s it hv ≡ some s'
    → (s'.table ≡ Assoc.insert s.table it hv) × ((p : ℕ) → key_of s' p ≡ key_of s p)
unfolding do_item_link
link_table s s' it hv e =
    let s₁ = stamp (mark_linked s it) it in
    let (_, e₁) =
      assert-some (not (s.metas it).it_flags.linked && not (s.metas it).it_flags.slabbed) _ e in
    let (s₃, e₂, e₃) = >>=-some (item_link_q (linked_up s it hv) it) _ e₁ in
    let s₄ =
      set_meta s₃ it (record (s₃.metas it) { refcount = refcount_incr (s₃.metas it).refcount }) in
    let (t₃, k₃) = item_link_q_same (linked_up s it hv) s₃ it e₂ in
    let (t₅, k₅) = count_size-SameKeys (λ n. add32 n 1) s₄ it in
    let (t₁, k₁) =
      SameKeys-trans s (mark_linked s it) s₁ (mark_linked-SameKeys s it)
        (stamp-SameKeys (mark_linked s it) it) in
    let same : count_size (λ n. add32 n 1) s₄ it ≡ s' = some_eq e₃ in
    subst
      (λ (x : Cache). (x.table ≡ Assoc.insert s.table it hv) × ((p : ℕ) → key_of x p ≡ key_of s p))
      same
      (
        t₅ ∙ t₃ ∙ ap (λ t. Assoc.insert t it hv) t₁,
        λ p. k₅ p ∙ (let k₄ : key_of s₄ p ≡ key_of s₃ p = ground arith in k₄) ∙ k₃ p ∙ k₁ p,
      )

abbrev pub cut_off : Cache → ℕ → Cache
cut_off s it = count_size (λ n. sub32 n 1) (mark_unlinked s it) it

pub cut_off-SameKeys : (s : Cache) (it : ℕ) → SameKeys s (cut_off s it)
cut_off-SameKeys s it =
    SameKeys-trans s (mark_unlinked s it) (cut_off s it) (mark_unlinked-SameKeys s it)
      (count_size-SameKeys (λ n. sub32 n 1) (mark_unlinked s it) it)

-- The table after `do_item_unlink` of a linked item, and the keys.
pub unlink_table :
    (s s' : Cache) (it hv : ℕ)
    → (s.metas it).it_flags.linked ≡ true
    → do_item_unlink s it hv ≡ some s'
    → (Assoc.delete (key_of s) s.table (key_of s it) hv ≡ some s'.table)
      × ((p : ℕ) → key_of s' p ≡ key_of s p)
unfolding do_item_unlink
unlink_table s s' it hv linked e =
    let s₁ = cut_off s it in
    let (t₁, k₁) = cut_off-SameKeys s it in
    let (t, e₁, e₂) =
      >>=-some (Assoc.delete (key_of s₁) s₁.table (key_of s₁ it) hv) _ (rw linked at e) in
    let s₂ : Cache = item_unlink_q (record s₁ { table = t }) it in
    let (t₂, k₂) = item_unlink_q-SameKeys (record s₁ { table = t }) it in
    let (t₃, k₃) = do_item_remove-SameKeys s₂ s' it e₂ in
    let keys : key_of s₁ ≡ key_of s = fun_ext k₁ in
    (rw (t₃, t₂) (rw (t₁, keys) at e₁), λ p. k₃ p ∙ k₂ p ∙ k₁ p)
