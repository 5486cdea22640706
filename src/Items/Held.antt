-- ===== src/Items/Held.antt =====
-- Unlinking an item that has a reference besides the table's.
use log_memcached.Base.{
  ℕ, ◌≢◌, ◌+◌, ◌^◌, ◌<◌, ◌≡◌, refl, true, false, not, some, List, ltb, ◌==◌, arith,
}
use mathlib.Core.Path.{fun_ext}
use log_memcached.Assoc
use log_memcached.Assoc.Update.{delete-Deleted}
use log_memcached.Items.{Cache, key_of, do_item_remove}
use log_memcached.Items.Link.{count_size, item_unlink_q, mark_unlinked, do_item_unlink}
use log_memcached.Items.Lookup.{dropped, cut_off, cut_off-SameKeys}
use log_memcached.Items.Map.{lookup, IsPlacedCache, hash_of}
use log_memcached.Items.Total.{>>=-eq, assert-eq, if-true, if-false}

-- With two references or more, giving one back only counts.
pub remove_held :
    (s : Cache) (it : ℕ)
    → (s.metas it).it_flags.slabbed ≡ false
    → 1 < (s.metas it).refcount
    → (s.metas it).refcount < 2 ^ 16
    → do_item_remove s it ≡ some (dropped s it)
unfolding do_item_remove
remove_held s it used held small =
    let a : not (s.metas it).it_flags.slabbed ≡ true = rw used refl in
    let b : ltb 0 (s.metas it).refcount ≡ true = ground arith in
    let more : ((dropped s it).metas it).refcount == 0 ≡ false = ground arith in
    assert-eq _ _ a (assert-eq _ _ b (if-false _ _ _ more refl))

-- `s'` has the metadata of `it` unlinked, with one reference fewer.
pub record LeftOver (s : Cache) (it : ℕ) (s' : Cache) : Type 0 where
  pub unlinked : (s'.metas it).it_flags.linked ≡ false
  pub used : (s'.metas it).it_flags.slabbed ≡ false
  pub fewer : (s'.metas it).refcount + 1 ≡ (s.metas it).refcount
  pub others : (x : ℕ) → x ≢ it → s'.metas x ≡ s.metas x
  pub first_free : s'.first_free ≡ s.first_free
  pub log : s'.log ≡ s.log

pub unlink_held :
    (hash : List ℕ → ℕ) (s : Cache) (it : ℕ)
    → IsPlacedCache hash s
    → lookup hash s (key_of s it) ≡ some it
    → (s.metas it).it_flags.linked ≡ true
    → (s.metas it).it_flags.slabbed ≡ false
    → 1 < (s.metas it).refcount
    → (s.metas it).refcount < 2 ^ 16
    → (s' : Cache) × (do_item_unlink s it (hash_of hash s it) ≡ some s') × LeftOver s it s'
unfolding do_item_unlink
unlink_held hash s it v found linked used held small =
    let hv = hash_of hash s it in
    let s₁ = cut_off s it in
    let (t₁, k₁) = cut_off-SameKeys s it in
    let keys : key_of s₁ ≡ key_of s = fun_ext k₁ in
    let (t, d) = delete-Deleted (key_of s) hash s.table (key_of s it) it v found in
    let del : Assoc.delete (key_of s₁) s₁.table (key_of s₁ it) hv ≡ some t =
      rw (t₁, keys) d.returns in
    let s₂ : Cache = item_unlink_q (record s₁ { table = t }) it in
    let f : (s₂.metas it).it_flags.linked ≡ false =
      unfold item_unlink_q count_size mark_unlinked in ground arith in
    let g : (s₂.metas it).it_flags.slabbed ≡ false =
      unfold item_unlink_q count_size mark_unlinked in ground arith in
    let r : (s₂.metas it).refcount ≡ (s.metas it).refcount =
      unfold item_unlink_q count_size mark_unlinked in ground arith in
    (
      dropped s₂ it,
      if-true _ _ _ linked
          (>>=-eq _ _ t del (remove_held s₂ it g (omega (arith, r)) (omega (arith, r)))),
      record {
        unlinked = ground (arith, f);
        used = ground (arith, g);
        fewer = ground (arith, r);
        others = λ x ne. unfold item_unlink_q count_size mark_unlinked in ground arith;
        first_free = unfold item_unlink_q count_size mark_unlinked in ground arith;
        log = unfold item_unlink_q count_size mark_unlinked in ground arith;
      },
    )
