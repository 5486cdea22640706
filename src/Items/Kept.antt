-- ===== src/Items/Kept.antt =====
-- What linking an item leaves of the others' metadata, and replacing one that is referenced besides.
use log_memcached.Memlog.{Memlog}
use log_memcached.Base.{
  ℕ, ◌+◌, true, false, ◌^◌, ◌<◌, ◌≡◌, ◌≢◌, refl, sym, ap, ◌∙◌, ◌&&◌, not, some, List, arith,
}
use mathlib.Core.Path.{subst}
use log_memcached.Base.Memory.{Memory, store}
use log_memcached.Base.Words.{add32, add64}
use log_memcached.Items.{Cache, Metadata, item_of, key_of, set_meta, refcount_incr}
use log_memcached.Items.Link.{
  stamp, count_size, item_link_q, mark_linked, do_item_link, do_item_replace,
}
use log_memcached.Items.Lookup.{linked_up, assert-some, >>=-some, some_eq}
use log_memcached.Items.Map.{IsPlacedCache, hash_of, replace-IsPlacedCache}
use log_memcached.Items.Total.{stamp_metas, count_size_metas, link_total, assert-eq, >>=-eq}
use log_memcached.Items.Others.{do_item_unlink-SameFlags}
use log_memcached.Items.Replace.{Updated, IsLinked, IsLoose}
use log_memcached.Items.Held.{unlink_held}

item_link_q_metas : (s s' : Cache) (it : ℕ) → item_link_q s it ≡ some s' → s'.metas ≡ s.metas
unfolding item_link_q
item_link_q_metas s s' it e =
    let id = (s.metas it).slabs_clsid in
    let counted : Cache = record s {
      sizes = store s.sizes id (add32 (s.sizes id) 1);
      sizes_bytes = store s.sizes_bytes id (add64 (s.sizes_bytes id) (item_of s it).nbytes);
    } in
    let (_, e₁) = assert-some (not (s.metas it).it_flags.slabbed) (some counted) e in
    subst (λ (x : Cache). x.metas ≡ s.metas) (some_eq e₁) refl

-- `do_item_link` writes no metadata but that of its item.
pub do_item_link_metas :
    (s s' : Cache) (it hv p : ℕ) → do_item_link s it hv ≡ some s' → p ≢ it → s'.metas p ≡ s.metas p
unfolding do_item_link
do_item_link_metas s s' it hv p e ne =
    let (_, e₁) =
      assert-some (not (s.metas it).it_flags.linked && not (s.metas it).it_flags.slabbed) _ e in
    let (s₃, e₂, e₃) = >>=-some (item_link_q (linked_up s it hv) it) _ e₁ in
    let s₄ =
      set_meta s₃ it (record (s₃.metas it) { refcount = refcount_incr (s₃.metas it).refcount }) in
    let same : count_size (λ n. add32 n 1) s₄ it ≡ s' = some_eq e₃ in
    let m₅ : (count_size (λ n. add32 n 1) s₄ it).metas ≡ s₄.metas =
      count_size_metas (λ n. add32 n 1) s₄ it in
    let m₄ : s₄.metas p ≡ s₃.metas p = ground (arith, ne) in
    let m₃ : s₃.metas ≡ (linked_up s it hv).metas =
      item_link_q_metas (linked_up s it hv) s₃ it e₂ in
    let m₂ : (linked_up s it hv).metas ≡ (mark_linked s it).metas =
      stamp_metas (mark_linked s it) it in
    let m₁ : (mark_linked s it).metas p ≡ s.metas p = unfold mark_linked in ground (arith, ne) in
    let at : (x y : Memory Metadata) → x ≡ y → x p ≡ y p =
      λ x y r. ap (λ (m : Memory Metadata). m p) r in
    subst (λ (x : Cache). x.metas p ≡ s.metas p) same (at _ _ m₅ ∙ m₄ ∙ at _ _ m₃ ∙ at _ _ m₂ ∙ m₁)

-- what `do_item_link` does to its item, and what it leaves alone
pub record Entered (s : Cache) (it : ℕ) (s' : Cache) : Type 0 where
  pub linked : (s'.metas it).it_flags.linked ≡ true
  pub used : (s'.metas it).it_flags.slabbed ≡ false
  pub counted : (s'.metas it).refcount ≡ refcount_incr (s.metas it).refcount
  pub item : (s'.metas it).item ≡ (s.metas it).item
  pub first_free : s'.first_free ≡ s.first_free
  pub current : s'.log.current ≡ s.log.current
  pub memory : (p : ℕ) → p ≢ (s.metas it).item → s'.log.memory p ≡ s.log.memory p

pub do_item_link-Entered :
    (s s' : Cache) (it hv : ℕ) → do_item_link s it hv ≡ some s' → Entered s it s'
unfolding do_item_link mark_linked stamp item_link_q count_size
do_item_link-Entered s s' it hv e = record {
  linked = ground arith;
  used = ground arith;
  counted = ground arith;
  item = ground arith;
  first_free = ground arith;
  current = ground arith;
  memory = λ p ne. ground arith;
}

-- The effect of linking an item in a state that differs from `s` elsewhere.
Entered-before :
    (s s₁ s' : Cache) (it : ℕ)
    → s₁.metas it ≡ s.metas it
    → s₁.first_free ≡ s.first_free
    → s₁.log ≡ s.log
    → Entered s₁ it s'
    → Entered s it s'
Entered-before s s₁ s' it m f l e = record {
  linked = e.linked;
  used = e.used;
  counted = e.counted ∙ ap (λ (x : Metadata). refcount_incr x.refcount) m;
  item = e.item ∙ ap (λ (x : Metadata). x.item) m;
  first_free = e.first_free ∙ f;
  current = e.current ∙ ap (λ (x : Memlog). x.current) l;
  memory = λ p ne.
      e.memory p (λ q. ne (q ∙ ap (λ (x : Metadata). x.item) m))
      ∙ ap (λ (x : Memlog). x.memory p) l;
}

-- `s'` is `s` with `new_it` linked and `it` out of the table, with one reference fewer.
pub record Swapped (s : Cache) (it new_it : ℕ) (s' : Cache) : Type 0 where
  pub unlinked : (s'.metas it).it_flags.linked ≡ false
  pub used : (s'.metas it).it_flags.slabbed ≡ false
  pub fewer : (s'.metas it).refcount + 1 ≡ (s.metas it).refcount
  pub entered : Entered s new_it s'
  pub others : (x : ℕ) → x ≢ it → x ≢ new_it → s'.metas x ≡ s.metas x

module _ (hash : List ℕ → ℕ) where
  -- Replacing an item that has a reference besides the table's leaves that reference.
  pub replace_held :
      (s : Cache) (it new_it : ℕ)
      → IsPlacedCache hash s
      → IsLinked hash s it
      → IsLoose hash s new_it
      → key_of s new_it ≡ key_of s it
      → 1 < (s.metas it).refcount
      → (s.metas it).refcount < 2 ^ 16
      → (s' : Cache) × (do_item_replace s it new_it (hash_of hash s it) ≡ some s')
        × Updated hash s (key_of s it) (some new_it) s'
        × Swapped s it new_it s'
  unfolding do_item_replace
  replace_held s it new_it v l n same held small =
      let hv = hash_of hash s it in
      let (s₁, out, left) = unlink_held hash s it v l.found l.linked l.used held small in
      let other : new_it ≢ it = λ e. ground (arith, l.linked, n.unlinked) in
      let flags = do_item_unlink-SameFlags s s₁ it hv l.linked out new_it other in
      let (s', into) = link_total s₁ new_it hv (rw flags n.unlinked) (rw flags n.used) in
      let kept = do_item_link_metas s₁ s' new_it hv it into (λ e. other (sym e)) in
      let e : do_item_replace s it new_it hv ≡ some s' =
        assert-eq _ _ (rw l.used refl) (>>=-eq _ _ s₁ out into) in
      let (placed, reads, keys) =
        replace-IsPlacedCache hash s s' it new_it v l.found l.linked same e in
      (
        s',
        e,
        record { placed = placed; reads = reads; keys = keys },
        record {
          unlinked = rw kept left.unlinked;
          used = rw kept left.used;
          fewer = rw kept left.fewer;
          entered =
              Entered-before s s₁ s' new_it (left.others new_it other) left.first_free left.log
                (do_item_link-Entered s₁ s' new_it hv into);
          others = λ x ne ne'. do_item_link_metas s₁ s' new_it hv x into ne' ∙ left.others x ne;
        },
      )
