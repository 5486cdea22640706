-- ===== src/Items/Others.antt =====
-- What unlinking an item leaves of the others' flags.
use log_memcached.Base.{ℕ, ◌≡◌, ◌≢◌, ◌∙◌, true, not, some, ltb, ◌==◌, arith, inl, inr}
use mathlib.Core.Path.{subst}
use log_memcached.Assoc
use log_memcached.Items.{Cache, key_of, freelist_free, item_free, do_item_remove}
use log_memcached.Items.Link.{count_size, item_unlink_q, mark_unlinked, do_item_unlink}
use log_memcached.Items.Lookup.{dropped, cut_off, assert-some, >>=-some, if-cases, some_eq}

abbrev pub SameFlags : ℕ → Cache → Cache → Type 0
SameFlags it s s' = (p : ℕ) → p ≢ it → (s'.metas p).it_flags ≡ (s.metas p).it_flags

freelist_free-SameFlags : (s : Cache) (it : ℕ) → SameFlags it s (freelist_free s it)
unfolding freelist_free
freelist_free-SameFlags s it p ne = ground arith

item_free-SameFlags : (s s' : Cache) (it : ℕ) → item_free s it ≡ some s' → SameFlags it s s'
unfolding item_free
item_free-SameFlags s s' it e =
    let (_, e₁) = assert-some (not (s.metas it).it_flags.linked) _ e in
    let (_, e₂) = assert-some ((s.metas it).refcount == 0) (some (freelist_free s it)) e₁ in
    subst (SameFlags it s) (some_eq e₂) (freelist_free-SameFlags s it)

dropped-SameFlags : (s : Cache) (it : ℕ) → SameFlags it s (dropped s it)
dropped-SameFlags s it p ne = ground arith

do_item_remove-SameFlags :
    (s s' : Cache) (it : ℕ) → do_item_remove s it ≡ some s' → SameFlags it s s'
unfolding do_item_remove
do_item_remove-SameFlags s s' it e =
    let (_, e₁) = assert-some (not (s.metas it).it_flags.slabbed) _ e in
    let (_, e₂) = assert-some (ltb 0 (s.metas it).refcount) _ e₁ in
    elim (if-cases (((dropped s it).metas it).refcount == 0) (item_free (dropped s it) it)
      (some (dropped s it)) e₂) [
        | inl (last, e₃) ↦
            λ p ne. item_free-SameFlags (dropped s it) s' it e₃ p ne ∙ dropped-SameFlags s it p ne
        | inr (more, e₃) ↦ subst (SameFlags it s) (some_eq e₃) (dropped-SameFlags s it)
      ]

cut_off-SameFlags : (s : Cache) (it : ℕ) → SameFlags it s (cut_off s it)
unfolding count_size mark_unlinked
cut_off-SameFlags s it p ne = ground arith

pub do_item_unlink-SameFlags :
    (s s' : Cache) (it hv : ℕ)
    → (s.metas it).it_flags.linked ≡ true
    → do_item_unlink s it hv ≡ some s'
    → SameFlags it s s'
unfolding do_item_unlink item_unlink_q
do_item_unlink-SameFlags s s' it hv linked e =
    let s₁ = cut_off s it in
    elim (if-cases (s.metas it).it_flags.linked _ (some s) e) [
      | inr (unlinked, _) ↦ absurd (ground arith)
      | inl (_, e₀) ↦
          let (t, e₁, e₂) = >>=-some (Assoc.delete (key_of s₁) s₁.table (key_of s₁ it) hv) _ e₀ in
          let s₂ : Cache = item_unlink_q (record s₁ { table = t }) it in
          λ p ne. do_item_remove-SameFlags s₂ s' it e₂ p ne ∙ cut_off-SameFlags s it p ne
    ]
