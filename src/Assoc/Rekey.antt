-- ===== src/Assoc/Rekey.antt =====
-- Lookups in the table of assoc.c when the key of an item outside the table changes.
use log_memcached.Base.{
  ℕ, ◌≡◌, refl, ◌∙◌, inl, inr, true, some, List, [], ◌∷◌, arith, list_eq_iff, Bool-cases,
}
use log_memcached.Assoc.{Table, Chain, old_bucket, new_bucket, in_old, chain_of, find_in, find}
use log_memcached.Assoc.Chains.{Unique}
use log_memcached.Assoc.Placed.{IsPlaced}

pub find_in-key :
    (key_of : ℕ → List ℕ) (q : List ℕ) (c : Chain) (it : ℕ)
    → find_in key_of q c ≡ some it
    → key_of it ≡ q
unfolding find_in
find_in-key key_of q [] it e = cc
find_in-key key_of q (x ∷ c) it e =
    ground (arith, list_eq_iff q (key_of x), find_in-key key_of q c it)

pub find-key :
    (key_of : ℕ → List ℕ) (t : Table) (q : List ℕ) (hv it : ℕ)
    → find key_of t q hv ≡ some it
    → key_of it ≡ q
unfolding find
find-key key_of t q hv it e = find_in-key key_of q (chain_of t hv) it e

module _ (key_of new_key : ℕ → List ℕ) where
  -- The keys that a chain is searched by are those of its items.
  Agrees : Chain → Type 0
  Agrees c = (x : ℕ) → find_in key_of (key_of x) c ≡ some x → new_key x ≡ key_of x

  head-Agrees : (x : ℕ) (c : Chain) → Agrees (x ∷ c) → new_key x ≡ key_of x
  unfolding Agrees find_in
  head-Agrees x c a = a x (ground (arith, list_eq_iff (key_of x) (key_of x)))

  tail-Agrees : (x : ℕ) (c : Chain) → Unique key_of (x ∷ c) → Agrees (x ∷ c) → Agrees c
  unfolding Agrees find_in
  tail-Agrees x c u a = λ y found. a y (ground (arith, u.0, list_eq_iff (key_of y) (key_of x)))

  find_in-rekey :
      (q : List ℕ) (c : Chain)
      → Unique key_of c
      → Agrees c
      → find_in new_key q c ≡ find_in key_of q c
  unfolding find_in
  find_in-rekey q [] u a = refl
  find_in-rekey q (x ∷ c) u a =
      let rest = find_in-rekey q c u.1 (tail-Agrees x c u a) in rw (head-Agrees x c a, rest) refl

  Unique-rekey : (c : Chain) → Unique key_of c → Agrees c → Unique new_key c
  unfolding find_in
  Unique-rekey [] u a = tt
  Unique-rekey (x ∷ c) u a =
      let rest = tail-Agrees x c u a in
      (rw (head-Agrees x c a) (find_in-rekey (key_of x) c u.1 rest ∙ u.0), Unique-rekey c u.1 rest)

  module _ (hash : List ℕ → ℕ) (t : Table) (v : IsPlaced key_of hash t)
      (kept : (x : ℕ)
        → find key_of t (key_of x) (hash (key_of x)) ≡ some x
        → new_key x ≡ key_of x) where
    primary-Agrees : (b : ℕ) → Agrees (t.primary b)
    unfolding Agrees find chain_of
    primary-Agrees b = λ x found. kept x (ground (arith, v.home (key_of x) b, v.not_yet (key_of x)))

    old-Agrees : (b : ℕ) → t.expanding ≡ true → Agrees (t.old b)
    unfolding Agrees find chain_of in_old find_in
    old-Agrees b busy =
        λ x found. kept x (ground (arith, v.old_home busy (key_of x) b, v.moved busy b))

    chain-Agrees : (hv : ℕ) → Unique key_of (chain_of t hv) × Agrees (chain_of t hv)
    unfolding chain_of
    chain-Agrees hv = elim (Bool-cases (in_old t hv)) [
      | inl e ↦
          let busy : t.expanding ≡ true = unfold in_old in ground arith in
          rw e (v.old_unique (old_bucket t hv) busy, old-Agrees (old_bucket t hv) busy)
      | inr e ↦ rw e (v.unique (new_bucket t hv), primary-Agrees (new_bucket t hv))
    ]

    -- If the items that are found keep their keys, every lookup gives what it gave before, and the
    -- table is well placed for the new keys.
    pub find-rekey : (q : List ℕ) → find new_key t q (hash q) ≡ find key_of t q (hash q)
    unfolding find
    find-rekey q = let (u, a) = chain-Agrees (hash q) in find_in-rekey q (chain_of t (hash q)) u a

    pub IsPlaced-rekey : IsPlaced new_key hash t
    IsPlaced-rekey =
        let old = λ (q : List ℕ) (b : ℕ) (busy : t.expanding ≡ true).
          find_in-rekey q (t.old b) (v.old_unique b busy) (old-Agrees b busy) in
        let new =
          λ (q : List ℕ) (b : ℕ). find_in-rekey q (t.primary b) (v.unique b) (primary-Agrees b) in
        record {
          old_home = λ busy q b ne. old q b busy ∙ v.old_home busy q b ne;
          home = λ q b ne. new q b ∙ v.home q b ne;
          not_yet = λ q e. new q (new_bucket t (hash q)) ∙ v.not_yet q e;
          moved = v.moved;
          old_unique = λ b busy. Unique-rekey (t.old b) (v.old_unique b busy) (old-Agrees b busy);
          unique = λ b. Unique-rekey (t.primary b) (v.unique b) (primary-Agrees b);
          progress = v.progress;
          small = v.small;
        }
