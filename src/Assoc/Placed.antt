-- ===== src/Assoc/Placed.antt =====
-- Where items stand while the table of assoc.c grows.
use log_memcached.Base.{
  ℕ, [], zero, suc, ◌+◌, ◌-◌, ◌^◌, ◌<◌, ◌≡◌, ◌≢◌, refl, Bool, true, false, none, List, arith,
}
use native.Mathlib.Nat.{pow-suc}
use log_memcached.Assoc.{
  Table, HashStats, hashsize, old_bucket, new_bucket, in_old, init, expand, find_in, find,
}
use log_memcached.Assoc.Chains.{Unique}

pub pow_pos : (n : ℕ) → 0 < 2 ^ n
pow_pos zero = omega arith
pow_pos (suc n) = rw pow-suc (omega (arith, pow_pos n))

module _ (key_of : ℕ → List ℕ) (hash : List ℕ → ℕ) where
  -- Every item stands in the bucket of its key, in the old table exactly while that bucket has not
  -- been moved, and no chain holds a key twice.
  pub record IsPlaced (t : Table) : Type 0 where
    pub old_home :
        t.expanding ≡ true
        → (q : List ℕ) (b : ℕ) → b ≢ old_bucket t (hash q)
        → find_in key_of q (t.old b) ≡ none
    pub home :
        (q : List ℕ) (b : ℕ) → b ≢ new_bucket t (hash q) → find_in key_of q (t.primary b) ≡ none
    pub not_yet :
        (q : List ℕ)
        → in_old t (hash q) ≡ true
        → find_in key_of q (t.primary (new_bucket t (hash q))) ≡ none
    pub moved : t.expanding ≡ true → (b : ℕ) → b < t.expand_bucket → t.old b ≡ []
    pub old_unique : (b : ℕ) → t.expanding ≡ true → Unique key_of (t.old b)
    pub unique : (b : ℕ) → Unique key_of (t.primary b)
    pub progress : t.expanding ≡ true → t.expand_bucket < hashsize (t.hashpower - 1)
    pub small : t.expanding ≡ true → hashsize (t.hashpower - 1) < 2 ^ 32

  pub init-IsPlaced : (n : ℕ) (stats : HashStats) → IsPlaced (init n stats)
  unfolding init find_in
  init-IsPlaced n stats = record {
    old_home = λ e. cc;
    home = λ q b h. refl;
    not_yet = λ q e. refl;
    moved = λ e. cc;
    old_unique = λ b e. cc;
    unique = λ b. tt;
    progress = λ e. cc;
    small = λ e. cc;
  }

  module _ (t : Table) (v : IsPlaced t) where
    -- `assoc_expand` changes no lookup.
    pub find-expand :
        (allocated : Bool) (q : List ℕ)
        → t.expanding ≡ false
        → find key_of (expand allocated t) q (hash q) ≡ find key_of t q (hash q)
    unfolding find expand
    find-expand false q idle = ground arith
    find-expand true q idle = ground arith

    pub expand-IsPlaced :
        (allocated : Bool)
        → t.expanding ≡ false
        → hashsize t.hashpower < 2 ^ 32
        → IsPlaced (expand allocated t)
    unfolding expand find_in
    expand-IsPlaced false idle h = record {
      old_home = λ e. cc;
      home = v.home;
      not_yet = λ q e. unfold in_old in ground arith;
      moved = λ e. cc;
      old_unique = λ b e. cc;
      unique = v.unique;
      progress = λ e. cc;
      small = λ e. cc;
    }
    expand-IsPlaced true idle h =
        let same : t.hashpower + 1 - 1 ≡ t.hashpower = omega arith in
        record {
          old_home = λ e q b ne. v.home q b (rw same at ne);
          home = λ q b ne. refl;
          not_yet = λ q e. refl;
          moved = λ e b lt. absurd (omega arith);
          old_unique = λ b e. v.unique b;
          unique = λ b. tt;
          progress = λ e. pow_pos (t.hashpower + 1 - 1);
          small = λ e. rw same h;
        }
