-- ===== src/Assoc/Grow.antt =====
-- The growth of the table of assoc.c, bucket by bucket.
use log_memcached.Base.{
  ℕ, zero, suc, ◌+◌, ◌-◌, ◌≤◌, ◌<◌, ◌≡◌, refl, sym, ap, ◌∙◌, ◌⊎◌, inl, inr, true, false, List,
  arith, Bool-cases,
}
use mathlib.Core.Path.{subst}
use mathlib.Core.Option.{or_else}
use log_memcached.Base.Words.{add32}
use log_memcached.Assoc.{
  Table, hashsize, old_bucket, new_bucket, in_old, find_in, find, move_chain, move_bucket, maintain,
}
use log_memcached.Assoc.Chains.{Unique, find_in-move_chain, move_chain-Unique}
use log_memcached.Assoc.Placed.{IsPlaced, pow_pos}

module _ (key_of : ℕ → List ℕ) (hash : List ℕ → ℕ) where
  module _ (t : Table) (v : IsPlaced key_of hash t) (busy : t.expanding ≡ true) where
    next_bucket : add32 t.expand_bucket 1 ≡ t.expand_bucket + 1
    next_bucket = omega (arith, v.progress busy, v.small busy)

    old_bucket-lt : (hv : ℕ) → old_bucket t hv < hashsize (t.hashpower - 1)
    old_bucket-lt hv = omega (arith, pow_pos (t.hashpower - 1))

    -- Moving a bucket changes no lookup.
    pub find-move_bucket :
        (q : List ℕ) → find key_of (move_bucket key_of hash t) q (hash q) ≡ find key_of t q (hash q)
    unfolding find move_bucket or_else
    find-move_bucket q = ground (
      arith,
      next_bucket,
      old_bucket-lt (hash q),
      v.old_home busy q t.expand_bucket,
      v.not_yet q,
      find_in-move_chain key_of hash t.hashpower q (t.old t.expand_bucket) t.primary
          (new_bucket t (hash q)) (v.old_unique t.expand_bucket busy),
    )

    moved-Unique :
        (b : ℕ)
        → Unique key_of (move_chain key_of hash t.hashpower (t.old t.expand_bucket) t.primary b)
    unfolding in_old
    moved-Unique =
        move_chain-Unique key_of hash t.hashpower (t.old t.expand_bucket) t.primary
          (v.old_unique t.expand_bucket busy) v.unique
          (λ q found. ground (arith, v.not_yet q, v.old_home busy q t.expand_bucket))

    pub move_bucket-IsPlaced : IsPlaced key_of hash (move_bucket key_of hash t)
    unfolding move_bucket in_old or_else find_in
    move_bucket-IsPlaced =
        let b = t.expand_bucket in
        record {
          old_home = λ e q b' ne. ground (arith, v.old_home busy q b');
          home = λ q b' ne. ground (
            arith,
            v.home q b',
            find_in-move_chain key_of hash t.hashpower q (t.old b) t.primary b'
                (v.old_unique b busy),
          );
          not_yet = λ q e. ground (
            arith,
            next_bucket,
            v.not_yet q,
            v.old_home busy q b,
            find_in-move_chain key_of hash t.hashpower q (t.old b) t.primary (new_bucket t (hash q))
                (v.old_unique b busy),
          );
          moved = λ e b' lt. ground (arith, next_bucket, v.moved busy b');
          old_unique = λ b' e. ground (arith, v.old_unique b' busy);
          unique = λ b'. ground (arith, moved-Unique b');
          progress = λ e. ground (arith, next_bucket, v.progress busy);
          small = λ e. ground (arith, v.small busy);
        }

    -- What is left to move shrinks, or nothing is left.
    move_bucket-progress :
        (((move_bucket key_of hash t).expanding ≡ false)
          ⊎ ((move_bucket key_of hash t).expand_bucket ≡ t.expand_bucket + 1))
        × ((move_bucket key_of hash t).hashpower ≡ t.hashpower)
    unfolding move_bucket
    move_bucket-progress = ground (arith, next_bucket)

  -- rounds of the maintenance thread that all get the lock
  pub rounds : ℕ → Table → Table
  rounds zero t = t
  rounds (suc n) t = rounds n (maintain key_of hash true t)

  maintain_idle : (t : Table) → t.expanding ≡ false → maintain key_of hash true t ≡ t
  unfolding maintain
  maintain_idle t e = rw e refl

  maintain_busy :
      (t : Table) → t.expanding ≡ true → maintain key_of hash true t ≡ move_bucket key_of hash t
  unfolding maintain
  maintain_busy t e = rw e refl

  rounds_idle : (n : ℕ) (t : Table) → t.expanding ≡ false → rounds n t ≡ t
  unfolding rounds
  rounds_idle zero t e = refl
  rounds_idle (suc n) t e = rw (maintain_idle t e, rounds_idle n t e) refl

  -- the expansion of `t` has ended in `r`
  abbrev pub Ended : Table → Table → Type 0
  Ended t r =
      (r.expanding ≡ false)
      × IsPlaced key_of hash r
      × ((q : List ℕ) → find key_of r q (hash q) ≡ find key_of t q (hash q))

  -- As many rounds of the maintenance thread that get their lock as buckets are left to move end
  -- the growth of a well-placed table; the table stays well placed and every lookup gives what it
  -- gave before.
  pub rounds-IsPlaced :
      (n : ℕ) (t : Table)
      → IsPlaced key_of hash t
      → hashsize (t.hashpower - 1) ≤ t.expand_bucket + n
      → Ended t (rounds n t)
  unfolding rounds
  rounds-IsPlaced zero t v h = elim (Bool-cases t.expanding) [
    | inl busy ↦ absurd (omega (arith, v.progress busy))
    | inr idle ↦ (idle, v, λ q. refl)
  ]
  rounds-IsPlaced (suc n) t v h = elim (Bool-cases t.expanding) [
    | inr idle ↦ subst (Ended t) (sym (rounds_idle (suc n) t idle)) (idle, v, λ q. refl)
    | inl busy ↦
        let (left, power) = move_bucket-progress t v busy in
        let v' = move_bucket-IsPlaced t v busy in
        subst (Ended t) (sym (ap (rounds n) (maintain_busy t busy))) (elim left [
          | inl done ↦
              subst (Ended t) (sym (rounds_idle n (move_bucket key_of hash t) done))
                (done, v', find-move_bucket t v busy)
          | inr more ↦
              let (end, last, same) =
                rounds-IsPlaced n (move_bucket key_of hash t) v' (rw (power, more) (omega arith)) in
              (end, last, λ q. same q ∙ find-move_bucket t v busy q)
        ])
  ]
