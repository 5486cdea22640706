-- ===== src/Assoc/Chains.antt =====
-- Lookups in one chain of assoc.c.
use log_memcached.Base.{
  ℕ, ◌%◌, ◌≡◌, ◌≢◌, refl, inl, inr, none, some, List, [], ◌∷◌, ◌==◌, arith, if◌then◌else◌, list_eq,
  list_eq_iff, Bool-cases, Option-cases,
}
use mathlib.Core.Option.{or_else}
use log_memcached.Base.Memory.{Memory, store}
use log_memcached.Assoc.{Chain, hashsize, find_in, remove_from, move_chain}

module _ (key_of : ℕ → List ℕ) where
  -- no two items of a chain have one key
  abbrev pub Unique : Chain → Type 0
  Unique [] = Unit {0}
  Unique (it ∷ c) = (find_in key_of (key_of it) c ≡ none) × Unique c

  pub find_in-remove_from :
      (key q : List ℕ) (c c' : Chain)
      → Unique c
      → remove_from key_of key c ≡ some c'
      → (find_in key_of q c' ≡ (if list_eq q key then none else find_in key_of q c)) × Unique c'
  unfolding find_in remove_from
  find_in-remove_from key q [] c' u e = cc
  find_in-remove_from key q (it ∷ c) c' u e = elim (Bool-cases (list_eq key (key_of it))) [
    | inl found ↦
        let same : c ≡ c' = ground arith in
        rw (← same) (
          ground (arith, list_eq_iff q key, list_eq_iff key (key_of it), list_eq_iff q (key_of it)),
          u.1,
        )
    | inr other ↦ elim (Option-cases (remove_from key_of key c)) [
      | inl missing ↦ absurd (ground arith)
      | inr (c'', rest) ↦
          let (at_q, u'') = find_in-remove_from key q c c'' u.1 rest in
          let (at_it, _) = find_in-remove_from key (key_of it) c c'' u.1 rest in
          let same : it ∷ c'' ≡ c' = ground arith in
          rw (← same) (
            ground
                (arith, list_eq_iff q key, list_eq_iff key (key_of it), list_eq_iff q (key_of it)),
            (ground arith, u''),
          )
    ]
  ]

  pub remove_from-eq-none :
      (key : List ℕ) (c : Chain) → (remove_from key_of key c ≡ none) → find_in key_of key c ≡ none
  unfolding find_in remove_from
  remove_from-eq-none key [] e = refl
  remove_from-eq-none key (it ∷ c) e = ground (arith, remove_from-eq-none key c)

  module _ (hash : List ℕ → ℕ) where
    -- Moving a chain to the primary table adds its items in front of what the buckets held.
    pub find_in-move_chain :
        (power : ℕ) (q : List ℕ) (c : Chain) (primary : Memory Chain) (b : ℕ)
        → Unique c
        → find_in key_of q (move_chain key_of hash power c primary b) ≡ (
            if b == hash q % hashsize power
            then or_else (find_in key_of q c) (find_in key_of q (primary b))
            else find_in key_of q (primary b))
    unfolding find_in move_chain or_else
    find_in-move_chain power q [] primary b u = ground arith
    find_in-move_chain power q (it ∷ c) primary b u =
        let bucket = hash (key_of it) % hashsize power in
        ground (
          arith,
          find_in-move_chain power q c (store primary bucket (it ∷ primary bucket)) b,
          list_eq_iff q (key_of it),
        )

    -- Moved chains stay without repeated keys if the buckets did not have the moved keys.
    pub move_chain-Unique :
        (power : ℕ) (c : Chain) (primary : Memory Chain)
        → Unique c
        → ((b : ℕ) → Unique (primary b))
        → ((q : List ℕ)
            → find_in key_of q c ≢ none
            → find_in key_of q (primary (hash q % hashsize power)) ≡ none)
        → (b : ℕ) → Unique (move_chain key_of hash power c primary b)
    unfolding find_in move_chain
    move_chain-Unique power [] primary u v new b = v b
    move_chain-Unique power (it ∷ c) primary u v new b =
        let bucket = hash (key_of it) % hashsize power in
        let absent : find_in key_of (key_of it) (primary bucket) ≡ none =
          new (key_of it) (λ e. ground (arith, list_eq_iff (key_of it) (key_of it))) in
        move_chain-Unique power c (store primary bucket (it ∷ primary bucket)) u.1
          (λ b'. elim (Bool-cases (b' == bucket)) [
            | inl e ↦ rw e (absent, v bucket)
            | inr e ↦ rw e (v b')
          ])
          (λ q found. ground (arith, new q, list_eq_iff q (key_of it), u.0)) b
