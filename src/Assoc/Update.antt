-- ===== src/Assoc/Update.antt =====
-- `assoc_insert` and `assoc_delete` as updates of the map from keys to items.
use log_memcached.Base.{
  ℕ, ◌≡◌, refl, ap, ◌∙◌, inl, inr, Option, none, some, List, [], ◌∷◌, arith, if◌then◌else◌, list_eq,
  list_eq_iff, Bool-cases,
}
use log_memcached.Base.Words.{sub32}
use log_memcached.Assoc.{
  Table, Chain, old_bucket, new_bucket, in_old, chain_of, set_chain, count_insert, insert, find_in,
  find, remove_from, delete,
}
use log_memcached.Assoc.Chains.{Unique, find_in-remove_from}
use log_memcached.Assoc.Placed.{IsPlaced}

module _ (key_of : ℕ → List ℕ) (hash : List ℕ → ℕ) where
  module _ (t : Table) (v : IsPlaced key_of hash t) where
    -- A chain rewritten at one key changes the lookups of that key alone.
    module _ (key : List ℕ) (c : Chain) (r : Option ℕ)
        (reads : (q : List ℕ)
          → find_in key_of q c
            ≡ (if list_eq q key then r else find_in key_of q (chain_of t (hash key)))) where
      find-set_chain :
          (q : List ℕ)
          → find key_of (set_chain t (hash key) c) q (hash q)
            ≡ (if list_eq q key then r else find key_of t q (hash q))
      unfolding find set_chain
      find-set_chain q = ground (arith, reads q, list_eq_iff q key)

      set_chain-IsPlaced : Unique key_of c → IsPlaced key_of hash (set_chain t (hash key) c)
      unfolding set_chain chain_of
      set_chain-IsPlaced u = record {
        old_home =
            λ e q b ne. ground (arith, reads q, list_eq_iff q key, v.old_home (ground arith) q b);
        home = λ q b ne. ground (arith, reads q, list_eq_iff q key, v.home q b);
        not_yet = λ q e. ground (arith, reads q, list_eq_iff q key, v.not_yet q);
        moved = λ e b lt. ground (arith, v.moved (ground arith) b);
        old_unique = λ b e. ground (arith, u, v.old_unique b (ground arith));
        unique = λ b. ground (arith, u, v.unique b);
        progress = λ e. ground (arith, v.progress);
        small = λ e. ground (arith, v.small);
      }

    chain_of-Unique : (hv : ℕ) → Unique key_of (chain_of t hv)
    unfolding chain_of
    chain_of-Unique hv = elim (Bool-cases (in_old t hv)) [
      | inl e ↦ rw e (v.old_unique (old_bucket t hv) (unfold in_old in ground arith))
      | inr e ↦ rw e (v.unique (new_bucket t hv))
    ]

    -- counting does not touch the chains
    find-count_insert :
        (q : List ℕ) (hv : ℕ) → find key_of (count_insert t) q hv ≡ find key_of t q hv
    unfolding find count_insert
    find-count_insert q hv = ground arith

    count_insert-IsPlaced : IsPlaced key_of hash (count_insert t)
    unfolding count_insert in_old
    count_insert-IsPlaced = record {
      old_home = λ e q b ne. ground (arith, v.old_home (ground arith) q b);
      home = λ q b ne. ground (arith, v.home q b);
      not_yet = λ q e. ground (arith, v.not_yet q);
      moved = λ e b lt. ground (arith, v.moved (ground arith) b);
      old_unique = λ b e. ground (arith, v.old_unique b (ground arith));
      unique = λ b. ground (arith, v.unique b);
      progress = λ e. ground (arith, v.progress);
      small = λ e. ground (arith, v.small);
    }

  -- After assoc_insert of an item whose key a well-placed table does not have, that key is found,
  -- every other lookup gives what it gave before, and the table is well placed, also in the middle
  -- of a growth.
  pub insert-IsPlaced :
      (t : Table) (it : ℕ)
      → IsPlaced key_of hash t
      → find key_of t (key_of it) (hash (key_of it)) ≡ none
      → IsPlaced key_of hash (insert t it (hash (key_of it)))
        × ((q : List ℕ)
            → find key_of (insert t it (hash (key_of it))) q (hash q)
              ≡ (if list_eq q (key_of it) then some it else find key_of t q (hash q)))
  unfolding insert
  insert-IsPlaced t it v fresh =
      let key = key_of it in
      let c = it ∷ chain_of t (hash key) in
      let reads : (q : List ℕ)
          → find_in key_of q c
            ≡ (if list_eq q key then some it else find_in key_of q (chain_of t (hash key))) =
        λ q. unfold find_in in refl in
      let missing : find_in key_of key (chain_of t (hash key)) ≡ none = unfold find in fresh in
      let v' =
        set_chain-IsPlaced t v key c (some it) reads (missing, chain_of-Unique t v (hash key)) in
      (
        count_insert-IsPlaced (set_chain t (hash key) c) v',
        λ q.
            find-count_insert (set_chain t (hash key) c) v' q (hash q)
            ∙ find-set_chain t v key c (some it) reads q,
      )

  counted-IsPlaced :
      (t : Table)
      → IsPlaced key_of hash t
      → IsPlaced key_of hash (record t { hash_items = sub32 t.hash_items 1 })
  unfolding in_old
  counted-IsPlaced t v = record {
    old_home = v.old_home;
    home = v.home;
    not_yet = v.not_yet;
    moved = v.moved;
    old_unique = v.old_unique;
    unique = v.unique;
    progress = v.progress;
    small = v.small;
  }

  find-counted :
      (t : Table) (q : List ℕ) (hv : ℕ)
      → find key_of (record t { hash_items = sub32 t.hash_items 1 }) q hv ≡ find key_of t q hv
  unfolding find
  find-counted t q hv = refl

  -- What `assoc_delete` leaves: the key is gone, and every other lookup is as before.
  pub record Deleted (t : Table) (key : List ℕ) (t' : Table) : Type 0 where
    pub returns : delete key_of t key (hash key) ≡ some t'
    pub reads :
        (q : List ℕ)
        → find key_of t' q (hash q) ≡ (if list_eq q key then none else find key_of t q (hash q))
    pub placed : IsPlaced key_of hash t'

  remove_from-some :
      (key : List ℕ) (c : Chain) (it : ℕ)
      → find_in key_of key c ≡ some it
      → (c' : Chain) × (remove_from key_of key c ≡ some c')
  unfolding find_in remove_from
  remove_from-some key [] it e = cc
  remove_from-some key (x ∷ c) it e = elim (Bool-cases (list_eq key (key_of x))) [
    | inl found ↦ (c, rw found refl)
    | inr other ↦
        let (c', e') = remove_from-some key c it (rw other at e) in (x ∷ c', rw (other, e') refl)
  ]

  delete_eq :
      (t : Table) (key : List ℕ) (c : Chain)
      → remove_from key_of key (chain_of t (hash key)) ≡ some c
      → delete key_of t key (hash key)
        ≡ some (set_chain (record t { hash_items = sub32 t.hash_items 1 }) (hash key) c)
  unfolding delete
  delete_eq t key c e = rw (e, delete) refl

  -- assoc_delete of a key that a well-placed table has does not fail its assertion, takes that key
  -- off, leaves every other lookup as it was and the table well placed, also in the middle of a
  -- growth.
  pub delete-Deleted :
      (t : Table) (key : List ℕ) (it : ℕ)
      → IsPlaced key_of hash t
      → find key_of t key (hash key) ≡ some it
      → (t' : Table) × Deleted t key t'
  delete-Deleted t key it v e =
      let t₁ : Table = record t { hash_items = sub32 t.hash_items 1 } in
      let v₁ = counted-IsPlaced t v in
      let (c, removed) = remove_from-some key (chain_of t (hash key)) it (unfold find in e) in
      let u = chain_of-Unique t v (hash key) in
      let reads : (q : List ℕ)
          → find_in key_of q c
            ≡ (if list_eq q key then none else find_in key_of q (chain_of t₁ (hash key))) =
        λ q.
          (find_in-remove_from key_of key q (chain_of t (hash key)) c u removed).0
          ∙ (unfold chain_of in refl) in
      (
        set_chain t₁ (hash key) c,
        record {
          returns = delete_eq t key c removed;
          reads = λ q.
              find-set_chain t₁ v₁ key c none reads q
              ∙ ap (λ r. if list_eq q key then none else r) (find-counted t q (hash q));
          placed =
              set_chain-IsPlaced t₁ v₁ key c none reads
                (find_in-remove_from key_of key key (chain_of t (hash key)) c u removed).1;
        },
      )
