-- ===== src/Items/Get.antt =====
-- `do_item_get` of items.c: what a get finds, and what it expires.
use log_memcached.Base.{
  ℕ, ◌+◌, ◌^◌, ◌<◌, ◌≡◌, refl, sym, ap, ◌∙◌, Bool, true, false, ◌&&◌, ◌||◌, not, Option, none, some,
  List, leb, ◌==◌, arith, if◌then◌else◌, ◌>>=◌, list_eq, Bool-cases, inl, inr,
}
use mathlib.Core.Path.{subst, fun_ext}
use log_memcached.Base.Words.{add64}
use log_memcached.Assoc
use log_memcached.Items.{
  Cache, key_of, item_of, set_meta, refcount_incr, item_is_flushed, do_item_remove,
}
use log_memcached.Items.Link.{do_item_unlink}
use log_memcached.Items.Lookup.{SameKeys, do_item_remove-SameKeys}
use log_memcached.Items.Map.{lookup, IsPlacedCache, hash_of, unlink-IsPlacedCache}
use log_memcached.Items.Total.{remove_total, >>=-eq, if-true, if-false}
use log_memcached.Items.Replace.{Updated, IsLinked}
use log_memcached.Items.Held.{unlink_held}

-- an item whose time is over
unfoldable pub is_expired : Cache → ℕ → Bool
is_expired s it = let e = (item_of s it).exptime in not (e == 0) && leb e s.settings.current_time

abbrev pub held_by : Cache → ℕ → Cache
held_by s it =
    set_meta s it (record (s.metas it) { refcount = refcount_incr (s.metas it).refcount })

-- unlink and drop the reference, as both ways of running out do
unfoldable pub discard : Cache → ℕ → ℕ → Option Cache
unfolding do_item_unlink do_item_remove
discard s it hv = do s' ← do_item_unlink s it hv; do_item_remove s' it

abbrev pub count_flushed : Cache → Cache
count_flushed s = record s {
  counters = record (s.counters) { get_flushed = add64 s.counters.get_flushed 1 };
}

abbrev pub count_expired : Cache → Cache
count_expired s = record s {
  counters = record (s.counters) { get_expired = add64 s.counters.get_expired 1 };
}

-- what `do_item_get` does with the item that it has found
unfoldable pub check_hit : Cache → ℕ → ℕ → Option (Option ℕ × Cache)
unfolding item_is_flushed is_expired discard
check_hit s it hv =
    if item_is_flushed s it
    then discard s it hv >>= (λ s'. some (none, count_flushed s'))
    else if is_expired s it
    then discard s it hv >>= (λ s'. some (none, count_expired s'))
    else some (some it, s)

-- `do_item_get`, less what it prints
unfoldable pub do_item_get : Cache → List ℕ → ℕ → Option (Option ℕ × Cache)
unfolding check_hit
do_item_get s key hv = elim (Assoc.find (key_of s) s.table key hv) [
  | none ↦ some (none, s)
  | some it ↦ check_hit (held_by s it) it hv
]

get_found :
    (s : Cache) (key : List ℕ) (hv it : ℕ)
    → Assoc.find (key_of s) s.table key hv ≡ some it
    → do_item_get s key hv ≡ check_hit (held_by s it) it hv
unfolding do_item_get
get_found s key hv it e = ground (arith, e)

pub held_by-SameKeys : (s : Cache) (it : ℕ) → SameKeys s (held_by s it)
held_by-SameKeys s it = (refl, λ p. ground arith)

module _ (hash : List ℕ → ℕ) where
  -- What leaves the table and the keys alone leaves every lookup alone.
  pub lookup-SameKeys :
      (s s' : Cache) → SameKeys s s' → (q : List ℕ) → lookup hash s' q ≡ lookup hash s q
  lookup-SameKeys s s' (t, k) q = let keys : key_of s' ≡ key_of s = fun_ext k in rw (t, keys) refl

  pub IsPlacedCache-SameKeys :
      (s s' : Cache) → SameKeys s s' → IsPlacedCache hash s → IsPlacedCache hash s'
  IsPlacedCache-SameKeys s s' (t, k) v =
      let keys : key_of s' ≡ key_of s = fun_ext k in rw (t, keys) v

  pub Updated-SameKeys :
      (s s₁ s₂ s₃ : Cache) (key : List ℕ) (r : Option ℕ)
      → SameKeys s s₁
      → Updated hash s₁ key r s₂
      → SameKeys s₂ s₃
      → Updated hash s key r s₃
  Updated-SameKeys s s₁ s₂ s₃ key r before u after = record {
    placed = IsPlacedCache-SameKeys s₂ s₃ after u.placed;
    reads = λ q.
        lookup-SameKeys s₂ s₃ after q
        ∙ u.reads q
        ∙ ap (λ o. if list_eq q key then r else o) (lookup-SameKeys s s₁ before q);
    keys = λ p. after.1 p ∙ u.keys p ∙ before.1 p;
  }

  pub discard_held :
      (s : Cache) (it : ℕ)
      → IsPlacedCache hash s
      → IsLinked hash s it
      → 1 < (s.metas it).refcount
      → (s.metas it).refcount < 2 ^ 16
      → (s' : Cache) × (discard s it (hash_of hash s it) ≡ some s')
        × Updated hash s (key_of s it) none s'
  unfolding discard
  discard_held s it v l held small =
      let (s₁, out, left) = unlink_held hash s it v l.found l.linked l.used held small in
      let (placed, reads, keys) = unlink-IsPlacedCache hash s s₁ it v l.found l.linked out in
      let (s₂, gone) = remove_total s₁ it left.unlinked left.used (omega (arith, left.fewer)) in
      (
        s₂,
        >>=-eq _ _ s₁ out gone,
        Updated-SameKeys s s s₁ s₂ (key_of s it) none (refl, λ p. refl)
            (record { placed = placed; reads = reads; keys = keys })
            (do_item_remove-SameKeys s₁ s₂ it gone),
      )

  pub held_by-IsLinked :
      (s : Cache) (it : ℕ)
      → IsLinked hash s it
      → (s.metas it).refcount + 1 < 2 ^ 16
      → IsLinked hash (held_by s it) it
  held_by-IsLinked s it l small = record {
    found =
        lookup-SameKeys s (held_by s it) (held_by-SameKeys s it) (key_of (held_by s it) it)
        ∙ subst (λ (q : List ℕ). lookup hash s q ≡ some it) (sym ((held_by-SameKeys s it).1 it))
            l.found;
    linked = ground (arith, l.linked);
    used = ground (arith, l.used);
    referenced = ground arith;
  }

  pub discard-Updated :
      (s : Cache) (it : ℕ)
      → IsPlacedCache hash s
      → IsLinked hash s it
      → (s.metas it).refcount + 1 < 2 ^ 16
      → (s' : Cache) × (discard (held_by s it) it (hash_of hash s it) ≡ some s')
        × Updated hash s (key_of s it) none s'
  discard-Updated s it v l small =
      let same = held_by-SameKeys s it in
      let r : ((held_by s it).metas it).refcount ≡ (s.metas it).refcount + 1 = ground arith in
      let key : key_of (held_by s it) it ≡ key_of s it = same.1 it in
      let (s', e, u) =
        discard_held (held_by s it) it (IsPlacedCache-SameKeys s (held_by s it) same v)
          (held_by-IsLinked s it l small) (omega (arith, r, l.referenced)) (omega (arith, r)) in
      (
        s',
        subst (λ (q : List ℕ). discard (held_by s it) it (hash q) ≡ some s') key e,
        subst (λ (q : List ℕ). Updated hash s q none s') key
            (Updated-SameKeys s (held_by s it) s' s' (key_of (held_by s it) it) none same u
              (refl, λ p. refl)),
      )

  -- A get of a key that is not in the table finds nothing and changes nothing.
  pub do_item_get-miss :
      (s : Cache) (key : List ℕ)
      → lookup hash s key ≡ none
      → do_item_get s key (hash key) ≡ some (none, s)
  unfolding do_item_get
  do_item_get-miss s key missing = ground (arith, missing)

  -- do_item_get of a key whose item is neither flushed nor expired returns the item with its count
  -- of references incremented, and changes no lookup.
  pub do_item_get-Held :
      (s : Cache) (key : List ℕ) (it : ℕ)
      → lookup hash s key ≡ some it
      → item_is_flushed (held_by s it) it ≡ false
      → is_expired (held_by s it) it ≡ false
      → (do_item_get s key (hash key) ≡ some (some it, held_by s it))
        × ((q : List ℕ) → lookup hash (held_by s it) q ≡ lookup hash s q)
  unfolding check_hit
  do_item_get-Held s key it found fresh alive = (
    get_found s key (hash key) it found ∙ if-false _ _ _ fresh (if-false _ _ _ alive refl),
    lookup-SameKeys s (held_by s it) (held_by-SameKeys s it),
  )

  -- On a well-placed table, do_item_get of the key of a linked item that is in use, has from one
  -- reference to two less than 2^16, is the one found under its key and is flushed or expired
  -- fails no assertion and returns nothing; the key then gives nothing, every other lookup is as
  -- before, and no key in memory changes.
  pub do_item_get-Updated :
      (s : Cache) (it : ℕ)
      → IsPlacedCache hash s
      → IsLinked hash s it
      → (s.metas it).refcount + 1 < 2 ^ 16
      → item_is_flushed (held_by s it) it || is_expired (held_by s it) it ≡ true
      → (s' : Cache) × (do_item_get s (key_of s it) (hash_of hash s it) ≡ some (none, s'))
        × Updated hash s (key_of s it) none s'
  unfolding check_hit
  do_item_get-Updated s it v l small over =
      let (s', e, u) = discard-Updated s it v l small in
      elim (Bool-cases (item_is_flushed (held_by s it) it)) [
        | inl flushed ↦ (
          count_flushed s',
          get_found s (key_of s it) (hash_of hash s it) it l.found
              ∙ if-true _ _ _ flushed (>>=-eq _ _ s' e refl),
          Updated-SameKeys s s s' (count_flushed s') (key_of s it) none (refl, λ p. refl) u
              (refl, λ p. refl),
        )
        | inr fresh ↦
            let expired : is_expired (held_by s it) it ≡ true = rw fresh at over in
            (
              count_expired s',
              get_found s (key_of s it) (hash_of hash s it) it l.found
                  ∙ if-false _ _ _ fresh (if-true _ _ _ expired (>>=-eq _ _ s' e refl)),
              Updated-SameKeys s s s' (count_expired s') (key_of s it) none (refl, λ p. refl) u
                  (refl, λ p. refl),
            )
      ]
