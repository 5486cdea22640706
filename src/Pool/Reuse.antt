-- ===== src/Pool/Reuse.antt =====
-- The pool hands out what it was given back, and keeps each block once.
use log_memcached.Base.{
  ℕ, ◌+◌, ◌-◌, ◌*◌, ◌<◌, ◌≤◌, ◌≡◌, ◌≢◌, ◌⊎◌, inl, inr, le_cases, refl, ap, sym, Bool, true, Option,
  some, List, [], ◌∷◌, length, arith,
}
use mathlib.Core.Path.{subst}
use log_memcached.Pool.{
  Pool, redzone_pattern, get_object, end_of, guard, cache_alloc, kept, cache_free,
}

abbrev pub Outside : ℕ → List ℕ → Type 0
Outside p [] = Unit {0}
Outside p (q ∷ qs) = (p ≢ q) × Outside p qs

abbrev pub Distinct : List ℕ → Type 0
Distinct [] = Unit {0}
Distinct (p ∷ ps) = Outside p ps × Distinct ps

pub record IsPool (c : Pool) : Type 0 where
  pub room : length c.free ≤ c.freetotal
  pub some_room : 0 < c.freetotal
  pub sized : 2 * 8 ≤ c.bufsize
  pub once : Distinct c.free

-- an object that is in use, with its words intact
pub record IsObject (c : Pool) (object : ℕ) : Type 0 where
  pub placed : 8 ≤ object
  pub front : c.memory (object - 8) ≡ redzone_pattern
  pub back : c.memory (end_of c object) ≡ redzone_pattern
  pub away : Outside (object - 8) c.free

-- what giving an object back makes of the pool, and what the next allocation makes of that
pub record IsBack (c : Pool) (object : ℕ) (c' : Pool) : Type 0 where
  pub pool : IsPool c'
  pub free : c'.free ≡ (object - 8) ∷ c.free
  pub again :
      (malloc : Option ℕ) (constructed : Bool) → (cache_alloc c' malloc constructed).0 ≡ some object
  pub rest :
      (malloc : Option ℕ) (constructed : Bool) → (cache_alloc c' malloc constructed).1.free ≡ c.free

grown : {m n : ℕ} {b : Bool} → n ≤ m → (m < n) ⊎ (b ≡ true) → b ≡ true
grown le (inl lt) = absurd (omega (arith, le, lt))
grown le (inr e) = e

-- The pool with the block of the object on top, and room for `total`.
back : Pool → ℕ → ℕ → Pool
back c object total = record c { freetotal = total; free = (object - 8) ∷ c.free }

back-IsBack :
    (c : Pool) (object total : ℕ)
    → IsPool c
    → IsObject c object
    → length c.free < total
    → IsBack c object (back c object total)
unfolding back cache_alloc guard
back-IsBack c object total p o room = record {
  pool = record {
    room = ground (arith, room);
    some_room = omega (arith, room);
    sized = p.sized;
    once = (o.away, p.once);
  };
  free = refl;
  again = λ malloc constructed. ap some (let h = o.placed in omega (arith, h));
  rest = λ malloc constructed. refl;
}

free_kept :
    (c : Pool) (object : ℕ) (enlarged : Bool)
    → IsObject c object
    → (length c.free < c.freetotal
        → cache_free c object enlarged ≡ kept (back c object c.freetotal))
      × (c.freetotal ≤ length c.free
          → enlarged ≡ true
          → cache_free c object enlarged ≡ kept (back c object (c.freetotal * 2)))
unfolding cache_free back
free_kept c object enlarged o =
    let f = o.front in
    let b = o.back in
    (λ room. ground (arith, f, b, room), λ full grown. ground (arith, f, b, full, grown))

-- On a pool that holds each free block once and no more than it has room for, cache_free of an
-- object that is in use with the words around it intact, where there is room or the array can be
-- enlarged, keeps its block; the pool is such a pool again, the next cache_alloc returns that
-- object, and the free blocks are then those from before.
pub cache_free-IsBack :
    (c : Pool) (object : ℕ) (enlarged : Bool)
    → IsPool c
    → IsObject c object
    → (length c.free < c.freetotal) ⊎ (enlarged ≡ true)
    → (c' : Pool) × (cache_free c object enlarged ≡ kept c') × IsBack c object c'
cache_free-IsBack c object enlarged p o room =
    let (keep, grow) = free_kept c object enlarged o in
    let most = p.room in
    let some_room = p.some_room in
    elim (le_cases c.freetotal (length c.free)) [
      | inl full ↦ (
        back c object (c.freetotal * 2),
        grow full (grown full room),
        back-IsBack c object (c.freetotal * 2) p o (omega (arith, most, some_room)),
      )
      | inr free ↦ (back c object c.freetotal, keep free, back-IsBack c object c.freetotal p o free)
    ]

-- The words around a block that leaves the free list.
guard-IsObject :
    (c : Pool) (ptr : ℕ)
    → IsPool c
    → Outside ptr c.free
    → IsPool (guard c ptr) × IsObject (guard c ptr) (get_object ptr)
unfolding guard
guard-IsObject c ptr p out =
    let same : ptr + 8 - 8 ≡ ptr = omega arith in
    (
      record { room = p.room; some_room = p.some_room; sized = p.sized; once = p.once },
      record {
        placed = omega arith;
        front = ground (arith, same);
        back = ground arith;
        away = rw same out;
      },
    )

alloc_new :
    (c : Pool) (malloc : Option ℕ) (ptr : ℕ)
    → c.free ≡ []
    → malloc ≡ some ptr
    → cache_alloc c malloc true ≡ (some (get_object ptr), guard c ptr)
unfolding cache_alloc
alloc_new c malloc ptr e got = ground (arith, e, got)

alloc_kept :
    (c : Pool) (malloc : Option ℕ) (ptr : ℕ) (rest : List ℕ)
    → c.free ≡ ptr ∷ rest
    → cache_alloc c malloc true ≡ (some (get_object ptr), guard (record c { free = rest }) ptr)
unfolding cache_alloc
alloc_kept c malloc ptr rest e = ground (arith, e)

abbrev Handed : Option ℕ × Pool → Type 0
Handed (o, c) = (object : ℕ) × (o ≡ some object) × IsPool c × IsObject c object

alloc_from :
    (c : Pool) (malloc : Option ℕ) (ptr : ℕ) (free : List ℕ)
    → IsPool c
    → c.free ≡ free
    → (free ≡ [] → malloc ≡ some ptr)
    → Handed (cache_alloc c malloc true)
alloc_from c malloc ptr [] p e fresh =
    let (pool, object) = guard-IsObject c ptr p (rw e tt) in
    subst Handed (sym (alloc_new c malloc ptr e (fresh refl))) (get_object ptr, refl, pool, object)
alloc_from c malloc ptr (q ∷ rest) p e fresh =
    let room = p.room in
    let once : Distinct (q ∷ rest) = subst Distinct e p.once in
    let less : Pool = record c { free = rest } in
    let fits : length rest ≤ c.freetotal = ground (arith, room, e) in
    let (pool, object) =
      guard-IsObject less q
        (record { room = fits; some_room = p.some_room; sized = p.sized; once = once.1 }) once.0 in
    subst Handed (sym (alloc_kept c malloc q rest e)) (get_object q, refl, pool, object)

-- On such a pool, cache_alloc with a constructor that succeeds returns an object, from malloc
-- where no block is free; the words around the object are in place, its block is not among the
-- free ones, and the pool is such a pool again.
pub cache_alloc-IsObject :
    (c : Pool) (malloc : Option ℕ) (ptr : ℕ)
    → IsPool c
    → (c.free ≡ [] → malloc ≡ some ptr)
    → (object : ℕ) × ((cache_alloc c malloc true).0 ≡ some object)
      × IsPool (cache_alloc c malloc true).1
      × IsObject (cache_alloc c malloc true).1 object
cache_alloc-IsObject c malloc ptr p fresh = alloc_from c malloc ptr c.free p refl fresh
