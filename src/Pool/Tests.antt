-- ===== src/Pool/Tests.antt =====
-- The theorems on the pool at a new one, whose first block is at the address 1000.
use log_memcached.Base.{◌≡◌, inl, refl, true, false, some, arith}
use log_memcached.Pool.{Pool, cache_create, cache_alloc, cache_free, kept, guard}
use log_memcached.Pool.Reuse.{IsPool, IsObject, IsBack, cache_free-IsBack}

abbrev fresh : Pool
fresh = cache_create 32 (λ p. 0)

fresh-IsPool : IsPool fresh
unfolding cache_create
fresh-IsPool = record {
  room = omega arith;
  some_room = omega arith;
  sized = omega arith;
  once = tt;
}

-- the pool while the object at 1008 is in use
abbrev in_use : Pool
in_use = (cache_alloc fresh (some 1000) true).1

in_use-IsPool : IsPool in_use
unfolding cache_create cache_alloc guard
in_use-IsPool = record {
  room = omega arith;
  some_room = omega arith;
  sized = omega arith;
  once = tt;
}

first-IsObject : IsObject in_use 1008
unfolding cache_create cache_alloc guard
first-IsObject = record { placed = omega arith; front = refl; back = refl; away = tt }

cache_free-IsBack_example :
    (c' : Pool) × (cache_free in_use 1008 false ≡ kept c') × IsBack in_use 1008 c'
unfolding cache_create cache_alloc guard
cache_free-IsBack_example =
    cache_free-IsBack in_use 1008 false in_use-IsPool first-IsObject (inl (omega arith))
