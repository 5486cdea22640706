-- ===== src/Pool.antt =====
-- cache.c: a pool of objects of one size, with the words around each that the build without NDEBUG
-- checks. Memory is 64-bit words by the address of their first byte. What `malloc`, `realloc` and the
-- constructor give is an argument.
pub mod Reuse
mod Tests
use log_memcached.Base.{
  ℕ, ◌+◌, ◌-◌, ◌*◌, Bool, true, false, not, Option, none, some, List, [], ◌∷◌, length, ltb, ◌==◌,
  if◌then◌else◌,
}
use log_memcached.Base.Memory.{Memory, store}

-- `cache_t`; the blocks that are free, the last one of `ptr` first, so `freecurr` is their number
pub record Pool : Type 0 where
  pub free : List ℕ
  pub freetotal : ℕ
  pub bufsize : ℕ
  pub memory : Memory ℕ

abbrev pub redzone_pattern : ℕ
redzone_pattern = 16045690984503098046

abbrev pub initial_pool_size : ℕ
initial_pool_size = 64

-- `cache_create`, when the memory for it can be had
unfoldable pub cache_create : ℕ → Memory ℕ → Pool
cache_create bufsize memory = record {
  free = [];
  freetotal = initial_pool_size;
  bufsize = bufsize + 2 * 8;
  memory = memory;
}

-- `get_object`
abbrev pub get_object : ℕ → ℕ
get_object ptr = ptr + 8

-- the word behind an object
abbrev pub end_of : Pool → ℕ → ℕ
end_of c object = object + (c.bufsize - 2 * 8)

-- the words around the object of a block
unfoldable pub guard : Pool → ℕ → Pool
guard c ptr = record c {
  memory = store (store c.memory ptr redzone_pattern) (end_of c (get_object ptr)) redzone_pattern;
}

-- `cache_alloc`, with what `malloc` would give and whether the constructor would succeed
unfoldable pub cache_alloc : Pool → Option ℕ → Bool → Option ℕ × Pool
unfolding guard
cache_alloc c malloc constructed = elim c.free [
  | ptr ∷ rest ↦ (some (get_object ptr), guard (record c { free = rest }) ptr)
  | [] ↦ elim malloc [
    | none ↦ (none, c)
    | some ptr ↦ if constructed then (some (get_object ptr), guard c ptr) else (none, c)
  ]
]

-- what `cache_free` ends in: SIGABRT and the value of `cache_error`, an object that goes back to the
-- system, or one that is kept
pub data Freed : Type 0 where
  aborted : (cache_error : Bool) → Freed
  destroyed : Freed
  kept : Pool → Freed

-- `cache_free`; `cache_error` is 1 for the word behind the object and -1 for the one in front
unfoldable pub cache_free : Pool → ℕ → Bool → Freed
cache_free c object enlarged =
    if not (c.memory (end_of c object) == redzone_pattern)
    then aborted true
    else if not (c.memory (object - 8) == redzone_pattern)
    then aborted false
    else if ltb (length c.free) c.freetotal
    then kept (record c { free = (object - 8) ∷ c.free })
    else if enlarged
    then kept (record c { freetotal = c.freetotal * 2; free = (object - 8) ∷ c.free })
    else destroyed

-- `cache_destroy`: the blocks that it gives back, in their order
abbrev pub cache_destroy : Pool → List ℕ
cache_destroy c = c.free
