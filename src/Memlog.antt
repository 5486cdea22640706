-- ===== src/Memlog.antt =====
-- memlog.c: the circular log that holds every item. Addresses are offsets from `mem_base`, and
-- the memory is read and written an item header at a time.
pub mod Header
pub mod Layout
pub mod Alloc
pub mod Clean
pub mod Maintain
pub mod Reach
mod Tests
use log_memcached.Base.{
  ℕ, zero, suc, ◌+◌, ◌-◌, ◌*◌, ◌/◌, ◌%◌, ◌^◌, Bool, true, false, ◌&&◌, ◌||◌, Option, none, some,
  List, length, ltb, leb, ◌==◌, if◌then◌else◌,
}
use log_memcached.Base.Memory.{Memory, store}
use log_memcached.Base.Words.{add32, add64, sub64}
use log_memcached.Libc.{Libc}
use Header.{Flags, Item, ntotal, blank}

-- the fields of `struct stats` that follow the log
pub record LogStats : Type 0 where
  pub mem_current : ℕ
  pub mem_avail : ℕ
  pub mem_free_from_beginning : ℕ
  pub mem_current_freeing : ℕ

pub record Memlog : Type 0 where
  pub limit : ℕ
  pub current : ℕ
  pub avail : ℕ
  pub free_from_beginning : ℕ
  pub current_freeing : ℕ
  pub current_to_free : ℕ
  pub memory : Memory Item
  pub stats : LogStats

-- MEMLOG_DEFAULT_SIZE
abbrev pub default_size : ℕ
default_size = 1024 * 1024 * 1024

-- the least size of an item, in the code's words
abbrev pub min_item_size : ℕ
min_item_size = 35

-- `memlog_init`, when `malloc` succeeds; otherwise the process exits
unfoldable pub init : LogStats → Memlog
init stats = record {
  limit = default_size;
  current = 0;
  avail = default_size;
  free_from_beginning = 0;
  current_freeing = 0;
  current_to_free = 0;
  memory = λ _. blank;
  stats = stats;
}

-- memset of `n` bytes to 0
abbrev pub clear : Memory Item → ℕ → ℕ → Memory Item
clear memory p n q = if leb p q && ltb q (p + n) then blank else memory q

-- `freed` in the `STATS_LOCK` blocks of `memory_allocate`
abbrev pub publish : Memlog → LogStats
publish m = record (m.stats) {
  mem_current = m.current;
  mem_avail = m.avail;
  mem_free_from_beginning = m.free_from_beginning;
}

module _ ⦃libc : Libc⦄ where
  -- `it_data->nbytes` of the item that fills the end of the log, as the compiler reads the
  -- expression: each `/` behind a comment divides, and `- sizeof(..)` is a large `size_t`.
  unfoldable pub cycle_nbytes : ℕ → ℕ
  cycle_nbytes avail =
      let num = length (libc.print_int (sub64 (sub64 (sub64 avail 16) 2) 4 % 2 ^ 32)) in
      sub64 avail (num / (2 ^ 64 - 16) / (2 ^ 64 - (1 + 1)) / (2 ^ 64 - 4) / (2 ^ 64 - 2)) % 2 ^ 32

  abbrev pub cycle_item : Item → ℕ → Item
  cycle_item it avail = record it {
    it_data_flags = record (it.it_data_flags) { cycle = true; dirty = false; stored = true };
    nkey = 1;
    nbytes = cycle_nbytes avail;
  }

  -- the test of `memory_allocate` for the end of the log
  unfoldable pub near_end : Memlog → ℕ → Bool
  near_end m size = ltb (sub64 m.limit min_item_size) (add64 m.current size)

  -- start over from the base
  unfoldable pub start_over : Memlog → Memlog
  start_over m =
      let m' : Memlog = record m {
        memory = store m.memory m.current (cycle_item (m.memory m.current) m.avail);
        current = 0;
        avail = m.free_from_beginning;
        free_from_beginning = 0;
      } in
      record m' { stats = publish m' }

  unfoldable pub advance : Memlog → ℕ → Memlog
  advance m size =
      let m' : Memlog = record m { current = m.current + size; avail = m.avail - size } in
      record m' { stats = publish m' }

  -- `memory_allocate`; the result is the address
  unfoldable pub memory_allocate : Memlog → ℕ → Option ℕ × Memlog
  memory_allocate m size =
      let m' : Memlog = if near_end m size then start_over m else m in
      if ltb m'.avail size then (none, m') else (some m'.current, advance m' size)

  -- `do_memlog_alloc` under the lock of `memlog_alloc`; `*total_bytes` is the size asked for
  unfoldable pub memlog_alloc : Memlog → ℕ → Option ℕ × Memlog
  memlog_alloc m size = memory_allocate m size

-- What `memlog_free_item` frees: a whole item, or for a cycle item its `nbytes`.
unfoldable pub block_size : Item → ℕ
unfolding ntotal
block_size it =
    let f = it.it_data_flags in
    if f.corrupted || f.deleted then ntotal it else if f.cycle then it.nbytes else ntotal it

-- an item of no special kind, which the hash table may name
abbrev pub is_plain : Flags → Bool
is_plain f = if f.corrupted || f.deleted then false else if f.cycle then false else true

-- memset, and `mem_current_freeing` moves on
unfoldable pub release : Memlog → ℕ → Memlog
release m n = record m {
  memory = clear m.memory m.current_freeing n;
  current_freeing = m.current_freeing + n;
}

-- the bookkeeping of `do_memlog_clean` after `freed` bytes
unfoldable pub account : Memlog → ℕ → Memlog
account m freed =
    let m₁ : Memlog =
      if leb m.current m.current_freeing
      then record m { avail = m.avail + freed }
      else record m { free_from_beginning = m.free_from_beginning + freed } in
    let m₂ : Memlog =
      if leb m₁.limit m₁.current_freeing then record m₁ { current_freeing = 0 } else m₁ in
    record m₂ {
      stats = record (m₂.stats) {
        mem_avail = m₂.avail;
        mem_free_from_beginning = m₂.free_from_beginning;
        mem_current_freeing = m₂.current_freeing;
      };
    }

-- `evict` stands for the look-up under the item lock and `do_item_unlink_nolock`, on the state of
-- the cache outside the log.
module _ {S : Type 0} (evict : S → ℕ → Item → S) where
  -- `memlog_free_item`
  unfoldable pub free_item : Memlog → S → ℕ × Memlog × S
  free_item m s =
      let it = m.memory m.current_freeing in
      let n = block_size it in
      (n, release m n, if is_plain it.it_data_flags then evict s m.current_freeing it else s)

  -- the loop of `memlog_free_chunk`; `none` means that the fuel ran out
  pub free_loop : ℕ → ℕ → ℕ → Memlog → S → Option (ℕ × Memlog × S)
  free_loop zero to_free freed m s = none
  free_loop (suc fuel) to_free freed m s =
      let (n, m', s') = free_item m s in
      let rest = free_loop fuel to_free (add32 freed n) m' s' in
      if ltb freed to_free
      then (if leb m.limit (m.current_freeing % 2 ^ 32) then some (freed, m, s) else rest)
      else some (freed, m, s)

  unfoldable pub free_chunk : Memlog → S → Option (ℕ × Memlog × S)
  free_chunk m s = free_loop (suc (m.limit / 8)) (m.limit / 8) 0 m s

  -- `do_memlog_clean`
  unfoldable pub memlog_clean : Memlog → S → Option (ℕ × Memlog × S)
  memlog_clean m s = elim (free_chunk m s) [
    | none ↦ none
    | some (freed, m', s') ↦ some (freed, (if ltb 0 freed then account m' freed else m'), s')
  ]

  -- `lru_maintainer_free` of items.c: clean only while both free spaces are small
  unfoldable pub maintain : Memlog → S → Option (ℕ × Memlog × S)
  maintain m s =
      if leb m.avail (m.limit / 4) && leb m.free_from_beginning (m.limit / 4)
      then memlog_clean m s
      else some (0, m, s)
