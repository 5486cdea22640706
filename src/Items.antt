-- ===== src/Items.antt =====
-- items.c: item metadata, the list of free metadata, and the operations that link items into the
-- table and count references. A pointer to metadata is a number, and so is one to an item in the
-- log. A function that fails an assertion returns `none`.
pub mod Sizes
pub mod Held
pub mod Kept
pub mod Get
pub mod Renew
mod Tests
pub mod Link
pub mod Lookup
pub mod Map
pub mod Total
pub mod Others
pub mod Replace
pub mod Alloc
use log_memcached.Base.{
  ℕ, ◌+◌, ◌-◌, ◌*◌, ◌/◌, ◌%◌, ◌^◌, Bool, true, false, ◌&&◌, ◌||◌, not, Option, none, some, List,
  ltb, leb, ◌==◌, if◌then◌else◌, ◌>>=◌, ◌>>◌,
}
use log_memcached.Base.Memory.{Memory, store}
use log_memcached.Base.Words.{add32, sub32, add64, sub64}
use log_memcached.Memlog.{Memlog}
use log_memcached.Memlog.Header.{Flags, Item, no_flags, get_cas, set_cas, ntotal}
use log_memcached.Assoc.{Table}
use log_memcached.Assoc

-- `item_metadata`; `h_next` is the chain of the hash table that the pointer stands in. Of `it_flags`
-- the code uses ITEM_LINKED, ITEM_CAS and ITEM_SLABBED.
pub record Metadata : Type 0 where
  pub next_free : Option ℕ
  pub prev_free : Option ℕ
  pub time : ℕ
  pub refcount : ℕ
  pub it_flags : Flags
  pub slabs_clsid : ℕ
  pub get_count : ℕ
  pub item : ℕ

-- the histogram of `item_stats_sizes_enable`
pub record Histogram : Type 0 where
  pub counts : Memory ℕ
  pub cas_min : ℕ
  pub buckets : ℕ

-- what the operations read of `settings`, and the clock
pub record Settings : Type 0 where
  pub use_cas : Bool
  pub oldest_live : ℕ
  pub oldest_cas : ℕ
  pub lru_log_enabled : Bool
  pub lru_log_get_count : ℕ
  pub current_time : ℕ

-- the counters of `stats`, `stats_state` and `itemstats` that the operations change
pub record Counters : Type 0 where
  pub curr_items : ℕ
  pub curr_bytes : ℕ
  pub total_items : ℕ
  pub direct_reclaims : ℕ
  pub outofmemory : ℕ
  pub get_flushed : ℕ
  pub get_expired : ℕ

pub record Cache : Type 0 where
  pub log : Memlog
  pub metas : Memory Metadata
  pub first_free : Option ℕ
  pub table : Table
  pub cas_id : ℕ
  pub sizes : Memory ℕ
  pub sizes_bytes : Memory ℕ
  pub histogram : Option Histogram
  pub counters : Counters
  pub settings : Settings

-- `it->item`, read and written
abbrev pub item_of : Cache → ℕ → Item
item_of s it = s.log.memory ((s.metas it).item)

abbrev pub key_of : Cache → ℕ → List ℕ
key_of s it = (item_of s it).key

abbrev pub set_item : Cache → ℕ → Item → Cache
set_item s it d = record s {
  log = record (s.log) { memory = store s.log.memory ((s.metas it).item) d };
}

abbrev pub set_meta : Cache → ℕ → Metadata → Cache
set_meta s it m = record s { metas = store s.metas it m }

abbrev pub assert : Bool → Option (Unit {0})
assert b = if b then some tt else none

-- `refcount_incr`, `refcount_decr` of thread.c, on an `unsigned short`
abbrev pub refcount_incr : ℕ → ℕ
refcount_incr n = (n + 1) % 2 ^ 16

abbrev pub refcount_decr : ℕ → ℕ
refcount_decr n = (n + 2 ^ 16 - 1) % 2 ^ 16

-- `get_cas_id`
unfoldable pub get_cas_id : Cache → ℕ × Cache
get_cas_id s = let next = add64 s.cas_id 1 in (next, record s { cas_id = next })

-- `item_is_flushed`
unfoldable pub item_is_flushed : Cache → ℕ → Bool
unfolding get_cas
item_is_flushed s it =
    let cas = get_cas (item_of s it) in
    if s.settings.oldest_live == 0 || ltb s.settings.current_time s.settings.oldest_live
    then false
    else leb (s.metas it).time s.settings.oldest_live
      || (not (s.settings.oldest_cas == 0) && not (cas == 0) && ltb cas s.settings.oldest_cas)

-- `do_freelist_free`
unfoldable pub freelist_free : Cache → ℕ → Cache
freelist_free s it =
    let freed : Metadata = record (s.metas it) {
      it_flags = record no_flags { slabbed = true };
      slabs_clsid = 0;
      prev_free = none;
      next_free = s.first_free;
    } in
    let metas = store s.metas it freed in
    record s {
      metas = elim s.first_free [
        | none ↦ metas
        | some next ↦ store metas next (record (metas next) { prev_free = some it })
      ];
      first_free = some it;
    }

-- `item_free`
unfoldable pub item_free : Cache → ℕ → Option Cache
unfolding freelist_free
item_free s it = do
  assert (not (s.metas it).it_flags.linked)
  assert ((s.metas it).refcount == 0)
  some (freelist_free s it)

-- `do_item_remove`
unfoldable pub do_item_remove : Cache → ℕ → Option Cache
unfolding item_free
do_item_remove s it = do
  assert (not (s.metas it).it_flags.slabbed)
  assert (ltb 0 (s.metas it).refcount)
  let s' = set_meta s it (record (s.metas it) { refcount = refcount_decr (s.metas it).refcount })
  if (s'.metas it).refcount == 0 then item_free s' it else some s'
