-- ===== src/Store/Tests.antt =====
-- The theorems on `do_store_item` at a cache without items, with a loose one to store.
use log_memcached.Base.{
  ℕ, ◌≡◌, refl, true, false, none, some, List, [], ◌∷◌, ◌==◌, if◌then◌else◌, arith,
}
use log_memcached.Libc.Decimal.{decimal_libc, print_two}
use log_memcached.Memlog
use log_memcached.Memlog.Header.{blank, no_flags}
use log_memcached.Assoc
use log_memcached.Assoc.{HashStats}
use log_memcached.Assoc.Placed.{init-IsPlaced}
use log_memcached.Items.{Cache, Metadata, key_of}
use log_memcached.Items.Map.{IsPlacedCache}
use log_memcached.Items.Replace.{Updated}
use log_memcached.Store.{add, set, replace, stored, Conn, do_store_item}
use log_memcached.Store.Over.{do_store_item-overwrites}
use log_memcached.Assoc.Update.{insert-IsPlaced}
use log_memcached.Items.Replace.{IsLinked}
use log_memcached.Items.{item_is_flushed}
use log_memcached.Items.Link.{count_size}
use log_memcached.Items.Get.{is_expired}
use log_memcached.Store.Set.{do_store_item-Updated}

abbrev hash : List ℕ → ℕ
hash [] = 0
hash (c ∷ key) = c

abbrev strtoul : List ℕ → ℕ
strtoul cs = 0

abbrev no_stats : HashStats
no_stats = record { hash_power_level = 0; hash_bytes = 0; hash_is_expanding = false }

abbrev pause : Cache → Cache
pause s = s

abbrev conn : Conn
conn = record { cas = 0; cas_misses = 0; cas_hits = λ _. 0; cas_badval = λ _. 0 }

abbrev loose : Metadata
loose = record {
  next_free = none;
  prev_free = none;
  time = 50;
  refcount = 1;
  it_flags = no_flags;
  slabs_clsid = 1;
  get_count = 0;
  item = 100;
}

-- metadata 1 is loose, over an item with the key "7"
abbrev empty : Cache
empty = record {
  log =
      record (Memlog.init (record {
        mem_current = 0;
        mem_avail = 0;
        mem_free_from_beginning = 0;
        mem_current_freeing = 0;
      })) {
        memory = λ p.
            if p == 100
            then record blank { nkey = 1; key = 7 ∷ []; nbytes = 2; value = 13 ∷ 10 ∷ [] }
            else blank;
      };
  metas = λ m. loose;
  first_free = none;
  table = Assoc.init 1 no_stats;
  cas_id = 0;
  sizes = λ _. 0;
  sizes_bytes = λ _. 0;
  histogram = none;
  counters = record {
    curr_items = 0;
    curr_bytes = 0;
    total_items = 0;
    direct_reclaims = 0;
    outofmemory = 0;
    get_flushed = 0;
    get_expired = 0;
  };
  settings = record {
    use_cas = true;
    oldest_live = 0;
    oldest_cas = 0;
    lru_log_enabled = false;
    lru_log_get_count = 0;
    current_time = 100;
  };
}

do_store_item-Updated_example :
    (c' : Conn) × (s' : Cache) × (do_store_item strtoul pause hash set empty conn 1 7
      ≡ some (stored, c', s'))
    × Updated hash empty (7 ∷ []) (some 1) s'
unfolding Assoc.init Assoc.find
do_store_item-Updated_example =
    do_store_item-Updated strtoul pause hash set empty conn 1 refl
      (init-IsPlaced (key_of empty) hash 1 no_stats) (record { unlinked = refl; used = refl }) refl

-- metadata 2 is in the table, over another item with the key "7"
abbrev full : Cache
full = record empty {
  log = record (empty.log) {
    memory = λ p. record blank { nkey = 1; key = 7 ∷ []; nbytes = 2; value = 13 ∷ 10 ∷ [] };
  };
  metas = λ m.
      if m == 2
      then record loose { it_flags = record no_flags { linked = true }; item = 200 }
      else loose;
  table = Assoc.insert (Assoc.init 1 no_stats) 2 7;
}

full-IsPlacedCache : IsPlacedCache hash full
unfolding Assoc.init Assoc.find
full-IsPlacedCache =
    (insert-IsPlaced (key_of full) hash (Assoc.init 1 no_stats) 2
      (init-IsPlaced (key_of full) hash 1 no_stats) refl).0

two-IsLinked : IsLinked hash full 2
unfolding Assoc.init Assoc.insert Assoc.find
two-IsLinked = record { found = refl; linked = refl; used = refl; referenced = omega arith }

do_store_item-overwrites_example :
    (c' : Conn) × (s' : Cache) × (do_store_item strtoul pause hash replace full conn 1 7
      ≡ some (stored, c', s'))
    × Updated hash full (7 ∷ []) (some 1) s'
unfolding item_is_flushed is_expired
do_store_item-overwrites_example =
    do_store_item-overwrites strtoul pause hash replace full conn 1 2 refl full-IsPlacedCache
      two-IsLinked (record { unlinked = refl; used = refl }) refl (omega arith) refl refl

-- An `add` of a key whose item is due for a new place in the log: the item's reference is given
-- back twice, and the second time fails the assertion that the item is in use.
abbrev worn : Cache
worn = record full {
  first_free = some 3;
  settings = record (empty.settings) { lru_log_enabled = true; current_time = 200 };
}

add_worn : do_store_item strtoul pause hash add worn conn 1 7 ≡ none
unfolding do_store_item Assoc.find Assoc.insert Assoc.init Memlog.memlog_alloc
    Memlog.memory_allocate Memlog.near_end Memlog.init print_two Assoc.delete count_size
    Memlog.advance
add_worn = refl
