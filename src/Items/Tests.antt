-- ===== src/Items/Tests.antt =====
-- The theorems on items.c at a cache that holds one item, with a second one ready to replace it.
use log_memcached.Base.{
  ℕ, ◌≡◌, refl, Bool, true, false, none, some, List, [], ◌∷◌, arith, ◌==◌, if◌then◌else◌,
}
use log_memcached.Libc.Decimal.{decimal_libc, print_two}
use log_memcached.Memlog.{Memlog, LogStats, memlog_alloc}
use log_memcached.Memlog
use log_memcached.Memlog.Header.{Item, no_flags, blank}
use log_memcached.Assoc
use log_memcached.Assoc.{HashStats}
use log_memcached.Assoc.Placed.{init-IsPlaced}
use log_memcached.Assoc.Update.{insert-IsPlaced}
use log_memcached.Items.{Cache, Metadata, key_of, item_is_flushed}
use log_memcached.Items.Alloc.{do_item_alloc, item_total}
use log_memcached.Items.Sizes.{do_item_alloc-Ready, Ready}
use log_memcached.Items.Link.{do_item_replace}
use log_memcached.Items.Map.{IsPlacedCache}
use log_memcached.Items.Replace.{Updated, IsLinked, do_item_replace-Updated}
use log_memcached.Items.Get.{is_expired, do_item_get, do_item_get-Updated}

abbrev hash : List ℕ → ℕ
hash [] = 0
hash (c ∷ key) = c

abbrev fresh_log : Memlog
fresh_log = Memlog.init (record {
  mem_current = 0;
  mem_avail = 0;
  mem_free_from_beginning = 0;
  mem_current_freeing = 0;
})

-- an item with a one-byte key, and an expiry time
abbrev plain : ℕ → ℕ → Item
plain c exptime = record blank { nkey = 1; key = c ∷ []; exptime = exptime }

abbrev metadata : ℕ → Bool → ℕ → Metadata
metadata p linked refcount = record {
  next_free = none;
  prev_free = none;
  time = 50;
  refcount = refcount;
  it_flags = record no_flags { linked = linked };
  slabs_clsid = 1;
  get_count = 0;
  item = p;
}

abbrev no_stats : HashStats
no_stats = record { hash_power_level = 0; hash_bytes = 0; hash_is_expanding = false }

-- Metadata 1 is in the table under "7" and expires at the given time; 2 has the same key and is
-- loose; 3 has the key "9" and is loose; 4 is free.
abbrev holding : ℕ → Cache
holding exptime = record {
  log = record fresh_log {
    memory = λ p.
        if p == 100
        then plain 7 exptime
        else if p == 200
        then plain 7 0
        else if p == 300
        then plain 9 0
        else blank;
  };
  metas = λ m.
      if m == 1
      then metadata 100 true 1
      else if m == 2
      then metadata 200 false 1
      else if m == 3
      then metadata 300 false 1
      else metadata 0 false 0;
  first_free = some 4;
  table = Assoc.insert (Assoc.init 1 no_stats) 1 7;
  cas_id = 0;
  sizes = λ _. 1;
  sizes_bytes = λ _. 0;
  histogram = none;
  counters = record {
    curr_items = 1;
    curr_bytes = 18;
    total_items = 1;
    direct_reclaims = 0;
    outofmemory = 0;
    get_flushed = 0;
    get_expired = 0;
  };
  settings = record {
    use_cas = true;
    oldest_live = 0;
    oldest_cas = 0;
    lru_log_enabled = false;
    lru_log_get_count = 0;
    current_time = 100;
  };
}

holding-IsPlacedCache : (exptime : ℕ) → IsPlacedCache hash (holding exptime)
unfolding Assoc.init Assoc.find
holding-IsPlacedCache exptime =
    (insert-IsPlaced (key_of (holding exptime)) hash (Assoc.init 1 no_stats) 1
      (init-IsPlaced (key_of (holding exptime)) hash 1 no_stats) refl).0

one-IsLinked : (exptime : ℕ) → IsLinked hash (holding exptime) 1
unfolding Assoc.init Assoc.insert Assoc.find
one-IsLinked exptime = record { found = refl; linked = refl; used = refl; referenced = omega arith }

do_item_replace-Updated_example :
    (s' : Cache) × (do_item_replace (holding 0) 1 2 7 ≡ some s')
    × Updated hash (holding 0) (7 ∷ []) (some 2) s'
do_item_replace-Updated_example =
    do_item_replace-Updated hash (holding 0) 1 2 (holding-IsPlacedCache 0) (one-IsLinked 0)
      (record { unlinked = refl; used = refl }) refl

-- expired at 90, at the time 100
do_item_get-Updated_example :
    (s' : Cache) × (do_item_get (holding 90) (7 ∷ []) 7 ≡ some (none, s'))
    × Updated hash (holding 90) (7 ∷ []) none s'
unfolding item_is_flushed is_expired
do_item_get-Updated_example =
    do_item_get-Updated hash (holding 90) 1 (holding-IsPlacedCache 90) (one-IsLinked 90)
      (omega arith) refl

abbrev after_log : Memlog
after_log = (memlog_alloc (holding 0).log (item_total true 1 0 5)).1

do_item_alloc-Ready_example :
    (s' : Cache) × (do_item_alloc (λ s. s) (holding 0) (9 ∷ []) 0 0 5 ≡ some (some 4, true, s'))
    × Ready (λ s. s) (holding 0) (9 ∷ []) 0 0 5 4 0 s'
unfolding memlog_alloc item_total Memlog.memory_allocate Memlog.near_end Memlog.init print_two
    Memlog.advance
do_item_alloc-Ready_example =
    do_item_alloc-Ready (λ s. s) (holding 0) after_log (9 ∷ []) 0 0 5 4 0 refl (omega arith) refl
      refl refl
