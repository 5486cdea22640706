-- ===== src/Delta/Tests.antt =====
-- The theorems on `do_add_delta` at a cache with one item, whose value is no number.
use log_memcached.Base.{ℕ, ◌≡◌, refl, true, false, none, some, List, [], ◌∷◌, ◌==◌, arith}
use log_memcached.Libc.Decimal.{decimal_libc}
use log_memcached.Memlog
use log_memcached.Memlog.Header.{blank, no_flags}
use log_memcached.Assoc
use log_memcached.Assoc.{HashStats}
use log_memcached.Items.{Cache, item_is_flushed}
use log_memcached.Items.Get.{held_by, is_expired}
use log_memcached.Delta.{Numbers, DeltaStats, non_numeric, do_add_delta}
use log_memcached.Delta.References.{do_add_delta-keeps}

abbrev hash : List ℕ → ℕ
hash [] = 0
hash (c ∷ key) = c

-- a C library that finds no number
abbrev numbers : Numbers
numbers = record {
  strtoul = λ cs. 0;
  strtoull = λ cs. record { number = 0; rest = cs; moved = false; erange = false };
  isspace = λ c. c == 32;
  print = λ v. 48 ∷ [];
}

abbrev pause : Cache → Cache
pause s = s

abbrev no_stats : HashStats
no_stats = record { hash_power_level = 0; hash_bytes = 0; hash_is_expanding = false }

-- an item with the key "7" and a value of so many bytes
abbrev holding : ℕ → Cache
holding nbytes = record {
  log =
      record (Memlog.init (record {
        mem_current = 0;
        mem_avail = 0;
        mem_free_from_beginning = 0;
        mem_current_freeing = 0;
      })) {
        memory = λ p. record blank {
          nkey = 1;
          key = 7 ∷ [];
          nbytes = nbytes;
          value = 120 ∷ 13 ∷ 10 ∷ [];
        };
      };
  metas = λ m. record {
    next_free = none;
    prev_free = none;
    time = 50;
    refcount = 1;
    it_flags = record no_flags { linked = true };
    slabs_clsid = 1;
    get_count = 0;
    item = 100;
  };
  first_free = none;
  table = Assoc.insert (Assoc.init 1 no_stats) 2 7;
  cas_id = 0;
  sizes = λ _. 1;
  sizes_bytes = λ _. 0;
  histogram = none;
  counters = record {
    curr_items = 1;
    curr_bytes = 20;
    total_items = 1;
    direct_reclaims = 0;
    outofmemory = 0;
    get_flushed = 0;
    get_expired = 0;
  };
  settings = record {
    use_cas = true;
    oldest_live = 0;
    oldest_cas = 0;
    lru_log_enabled = false;
    lru_log_get_count = 0;
    current_time = 100;
  };
}

abbrev no_hits : DeltaStats
no_hits = record { incr_hits = λ _. 0; decr_hits = λ _. 0 }

do_add_delta-keeps_example :
    (do_add_delta numbers pause (holding 2) (7 ∷ []) true 1 none no_hits 7
      ≡ some (record {
        result = non_numeric;
        cas = none;
        buf = none;
        stats = no_hits;
        cache = held_by (holding 2) 2;
      }))
    × (((held_by (holding 2) 2).metas 2).refcount ≡ 2)
unfolding Assoc.init Assoc.insert Assoc.find item_is_flushed is_expired
do_add_delta-keeps_example =
    do_add_delta-keeps numbers pause hash (holding 2) (7 ∷ []) 2 true 1 none no_hits refl refl refl
      (omega arith) (omega arith)
