-- ===== src/Ascii/Commands/Tests.antt =====
-- The theorems on the commands at a cache that holds the key "a", in a log with and without room.
use log_memcached.Base.{
  ℕ, ◌≡◌, refl, Bool, true, false, Option, none, some, List, [], ◌∷◌, ◌++◌, ◌==◌, if◌then◌else◌,
  arith, ◌≤◌, ◌<◌, ◌↔◌, ◌⊎◌,
}
use log_memcached.Base.Text.{codes}
use log_memcached.Libc.Decimal.{decimal_libc, print_two}
use log_memcached.Memlog
use log_memcached.Memlog.{Memlog, memlog_alloc}
use log_memcached.Memlog.Header.{get_cas, blank, no_flags}
use log_memcached.Assoc
use log_memcached.Assoc.{HashStats}
use log_memcached.Assoc.Placed.{init-IsPlaced}
use log_memcached.Assoc.Update.{insert-IsPlaced}
use log_memcached.Items.{Cache, Metadata, key_of, item_of, item_is_flushed}
use log_memcached.Items.Alloc.{do_item_alloc, item_total}
use log_memcached.Items.Map.{IsPlacedCache, lookup}
use log_memcached.Items.Replace.{Updated}
use log_memcached.Items.Get.{held_by, is_expired}
use log_memcached.Store.{set}
use log_memcached.Delta.{Numbers}
use log_memcached.Ascii.Time.{pos, realtime}
use log_memcached.Ascii.Numbers.{Longs}
use log_memcached.Ascii.Conn.{Client, conn_new_cmd, conn_parse_cmd, line_end}
use log_memcached.Ascii.Update.{Line, begin_store}
use log_memcached.Ascii.Update.Failed.{IsRefused, begin_store-fails}
use log_memcached.Ascii.Flush.{flush_all, flush_all-flushed}
use log_memcached.Ascii.Choice.{read_command}
use log_memcached.Ascii.Commands.{process_delete_command, complete_nread_ascii, has_line_end}
use log_memcached.Ascii.Commands.Dispatch.{CanRead, read_command-CanRead}
use log_memcached.Ascii.Commands.Deletes.{
  process_delete_command-leaks, process_delete_command-deletes,
}
use log_memcached.Ascii.Commands.Chunks.{complete_nread_ascii-passes}
use log_memcached.Memlog.Header.{ntotal}
use log_memcached.Replication.{pass, replay_loop}

abbrev pub hash : List ℕ → ℕ
hash [] = 0
hash (c ∷ key) = c

abbrev pub strtoul : List ℕ → ℕ
strtoul cs = 0

abbrev longs : Longs
longs = record {
  strtoul = λ cs. record { number = 0; rest = []; moved = true; erange = false };
  strtol = λ cs. record { number = pos 0; rest = []; moved = true; erange = false };
  isspace = λ c. false;
}

abbrev pub numbers : Numbers
numbers = record {
  strtoul = strtoul;
  strtoull = λ cs. record { number = 0; rest = []; moved = true; erange = false };
  isspace = λ c. false;
  print = λ n. [];
}

abbrev pub pause : Cache → Cache
pause s = s

abbrev pub client : Option ℕ → Client
client it = record {
  state = conn_parse_cmd;
  noreply = false;
  wbuf = [];
  wsize = 2048;
  write_and_go = conn_new_cmd;
  item = it;
  rlbytes = 0;
  cmd = set;
  sbytes = 0;
  store = record { cas = 0; cas_misses = 0; cas_hits = λ _. 0; cas_badval = λ _. 0 };
  stats = record {
    set_cmds = λ _. 0;
    incr_misses = 0;
    decr_misses = 0;
    get_cmds = 0;
    get_hits = λ _. 0;
    get_misses = 0;
    touch_cmds = 0;
    touch_hits = λ _. 0;
    touch_misses = 0;
    delete_hits = λ _. 0;
    delete_misses = 0;
    flush_cmds = 0;
  };
}

read_command-CanRead_example :
    CanRead numbers longs
      (client none)
      (read_command (codes "delete a noreply")).0
      (read_command (codes "delete a noreply")).1
read_command-CanRead_example =
    read_command-CanRead numbers longs (client none) (codes "delete a noreply")

abbrev pub meta : ℕ → Bool → Metadata
meta p linked = record {
  next_free = none;
  prev_free = none;
  time = 50;
  refcount = 1;
  it_flags = record no_flags { linked = linked };
  slabs_clsid = 1;
  get_count = 0;
  item = p;
}

abbrev pub no_stats : HashStats
no_stats = record { hash_power_level = 0; hash_bytes = 0; hash_is_expanding = false }

-- Metadata 1 is in the table under "a", and 2 is loose over an item that is being received.
abbrev pub holding : ℕ → Cache
holding avail = record {
  log =
      record (Memlog.init (record {
        mem_current = 0;
        mem_avail = 0;
        mem_free_from_beginning = 0;
        mem_current_freeing = 0;
      })) {
        avail = avail;
        memory = λ p.
            if p == 100
            then record blank { nkey = 1; key = codes "a" }
            else if p == 200
            then record blank { nkey = 1; key = codes "b"; nbytes = 5; value = codes "hello" }
            else blank;
      };
  metas = λ m. if m == 1 then meta 100 true else meta 200 false;
  first_free = none;
  table = Assoc.insert (Assoc.init 1 no_stats) 1 97;
  cas_id = 0;
  sizes = λ _. 1;
  sizes_bytes = λ _. 0;
  histogram = none;
  counters = record {
    curr_items = 1;
    curr_bytes = 18;
    total_items = 1;
    direct_reclaims = 0;
    outofmemory = 0;
    get_flushed = 0;
    get_expired = 0;
  };
  settings = record {
    use_cas = true;
    oldest_live = 0;
    oldest_cas = 0;
    lru_log_enabled = false;
    lru_log_get_count = 0;
    current_time = 100;
  };
}

holding-IsPlacedCache : (avail : ℕ) → IsPlacedCache hash (holding avail)
unfolding Assoc.init Assoc.find
holding-IsPlacedCache avail =
    (insert-IsPlaced (key_of (holding avail)) hash (Assoc.init 1 no_stats) 1
      (init-IsPlaced (key_of (holding avail)) hash 1 no_stats) refl).0

-- "hello" is not "hel" and a line end; its item has no CAS, and the replay passes 31 bytes.
complete_nread_ascii-passes_example :
    (c' : Client) × (s' : Cache) × (complete_nread_ascii strtoul pause hash
        (holding 1000)
        (client (some 2))
      ≡ some (c', s'))
    × (c'.item ≡ none)
    × IsPlacedCache hash s'
    × ((q : List ℕ) → lookup hash s' q ≡ lookup hash (holding 1000) q)
    × (replay_loop hash 10 s' 100 200 ≡ replay_loop hash 9 (pass s' 31) 69 231)
unfolding has_line_end ntotal
complete_nread_ascii-passes_example =
    complete_nread_ascii-passes strtoul pause hash (holding 1000) (client (some 2)) 2 refl refl refl
      refl (omega arith) (holding-IsPlacedCache 1000)
      (record { whole = refl; kept = refl; inner = refl }) (omega arith) (λ x. x) 9 100 (λ x. refl)
      (omega arith) (omega arith)

-- the cache after the allocation of a deletion
abbrev after : ℕ → Cache
after avail = elim (do_item_alloc pause (held_by (holding avail) 1) (codes "a") 128 0 0) [
  | none ↦ holding avail
  | some (it, ok, s) ↦ s
]

process_delete_command-leaks_example :
    (c' : Client) × (process_delete_command strtoul pause hash
        (holding 0)
        (client none)
        (codes "delete" ∷ codes "a" ∷ [])
      ≡ some (c', after 0))
    × (((after 0).metas 1).refcount ≡ 2)
unfolding do_item_alloc memlog_alloc Memlog.memory_allocate Memlog.near_end Memlog.init print_two
    item_total Assoc.init Assoc.insert Assoc.find item_is_flushed is_expired
process_delete_command-leaks_example =
    process_delete_command-leaks strtoul pause hash (holding 0) (after 0) (client none)
      (codes "delete") (codes "a") 1 (λ x. refl) (omega arith) refl refl refl (omega arith) refl

after-IsPlacedCache : IsPlacedCache hash (after 1000)
unfolding do_item_alloc memlog_alloc Memlog.memory_allocate Memlog.near_end Memlog.init print_two
    item_total Memlog.advance Assoc.init Assoc.find
after-IsPlacedCache =
    (insert-IsPlaced (key_of (after 1000)) hash (Assoc.init 1 no_stats) 1
      (init-IsPlaced (key_of (after 1000)) hash 1 no_stats) refl).0

process_delete_command-deletes_example :
    (c' : Client) × (s' : Cache) × (process_delete_command strtoul pause hash
        (holding 1000)
        (client none)
        (codes "delete" ∷ codes "a" ∷ [])
      ≡ some (c', s'))
    × (false ≡ false → c'.wbuf ≡ codes "DELETED" ++ line_end)
    × Updated hash (after 1000) (codes "a") none s'
unfolding do_item_alloc memlog_alloc Memlog.memory_allocate Memlog.near_end Memlog.init print_two
    item_total Memlog.advance Assoc.init Assoc.insert Assoc.find item_is_flushed is_expired
process_delete_command-deletes_example =
    process_delete_command-deletes strtoul pause hash (holding 1000) (after 1000) (client none)
      (codes "delete") (codes "a") 1 (omega arith) (omega arith) refl refl refl refl
      after-IsPlacedCache
      (record { found = refl; linked = refl; used = refl; referenced = omega arith }) refl
      (omega arith) (omega arith)

abbrev big : Line
big = record { key = codes "a"; flags = 0; exptime = pos 0; vlen = 3000; req_cas_id = 0 }

-- the cache after an allocation that fails
abbrev failed : Cache
failed = elim (do_item_alloc pause (holding 1000) (codes "a") 0 0 3000) [
  | none ↦ holding 1000
  | some (it, ok, s) ↦ s
]

failed-IsPlacedCache : IsPlacedCache hash failed
unfolding do_item_alloc memlog_alloc Memlog.memory_allocate Memlog.near_end Memlog.init print_two
    item_total Assoc.init Assoc.find
failed-IsPlacedCache =
    (insert-IsPlaced (key_of failed) hash (Assoc.init 1 no_stats) 1
      (init-IsPlaced (key_of failed) hash 1 no_stats) refl).0

begin_store-fails_example :
    (c' : Client) × (s' : Cache) × (begin_store numbers longs pause hash 0
        (holding 1000)
        (client none)
        set
        big
      ≡ some (c', s'))
    × IsRefused (client none) 3000 c'
    × Updated hash failed (codes "a") none s'
unfolding do_item_alloc memlog_alloc Memlog.memory_allocate Memlog.near_end Memlog.init print_two
    item_total Assoc.init Assoc.insert Assoc.find item_is_flushed is_expired realtime
begin_store-fails_example =
    begin_store-fails numbers longs pause hash 0 (holding 1000) failed (client none) big 1 false
      refl failed-IsPlacedCache
      (record { found = refl; linked = refl; used = refl; referenced = omega arith }) refl
      (omega arith) refl refl

-- Metadata 1 was stored at the time 50, and it is 100.
flush_all-flushed_example :
    (c' : Client) × (s' : Cache) × (flush_all longs 0 true false
        (holding 1000)
        (client none)
        (codes "flush_all" ∷ [])
      ≡ some (c', s'))
    × ((item_is_flushed s' 1 ≡ true) ↔ (
        (50 < 100)
        ⊎ ((0 < get_cas (item_of (holding 1000) 1)) × (get_cas (item_of (holding 1000) 1) ≤ 0))))
flush_all-flushed_example =
    flush_all-flushed longs 0 false (holding 1000) (client none) 1 refl refl (omega arith)
      (omega arith) (omega arith)
