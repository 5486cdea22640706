-- ===== src/Requests/Tests.antt =====
-- The theorems on the binary protocol at a cache that holds the key "7".
use log_memcached.Base.{ℕ, ◌≡◌, refl, true, false, none, some, List, [], ◌∷◌, ◌++◌, ◌==◌, arith}
use log_memcached.Libc.Decimal.{decimal_libc}
use log_memcached.Memlog
use log_memcached.Memlog.Header.{Item, blank, no_flags, get_cas}
use log_memcached.Assoc
use log_memcached.Assoc.{HashStats}
use log_memcached.Assoc.Placed.{init-IsPlaced}
use log_memcached.Assoc.Update.{insert-IsPlaced}
use log_memcached.Items.{Cache, key_of, item_is_flushed}
use log_memcached.Items.Map.{IsPlacedCache}
use log_memcached.Items.Replace.{Updated}
use log_memcached.Items.Get.{is_expired}
use log_memcached.Delta.{Numbers, DeltaStats}
use log_memcached.Binary.{get, getk, key_enoent, success, reading_get_key}
use log_memcached.Ascii.Conn.{conn_nread, conn_new_cmd}
use log_memcached.Ascii.Buffer.{binary_prot}
use log_memcached.Drive.{Peer, code, conn_new}
use log_memcached.Drive.Send.Order.{all_bytes}
use log_memcached.Requests.{add_response, binary_get_key}
use log_memcached.Requests.Keys.{answer_item, process_bin_delete, should_return_key}
use log_memcached.Requests.Complete.{complete_nread_binary}
use log_memcached.Requests.Framing.{read_response}
use log_memcached.Requests.Replies.{response_to, item_body, add_response-reads, answer_item-reads}
use log_memcached.Requests.Deletes.{process_bin_delete-deletes}

abbrev hash : List ℕ → ℕ
hash [] = 0
hash (c ∷ key) = c

abbrev numbers : Numbers
numbers = record {
  strtoul = λ cs. 5;
  strtoull = λ cs. record { number = 0; rest = cs; moved = false; erange = false };
  isspace = λ c. c == 32;
  print = λ v. 48 ∷ [];
}

abbrev pause : Cache → Cache
pause s = s

abbrev no_stats : HashStats
no_stats = record { hash_power_level = 0; hash_bytes = 0; hash_is_expanding = false }

-- the value "x" under the key "7"
abbrev value : Item
value = record blank { nkey = 1; key = 7 ∷ []; nbytes = 3; value = 120 ∷ 13 ∷ 10 ∷ [] }

abbrev holding : Cache
holding = record {
  log =
      record (Memlog.init (record {
        mem_current = 0;
        mem_avail = 0;
        mem_free_from_beginning = 0;
        mem_current_freeing = 0;
      })) { memory = λ p. value };
  metas = λ m. record {
    next_free = none;
    prev_free = none;
    time = 50;
    refcount = 1;
    it_flags = record no_flags { linked = true };
    slabs_clsid = 1;
    get_count = 0;
    item = 100;
  };
  first_free = none;
  table = Assoc.insert (Assoc.init 1 no_stats) 2 7;
  cas_id = 0;
  sizes = λ _. 1;
  sizes_bytes = λ _. 0;
  histogram = none;
  counters = record {
    curr_items = 1;
    curr_bytes = 20;
    total_items = 1;
    direct_reclaims = 0;
    outofmemory = 0;
    get_flushed = 0;
    get_expired = 0;
  };
  settings = record {
    use_cas = true;
    oldest_live = 0;
    oldest_cas = 0;
    lru_log_enabled = false;
    lru_log_get_count = 0;
    current_time = 100;
  };
}

holding-IsPlacedCache : IsPlacedCache hash holding
unfolding Assoc.init Assoc.find
holding-IsPlacedCache =
    (insert-IsPlaced (key_of holding) hash (Assoc.init 1 no_stats) 2
      (init-IsPlaced (key_of holding) hash 1 no_stats) refl).0

abbrev idle : Peer
idle = conn_new conn_new_cmd 2048 binary_prot (record {
  opcode = 0;
  keylen = 1;
  extlen = 0;
  bodylen = 1;
  opaque = 1 ∷ 2 ∷ 3 ∷ 4 ∷ [];
  cas = 0;
})

-- a request whose key has been read
abbrev asking : ℕ → Peer
asking key = record idle {
  state = conn_nread;
  substate = reading_get_key;
  received = key ∷ [];
  in_buffer = true;
  cmd = code get;
}

-- an error in front of two other bytes
add_response-reads_example :
    read_response (
      all_bytes (add_response idle key_enoent 0 0 2 9 ((78 ∷ 111 ∷ []) ∷ [])).pending
      ++ (1 ∷ 2 ∷ []))
    ≡ some (response_to idle key_enoent 0 0 9 (78 ∷ 111 ∷ []), 1 ∷ 2 ∷ [])
add_response-reads_example =
    add_response-reads idle key_enoent 0 0 2 9 ((78 ∷ 111 ∷ []) ∷ []) (1 ∷ 2 ∷ []) refl
      (omega arith) (omega arith) refl (omega arith) (omega arith)

-- a request that wants the key back
abbrev asking_key : ℕ → Peer
asking_key key = record (asking key) { cmd = code getk }

answer_item-reads_example :
    read_response (all_bytes (answer_item (λ cs. 5) (asking_key 7) value 2).pending ++ [])
    ≡ some (
      response_to
          (asking_key 7)
          success
          4
          1
          (get_cas value)
          (item_body (λ cs. 5) (asking_key 7) value),
      [],
    )
unfolding binary_get_key get_cas should_return_key
answer_item-reads_example =
    answer_item-reads (λ cs. 5) (asking_key 7) value 2 []
      (record {
        opaque = refl;
        key = omega arith;
        short_key = omega arith;
        line_end = omega arith;
        value = omega arith;
        short_value = omega arith;
        small_cas = omega arith;
      })

process_bin_delete-deletes_example :
    (q : Peer) × (s' : Cache) × (process_bin_delete numbers pause hash 0 holding (asking 7)
      ≡ some (q, s'))
    × Updated hash holding (7 ∷ []) none s'
    × (s'.log ≡ holding.log)
unfolding Assoc.init Assoc.insert Assoc.find item_is_flushed is_expired binary_get_key
process_bin_delete-deletes_example =
    process_bin_delete-deletes numbers pause hash 0 holding (asking 7) 2 holding-IsPlacedCache
      (record { found = refl; linked = refl; used = refl; referenced = omega arith }) (omega arith)
      refl refl refl refl

abbrev no_hits : DeltaStats
no_hits = record { incr_hits = λ _. 0; decr_hits = λ _. 0 }

-- the connection after a get of a key that is not there
abbrev missed : Peer
missed = elim (complete_nread_binary numbers pause hash 0 true no_hits holding (asking 8)) [
  | none ↦ idle
  | some (hits, q, s) ↦ q
]
