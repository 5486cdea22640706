-- ===== src/Replication/Tests.antt =====
-- The theorems on the replay at a backup with two free metadata, that reads an item and its deletion.
use log_memcached.Base.{
  ℕ, ◌+◌, ◌≡◌, refl, sym, ◌∙◌, list_eq, true, false, none, some, Option, List, [], ◌∷◌, arith, ◌==◌,
  if◌then◌else◌, inl, inr,
}
use log_memcached.Base.Memory.{Memory}
use log_memcached.Memlog
use log_memcached.Memlog.Header.{Item, no_flags, blank, ntotal}
use log_memcached.Assoc
use log_memcached.Assoc.{HashStats}
use log_memcached.Assoc.Placed.{init-IsPlaced}
use log_memcached.Items.{Cache, Metadata, key_of}
use log_memcached.Items.Map.{IsPlacedCache, lookup}
use log_memcached.Assoc.Update.{insert-IsPlaced}
use log_memcached.Items.Lookup.{if-cases}
use log_memcached.Replication.{replay_store, do_store_replication}
use log_memcached.Replication.Backup.{InTable, Outside, IsBackup}
use log_memcached.Replication.Stored.{IsLeft}
use log_memcached.Replication.Steps.{replay_store-leaks}
use mathlib.Core.Path.{subst}
use log_memcached.Replication.Chain.{Run, apply_items, view}
use log_memcached.Replication.Loop.{do_store_replication-view}

abbrev hash : List ℕ → ℕ
hash [] = 0
hash (c ∷ key) = c

-- a store of "7" at 0, its deletion at 40
abbrev read_items : Memory Item
read_items p =
    if p == 0
    then record blank {
      nkey = 1;
      key = 7 ∷ [];
      nbytes = 22;
      it_data_flags = record no_flags { stored = true };
    }
    else if p == 40
    then record blank {
      nkey = 1;
      key = 7 ∷ [];
      it_data_flags = record no_flags { stored = true; deleted = true };
    }
    else blank

abbrev free_meta : Option ℕ → Metadata
free_meta next = record {
  next_free = next;
  prev_free = none;
  time = 0;
  refcount = 0;
  it_flags = record no_flags { slabbed = true };
  slabs_clsid = 0;
  get_count = 0;
  item = 0;
}

abbrev no_stats : HashStats
no_stats = record { hash_power_level = 0; hash_bytes = 0; hash_is_expanding = false }

abbrev fresh : Cache
fresh = record {
  log =
      record (Memlog.init (record {
        mem_current = 0;
        mem_avail = 0;
        mem_free_from_beginning = 0;
        mem_current_freeing = 0;
      })) { memory = read_items };
  metas = λ m. if m == 1 then free_meta (some 2) else free_meta none;
  first_free = some 1;
  table = Assoc.init 1 no_stats;
  cas_id = 0;
  sizes = λ _. 0;
  sizes_bytes = λ _. 0;
  histogram = none;
  counters = record {
    curr_items = 0;
    curr_bytes = 0;
    total_items = 0;
    direct_reclaims = 0;
    outofmemory = 0;
    get_flushed = 0;
    get_expired = 0;
  };
  settings = record {
    use_cas = true;
    oldest_live = 0;
    oldest_cas = 0;
    lru_log_enabled = false;
    lru_log_get_count = 0;
    current_time = 100;
  };
}

fresh-lookup : (q : List ℕ) → lookup hash fresh q ≡ none
unfolding Assoc.init Assoc.find
fresh-lookup q = refl

fresh-IsBackup : IsBackup hash fresh (1 ∷ 2 ∷ [])
fresh-IsBackup = record {
  placed = init-IsPlaced (key_of fresh) hash 1 no_stats;
  in_table = λ q it found. let missing = fresh-lookup q in cc;
  free_list = (refl, refl, refl, (refl, refl, refl, refl));
  once = ((λ e. omega arith, tt), (tt, tt));
}

two_items : Run read_items 0 100 (0 ∷ 40 ∷ []) 66
unfolding ntotal
two_items = (
  refl,
  omega arith,
  refl,
  refl,
  omega arith,
  omega arith,
  (refl, omega arith, refl, refl, omega arith, omega arith, (inr (inl refl), refl)),
)

do_store_replication-view_example :
    (s' : Cache) × (free' : List ℕ) × (do_store_replication hash fresh 100 0 ≡ some (66, s'))
    × IsBackup hash s' free'
    × (view hash s' ≡ apply_items read_items (0 ∷ 40 ∷ []) (view hash fresh))
    × (s'.log.current + 0 ≡ 0 + 66)
unfolding Memlog.init
do_store_replication-view_example =
    do_store_replication-view hash fresh 0 100 (0 ∷ 40 ∷ []) 66 (1 ∷ 2 ∷ []) fresh-IsBackup
      (omega arith) (omega arith) two_items

-- the metadata 1 of an item that the table holds
abbrev stored_meta : Metadata
stored_meta = record (free_meta none) { refcount = 2; it_flags = record no_flags { linked = true } }

-- The item at 0 is in the table, and the metadata 2 is free.
abbrev holding : Cache
holding = record fresh {
  metas = λ m. if m == 1 then stored_meta else free_meta none;
  first_free = some 2;
  table = Assoc.insert (fresh.table) 1 7;
}

holding_insert :
    IsPlacedCache hash holding
    × ((q : List ℕ) → lookup hash holding q ≡ (if list_eq q (7 ∷ []) then some 1 else none))
unfolding Assoc.init Assoc.find
holding_insert =
    insert-IsPlaced (key_of holding) hash fresh.table 1
      (init-IsPlaced (key_of holding) hash 1 no_stats) refl

holding_only : (q : List ℕ) (it : ℕ) → lookup hash holding q ≡ some it → it ≡ 1
holding_only q it found =
    elim (if-cases (list_eq q (7 ∷ [])) (some 1) none (sym (holding_insert.1 q) ∙ found)) [
      | inl (_, e) ↦ cc
      | inr (_, e) ↦ cc
    ]

holding-IsBackup : IsBackup hash holding (2 ∷ [])
holding-IsBackup = record {
  placed = holding_insert.0;
  in_table = λ q it found.
      subst (InTable holding) (sym (holding_only q it found))
        (record { linked = refl; used = refl; counted = refl });
  free_list = (refl, refl, refl, refl);
  once = (tt, tt);
}

-- The same item again.
replay_store-leaks_example :
    (s' : Cache) × (replay_store hash holding 0 ≡ some s')
    × IsLeft hash 1 s'
    × IsBackup hash s' []
    × Outside 1 []
unfolding Assoc.init Assoc.insert Assoc.find
replay_store-leaks_example = replay_store-leaks hash holding 2 [] holding-IsBackup 0 1 refl
