-- ===== src/Assoc.antt =====
-- assoc.c: the hash table from keys to item metadata, which grows a bucket at a time. A pointer to
-- metadata is a number; a chain is the list that `h_next` strings together, and an array of chains
-- is a function of the index.
pub mod Chains
pub mod Placed
pub mod Update
pub mod Rekey
pub mod Grow
mod Tests
use log_memcached.Base.{
  ℕ, zero, suc, ◌+◌, ◌-◌, ◌*◌, ◌/◌, ◌%◌, ◌^◌, Bool, true, false, ◌&&◌, not, Option, none, some,
  List, [], ◌∷◌, ltb, leb, ◌==◌, if◌then◌else◌, list_eq,
}
use log_memcached.Base.Memory.{Memory, store}
use log_memcached.Base.Words.{add32, sub32, add64, sub64}

abbrev pub Chain : Type 0
Chain = List ℕ

-- the fields of `struct stats_state` that follow the table
pub record HashStats : Type 0 where
  pub hash_power_level : ℕ
  pub hash_bytes : ℕ
  pub hash_is_expanding : Bool

pub record Table : Type 0 where
  pub hashpower : ℕ
  pub primary : Memory Chain
  pub old : Memory Chain
  pub hash_items : ℕ
  pub expanding : Bool
  pub started_expanding : Bool
  pub expand_bucket : ℕ
  pub stats : HashStats

abbrev pub hashsize : ℕ → ℕ
hashsize n = 2 ^ n

-- HASHPOWER_DEFAULT, and `sizeof(void *)`
abbrev pub hashpower_default : ℕ
hashpower_default = 16

abbrev pub sizeof_pointer : ℕ
sizeof_pointer = 8

-- `assoc_init`, when `calloc` succeeds; otherwise the process exits
unfoldable pub init : ℕ → HashStats → Table
init hashtable_init stats =
    let power = if hashtable_init == 0 then hashpower_default else hashtable_init in
    record {
      hashpower = power;
      primary = λ _. [];
      old = λ _. [];
      hash_items = 0;
      expanding = false;
      started_expanding = false;
      expand_bucket = 0;
      stats = record stats {
        hash_power_level = power;
        hash_bytes = hashsize power * sizeof_pointer;
      };
    }

abbrev pub old_bucket : Table → ℕ → ℕ
old_bucket t hv = hv % hashsize (t.hashpower - 1)

abbrev pub new_bucket : Table → ℕ → ℕ
new_bucket t hv = hv % hashsize t.hashpower

-- does the bucket of the hash still stand in the old table?
unfoldable pub in_old : Table → ℕ → Bool
in_old t hv = t.expanding && leb t.expand_bucket (old_bucket t hv)

unfoldable pub chain_of : Table → ℕ → Chain
unfolding in_old
chain_of t hv = if in_old t hv then t.old (old_bucket t hv) else t.primary (new_bucket t hv)

unfoldable pub set_chain : Table → ℕ → Chain → Table
unfolding in_old
set_chain t hv c =
    if in_old t hv
    then record t { old = store t.old (old_bucket t hv) c }
    else record t { primary = store t.primary (new_bucket t hv) c }

-- `assoc_start_expand`; the maintenance thread is woken
unfoldable pub start_expand : Table → Table
start_expand t = if t.started_expanding then t else record t { started_expanding = true }

-- the counter at the end of `assoc_insert`
unfoldable pub count_insert : Table → Table
unfolding start_expand
count_insert t =
    let t' : Table = record t { hash_items = add32 t.hash_items 1 } in
    if not t'.expanding && ltb (hashsize t'.hashpower * 3 / 2) t'.hash_items
    then start_expand t'
    else t'

-- `assoc_insert`
unfoldable pub insert : Table → ℕ → ℕ → Table
unfolding chain_of set_chain count_insert
insert t it hv = count_insert (set_chain t hv (it ∷ chain_of t hv))

-- `assoc_expand`; `calloc` may fail
unfoldable pub expand : Bool → Table → Table
expand false t = record t { old = t.primary }
expand true t = record t {
  old = t.primary;
  primary = λ _. [];
  hashpower = t.hashpower + 1;
  expanding = true;
  expand_bucket = 0;
  stats = record {
    hash_power_level = t.hashpower + 1;
    hash_bytes = t.stats.hash_bytes + hashsize (t.hashpower + 1) * sizeof_pointer;
    hash_is_expanding = true;
  };
}

-- The key of each item, and the hash function, are the caller's.
module _ (key_of : ℕ → List ℕ) where
  -- the loop of `assoc_find`
  unfoldable pub find_in : List ℕ → Chain → Option ℕ
  find_in key [] = none
  find_in key (it ∷ c) = if list_eq key (key_of it) then some it else find_in key c

  -- `assoc_find`
  unfoldable pub find : Table → List ℕ → ℕ → Option ℕ
  unfolding chain_of find_in
  find t key hv = find_in key (chain_of t hv)

  -- unlinking through the pointer that `_hashitem_before` returns; `none` if there is no item
  unfoldable pub remove_from : List ℕ → Chain → Option Chain
  remove_from key [] = none
  remove_from key (it ∷ c) =
      if list_eq key (key_of it)
      then some c
      else elim (remove_from key c) [ none ↦ none | some c' ↦ some (it ∷ c') ]

  -- `assoc_delete`; `none` is its failing assertion
  unfoldable pub delete : Table → List ℕ → ℕ → Option Table
  unfolding chain_of set_chain remove_from
  delete t key hv = elim (remove_from key (chain_of t hv)) [
    | none ↦ none
    | some c ↦ some (set_chain (record t { hash_items = sub32 t.hash_items 1 }) hv c)
  ]

  module _ (hash : List ℕ → ℕ) where
    -- the inner loop of the maintenance thread: the chain's items go to the primary table
    unfoldable pub move_chain : ℕ → Chain → Memory Chain → Memory Chain
    move_chain power [] primary = primary
    move_chain power (it ∷ c) primary =
        let bucket = hash (key_of it) % hashsize power in
        move_chain power c (store primary bucket (it ∷ primary bucket))

    -- one bucket, under its lock
    unfoldable pub move_bucket : Table → Table
    unfolding move_chain
    move_bucket t =
        let b = t.expand_bucket in
        let t' : Table = record t {
          primary = move_chain t.hashpower (t.old b) t.primary;
          old = store t.old b [];
          expand_bucket = add32 b 1;
        } in
        if t'.expand_bucket == hashsize (t.hashpower - 1)
        then record t' {
          expanding = false;
          stats = record (t.stats) {
            hash_bytes = sub64 t.stats.hash_bytes (hashsize (t.hashpower - 1) * sizeof_pointer);
            hash_is_expanding = false;
          };
        }
        else t'

    -- one round of the loop of `assoc_maintenance_thread`: `item_trylock` gets the lock or not
    unfoldable pub maintain : Bool → Table → Table
    unfolding move_bucket
    maintain locked t = if t.expanding && locked then move_bucket t else t

    -- what the thread does once nothing is left to move and it is woken
    unfoldable pub wake : Bool → Table → Table
    unfolding expand
    wake allocated t =
        if t.expanding then t else expand allocated (record t { started_expanding = false })
