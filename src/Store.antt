-- ===== src/Store.antt =====
-- memcached.c: `do_store_item`, which every storage command of either protocol ends in.
mod Set
mod Over
mod Tests
use log_memcached.Base.{
  ℕ, ◌+◌, ◌-◌, ◌^◌, ◌%◌, Bool, true, false, ◌&&◌, not, Option, none, some, List, ◌++◌, take, ltb,
  leb, ◌==◌, if◌then◌else◌, ◌>>=◌, ◌>>◌,
}
use log_memcached.Base.Memory.{Memory, store}
use log_memcached.Base.Words.{add32, sub32, add64}
use log_memcached.Libc.{Libc}
use log_memcached.Memlog.Header.{Item, get_cas}
use log_memcached.Items.{Cache, Metadata, item_of, key_of, set_item, do_item_remove}
use log_memcached.Items.Link.{do_item_link, do_item_replace}
use log_memcached.Items.Alloc.{do_item_alloc}
use log_memcached.Items.Get.{do_item_get}
use log_memcached.Items.Renew.{do_item_update, mark_stored}

-- the NREAD_ constants
pub data Verb : Type 0 where
  add : Verb
  set : Verb
  replace : Verb
  append : Verb
  prepend : Verb
  cas : Verb

-- `store_item_type`
pub data StoreItemType : Type 0 where
  not_stored : StoreItemType
  stored : StoreItemType
  exists : StoreItemType
  not_found : StoreItemType
  too_large : StoreItemType
  no_memory : StoreItemType

-- what the function writes of `conn` and of its thread's counters
pub record Conn : Type 0 where
  pub cas : ℕ
  pub cas_misses : ℕ
  pub cas_hits : Memory ℕ
  pub cas_badval : Memory ℕ

abbrev pub is_stored : StoreItemType → Bool
is_stored not_stored = false
is_stored stored = true
is_stored exists = false
is_stored not_found = false
is_stored too_large = false
is_stored no_memory = false

-- `stored`, `new_it`, `it` and the rest, where the branches of the function meet
pub record Attempt : Type 0 where
  pub result : StoreItemType
  pub new_it : Option ℕ
  pub it : ℕ
  pub conn : Conn
  pub cache : Cache

-- `_store_item_copy_data`: the value of the old item and the one to add, less the line end between
-- them; a value has `nbytes` bytes, at least the two of its line end
unfoldable pub copy_data : Bool → Item → Item → List ℕ
copy_data true old added = take (old.nbytes - 2) old.value ++ added.value
copy_data false old added = take (added.nbytes - 2) added.value ++ old.value

module _ ⦃libc : Libc⦄ (strtoul : List ℕ → ℕ) (pause : Cache → Cache) (hash : List ℕ → ℕ) where
  -- the item goes in, in the place of the old one if there is one
  unfoldable pub put : Cache → Conn → ℕ → Option ℕ → Option ℕ → ℕ → Option Attempt
  unfolding do_item_replace do_item_link get_cas
  put s c it old_it new_it hv = do
    s' ← elim old_it [ none ↦ do_item_link s it hv | some o ↦ do_item_replace s o it hv ]
    some (record {
      result = stored;
      new_it = new_it;
      it = it;
      conn = record c { cas = get_cas (item_of s' it) };
      cache = s';
    })

  -- nothing is stored
  abbrev pub leave : StoreItemType → Cache → Conn → ℕ → Option Attempt
  leave r s c it = some (record { result = r; new_it = none; it = it; conn = c; cache = s })

  -- `add` of a key that is there
  unfoldable pub promote : Cache → Conn → ℕ → ℕ → Option Attempt
  unfolding do_item_update
  promote s c it o = do
    (new, state, s') ← do_item_update strtoul pause hash s o
    some (record {
      result = elim state [ none ↦ not_stored | some b ↦ if b then stored else not_stored ];
      new_it = new;
      it = it;
      conn = c;
      cache = s';
    })

  -- `cas` of a key that is there
  unfoldable pub compare_and_swap : Cache → Conn → ℕ → ℕ → ℕ → Option Attempt
  unfolding get_cas do_item_replace
  compare_and_swap s c it o hv =
      let id = (s.metas o).slabs_clsid in
      if get_cas (item_of s it) == get_cas (item_of s o)
      then (do
        s' ← do_item_replace s o it hv
        some (record {
          result = stored;
          new_it = none;
          it = it;
          conn = record c { cas_hits = store c.cas_hits id (add64 (c.cas_hits id) 1) };
          cache = s';
        }))
      else leave exists s
          (record c { cas_badval = store c.cas_badval id (add64 (c.cas_badval id) 1) }) it

  -- `append` and `prepend` to a key that is there
  unfoldable pub join : Bool → Cache → Conn → ℕ → ℕ → ℕ → Option Attempt
  unfolding get_cas copy_data put do_item_alloc
  join at_end s c it o hv =
      let wanted = get_cas (item_of s it) in
      let old = item_of s o in
      let nbytes = sub32 (add32 (item_of s it).nbytes old.nbytes) 2 in
      if not (wanted == 0) && not (wanted == get_cas old) then leave exists s c it else (do
        (new, _, s₁) ←
            do_item_alloc pause s (key_of s it) (strtoul old.suffix % 2 ^ 32) old.exptime nbytes
        elim new [
          | none ↦ leave not_stored s₁ c it
          | some n ↦
              put
                (set_item s₁ n (record (item_of s₁ n) {
                  value = copy_data at_end (item_of s₁ o) (item_of s₁ it);
                }))
                c n (some o) (some n) hv
        ])

  -- the branches of `do_store_item`, on the command and on what the get has found
  unfoldable pub attempt : Verb → Cache → Conn → ℕ → Option ℕ → ℕ → Option Attempt
  unfolding promote put compare_and_swap join
  attempt add s c it none hv = put s c it none none hv
  attempt add s c it (some o) hv = promote s c it o
  attempt set s c it old_it hv = put s c it old_it none hv
  attempt replace s c it none hv = leave not_stored s c it
  attempt replace s c it (some o) hv = put s c it (some o) none hv
  attempt append s c it none hv = leave not_stored s c it
  attempt append s c it (some o) hv = join true s c it o hv
  attempt prepend s c it none hv = leave not_stored s c it
  attempt prepend s c it (some o) hv = join false s c it o hv
  attempt cas s c it none hv = leave not_found s (record c { cas_misses = add64 c.cas_misses 1 }) it
  attempt cas s c it (some o) hv = compare_and_swap s c it o hv

  abbrev pub remove_if : Cache → Option ℕ → Option Cache
  remove_if s none = some s
  remove_if s (some it) = do_item_remove s it

  -- the references are given back, and a stored item is complete
  unfoldable pub finish : Attempt → Option ℕ → Option (StoreItemType × Conn × Cache)
  unfolding do_item_remove get_cas mark_stored
  finish a old_it = do
    s₁ ← remove_if a.cache old_it
    s₂ ← remove_if s₁ a.new_it
    some (
        if is_stored a.result
        then (a.result, record (a.conn) { cas = get_cas (item_of s₂ a.it) }, mark_stored s₂ a.it)
        else (a.result, a.conn, s₂))

  -- `do_store_item`
  unfoldable pub do_store_item : Verb → Cache → Conn → ℕ → ℕ → Option (StoreItemType × Conn × Cache)
  unfolding do_item_get attempt finish
  do_store_item comm s c it hv = do
    (old_it, s₁) ← do_item_get s (key_of s it) hv
    a ← attempt comm s₁ c it old_it hv
    finish a old_it
