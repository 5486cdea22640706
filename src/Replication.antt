-- ===== src/Replication.antt =====
-- memcached.c: `do_store_replication`, by which a backup server replays the part of the log that it
-- has read from the primary into its own memory. `buf` is the base of that memory, so an offset is
-- the address of an item.
pub mod Backup
pub mod Stored
pub mod Steps
pub mod Erased
pub mod Chain
pub mod Loop
mod Tests
use log_memcached.Base.{
  ℕ, zero, suc, ◌+◌, ◌-◌, ◌%◌, ◌^◌, Bool, true, false, ◌&&◌, ◌||◌, not, Option, none, some, List,
  ltb, leb, ◌==◌, if◌then◌else◌, ◌>>=◌, ◌>>◌,
}
use log_memcached.Base.Memory.{store}
use log_memcached.Base.Words.{add32, sub32}
use log_memcached.Memlog.{Memlog}
use log_memcached.Memlog.Header.{Item, Flags, ntotal}
use log_memcached.Assoc
use log_memcached.Items.{Cache, Metadata, key_of, set_meta, assert, do_item_remove}
use log_memcached.Items.Link.{do_item_link, do_item_unlink, do_item_replace}
use log_memcached.Items.Alloc.{freelist_alloc}

-- the least size of an item
abbrev pub least : ℕ
least = 35

-- `stats.mem_current`
abbrev pub publish_current : Cache → Cache
publish_current s = record s {
  log = record (s.log) { stats = record (s.log.stats) { mem_current = s.log.current } };
}

-- `set_memory_current` and `set_memory_available` after an item of `n` bytes
unfoldable pub pass : Cache → ℕ → Cache
pass s n = publish_current (record s {
  log = record (s.log) { current = s.log.current + n; avail = sub32 (s.log.avail % 2 ^ 32) n };
})

-- the metadata of a replayed item
abbrev pub replayed_meta : Metadata → Bool → ℕ → Metadata
replayed_meta m use_cas p = record m {
  item = p;
  next_free = none;
  prev_free = none;
  slabs_clsid = 1;
  it_flags = record (m.it_flags) { cas = use_cas || m.it_flags.cas };
}

module _ (hash : List ℕ → ℕ) where
  -- "just a normal store" of the item at `p`
  unfoldable pub replay_store : Cache → ℕ → Option Cache
  unfolding freelist_alloc do_item_replace do_item_link
  replay_store s p =
      let (found, s₁) = freelist_alloc s in
      elim found [
        | none ↦ none
        | some it ↦
            let s₂ = set_meta s₁ it (replayed_meta (s₁.metas it) s₁.settings.use_cas p) in
            let hv = hash (key_of s₂ it) in
            elim (Assoc.find (key_of s₂) s₂.table (key_of s₂ it) hv) [
              | none ↦ do_item_link s₂ it hv
              | some old_it ↦ do_item_replace s₂ old_it it hv
            ]
      ]

  -- a deletion of the key of the item at `p`
  unfoldable pub replay_delete : Cache → ℕ → Option Cache
  unfolding do_item_unlink do_item_remove
  replay_delete s p =
      let key = (s.log.memory p).key in
      elim (Assoc.find (key_of s) s.table key (hash key)) [
        | none ↦ some s
        | some it_del ↦ (do
          s' ← do_item_unlink s it_del (hash (key_of s it_del))
          do_item_remove s' it_del)
      ]

  -- the item at `p`, by its flags
  unfoldable pub replay_item : Cache → Flags → ℕ → Option Cache
  unfolding replay_store replay_delete
  replay_item s flags p =
      if flags.corrupted
      then some s
      else if flags.deleted
      then replay_delete s p
      else replay_store s p

  -- the start of the log again, behind a cycle item
  unfoldable pub replay_cycle : Cache → Cache
  replay_cycle s = publish_current (record s {
    log = record (s.log) {
      current = 0;
      avail = s.log.free_from_beginning % 2 ^ 32;
      free_from_beginning = 0;
    };
  })

  -- The loop, on fuel; the result is the offset that it returns. `none` is a failed assertion or the
  -- end of the fuel.
  unfoldable pub replay_loop : ℕ → Cache → ℕ → ℕ → Option (ℕ × Cache)
  unfolding replay_item replay_cycle pass ntotal
  replay_loop zero s remaining_size offset = none
  replay_loop (suc fuel) s remaining_size offset =
      let it = s.log.memory offset in
      let flags = it.it_data_flags in
      let n = ntotal it % 2 ^ 32 in
      elim (leb least remaining_size) [
        | false ↦ some (offset, publish_current s)
        | true ↦ elim (flags.stored && not flags.dirty) [
          | false ↦ some (offset, publish_current s)
          | true ↦ elim flags.cycle [
            | true ↦ some (0, replay_cycle s)
            | false ↦ elim (ltb remaining_size n) [
              | true ↦ some (offset, publish_current s)
              | false ↦ (do
                s' ← replay_item s flags offset
                replay_loop fuel (pass s' n) (remaining_size - n) (add32 offset n))
            ]
          ]
        ]
      ]

  -- `do_store_replication`; every round passes a byte at least
  unfoldable pub do_store_replication : Cache → ℕ → ℕ → Option (ℕ × Cache)
  unfolding replay_loop
  do_store_replication s size replication_offset = replay_loop (suc size) s size replication_offset
