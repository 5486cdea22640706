-- ===== src/Items/Alloc.antt =====
-- items.c: free metadata and `do_item_alloc`.
use log_memcached.Base.{
  ℕ, zero, suc, ◌+◌, ◌/◌, ◌%◌, ◌^◌, Bool, true, false, ◌||◌, Option, none, some, List, ◌==◌,
  if◌then◌else◌, length,
}
use log_memcached.Base.Memory.{Memory, store}
use log_memcached.Base.Words.{sub32, add64}
use log_memcached.Libc.{Libc}
use log_memcached.Memlog.{memlog_alloc}
use log_memcached.Memlog.Header.{Item, sizeof_item_data, sizeof_cas}
use log_memcached.Items.{Cache, Metadata, set_meta}

-- `do_freelist_alloc`
unfoldable pub freelist_alloc : Cache → Option ℕ × Cache
freelist_alloc s = elim s.first_free [
  | none ↦ (none, s)
  | some it ↦
      let m = s.metas it in
      let metas : Memory Metadata = elim m.next_free [
        | none ↦ s.metas
        | some next ↦ store s.metas next (record (s.metas next) { prev_free = none })
      ] in
      (
        some it,
        record s {
          first_free = m.next_free;
          metas = store metas it (record (metas it) {
            it_flags = record (m.it_flags) { slabbed = false };
            refcount = 1;
            slabs_clsid = 1;
            get_count = 0;
          });
        },
      )
]

module _ ⦃libc : Libc⦄ where
  -- `nsuffix` of `item_make_header`; `flags` and `nbytes - 2` are printed
  abbrev pub make_suffix : ℕ → ℕ → List ℕ
  make_suffix flags nbytes = libc.print_suffix flags (sub32 nbytes 2)

  -- `item_make_header`, and the CAS that `do_item_alloc` adds
  unfoldable pub item_total : Bool → ℕ → ℕ → ℕ → ℕ
  item_total use_cas nkey flags nbytes =
      sizeof_item_data
      + (nkey + 1) % 2 ^ 8
      + length (make_suffix flags nbytes) % 2 ^ 8
      + nbytes
      + (if use_cas then sizeof_cas else 0)

  -- `flags & ITEM_DELETED`, of the flags that the caller gives
  abbrev pub asks_tombstone : ℕ → Bool
  asks_tombstone flags = flags / 128 % 2 == 1

  -- the header of a deletion
  unfoldable pub tombstone : Item → List ℕ → ℕ → ℕ → Item
  tombstone d key flags nbytes = record d {
    it_data_flags = record (d.it_data_flags) { deleted = true; dirty = false; stored = true };
    nkey = length key % 2 ^ 8;
    nbytes = nbytes;
    key = key;
    suffix = make_suffix flags nbytes;
    nsuffix = length (make_suffix flags nbytes) % 2 ^ 8;
  }

  -- the header of an item
  unfoldable pub fill_item : Item → Bool → List ℕ → ℕ → ℕ → ℕ → Item
  fill_item d use_cas key flags exptime nbytes =
      let f = d.it_data_flags in
      record d {
        it_data_flags = record f { cas = use_cas || f.cas; dirty = true };
        nkey = length key % 2 ^ 8;
        nbytes = nbytes;
        key = key;
        exptime = exptime;
        suffix = make_suffix flags nbytes;
        nsuffix = length (make_suffix flags nbytes) % 2 ^ 8;
      }

  abbrev pub write_header : Cache → ℕ → Item → Cache
  write_header s p d = record s { log = record (s.log) { memory = store s.log.memory p d } }

  -- What `do_item_alloc` returns: the metadata or NULL, and `*succeed`.
  abbrev pub Allocated : Type 0
  Allocated = Option (Option ℕ × Bool × Cache)

  -- the metadata of a new item
  unfoldable pub fill_meta : Metadata → Bool → ℕ → Metadata
  fill_meta m use_cas p = record m {
    item = p;
    next_free = none;
    prev_free = none;
    slabs_clsid = 1;
    it_flags = record (m.it_flags) { cas = use_cas || m.it_flags.cas };
  }

  unfoldable pub count_tries : Cache → ℕ → Cache
  count_tries s i = record s {
    counters = record (s.counters) { direct_reclaims = add64 s.counters.direct_reclaims i };
  }

  -- the rest of `do_item_alloc` for an item of the log at `p`, found after `i` failed tries
  unfoldable pub finish_item : Cache → ℕ → ℕ → List ℕ → ℕ → ℕ → ℕ → Allocated
  unfolding freelist_alloc fill_meta fill_item count_tries
  finish_item s p i key flags exptime nbytes =
      let (found, s₁) = freelist_alloc s in
      elim found [
        | none ↦ none
        | some it ↦
            let s₂ = set_meta s₁ it (fill_meta (s₁.metas it) s₁.settings.use_cas p) in
            let d = fill_item (s₂.log.memory p) s₂.settings.use_cas key flags exptime nbytes in
            some (some it, true, count_tries (write_header s₂ p d) i)
      ]

  -- What other threads do while `do_item_alloc` sleeps is `pause`.
  module _ (pause : Cache → Cache) where
    -- the loop and what follows it, with `tries` left of three
    unfoldable pub alloc_loop : ℕ → ℕ → Cache → ℕ → List ℕ → ℕ → ℕ → ℕ → Allocated
    alloc_loop zero i s size key flags exptime nbytes =
        let s' = count_tries s i in
        some (
          none,
          false,
          record s' {
            counters = record (s'.counters) { outofmemory = add64 s'.counters.outofmemory 1 };
          },
        )
    alloc_loop (suc tries) i s size key flags exptime nbytes =
        let (found, log) = memlog_alloc s.log size in
        let s' : Cache = record s { log = log } in
        let again = alloc_loop tries (i + 1) (pause s') size key flags exptime nbytes in
        elim found [
          | none ↦ again
          | some p ↦
              if asks_tombstone flags
              then some (none, true, write_header s' p (tombstone (log.memory p) key flags nbytes))
              else finish_item s' p i key flags exptime nbytes
        ]

    -- `do_item_alloc`
    unfoldable pub do_item_alloc : Cache → List ℕ → ℕ → ℕ → ℕ → Allocated
    unfolding item_total alloc_loop finish_item
    do_item_alloc s key flags exptime nbytes =
        alloc_loop 3 0 s (item_total s.settings.use_cas (length key) flags nbytes) key flags exptime
          nbytes
