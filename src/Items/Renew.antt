-- ===== src/Items/Renew.antt =====
-- items.c: a touch, and the copy of an item that a get makes so that the cleaner does not reach it
-- soon. Both allocate a new item, give it the old one's value and put it in the old one's place.
use log_memcached.Base.{
  ℕ, ◌^◌, ◌%◌, Bool, true, false, not, Option, none, some, List, ltb, leb, if◌then◌else◌, ◌>>=◌,
  ◌>>◌,
}
use log_memcached.Base.Words.{add32, sub32}
use log_memcached.Libc.{Libc}
use log_memcached.Memlog.Header.{get_cas}
use log_memcached.Items.{Cache, item_of, key_of, set_item, set_meta, assert, do_item_remove}
use log_memcached.Items.Link.{do_item_replace}
use log_memcached.Items.Alloc.{do_item_alloc}
use log_memcached.Items.Get.{do_item_get}

-- ITEM_UPDATE_INTERVAL
abbrev pub item_update_interval : ℕ
item_update_interval = 60

-- the item is complete: ITEM_DIRTY goes and ITEM_STORED comes
unfoldable pub mark_stored : Cache → ℕ → Cache
mark_stored s it =
    let d = item_of s it in
    set_item s it
      (record d { it_data_flags = record (d.it_data_flags) { dirty = false; stored = true } })

-- `strtoul` in base 10 is the C library's, and `pause` stands for other threads during a sleep.
module _ ⦃libc : Libc⦄ (strtoul : List ℕ → ℕ) (pause : Cache → Cache) where
  -- a new item in the place of `old_it`, whose reference is given back, or NULL
  unfoldable pub renew : Cache → ℕ → ℕ → ℕ → Option (Option ℕ × Cache)
  unfolding do_item_alloc do_item_replace do_item_remove
  renew s old_it exptime hv = do
    let old = item_of s old_it
    (new, _, s₁) ← do_item_alloc pause s old.key (strtoul old.suffix % 2 ^ 32) exptime old.nbytes
    elim new [
      | none ↦ (do s₂ ← do_item_remove s₁ old_it; some (none, s₂))
      | some it ↦ (do
        let s₂ = set_item s₁ it (record (item_of s₁ it) { value = (item_of s₁ old_it).value })
        s₃ ← do_item_replace s₂ old_it it hv
        s₄ ← do_item_remove s₃ old_it
        s₅ ← do_item_remove s₄ it
        some (some it, s₅))
    ]

  -- `do_item_touch`, with what it writes to `c->cas`; `none` where it writes nothing
  unfoldable pub do_item_touch : Cache → List ℕ → ℕ → ℕ → Option (Option ℕ × Option ℕ × Cache)
  unfolding do_item_get renew get_cas mark_stored
  do_item_touch s key exptime hv = do
    (found, s₁) ← do_item_get s key hv
    elim found [
      | none ↦ some (none, none, s₁)
      | some old_it ↦ (do
        (new, s₂) ← renew s₁ old_it exptime hv
        some (elim new [
          | none ↦ (none, none, s₂)
          | some it ↦ (some it, some (get_cas (item_of s₂ it)), mark_stored s₂ it)
        ]))
    ]

  -- `do_item_get_update`, with whether it stores STORED or NOT_STORED
  unfoldable pub do_item_get_update : Cache → ℕ → ℕ → Option (Option ℕ × Bool × Cache)
  unfolding renew
  do_item_get_update s old_it hv = do
    (new, s') ← renew s old_it (item_of s old_it).exptime hv
    some (new, elim new [ none ↦ false | some it ↦ true ], s')

  -- the inner part of `do_item_update`, for metadata that has been read `get_count` times
  unfoldable pub relink : (List ℕ → ℕ) → Cache → ℕ → ℕ → Option (Option ℕ × Option Bool × Cache)
  unfolding do_item_get_update
  relink hash s it get_count =
      if not s.settings.lru_log_enabled
      then some (none, none, s)
      else if leb s.settings.lru_log_get_count get_count
      then (do
        (new, stored, s₂) ← do_item_get_update s it (hash (key_of s it))
        some (elim new [
          | none ↦ (none, some stored, s₂)
          | some new_it ↦ (
            some new_it,
            some stored,
            set_meta s₂ new_it (record (s₂.metas new_it) { get_count = 0 }),
          )
        ]))
      else some (none, none, set_meta s it (record (s.metas it) { get_count = add32 get_count 1 }))

  -- `do_item_update`; the hash of the key is taken by `item_get_update`. The middle result is what
  -- it writes to `*stored_state`, if anything.
  unfoldable pub do_item_update : (List ℕ → ℕ) → Cache → ℕ → Option (Option ℕ × Option Bool × Cache)
  unfolding relink
  do_item_update hash s it =
      let m = s.metas it in
      let w = s.settings in
      if not (ltb m.time (sub32 w.current_time item_update_interval))
      then some (none, none, s)
      else (do
        assert (not m.it_flags.slabbed)
        if not m.it_flags.linked
            then some (none, none, s)
            else relink hash (set_meta s it (record m { time = w.current_time })) it m.get_count)
