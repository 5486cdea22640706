-- ===== src/Items/Sizes.antt =====
-- `do_item_alloc`: the size asked of the log against the size that the header claims.
use log_memcached.Base.{
  ℕ, suc, ◌+◌, ◌≤◌, ◌≡◌, refl, ap, ◌∙◌, Bool, true, false, none, some, List, arith, if◌then◌else◌,
  length, Option-cases, inl, inr, zero,
}
use log_memcached.Libc.{Libc}
use log_memcached.Memlog.Header.{Item, no_flags, ntotal}
use log_memcached.Memlog.{Memlog, memlog_alloc}
use log_memcached.Items.{Cache, item_of, key_of, set_meta}
use log_memcached.Items.Alloc.{
  count_tries, write_header, item_total, fill_item, tombstone, do_item_alloc, alloc_loop,
  freelist_alloc, fill_meta, asks_tombstone, finish_item,
}

module _ ⦃libc : Libc⦄ where
  -- For a key of at most 250 bytes and a header that had no flags, ITEM_ntotal of the item that
  -- do_item_alloc writes is the size asked of the log.
  pub fill_item-ntotal :
      (d : Item) (use_cas : Bool) (key : List ℕ) (flags exptime nbytes : ℕ)
      → d.it_data_flags ≡ no_flags
      → length key ≤ 250
      → ntotal (fill_item d use_cas key flags exptime nbytes)
        ≡ item_total use_cas (length key) flags nbytes
  unfolding fill_item item_total ntotal
  fill_item-ntotal d use_cas key flags exptime nbytes blank short = ground (arith, blank)

  -- For a key of at most 250 bytes and a header that had no flags, ITEM_ntotal of the deletion
  -- that do_item_alloc writes is the size asked of the log where CAS is in use, and eight bytes
  -- more than it where CAS is not in use.
  pub tombstone-ntotal :
      (d : Item) (use_cas : Bool) (key : List ℕ) (flags nbytes : ℕ)
      → d.it_data_flags ≡ no_flags
      → length key ≤ 250
      → ntotal (tombstone d key flags nbytes)
        ≡ item_total use_cas (length key) flags nbytes + (if use_cas then 0 else 8)
  unfolding tombstone item_total ntotal
  tombstone-ntotal d use_cas key flags nbytes blank short = ground (arith, blank)

  module _ (pause : Cache → Cache) where
    loop-granted :
        (tries i : ℕ) (s : Cache) (log : Memlog) (size p : ℕ) (key : List ℕ)
        (flags exptime nbytes : ℕ)
        → memlog_alloc s.log size ≡ (some p, log)
        → alloc_loop pause (suc tries) i s size key flags exptime nbytes ≡ (
            if asks_tombstone flags
            then some (
              none,
              true,
              write_header (record s { log = log }) p (tombstone (log.memory p) key flags nbytes),
            )
            else finish_item (record s { log = log }) p i key flags exptime nbytes)
    unfolding alloc_loop
    loop-granted tries i s log size p key flags exptime nbytes e = ground (arith, e)

    loop-refused :
        (tries i : ℕ) (s : Cache) (log : Memlog) (size : ℕ) (key : List ℕ)
        (flags exptime nbytes : ℕ)
        → memlog_alloc s.log size ≡ (none, log)
        → alloc_loop pause (suc tries) i s size key flags exptime nbytes
          ≡ alloc_loop pause tries
              (i + 1)
              (pause (record s { log = log }))
              size
              key
              flags
              exptime
              nbytes
    unfolding alloc_loop
    loop-refused tries i s log size key flags exptime nbytes e = ground (arith, e)

    loop-asks :
        (tries i : ℕ) (s : Cache) (size : ℕ) (key : List ℕ) (flags exptime nbytes : ℕ)
        → asks_tombstone flags ≡ true
        → (ok : Bool) × (s' : Cache) × (alloc_loop pause tries i s size key flags exptime nbytes
            ≡ some (none, ok, s'))
    unfolding alloc_loop
    loop-asks zero i s size key flags exptime nbytes asks = (false, _, refl)
    loop-asks (suc tries) i s size key flags exptime nbytes asks =
        let log = (memlog_alloc s.log size).1 in
        let s' : Cache = record s { log = log } in
        elim (Option-cases (memlog_alloc s.log size).0) [
          | inl refused ↦
              let e : memlog_alloc s.log size ≡ (none, log) = ap (λ o. (o, log)) refused in
              let (ok, t, r) =
                loop-asks tries (i + 1) (pause s') size key flags exptime nbytes asks in
              (ok, t, loop-refused tries i s log size key flags exptime nbytes e ∙ r)
          | inr (p, at) ↦
              let e : memlog_alloc s.log size ≡ (some p, log) = ap (λ o. (o, log)) at in
              (
                true,
                write_header s' p (tombstone (log.memory p) key flags nbytes),
                loop-granted tries i s log size p key flags exptime nbytes e ∙ rw asks refl,
              )
        ]

    -- With bit 7 of the flags set, do_item_alloc returns no metadata, whatever the cache holds.
    pub do_item_alloc-deleted :
        (s : Cache) (key : List ℕ) (flags exptime nbytes : ℕ)
        → asks_tombstone flags ≡ true
        → (ok : Bool) × (s' : Cache) × (do_item_alloc pause s key flags exptime nbytes
            ≡ some (none, ok, s'))
    unfolding do_item_alloc
    do_item_alloc-deleted s key flags exptime nbytes asks =
        loop-asks 3 0 s _ key flags exptime nbytes asks

    -- what the caller of `do_item_alloc` gets for an item
    pub record Ready (s : Cache) (key : List ℕ) (flags exptime nbytes it p : ℕ) (s' : Cache)
        : Type 0 where
      pub at : (s'.metas it).item ≡ p
      pub counted : (s'.metas it).refcount ≡ 1
      pub used : (s'.metas it).it_flags.slabbed ≡ false
      pub keyed : key_of s' it ≡ key
      pub expires : (item_of s' it).exptime ≡ exptime
      pub dirty : (item_of s' it).it_data_flags.dirty ≡ true
      pub sized : ntotal (item_of s' it) ≡ item_total s.settings.use_cas (length key) flags nbytes

    taken : Cache → ℕ → ℕ → Cache
    unfolding freelist_alloc fill_meta
    taken s it p =
        let s₁ = (freelist_alloc s).1 in
        set_meta s₁ it (fill_meta (s₁.metas it) s₁.settings.use_cas p)

    made : Cache → ℕ → ℕ → List ℕ → ℕ → ℕ → ℕ → ℕ → Cache
    unfolding taken count_tries fill_item
    made s it p key flags exptime nbytes i =
        let s₂ = taken s it p in
        count_tries
          (write_header s₂ p
            (fill_item (s₂.log.memory p) s₂.settings.use_cas key flags exptime nbytes))
          i

    made-Ready :
        (s : Cache) (key : List ℕ) (flags exptime nbytes it p i : ℕ)
        → length key ≤ 250
        → (s.log.memory p).it_data_flags ≡ no_flags
        → s.first_free ≡ some it
        → (finish_item s p i key flags exptime nbytes
            ≡ some (some it, true, made s it p key flags exptime nbytes i))
          × Ready s key flags exptime nbytes it p (made s it p key flags exptime nbytes i)
    unfolding finish_item freelist_alloc fill_meta made taken count_tries fill_item ntotal
        item_total
    made-Ready s key flags exptime nbytes it p i short clear free = (
      rw free refl,
      record {
        at = ground (arith, free, clear);
        counted = ground (arith, free, clear);
        used = ground (arith, free, clear);
        keyed = ground (arith, free, clear);
        expires = ground (arith, free, clear);
        dirty = ground (arith, free, clear);
        sized = ground (arith, free, clear);
      },
    )

    -- Where the log grants the size asked at a place whose header has no flags, metadata is free,
    -- the key has at most 250 bytes and bit 7 of the flags is not set, do_item_alloc returns the
    -- first free metadata with one reference, over an item at that place with the key and the
    -- expiry time given, marked dirty, whose header claims the size asked of the log.
    pub do_item_alloc-Ready :
        (s : Cache) (log : Memlog) (key : List ℕ) (flags exptime nbytes it p : ℕ)
        → asks_tombstone flags ≡ false
        → length key ≤ 250
        → memlog_alloc s.log (item_total s.settings.use_cas (length key) flags nbytes)
          ≡ (some p, log)
        → (log.memory p).it_data_flags ≡ no_flags
        → s.first_free ≡ some it
        → (s' : Cache) × (do_item_alloc pause s key flags exptime nbytes ≡ some (some it, true, s'))
          × Ready s key flags exptime nbytes it p s'
    unfolding do_item_alloc
    do_item_alloc-Ready s log key flags exptime nbytes it p asks short granted clear free =
        let size = item_total s.settings.use_cas (length key) flags nbytes in
        let s₁ : Cache = record s { log = log } in
        let (e, ready) = made-Ready s₁ key flags exptime nbytes it p 0 short clear free in
        let e₀ = loop-granted 2 0 s log size p key flags exptime nbytes granted in
        (
          made s₁ it p key flags exptime nbytes 0,
          e₀ ∙ rw asks e,
          record {
            at = ready.at;
            counted = ready.counted;
            used = ready.used;
            keyed = ready.keyed;
            expires = ready.expires;
            dirty = ready.dirty;
            sized = ready.sized;
          },
        )
