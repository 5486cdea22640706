-- ===== src/Memlog/Alloc.antt =====
-- `memory_allocate` of memlog.c.
use log_memcached.Base.{
  ℕ, ◌+◌, ◌^◌, ◌≤◌, ◌<◌, ◌≡◌, refl, ap, inl, true, false, none, some, List, [], ◌∷◌, ◌++◌, arith,
  ltb,
}
use log_memcached.Base.Memory.{store}
use log_memcached.Libc.{Libc}
use log_memcached.Memlog.{
  Memlog, block_size, min_item_size, cycle_nbytes, cycle_item, near_end, start_over, advance,
  memory_allocate, init, LogStats,
}
use log_memcached.Memlog.Header.{Item, blank}
use log_memcached.Memlog.Layout.{
  IsSized, IsStraight, IsWrapped, Tiles-total, Tiles-congr, Tiles-store,
}

-- the caller's write of the header of a new item
abbrev pub write_item : Memlog → ℕ → Item → Memlog
write_item m p it = record m { memory = store m.memory p it }

pub init-IsStraight : (stats : LogStats) → IsSized (init stats) × IsStraight (init stats) []
unfolding init
init-IsStraight stats = (
  omega arith,
  record {
    live = refl;
    room = omega arith;
    free = refl;
    beginning = refl;
    zeroed = λ p lt h. refl;
  },
)

module _ ⦃libc : Libc⦄ where
  -- For fewer than 2^31 available bytes, nbytes of the cycle item is the number of available
  -- bytes.
  pub cycle_nbytes_lem : (avail : ℕ) → avail < 2 ^ 31 → cycle_nbytes avail ≡ avail
  unfolding cycle_nbytes
  cycle_nbytes_lem avail h = omega (arith, libc.length-print_int)

  near_end-eq_false :
      (m : Memlog) (size : ℕ)
      → IsSized m
      → m.current + size + min_item_size ≤ m.limit
      → near_end m size ≡ false
  unfolding near_end
  near_end-eq_false m size z h = ground arith

  near_end-eq_true :
      (m : Memlog) (size : ℕ)
      → IsSized m
      → m.current ≤ m.limit
      → size < 2 ^ 32
      → m.limit < m.current + size + min_item_size
      → near_end m size ≡ true
  unfolding near_end
  near_end-eq_true m size z c s h = ground arith

  module _ (m : Memlog) (ns : List ℕ) (z : IsSized m) (v : IsStraight m ns) (size : ℕ)
      (pos : 0 < size) (small : size < 2 ^ 32) where
    -- In a straight log with a limit from 280 to 2^31 - 1, a request for 1 to 2^32 - 1 bytes that
    -- ends 35 bytes before the limit or earlier gets the address of the writer, and with the new
    -- item written there the live blocks are the old ones followed by the new one.
    pub memory_allocate-extends :
        m.current + size + min_item_size ≤ m.limit
        → ((memory_allocate m size).0 ≡ some m.current)
          × ((it : Item)
              → block_size it ≡ size
              → IsStraight (write_item (memory_allocate m size).1 m.current it) (ns ++ size ∷ []))
    unfolding memory_allocate advance
    memory_allocate-extends h =
        let far : ltb m.avail size ≡ false = ground (arith, v.free) in
        rw (near_end-eq_false m size z h, far)
          (
            refl,
            λ it e. record {
              live = Tiles-store m.memory m.current_freeing m.current size ns it e pos v.live;
              room = omega (arith, h);
              free = omega (arith, v.free);
              beginning = v.beginning;
              zeroed = λ p lt out.
                  ground
                    (arith, v.zeroed p, Tiles-total m.memory m.current_freeing m.current ns v.live);
            },
          )

    abbrev rewound : Memlog
    rewound = start_over m

    block_size-cycle : block_size (cycle_item blank m.avail) ≡ m.avail
    unfolding block_size
    block_size-cycle = cycle_nbytes_lem m.avail (omega (arith, v.free))

    -- The cycle item takes the rest of the log, and the free space is what was free at the base.
    start_over-IsWrapped : IsWrapped rewound (ns ++ m.avail ∷ []) []
    unfolding start_over
    start_over-IsWrapped =
        let w = Tiles-total m.memory m.current_freeing m.current ns v.live in
        let e : cycle_item (m.memory m.current) m.avail ≡ cycle_item blank m.avail =
          rw (v.zeroed m.current (omega (arith, v.room)) (inl (omega arith))) in
        record {
          older =
              rw (e, ← v.free)
                (Tiles-store m.memory m.current_freeing m.current m.avail ns
                  (cycle_item blank m.avail) block_size-cycle (omega (arith, v.free, v.room))
                  v.live);
          newer = refl;
          inside = omega (arith, v.room, w);
          room = omega arith;
          free = omega (arith, v.beginning);
          beginning = refl;
          zeroed = λ p lo hi. ground (arith, v.zeroed p, w);
        }

    -- In a straight log with a limit from 280 to 2^31 - 1, a request for 1 to 2^32 - 1 bytes that
    -- comes nearer than 35 bytes to the limit and fits into the space free at the base gets the
    -- address 0; the rest of the log becomes one cycle block, and no live block is overwritten.
    pub memory_allocate-starts_over :
        m.limit < m.current + size + min_item_size
        → size ≤ m.free_from_beginning
        → ((memory_allocate m size).0 ≡ some 0)
          × ((it : Item)
              → block_size it ≡ size
              → IsWrapped
                  (write_item (memory_allocate m size).1 0 it)
                  (ns ++ m.avail ∷ [])
                  (size ∷ []))
    unfolding memory_allocate advance start_over
    memory_allocate-starts_over h fits =
        let w = start_over-IsWrapped in
        let c : (start_over m).current ≡ 0 = unfold start_over in refl in
        let a : (start_over m).avail ≡ m.free_from_beginning = unfold start_over in refl in
        let f : (start_over m).current_freeing ≡ m.current_freeing = unfold start_over in refl in
        let far : ltb (start_over m).avail size ≡ false = ground arith in
        rw (near_end-eq_true m size z (omega (arith, v.room)) small h, far)
          (
            ap some c,
            λ it e. record {
              older =
                  Tiles-congr (start_over m).memory (store (start_over m).memory 0 it)
                    (start_over m).current_freeing (start_over m).limit (ns ++ m.avail ∷ [])
                    (λ p lo hi. ground (arith, v.beginning)) w.older;
              newer = (ground arith, pos, omega arith);
              inside = w.inside;
              room = omega (
                arith,
                v.room,
                v.beginning,
                Tiles-total m.memory m.current_freeing m.current ns v.live,
              );
              free = omega (arith, w.free, v.beginning);
              beginning = w.beginning;
              zeroed = λ p lo hi. ground (arith, w.zeroed p);
            },
          )

    -- In a straight log with a limit from 280 to 2^31 - 1, a request for 1 to 2^32 - 1 bytes that
    -- comes nearer than 35 bytes to the limit and does not fit at the base gets NULL, and the log
    -- has started over all the same, with every live block kept.
    pub memory_allocate-refuses :
        m.limit < m.current + size + min_item_size
        → m.free_from_beginning < size
        → ((memory_allocate m size).0 ≡ none)
          × IsWrapped (memory_allocate m size).1 (ns ++ m.avail ∷ []) []
    unfolding memory_allocate
    memory_allocate-refuses h full =
        let a : (start_over m).avail ≡ m.free_from_beginning = unfold start_over in refl in
        let out : ltb (start_over m).avail size ≡ true = ground arith in
        rw (near_end-eq_true m size z (omega (arith, v.room)) small h, out)
          (refl, start_over-IsWrapped)

  module _ (m : Memlog) (ns ks : List ℕ) (z : IsSized m) (v : IsWrapped m ns ks) (size : ℕ)
      (pos : 0 < size) (small : size < 2 ^ 32) where
    -- In a wrapped log with a limit from 280 to 2^31 - 1, a request for 1 to 2^32 - 1 bytes that
    -- ends 35 bytes before the limit or earlier is granted behind the newer blocks exactly if it
    -- fits in front of the cleaner, and otherwise gets NULL and changes nothing.
    pub memory_allocate-follows :
        m.current + size + min_item_size ≤ m.limit
        → (size ≤ m.avail
            → ((memory_allocate m size).0 ≡ some m.current)
              × ((it : Item)
                  → block_size it ≡ size
                  → IsWrapped
                      (write_item (memory_allocate m size).1 m.current it)
                      ns
                      (ks ++ size ∷ [])))
          × (m.avail < size → memory_allocate m size ≡ (none, m))
    unfolding memory_allocate advance
    memory_allocate-follows h = (
      (λ fits.
          let far : ltb m.avail size ≡ false = ground arith in
          rw (near_end-eq_false m size z h, far)
            (
              refl,
              λ it e. record {
                older =
                    Tiles-congr m.memory (store m.memory m.current it) m.current_freeing m.limit ns
                      (λ p lo hi. ground (arith, v.free)) v.older;
                newer = Tiles-store m.memory 0 m.current size ks it e pos v.newer;
                inside = v.inside;
                room = omega (arith, h);
                free = omega (arith, v.free);
                beginning = v.beginning;
                zeroed = λ p lo hi. ground (arith, v.zeroed p);
              },
            )),
      λ full.
          let out : ltb m.avail size ≡ true = ground arith in
          rw (near_end-eq_false m size z h, out) refl,
    )
