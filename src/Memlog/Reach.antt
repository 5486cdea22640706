-- ===== src/Memlog/Reach.antt =====
-- Histories of writes and cleanings of the log.
use log_memcached.Base.{
  ℕ, ◌+◌, ◌/◌, ◌≤◌, ◌<◌, ◌≡◌, refl, sym, ◌∙◌, ◌⊎◌, inl, inr, true, Option, none, some, List, [],
  ◌∷◌, ◌++◌, arith, leb, Bool-cases, le_cases, ◌&&◌,
}
use mathlib.Core.Path.{subst}
use log_memcached.Libc.{Libc}
use log_memcached.Memlog.{
  Memlog, LogStats, block_size, memory_allocate, memlog_clean, maintain, min_item_size, init,
  start_over, advance,
}
use log_memcached.Memlog.Header.{Item}
use log_memcached.Memlog.Layout.{IsSized, IsStraight, IsWrapped, Tiles-total}
use log_memcached.Memlog.Clean.{AllAtMost}
use log_memcached.Memlog.Alloc.{
  write_item, init-IsStraight, memory_allocate-extends, memory_allocate-starts_over,
  memory_allocate-refuses, memory_allocate-follows,
}
use log_memcached.Memlog.Maintain.{memlog_clean-IsStraight, memlog_clean-IsWrapped}

-- A well-formed log, of blocks of which no new one is larger than a quarter of the log.
pub data IsLog (m : Memlog) : Type 0 where
  straight : (ns : List ℕ) → IsSized m → IsStraight m ns → AllAtMost (m.limit / 4) ns → IsLog m
  wrapped : (ns ks : List ℕ) → IsSized m → IsWrapped m ns ks → AllAtMost (m.limit / 4) ks → IsLog m

AllAtMost-append :
    (bound : ℕ) (ns ks : List ℕ)
    → AllAtMost bound ns
    → AllAtMost bound ks
    → AllAtMost bound (ns ++ ks)
AllAtMost-append bound [] ks a c = c
AllAtMost-append bound (n ∷ ns) ks a c = (a.0, AllAtMost-append bound ns ks a.1 c)

AllAtMost-drop : (bound : ℕ) (ns ks : List ℕ) → AllAtMost bound (ns ++ ks) → AllAtMost bound ks
AllAtMost-drop bound [] ks a = a
AllAtMost-drop bound (n ∷ ns) ks a = AllAtMost-drop bound ns ks a.1

same_result :
    {S : Type 0} {freed freed' : ℕ} {m m' : Memlog} {s s' : S}
    → ◌≡◌ {A = Option (ℕ × Memlog × S)} (some (freed, m, s)) (some (freed', m', s'))
    → m ≡ m'
same_result e = cc

-- an allocation and the caller's header
unfoldable pub insert : ⦃libc : Libc⦄ → Memlog → ℕ → Item → Memlog
insert m size it =
    let (found, m') = memory_allocate m size in
    elim found [ none ↦ m' | some p ↦ write_item m' p it ]

-- A pass of the maintainer over a well-formed log returns within the fuel that the model gives it,
-- and leaves the log well formed.
pub maintain-IsLog :
    {S : Type 0} (evict : S → ℕ → Item → S) (m : Memlog) (s : S)
    → IsLog m
    → (freed : ℕ) × (m' : Memlog) × (s' : S) × (maintain evict m s ≡ some (freed, m', s'))
      × IsLog m'
unfolding maintain
maintain-IsLog {S = S} evict m s v =
    elim (Bool-cases (leb m.avail (m.limit / 4) && leb m.free_from_beginning (m.limit / 4))) [
      | inr idle ↦ (0, m, s, rw idle refl, v)
      | inl due ↦ rw due (go v due)
    ]
  where
    go :
        IsLog m
        → leb m.avail (m.limit / 4) && leb m.free_from_beginning (m.limit / 4) ≡ true
        → (freed : ℕ) × (m' : Memlog) × (s' : S) × (memlog_clean evict m s ≡ some (freed, m', s'))
          × IsLog m'
    go (straight ns z v small) due =
        let w = Tiles-total m.memory m.current_freeing m.current ns v.live in
        let guard : (m.avail ≤ m.limit / 4) × (m.free_from_beginning ≤ m.limit / 4) =
          ground arith in
        let (freed, m', s', done, rest, e, split, f, lim, enough, v') =
          memlog_clean-IsStraight evict m s ns (m.limit / 4) z v small
            (omega (arith, v.free, v.beginning, guard)) in
        (
          freed,
          m',
          s',
          e,
          straight rest (omega arith) v'
              (rw lim (AllAtMost-drop (m.limit / 4) done rest (rw split at small))),
        )
    go (wrapped ns ks z v small) due =
        let (freed, m', s', done, rest, e, split, f, lim, shape) =
          memlog_clean-IsWrapped evict m s ns ks z v in
        (
          freed,
          m',
          s',
          e,
          elim shape [
            | inl (enough, v') ↦ wrapped rest ks (omega arith) v' (rw lim small)
            | inr v' ↦ straight ks (omega arith) v' (rw lim small)
          ],
        )

module _ ⦃libc : Libc⦄ where
  -- A write of a new item, or a pass of the maintainer. A write that reaches the end of the log
  -- waits until the cleaner has gone round: `current + avail` is the limit only then.
  pub data Step {S : Type 0} (evict : S → ℕ → Item → S) (m : Memlog) : Memlog → Type 0 where
    write :
        (size : ℕ) (it : Item)
        → 0 < size
        → size ≤ m.limit / 4
        → block_size it ≡ size
        → (m.current + size + min_item_size ≤ m.limit) ⊎ (m.current + m.avail ≡ m.limit)
        → Step evict m (insert m size it)
    clean :
        (s s' : S) (freed : ℕ) (m' : Memlog)
        → maintain evict m s ≡ some (freed, m', s')
        → Step evict m m'

  insert-some :
      (m : Memlog) (size p : ℕ) (it : Item)
      → (memory_allocate m size).0 ≡ some p
      → insert m size it ≡ write_item (memory_allocate m size).1 p it
  unfolding insert
  insert-some m size p it e = rw (e, insert) refl

  insert-none :
      (m : Memlog) (size : ℕ) (it : Item)
      → (memory_allocate m size).0 ≡ none
      → insert m size it ≡ (memory_allocate m size).1
  unfolding insert
  insert-none m size it e = rw (e, insert) refl

  limit-insert : (m : Memlog) (size : ℕ) (it : Item) → (insert m size it).limit ≡ m.limit
  unfolding insert memory_allocate start_over advance
  limit-insert m size it = ground arith

  -- the sizes stay within the quarter of a limit that does not change
  same_bound :
      (m m' : Memlog) (ns : List ℕ)
      → m'.limit ≡ m.limit
      → AllAtMost (m.limit / 4) ns
      → AllAtMost (m'.limit / 4) ns
  same_bound m m' ns e a = rw e a

  module _ (m : Memlog) (size : ℕ) (it : Item) (pos : 0 < size) (quarter : size ≤ m.limit / 4)
      (e : block_size it ≡ size) where
    insert-straight :
        (ns : List ℕ)
        → IsSized m
        → IsStraight m ns
        → AllAtMost (m.limit / 4) ns
        → IsLog (insert m size it)
    insert-straight ns z v small =
        let lim = limit-insert m size it in
        let w = Tiles-total m.memory m.current_freeing m.current ns v.live in
        elim (le_cases (m.current + size + min_item_size) m.limit) [
          | inl room ↦
              let (at, v') = memory_allocate-extends m ns z v size pos (omega arith) room in
              let e' = insert-some m size m.current it at in
              straight (ns ++ size ∷ []) (omega arith) (rw e' (v' it e)) (
                same_bound m (insert m size it) (ns ++ size ∷ []) lim
                  (AllAtMost-append (m.limit / 4) ns (size ∷ []) small (quarter, tt)))
          | inr near ↦ elim (le_cases size m.free_from_beginning) [
            | inl fits ↦
                let (at, v') =
                  memory_allocate-starts_over m ns z v size pos (omega arith) near fits in
                wrapped (ns ++ m.avail ∷ []) (size ∷ []) (omega arith)
                  (rw (insert-some m size 0 it at) (v' it e))
                  (same_bound m (insert m size it) (size ∷ []) lim (quarter, tt))
            | inr full ↦
                let (at, v') = memory_allocate-refuses m ns z v size pos (omega arith) near full in
                wrapped (ns ++ m.avail ∷ []) [] (omega arith) (rw (insert-none m size it at) v') tt
          ]
        ]

    insert-wrapped :
        (ns ks : List ℕ)
        → IsSized m
        → IsWrapped m ns ks
        → AllAtMost (m.limit / 4) ks
        → m.current + size + min_item_size ≤ m.limit
        → IsLog (insert m size it)
    insert-wrapped ns ks z v small room =
        let lim = limit-insert m size it in
        let (found, full) = memory_allocate-follows m ns ks z v size pos (omega arith) room in
        elim (le_cases size m.avail) [
          | inl fits ↦
              let (at, v') = found fits in
              wrapped ns (ks ++ size ∷ []) (omega arith)
                (rw (insert-some m size m.current it at) (v' it e))
                (same_bound m (insert m size it) (ks ++ size ∷ []) lim
                  (AllAtMost-append (m.limit / 4) ks (size ∷ []) small (quarter, tt)))
          | inr short ↦
              let same = full short in
              let at : (memory_allocate m size).0 ≡ none = rw same refl in
              let e' : insert m size it ≡ m = insert-none m size it at ∙ rw same refl in
              rw e' (wrapped ns ks z v small)
        ]

  Step-IsLog :
      {S : Type 0} (evict : S → ℕ → Item → S) {m m' : Memlog} → Step evict m m' → IsLog m → IsLog m'
  Step-IsLog evict {m} (write size it pos quarter e ahead) (straight ns z v small) =
      insert-straight m size it pos quarter e ns z v small
  Step-IsLog evict {m} (write size it pos quarter e ahead) (wrapped ns ks z v small) =
      insert-wrapped m size it pos quarter e ns ks z v small
        (omega (arith, v.free, v.inside, ahead))
  Step-IsLog evict {m} (clean s s' freed m' e) v =
      let (freed', m'', s'', e', v') = maintain-IsLog evict m s v in
      subst IsLog (same_result (sym e' ∙ e)) v'

  pub data Reach {S : Type 0} (evict : S → ℕ → Item → S) (m : Memlog) : Memlog → Type 0 where
    here : Reach evict m m
    next : {m' m'' : Memlog} → Reach evict m m' → Step evict m' m'' → Reach evict m m''

  -- From the initial log, any history of item writes of at most a quarter of the log, none of
  -- which reaches the end of a log that is already wrapped, and of maintainer passes leaves a
  -- well-formed log: live blocks without gaps or overlaps, and zeroed headers everywhere else.
  pub Reach-IsLog :
      {S : Type 0} (evict : S → ℕ → Item → S) (stats : LogStats) {m : Memlog}
      → Reach evict (init stats) m
      → IsLog m
  Reach-IsLog evict stats here = let (z, v) = init-IsStraight stats in straight [] z v tt
  Reach-IsLog evict stats (next r st) = Step-IsLog evict st (Reach-IsLog evict stats r)
