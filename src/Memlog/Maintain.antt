-- ===== src/Memlog/Maintain.antt =====
-- `do_memlog_clean` of memlog.c and the maintainer of items.c that calls it.
use log_memcached.Base.{
  ℕ, suc, ◌+◌, ◌/◌, ◌≤◌, ◌<◌, ◌≡◌, refl, sym, ap, ◌∙◌, ◌⊎◌, inl, inr, true, false, some, List, ◌++◌,
  arith, ltb, leb, le_cases,
}
use log_memcached.Memlog.{Memlog, free_chunk, account, memlog_clean}
use log_memcached.Memlog.Header.{Item}
use log_memcached.Memlog.Layout.{total, IsSized, IsStraight, IsWrapped, Tiles-total, Tiles-congr}
use log_memcached.Memlog.Clean.{AllAtMost, Freed, free_loop-Cleaned}

-- What the bookkeeping leaves of a log with limit, writer and free spaces as in `m`.
module _ (m m' : Memlog) (b : ℕ) (done rest : List ℕ) (f : Freed m m' b done rest) where
  account-IsStraight :
      (ns : List ℕ)
      → IsSized m
      → IsStraight m ns
      → b ≡ m.current
      → m'.current_freeing < m.current
      → IsStraight (account m' (total done)) rest
  unfolding account
  account-IsStraight ns z v e h =
      let lim : m'.limit ≡ m.limit = ap (λ (x : Memlog). x.limit) f.same in
      let cur : m'.current ≡ m.current = ap (λ (x : Memlog). x.current) f.same in
      let av : m'.avail ≡ m.avail = ap (λ (x : Memlog). x.avail) f.same in
      let ffb : m'.free_from_beginning ≡ m.free_from_beginning =
        ap (λ (x : Memlog). x.free_from_beginning) f.same in
      let behind : leb m'.current m'.current_freeing ≡ false = ground arith in
      let low : leb m'.limit m'.current_freeing ≡ false = ground (arith, v.room) in
      rw (behind, low)
        (record {
          live = rw (cur, ← e) f.live;
          room = omega (arith, v.room);
          free = omega (arith, v.free);
          beginning = omega (arith, v.beginning, f.moved);
          zeroed = λ p lt out. elim (le_cases m.current_freeing p) [
            | inr below ↦ f.outside p (inl below) ∙ v.zeroed p (omega arith) (inr below)
            | inl above ↦ elim (le_cases m'.current_freeing p) [
              | inr freed ↦ f.zeroed p above freed
              | inl beyond ↦ f.outside p (inr beyond) ∙ v.zeroed p (omega arith) (inl (omega arith))
            ]
          ];
        })

  account-IsWrapped :
      (ns ks : List ℕ)
      → IsSized m
      → IsWrapped m ns ks
      → m'.current_freeing < m.limit
      → b ≡ m.limit
      → IsWrapped (account m' (total done)) rest ks
  unfolding account
  account-IsWrapped ns ks z v h e =
      let lim : m'.limit ≡ m.limit = ap (λ (x : Memlog). x.limit) f.same in
      let cur : m'.current ≡ m.current = ap (λ (x : Memlog). x.current) f.same in
      let av : m'.avail ≡ m.avail = ap (λ (x : Memlog). x.avail) f.same in
      let ffb : m'.free_from_beginning ≡ m.free_from_beginning =
        ap (λ (x : Memlog). x.free_from_beginning) f.same in
      let behind : leb m'.current m'.current_freeing ≡ true = ground (arith, v.free, f.moved) in
      let low : leb m'.limit m'.current_freeing ≡ false = ground arith in
      rw (behind, low)
        (record {
          older = rw (lim, ← e) f.live;
          newer = rw cur (
              Tiles-congr m.memory m'.memory 0 m.current ks
                (λ p lo hi. sym (f.outside p (inl (omega (arith, v.free))))) v.newer);
          inside = omega arith;
          room = omega (arith, v.room);
          free = omega (arith, v.free, f.moved);
          beginning = omega (arith, v.beginning);
          zeroed = λ p lo hi. elim (le_cases m.current_freeing p) [
            | inr below ↦ f.outside p (inl below) ∙ v.zeroed p (omega arith) below
            | inl above ↦ f.zeroed p above hi
          ];
        })

  -- When the cleaner comes to the limit the live part is the newer blocks alone.
  account-unwraps :
      (ns ks : List ℕ)
      → IsSized m
      → IsWrapped m ns ks
      → m'.current_freeing ≡ m.limit
      → IsStraight (account m' (total done)) ks
  unfolding account
  account-unwraps ns ks z v h =
      let lim : m'.limit ≡ m.limit = ap (λ (x : Memlog). x.limit) f.same in
      let cur : m'.current ≡ m.current = ap (λ (x : Memlog). x.current) f.same in
      let av : m'.avail ≡ m.avail = ap (λ (x : Memlog). x.avail) f.same in
      let ffb : m'.free_from_beginning ≡ m.free_from_beginning =
        ap (λ (x : Memlog). x.free_from_beginning) f.same in
      let behind : leb m'.current m'.current_freeing ≡ true = ground (arith, v.room) in
      let top : leb m'.limit m'.current_freeing ≡ true = ground arith in
      rw (behind, top)
        (record {
          live = rw cur (
              Tiles-congr m.memory m'.memory 0 m.current ks
                (λ p lo hi. sym (f.outside p (inl (omega (arith, v.free))))) v.newer);
          room = omega (arith, v.room);
          free = omega (arith, v.free, f.moved);
          beginning = omega (arith, v.beginning);
          zeroed = λ p lt out. elim (le_cases m.current_freeing p) [
            | inr below ↦ f.outside p (inl below) ∙ v.zeroed p (omega arith) below
            | inl above ↦ f.zeroed p above (omega arith)
          ];
        })

limit-account : (m : Memlog) (freed : ℕ) → (account m freed).limit ≡ m.limit
unfolding account
limit-account m freed = ground arith

module _ {S : Type 0} (evict : S → ℕ → Item → S) where
  memlog_clean_eq :
      (m : Memlog) (s : S) (freed : ℕ) (m' : Memlog) (s' : S)
      → free_chunk evict m s ≡ some (freed, m', s')
      → 0 < freed
      → memlog_clean evict m s ≡ some (freed, account m' freed, s')
  unfolding memlog_clean
  memlog_clean_eq m s freed m' s' e pos =
      let t : ltb 0 freed ≡ true = ground arith in rw (e, memlog_clean, t) refl

  -- Cleaning a straight log with a limit from 280 to 2^31 - 1 that holds more than an eighth of
  -- the log and one block frees, within the fuel, a run of whole blocks from the old end, at least
  -- an eighth of the log, and the log stays straight with the remaining blocks.
  pub memlog_clean-IsStraight :
      (m : Memlog) (s : S) (ns : List ℕ) (bound : ℕ)
      → IsSized m
      → IsStraight m ns
      → AllAtMost bound ns
      → m.limit / 8 + bound < total ns
      → (freed : ℕ) × (m' : Memlog) × (s' : S) × (done rest : List ℕ) × (memlog_clean evict m s
          ≡ some (freed, m', s'))
        × (ns ≡ done ++ rest)
        × (freed ≡ total done)
        × (m'.limit ≡ m.limit)
        × (m.limit / 8 ≤ freed)
        × IsStraight m' rest
  unfolding free_chunk
  memlog_clean-IsStraight m s ns bound z v small much =
      let w = Tiles-total m.memory m.current_freeing m.current ns v.live in
      let c =
        free_loop-Cleaned evict (suc (m.limit / 8)) (m.limit / 8) 0 m s ns m.current bound v.live
          (omega (arith, v.room)) z.0 (omega arith) (inl (omega arith)) (omega arith)
          (omega arith) in
      let few : total c.done ≤ m.limit / 8 + bound = omega (arith, c.bounded small (omega arith)) in
      let enough : m.limit / 8 ≤ total c.done =
        omega (arith, c.enough, c.freed_blocks.moved, v.room) in
      (
        total c.done,
        account c.last (total c.done),
        c.cache,
        c.done,
        c.rest,
        memlog_clean_eq m s (total c.done) c.last c.cache
            (c.returns ∙ ap (λ k. some (k, c.last, c.cache)) (omega arith)) (omega arith),
        c.split,
        refl,
        limit-account c.last (total c.done) ∙ ap (λ (x : Memlog). x.limit) c.freed_blocks.same,
        enough,
        account-IsStraight m c.last m.current c.done c.rest c.freed_blocks ns z v refl
            (omega (arith, c.freed_blocks.moved)),
      )

  -- Cleaning a wrapped log with a limit from 280 to 2^31 - 1 frees a run of whole older blocks: at
  -- least an eighth of the log, and the log stays wrapped, or all of them, and then it is straight
  -- with the newer blocks.
  pub memlog_clean-IsWrapped :
      (m : Memlog) (s : S) (ns ks : List ℕ)
      → IsSized m
      → IsWrapped m ns ks
      → (freed : ℕ) × (m' : Memlog) × (s' : S) × (done rest : List ℕ) × (memlog_clean evict m s
          ≡ some (freed, m', s'))
        × (ns ≡ done ++ rest)
        × (freed ≡ total done)
        × (m'.limit ≡ m.limit)
        × ((m.limit / 8 ≤ freed) × IsWrapped m' rest ks ⊎ IsStraight m' ks)
  unfolding free_chunk
  memlog_clean-IsWrapped m s ns ks z v =
      let w = Tiles-total m.memory m.current_freeing m.limit ns v.older in
      let c =
        free_loop-Cleaned evict (suc (m.limit / 8)) (m.limit / 8) 0 m s ns m.limit 0 v.older
          (omega arith) z.0 (omega arith) (inr refl) (omega arith) (omega arith) in
      let left =
        Tiles-total c.last.memory c.last.current_freeing m.limit c.rest c.freed_blocks.live in
      let some_freed : 0 < total c.done = omega (arith, c.enough, c.freed_blocks.moved, v.inside) in
      (
        total c.done,
        account c.last (total c.done),
        c.cache,
        c.done,
        c.rest,
        memlog_clean_eq m s (total c.done) c.last c.cache
            (c.returns ∙ ap (λ k. some (k, c.last, c.cache)) (omega arith)) some_freed,
        c.split,
        refl,
        limit-account c.last (total c.done) ∙ ap (λ (x : Memlog). x.limit) c.freed_blocks.same,
        elim (le_cases m.limit c.last.current_freeing) [
          | inl top ↦ inr (
              account-unwraps m c.last m.limit c.done c.rest c.freed_blocks ns ks z v (omega arith))
          | inr low ↦ inl (
            omega (arith, c.enough),
            account-IsWrapped m c.last m.limit c.done c.rest c.freed_blocks ns ks z v low refl,
          )
        ],
      )
