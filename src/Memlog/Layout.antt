-- ===== src/Memlog/Layout.antt =====
-- The shape of the log: blocks that fill the live part without gaps, and zeroed free space.
use log_memcached.Base.{ℕ, ◌+◌, ◌*◌, ◌^◌, ◌≤◌, ◌<◌, ◌≡◌, refl, ◌⊎◌, List, [], ◌∷◌, ◌++◌, arith}
use log_memcached.Base.Memory.{Memory, store}
use log_memcached.Memlog.{Memlog, block_size, min_item_size}
use log_memcached.Memlog.Header.{Item, blank}

-- The blocks of sizes `ns` start at `a` and end at `b`.
abbrev pub Tiles : Memory Item → ℕ → List ℕ → ℕ → Type 0
Tiles memory a [] b = a ≡ b
Tiles memory a (n ∷ ns) b = (block_size (memory a) ≡ n) × (0 < n) × Tiles memory (a + n) ns b

abbrev pub total : List ℕ → ℕ
total [] = 0
total (n ∷ ns) = n + total ns

-- The log has a size that fits an `unsigned int` and holds a few items.
abbrev pub IsSized : Memlog → Type 0
IsSized m = (m.limit < 2 ^ 31) × (8 * min_item_size ≤ m.limit)

-- The live part does not go round the end: it lies between the cleaner and the writer.
pub record IsStraight (m : Memlog) (ns : List ℕ) : Type 0 where
  pub live : Tiles m.memory m.current_freeing ns m.current
  pub room : m.current + min_item_size ≤ m.limit
  pub free : m.current + m.avail ≡ m.limit
  pub beginning : m.free_from_beginning ≡ m.current_freeing
  pub zeroed :
      (p : ℕ) → p < m.limit → (m.current ≤ p) ⊎ (p < m.current_freeing) → m.memory p ≡ blank

-- The live part goes round the end: `ns` up to the limit, then `ks` from the base.
pub record IsWrapped (m : Memlog) (ns ks : List ℕ) : Type 0 where
  pub older : Tiles m.memory m.current_freeing ns m.limit
  pub newer : Tiles m.memory 0 ks m.current
  pub inside : m.current_freeing < m.limit
  pub room : m.current + min_item_size ≤ m.limit
  pub free : m.current + m.avail ≡ m.current_freeing
  pub beginning : m.free_from_beginning ≡ 0
  pub zeroed : (p : ℕ) → m.current ≤ p → p < m.current_freeing → m.memory p ≡ blank

pub Tiles-total :
    (memory : Memory Item) (a b : ℕ) (ns : List ℕ) → Tiles memory a ns b → a + total ns ≡ b
Tiles-total memory a b [] t = omega arith
Tiles-total memory a b (n ∷ ns) t = omega (arith, Tiles-total memory (a + n) b ns t.2)

-- Blocks are kept by writes outside them.
pub Tiles-congr :
    (f g : Memory Item) (a b : ℕ) (ns : List ℕ)
    → ((p : ℕ) → a ≤ p → p < b → f p ≡ g p)
    → Tiles f a ns b
    → Tiles g a ns b
Tiles-congr f g a b [] h t = t
Tiles-congr f g a b (n ∷ ns) h t =
    let e = Tiles-total f a b (n ∷ ns) t in
    (
      rw (← h a (omega arith) (omega arith)) t.0,
      t.1,
      Tiles-congr f g (a + n) b ns (λ p lo hi. h p (omega arith) hi) t.2,
    )

pub Tiles-append :
    (f : Memory Item) (a b c : ℕ) (ns ks : List ℕ)
    → Tiles f a ns b
    → Tiles f b ks c
    → Tiles f a (ns ++ ks) c
Tiles-append f a b c [] ks t u = rw t u
Tiles-append f a b c (n ∷ ns) ks t u = (t.0, t.1, Tiles-append f (a + n) b c ns ks t.2 u)

-- A block written just past the others joins them.
pub Tiles-store :
    (f : Memory Item) (a b n : ℕ) (ns : List ℕ) (it : Item)
    → block_size it ≡ n
    → 0 < n
    → Tiles f a ns b
    → Tiles (store f b it) a (ns ++ n ∷ []) (b + n)
Tiles-store f a b n ns it size pos t =
    Tiles-append (store f b it) a b (b + n) ns (n ∷ [])
      (Tiles-congr f (store f b it) a b ns (λ p lo hi. ground arith) t) (ground arith, pos, refl)
