-- ===== src/Base/Memory.antt =====
-- Bytes in memory, by address: what memcpy writes and what a reader finds.
use Prim.Native.Nat.{ℕ, zero, suc, ◌+◌, ◌≤◌, ◌<◌}
use mathlib.Core.Path.{◌≡◌, refl, ap, ap₂, ◌∙◌}
use mathlib.Core.List.{List, [], ◌∷◌, ◌++◌}
use mathlib.Core.Logic.{◌⊎◌, inl}
use native.Mathlib.Omega.{arith}
use log_memcached.Base.Tests.{◌==◌, if◌then◌else◌}
use log_memcached.Base.Lists.{length}

abbrev pub Memory {ℓ} : Type ℓ → Type ℓ
Memory A = ℕ → A

module _ {ℓ} {A : Type ℓ} where
  abbrev pub store : Memory A → ℕ → A → Memory A
  store m p v q = if q == p then v else m q

  -- memcpy of the bytes to address `p`
  unfoldable pub blit : Memory A → ℕ → List A → Memory A
  blit m p [] = m
  blit m p (b ∷ bs) = store (blit m (suc p) bs) p b

  -- the `n` bytes from address `p` on
  unfoldable pub read : Memory A → ℕ → ℕ → List A
  read m p zero = []
  read m p (suc n) = m p ∷ read m (suc p) n

  pub read_zero : (m : Memory A) (p : ℕ) → read m p 0 ≡ []
  unfolding read
  read_zero m p = refl

  pub length-read : (m : Memory A) (p n : ℕ) → length (read m p n) ≡ n
  unfolding read
  length-read m p zero = refl
  length-read m p (suc n) = ap suc (length-read m (suc p) n)

  pub read-add : (m : Memory A) (p n k : ℕ) → read m p (n + k) ≡ read m p n ++ read m (p + n) k
  unfolding read
  read-add m p zero k = ap₂ (λ a b. read m a b) (omega arith) (omega arith)
  read-add m p (suc n) k =
      let e : suc n + k ≡ suc (n + k) = omega arith in
      let e' : p + suc n ≡ suc p + n = omega arith in
      rw (e, e') (ap (λ l. m p ∷ l) (read-add m (suc p) n k))

  blit-outside :
      (m : Memory A) (p : ℕ) (bs : List A) (q : ℕ)
      → (q < p) ⊎ (p + length bs ≤ q)
      → blit m p bs q ≡ m q
  unfolding blit
  blit-outside m p [] q h = refl
  blit-outside m p (b ∷ bs) q h = ground (arith, blit-outside m (suc p) bs q)

  pub read-blit_outside :
      (m : Memory A) (p : ℕ) (bs : List A) (q n : ℕ)
      → (q + n ≤ p) ⊎ (p + length bs ≤ q)
      → read (blit m p bs) q n ≡ read m q n
  unfolding read
  read-blit_outside m p bs q zero h = refl
  read-blit_outside m p bs q (suc n) h =
      ap₂ ◌∷◌ (blit-outside m p bs q (omega arith))
        (read-blit_outside m p bs (suc q) n (omega arith))

  read-store_below :
      (m : Memory A) (p : ℕ) (b : A) (q n : ℕ) → p < q → read (store m p b) q n ≡ read m q n
  unfolding read
  read-store_below m p b q zero h = refl
  read-store_below m p b q (suc n) h =
      ap₂ ◌∷◌ (ground arith) (read-store_below m p b (suc q) n (omega arith))

  pub read-blit_self : (m : Memory A) (p : ℕ) (bs : List A) → read (blit m p bs) p (length bs) ≡ bs
  unfolding read blit
  read-blit_self m p [] = refl
  read-blit_self m p (b ∷ bs) = ap₂ ◌∷◌ (ground arith) (
      read-store_below (blit m (suc p) bs) p b (suc p) (length bs) (omega arith)
      ∙ read-blit_self m (suc p) bs)

  -- Writing just past a run of bytes extends it.
  pub read-blit_append :
      (m : Memory A) (p n q k : ℕ) (bs : List A)
      → p + n ≡ q
      → k ≡ n + length bs
      → read (blit m q bs) p k ≡ read m p n ++ bs
  read-blit_append m p n q k bs e f =
      rw (f, ← e, read-add)
        (ap₂ ◌++◌ (read-blit_outside m (p + n) bs p n (inl (omega arith)))
          (read-blit_self m (p + n) bs))
