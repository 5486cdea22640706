-- ===== src/Memlog/Clean.antt =====
-- `memlog_free_chunk` of memlog.c and its loop.
use log_memcached.Base.{
  ℕ, zero, suc, ◌+◌, ◌^◌, ◌≤◌, ◌<◌, ◌≡◌, refl, ap, ◌∙◌, ◌⊎◌, inl, inr, true, false, Option, some,
  List, [], ◌∷◌, ◌++◌, arith, ltb, leb, if◌then◌else◌, Bool-cases, le_cases, ◌%◌,
}
use log_memcached.Base.Words.{add32}
use log_memcached.Memlog.{Memlog, block_size, clear, is_plain, release, free_item, free_loop}
use log_memcached.Memlog.Header.{Item, blank}
use log_memcached.Memlog.Layout.{Tiles, total, Tiles-total, Tiles-congr}

abbrev pub AllAtMost : ℕ → List ℕ → Type 0
AllAtMost bound [] = Unit {0}
AllAtMost bound (n ∷ ns) = (n ≤ bound) × AllAtMost bound ns

-- From `m` to `m'` the blocks `done` in front of the cleaner were zeroed; `rest` ends at `b`.
pub record Freed (m m' : Memlog) (b : ℕ) (done rest : List ℕ) : Type 0 where
  pub moved : m'.current_freeing ≡ m.current_freeing + total done
  pub same : m' ≡ record m { memory = m'.memory; current_freeing = m'.current_freeing }
  pub live : Tiles m'.memory m'.current_freeing rest b
  pub outside :
      (p : ℕ) → (p < m.current_freeing) ⊎ (m'.current_freeing ≤ p) → m'.memory p ≡ m.memory p
  pub zeroed : (p : ℕ) → m.current_freeing ≤ p → p < m'.current_freeing → m'.memory p ≡ blank

Freed-refl :
    (m : Memlog) (b : ℕ) (ns : List ℕ) → Tiles m.memory m.current_freeing ns b → Freed m m b [] ns
Freed-refl m b ns t = record {
  moved = omega arith;
  same = refl;
  live = t;
  outside = λ p h. refl;
  zeroed = λ p lo hi. absurd (omega arith);
}

-- One more block in front.
Freed-release :
    (m m' : Memlog) (b n : ℕ) (done rest : List ℕ)
    → Freed (release m n) m' b done rest
    → Freed m m' b (n ∷ done) rest
unfolding release
Freed-release m m' b n done rest f = record {
  moved = omega (arith, f.moved);
  same = f.same;
  live = f.live;
  outside = λ p h. f.outside p (omega (arith, f.moved)) ∙ ground (arith, f.moved);
  zeroed = λ p lo hi. elim (Bool-cases (ltb p (m.current_freeing + n))) [
    | inl e ↦ f.outside p (ground arith) ∙ ground arith
    | inr e ↦ f.zeroed p (ground arith) hi
  ];
}

module _ {S : Type 0} (evict : S → ℕ → Item → S) where
  -- What the loop returns when it starts with `freed` bytes: it has freed `to_free` bytes, or come
  -- to the limit.
  pub record Cleaned (to_free freed : ℕ) (m : Memlog) (ns : List ℕ) (b bound : ℕ)
      (r : Option (ℕ × Memlog × S)) : Type 0 where
    pub last : Memlog
    pub cache : S
    pub done : List ℕ
    pub rest : List ℕ
    pub returns : r ≡ some (freed + total done, last, cache)
    pub split : ns ≡ done ++ rest
    pub freed_blocks : Freed m last b done rest
    pub enough : (to_free ≤ freed + total done) ⊎ (last.current_freeing ≡ m.limit)
    pub bounded :
        AllAtMost bound ns → freed ≤ to_free + bound → freed + total done ≤ to_free + bound

  free_loop_stops :
      (fuel to_free freed : ℕ) (m : Memlog) (s : S)
      → (to_free ≤ freed) ⊎ ((freed < to_free) × (m.limit ≤ m.current_freeing))
      → m.current_freeing < 2 ^ 32
      → free_loop evict (suc fuel) to_free freed m s ≡ some (freed, m, s)
  unfolding free_loop free_item
  free_loop_stops fuel to_free freed m s h w = ground arith

  free_loop_steps :
      (fuel to_free freed : ℕ) (m : Memlog) (s : S) (n : ℕ)
      → block_size (m.memory m.current_freeing) ≡ n
      → freed < to_free
      → m.current_freeing < m.limit
      → m.limit < 2 ^ 31
      → freed + n < 2 ^ 32
      → (s' : S) × (free_loop evict (suc fuel) to_free freed m s
          ≡ free_loop evict fuel to_free (freed + n) (release m n) s')
  unfolding free_loop free_item
  free_loop_steps fuel to_free freed m s n e h in_log z w =
      let a : ltb freed to_free ≡ true = ground arith in
      let c : leb m.limit (m.current_freeing % 2 ^ 32) ≡ false = ground arith in
      let d : add32 freed n ≡ freed + n = omega arith in
      (
        if is_plain (m.memory m.current_freeing).it_data_flags
            then evict s m.current_freeing (m.memory m.current_freeing)
            else s,
        rw (a, c, e, d) refl,
      )

  pub free_loop-Cleaned :
      (fuel to_free freed : ℕ) (m : Memlog) (s : S) (ns : List ℕ) (b bound : ℕ)
      → Tiles m.memory m.current_freeing ns b
      → b ≤ m.limit
      → m.limit < 2 ^ 31
      → to_free < 2 ^ 31
      → (to_free ≤ freed + total ns) ⊎ (b ≡ m.limit)
      → 0 < fuel
      → to_free < freed + fuel
      → Cleaned to_free freed m ns b bound (free_loop evict fuel to_free freed m s)
  unfolding release
  free_loop-Cleaned zero to_free freed m s ns b bound t inside z w goal pos h = absurd (omega arith)
  free_loop-Cleaned (suc fuel) to_free freed m s [] b bound t inside z w goal pos h = record {
    last = m;
    cache = s;
    done = [];
    rest = [];
    returns =
        free_loop_stops fuel to_free freed m s (grind arith) (omega arith)
        ∙ ap (λ k. some (k, m, s)) (omega arith);
    split = refl;
    freed_blocks = Freed-refl m b [] t;
    enough = grind arith;
    bounded = λ a k. omega arith;
  }
  free_loop-Cleaned (suc fuel) to_free freed m s (n ∷ ns) b bound t inside z w goal pos h =
      let low = Tiles-total m.memory m.current_freeing b (n ∷ ns) t in
      elim (le_cases to_free freed) [
        | inl full ↦ record {
          last = m;
          cache = s;
          done = [];
          rest = n ∷ ns;
          returns =
              free_loop_stops fuel to_free freed m s (inl full) (omega arith)
              ∙ ap (λ k. some (k, m, s)) (omega arith);
          split = refl;
          freed_blocks = Freed-refl m b (n ∷ ns) t;
          enough = inl (omega arith);
          bounded = λ a k. omega arith;
        }
        | inr more ↦
            let (s', e) =
              free_loop_steps fuel to_free freed m s n t.0 more (omega arith) z (omega arith) in
            let t' : Tiles (release m n).memory (release m n).current_freeing ns b =
              Tiles-congr m.memory (clear m.memory m.current_freeing n) (m.current_freeing + n) b ns
                (λ p lo hi. ground arith) t.2 in
            let c =
              free_loop-Cleaned fuel to_free (freed + n) (release m n) s' ns b bound t' (inside) (z)
                w (omega arith) (omega arith) (omega arith) in
            record {
              last = c.last;
              cache = c.cache;
              done = n ∷ c.done;
              rest = c.rest;
              returns = e ∙ c.returns ∙ ap (λ k. some (k, c.last, c.cache)) (omega arith);
              split = ap (λ l. n ∷ l) c.split;
              freed_blocks = Freed-release m c.last b n c.done c.rest c.freed_blocks;
              enough = omega (arith, c.enough);
              bounded = λ a k. omega (arith, c.bounded a.1);
            }
      ]
