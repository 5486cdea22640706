-- ===== src/Replication/Loop.antt =====
-- The loop of the replay over a run of blocks.
use log_memcached.Base.{
  ℕ, zero, suc, ◌+◌, ◌-◌, ◌^◌, ◌<◌, ◌≤◌, length, ◌≡◌, refl, sym, ap, ◌∙◌, inl, inr, true, false,
  ltb, leb, Option, some, List, [], ◌∷◌, arith,
}
use log_memcached.Base.Memory.{Memory}
use log_memcached.Base.Words.{add32}
use log_memcached.Memlog.Header.{Item}
use log_memcached.Items.{Cache}
use log_memcached.Replication.{
  least, publish_current, pass, replay_item, replay_loop, do_store_replication,
}
use log_memcached.Replication.Backup.{Free, IsBackup}
use log_memcached.Replication.Chain.{
  View, apply_item, apply_items, span, is_ready, Halts, Run, view, Stepped, step, pass-IsBackup,
}

published-Free :
    (s : Cache) (p : Option ℕ) (xs : List ℕ) → Free s p xs → Free (publish_current s) p xs
published-Free s p [] f = f
published-Free s p (x ∷ xs) f = (f.0, f.1, f.2, published-Free s (s.metas x).next_free xs f.3)

-- Items that stand further on are as they were.
Run-kept :
    (m m' : Memory Item) (offset size : ℕ) (ps : List ℕ) (end : ℕ)
    → ((a : ℕ) → offset ≤ a → m' a ≡ m a)
    → Run m offset size ps end
    → Run m' offset size ps end × ((v : View) → apply_items m' ps v ≡ apply_items m ps v)
unfolding apply_items
Run-kept m m' offset size [] end same r = (rw (same offset (omega arith)) r, λ v. refl)
Run-kept m m' offset size (p ∷ ps) end same r =
    let e : m' p ≡ m p = same p (let h = r.0 in omega (arith, h)) in
    let (rest, views) =
      Run-kept m m' (offset + span (m p)) (size - span (m p)) ps end
        (λ a le. same a (omega (arith, le))) r.6 in
    (rw e (r.0, r.1, r.2, r.3, r.4, r.5, rest), λ v. rw e (views (apply_item (m p) p v)))

module _ (hash : List ℕ → ℕ) where
  -- The replay of a run ends behind it, with the map that the run makes.
  Result : ℕ → Cache → ℕ → ℕ → List ℕ → ℕ → Type 0
  Result fuel s offset size ps end =
      (s' : Cache) × (free' : List ℕ) × (replay_loop hash fuel s size offset ≡ some (end, s'))
      × IsBackup hash s' free'
      × (view hash s' ≡ apply_items s.log.memory ps (view hash s))
      × (s'.log.current + offset ≡ s.log.current + end)

  published :
      (s : Cache) (free : List ℕ) → IsBackup hash s free → IsBackup hash (publish_current s) free
  published s free b = record {
    placed = b.placed;
    in_table = λ q x found.
        let i = b.in_table q x found in
        record { linked = i.linked; used = i.used; counted = i.counted };
    free_list = published-Free s s.first_free free b.free_list;
    once = b.once;
  }

  loop-Halts :
      (fuel : ℕ) (s : Cache) (offset size : ℕ)
      → Halts s.log.memory offset size
      → replay_loop hash (suc fuel) s size offset ≡ some (offset, publish_current s)
  unfolding replay_loop
  loop-Halts fuel s offset size (inl few) = ground (arith, few)
  loop-Halts fuel s offset size (inr (inl unready)) = ground (arith, unready)
  loop-Halts fuel s offset size (inr (inr (plain, short))) = ground (arith, plain, short)

  pub loop_round :
      (fuel : ℕ) (s s₁ : Cache) (p size : ℕ)
      → least ≤ size
      → is_ready (s.log.memory p).it_data_flags ≡ true
      → (s.log.memory p).it_data_flags.cycle ≡ false
      → span (s.log.memory p) ≤ size
      → replay_item hash s (s.log.memory p).it_data_flags p ≡ some s₁
      → replay_loop hash (suc fuel) s size p
        ≡ replay_loop hash fuel
            (pass s₁ (span (s.log.memory p)))
            (size - span (s.log.memory p))
            (add32 p (span (s.log.memory p)))
  unfolding replay_loop
  loop_round fuel s s₁ p size room ready plain whole e =
      let a : leb least size ≡ true = ground arith in
      let c : ltb size (span (s.log.memory p)) ≡ false = ground arith in
      ground (arith, ready, plain, e)

  passed :
      (s : Cache) (n : ℕ)
      → (view hash (pass s n) ≡ view hash s)
        × ((pass s n).log.memory ≡ s.log.memory)
        × ((pass s n).log.current ≡ s.log.current + n)
  unfolding pass view
  passed s n = (refl, refl, refl)

  halts :
      (fuel : ℕ) (s : Cache) (offset size end : ℕ) (free : List ℕ)
      → size < fuel
      → IsBackup hash s free
      → Run s.log.memory offset size [] end
      → Result fuel s offset size [] end
  unfolding Result replay_loop apply_items view
  halts zero s offset size end free enough b r = absurd (omega (arith, enough))
  halts (suc fuel) s offset size end free enough b r = (
    publish_current s,
    free,
    loop-Halts fuel s offset size r.0 ∙ ap (λ n. some (n, publish_current s)) r.1,
    published s free b,
    refl,
    (let e = r.1 in omega (arith, e)),
  )

  replay_loop-Result :
      (fuel : ℕ) (s : Cache) (offset size : ℕ) (ps : List ℕ) (end : ℕ) (free : List ℕ)
      → size < fuel
      → IsBackup hash s free
      → length ps ≤ length free
      → offset + size < 2 ^ 32
      → Run s.log.memory offset size ps end
      → Result fuel s offset size ps end
  unfolding Result Stepped apply_items
  replay_loop-Result fuel s offset size [] end free enough b many small r =
      halts fuel s offset size end free enough b r
  replay_loop-Result zero s offset size (p ∷ ps) end free enough b many small r =
      absurd (omega (arith, enough))
  replay_loop-Result (suc fuel) s offset size (p ∷ ps) end [] enough b many small r =
      absurd (ground arith)
  replay_loop-Result (suc fuel) s offset size (p ∷ ps) end (it ∷ free) enough b many small r =
      let (s₁, free₁, e₁, w, b₁, more) = step hash s it free p b in
      let n = span (s.log.memory p) in
      let s₂ = pass s₁ n in
      let (views, memory, current) = passed s₁ n in
      let at = r.0 in
      let whole = r.5 in
      let some_bytes = r.4 in
      let further : (a : ℕ) → offset + n ≤ a → s₂.log.memory a ≡ s.log.memory a = λ a le.
        ap (λ (m : Memory Item). m a) memory
        ∙ w.memory a (λ e. omega (arith, at, e, le, some_bytes)) in
      let (rest, same) =
        Run-kept s.log.memory s₂.log.memory (offset + n) (size - n) ps end further r.6 in
      let (s', free', e, b', v, c) =
        replay_loop-Result fuel s₂ (offset + n) (size - n) ps end free₁
          (omega (arith, enough, some_bytes, whole)) (pass-IsBackup hash s₁ free₁ n b₁)
          (ground (arith, many, more)) (omega (arith, small, whole)) rest in
      let next : add32 p n ≡ offset + n = ground (arith, at, small, whole) in
      let c₁ = w.current in
      (
        s',
        free',
        ap (λ x. replay_loop hash (suc fuel) s size x) (sym at)
            ∙ loop_round fuel s s₁ p size r.1 r.2 r.3 whole e₁
            ∙ ap (λ x. replay_loop hash fuel s₂ (size - n) x) next
            ∙ e,
        b',
        v ∙ same (view hash s₂) ∙ ap (λ x. apply_items s.log.memory ps x) (views ∙ w.views),
        omega (arith, c, c₁, current),
      )

  -- On a backup with a well-placed table, whose linked items have two references and whose free
  -- list is a list of distinct free metadata, do_store_replication of a run of whole stored items,
  -- not dirty and not cycle items, with at least 35 bytes left at each, as many free metadata as
  -- items, and offsets below 2^32, fails no assertion, stops at the first address where fewer than
  -- 35 bytes are left, no whole item stands or the item is not ready, returns that address, and
  -- makes of the map from keys to addresses what applying the items in their order does: a store
  -- puts its key at its address, a deletion takes its key away and a corrupted item does nothing;
  -- the writer has moved by as many bytes, and the state is such a backup again.
  pub do_store_replication-view :
      (s : Cache) (offset size : ℕ) (ps : List ℕ) (end : ℕ) (free : List ℕ)
      → IsBackup hash s free
      → length ps ≤ length free
      → offset + size < 2 ^ 32
      → Run s.log.memory offset size ps end
      → (s' : Cache) × (free' : List ℕ) × (do_store_replication hash s size offset ≡ some (end, s'))
        × IsBackup hash s' free'
        × (view hash s' ≡ apply_items s.log.memory ps (view hash s))
        × (s'.log.current + offset ≡ s.log.current + end)
  unfolding do_store_replication Result
  do_store_replication-view s offset size ps end free b many small r =
      replay_loop-Result (suc size) s offset size ps end free (omega arith) b many small r
