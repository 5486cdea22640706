-- ===== src/Ascii/Commands/Deletes.antt =====
-- `process_delete_command` with a deletion that the log takes, and with one that it refuses.
use log_memcached.Base.{
  ℕ, zero, suc, ◌+◌, ◌^◌, ◌<◌, ◌≤◌, ◌≡◌, refl, ◌∙◌, true, false, none, some, List, [], ◌∷◌, ◌++◌,
  length, arith, Option-cases, inl, inr, ap, ltb,
}
use log_memcached.Base.Text.{codes}
use log_memcached.Libc.{Libc}
use log_memcached.Memlog.{memlog_alloc}
use log_memcached.Items.{Cache, Metadata, key_of, item_is_flushed}
use log_memcached.Items.Alloc.{count_tries, alloc_loop, do_item_alloc}
use log_memcached.Items.Map.{lookup, IsPlacedCache}
use log_memcached.Items.Replace.{Updated, IsLinked}
use log_memcached.Items.Get.{
  do_item_get, discard, held_by, is_expired, do_item_get-Held, discard_held,
}
use log_memcached.Items.Total.{>>=-eq, if-false}
use log_memcached.Base.Memory.{Memory}
use log_memcached.Ascii.Conn.{Client, line_end, out_string}
use log_memcached.Ascii.Update.{key_max_length}
use log_memcached.Ascii.Commands.{
  delete_options, delete_tokens, delete_found, process_delete_command,
}

module _ ⦃libc : Libc⦄ (pause : Cache → Cache)
    (quiet : (s : Cache) → (pause s).metas ≡ s.metas) where
  -- A deletion that is refused leaves the metadata alone where other threads do.
  alloc_loop_metas :
      (tries i : ℕ) (s s' : Cache) (size : ℕ) (key : List ℕ)
      → alloc_loop pause tries i s size key 128 0 0 ≡ some (none, false, s')
      → s'.metas ≡ s.metas
  unfolding alloc_loop count_tries
  alloc_loop_metas zero i s s' size key e = ground (arith, e)
  alloc_loop_metas (suc tries) i s s' size key e =
      let s₁ : Cache = record s { log = (memlog_alloc s.log size).1 } in
      elim (Option-cases (memlog_alloc s.log size).0) [
        | inl refused ↦
            let again : alloc_loop pause tries (i + 1) (pause s₁) size key 128 0 0
                ≡ some (none, false, s') =
              ground (arith, refused, e) in
            alloc_loop_metas tries (i + 1) (pause s₁) s' size key again ∙ quiet s₁
        | inr (p, granted) ↦ absurd (ground (arith, granted, e))
      ]

  do_item_alloc_metas :
      (s s' : Cache) (key : List ℕ)
      → do_item_alloc pause s key 128 0 0 ≡ some (none, false, s')
      → s'.metas ≡ s.metas
  unfolding do_item_alloc
  do_item_alloc_metas s s' key e = alloc_loop_metas 3 0 s s' _ key e

module _ ⦃libc : Libc⦄ (strtoul : List ℕ → ℕ) (pause : Cache → Cache) (hash : List ℕ → ℕ) where
  delete_key :
      (s : Cache) (c : Client) (name key : List ℕ) (it : ℕ)
      → length key ≤ 250
      → do_item_get s key (hash key) ≡ some (some it, held_by s it)
      → process_delete_command strtoul pause hash s c (name ∷ key ∷ [])
        ≡ delete_found strtoul pause hash (held_by s it) c key it
  unfolding process_delete_command delete_tokens delete_options
  delete_key s c name key it short got =
      let fits : ltb key_max_length (length key) ≡ false = ground arith in
      if-false _ _ _ fits (>>=-eq _ _ (some it, held_by s it) got refl)

  -- For a delete of a key of at most 250 bytes, whose item is neither flushed nor expired and has
  -- at most two less than 2^16 references, where the log refuses the deletion and no other thread
  -- changes metadata meanwhile, process_delete_command leaves one reference more to the item than
  -- there were.
  pub process_delete_command-leaks :
      (s s₁ : Cache) (c : Client) (name key : List ℕ) (it : ℕ)
      → ((x : Cache) → (pause x).metas ≡ x.metas)
      → length key ≤ 250
      → lookup hash s key ≡ some it
      → item_is_flushed (held_by s it) it ≡ false
      → is_expired (held_by s it) it ≡ false
      → (s.metas it).refcount + 1 < 2 ^ 16
      → do_item_alloc pause (held_by s it) key 128 0 0 ≡ some (none, false, s₁)
      → (c' : Client) × (process_delete_command strtoul pause hash s c (name ∷ key ∷ [])
          ≡ some (c', s₁))
        × ((s₁.metas it).refcount ≡ (s.metas it).refcount + 1)
  unfolding delete_found
  process_delete_command-leaks s s₁ c name key it quiet short found fresh alive small refused =
      let got = (do_item_get-Held hash s key it found fresh alive).0 in
      let metas = do_item_alloc_metas pause quiet (held_by s it) s₁ key refused in
      (
        _,
        delete_key s c name key it short got ∙ >>=-eq _ _ (none, false, s₁) refused refl,
        ap (λ (m : Memory Metadata). (m it).refcount) metas ∙ ground (arith, small),
      )

  -- For a delete of a key of at most 250 bytes, whose item is neither flushed nor expired, where
  -- the log takes the deletion and the table is then well placed with the item linked, found under
  -- the key and held twice or more but less than 2^16 times, process_delete_command fails no
  -- assertion and, without noreply and with room for the reply, answers DELETED; the key then
  -- gives nothing, every other lookup is as the deletion left it, and no key in memory changes.
  pub process_delete_command-deletes :
      (s s₁ : Cache) (c : Client) (name key : List ℕ) (it : ℕ)
      → 9 ≤ c.wsize
      → length key ≤ 250
      → lookup hash s key ≡ some it
      → item_is_flushed (held_by s it) it ≡ false
      → is_expired (held_by s it) it ≡ false
      → do_item_alloc pause (held_by s it) key 128 0 0 ≡ some (none, true, s₁)
      → IsPlacedCache hash s₁
      → IsLinked hash s₁ it
      → key_of s₁ it ≡ key
      → 1 < (s₁.metas it).refcount
      → (s₁.metas it).refcount < 2 ^ 16
      → (c' : Client) × (s' : Cache) × (process_delete_command strtoul pause hash s c
            (name ∷ key ∷ [])
          ≡ some (c', s'))
        × (c.noreply ≡ false → c'.wbuf ≡ codes "DELETED" ++ line_end)
        × Updated hash s₁ key none s'
  unfolding delete_found
  process_delete_command-deletes s s₁ c name key it room short found fresh alive logged placed
        linked same held small =
      let got = (do_item_get-Held hash s key it found fresh alive).0 in
      let (s', e, u) = discard_held hash s₁ it placed linked held small in
      let gone : discard s₁ it (hash key) ≡ some s' = rw same at e in
      (
        _,
        s',
        delete_key s c name key it short got
            ∙ >>=-eq _ _ (none, true, s₁) logged (>>=-eq _ _ s' gone refl),
        (λ loud. unfold out_string in ground (arith, loud, room)),
        (let v = u in rw same at v),
      )
