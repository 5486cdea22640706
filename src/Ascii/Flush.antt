-- ===== src/Ascii/Flush.antt =====
-- memcached.c: the branch of `process_command` for flush_all. A token that is not there is `none`. The code
-- does not clear `errno` before it calls strtol, so whether it is ERANGE already is an argument, `stale`.
use log_memcached.Base.{
  ◌||◌, ℕ, ◌+◌, ◌^◌, ◌<◌, ◌≤◌, ◌≡◌, ◌↔◌, ◌⊎◌, refl, Bool, true, false, not, Option, none, some,
  List, [], ◌∷◌, length, leb, ◌==◌, if◌then◌else◌, get_elem?, ◌>>=◌, arith,
}
use log_memcached.Base.Text.{codes}
use log_memcached.Base.Words.{add64, sub32}
use log_memcached.Memlog.Header.{get_cas}
use log_memcached.Items.{Cache, item_of, get_cas_id, item_is_flushed}
use log_memcached.Items.Total.{>>=-eq}
use log_memcached.Ascii.Time.{ℤ, pos, negsuc, realtime}
use log_memcached.Ascii.Numbers.{Longs}
use log_memcached.Ascii.Conn.{Client, out_string, set_noreply_maybe}

-- `settings.oldest_live` and `settings.oldest_cas`
unfoldable pub set_oldest : Cache → ℕ → Cache
unfolding get_cas_id
set_oldest s new_oldest =
    if s.settings.use_cas
    then (let s₁ : Cache = record s {
      settings = record (s.settings) { oldest_live = sub32 new_oldest 1 };
    } in
        if leb s₁.settings.oldest_live s₁.settings.current_time
        then (let (id, s₂) = get_cas_id s₁ in
            record s₂ { settings = record (s₂.settings) { oldest_cas = id } })
        else s₁)
    else record s { settings = record (s.settings) { oldest_live = new_oldest } }

-- the time before which everything is flushed, for the delay that is asked for
unfoldable pub flush_time : ℕ → ℕ → ℤ → ℕ
unfolding realtime
flush_time process_started current_time (pos n) =
    if n == 0 then current_time else realtime process_started current_time (pos n)
flush_time process_started current_time (negsuc n) = current_time

module _ (longs : Longs) (process_started : ℕ) (flush_enabled stale : Bool) where
  -- the delay; the inner `none` is ERANGE
  unfoldable pub read_delay : Client → List (List ℕ) → Option (Option ℤ)
  read_delay c tokens =
      if length tokens + 1 == (if c.noreply then 3 else 2) then some (some (pos 0)) else (do
        word ← get_elem? tokens 1
        some
            (if stale || (longs.strtol word).erange then none else some (longs.strtol word).number))

  -- the branch for "flush_all"
  unfoldable pub flush_all : Cache → Client → List (List ℕ) → Option (Client × Cache)
  unfolding set_noreply_maybe out_string read_delay set_oldest flush_time
  flush_all s c tokens = do
    c₀ ← set_noreply_maybe c tokens
    let c₁ = record c₀ { stats = record (c₀.stats) { flush_cmds = add64 c₀.stats.flush_cmds 1 } }
    if not flush_enabled
        then some (out_string c₁ (codes "CLIENT_ERROR flush_all not allowed"), s)
        else (do
          delay ← read_delay c₁ tokens
          some (elim delay [
            | none ↦ (out_string c₁ (codes "CLIENT_ERROR bad command line format"), s)
            | some exptime ↦ (
              out_string c₁ (codes "OK"),
              set_oldest s (flush_time process_started s.settings.current_time exptime),
            )
          ]))

-- The items that a flush without a delay takes.
set_oldest_iff :
    (s : Cache) (it : ℕ)
    → s.settings.use_cas ≡ true
    → 1 < s.settings.current_time
    → s.settings.current_time < 2 ^ 32
    → s.cas_id + 1 < 2 ^ 64
    → (item_is_flushed (set_oldest s s.settings.current_time) it ≡ true) ↔ (
        ((s.metas it).time < s.settings.current_time)
        ⊎ ((0 < get_cas (item_of s it)) × (get_cas (item_of s it) ≤ s.cas_id)))
unfolding item_is_flushed set_oldest get_cas_id
set_oldest_iff s it stamps started clock room =
    (λ e. ground (arith, e, stamps), λ e. ground (arith, e, stamps))

module _ (longs : Longs) (process_started : ℕ) (stale : Bool) where
  no_delay :
      (c : Client)
      → c.noreply ≡ false
      → read_delay longs process_started true stale c (codes "flush_all" ∷ []) ≡ some (some (pos 0))
  unfolding read_delay
  no_delay c loud = rw loud refl

  -- With CAS in use, flushing enabled, a clock from 2 to 2^32 - 1 and CAS numbers left, a
  -- flush_all without a delay and without noreply flushes exactly the items that were stored or
  -- touched before the current second and those whose CAS, not being 0, was given out before it.
  pub flush_all-flushed :
      (s : Cache) (c : Client) (it : ℕ)
      → c.noreply ≡ false
      → s.settings.use_cas ≡ true
      → 1 < s.settings.current_time
      → s.settings.current_time < 2 ^ 32
      → s.cas_id + 1 < 2 ^ 64
      → (c' : Client) × (s' : Cache) × (flush_all longs process_started true stale s c
            (codes "flush_all" ∷ [])
          ≡ some (c', s'))
        × ((item_is_flushed s' it ≡ true) ↔ (
            ((s.metas it).time < s.settings.current_time)
            ⊎ ((0 < get_cas (item_of s it)) × (get_cas (item_of s it) ≤ s.cas_id))))
  unfolding flush_all set_noreply_maybe flush_time
  flush_all-flushed s c it loud stamps started clock room =
      let c₁ = record c { stats = record (c.stats) { flush_cmds = add64 c.stats.flush_cmds 1 } } in
      (
        out_string c₁ (codes "OK"),
        set_oldest s s.settings.current_time,
        >>=-eq _ _ (some (pos 0)) (no_delay c₁ loud) refl,
        set_oldest_iff s it stamps started clock room,
      )
