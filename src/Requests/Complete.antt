-- ===== src/Requests/Complete.antt =====
-- memcached.c: the counters of the binary protocol, `complete_incr_bin`, and `complete_nread_binary`
-- that chooses among the commands. A failed assertion is `none`.
use log_memcached.Base.{
  ℕ, ◌+◌, ◌-◌, ◌^◌, Bool, true, false, not, ◌==◌, Option, none, some, List, ◌++◌, length, take,
  drop, if◌then◌else◌, ◌>>=◌,
}
use log_memcached.Base.Text.{codes}
use log_memcached.Base.Words.{add64}
use log_memcached.Libc.{Libc}
use log_memcached.Memlog.Header.{get_cas}
use log_memcached.Items.{Cache, item_of, set_item, do_item_remove}
use log_memcached.Items.Alloc.{do_item_alloc}
use log_memcached.Store.{add, is_stored, do_store_item}
use log_memcached.Binary
use log_memcached.Binary.{
  Opcode, Substate, key_enoent, key_eexists, delta_badval, auth_error, success,
}
use log_memcached.Delta.{
  Numbers, DeltaStats, DeltaResultType, ok, non_numeric, eom, delta_item_not_found,
  delta_item_cas_mismatch, Answer, do_add_delta,
}
use log_memcached.Ascii.Time.{pos, realtime}
use log_memcached.Ascii.Conn.{line_end, ThreadStats}
use log_memcached.Ascii.Buffer.{from_network}
use log_memcached.Drive.{Peer, Command, code}
use log_memcached.Requests.{
  write_bin_error, write_bin_response, out_of_memory, binary_get_key, binary_get_extras, to_network,
}
use log_memcached.Requests.Values.{
  process_bin_update, process_bin_append_prepend, complete_update_bin,
}
use log_memcached.Requests.Keys.{process_bin_get_or_touch, process_bin_delete, process_bin_flush}

-- `incr_misses` or `decr_misses`
unfoldable pub count_miss : Command → ThreadStats → ThreadStats
count_miss (code Binary.increment) t = record t { incr_misses = add64 t.incr_misses 1 }
count_miss _ t = record t { decr_misses = add64 t.decr_misses 1 }

module _ ⦃libc : Libc⦄ (numbers : Numbers) (pause : Cache → Cache) (hash : List ℕ → ℕ)
    (process_started : ℕ) where
  -- a counter that is not there is stored with its first value
  unfoldable pub create_counter : Cache → Peer → ℕ → ℕ → Option (Peer × Cache)
  unfolding do_item_alloc do_store_item do_item_remove write_bin_response write_bin_error realtime
      to_network binary_get_key
  create_counter s p initial expiration = do
    let key = binary_get_key p
    let text = numbers.print initial
    (new, _, s₁) ←
        do_item_alloc pause s key 0
          (realtime process_started s.settings.current_time (pos expiration)) (length text + 2)
    elim new [
      | none ↦ some (out_of_memory p (codes "Out of memory allocating new item"), s₁)
      | some it ↦ (do
        let s₂ = set_item s₁ it (record (item_of s₁ it) { value = text ++ line_end })
        (ret, conn, s₃) ←
            do_store_item numbers.strtoul pause hash add s₂ p.store it (hash ((item_of s₂ it).key))
        q ←
            if is_stored ret
            then some (
                write_bin_response
                  (record p { store = record conn { cas = get_cas (item_of s₃ it) } })
                  (to_network 8 initial) 0 0)
            else write_bin_error (record p { store = conn }) Binary.not_stored (pos 0)
        s₄ ← do_item_remove s₃ it
        some (q, s₄))
    ]

  -- the number that `add_delta` has printed, as the code reads it back
  abbrev pub read_back : Option (List ℕ) → ℕ
  read_back none = 0
  read_back (some text) = (numbers.strtoull text).number

  -- `if (cas) c->cas = cas`
  abbrev pub with_cas : Peer → Option ℕ → Peer
  with_cas p id =
      let v : ℕ = elim id [ none ↦ 0 | some v ↦ v ] in
      record p { store = (if v == 0 then p.store else record (p.store) { cas = v }) }

  -- the answer to the result of `add_delta`
  unfoldable pub answer_delta : DeltaResultType → Answer → Peer → ℕ → ℕ → Option (Peer × Cache)
  unfolding write_bin_response write_bin_error create_counter count_miss to_network
  answer_delta ok a p initial expiration =
      some (write_bin_response (with_cas p a.cas) (to_network 8 (read_back a.buf)) 0 0, a.cache)
  answer_delta non_numeric a p initial expiration = do
    q ← write_bin_error p delta_badval (pos 0)
    some (q, a.cache)
  answer_delta eom a p initial expiration =
      some (out_of_memory p (codes "Out of memory incrementing value"), a.cache)
  answer_delta delta_item_not_found a p initial expiration =
      if not (expiration == 2 ^ 32 - 1) then create_counter a.cache p initial expiration else (do
        q ← write_bin_error (record p { stats = count_miss p.cmd p.stats }) key_enoent (pos 0)
        some (q, a.cache))
  answer_delta delta_item_cas_mismatch a p initial expiration = do
    q ← write_bin_error p key_eexists (pos 0)
    some (q, a.cache)

  abbrev pub is_increment : Command → Bool
  is_increment (code Binary.increment) = true
  is_increment _ = false

  -- `complete_incr_bin`, with the hits that `add_delta` counts
  unfoldable pub complete_incr_bin : DeltaStats → Cache → Peer → Option (DeltaStats × Peer × Cache)
  unfolding do_add_delta answer_delta binary_get_key binary_get_extras from_network
  complete_incr_bin hits s p = do
    let key = binary_get_key p
    let extras = binary_get_extras p
    let delta = from_network 0 (take 8 extras)
    let initial = from_network 0 (take 8 (drop 8 extras))
    let expiration = from_network 0 (drop 16 extras)
    a ←
        do_add_delta numbers pause s key (is_increment p.cmd) delta (some p.binary_header.cas) hits
          (hash key)
    (q, s') ← answer_delta a.result a p initial expiration
    some (a.stats, q, s')

  abbrev pub is_join : Command → Bool
  is_join (code Binary.append) = true
  is_join (code Binary.prepend) = true
  is_join _ = false

  abbrev pub no_hits : DeltaStats → Option (Peer × Cache) → Option (DeltaStats × Peer × Cache)
  no_hits hits r = do (q, s) ← r; some (hits, q, s)

  -- the switch of `complete_nread_binary`, without the statistics and the logins, which are `none`
  unfoldable pub substate_round :
      Bool → DeltaStats → Cache → Peer → Substate → Option (DeltaStats × Peer × Cache)
  unfolding process_bin_update process_bin_append_prepend complete_update_bin
      process_bin_get_or_touch process_bin_delete complete_incr_bin process_bin_flush
  substate_round flush_enabled hits s p Binary.reading_set_header = no_hits hits (
      if is_join p.cmd
      then process_bin_append_prepend numbers.strtoul pause hash s p
      else process_bin_update numbers.strtoul pause hash process_started s p)
  substate_round flush_enabled hits s p Binary.read_set_value =
      no_hits hits (complete_update_bin numbers.strtoul pause hash s p)
  substate_round flush_enabled hits s p Binary.reading_get_key =
      no_hits hits (process_bin_get_or_touch numbers pause hash process_started s p)
  substate_round flush_enabled hits s p Binary.reading_touch_key =
      no_hits hits (process_bin_get_or_touch numbers pause hash process_started s p)
  substate_round flush_enabled hits s p Binary.reading_del_header =
      no_hits hits (process_bin_delete numbers pause hash process_started s p)
  substate_round flush_enabled hits s p Binary.reading_incr_header = complete_incr_bin hits s p
  substate_round flush_enabled hits s p Binary.read_flush_exptime =
      no_hits hits (process_bin_flush numbers pause hash process_started flush_enabled s p)
  substate_round flush_enabled hits s p _ = none

  -- `complete_nread_binary`
  unfoldable pub complete_nread_binary :
      Bool → DeltaStats → Cache → Peer → Option (DeltaStats × Peer × Cache)
  unfolding substate_round
  complete_nread_binary flush_enabled hits s p = substate_round flush_enabled hits s p p.substate
