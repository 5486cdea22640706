-- ===== src/Ascii/Arithmetic.antt =====
-- memcached.c: `process_arithmetic_command`, the commands incr and decr.
use log_memcached.Base.{
  ℕ, Bool, Option, none, some, List, length, ltb, if◌then◌else◌, get_elem?, ◌>>=◌,
}
use log_memcached.Base.Words.{add64}
use log_memcached.Base.Text.{codes}
use log_memcached.Libc.{Libc}
use log_memcached.Items.{Cache}
use log_memcached.Delta.{
  Numbers, DeltaStats, DeltaResultType, ok, non_numeric, eom, delta_item_not_found,
  delta_item_cas_mismatch, safe_strtoull, do_add_delta,
}
use log_memcached.Ascii.Conn.{Client, out_string, set_noreply_maybe}
use log_memcached.Ascii.Update.{key_max_length}

-- the digits in `temp`
abbrev pub temp_of : Option (List ℕ) → List ℕ
temp_of none = codes ""
temp_of (some digits) = digits

-- the reply to a result; after a mismatch there is none
unfoldable pub reply_delta : Bool → Client → DeltaResultType → Option (List ℕ) → Client
unfolding out_string
reply_delta incr c ok temp = out_string c (temp_of temp)
reply_delta incr c non_numeric temp =
    out_string c (codes "CLIENT_ERROR cannot increment or decrement non-numeric value")
reply_delta incr c eom temp = out_string c (codes "SERVER_ERROR out of memory")
reply_delta incr c delta_item_not_found temp =
    let t = c.stats in
    out_string
      (record c {
        stats =
            (if incr
              then record t { incr_misses = add64 t.incr_misses 1 }
              else record t { decr_misses = add64 t.decr_misses 1 });
      })
      (codes "NOT_FOUND")
reply_delta incr c delta_item_cas_mismatch temp = c

-- what `process_arithmetic_command` reads of the tokens: noreply, the key and the number
unfoldable pub arithmetic_tokens : Client → List (List ℕ) → Option (Client × List ℕ × List ℕ)
unfolding set_noreply_maybe
arithmetic_tokens c tokens = do
  c₁ ← set_noreply_maybe c tokens
  key ← get_elem? tokens 1
  word ← get_elem? tokens 2
  some (c₁, key, word)

module _ ⦃libc : Libc⦄ (numbers : Numbers) (pause : Cache → Cache) (hash : List ℕ → ℕ) where
  -- `process_arithmetic_command`
  unfoldable pub process_arithmetic_command :
      Cache → Client → DeltaStats → List (List ℕ) → Bool → Option (Client × DeltaStats × Cache)
  unfolding arithmetic_tokens out_string safe_strtoull do_add_delta reply_delta
  process_arithmetic_command s c t tokens incr = do
    (c₁, key, word) ← arithmetic_tokens c tokens
    if ltb key_max_length (length key)
        then some (out_string c₁ (codes "CLIENT_ERROR bad command line format"), t, s)
        else elim (safe_strtoull numbers word) [
          | none ↦ some (out_string c₁ (codes "CLIENT_ERROR invalid numeric delta argument"), t, s)
          | some delta ↦ (do
            a ← do_add_delta numbers pause s key incr delta none t (hash key)
            some (reply_delta incr c₁ a.result a.buf, a.stats, a.cache))
        ]
