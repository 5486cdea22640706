-- ===== src/Binary/Lengths.antt =====
-- The lengths that `dispatch_bin_command` lets through.
use log_memcached.Base.{
  ℕ, ◌+◌, ◌≤◌, ◌≡◌, inl, inr, Bool, true, false, ◌&&◌, not, none, some, arith, ◌==◌, Bool-cases,
  Option-cases, le_cases,
}
use log_memcached.Binary.{
  reading_set_header, reading_get_key, reading_stat, reading_del_header, reading_incr_header,
  read_flush_exptime, reading_sasl_auth, reading_touch_key, Opcode, Request, Substate, Call,
  call_for, dispatch_cmd, dispatch_bin_command, for_store, for_get, for_delta, for_append,
  for_touch, for_sasl, authenticated, loud,
}

call_for_read :
    (cmd : Opcode) (r : Request) (next : Substate) (extra : ℕ)
    → call_for cmd r ≡ some (Call.bin_read_key next extra)
    → extra ≡ r.extlen
unfolding call_for for_store for_get for_delta for_append for_touch for_sasl
call_for_read cmd r next extra e = ground arith

-- the reads whose lengths are checked against the body of the request
abbrev pub checks_body : Substate → ℕ → Bool
checks_body reading_set_header extra = extra == 8
checks_body reading_get_key extra = true
checks_body reading_stat extra = false
checks_body reading_del_header extra = true
checks_body reading_incr_header extra = true
checks_body read_flush_exptime extra = true
checks_body reading_sasl_auth extra = false
checks_body reading_touch_key extra = false
checks_body _ extra = false

call_for_body :
    (cmd : Opcode) (r : Request) (next : Substate) (extra : ℕ)
    → call_for cmd r ≡ some (Call.bin_read_key next extra)
    → checks_body next extra ≡ true
    → r.keylen + extra ≤ r.bodylen
unfolding call_for for_store for_get for_delta for_append for_touch for_sasl
call_for_body cmd r next extra e c = ground arith

-- the call that a command comes to: one that the second switch makes, or an error
dispatch_cmd_call :
    (cmd : Opcode) (noreply : Bool) (r : Request) (next : Substate) (extra : ℕ)
    → (dispatch_cmd cmd noreply r).call ≡ Call.bin_read_key next extra
    → call_for cmd r ≡ some (Call.bin_read_key next extra)
unfolding dispatch_cmd
dispatch_cmd_call cmd noreply r next extra e = ground arith

dispatch_call :
    (sasl flag noreply : Bool) (cmd : Opcode) (r : Request) (next : Substate) (extra : ℕ)
    → (dispatch_bin_command sasl flag noreply cmd r).call ≡ Call.bin_read_key next extra
    → (r.keylen ≤ 250) × (cmd' : Opcode) × (call_for cmd' r ≡ some (Call.bin_read_key next extra))
unfolding dispatch_bin_command
dispatch_call sasl flag noreply cmd r next extra e =
    elim (Bool-cases (sasl && not (authenticated cmd flag))) [
      | inl out ↦ absurd (ground (arith, out))
      | inr go ↦ elim (le_cases r.keylen 250) [
        | inr long ↦ absurd (ground (arith, go, long))
        | inl short ↦ elim (Option-cases (loud cmd)) [
          | inl same ↦ (
            short,
            cmd,
            dispatch_cmd_call cmd false r next extra (ground (arith, go, short, same)),
          )
          | inr (cmd', quiet) ↦ (
            short,
            cmd',
            dispatch_cmd_call cmd' true r next extra (ground (arith, go, short, quiet)),
          )
        ]
      ]
    ]

-- Where dispatch_bin_command goes on to read a key, the key has at most 250 bytes and the bytes
-- read before it are the extras that the header announces; where the read is of a store with
-- extras, a get, a delete, a delta or a flush, extras and key lie inside the body.
pub dispatch_bin_command-reads :
    (sasl flag noreply : Bool) (cmd : Opcode) (r : Request) (next : Substate) (extra : ℕ)
    → (dispatch_bin_command sasl flag noreply cmd r).call ≡ Call.bin_read_key next extra
    → (r.keylen ≤ 250)
      × (extra ≡ r.extlen)
      × (checks_body next extra ≡ true → r.keylen + extra ≤ r.bodylen)
dispatch_bin_command-reads sasl flag noreply cmd r next extra e =
    let (short, cmd', e') = dispatch_call sasl flag noreply cmd r next extra e in
    (short, call_for_read cmd' r next extra e', call_for_body cmd' r next extra e')

-- Without SASL, a quiet command comes to the same call as the command that it stands for, with
-- noreply set, and both or neither close the connection after the answer.
pub dispatch_bin_command-quiet :
    (noreply : Bool) (cmd cmd' : Opcode) (r : Request)
    → loud cmd ≡ some cmd'
    → ((dispatch_bin_command false false noreply cmd r).call
        ≡ (dispatch_bin_command false false noreply cmd' r).call)
      × ((dispatch_bin_command false false noreply cmd r).noreply ≡ true)
      × (((dispatch_bin_command false false noreply cmd r).write_and_close)
          ≡ ((dispatch_bin_command false false noreply cmd' r).write_and_close))
unfolding dispatch_bin_command loud dispatch_cmd
dispatch_bin_command-quiet noreply cmd cmd' r e =
    let twice : loud cmd' ≡ none = ground arith in
    (ground (arith, e, twice), ground (arith, e, twice), ground (arith, e, twice))
