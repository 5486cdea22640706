-- ===== src/Binary.antt =====
-- memcached.c: the first step of a request in the binary protocol. `dispatch_bin_command` checks
-- the lengths in the header and says what is read or answered next.
mod Lengths
mod Tests
use log_memcached.Base.{
  ℕ, ◌+◌, Bool, true, false, ◌&&◌, ◌||◌, not, Option, none, some, ltb, leb, ◌==◌, if◌then◌else◌,
}

-- `protocol_binary_command`, as far as the dispatcher tells its values apart
pub data Opcode : Type 0 where
  get : Opcode
  set : Opcode
  add : Opcode
  replace : Opcode
  delete : Opcode
  increment : Opcode
  decrement : Opcode
  quit : Opcode
  flush : Opcode
  getq : Opcode
  noop : Opcode
  version : Opcode
  getk : Opcode
  getkq : Opcode
  append : Opcode
  prepend : Opcode
  stat : Opcode
  setq : Opcode
  addq : Opcode
  replaceq : Opcode
  deleteq : Opcode
  incrementq : Opcode
  decrementq : Opcode
  quitq : Opcode
  flushq : Opcode
  appendq : Opcode
  prependq : Opcode
  touch : Opcode
  gat : Opcode
  gatq : Opcode
  gatk : Opcode
  gatkq : Opcode
  sasl_list_mechs : Opcode
  sasl_auth : Opcode
  sasl_step : Opcode
  other : ℕ → Opcode

-- `bin_substates`
pub data Substate : Type 0 where
  no_state : Substate
  reading_cas_header : Substate
  read_set_value : Substate
  reading_sasl_auth_data : Substate
  reading_set_header : Substate
  reading_get_key : Substate
  reading_stat : Substate
  reading_del_header : Substate
  reading_incr_header : Substate
  read_flush_exptime : Substate
  reading_sasl_auth : Substate
  reading_touch_key : Substate

-- `protocol_binary_response_status`
pub data Status : Type 0 where
  success : Status
  key_enoent : Status
  key_eexists : Status
  e2big : Status
  not_stored : Status
  delta_badval : Status
  enomem : Status
  auth_error : Status
  einval : Status
  unknown_command : Status

-- the function that the dispatcher calls, with its arguments
pub data Call : Type 0 where
  write_bin_error : Status → ℕ → Call
  write_version : Call
  write_empty : Call
  bin_read_key : Substate → ℕ → Call
  bin_list_sasl_mechs : Call

-- the fields of the request's header that the dispatcher reads
pub record Request : Type 0 where
  pub extlen : ℕ
  pub keylen : ℕ
  pub bodylen : ℕ

-- the fields of `conn` that it writes: `write_and_go` becomes `conn_closing` or is left, and the
-- state becomes `conn_closing` or is the call's
pub record Dispatched : Type 0 where
  pub cmd : Opcode
  pub noreply : Bool
  pub call : Call
  pub write_and_close : Bool
  pub closing : Bool

-- KEY_MAX_LENGTH
abbrev pub key_max_length : ℕ
key_max_length = 250

-- `authenticated`; the second argument is the flag of the connection
unfoldable pub authenticated : Opcode → Bool → Bool
authenticated sasl_list_mechs flag = true
authenticated sasl_auth flag = true
authenticated sasl_step flag = true
authenticated version flag = true
authenticated cmd flag = flag

-- the first switch: the command that a quiet one stands for
unfoldable pub loud : Opcode → Option Opcode
loud setq = some set
loud addq = some add
loud replaceq = some replace
loud deleteq = some delete
loud incrementq = some increment
loud decrementq = some decrement
loud quitq = some quit
loud flushq = some flush
loud appendq = some append
loud prependq = some prepend
loud getq = some get
loud getkq = some getk
loud gatq = some gat
loud gatkq = some gatk
loud cmd = none

-- a call under a condition, or a protocol error
abbrev pub when : Bool → Call → Option Call
when b c = if b then some c else none

abbrev pub is_empty : Request → Bool
is_empty r = r.extlen == 0 && (r.keylen == 0 && r.bodylen == 0)

unfoldable pub for_store : Request → Option Call
for_store r =
    when (r.extlen == 8 && (not (r.keylen == 0) && leb (r.keylen + 8) r.bodylen))
      (bin_read_key reading_set_header 8)

unfoldable pub for_get : Request → Option Call
for_get r =
    when (r.extlen == 0 && (r.bodylen == r.keylen && ltb 0 r.keylen))
      (bin_read_key reading_get_key 0)

unfoldable pub for_delta : Request → Option Call
for_delta r =
    when (ltb 0 r.keylen && (r.extlen == 20 && r.bodylen == r.keylen + r.extlen))
      (bin_read_key reading_incr_header 20)

unfoldable pub for_append : Request → Option Call
for_append r = when (ltb 0 r.keylen && r.extlen == 0) (bin_read_key reading_set_header 0)

unfoldable pub for_touch : Request → Option Call
for_touch r = when (r.extlen == 4 && not (r.keylen == 0)) (bin_read_key reading_touch_key 4)

unfoldable pub for_sasl : Request → Option Call
for_sasl r = when (r.extlen == 0 && not (r.keylen == 0)) (bin_read_key reading_sasl_auth 0)

-- the second switch; `none` is a protocol error
unfoldable pub call_for : Opcode → Request → Option Call
unfolding for_store for_get for_delta for_append for_touch for_sasl
call_for version r = when (is_empty r) write_version
call_for flush r =
    when (r.keylen == 0 && (r.bodylen == r.extlen && (r.extlen == 0 || r.extlen == 4)))
      (bin_read_key read_flush_exptime r.extlen)
call_for noop r = when (is_empty r) write_empty
call_for set r = for_store r
call_for add r = for_store r
call_for replace r = for_store r
call_for getq r = for_get r
call_for get r = for_get r
call_for getkq r = for_get r
call_for getk r = for_get r
call_for delete r =
    when (ltb 0 r.keylen && (r.extlen == 0 && r.bodylen == r.keylen))
      (bin_read_key reading_del_header r.extlen)
call_for increment r = for_delta r
call_for decrement r = for_delta r
call_for append r = for_append r
call_for prepend r = for_append r
call_for stat r = when (r.extlen == 0) (bin_read_key reading_stat 0)
call_for quit r = when (is_empty r) write_empty
call_for sasl_list_mechs r = when (is_empty r) bin_list_sasl_mechs
call_for sasl_auth r = for_sasl r
call_for sasl_step r = for_sasl r
call_for touch r = for_touch r
call_for gat r = for_touch r
call_for gatq r = for_touch r
call_for gatk r = for_touch r
call_for gatkq r = for_touch r
call_for cmd r = some (write_bin_error unknown_command r.bodylen)

-- `handle_binary_protocol_error`
abbrev pub handle_binary_protocol_error : Opcode → Bool → Dispatched
handle_binary_protocol_error cmd noreply = record {
  cmd = cmd;
  noreply = noreply;
  call = write_bin_error einval 0;
  write_and_close = true;
  closing = false;
}

unfoldable pub is_quit : Opcode → Bool
is_quit quit = true
is_quit cmd = false

-- what follows the first switch
unfoldable pub dispatch_cmd : Opcode → Bool → Request → Dispatched
unfolding call_for is_quit
dispatch_cmd cmd noreply r = elim (call_for cmd r) [
  | none ↦ handle_binary_protocol_error cmd noreply
  | some c ↦ record {
    cmd = cmd;
    noreply = noreply;
    call = c;
    write_and_close = is_quit cmd;
    closing = is_quit cmd && noreply;
  }
]

-- `dispatch_bin_command`: `settings.sasl`, the connection's flag and its command, the `noreply` that
-- it had, and the header
unfoldable pub dispatch_bin_command : Bool → Bool → Bool → Opcode → Request → Dispatched
unfolding authenticated loud dispatch_cmd
dispatch_bin_command sasl flag noreply cmd r =
    if sasl && not (authenticated cmd flag)
    then record {
      cmd = cmd;
      noreply = noreply;
      call = write_bin_error auth_error 0;
      write_and_close = true;
      closing = false;
    }
    else if ltb key_max_length r.keylen
    then handle_binary_protocol_error cmd true
    else elim (loud cmd) [ none ↦ dispatch_cmd cmd false r | some cmd' ↦ dispatch_cmd cmd' true r ]
