-- ===== src/Ascii/Time.antt =====
-- memcached.c: `realtime`, from the time that a client gives to seconds since the start. A `time_t`
-- is an integer, and `rel_time_t` is an `unsigned int`.
pub mod Due
use log_memcached.Base.{
  ℕ, suc, ◌+◌, ◌-◌, ◌*◌, ◌%◌, ◌^◌, Bool, true, false, ltb, leb, ◌==◌, if◌then◌else◌,
}

pub data ℤ : Type 0 where
  pos : ℕ → ℤ
  -- `negsuc n` is `-(n + 1)`.
  negsuc : ℕ → ℤ

-- REALTIME_MAXDELTA
abbrev pub realtime_maxdelta : ℕ
realtime_maxdelta = 60 * 60 * 24 * 30

-- a 64-bit integer as an `unsigned int`
abbrev pub to_uint32 : ℤ → ℕ
to_uint32 (pos n) = n % 2 ^ 32
to_uint32 (negsuc n) = 2 ^ 32 - 1 - n % 2 ^ 32

-- an `unsigned int` as an `int`
abbrev pub signed : ℕ → ℤ
signed w = if ltb w (2 ^ 31) then pos w else negsuc (2 ^ 32 - 1 - w)

abbrev pub to_int32 : ℤ → ℤ
to_int32 z = signed (to_uint32 z)

-- `realtime`, at a time `current_time` of a process started at `process_started`
unfoldable pub realtime : ℕ → ℕ → ℤ → ℕ
realtime process_started current_time (pos n) =
    if n == 0
    then 0
    else if ltb realtime_maxdelta n
    then (if leb n process_started then 1 else (n - process_started) % 2 ^ 32)
    else (n + current_time) % 2 ^ 32
realtime process_started current_time (negsuc n) =
    (current_time % 2 ^ 32 + to_uint32 (negsuc n)) % 2 ^ 32
