-- ===== src/Ascii/Time/Due.antt =====
-- When an item is due whose time comes from `realtime`.
use log_memcached.Base.{
  ℕ, suc, ◌+◌, ◌^◌, ◌<◌, ◌≤◌, ◌≡◌, ◌↔◌, Bool, true, ◌&&◌, not, leb, ◌==◌, arith,
}
use log_memcached.Ascii.Time.{pos, negsuc, realtime, realtime_maxdelta}

-- the test of `do_item_get`
abbrev pub is_due : ℕ → ℕ → Bool
is_due exptime current_time = not (exptime == 0) && leb exptime current_time

-- A time of more than thirty days that is less than 2^32 seconds after the start of the process is
-- due exactly if the clock, which has been started, has reached it.
pub realtime-due :
    (process_started current_time n : ℕ)
    → realtime_maxdelta < n
    → n < process_started + 2 ^ 32
    → 0 < current_time
    → (is_due (realtime process_started current_time (pos n)) current_time ≡ true)
      ↔ (n ≤ process_started + current_time)
unfolding realtime
realtime-due process_started current_time n absolute near running =
    (λ e. ground (arith, e), λ e. ground (arith, e))

-- For a negative time from -1 to -2^31 and a clock below 2^31, the time that realtime gives is due
-- at once exactly if the negative time is greater than minus the clock.
pub realtime-wraps :
    (process_started current_time n : ℕ)
    → current_time < 2 ^ 31
    → n < 2 ^ 31
    → (is_due (realtime process_started current_time (negsuc n)) current_time ≡ true)
      ↔ (suc n < current_time)
unfolding realtime
realtime-wraps process_started current_time n clock small =
    (λ e. ground (arith, e), λ e. ground (arith, e))
