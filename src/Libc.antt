-- ===== src/Libc.antt =====
-- What the program asks of the C library, as documented: the characters that `sprintf` writes
-- and what `strtoul` and its family read.
pub mod Decimal
use log_memcached.Base.{ℕ, ◌≤◌, List, length}

-- An `int` argument is its 32-bit pattern, an `unsigned` one its value.
pub record Libc : Type 0 where
  -- sprintf with "%d"
  pub print_int : ℕ → List ℕ
  -- an `int` has at most ten digits and a sign
  pub length-print_int : (n : ℕ) → length (print_int n) ≤ 11
  -- snprintf with " %u %d\r\n"
  pub print_suffix : ℕ → ℕ → List ℕ
  -- two numbers of at most ten digits, a sign, two blanks and the line end
  pub length-print_suffix : (flags n : ℕ) → length (print_suffix flags n) ≤ 25
