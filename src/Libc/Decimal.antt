-- ===== src/Libc/Decimal.antt =====
-- A C library for the tests: decimal printing by repeated division.
use log_memcached.Base.{
  ℕ, zero, suc, ◌+◌, ◌-◌, ◌/◌, ◌%◌, ◌^◌, ◌≤◌, List, [], ◌∷◌, ◌++◌, length, length-append, arith,
  ltb, if◌then◌else◌,
}
use log_memcached.Libc.{Libc}

-- Ten digits are enough for 32 bits.
unfoldable pub decimal : ℕ → ℕ → List ℕ
decimal zero n = []
decimal (suc digits) n =
    let rest = decimal digits (n / 10) in
    if ltb n 10 then (b'0' + n) ∷ [] else rest ++ (b'0' + n % 10) ∷ []

length-decimal : (digits n : ℕ) → length (decimal digits n) ≤ digits
unfolding decimal
length-decimal zero n = omega arith
length-decimal (suc digits) n = ground (
  arith,
  length-decimal digits (n / 10),
  length-append (decimal digits (n / 10)) ((b'0' + n % 10) ∷ []),
  length-decimal digits 0,
)

unfoldable pub print_signed : ℕ → List ℕ
unfolding decimal
print_signed n =
    let w = n % 2 ^ 32 in if ltb w (2 ^ 31) then decimal 10 w else b'-' ∷ decimal 10 (2 ^ 32 - w)

pub length-print_signed : (n : ℕ) → length (print_signed n) ≤ 11
unfolding print_signed
length-print_signed n =
    ground (arith, length-decimal 10 (n % 2 ^ 32), length-decimal 10 (2 ^ 32 - n % 2 ^ 32))

unfoldable pub print_two : ℕ → ℕ → List ℕ
unfolding print_signed
print_two flags n = b' ' ∷ (decimal 10 flags ++ (b' ' ∷ (print_signed n ++ (13 ∷ 10 ∷ []))))

pub length-print_two : (flags n : ℕ) → length (print_two flags n) ≤ 25
unfolding print_two
length-print_two flags n = omega (
  arith,
  length-decimal 10 flags,
  length-print_signed n,
  length-append (decimal 10 flags) (b' ' ∷ (print_signed n ++ (13 ∷ 10 ∷ []))),
  length-append (print_signed n) (13 ∷ 10 ∷ []),
)

instance abbrev pub decimal_libc : Libc
decimal_libc = record {
  print_int = print_signed;
  length-print_int = length-print_signed;
  print_suffix = print_two;
  length-print_suffix = length-print_two;
}
