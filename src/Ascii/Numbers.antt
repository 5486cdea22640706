-- ===== src/Ascii/Numbers.antt =====
-- util.c: `safe_strtoul` and `safe_strtol`, over the functions of the C library, for a `long` of 64
-- bits.
use log_memcached.Base.{
  ℕ, ◌%◌, ◌^◌, Bool, true, ◌&&◌, ◌||◌, not, Option, none, some, List, [], ◌∷◌, leb, if◌then◌else◌,
}
use log_memcached.Delta.{Parsed, has_minus}
use log_memcached.Ascii.Time.{ℤ, to_int32}

-- what `strtol` in base 10 gives
pub record ParsedLong : Type 0 where
  pub number : ℤ
  pub rest : List ℕ
  pub moved : Bool
  pub erange : Bool

pub record Longs : Type 0 where
  pub strtoul : List ℕ → Parsed
  pub strtol : List ℕ → ParsedLong
  pub isspace : ℕ → Bool

module _ (n : Longs) where
  -- `xisspace(*endptr) || (*endptr == '\0' && endptr != str)`, once `endptr != str`
  unfoldable pub ends_well : List ℕ → Bool
  ends_well [] = true
  ends_well (c ∷ cs) = n.isspace c

  -- `safe_strtoul`; NULL stands for false
  unfoldable pub safe_strtoul : List ℕ → Option ℕ
  unfolding ends_well has_minus
  safe_strtoul str =
      let p = n.strtoul str in
      if p.erange || not p.moved
      then none
      else if ends_well p.rest
      then (if leb (2 ^ 63) p.number && has_minus str then none else some (p.number % 2 ^ 32))
      else none

  -- `safe_strtol`
  unfoldable pub safe_strtol : List ℕ → Option ℤ
  unfolding ends_well
  safe_strtol str =
      let p = n.strtol str in
      if p.erange || not p.moved
      then none
      else if ends_well p.rest
      then some (to_int32 p.number)
      else none
