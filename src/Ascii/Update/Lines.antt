-- ===== src/Ascii/Update/Lines.antt =====
-- The command lines that `process_update_command` lets through.
use log_memcached.Base.{
  ℕ, ◌^◌, ◌<◌, ◌≤◌, ◌≡◌, ◌≢◌, Bool, true, Option, none, some, List, length, ltb, arith, get_elem?,
  inl, inr,
}
use mathlib.Core.Path.{subst}
use log_memcached.Libc.{Libc}
use log_memcached.Items.{Cache}
use log_memcached.Items.Alloc.{item_total}
use log_memcached.Items.Lookup.{>>=-some, if-cases}
use log_memcached.Delta.{Numbers}
use log_memcached.Ascii.Time.{ℤ, pos, negsuc}
use log_memcached.Ascii.Numbers.{Longs, safe_strtoul, safe_strtol}
use log_memcached.Ascii.Update.{
  key_max_length, Line, clamp, value_length, read_cas, check_line, read_line, item_size_ok,
}

-- what the checks of a line ensure
pub record Allowed (l : Line) : Type 0 where
  pub short : length l.key ≤ 250
  pub flags : l.flags < 2 ^ 32
  pub past : (n : ℕ) → l.exptime ≢ negsuc n
  pub at_least : 2 ≤ l.vlen
  pub at_most : l.vlen < 2 ^ 31

clamp_pos : (z : ℤ) (n : ℕ) → clamp z ≢ negsuc n
unfolding clamp
clamp_pos (pos m) n e = cc
clamp_pos (negsuc m) n e = cc

value_length_bounds : (z : ℤ) (n : ℕ) → value_length z ≡ some n → (2 ≤ n) × (n < 2 ^ 31)
unfolding value_length
value_length_bounds (pos m) n e = ground (arith, e)
value_length_bounds (negsuc m) n e = ground (arith, e)

some_inj : {A : Type 0} (a b : A) → ◌≡◌ {A = Option A} (some a) (some b) → a ≡ b
some_inj a b e = cc

module _ (numbers : Numbers) (longs : Longs) where
  safe_strtoul_small : (str : List ℕ) (v : ℕ) → safe_strtoul longs str ≡ some v → v < 2 ^ 32
  unfolding safe_strtoul
  safe_strtoul_small str v e = ground (arith, e)

  check_line-Allowed :
      (key flags exptime vlen : List ℕ) (cas : Option ℕ) (l : Line)
      → check_line numbers longs key flags exptime vlen cas ≡ some l
      → Allowed l
  unfolding check_line
  check_line-Allowed key flags exptime vlen cas l e =
      elim (if-cases (ltb key_max_length (length key)) none _ e) [
        | inl (_, none_is) ↦ cc
        | inr (short, chain) ↦
            let (f, f₁, c₁) = >>=-some (safe_strtoul longs flags) _ chain in
            let (x, x₁, c₂) = >>=-some (safe_strtol longs exptime) _ c₁ in
            let (v, v₁, c₃) = >>=-some (safe_strtol longs vlen) _ c₂ in
            let (id, i₁, c₄) = >>=-some cas _ c₃ in
            let (n, n₁, c₅) = >>=-some (value_length v) _ c₄ in
            let (low, high) = value_length_bounds v n n₁ in
            subst Allowed
              (some_inj
                (record { key = key; flags = f; exptime = clamp x; vlen = n; req_cas_id = id }) l
                c₅)
              (record {
                short = ground (arith, short);
                flags = safe_strtoul_small flags f f₁;
                past = clamp_pos x;
                at_least = low;
                at_most = high;
              })
      ]

  read_line_inv :
      (tokens : List (List ℕ)) (handle_cas : Bool) (l : Line)
      → read_line numbers longs tokens handle_cas ≡ some (some l)
      → (key : List ℕ) × (flags : List ℕ) × (exptime : List ℕ) × (vlen : List ℕ) × (cas : Option ℕ)
        × (check_line numbers longs key flags exptime vlen cas ≡ some l)
  unfolding read_line
  read_line_inv tokens handle_cas l e =
      let (key, e₁, r₁) = >>=-some (get_elem? tokens 1) _ e in
      let (flags, e₂, r₂) = >>=-some (get_elem? tokens 2) _ r₁ in
      let (exptime, e₃, r₃) = >>=-some (get_elem? tokens 3) _ r₂ in
      let (vlen, e₄, r₄) = >>=-some (get_elem? tokens 4) _ r₃ in
      let (cas, e₅, r₅) = >>=-some (read_cas numbers longs tokens handle_cas) _ r₄ in
      (
        key,
        flags,
        exptime,
        vlen,
        cas,
        some_inj (check_line numbers longs key flags exptime vlen cas) (some l) r₅,
      )

  -- Where the checks of process_update_command let a line pass, the key has at most 250 bytes, the
  -- flags are below 2^32, the expiry time is not negative, and the length of the value with its
  -- line end is from 2 to 2^31 - 1.
  pub read_line-Allowed :
      (tokens : List (List ℕ)) (handle_cas : Bool) (l : Line)
      → read_line numbers longs tokens handle_cas ≡ some (some l)
      → Allowed l
  read_line-Allowed tokens handle_cas l e =
      let (key, flags, exptime, vlen, cas, c) = read_line_inv tokens handle_cas l e in
      check_line-Allowed key flags exptime vlen cas l c

-- `item_size_ok` refuses nothing.
pub item_size_ok_lem :
    ⦃libc : Libc⦄ (s : Cache) (nkey flags nbytes : ℕ) → item_size_ok s nkey flags nbytes ≡ true
unfolding item_size_ok item_total
item_size_ok_lem s nkey flags nbytes = ground arith
