-- ===== src/BipBuffer/Fifo.antt =====
-- What the two regions mean: one queue of bytes, oldest first.
use log_memcached.Base.{
  ℕ, ◌+◌, ◌-◌, ◌^◌, ◌≤◌, ◌<◌, ◌≡◌, refl, sym, ◌∙◌, true, false, some, List, ◌++◌, length, arith,
  ltb, lt→ltb, if◌then◌else◌, inl, inr, length-append, Bool-cases, ◌==◌, le_cases,
}
use mathlib.Core.List.{append_assoc, append-nil}
use log_memcached.Base.Memory.{
  read, read_zero, blit, length-read, read-add, read-blit_outside, read-blit_append,
}
use log_memcached.BipBuffer.{
  BipBuffer, unused, used, advance, offer, poll, check_for_switch_to_b, replace_region,
}
use native.Mathlib.Nat.{sub-zero}
use log_memcached.Base.Words.{add32}
use log_memcached.BipBuffer.Bounds.{IsValid}

abbrev pub contents : BipBuffer → List ℕ
contents me = read me.content me.a_start (me.a_end - me.a_start) ++ read me.content 0 me.b_end

pub contents-switch : (me : BipBuffer) → contents (check_for_switch_to_b me) ≡ contents me
unfolding check_for_switch_to_b
contents-switch me = ground arith

pub length-contents : {me : BipBuffer} → IsValid me → length (contents me) ≡ used me
unfolding used
length-contents {me} v = omega (
  arith,
  length-append (read me.content me.a_start (me.a_end - me.a_start)) (read me.content 0 me.b_end),
  length-read me.content me.a_start (me.a_end - me.a_start),
  length-read me.content 0 me.b_end,
)

module _ (me : BipBuffer) (bytes : List ℕ) (v : IsValid me) (h : length bytes < 2 ^ 31) where
  -- the two writes, before the test for region B
  abbrev wrote_b : BipBuffer
  wrote_b = record me { content = blit me.content me.b_end bytes; b_end = me.b_end + length bytes }

  abbrev wrote_a : BipBuffer
  wrote_a = record me { content = blit me.content me.a_end bytes; a_end = me.a_end + length bytes }

  offer_full : unused me < length bytes → offer me bytes ≡ (0, me)
  unfolding offer unused
  offer_full e = ground arith

  offer_in_b :
      me.b_inuse ≡ true
      → length bytes ≤ unused me
      → (length bytes ≤ me.a_start - me.b_end)
        × (offer me bytes ≡ (length bytes, check_for_switch_to_b wrote_b))
  unfolding offer unused
  offer_in_b b e =
      let fits : length bytes ≤ me.a_start - me.b_end = ground arith in
      let w : advance (record me { content = blit me.content me.b_end bytes }) (length bytes)
          ≡ wrote_b =
        ground arith in
      (fits, rw (← w) (ground arith))

  offer_in_a :
      me.b_inuse ≡ false
      → length bytes ≤ unused me
      → offer me bytes ≡ (length bytes, check_for_switch_to_b wrote_a)
  unfolding offer unused
  offer_in_a b e =
      let w : advance (record me { content = blit me.content me.a_end bytes }) (length bytes)
          ≡ wrote_a =
        ground arith in
      rw (← w) (ground arith)

  contents-wrote_b : length bytes ≤ me.a_start - me.b_end → contents wrote_b ≡ contents me ++ bytes
  contents-wrote_b fits =
      rw
        (
          read-blit_outside me.content me.b_end bytes me.a_start (me.a_end - me.a_start)
              (inr (omega arith)),
          read-blit_append me.content 0 me.b_end me.b_end (me.b_end + length bytes) bytes
              (omega arith) refl,
        )
        (sym (
          append_assoc (read me.content me.a_start (me.a_end - me.a_start))
            (read me.content 0 me.b_end) bytes))

  contents-wrote_a : me.b_inuse ≡ false → contents wrote_a ≡ contents me ++ bytes
  contents-wrote_a b =
      simp (v.b_unused b, read_zero, append-nil)
        (read-blit_append me.content me.a_start (me.a_end - me.a_start) me.a_end
          (me.a_end + length bytes - me.a_start) bytes (omega arith) (omega arith))

  -- On a well-formed buffer bipbuf_offer of fewer than 2^31 bytes returns the length and appends
  -- the bytes to the queue if at least that much is unused, and otherwise returns 0 and leaves the
  -- queue alone.
  pub offer-contents :
      ((offer me bytes).0 ≡ (if ltb (unused me) (length bytes) then 0 else length bytes))
      × (contents (offer me bytes).1
          ≡ (if ltb (unused me) (length bytes) then contents me else contents me ++ bytes))
  offer-contents = elim (le_cases (length bytes) (unused me)) [
    | inr full ↦ rw (offer_full full, lt→ltb _ _ full) (refl, refl)
    | inl room ↦
        let out : ltb (unused me) (length bytes) ≡ false = ground arith in
        elim (Bool-cases me.b_inuse) [
          | inl b ↦
              let (fits, e) = offer_in_b b room in
              rw (e, out) (refl, contents-switch _ ∙ contents-wrote_b fits)
          | inr b ↦ rw (offer_in_a b room, out) (refl, contents-switch _ ∙ contents-wrote_a b)
        ]
  ]

module _ (me : BipBuffer) (v : IsValid me) (size : ℕ) (pos : 0 < size)
    (h : size ≤ me.a_end - me.a_start) where
  abbrev moved : BipBuffer
  moved = record me { a_start = me.a_start + size }

  poll_moves : poll me size ≡ (some me.a_start, check_for_switch_to_b (replace_region moved))
  unfolding poll
  poll_moves =
      let w : add32 me.a_start size ≡ me.a_start + size = omega arith in rw w (ground arith)

  contents-moved : contents me ≡ read me.content me.a_start size ++ contents moved
  contents-moved =
      let rest = me.a_end - me.a_start - size in
      let e : me.a_end - me.a_start ≡ size + rest = omega arith in
      let e' : me.a_end - (me.a_start + size) ≡ rest = omega arith in
      rw (e, e', read-add me.content me.a_start size rest)
        (append_assoc (read me.content me.a_start size) (read me.content (me.a_start + size) rest)
          (read me.content 0 me.b_end))

  contents-replace_region : contents (replace_region moved) ≡ contents moved
  unfolding replace_region
  contents-replace_region = elim (Bool-cases (moved.a_start == moved.a_end)) [
    | inr e ↦ rw (e, replace_region)
    | inl e ↦
        let z : moved.a_end - moved.a_start ≡ 0 = ground arith in
        rw (e, z, replace_region, read_zero)
          (elim (Bool-cases me.b_inuse) [
            | inl b ↦ simp (b, sub-zero, read_zero, append-nil)
            | inr b ↦ simp (b, v.b_unused b, read_zero)
          ])
  ]

  -- `bipbuf_poll` of bytes that region A holds hands over the front of the queue.
  pub poll-contents :
      ((poll me size).0 ≡ some me.a_start)
      × (contents me ≡ read me.content me.a_start size ++ contents (poll me size).1)
  poll-contents = rw (poll_moves, contents-switch, contents-replace_region) (refl, contents-moved)
