-- ===== src/BipBuffer/Bounds.antt =====
-- The representation invariant of bipbuffer.c.
use log_memcached.Base.{
  ℕ, ◌+◌, ◌-◌, ◌^◌, ◌≤◌, ◌<◌, ◌≡◌, ◌⊎◌, true, false, some, List, length, arith,
}
use log_memcached.BipBuffer.{
  BipBuffer, unused, used, init, request, push, offer, poll, check_for_switch_to_b,
}

-- Region A lies inside the buffer and region B below it; B is in use only while A is not empty.
pub record IsValid (me : BipBuffer) : Type 0 where
  pub small : me.size < 2 ^ 31
  pub a_order : me.a_start ≤ me.a_end
  pub a_inside : me.a_end ≤ me.size
  pub b_below : me.b_end ≤ me.a_start
  pub b_unused : me.b_inuse ≡ false → me.b_end ≡ 0
  pub a_filled : me.b_inuse ≡ true → me.a_start < me.a_end
  pub a_reset : me.a_start ≡ me.a_end → me.a_start ≡ 0

pub init-IsValid : (me : BipBuffer) (size : ℕ) → size < 2 ^ 31 → IsValid (init me size)
unfolding init
init-IsValid me size h = ground arith

pub check_for_switch_to_b-IsValid :
    {me : BipBuffer} → IsValid me → IsValid (check_for_switch_to_b me)
unfolding check_for_switch_to_b
check_for_switch_to_b-IsValid {me} v = ground (arith, v.b_unused, v.a_filled, v.a_reset)

pub push-IsValid :
    {me : BipBuffer} (size : ℕ) → size < 2 ^ 31 → IsValid me → IsValid (push me size).1
unfolding push
push-IsValid {me} size h v = ground (arith, v.b_unused, v.a_filled, v.a_reset)

pub offer-IsValid :
    {me : BipBuffer} (bytes : List ℕ)
    → length bytes < 2 ^ 31
    → IsValid me
    → IsValid (offer me bytes).1
unfolding offer
offer-IsValid {me} bytes h v = ground (arith, v.b_unused, v.a_filled, v.a_reset)

-- `bipbuf_push` after `bipbuf_request`, `bipbuf_offer` and `bipbuf_poll` of no more than region A
-- holds keep the invariant.
pub poll-IsValid :
    {me : BipBuffer} (size : ℕ)
    → size ≤ me.a_end - me.a_start
    → IsValid me
    → IsValid (poll me size).1
unfolding poll
poll-IsValid {me} size h v = ground (arith, v.b_unused, v.a_filled, v.a_reset)

-- `bipbuf_used` and `bipbuf_unused` do not wrap, and together never exceed the size.
pub used-add-unused-le : {me : BipBuffer} → IsValid me → used me + unused me ≤ me.size
unfolding used unused
used-add-unused-le {me} v = ground (arith, v.b_unused)

-- The space that bipbuf_request grants for less than 2^31 bytes in a well-formed buffer lies
-- inside the buffer and outside both regions that hold data.
pub request_inside :
    {me : BipBuffer} {size p : ℕ}
    → IsValid me
    → size < 2 ^ 31
    → request me size ≡ some p
    → (p + size ≤ me.size) × ((me.a_end ≤ p) ⊎ ((me.b_end ≤ p) × (p + size ≤ me.a_start)))
unfolding request
request_inside {me} {size} {p} v h e = ground (arith, v.b_unused)

-- On a well-formed buffer that is not empty, bipbuf_poll of more than region A holds, but no more
-- than fits before the end of the buffer, returns a pointer and leaves the buffer ill formed.
pub poll_too_much :
    {me : BipBuffer} (size : ℕ)
    → IsValid me
    → me.a_start < me.a_end
    → me.a_end < me.a_start + size
    → me.a_start + size ≤ me.size
    → ((poll me size).0 ≡ some me.a_start) × ¬ IsValid (poll me size).1
unfolding poll
poll_too_much {me} size v h₁ h₂ h₃ = (ground arith, λ w. ground (arith, w.a_order))
