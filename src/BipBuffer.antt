-- ===== src/BipBuffer.antt =====
-- bipbuffer.c: a two-region byte buffer. A function that updates `*me` returns the new buffer
-- beside its result; a pointer into `me->data` is its offset.
pub mod Bounds
pub mod Fifo
pub mod Run
mod Tests
use log_memcached.Base.{
  ℕ, ◌+◌, ◌-◌, ◌%◌, ◌^◌, Bool, true, false, ◌&&◌, Option, none, some, List, ltb, ◌==◌,
  if◌then◌else◌, length,
}
use log_memcached.Base.Memory.{Memory, blit, read}
use log_memcached.Base.Words.{add32, sub32, sub64, lt_int}

-- `bipbuf_t`: `size` is an `unsigned long`, the offsets are `unsigned int`s.
pub record BipBuffer : Type 0 where
  pub size : ℕ
  pub a_start : ℕ
  pub a_end : ℕ
  pub b_end : ℕ
  pub b_inuse : Bool
  pub content : Memory ℕ

-- the `int` that `bipbuf_unused` returns, as its 32-bit pattern
unfoldable pub unused : BipBuffer → ℕ
unused me = if me.b_inuse then sub32 me.a_start me.b_end else sub64 me.size me.a_end % 2 ^ 32

unfoldable pub used : BipBuffer → ℕ
used me = add32 (sub32 me.a_end me.a_start) me.b_end

unfoldable pub init : BipBuffer → ℕ → BipBuffer
init me size = record me { size = size; a_start = 0; a_end = 0; b_end = 0; b_inuse = false }

unfoldable pub is_empty : BipBuffer → Bool
is_empty me = me.a_start == me.a_end

-- `__check_for_switch_to_b`
unfoldable pub check_for_switch_to_b : BipBuffer → BipBuffer
check_for_switch_to_b me =
    if ltb (sub64 me.size me.a_end) (sub32 me.a_start me.b_end)
    then record me { b_inuse = true }
    else me

-- where the next write goes
unfoldable pub write_offset : BipBuffer → ℕ
write_offset me = if me.b_inuse then me.b_end else me.a_end

unfoldable pub request : BipBuffer → ℕ → Option ℕ
unfolding unused write_offset
request me size = if lt_int (unused me) size then none else some (write_offset me)

-- `me->b_end += size` or `me->a_end += size`
unfoldable pub advance : BipBuffer → ℕ → BipBuffer
advance me size =
    if me.b_inuse
    then record me { b_end = add32 me.b_end size }
    else record me { a_end = add32 me.a_end size }

unfoldable pub push : BipBuffer → ℕ → ℕ × BipBuffer
unfolding unused advance check_for_switch_to_b
push me size =
    if lt_int (unused me) size then (0, me) else (size, check_for_switch_to_b (advance me size))

unfoldable pub offer : BipBuffer → List ℕ → ℕ × BipBuffer
unfolding unused write_offset advance check_for_switch_to_b
offer me bytes =
    let size = length bytes in
    if lt_int (unused me) size then (0, me) else (
      size,
      check_for_switch_to_b
          (advance (record me { content = blit me.content (write_offset me) bytes }) size),
    )

unfoldable pub peek : BipBuffer → ℕ → Option ℕ
unfolding is_empty
peek me size =
    if ltb me.size (add32 me.a_start size)
    then none
    else if is_empty me
    then none
    else some me.a_start

-- the offset, and what goes through `*size`
unfoldable pub peek_all : BipBuffer → Option (ℕ × ℕ)
unfolding is_empty
peek_all me = if is_empty me then none else some (me.a_start, sub32 me.a_end me.a_start)

-- the end of `bipbuf_poll`: when region A has run empty, region B takes its place
unfoldable pub replace_region : BipBuffer → BipBuffer
replace_region me =
    if me.a_start == me.a_end
    then (if me.b_inuse
        then record me { a_start = 0; a_end = me.b_end; b_end = 0; b_inuse = false }
        else record me { a_start = 0; a_end = 0 })
    else me

unfoldable pub poll : BipBuffer → ℕ → Option ℕ × BipBuffer
unfolding is_empty replace_region check_for_switch_to_b
poll me size =
    if is_empty me
    then (none, me)
    else if ltb me.size (add32 me.a_start size)
    then (none, me)
    else (
      some me.a_start,
      check_for_switch_to_b (replace_region (record me { a_start = add32 me.a_start size })),
    )
