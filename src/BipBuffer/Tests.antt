-- ===== src/BipBuffer/Tests.antt =====
-- The theorems at a buffer of eight bytes.
use log_memcached.Base.{◌≡◌, refl, true, false, List, [], ◌∷◌, ◌++◌, arith}
use log_memcached.Base.Memory.{read, blit}
use log_memcached.BipBuffer.{BipBuffer, init, offer, poll, peek_all}
use log_memcached.BipBuffer.Bounds.{IsValid}
use log_memcached.BipBuffer.Fifo.{contents}
use log_memcached.BipBuffer.Run.{Op, write, drain, drain_once, accepted, run, run_fifo}

abbrev unset : BipBuffer
unset = record { size = 0; a_start = 0; a_end = 0; b_end = 0; b_inuse = false; content = λ _. 0 }

-- five of eight bytes read, two written at the base
abbrev split : BipBuffer
split = record { size = 8; a_start = 5; a_end = 7; b_end = 2; b_inuse = true; content = λ p. p }

split-IsValid : IsValid split
split-IsValid = record {
  small = omega arith;
  a_order = omega arith;
  a_inside = omega arith;
  b_below = omega arith;
  b_unused = λ e. cc;
  a_filled = λ e. omega arith;
  a_reset = λ e. absurd (omega arith);
}

abbrev script : List Op
script = write (1 ∷ 2 ∷ 3 ∷ 4 ∷ 5 ∷ 6 ∷ []) ∷ drain ∷ write (7 ∷ 8 ∷ []) ∷ drain ∷ []

run-script : (run (init unset 8) script).1 ≡ 1 ∷ 2 ∷ 3 ∷ 4 ∷ 5 ∷ 6 ∷ 7 ∷ 8 ∷ []
unfolding run init offer drain_once accepted peek_all poll blit read
run-script = refl

run_fifo_example :
    let (ins, outs, last) = run split script in
    (contents split ++ ins ≡ outs ++ contents last) × IsValid last
run_fifo_example = run_fifo script split-IsValid (omega arith)
