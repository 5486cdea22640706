-- ===== src/BipBuffer/Run.antt =====
-- A writer that offers and a reader that drains, as logger.c uses the buffer: `bipbuf_peek_all`,
-- then `bipbuf_poll` of what it showed.
use log_memcached.Base.{
  ℕ, ◌-◌, ◌^◌, ◌<◌, ◌≡◌, refl, sym, ap, ◌∙◌, true, false, none, some, List, [], ◌∷◌, ◌++◌, length,
  arith, ltb, if◌then◌else◌, inl, inr, Bool-cases,
}
use mathlib.Core.List.{append_assoc, append-nil}
use log_memcached.Base.Memory.{read}
use log_memcached.Base.Words.{sub32}
use log_memcached.BipBuffer.{BipBuffer, unused, offer, poll, peek_all, is_empty}
use log_memcached.BipBuffer.Bounds.{IsValid, offer-IsValid, poll-IsValid}
use log_memcached.BipBuffer.Fifo.{contents, offer-contents, poll-contents}

pub data Op : Type 0 where
  write : List ℕ → Op
  drain : Op

-- what the reader gets, and the buffer that it leaves
unfoldable pub drain_once : BipBuffer → List ℕ × BipBuffer
drain_once me = elim (peek_all me) [
  | none ↦ ([], me)
  | some (p, n) ↦ (read me.content p n, (poll me n).1)
]

-- the bytes that `bipbuf_offer` takes
unfoldable pub accepted : BipBuffer → List ℕ → List ℕ
unfolding unused
accepted me bytes = if ltb (unused me) (length bytes) then [] else bytes

-- all bytes taken in, all bytes handed out, and the buffer at the end
unfoldable pub run : BipBuffer → List Op → List ℕ × List ℕ × BipBuffer
run me [] = ([], [], me)
run me (write bytes ∷ ops) =
    let (ins, outs, last) = run (offer me bytes).1 ops in (accepted me bytes ++ ins, outs, last)
run me (drain ∷ ops) =
    let (out, me') = drain_once me in
    let (ins, outs, last) = run me' ops in (ins, out ++ outs, last)

abbrev pub AllShort : List Op → Type 0
AllShort [] = Unit {0}
AllShort (write bytes ∷ ops) = (length bytes < 2 ^ 31) × AllShort ops
AllShort (drain ∷ ops) = AllShort ops

peek_all_empty : (me : BipBuffer) → is_empty me ≡ true → peek_all me ≡ none
unfolding peek_all
peek_all_empty me e = rw e

peek_all_filled :
    (me : BipBuffer)
    → IsValid me
    → is_empty me ≡ false
    → peek_all me ≡ some (me.a_start, me.a_end - me.a_start)
unfolding peek_all
peek_all_filled me v e =
    let n : sub32 me.a_end me.a_start ≡ me.a_end - me.a_start = omega arith in rw (e, n)

-- Draining splits the queue, and keeps the invariant.
drain_once_lem :
    {me : BipBuffer}
    → IsValid me
    → (contents me ≡ (drain_once me).0 ++ contents (drain_once me).1) × IsValid (drain_once me).1
unfolding drain_once
drain_once_lem {me} v = elim (Bool-cases (is_empty me)) [
  | inl e ↦ rw (peek_all_empty me e, drain_once) (refl, v)
  | inr e ↦
      let lt : me.a_start < me.a_end = unfold is_empty in ground arith in
      rw (peek_all_filled me v e, drain_once)
        (
          (poll-contents me v (me.a_end - me.a_start) (omega arith) (omega arith)).1,
          poll-IsValid (me.a_end - me.a_start) (omega arith) v,
        )
]

offer-accepted :
    {me : BipBuffer} (bytes : List ℕ)
    → IsValid me
    → length bytes < 2 ^ 31
    → contents (offer me bytes).1 ≡ contents me ++ accepted me bytes
unfolding accepted
offer-accepted {me} bytes v h =
    (offer-contents me bytes v h).1 ∙ (elim (Bool-cases (ltb (unused me) (length bytes))) [
      | inl e ↦ rw (e, append-nil)
      | inr e ↦ rw e
    ])

-- Over any interleaving of offers and drains of a well-formed buffer, the bytes that were in it
-- followed by the bytes that the offers took are the bytes that the drains handed out followed by
-- those left, in that order, and the buffer stays well formed.
pub run_fifo :
    (ops : List Op) {me : BipBuffer}
    → IsValid me
    → AllShort ops
    → let (ins, outs, last) = run me ops in
      (contents me ++ ins ≡ outs ++ contents last) × IsValid last
unfolding run
run_fifo [] v h = (append-nil _, v)
run_fifo (write bytes ∷ ops) {me} v h =
    let (e, valid) = run_fifo ops (offer-IsValid bytes h.0 v) h.1 in
    (
      sym (append_assoc (contents me) (accepted me bytes) (run (offer me bytes).1 ops).0)
          ∙ ap (λ l. l ++ (run (offer me bytes).1 ops).0) (sym (offer-accepted bytes v h.0))
          ∙ e,
      valid,
    )
run_fifo (drain ∷ ops) {me} v h =
    let (kept, valid') = drain_once_lem v in
    let (e, valid) = run_fifo ops valid' h in
    let me' = (drain_once me).1 in
    (
      ap (λ l. l ++ (run me' ops).0) kept
          ∙ append_assoc (drain_once me).0 (contents me') (run me' ops).0
          ∙ ap (λ l. (drain_once me).0 ++ l) e
          ∙ sym (append_assoc (drain_once me).0 (run me' ops).1 (contents (run me' ops).2)),
      valid,
    )
