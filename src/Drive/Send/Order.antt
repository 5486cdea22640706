-- ===== src/Drive/Send/Order.antt =====
-- The bytes that `transmit` gives to the kernel, over all its calls for one answer.
use log_memcached.Base.{
  ℕ, zero, suc, ◌-◌, ◌≤◌, ◌<◌, ◌≡◌, refl, sym, ap, ◌∙◌, Bool, true, false, List, [], ◌∷◌, ◌++◌,
  length, take, drop, take-drop, drop-append_le, drop-append_ge, arith, inl, inr, le_cases,
}
use mathlib.Core.List.{append_assoc, append-nil}
use log_memcached.Drive.{Peer, Kernel, Sent, wrote, would_block, broken}
use log_memcached.Drive.Send.{
  transmit_complete, joined, consume, skip_sent, sent_message, transmit_next, transmit,
}

-- the bytes of messages
abbrev pub all_bytes : List (List (List ℕ)) → List ℕ
all_bytes [] = []
all_bytes (m ∷ ms) = joined m ++ all_bytes ms

consume_past :
    (res : ℕ) (v : List ℕ) (vs : List (List ℕ))
    → length v ≤ res
    → consume res (v ∷ vs) ≡ consume (res - length v) vs
unfolding consume
consume_past res v vs h = ground arith

consume_within :
    (res : ℕ) (v : List ℕ) (vs : List (List ℕ))
    → res < length v
    → consume res (v ∷ vs) ≡ drop res v ∷ vs
unfolding consume
consume_within zero v vs h = ground arith
consume_within (suc res) v vs h = ground arith

-- what is left of a message are the bytes that have not been taken
pub joined-consume : (res : ℕ) (m : List (List ℕ)) → joined (consume res m) ≡ drop res (joined m)
unfolding consume
joined-consume zero [] = refl
joined-consume (suc res) [] = refl
joined-consume res (v ∷ vs) = elim (le_cases (length v) res) [
  | inl past ↦
      ap joined (consume_past res v vs past)
      ∙ joined-consume (res - length v) vs
      ∙ sym (drop-append_ge res v (joined vs) past)
  | inr within ↦
      ap joined (consume_within res v vs within)
      ∙ sym (drop-append_le res v (joined vs) (omega arith))
]

pub joined-append : (xs ys : List (List ℕ)) → joined (xs ++ ys) ≡ joined xs ++ joined ys
joined-append [] ys = refl
joined-append (x ∷ xs) ys =
    ap (λ l. x ++ l) (joined-append xs ys) ∙ sym (append_assoc x (joined xs) (joined ys))

pub all_bytes-skip_sent : (ms : List (List (List ℕ))) → all_bytes (skip_sent ms) ≡ all_bytes ms
unfolding skip_sent
all_bytes-skip_sent [] = refl
all_bytes-skip_sent ([] ∷ ms) = refl
all_bytes-skip_sent ((v ∷ vs) ∷ ms) = refl

-- everything that a connection has sent and still has to send
abbrev pub outgoing : Peer → List ℕ
outgoing p = p.sent ++ all_bytes p.pending

outgoing_sent :
    (sent : List ℕ) (n : ℕ) (m : List (List ℕ)) (ms : List (List (List ℕ)))
    → (sent ++ take n (joined m)) ++ (joined (consume n m) ++ all_bytes ms)
      ≡ sent ++ (joined m ++ all_bytes ms)
outgoing_sent sent n m ms =
    append_assoc sent (take n (joined m)) (joined (consume n m) ++ all_bytes ms)
    ∙ ap (λ l. sent ++ l)
        (sym (append_assoc (take n (joined m)) (joined (consume n m)) (all_bytes ms))
          ∙ ap (λ l. l ++ all_bytes ms)
              (ap (λ l. take n (joined m) ++ l) (joined-consume n m) ∙ take-drop n (joined m)))

outgoing-sent_message :
    (writable : Bool) (p : Peer) (m : List (List ℕ)) (ms : List (List (List ℕ))) (r : Sent)
    → p.pending ≡ m ∷ ms
    → outgoing (sent_message writable p m ms r).1 ≡ outgoing p
unfolding sent_message
outgoing-sent_message writable p m ms (wrote zero) e = refl
outgoing-sent_message writable p m ms (wrote (suc n)) e =
    outgoing_sent p.sent (suc n) m ms ∙ ap (λ l. p.sent ++ all_bytes l) (sym e)
outgoing-sent_message true p m ms would_block e = refl
outgoing-sent_message false p m ms would_block e = refl
outgoing-sent_message writable p m ms broken e = refl

outgoing-transmit_next :
    (k : Kernel) (p : Peer) (ms : List (List (List ℕ)))
    → all_bytes ms ≡ all_bytes p.pending
    → outgoing (transmit_next k p ms).1 ≡ outgoing p
unfolding transmit_next
outgoing-transmit_next k p [] e = ap (λ l. p.sent ++ l) e
outgoing-transmit_next k p (m ∷ ms) e =
    outgoing-sent_message k.update_event (record p { pending = m ∷ ms }) m ms
      (k.send (length (joined m))) refl
    ∙ ap (λ l. p.sent ++ l) e

-- One call of `transmit` loses and doubles nothing.
pub outgoing-transmit : (k : Kernel) (p : Peer) → outgoing (transmit k p).1 ≡ outgoing p
unfolding transmit
outgoing-transmit k p =
    outgoing-transmit_next k p (skip_sent p.pending) (all_bytes-skip_sent p.pending)

-- Calls of `transmit` up to one whose result is that everything is sent.
pub data Transmits : Peer → Peer → Type 0 where
  last :
      (k : Kernel) (p : Peer) → (transmit k p).0 ≡ transmit_complete → Transmits p (transmit k p).1
  again : {q : Peer} (k : Kernel) (p : Peer) → Transmits (transmit k p).1 q → Transmits p q

sent_message_stays :
    (writable : Bool) (p : Peer) (m : List (List ℕ)) (ms : List (List (List ℕ))) (r : Sent)
    → ¬ ((sent_message writable p m ms r).0 ≡ transmit_complete)
unfolding sent_message
sent_message_stays writable p m ms (wrote zero) e = absurd (ground (arith, e))
sent_message_stays writable p m ms (wrote (suc n)) e = absurd (ground (arith, e))
sent_message_stays true p m ms would_block e = absurd (ground (arith, e))
sent_message_stays false p m ms would_block e = absurd (ground (arith, e))
sent_message_stays writable p m ms broken e = absurd (ground (arith, e))

transmit_next_done :
    (k : Kernel) (p : Peer) (ms : List (List (List ℕ)))
    → (transmit_next k p ms).0 ≡ transmit_complete
    → (transmit_next k p ms).1.pending ≡ []
unfolding transmit_next
transmit_next_done k p [] e = refl
transmit_next_done k p (m ∷ ms) e = absurd (sent_message_stays k.update_event _ m ms _ e)

transmit_done :
    (k : Kernel) (p : Peer) → (transmit k p).0 ≡ transmit_complete → (transmit k p).1.pending ≡ []
unfolding transmit
transmit_done k p e = transmit_next_done k p (skip_sent p.pending) e

-- Where calls of transmit come to one that reports the transmission complete, the kernel has taken
-- exactly the bytes of all pending messages, in their order, behind those it had taken before.
pub Transmits-sent : {p q : Peer} → Transmits p q → q.sent ≡ p.sent ++ all_bytes p.pending
Transmits-sent (last k p done) =
    sym (append-nil (transmit k p).1.sent)
    ∙ ap (λ l. (transmit k p).1.sent ++ all_bytes l) (sym (transmit_done k p done))
    ∙ outgoing-transmit k p
Transmits-sent (again k p rest) = Transmits-sent rest ∙ outgoing-transmit k p
