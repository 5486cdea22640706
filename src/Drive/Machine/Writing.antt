-- ===== src/Drive/Machine/Writing.antt =====
-- The rounds of `drive_machine` that send bring a request nearer to its end.
use log_memcached.Base.{
  ℕ, zero, suc, ◌+◌, ◌-◌, ◌≤◌, ◌<◌, ◌≡◌, refl, sym, ap, Bool, true, false, List, [], ◌∷◌, ◌++◌,
  length, length-append, drop, take, arith, ◌⊎◌, inl, inr, Bool-cases, ◌==◌,
}
use mathlib.Core.Path.{subst}
use log_memcached.Binary.{Substate}
use log_memcached.Ascii.Conn.{ConnState, conn_write, conn_mwrite}
use log_memcached.Drive.{Peer, Kernel, IsHonest}
use log_memcached.Drive.Send.Order.{all_bytes, joined-consume, all_bytes-skip_sent}
use log_memcached.Ascii.Buffer.{Protocol, ascii_prot, binary_prot, negotiating_prot}
use log_memcached.Drive.{Sent, wrote, would_block, broken, conn_release_items}
use log_memcached.Drive.Send.{
  joined, consume, skip_sent, sent_message, transmit_next, transmit, complete_write, transmit_round,
  write_round, add_part, with_answer, listed_round, answer_round, after_items,
}
use log_memcached.Drive.Machine.Progress.{
  unlisted, stage_of, stage, todo_of, todo, is_client, follows_answer, IsLive, Fine, stage-Down,
  todo-Down, closes-Fine, Same, Same-refl, Same-stage,
}

-- the bytes that an answer still needs
abbrev to_send : Peer → ℕ
to_send p = unlisted p + length (all_bytes p.pending)

-- a connection that sends an answer, with no more of it left than at the start of the round
record Sending (q p : Peer) : Type 0 where
  same : Same q p
  four : stage q ≡ 4
  todo : todo q ≡ to_send q
  way : (p.state ≡ conn_write) ⊎ (p.state ≡ conn_mwrite)
  less : to_send p ≤ to_send q

todo_way :
    (s : ConnState) (x : Peer) → (s ≡ conn_write) ⊎ (s ≡ conn_mwrite) → todo_of s x ≡ to_send x
todo_way s x (inl e) = ap (λ t. todo_of t x) e
todo_way s x (inr e) = ap (λ t. todo_of t x) e

follows :
    (s : ConnState) (u : Substate)
    → follows_answer s ≡ true
    → (is_client s ≡ true) × (stage_of s u < 4)
follows s u e = (ground (arith, e), ground (arith, e))

after_items_follows :
    (x : Protocol) (s : ConnState)
    → follows_answer s ≡ true
    → follows_answer (after_items x s) ≡ true
after_items_follows ascii_prot s e = refl
after_items_follows binary_prot s e = e
after_items_follows negotiating_prot s e = refl

complete_write-Fine : (s : ConnState) (p q : Peer) → Sending q p → Fine q (complete_write s p)
unfolding complete_write conn_release_items
complete_write-Fine conn_mwrite p q f =
    let t =
      follows (after_items p.protocol p.write_and_go) p.substate
        (after_items_follows p.protocol p.write_and_go f.same.live.onward) in
    stage-Down (record { client = t.0; onward = f.same.live.onward }) (omega (arith, t.1, f.four))
complete_write-Fine conn_write p q f =
    let t = follows p.write_and_go p.substate f.same.live.onward in
    stage-Down (record { client = t.0; onward = f.same.live.onward }) (omega (arith, t.1, f.four))
complete_write-Fine _ p q f = closes-Fine f.same.live (omega (arith, f.four))

length-drop : (n : ℕ) (xs : List ℕ) → length (drop n xs) ≡ length xs - n
length-drop zero xs = omega arith
length-drop (suc n) [] = omega arith
length-drop (suc n) (x ∷ xs) = omega (arith, length-drop n xs)

-- `sendmsg` has taken some bytes
taken :
    (n : ℕ) (m : List (List ℕ)) (ms : List (List (List ℕ)))
    → suc n ≤ length (joined m)
    → length (all_bytes (consume (suc n) m ∷ ms)) < length (all_bytes (m ∷ ms))
taken n m ms h = omega (
  arith,
  length-append (joined (consume (suc n) m)) (all_bytes ms),
  length-append (joined m) (all_bytes ms),
  ap length (joined-consume (suc n) m),
  length-drop (suc n) (joined m),
)

sent_message-Fine :
    (b : Bool) (p q : Peer) (m : List (List ℕ)) (ms : List (List (List ℕ))) (r : Sent)
    → Sending q p
    → p.pending ≡ m ∷ ms
    → ((n : ℕ) → r ≡ wrote n → n ≤ length (joined m))
    → Fine q (transmit_round (sent_message b p m ms r).0 (sent_message b p m ms r).1)
unfolding sent_message transmit_round
sent_message-Fine b p q m ms (wrote zero) f e small =
    closes-Fine f.same.live (omega (arith, f.four))
sent_message-Fine b p q m ms (wrote (suc n)) f e small =
    todo-Down (record { client = f.same.live.client; onward = f.same.live.onward })
      (Same-stage f.same)
      (omega (
        arith,
        taken n m ms (small (suc n) refl),
        f.less,
        f.todo,
        ap length (ap all_bytes e),
        todo_way p.state
            (record p {
              pending = consume (suc n) m ∷ ms;
              sent = p.sent ++ take (suc n) (joined m);
            })
            f.way,
      ))
sent_message-Fine true p q m ms would_block f e small = tt
sent_message-Fine false p q m ms would_block f e small =
    closes-Fine f.same.live (omega (arith, f.four))
sent_message-Fine b p q m ms broken f e small = closes-Fine f.same.live (omega (arith, f.four))

-- the message at the front of the list is another one with the same bytes
transmit_next-Fine :
    {k : Kernel}
    → IsHonest k
    → (p q : Peer) (ms : List (List (List ℕ))) → Sending q p
    → all_bytes ms ≡ all_bytes p.pending
    → Fine q (transmit_round (transmit_next k p ms).0 (transmit_next k p ms).1)
unfolding transmit_next transmit_round
transmit_next-Fine honest p q [] f e =
    complete_write-Fine p.state (record p { pending = [] }) q
      (record {
        same = record {
          state = f.same.state;
          substate = f.same.substate;
          live = record { client = f.same.live.client; onward = f.same.live.onward };
        };
        four = f.four;
        todo = f.todo;
        way = f.way;
        less = omega (arith, f.less);
      })
transmit_next-Fine {k} honest p q (m ∷ ms) f e =
    sent_message-Fine k.update_event (record p { pending = m ∷ ms }) q m ms
      (k.send (length (joined m)))
      (record {
        same = record {
          state = f.same.state;
          substate = f.same.substate;
          live = record { client = f.same.live.client; onward = f.same.live.onward };
        };
        four = f.four;
        todo = f.todo;
        way = f.way;
        less = omega (arith, f.less, ap length e);
      })
      refl (λ n a. honest.sends (length (joined m)) n a)

write-Sending : {k : Kernel} → IsHonest k → (p q : Peer) → Sending q p → Fine q (write_round k p)
unfolding write_round transmit
write-Sending honest p q f =
    transmit_next-Fine honest p q (skip_sent p.pending) f (all_bytes-skip_sent p.pending)

Sending-refl :
    (p : Peer) → IsLive p → (p.state ≡ conn_write) ⊎ (p.state ≡ conn_mwrite) → Sending p p
Sending-refl p live way = record {
  same = Same-refl live;
  four = ground (arith, way);
  todo = todo_way p.state p way;
  way = way;
  less = omega arith;
}

-- `conn_mwrite`
pub mwrite-Fine :
    {k : Kernel}
    → IsHonest k
    → (p : Peer) → IsLive p
    → p.state ≡ conn_mwrite
    → Fine p (write_round k p)
mwrite-Fine honest p live e = write-Sending honest p p (Sending-refl p live (inr e))

length-joined_snoc :
    (v : List ℕ) (m : List (List ℕ))
    → length (joined (m ++ (v ∷ []))) ≡ length (joined m) + length v
length-joined_snoc v [] = omega (arith, length-append v [])
length-joined_snoc v (x ∷ m) = omega (
  arith,
  length-joined_snoc v m,
  length-append x (joined (m ++ (v ∷ []))),
  length-append x (joined m),
)

length-add_part :
    (v : List ℕ) (ms : List (List (List ℕ)))
    → length (all_bytes (add_part v ms)) ≤ length v + length (all_bytes ms)
unfolding add_part
length-add_part v [] = omega arith
length-add_part v (m ∷ []) = omega (
  arith,
  length-joined_snoc v m,
  length-append (joined (m ++ (v ∷ []))) [],
  length-append (joined m) [],
)
length-add_part v (m ∷ m' ∷ ms) = omega (
  arith,
  length-add_part v (m' ∷ ms),
  length-append (joined m) (all_bytes (add_part v (m' ∷ ms))),
  length-append (joined m) (all_bytes (m' ∷ ms)),
)

listed-Sending :
    (p : Peer) → IsLive p → p.state ≡ conn_write → p.iovused ≡ 0 → Sending p (with_answer p)
unfolding add_part
listed-Sending p live e z = record {
  same = record {
    state = refl;
    substate = refl;
    live = record { client = live.client; onward = live.onward };
  };
  four = ap (λ s. stage_of s p.substate) e;
  todo = todo_way p.state p (inl e);
  way = inl e;
  less = ground (arith, z, length-add_part p.wbuf p.pending);
}

listed-Fine :
    (b : Bool) {k : Kernel}
    → IsHonest k
    → (p : Peer) → IsLive p
    → p.state ≡ conn_write
    → p.iovused ≡ 0
    → Fine p (listed_round b k p)
unfolding listed_round
listed-Fine true honest p live e z =
    write-Sending honest (with_answer p) p (listed-Sending p live e z)
listed-Fine false honest p live e z = closes-Fine live (ground (arith, e))

answer_first :
    (k : Kernel) (p : Peer) → (p.iovused == 0) ≡ true → answer_round k p ≡ listed_round k.built k p
unfolding answer_round
answer_first k p e = rw e

answer_later :
    (k : Kernel) (p : Peer) → (p.iovused == 0) ≡ false → answer_round k p ≡ write_round k p
unfolding answer_round
answer_later k p e = rw e

-- `conn_write`
pub answer-Fine :
    {k : Kernel}
    → IsHonest k
    → (p : Peer) → IsLive p
    → p.state ≡ conn_write
    → Fine p (answer_round k p)
answer-Fine {k} honest p live e = elim (Bool-cases (p.iovused == 0)) [
  | inl none_yet ↦
      subst (Fine p) (sym (answer_first k p none_yet))
        (listed-Fine k.built honest p live e (ground (arith, none_yet)))
  | inr some_yet ↦
      subst (Fine p) (sym (answer_later k p some_yet))
        (write-Sending honest p p (Sending-refl p live (inl e)))
]
