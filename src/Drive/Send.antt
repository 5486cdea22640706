-- ===== src/Drive/Send.antt =====
-- memcached.c: `transmit`, and the states `conn_write` and `conn_mwrite` of `drive_machine`. A part
-- of a message is the bytes that its `iovec` stands for.
pub mod Order
use log_memcached.Base.{
  ℕ, zero, suc, ◌+◌, ◌-◌, Bool, true, false, List, [], ◌∷◌, ◌++◌, length, take, drop, ltb, leb,
  ◌==◌, if◌then◌else◌,
}
use log_memcached.Ascii.Conn.{ConnState, conn_new_cmd, conn_closing, conn_write, conn_mwrite}
use log_memcached.Ascii.Buffer.{Protocol, ascii_prot, binary_prot, negotiating_prot}
use log_memcached.Drive.{Peer, Kernel, Sent, wrote, would_block, broken, conn_release_items}
use log_memcached.Drive.Receive.{Round, goes_on, stops, aborts, close_next}

-- `transmit_result`
pub data TransmitResult : Type 0 where
  transmit_complete : TransmitResult
  transmit_incomplete : TransmitResult
  transmit_soft_error : TransmitResult
  transmit_hard_error : TransmitResult

-- the bytes of the parts of a message, in their order
abbrev pub joined : List (List ℕ) → List ℕ
joined [] = []
joined (v ∷ vs) = v ++ joined vs

-- The parts that `res` bytes cover are done, and the next one is cut.
unfoldable pub consume : ℕ → List (List ℕ) → List (List ℕ)
consume res [] = []
consume res (v ∷ vs) =
    let rest = consume (res - length v) vs in
    if leb (length v) res then rest else if ltb 0 res then drop res v ∷ vs else v ∷ vs

-- a message whose parts are all done makes room for the next
unfoldable pub skip_sent : List (List (List ℕ)) → List (List (List ℕ))
skip_sent [] = []
skip_sent ([] ∷ ms) = ms
skip_sent (m ∷ ms) = m ∷ ms

-- what is done with the answer of `sendmsg` for the message at the front
unfoldable pub sent_message :
    Bool → Peer → List (List ℕ) → List (List (List ℕ)) → Sent → TransmitResult × Peer
unfolding consume
sent_message writable p m ms (wrote zero) = (transmit_hard_error, record p { state = conn_closing })
sent_message writable p m ms (wrote (suc n)) = (
  transmit_incomplete,
  record p { pending = consume (suc n) m ∷ ms; sent = p.sent ++ take (suc n) (joined m) },
)
sent_message true p m ms would_block = (transmit_soft_error, p)
sent_message false p m ms would_block = (transmit_hard_error, record p { state = conn_closing })
sent_message writable p m ms broken = (transmit_hard_error, record p { state = conn_closing })

-- `transmit` behind its first test
unfoldable pub transmit_next : Kernel → Peer → List (List (List ℕ)) → TransmitResult × Peer
unfolding sent_message
transmit_next k p [] = (transmit_complete, record p { pending = [] })
transmit_next k p (m ∷ ms) =
    sent_message k.update_event (record p { pending = m ∷ ms }) m ms (k.send (length (joined m)))

-- `transmit`
unfoldable pub transmit : Kernel → Peer → TransmitResult × Peer
unfolding skip_sent transmit_next
transmit k p = transmit_next k p (skip_sent p.pending)

-- the state after the answer to a command with items
abbrev pub after_items : Protocol → ConnState → ConnState
after_items binary_prot write_and_go = write_and_go
after_items _ write_and_go = conn_new_cmd

-- everything has been sent
unfoldable pub complete_write : ConnState → Peer → Round
unfolding conn_release_items
complete_write conn_mwrite p =
    goes_on (record (conn_release_items p) { state = after_items p.protocol p.write_and_go })
complete_write conn_write p = goes_on (record p { state = p.write_and_go })
complete_write _ p = close_next p

-- what is done with the result of `transmit`
unfoldable pub transmit_round : TransmitResult → Peer → Round
unfolding complete_write
transmit_round transmit_complete p = complete_write p.state p
transmit_round transmit_incomplete p = goes_on p
transmit_round transmit_hard_error p = goes_on p
transmit_round transmit_soft_error p = stops p

-- the state `conn_mwrite`, and the end of `conn_write`
unfoldable pub write_round : Kernel → Peer → Round
unfolding transmit transmit_round
write_round k p = let (result, q) = transmit k p in transmit_round result q

-- one part more at the end of the last message
unfoldable pub add_part : List ℕ → List (List (List ℕ)) → List (List (List ℕ))
add_part v [] = []
add_part v (m ∷ []) = (m ++ (v ∷ [])) ∷ []
add_part v (m ∷ m' ∷ ms) = m ∷ add_part v (m' ∷ ms)

-- the answer of `out_string` is in the list
abbrev pub with_answer : Peer → Peer
with_answer p = record p { pending = add_part p.wbuf p.pending; iovused = p.iovused + 1 }

-- the answer is in the list, or `add_iov` has failed
unfoldable pub listed_round : Bool → Kernel → Peer → Round
unfolding write_round add_part
listed_round true k p = write_round k (with_answer p)
listed_round false k p = close_next p

-- the state `conn_write`, with the answer in one part
unfoldable pub answer_round : Kernel → Peer → Round
unfolding write_round listed_round
answer_round k p = if p.iovused == 0 then listed_round k.built k p else write_round k p
