-- ===== src/Drive/Machine.antt =====
-- memcached.c: the loop of `drive_machine` over the states of a connection with a client. What the
-- commands do is an argument: `parse` is `try_read_command`, and `complete` is `complete_nread`.
pub mod Progress
pub mod Reading
pub mod Writing
pub mod Ends
use log_memcached.Base.{
  ℕ, zero, suc, if◌then◌else◌, Bool, true, false, Option, none, some, List, [], ◌∷◌,
}
use log_memcached.Ascii.Conn.{
  ConnState, conn_listening, conn_new_cmd, conn_waiting, conn_read, conn_parse_cmd, conn_write,
  conn_nread, conn_swallow, conn_closing, conn_mwrite, conn_closed, conn_watch, conn_max_state,
}
use log_memcached.Drive.{Peer, Kernel, reset_cmd_handler, conn_release_items}
use log_memcached.Drive.Receive.{
  ReadResult, read_data_received, read_no_data_received, read_error, read_memory_error, Round,
  goes_on, stops, completes, aborts, accepts, close_next, wait_for, try_read_network, nread_round,
  swallow_round,
}
use log_memcached.Drive.Send.{write_round, answer_round}

-- what is done with the result of `try_read_network`
unfoldable pub read_result : ReadResult → Peer → Round
read_result read_no_data_received q = goes_on (record q { state = conn_waiting })
read_result read_data_received q = goes_on (record q { state = conn_parse_cmd })
read_result read_error q = goes_on (record q { state = conn_closing })
read_result read_memory_error q = goes_on q

-- `conn_read`
unfoldable pub read_round : Kernel → Peer → Round
unfolding read_result try_read_network
read_round k p = let (result, q) = try_read_network k p in read_result result q

-- `conn_new_cmd`, with what is left of `nreqs`
unfoldable pub new_cmd_round : Kernel → ℕ → Peer → ℕ × Round
unfolding reset_cmd_handler
new_cmd_round k zero p = (0, elim p.unread [ [] ↦ stops p | _ ∷ _ ↦ wait_for k.update_event p ])
new_cmd_round k (suc nreqs) p = (nreqs, goes_on (reset_cmd_handler k p))

-- `conn_close`, as far as it goes through the connection's own fields
unfoldable pub conn_close : Peer → Peer
unfolding conn_release_items
conn_close p = record (conn_release_items p) { state = conn_closed }

-- the commands of a protocol
pub record Commands : Type 0 where
  pub parse : Kernel → Peer → Option Peer
  pub complete : Kernel → Peer → Peer

-- `conn_waiting`
unfoldable pub wait_round : Bool → Peer → Round
wait_round true p = stops (record p { state = conn_read })
wait_round false p = close_next p

-- what is done with the result of `try_read_command`
unfoldable pub parse_result : Peer → Option Peer → Round
parse_result p none = goes_on (record p { state = conn_waiting })
parse_result p (some q) = goes_on q

module _ (commands : Commands) (k : Kernel) where
  -- a command whose bytes are all there is carried out
  unfoldable pub carry_out : Round → Round
  carry_out (goes_on q) = goes_on q
  carry_out (stops q) = stops q
  carry_out (completes q) = goes_on (commands.complete k q)
  carry_out aborts = aborts
  carry_out accepts = accepts

  -- the switch over the states, for a connection that is not a listening one; `n` is what is left of
  -- `settings.reqs_per_event`
  unfoldable pub state_round : ConnState → ℕ → Peer → ℕ × Round
  unfolding read_round nread_round swallow_round write_round answer_round conn_close wait_round
      parse_result carry_out new_cmd_round
  state_round conn_listening n p = (n, accepts)
  state_round conn_new_cmd n p = new_cmd_round k n p
  state_round conn_waiting n p = (n, wait_round k.update_event p)
  state_round conn_read n p = (n, read_round k p)
  state_round conn_parse_cmd n p = (n, parse_result p (commands.parse k p))
  state_round conn_write n p = (n, answer_round k p)
  state_round conn_nread n p = (n, carry_out (nread_round k p))
  state_round conn_swallow n p = (n, swallow_round k p)
  state_round conn_closing n p = (n, stops (conn_close p))
  state_round conn_mwrite n p = (n, write_round k p)
  state_round conn_closed n p = (n, aborts)
  state_round conn_watch n p = (n, stops p)
  state_round conn_max_state n p = (n, aborts)

  -- one round of the loop
  unfoldable pub round : ℕ → Peer → ℕ × Round
  unfolding state_round
  round nreqs p = state_round p.state nreqs p

-- how the loop is left
pub data Left : Type 0 where
  returned : Peer → Left
  aborted : Left

-- what follows a round
unfoldable pub proceed : (ℕ → Peer → Option Left) → ℕ × Round → Option Left
proceed next (n, goes_on q) = next n q
proceed next (n, stops q) = some (returned q)
proceed next (n, _) = some aborted

-- `drive_machine`, on fuel, with the answers of each round
unfoldable pub drive_machine : ℕ → Commands → (ℕ → Kernel) → ℕ → Peer → Option Left
unfolding round proceed
drive_machine zero commands answers nreqs p = none
drive_machine (suc fuel) commands answers nreqs p =
    proceed (λ n q. drive_machine fuel commands (λ i. answers (suc i)) n q)
      (round commands (answers 0) nreqs p)
