-- ===== src/Drive/Machine/Progress.antt =====
-- How far a connection is from the end of a request, and the rounds of `drive_machine` that bring it
-- nearer.
use log_memcached.Base.{
  ℕ, ◌+◌, ◌<◌, ◌≡◌, refl, ap₂, Bool, true, false, some, length, ◌⊎◌, inl, inr, ◌==◌, if◌then◌else◌,
}
use log_memcached.Binary.{Substate, reading_set_header, reading_sasl_auth}
use log_memcached.Ascii.Conn.{
  ConnState, conn_listening, conn_new_cmd, conn_waiting, conn_read, conn_parse_cmd, conn_write,
  conn_nread, conn_swallow, conn_closing, conn_mwrite, conn_closed, conn_max_state,
}
use log_memcached.Drive.{Peer, Kernel}
use log_memcached.Drive.Receive.{close_next, wait_for, Round, goes_on, stops}
use log_memcached.Drive.Receive.Stream.{wanted}
use log_memcached.Drive.Machine.{Commands}
use log_memcached.Drive.Send.Order.{all_bytes}

-- a request in the binary protocol is read in two parts where a value or a login follows the key
abbrev pub parts_left : Substate → ℕ
parts_left reading_set_header = 1
parts_left reading_sasl_auth = 1
parts_left _ = 0

-- how far a request is from its end
abbrev pub stage_of : ConnState → Substate → ℕ
stage_of conn_read s = 8
stage_of conn_parse_cmd s = 7
stage_of conn_nread s = 5 + parts_left s
stage_of conn_write s = 4
stage_of conn_mwrite s = 4
stage_of conn_swallow s = 3
stage_of conn_new_cmd s = 2
stage_of conn_waiting s = 1
stage_of _ s = 0

abbrev pub stage : Peer → ℕ
stage p = stage_of p.state p.substate

-- the bytes of the answer that are not yet in the list
abbrev pub unlisted : Peer → ℕ
unlisted p = if p.iovused == 0 then length p.wbuf else 0

-- the bytes that a state still has to read or to send
abbrev pub todo_of : ConnState → Peer → ℕ
todo_of conn_nread p = wanted p.rlbytes
todo_of conn_swallow p = p.sbytes
todo_of conn_write p = unlisted p + length (all_bytes p.pending)
todo_of conn_mwrite p = unlisted p + length (all_bytes p.pending)
todo_of _ p = 0

abbrev pub todo : Peer → ℕ
todo p = todo_of p.state p

-- the states of a connection with a client that has not been closed
abbrev pub is_client : ConnState → Bool
is_client conn_listening = false
is_client conn_closed = false
is_client conn_max_state = false
is_client _ = true

-- the states that follow an answer
abbrev pub follows_answer : ConnState → Bool
follows_answer conn_new_cmd = true
follows_answer conn_swallow = true
follows_answer conn_closing = true
follows_answer _ = false

pub record IsLive (p : Peer) : Type 0 where
  pub client : is_client p.state ≡ true
  pub onward : follows_answer p.write_and_go ≡ true

-- A round that does not take a new request comes closer to the end of the one at hand.
pub record Down (p q : Peer) : Type 0 where
  pub live : IsLive q
  pub down : (stage q < stage p) ⊎ ((stage q ≡ stage p) × (todo q < todo p))

-- What a command leaves is nearer to the end of the request.
pub record IsLawful (commands : Commands) : Type 0 where
  pub parses :
      (k : Kernel) (p q : Peer)
      → IsLive p
      → p.state ≡ conn_parse_cmd
      → commands.parse k p ≡ some q
      → IsLive q × (stage q < stage p)
  pub ends :
      (k : Kernel) (p : Peer)
      → IsLive p
      → p.state ≡ conn_nread
      → IsLive (commands.complete k p) × (stage (commands.complete k p) < stage p)

-- what a round comes to
abbrev pub Fine : Peer → Round → Type 0
Fine p (goes_on q) = Down p q
Fine p (stops q) = Unit {0}
Fine p _ = ⊥

pub stage-Down : {p q : Peer} → IsLive q → stage q < stage p → Down p q
stage-Down live lower = record { live = live; down = inl lower }

pub todo-Down : {p q : Peer} → IsLive q → stage q ≡ stage p → todo q < todo p → Down p q
todo-Down live same lower = record { live = live; down = inr (same, lower) }

-- a change of the state that keeps `write_and_go`
pub set_state :
    (p : Peer) (s : ConnState) → IsLive p → is_client s ≡ true → IsLive (record p { state = s })
set_state p s live e = record { client = e; onward = live.onward }

pub closes-Fine : {p q : Peer} → IsLive p → 0 < stage q → Fine q (close_next p)
closes-Fine {p} live busy = stage-Down (set_state p conn_closing live refl) busy

pub wait_for-Fine : (b : Bool) (p q : Peer) → IsLive p → 0 < stage q → Fine q (wait_for b p)
wait_for-Fine true p q live busy = tt
wait_for-Fine false p q live busy = closes-Fine live busy

-- what a round has done so far leaves the state alone
pub record Same (q p : Peer) : Type 0 where
  pub state : p.state ≡ q.state
  pub substate : p.substate ≡ q.substate
  pub live : IsLive p

pub Same-refl : {p : Peer} → IsLive p → Same p p
Same-refl live = record { state = refl; substate = refl; live = live }

pub Same-stage : {q p : Peer} → Same q p → stage p ≡ stage q
Same-stage same = ap₂ stage_of same.state same.substate
