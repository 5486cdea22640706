-- ===== src/Drive/Machine/Reading.antt =====
-- The rounds of `drive_machine` that read from the socket bring a request nearer to its end.
use log_memcached.Base.{
  ℕ, zero, suc, ◌-◌, ◌≤◌, ◌<◌, ◌≡◌, refl, sym, ap, Bool, true, false, List, [], ◌∷◌, length, arith,
  inl, inr, Bool-cases, ◌==◌,
}
use mathlib.Core.Path.{subst}
use log_memcached.Ascii.Time.{ℤ, pos, negsuc}
use log_memcached.Ascii.Conn.{conn_new_cmd, conn_nread, conn_swallow}
use log_memcached.Drive.{got, end_of_stream, again, failed, Received, Peer, Kernel, IsHonest}
use log_memcached.Drive.Receive.{
  read_rest, nread_at, nread_round, swallow_read, swallow_some, swallow_round, swallow_size,
  drop_leftovers, take_leftovers, item_read, Round, goes_on, stops, completes, aborts, accepts,
}
use log_memcached.Drive.Receive.Stream.{wanted, take_leftovers_rest}
use log_memcached.Drive.Machine.{Commands, carry_out}
use log_memcached.Drive.Machine.Progress.{
  IsLive, IsLawful, Fine, stage-Down, todo-Down, set_state, closes-Fine, wait_for-Fine, Same,
  Same-stage,
}

item_read-Fine :
    (b : Bool) (n : ℕ) (p q : Peer) (r : Received)
    → Same q p
    → 0 < n
    → q.state ≡ conn_nread
    → n ≤ wanted q.rlbytes
    → ((bytes : List ℕ) → r ≡ got bytes → 0 < length bytes)
    → Fine q (item_read b n p r)
unfolding item_read
item_read-Fine b n p q (got bytes) same busy e small more =
    todo-Down (record { client = same.live.client; onward = same.live.onward }) (Same-stage same)
      (ground (arith, e, same.state, small, more bytes refl))
item_read-Fine b n p q end_of_stream same busy e small more =
    closes-Fine same.live (ground (arith, e))
item_read-Fine b n p q again same busy e small more =
    wait_for-Fine b p q same.live (ground (arith, e))
item_read-Fine b n p q failed same busy e small more = closes-Fine same.live (ground (arith, e))

read_rest-Fine :
    {k : Kernel}
    → IsHonest k
    → (n : ℕ) (p q : Peer) → Same q p
    → q.state ≡ conn_nread
    → n ≤ wanted q.rlbytes
    → wanted p.rlbytes ≡ n
    → 0 < wanted q.rlbytes
    → Fine q (read_rest k n p)
unfolding read_rest
read_rest-Fine honest zero p q same e small w busy =
    todo-Down (record { client = same.live.client; onward = same.live.onward }) (Same-stage same)
      (ground (arith, e, same.state, w))
read_rest-Fine {k} honest (suc n) p q same e small w busy =
    item_read-Fine k.update_event (suc n) p q (k.read 0 (suc n)) same (omega arith) e small
      (λ bytes a. (honest.reads 0 (suc n) bytes a).0)

take_leftovers-Same : (n : ℕ) (p : Peer) → IsLive p → Same p (take_leftovers n p)
unfolding take_leftovers
take_leftovers-Same n p live = record {
  state = refl;
  substate = refl;
  live = record { client = live.client; onward = live.onward };
}

-- a round of `conn_nread`, with the command that is carried out at its end
module _ {commands : Commands} (lawful : IsLawful commands) {k : Kernel} (honest : IsHonest k) where
  carry_out-Fine : (p : Peer) (r : Round) → Fine p r → Fine p (carry_out commands k r)
  unfolding carry_out
  carry_out-Fine p (goes_on q) fine = fine
  carry_out-Fine p (stops q) fine = fine
  carry_out-Fine p (completes q) fine = elim fine [ ]
  carry_out-Fine p aborts fine = elim fine [ ]
  carry_out-Fine p accepts fine = elim fine [ ]

  nread_at-Fine :
      (z : ℤ) (p : Peer)
      → IsLive p
      → p.state ≡ conn_nread
      → p.rlbytes ≡ z
      → Fine p (carry_out commands k (nread_at k z p))
  unfolding nread_at carry_out
  nread_at-Fine (negsuc n) p live e w = closes-Fine live (ground (arith, e))
  nread_at-Fine (pos zero) p live e w =
      let left = lawful.ends k p live e in stage-Down left.0 left.1
  nread_at-Fine (pos (suc n)) p live e w =
      let size : wanted p.rlbytes ≡ suc n = ap wanted w in
      carry_out-Fine p _ (
        read_rest-Fine honest (suc n - length p.unread) (take_leftovers (suc n) p) p
          (take_leftovers-Same (suc n) p live) e (omega arith)
          (ap wanted (take_leftovers_rest (suc n) p)) (omega arith))

-- `conn_nread`
pub nread-Fine :
    {commands : Commands}
    → IsLawful commands
    → {k : Kernel} → IsHonest k
    → (p : Peer) → IsLive p
    → p.state ≡ conn_nread
    → Fine p (carry_out commands k (nread_round k p))
unfolding nread_round
nread-Fine lawful honest p live e = nread_at-Fine lawful honest p.rlbytes p live e refl

swallow_read-Fine :
    (b : Bool) (p : Peer) (r : Received)
    → IsLive p
    → p.state ≡ conn_swallow
    → 0 < p.sbytes
    → ((bytes : List ℕ) → r ≡ got bytes → 0 < length bytes)
    → Fine p (swallow_read b p r)
unfolding swallow_read
swallow_read-Fine b p (got bytes) live e busy more =
    todo-Down (record { client = live.client; onward = live.onward }) refl
      (ground (arith, e, busy, more bytes refl))
swallow_read-Fine b p end_of_stream live e busy more = closes-Fine live (ground (arith, e))
swallow_read-Fine b p again live e busy more = wait_for-Fine b p p live (ground (arith, e))
swallow_read-Fine b p failed live e busy more = closes-Fine live (ground (arith, e))

swallow_some-Fine :
    {k : Kernel}
    → IsHonest k
    → (p : Peer) (unread : List ℕ) → IsLive p
    → p.state ≡ conn_swallow
    → 0 < p.sbytes
    → p.unread ≡ unread
    → Fine p (swallow_some k p unread)
unfolding swallow_some drop_leftovers
swallow_some-Fine {k} honest p [] live e busy u =
    swallow_read-Fine k.update_event p (k.read 0 (swallow_size p)) live e busy
      (λ bytes a. (honest.reads 0 (swallow_size p) bytes a).0)
swallow_some-Fine honest p (b ∷ bs) live e busy u =
    todo-Down (record { client = live.client; onward = live.onward }) refl
      (ground (arith, e, busy, ap length u))

swallow_over :
    (k : Kernel) (p : Peer)
    → (p.sbytes == 0) ≡ true
    → swallow_round k p ≡ goes_on (record p { state = conn_new_cmd })
unfolding swallow_round
swallow_over k p e = rw e

swallow_on :
    (k : Kernel) (p : Peer)
    → (p.sbytes == 0) ≡ false
    → swallow_round k p ≡ swallow_some k p p.unread
unfolding swallow_round
swallow_on k p e = rw e

-- `conn_swallow`
pub swallow-Fine :
    {k : Kernel}
    → IsHonest k
    → (p : Peer) → IsLive p
    → p.state ≡ conn_swallow
    → Fine p (swallow_round k p)
unfolding swallow_round
swallow-Fine {k} honest p live e = elim (Bool-cases (p.sbytes == 0)) [
  | inl empty ↦
      subst (Fine p) (sym (swallow_over k p empty))
        (stage-Down (set_state p conn_new_cmd live refl) (ground (arith, e)))
  | inr more ↦
      subst (Fine p) (sym (swallow_on k p more))
        (swallow_some-Fine honest p p.unread live e (ground (arith, more)) refl)
]
