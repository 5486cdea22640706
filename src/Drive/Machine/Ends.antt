-- ===== src/Drive/Machine/Ends.antt =====
-- The loop of `drive_machine`, whatever the client sends and the kernel answers.
use log_memcached.Base.{
  ℕ, zero, suc, ◌-◌, ◌*◌, ◌<◌, ◌≡◌, refl, ap, ◌∙◌, Bool, true, false, Option, none, some, List, [],
  ◌∷◌, length, leb, arith, ◌⊎◌, inl, inr, ◌==◌, if◌then◌else◌,
}
use log_memcached.Ascii.Conn.{
  ConnState, conn_listening, conn_new_cmd, conn_waiting, conn_read, conn_parse_cmd, conn_write,
  conn_nread, conn_swallow, conn_closing, conn_mwrite, conn_closed, conn_watch, conn_max_state,
}
use log_memcached.Drive.{got, end_of_stream, again, failed, Received, Peer, Kernel, IsHonest}
use log_memcached.Drive.Receive.{wait_for, Round, goes_on, stops, completes, aborts, accepts}
use log_memcached.Drive.Machine.{Commands}
use log_memcached.Drive.Machine.Progress.{
  stage, todo, is_client, follows_answer, IsLive, IsLawful, Fine, stage-Down, set_state,
  closes-Fine, wait_for-Fine,
}
use log_memcached.Drive.{reset_cmd_handler, conn_shrink}
use log_memcached.Drive.Receive.{
  ReadResult, read_data_received, read_no_data_received, read_error, read_memory_error, read_full,
  try_read_network, append_read, so_far, network_read, with_room, grown,
}
use log_memcached.Drive.Machine.{
  read_result, read_round, new_cmd_round, wait_round, parse_result, state_round, round, returned,
  drive_machine, proceed,
}
use log_memcached.Drive.Machine.Reading.{nread-Fine, swallow-Fine}
use log_memcached.Drive.Machine.Writing.{mwrite-Fine, answer-Fine}

-- induction on three numbers, the first one counting most
module _ {A : Type 0} (f g h : A → ℕ) where
  abbrev pub Below : A → A → Type 0
  Below b a = (f b < f a) ⊎ ((f b ≡ f a) × ((g b < g a) ⊎ ((g b ≡ g a) × (h b < h a))))

  below_rec :
      (P : A → Type 0)
      → ((a : A) → ((b : A) → Below b a → P b) → P a)
      → (x y z : ℕ) (a : A) → f a < x
      → g a < y
      → h a < z
      → P a
  below_rec P step zero y z a i j k = absurd (omega arith)
  below_rec P step (suc x) zero z a i j k = absurd (omega arith)
  below_rec P step (suc x) (suc y) zero a i j k = absurd (omega arith)
  below_rec P step (suc x) (suc y) (suc z) a i j k = step a (λ b lower. elim lower [
    | inl first ↦
        below_rec P step x (suc (g b)) (suc (h b)) b (omega arith) (omega arith) (omega arith)
    | inr (same, inl second) ↦
        below_rec P step (suc x) y (suc (h b)) b (omega arith) (omega arith) (omega arith)
    | inr (same, inr (alike, third)) ↦
        below_rec P step (suc x) (suc y) z b (omega arith) (omega arith) (omega arith)
  ])

  below_ind : (P : A → Type 0) → ((a : A) → ((b : A) → Below b a → P b) → P a) → (a : A) → P a
  below_ind P step a =
      below_rec P step (suc (f a)) (suc (g a)) (suc (h a)) a (omega arith) (omega arith)
        (omega arith)

-- what `try_read_network` leaves of a connection
record Taken (x : ReadResult × Peer) : Type 0 where
  onward : follows_answer x.1.write_and_go ≡ true
  error : x.0 ≡ read_memory_error → x.1.state ≡ conn_write

-- both branches of a test
either : (b : Bool) (x y : ReadResult × Peer) → Taken x → Taken y → Taken (if b then x else y)
either true x y f g = f
either false x y f g = g

no_error :
    (r : ReadResult) (q : Peer)
    → follows_answer q.write_and_go ≡ true
    → ¬ (r ≡ read_memory_error)
    → Taken (r, q)
no_error r q e other = record { onward = e; error = λ x. absurd (other x) }

so_far_lem : (gotdata : Bool) → ¬ (so_far gotdata ≡ read_memory_error)
so_far_lem true x = absurd (ground (arith, x))
so_far_lem false x = absurd (ground (arith, x))

network_read-Taken :
    (gotdata : Bool) (avail : ℕ) (p : Peer) (filled : Peer → ReadResult × Peer) (r : Received)
    → follows_answer p.write_and_go ≡ true
    → ((q : Peer) → follows_answer q.write_and_go ≡ true → Taken (filled q))
    → Taken (network_read gotdata avail p filled r)
unfolding network_read
network_read-Taken gotdata avail p filled (got bytes) e rest =
    either (length bytes == avail) (filled (append_read p bytes))
      (read_data_received, append_read p bytes) (rest (append_read p bytes) e)
      (no_error read_data_received (append_read p bytes) e (λ x. absurd (ground (arith, x))))
network_read-Taken gotdata avail p filled end_of_stream e rest =
    no_error read_error p e (λ x. absurd (ground (arith, x)))
network_read-Taken gotdata avail p filled again e rest =
    no_error (so_far gotdata) p e (so_far_lem gotdata)
network_read-Taken gotdata avail p filled failed e rest =
    no_error read_error p e (λ x. absurd (ground (arith, x)))

with_room-Taken :
    (b : Bool) (p : Peer) (next : ReadResult × Peer) → Taken next → Taken (with_room b p next)
with_room-Taken true p next t = t
with_room-Taken false p next t = record { onward = refl; error = λ x. refl }

read_full-Taken :
    (k : Kernel) (gotdata : Bool) (allocs : ℕ) (p : Peer)
    → follows_answer p.write_and_go ≡ true
    → Taken (read_full k gotdata allocs p)
unfolding read_full
read_full-Taken k gotdata zero p e = no_error (so_far gotdata) p e (so_far_lem gotdata)
read_full-Taken k gotdata (suc allocs) p e =
    let avail : ℕ = p.rsize * 2 - length p.unread in
    let r : Received = k.read (suc allocs) avail in
    with_room-Taken (k.room allocs) p
      (network_read gotdata avail (grown p) (λ q. read_full k true allocs q) r)
      (network_read-Taken gotdata avail (grown p) (λ q. read_full k true allocs q) r e
        (λ q f. read_full-Taken k true allocs q f))

try_read_network-Taken :
    (k : Kernel) (p : Peer) → follows_answer p.write_and_go ≡ true → Taken (try_read_network k p)
unfolding try_read_network
try_read_network-Taken k p e =
    let p₁ : Peer = record p { rcurr = 0 } in
    let avail : ℕ = p.rsize - length p.unread in
    either (leb p.rsize (length p.unread)) (read_full k false 4 p₁)
      (network_read false avail p₁ (λ q. read_full k true 4 q) (k.read 0 avail))
      (read_full-Taken k false 4 p₁ e)
      (network_read-Taken false avail p₁ (λ q. read_full k true 4 q) (k.read 0 avail) e
        (λ q f. read_full-Taken k true 4 q f))

read_result-Fine :
    (p q : Peer) (r : ReadResult) → Taken (r, q) → p.state ≡ conn_read → Fine p (read_result r q)
unfolding read_result
read_result-Fine p q read_no_data_received t e =
    stage-Down (record { client = refl; onward = t.onward }) (ground (arith, e))
read_result-Fine p q read_data_received t e =
    stage-Down (record { client = refl; onward = t.onward }) (ground (arith, e))
read_result-Fine p q read_error t e =
    stage-Down (record { client = refl; onward = t.onward }) (ground (arith, e))
read_result-Fine p q read_memory_error t e =
    stage-Down (record { client = ap is_client (t.error refl); onward = t.onward })
      (ground (arith, e, t.error refl))

read-Fine : (k : Kernel) (p : Peer) → IsLive p → p.state ≡ conn_read → Fine p (read_round k p)
unfolding read_round
read-Fine k p live e = read_result-Fine p _ _ (try_read_network-Taken k p live.onward) e

-- a round that goes on takes a request, or comes nearer to the end of the one at hand
abbrev Better : ℕ → Peer → ℕ × Round → Type 0
Better n p (m, goes_on q) =
    IsLive q
    × ((m < n) ⊎ ((m ≡ n) × ((stage q < stage p) ⊎ ((stage q ≡ stage p) × (todo q < todo p)))))
Better n p (m, stops q) = Unit {0}
Better n p (m, _) = ⊥

Fine-Better : (n : ℕ) (p : Peer) (r : Round) → Fine p r → Better n p (n, r)
Fine-Better n p (goes_on q) f = (f.live, inr (refl, f.down))
Fine-Better n p (stops q) f = tt
Fine-Better n p (completes q) f = f
Fine-Better n p aborts f = f
Fine-Better n p accepts f = f

reset-IsLive : (k : Kernel) (p : Peer) → IsLive p → IsLive (reset_cmd_handler k p)
unfolding reset_cmd_handler conn_shrink
reset-IsLive k p live = record {
  client = ground (arith, live);
  onward = ground (arith, live.onward);
}

wait-Better :
    (p : Peer) (unread : List ℕ) (b : Bool)
    → IsLive p
    → p.state ≡ conn_new_cmd
    → Better 0 p (0, elim unread [ [] ↦ stops p | _ ∷ _ ↦ wait_for b p ])
wait-Better p [] b live e = tt
wait-Better p (x ∷ xs) b live e =
    Fine-Better 0 p (wait_for b p) (wait_for-Fine b p p live (ground (arith, e)))

new_cmd-Better :
    (k : Kernel) (n : ℕ) (p : Peer)
    → IsLive p
    → p.state ≡ conn_new_cmd
    → Better n p (new_cmd_round k n p)
unfolding new_cmd_round
new_cmd-Better k zero p live e = wait-Better p p.unread k.update_event live e
new_cmd-Better k (suc n) p live e = (reset-IsLive k p live, inl (omega arith))

wait_round-Fine :
    (b : Bool) (p : Peer) → IsLive p → p.state ≡ conn_waiting → Fine p (wait_round b p)
unfolding wait_round
wait_round-Fine true p live e = tt
wait_round-Fine false p live e = closes-Fine live (ground (arith, e))

module _ {commands : Commands} (lawful : IsLawful commands) {k : Kernel} (honest : IsHonest k) where
  parse_result-Fine :
      (p : Peer) (r : Option Peer)
      → IsLive p
      → p.state ≡ conn_parse_cmd
      → commands.parse k p ≡ r
      → Fine p (parse_result p r)
  unfolding parse_result
  parse_result-Fine p none live e made =
      stage-Down (set_state p conn_waiting live refl) (ground (arith, e))
  parse_result-Fine p (some q) live e made =
      let left = lawful.parses k p q live e made in stage-Down left.0 left.1

  -- every round of a connection with a client
  state_round-Better :
      (s : ConnState) (n : ℕ) (p : Peer)
      → IsLive p
      → p.state ≡ s
      → Better n p (state_round commands k s n p)
  unfolding state_round
  state_round-Better conn_listening n p live e = absurd (ground (arith, e, live.client))
  state_round-Better conn_new_cmd n p live e = new_cmd-Better k n p live e
  state_round-Better conn_waiting n p live e =
      Fine-Better n p _ (wait_round-Fine k.update_event p live e)
  state_round-Better conn_read n p live e = Fine-Better n p _ (read-Fine k p live e)
  state_round-Better conn_parse_cmd n p live e =
      Fine-Better n p _ (parse_result-Fine p (commands.parse k p) live e refl)
  state_round-Better conn_write n p live e = Fine-Better n p _ (answer-Fine honest p live e)
  state_round-Better conn_nread n p live e = Fine-Better n p _ (nread-Fine lawful honest p live e)
  state_round-Better conn_swallow n p live e = Fine-Better n p _ (swallow-Fine honest p live e)
  state_round-Better conn_closing n p live e = tt
  state_round-Better conn_mwrite n p live e = Fine-Better n p _ (mwrite-Fine honest p live e)
  state_round-Better conn_closed n p live e = absurd (ground (arith, e, live.client))
  state_round-Better conn_watch n p live e = tt
  state_round-Better conn_max_state n p live e = absurd (ground (arith, e, live.client))

-- the loop returns, with some fuel
abbrev Returns : Commands → (ℕ → Kernel) → ℕ → Peer → Type 0
Returns commands answers nreqs p =
    (fuel : ℕ) × (q : Peer) × (drive_machine fuel commands answers nreqs p ≡ some (returned q))

abbrev Settles : Commands → ℕ × Peer → Type 0
Settles commands (nreqs, p) =
    IsLive p
    → (answers : ℕ → Kernel) → ((i : ℕ) → IsHonest (answers i))
    → Returns commands answers nreqs p

module _ {commands : Commands} (lawful : IsLawful commands) where
  follow :
      (n : ℕ) (p : Peer) (x : ℕ × Round) (answers : ℕ → Kernel)
      → ((i : ℕ) → IsHonest (answers i))
      → round commands (answers 0) n p ≡ x
      → Better n p x
      → ((b : ℕ × Peer)
          → Below (λ a. a.0) (λ a. stage a.1) (λ a. todo a.1) b (n, p)
          → Settles commands b)
      → Returns commands answers n p
  unfolding drive_machine proceed
  follow n p (m, goes_on q) answers honest made better step =
      let (fuel, r, done) =
        step (m, q) better.1 better.0 (λ i. answers (suc i)) (λ i. honest (suc i)) in
      (
        suc fuel,
        r,
        ap (proceed (λ n' q'. drive_machine fuel commands (λ i. answers (suc i)) n' q')) made
            ∙ done,
      )
  follow n p (m, stops q) answers honest made better step =
      (1, q, ap (proceed (λ n' q'. none)) made)
  follow n p (m, completes q) answers honest made better step = elim better [ ]
  follow n p (m, aborts) answers honest made better step = elim better [ ]
  follow n p (m, accepts) answers honest made better step = elim better [ ]

  settles :
      (a : ℕ × Peer)
      → ((b : ℕ × Peer)
          → Below (λ a. a.0) (λ a. stage a.1) (λ a. todo a.1) b a
          → Settles commands b)
      → Settles commands a
  unfolding round
  settles (n, p) step live answers honest =
      follow n p (round commands (answers 0) n p) answers honest refl
        (state_round-Better lawful (honest 0) p.state n p live refl) step

-- For commands that leave a connection nearer to the end of its request, kernel calls that give a
-- byte at least and no more than they are asked for, and a client connection that is not closed
-- and whose answers are followed by the next command, by swallowing or by closing, there is a fuel
-- with which drive_machine returns, whatever the kernel answers in each round.
pub drive_machine-returns :
    (commands : Commands) (answers : ℕ → Kernel) (nreqs : ℕ) (p : Peer)
    → IsLawful commands
    → ((i : ℕ) → IsHonest (answers i))
    → IsLive p
    → (fuel : ℕ) × (q : Peer) × (drive_machine fuel commands answers nreqs p ≡ some (returned q))
drive_machine-returns commands answers nreqs p lawful honest live =
    below_ind (λ a. a.0) (λ a. stage a.1) (λ a. todo a.1) (Settles commands) (settles lawful)
      (nreqs, p) live answers honest
