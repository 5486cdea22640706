-- ===== src/Drive/Receive/Stream.antt =====
-- The bytes that `conn_nread` and `conn_swallow` of `drive_machine` read, over all their rounds.
use log_memcached.Base.{
  ℕ, zero, suc, ◌+◌, ◌-◌, ◌≤◌, ◌<◌, ◌≡◌, refl, sym, ap, ap₂, ◌∙◌, Bool, true, false, List, [], ◌++◌,
  length, take, drop, length-append, take-append, drop-append, take-drop, length-take, drop_past,
  arith,
}
use mathlib.Core.List.{append_assoc, append-nil}
use mathlib.Core.Path.{subst}
use log_memcached.Ascii.Time.{ℤ, pos, negsuc}
use log_memcached.Drive.{Peer, Kernel, Received, got, end_of_stream, again, failed, IsHonest}
use log_memcached.Drive.Receive.{
  close_next, wait_for, Round, goes_on, stops, completes, to_copy, take_leftovers, item_read,
  read_rest, nread_at, nread_round,
}

abbrev pub wanted : ℤ → ℕ
wanted (pos n) = n
wanted (negsuc n) = 0

abbrev pub bytes_of : Received → List ℕ
bytes_of (got bytes) = bytes
bytes_of _ = []

-- what comes from the socket where `n` bytes are missing
abbrev pub from_socket : Kernel → ℕ → List ℕ
from_socket k zero = []
from_socket k (suc n) = bytes_of (k.read 0 (suc n))

-- what comes from the socket in a round of `conn_nread`
abbrev pub arrived : Kernel → Peer → List ℕ
arrived k p = from_socket k (wanted p.rlbytes - length p.unread)

-- The bytes go to the item in their order, none is lost and none is read twice.
pub record Kept (p : Peer) (bytes : List ℕ) (q : Peer) : Type 0 where
  pub stream : q.received ++ q.unread ≡ p.received ++ p.unread ++ bytes
  pub count : length q.received + wanted q.rlbytes ≡ length p.received + wanted p.rlbytes

to_copy_le : (n : ℕ) (xs : List ℕ) → (to_copy n xs ≤ n) × (to_copy n xs ≤ length xs)
to_copy_le n xs = (ground arith, ground arith)

to_copy_rest : (n : ℕ) (xs : List ℕ) → to_copy n xs + (n - length xs) ≡ n
to_copy_rest n xs = ground arith

-- where bytes are still missing nothing is left over
drop-to_copy : (n : ℕ) (xs : List ℕ) → length xs ≤ n → drop (to_copy n xs) xs ≡ []
drop-to_copy n xs h = drop_past (to_copy n xs) xs (ground arith)

take_leftovers-Kept : (n : ℕ) (p : Peer) → p.rlbytes ≡ pos n → Kept p [] (take_leftovers n p)
unfolding take_leftovers
take_leftovers-Kept n p e =
    let t : ℕ = to_copy n p.unread in
    let fits : length (take t p.unread) ≡ t = length-take t p.unread (to_copy_le n p.unread).1 in
    record {
      stream =
          append_assoc p.received (take t p.unread) (drop t p.unread)
          ∙ ap (λ l. p.received ++ l) (take-drop t p.unread)
          ∙ sym (append-nil (p.received ++ p.unread));
      count = omega (
        arith,
        length-append p.received (take t p.unread),
        fits,
        (to_copy_le n p.unread).0,
        ap wanted e,
      );
    }

Kept-Kept : {p q r : Peer} (xs ys : List ℕ) → Kept p xs q → Kept q ys r → Kept p (xs ++ ys) r
Kept-Kept {p} xs ys f g = record {
  stream = g.stream ∙ ap (λ l. l ++ ys) f.stream ∙ append_assoc (p.received ++ p.unread) xs ys;
  count = g.count ∙ f.count;
}

Kept-refl : (p : Peer) → Kept p [] p
Kept-refl p = record { stream = sym (append-nil (p.received ++ p.unread)); count = refl }

-- A round goes on with the connection, or leaves it for the next event.
abbrev pub Leads : Round → Peer → Type 0
Leads (goes_on p) q = p ≡ q
Leads (stops p) q = p ≡ q
Leads _ q = ⊥

-- a round that only closes the connection reads nothing
Untouched : Peer → Peer → Type 0
Untouched p q = (q.received ≡ p.received) × (q.unread ≡ p.unread) × (q.rlbytes ≡ p.rlbytes)

Untouched-Kept : (p q : Peer) → Untouched p q → Kept p [] q
unfolding Untouched
Untouched-Kept p q (r, u, w) = record {
  stream = ap₂ (λ a b. a ++ b) r u ∙ sym (append-nil (p.received ++ p.unread));
  count = ap₂ (λ a b. length a + wanted b) r w;
}

close-Untouched : (p q : Peer) → Leads (close_next p) q → Untouched p q
unfolding Untouched
close-Untouched p q e = ground (arith, e)

leads-Untouched : (p q : Peer) → p ≡ q → Untouched p q
unfolding Untouched
leads-Untouched p q e = ground (arith, e)

wait-Untouched : (b : Bool) (p q : Peer) → Leads (wait_for b p) q → Untouched p q
wait-Untouched true p q e = leads-Untouched p q e
wait-Untouched false p q e = close-Untouched p q e

-- the bytes of a read
got-Kept :
    (n : ℕ) (p q : Peer) (bytes : List ℕ)
    → p.unread ≡ []
    → p.rlbytes ≡ pos n
    → length bytes ≤ n
    → q.received ≡ p.received ++ bytes
    → q.unread ≡ p.unread
    → q.rlbytes ≡ pos (n - length bytes)
    → Kept p bytes q
got-Kept n p q bytes empty w small r u v = record {
  stream =
      ap₂ (λ a b. a ++ b) r (u ∙ empty)
      ∙ append-nil (p.received ++ bytes)
      ∙ ap (λ l. l ++ bytes) (sym (append-nil p.received) ∙ ap (λ l. p.received ++ l) (sym empty));
  count = omega (arith, ap length r, ap wanted v, ap wanted w, length-append p.received bytes);
}

item_read-Kept :
    (b : Bool) (n : ℕ) (p q : Peer) (r : Received)
    → p.unread ≡ []
    → p.rlbytes ≡ pos n
    → ((bytes : List ℕ) → r ≡ got bytes → length bytes ≤ n)
    → Leads (item_read b n p r) q
    → Kept p (bytes_of r) q
unfolding item_read
item_read-Kept b n p q (got bytes) e w small made =
    got-Kept n p q bytes e w (small bytes refl) (ground (arith, made)) (ground (arith, made))
      (ground (arith, made))
item_read-Kept b n p q end_of_stream e w small made = Untouched-Kept p q (close-Untouched p q made)
item_read-Kept b n p q again e w small made = Untouched-Kept p q (wait-Untouched b p q made)
item_read-Kept b n p q failed e w small made = Untouched-Kept p q (close-Untouched p q made)

read_rest-Kept :
    {k : Kernel}
    → IsHonest k
    → (n : ℕ) (p q : Peer) → (0 < n → p.unread ≡ [])
    → p.rlbytes ≡ pos n
    → Leads (read_rest k n p) q
    → Kept p (from_socket k n) q
unfolding read_rest
read_rest-Kept honest zero p q e w made = Untouched-Kept p q (leads-Untouched p q made)
read_rest-Kept {k} honest (suc n) p q e w made =
    item_read-Kept k.update_event (suc n) p q (k.read 0 (suc n)) (e (omega arith)) w
      (λ bytes a. (honest.reads 0 (suc n) bytes a).1) made

leftovers_used : (n : ℕ) (p : Peer) → 0 < n - length p.unread → (take_leftovers n p).unread ≡ []
unfolding take_leftovers
leftovers_used n p h = drop-to_copy n p.unread (omega arith)

pub take_leftovers_rest :
    (n : ℕ) (p : Peer) → (take_leftovers n p).rlbytes ≡ pos (n - length p.unread)
unfolding take_leftovers
take_leftovers_rest n p = ap pos (ground arith)

nread_at-Kept :
    {k : Kernel}
    → IsHonest k
    → (z : ℤ) (p q : Peer) → p.rlbytes ≡ z
    → Leads (nread_at k z p) q
    → Kept p (from_socket k (wanted z - length p.unread)) q
unfolding nread_at
nread_at-Kept {k} honest (negsuc m) p q e made =
    subst (λ n. Kept p (from_socket k n) q) {x = 0} (omega arith)
      (Untouched-Kept p q (close-Untouched p q made))
nread_at-Kept honest (pos zero) p q e made = absurd made
nread_at-Kept {k} honest (pos (suc n)) p q e made =
    let left : ℕ = suc n - length p.unread in
    Kept-Kept [] (from_socket k left) (take_leftovers-Kept (suc n) p e) (
      read_rest-Kept honest left (take_leftovers (suc n) p) q (leftovers_used (suc n) p)
        (take_leftovers_rest (suc n) p) made)

-- A round of `conn_nread` that goes on, or waits for the socket.
pub nread_round-Kept :
    {k : Kernel} → IsHonest k → (p q : Peer) → Leads (nread_round k p) q → Kept p (arrived k p) q
unfolding nread_round
nread_round-Kept honest p q made = nread_at-Kept honest p.rlbytes p q refl made

-- The rounds of `conn_nread` from one connection to another, those that wait for the socket too,
-- with what came from it.
pub data Reads : Peer → List ℕ → Peer → Type 0 where
  begun : (p : Peer) → Reads p [] p
  another :
      {p q r : Peer} {bytes : List ℕ} {k : Kernel}
      → IsHonest k
      → Reads p bytes q
      → Leads (nread_round k q) r
      → Reads p (bytes ++ arrived k q) r

Reads-Kept : {p q : Peer} {bytes : List ℕ} → Reads p bytes q → Kept p bytes q
Reads-Kept (begun p) = Kept-refl p
Reads-Kept (another {p} {q} {r} {bytes} {k} honest before made) =
    Kept-Kept bytes (arrived k q) (Reads-Kept before) (nread_round-Kept honest q r made)

nread_at-completes :
    (k : Kernel) (z : ℤ) (p q : Peer) → nread_at k z p ≡ completes q → (p ≡ q) × (z ≡ pos 0)
unfolding nread_at read_rest item_read
nread_at-completes k (negsuc m) p q made = absurd (ground (arith, made))
nread_at-completes k (pos zero) p q made = (ground (arith, made), refl)
nread_at-completes k (pos (suc n)) p q made = absurd (ground (arith, made))

nread_round-completes :
    (k : Kernel) (p q : Peer) → nread_round k p ≡ completes q → (p ≡ q) × (p.rlbytes ≡ pos 0)
unfolding nread_round
nread_round-completes k p q made = nread_at-completes k p.rlbytes p q made

-- Where a value of n bytes is to be read and the rounds of conn_nread, those that find nothing on
-- the socket and wait for it included, with a kernel that gives no more than it is asked for, come
-- to a round in which the command is carried out, the bytes read for the value are the first n of
-- the unread ones followed by those that came from the socket, and the bytes left unread are the
-- others.
pub Reads-completes :
    {p q r : Peer} {bytes : List ℕ} (k : Kernel) (n : ℕ)
    → p.received ≡ []
    → p.rlbytes ≡ pos n
    → Reads p bytes q
    → nread_round k q ≡ completes r
    → (r.received ≡ take n (p.unread ++ bytes)) × (r.unread ≡ drop n (p.unread ++ bytes))
Reads-completes {p} {q} {r} {bytes} k n e w before made =
    let kept = Reads-Kept before in
    let (same, done) = nread_round-completes k q r made in
    let whole : q.received ++ q.unread ≡ p.unread ++ bytes =
      kept.stream ∙ ap (λ l. l ++ p.unread ++ bytes) e in
    let all : n ≡ length q.received =
      omega (arith, kept.count, ap wanted done, ap length e, ap wanted w) in
    (
      ap (λ x. x.received) (sym same)
          ∙ sym (take-append q.received q.unread n all)
          ∙ ap (take n) whole,
      ap (λ x. x.unread) (sym same)
          ∙ sym (drop-append q.received q.unread n all)
          ∙ ap (drop n) whole,
    )
