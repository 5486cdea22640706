-- ===== src/Drive/Receive/Room.antt =====
-- The buffer of a connection: what `bin_read_key` and `try_read_network` keep inside it.
use log_memcached.Base.{
  ℕ, zero, suc, ◌+◌, ◌-◌, ◌*◌, ◌≤◌, ◌<◌, ◌≡◌, refl, ap, Bool, true, false, List, length,
  length-append, leb, ◌==◌, arith, if◌then◌else◌,
}
use log_memcached.Binary.{Substate}
use log_memcached.Ascii.Conn.{conn_nread}
use log_memcached.Drive.{Peer, Kernel, Received, got, end_of_stream, again, failed, IsHonest}
use log_memcached.Drive.Receive.{
  ReadResult, append_read, network_read, with_room, grown, read_full, try_read_network, double,
  bin_read_key,
}

-- the doubling comes up to the size that is wanted
double-enough :
    (fuel size nsize : ℕ) → 0 < nsize → size ≤ fuel + nsize → size ≤ double fuel size nsize
unfolding double
double-enough zero size nsize some_room h = omega (arith, h)
double-enough (suc fuel) size nsize some_room h =
    ground (arith, double-enough fuel size (nsize * 2) (omega arith) (omega arith), h)

-- For a buffer that is not empty, where bin_read_key goes on to read the extras and the key of a
-- request, they fit into the buffer behind the header of 24 bytes.
pub bin_read_key-fits :
    (k : Kernel) (next : Substate) (keylen extra : ℕ) (p : Peer)
    → 0 < p.rsize
    → (bin_read_key k next keylen extra p).state ≡ conn_nread
    → (bin_read_key k next keylen extra p).rcurr + 24 + (keylen + extra)
      ≤ (bin_read_key k next keylen extra p).rsize
unfolding bin_read_key
bin_read_key-fits k next keylen extra p some_room e =
    let size : ℕ = keylen + extra + 24 in
    let enough = double-enough size size p.rsize some_room (omega arith) in
    ground (arith, enough, e, some_room)

-- a buffer that has grown so many times
abbrev times : ℕ → ℕ → ℕ
times zero size = size
times (suc n) size = times n (size * 2)

-- The bytes stand at the start of a buffer that has room for them and is no larger than a bound.
pub record IsRoomy (bound : ℕ) (p : Peer) : Type 0 where
  pub start : p.rcurr ≡ 0
  pub inside : length p.unread ≤ p.rsize
  pub bounded : p.rsize ≤ bound

size_le_times : (n size : ℕ) → size ≤ times n size
size_le_times zero size = omega arith
size_le_times (suc n) size = omega (arith, size_le_times n (size * 2))

roomier : {n m : ℕ} {p : Peer} → n ≤ m → IsRoomy n p → IsRoomy m p
roomier h f = record { start = f.start; inside = f.inside; bounded = omega (arith, f.bounded, h) }

if-IsRoomy :
    {n : ℕ} (b : Bool) (x y : ReadResult × Peer)
    → IsRoomy n x.1
    → IsRoomy n y.1
    → IsRoomy n (if b then x else y).1
if-IsRoomy true x y g h = g
if-IsRoomy false x y g h = h

network_read-IsRoomy :
    (gotdata : Bool) (avail bound : ℕ) (p : Peer) (filled : Peer → ReadResult × Peer) (r : Received)
    → IsRoomy bound p
    → length p.unread + avail ≤ p.rsize
    → ((bytes : List ℕ) → r ≡ got bytes → length bytes ≤ avail)
    → ((q : Peer) → IsRoomy bound q → q.rsize ≡ p.rsize → IsRoomy bound (filled q).1)
    → IsRoomy bound (network_read gotdata avail p filled r).1
unfolding network_read
network_read-IsRoomy gotdata avail bound p filled (got bytes) f room small rest =
    let read : IsRoomy bound (append_read p bytes) = record {
      start = f.start;
      inside = omega (arith, length-append p.unread bytes, small bytes refl, room);
      bounded = f.bounded;
    } in
    if-IsRoomy (length bytes == avail) _ _ (rest (append_read p bytes) read refl) read
network_read-IsRoomy gotdata avail bound p filled end_of_stream f room small rest = f
network_read-IsRoomy gotdata avail bound p filled again f room small rest = f
network_read-IsRoomy gotdata avail bound p filled failed f room small rest = f

with_room-IsRoomy :
    (b : Bool) (bound : ℕ) (p : Peer) (next : ReadResult × Peer)
    → IsRoomy bound p
    → IsRoomy bound next.1
    → IsRoomy bound (with_room b p next).1
with_room-IsRoomy true bound p next f g = g
with_room-IsRoomy false bound p next f g = record {
  start = f.start;
  inside = omega arith;
  bounded = f.bounded;
}

read_full-IsRoomy :
    {k : Kernel}
    → IsHonest k
    → (gotdata : Bool) (allocs bound : ℕ) (p : Peer) → IsRoomy bound p
    → times allocs p.rsize ≤ bound
    → IsRoomy bound (read_full k gotdata allocs p).1
unfolding read_full
read_full-IsRoomy honest gotdata zero bound p f h = f
read_full-IsRoomy {k} honest gotdata (suc allocs) bound p f h =
    let avail : ℕ = p.rsize * 2 - length p.unread in
    let larger : IsRoomy bound (grown p) = record {
      start = refl;
      inside = omega (arith, f.inside);
      bounded = omega (arith, size_le_times allocs (p.rsize * 2), h);
    } in
    with_room-IsRoomy (k.room allocs) bound p
      (network_read gotdata avail (grown p) (λ q. read_full k true allocs q)
        (k.read (suc allocs) avail))
      f
      (network_read-IsRoomy gotdata avail bound (grown p) (λ q. read_full k true allocs q)
        (k.read (suc allocs) avail) larger (omega (arith, f.inside))
        (λ bytes e. (honest.reads (suc allocs) avail bytes e).1)
        (λ q g e.
          read_full-IsRoomy honest true allocs bound q g (omega (arith, ap (times allocs) e, h))))

-- For a kernel that gives no more than it is asked for and unread bytes that fit into the buffer,
-- the unread bytes after try_read_network stand at the start of the buffer and fit into it, and
-- the buffer has at most 16 times its size from before.
pub try_read_network-IsRoomy :
    (k : Kernel) (p : Peer)
    → IsHonest k
    → length p.unread ≤ p.rsize
    → IsRoomy (16 * p.rsize) (try_read_network k p).1
unfolding try_read_network
try_read_network-IsRoomy k p honest inside =
    let p₁ : Peer = record p { rcurr = 0 } in
    let avail : ℕ = p.rsize - length p.unread in
    let now : IsRoomy (16 * p.rsize) p₁ = record {
      start = refl;
      inside = inside;
      bounded = omega arith;
    } in
    if-IsRoomy (leb p.rsize (length p.unread)) (read_full k false 4 p₁)
      (network_read false avail p₁ (λ q. read_full k true 4 q) (k.read 0 avail))
      (read_full-IsRoomy honest false 4 (16 * p.rsize) p₁ now (omega arith))
      (network_read-IsRoomy false avail (16 * p.rsize) p₁ (λ q. read_full k true 4 q)
        (k.read 0 avail) now (omega (arith, inside)) (λ bytes e. (honest.reads 0 avail bytes e).1)
        (λ q g e. read_full-IsRoomy honest true 4 (16 * p.rsize) q g (omega (arith, e))))
