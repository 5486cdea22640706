-- ===== src/Drive/Tests.antt =====
-- The theorems on the rounds of `drive_machine` at a connection whose value comes in pieces and
-- at one whose answer goes out in pieces.
use log_memcached.Base.{
  ◌+◌, ◌≤◌, ◌≡◌, refl, true, [], ◌∷◌, ◌++◌, arith, leb, if◌then◌else◌, take, drop,
}
use log_memcached.Binary.{reading_get_key}
use log_memcached.Ascii.Time.{pos}
use log_memcached.Ascii.Conn.{conn_new_cmd, conn_nread, conn_mwrite, conn_read}
use log_memcached.Ascii.Buffer.{ascii_prot}
use log_memcached.Drive.{conn_new, Peer, Kernel, IsHonest, got, again, wrote}
use log_memcached.Drive.Receive.{nread_round, bin_read_key}
use log_memcached.Drive.Receive.Room.{bin_read_key-fits}
use log_memcached.Drive.Receive.Stream.{begun, another, Reads-completes}
use log_memcached.Drive.Send.{transmit}
use log_memcached.Drive.Send.Order.{Transmits, all_bytes, Transmits-sent}
use log_memcached.Drive.Send.Order

abbrev idle : Peer
idle =
    record (conn_new conn_new_cmd 2048 ascii_prot (record {
      opcode = 0;
      keylen = 1;
      extlen = 0;
      bodylen = 1;
      opaque = 1 ∷ 2 ∷ 3 ∷ 4 ∷ [];
      cas = 0;
    })) { state = conn_read }

-- a socket that gives two bytes where two are asked for, and takes up to two
abbrev kernel : Kernel
kernel = record {
  update_event = true;
  read = λ i n. if leb 2 n then got (8 ∷ 9 ∷ []) else again;
  room = λ i. true;
  send = λ n. wrote (if leb 2 n then 2 else n);
  built = true;
}

kernel-IsHonest : IsHonest kernel
kernel-IsHonest = record {
  reads = λ i n bytes e. (ground (arith, e), ground (arith, e));
  sends = λ n m e. ground (arith, e);
}

-- three bytes are wanted, and one is there
abbrev reading : Peer
reading = record idle { state = conn_nread; unread = 7 ∷ []; rlbytes = pos 3 }

abbrev read_up : Peer
read_up = record idle { state = conn_nread; received = 7 ∷ 8 ∷ 9 ∷ []; rcurr = 1; rlbytes = pos 0 }

-- a socket that has nothing
abbrev silent : Kernel
silent = record kernel { read = λ i n. again }

silent-IsHonest : IsHonest silent
silent-IsHonest = record {
  reads = λ i n bytes e. absurd (ground (arith, e));
  sends = λ n m e. ground (arith, e);
}

-- the leftover has been taken, and the socket is waited for
abbrev waiting : Peer
waiting = record idle { state = conn_nread; received = 7 ∷ []; rcurr = 1; rlbytes = pos 2 }

Reads-completes_example :
    (read_up.received ≡ take 3 (7 ∷ 8 ∷ 9 ∷ [])) × (read_up.unread ≡ drop 3 (7 ∷ 8 ∷ 9 ∷ []))
unfolding nread_round
Reads-completes_example =
    Reads-completes kernel 3 refl refl
      (another {p = reading} {q = waiting} {r = read_up} {bytes = []} {k = kernel} kernel-IsHonest
        (another {p = reading} {q = reading} {r = waiting} {bytes = []} {k = silent} silent-IsHonest
          (begun reading) refl)
        refl)
      refl

-- an answer of two parts
abbrev sending : Peer
sending = record idle { state = conn_mwrite; pending = ((1 ∷ []) ∷ (2 ∷ 3 ∷ []) ∷ []) ∷ [] }

Transmits-sent_example :
    (transmit kernel (transmit kernel (transmit kernel sending).1).1).1.sent
    ≡ [] ++ all_bytes sending.pending
unfolding transmit
Transmits-sent_example = Transmits-sent (
    Order.again kernel sending (
      Order.again kernel (transmit kernel sending).1
        (Order.last kernel (transmit kernel (transmit kernel sending).1).1 refl)))

-- a key of five bytes and the header do not fit into sixteen bytes
bin_read_key-fits_example :
    (bin_read_key kernel reading_get_key 5 0 (record idle { rsize = 16 })).rcurr + 24 + (5 + 0)
    ≤ (bin_read_key kernel reading_get_key 5 0 (record idle { rsize = 16 })).rsize
unfolding bin_read_key
bin_read_key-fits_example =
    bin_read_key-fits kernel reading_get_key 5 0 (record idle { rsize = 16 }) (omega arith) refl
