-- ===== src/Drive/Receive.antt =====
-- memcached.c: what is read from the socket, `try_read_network`, `bin_read_key` and the states
-- `conn_nread` and `conn_swallow` of `drive_machine`.
pub mod Stream
pub mod Room
use log_memcached.Base.{
  ℕ, zero, suc, ◌+◌, ◌-◌, ◌*◌, Bool, true, false, Option, none, some, List, [], ◌∷◌, ◌++◌, length,
  take, drop, ltb, leb, ◌==◌, if◌then◌else◌,
}
use log_memcached.Base.Text.{codes}
use log_memcached.Binary.{Substate}
use log_memcached.Ascii.Time.{ℤ, pos, negsuc}
use log_memcached.Ascii.Conn.{
  ConnState, conn_new_cmd, conn_nread, conn_closing, conn_write, conn_mwrite, line_end,
}
use log_memcached.Drive.{Peer, Kernel, Received, got, end_of_stream, again, failed}

-- `try_read_result`
pub data ReadResult : Type 0 where
  read_data_received : ReadResult
  read_no_data_received : ReadResult
  read_error : ReadResult
  read_memory_error : ReadResult

-- what one round of the loop does: it goes on, it leaves the loop, the command is complete, or the
-- process ends; what a listening connection does is not told
pub data Round : Type 0 where
  goes_on : Peer → Round
  stops : Peer → Round
  completes : Peer → Round
  aborts : Round
  accepts : Round

-- the connection is closed in the next round
abbrev pub close_next : Peer → Round
close_next p = goes_on (record p { state = conn_closing })

-- EAGAIN: wait for the socket
abbrev pub wait_for : Bool → Peer → Round
wait_for true p = stops p
wait_for false p = close_next p

-- what is there before the read
abbrev pub so_far : Bool → ReadResult
so_far true = read_data_received
so_far false = read_no_data_received

-- the bytes of a read at the end of the buffer
abbrev pub append_read : Peer → List ℕ → Peer
append_read p bytes = record p { unread = p.unread ++ bytes }

-- the answer to a client for which there is no memory, the error of the protocol not being told
abbrev pub no_memory_to_read : Peer → Peer
no_memory_to_read p = record p {
  unread = [];
  state = conn_write;
  wbuf = codes "SERVER_ERROR out of memory reading request" ++ line_end;
  pending = [] ∷ [];
  iovused = 0;
  write_and_go = conn_closing;
}

-- What is done with the answer to the read of `avail` bytes; `filled` is the rest of the loop, for a
-- buffer that is full.
unfoldable pub network_read :
    Bool → ℕ → Peer → (Peer → ReadResult × Peer) → Received → ReadResult × Peer
network_read gotdata avail p filled (got bytes) =
    if length bytes == avail
    then filled (append_read p bytes)
    else (read_data_received, append_read p bytes)
network_read gotdata avail p filled end_of_stream = (read_error, p)
network_read gotdata avail p filled again = (so_far gotdata, p)
network_read gotdata avail p filled failed = (read_error, p)

-- whether `realloc` has made room
abbrev pub with_room : Bool → Peer → ReadResult × Peer → ReadResult × Peer
with_room true p next = next
with_room false p next = (read_memory_error, no_memory_to_read p)

-- a buffer of twice the size
abbrev pub grown : Peer → Peer
grown p = record p { rsize = p.rsize * 2; rcurr = 0 }

-- The loop of `try_read_network` where the buffer is full; `allocs` is what is left of the four.
unfoldable pub read_full : Kernel → Bool → ℕ → Peer → ReadResult × Peer
unfolding network_read
read_full k gotdata zero p = (so_far gotdata, p)
read_full k gotdata (suc allocs) p =
    let avail = p.rsize * 2 - length p.unread in
    with_room (k.room allocs) p (
      network_read gotdata avail (grown p) (λ q. read_full k true allocs q)
        (k.read (suc allocs) avail))

-- `try_read_network`, with the error of the text protocol where there is no memory
unfoldable pub try_read_network : Kernel → Peer → ReadResult × Peer
unfolding read_full network_read
try_read_network k p =
    let p₁ : Peer = record p { rcurr = 0 } in
    let avail = p.rsize - length p.unread in
    if leb p.rsize (length p.unread)
    then read_full k false 4 p₁
    else network_read false avail p₁ (λ q. read_full k true 4 q) (k.read 0 avail)

-- `tocopy`: what is wanted, or all that is left
abbrev pub to_copy : ℕ → List ℕ → ℕ
to_copy n unread = if ltb n (length unread) then n else length unread

-- the leftovers of the buffer go to the item
unfoldable pub take_leftovers : ℕ → Peer → Peer
take_leftovers n p =
    let tocopy = to_copy n p.unread in
    record p {
      received = p.received ++ take tocopy p.unread;
      rlbytes = pos (n - tocopy);
      rcurr = p.rcurr + tocopy;
      unread = drop tocopy p.unread;
    }

-- what is done with the answer to the read of `n` bytes in `conn_nread`
unfoldable pub item_read : Bool → ℕ → Peer → Received → Round
item_read readable n p (got bytes) = goes_on (record p {
  received = p.received ++ bytes;
  rlbytes = pos (n - length bytes);
  rcurr = (if p.in_buffer then p.rcurr + length bytes else p.rcurr);
})
item_read readable n p end_of_stream = close_next p
item_read readable n p again = wait_for readable p
item_read readable n p failed = close_next p

-- the rest of the round, once the leftovers have been taken
unfoldable pub read_rest : Kernel → ℕ → Peer → Round
unfolding item_read
read_rest k zero p = goes_on p
read_rest k (suc n) p = item_read k.update_event (suc n) p (k.read 0 (suc n))

-- `conn_nread`, for a number of bytes
unfoldable pub nread_at : Kernel → ℤ → Peer → Round
unfolding take_leftovers read_rest
nread_at k (negsuc _) p = close_next p
nread_at k (pos zero) p = completes p
nread_at k (pos (suc n)) p = read_rest k (suc n - length p.unread) (take_leftovers (suc n) p)

-- the state `conn_nread` of `drive_machine`
unfoldable pub nread_round : Kernel → Peer → Round
unfolding nread_at
nread_round k p = nread_at k p.rlbytes p

-- the leftovers of the buffer are thrown away
unfoldable pub drop_leftovers : Peer → Peer
drop_leftovers p =
    let tocopy = to_copy p.sbytes p.unread in
    record p { sbytes = p.sbytes - tocopy; rcurr = p.rcurr + tocopy; unread = drop tocopy p.unread }

-- what is done with the answer to a read in `conn_swallow`
unfoldable pub swallow_read : Bool → Peer → Received → Round
swallow_read readable p (got bytes) = goes_on (record p { sbytes = p.sbytes - length bytes })
swallow_read readable p end_of_stream = close_next p
swallow_read readable p again = wait_for readable p
swallow_read readable p failed = close_next p

-- the bytes that `conn_swallow` asks for
abbrev pub swallow_size : Peer → ℕ
swallow_size p = if ltb p.sbytes p.rsize then p.sbytes else p.rsize

-- `conn_swallow`, where there are bytes to be thrown away
unfoldable pub swallow_some : Kernel → Peer → List ℕ → Round
unfolding drop_leftovers swallow_read
swallow_some k p [] = swallow_read k.update_event p (k.read 0 (swallow_size p))
swallow_some k p (b ∷ bs) = goes_on (drop_leftovers p)

-- the state `conn_swallow` of `drive_machine`
unfoldable pub swallow_round : Kernel → Peer → Round
unfolding swallow_some
swallow_round k p =
    if p.sbytes == 0 then goes_on (record p { state = conn_new_cmd }) else swallow_some k p p.unread

-- `while (size > nsize) nsize *= 2`, on fuel
unfoldable pub double : ℕ → ℕ → ℕ → ℕ
double zero size nsize = nsize
double (suc fuel) size nsize =
    let more = double fuel size (nsize * 2) in if ltb nsize size then more else nsize

-- `bin_read_key`, where `unread` begins with the header of the request
unfoldable pub bin_read_key : Kernel → Substate → ℕ → ℕ → Peer → Peer
unfolding double
bin_read_key k next_substate keylen extra p =
    let p₁ : Peer = record p { substate = next_substate; rlbytes = pos (keylen + extra) } in
    let ready : Peer = record p₁ { received = []; in_buffer = true; state = conn_nread } in
    let size = keylen + extra + 24 in
    if ltb p.rsize (p.rcurr + 24 + (keylen + extra))
    then (let nsize = double size size p.rsize in
        if nsize == p.rsize
        then record ready { rcurr = 0 }
        else if k.room 0
        then record ready { rcurr = 0; rsize = nsize }
        else record p₁ { state = conn_closing })
    else ready
