-- ===== src/Drive.antt =====
-- memcached.c: the connection of a client over TCP as `drive_machine` sees it, and what happens
-- between two requests: `conn_release_items`, `conn_shrink` and `reset_cmd_handler`.
pub mod Receive
pub mod Send
pub mod Machine
mod Tests
use log_memcached.Base.{
  ℕ, ◌+◌, ◌*◌, ◌≤◌, ◌<◌, ◌≡◌, Bool, true, false, ◌&&◌, Option, none, some, List, [], ◌∷◌, ◌++◌,
  length, ltb, if◌then◌else◌,
}
use log_memcached.Binary.{Opcode, Substate, no_state}
use log_memcached.Store.{Verb, Conn}
use log_memcached.Ascii.Time.{ℤ, pos}
use log_memcached.Ascii.Conn.{ConnState, ThreadStats, conn_parse_cmd, conn_waiting}
use log_memcached.Ascii.Buffer.{Protocol, BinaryHeader}

-- `c->cmd`: none, a command of the binary protocol, or the way of storing that it stands for
pub data Command : Type 0 where
  no_command : Command
  code : Opcode → Command
  nread : Verb → Command

-- The fields of `conn` that the states and the input and output work on. `unread` is the bytes from
-- `rcurr` on, which is an offset; `received` is the bytes of this read in front of `ritem`, and
-- `in_buffer` says that `ritem` is `rcurr`. `pending` is the messages from `msgcurr` on, and `sent`
-- what the kernel has taken. `released` is the calls of `item_remove`.
pub record Peer : Type 0 where
  pub state : ConnState
  pub substate : Substate
  pub protocol : Protocol
  pub unread : List ℕ
  pub rcurr : ℕ
  pub rsize : ℕ
  pub received : List ℕ
  pub in_buffer : Bool
  pub rlbytes : ℤ
  pub sbytes : ℕ
  pub wbuf : List ℕ
  pub write_and_go : ConnState
  pub pending : List (List (List ℕ))
  pub iovused : ℕ
  pub sent : List ℕ
  pub item : Option ℕ
  pub ilist : List ℕ
  pub isize : ℕ
  pub msgsize : ℕ
  pub iovsize : ℕ
  pub released : List ℕ
  pub binary_header : BinaryHeader
  pub cmd : Command
  pub noreply : Bool
  pub store : Conn
  pub stats : ThreadStats

-- the counters of a thread at its start
abbrev pub no_counts : ThreadStats
no_counts = record {
  set_cmds = λ _. 0;
  incr_misses = 0;
  decr_misses = 0;
  get_cmds = 0;
  get_hits = λ _. 0;
  get_misses = 0;
  touch_cmds = 0;
  touch_hits = λ _. 0;
  touch_misses = 0;
  delete_hits = λ _. 0;
  delete_misses = 0;
  flush_cmds = 0;
}

-- `conn_new`, for a header of a request that is not looked at and a thread without counts
abbrev pub conn_new : ConnState → ℕ → Protocol → BinaryHeader → Peer
conn_new init_state read_buffer_size protocol header = record {
  state = init_state;
  substate = no_state;
  protocol = protocol;
  unread = [];
  rcurr = 0;
  rsize = read_buffer_size;
  received = [];
  in_buffer = false;
  rlbytes = pos 0;
  sbytes = 0;
  wbuf = [];
  write_and_go = init_state;
  pending = [];
  iovused = 0;
  sent = [];
  item = none;
  ilist = [];
  isize = 200;
  msgsize = 10;
  iovsize = 400;
  released = [];
  binary_header = header;
  cmd = no_command;
  noreply = false;
  store = record { cas = 0; cas_misses = 0; cas_hits = λ _. 0; cas_badval = λ _. 0 };
  stats = no_counts;
}

-- what `read` and `sendmsg` answer; `again` is EAGAIN
pub data Received : Type 0 where
  got : (bytes : List ℕ) → Received
  end_of_stream : Received
  again : Received
  failed : Received

pub data Sent : Type 0 where
  wrote : ℕ → Sent
  would_block : Sent
  broken : Sent

-- What the kernel, libevent and the allocator answer in one round of the loop. `read i n` is the
-- answer to the `i`-th read, which asks for `n` bytes, `room i` says whether the `i`-th `realloc`
-- succeeds, and `built` whether `add_iov` does.
pub record Kernel : Type 0 where
  pub update_event : Bool
  pub read : ℕ → ℕ → Received
  pub room : ℕ → Bool
  pub send : ℕ → Sent
  pub built : Bool

-- DATA_BUFFER_SIZE
abbrev pub data_buffer_size : ℕ
data_buffer_size = 2048

-- READ_BUFFER_HIGHWAT
abbrev pub read_buffer_highwat : ℕ
read_buffer_highwat = 8192

-- a list that has grown past its mark is cut to its first size, if `realloc` succeeds
abbrev pub shrunk : ℕ → ℕ → Bool → ℕ → ℕ
shrunk highwat initial room size = if ltb highwat size && room then initial else size

-- `conn_shrink`
unfoldable pub conn_shrink : Kernel → Peer → Peer
conn_shrink k p =
    let lists = record p {
      isize = shrunk 400 200 (k.room 1) p.isize;
      msgsize = shrunk 100 10 (k.room 2) p.msgsize;
      iovsize = shrunk 600 400 (k.room 3) p.iovsize;
    } in
    if ltb read_buffer_highwat p.rsize && ltb (length p.unread) data_buffer_size
    then record lists { rsize = (if k.room 0 then data_buffer_size else p.rsize); rcurr = 0 }
    else lists

-- the reference that the connection holds itself
abbrev pub held : Option ℕ → List ℕ
held none = []
held (some it) = it ∷ []

-- `conn_release_items`, without the buffers of the suffixes
unfoldable pub conn_release_items : Peer → Peer
conn_release_items p = record p {
  item = none;
  ilist = [];
  released = p.released ++ held p.item ++ p.ilist;
}

-- `reset_cmd_handler`
unfoldable pub reset_cmd_handler : Kernel → Peer → Peer
unfolding conn_shrink
reset_cmd_handler k p =
    let p₁ : Peer = conn_shrink k (record p {
      cmd = no_command;
      substate = no_state;
      item = none;
      released = p.released ++ held p.item;
    }) in
    record p₁ { state = elim p.unread [ [] ↦ conn_waiting | _ ∷ _ ↦ conn_parse_cmd ] }

-- the kernel gives at least a byte and no more than it is asked for, and takes no more than it is
-- offered
pub record IsHonest (k : Kernel) : Type 0 where
  pub reads :
      (i n : ℕ) (bytes : List ℕ) → k.read i n ≡ got bytes → (0 < length bytes) × (length bytes ≤ n)
  pub sends : (n m : ℕ) → k.send n ≡ wrote m → m ≤ n
