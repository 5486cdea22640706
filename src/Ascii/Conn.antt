-- ===== src/Ascii/Conn.antt =====
-- The part of `conn` of memcached.h that the text protocol changes, and `out_string`.
use log_memcached.Base.{
  ℕ, ◌+◌, ◌-◌, Bool, true, false, Option, some, List, [], ◌∷◌, ◌++◌, length, ltb, if◌then◌else◌,
  list_eq, get_elem?, ◌>>=◌,
}
use log_memcached.Base.Memory.{Memory}
use log_memcached.Base.Text.{codes}
use log_memcached.Store.{Verb, Conn}

-- `conn_states`
pub data ConnState : Type 0 where
  conn_listening : ConnState
  conn_new_cmd : ConnState
  conn_waiting : ConnState
  conn_read : ConnState
  conn_parse_cmd : ConnState
  conn_write : ConnState
  conn_nread : ConnState
  conn_swallow : ConnState
  conn_closing : ConnState
  conn_mwrite : ConnState
  conn_closed : ConnState
  conn_watch : ConnState
  conn_max_state : ConnState

-- the counters of the thread, by class where the code has an array
pub record ThreadStats : Type 0 where
  pub set_cmds : Memory ℕ
  pub incr_misses : ℕ
  pub decr_misses : ℕ
  pub get_cmds : ℕ
  pub get_hits : Memory ℕ
  pub get_misses : ℕ
  pub touch_cmds : ℕ
  pub touch_hits : Memory ℕ
  pub touch_misses : ℕ
  pub delete_hits : Memory ℕ
  pub delete_misses : ℕ
  pub flush_cmds : ℕ

-- `wbuf` is what stands in it; `store` is the part that do_store_item changes. The lists of what
-- is to be sent are not part of it.
pub record Client : Type 0 where
  pub state : ConnState
  pub noreply : Bool
  pub wbuf : List ℕ
  pub wsize : ℕ
  pub write_and_go : ConnState
  pub item : Option ℕ
  pub rlbytes : ℕ
  pub cmd : Verb
  pub sbytes : ℕ
  pub store : Conn
  pub stats : ThreadStats

abbrev pub line_end : List ℕ
line_end = 13 ∷ 10 ∷ []

-- `out_string`
unfoldable pub out_string : Client → List ℕ → Client
out_string c str =
    if c.noreply then record c { noreply = false; state = conn_new_cmd } else record c {
      wbuf =
          (if ltb c.wsize (length str + 2) then codes "SERVER_ERROR output line too long" else str)
          ++ line_end;
      state = conn_write;
      write_and_go = conn_new_cmd;
    }

-- `set_noreply_maybe`, on the strings of the tokens in front of the terminal one; the last of them
-- is the token at `ntokens - 2`.
unfoldable pub set_noreply_maybe : Client → List (List ℕ) → Option Client
set_noreply_maybe c tokens = do
  last ← get_elem? tokens (length tokens - 1)
  some (if list_eq last (codes "noreply") then record c { noreply = true } else c)
