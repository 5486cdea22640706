-- ===== src/Output.antt =====
-- memcached.c: the lists of what is to be sent, `add_msghdr`, `ensure_iov_space` and `add_iov`. A
-- buffer is the address of its first byte. Whether `realloc` succeeds is an argument.
pub mod Sums
mod Tests
use log_memcached.Base.{
  ℕ, zero, suc, ◌+◌, ◌-◌, ◌*◌, Bool, true, false, ◌&&◌, ◌||◌, Option, none, some, List, [], ◌∷◌,
  length, ltb, leb, ◌==◌, if◌then◌else◌, ◌>>=◌,
}

-- `struct iovec`; NULL is `none`
pub record Iov : Type 0 where
  pub iov_base : Option ℕ
  pub iov_len : ℕ

-- what the functions change of `conn`: the messages with their parts, the last one first
pub record Output : Type 0 where
  pub msglist : List (List Iov)
  pub msgsize : ℕ
  pub msgbytes : ℕ
  pub iovused : ℕ
  pub iovsize : ℕ
  pub udp : Bool

abbrev pub udp_max_payload_size : ℕ
udp_max_payload_size = 1400

abbrev pub udp_header_size : ℕ
udp_header_size = 8

-- IOV_MAX
abbrev pub iov_max : ℕ
iov_max = 1024

-- the parts of the last message
abbrev pub last_message : List (List Iov) → List Iov
last_message [] = []
last_message (m ∷ ms) = m

-- one part more in the last message
abbrev pub push : List (List Iov) → Iov → List (List Iov)
push [] v = []
push (m ∷ ms) v = (v ∷ m) ∷ ms

-- `ensure_iov_space`; `none` is -1
unfoldable pub ensure_iov_space : Output → Bool → Option Output
ensure_iov_space c iov_room =
    if leb c.iovsize c.iovused
    then (if iov_room then some (record c { iovsize = c.iovsize * 2 }) else none)
    else some c

-- a part of `len` bytes at the end of the last message
unfoldable pub append_part : Output → Option ℕ → ℕ → Output
append_part c buf len = record c {
  msglist = push c.msglist (record { iov_base = buf; iov_len = len });
  msgbytes = c.msgbytes + len;
  iovused = c.iovused + 1;
}

module _ (msg_room iov_room : Bool) where
  -- `add_msghdr`, with what it leaves; the call of `add_iov` for the header of a datagram adds one
  -- part to a message that is empty
  unfoldable pub add_msghdr : Output → Bool × Output
  unfolding ensure_iov_space append_part
  add_msghdr c =
      let full = length c.msglist == c.msgsize in
      if full && (if msg_room then false else true)
      then (false, c)
      else (let c₁ : Output = record c {
        msglist = [] ∷ c.msglist;
        msgsize = (if full then c.msgsize * 2 else c.msgsize);
        msgbytes = 0;
      } in
          if c.udp
          then elim (ensure_iov_space c₁ iov_room) [
            | none ↦ (false, c₁)
            | some c₂ ↦ (true, append_part c₂ none udp_header_size)
          ]
          else (true, c₁))

  -- `limit_to_mtu`
  abbrev pub limit_to_mtu : Output → Bool
  limit_to_mtu c = c.udp || length c.msglist == 1

  -- the message for the next part: a new one where the last is full; its result is not looked at
  unfoldable pub next_message : Output → Output
  unfolding add_msghdr
  next_message c =
      if length (last_message c.msglist) == iov_max
        || (limit_to_mtu c && leb udp_max_payload_size c.msgbytes)
      then (add_msghdr c).1
      else c

  -- The loop of `add_iov`, on fuel; the Boolean says whether the result is 0.
  unfoldable pub add_iov_loop : ℕ → Output → Option ℕ → ℕ → Option (Bool × Output)
  unfolding next_message ensure_iov_space append_part
  add_iov_loop zero c buf len = none
  add_iov_loop (suc fuel) c buf len =
      let c₁ = next_message c in
      elim (ensure_iov_space c₁ iov_room) [
        | none ↦ some (false, c₁)
        | some c₂ ↦
            let leftover = if limit_to_mtu c then len + c₂.msgbytes - udp_max_payload_size else 0 in
            let size = len - leftover in
            let c₃ = append_part c₂ buf size in
            elim (ltb 0 leftover) [
              | false ↦ some (true, c₃)
              | true ↦
                  add_iov_loop fuel c₃ (elim buf [ none ↦ none | some p ↦ some (p + size) ])
                    leftover
            ]
      ]

  -- `add_iov`; the fuel is enough while `realloc` succeeds, since then a round takes a byte at least
  unfoldable pub add_iov : Output → Option ℕ → ℕ → Option (Bool × Output)
  unfolding add_iov_loop
  add_iov c buf len = add_iov_loop (suc len) c buf len
