-- ===== src/Ascii/Buffer.antt =====
-- memcached.c: `try_read_command`, up to the call of the function that runs the command. The buffer
-- is the list of the unread bytes from `rcurr` on. The call of `add_msghdr` is taken to succeed.
pub mod Pipeline
use log_memcached.Base.{
  ℕ, suc, ◌+◌, ◌-◌, ◌*◌, Bool, true, false, not, ◌&&◌, ◌||◌, Option, none, some, List, [], ◌∷◌,
  length, take, drop, ltb, ◌==◌, if◌then◌else◌, get_elem?, list_eq,
}
use log_memcached.Base.Text.{codes}

-- `protocol`
pub data Protocol : Type 0 where
  ascii_prot : Protocol
  binary_prot : Protocol
  negotiating_prot : Protocol

-- the header of a binary request, in the order of the host where the code changes it; `opaque` and
-- the reserved word stay as they are
pub record BinaryHeader : Type 0 where
  pub opcode : ℕ
  pub keylen : ℕ
  pub extlen : ℕ
  pub bodylen : ℕ
  pub opaque : List ℕ
  pub cas : ℕ

-- `return 0`, a closed connection, and a command with the bytes behind it
pub data Outcome : Type 0 where
  more : Outcome
  closing : Outcome
  ascii_line : (command rest : List ℕ) → Outcome
  binary_request : (header : BinaryHeader) (rest : List ℕ) → Outcome

-- PROTOCOL_BINARY_REQ
abbrev pub magic_request : ℕ
magic_request = 128

-- the protocol of a connection whose buffer begins with a byte
unfoldable pub negotiate : Protocol → Bool → ℕ → Protocol
negotiate ascii_prot udp first =
    if udp then (if first == magic_request then binary_prot else ascii_prot) else ascii_prot
negotiate binary_prot udp first =
    if udp then (if first == magic_request then binary_prot else ascii_prot) else binary_prot
negotiate negotiating_prot udp first = if first == magic_request then binary_prot else ascii_prot

-- `memchr(c->rcurr, '\n', c->rbytes)`: what stands in front of it and behind it
unfoldable pub find_line : List ℕ → Option (List ℕ × List ℕ)
find_line [] = none
find_line (c ∷ cs) =
    let later = find_line cs in
    if c == 10
    then some ([], cs)
    else elim later [ none ↦ none | some (line, rest) ↦ some (c ∷ line, rest) ]

-- the line without the `'\r'` at its end, where it has more than one byte
unfoldable pub strip : List ℕ → List ℕ
strip line = elim (get_elem? line (length line - 1)) [
  | none ↦ line
  | some last ↦ if ltb 1 (length line) && last == 13 then take (length line - 1) line else line
]

-- the string that a function finds where these bytes and a zero stand
unfoldable pub c_string : List ℕ → List ℕ
c_string [] = []
c_string (c ∷ cs) = if c == 0 then [] else c ∷ c_string cs

-- `while (*ptr == ' ') ++ptr`
unfoldable pub skip_blanks : List ℕ → List ℕ
skip_blanks [] = []
skip_blanks (c ∷ cs) = if c == 32 then skip_blanks cs else c ∷ cs

-- a long line that is no get
unfoldable pub hopeless : List ℕ → Bool
unfolding skip_blanks
hopeless buf =
    let ptr = skip_blanks buf in
    ltb (100 + length ptr) (length buf)
    || (not (list_eq (take 4 ptr) (codes "get ")) && not (list_eq (take 5 ptr) (codes "gets ")))

-- the branch for the text protocol
unfoldable pub read_ascii : List ℕ → Outcome
unfolding find_line strip c_string hopeless
read_ascii buf = elim (find_line buf) [
  | none ↦ if ltb 1024 (length buf) && hopeless buf then closing else more
  | some (line, rest) ↦ ascii_line (c_string (strip line)) rest
]

-- `ntohs`, `ntohl` and `ntohll` of bytes of the network
unfoldable pub from_network : ℕ → List ℕ → ℕ
from_network acc [] = acc
from_network acc (b ∷ bs) = from_network (acc * 256 + b) bs

abbrev pub byte_at : List ℕ → ℕ → ℕ
byte_at buf i = elim (get_elem? buf i) [ none ↦ 0 | some b ↦ b ]

abbrev pub field : List ℕ → ℕ → ℕ → ℕ
field buf start size = from_network 0 (take size (drop start buf))

-- `sizeof(c->binary_header)`
abbrev pub header_size : ℕ
header_size = 24

-- the branch for the binary protocol
unfoldable pub read_binary : List ℕ → Outcome
unfolding from_network
read_binary buf =
    if ltb (length buf) header_size
    then more
    else if not (byte_at buf 0 == magic_request)
    then closing
    else binary_request
        (record {
          opcode = byte_at buf 1;
          keylen = field buf 2 2;
          extlen = byte_at buf 4;
          bodylen = field buf 8 4;
          opaque = take 4 (drop 12 buf);
          cas = field buf 16 8;
        })
        (drop header_size buf)

-- `try_read_command`, where `rbuf` begins with the byte `first`; `none` is a failed assertion
unfoldable pub try_read_command : Protocol → Bool → ℕ → List ℕ → Option Outcome
unfolding negotiate read_ascii read_binary
try_read_command protocol udp first [] = none
try_read_command protocol udp first (b ∷ bs) = elim (negotiate protocol udp first) [
  | binary_prot ↦ some (read_binary (b ∷ bs))
  | _ ↦ some (read_ascii (b ∷ bs))
]
