-- ===== src/Requests.antt =====
-- memcached.c: the answers in the binary protocol, `add_bin_header`, `write_bin_error` and
-- `write_bin_response`. The call of `add_msghdr` is taken to succeed.
pub mod Framing
mod Tests
pub mod Values
pub mod Keys
pub mod Complete
pub mod Replies
pub mod Deletes
pub mod Leaves
use log_memcached.Base.{
  ℕ, zero, suc, ◌+◌, ◌-◌, ◌/◌, ◌%◌, ◌^◌, Bool, true, false, not, ◌||◌, Option, none, some, List, [],
  ◌∷◌, ◌++◌, length, take, drop, ltb, if◌then◌else◌,
}
use log_memcached.Base.Text.{codes}
use log_memcached.Binary.{
  Opcode, get, getk, Status, success, key_enoent, key_eexists, e2big, einval, not_stored,
  delta_badval, auth_error, unknown_command, enomem,
}
use log_memcached.Ascii.Time.{ℤ, pos, negsuc}
use log_memcached.Ascii.Conn.{ConnState, conn_new_cmd, conn_mwrite, conn_swallow}
use log_memcached.Drive.{Peer, Command, code}

-- the values of `protocol_binary_response_status`
abbrev pub status_code : Status → ℕ
status_code success = 0
status_code key_enoent = 1
status_code key_eexists = 2
status_code e2big = 3
status_code einval = 4
status_code not_stored = 5
status_code delta_badval = 6
status_code auth_error = 0x20
status_code unknown_command = 0x81
status_code enomem = 0x82

-- `htons`, `htonl` and `htonll`, as the bytes that they leave in memory; the first number is the
-- number of bytes
unfoldable pub to_network : ℕ → ℕ → List ℕ
to_network zero n = []
to_network (suc w) n = to_network w (n / 256) ++ (n % 256 ∷ [])

-- PROTOCOL_BINARY_RES
abbrev pub magic_response : ℕ
magic_response = 129

-- the bytes of the header of an answer
unfoldable pub header_bytes : ℕ → List ℕ → Status → ℕ → ℕ → ℕ → ℕ → List ℕ
unfolding to_network
header_bytes opcode opaque err hdr_len key_len body_len cas =
    (magic_response ∷ opcode ∷ [])
    ++ to_network 2 key_len
    ++ (hdr_len % 256 ∷ 0 ∷ [])
    ++ to_network 2 (status_code err)
    ++ to_network 4 body_len
    ++ opaque
    ++ to_network 8 cas

-- the header of an answer to a request, whose last argument is the CAS
unfoldable pub response_header : Peer → Status → ℕ → ℕ → ℕ → ℕ → List ℕ
unfolding header_bytes
response_header p = header_bytes p.binary_header.opcode p.binary_header.opaque

-- `add_bin_header` and the calls of `add_iov` behind it, with the CAS that the header gets
unfoldable pub add_response : Peer → Status → ℕ → ℕ → ℕ → ℕ → List (List ℕ) → Peer
unfolding response_header
add_response p err hdr_len key_len body_len cas parts = record p {
  pending = (response_header p err hdr_len key_len body_len cas ∷ parts) ∷ [];
  iovused = 1 + length parts;
}

-- the text for an error; the code asserts that there is one
unfoldable pub error_text : Status → Option (List ℕ)
error_text success = none
error_text key_enoent = some (codes "Not found")
error_text key_eexists = some (codes "Data exists for key.")
error_text e2big = some (codes "Too large.")
error_text einval = some (codes "Invalid arguments")
error_text not_stored = some (codes "Not stored.")
error_text delta_badval = some (codes "Non-numeric server-side value for incr or decr")
error_text auth_error = some (codes "Auth failure.")
error_text unknown_command = some (codes "Unknown command")
error_text enomem = some (codes "Out of memory")

-- a part is added only if it has a byte
abbrev pub part : List ℕ → List (List ℕ)
part [] = []
part (b ∷ bs) = (b ∷ bs) ∷ []

-- what follows an error: the bytes that are thrown away, if there are any
abbrev pub after_error : ℤ → Peer → Peer
after_error (pos zero) p = record p { write_and_go = conn_new_cmd }
after_error (pos (suc n)) p = record p { write_and_go = conn_swallow; sbytes = suc n }
after_error (negsuc n) p = record p { write_and_go = conn_new_cmd }

-- `write_bin_error` with a text
unfoldable pub write_bin_text : Peer → Status → List ℕ → ℤ → Peer
unfolding add_response
write_bin_text p err errstr swallow =
    let p₁ : Peer = add_response p err 0 0 (length errstr) p.store.cas (part errstr) in
    after_error swallow (record p₁ { state = conn_mwrite })

-- `write_bin_error` without a text
unfoldable pub write_bin_error : Peer → Status → ℤ → Option Peer
unfolding error_text write_bin_text
write_bin_error p err swallow = elim (error_text err) [
  | none ↦ none
  | some errstr ↦ some (write_bin_text p err errstr swallow)
]

-- `out_of_memory` for the binary protocol: the text without its prefix "SERVER_ERROR "
abbrev pub out_of_memory : Peer → List ℕ → Peer
out_of_memory p text = write_bin_text p enomem text (pos 0)

-- a quiet command gets an answer only if it is a get
abbrev pub is_get : Command → Bool
is_get (code get) = true
is_get (code getk) = true
is_get _ = false

-- `write_bin_response`, where `d` has `dlen` bytes
unfoldable pub write_bin_response : Peer → List ℕ → ℕ → ℕ → Peer
unfolding add_response
write_bin_response p d hlen keylen =
    if not p.noreply || is_get p.cmd
    then record (add_response p success hlen keylen (length d) p.store.cas (part d)) {
      state = conn_mwrite;
      write_and_go = conn_new_cmd;
    }
    else record p { state = conn_new_cmd }

-- `binary_get_key`: the key is the end of what has been read behind the header
unfoldable pub binary_get_key : Peer → List ℕ
binary_get_key p = drop (length p.received - p.binary_header.keylen) p.received

-- the extras of the request, where `binary_get_request` points to behind the header
unfoldable pub binary_get_extras : Peer → List ℕ
binary_get_extras p =
    take p.binary_header.extlen
      (drop (length p.received - p.binary_header.keylen - p.binary_header.extlen) p.received)
