-- ===== src/Requests/Replies.antt =====
-- What a client reads of the answers of the binary protocol.
use log_memcached.Base.{
  ℕ, zero, suc, ◌+◌, ◌-◌, ◌/◌, ◌%◌, ◌^◌, ◌≤◌, ◌<◌, ◌≡◌, refl, sym, ap, ap₂, ◌∙◌, Bool, true, false,
  some, List, [], ◌∷◌, ◌++◌, length, length-append, length-take, take, arith, if◌then◌else◌,
}
use mathlib.Core.List.{append_assoc, append-nil}
use log_memcached.Binary.{Status, success}
use log_memcached.Memlog.Header.{Item, get_cas}
use log_memcached.Drive.{Peer}
use log_memcached.Drive.Send.{joined}
use log_memcached.Drive.Send.Order.{all_bytes, joined-append}
use log_memcached.Requests.{status_code, to_network, response_header, add_response}
use log_memcached.Requests.Keys.{
  should_return_key, should_return_value, answer_item, value_of, when_so,
}
use log_memcached.Requests.Framing.{Response, read_response, read-header_bytes}

-- what stands in the header of an answer to a request
abbrev pub response_to : Peer → Status → ℕ → ℕ → ℕ → List ℕ → Response
response_to p err hdr_len key_len cas body = record {
  opcode = p.binary_header.opcode;
  status = status_code err;
  extlen = hdr_len;
  keylen = key_len;
  opaque = p.binary_header.opaque;
  cas = cas;
  body = body;
}

-- For an opaque of four bytes and lengths and a CAS within the widths of their fields, where the
-- length of the body that the header gets is that of the parts behind it, a client that reads an
-- answer by the layout of the header, with other bytes behind it, gets the fields as they were
-- given and the parts as the body, and what is left are the other bytes.
pub add_response-reads :
    (p : Peer) (err : Status) (hdr_len key_len body_len cas : ℕ) (parts : List (List ℕ))
    (rest : List ℕ)
    → length p.binary_header.opaque ≡ 4
    → hdr_len < 256
    → key_len < 2 ^ 16
    → body_len ≡ length (joined parts)
    → body_len < 2 ^ 32
    → cas < 2 ^ 64
    → read_response
        (all_bytes (add_response p err hdr_len key_len body_len cas parts).pending ++ rest)
      ≡ some (response_to p err hdr_len key_len cas (joined parts), rest)
unfolding add_response response_header
add_response-reads p err hdr_len key_len body_len cas parts rest four h k e l n =
    ap (λ x. read_response (x ++ rest))
      (append-nil (response_header p err hdr_len key_len body_len cas ++ joined parts))
    ∙ ap (λ m. read_response (response_header p err hdr_len key_len m cas ++ joined parts ++ rest))
        e
    ∙ read-header_bytes p.binary_header.opcode err hdr_len key_len cas (joined parts) rest h k
        (omega (arith, e, l)) n p.binary_header.opaque four

-- the key of the item, as many bytes of it as the request has
abbrev pub key_part : Peer → Item → List ℕ
key_part p d = take p.binary_header.keylen d.key

-- the body of the answer with an item
abbrev pub item_body : (List ℕ → ℕ) → Peer → Item → List ℕ
item_body strtoul p d =
    to_network 4 (strtoul d.suffix % 2 ^ 32)
    ++ (if should_return_key p.cmd then key_part p d else [])
    ++ (if should_return_value p.cmd then value_of d else [])

joined-when_so : (b : Bool) (xs : List ℕ) → joined (when_so b xs) ≡ (if b then xs else [])
joined-when_so true xs = append-nil xs
joined-when_so false xs = refl

length-to_network : (w n : ℕ) → length (to_network w n) ≡ w
unfolding to_network
length-to_network zero n = refl
length-to_network (suc w) n =
    omega
      (arith, length-append (to_network w (n / 256)) (n % 256 ∷ []), length-to_network w (n / 256))

length-if :
    (b : Bool) (xs : List ℕ) (n : ℕ)
    → length xs ≡ n
    → length (if b then xs else []) ≡ (if b then n else 0)
length-if true xs n e = e
length-if false xs n e = refl

item_parts :
    (b c : Bool) (flags key value : List ℕ)
    → joined ((flags ∷ []) ++ when_so b key ++ when_so c value)
      ≡ flags ++ (if b then key else []) ++ (if c then value else [])
item_parts b c flags key value =
    ap (λ l. flags ++ l)
      (joined-append (when_so b key) (when_so c value)
        ∙ ap₂ (λ x y. x ++ y) (joined-when_so b key) (joined-when_so c value))
    ∙ sym (append_assoc flags (if b then key else []) (if c then value else []))

if_le : (b : Bool) (n : ℕ) → (if b then n else 0) ≤ n
if_le true n = omega arith
if_le false n = omega arith

item_body_length :
    (b c : Bool) (flags key value : List ℕ) (n m : ℕ)
    → length flags ≡ 4
    → length key ≡ n
    → length value ≡ m
    → length (flags ++ (if b then key else []) ++ (if c then value else []))
      ≡ 4 + (if c then m else 0) + (if b then n else 0)
item_body_length b c flags key value n m e f g = omega (
  arith,
  length-append (flags ++ (if b then key else [])) (if c then value else []),
  length-append flags (if b then key else []),
  e,
  length-if b key n f,
  length-if c value m g,
)

abbrev with_body : Peer → ℕ → ℕ → List ℕ → List ℕ → Response × List ℕ
with_body p key_len cas body rest = (response_to p success 4 key_len cas body, rest)

-- the lengths that a well-formed request and item have
pub record Fits (p : Peer) (d : Item) : Type 0 where
  pub opaque : length p.binary_header.opaque ≡ 4
  pub key : p.binary_header.keylen ≤ length d.key
  pub short_key : p.binary_header.keylen ≤ 250
  pub line_end : 2 ≤ d.nbytes
  pub value : d.nbytes ≤ length d.value
  pub short_value : d.nbytes < 2 ^ 31
  pub small_cas : get_cas d < 2 ^ 64

-- For a request with an opaque of four bytes and a key of at most 250 bytes, and an item whose key
-- has at least as many bytes, whose value has its nbytes, from 2 to 2^31 - 1, and which has a
-- 64-bit CAS, a client that reads the answer of process_bin_get_or_touch by the layout of the
-- header, with other bytes behind it, gets the opcode and the opaque of the request, the status 0,
-- the CAS of the item and a body of the flags, then as many bytes of the key of the item as the
-- key of the request has and the value of the item without its line end, where the command asks
-- for them, and what is left are the other bytes.
pub answer_item-reads :
    (strtoul : List ℕ → ℕ) (p : Peer) (d : Item) (it : ℕ) (rest : List ℕ)
    → Fits p d
    → read_response (all_bytes (answer_item strtoul p d it).pending ++ rest)
      ≡ some (
        response_to p success 4
            (if should_return_key p.cmd then p.binary_header.keylen else 0)
            (get_cas d)
            (item_body strtoul p d),
        rest,
      )
unfolding answer_item
answer_item-reads strtoul p d it rest f =
    let b : Bool = should_return_key p.cmd in
    let c : Bool = should_return_value p.cmd in
    let flags : List ℕ = to_network 4 (strtoul d.suffix % 2 ^ 32) in
    let key_len : ℕ = if b then p.binary_header.keylen else 0 in
    let value_len : ℕ = if c then d.nbytes - 2 else 0 in
    let same = item_parts b c flags (key_part p d) (value_of d) in
    let sizes : length (item_body strtoul p d) ≡ 4 + value_len + key_len =
      item_body_length b c flags (key_part p d) (value_of d) p.binary_header.keylen (d.nbytes - 2)
        (length-to_network 4 (strtoul d.suffix % 2 ^ 32))
        (length-take p.binary_header.keylen d.key f.key)
        (length-take (d.nbytes - 2) d.value (omega (arith, f.value))) in
    let fits : 4 + value_len + key_len < 2 ^ 31 + 256 = omega (
      arith,
      if_le c (d.nbytes - 2),
      if_le b p.binary_header.keylen,
      f.short_key,
      f.short_value,
      f.line_end,
    ) in
    add_response-reads p success 4 key_len ((4 + value_len + key_len) % 2 ^ 32) (get_cas d)
      ((flags ∷ []) ++ when_so b (key_part p d) ++ when_so c (value_of d)) rest f.opaque
      (omega arith) (omega (arith, if_le b p.binary_header.keylen, f.short_key))
      (omega (arith, ap length same, sizes, fits)) (omega (arith, fits)) f.small_cas
    ∙ ap (λ x. some (with_body p key_len (get_cas d) x rest)) same
