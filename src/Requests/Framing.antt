-- ===== src/Requests/Framing.antt =====
-- The answers of the binary protocol as a client reads them, by the layout of protocol_binary.h.
use log_memcached.Base.{
  ℕ, zero, suc, ◌+◌, ◌*◌, ◌/◌, ◌%◌, ◌^◌, ◌≤◌, ◌<◌, ◌≡◌, refl, ap, ap₂, ◌∙◌, ◌||◌, false, Option,
  none, some, List, [], ◌∷◌, ◌++◌, length, take, drop, length-append, take-append, drop-append, ltb,
  arith, if◌then◌else◌,
}
use native.Mathlib.Numerals.{unary_clauses}
use log_memcached.Items.Total.{if-false}
use log_memcached.Binary.{Status}
use log_memcached.Ascii.Buffer.{from_network, field, byte_at, header_size}
use log_memcached.Requests.{header_bytes, status_code, to_network}

-- an answer
pub record Response : Type 0 where
  pub opcode : ℕ
  pub status : ℕ
  pub extlen : ℕ
  pub keylen : ℕ
  pub opaque : List ℕ
  pub cas : ℕ
  pub body : List ℕ

-- the fields of the header, and the body behind it
abbrev response_of : List ℕ → Response
response_of bytes = record {
  opcode = byte_at bytes 1;
  status = field bytes 6 2;
  extlen = byte_at bytes 4;
  keylen = field bytes 2 2;
  opaque = take 4 (drop 12 bytes);
  cas = field bytes 16 8;
  body = take (field bytes 8 4) (drop header_size bytes);
}

-- what a client has, and what is left
abbrev paired : Response → List ℕ → Response × List ℕ
paired r rest = (r, rest)

abbrev split : Response → ℕ → List ℕ → Response × List ℕ
split r size behind = (record r { body = take size behind }, drop size behind)

-- A client takes an answer off what it has received, if the answer is there in full.
unfoldable pub read_response : List ℕ → Option (Response × List ℕ)
unfolding from_network
read_response bytes =
    let size = field bytes 8 4 in
    let behind = drop header_size bytes in
    if ltb (length bytes) header_size || ltb (length behind) size
    then none
    else some (split (response_of bytes) size behind)

from_network-append :
    (acc : ℕ) (xs : List ℕ) (b : ℕ)
    → from_network acc (xs ++ (b ∷ [])) ≡ from_network acc xs * 256 + b
unfolding from_network
from_network-append acc [] b = refl
from_network-append acc (x ∷ xs) b = from_network-append (acc * 256 + x) xs b

grow : (w n : ℕ) → n < 256 ^ suc w → n < 256 * 256 ^ w
grow w n h = omega (arith, simp unary_clauses at h)

-- the bytes of a number give the number
pub from_network-to_network : (w n : ℕ) → n < 256 ^ w → from_network 0 (to_network w n) ≡ n
unfolding to_network from_network
from_network-to_network zero n h = omega arith
from_network-to_network (suc w) n h =
    let room : n < 256 * 256 ^ w = grow w n h in
    from_network-append 0 (to_network w (n / 256)) (n % 256)
    ∙ ap (λ m. m * 256 + n % 256) (from_network-to_network w (n / 256) (omega arith))
    ∙ omega arith

whole : (n m size : ℕ) → header_size ≤ n → size ≤ m → (ltb n header_size || ltb m size) ≡ false
whole n m size h k = ground (arith, h, k)

response_cong :
    (r : Response) (size : ℕ) (behind body rest : List ℕ)
    → behind ≡ body ++ rest
    → size ≡ length body
    → split r size behind ≡ paired (record r { body = body }) rest
response_cong r size behind body rest e f =
    ap₂ (split r) f e
    ∙ ap₂ (λ x y. paired (record r { body = x }) y) (take-append body rest (length body) refl)
        (drop-append body rest (length body) refl)

cut :
    (bytes body rest : List ℕ)
    → header_size ≤ length bytes
    → drop header_size bytes ≡ body ++ rest
    → field bytes 8 4 ≡ length body
    → read_response bytes ≡ some (record (response_of bytes) { body = body }, rest)
unfolding read_response
cut bytes body rest long e f =
    let behind : length (drop header_size bytes) ≡ length body + length rest =
      ap length e ∙ length-append body rest in
    if-false _ _ _ (whole (length bytes) _ _ long (omega (arith, behind, f))) (
      ap some (
        response_cong (response_of bytes) (field bytes 8 4) (drop header_size bytes) body rest e f))

status_code_small : (err : Status) → status_code err < 256 ^ 2
status_code_small err = ground arith

-- the answer of a header with an `opaque` of four bytes
module _ (opcode : ℕ) (err : Status) (hdr_len key_len cas : ℕ) (body rest : List ℕ)
    (h : hdr_len < 256) (k : key_len < 2 ^ 16) (l : length body < 2 ^ 32) (n : cas < 2 ^ 64) where
  abbrev answer : List ℕ → ℕ → ℕ → ℕ → ℕ → Option (Response × List ℕ)
  answer opaque s x y z = some (
      paired
        (record {
          opcode = opcode;
          status = s;
          extlen = x;
          keylen = y;
          opaque = opaque;
          cas = z;
          body = body;
        })
        rest)

  read_fields :
      (opaque : List ℕ) (s x y z : ℕ)
      → s ≡ status_code err
      → x ≡ hdr_len
      → y ≡ key_len
      → z ≡ cas
      → answer opaque s x y z ≡ answer opaque (status_code err) hdr_len key_len cas
  read_fields opaque s x y z e f g i =
      ap₂ (λ a b. answer opaque a b y z) e f
      ∙ ap₂ (λ a b. answer opaque (status_code err) hdr_len a b) g i

  pub read-header_bytes :
      (opaque : List ℕ)
      → length opaque ≡ 4
      → read_response
          (header_bytes opcode opaque err hdr_len key_len (length body) cas ++ body ++ rest)
        ≡ answer opaque (status_code err) hdr_len key_len cas
  unfolding header_bytes to_network
  read-header_bytes (a ∷ b ∷ c ∷ d ∷ []) f =
      cut
        (header_bytes opcode (a ∷ b ∷ c ∷ d ∷ []) err hdr_len key_len (length body) cas
          ++ body
          ++ rest)
        body rest (omega arith) refl (from_network-to_network 4 (length body) (omega arith))
      ∙ read_fields (a ∷ b ∷ c ∷ d ∷ []) _ _ _ _
          (from_network-to_network 2 (status_code err) (status_code_small err)) (omega arith)
          (from_network-to_network 2 key_len (omega arith))
          (from_network-to_network 8 cas (omega arith))
  read-header_bytes [] f = absurd (omega arith)
  read-header_bytes (a ∷ []) f = absurd (omega arith)
  read-header_bytes (a ∷ b ∷ []) f = absurd (omega arith)
  read-header_bytes (a ∷ b ∷ c ∷ []) f = absurd (omega arith)
  read-header_bytes (a ∷ b ∷ c ∷ d ∷ e ∷ xs) f = absurd (omega arith)
