-- ===== src/Output/Sums.antt =====
-- What `add_iov` puts into the messages of a connection over UDP, while `realloc` succeeds.
use log_memcached.Base.{
  ℕ, zero, suc, ◌+◌, ◌-◌, ◌*◌, ◌<◌, ◌≤◌, ◌≡◌, refl, sym, ap, ◌∙◌, true, ◌&&◌, ◌||◌, Option, none,
  some, List, [], ◌∷◌, length, leb, ◌==◌, arith, Bool-cases, inl, inr, le_cases,
}
use mathlib.Core.Path.{subst}
use log_memcached.Output.{
  Iov, Output, udp_max_payload_size, udp_header_size, iov_max, last_message, push, ensure_iov_space,
  append_part, add_msghdr, limit_to_mtu, next_message, add_iov_loop, add_iov,
}

-- the bytes of a message
abbrev pub bytes : List Iov → ℕ
bytes [] = 0
bytes (v ∷ vs) = v.iov_len + bytes vs

-- OnSome message fits into a datagram.
abbrev pub Small : List (List Iov) → Type 0
Small [] = Unit {0}
Small (m ∷ ms) = (bytes m ≤ 1400) × Small ms

abbrev pub data_bytes : List Iov → ℕ
data_bytes [] = 0
data_bytes (v ∷ vs) = elim v.iov_base [ none ↦ data_bytes vs | some p ↦ v.iov_len + data_bytes vs ]

-- the bytes of all buffers, without the headers
abbrev pub sent : List (List Iov) → ℕ
sent [] = 0
sent (m ∷ ms) = data_bytes m + sent ms

pub record IsDatagrams (c : Output) : Type 0 where
  pub over_udp : c.udp ≡ true
  pub present : 0 < length c.msglist
  pub counted : c.msgbytes ≡ bytes (last_message c.msglist)
  pub small : Small c.msglist

push-bytes :
    (ms : List (List Iov)) (v : Iov)
    → 0 < length ms
    → bytes (last_message (push ms v)) ≡ v.iov_len + bytes (last_message ms)
push-bytes [] v h = absurd (omega arith)
push-bytes (m ∷ ms) v h = refl

push-Small :
    (ms : List (List Iov)) (v : Iov)
    → bytes (last_message ms) + v.iov_len ≤ 1400
    → Small ms
    → Small (push ms v)
push-Small [] v h s = tt
push-Small (m ∷ ms) v h s = (omega (arith, h), s.1)

push-sent :
    (ms : List (List Iov)) (p len : ℕ)
    → 0 < length ms
    → sent (push ms (record { iov_base = some p; iov_len = len })) ≡ sent ms + len
push-sent [] p len h = absurd (omega arith)
push-sent (m ∷ ms) p len h = omega arith

push_length : (ms : List (List Iov)) (v : Iov) → length (push ms v) ≡ length ms
push_length [] v = refl
push_length (m ∷ ms) v = refl

-- A part that fits.
append_part-IsDatagrams :
    (c : Output) (buf : Option ℕ) (len : ℕ)
    → IsDatagrams c
    → c.msgbytes + len ≤ 1400
    → IsDatagrams (append_part c buf len)
unfolding append_part
append_part-IsDatagrams c buf len d fits =
    let n = d.counted in
    let v : Iov = record { iov_base = buf; iov_len = len } in
    record {
      over_udp = d.over_udp;
      present = let h = d.present in let e = push_length c.msglist v in omega (arith, h, e);
      counted = let e = push-bytes c.msglist v d.present in omega (arith, n, e);
      small = push-Small c.msglist v (omega (arith, n, fits)) d.small;
    }

-- the message that the next part goes to
record IsOpen (c c' : Output) : Type 0 where
  pub datagrams : IsDatagrams c'
  pub room : c'.msgbytes < 1400
  pub same : sent c'.msglist ≡ sent c.msglist

ensure_space :
    (c : Output)
    → (c' : Output) × (ensure_iov_space c true ≡ some c')
      × (c'.msglist ≡ c.msglist)
      × (c'.msgbytes ≡ c.msgbytes)
      × (c'.udp ≡ c.udp)
unfolding ensure_iov_space
ensure_space c = elim (Bool-cases (leb c.iovsize c.iovused)) [
  | inl e ↦ (record c { iovsize = c.iovsize * 2 }, rw e refl, refl, refl, refl)
  | inr e ↦ (c, rw e refl, refl, refl, refl)
]

header_message :
    (c : Output)
    → c.udp ≡ true
    → (add_msghdr true true c).1.msglist
      ≡ (record { iov_base = none; iov_len = udp_header_size } ∷ []) ∷ c.msglist
unfolding add_msghdr ensure_iov_space append_part
header_message c u = ground (arith, u)

new_message : (c : Output) → IsDatagrams c → IsOpen c (add_msghdr true true c).1
unfolding add_msghdr ensure_iov_space append_part
new_message c d =
    let u = d.over_udp in
    record {
      datagrams = record {
        over_udp = ground (arith, u);
        present = ground (arith, u);
        counted = ground (arith, u);
        small = subst Small (sym (header_message c u)) (omega arith, d.small);
      };
      room = ground (arith, u);
      same = ap sent (header_message c u) ∙ omega arith;
    }

next_message-IsOpen : (c : Output) → IsDatagrams c → IsOpen c (next_message true true c)
unfolding next_message
next_message-IsOpen c d =
    elim (Bool-cases (
      length (last_message c.msglist) == iov_max
      || (limit_to_mtu true true c && leb udp_max_payload_size c.msgbytes))) [
        | inl e ↦ rw e (new_message c d)
        | inr e ↦
            let u = d.over_udp in
            let room : c.msgbytes < 1400 = ground (arith, e, u) in
            rw e (record { datagrams = d; room = room; same = refl })
      ]

space-IsDatagrams :
    (c c' : Output)
    → c'.msglist ≡ c.msglist
    → c'.msgbytes ≡ c.msgbytes
    → c'.udp ≡ c.udp
    → IsDatagrams c
    → IsDatagrams c'
space-IsDatagrams c c' l b u d = record {
  over_udp = u ∙ d.over_udp;
  present = rw l d.present;
  counted = b ∙ d.counted ∙ ap (λ ms. bytes (last_message ms)) (sym l);
  small = rw l d.small;
}

-- The part of one round.
loop_round :
    (fuel : ℕ) (c c₂ : Output) (p len : ℕ)
    → c.udp ≡ true
    → ensure_iov_space (next_message true true c) true ≡ some c₂
    → (len + c₂.msgbytes ≤ 1400
        → add_iov_loop true true (suc fuel) c (some p) len
          ≡ some (true, append_part c₂ (some p) len))
      × (1400 < len + c₂.msgbytes
          → add_iov_loop true true (suc fuel) c (some p) len
            ≡ add_iov_loop true true fuel
                (append_part c₂ (some p) (len - (len + c₂.msgbytes - 1400)))
                (some (p + (len - (len + c₂.msgbytes - 1400))))
                (len + c₂.msgbytes - 1400))
unfolding add_iov_loop
loop_round fuel c c₂ p len u e =
    (λ fits. ground (arith, u, e, fits), λ over. ground (arith, u, e, over))

appended :
    (c : Output) (p len : ℕ)
    → 0 < length c.msglist
    → sent (append_part c (some p) len).msglist ≡ sent c.msglist + len
unfolding append_part
appended c p len h = push-sent c.msglist p len h

-- The same of as many rounds as there is fuel for.
add_iov_loop-sent :
    (fuel : ℕ) (c : Output) (p len : ℕ)
    → len < fuel
    → IsDatagrams c
    → (c' : Output) × (add_iov_loop true true fuel c (some p) len ≡ some (true, c'))
      × IsDatagrams c'
      × (sent c'.msglist ≡ sent c.msglist + len)
add_iov_loop-sent zero c p len enough d = absurd (omega (arith, enough))
add_iov_loop-sent (suc fuel) c p len enough d =
    let o = next_message-IsOpen c d in
    let (c₂, e, l, b, u) = ensure_space (next_message true true c) in
    let d₂ = space-IsDatagrams (next_message true true c) c₂ l b u o.datagrams in
    let room : c₂.msgbytes < 1400 = (let h = o.room in omega (arith, h, b)) in
    let had : sent c₂.msglist ≡ sent c.msglist = ap sent l ∙ o.same in
    let (fits, splits) = loop_round fuel c c₂ p len d.over_udp e in
    elim (le_cases (len + c₂.msgbytes) 1400) [
      | inl le ↦ (
        append_part c₂ (some p) len,
        fits le,
        append_part-IsDatagrams c₂ (some p) len d₂ (omega (arith, le)),
        appended c₂ p len d₂.present ∙ ap (λ n. n + len) had,
      )
      | inr over ↦
          let left = len + c₂.msgbytes - 1400 in
          let size = len - left in
          let d₃ = append_part-IsDatagrams c₂ (some p) size d₂ (omega (arith, over, room)) in
          let (c', f, d', n) =
            add_iov_loop-sent fuel (append_part c₂ (some p) size) (p + size) left
              (omega (arith, enough, over, room)) d₃ in
          let a = appended c₂ p size d₂.present in
          (c', splits over ∙ f, d', omega (arith, n, a, had, over, room))
    ]

-- Over UDP and while realloc succeeds, on messages that fit into a datagram each, the last with as
-- many bytes as are counted, add_iov of a buffer ends, returns 0 and adds as many bytes of data as
-- the buffer has; every message still fits into a datagram of 1400 bytes with its header.
pub add_iov-sent :
    (c : Output) (p len : ℕ)
    → IsDatagrams c
    → (c' : Output) × (add_iov true true c (some p) len ≡ some (true, c'))
      × IsDatagrams c'
      × (sent c'.msglist ≡ sent c.msglist + len)
unfolding add_iov
add_iov-sent c p len d = add_iov_loop-sent (suc len) c p len (omega arith) d
