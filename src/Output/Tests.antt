-- ===== src/Output/Tests.antt =====
-- The theorem on the messages at a datagram with its header only.
use log_memcached.Base.{◌+◌, ◌≡◌, refl, true, some, none, [], ◌∷◌, arith}
use log_memcached.Output.{Output, add_iov}
use log_memcached.Output.Sums.{IsDatagrams, sent, add_iov-sent}

abbrev header : Output
header = record {
  msglist = (record { iov_base = none; iov_len = 8 } ∷ []) ∷ [];
  msgsize = 10;
  msgbytes = 8;
  iovused = 1;
  iovsize = 400;
  udp = true;
}

header-IsDatagrams : IsDatagrams header
header-IsDatagrams = record {
  over_udp = refl;
  present = omega arith;
  counted = refl;
  small = (omega arith, tt);
}

-- 5000 bytes make four datagrams.
add_iov-sent_example :
    (c' : Output) × (add_iov true true header (some 0) 5000 ≡ some (true, c'))
    × IsDatagrams c'
    × (sent c'.msglist ≡ 0 + 5000)
add_iov-sent_example = add_iov-sent header 0 5000 header-IsDatagrams
