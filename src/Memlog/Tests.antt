-- ===== src/Memlog/Tests.antt =====
-- The theorems at a log of a thousand bytes.
use log_memcached.Base.{
  ℕ, ◌≤◌, ◌<◌, ◌≡◌, ◌⊎◌, refl, inl, none, some, List, [], ◌∷◌, ◌++◌, arith, ◌==◌, if◌then◌else◌,
}
use log_memcached.Libc.Decimal.{decimal_libc}
use log_memcached.Memlog.{
  Memlog, LogStats, block_size, memory_allocate, memlog_clean, maintain, init,
}
use log_memcached.Memlog.Header.{Item, blank}
use log_memcached.Memlog.Maintain.{memlog_clean-IsStraight, memlog_clean-IsWrapped}
use log_memcached.Memlog.Layout.{total, IsStraight, IsWrapped}
use log_memcached.Memlog.Alloc.{write_item, memory_allocate-follows}
use log_memcached.Memlog.Reach.{IsLog, insert, Step, Reach, Reach-IsLog, maintain-IsLog}

abbrev no_stats : LogStats
no_stats = record {
  mem_current = 0;
  mem_avail = 0;
  mem_free_from_beginning = 0;
  mem_current_freeing = 0;
}

-- an item that takes `n + 17` bytes
abbrev item_of : ℕ → Item
item_of n = record blank { nbytes = n }

abbrev forget : Unit {0} → ℕ → Item → Unit {0}
forget s p it = s

-- the writer at 900, the cleaner at 200, two live blocks between them
abbrev half_full : Memlog
half_full = record {
  limit = 1000;
  current = 900;
  avail = 100;
  free_from_beginning = 200;
  current_freeing = 200;
  current_to_free = 0;
  memory = λ p. if p == 200 then item_of 183 else if p == 400 then item_of 483 else blank;
  stats = no_stats;
}

half_full-IsStraight : IsStraight half_full (200 ∷ 500 ∷ [])
unfolding block_size
half_full-IsStraight = record {
  live = omega arith;
  room = omega arith;
  free = refl;
  beginning = refl;
  zeroed = λ p lt out. ground arith;
}

-- gone round: the cleaner at 700, the writer at 400
abbrev gone_round : Memlog
gone_round = record {
  limit = 1000;
  current = 400;
  avail = 300;
  free_from_beginning = 0;
  current_freeing = 700;
  current_to_free = 0;
  memory = λ p. if p == 0 then item_of 383 else if p == 700 then item_of 283 else blank;
  stats = no_stats;
}

gone_round-IsWrapped : IsWrapped gone_round (300 ∷ []) (400 ∷ [])
unfolding block_size
gone_round-IsWrapped = record {
  older = omega arith;
  newer = omega arith;
  inside = omega arith;
  room = omega arith;
  free = refl;
  beginning = refl;
  zeroed = λ p lo hi. ground arith;
}

memory_allocate-follows_example :
    (100 ≤ 300
      → ((memory_allocate gone_round 100).0 ≡ some 400)
        × ((it : Item)
            → block_size it ≡ 100
            → IsWrapped
                (write_item (memory_allocate gone_round 100).1 400 it)
                (300 ∷ [])
                ((400 ∷ []) ++ 100 ∷ [])))
    × (300 < 100 → memory_allocate gone_round 100 ≡ (none, gone_round))
memory_allocate-follows_example =
    memory_allocate-follows gone_round (300 ∷ []) (400 ∷ []) (omega arith) gone_round-IsWrapped 100
      (omega arith) (omega arith) (omega arith)

memlog_clean-IsWrapped_example :
    (freed : ℕ) × (m' : Memlog) × (s' : Unit {0}) × (done rest : List ℕ) × (memlog_clean forget
        gone_round tt
      ≡ some (freed, m', s'))
    × (300 ∷ [] ≡ done ++ rest)
    × (freed ≡ total done)
    × (m'.limit ≡ 1000)
    × ((125 ≤ freed) × IsWrapped m' rest (400 ∷ []) ⊎ IsStraight m' (400 ∷ []))
memlog_clean-IsWrapped_example =
    memlog_clean-IsWrapped forget gone_round tt (300 ∷ []) (400 ∷ []) (omega arith)
      gone_round-IsWrapped

memlog_clean-IsStraight_example :
    (freed : ℕ) × (m' : Memlog) × (s' : Unit {0}) × (done rest : List ℕ) × (memlog_clean forget
        half_full tt
      ≡ some (freed, m', s'))
    × (200 ∷ 500 ∷ [] ≡ done ++ rest)
    × (freed ≡ total done)
    × (m'.limit ≡ 1000)
    × (125 ≤ freed)
    × IsStraight m' rest
memlog_clean-IsStraight_example =
    memlog_clean-IsStraight forget half_full tt (200 ∷ 500 ∷ []) 500 (omega arith)
      half_full-IsStraight (omega arith) (omega arith)

abbrev once_written : Memlog
once_written = insert (init no_stats) 1000 (item_of 983)

once_written-Reach : Reach forget (init no_stats) once_written
unfolding init block_size
once_written-Reach =
    Reach.next Reach.here
      (Step.write 1000 (item_of 983) (omega arith) (omega arith) refl (inl (omega arith)))

Reach-IsLog_example : IsLog once_written
Reach-IsLog_example = Reach-IsLog forget no_stats once_written-Reach

maintain-IsLog_example :
    (freed : ℕ) × (m' : Memlog) × (s' : Unit {0}) × (maintain forget once_written tt
      ≡ some (freed, m', s'))
    × IsLog m'
maintain-IsLog_example =
    maintain-IsLog forget once_written tt (Reach-IsLog forget no_stats once_written-Reach)
