-- ===== src/Queue/Tests.antt =====
-- The theorems on the queue of connections at a queue of two items.
use log_memcached.Base.{◌≡◌, refl, none, some, List, [], ◌∷◌, ◌==◌, if◌then◌else◌, arith}
use log_memcached.Queue.{Cq}
use log_memcached.Queue.Run.{Op, listen, work, serve, in_turn, serve-in_turn}
use log_memcached.Queue.Fifo.{Linked, IsOutside, IsDistinct, last, Holds}

abbrev two : Cq
two = record { head = some 5; tail = some 6; next = λ p. if p == 5 then some 6 else none }

two-Holds : Holds two (5 ∷ 6 ∷ [])
unfolding Linked IsOutside IsDistinct last
two-Holds = record {
  items = (refl, (refl, refl));
  ends = refl;
  distinct = ((omega arith, tt), (tt, tt));
}

-- 7 is pushed behind 5 and 6, and four are taken.
abbrev turns : List Op
turns = work ∷ listen 7 ∷ work ∷ work ∷ work ∷ []

serve-in_turn_example :
    ((serve two turns).0 ≡ some 5 ∷ some 6 ∷ some 7 ∷ none ∷ []) × Holds (serve two turns).1 []
unfolding in_turn IsOutside
serve-in_turn_example = serve-in_turn two (5 ∷ 6 ∷ []) turns two-Holds ((omega arith, tt), tt)
