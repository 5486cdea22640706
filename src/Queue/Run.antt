-- ===== src/Queue/Run.antt =====
-- The listener that pushes connections and the worker that pops them, one after the other under the
-- lock of the queue.
use log_memcached.Base.{ℕ, ◌≡◌, refl, ap, Option, none, some, List, [], ◌∷◌, ◌++◌}
use log_memcached.Queue.{Cq, cq_pop, cq_push}
use log_memcached.Queue.Fifo.{Linked, IsOutside, Holds, cq_push-Holds, cq_pop-Holds}

pub data Op : Type 0 where
  listen : ℕ → Op
  work : Op

-- what each pop returns, and the queue at the end
unfoldable pub serve : Cq → List Op → List (Option ℕ) × Cq
serve q [] = ([], q)
serve q (listen item ∷ ops) = serve (cq_push q item) ops
serve q (work ∷ ops) =
    let (found, q') = cq_pop q in let (outs, last) = serve q' ops in (found ∷ outs, last)

-- the same of a list, the first in being the first out
unfoldable pub in_turn : List ℕ → List Op → List (Option ℕ) × List ℕ
in_turn xs [] = ([], xs)
in_turn xs (listen item ∷ ops) = in_turn (xs ++ item ∷ []) ops
in_turn [] (work ∷ ops) = let (outs, last) = in_turn [] ops in (none ∷ outs, last)
in_turn (x ∷ xs) (work ∷ ops) = let (outs, last) = in_turn xs ops in (some x ∷ outs, last)

-- No item is pushed while the queue holds it.
abbrev pub AllFresh : List ℕ → List Op → Type 0
AllFresh xs [] = Unit {0}
AllFresh xs (listen item ∷ ops) = IsOutside item xs × AllFresh (xs ++ item ∷ []) ops
AllFresh [] (work ∷ ops) = AllFresh [] ops
AllFresh (x ∷ xs) (work ∷ ops) = AllFresh xs ops

cq_pop-empty : (q : Cq) → Holds q [] → cq_pop q ≡ (none, q)
unfolding cq_pop Linked
cq_pop-empty q h = let e : q.head ≡ none = h.items in rw e refl

-- From a queue that holds a list of distinct items, any history of cq_push and cq_pop in which no
-- item is pushed while the queue holds it returns from each cq_pop the item that has been in the
-- queue for the longest, or NULL where there is none, and leaves a queue that holds the items that
-- are left, in their order.
pub serve-in_turn :
    (q : Cq) (xs : List ℕ) (ops : List Op)
    → Holds q xs
    → AllFresh xs ops
    → ((serve q ops).0 ≡ (in_turn xs ops).0) × Holds (serve q ops).1 (in_turn xs ops).1
unfolding serve in_turn
serve-in_turn q xs [] h fresh = (refl, h)
serve-in_turn q xs (listen item ∷ ops) h fresh =
    serve-in_turn (cq_push q item) (xs ++ item ∷ []) ops (cq_push-Holds q item xs h fresh.0) fresh.1
serve-in_turn q [] (work ∷ ops) h fresh =
    let (outs, held) = serve-in_turn q [] ops h fresh in
    rw (cq_pop-empty q h) (ap (λ o. none ∷ o) outs, held)
serve-in_turn q (x ∷ xs) (work ∷ ops) h fresh =
    let (found, rest) = cq_pop-Holds q x xs h in
    let (outs, held) = serve-in_turn (cq_pop q).1 xs ops rest fresh in (rw (found, outs) refl, held)
