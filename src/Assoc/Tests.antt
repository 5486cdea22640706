-- ===== src/Assoc/Tests.antt =====
-- The theorems on assoc.c at a table of two buckets that is growing to four.
use log_memcached.Base.{
  ℕ, ◌≡◌, refl, true, false, some, List, [], ◌∷◌, arith, if◌then◌else◌, list_eq,
}
use log_memcached.Assoc.{Table, HashStats, init, insert, expand, find}
use log_memcached.Assoc.Placed.{IsPlaced, init-IsPlaced, expand-IsPlaced}
use log_memcached.Assoc.Update.{Deleted, insert-IsPlaced, delete-Deleted}
use log_memcached.Assoc.Grow.{Ended, rounds, rounds-IsPlaced}

abbrev key_of : ℕ → List ℕ
key_of it = it ∷ []

abbrev hash : List ℕ → ℕ
hash [] = 0
hash (c ∷ key) = c

abbrev no_stats : HashStats
no_stats = record { hash_power_level = 0; hash_bytes = 0; hash_is_expanding = false }

abbrev one_item : Table
one_item = insert (init 1 no_stats) 3 3

abbrev growing : Table
growing = expand true one_item

one_item-IsPlaced : IsPlaced key_of hash one_item
unfolding init find
one_item-IsPlaced =
    (insert-IsPlaced key_of hash (init 1 no_stats) 3 (init-IsPlaced key_of hash 1 no_stats) refl).0

growing-IsPlaced : IsPlaced key_of hash growing
unfolding init insert
growing-IsPlaced = expand-IsPlaced key_of hash one_item one_item-IsPlaced true refl (omega arith)

insert-IsPlaced_example :
    IsPlaced key_of hash (insert growing 5 5)
    × ((q : List ℕ)
        → find key_of (insert growing 5 5) q (hash q)
          ≡ (if list_eq q (5 ∷ []) then some 5 else find key_of growing q (hash q)))
unfolding init insert expand find
insert-IsPlaced_example = insert-IsPlaced key_of hash growing 5 growing-IsPlaced refl

delete-Deleted_example : (t' : Table) × Deleted key_of hash growing (3 ∷ []) t'
unfolding init insert expand find
delete-Deleted_example = delete-Deleted key_of hash growing (3 ∷ []) 3 growing-IsPlaced refl

rounds-IsPlaced_example : Ended key_of hash growing (rounds key_of hash 2 growing)
unfolding init insert expand
rounds-IsPlaced_example = rounds-IsPlaced key_of hash 2 growing growing-IsPlaced (omega arith)
