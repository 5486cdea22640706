-- ===== src/Replication/Backup.antt =====
-- The state of a backup between two items of the log.
use log_memcached.Base.{ℕ, ◌≡◌, ◌≢◌, true, false, Option, none, some, List, [], ◌∷◌}
use log_memcached.Items.{Cache}
use log_memcached.Items.Map.{lookup, IsPlacedCache}

-- an item that a lookup gives: linked, and referenced by the table and from its allocation
pub record InTable (s : Cache) (it : ℕ) : Type 0 where
  pub linked : (s.metas it).it_flags.linked ≡ true
  pub used : (s.metas it).it_flags.slabbed ≡ false
  pub counted : (s.metas it).refcount ≡ 2

-- The free metadata from a pointer on, each once.
abbrev pub Free : Cache → Option ℕ → List ℕ → Type 0
Free s p [] = p ≡ none
Free s p (x ∷ xs) =
    (p ≡ some x)
    × ((s.metas x).it_flags.slabbed ≡ true)
    × ((s.metas x).it_flags.linked ≡ false)
    × Free s (s.metas x).next_free xs

abbrev pub Outside : ℕ → List ℕ → Type 0
Outside x [] = Unit {0}
Outside x (y ∷ ys) = (x ≢ y) × Outside x ys

abbrev pub Distinct : List ℕ → Type 0
Distinct [] = Unit {0}
Distinct (x ∷ xs) = Outside x xs × Distinct xs

module _ (hash : List ℕ → ℕ) where
  pub record IsBackup (s : Cache) (free : List ℕ) : Type 0 where
    pub placed : IsPlacedCache hash s
    pub in_table : (q : List ℕ) (it : ℕ) → lookup hash s q ≡ some it → InTable s it
    pub free_list : Free s s.first_free free
    pub once : Distinct free
