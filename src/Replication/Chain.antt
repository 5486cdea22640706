-- ===== src/Replication/Chain.antt =====
-- A run of blocks that a backup replays, and the map from keys to addresses that it makes of them.
use log_memcached.Base.{
  ℕ, ◌+◌, ◌-◌, ◌%◌, ◌^◌, ◌<◌, ◌≤◌, length, ◌≡◌, ◌≢◌, refl, ap, ◌∙◌, ◌⊎◌, inl, inr, Bool, true,
  false, not, ◌&&◌, Option, none, some, List, [], ◌∷◌, arith, if◌then◌else◌, list_eq, Option-cases,
  Bool-cases,
}
use mathlib.Core.Path.{fun_ext}
use log_memcached.Base.Memory.{Memory}
use log_memcached.Memlog.{Memlog}
use log_memcached.Memlog.Header.{Flags, Item, ntotal}
use log_memcached.Items.{Cache}
use log_memcached.Items.Map.{lookup}
use log_memcached.Replication.{least, pass, replay_item}
use log_memcached.Replication.Backup.{Free, IsBackup}
use log_memcached.Replication.Stored.{key_at, Replayed, found_other}
use log_memcached.Replication.Steps.{replay_store-Replayed, other_key}
use log_memcached.Replication.Erased.{Erased, replay_delete-Erased}

-- from a key to the address of its item
abbrev pub View : Type 0
View = List ℕ → Option ℕ

-- what an item at an address does to the map
unfoldable pub apply_item : Item → ℕ → View → View
apply_item it p v q =
    let f = it.it_data_flags in
    if f.corrupted
    then v q
    else if f.deleted
    then (if list_eq q it.key then none else v q)
    else if list_eq q it.key
    then some p
    else v q

unfoldable pub apply_items : Memory Item → List ℕ → View → View
unfolding apply_item
apply_items m [] v = v
apply_items m (p ∷ ps) v = apply_items m ps (apply_item (m p) p v)

-- the size by which the replay passes an item
abbrev pub span : Item → ℕ
span it = ntotal it % 2 ^ 32

abbrev pub is_ready : Flags → Bool
is_ready f = f.stored && not f.dirty

-- where the replay stops: too few bytes, an item that is not yet whole, or no item
abbrev pub Halts : Memory Item → ℕ → ℕ → Type 0
Halts m offset size =
    (size < least)
    ⊎ (is_ready (m offset).it_data_flags ≡ false)
    ⊎ (((m offset).it_data_flags.cycle ≡ false) × (size < span (m offset)))

-- The addresses of the items that stand from `offset` on in `size` bytes, and where they end.
abbrev pub Run : Memory Item → ℕ → ℕ → List ℕ → ℕ → Type 0
Run m offset size [] end = Halts m offset size × (offset ≡ end)
Run m offset size (p ∷ ps) end =
    (p ≡ offset)
    × (least ≤ size)
    × (is_ready (m p).it_data_flags ≡ true)
    × ((m p).it_data_flags.cycle ≡ false)
    × (0 < span (m p))
    × (span (m p) ≤ size)
    × Run m (offset + span (m p)) (size - span (m p)) ps end

pass-Free : (s : Cache) (n : ℕ) (p : Option ℕ) (xs : List ℕ) → Free s p xs → Free (pass s n) p xs
unfolding pass
pass-Free s n p [] f = f
pass-Free s n p (x ∷ xs) f = (f.0, f.1, f.2, pass-Free s n (s.metas x).next_free xs f.3)

module _ (hash : List ℕ → ℕ) where
  address : Cache → Option ℕ → Option ℕ
  address s none = none
  address s (some x) = some (s.metas x).item

  -- what a client of the backup sees
  unfoldable pub view : Cache → View
  unfolding address
  view s q = address s (lookup hash s q)

  view_stored :
      (s : Cache) (it : ℕ) (free : List ℕ) (p : ℕ) (s' : Cache)
      → IsBackup hash s (it ∷ free)
      → Replayed hash s it p s'
      → (q : List ℕ) → view s' q ≡ (if list_eq q (key_at hash s p) then some p else view s q)
  unfolding view address
  view_stored s it free p s' b r q = elim (Bool-cases (list_eq q (key_at hash s p))) [
    | inl e ↦
        let found : lookup hash s' q ≡ some it = r.reads q ∙ rw e refl in
        rw (e, found) (ap some r.item)
    | inr e ↦
        let found : lookup hash s' q ≡ lookup hash s q = r.reads q ∙ rw e refl in
        elim (Option-cases (lookup hash s q)) [
          | inl missing ↦ rw (e, found, missing) refl
          | inr (x, hit) ↦
              let same =
                r.others x (found_other hash s it free b q x hit)
                  (other_key hash s q (key_at hash s p) x e hit) in
              rw (e, found, hit) (ap some same.item)
        ]
  ]

  view-Erased :
      (s : Cache) (p : ℕ) (s' : Cache)
      → Erased hash s p s'
      → (q : List ℕ) → view s' q ≡ (if list_eq q (key_at hash s p) then none else view s q)
  unfolding view address
  view-Erased s p s' r q = elim (Bool-cases (list_eq q (key_at hash s p))) [
    | inl e ↦ let found : lookup hash s' q ≡ none = r.reads q ∙ rw e refl in rw (e, found) refl
    | inr e ↦
        let found : lookup hash s' q ≡ lookup hash s q = r.reads q ∙ rw e refl in
        elim (Option-cases (lookup hash s q)) [
          | inl missing ↦ rw (e, found, missing) refl
          | inr (x, hit) ↦
              let same = r.others x (other_key hash s q (key_at hash s p) x e hit) in
              rw (e, found, hit) (ap some same.item)
        ]
  ]

  -- what one round makes of the state
  pub record Round (s : Cache) (p : ℕ) (s' : Cache) : Type 0 where
    pub views : view s' ≡ apply_item (s.log.memory p) p (view s)
    pub current : s'.log.current ≡ s.log.current
    pub memory : (a : ℕ) → a ≢ p → s'.log.memory a ≡ s.log.memory a

  unfoldable pub Stepped : Cache → ℕ → List ℕ → Type 0
  Stepped s p free =
      (s' : Cache) × (free' : List ℕ) × (replay_item hash s (s.log.memory p).it_data_flags p
        ≡ some s')
      × Round s p s'
      × IsBackup hash s' free'
      × (length free ≤ length free' + 1)

  stored_step :
      (s : Cache) (it : ℕ) (free : List ℕ) (p : ℕ)
      → IsBackup hash s (it ∷ free)
      → (s.log.memory p).it_data_flags.corrupted ≡ false
      → (s.log.memory p).it_data_flags.deleted ≡ false
      → Stepped s p (it ∷ free)
  unfolding Stepped replay_item apply_item
  stored_step s it free p b c d =
      let (s', e, r, b') = replay_store-Replayed hash s it free b p in
      (
        s',
        free,
        rw (c, d) e,
        record {
          views = fun_ext (λ q. rw (c, d) (view_stored s it free p s' b r q));
          current = r.current;
          memory = r.memory;
        },
        b',
        ground arith,
      )

  erased_step :
      (s : Cache) (free : List ℕ) (p : ℕ)
      → IsBackup hash s free
      → (s.log.memory p).it_data_flags.corrupted ≡ false
      → (s.log.memory p).it_data_flags.deleted ≡ true
      → Stepped s p free
  unfolding Stepped replay_item apply_item
  erased_step s free p b c d =
      let (s', free', e, r, b', more) = replay_delete-Erased hash s free b p in
      (
        s',
        free',
        rw (c, d) e,
        record {
          views = fun_ext (λ q. rw (c, d) (view-Erased s p s' r q));
          current = ap (λ (l : Memlog). l.current) r.log;
          memory = λ a _. ap (λ (l : Memlog). l.memory a) r.log;
        },
        b',
        omega (arith, more),
      )

  corrupted_step :
      (s : Cache) (free : List ℕ) (p : ℕ)
      → IsBackup hash s free
      → (s.log.memory p).it_data_flags.corrupted ≡ true
      → Stepped s p free
  unfolding Stepped replay_item apply_item
  corrupted_step s free p b c = (
    s,
    free,
    rw c refl,
    record { views = fun_ext (λ q. rw c refl); current = refl; memory = λ a _. refl },
    b,
    omega arith,
  )

  pub step :
      (s : Cache) (it : ℕ) (free : List ℕ) (p : ℕ)
      → IsBackup hash s (it ∷ free)
      → Stepped s p (it ∷ free)
  step s it free p b = elim (Bool-cases (s.log.memory p).it_data_flags.corrupted) [
    | inl c ↦ corrupted_step s (it ∷ free) p b c
    | inr c ↦ elim (Bool-cases (s.log.memory p).it_data_flags.deleted) [
      | inl d ↦ erased_step s (it ∷ free) p b c d
      | inr d ↦ stored_step s it free p b c d
    ]
  ]

  pub pass-IsBackup :
      (s : Cache) (free : List ℕ) (n : ℕ) → IsBackup hash s free → IsBackup hash (pass s n) free
  unfolding pass
  pass-IsBackup s free n b = record {
    placed = b.placed;
    in_table = λ q x found.
        let i = b.in_table q x found in
        record { linked = i.linked; used = i.used; counted = i.counted };
    free_list = pass-Free s n s.first_free free b.free_list;
    once = b.once;
  }
