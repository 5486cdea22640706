-- ===== src/Replication/Steps.antt =====
-- What replaying one item does to the state of a backup.
use log_memcached.Base.{
  ℕ, ◌≡◌, ◌≢◌, sym, ap, ◌∙◌, inl, inr, true, false, Option, some, List, [], ◌∷◌, arith, list_eq,
  list_eq_iff, Option-cases,
}
use mathlib.Core.Path.{subst}
use log_memcached.Memlog.Header.{Flags}
use log_memcached.Assoc.Rekey.{find-key}
use log_memcached.Items.{Cache, key_of}
use log_memcached.Items.Lookup.{if-cases}
use log_memcached.Items.Map.{lookup}
use log_memcached.Replication.{replay_store}
use log_memcached.Replication.Backup.{InTable, Free, Outside, IsBackup}
use log_memcached.Replication.Stored.{
  SameMeta, key_at, Replayed, prepared, prepared_lem, replay_store_new, replay_store_old, IsLeft,
  found_other, lookup_prepared, key_new, prepared_new, prepared_old,
}

-- The free list is kept by what leaves its metadata alone.
pub Free-kept :
    (s s' : Cache) (it : ℕ) (p : Option ℕ) (xs : List ℕ)
    → ((x : ℕ) → (s.metas x).it_flags.slabbed ≡ true → x ≢ it → SameMeta (s.metas x) (s'.metas x))
    → Outside it xs
    → Free s p xs
    → Free s' p xs
Free-kept s s' it p [] same out f = f
Free-kept s s' it p (x ∷ xs) same out f =
    let m = same x f.1 (λ e. out.0 (sym e)) in
    let rest = Free-kept s s' it (s.metas x).next_free xs same out.1 f.3 in
    (
      f.0,
      ap (λ (g : Flags). g.slabbed) m.it_flags ∙ f.1,
      ap (λ (g : Flags). g.linked) m.it_flags ∙ f.2,
      subst (λ (q : Option ℕ). Free s' q xs) (sym m.next_free) rest,
    )

pub used-Outside :
    (s : Cache) (o : ℕ) (p : Option ℕ) (xs : List ℕ)
    → (s.metas o).it_flags.slabbed ≡ false
    → Free s p xs
    → Outside o xs
used-Outside s o p [] used f = tt
used-Outside s o p (x ∷ xs) used f = (
  λ e. let a = f.1 in ground (arith, a, used),
  used-Outside s o (s.metas x).next_free xs used f.3,
)

pub InTable-SameMeta :
    (s s' : Cache) (x : ℕ) → InTable s x → SameMeta (s.metas x) (s'.metas x) → InTable s' x
InTable-SameMeta s s' x b m = record {
  linked = ap (λ (g : Flags). g.linked) m.it_flags ∙ b.linked;
  used = ap (λ (g : Flags). g.slabbed) m.it_flags ∙ b.used;
  counted = m.refcount ∙ b.counted;
}

module _ (hash : List ℕ → ℕ) where
  -- An item is found under one key only.
  pub one_key :
      (s : Cache) (q r : List ℕ) (x : ℕ)
      → lookup hash s q ≡ some x
      → lookup hash s r ≡ some x
      → q ≡ r
  one_key s q r x e f =
      sym (find-key (key_of s) s.table q (hash q) x e) ∙ find-key (key_of s) s.table r (hash r) x f

  pub other_key :
      (s : Cache) (q r : List ℕ) (x : ℕ)
      → list_eq q r ≡ false
      → lookup hash s q ≡ some x
      → lookup hash s r ≢ some x
  other_key s q r x ne e f =
      let same = one_key s q r x e f in ground (arith, same, list_eq_iff q r, ne)

  module _ (s : Cache) (it : ℕ) (free : List ℕ) (b : IsBackup hash s (it ∷ free)) (p : ℕ) where
    -- The item is stored, and the state is one between two items again.
    Replayed-IsBackup : (s' : Cache) → Replayed hash s it p s' → IsBackup hash s' free
    Replayed-IsBackup s' r = record {
      placed = r.placed;
      in_table = λ q x found.
          elim (if-cases (list_eq q (key_at hash s p)) (some it) (lookup hash s q)
            (sym (r.reads q) ∙ found)) [
              | inl (_, e) ↦ let same : it ≡ x = cc in subst (InTable s') same r.entered
              | inr (ne, e) ↦ InTable-SameMeta s s' x (b.in_table q x e) (
                  r.others x (found_other hash s it free b q x e)
                    (other_key s q (key_at hash s p) x ne e))
            ];
      free_list =
          subst (λ (o : Option ℕ). Free s' o free) (sym r.first_free)
            (Free-kept s s' it (s.metas it).next_free free
              (λ x e ne. r.others x ne (λ found.
                let u = (b.in_table (key_at hash s p) x found).used in ground (arith, u, e)))
              b.once.0 b.free_list.3);
      once = b.once.1;
    }

    pub replay_store-Replayed :
        (s' : Cache) × (replay_store hash s p ≡ some s')
        × Replayed hash s it p s'
        × IsBackup hash s' free
    replay_store-Replayed =
        let s₂ = prepared s it p in
        let r = prepared_lem s it p b.free_list.0 in
        let same = lookup_prepared hash s it free b p s₂ r in
        let key = key_new hash s it free b p s₂ r in
        elim (Option-cases (lookup hash s (key_at hash s p))) [
          | inl missing ↦
              let (s', e, w) = prepared_new hash s it free b p s₂ r missing in
              (
                s',
                replay_store_new hash s it p b.free_list.0 (rw key (same _ ∙ missing)) ∙ e,
                w,
                Replayed-IsBackup s' w,
              )
          | inr (o, found) ↦
              let (s', e, w, _) = prepared_old hash s it free b p s₂ r o found in
              (
                s',
                replay_store_old hash s it p o b.free_list.0 (rw key (same _ ∙ found)) ∙ e,
                w,
                Replayed-IsBackup s' w,
              )
        ]

    -- On such a backup, replaying a store whose key is in the table leaves the old metadata
    -- unlinked, with one reference and outside the free list, which has lost the metadata of the
    -- new item.
    pub replay_store-leaks :
        (o : ℕ)
        → lookup hash s (key_at hash s p) ≡ some o
        → (s' : Cache) × (replay_store hash s p ≡ some s')
          × IsLeft hash o s'
          × IsBackup hash s' free
          × Outside o free
    replay_store-leaks o found =
        let s₂ = prepared s it p in
        let r = prepared_lem s it p b.free_list.0 in
        let same = lookup_prepared hash s it free b p s₂ r in
        let key = key_new hash s it free b p s₂ r in
        let (s', e, w, left) = prepared_old hash s it free b p s₂ r o found in
        (
          s',
          replay_store_old hash s it p o b.free_list.0 (rw key (same _ ∙ found)) ∙ e,
          left,
          Replayed-IsBackup s' w,
          (used-Outside s o (s.metas it).next_free free (b.in_table (key_at hash s p) o found).used
              b.free_list.3),
        )
