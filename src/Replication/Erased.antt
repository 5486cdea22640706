-- ===== src/Replication/Erased.antt =====
-- A deletion that a backup replays.
use log_memcached.Base.{
  ℕ, ◌≤◌, length, ◌≡◌, ◌≢◌, refl, sym, ap, ◌∙◌, inl, inr, true, false, not, ltb, Option, none, some,
  List, [], ◌∷◌, arith, if◌then◌else◌, list_eq, list_eq_iff, ◌==◌, ◌>>=◌, Option-cases, Bool-cases,
}
use mathlib.Core.Path.{subst}
use log_memcached.Assoc.Rekey.{find-key}
use log_memcached.Items.{Cache, Metadata, key_of, freelist_free, item_free, do_item_remove}
use log_memcached.Items.Link.{do_item_unlink}
use log_memcached.Items.Lookup.{dropped, do_item_remove-SameKeys, if-cases}
use log_memcached.Items.Map.{lookup, IsPlacedCache, hash_of, unlink-IsPlacedCache}
use log_memcached.Items.Get.{lookup-SameKeys, IsPlacedCache-SameKeys}
use log_memcached.Items.Held.{unlink_held}
use log_memcached.Items.Total.{>>=-eq, assert-eq, if-true}
use log_memcached.Replication.{replay_delete}
use log_memcached.Replication.Backup.{InTable, Free, IsBackup}
use log_memcached.Replication.Stored.{SameMeta, key_at}
use log_memcached.Replication.Steps.{Free-kept, used-Outside, InTable-SameMeta, other_key}

-- `s'` is `s` with the metadata `it` at the head of the free list.
pub record Freed (s : Cache) (it : ℕ) (s' : Cache) : Type 0 where
  pub first_free : s'.first_free ≡ some it
  pub next_free : (s'.metas it).next_free ≡ s.first_free
  pub slabbed : (s'.metas it).it_flags.slabbed ≡ true
  pub unlinked : (s'.metas it).it_flags.linked ≡ false
  pub others : (x : ℕ) → x ≢ it → SameMeta (s.metas x) (s'.metas x)
  pub log : s'.log ≡ s.log

freelist_free-Freed :
    (s : Cache) (it : ℕ) → s.first_free ≢ some it → Freed s it (freelist_free s it)
unfolding freelist_free
freelist_free-Freed s it out = record {
  first_free = ground arith;
  next_free = ground arith;
  slabbed = ground arith;
  unlinked = ground arith;
  others = λ x ne. record {
    it_flags = ground arith;
    refcount = ground arith;
    item = ground arith;
    next_free = ground arith;
  };
  log = ground arith;
}

dropped-Freed : (s s' : Cache) (it : ℕ) → Freed (dropped s it) it s' → Freed s it s'
dropped-Freed s s' it f = record {
  first_free = f.first_free;
  next_free = f.next_free;
  slabbed = f.slabbed;
  unlinked = f.unlinked;
  others = λ x ne.
      let same : (dropped s it).metas x ≡ s.metas x = ground arith in
      subst (λ (m : Metadata). SameMeta m (s'.metas x)) same (f.others x ne);
  log = f.log;
}

-- The last reference frees the metadata.
pub remove_last :
    (s : Cache) (it : ℕ)
    → (s.metas it).it_flags.linked ≡ false
    → (s.metas it).it_flags.slabbed ≡ false
    → (s.metas it).refcount ≡ 1
    → s.first_free ≢ some it
    → (s' : Cache) × (do_item_remove s it ≡ some s') × Freed s it s'
unfolding do_item_remove item_free
remove_last s it unlinked used one out =
    let a : not (s.metas it).it_flags.slabbed ≡ true = rw used refl in
    let b : ltb 0 (s.metas it).refcount ≡ true = rw one refl in
    let c : not ((dropped s it).metas it).it_flags.linked ≡ true = ground arith in
    let last : ((dropped s it).metas it).refcount == 0 ≡ true = ground (arith, one) in
    (
      freelist_free (dropped s it) it,
      assert-eq _ _ a
          (assert-eq _ _ b (if-true _ _ _ last (assert-eq _ _ c (assert-eq _ _ last refl)))),
      dropped-Freed s _ it (freelist_free-Freed (dropped s it) it out),
    )

used_head :
    (s : Cache) (o : ℕ) (p : Option ℕ) (xs : List ℕ)
    → (s.metas o).it_flags.slabbed ≡ false
    → Free s p xs
    → p ≢ some o
used_head s o p [] used f = λ e. cc
used_head s o p (x ∷ xs) used f =
    λ e. let same : x ≡ o = (let h = f.0 in cc) in let a = f.1 in ground (arith, a, used, same)

module _ (hash : List ℕ → ℕ) where
  replay_delete-none :
      (s : Cache) (p : ℕ) → lookup hash s (key_at hash s p) ≡ none → replay_delete hash s p ≡ some s
  unfolding replay_delete
  replay_delete-none s p missing = ground (arith, missing)

  replay_delete-some :
      (s : Cache) (p o : ℕ)
      → lookup hash s (key_at hash s p) ≡ some o
      → replay_delete hash s p
        ≡ (do_item_unlink s o (hash_of hash s o) >>= (λ s'. do_item_remove s' o))
  unfolding replay_delete
  replay_delete-some s p o found = ground (arith, found)

  -- `s'` is `s` without the key of the item at `p`.
  pub record Erased (s : Cache) (p : ℕ) (s' : Cache) : Type 0 where
    pub placed : IsPlacedCache hash s'
    pub reads :
        (q : List ℕ)
        → lookup hash s' q ≡ (if list_eq q (key_at hash s p) then none else lookup hash s q)
    pub others :
        (x : ℕ) → lookup hash s (key_at hash s p) ≢ some x → SameMeta (s.metas x) (s'.metas x)
    pub log : s'.log ≡ s.log

  module _ (s : Cache) (free : List ℕ) (b : IsBackup hash s free) (p : ℕ) where
    Erased-InTable :
        (s' : Cache)
        → Erased s p s'
        → (q : List ℕ) (x : ℕ) → lookup hash s' q ≡ some x
        → InTable s' x
    Erased-InTable s' r q x found =
        elim (if-cases (list_eq q (key_at hash s p)) none (lookup hash s q)
          (sym (r.reads q) ∙ found)) [
            | inl (_, e) ↦ cc
            | inr (ne, e) ↦
                InTable-SameMeta s s' x (b.in_table q x e)
                  (r.others x (other_key hash s q (key_at hash s p) x ne e))
          ]

    found-Erased :
        (o : ℕ)
        → lookup hash s (key_at hash s p) ≡ some o
        → (s' : Cache) × (replay_delete hash s p ≡ some s')
          × Erased s p s'
          × IsBackup hash s' (o ∷ free)
    found-Erased o found =
        let i = b.in_table (key_at hash s p) o found in
        let k : key_of s o ≡ key_at hash s p =
          find-key (key_of s) s.table (key_at hash s p) (hash (key_at hash s p)) o found in
        let found' : lookup hash s (key_of s o) ≡ some o = rw k found in
        let (s₁, out, left) =
          unlink_held hash s o b.placed found' i.linked i.used
            (let c = i.counted in omega (arith, c)) (let c = i.counted in omega (arith, c)) in
        let (placed, reads, keys) = unlink-IsPlacedCache hash s s₁ o b.placed found' i.linked out in
        let outside = used-Outside s o s.first_free free i.used b.free_list in
        let (s', gone, freed) =
          remove_last s₁ o left.unlinked left.used
            (let c = i.counted in let f = left.fewer in omega (arith, c, f))
            (λ e. used_head s o s.first_free free i.used b.free_list (sym left.first_free ∙ e)) in
        let same = do_item_remove-SameKeys s₁ s' o gone in
        let others : (x : ℕ) → x ≢ o → SameMeta (s.metas x) (s'.metas x) = λ x ne.
          subst (λ (m : Metadata). SameMeta m (s'.metas x)) (left.others x ne)
            (freed.others x ne) in
        let r : Erased s p s' = record {
          placed = IsPlacedCache-SameKeys hash s₁ s' same placed;
          reads = λ q. lookup-SameKeys hash s₁ s' same q ∙ rw k at reads q;
          others = λ x ne. others x (λ e. ne (found ∙ ap some (sym e)));
          log = freed.log ∙ left.log;
        } in
        (
          s',
          replay_delete-some s p o found ∙ >>=-eq _ _ s₁ out gone,
          r,
          record {
            placed = r.placed;
            in_table = Erased-InTable s' r;
            free_list = (
              freed.first_free,
              freed.slabbed,
              freed.unlinked,
              subst (λ (q : Option ℕ). Free s' q free) (sym (freed.next_free ∙ left.first_free))
                  (Free-kept s s' o s.first_free free (λ x _ ne. others x ne) outside b.free_list),
            );
            once = (outside, b.once);
          },
        )

    missing-Erased : lookup hash s (key_at hash s p) ≡ none → Erased s p s
    missing-Erased missing = record {
      placed = b.placed;
      reads = λ q. elim (Bool-cases (list_eq q (key_at hash s p))) [
        | inl e ↦ rw e (ap (lookup hash s) ((list_eq_iff q (key_at hash s p)).0 e) ∙ missing)
        | inr e ↦ rw e refl
      ];
      others = λ x _. record { it_flags = refl; refcount = refl; item = refl; next_free = refl };
      log = refl;
    }

    -- The metadata of a deleted item joins the free list.
    pub replay_delete-Erased :
        (s' : Cache) × (free' : List ℕ) × (replay_delete hash s p ≡ some s')
        × Erased s p s'
        × IsBackup hash s' free'
        × (length free ≤ length free')
    replay_delete-Erased = elim (Option-cases (lookup hash s (key_at hash s p))) [
      | inl missing ↦
          (s, free, replay_delete-none s p missing, missing-Erased missing, b, omega arith)
      | inr (o, found) ↦
          let (s', e, r, b') = found-Erased o found in (s', o ∷ free, e, r, b', ground arith)
    ]
