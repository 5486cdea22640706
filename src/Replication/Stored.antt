-- ===== src/Replication/Stored.antt =====
-- A plain item that a backup replays.
use log_memcached.Base.{
  ℕ, ◌≡◌, ◌≢◌, refl, sym, ap, ◌∙◌, false, none, some, List, ◌∷◌, arith, if◌then◌else◌, list_eq,
}
use mathlib.Core.Path.{subst}
use log_memcached.Memlog.{Memlog}
use log_memcached.Memlog.Header.{Flags}
use log_memcached.Assoc
use log_memcached.Assoc.Rekey.{find-key, find-rekey, IsPlaced-rekey}
use log_memcached.Items.{Cache, Metadata, key_of, set_meta}
use log_memcached.Items.Alloc.{freelist_alloc}
use log_memcached.Items.Link.{do_item_link, do_item_replace}
use log_memcached.Items.Map.{lookup, IsPlacedCache, hash_of}
use log_memcached.Items.Replace.{IsLoose, do_item_link-Updated}
use log_memcached.Items.Kept.{do_item_link-Entered, do_item_link_metas, replace_held}
use log_memcached.Replication.{replayed_meta, replay_store}
use log_memcached.Replication.Backup.{InTable, IsBackup}

-- the state when the metadata of the item at `p` has been filled in
abbrev pub prepared : Cache → ℕ → ℕ → Cache
prepared s it p =
    let s₁ = (freelist_alloc s).1 in
    set_meta s₁ it (replayed_meta (s₁.metas it) s₁.settings.use_cas p)

pub record SameMeta (m m' : Metadata) : Type 0 where
  pub it_flags : m'.it_flags ≡ m.it_flags
  pub refcount : m'.refcount ≡ m.refcount
  pub item : m'.item ≡ m.item
  pub next_free : m'.next_free ≡ m.next_free

pub record Prepared (s : Cache) (it p : ℕ) (s' : Cache) : Type 0 where
  pub table : s'.table ≡ s.table
  pub log : s'.log ≡ s.log
  pub first_free : s'.first_free ≡ (s.metas it).next_free
  pub unlinked : (s'.metas it).it_flags.linked ≡ (s.metas it).it_flags.linked
  pub used : (s'.metas it).it_flags.slabbed ≡ false
  pub counted : (s'.metas it).refcount ≡ 1
  pub item : (s'.metas it).item ≡ p
  pub others : (x : ℕ) → x ≢ it → SameMeta (s.metas x) (s'.metas x)

pub prepared_lem :
    (s : Cache) (it p : ℕ) → s.first_free ≡ some it → Prepared s it p (prepared s it p)
unfolding freelist_alloc
prepared_lem s it p e = record {
  table = ground arith;
  log = ground arith;
  first_free = ground arith;
  unlinked = ground arith;
  used = ground arith;
  counted = ground arith;
  item = ground arith;
  others = λ x ne. record {
    it_flags = ground arith;
    refcount = ground arith;
    item = ground arith;
    next_free = ground arith;
  };
}

module _ (hash : List ℕ → ℕ) where
  pub replay_store_new :
      (s : Cache) (it p : ℕ)
      → s.first_free ≡ some it
      → lookup hash (prepared s it p) (key_of (prepared s it p) it) ≡ none
      → replay_store hash s p
        ≡ do_item_link (prepared s it p) it (hash_of hash (prepared s it p) it)
  unfolding replay_store
  replay_store_new s it p e missing = ground arith

  pub replay_store_old :
      (s : Cache) (it p o : ℕ)
      → s.first_free ≡ some it
      → lookup hash (prepared s it p) (key_of (prepared s it p) it) ≡ some o
      → replay_store hash s p
        ≡ do_item_replace (prepared s it p) o it (hash_of hash (prepared s it p) it)
  unfolding replay_store
  replay_store_old s it p o e found = ground arith

  -- the key of the item at an address
  abbrev pub key_at : Cache → ℕ → List ℕ
  key_at s p = (s.log.memory p).key

  -- `s'` is `s` with the metadata `it` in the table for the item at `p`.
  pub record Replayed (s : Cache) (it p : ℕ) (s' : Cache) : Type 0 where
    pub placed : IsPlacedCache hash s'
    pub reads :
        (q : List ℕ)
        → lookup hash s' q ≡ (if list_eq q (key_at s p) then some it else lookup hash s q)
    pub entered : InTable s' it
    pub item : (s'.metas it).item ≡ p
    pub first_free : s'.first_free ≡ (s.metas it).next_free
    pub others :
        (x : ℕ) → x ≢ it → lookup hash s (key_at s p) ≢ some x → SameMeta (s.metas x) (s'.metas x)
    pub current : s'.log.current ≡ s.log.current
    pub memory : (a : ℕ) → a ≢ p → s'.log.memory a ≡ s.log.memory a

  -- metadata that nothing names and that has a reference nevertheless
  pub record IsLeft (o : ℕ) (s' : Cache) : Type 0 where
    pub unlinked : (s'.metas o).it_flags.linked ≡ false
    pub used : (s'.metas o).it_flags.slabbed ≡ false
    pub counted : (s'.metas o).refcount ≡ 1

  module _ (s : Cache) (it : ℕ) (free : List ℕ) (b : IsBackup hash s (it ∷ free)) where
    pub found_other : (q : List ℕ) (x : ℕ) → lookup hash s q ≡ some x → x ≢ it
    found_other q x found e =
        let u = (b.in_table q x found).used in let f = b.free_list.1 in ground (arith, u, f, e)

    module _ (p : ℕ) (s₂ : Cache) (r : Prepared s it p s₂) where
      key_other : (x : ℕ) → x ≢ it → key_of s₂ x ≡ key_of s x
      key_other x ne = let i = (r.others x ne).item in let l = r.log in ground (arith, i, l)

      pub key_new : key_of s₂ it ≡ key_at s p
      key_new = let i = r.item in let l = r.log in ground (arith, i, l)

      key_kept :
          (x : ℕ)
          → Assoc.find (key_of s) s.table (key_of s x) (hash (key_of s x)) ≡ some x
          → key_of s₂ x ≡ key_of s x
      key_kept x found = key_other x (found_other (key_of s x) x found)

      pub lookup_prepared : (q : List ℕ) → lookup hash s₂ q ≡ lookup hash s q
      lookup_prepared q =
          rw r.table (find-rekey (key_of s) (key_of s₂) hash s.table b.placed key_kept q)

      prepared-IsPlacedCache : IsPlacedCache hash s₂
      prepared-IsPlacedCache =
          rw r.table (IsPlaced-rekey (key_of s) (key_of s₂) hash s.table b.placed key_kept)

      prepared-IsLoose : IsLoose hash s₂ it
      prepared-IsLoose = record { unlinked = r.unlinked ∙ b.free_list.2; used = r.used }

      pub prepared_new :
          lookup hash s (key_at s p) ≡ none
          → (s' : Cache) × (do_item_link s₂ it (hash_of hash s₂ it) ≡ some s') × Replayed s it p s'
      prepared_new missing =
          let (s', e, u) =
            do_item_link-Updated hash s₂ it prepared-IsPlacedCache prepared-IsLoose
              (rw key_new (lookup_prepared (key_at s p) ∙ missing)) in
          let n = do_item_link-Entered s₂ s' it (hash_of hash s₂ it) e in
          let kept =
            λ (x : ℕ) (ne : x ≢ it). do_item_link_metas s₂ s' it (hash_of hash s₂ it) x e ne in
          (
            s',
            e,
            record {
              placed = u.placed;
              reads = λ q.
                  let a = u.reads q in
                  let c = lookup_prepared q in let k = key_new in rw (k, c) at a;
              entered = record {
                linked = n.linked;
                used = n.used;
                counted = n.counted ∙ rw r.counted refl;
              };
              item = n.item ∙ r.item;
              first_free = n.first_free ∙ r.first_free;
              others = λ x ne _. subst (SameMeta (s.metas x)) (sym (kept x ne)) (r.others x ne);
              current = n.current ∙ ap (λ (l : Memlog). l.current) r.log;
              memory = λ a ne.
                  n.memory a (λ e'. ne (e' ∙ r.item)) ∙ ap (λ (l : Memlog). l.memory a) r.log;
            },
          )

      pub prepared_old :
          (o : ℕ)
          → lookup hash s (key_at s p) ≡ some o
          → (s' : Cache) × (do_item_replace s₂ o it (hash_of hash s₂ it) ≡ some s')
            × Replayed s it p s'
            × IsLeft o s'
      prepared_old o found =
          let ne = found_other (key_at s p) o found in
          let old = b.in_table (key_at s p) o found in
          let same = r.others o ne in
          let k : key_of s₂ o ≡ key_at s p =
            key_other o ne ∙ find-key (key_of s) s.table (key_at s p) (hash (key_at s p)) o found in
          let counted : (s₂.metas o).refcount ≡ 2 = same.refcount ∙ old.counted in
          let (s', e, u, w) =
            replace_held hash s₂ o it prepared-IsPlacedCache
              (record {
                found = rw k (lookup_prepared (key_at s p) ∙ found);
                linked = ap (λ (f : Flags). f.linked) same.it_flags ∙ old.linked;
                used = ap (λ (f : Flags). f.slabbed) same.it_flags ∙ old.used;
                referenced = omega (arith, counted);
              })
              prepared-IsLoose (key_new ∙ sym k) (omega (arith, counted))
              (omega (arith, counted)) in
          let n = w.entered in
          let h : hash_of hash s₂ o ≡ hash_of hash s₂ it = ap hash (k ∙ sym key_new) in
          (
            s',
            subst (λ (v : ℕ). do_item_replace s₂ o it v ≡ some s') h e,
            record {
              placed = u.placed;
              reads = λ q. let a = u.reads q in let c = lookup_prepared q in rw (k, c) at a;
              entered = record {
                linked = n.linked;
                used = n.used;
                counted = n.counted ∙ rw r.counted refl;
              };
              item = n.item ∙ r.item;
              first_free = n.first_free ∙ r.first_free;
              others = λ x ne out.
                  subst (SameMeta (s.metas x))
                    (sym (w.others x (λ same_it. out (found ∙ ap some (sym same_it))) ne))
                    (r.others x ne);
              current = n.current ∙ ap (λ (l : Memlog). l.current) r.log;
              memory = λ a ne.
                  n.memory a (λ e'. ne (e' ∙ r.item)) ∙ ap (λ (l : Memlog). l.memory a) r.log;
            },
            record {
              unlinked = w.unlinked;
              used = w.used;
              counted = let f = w.fewer in omega (arith, f, counted);
            },
          )
