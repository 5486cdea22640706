-- ===== src/Store/Over.antt =====
-- `do_store_item` of a key that the table has: `set` and `replace`.
use log_memcached.Base.{
  ℕ, ◌+◌, ◌^◌, ◌<◌, ◌≡◌, ◌≢◌, refl, sym, ap, ◌∙◌, Bool, true, false, none, some, List, arith,
}
use mathlib.Core.Path.{subst}
use log_memcached.Libc.{Libc}
use log_memcached.Items.{Cache, key_of, item_is_flushed, do_item_remove}
use log_memcached.Items.Link.{do_item_replace}
use log_memcached.Items.Lookup.{do_item_remove-SameKeys}
use log_memcached.Items.Map.{lookup, IsPlacedCache, hash_of}
use log_memcached.Items.Total.{>>=-eq, remove_total}
use log_memcached.Items.Replace.{Updated, IsLinked, IsLoose}
use log_memcached.Items.Kept.{replace_held}
use log_memcached.Items.Get.{
  do_item_get, held_by, is_expired, held_by-SameKeys, held_by-IsLinked, do_item_get-Held,
  Updated-SameKeys, IsPlacedCache-SameKeys,
}
use log_memcached.Items.Renew.{mark_stored}
use log_memcached.Store.{
  Verb, add, set, replace, append, prepend, cas, stored, Conn, attempt, put, finish, do_store_item,
}
use log_memcached.Store.Set.{mark_stored-SameKeys}

-- the commands that overwrite a key that is there
abbrev pub overwrites : Verb → Bool
overwrites add = false
overwrites set = true
overwrites replace = true
overwrites append = false
overwrites prepend = false
overwrites cas = false

held_by_others : (s : Cache) (o p : ℕ) → p ≢ o → (held_by s o).metas p ≡ s.metas p
held_by_others s o p ne = ground (arith, ne)

held_by_count :
    (s : Cache) (o : ℕ)
    → (s.metas o).refcount + 1 < 2 ^ 16
    → ((held_by s o).metas o).refcount ≡ (s.metas o).refcount + 1
held_by_count s o small = ground arith

module _ ⦃libc : Libc⦄ (strtoul : List ℕ → ℕ) (pause : Cache → Cache) (hash : List ℕ → ℕ) where
  attempt_over :
      (comm : Verb) (s : Cache) (c : Conn) (it o hv : ℕ)
      → overwrites comm ≡ true
      → attempt strtoul pause hash comm s c it (some o) hv
        ≡ put strtoul pause hash s c it (some o) none hv
  unfolding attempt
  attempt_over add s c it o hv e = cc
  attempt_over set s c it o hv e = refl
  attempt_over replace s c it o hv e = refl
  attempt_over append s c it o hv e = cc
  attempt_over prepend s c it o hv e = cc
  attempt_over cas s c it o hv e = cc

  -- the store itself, once the get has taken its reference
  swap :
      (s : Cache) (it o : ℕ)
      → IsPlacedCache hash s
      → IsLinked hash s o
      → IsLoose hash s it
      → key_of s it ≡ key_of s o
      → 1 < (s.metas o).refcount
      → (s.metas o).refcount < 2 ^ 16
      → (s₁ : Cache) × (s₂ : Cache) × (do_item_replace s o it (hash_of hash s o) ≡ some s₁)
        × (do_item_remove s₁ o ≡ some s₂)
        × Updated hash s (key_of s o) (some it) s₂
  swap s it o v l n same held small =
      let (s₁, e, u, left) = replace_held hash s o it v l n same held small in
      let (s₂, gone) = remove_total s₁ o left.unlinked left.used (omega (arith, left.fewer)) in
      (
        s₁,
        s₂,
        e,
        gone,
        Updated-SameKeys hash s s s₁ s₂ (key_of s o) (some it) (refl, λ p. refl) u
            (do_item_remove-SameKeys s₁ s₂ o gone),
      )

  -- On a well-placed table, do_store_item with set or replace of a loose item, whose key is that
  -- of a linked item that is in use, has from one reference to two less than 2^16, is the one
  -- found under its key and is neither flushed nor expired, fails no assertion and answers STORED;
  -- the key then gives the new item, every other lookup is as before, and no key in memory
  -- changes.
  pub do_store_item-overwrites :
      (comm : Verb) (s : Cache) (c : Conn) (it o : ℕ)
      → overwrites comm ≡ true
      → IsPlacedCache hash s
      → IsLinked hash s o
      → IsLoose hash s it
      → key_of s it ≡ key_of s o
      → (s.metas o).refcount + 1 < 2 ^ 16
      → item_is_flushed (held_by s o) o ≡ false
      → is_expired (held_by s o) o ≡ false
      → (c' : Conn) × (s' : Cache) × (do_store_item strtoul pause hash comm s c it
            (hash_of hash s it)
          ≡ some (stored, c', s'))
        × Updated hash s (key_of s it) (some it) s'
  unfolding do_store_item put finish
  do_store_item-overwrites comm s c it o over v l n same small fresh alive =
      let s₁ = held_by s o in
      let keys = held_by-SameKeys s o in
      let other : it ≢ o = λ e. ground (arith, l.linked, n.unlinked) in
      let others = held_by_others s o it other in
      let count = held_by_count s o small in
      let key : key_of s₁ it ≡ key_of s₁ o = keys.1 it ∙ same ∙ sym (keys.1 o) in
      let (s₂, s₃, e, gone, u) =
        swap s₁ it o (IsPlacedCache-SameKeys hash s s₁ keys v) (held_by-IsLinked hash s o l small)
          (record { unlinked = rw others n.unlinked; used = rw others n.used }) key
          (omega (arith, count, l.referenced)) (omega (arith, count)) in
      let hashed : hash_of hash s₁ o ≡ hash_of hash s it = ap hash (keys.1 o ∙ sym same) in
      let e' : do_item_replace s₁ o it (hash_of hash s it) ≡ some s₂ =
        subst (λ (h : ℕ). do_item_replace s₁ o it h ≡ some s₂) hashed e in
      let found : lookup hash s (key_of s it) ≡ some o =
        subst (λ (q : List ℕ). lookup hash s q ≡ some o) (sym same) l.found in
      (
        _,
        mark_stored s₃ it,
        >>=-eq (do_item_get s (key_of s it) (hash_of hash s it)) _ (some o, s₁)
            (do_item_get-Held hash s (key_of s it) o found fresh alive).0
            (>>=-eq (attempt strtoul pause hash comm s₁ c it (some o) (hash_of hash s it)) _ _
              (attempt_over comm s₁ c it o (hash_of hash s it) over
                ∙ >>=-eq (do_item_replace s₁ o it (hash_of hash s it)) _ s₂ e' refl)
              (>>=-eq (do_item_remove s₂ o) _ s₃ gone refl)),
        subst (λ (q : List ℕ). Updated hash s q (some it) (mark_stored s₃ it)) (keys.1 o ∙ sym same)
            (Updated-SameKeys hash s s₁ s₃ (mark_stored s₃ it) (key_of s₁ o) (some it) keys u
              (mark_stored-SameKeys s₃ it)),
      )
