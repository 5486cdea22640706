-- ===== src/Items/Map.antt =====
-- `do_item_link`, `do_item_unlink` and `do_item_replace` against the map from keys to items.
use log_memcached.Base.{
  ℕ, ◌≡◌, refl, ◌∙◌, true, not, Option, none, some, List, arith, if◌then◌else◌, list_eq,
  list_eq_iff,
}
use mathlib.Core.Path.{fun_ext}
use log_memcached.Assoc
use log_memcached.Assoc.{Table}
use log_memcached.Assoc.Placed.{IsPlaced}
use log_memcached.Assoc.Update.{insert-IsPlaced, delete-Deleted}
use log_memcached.Items.{Cache, key_of}
use log_memcached.Items.Link.{do_item_link, do_item_unlink, do_item_replace}
use log_memcached.Items.Lookup.{assert-some, >>=-some, link_table, unlink_table}

module _ (hash : List ℕ → ℕ) where
  -- what a client of the table sees: the item under a key
  abbrev pub lookup : Cache → List ℕ → Option ℕ
  lookup s q = Assoc.find (key_of s) s.table q (hash q)

  abbrev pub IsPlacedCache : Cache → Type 0
  IsPlacedCache s = IsPlaced (key_of s) hash s.table

  abbrev pub hash_of : Cache → ℕ → ℕ
  hash_of s it = hash (key_of s it)

  -- A new key is found after `do_item_link`, and every other lookup is as before.
  pub link-IsPlacedCache :
      (s s' : Cache) (it : ℕ)
      → IsPlacedCache s
      → lookup s (key_of s it) ≡ none
      → do_item_link s it (hash_of s it) ≡ some s'
      → IsPlacedCache s'
        × ((q : List ℕ) → lookup s' q ≡ (if list_eq q (key_of s it) then some it else lookup s q))
        × ((p : ℕ) → key_of s' p ≡ key_of s p)
  link-IsPlacedCache s s' it v fresh e =
      let (t, k) = link_table s s' it (hash_of s it) e in
      let keys : key_of s' ≡ key_of s = fun_ext k in
      let (placed, reads) = insert-IsPlaced (key_of s) hash s.table it v fresh in
      rw (t, keys) (placed, reads, λ p. refl)

  -- After `do_item_unlink` of the item under a key the key is free.
  pub unlink-IsPlacedCache :
      (s s' : Cache) (it : ℕ)
      → IsPlacedCache s
      → lookup s (key_of s it) ≡ some it
      → (s.metas it).it_flags.linked ≡ true
      → do_item_unlink s it (hash_of s it) ≡ some s'
      → IsPlacedCache s'
        × ((q : List ℕ) → lookup s' q ≡ (if list_eq q (key_of s it) then none else lookup s q))
        × ((p : ℕ) → key_of s' p ≡ key_of s p)
  unlink-IsPlacedCache s s' it v found linked e =
      let (del, k) = unlink_table s s' it (hash_of s it) linked e in
      let keys : key_of s' ≡ key_of s = fun_ext k in
      let (t, d) = delete-Deleted (key_of s) hash s.table (key_of s it) it v found in
      let same : s'.table ≡ t = ground (arith, d.returns) in
      rw (same, keys) (d.placed, d.reads, λ p. refl)

  -- `do_item_replace` puts the new item in the place of the old one.
  pub replace-IsPlacedCache :
      (s s' : Cache) (it new_it : ℕ)
      → IsPlacedCache s
      → lookup s (key_of s it) ≡ some it
      → (s.metas it).it_flags.linked ≡ true
      → key_of s new_it ≡ key_of s it
      → do_item_replace s it new_it (hash_of s it) ≡ some s'
      → IsPlacedCache s'
        × ((q : List ℕ)
            → lookup s' q ≡ (if list_eq q (key_of s it) then some new_it else lookup s q))
        × ((p : ℕ) → key_of s' p ≡ key_of s p)
  unfolding do_item_replace
  replace-IsPlacedCache s s' it new_it v found linked same e =
      let (_, e₁) = assert-some (not (s.metas it).it_flags.slabbed) _ e in
      let (s₁, out, into) = >>=-some (do_item_unlink s it (hash_of s it)) _ e₁ in
      let (v₁, reads₁, k₁) = unlink-IsPlacedCache s s₁ it v found linked out in
      let key : key_of s₁ new_it ≡ key_of s it = k₁ new_it ∙ same in
      let free : lookup s₁ (key_of s₁ new_it) ≡ none =
        rw key (reads₁ (key_of s it) ∙ ground (arith, list_eq_iff (key_of s it) (key_of s it))) in
      let (v₂, reads₂, k₂) = link-IsPlacedCache s₁ s' new_it v₁ free (rw key into) in
      (v₂, λ q. reads₂ q ∙ ground (arith, reads₁ q, key), λ p. k₂ p ∙ k₁ p)
