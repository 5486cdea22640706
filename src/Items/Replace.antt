-- ===== src/Items/Replace.antt =====
-- `do_item_link`, `do_item_unlink` and `do_item_replace` on the items that the program gives them.
use log_memcached.Base.{
  ℕ, ◌<◌, ◌≡◌, ◌≢◌, refl, true, false, Option, none, some, List, arith, if◌then◌else◌, list_eq,
}
use log_memcached.Items.{Cache, key_of}
use log_memcached.Items.Link.{do_item_link, do_item_unlink, do_item_replace}
use log_memcached.Items.Map.{
  lookup, IsPlacedCache, hash_of, link-IsPlacedCache, unlink-IsPlacedCache, replace-IsPlacedCache,
}
use log_memcached.Items.Total.{link_total, unlink_total, assert-eq, >>=-eq}
use log_memcached.Items.Others.{do_item_unlink-SameFlags}

module _ (hash : List ℕ → ℕ) where
  -- `s'` is `s` with `r` under `key`, and well placed.
  pub record Updated (s : Cache) (key : List ℕ) (r : Option ℕ) (s' : Cache) : Type 0 where
    pub placed : IsPlacedCache hash s'
    pub reads : (q : List ℕ) → lookup hash s' q ≡ (if list_eq q key then r else lookup hash s q)
    pub keys : (p : ℕ) → key_of s' p ≡ key_of s p

  -- an item that the table may hold, or that may go into it
  pub record IsLinked (s : Cache) (it : ℕ) : Type 0 where
    pub found : lookup hash s (key_of s it) ≡ some it
    pub linked : (s.metas it).it_flags.linked ≡ true
    pub used : (s.metas it).it_flags.slabbed ≡ false
    pub referenced : 0 < (s.metas it).refcount

  pub record IsLoose (s : Cache) (it : ℕ) : Type 0 where
    pub unlinked : (s.metas it).it_flags.linked ≡ false
    pub used : (s.metas it).it_flags.slabbed ≡ false

  -- On a well-placed table that does not have its key, do_item_link of a loose item fails no
  -- assertion; the key then gives the item, every other lookup is as before, and no key in memory
  -- changes.
  pub do_item_link-Updated :
      (s : Cache) (it : ℕ)
      → IsPlacedCache hash s
      → IsLoose s it
      → lookup hash s (key_of s it) ≡ none
      → (s' : Cache) × (do_item_link s it (hash_of hash s it) ≡ some s')
        × Updated s (key_of s it) (some it) s'
  do_item_link-Updated s it v l fresh =
      let (s', e) = link_total s it (hash_of hash s it) l.unlinked l.used in
      let (placed, reads, keys) = link-IsPlacedCache hash s s' it v fresh e in
      (s', e, record { placed = placed; reads = reads; keys = keys })

  -- On a well-placed table, do_item_unlink of a linked item that is in use, has a reference and is
  -- the one found under its key fails no assertion; the key then gives nothing, every other lookup
  -- is as before, and no key in memory changes.
  pub do_item_unlink-Updated :
      (s : Cache) (it : ℕ)
      → IsPlacedCache hash s
      → IsLinked s it
      → (s' : Cache) × (do_item_unlink s it (hash_of hash s it) ≡ some s')
        × Updated s (key_of s it) none s'
  do_item_unlink-Updated s it v l =
      let (s', e) = unlink_total hash s it v l.found l.linked l.used l.referenced in
      let (placed, reads, keys) = unlink-IsPlacedCache hash s s' it v l.found l.linked e in
      (s', e, record { placed = placed; reads = reads; keys = keys })

  -- On a well-placed table, do_item_replace of a linked item that is in use, has a reference and
  -- is the one found under its key by a loose item with the same key fails no assertion; the key
  -- then gives the new item, every other lookup is as before, and no key in memory changes.
  pub do_item_replace-Updated :
      (s : Cache) (it new_it : ℕ)
      → IsPlacedCache hash s
      → IsLinked s it
      → IsLoose s new_it
      → key_of s new_it ≡ key_of s it
      → (s' : Cache) × (do_item_replace s it new_it (hash_of hash s it) ≡ some s')
        × Updated s (key_of s it) (some new_it) s'
  unfolding do_item_replace
  do_item_replace-Updated s it new_it v l n same =
      let hv = hash_of hash s it in
      let (s₁, out) = unlink_total hash s it v l.found l.linked l.used l.referenced in
      let other : new_it ≢ it = λ e. ground (arith, l.linked, n.unlinked) in
      let flags = do_item_unlink-SameFlags s s₁ it hv l.linked out new_it other in
      let (s', into) = link_total s₁ new_it hv (rw flags n.unlinked) (rw flags n.used) in
      let e : do_item_replace s it new_it hv ≡ some s' =
        assert-eq _ _ (rw l.used refl) (>>=-eq _ _ s₁ out into) in
      let (placed, reads, keys) =
        replace-IsPlacedCache hash s s' it new_it v l.found l.linked same e in
      (s', e, record { placed = placed; reads = reads; keys = keys })
