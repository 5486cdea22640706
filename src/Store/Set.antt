-- ===== src/Store/Set.antt =====
-- `do_store_item` of a key that is not in the table.
use log_memcached.Base.{ℕ, ◌≡◌, refl, ◌∙◌, Bool, true, false, none, some, List, arith, ◌>>=◌}
use log_memcached.Base.Words.{add64}
use log_memcached.Libc.{Libc}
use log_memcached.Items.{Cache, key_of}
use log_memcached.Items.Link.{do_item_link}
use log_memcached.Items.Lookup.{SameKeys}
use log_memcached.Items.Map.{lookup, IsPlacedCache, hash_of}
use log_memcached.Items.Total.{>>=-eq}
use log_memcached.Items.Replace.{Updated, IsLoose, do_item_link-Updated}
use log_memcached.Items.Get.{do_item_get, do_item_get-miss, Updated-SameKeys}
use log_memcached.Items.Renew.{mark_stored}
use log_memcached.Store.{
  Verb, add, set, replace, append, prepend, cas, StoreItemType, not_stored, stored, not_found, Conn,
  attempt, put, finish, do_store_item,
}

pub mark_stored-SameKeys : (s : Cache) (it : ℕ) → SameKeys s (mark_stored s it)
unfolding mark_stored
mark_stored-SameKeys s it = (refl, λ p. ground arith)

-- the commands that store a key that is not there
abbrev pub creates : Verb → Bool
creates add = true
creates set = true
creates replace = false
creates append = false
creates prepend = false
creates cas = false

-- what the others answer, and the connection after it
abbrev pub refuses : Verb → Conn → StoreItemType × Conn
refuses add c = (not_stored, c)
refuses set c = (not_stored, c)
refuses replace c = (not_stored, c)
refuses append c = (not_stored, c)
refuses prepend c = (not_stored, c)
refuses cas c = (not_found, record c { cas_misses = add64 c.cas_misses 1 })

module _ ⦃libc : Libc⦄ (strtoul : List ℕ → ℕ) (pause : Cache → Cache) (hash : List ℕ → ℕ) where
  attempt_new :
      (comm : Verb) (s : Cache) (c : Conn) (it hv : ℕ)
      → creates comm ≡ true
      → attempt strtoul pause hash comm s c it none hv ≡ put strtoul pause hash s c it none none hv
  unfolding attempt
  attempt_new add s c it hv e = refl
  attempt_new set s c it hv e = refl
  attempt_new replace s c it hv e = cc
  attempt_new append s c it hv e = cc
  attempt_new prepend s c it hv e = cc
  attempt_new cas s c it hv e = cc

  -- On a well-placed table that does not have its key, do_store_item with set or add of a loose
  -- item fails no assertion and answers STORED; the key then gives the item, every other lookup is
  -- as before, and no key in memory changes.
  pub do_store_item-Updated :
      (comm : Verb) (s : Cache) (c : Conn) (it : ℕ)
      → creates comm ≡ true
      → IsPlacedCache hash s
      → IsLoose hash s it
      → lookup hash s (key_of s it) ≡ none
      → (c' : Conn) × (s' : Cache) × (do_store_item strtoul pause hash comm s c it
            (hash_of hash s it)
          ≡ some (stored, c', s'))
        × Updated hash s (key_of s it) (some it) s'
  unfolding do_store_item put finish
  do_store_item-Updated comm s c it new v loose missing =
      let hv = hash_of hash s it in
      let (s', e, u) = do_item_link-Updated hash s it v loose missing in
      (
        _,
        mark_stored s' it,
        >>=-eq (do_item_get s (key_of s it) hv) _ (none, s)
            (do_item_get-miss hash s (key_of s it) missing)
            (>>=-eq (attempt strtoul pause hash comm s c it none hv) _ _
              (attempt_new comm s c it hv new ∙ >>=-eq (do_item_link s it hv) _ s' e refl) refl),
        Updated-SameKeys hash s s s' (mark_stored s' it) (key_of s it) (some it) (refl, λ p. refl) u
            (mark_stored-SameKeys s' it),
      )

  attempt-refuses :
      (comm : Verb) (s : Cache) (c : Conn) (it hv : ℕ)
      → creates comm ≡ false
      → (attempt strtoul pause hash comm s c it none hv >>= (λ a. finish strtoul pause hash a none))
        ≡ some ((refuses comm c).0, (refuses comm c).1, s)
  unfolding attempt finish
  attempt-refuses add s c it hv e = cc
  attempt-refuses set s c it hv e = cc
  attempt-refuses replace s c it hv e = refl
  attempt-refuses append s c it hv e = refl
  attempt-refuses prepend s c it hv e = refl
  attempt-refuses cas s c it hv e = refl

  -- do_store_item with replace, append or prepend of a key that the table does not have answers
  -- NOT_STORED, and with cas NOT_FOUND and one more miss counted, and it changes nothing else.
  pub do_store_item-refuses :
      (comm : Verb) (s : Cache) (c : Conn) (it : ℕ)
      → creates comm ≡ false
      → lookup hash s (key_of s it) ≡ none
      → do_store_item strtoul pause hash comm s c it (hash_of hash s it)
        ≡ some ((refuses comm c).0, (refuses comm c).1, s)
  unfolding do_store_item attempt finish
  do_store_item-refuses comm s c it new missing =
      >>=-eq (do_item_get s (key_of s it) (hash_of hash s it)) _ (none, s)
        (do_item_get-miss hash s (key_of s it) missing)
        (attempt-refuses comm s c it (hash_of hash s it) new)
