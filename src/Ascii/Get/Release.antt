-- ===== src/Ascii/Get/Release.antt =====
-- The references of a get: each is given back when the answer has gone out.
use log_memcached.Base.{
  ℕ, ◌+◌, ◌^◌, ◌<◌, ◌≤◌, ◌≡◌, refl, sym, ap, ◌∙◌, ◌⊎◌, Bool, true, false, not, ◌==◌, Option, none,
  some, List, [], ◌∷◌, ◌++◌, length, ltb, arith, if◌then◌else◌,
}
use mathlib.Core.Path.{fun_ext}
use log_memcached.Base.Words.{sub32}
use log_memcached.Libc.{Libc}
use log_memcached.Items.{Cache, Metadata, item_of, item_is_flushed, do_item_remove}
use log_memcached.Items.Map.{lookup}
use log_memcached.Items.Get.{
  do_item_get, held_by, is_expired, do_item_get-Held, do_item_get-miss, lookup-SameKeys,
}
use log_memcached.Items.Renew.{do_item_update, item_update_interval}
use log_memcached.Items.Total.{>>=-eq, if-true}
use log_memcached.Delta.{Numbers}
use log_memcached.Ascii.Listing.{release_list}
use log_memcached.Ascii.Get.{listed_item}
use log_memcached.Ascii.Get.Keys.{value_lines}
use log_memcached.Ascii.Get.Replies.{reply_item}
use log_memcached.Ascii.Get.Stuck.{get_remove}

-- how often a number stands in a list
abbrev pub count : ℕ → List ℕ → ℕ
count p [] = 0
count p (x ∷ xs) = (if p == x then 1 else 0) + count p xs

count-le-length : (p : ℕ) (xs : List ℕ) → count p xs ≤ length xs
count-le-length p [] = omega arith
count-le-length p (x ∷ xs) = ground (arith, count-le-length p xs)

-- the cache with one more reference for each place in a list
abbrev pub with_refs : Cache → List ℕ → Cache
with_refs s l = record s {
  metas = λ p. record (s.metas p) { refcount = (s.metas p).refcount + count p l };
}

pub with_refs-nil : (s : Cache) → with_refs s [] ≡ s
with_refs-nil s =
    ap (λ (m : ℕ → Metadata). record s { metas = m })
      (fun_ext λ p. ap (λ r. record (s.metas p) { refcount = r }) (omega arith))

-- The item may be read, now and with `total` references more, as it is.
pub record IsRead (s : Cache) (total it : ℕ) : Type 0 where
  pub unflushed : item_is_flushed s it ≡ false
  pub unexpired : is_expired s it ≡ false
  pub recent : ltb (s.metas it).time (sub32 s.settings.current_time item_update_interval) ≡ false
  pub used : 0 < (s.metas it).refcount
  pub small : (s.metas it).refcount + total < 2 ^ 16
  pub free : (s.metas it).it_flags.slabbed ≡ false

hold_at :
    (s : Cache) (total it p : ℕ) (l : List ℕ)
    → IsRead s total it
    → length l < total
    → (held_by (with_refs s l) it).metas p ≡ (with_refs s (it ∷ l)).metas p
hold_at s total it p l r fits = ground (arith, r.small, count-le-length p l)

hold-with_refs :
    (s : Cache) (total it : ℕ) (l : List ℕ)
    → IsRead s total it
    → length l < total
    → held_by (with_refs s l) it ≡ with_refs s (it ∷ l)
hold-with_refs s total it l r fits =
    ap (λ (m : ℕ → Metadata). record s { metas = m }) (fun_ext λ p. hold_at s total it p l r fits)

-- One reference goes back.
release-with_refs :
    (s : Cache) (total it : ℕ) (l : List ℕ)
    → IsRead s total it
    → length l < total
    → do_item_remove (with_refs s (it ∷ l)) it ≡ some (with_refs s l)
release-with_refs s total it l r fits =
    ap (λ x. do_item_remove x it) (sym (hold-with_refs s total it l r fits))
    ∙ get_remove (with_refs s l) it (let u = r.used in omega (arith, u))
        (let u = r.small in omega (arith, u, count-le-length it l)) r.free

-- all of a list
abbrev pub AllRead : Cache → ℕ → List ℕ → Type 0
AllRead s total [] = Unit {0}
AllRead s total (it ∷ its) = IsRead s total it × AllRead s total its

pub release_list-with_refs :
    (s : Cache) (total : ℕ) (its : List ℕ)
    → AllRead s total its
    → length its ≤ total
    → release_list (with_refs s its) its ≡ some s
unfolding release_list
release_list-with_refs s total [] r fits = ap some (with_refs-nil s)
release_list-with_refs s total (it ∷ its) r fits =
    >>=-eq _ _ _ (release-with_refs s total it its r.0 (omega (arith, fits)))
      (release_list-with_refs s total its r.1 (omega (arith, fits)))

pub count-append : (p : ℕ) (xs ys : List ℕ) → count p (xs ++ ys) ≡ count p xs + count p ys
count-append p [] ys = omega arith
count-append p (x ∷ xs) ys = omega (arith, count-append p xs ys)

pub with_refs-count :
    (s : Cache) (l l' : List ℕ)
    → ((p : ℕ) → count p l ≡ count p l')
    → with_refs s l ≡ with_refs s l'
with_refs-count s l l' e =
    ap (λ (m : ℕ → Metadata). record s { metas = m })
      (fun_ext λ p. ap (λ c. record (s.metas p) { refcount = (s.metas p).refcount + c }) (e p))

flushed-with_refs :
    (s : Cache) (l : List ℕ) (it : ℕ) → item_is_flushed (with_refs s l) it ≡ item_is_flushed s it
unfolding item_is_flushed
flushed-with_refs s l it = refl

expired-with_refs :
    (s : Cache) (l : List ℕ) (it : ℕ) → is_expired (with_refs s l) it ≡ is_expired s it
unfolding is_expired
expired-with_refs s l it = refl

module _ ⦃libc : Libc⦄ (numbers : Numbers) (pause : Cache → Cache) (hash : List ℕ → ℕ)
    (return_cas : Bool) where
  -- a key that is not there, or whose item may be read
  abbrev pub Readable : Cache → ℕ → List ℕ → Type 0
  Readable s total key =
      (lookup hash s key ≡ none) ⊎ ((it : ℕ) × (lookup hash s key ≡ some it) × IsRead s total it)

  abbrev pub AllReadable : Cache → ℕ → List (List ℕ) → Type 0
  AllReadable s total [] = Unit {0}
  AllReadable s total (key ∷ keys) = Readable s total key × AllReadable s total keys

  -- what a get answers to keys that are looked up in one cache, and their items
  abbrev pub lines_of : Cache → Option ℕ → List ℕ
  lines_of s none = []
  lines_of s (some it) = value_lines numbers return_cas (item_of s it)

  abbrev pub answers : Cache → List (List ℕ) → List ℕ
  answers s [] = []
  answers s (key ∷ keys) = lines_of s (lookup hash s key) ++ answers s keys

  abbrev pub with_item : Option ℕ → List ℕ → List ℕ
  with_item none its = its
  with_item (some it) its = it ∷ its

  abbrev pub items_of : Cache → List (List ℕ) → List ℕ
  items_of s [] = []
  items_of s (key ∷ keys) = with_item (lookup hash s key) (items_of s keys)

  pub reply_item-read :
      (s : Cache) (total it : ℕ) (l : List ℕ)
      → IsRead s total it
      → reply_item numbers pause hash return_cas (some it) (with_refs s l)
        ≡ some (value_lines numbers return_cas (item_of s it), it ∷ [], with_refs s l)
  unfolding do_item_update listed_item
  reply_item-read s total it l r =
      let old : not (ltb (s.metas it).time (sub32 s.settings.current_time item_update_interval))
          ≡ true =
        ap not r.recent in
      >>=-eq _ _ (none, none, with_refs s l) (if-true _ _ _ old refl) refl

  pub get-read :
      (s : Cache) (total it : ℕ) (key l : List ℕ)
      → lookup hash s key ≡ some it
      → IsRead s total it
      → length l < total
      → do_item_get (with_refs s l) key (hash key) ≡ some (some it, with_refs s (it ∷ l))
  get-read s total it key l found r fits =
      let hold = hold-with_refs s total it l r fits in
      (do_item_get-Held hash (with_refs s l) key it
        (lookup-SameKeys hash s (with_refs s l) (refl, λ p. refl) key ∙ found)
        (ap (λ x. item_is_flushed x it) hold ∙ flushed-with_refs s (it ∷ l) it ∙ r.unflushed)
        (ap (λ x. is_expired x it) hold ∙ expired-with_refs s (it ∷ l) it ∙ r.unexpired)).0
      ∙ ap (λ x. some (some it, x)) hold

  pub get-missing :
      (s : Cache) (key l : List ℕ)
      → lookup hash s key ≡ none
      → do_item_get (with_refs s l) key (hash key) ≡ some (none, with_refs s l)
  get-missing s key l missing =
      do_item_get-miss hash (with_refs s l) key
        (lookup-SameKeys hash s (with_refs s l) (refl, λ p. refl) key ∙ missing)
