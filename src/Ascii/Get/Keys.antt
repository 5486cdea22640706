-- ===== src/Ascii/Get/Keys.antt =====
-- What one key of a get adds to the answer where everything is granted.
use log_memcached.Base.{
  ℕ, ◌+◌, ◌-◌, ◌*◌, ◌≤◌, ◌≡◌, refl, sym, ap, ap₂, ◌∙◌, Bool, true, false, Option, none, some, List,
  [], ◌∷◌, ◌++◌, length, take, ltb, leb, if◌then◌else◌, arith, Bool-cases, inl, inr,
}
use mathlib.Core.List.{append_assoc, append-nil}
use log_memcached.Base.Text.{codes}
use log_memcached.Libc.{Libc}
use log_memcached.Memlog.Header.{Item}
use log_memcached.Items.{Cache, item_of}
use log_memcached.Items.Get.{do_item_get}
use log_memcached.Items.Renew.{do_item_update}
use log_memcached.Items.Total.{>>=-eq, if-true, if-false}
use log_memcached.Delta.{Numbers}
use log_memcached.Drive.Send.{joined}
use log_memcached.Drive.Send.Order.{joined-append}
use log_memcached.Ascii.Update.{key_max_length}
use log_memcached.Ascii.Listing.{
  Grants, Getting, listed, add_parts, grow_ilist, grow_suffixlist, item_key, suffix_value,
  list_plain, list_with_cas, list_item, cas_suffix,
}
use log_memcached.Ascii.Get.{next, listed_item, count_get_hit, count_get_miss, list_found, get_key}

-- everything is granted
pub record IsGranted (a : Grants) : Type 0 where
  pub ilist_room : a.ilist_room ≡ true
  pub suffixlist_room : a.suffixlist_room ≡ true
  pub suffix : a.suffix ≡ true
  pub refused : (i : ℕ) → a.refused i ≡ none

-- bytes more to send, and items more to release
pub record Sends (g g' : Getting) (bytes items : List ℕ) : Type 0 where
  pub sent : joined g'.sent ≡ joined g.sent ++ bytes
  pub kept : g'.ilist ≡ g.ilist ++ items
  pub item : g'.client.item ≡ g.client.item

pub add_parts-granted :
    (refused : ℕ → Option ℕ) (i : ℕ) (sent parts : List (List ℕ))
    → ((k : ℕ) → refused k ≡ none)
    → add_parts refused i sent parts ≡ (true, sent ++ parts)
unfolding add_parts
add_parts-granted refused i sent [] all = ap (λ l. (true, l)) (sym (append-nil sent))
add_parts-granted refused i sent (b ∷ bs) all =
    rw (all i, add_parts)
      (add_parts-granted refused (i + 1) (sent ++ b ∷ []) bs all
        ∙ ap (λ l. (true, l)) (append_assoc sent (b ∷ []) bs))

module _ (numbers : Numbers) where
  -- the line and the value of an item
  abbrev pub value_lines : Bool → Item → List ℕ
  value_lines return_cas d =
      codes "VALUE "
      ++ (item_key d
          ++ (if return_cas
              then take (d.nsuffix - 2) d.suffix ++ (cas_suffix numbers d ++ take d.nbytes d.value)
              else suffix_value d))

  list_plain-Sends :
      (a : Grants) (g : Getting) (d : Item)
      → IsGranted a
      → (g' : Getting) × (list_plain a g d ≡ listed g')
        × (g'.ilist ≡ g.ilist)
        × (joined g'.sent ≡ joined g.sent ++ value_lines false d)
        × (g'.client.item ≡ g.client.item)
  unfolding list_plain
  list_plain-Sends a g d all =
      let parts : List (List ℕ) = codes "VALUE " ∷ item_key d ∷ suffix_value d ∷ [] in
      (
        record g { sent = g.sent ++ parts },
        rw (add_parts-granted a.refused 0 g.sent parts all.refused) refl,
        refl,
        joined-append g.sent parts
            ∙ ap (λ l. joined g.sent ++ (codes "VALUE " ++ (item_key d ++ l)))
                (append-nil (suffix_value d)),
        refl,
      )

  grow_suffixlist-granted :
      (a : Grants) (g : Getting)
      → IsGranted a
      → (g' : Getting) × (grow_suffixlist a g ≡ (true, g'))
        × (g'.ilist ≡ g.ilist)
        × (g'.sent ≡ g.sent)
        × (g'.client.item ≡ g.client.item)
  unfolding grow_suffixlist
  grow_suffixlist-granted a g all = elim (Bool-cases (leb g.suffixsize (length g.ilist))) [
    | inl full ↦ (
      record g { suffixsize = g.suffixsize * 2 },
      if-true _ _ _ full (if-true _ _ _ all.suffixlist_room refl),
      refl,
      refl,
      refl,
    )
    | inr free ↦ (g, if-false _ _ _ free refl, refl, refl, refl)
  ]

  list_with_cas-Sends :
      (a : Grants) (g : Getting) (d : Item)
      → IsGranted a
      → (g' : Getting) × (list_with_cas numbers a g d ≡ listed g')
        × (g'.ilist ≡ g.ilist)
        × (joined g'.sent ≡ joined g.sent ++ value_lines true d)
        × (g'.client.item ≡ g.client.item)
  unfolding list_with_cas
  list_with_cas-Sends a g d all =
      let (g₁, grown, ilist, sent, item) = grow_suffixlist-granted a g all in
      let head : List (List ℕ) =
        codes "VALUE " ∷ item_key d ∷ take (d.nsuffix - 2) d.suffix ∷ cas_suffix numbers d ∷ [] in
      let parts = add_parts-granted a.refused 0 g₁.sent head all.refused in
      let value : List (List ℕ) = take d.nbytes d.value ∷ [] in
      let more = add_parts-granted a.refused 4 (g₁.sent ++ head) value all.refused in
      (
        record g₁ { suffixes = g₁.suffixes + 1; sent = (g₁.sent ++ head) ++ value },
        rw (grown, all.suffix, parts, more) refl,
        ilist,
        ap joined (append_assoc g₁.sent head value)
            ∙ joined-append g₁.sent (head ++ value)
            ∙ ap₂ (λ l r. joined l ++ r) sent
                (ap
                  (λ l.
                    codes "VALUE "
                    ++ (item_key d
                        ++ (take (d.nsuffix - 2) d.suffix ++ (cas_suffix numbers d ++ l))))
                  (append-nil (take d.nbytes d.value))),
        item,
      )

  list_item-Sends :
      (return_cas : Bool) (a : Grants) (g : Getting) (d : Item)
      → IsGranted a
      → (g' : Getting) × (list_item numbers return_cas a g d ≡ listed g')
        × (g'.ilist ≡ g.ilist)
        × (joined g'.sent ≡ joined g.sent ++ value_lines return_cas d)
        × (g'.client.item ≡ g.client.item)
  unfolding list_item
  list_item-Sends true a g d all = list_with_cas-Sends a g d all
  list_item-Sends false a g d all = list_plain-Sends a g d all

grow_ilist-granted :
    (a : Grants) (g : Getting)
    → IsGranted a
    → (g' : Getting) × (grow_ilist a g ≡ (true, g'))
      × (g'.ilist ≡ g.ilist)
      × (g'.sent ≡ g.sent)
      × (g'.client.item ≡ g.client.item)
unfolding grow_ilist
grow_ilist-granted a g all = elim (Bool-cases (leb g.isize (length g.ilist))) [
  | inl full ↦ (
    record g { isize = g.isize * 2 },
    if-true _ _ _ full (if-true _ _ _ all.ilist_room refl),
    refl,
    refl,
    refl,
  )
  | inr free ↦ (g, if-false _ _ _ free refl, refl, refl, refl)
]

module _ ⦃libc : Libc⦄ (numbers : Numbers) (pause : Cache → Cache) (hash : List ℕ → ℕ)
    (return_cas : Bool) (grants : ℕ → Grants) (all : (i : ℕ) → IsGranted (grants i)) where
  list_found-Sends :
      (s s₁ : Cache) (g : Getting) (it : ℕ) (new_it : Option ℕ) (stored : Option Bool)
      → do_item_update numbers.strtoul pause hash s it ≡ some (new_it, stored, s₁)
      → (g' : Getting) × (list_found numbers pause hash return_cas grants s g it
          ≡ some (next g' (listed_item it new_it stored s₁).1))
        × Sends g g'
            (value_lines numbers return_cas (item_of s it))
            ((listed_item it new_it stored s₁).0 ∷ [])
  unfolding list_found count_get_hit
  list_found-Sends s s₁ g it new_it stored updated =
      let a : Grants = grants g.attempts in
      let (g₁, grown, ilist₁, sent₁, item₁) = grow_ilist-granted a g (all g.attempts) in
      let (g₂, parts, ilist₂, sent₂, item₂) =
        list_item-Sends numbers return_cas a g₁ (item_of s it) (all g.attempts) in
      let g₃ : Getting = count_get_hit g₂ (s.metas it).slabs_clsid in
      (
        record g₃ { ilist = g₂.ilist ++ (listed_item it new_it stored s₁).0 ∷ [] },
        rw (grown, parts, updated) refl,
        record {
          sent = sent₂ ∙ ap (λ l. joined l ++ value_lines numbers return_cas (item_of s it)) sent₁;
          kept = ap (λ l. l ++ (listed_item it new_it stored s₁).0 ∷ []) (ilist₂ ∙ ilist₁);
          item = item₂ ∙ item₁;
        },
      )

  -- a key that is found
  pub get_key-hit :
      (s s₁ s₂ : Cache) (g : Getting) (key : List ℕ) (it : ℕ) (new_it : Option ℕ)
      (stored : Option Bool)
      → length key ≤ 250
      → do_item_get s key (hash key) ≡ some (some it, s₁)
      → do_item_update numbers.strtoul pause hash s₁ it ≡ some (new_it, stored, s₂)
      → (g' : Getting) × (get_key numbers pause hash return_cas grants s g key
          ≡ some (next g' (listed_item it new_it stored s₂).1))
        × Sends g g'
            (value_lines numbers return_cas (item_of s₁ it))
            ((listed_item it new_it stored s₂).0 ∷ [])
  unfolding get_key
  get_key-hit s s₁ s₂ g key it new_it stored short got updated =
      let fits : ltb key_max_length (length key) ≡ false = ground (arith, short) in
      let (g', found, sends) = list_found-Sends s₁ s₂ g it new_it stored updated in
      (
        record g' { attempts = g.attempts + 1 },
        if-false _ _ _ fits (>>=-eq _ _ (some it, s₁) got (>>=-eq _ _ _ found refl)),
        record { sent = sends.sent; kept = sends.kept; item = sends.item },
      )

  -- a key that is not
  pub get_key-miss :
      (s s₁ : Cache) (g : Getting) (key : List ℕ)
      → length key ≤ 250
      → do_item_get s key (hash key) ≡ some (none, s₁)
      → (g' : Getting) × (get_key numbers pause hash return_cas grants s g key ≡ some (next g' s₁))
        × Sends g g' [] []
  unfolding get_key count_get_miss
  get_key-miss s s₁ g key short got =
      let fits : ltb key_max_length (length key) ≡ false = ground (arith, short) in
      (
        record (count_get_miss g) { attempts = g.attempts + 1 },
        if-false _ _ _ fits (>>=-eq _ _ (none, s₁) got refl),
        record {
          sent = sym (append-nil (joined g.sent));
          kept = sym (append-nil g.ilist);
          item = refl;
        },
      )
