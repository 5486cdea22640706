-- ===== src/Ascii/Get/Stuck.antt =====
-- A get for whose item `add_iov` fails: the loop breaks, and comes back to the same key.
use log_memcached.Base.{
  ℕ, zero, suc, ◌+◌, ◌^◌, ◌<◌, ◌≤◌, ◌≡◌, refl, ap, ◌∙◌, Bool, true, false, ◌==◌, Option, none, some,
  List, [], ◌∷◌, ◌++◌, length, take, drop, ltb, arith, Bool-cases, inl, inr,
}
use mathlib.Core.Path.{fun_ext}
use log_memcached.Libc.{Libc}
use log_memcached.Memlog.Header.{Item}
use log_memcached.Items.{Cache, Metadata, item_of, item_is_flushed, do_item_remove}
use log_memcached.Items.Lookup.{dropped}
use log_memcached.Items.Map.{lookup}
use log_memcached.Items.Held.{remove_held}
use log_memcached.Items.Get.{held_by, is_expired, do_item_get-Held}
use log_memcached.Items.Total.{>>=-eq, if-true, if-false}
use log_memcached.Delta.{Numbers}
use log_memcached.Ascii.Update.{key_max_length}
use log_memcached.Ascii.Tokens.{Token, max_tokens, tokenize_command, text, texts}
use log_memcached.Ascii.Tokens.Words.{words, tokenize_command-words}
use log_memcached.Ascii.Get.Line.{tokenize-Begins}
use log_memcached.Ascii.Get.Answer.{keys_words}
use log_memcached.Base.Text.{codes}
use log_memcached.Ascii.Listing.{
  Grants, Getting, unlisted, add_parts, grow_ilist, grow_suffixlist, list_plain, list_with_cas,
  list_item,
}
use log_memcached.Ascii.Get.{
  broken, passed, out_of_fuel, list_found, get_key, get_keys, get_loop, process_get_command,
}

-- A reference that is taken and given back leaves the cache as it was.
back_metas :
    (s : Cache) (it : ℕ)
    → (s.metas it).refcount + 1 < 2 ^ 16
    → (p : ℕ) → (dropped (held_by s it) it).metas p ≡ s.metas p
back_metas s it small p = elim (Bool-cases (p == it)) [
  | inl same ↦ let e : p ≡ it = ground (arith, same) in rw e (ground (arith, small))
  | inr other ↦ rw other refl
]

pub get_remove :
    (s : Cache) (it : ℕ)
    → 0 < (s.metas it).refcount
    → (s.metas it).refcount + 1 < 2 ^ 16
    → (s.metas it).it_flags.slabbed ≡ false
    → do_item_remove (held_by s it) it ≡ some s
get_remove s it used small free =
    remove_held (held_by s it) it (ground (arith, free)) (ground (arith, used, small))
      (ground (arith, small))
    ∙ ap (λ (m : ℕ → Metadata). some (record s { metas = m })) (fun_ext (back_metas s it small))

-- add_iov refuses the first part of every item, and there is a suffix for each
pub record IsRefused (a : Grants) : Type 0 where
  pub bytes : ℕ
  pub refused : a.refused 0 ≡ some bytes
  pub suffix : a.suffix ≡ true

add_parts-refused :
    (refused : ℕ → Option ℕ) (n : ℕ) (sent : List (List ℕ)) (b : List ℕ) (bs : List (List ℕ))
    → refused 0 ≡ some n
    → add_parts refused 0 sent (b ∷ bs) ≡ (false, sent ++ take n b ∷ [])
unfolding add_parts
add_parts-refused refused n sent b bs r = rw (r, add_parts) refl

module _ (numbers : Numbers) where
  list_plain-unlisted :
      (a : Grants) (g : Getting) (d : Item)
      → IsRefused a
      → (g' : Getting) × (list_plain a g d ≡ unlisted g')
  unfolding list_plain
  list_plain-unlisted a g d r = (
    record g { sent = g.sent ++ take r.bytes (codes "VALUE ") ∷ [] },
    rw (add_parts-refused a.refused r.bytes g.sent (codes "VALUE ") _ r.refused) refl,
  )

  list_with_cas-unlisted :
      (a : Grants) (g : Getting) (d : Item)
      → IsRefused a
      → (g' : Getting) × (list_with_cas numbers a g d ≡ unlisted g')
  unfolding list_with_cas
  list_with_cas-unlisted a g d r = elim (Bool-cases (grow_suffixlist a g).0) [
    | inl room ↦
        let g₁ : Getting = (grow_suffixlist a g).1 in
        (
          record g₁ {
            suffixes = g₁.suffixes + 1;
            sent = g₁.sent ++ take r.bytes (codes "VALUE ") ∷ [];
          },
          if-true _ _ _ room (
              if-true _ _ _ r.suffix (
                rw (add_parts-refused a.refused r.bytes g₁.sent (codes "VALUE ") _ r.refused)
                  refl)),
        )
    | inr full ↦ ((grow_suffixlist a g).1, if-false _ _ _ full refl)
  ]

  list_item-unlisted :
      (return_cas : Bool) (a : Grants) (g : Getting) (d : Item)
      → IsRefused a
      → (g' : Getting) × (list_item numbers return_cas a g d ≡ unlisted g')
  unfolding list_item
  list_item-unlisted true a g d r = list_with_cas-unlisted a g d r
  list_item-unlisted false a g d r = list_plain-unlisted a g d r

-- the item of a key, neither flushed nor expired nor on the free list
pub record IsFresh (hash : List ℕ → ℕ) (s : Cache) (key : List ℕ) (it : ℕ) : Type 0 where
  pub found : lookup hash s key ≡ some it
  pub unflushed : item_is_flushed (held_by s it) it ≡ false
  pub unexpired : is_expired (held_by s it) it ≡ false
  pub used : 0 < (s.metas it).refcount
  pub small : (s.metas it).refcount + 1 < 2 ^ 16
  pub free : (s.metas it).it_flags.slabbed ≡ false

-- the first token of a line
first_text :
    (command w : List ℕ) (ws : List (List ℕ)) (ts : List Token)
    → texts command ts ≡ w ∷ ws
    → (t : Token) × (ts' : List Token) × (ts ≡ t ∷ ts')
      × (t.length == 0 ≡ false)
      × (text command t ≡ w)
unfolding texts
first_text command w ws [] e = absurd (cc)
first_text command w ws (t ∷ ts) e = elim (Bool-cases (t.length == 0)) [
  | inl last ↦ absurd (let f = e in let g : [] ≡ w ∷ ws = rw last at f in cc)
  | inr long ↦ (
    t,
    ts,
    refl,
    long,
    let f = e in let g : text command t ∷ texts command ts ≡ w ∷ ws = rw long at f in cc,
  )
]

module _ ⦃libc : Libc⦄ (numbers : Numbers) (pause : Cache → Cache) (hash : List ℕ → ℕ)
    (return_cas : Bool) (grants : ℕ → Grants) (none_listed : (i : ℕ) → IsRefused (grants i))
    (s : Cache) (key : List ℕ) (it : ℕ) (fresh : IsFresh hash s key it) where
  list_found-broken :
      (g : Getting)
      → (g' : Getting) × (list_found numbers pause hash return_cas grants (held_by s it) g it
          ≡ some (broken g' s))
  unfolding list_found
  list_found-broken g =
      let a : Grants = grants g.attempts in
      let (g', e) =
        list_item-unlisted numbers return_cas a (grow_ilist a g).1 (item_of (held_by s it) it)
          (none_listed g.attempts) in
      let back = get_remove s it fresh.used fresh.small fresh.free in
      elim (Bool-cases (grow_ilist a g).0) [
        | inl room ↦ (g', if-true _ _ _ room (rw e (>>=-eq _ _ s back refl)))
        | inr full ↦ ((grow_ilist a g).1, if-false _ _ _ full (>>=-eq _ _ s back refl))
      ]

  get_key-broken :
      (g : Getting)
      → length key ≤ 250
      → (g' : Getting) × (get_key numbers pause hash return_cas grants s g key ≡ some (broken g' s))
  unfolding get_key
  get_key-broken g short =
      let fits : ltb key_max_length (length key) ≡ false = ground (arith, short) in
      let (g', e) = list_found-broken g in
      let got = (do_item_get-Held hash s key it fresh.found fresh.unflushed fresh.unexpired).0 in
      (
        record g' { attempts = g.attempts + 1 },
        if-false _ _ _ fits (>>=-eq _ _ (some it, held_by s it) got (>>=-eq _ _ _ e refl)),
      )

  get_keys-broken :
      (g g' : Getting) (command : List ℕ) (t : Token) (ts : List Token)
      → t.length == 0 ≡ false
      → text command t ≡ key
      → get_key numbers pause hash return_cas grants s g key ≡ some (broken g' s)
      → get_keys numbers pause hash return_cas grants s g command (t ∷ ts)
        ≡ some (passed (some key) g' s)
  unfolding get_keys
  get_keys-broken g g' command t ts long at step =
      let here = ap (get_key numbers pause hash return_cas grants s g) at ∙ step in
      rw (long, get_keys, here) (ap (λ k. some (passed (some k) g' s)) at)

  get_loop-stuck :
      (fuel : ℕ) (g : Getting) (command : List ℕ) (ts : List Token) (ws : List (List ℕ))
      → length key ≤ 250
      → words key ≡ key ∷ []
      → texts command ts ≡ key ∷ ws
      → get_loop numbers pause hash return_cas grants fuel none s g command ts ≡ some out_of_fuel
  unfolding get_loop
  get_loop-stuck zero g command ts ws short one here = refl
  get_loop-stuck (suc fuel) g command ts ws short one here =
      let (t, ts', e, long, at) = first_text command key ws ts here in
      let (g', step) = get_key-broken g short in
      let again = (tokenize_command-words key max_tokens (omega arith)).0 ∙ ap (take 7) one in
      let rest = get_loop-stuck fuel g' key (tokenize_command key max_tokens) [] short one again in
      let keys =
        ap (get_keys numbers pause hash return_cas grants s g command) e
        ∙ get_keys-broken g g' command t ts' long at step in
      elim (tokenize-Begins key) [
        | inl (nothing, _) ↦ absurd (cc)
        | inr (w, ws', i, begins, begun) ↦ >>=-eq _ _ _ keys (rw begun rest)
      ]

-- On a line with the name of the command, a key of at most 250 bytes without a space and keys
-- behind it, where the first key has an item that is neither flushed nor expired nor on the free
-- list, with references from one to two less than 2^16, and where add_iov never takes all of the
-- first part of an item and every suffix is granted, process_get_command does not return on any
-- fuel.
pub process_get_command-stuck :
    ⦃libc : Libc⦄ (numbers : Numbers) (pause : Cache → Cache) (hash : List ℕ → ℕ)
    (return_cas : Bool) (grants : ℕ → Grants) (s : Cache) (g : Getting) (command name key : List ℕ)
    (keys : List (List ℕ)) (it fuel : ℕ)
    → ((i : ℕ) → IsRefused (grants i))
    → IsFresh hash s key it
    → length key ≤ 250
    → words key ≡ key ∷ []
    → words command ≡ name ∷ key ∷ keys
    → process_get_command numbers pause hash return_cas grants fuel none s g command
        (tokenize_command command max_tokens)
      ≡ some out_of_fuel
unfolding process_get_command
process_get_command-stuck numbers pause hash return_cas grants s g command name key keys it fuel
      refused fresh short one line =
    get_loop-stuck numbers pause hash return_cas grants refused s key it fresh fuel
      (record g { ilist = [] }) command (drop 1 (tokenize_command command max_tokens)) (take 5 keys)
      short one (keys_words command name (key ∷ keys) line).0
