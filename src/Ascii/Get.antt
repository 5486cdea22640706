-- ===== src/Ascii/Get.antt =====
-- memcached.c: `process_get_command`, the commands get, bget and gets, on a connection over TCP. What
-- is to be sent is the list of the parts that `add_iov` has been given, with the bytes that stand in
-- them then. What the allocator grants is an argument, by the number of the key. A failed assertion
-- is `none`. The counters by prefix and the log of a verbose server are not part of it.
pub mod Keys
pub mod First
pub mod Replies
pub mod Passes
pub mod Line
pub mod Answer
pub mod Stuck
pub mod Release
pub mod Reads
mod Tests
use log_memcached.Base.{
  ℕ, zero, suc, ◌+◌, ◌-◌, ◌*◌, Bool, true, false, ◌==◌, Option, none, some, List, [], ◌∷◌, ◌++◌,
  length, take, drop, ltb, leb, if◌then◌else◌, ◌>>=◌,
}
use mathlib.Core.List.{reverse}
use log_memcached.Base.Words.{add64}
use log_memcached.Base.Text.{codes}
use log_memcached.Libc.{Libc}
use log_memcached.Memlog.Header.{Item, get_cas}
use log_memcached.Items.{Cache, item_of, do_item_remove}
use log_memcached.Items.Get.{do_item_get}
use log_memcached.Items.Renew.{do_item_update, mark_stored}
use log_memcached.Delta.{Numbers}
use log_memcached.Ascii.Tokens.{Token, text, tokenize_command, max_tokens}
use log_memcached.Ascii.Conn.{Client, conn_mwrite, out_string, line_end}
use log_memcached.Ascii.Update.{key_max_length}
use log_memcached.Ascii.Commands.{bump}
use log_memcached.Ascii.Listing.{
  Getting, Grants, Listing, add_parts, cas_suffix, count_fail, grow_ilist, grow_suffixlist,
  item_key, list_item, list_plain, list_with_cas, listed, no_suffix, release_items, release_list,
  suffix_value, unlisted,
}

-- the command returns with an error, its items released from the last on
unfoldable pub fail_get : Getting → Cache → List ℕ → Option (Getting × Cache)
unfolding release_list out_string
fail_get g s message = do
  s' ← release_list s (reverse g.ilist)
  some (record g { client = out_string g.client message; ilist = [] }, s')

-- the counters of a hit, and of a miss
unfoldable pub count_get_hit : Getting → ℕ → Getting
count_get_hit g id =
    let t = g.client.stats in
    record g {
      client = record (g.client) {
        stats = record t { get_hits = bump t.get_hits id; get_cmds = add64 t.get_cmds 1 };
      };
    }

unfoldable pub count_get_miss : Getting → Getting
count_get_miss g =
    let t = g.client.stats in
    record g {
      client = record (g.client) {
        stats = record t { get_misses = add64 t.get_misses 1; get_cmds = add64 t.get_cmds 1 };
      };
    }

-- How a key ends: the next one follows, the loop breaks, or the command has returned.
pub data Step : Type 0 where
  next : Getting → Cache → Step
  broken : Getting → Cache → Step
  answered : Getting → Cache → Step

-- `item_update` gives the item that goes to the list, and what it leaves
unfoldable pub listed_item : ℕ → Option ℕ → Option Bool → Cache → ℕ × Cache
unfolding mark_stored
listed_item it (some new_it) (some true) s = (new_it, mark_stored s new_it)
listed_item it new_it stored s = (it, s)

-- How the tokens of a line end: with what the terminal one points to, or with an answer; after a
-- break it is the key that the loop stands at, which tokenize_command has ended with a zero.
pub data Pass : Type 0 where
  passed : Option (List ℕ) → Getting → Cache → Pass
  replied : Getting → Cache → Pass

pub data Returned : Type 0 where
  returned : Getting → Cache → Returned
  out_of_fuel : Returned

-- the token that the loop begins with
abbrev pub first_value : List Token → Option ℕ
first_value [] = none
first_value (t ∷ ts) = t.value

-- what follows the loop; `refused` is about the last part
unfoldable pub end_get : Bool → Option ℕ → Getting → Getting
unfolding add_parts out_string
end_get return_cas refused g =
    let (ok, sent) = add_parts (λ i. refused) 0 g.sent (codes "END\r\n" ∷ []) in
    let g₁ : Getting = record g {
      ileft = length g.ilist;
      suffixleft = (if return_cas then length g.ilist else g.suffixleft);
      sent = sent;
    } in
    if ok then record g₁ { client = record (g₁.client) { state = conn_mwrite } } else record g₁ {
      client = out_string g₁.client (codes "SERVER_ERROR out of memory writing get response");
    }

module _ ⦃libc : Libc⦄ (numbers : Numbers) (pause : Cache → Cache) (hash : List ℕ → ℕ)
    (return_cas : Bool) (grants : ℕ → Grants) where
  -- the key has an item
  unfoldable pub list_found : Cache → Getting → ℕ → Option Step
  unfolding grow_ilist list_item fail_get count_get_hit do_item_update do_item_remove listed_item
  list_found s g it =
      let a = grants g.attempts in
      let (room, g₁) = grow_ilist a g in
      if room
      then elim (list_item numbers return_cas a g₁ (item_of s it)) [
        | unlisted g₂ ↦ (do s₁ ← do_item_remove s it; some (broken g₂ s₁))
        | no_suffix g₂ ↦ (do
          s₁ ← do_item_remove s it
          (g₃, s₂) ← fail_get g₂ s₁ (codes "SERVER_ERROR out of memory making CAS suffix")
          some (answered g₃ s₂))
        | listed g₂ ↦ (do
          let g₃ = count_get_hit g₂ (s.metas it).slabs_clsid
          (new_it, stored, s₁) ← do_item_update numbers.strtoul pause hash s it
          let (kept, s₂) = listed_item it new_it stored s₁
          some (next (record g₃ { ilist = g₃.ilist ++ kept ∷ [] }) s₂))
      ]
      else (do s₁ ← do_item_remove s it; some (broken g₁ s₁))

  -- one key
  unfoldable pub get_key : Cache → Getting → List ℕ → Option Step
  unfolding list_found fail_get count_get_miss do_item_get
  get_key s g key =
      if ltb key_max_length (length key)
      then (do
        (g₁, s₁) ← fail_get g s (codes "CLIENT_ERROR bad command line format")
        some (answered g₁ s₁))
      else (do
        (found, s₁) ← do_item_get s key (hash key)
        elim found [
          | none ↦ some (next (record (count_get_miss g) { attempts = g.attempts + 1 }) s₁)
          | some it ↦ (do
            r ← list_found s₁ g it
            some (elim r [
              | next g₁ s₂ ↦ next (record g₁ { attempts = g.attempts + 1 }) s₂
              | broken g₁ s₂ ↦ broken (record g₁ { attempts = g.attempts + 1 }) s₂
              | answered g₁ s₂ ↦ answered g₁ s₂
            ]))
        ])

  -- The loop over the tokens of a line.
  unfoldable pub get_keys : Cache → Getting → List ℕ → List Token → Option Pass
  unfolding get_key
  get_keys s g command [] = none
  get_keys s g command (t ∷ ts) = elim (t.length == 0) [
    | true ↦ some (passed (elim t.value [ none ↦ none | some p ↦ some (drop p command) ]) g s)
    | false ↦ (do
      r ← get_key s g (text command t)
      elim r [
        | next g₁ s₁ ↦ get_keys s₁ g₁ command ts
        | broken g₁ s₁ ↦ some (passed (some (text command t)) g₁ s₁)
        | answered g₁ s₁ ↦ some (replied g₁ s₁)
      ])
  ]

  -- The loop over the tokens of the rest, on fuel, and what follows it.
  unfoldable pub get_loop : ℕ → Option ℕ → Cache → Getting → List ℕ → List Token → Option Returned
  unfolding get_keys end_get tokenize_command
  get_loop zero refused s g command tokens = some out_of_fuel
  get_loop (suc fuel) refused s g command tokens = do
    r ← get_keys s g command tokens
    elim r [
      | replied g₁ s₁ ↦ some (returned g₁ s₁)
      | passed none g₁ s₁ ↦ some (returned (end_get return_cas refused g₁) s₁)
      | passed (some rest) g₁ s₁ ↦
          let tokens' = tokenize_command rest max_tokens in
          elim (first_value tokens') [
            | none ↦ some (returned (end_get return_cas refused g₁) s₁)
            | some p ↦ get_loop fuel refused s₁ g₁ rest tokens'
          ]
    ]

  -- `process_get_command`, with the tokens of the line; `i` is 0 at first, so the list is filled from
  -- its start
  unfoldable pub process_get_command :
      ℕ → Option ℕ → Cache → Getting → List ℕ → List Token → Option Returned
  unfolding get_loop
  process_get_command fuel refused s g command tokens =
      get_loop fuel refused s (record g { ilist = [] }) command (drop 1 tokens)
