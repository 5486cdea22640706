-- ===== src/Ascii/Listing.antt =====
-- memcached.c: what `process_get_command` lists for an item that it has found, and
-- `conn_release_items`. What is to be sent is the list of the parts that `add_iov` has been given,
-- with the bytes that stand in them then. What the allocator grants is an argument.
use log_memcached.Base.{
  ℕ, ◌+◌, ◌-◌, ◌*◌, Bool, true, false, Option, none, some, List, [], ◌∷◌, ◌++◌, length, take, leb,
  if◌then◌else◌, ◌>>=◌,
}
use log_memcached.Base.Words.{add64}
use log_memcached.Base.Text.{codes}
use log_memcached.Memlog.Header.{Item, get_cas}
use log_memcached.Items.{Cache, do_item_remove}
use log_memcached.Delta.{Numbers}
use log_memcached.Ascii.Conn.{Client, line_end}

-- What is granted to one key: that the two lists grow, a suffix, and the parts by their order;
-- for a part that `add_iov` refuses, how many of its bytes it has listed.
pub record Grants : Type 0 where
  pub ilist_room : Bool
  pub suffixlist_room : Bool
  pub suffix : Bool
  pub refused : ℕ → Option ℕ

-- What the command changes of the connection, with `i` the length of `ilist`; `suffixes` counts what comes from `suffix_cache`, `attempts` the keys.
pub record Getting : Type 0 where
  pub client : Client
  pub ilist : List ℕ
  pub isize : ℕ
  pub suffixsize : ℕ
  pub suffixes : ℕ
  pub ileft : ℕ
  pub suffixleft : ℕ
  pub sent : List (List ℕ)
  pub malloc_fails : ℕ
  pub attempts : ℕ

-- calls of `add_iov` joined by `||`, the first being number `i`
unfoldable pub add_parts : (ℕ → Option ℕ) → ℕ → List (List ℕ) → List (List ℕ) → Bool × List (List ℕ)
add_parts refused i sent [] = (true, sent)
add_parts refused i sent (b ∷ bs) = elim (refused i) [
  | some n ↦ (false, sent ++ take n b ∷ [])
  | none ↦ add_parts refused (i + 1) (sent ++ b ∷ []) bs
]

-- another failed allocation
abbrev pub count_fail : Getting → Getting
count_fail g = record g { malloc_fails = add64 g.malloc_fails 1 }

-- room in `ilist`, and in `suffixlist`
unfoldable pub grow_ilist : Grants → Getting → Bool × Getting
grow_ilist a g =
    if leb g.isize (length g.ilist)
    then (if a.ilist_room then (true, record g { isize = g.isize * 2 }) else (false, count_fail g))
    else (true, g)

unfoldable pub grow_suffixlist : Grants → Getting → Bool × Getting
grow_suffixlist a g =
    if leb g.suffixsize (length g.ilist)
    then (if a.suffixlist_room
        then (true, record g { suffixsize = g.suffixsize * 2 })
        else (false, count_fail g))
    else (true, g)

-- the parts of an item are listed, the loop breaks, or there is no suffix
pub data Listing : Type 0 where
  listed : Getting → Listing
  unlisted : Getting → Listing
  no_suffix : Getting → Listing

-- the key of an item, and its suffix and value, which are one behind the other
abbrev pub item_key : Item → List ℕ
item_key d = take d.nkey d.key

abbrev pub suffix_value : Item → List ℕ
suffix_value d = take (d.nsuffix + d.nbytes) (d.suffix ++ d.value)

-- the parts without a CAS
unfoldable pub list_plain : Grants → Getting → Item → Listing
unfolding add_parts
list_plain a g d =
    let (ok, sent) =
      add_parts a.refused 0 g.sent (codes "VALUE " ∷ item_key d ∷ suffix_value d ∷ []) in
    let g' : Getting = record g { sent = sent } in if ok then listed g' else unlisted g'

module _ (numbers : Numbers) where
  -- what `snprintf` puts into a suffix
  abbrev pub cas_suffix : Item → List ℕ
  cas_suffix d = 32 ∷ numbers.print (get_cas d) ++ line_end

  -- the parts with a CAS; the result of `add_iov` for the value is not looked at
  unfoldable pub list_with_cas : Grants → Getting → Item → Listing
  unfolding add_parts grow_suffixlist get_cas
  list_with_cas a g d =
      let (room, g₁) = grow_suffixlist a g in
      if room
      then (if a.suffix
          then (let (ok, sent) =
                add_parts a.refused 0 g₁.sent (
                  codes "VALUE "
                  ∷ item_key d
                  ∷ take (d.nsuffix - 2) d.suffix
                  ∷ cas_suffix d
                  ∷ []) in
              let g₂ : Getting = record g₁ { suffixes = g₁.suffixes + 1; sent = sent } in
              if ok
              then listed
                  (record g₂ { sent = (add_parts a.refused 4 sent (take d.nbytes d.value ∷ [])).1 })
              else unlisted g₂)
          else no_suffix (count_fail g₁))
      else unlisted g₁

  unfoldable pub list_item : Bool → Grants → Getting → Item → Listing
  unfolding list_plain list_with_cas
  list_item return_cas a g d = if return_cas then list_with_cas a g d else list_plain a g d

-- `item_remove` of each
unfoldable pub release_list : Cache → List ℕ → Option Cache
release_list s [] = some s
release_list s (it ∷ its) = do s' ← do_item_remove s it; release_list s' its

-- `conn_release_items`, after the answer has gone out; `cache_free` takes each suffix back
unfoldable pub release_items : Cache → Getting → Option (Getting × Cache)
unfolding release_list do_item_remove
release_items s g = do
  s₁ ← elim g.client.item [ none ↦ some s | some it ↦ do_item_remove s it ]
  s₂ ← release_list s₁ (take g.ileft g.ilist)
  some (
    record g {
      client = record (g.client) { item = none };
      ilist = [];
      ileft = 0;
      suffixleft = 0;
      suffixes = g.suffixes - g.suffixleft;
    },
    s₂,
  )
