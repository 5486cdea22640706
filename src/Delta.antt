-- ===== src/Delta.antt =====
-- memcached.c: `do_add_delta`, which increments and decrements a number in the cache, and
-- `safe_strtoull` of util.c, which reads it.
mod References
mod Tests
use log_memcached.Base.{
  ℕ, ◌+◌, ◌-◌, ◌^◌, ◌%◌, ◌≤◌, Bool, true, false, ◌&&◌, ◌||◌, not, Option, none, some, List, [], ◌∷◌,
  ◌++◌, length, drop, ltb, leb, ◌==◌, if◌then◌else◌, ◌>>=◌, ◌>>◌,
}
use log_memcached.Base.Memory.{Memory, store}
use log_memcached.Base.Words.{add64}
use log_memcached.Libc.{Libc}
use log_memcached.Memlog.Header.{Item, get_cas, set_cas}
use log_memcached.Items.{Cache, Metadata, item_of, set_item, do_item_remove}
use log_memcached.Items.Link.{do_item_replace}
use log_memcached.Items.Alloc.{do_item_alloc}
use log_memcached.Items.Get.{do_item_get}
use log_memcached.Items.Renew.{mark_stored}

-- what `strtoull` in base 10 gives: the number, what `endptr` points to, and the error ERANGE
pub record Parsed : Type 0 where
  pub number : ℕ
  pub rest : List ℕ
  pub moved : Bool
  pub erange : Bool

-- The functions of the C library that the code calls. A string is the list of its bytes before
-- the terminating zero.
pub record Numbers : Type 0 where
  pub strtoul : List ℕ → ℕ
  pub strtoull : List ℕ → Parsed
  pub isspace : ℕ → Bool
  pub print : ℕ → List ℕ

-- `strchr(str, '-') != NULL`
unfoldable pub has_minus : List ℕ → Bool
has_minus [] = false
has_minus (c ∷ cs) = c == 45 || has_minus cs

-- `delta_result_type`
pub data DeltaResultType : Type 0 where
  ok : DeltaResultType
  non_numeric : DeltaResultType
  eom : DeltaResultType
  delta_item_not_found : DeltaResultType
  delta_item_cas_mismatch : DeltaResultType

-- the counters of the thread, by class
pub record DeltaStats : Type 0 where
  pub incr_hits : Memory ℕ
  pub decr_hits : Memory ℕ

-- the result, what goes into `*cas`, what `buf` gets, and the rest
pub record Answer : Type 0 where
  pub result : DeltaResultType
  pub cas : Option ℕ
  pub buf : Option (List ℕ)
  pub stats : DeltaStats
  pub cache : Cache

-- the new value; `delta` is the `uint64_t` that an `int64_t` converts to
unfoldable pub new_value : Bool → ℕ → ℕ → ℕ
new_value true value delta = add64 value delta
new_value false value delta = if ltb value delta then 0 else value - delta

unfoldable pub count_hit : Bool → DeltaStats → ℕ → DeltaStats
count_hit true t id = record t { incr_hits = store t.incr_hits id (add64 (t.incr_hits id) 1) }
count_hit false t id = record t { decr_hits = store t.decr_hits id (add64 (t.decr_hits id) 1) }

-- an early return that gives the reference back
unfoldable pub give_up : DeltaResultType → Option ℕ → DeltaStats → Cache → ℕ → Option Answer
unfolding do_item_remove
give_up r cas t s it = do
  s' ← do_item_remove s it
  some (record { result = r; cas = cas; buf = none; stats = t; cache = s' })

-- the number has been printed into `buf`
abbrev pub printed : List ℕ → Option Answer → Option Answer
printed buf none = none
printed buf (some a) = some (record a { buf = some buf })

module _ (n : Numbers) where
  -- the test on the character behind the number
  unfoldable pub ends_well : List ℕ → Bool
  ends_well [] = true
  ends_well (c ∷ cs) = n.isspace c

  -- `safe_strtoull`
  unfoldable pub safe_strtoull : List ℕ → Option ℕ
  unfolding ends_well has_minus
  safe_strtoull str =
      let p = n.strtoull str in
      if p.erange || not p.moved
      then none
      else if ends_well p.rest
      then (if leb (2 ^ 63) p.number && has_minus str then none else some p.number)
      else none

  module _ ⦃libc : Libc⦄ (pause : Cache → Cache) where
    -- the new item with the printed value goes in the place of the old one
    unfoldable pub store_value : Cache → Option ℕ → DeltaStats → ℕ → ℕ → ℕ → Option Answer
    unfolding do_item_alloc do_item_replace do_item_remove set_cas get_cas mark_stored give_up
    store_value s cas t it value hv = do
      let old = item_of s it
      let buf = n.print value
      (new, _, s₁) ←
          do_item_alloc pause s old.key (n.strtoul (drop 1 old.suffix) % 2 ^ 32) old.exptime
            (length buf + 2)
      elim new [
        | none ↦ printed buf (give_up eom cas t s₁ it)
        | some new_it ↦ (do
          let s₂ = set_item s₁ new_it (record (item_of s₁ new_it) { value = buf ++ 13 ∷ 10 ∷ [] })
          s₃ ← do_item_replace s₂ it new_it hv
          let s₄ = set_item s₃ it (
              set_cas (item_of s₃ it)
                (if s₃.settings.use_cas then get_cas (item_of s₃ new_it) else 0))
          s₅ ← do_item_remove (mark_stored s₄ new_it) new_it
          printed buf (
              give_up ok (elim cas [ none ↦ none | some old_cas ↦ some (get_cas (item_of s₅ it)) ])
                t s₅ it))
      ]

    -- the change of the number, once it has been read
    unfoldable pub change : Cache → Option ℕ → DeltaStats → ℕ → Bool → ℕ → ℕ → ℕ → Option Answer
    unfolding new_value count_hit store_value give_up
    change s cas t it incr delta value hv =
        let t' = count_hit incr t (s.metas it).slabs_clsid in
        if ltb 1 (s.metas it).refcount
        then store_value s cas t' it (new_value incr value delta) hv
        else if (s.metas it).refcount == 1
        then give_up delta_item_not_found cas t' s it
        else some
            (record { result = delta_item_not_found; cas = cas; buf = none; stats = t'; cache = s })

    -- the checks of the item that has been found
    unfoldable pub check_number : Cache → Option ℕ → DeltaStats → ℕ → Bool → ℕ → ℕ → Option Answer
    unfolding get_cas safe_strtoull give_up change
    check_number s cas t it incr delta hv =
        let d = item_of s it in
        if leb d.nbytes 2
        then some (record { result = non_numeric; cas = cas; buf = none; stats = t; cache = s })
        else if elim cas [
          | none ↦ false
          | some wanted ↦ not (wanted == 0) && not (get_cas d == wanted)
        ]
        then give_up delta_item_cas_mismatch cas t s it
        else elim (safe_strtoull d.value) [
          | none ↦ give_up non_numeric cas t s it
          | some value ↦ change s cas t it incr delta value hv
        ]

    -- `do_add_delta`; `cas` is what its pointer leads to, if it is one
    unfoldable pub do_add_delta :
        Cache → List ℕ → Bool → ℕ → Option ℕ → DeltaStats → ℕ → Option Answer
    unfolding do_item_get check_number
    do_add_delta s key incr delta cas t hv = do
      (found, s₁) ← do_item_get s key hv
      elim found [
        | none ↦
            some (record {
              result = delta_item_not_found;
              cas = cas;
              buf = none;
              stats = t;
              cache = s₁;
            })
        | some it ↦ check_number s₁ cas t it incr delta hv
      ]
