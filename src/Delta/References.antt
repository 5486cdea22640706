-- ===== src/Delta/References.antt =====
-- `do_add_delta`: the number that it computes, and the references that its early returns keep.
use log_memcached.Base.{
  ℕ, ◌+◌, ◌-◌, ◌^◌, ◌≤◌, ◌<◌, ◌≡◌, refl, ◌∙◌, Bool, true, false, Option, none, some, List, leb,
  arith,
}
use log_memcached.Libc.{Libc}
use log_memcached.Items.{Cache, item_of, item_is_flushed}
use log_memcached.Items.Lookup.{dropped}
use log_memcached.Items.Map.{lookup}
use log_memcached.Items.Total.{>>=-eq, if-true, if-false}
use log_memcached.Items.Held.{remove_held}
use log_memcached.Items.Get.{do_item_get, held_by, is_expired, do_item_get-Held}
use log_memcached.Delta.{
  Numbers, DeltaStats, non_numeric, new_value, safe_strtoull, give_up, check_number, do_add_delta,
}

-- Where an increment does not overflow 64 bits, the decrement by as much undoes it, and a
-- decrement gives the difference, or 0 where the delta is larger.
pub new_value_lem :
    (value delta : ℕ)
    → value + delta < 2 ^ 64
    → (new_value false (new_value true value delta) delta ≡ value)
      × (new_value false value delta ≡ value - delta)
unfolding new_value
new_value_lem value delta small = (ground arith, ground arith)

elim_none :
    {A : Type 0} (o : Option ℕ) (x : A) (f : ℕ → A)
    → o ≡ none
    → elim o [ none ↦ x | some v ↦ f v ] ≡ x
elim_none none x f e = refl
elim_none (some v) x f e = cc

held_by_item : (s : Cache) (it : ℕ) → item_of (held_by s it) it ≡ item_of s it
held_by_item s it = ground arith

module _ (n : Numbers) ⦃libc : Libc⦄ (pause : Cache → Cache) (hash : List ℕ → ℕ) where
  add_found :
      (s : Cache) (key : List ℕ) (it : ℕ) (incr : Bool) (delta : ℕ) (cas : Option ℕ)
      (t : DeltaStats)
      → lookup hash s key ≡ some it
      → item_is_flushed (held_by s it) it ≡ false
      → is_expired (held_by s it) it ≡ false
      → do_add_delta n pause s key incr delta cas t (hash key)
        ≡ check_number n pause (held_by s it) cas t it incr delta (hash key)
  unfolding do_add_delta
  add_found s key it incr delta cas t found fresh alive =
      >>=-eq (do_item_get s key (hash key)) _ (some it, held_by s it)
        (do_item_get-Held hash s key it found fresh alive).0 refl

  -- do_add_delta on a key whose item is neither flushed nor expired, has at most two less than
  -- 2^16 references and a value of at most two bytes answers NON_NUMERIC and leaves one reference
  -- more than there were.
  pub do_add_delta-keeps :
      (s : Cache) (key : List ℕ) (it : ℕ) (incr : Bool) (delta : ℕ) (cas : Option ℕ)
      (t : DeltaStats)
      → lookup hash s key ≡ some it
      → item_is_flushed (held_by s it) it ≡ false
      → is_expired (held_by s it) it ≡ false
      → (item_of s it).nbytes ≤ 2
      → (s.metas it).refcount + 1 < 2 ^ 16
      → (do_add_delta n pause s key incr delta cas t (hash key)
          ≡ some (record {
            result = non_numeric;
            cas = cas;
            buf = none;
            stats = t;
            cache = held_by s it;
          }))
        × (((held_by s it).metas it).refcount ≡ (s.metas it).refcount + 1)
  unfolding check_number
  do_add_delta-keeps s key it incr delta cas t found fresh alive short small =
      let d = held_by_item s it in
      let test : leb (item_of (held_by s it) it).nbytes 2 ≡ true = rw d (ground arith) in
      (
        add_found s key it incr delta cas t found fresh alive ∙ if-true _ _ _ test refl,
        ground arith,
      )

  -- do_add_delta without a CAS on a key whose item is in use, neither flushed nor expired, has
  -- from one reference to two less than 2^16 and a value of more than two bytes that safe_strtoull
  -- refuses fails no assertion, answers NON_NUMERIC and leaves as many references as there were.
  pub do_add_delta-returns :
      (s : Cache) (key : List ℕ) (it : ℕ) (incr : Bool) (delta : ℕ) (t : DeltaStats)
      → lookup hash s key ≡ some it
      → item_is_flushed (held_by s it) it ≡ false
      → is_expired (held_by s it) it ≡ false
      → 2 < (item_of s it).nbytes
      → safe_strtoull n (item_of s it).value ≡ none
      → (s.metas it).it_flags.slabbed ≡ false
      → 0 < (s.metas it).refcount
      → (s.metas it).refcount + 1 < 2 ^ 16
      → (s' : Cache) × (do_add_delta n pause s key incr delta none t (hash key)
          ≡ some (record { result = non_numeric; cas = none; buf = none; stats = t; cache = s' }))
        × ((s'.metas it).refcount ≡ (s.metas it).refcount)
  unfolding check_number give_up
  do_add_delta-returns s key it incr delta t found fresh alive long no_number used pos small =
      let d = held_by_item s it in
      let test : leb (item_of (held_by s it) it).nbytes 2 ≡ false = rw d (ground arith) in
      let no_number' : safe_strtoull n (item_of (held_by s it) it).value ≡ none = rw d no_number in
      let gone =
        remove_held (held_by s it) it (ground (arith, used)) (ground arith) (ground arith) in
      (
        dropped (held_by s it) it,
        add_found s key it incr delta none t found fresh alive
            ∙ if-false _ _ _ test (
                elim_none (safe_strtoull n (item_of (held_by s it) it).value) _ _ no_number'
                ∙ >>=-eq _ _ (dropped (held_by s it) it) gone refl),
        ground arith,
      )
