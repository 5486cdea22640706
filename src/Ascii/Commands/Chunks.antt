-- ===== src/Ascii/Commands/Chunks.antt =====
-- `complete_nread_ascii` with a value that does not end in a line end, and what the replay of the
-- log makes of it.
use log_memcached.Base.{
  ℕ, suc, ◌+◌, ◌-◌, ◌%◌, ◌^◌, ◌<◌, ◌≤◌, ◌≡◌, refl, ap, ◌∙◌, true, false, none, some, List, arith,
  if◌then◌else◌,
}
use log_memcached.Base.Words.{add32}
use log_memcached.Libc.{Libc}
use log_memcached.Memlog.Header.{Item, ntotal, sizeof_cas}
use log_memcached.Items.{Cache, item_of, freelist_free, item_free, do_item_remove}
use log_memcached.Items.Lookup.{SameKeys, do_item_remove-SameKeys}
use log_memcached.Items.Map.{lookup, IsPlacedCache}
use log_memcached.Items.Get.{lookup-SameKeys, IsPlacedCache-SameKeys}
use log_memcached.Items.Total.{remove_total, >>=-eq, if-false}
use log_memcached.Replication.{least, pass, replay_item, replay_loop}
use log_memcached.Replication.Chain.{span, is_ready}
use log_memcached.Replication.Loop.{loop_round}
use log_memcached.Ascii.Conn.{Client}
use log_memcached.Ascii.Commands.{has_line_end, mark_corrupted, complete_nread_ascii}

mark_corrupted-SameKeys : (s : Cache) (it : ℕ) → SameKeys s (mark_corrupted s it)
unfolding mark_corrupted
mark_corrupted-SameKeys s it = (refl, λ p. ground arith)

-- Giving a reference back writes nothing to the log.
do_item_remove_log : (s s' : Cache) (it : ℕ) → do_item_remove s it ≡ some s' → s'.log ≡ s.log
unfolding do_item_remove item_free freelist_free
do_item_remove_log s s' it e = ground (arith, e)

-- an item with none of the flags for which ITEM_ntotal counts a CAS that is not there
pub record IsPlain (d : Item) : Type 0 where
  pub whole : d.it_data_flags.corrupted ≡ false
  pub kept : d.it_data_flags.deleted ≡ false
  pub inner : d.it_data_flags.cycle ≡ false

-- ITEM_ntotal of the item once it is corrupted
abbrev pub corrupted_span : Item → ℕ
corrupted_span d = ntotal d + (if d.it_data_flags.cas then 0 else sizeof_cas)

-- what a backup reads of the item
record IsMarked (d : Item) (m : Item) : Type 0 where
  corrupted : m.it_data_flags.corrupted ≡ true
  ready : is_ready m.it_data_flags ≡ true
  inner : m.it_data_flags.cycle ≡ false
  size : ntotal m ≡ corrupted_span d

mark_corrupted-IsMarked :
    (s : Cache) (it : ℕ)
    → IsPlain (item_of s it)
    → IsMarked (item_of s it) ((mark_corrupted s it).log.memory (s.metas it).item)
unfolding mark_corrupted ntotal
mark_corrupted-IsMarked s it plain =
    let cycle = plain.inner in
    let deleted = plain.kept in
    record {
      corrupted = ground arith;
      ready = ground arith;
      inner = ground (arith, cycle);
      size = ground (arith, cycle, deleted);
    }

module _ (hash : List ℕ → ℕ) where
  replay_item-corrupted :
      (b : Cache) (m : Item) (p : ℕ)
      → m.it_data_flags.corrupted ≡ true
      → replay_item hash b m.it_data_flags p ≡ some b
  unfolding replay_item
  replay_item-corrupted b m p e = rw e refl

  replay_loop-IsMarked :
      (b : Cache) (d : Item) (fuel p size : ℕ)
      → IsMarked d (b.log.memory p)
      → corrupted_span d < 2 ^ 32
      → least ≤ size
      → corrupted_span d ≤ size
      → replay_loop hash (suc fuel) b size p
        ≡ replay_loop hash fuel
            (pass b (corrupted_span d))
            (size - corrupted_span d)
            (add32 p (corrupted_span d))
  replay_loop-IsMarked b d fuel p size m small room whole =
      let n = corrupted_span d in
      let e : span (b.log.memory p) ≡ n = ap (λ x. x % 2 ^ 32) m.size ∙ omega (arith, small) in
      loop_round hash fuel b b p size room m.ready m.inner (omega (arith, e, whole))
        (replay_item-corrupted b (b.log.memory p) p m.corrupted)
      ∙ ap (λ x. replay_loop hash fuel (pass b x) (size - x) (add32 p x)) e

module _ ⦃libc : Libc⦄ (strtoul : List ℕ → ℕ) (pause : Cache → Cache) (hash : List ℕ → ℕ) where
  -- For a value that does not end in a line end, received into an item that is neither linked nor
  -- free and has a reference, with a well-placed table, complete_nread_ascii fails no assertion
  -- and leaves the connection without an item, the table well placed and every lookup as it was.
  -- Where the item was neither deleted, corrupted nor a cycle item, and ITEM_ntotal of it and
  -- eight bytes more are below 2^32, the round of the replay at that item, on a backup with a copy
  -- of it at the same address and with at least 35 bytes and that size left, stores nothing: it
  -- goes on behind ITEM_ntotal bytes if the item has a CAS, and eight bytes further if it has
  -- none.
  pub complete_nread_ascii-passes :
      (s : Cache) (c : Client) (it : ℕ)
      → c.item ≡ some it
      → has_line_end (item_of s it) ≡ false
      → (s.metas it).it_flags.linked ≡ false
      → (s.metas it).it_flags.slabbed ≡ false
      → 0 < (s.metas it).refcount
      → IsPlacedCache hash s
      → IsPlain (item_of s it)
      → corrupted_span (item_of s it) < 2 ^ 32
      → (backup : Cache → Cache) (fuel size : ℕ)
      → ((x : Cache) → (backup x).log.memory (s.metas it).item ≡ x.log.memory (s.metas it).item)
      → least ≤ size
      → corrupted_span (item_of s it) ≤ size
      → (c' : Client) × (s' : Cache) × (complete_nread_ascii strtoul pause hash s c ≡ some (c', s'))
        × (c'.item ≡ none)
        × IsPlacedCache hash s'
        × ((q : List ℕ) → lookup hash s' q ≡ lookup hash s q)
        × (replay_loop hash (suc fuel) (backup s') size (s.metas it).item
            ≡ replay_loop hash fuel
                (pass (backup s') (corrupted_span (item_of s it)))
                (size - corrupted_span (item_of s it))
                (add32 (s.metas it).item (corrupted_span (item_of s it))))
  unfolding complete_nread_ascii
  complete_nread_ascii-passes s c it held bad unlinked used counted placed plain small backup fuel
        size copied room whole =
      let s₁ = mark_corrupted s it in
      let metas : s₁.metas ≡ s.metas = unfold mark_corrupted in refl in
      let (s', gone) = remove_total s₁ it (rw metas unlinked) (rw metas used) (rw metas counted) in
      let first = mark_corrupted-SameKeys s it in
      let last = do_item_remove-SameKeys s₁ s' it gone in
      let read : (backup s').log.memory (s.metas it).item ≡ s₁.log.memory (s.metas it).item =
        copied s' ∙ ap (λ l. l.memory (s.metas it).item) (do_item_remove_log s₁ s' it gone) in
      (
        _,
        s',
        >>=-eq _ _ it held (if-false _ _ _ bad (>>=-eq _ _ s' gone refl)),
        refl,
        IsPlacedCache-SameKeys hash s₁ s' last (IsPlacedCache-SameKeys hash s s₁ first placed),
        (λ q. lookup-SameKeys hash s₁ s' last q ∙ lookup-SameKeys hash s s₁ first q),
        replay_loop-IsMarked hash (backup s') (item_of s it) fuel (s.metas it).item size
            (rw read (mark_corrupted-IsMarked s it plain)) small room whole,
      )
