-- ===== src/Items/Link.antt =====
-- items.c: linking and unlinking, with the bookkeeping of sizes.
use log_memcached.Base.{
  ℕ, ◌+◌, ◌/◌, ◌%◌, true, false, ◌&&◌, not, Option, none, some, ltb, ◌==◌, if◌then◌else◌, ◌>>=◌,
  ◌>>◌,
}
use log_memcached.Base.Memory.{store}
use log_memcached.Base.Words.{add32, sub32, add64, sub64}
use log_memcached.Memlog.Header.{get_cas, set_cas, ntotal}
use log_memcached.Assoc
use log_memcached.Items.{
  Cache, item_of, key_of, set_item, set_meta, assert, refcount_incr, get_cas_id, do_item_remove,
}

-- the bucket of 32 bytes that a size falls into
abbrev pub size_bucket : ℕ → ℕ
size_bucket n = if n % 32 == 0 then n / 32 else n / 32 + 1

-- `item_stats_sizes_add` and `item_stats_sizes_remove`, with what they do to a count
unfoldable pub count_size : (ℕ → ℕ) → Cache → ℕ → Cache
unfolding get_cas ntotal
count_size change s it = elim s.histogram [
  | none ↦ s
  | some h ↦
      let bucket = size_bucket (ntotal (item_of s it)) in
      if ltb (get_cas (item_of s it)) h.cas_min
      then s
      else if ltb bucket h.buckets
      then record s {
        histogram = some (record h { counts = store h.counts bucket (change (h.counts bucket)) });
      }
      else s
]

abbrev pub item_stats_sizes_add : Cache → ℕ → Cache
item_stats_sizes_add = count_size (λ n. add32 n 1)

abbrev pub item_stats_sizes_remove : Cache → ℕ → Cache
item_stats_sizes_remove = count_size (λ n. sub32 n 1)

-- `do_item_link_q`
unfoldable pub item_link_q : Cache → ℕ → Option Cache
item_link_q s it =
    let id = (s.metas it).slabs_clsid in
    assert (not (s.metas it).it_flags.slabbed)
    >> some (record s {
      sizes = store s.sizes id (add32 (s.sizes id) 1);
      sizes_bytes = store s.sizes_bytes id (add64 (s.sizes_bytes id) (item_of s it).nbytes);
    })

-- `do_item_unlink_q`
unfoldable pub item_unlink_q : Cache → ℕ → Cache
item_unlink_q s it =
    let id = (s.metas it).slabs_clsid in
    record s {
      sizes = store s.sizes id (sub32 (s.sizes id) 1);
      sizes_bytes = store s.sizes_bytes id (sub64 (s.sizes_bytes id) (item_of s it).nbytes);
    }

-- ITEM_LINKED and the counters of `do_item_link`
unfoldable pub mark_linked : Cache → ℕ → Cache
unfolding ntotal
mark_linked s it =
    let m = s.metas it in
    let c = s.counters in
    let s' = set_meta s it (record m {
      it_flags = record (m.it_flags) { linked = true };
      time = s.settings.current_time;
    }) in
    record s' {
      counters = record c {
        curr_bytes = add64 c.curr_bytes (ntotal (item_of s it));
        curr_items = add64 c.curr_items 1;
        total_items = add64 c.total_items 1;
      };
    }

-- `ITEM_set_cas(it->item, settings.use_cas ? get_cas_id() : 0)`
unfoldable pub stamp : Cache → ℕ → Cache
unfolding get_cas_id set_cas
stamp s it =
    let (id, s') = get_cas_id s in
    if s.settings.use_cas
    then set_item s' it (set_cas (item_of s' it) id)
    else set_item s it (set_cas (item_of s it) 0)

-- `do_item_link`
unfoldable pub do_item_link : Cache → ℕ → ℕ → Option Cache
unfolding mark_linked stamp item_link_q
do_item_link s it hv = do
  assert (not (s.metas it).it_flags.linked && not (s.metas it).it_flags.slabbed)
  let s₁ = stamp (mark_linked s it) it
  let s₂ : Cache = record s₁ { table = Assoc.insert s₁.table it hv }
  s₃ ← item_link_q s₂ it
  let s₄ = set_meta s₃ it (record (s₃.metas it) { refcount = refcount_incr (s₃.metas it).refcount })
  some (item_stats_sizes_add s₄ it)

-- ITEM_LINKED and the counters of `do_item_unlink`
unfoldable pub mark_unlinked : Cache → ℕ → Cache
unfolding ntotal
mark_unlinked s it =
    let m = s.metas it in
    let c = s.counters in
    let s' = set_meta s it (record m { it_flags = record (m.it_flags) { linked = false } }) in
    record s' {
      counters = record c {
        curr_bytes = sub64 c.curr_bytes (ntotal (item_of s it));
        curr_items = sub64 c.curr_items 1;
      };
    }

-- `do_item_unlink`, and `do_item_unlink_nolock`, which does the same
unfoldable pub do_item_unlink : Cache → ℕ → ℕ → Option Cache
unfolding mark_unlinked item_unlink_q do_item_remove
do_item_unlink s it hv =
    if (s.metas it).it_flags.linked
    then (do
      let s₁ = item_stats_sizes_remove (mark_unlinked s it) it
      t ← Assoc.delete (key_of s₁) s₁.table (key_of s₁ it) hv
      do_item_remove (item_unlink_q (record s₁ { table = t }) it) it)
    else some s

-- `do_item_replace`, also under the name `item_replace`
unfoldable pub do_item_replace : Cache → ℕ → ℕ → ℕ → Option Cache
unfolding do_item_unlink do_item_link
do_item_replace s it new_it hv = do
  assert (not (s.metas it).it_flags.slabbed)
  s' ← do_item_unlink s it hv
  do_item_link s' new_it hv
