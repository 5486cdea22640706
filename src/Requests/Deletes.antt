-- ===== src/Requests/Deletes.antt =====
-- `process_bin_delete` on a key that is there.
use log_memcached.Base.{
  ℕ, ◌+◌, ◌^◌, ◌<◌, ◌≡◌, refl, sym, ap, ◌∙◌, false, ◌||◌, ◌==◌, none, some, List, arith, inl, inr,
}
use mathlib.Core.Path.{subst}
use log_memcached.Base.Words.{sub32}
use log_memcached.Libc.{Libc}
use log_memcached.Assoc
use log_memcached.Memlog.Header.{get_cas}
use log_memcached.Items.{
  Cache, key_of, item_of, item_is_flushed, do_item_remove, item_free, freelist_free,
}
use log_memcached.Items.Link.{
  do_item_unlink, mark_unlinked, item_unlink_q, item_stats_sizes_remove, count_size,
}
use log_memcached.Items.Lookup.{>>=-some, some_eq, if-cases}
use log_memcached.Items.Total.{>>=-eq, if-true}
use log_memcached.Items.Map.{IsPlacedCache}
use log_memcached.Items.Replace.{Updated, IsLinked}
use log_memcached.Items.Get.{
  do_item_get, discard, held_by, is_expired, do_item_get-Held, discard-Updated,
}
use log_memcached.Delta.{Numbers}
use log_memcached.Drive.{Peer}
use log_memcached.Requests.{binary_get_key}
use log_memcached.Requests.Keys.{bin_delete_found, process_bin_delete}

do_item_remove_log : (s s' : Cache) (it : ℕ) → do_item_remove s it ≡ some s' → s'.log ≡ s.log
unfolding do_item_remove item_free freelist_free
do_item_remove_log s s' it e = ground (arith, e)

count_size_log : (f : ℕ → ℕ) (s : Cache) (it : ℕ) → (count_size f s it).log ≡ s.log
unfolding count_size
count_size_log f s it = ground arith

unlinked_log : (s : Cache) (it : ℕ) → (item_stats_sizes_remove (mark_unlinked s it) it).log ≡ s.log
unfolding mark_unlinked
unlinked_log s it = count_size_log (λ n. sub32 n 1) (mark_unlinked s it) it

do_item_unlink_log : (s s' : Cache) (it hv : ℕ) → do_item_unlink s it hv ≡ some s' → s'.log ≡ s.log
unfolding do_item_unlink
do_item_unlink_log s s' it hv e = elim (if-cases (s.metas it).it_flags.linked _ _ e) [
  | inl (linked, e₁) ↦
      let s₁ : Cache = item_stats_sizes_remove (mark_unlinked s it) it in
      let (t, _, e₂) = >>=-some (Assoc.delete (key_of s₁) s₁.table (key_of s₁ it) hv) _ e₁ in
      do_item_remove_log (item_unlink_q (record s₁ { table = t }) it) s' it e₂ ∙ unlinked_log s it
  | inr (loose, e₁) ↦ ap (λ (x : Cache). x.log) (sym (some_eq e₁))
]

discard_log : (s s' : Cache) (it hv : ℕ) → discard s it hv ≡ some s' → s'.log ≡ s.log
unfolding discard
discard_log s s' it hv e =
    let (s₁, e₁, e₂) = >>=-some (do_item_unlink s it hv) _ e in
    do_item_remove_log s₁ s' it e₂ ∙ do_item_unlink_log s s₁ it hv e₁

module _ ⦃libc : Libc⦄ (numbers : Numbers) (pause : Cache → Cache) (hash : List ℕ → ℕ)
    (process_started : ℕ) where
  -- unlinking and giving the reference back, with the answer in between
  delete_discards :
      (s s' : Cache) (p : Peer) (it : ℕ) (key : List ℕ)
      → p.binary_header.cas ≡ 0
      → discard s it (hash key) ≡ some s'
      → (q : Peer) × (bin_delete_found numbers pause hash process_started s p it key ≡ some (q, s'))
  unfolding bin_delete_found discard
  delete_discards s s' p it key any e =
      let (s₁, e₁, e₂) = >>=-some (do_item_unlink s it (hash key)) _ e in
      (
        _,
        if-true (p.binary_header.cas == 0 || p.binary_header.cas == get_cas (item_of s it)) _ _
            (ground (arith, any)) (>>=-eq _ _ s₁ e₁ (>>=-eq _ _ s' e₂ refl)),
      )

  -- For a binary delete without a CAS of a key whose item is linked under it in a well-placed
  -- table, in use, neither flushed nor expired and has from one reference to two less than 2^16,
  -- process_bin_delete fails no assertion; the key then gives nothing, every other lookup is as
  -- before, no key in memory changes, and the log is as it was.
  pub process_bin_delete-deletes :
      (s : Cache) (p : Peer) (it : ℕ)
      → IsPlacedCache hash s
      → IsLinked hash s it
      → (s.metas it).refcount + 1 < 2 ^ 16
      → item_is_flushed (held_by s it) it ≡ false
      → is_expired (held_by s it) it ≡ false
      → binary_get_key p ≡ key_of s it
      → p.binary_header.cas ≡ 0
      → (q : Peer) × (s' : Cache) × (process_bin_delete numbers pause hash process_started s p
          ≡ some (q, s'))
        × Updated hash s (key_of s it) none s'
        × (s'.log ≡ s.log)
  unfolding process_bin_delete
  process_bin_delete-deletes s p it v l small fresh alive same any =
      let got = (do_item_get-Held hash s (key_of s it) it l.found fresh alive).0 in
      let (s', gone, u) = discard-Updated hash s it v l small in
      let (q, done) = delete_discards (held_by s it) s' p it (key_of s it) any gone in
      let got' : do_item_get s (binary_get_key p) (hash (binary_get_key p))
          ≡ some (some it, held_by s it) =
        subst (λ (k : List ℕ). do_item_get s k (hash k) ≡ some (some it, held_by s it)) (sym same)
          got in
      let done' : bin_delete_found numbers pause hash process_started (held_by s it) p it
            (binary_get_key p)
          ≡ some (q, s') =
        subst
          (λ (k : List ℕ).
            bin_delete_found numbers pause hash process_started (held_by s it) p it k
            ≡ some (q, s'))
          (sym same) done in
      (
        q,
        s',
        >>=-eq _ _ (some it, held_by s it) got' done',
        u,
        discard_log (held_by s it) s' it (hash (key_of s it)) gone,
      )
