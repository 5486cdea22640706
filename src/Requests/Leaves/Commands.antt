-- ===== src/Requests/Leaves/Commands.antt =====
-- The commands of the binary protocol, one by one: what each leaves to `drive_machine`.
use log_memcached.Base.{ℕ, ◌+◌, Bool, not, ◌||◌, Option, none, some, List, length, if◌then◌else◌}
use log_memcached.Base.Text.{codes}
use log_memcached.Base.{◌^◌, ◌-◌, take, drop, [], ◌++◌, ◌==◌, ◌>>=◌}
use log_memcached.Delta.{Numbers}
use log_memcached.Base.Words.{add64}
use log_memcached.Items.{item_of, do_item_remove}
use log_memcached.Items.Link.{do_item_unlink}
use log_memcached.Items.Get.{do_item_get}
use log_memcached.Memlog.Header.{get_cas}
use log_memcached.Ascii.Commands.{bump}
use log_memcached.Libc.{Libc}
use log_memcached.Items.{Cache}
use log_memcached.Requests.Values.{answer_store}
use log_memcached.Requests.Keys.{answer_missing, answer_item, bin_delete_found, process_bin_delete}
use log_memcached.Binary.{Status, success, key_enoent, e2big, enomem, key_eexists}
use log_memcached.Ascii.Time.{pos}
use log_memcached.Drive.{Peer}
use log_memcached.Requests.{write_bin_error, write_bin_response, out_of_memory, binary_get_key}
use log_memcached.Binary
use log_memcached.Items.{set_item}
use log_memcached.Items.Alloc.{do_item_alloc}
use log_memcached.Items.Renew.{do_item_touch, do_item_update}
use log_memcached.Store.{Conn, add, StoreItemType, is_stored, do_store_item}
use log_memcached.Delta.{
  DeltaStats, DeltaResultType, Answer, do_add_delta, ok, non_numeric, eom, delta_item_not_found,
  delta_item_cas_mismatch,
}
use log_memcached.Ascii.Conn.{line_end}
use log_memcached.Ascii.Buffer.{from_network}
use log_memcached.Ascii.Time.{realtime}
use log_memcached.Drive.{nread}
use log_memcached.Binary.{Substate, auth_error, delta_badval}
use log_memcached.Requests.{binary_get_extras, to_network}
use log_memcached.Requests.Values.{complete_update_bin, store_status}
use log_memcached.Requests.Keys.{
  find_item, should_touch, count_found, count_missing, process_bin_get_or_touch, process_bin_flush,
}
use log_memcached.Requests.Complete.{
  with_cas, read_back, create_counter, answer_delta, complete_incr_bin, count_miss, is_increment,
}
use log_memcached.Requests.Leaves.{
  IsAnswered, OnSome, bind, bind_with, branches, given, Replied, Answers, Onward,
  write_bin_text-IsAnswered, write_bin_error-IsAnswered, write_bin_response-IsAnswered,
  answer_store-IsAnswered, answer_missing-IsAnswered, answer_item-IsAnswered,
}

module _ ⦃libc : Libc⦄ (numbers : Numbers) (pause : Cache → Cache) (hash : List ℕ → ℕ)
    (process_started : ℕ) where
  bin_delete_found-Answers :
      (s : Cache) (p : Peer) (it : ℕ) (key : List ℕ)
      → Onward p
      → Answers (bin_delete_found numbers pause hash process_started s p it key)
  unfolding bin_delete_found write_bin_error
  bin_delete_found-Answers s p it key live =
      branches (p.binary_header.cas == 0 || p.binary_header.cas == get_cas (item_of s it)) _ _
        (bind (do_item_unlink s it (hash key)) _ (λ s₁. bind (do_item_remove s₁ it) _ (λ s₂.
          given Replied _ (
            write_bin_response-IsAnswered
              (record p {
                stats = record (p.stats) {
                  delete_hits = bump p.stats.delete_hits (s.metas it).slabs_clsid;
                };
              })
              [] 0 0 live))))
        (bind (do_item_remove s it) _ (λ s₁.
          given Replied _
            (write_bin_text-IsAnswered p key_eexists (codes "Data exists for key.") (pos 0))))

  pub process_bin_delete-Answers :
      (s : Cache) (p : Peer)
      → Onward p
      → Answers (process_bin_delete numbers pause hash process_started s p)
  unfolding process_bin_delete write_bin_error
  process_bin_delete-Answers s p live =
      bind (do_item_get s (binary_get_key p) (hash (binary_get_key p))) _ (λ x. found x.0 x.1)
    where
      found :
          (r : Option ℕ) (s₁ : Cache)
          → Answers (elim r [
            | none ↦ write_bin_error p key_enoent (pos 0) >>= (λ q. some (
              record q {
                stats = record (q.stats) { delete_misses = add64 q.stats.delete_misses 1 };
              },
              s₁,
            ))
            | some it ↦
                bin_delete_found numbers pause hash process_started s₁ p it (binary_get_key p)
          ])
      found none s₁ = given Replied _ (
          let a = write_bin_text-IsAnswered p key_enoent (codes "Not found") (pos 0) in
          record {
            live = record { client = a.live.client; onward = a.live.onward };
            near = a.near;
            out = a.out;
          })
      found (some it) s₁ = bin_delete_found-Answers s₁ p it (binary_get_key p) live

  pub process_bin_flush-Answers :
      (enabled : Bool) (s : Cache) (p : Peer)
      → Onward p
      → Answers (process_bin_flush numbers pause hash process_started enabled s p)
  unfolding process_bin_flush write_bin_error
  process_bin_flush-Answers enabled s p live =
      branches (not enabled) _ _
        (given Replied _ (write_bin_text-IsAnswered p auth_error (codes "Auth failure.") (pos 0)))
        (given Replied _ (
          write_bin_response-IsAnswered
            (record p { stats = record (p.stats) { flush_cmds = add64 p.stats.flush_cmds 1 } }) [] 0
            0 live))

  find_item-Onward :
      (s : Cache) (p : Peer)
      → Onward p
      → OnSome (λ x. Onward x.1) (find_item numbers pause hash process_started s p)
  unfolding find_item
  find_item-Onward s p live =
      branches (should_touch p.cmd) _ _
        (bind
          (do_item_touch numbers.strtoul pause s (binary_get_key p)
            (realtime process_started s.settings.current_time
              (pos (from_network 0 (binary_get_extras p))))
            (hash (binary_get_key p)))
          _ (λ x. given (λ y. Onward y.1) _ (noted x.1)))
        (bind (do_item_get s (binary_get_key p) (hash (binary_get_key p))) _
          (λ x. given (λ y. Onward y.1) _ live))
    where
      noted :
          (id : Option ℕ)
          → Onward
              (elim id [ none ↦ p | some v ↦ record p { store = record (p.store) { cas = v } } ])
      noted none = live
      noted (some v) = live

  pub process_bin_get_or_touch-Answers :
      (s : Cache) (p : Peer)
      → Onward p
      → Answers (process_bin_get_or_touch numbers pause hash process_started s p)
  unfolding process_bin_get_or_touch
  process_bin_get_or_touch-Answers s p live =
      bind_with (λ x. Onward x.1) (find_item numbers pause hash process_started s p) _
        (find_item-Onward s p live) (λ x o. found x.0 x.1 x.2 o)
    where
      found :
          (r : Option ℕ) (p₁ : Peer) (s₁ : Cache)
          → Onward p₁
          → Answers (elim r [
            | none ↦
                answer_missing (record p₁ { stats = count_missing (should_touch p.cmd) p.stats })
                >>= (λ q. some (q, s₁))
            | some it ↦ do_item_update numbers.strtoul pause hash s₁ it >>= (λ y. some (
              answer_item numbers.strtoul
                  (record p₁ {
                    stats = count_found (should_touch p.cmd) p.stats (y.2.metas it).slabs_clsid;
                  })
                  (item_of y.2 it)
                  it,
              y.2,
            ))
          ])
      found none p₁ s₁ o =
          bind_with IsAnswered
            (answer_missing (record p₁ { stats = count_missing (should_touch p.cmd) p.stats })) _
            (answer_missing-IsAnswered
              (record p₁ { stats = count_missing (should_touch p.cmd) p.stats }) o)
            (λ q a. given Replied _ a)
      found (some it) p₁ s₁ o = bind (do_item_update numbers.strtoul pause hash s₁ it) _ (λ y.
          given Replied _ (
            answer_item-IsAnswered numbers.strtoul
              (record p₁ {
                stats = count_found (should_touch p.cmd) p.stats (y.2.metas it).slabs_clsid;
              })
              (item_of y.2 it) it))

  pub complete_update_bin-Answers :
      (s : Cache) (p : Peer)
      → Onward p
      → Answers (complete_update_bin numbers.strtoul pause hash s p)
  unfolding complete_update_bin
  complete_update_bin-Answers s p live = bind p.item _ (λ it.
      bind (elim p.cmd [ nread verb ↦ some verb | _ ↦ none ]) _
        (λ verb.
          bind
            (do_store_item numbers.strtoul pause hash verb (filled it) p.store it
              (hash ((item_of (filled it) it).key)))
            _
            (λ x.
              bind_with IsAnswered (answer_store (counted x.1 it) (store_status x.0 verb)) _
                (answer_store-IsAnswered (counted x.1 it) (store_status x.0 verb) live)
                (λ q a. bind (do_item_remove x.2 it) _ (λ s₃. given Replied _ (record {
                  live = record { client = a.live.client; onward = a.live.onward };
                  near = a.near;
                  out = a.out;
                }))))))
    where
      filled : ℕ → Cache
      filled it = set_item s it (record (item_of s it) { value = p.received ++ line_end })

      counted : Conn → ℕ → Peer
      counted conn it = record p {
        store = conn;
        stats = record (p.stats) { set_cmds = bump p.stats.set_cmds (s.metas it).slabs_clsid };
      }

  create_counter-Answers :
      (s : Cache) (p : Peer) (initial expiration : ℕ)
      → Onward p
      → Answers (create_counter numbers pause hash process_started s p initial expiration)
  unfolding create_counter
  create_counter-Answers s p initial expiration live =
      bind
        (do_item_alloc pause s (binary_get_key p) 0
          (realtime process_started s.settings.current_time (pos expiration)) (length text + 2))
        _ (λ x. made x.0 x.2)
    where
      text : List ℕ
      text = numbers.print initial

      reply : StoreItemType → Conn → Cache → ℕ → Option Peer
      reply ret conn s₃ it =
          if is_stored ret
          then some (
              write_bin_response
                (record p { store = record conn { cas = get_cas (item_of s₃ it) } })
                (to_network 8 initial) 0 0)
          else write_bin_error (record p { store = conn }) Binary.not_stored (pos 0)

      reply-IsAnswered :
          (ret : StoreItemType) (conn : Conn) (s₃ : Cache) (it : ℕ)
          → OnSome IsAnswered (reply ret conn s₃ it)
      reply-IsAnswered ret conn s₃ it =
          branches (is_stored ret) _ _
            (given IsAnswered _ (
              write_bin_response-IsAnswered
                (record p { store = record conn { cas = get_cas (item_of s₃ it) } })
                (to_network 8 initial) 0 0 live))
            (write_bin_error-IsAnswered (record p { store = conn }) Binary.not_stored (pos 0))

      filled : Cache → ℕ → Cache
      filled s₁ it = set_item s₁ it (record (item_of s₁ it) { value = text ++ line_end })

      made :
          (new : Option ℕ) (s₁ : Cache)
          → Answers (elim new [
            | none ↦ some (out_of_memory p (codes "Out of memory allocating new item"), s₁)
            | some it ↦
                do_store_item numbers.strtoul pause hash add
                  (filled s₁ it)
                  p.store
                  it
                  (hash ((item_of (filled s₁ it) it).key))
                >>= (λ x.
                    reply x.0 x.1 x.2 it >>= (λ q. do_item_remove x.2 it >>= (λ s₄. some (q, s₄))))
          ])
      made none s₁ =
          given Replied _
            (write_bin_text-IsAnswered p enomem (codes "Out of memory allocating new item") (pos 0))
      made (some it) s₁ =
          bind
            (do_store_item numbers.strtoul pause hash add (filled s₁ it) p.store it
              (hash ((item_of (filled s₁ it) it).key)))
            _
            (λ x.
              bind_with IsAnswered (reply x.0 x.1 x.2 it) _ (reply-IsAnswered x.0 x.1 x.2 it)
                (λ q a. bind (do_item_remove x.2 it) _ (λ s₄. given Replied _ a)))

  answer_delta-Answers :
      (r : DeltaResultType) (a : Answer) (p : Peer) (initial expiration : ℕ)
      → Onward p
      → Answers (answer_delta numbers pause hash process_started r a p initial expiration)
  unfolding answer_delta write_bin_error
  answer_delta-Answers ok a p initial expiration live = given Replied _ (
      write_bin_response-IsAnswered (with_cas numbers pause hash process_started p a.cas)
        (to_network 8 (read_back numbers pause hash process_started a.buf)) 0 0 live)
  answer_delta-Answers non_numeric a p initial expiration live = given Replied _ (
      write_bin_text-IsAnswered p delta_badval
        (codes "Non-numeric server-side value for incr or decr") (pos 0))
  answer_delta-Answers eom a p initial expiration live =
      given Replied _
        (write_bin_text-IsAnswered p enomem (codes "Out of memory incrementing value") (pos 0))
  answer_delta-Answers delta_item_not_found a p initial expiration live =
      branches (not (expiration == 2 ^ 32 - 1)) _ _
        (create_counter-Answers a.cache p initial expiration live)
        (given Replied _ (
          write_bin_text-IsAnswered (record p { stats = count_miss p.cmd p.stats }) key_enoent
            (codes "Not found") (pos 0)))
  answer_delta-Answers delta_item_cas_mismatch a p initial expiration live =
      given Replied _
        (write_bin_text-IsAnswered p key_eexists (codes "Data exists for key.") (pos 0))

  pub complete_incr_bin-Answers :
      (hits : DeltaStats) (s : Cache) (p : Peer)
      → Onward p
      → OnSome (λ x. IsAnswered x.1) (complete_incr_bin numbers pause hash process_started hits s p)
  unfolding complete_incr_bin
  complete_incr_bin-Answers hits s p live =
      bind
        (do_add_delta numbers pause s (binary_get_key p)
          (is_increment numbers pause hash process_started p.cmd)
          (from_network 0 (take 8 (binary_get_extras p))) (some p.binary_header.cas) hits
          (hash (binary_get_key p)))
        _
        (λ a.
          bind_with Replied
            (answer_delta numbers pause hash process_started a.result a p
              (from_network 0 (take 8 (drop 8 (binary_get_extras p))))
              (from_network 0 (drop 16 (binary_get_extras p))))
            _ (answer_delta-Answers a.result a p _ _ live)
            (λ y ans. given (λ x. IsAnswered x.1) _ ans))
