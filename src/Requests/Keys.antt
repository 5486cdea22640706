-- ===== src/Requests/Keys.antt =====
-- memcached.c: the commands of the binary protocol on a key, `process_bin_delete`,
-- `process_bin_get_or_touch` and `process_bin_flush`. A failed assertion is `none`.
use log_memcached.Base.{
  ℕ, ◌+◌, ◌-◌, ◌%◌, ◌^◌, Bool, true, false, not, ◌||◌, ◌==◌, Option, none, some, List, [], ◌∷◌,
  ◌++◌, take, if◌then◌else◌, ◌>>=◌,
}
use log_memcached.Base.Words.{add64}
use log_memcached.Libc.{Libc}
use log_memcached.Memlog.Header.{Item, get_cas}
use log_memcached.Items.{Cache, item_of, do_item_remove}
use log_memcached.Items.Link.{do_item_unlink}
use log_memcached.Items.Get.{do_item_get}
use log_memcached.Items.Renew.{do_item_touch, do_item_update}
use log_memcached.Binary
use log_memcached.Binary.{
  Opcode, Substate, key_enoent, key_eexists, delta_badval, auth_error, success,
}
use log_memcached.Delta.{Numbers}
use log_memcached.Ascii.Time.{pos, realtime}
use log_memcached.Ascii.Conn.{conn_new_cmd, conn_mwrite, ThreadStats}
use log_memcached.Ascii.Buffer.{from_network}
use log_memcached.Ascii.Flush.{set_oldest, flush_time}
use log_memcached.Ascii.Commands.{bump}
use log_memcached.Drive.{Peer, Command, code}
use log_memcached.Requests.{
  add_response, write_bin_error, write_bin_response, binary_get_key, binary_get_extras, to_network,
}

-- the commands that touch, that return the key, and that return the value
unfoldable pub should_touch : Command → Bool
should_touch (code Binary.touch) = true
should_touch (code Binary.gat) = true
should_touch (code Binary.gatk) = true
should_touch _ = false

unfoldable pub should_return_key : Command → Bool
should_return_key (code Binary.getk) = true
should_return_key (code Binary.gatk) = true
should_return_key _ = false

unfoldable pub should_return_value : Command → Bool
should_return_value (code Binary.touch) = false
should_return_value _ = true

-- the counters of a get or a touch that finds an item, and of one that finds none
unfoldable pub count_found : Bool → ThreadStats → ℕ → ThreadStats
count_found true t id = record t {
  touch_cmds = add64 t.touch_cmds 1;
  touch_hits = bump t.touch_hits id;
}
count_found false t id = record t { get_cmds = add64 t.get_cmds 1; get_hits = bump t.get_hits id }

unfoldable pub count_missing : Bool → ThreadStats → ThreadStats
count_missing true t = record t {
  touch_cmds = add64 t.touch_cmds 1;
  touch_misses = add64 t.touch_misses 1;
}
count_missing false t = record t {
  get_cmds = add64 t.get_cmds 1;
  get_misses = add64 t.get_misses 1;
}

-- the answer is sent, and the next command follows
abbrev pub send_answer : Peer → Peer
send_answer p = record p { state = conn_mwrite; write_and_go = conn_new_cmd }

-- the bytes of a value without its line end
abbrev pub value_of : Item → List ℕ
value_of d = take (d.nbytes - 2) d.value

abbrev pub when_so : Bool → List ℕ → List (List ℕ)
when_so true bytes = bytes ∷ []
when_so false bytes = []

module _ (strtoul : List ℕ → ℕ) where
  -- the answer with an item
  unfoldable pub answer_item : Peer → Item → ℕ → Peer
  unfolding add_response should_return_key should_return_value to_network
  answer_item p d it =
      let key = take p.binary_header.keylen d.key in
      let flags = to_network 4 (strtoul d.suffix % 2 ^ 32) in
      let return_key = should_return_key p.cmd in
      let return_value = should_return_value p.cmd in
      let bodylen =
        4
        + (if return_value then d.nbytes - 2 else 0)
        + (if return_key then p.binary_header.keylen else 0) in
      record (send_answer (
        add_response p success 4 (if return_key then p.binary_header.keylen else 0)
          (bodylen % 2 ^ 32) (get_cas d)
          ((flags ∷ []) ++ when_so return_key key ++ when_so return_value (value_of d)))) {
            item = some it;
          }

-- the answer where there is no item
unfoldable pub answer_missing : Peer → Option Peer
unfolding add_response should_return_key write_bin_error binary_get_key
answer_missing p =
    if p.noreply
    then some (record p { state = conn_new_cmd })
    else if should_return_key p.cmd
    then some (
        send_answer (
          add_response p key_enoent 0 p.binary_header.keylen p.binary_header.keylen p.store.cas
            (binary_get_key p ∷ [])))
    else write_bin_error p key_enoent (pos 0)

module _ ⦃libc : Libc⦄ (numbers : Numbers) (pause : Cache → Cache) (hash : List ℕ → ℕ)
    (process_started : ℕ) where
  -- `item_touch` or `item_get`, with what goes to `c->cas`
  unfoldable pub find_item : Cache → Peer → Option (Option ℕ × Peer × Cache)
  unfolding should_touch do_item_touch do_item_get binary_get_key binary_get_extras from_network
      realtime
  find_item s p =
      let key = binary_get_key p in
      if should_touch p.cmd
      then (do
        (found, id, s₁) ←
            do_item_touch numbers.strtoul pause s key
              (realtime process_started s.settings.current_time
                (pos (from_network 0 (binary_get_extras p))))
              (hash key)
        some (
          found,
          elim id [ none ↦ p | some v ↦ record p { store = record (p.store) { cas = v } } ],
          s₁,
        ))
      else (do (found, s₁) ← do_item_get s key (hash key); some (found, p, s₁))

  -- `process_bin_get_or_touch`
  unfoldable pub process_bin_get_or_touch : Cache → Peer → Option (Peer × Cache)
  unfolding find_item do_item_update answer_item answer_missing count_found count_missing
  process_bin_get_or_touch s p = do
    (found, p₁, s₁) ← find_item s p
    elim found [
      | none ↦ (do
        q ← answer_missing (record p₁ { stats = count_missing (should_touch p.cmd) p.stats })
        some (q, s₁))
      | some it ↦ (do
        (_, _, s₂) ← do_item_update numbers.strtoul pause hash s₁ it
        let t = count_found (should_touch p.cmd) p.stats (s₂.metas it).slabs_clsid
        some (answer_item numbers.strtoul (record p₁ { stats = t }) (item_of s₂ it) it, s₂))
    ]

  -- the item has been found
  unfoldable pub bin_delete_found : Cache → Peer → ℕ → List ℕ → Option (Peer × Cache)
  unfolding do_item_unlink do_item_remove write_bin_error write_bin_response get_cas
  bin_delete_found s p it key =
      let wanted = p.binary_header.cas in
      if wanted == 0 || wanted == get_cas (item_of s it)
      then (do
        let t = p.stats
        let hits = bump t.delete_hits (s.metas it).slabs_clsid
        s₁ ← do_item_unlink s it (hash key)
        s₂ ← do_item_remove s₁ it
        some (write_bin_response (record p { stats = record t { delete_hits = hits } }) [] 0 0, s₂))
      else (do q ← write_bin_error p key_eexists (pos 0); s₁ ← do_item_remove s it; some (q, s₁))

  -- `process_bin_delete`
  unfoldable pub process_bin_delete : Cache → Peer → Option (Peer × Cache)
  unfolding do_item_get bin_delete_found write_bin_error binary_get_key
  process_bin_delete s p = do
    let key = binary_get_key p
    (found, s₁) ← do_item_get s key (hash key)
    elim found [
      | none ↦ (do
        q ← write_bin_error p key_enoent (pos 0)
        let t = q.stats
        some (record q { stats = record t { delete_misses = add64 t.delete_misses 1 } }, s₁))
      | some it ↦ bin_delete_found s₁ p it key
    ]

  -- `process_bin_flush`
  unfoldable pub process_bin_flush : Bool → Cache → Peer → Option (Peer × Cache)
  unfolding set_oldest flush_time write_bin_response write_bin_error binary_get_extras from_network
  process_bin_flush flush_enabled s p =
      if not flush_enabled
      then (do q ← write_bin_error p auth_error (pos 0); some (q, s))
      else (let exptime =
            if p.binary_header.extlen == 4 then from_network 0 (binary_get_extras p) else 0 in
          let t = p.stats in
          some (
            write_bin_response (record p { stats = record t { flush_cmds = add64 t.flush_cmds 1 } })
                [] 0 0,
            set_oldest s (flush_time process_started s.settings.current_time (pos exptime)),
          ))
