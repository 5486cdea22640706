-- ===== src/Requests/Values.antt =====
-- memcached.c: the commands of the binary protocol that store a value, `process_bin_update`,
-- `process_bin_append_prepend` and `complete_update_bin`. A failed assertion is `none`, and so is a
-- length that is negative.
use log_memcached.Base.{
  ℕ, ◌+◌, false, not, ◌==◌, Option, none, some, List, [], ◌++◌, take, drop, if◌then◌else◌, ◌>>=◌,
}
use log_memcached.Base.Text.{codes}
use log_memcached.Base.Words.{sub32}
use log_memcached.Libc.{Libc}
use log_memcached.Memlog.Header.{get_cas, set_cas}
use log_memcached.Items.{Cache, item_of, set_item, do_item_remove}
use log_memcached.Items.Alloc.{do_item_alloc}
use log_memcached.Items.Get.{do_item_get, discard}
use log_memcached.Store.{
  Verb, add, set, replace, append, prepend, cas, StoreItemType, stored, exists, not_found,
  do_store_item,
}
use log_memcached.Binary
use log_memcached.Binary.{Status, key_enoent, key_eexists, e2big}
use log_memcached.Ascii.Time.{pos, negsuc, signed, realtime}
use log_memcached.Ascii.Conn.{conn_nread, conn_swallow, line_end}
use log_memcached.Ascii.Buffer.{from_network}
use log_memcached.Ascii.Update.{item_size_ok}
use log_memcached.Ascii.Commands.{bump}
use log_memcached.Drive.{Peer, Command, code, nread}
use log_memcached.Requests.{
  write_bin_error, write_bin_response, out_of_memory, binary_get_key, binary_get_extras,
}

-- `vlen`, an `int`: the length of the body without the `n` bytes in front of the value
abbrev pub value_size : Peer → ℕ → Option ℕ
value_size p n = elim (signed (sub32 p.binary_header.bodylen n)) [
  | pos vlen ↦ some vlen
  | negsuc _ ↦ none
]

-- the way of storing that a command with extras stands for
unfoldable pub update_verb : Command → Option Verb
update_verb (code Binary.add) = some add
update_verb (code Binary.set) = some set
update_verb (code Binary.replace) = some replace
update_verb _ = none

unfoldable pub join_verb : Command → Option Verb
join_verb (code Binary.append) = some append
join_verb (code Binary.prepend) = some prepend
join_verb _ = none

-- the state in which the value is read
abbrev pub read_value : Peer → Verb → ℕ → ℕ → Peer
read_value p verb it vlen = record p {
  cmd = nread verb;
  item = some it;
  received = [];
  in_buffer = false;
  rlbytes = pos vlen;
  state = conn_nread;
  substate = Binary.read_set_value;
}

-- the value is swallowed
abbrev pub swallow_next : Peer → Peer
swallow_next p = record p { write_and_go = conn_swallow }

-- the answer to a store
unfoldable pub store_status : StoreItemType → Verb → Option Status
store_status stored verb = none
store_status exists verb = some key_eexists
store_status not_found verb = some key_enoent
store_status _ add = some key_eexists
store_status _ replace = some key_enoent
store_status _ verb = some Binary.not_stored

unfoldable pub answer_store : Peer → Option Status → Option Peer
unfolding write_bin_response write_bin_error
answer_store p none = some (write_bin_response p [] 0 0)
answer_store p (some err) = write_bin_error p err (pos 0)

module _ ⦃libc : Libc⦄ (strtoul : List ℕ → ℕ) (pause : Cache → Cache) (hash : List ℕ → ℕ) where
  -- there is no room for the value
  unfoldable pub refuse_value : Cache → Peer → ℕ → ℕ → Option Peer
  unfolding item_size_ok write_bin_error
  refuse_value s p flags vlen =
      if not (item_size_ok s p.binary_header.keylen flags (vlen + 2))
      then write_bin_error p e2big (pos vlen) >>= (λ q. some (swallow_next q))
      else some (
          swallow_next
            (record (out_of_memory p (codes "Out of memory allocating item")) { sbytes = vlen }))

  -- a set takes the old value away
  unfoldable pub drop_stale : Cache → Command → List ℕ → Option Cache
  unfolding do_item_get discard
  drop_stale s (code Binary.set) key = do
    (found, s₁) ← do_item_get s key (hash key)
    elim found [ none ↦ some s₁ | some it ↦ discard s₁ it (hash key) ]
  drop_stale s _ key = some s

  -- `process_bin_update`
  unfoldable pub process_bin_update : ℕ → Cache → Peer → Option (Peer × Cache)
  unfolding do_item_alloc refuse_value drop_stale set_cas get_cas update_verb from_network realtime
      binary_get_key binary_get_extras
  process_bin_update process_started s p = do
    let key = binary_get_key p
    let flags = from_network 0 (take 4 (binary_get_extras p))
    let expiration = from_network 0 (drop 4 (binary_get_extras p))
    vlen ← value_size p (p.binary_header.keylen + p.binary_header.extlen)
    (new, _, s₁) ←
        do_item_alloc pause s key flags
          (realtime process_started s.settings.current_time (pos expiration)) (vlen + 2)
    elim new [
      | none ↦ (do q ← refuse_value s₁ p flags vlen; s₂ ← drop_stale s₁ p.cmd key; some (q, s₂))
      | some it ↦ (do
        verb ← update_verb p.cmd
        let s₂ = set_item s₁ it (set_cas (item_of s₁ it) p.binary_header.cas)
        some (read_value p (if get_cas (item_of s₂ it) == 0 then verb else cas) it vlen, s₂))
    ]

  -- `process_bin_append_prepend`
  unfoldable pub process_bin_append_prepend : Cache → Peer → Option (Peer × Cache)
  unfolding do_item_alloc refuse_value set_cas join_verb binary_get_key
  process_bin_append_prepend s p = do
    let key = binary_get_key p
    vlen ← value_size p p.binary_header.keylen
    (new, _, s₁) ← do_item_alloc pause s key 0 0 (vlen + 2)
    elim new [
      | none ↦ (do q ← refuse_value s₁ p 0 vlen; some (q, s₁))
      | some it ↦ (do
        verb ← join_verb p.cmd
        some (
          read_value p verb it vlen,
          set_item s₁ it (set_cas (item_of s₁ it) p.binary_header.cas),
        ))
    ]

  -- `complete_update_bin`, for a value whose bytes have come; the line end goes behind them
  unfoldable pub complete_update_bin : Cache → Peer → Option (Peer × Cache)
  unfolding do_store_item do_item_remove store_status answer_store
  complete_update_bin s p = do
    it ← p.item
    verb ← elim p.cmd [ nread verb ↦ some verb | _ ↦ none ]
    let s₁ = set_item s it (record (item_of s it) { value = p.received ++ line_end })
    let t = record (p.stats) { set_cmds = bump p.stats.set_cmds (s.metas it).slabs_clsid }
    (ret, conn, s₂) ←
        do_store_item strtoul pause hash verb s₁ p.store it (hash ((item_of s₁ it).key))
    q ← answer_store (record p { store = conn; stats = t }) (store_status ret verb)
    s₃ ← do_item_remove s₂ it
    some (record q { item = none }, s₃)
