-- ===== src/Ascii/Commands.antt =====
-- memcached.c: `complete_nread_ascii`, `process_touch_command` and `process_delete_command`. A token
-- that is not there, and a failed assertion, are `none`.
pub mod Dispatch
pub mod Deletes
pub mod Chunks
pub mod Tests
use log_memcached.Base.{
  ℕ, ◌+◌, ◌-◌, ◌%◌, ◌^◌, Bool, true, false, not, ◌&&◌, ◌||◌, ◌==◌, Option, none, some, List, [],
  ◌∷◌, length, take, drop, ltb, leb, if◌then◌else◌, get_elem?, list_eq, ◌>>=◌, ◌>>◌,
}
use log_memcached.Base.Memory.{Memory, store}
use log_memcached.Base.Words.{add64}
use log_memcached.Base.Text.{codes}
use log_memcached.Libc.{Libc}
use log_memcached.Memlog.Header.{Item}
use log_memcached.Items.{Cache, item_of, set_item, do_item_remove}
use log_memcached.Items.Alloc.{do_item_alloc}
use log_memcached.Items.Get.{do_item_get, discard}
use log_memcached.Items.Renew.{do_item_touch}
use log_memcached.Store.{
  Verb, add, set, replace, append, prepend, cas, StoreItemType, not_stored, stored, exists,
  not_found, too_large, no_memory, do_store_item,
}
use log_memcached.Ascii.Tokens.{max_tokens, Token, tokenize_command, texts}
use log_memcached.Ascii.Time.{realtime}
use log_memcached.Ascii.Numbers.{Longs, safe_strtoul, safe_strtol}
use log_memcached.Ascii.Conn.{Client, ThreadStats, line_end, out_string, set_noreply_maybe}
use log_memcached.Ascii.Update.{key_max_length}

-- the reply to a storage command
abbrev pub store_reply : StoreItemType → List ℕ
store_reply stored = codes "STORED"
store_reply exists = codes "EXISTS"
store_reply not_found = codes "NOT_FOUND"
store_reply not_stored = codes "NOT_STORED"
store_reply too_large = codes "SERVER_ERROR Unhandled storage type."
store_reply no_memory = codes "SERVER_ERROR Unhandled storage type."

-- one more of a counter by class
abbrev pub bump : Memory ℕ → ℕ → Memory ℕ
bump m id = store m id (add64 (m id) 1)

-- the last two bytes of the value are the line end
unfoldable pub has_line_end : Item → Bool
has_line_end d = list_eq (take 2 (drop (d.nbytes - 2) d.value)) line_end

-- ITEM_CORRUPTED comes, ITEM_DIRTY goes and ITEM_STORED comes
unfoldable pub mark_corrupted : Cache → ℕ → Cache
mark_corrupted s it =
    let d = item_of s it in
    set_item s it (record d {
      it_data_flags = record (d.it_data_flags) { corrupted = true; dirty = false; stored = true };
    })

-- the reference of the connection goes back at the end
abbrev pub release_item : Client → Cache → ℕ → Option (Client × Cache)
release_item c s it = do s' ← do_item_remove s it; some (record c { item = none }, s')

-- the form of a delete with more than a key; `none` is a usage error
unfoldable pub delete_options : Client → List (List ℕ) → Option (Client × Bool)
unfolding set_noreply_maybe
delete_options c tokens =
    let ntokens = length tokens + 1 in
    if ltb 3 ntokens
    then (do
      hold ← get_elem? tokens 2
      c₁ ← set_noreply_maybe c tokens
      let hold_is_zero = list_eq hold (codes "0")
      some (
        c₁,
        (ntokens == 4 && (hold_is_zero || c₁.noreply))
            || (ntokens == 5 && (hold_is_zero && c₁.noreply)),
      ))
    else some (c, true)

-- what `process_touch_command` reads of the tokens: noreply, the key and the time
unfoldable pub touch_tokens : Client → List (List ℕ) → Option (Client × List ℕ × List ℕ)
unfolding set_noreply_maybe
touch_tokens c tokens = do
  c₁ ← set_noreply_maybe c tokens
  key ← get_elem? tokens 1
  word ← get_elem? tokens 2
  some (c₁, key, word)

-- what `process_delete_command` reads of the tokens: the options, whether they are valid, the key
unfoldable pub delete_tokens : Client → List (List ℕ) → Option (Client × Bool × List ℕ)
unfolding delete_options
delete_tokens c tokens = do
  (c₁, valid) ← delete_options c tokens
  key ← get_elem? tokens 1
  some (c₁, valid, key)

module _ ⦃libc : Libc⦄ (strtoul : List ℕ → ℕ) (pause : Cache → Cache) (hash : List ℕ → ℕ) where
  -- `complete_nread_ascii`
  unfoldable pub complete_nread_ascii : Cache → Client → Option (Client × Cache)
  unfolding has_line_end mark_corrupted out_string do_store_item do_item_remove
  complete_nread_ascii s c = do
    it ← c.item
    let id = (s.metas it).slabs_clsid
    let c₁ = record c { stats = record (c.stats) { set_cmds = bump c.stats.set_cmds id } }
    if has_line_end (item_of s it)
        then (do
          (ret, conn, s₁) ←
              do_store_item strtoul pause hash c.cmd s c.store it (hash ((item_of s it).key))
          release_item (out_string (record c₁ { store = conn }) (store_reply ret)) s₁ it)
        else release_item (out_string c₁ (codes "CLIENT_ERROR bad data chunk"))
            (mark_corrupted s it) it

  module _ (longs : Longs) (process_started : ℕ) where
    -- `process_touch_command`
    unfoldable pub process_touch_command : Cache → Client → List (List ℕ) → Option (Client × Cache)
    unfolding touch_tokens out_string safe_strtol realtime do_item_touch
    process_touch_command s c tokens = do
      (c₁, key, word) ← touch_tokens c tokens
      if ltb key_max_length (length key)
          then some (out_string c₁ (codes "CLIENT_ERROR bad command line format"), s)
          else elim (safe_strtol longs word) [
            | none ↦ some (out_string c₁ (codes "CLIENT_ERROR invalid exptime argument"), s)
            | some exptime ↦ (do
              (found, id, s₁) ←
                  do_item_touch strtoul pause s key
                    (realtime process_started s.settings.current_time exptime) (hash key)
              let t = c₁.stats
              let c₂ : Client = elim id [
                | none ↦ c₁
                | some v ↦ record c₁ { store = record (c₁.store) { cas = v } }
              ]
              some (elim found [
                | some it ↦ (
                  out_string
                      (record c₂ {
                        stats = record t {
                          touch_cmds = add64 t.touch_cmds 1;
                          touch_hits = bump t.touch_hits (s₁.metas it).slabs_clsid;
                        };
                      })
                      (codes "TOUCHED"),
                  s₁,
                )
                | none ↦ (
                  out_string
                      (record c₂ {
                        stats = record t {
                          touch_cmds = add64 t.touch_cmds 1;
                          touch_misses = add64 t.touch_misses 1;
                        };
                      })
                      (codes "NOT_FOUND"),
                  s₁,
                )
              ]))
          ]

  -- the item has been found
  unfoldable pub delete_found : Cache → Client → List ℕ → ℕ → Option (Client × Cache)
  unfolding do_item_alloc out_string discard
  delete_found s c key it = do
    let t = c.stats
    let c₁ = record c {
      stats = record t { delete_hits = bump t.delete_hits (s.metas it).slabs_clsid };
    }
    (_, succeed, s₁) ← do_item_alloc pause s key 128 0 0
    if succeed
        then (do s₂ ← discard s₁ it (hash key); some (out_string c₁ (codes "DELETED"), s₂))
        else some (out_string c₁ (codes "SERVER_ERROR Out of memory allocating new item"), s₁)

  -- `process_delete_command`
  unfoldable pub process_delete_command : Cache → Client → List (List ℕ) → Option (Client × Cache)
  unfolding delete_tokens out_string do_item_get delete_found
  process_delete_command s c tokens = do
    (c₁, valid, key) ← delete_tokens c tokens
    if not valid
        then some (
          out_string c₁
              (codes "CLIENT_ERROR bad command line format.  Usage: delete <key> [noreply]"),
          s,
        )
        else if ltb key_max_length (length key)
        then some (out_string c₁ (codes "CLIENT_ERROR bad command line format"), s)
        else (do
          (found, s₁) ← do_item_get s key (hash key)
          elim found [
            | none ↦
                let t = c₁.stats in
                some (
                  out_string
                      (record c₁ { stats = record t { delete_misses = add64 t.delete_misses 1 } })
                      (codes "NOT_FOUND"),
                  s₁,
                )
            | some it ↦ delete_found s₁ c₁ key it
          ])
