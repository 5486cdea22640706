-- ===== src/Ascii/Update.antt =====
-- memcached.c: the command line of a storage command, `process_update_command`. A token that is not
-- there, and a failed assertion, are `none`.
pub mod Lines
pub mod Failed
use log_memcached.Base.{
  ℕ, ◌+◌, ◌-◌, ◌%◌, ◌^◌, Bool, true, false, not, ◌==◌, Option, none, some, List, [], ◌∷◌, length,
  ltb, leb, if◌then◌else◌, get_elem?, ◌>>=◌, ◌>>◌,
}
use log_memcached.Base.Text.{codes}
use log_memcached.Libc.{Libc}
use log_memcached.Memlog.Header.{set_cas}
use log_memcached.Items.{Cache, item_of, set_item}
use log_memcached.Items.Alloc.{item_total, do_item_alloc}
use log_memcached.Items.Get.{do_item_get, discard}
use log_memcached.Store.{Verb, set}
use log_memcached.Delta.{Numbers, safe_strtoull}
use log_memcached.Ascii.Time.{ℤ, pos, negsuc, realtime, realtime_maxdelta}
use log_memcached.Ascii.Numbers.{Longs, safe_strtoul, safe_strtol}
use log_memcached.Ascii.Conn.{
  Client, ConnState, conn_nread, conn_swallow, out_string, set_noreply_maybe,
}

-- KEY_MAX_LENGTH
abbrev pub key_max_length : ℕ
key_max_length = 250

-- INT_MAX
abbrev pub int_max : ℕ
int_max = 2 ^ 31 - 1

-- what the line asks for; `vlen` is the length of the value with its line end
pub record Line : Type 0 where
  pub key : List ℕ
  pub flags : ℕ
  pub exptime : ℤ
  pub vlen : ℕ
  pub req_cas_id : ℕ

-- a time in the past goes to one before the start of the process
unfoldable pub clamp : ℤ → ℤ
clamp (pos n) = pos n
clamp (negsuc n) = pos (realtime_maxdelta + 1)

-- `vlen < 0 || vlen > (INT_MAX - 2)`, and `vlen += 2`
unfoldable pub value_length : ℤ → Option ℕ
value_length (pos n) = if ltb (int_max - 2) n then none else some (n + 2)
value_length (negsuc n) = none

module _ (numbers : Numbers) (longs : Longs) where
  -- `req_cas_id`
  unfoldable pub read_cas : List (List ℕ) → Bool → Option (Option ℕ)
  unfolding safe_strtoull
  read_cas tokens false = some (some 0)
  read_cas tokens true = do word ← get_elem? tokens 5; some (safe_strtoull numbers word)

  -- the checks on the words of the line; `none` is "bad command line format"
  unfoldable pub check_line : List ℕ → List ℕ → List ℕ → List ℕ → Option ℕ → Option Line
  unfolding safe_strtoul safe_strtol value_length clamp
  check_line key flags exptime vlen cas = if ltb key_max_length (length key) then none else (do
    f ← safe_strtoul longs flags
    e ← safe_strtol longs exptime
    v ← safe_strtol longs vlen
    id ← cas
    n ← value_length v
    some (record { key = key; flags = f; exptime = clamp e; vlen = n; req_cas_id = id }))

  -- the words that are read, and the checks
  unfoldable pub read_line : List (List ℕ) → Bool → Option (Option Line)
  unfolding read_cas check_line
  read_line tokens handle_cas = do
    key ← get_elem? tokens 1
    flags ← get_elem? tokens 2
    exptime ← get_elem? tokens 3
    vlen ← get_elem? tokens 4
    cas ← read_cas tokens handle_cas
    some (check_line key flags exptime vlen cas)

-- `freelist_clsid`
abbrev pub freelist_clsid : ℕ → ℕ
freelist_clsid size = if size == 0 then 0 else 1

-- `item_size_ok`
unfoldable pub item_size_ok : ⦃libc : Libc⦄ → Cache → ℕ → ℕ → ℕ → Bool
unfolding item_total
item_size_ok s nkey flags nbytes =
    not (freelist_clsid (item_total s.settings.use_cas nkey flags nbytes) == 0)

module _ ⦃libc : Libc⦄ (numbers : Numbers) (longs : Longs) (pause : Cache → Cache)
    (hash : List ℕ → ℕ) (process_started : ℕ) where
  -- a value that is not stored: it is swallowed, and a `set` takes the old value away
  unfoldable pub fail_alloc : Cache → Client → Verb → Line → Option (Client × Cache)
  unfolding item_size_ok out_string do_item_get discard
  fail_alloc s c comm l = do
    let c₁ = out_string c (
        if item_size_ok s (length l.key) l.flags l.vlen
        then codes "SERVER_ERROR out of memory storing object"
        else codes "SERVER_ERROR object too large for cache")
    let c₂ = record c₁ { write_and_go = conn_swallow; sbytes = l.vlen }
    elim comm [
      | set ↦ (do
        (found, s₁) ← do_item_get s l.key (hash l.key)
        elim found [
          | none ↦ some (c₂, s₁)
          | some it ↦ (do s₂ ← discard s₁ it (hash l.key); some (c₂, s₂))
        ])
      | _ ↦ some (c₂, s)
    ]

  -- the line has been read
  unfoldable pub begin_store : Cache → Client → Verb → Line → Option (Client × Cache)
  unfolding do_item_alloc fail_alloc set_cas realtime
  begin_store s c comm l = do
    (new, _, s₁) ←
        do_item_alloc pause s l.key l.flags
          (realtime process_started s.settings.current_time l.exptime) l.vlen
    elim new [
      | none ↦ fail_alloc s₁ c comm l
      | some it ↦
          (let s₂ = set_item s₁ it (set_cas (item_of s₁ it) l.req_cas_id) in
            some (
              record c {
                item = some it;
                rlbytes = (item_of s₂ it).nbytes;
                cmd = comm;
                state = conn_nread;
              },
              s₂,
            ))
    ]

  -- `process_update_command`
  unfoldable pub process_update_command :
      Cache → Client → List (List ℕ) → Verb → Bool → Option (Client × Cache)
  unfolding set_noreply_maybe read_line begin_store out_string
  process_update_command s c tokens comm handle_cas = do
    c₁ ← set_noreply_maybe c tokens
    line ← read_line numbers longs tokens handle_cas
    elim line [
      | none ↦ some (out_string c₁ (codes "CLIENT_ERROR bad command line format"), s)
      | some l ↦ begin_store s c₁ comm l
    ]
