-- ===== src/Requests/Leaves/Nearer.antt =====
-- `complete_nread_binary` brings a request nearer to its end.
use log_memcached.Base.{ℕ, ◌≤◌, ◌<◌, ◌≡◌, ◌⊎◌, some, List}
use log_memcached.Delta.{Numbers}
use log_memcached.Libc.{Libc}
use log_memcached.Items.{Cache}
use log_memcached.Binary.{Status, success, key_enoent, e2big, enomem, key_eexists}
use log_memcached.Ascii.Time.{pos}
use log_memcached.Drive.{Peer}
use log_memcached.Drive.Machine.Progress.{stage, stage_of, IsLive}
use log_memcached.Binary
use log_memcached.Ascii.Conn.{conn_nread}
use log_memcached.Binary.{Substate, auth_error, delta_badval}
use log_memcached.Requests.Leaves.{Out}

-- the value is read next, as many bytes as there are
abbrev pub ReadsValue : Peer → Type 0
ReadsValue q =
    (q.state ≡ conn_nread)
    × (q.substate ≡ Binary.read_set_value)
    × ((vlen : ℕ) × (q.rlbytes ≡ pos vlen))
    × ((it : ℕ) × (q.item ≡ some it))

-- an answer, or the value that is read next
abbrev Near : Peer → Type 0
Near q = IsLive q × (stage q ≤ 5) × (Out q ⊎ ReadsValue q)

abbrev NearBy : Peer × Cache → Type 0
NearBy (q, s) = Near q

module _ ⦃libc : Libc⦄ (numbers : Numbers) (pause : Cache → Cache) (hash : List ℕ → ℕ)
    (process_started : ℕ) where
  -- What a command leaves is nearer to the end of the request than the state it is called in.
  Progress : Substate → Peer → Type 0
  Progress u q =
      IsLive q
      × (stage q < stage_of conn_nread u)
      × (Out q ⊎ ((u ≡ Binary.reading_set_header) × ReadsValue q))
