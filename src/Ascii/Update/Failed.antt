-- ===== src/Ascii/Update/Failed.antt =====
-- What a storage command whose item cannot be allocated leaves.
use log_memcached.Base.{
  ℕ, ◌+◌, ◌^◌, ◌<◌, ◌≡◌, refl, Bool, true, false, none, some, List, length, arith,
}
use log_memcached.Base.Text.{codes}
use log_memcached.Libc.{Libc}
use log_memcached.Items.{Cache, key_of, item_is_flushed}
use log_memcached.Items.Alloc.{do_item_alloc}
use log_memcached.Items.Map.{lookup, IsPlacedCache}
use log_memcached.Items.Replace.{Updated, IsLinked}
use log_memcached.Items.Get.{
  do_item_get, discard, held_by, is_expired, do_item_get-Held, discard-Updated,
}
use log_memcached.Items.Total.{>>=-eq}
use log_memcached.Store.{set}
use log_memcached.Delta.{Numbers}
use log_memcached.Ascii.Time.{realtime}
use log_memcached.Ascii.Numbers.{Longs}
use log_memcached.Ascii.Conn.{Client, conn_new_cmd, conn_write, conn_swallow, out_string}
use log_memcached.Ascii.Update.{Line, fail_alloc, begin_store}
use log_memcached.Ascii.Update.Lines.{item_size_ok_lem}

-- what the client is told, and what happens to the value that it sends
pub record IsRefused (c : Client) (vlen : ℕ) (c' : Client) : Type 0 where
  pub told :
      c.noreply ≡ false
      → (c'.state ≡ conn_write) × (c'.write_and_go ≡ conn_swallow) × (c'.sbytes ≡ vlen)
  pub quiet : c.noreply ≡ true → (c'.state ≡ conn_new_cmd) × (c'.wbuf ≡ c.wbuf)

module _ ⦃libc : Libc⦄ (numbers : Numbers) (longs : Longs) (pause : Cache → Cache)
    (hash : List ℕ → ℕ) (process_started : ℕ) where
  refused : Client → ℕ → Client
  refused c vlen = record (out_string c (codes "SERVER_ERROR out of memory storing object")) {
    write_and_go = conn_swallow;
    sbytes = vlen;
  }

  refused-IsRefused : (c : Client) (vlen : ℕ) → IsRefused c vlen (refused c vlen)
  unfolding refused out_string
  refused-IsRefused c vlen = record {
    told = λ e. ground (arith, e);
    quiet = λ e. ground (arith, e);
  }

  fail_set :
      (s s₂ : Cache) (c : Client) (l : Line) (it : ℕ)
      → do_item_get s l.key (hash l.key) ≡ some (some it, held_by s it)
      → discard (held_by s it) it (hash l.key) ≡ some s₂
      → fail_alloc numbers longs pause hash process_started s c set l ≡ some (refused c l.vlen, s₂)
  unfolding fail_alloc refused
  fail_set s s₂ c l it got gone =
      rw (got, gone, item_size_ok_lem s (length l.key) l.flags l.vlen) refl

  -- For a set whose item cannot be allocated, where the allocation leaves a well-placed table with
  -- a linked item under the key that is in use, has from one reference to two less than 2^16 and
  -- is neither flushed nor expired, process_update_command fails no assertion behind its checks,
  -- and the key then gives nothing while every other lookup is as before; the value is swallowed
  -- after the answer, except with noreply, when nothing is answered and the connection goes on to
  -- the next command, with the value unread.
  pub begin_store-fails :
      (s s₁ : Cache) (c : Client) (l : Line) (it : ℕ) (ok : Bool)
      → do_item_alloc pause s l.key l.flags
          (realtime process_started s.settings.current_time l.exptime)
          l.vlen
        ≡ some (none, ok, s₁)
      → IsPlacedCache hash s₁
      → IsLinked hash s₁ it
      → key_of s₁ it ≡ l.key
      → (s₁.metas it).refcount + 1 < 2 ^ 16
      → item_is_flushed (held_by s₁ it) it ≡ false
      → is_expired (held_by s₁ it) it ≡ false
      → (c' : Client) × (s' : Cache) × (begin_store numbers longs pause hash process_started s c set
            l
          ≡ some (c', s'))
        × IsRefused c l.vlen c'
        × Updated hash s₁ l.key none s'
  unfolding begin_store
  begin_store-fails s s₁ c l it ok alloc placed linked key small fresh alive =
      let (s', e, u) = discard-Updated hash s₁ it placed linked small in
      let found : lookup hash s₁ l.key ≡ some it = rw key at linked.found in
      let got = (do_item_get-Held hash s₁ l.key it found fresh alive).0 in
      let gone : discard (held_by s₁ it) it (hash l.key) ≡ some s' = rw key at e in
      (
        refused c l.vlen,
        s',
        >>=-eq _ _ (none, ok, s₁) alloc (fail_set s₁ s' c l it got gone),
        refused-IsRefused c l.vlen,
        (let v = u in rw key at v),
      )
