-- ===== src/Requests/Leaves.antt =====
-- What the commands of the binary protocol leave to `drive_machine`.
pub mod Commands
pub mod Nearer
use log_memcached.Base.{
  ℕ, zero, suc, ◌+◌, ◌≤◌, ◌<◌, ◌≡◌, refl, sym, ap, Bool, true, false, not, ◌||◌, Option, none, some,
  List, length, arith, ◌⊎◌, inl, inr, Bool-cases, Option-cases, if◌then◌else◌,
}
use log_memcached.Base.Text.{codes}
use log_memcached.Base.{[], ◌==◌, ◌∷◌, ◌>>=◌}
use log_memcached.Delta.{Numbers}
use log_memcached.Base.Words.{add64}
use mathlib.Core.Path.{subst}
use log_memcached.Items.{item_of, do_item_remove}
use log_memcached.Items.Link.{do_item_unlink}
use log_memcached.Items.Get.{do_item_get}
use log_memcached.Memlog.Header.{get_cas}
use log_memcached.Items.Lookup.{>>=-some}
use log_memcached.Ascii.Commands.{bump}
use log_memcached.Libc.{Libc}
use log_memcached.Items.{Cache}
use log_memcached.Memlog.Header.{Item}
use log_memcached.Ascii.Update.{item_size_ok}
use log_memcached.Requests.Values.{answer_store, refuse_value, swallow_next}
use log_memcached.Requests.Keys.{
  answer_missing, answer_item, bin_delete_found, process_bin_delete, should_return_key,
}
use log_memcached.Binary.{Status, success, key_enoent, e2big, enomem, key_eexists}
use log_memcached.Ascii.Time.{ℤ, pos, negsuc}
use log_memcached.Ascii.Conn.{conn_new_cmd, conn_mwrite, conn_swallow}
use log_memcached.Drive.{Peer}
use log_memcached.Drive.Machine.Progress.{stage, IsLive, follows_answer, is_client}
use log_memcached.Requests.{
  after_error, write_bin_text, write_bin_error, write_bin_response, error_text, out_of_memory,
  binary_get_key, is_get, part, add_response,
}

-- There is an answer to send, or the command was quiet and the next one follows.
abbrev pub Out : Peer → Type 0
Out q =
    ((q.state ≡ conn_mwrite) × (0 < length q.pending))
    ⊎ ((q.state ≡ conn_new_cmd) × (q.noreply ≡ true))

pub record IsAnswered (q : Peer) : Type 0 where
  pub live : IsLive q
  pub near : stage q ≤ 4
  pub out : Out q

-- a property of the result, if there is one
abbrev pub OnSome : {A : Type 0} → (A → Type 0) → Option A → Type 0
OnSome {A} P m = (b : A) → m ≡ some b → P b

pub bind :
    {A B : Type 0} {P : B → Type 0} (m : Option A) (f : A → Option B)
    → ((a : A) → OnSome P (f a))
    → OnSome P (m >>= f)
bind m f h b e = let (a, _, e') = >>=-some m f e in h a b e'

pub bind_with :
    {A B : Type 0} {P : B → Type 0} (Q : A → Type 0) (m : Option A) (f : A → Option B)
    → OnSome Q m
    → ((a : A) → Q a → OnSome P (f a))
    → OnSome P (m >>= f)
bind_with Q m f q h b e = let (a, e₁, e₂) = >>=-some m f e in h a (q a e₁) b e₂

pub branches :
    {B : Type 0} {P : B → Type 0} (b : Bool) (x y : Option B)
    → OnSome P x
    → OnSome P y
    → OnSome P (if b then x else y)
branches true x y h g = h
branches false x y h g = g

branches_with :
    {B : Type 0} {P : B → Type 0} (b : Bool) (x y : Option B)
    → (b ≡ true → OnSome P x)
    → (b ≡ false → OnSome P y)
    → OnSome P (if b then x else y)
branches_with true x y h g = h refl
branches_with false x y h g = g refl

pub given : {A : Type 0} (P : A → Type 0) (a : A) → P a → OnSome P (some a)
given P a h b e = subst P (ap (λ (o : Option _). elim o [ none ↦ a | some x ↦ x ]) e) h

pub absent : {A : Type 0} (P : A → Type 0) → OnSome P none
absent P b e = absurd (ground (arith, e))

-- a command leaves an answer, with whatever cache
abbrev pub Replied : Peer × Cache → Type 0
Replied (q, s) = IsAnswered q

abbrev pub Answers : Option (Peer × Cache) → Type 0
Answers = OnSome Replied

-- the fields of a connection that is live, less its state
abbrev pub Onward : Peer → Type 0
Onward p = follows_answer p.write_and_go ≡ true

after_error-IsAnswered :
    (z : ℤ) (p : Peer) → p.state ≡ conn_mwrite → 0 < length p.pending → IsAnswered (after_error z p)
after_error-IsAnswered (pos zero) p e h = record {
  live = record { client = ap is_client e; onward = refl };
  near = ground (arith, e);
  out = inl (e, h);
}
after_error-IsAnswered (pos (suc n)) p e h = record {
  live = record { client = ap is_client e; onward = refl };
  near = ground (arith, e);
  out = inl (e, h);
}
after_error-IsAnswered (negsuc n) p e h = record {
  live = record { client = ap is_client e; onward = refl };
  near = ground (arith, e);
  out = inl (e, h);
}

pub write_bin_text-IsAnswered :
    (p : Peer) (err : Status) (text : List ℕ) (z : ℤ) → IsAnswered (write_bin_text p err text z)
unfolding write_bin_text add_response
write_bin_text-IsAnswered p err text z = after_error-IsAnswered z _ refl (omega arith)

pub write_bin_error-IsAnswered :
    (p : Peer) (err : Status) (z : ℤ) → OnSome IsAnswered (write_bin_error p err z)
unfolding write_bin_error
write_bin_error-IsAnswered p err z = text (error_text err)
  where
    text :
        (t : Option (List ℕ))
        → OnSome IsAnswered (elim t [ none ↦ none | some x ↦ some (write_bin_text p err x z) ])
    text none = absent IsAnswered
    text (some x) = given IsAnswered _ (write_bin_text-IsAnswered p err x z)

quiet : (b c : Bool) → not b || c ≡ false → b ≡ true
quiet true c e = refl
quiet false c e = absurd (ground (arith, e))

pub write_bin_response-IsAnswered :
    (p : Peer) (d : List ℕ) (hlen keylen : ℕ)
    → Onward p
    → IsAnswered (write_bin_response p d hlen keylen)
unfolding write_bin_response add_response
write_bin_response-IsAnswered p d hlen keylen live = choice (not p.noreply || is_get p.cmd) refl
  where
    choice :
        (b : Bool)
        → not p.noreply || is_get p.cmd ≡ b
        → IsAnswered (
            if b
            then record (add_response p success hlen keylen (length d) p.store.cas (part d)) {
              state = conn_mwrite;
              write_and_go = conn_new_cmd;
            }
            else record p { state = conn_new_cmd })
    choice true e = record {
      live = record { client = refl; onward = refl };
      near = omega arith;
      out = inl (refl, omega arith);
    }
    choice false e = record {
      live = record { client = refl; onward = live };
      near = omega arith;
      out = inr (refl, quiet p.noreply (is_get p.cmd) e);
    }

pub answer_store-IsAnswered :
    (p : Peer) (r : Option Status) → Onward p → OnSome IsAnswered (answer_store p r)
unfolding answer_store
answer_store-IsAnswered p none live =
    given IsAnswered _ (write_bin_response-IsAnswered p [] 0 0 live)
answer_store-IsAnswered p (some err) live = write_bin_error-IsAnswered p err (pos 0)

pub answer_missing-IsAnswered : (p : Peer) → Onward p → OnSome IsAnswered (answer_missing p)
unfolding answer_missing add_response
answer_missing-IsAnswered p live =
    branches_with p.noreply _ _
      (λ silent. given IsAnswered _ (record {
        live = record { client = refl; onward = live };
        near = omega arith;
        out = inr (refl, silent);
      }))
      (λ loud.
        branches (should_return_key p.cmd) _ _
          (given IsAnswered _ (record {
            live = record { client = refl; onward = refl };
            near = omega arith;
            out = inl (refl, omega arith);
          }))
          (write_bin_error-IsAnswered p key_enoent (pos 0)))

pub answer_item-IsAnswered :
    (strtoul : List ℕ → ℕ) (p : Peer) (d : Item) (it : ℕ) → IsAnswered (answer_item strtoul p d it)
unfolding answer_item add_response
answer_item-IsAnswered strtoul p d it = record {
  live = record { client = refl; onward = refl };
  near = omega arith;
  out = inl (refl, omega arith);
}

pub swallow-IsAnswered : (p : Peer) → IsAnswered p → IsAnswered (swallow_next p)
swallow-IsAnswered p a = record {
  live = record { client = a.live.client; onward = refl };
  near = a.near;
  out = a.out;
}

pub enough-IsAnswered : (p : Peer) (n : ℕ) → IsAnswered p → IsAnswered (record p { sbytes = n })
enough-IsAnswered p n a = record {
  live = record { client = a.live.client; onward = a.live.onward };
  near = a.near;
  out = a.out;
}

module _ ⦃libc : Libc⦄ (numbers : Numbers) (pause : Cache → Cache) (hash : List ℕ → ℕ)
    (process_started : ℕ) where
  pub refuse_value-IsAnswered :
      (s : Cache) (p : Peer) (flags vlen : ℕ)
      → OnSome IsAnswered (refuse_value numbers.strtoul pause hash s p flags vlen)
  unfolding refuse_value
  refuse_value-IsAnswered s p flags vlen =
      branches (not (item_size_ok s p.binary_header.keylen flags (vlen + 2))) _ _
        (bind_with IsAnswered (write_bin_error p e2big (pos vlen)) _
          (write_bin_error-IsAnswered p e2big (pos vlen))
          (λ q a. given IsAnswered _ (swallow-IsAnswered q a)))
        (given IsAnswered _ (
          swallow-IsAnswered
            (record (out_of_memory p (codes "Out of memory allocating item")) { sbytes = vlen })
            (enough-IsAnswered (out_of_memory p (codes "Out of memory allocating item")) vlen (
              write_bin_text-IsAnswered p enomem (codes "Out of memory allocating item") (pos 0)))))
