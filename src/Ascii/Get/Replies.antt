-- ===== src/Ascii/Get/Replies.antt =====
-- What a get answers to keys one after the other, and the part of it that a pass gives.
use log_memcached.Base.{
  ℕ, ◌≤◌, ◌≡◌, refl, sym, ap, ◌∙◌, Bool, Option, none, some, List, [], ◌∷◌, ◌++◌, length, ◌>>=◌,
}
use mathlib.Core.List.{append_assoc, append-nil}
use log_memcached.Libc.{Libc}
use log_memcached.Items.{Cache, item_of}
use log_memcached.Items.Get.{do_item_get}
use log_memcached.Items.Renew.{do_item_update}
use log_memcached.Items.Lookup.{>>=-some}
use log_memcached.Delta.{Numbers}
use log_memcached.Drive.Send.{joined}
use log_memcached.Ascii.Listing.{Getting}
use log_memcached.Ascii.Get.{listed_item}
use log_memcached.Ascii.Get.Keys.{Sends, value_lines}

-- keys of at most 250 bytes
abbrev pub AllShort : List (List ℕ) → Type 0
AllShort [] = Unit {0}
AllShort (w ∷ ws) = (length w ≤ 250) × AllShort ws

pub AllShort-append : (xs ys : List (List ℕ)) → AllShort (xs ++ ys) → AllShort ys
AllShort-append [] ys a = a
AllShort-append (x ∷ xs) ys a = AllShort-append xs ys a.1

pub Sends-trans :
    (g h k : Getting) (b c : List ℕ) (held held' : List ℕ)
    → Sends g h b held
    → Sends h k c held'
    → Sends g k (b ++ c) (held ++ held')
Sends-trans g h k b c held held' p q = record {
  sent = q.sent ∙ ap (λ l. l ++ c) p.sent ∙ append_assoc (joined g.sent) b c;
  kept = q.kept ∙ ap (λ l. l ++ held') p.kept ∙ append_assoc g.ilist held held';
  item = q.item ∙ p.item;
}

pub Sends-refl : (g : Getting) → Sends g g [] []
Sends-refl g = record {
  sent = sym (append-nil (joined g.sent));
  kept = sym (append-nil g.ilist);
  item = refl;
}

pub some_injective : {A : Type 0} {a b : A} → some a ≡ some b → a ≡ b
some_injective e = cc

module _ ⦃libc : Libc⦄ (numbers : Numbers) (pause : Cache → Cache) (hash : List ℕ → ℕ)
    (return_cas : Bool) where
  -- What goes out for the item of a key, how many items that is, and the cache behind it.
  abbrev pub reply_item : Option ℕ → Cache → Option (List ℕ × List ℕ × Cache)
  reply_item none s = some ([], [], s)
  reply_item (some it) s = do
    (new_it, stored, s') ← do_item_update numbers.strtoul pause hash s it
    let (kept, s'') = listed_item it new_it stored s'
    some (value_lines numbers return_cas (item_of s it), kept ∷ [], s'')

  -- the same for keys one after the other
  abbrev pub replies : Cache → List (List ℕ) → Option (List ℕ × List ℕ × Cache)
  replies s [] = some ([], [], s)
  replies s (key ∷ keys) = do
    (found, s₁) ← do_item_get s key (hash key)
    (bytes, held, s₂) ← reply_item found s₁
    (others, held', s₃) ← replies s₂ keys
    some (bytes ++ others, held ++ held', s₃)

  -- the keys of a pass, and those behind it
  pub record Passed (s' : Cache) (g g' : Getting) (more : List (List ℕ)) (bytes : List ℕ)
      (held : List ℕ) : Type 0 where
    pub cache : Cache
    pub now : List ℕ
    pub later : List ℕ
    pub hits : List ℕ
    pub others : List ℕ
    pub sends : Sends g g' now hits
    pub rest : replies cache more ≡ some (later, others, s')
    pub bytes_lem : bytes ≡ now ++ later
    pub count : held ≡ hits ++ others

  unfoldable pub Passed-first :
      (s' : Cache) (g h k : Getting) (more : List (List ℕ)) (b o bytes i held' held : List ℕ)
      → Sends g h b i
      → Passed s' h k more o held'
      → bytes ≡ b ++ o
      → held ≡ i ++ held'
      → Passed s' g k more bytes held
  Passed-first s' g h k more b o bytes i held' held sends p e f = record {
    cache = p.cache;
    now = b ++ p.now;
    later = p.later;
    hits = i ++ p.hits;
    others = p.others;
    sends = Sends-trans g h k b p.now i p.hits sends p.sends;
    rest = p.rest;
    bytes_lem = e ∙ ap (λ l. b ++ l) p.bytes_lem ∙ sym (append_assoc b p.now p.later);
    count = f ∙ ap (λ l. i ++ l) p.count ∙ sym (append_assoc i p.hits p.others);
  }

  -- the first of several keys
  pub record First (s s' : Cache) (key : List ℕ) (keys : List (List ℕ)) (bytes : List ℕ)
      (held : List ℕ) : Type 0 where
    pub found : Option ℕ
    pub behind : Cache
    pub one : List ℕ × List ℕ × Cache
    pub others : List ℕ
    pub count : List ℕ
    pub got : do_item_get s key (hash key) ≡ some (found, behind)
    pub item : reply_item found behind ≡ some one
    pub rest : replies one.2 keys ≡ some (others, count, s')
    pub bytes_lem : bytes ≡ one.0 ++ others
    pub total : held ≡ one.1 ++ count

  pub replies-First :
      (s s' : Cache) (key : List ℕ) (keys : List (List ℕ)) (bytes : List ℕ) (held : List ℕ)
      → replies s (key ∷ keys) ≡ some (bytes, held, s')
      → First s s' key keys bytes held
  replies-First s s' key keys bytes held e =
      let ((found, s₁), got, e₁) = >>=-some (do_item_get s key (hash key)) _ e in
      let (one, item, e₂) = >>=-some (reply_item found s₁) _ e₁ in
      let ((others, held', s₃), rest, e₃) = >>=-some (replies one.2 keys) _ e₂ in
      let same = some_injective e₃ in
      record {
        found = found;
        behind = s₁;
        one = one;
        others = others;
        count = held';
        got = got;
        item = item;
        rest = rest ∙ ap (λ (x : List ℕ × List ℕ × Cache). some (others, held', x.2)) same;
        bytes_lem = sym (ap (λ (x : List ℕ × List ℕ × Cache). x.0) same);
        total = sym (ap (λ (x : List ℕ × List ℕ × Cache). x.1) same);
      }
