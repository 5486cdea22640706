-- ===== src/Ascii/Get/Passes.antt =====
-- The tokens of one pass over a line, and its keys.
use log_memcached.Base.{
  ℕ, ◌+◌, ◌≤◌, ◌≡◌, refl, sym, ap, ◌∙◌, Bool, true, false, ◌==◌, inl, inr, Option, none, some, List,
  [], ◌∷◌, ◌++◌, length, drop, arith, Bool-cases,
}
use mathlib.Core.Path.{subst}
use log_memcached.Libc.{Libc}
use log_memcached.Items.{Cache}
use log_memcached.Items.Get.{do_item_get}
use log_memcached.Items.Renew.{do_item_update}
use log_memcached.Items.Lookup.{>>=-some}
use log_memcached.Delta.{Numbers}
use log_memcached.Ascii.Tokens.{Token, text, texts, unprocessed}
use log_memcached.Ascii.Listing.{Grants, Getting}
use log_memcached.Ascii.Get.{next, passed, get_key, get_keys}
use log_memcached.Ascii.Get.Keys.{IsGranted, Sends, get_key-hit, get_key-miss}
use log_memcached.Ascii.Get.Replies.{
  AllShort, Sends-refl, some_injective, reply_item, replies, Passed, Passed-first, replies-First,
}

-- what the terminal token points to, for a list that has one
unfoldable pub rest_value : List ℕ → List Token → Option (List ℕ)
rest_value command [] = none
rest_value command (t ∷ ts) = elim (t.length == 0) [
  | true ↦ elim t.value [ none ↦ none | some p ↦ some (drop p command) ]
  | false ↦ rest_value command ts
]

abbrev pub line_of : Option (List ℕ) → List ℕ
line_of none = []
line_of (some line) = line

pub rest_value-unprocessed :
    (command : List ℕ) (ts : List Token) → unprocessed command ts ≡ line_of (rest_value command ts)
unfolding rest_value unprocessed
rest_value-unprocessed command [] = refl
rest_value-unprocessed command (t ∷ ts) = elim (Bool-cases (t.length == 0)) [
  | inl end ↦ ground (arith, end)
  | inr long ↦ ground (arith, long, rest_value-unprocessed command ts)
]

rest_value-more :
    (command : List ℕ) (t : Token) (ts : List Token)
    → t.length == 0 ≡ false
    → rest_value command (t ∷ ts) ≡ rest_value command ts
unfolding rest_value
rest_value-more command t ts long = ground (arith, long)

module _ ⦃libc : Libc⦄ (numbers : Numbers) (pause : Cache → Cache) (hash : List ℕ → ℕ)
    (return_cas : Bool) where
  module _ (grants : ℕ → Grants) (all : (i : ℕ) → IsGranted (grants i)) where
    abbrev GoesOn : Cache → Getting → List ℕ → List ℕ × List ℕ × Cache → Type 0
    GoesOn s g key (bytes, held, s') =
        (g' : Getting) × (get_key numbers pause hash return_cas grants s g key ≡ some (next g' s'))
        × Sends g g' bytes held

    get_key-GoesOn :
        (found : Option ℕ) (s s₁ : Cache) (g : Getting) (key : List ℕ) (r : List ℕ × List ℕ × Cache)
        → length key ≤ 250
        → do_item_get s key (hash key) ≡ some (found, s₁)
        → reply_item numbers pause hash return_cas found s₁ ≡ some r
        → GoesOn s g key r
    get_key-GoesOn none s s₁ g key r short got e =
        subst (GoesOn s g key) (some_injective e)
          (get_key-miss numbers pause hash return_cas grants all s s₁ g key short got)
    get_key-GoesOn (some it) s s₁ g key r short got e =
        let ((new_it, stored, s₂), updated, e₁) =
          >>=-some (do_item_update numbers.strtoul pause hash s₁ it) _ e in
        subst (GoesOn s g key) (some_injective e₁) (
          get_key-hit numbers pause hash return_cas grants all s s₁ s₂ g key it new_it stored short
            got updated)

    get_keys-more :
        (s s' : Cache) (g g' : Getting) (command : List ℕ) (t : Token) (ts : List Token)
        → t.length == 0 ≡ false
        → get_key numbers pause hash return_cas grants s g (text command t) ≡ some (next g' s')
        → get_keys numbers pause hash return_cas grants s g command (t ∷ ts)
          ≡ get_keys numbers pause hash return_cas grants s' g' command ts
    unfolding get_keys
    get_keys-more s s' g g' command t ts long step = rw (long, get_keys, step) refl

    pub get_keys-Passed :
        (s s' : Cache) (g : Getting) (command : List ℕ) (ts : List Token) (more : List (List ℕ))
        (bytes : List ℕ) (held : List ℕ)
        → length ts ≡ length (texts command ts) + 1
        → AllShort (texts command ts ++ more)
        → replies numbers pause hash return_cas s (texts command ts ++ more)
          ≡ some (bytes, held, s')
        → (g' : Getting) × (p : Passed numbers pause hash return_cas s' g g' more bytes held)
          × (get_keys numbers pause hash return_cas grants s g command ts
              ≡ some (passed (rest_value command ts) g' p.cache))
    unfolding get_keys texts rest_value Passed-first
    get_keys-Passed s s' g command [] more bytes held ended short e = absurd (omega (arith, ended))
    get_keys-Passed s s' g command (t ∷ ts) more bytes held ended short e =
        elim (Bool-cases (t.length == 0)) [
          | inl last ↦ (
            g,
            record {
              cache = s;
              now = [];
              later = bytes;
              hits = [];
              others = held;
              sends = Sends-refl g;
              rest = let f = e in rw last at f;
              bytes_lem = refl;
              count = refl;
            },
            ground (arith, last),
          )
          | inr long ↦
              let e' = e in
              let short' = short in
              let first =
                replies-First numbers pause hash return_cas s s' (text command t)
                  (texts command ts ++ more) bytes held (rw long at e') in
              let shorts : AllShort (text command t ∷ (texts command ts ++ more)) =
                rw long at short' in
              let (h, step, sends) =
                get_key-GoesOn first.found s first.behind g (text command t) first.one shorts.0
                  first.got first.item in
              let (k, p, passes) =
                get_keys-Passed first.one.2 s' h command ts more first.others first.count
                  (ground (arith, long, ended)) shorts.1 first.rest in
              (
                k,
                Passed-first numbers pause hash return_cas s' g h k more first.one.0 first.others
                    bytes first.one.1 first.count held sends p first.bytes_lem first.total,
                get_keys-more s first.one.2 g h command t ts long step
                    ∙ passes
                    ∙ ap (λ v. some (passed v k p.cache)) (sym (rest_value-more command t ts long)),
              )
        ]
