-- ===== src/Ascii/Get/Line.antt =====
-- The answer to a line of keys, however many passes its tokens take.
use log_memcached.Base.{
  ℕ, zero, suc, ◌+◌, ◌≤◌, ◌<◌, ◌≡◌, refl, sym, ap, ap₂, ◌∙◌, Bool, inl, inr, none, some, List, [],
  ◌∷◌, ◌++◌, length, drop, take-drop, arith, Option-cases,
}
use mathlib.Core.List.{append-nil}
use mathlib.Core.Path.{subst}
use log_memcached.Libc.{Libc}
use log_memcached.Items.{Cache}
use log_memcached.Items.Total.{>>=-eq}
use log_memcached.Delta.{Numbers}
use log_memcached.Drive.Send.{joined}
use log_memcached.Ascii.Tokens.{Token, max_tokens, tokenize_command, texts, unprocessed}
use log_memcached.Ascii.Tokens.Words.{words, words_from, tokenize_command-words}
use log_memcached.Ascii.Listing.{Grants, Getting}
use log_memcached.Ascii.Get.{passed, returned, first_value, end_get, get_keys, get_loop}
use log_memcached.Ascii.Get.Keys.{IsGranted, Sends}
use log_memcached.Ascii.Get.First.{Begins, scan-Begins}
use log_memcached.Ascii.Get.Replies.{
  AllShort, AllShort-append, Sends-trans, some_injective, replies, Passed,
}
use log_memcached.Ascii.Get.Passes.{rest_value, line_of, rest_value-unprocessed, get_keys-Passed}

pub length-drop_le : (n : ℕ) (xs : List (List ℕ)) → length (drop n xs) ≤ length xs
length-drop_le zero xs = omega arith
length-drop_le (suc n) [] = omega arith
length-drop_le (suc n) (x ∷ xs) = omega (arith, length-drop_le n xs)

words_nil : words [] ≡ []
unfolding words_from
words_nil = refl

pub tokenize-Begins :
    (line : List ℕ) → Begins (words line) (first_value (tokenize_command line max_tokens))
unfolding tokenize_command
tokenize-Begins line = scan-Begins 7 line 0 0

-- The words of a line are those of its tokens and of what is left.
tokens_words :
    (line : List ℕ)
    → texts line (tokenize_command line max_tokens)
        ++ words (unprocessed line (tokenize_command line max_tokens))
      ≡ words line
tokens_words line =
    let t = tokenize_command-words line max_tokens (omega arith) in
    ap₂ (λ x y. x ++ y) t.0 t.1 ∙ take-drop 7 (words line)

module _ ⦃libc : Libc⦄ (numbers : Numbers) (pause : Cache → Cache) (hash : List ℕ → ℕ)
    (return_cas : Bool) (grants : ℕ → Grants) (all : (i : ℕ) → IsGranted (grants i)) where
  -- The loop ends, with the answer to all keys.
  abbrev pub Ends : ℕ → Cache → Cache → Getting → List ℕ → List Token → List ℕ → List ℕ → Type 0
  Ends fuel s s' g command ts bytes held =
      (g' : Getting) × (get_loop numbers pause hash return_cas grants fuel none s g command ts
        ≡ some (returned (end_get return_cas none g') s'))
      × Sends g g' bytes held

  Sends-eq :
      (g g' : Getting) (b c : List ℕ) (held held' : List ℕ)
      → b ≡ c
      → held ≡ held'
      → Sends g g' b held
      → Sends g g' c held'
  Sends-eq g g' b c held held' e f p = record {
    sent = p.sent ∙ ap (λ l. joined g.sent ++ l) e;
    kept = p.kept ∙ ap (λ k. g.ilist ++ k) f;
    item = p.item;
  }

  -- A pass behind which there is no key.
  Passed-all :
      (s' : Cache) (g g₁ : Getting) (more : List (List ℕ)) (bytes : List ℕ) (held : List ℕ)
      (p : Passed numbers pause hash return_cas s' g g₁ more bytes held)
      → more ≡ []
      → (p.cache ≡ s') × Sends g g₁ bytes held
  Passed-all s' g g₁ more bytes held p nothing =
      let r = p.rest in
      let q : replies numbers pause hash return_cas p.cache [] ≡ some (p.later, p.others, s') =
        subst
          (λ (l : List (List ℕ)).
            replies numbers pause hash return_cas p.cache l ≡ some (p.later, p.others, s'))
          nothing r in
      let same = some_injective q in
      let done = p.bytes_lem in
      (
        ap (λ (x : List ℕ × List ℕ × Cache). x.2) same,
        Sends-eq g g₁ p.now bytes p.hits held
            (sym (
              done
              ∙ ap (λ (x : List ℕ × List ℕ × Cache). p.now ++ x.0) (sym same)
              ∙ append-nil p.now))
            (sym (
              p.count
              ∙ ap (λ (x : List ℕ × List ℕ × Cache). p.hits ++ x.1) (sym same)
              ∙ append-nil p.hits))
            p.sends,
      )

  -- The last pass, and one behind which there is another.
  loop_last :
      (fuel : ℕ) (s s' : Cache) (g g₁ : Getting) (command : List ℕ) (ts : List Token)
      (bytes : List ℕ) (held : List ℕ)
      → get_keys numbers pause hash return_cas grants s g command ts ≡ some (passed none g₁ s')
      → Sends g g₁ bytes held
      → Ends (suc fuel) s s' g command ts bytes held
  unfolding get_loop
  loop_last fuel s s' g g₁ command ts bytes held keys sends = (g₁, >>=-eq _ _ _ keys refl, sends)

  loop_blank :
      (fuel : ℕ) (s s' : Cache) (g g₁ : Getting) (command line : List ℕ) (ts : List Token)
      (bytes : List ℕ) (held : List ℕ)
      → get_keys numbers pause hash return_cas grants s g command ts
        ≡ some (passed (some line) g₁ s')
      → first_value (tokenize_command line max_tokens) ≡ none
      → Sends g g₁ bytes held
      → Ends (suc fuel) s s' g command ts bytes held
  unfolding get_loop
  loop_blank fuel s s' g g₁ command line ts bytes held keys blank sends =
      (g₁, >>=-eq _ _ _ keys (rw blank refl), sends)

  loop_more :
      (fuel i : ℕ) (s s₁ s' : Cache) (g g₁ : Getting) (command line : List ℕ) (ts : List Token)
      (now later : List ℕ) (held held' : List ℕ)
      → get_keys numbers pause hash return_cas grants s g command ts
        ≡ some (passed (some line) g₁ s₁)
      → first_value (tokenize_command line max_tokens) ≡ some i
      → Sends g g₁ now held
      → Ends fuel s₁ s' g₁ line (tokenize_command line max_tokens) later held'
      → Ends (suc fuel) s s' g command ts (now ++ later) (held ++ held')
  unfolding get_loop
  loop_more fuel i s s₁ s' g g₁ command line ts now later held held' keys begun sends
        (g', ends, others) =
      (g', >>=-eq _ _ _ keys (rw begun ends), Sends-trans g g₁ g' now later held held' sends others)

  pub get_loop-Ends :
      (fuel : ℕ) (s s' : Cache) (g : Getting) (command : List ℕ) (ts : List Token) (bytes : List ℕ)
      (held : List ℕ)
      → length ts ≡ length (texts command ts) + 1
      → AllShort (texts command ts ++ words (unprocessed command ts))
      → replies numbers pause hash return_cas s (texts command ts ++ words (unprocessed command ts))
        ≡ some (bytes, held, s')
      → length (words (unprocessed command ts)) < fuel
      → Ends fuel s s' g command ts bytes held
  get_loop-Ends zero s s' g command ts bytes held ended short e enough =
      absurd (omega (arith, enough))
  get_loop-Ends (suc fuel) s s' g command ts bytes held ended short e enough =
      let more : List (List ℕ) = words (unprocessed command ts) in
      let (g₁, p, keys) =
        get_keys-Passed numbers pause hash return_cas grants all s s' g command ts more bytes held
          ended short e in
      let rest = rest_value-unprocessed command ts in
      elim (Option-cases (rest_value command ts)) [
        | inl r ↦
            let (same, sends) =
              Passed-all s' g g₁ more bytes held p (ap words (rest ∙ ap line_of r) ∙ words_nil) in
            loop_last fuel s s' g g₁ command ts bytes held
              (keys
                ∙ ap (λ v. some (passed v g₁ p.cache)) r
                ∙ ap (λ x. some (passed none g₁ x)) same)
              sends
        | inr (line, r) ↦
            let at : unprocessed command ts ≡ line = rest ∙ ap line_of r in
            let keys' = keys ∙ ap (λ v. some (passed v g₁ p.cache)) r in
            elim (tokenize-Begins line) [
              | inl (nothing, blank) ↦
                  let (same, sends) =
                    Passed-all s' g g₁ more bytes held p (ap words at ∙ nothing) in
                  loop_blank fuel s s' g g₁ command line ts bytes held
                    (keys' ∙ ap (λ x. some (passed (some line) g₁ x)) same) blank sends
              | inr (w, ws, i, begins, begun) ↦
                  let ts' : List Token = tokenize_command line max_tokens in
                  let t = tokenize_command-words line max_tokens (omega arith) in
                  let same = ap words at ∙ sym (tokens_words line) in
                  let shorts = AllShort-append (texts command ts) more short in
                  let left : length (words (unprocessed line ts')) < fuel = omega (
                    arith,
                    enough,
                    ap (λ u. length (words u)) at,
                    ap length t.1,
                    ap length begins,
                    ap (λ l. length (drop 7 l)) begins,
                    length-drop_le 6 ws,
                  ) in
                  let (g', ends, sends) =
                    loop_more fuel i s p.cache s' g g₁ command line ts p.now p.later p.hits p.others
                      keys' begun p.sends
                      (get_loop-Ends fuel p.cache s' g₁ line ts' p.later p.others t.3
                        (subst AllShort same shorts)
                        (subst
                          (λ (l : List (List ℕ)).
                            replies numbers pause hash return_cas p.cache l
                            ≡ some (p.later, p.others, s'))
                          same p.rest)
                        left) in
                  (
                    g',
                    ends,
                    Sends-eq g g' (p.now ++ p.later) bytes (p.hits ++ p.others) held
                        (sym p.bytes_lem) (sym p.count) sends,
                  )
            ]
      ]
