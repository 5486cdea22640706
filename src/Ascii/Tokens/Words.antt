-- ===== src/Ascii/Tokens/Words.antt =====
-- The tokens of a command line are its words.
use log_memcached.Base.{
  ℕ, zero, suc, ◌+◌, ◌-◌, ◌<◌, ◌≤◌, ◌≡◌, refl, sym, ap, ap₂, ◌∙◌, true, false, some, List, [], ◌∷◌,
  ◌++◌, take, drop, length, ◌==◌, if◌then◌else◌, arith, Bool-cases, inl, inr, take-append,
  drop-append, length-append,
}
use log_memcached.Ascii.Tokens.{
  Token, terminal, finish, scan, tokenize_command, text, texts, unprocessed,
}

-- the words of a line, behind the bytes of a word that has begun
unfoldable pub words_from : List ℕ → List ℕ → List (List ℕ)
words_from [] [] = []
words_from (a ∷ acc) [] = (a ∷ acc) ∷ []
words_from [] (c ∷ cs) = if c == 32 then words_from [] cs else words_from (c ∷ []) cs
words_from (a ∷ acc) (c ∷ cs) =
    if c == 32 then (a ∷ acc) ∷ words_from [] cs else words_from (a ∷ acc ++ c ∷ []) cs

-- the words between the spaces of a line
abbrev pub words : List ℕ → List (List ℕ)
words cs = words_from [] cs

drop_nil : (n : ℕ) → drop {A = ℕ} n [] ≡ []
drop_nil zero = refl
drop_nil (suc n) = refl

drop-drop : (a b n : ℕ) (xs : List ℕ) → n ≡ a + b → drop n xs ≡ drop b (drop a xs)
drop-drop zero b n xs e = ap (λ k. drop k xs) (omega (arith, e))
drop-drop (suc a) b zero xs e = absurd (omega (arith, e))
drop-drop (suc a) b (suc n) [] e = sym (drop_nil b)
drop-drop (suc a) b (suc n) (x ∷ xs) e = drop-drop a b n xs (omega (arith, e))

-- what stands behind a word and one byte more
drop_past :
    (command acc rest : List ℕ) (c s e : ℕ)
    → e ≡ s + length acc
    → drop s command ≡ acc ++ c ∷ rest
    → drop (suc e) command ≡ rest
drop_past command acc rest c s e at h =
    drop-drop s (suc (length acc)) (suc e) command (omega (arith, at))
    ∙ ap (drop (suc (length acc))) h
    ∙ drop-drop (length acc) 1 (suc (length acc)) (acc ++ c ∷ rest) (omega arith)
    ∙ ap (drop 1) (drop-append acc (c ∷ rest) (length acc) refl)

drop_at :
    (command acc rest : List ℕ) (s e : ℕ)
    → e ≡ s + length acc
    → drop s command ≡ acc ++ rest
    → drop e command ≡ rest
drop_at command acc rest s e at h =
    drop-drop s (length acc) e command at
    ∙ ap (drop (length acc)) h
    ∙ drop-append acc rest (length acc) refl

-- the string of a word that begins at `s`
text_word :
    (command acc rest : List ℕ) (s e : ℕ)
    → e ≡ s + length acc
    → drop s command ≡ acc ++ rest
    → text command (record { value = some s; length = e - s }) ≡ acc
text_word command acc rest s e at h =
    ap (take (e - s)) h ∙ take-append acc rest (e - s) (omega (arith, at))

-- what the tokens of a scan say
record IsScan (command : List ℕ) (count : ℕ) (ws : List (List ℕ)) (ts : List Token) : Type 0 where
  pub texts : texts command ts ≡ take count ws
  pub rest : words (unprocessed command ts) ≡ drop count ws
  pub few : length ts ≤ count + 1
  pub counted : length ts ≡ length (take count ws) + 1

-- The terminal token alone.
terminal-IsScan :
    (command rest : List ℕ) (e : ℕ)
    → drop e command ≡ rest
    → IsScan command 0 (words rest) (terminal rest e ∷ [])
unfolding texts unprocessed terminal
terminal-IsScan command [] e h = record {
  texts = refl;
  rest = refl;
  few = omega arith;
  counted = omega arith;
}
terminal-IsScan command (c ∷ rest) e h = record {
  texts = refl;
  rest = ap words h;
  few = omega arith;
  counted = omega arith;
}

-- One token more.
token-IsScan :
    (command acc rest : List ℕ) (a s e k : ℕ) (ws : List (List ℕ)) (ts : List Token)
    → e ≡ s + length (a ∷ acc)
    → drop s command ≡ a ∷ acc ++ rest
    → IsScan command k ws ts
    → IsScan command (suc k) ((a ∷ acc) ∷ ws) (record { value = some s; length = e - s } ∷ ts)
unfolding texts unprocessed
token-IsScan command acc rest a s e k ws ts at h r =
    let long : (e - s) == 0 ≡ false = ground (arith, at) in
    record {
      texts = rw long (ap₂ (λ w l. w ∷ l) (text_word command (a ∷ acc) rest s e at h) r.texts);
      rest = rw long r.rest;
      few = let f = r.few in omega (arith, f);
      counted = let f = r.counted in omega (arith, f);
    }

nothing-IsScan : (command : List ℕ) (k e : ℕ) → IsScan command k [] (terminal [] e ∷ [])
unfolding texts unprocessed terminal words_from
nothing-IsScan command zero e = record {
  texts = refl;
  rest = refl;
  few = omega arith;
  counted = omega arith;
}
nothing-IsScan command (suc k) e = record {
  texts = refl;
  rest = refl;
  few = omega arith;
  counted = omega arith;
}

end-IsScan :
    (command acc : List ℕ) (s e k : ℕ)
    → e ≡ s + length acc
    → drop s command ≡ acc ++ []
    → IsScan command (suc k) (words_from acc []) (finish [] s e)
unfolding finish words_from
end-IsScan command [] s e k at h =
    let here : s == e ≡ true = ground (arith, at) in rw here (nothing-IsScan command (suc k) e)
end-IsScan command (a ∷ acc) s e k at h =
    let far : s == e ≡ false = ground (arith, at) in
    rw far (
      token-IsScan command acc [] a s e k [] (terminal [] e ∷ []) at h (nothing-IsScan command k e))

rescan :
    {command : List ℕ} {count : ℕ} {ws ws' : List (List ℕ)} {ts ts' : List Token}
    → ws' ≡ ws
    → ts' ≡ ts
    → IsScan command count ws ts
    → IsScan command count ws' ts'
rescan e f r = rw (e, f) r

append_one : (acc rest : List ℕ) (c : ℕ) → acc ++ c ∷ rest ≡ (acc ++ c ∷ []) ++ rest
append_one [] rest c = refl
append_one (a ∷ acc) rest c = ap (λ l. a ∷ l) (append_one acc rest c)

-- The equations of a scan.
pub scan_letter :
    (m c : ℕ) (rest : List ℕ) (s e n : ℕ)
    → c == 32 ≡ false
    → scan m (c ∷ rest) s e n ≡ scan m rest s (suc e) n
unfolding scan
scan_letter m c rest s e n f = ground (arith, f)

pub scan_space :
    (m c : ℕ) (rest : List ℕ) (e n : ℕ)
    → c == 32 ≡ true
    → scan m (c ∷ rest) e e n ≡ scan m rest (suc e) (suc e) n
unfolding scan
scan_space m c rest e n f = ground (arith, f)

scan_last :
    (m c : ℕ) (rest : List ℕ) (s e n : ℕ)
    → c == 32 ≡ true
    → s < e
    → suc n ≡ m
    → scan m (c ∷ rest) s e n
      ≡ record { value = some s; length = e - s } ∷ terminal rest (suc e) ∷ []
unfolding scan finish
scan_last m c rest s e n f far full = ground (arith, f, far, full)

scan_more :
    (m c : ℕ) (rest : List ℕ) (s e n : ℕ)
    → c == 32 ≡ true
    → s < e
    → suc n < m
    → scan m (c ∷ rest) s e n
      ≡ record { value = some s; length = e - s } ∷ scan m rest (suc e) (suc e) (suc n)
unfolding scan
scan_more m c rest s e n f far room = ground (arith, f, far, room)

pub words_letter :
    (acc rest : List ℕ) (c : ℕ)
    → c == 32 ≡ false
    → words_from acc (c ∷ rest) ≡ words_from (acc ++ c ∷ []) rest
unfolding words_from
words_letter [] rest c f = ground (arith, f)
words_letter (a ∷ acc) rest c f = ground (arith, f)

pub words_space : (rest : List ℕ) (c : ℕ) → c == 32 ≡ true → words_from [] (c ∷ rest) ≡ words rest
unfolding words_from
words_space rest c f = ground (arith, f)

words_end :
    (a c : ℕ) (acc rest : List ℕ)
    → c == 32 ≡ true
    → words_from (a ∷ acc) (c ∷ rest) ≡ (a ∷ acc) ∷ words rest
unfolding words_from
words_end a c acc rest f = ground (arith, f)

-- The tokens of a scan are the words that are left, as many as there is room for.
scan-IsScan :
    (m : ℕ) (command acc rest : List ℕ) (s e n k : ℕ)
    → m ≡ suc (n + k)
    → e ≡ s + length acc
    → drop s command ≡ acc ++ rest
    → IsScan command (suc k) (words_from acc rest) (scan m rest s e n)
unfolding scan
scan-IsScan m command acc [] s e n k room at h = end-IsScan command acc s e k at h
scan-IsScan m command [] (c ∷ rest) s e n k room at h =
    let here : s ≡ e = omega (arith, at) in
    let skip =
      scan-IsScan m command [] rest (suc e) (suc e) n k room (omega arith)
        (drop_past command [] rest c s e at h) in
    let one = scan-IsScan m command (c ∷ []) rest s (suc e) n k room (omega (arith, at)) h in
    elim (Bool-cases (c == 32)) [
      | inr f ↦ rescan (words_letter [] rest c f) (scan_letter m c rest s e n f) one
      | inl f ↦
          rescan (words_space rest c f)
            (ap (λ x. scan m (c ∷ rest) x e n) here ∙ scan_space m c rest e n f) skip
    ]
scan-IsScan m command (a ∷ acc) (c ∷ rest) s e n k room at h =
    let one =
      scan-IsScan m command (a ∷ acc ++ c ∷ []) rest s (suc e) n k room
        (omega (arith, at, length-append acc (c ∷ []))) (h ∙ append_one (a ∷ acc) rest c) in
    let behind = drop_past command (a ∷ acc) rest c s e at h in
    let next = scan-IsScan m command [] rest (suc e) (suc e) (suc n) in
    elim (Bool-cases (c == 32)) [
      | inr f ↦ rescan (words_letter (a ∷ acc) rest c f) (scan_letter m c rest s e n f) one
      | inl f ↦
          elim k
              as (λ j.
                m ≡ suc (n + j)
                → IsScan command (suc j) (words_from (a ∷ acc) (c ∷ rest))
                    (scan m (c ∷ rest) s e n)) [
                      | zero ↦ λ r.
                          rescan (words_end a c acc rest f)
                            (scan_last m c rest s e n f (omega (arith, at)) (omega (arith, r)))
                            (token-IsScan command acc (c ∷ rest) a s e 0 (words rest) _ at h
                              (terminal-IsScan command rest (suc e) behind))
                      | suc j ↦ λ r.
                          rescan (words_end a c acc rest f)
                            (scan_more m c rest s e n f (omega (arith, at)) (omega (arith, r)))
                            (token-IsScan command acc (c ∷ rest) a s e (suc j) (words rest) _ at h
                              (next j (omega (arith, r)) (omega arith) behind))
                    ]
            room
    ]

-- On a command line and room for two tokens or more, the tokens of tokenize_command in front of
-- the terminal one are the words of the line in their order, one fewer than there is room for at
-- most; the words of what the terminal token points to are the other words; and the tokens are one
-- more than the words that they give, no more than there is room for.
pub tokenize_command-words :
    (command : List ℕ) (max : ℕ)
    → 1 < max
    → (texts command (tokenize_command command max) ≡ take (max - 1) (words command))
      × (words (unprocessed command (tokenize_command command max))
          ≡ drop (max - 1) (words command))
      × (length (tokenize_command command max) ≤ max)
      × (length (tokenize_command command max)
          ≡ length (texts command (tokenize_command command max)) + 1)
unfolding tokenize_command
tokenize_command-words command max room =
    let r = scan-IsScan (max - 1) command [] command 0 0 0 (max - 2) (omega arith) refl refl in
    let count : suc (max - 2) ≡ max - 1 = omega arith in
    let t = r.texts in
    let w = r.rest in
    let f = r.few in
    (rw count at t, rw count at w, omega (arith, f), r.counted ∙ ap (λ l. length l + 1) (sym t))
