-- ===== src/Ascii/Get/First.antt =====
-- Whether the rest of a line has a token at all, and the token behind the name of the command.
use log_memcached.Base.{
  ℕ, suc, ◌+◌, ◌<◌, ◌≡◌, refl, ap, ◌∙◌, ◌==◌, ◌⊎◌, inl, inr, Option, none, some, List, [], ◌∷◌,
  ◌++◌, drop, length, arith, Bool-cases,
}
use log_memcached.Ascii.Tokens.{Token, terminal, finish, scan, texts, unprocessed}
use log_memcached.Ascii.Tokens.Words.{
  words_from, words, scan_letter, scan_space, words_letter, words_space,
}
use log_memcached.Ascii.Get.{first_value}

-- a scan inside a token
scan_begun : (m : ℕ) (rest : List ℕ) (s e n : ℕ) → s < e → first_value (scan m rest s e n) ≡ some s
unfolding scan finish
scan_begun m [] s e n h = ground (arith, h)
scan_begun m (c ∷ rest) s e n h = elim (Bool-cases (c == 32)) [
  | inl space ↦ ground (arith, space, h)
  | inr letter ↦
      ap first_value (scan_letter m c rest s e n letter)
      ∙ scan_begun m rest s (suc e) n (omega (arith, h))
]

begun_words :
    (a : ℕ) (acc rest : List ℕ)
    → (w : List ℕ) × (ws : List (List ℕ)) × (words_from (a ∷ acc) rest ≡ w ∷ ws)
unfolding words_from
begun_words a acc [] = (a ∷ acc, [], refl)
begun_words a acc (c ∷ rest) = elim (Bool-cases (c == 32)) [
  | inl space ↦ (a ∷ acc, words rest, rw space refl)
  | inr letter ↦
      let (w, ws, e) = begun_words a (acc ++ c ∷ []) rest in
      (w, ws, words_letter (a ∷ acc) rest c letter ∙ e)
]

-- No word and no token, or a word and a token.
abbrev pub Begins : List (List ℕ) → Option ℕ → Type 0
Begins ws v =
    ((ws ≡ []) × (v ≡ none))
    ⊎ ((w : List ℕ) × (ws' : List (List ℕ)) × (p : ℕ) × (ws ≡ w ∷ ws') × (v ≡ some p))

-- The first token of a scan has a value if there is a word.
pub scan-Begins :
    (m : ℕ) (rest : List ℕ) (e n : ℕ) → Begins (words rest) (first_value (scan m rest e e n))
scan-Begins m [] e n = inl (unfold words_from in refl, unfold scan finish terminal in ground arith)
scan-Begins m (c ∷ rest) e n = elim (Bool-cases (c == 32)) [
  | inl space ↦
      rw (words_space rest c space, scan_space m c rest e n space) (scan-Begins m rest (suc e) n)
  | inr letter ↦
      let (w, ws, one) = begun_words c [] rest in
      inr (
        w,
        ws,
        e,
        words_letter [] rest c letter ∙ one,
        ap first_value (scan_letter m c rest e e n letter)
            ∙ scan_begun m rest e (suc e) n (omega arith),
      )
]

-- The tokens behind the first.
pub texts-drop_one :
    (command w : List ℕ) (ws : List (List ℕ)) (ts : List Token)
    → texts command ts ≡ w ∷ ws
    → length ts ≡ length (texts command ts) + 1
    → (texts command (drop 1 ts) ≡ ws)
      × (unprocessed command (drop 1 ts) ≡ unprocessed command ts)
      × (length (drop 1 ts) ≡ length (texts command (drop 1 ts)) + 1)
unfolding texts unprocessed
texts-drop_one command w ws [] e n = cc
texts-drop_one command w ws (t ∷ ts) e n = elim (Bool-cases (t.length == 0)) [
  | inl no_length ↦ absurd (let f = e in let g : [] ≡ w ∷ ws = rw no_length at f in cc)
  | inr long ↦ (ground (arith, long, e), ground (arith, long), ground (arith, long, n))
]
