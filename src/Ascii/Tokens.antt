-- ===== src/Ascii/Tokens.antt =====
-- memcached.c: `tokenize_command`. A pointer into the command line is an offset from its start.
pub mod Words
use log_memcached.Base.{
  ℕ, suc, ◌+◌, ◌-◌, Bool, true, false, Option, none, some, List, [], ◌∷◌, ◌++◌, take, drop, ◌==◌,
  if◌then◌else◌,
}

-- `token_t`
pub record Token : Type 0 where
  pub value : Option ℕ
  pub length : ℕ

-- MAX_TOKENS
abbrev pub max_tokens : ℕ
max_tokens = 8

-- the terminal token, for the rest of the line at `e`
unfoldable pub terminal : List ℕ → ℕ → Token
terminal [] e = record { value = none; length = 0 }
terminal (c ∷ rest) e = record { value = some e; length = 0 }

-- what follows the loop
unfoldable pub finish : List ℕ → ℕ → ℕ → List Token
unfolding terminal
finish rest s e =
    if s == e
    then terminal rest e ∷ []
    else record { value = some s; length = e - s } ∷ terminal rest e ∷ []

-- The loop and what follows it, `m` being `max_tokens - 1`, from the offset `e` on, where `rest`
-- stands; a token may have begun at `s`, and there are `ntokens` behind it.
unfoldable pub scan : ℕ → List ℕ → ℕ → ℕ → ℕ → List Token
unfolding finish
scan m [] s e ntokens = finish [] s e
scan m (c ∷ rest) s e ntokens = elim (c == 32) [
  | false ↦ scan m rest s (suc e) ntokens
  | true ↦ elim (s == e) [
    | true ↦ scan m rest (suc e) (suc e) ntokens
    | false ↦ record { value = some s; length = e - s } ∷ elim (suc ntokens == m) [
      | true ↦ finish rest (suc e) (suc e)
      | false ↦ scan m rest (suc e) (suc e) (suc ntokens)
    ]
  ]
]

-- `tokenize_command`
unfoldable pub tokenize_command : List ℕ → ℕ → List Token
unfolding scan
tokenize_command command max = scan (max - 1) command 0 0 0

-- the string of a token
abbrev pub text : List ℕ → Token → List ℕ
text command t = elim t.value [ none ↦ [] | some p ↦ take t.length (drop p command) ]

-- the strings of the tokens in front of the terminal one, which has no length
unfoldable pub texts : List ℕ → List Token → List (List ℕ)
texts command [] = []
texts command (t ∷ ts) = if t.length == 0 then [] else text command t ∷ texts command ts

-- what the terminal token points to
unfoldable pub unprocessed : List ℕ → List Token → List ℕ
unprocessed command [] = []
unprocessed command (t ∷ ts) =
    if t.length == 0
    then elim t.value [ none ↦ [] | some p ↦ drop p command ]
    else unprocessed command ts
