-- ===== src/Ascii/Buffer/Pipeline.antt =====
-- Command lines that arrive behind each other.
use log_memcached.Base.{
  ℕ, zero, suc, ◌-◌, ◌≡◌, refl, ap, ◌∙◌, Bool, true, false, not, ◌&&◌, Option, none, some, List, [],
  ◌∷◌, ◌++◌, length, take, ltb, ◌==◌, get_elem?, arith, length-append, take-append, ◌>>=◌,
}
use log_memcached.Ascii.Buffer.{
  ascii_prot, ascii_line, negotiate, find_line, strip, c_string, read_ascii, try_read_command,
}

-- the bytes of a command: no zero, no line end, and none of the two at its end
unfoldable pub all_plain : List ℕ → Bool
all_plain [] = true
all_plain (c ∷ cs) = not (c == 0) && (not (c == 10) && (not (c == 13) && all_plain cs))

find_line-append :
    (line rest : List ℕ)
    → all_plain line ≡ true
    → find_line (line ++ 13 ∷ 10 ∷ rest) ≡ some (line ++ 13 ∷ [], rest)
unfolding find_line all_plain
find_line-append [] rest p = refl
find_line-append (c ∷ line) rest p = ground (arith, p, find_line-append line rest)

c_string-plain : (line : List ℕ) → all_plain line ≡ true → c_string line ≡ line
unfolding c_string all_plain
c_string-plain [] p = refl
c_string-plain (c ∷ line) p = ground (arith, p, c_string-plain line)

last_elem : (line : List ℕ) (c : ℕ) → get_elem? (line ++ c ∷ []) (length line) ≡ some c
last_elem [] c = refl
last_elem (x ∷ line) c = last_elem line c

strip_last :
    (l : List ℕ)
    → get_elem? l (length l - 1) ≡ some 13
    → ltb 1 (length l) ≡ true
    → strip l ≡ take (length l - 1) l
unfolding strip
strip_last l last long = ground (arith, last, long)

strip-append : (c : ℕ) (line : List ℕ) → strip (c ∷ line ++ 13 ∷ []) ≡ c ∷ line
strip-append c line =
    let size : length (c ∷ line ++ 13 ∷ []) - 1 ≡ length (c ∷ line) =
      omega (arith, length-append line (13 ∷ [])) in
    let last : get_elem? (c ∷ line ++ 13 ∷ []) (length (c ∷ line ++ 13 ∷ []) - 1) ≡ some 13 =
      ap (get_elem? (c ∷ line ++ 13 ∷ [])) size ∙ last_elem (c ∷ line) 13 in
    let long : ltb 1 (length (c ∷ line ++ 13 ∷ [])) ≡ true =
      ground (arith, length-append line (13 ∷ [])) in
    let kept = take-append (c ∷ line) (13 ∷ []) (length (c ∷ line ++ 13 ∷ []) - 1) size in
    strip_last (c ∷ line ++ 13 ∷ []) last long ∙ kept

read_found :
    (buf line rest : List ℕ)
    → find_line buf ≡ some (line, rest)
    → read_ascii buf ≡ ascii_line (c_string (strip line)) rest
unfolding read_ascii
read_found buf line rest e = ground (arith, e)

read_first :
    (c : ℕ) (line rest : List ℕ)
    → all_plain (c ∷ line) ≡ true
    → read_ascii (c ∷ line ++ 13 ∷ 10 ∷ rest) ≡ ascii_line (c ∷ line) rest
read_first c line rest p =
    read_found (c ∷ line ++ 13 ∷ 10 ∷ rest) (c ∷ line ++ 13 ∷ []) rest
      (find_line-append (c ∷ line) rest p)
    ∙ ap (λ l. ascii_line (c_string l) rest) (strip-append c line)
    ∙ ap (λ l. ascii_line l rest) (c_string-plain (c ∷ line) p)

-- the lines and their ends, one behind the other
unfoldable pub send : List (List ℕ) → List ℕ → List ℕ
send [] rest = rest
send (line ∷ lines) rest = line ++ 13 ∷ 10 ∷ send lines rest

-- as many commands as there are calls, and the bytes that are left
unfoldable pub read_commands : ℕ → List ℕ → Option (List (List ℕ) × List ℕ)
unfolding try_read_command
read_commands zero buf = some ([], buf)
read_commands (suc n) buf = elim (try_read_command ascii_prot false 0 buf) [
  | none ↦ none
  | some outcome ↦ elim outcome [
    | ascii_line command rest ↦ (do
      (commands, left) ← read_commands n rest
      some (command ∷ commands, left))
    | _ ↦ none
  ]
]

-- commands with a byte at least, of no special kind
unfoldable pub all_commands : List (List ℕ) → Bool
unfolding all_plain
all_commands [] = true
all_commands (line ∷ lines) = not (length line == 0) && (all_plain line && all_commands lines)

read_next :
    (n c : ℕ) (buf command rest : List ℕ) (lines : List (List ℕ)) (left : List ℕ)
    → read_ascii (c ∷ buf) ≡ ascii_line command rest
    → read_commands n rest ≡ some (lines, left)
    → read_commands (suc n) (c ∷ buf) ≡ some (command ∷ lines, left)
unfolding read_commands try_read_command negotiate
read_next n c buf command rest lines left f e = ground (arith, f, e)

-- For commands of one byte or more without zeros, carriage returns and line feeds that are sent
-- behind each other with a carriage return and a line feed each, as many calls of try_read_command
-- in the text protocol read those commands in that order, and leave the bytes that follow.
pub read_commands-send :
    (lines : List (List ℕ)) (rest : List ℕ)
    → all_commands lines ≡ true
    → read_commands (length lines) (send lines rest) ≡ some (lines, rest)
unfolding send all_commands
read_commands-send [] rest p = unfold read_commands in refl
read_commands-send ([] ∷ lines) rest p = absurd (ground (arith, p))
read_commands-send ((c ∷ line) ∷ lines) rest p =
    let others : all_commands lines ≡ true = ground (arith, p) in
    let first : all_plain (c ∷ line) ≡ true = ground (arith, p) in
    read_next (length lines) c (line ++ 13 ∷ 10 ∷ send lines rest) (c ∷ line) (send lines rest)
      lines rest (read_first c line (send lines rest) first) (read_commands-send lines rest others)
