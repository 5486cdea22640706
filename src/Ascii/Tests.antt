-- ===== src/Ascii/Tests.antt =====
-- The theorems on the text protocol at a client that stores, deletes and touches the key "a".
use log_memcached.Base.{
  ℕ, ◌+◌, ◌-◌, ◌^◌, ◌≤◌, ◌≡◌, ◌↔◌, refl, true, false, some, List, [], ◌∷◌, length, take, drop,
  arith, ◌==◌,
}
use log_memcached.Base.Text.{codes}
use log_memcached.Delta.{Numbers}
use log_memcached.Ascii.Time.{pos, realtime}
use log_memcached.Ascii.Time.Due.{is_due, realtime-due}
use log_memcached.Ascii.Numbers.{Longs, ends_well, safe_strtol}
use log_memcached.Ascii.Buffer.Pipeline.{send, all_commands, read_commands, read_commands-send}
use log_memcached.Ascii.Tokens.{tokenize_command, texts, unprocessed}
use log_memcached.Ascii.Tokens.Words.{words, tokenize_command-words}
use log_memcached.Ascii.Update.{read_line}
use log_memcached.Ascii.Update.Lines.{Allowed, read_line-Allowed}

abbrev line : List ℕ
line = codes "get a  bc"

tokenize_command-words_example :
    (texts line (tokenize_command line 3) ≡ take 2 (words line))
    × (words (unprocessed line (tokenize_command line 3)) ≡ drop 2 (words line))
    × (length (tokenize_command line 3) ≤ 3)
    × (length (tokenize_command line 3) ≡ length (texts line (tokenize_command line 3)) + 1)
tokenize_command-words_example = tokenize_command-words line 3 (omega arith)

-- Two of the three words fit.
two_words : texts line (tokenize_command line 3) ≡ codes "get" ∷ codes "a" ∷ []
unfolding texts tokenize_command
two_words = refl

-- one day after 2026-01-01, at a process that started ten seconds before
realtime-due_example :
    (is_due (realtime 1767225600 10 (pos 1767312000)) 10 ≡ true) ↔ (1767312000 ≤ 1767225600 + 10)
realtime-due_example =
    realtime-due 1767225600 10 1767312000 (omega arith) (omega arith) (omega arith)

-- numbers of one digit, and one that is 2^32 + 2
abbrev number : List ℕ → ℕ
number [] = 0
number (c ∷ []) = c - 48
number (c ∷ d ∷ cs) = 2 ^ 32 + 2

abbrev longs : Longs
longs = record {
  strtoul = λ cs. record { number = number cs; rest = []; moved = true; erange = false };
  strtol = λ cs. record { number = pos (number cs); rest = []; moved = true; erange = false };
  isspace = λ c. c == 32;
}

abbrev numbers : Numbers
numbers = record {
  strtoul = number;
  strtoull = λ cs. record { number = number cs; rest = []; moved = true; erange = false };
  isspace = λ c. c == 32;
  print = λ n. [];
}

read_line-Allowed_example :
    Allowed (record { key = codes "a"; flags = 0; exptime = pos 0; vlen = 7; req_cas_id = 0 })
unfolding read_line ends_well safe_strtol
read_line-Allowed_example =
    read_line-Allowed numbers longs
      (codes "set" ∷ codes "a" ∷ codes "0" ∷ codes "0" ∷ codes "5" ∷ []) false
      (record { key = codes "a"; flags = 0; exptime = pos 0; vlen = 7; req_cas_id = 0 }) refl

read_commands-send_example :
    read_commands 2 (send (codes "get a" ∷ codes "version" ∷ []) (codes "qui"))
    ≡ some (codes "get a" ∷ codes "version" ∷ [], codes "qui")
unfolding all_commands
read_commands-send_example =
    read_commands-send (codes "get a" ∷ codes "version" ∷ []) (codes "qui") refl
