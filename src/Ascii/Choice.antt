-- ===== src/Ascii/Choice.antt =====
-- memcached.c: the choice of a command in `process_command`.
use log_memcached.Base.{
  ℕ, Bool, true, false, ◌&&◌, ◌||◌, ◌==◌, Option, none, some, List, [], ◌∷◌, length, ltb, leb,
  if◌then◌else◌, list_eq,
}
use log_memcached.Base.Text.{codes}
use log_memcached.Store.{Verb, add, set, replace, append, prepend, cas}
use log_memcached.Ascii.Tokens.{max_tokens, tokenize_command, texts}

-- the commands, with what `process_command` hands to their functions
pub data Call : Type 0 where
  get : (return_cas : Bool) → Call
  update : (comm : Verb) (handle_cas : Bool) → Call
  arithmetic : (incr : Bool) → Call
  delete : Call
  touch : Call
  stat : Call
  flush_all : Call
  version : Call
  quit : Call
  shutdown : Call
  lru_crawler : Call
  watch : Call
  memlimit : Call
  verbosity : Call
  error : Call

-- the storage commands without a CAS
unfoldable pub verb_of : List ℕ → Option Verb
verb_of w =
    if list_eq w (codes "add")
    then some add
    else if list_eq w (codes "set")
    then some set
    else if list_eq w (codes "replace")
    then some replace
    else if list_eq w (codes "prepend")
    then some prepend
    else if list_eq w (codes "append")
    then some append
    else none

abbrev pub between : ℕ → ℕ → ℕ → Bool
between low n high = leb low n && leb n high

-- the administrative commands at the end of the chain
unfoldable pub choose_admin : List ℕ → ℕ → Call
choose_admin w ntokens =
    if ntokens == 2 && list_eq w (codes "version")
    then version
    else if ntokens == 2 && list_eq w (codes "quit")
    then quit
    else if ntokens == 2 && list_eq w (codes "shutdown")
    then shutdown
    else if ltb 1 ntokens && list_eq w (codes "lru_crawler")
    then lru_crawler
    else if ltb 1 ntokens && list_eq w (codes "watch")
    then watch
    else if between 3 ntokens 4 && list_eq w (codes "cache_memlimit")
    then memlimit
    else if between 3 ntokens 4 && list_eq w (codes "verbosity")
    then verbosity
    else error

-- the rest of the chain behind the storage commands
unfoldable pub choose_item : List ℕ → ℕ → Call
unfolding choose_admin
choose_item w ntokens =
    if between 7 ntokens 8 && list_eq w (codes "cas")
    then update cas true
    else if between 4 ntokens 5 && list_eq w (codes "incr")
    then arithmetic true
    else if leb 3 ntokens && list_eq w (codes "gets")
    then get true
    else if between 4 ntokens 5 && list_eq w (codes "decr")
    then arithmetic false
    else if between 3 ntokens 5 && list_eq w (codes "delete")
    then delete
    else if between 4 ntokens 5 && list_eq w (codes "touch")
    then touch
    else if leb 2 ntokens && list_eq w (codes "stats")
    then stat
    else if between 2 ntokens 4 && list_eq w (codes "flush_all")
    then flush_all
    else choose_admin w ntokens

-- the branch of `process_command` for the first word and the number of tokens
unfoldable pub choose : List ℕ → ℕ → Call
unfolding verb_of choose_item
choose w ntokens =
    if leb 3 ntokens && (list_eq w (codes "get") || list_eq w (codes "bget"))
    then get false
    else if between 6 ntokens 7
    then elim (verb_of w) [ none ↦ choose_item w ntokens | some comm ↦ update comm false ]
    else choose_item w ntokens

-- the first word of a line, which is the empty string if there is none
abbrev pub first_word : List (List ℕ) → List ℕ
first_word [] = []
first_word (w ∷ ws) = w

-- `process_command` up to the call that it makes, and the strings of its tokens
unfoldable pub read_command : List ℕ → Call × List (List ℕ)
unfolding tokenize_command texts choose
read_command command =
    let tokens = tokenize_command command max_tokens in
    let ws = texts command tokens in (choose (first_word ws) (length tokens), ws)
