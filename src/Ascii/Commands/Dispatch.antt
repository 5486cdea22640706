-- ===== src/Ascii/Commands/Dispatch.antt =====
-- The tokens that the handlers of `process_command` read are there.
use log_memcached.Base.{
  ℕ, zero, suc, ◌+◌, ◌-◌, ◌<◌, ◌≤◌, ◌≡◌, refl, Bool, true, false, Option, none, some, List, [], ◌∷◌,
  length, arith, if◌then◌else◌, get_elem?, ltb, Bool-cases, inl, inr,
}
use log_memcached.Items.Total.{>>=-eq, if-true, if-false}
use log_memcached.Delta.{Numbers}
use log_memcached.Store.{Verb}
use log_memcached.Ascii.Numbers.{Longs}
use log_memcached.Ascii.Tokens.{max_tokens, tokenize_command, texts}
use log_memcached.Ascii.Tokens.Words.{tokenize_command-words}
use log_memcached.Ascii.Conn.{Client, set_noreply_maybe}
use log_memcached.Ascii.Update.{read_cas, read_line}
use log_memcached.Ascii.Choice.{
  Call, get, update, arithmetic, delete, touch, stat, flush_all, version, quit, shutdown,
  lru_crawler, watch, memlimit, verbosity, error, verb_of, choose_admin, choose_item, choose,
  first_word, read_command,
}
use log_memcached.Ascii.Commands.{delete_options, delete_tokens, touch_tokens}
use log_memcached.Ascii.Arithmetic.{arithmetic_tokens}

-- An index that is inside.
get_elem_inside :
    (ws : List (List ℕ)) (i : ℕ) → i < length ws → (w : List ℕ) × (get_elem? ws i ≡ some w)
get_elem_inside [] i h = absurd (omega arith)
get_elem_inside (w ∷ ws) zero h = (w, refl)
get_elem_inside (w ∷ ws) (suc i) h = get_elem_inside ws i (omega arith)

-- how many tokens the handlers of the items read, with the terminal one
unfoldable pub needs : Call → ℕ
needs (get b) = 0
needs (update comm handle_cas) = if handle_cas then 7 else 6
needs (arithmetic b) = 4
needs delete = 3
needs touch = 4
needs stat = 2
needs flush_all = 2
needs version = 2
needs quit = 2
needs shutdown = 2
needs lru_crawler = 2
needs watch = 2
needs memlimit = 3
needs verbosity = 3
needs error = 0

needs_admin : (w : List ℕ) (n : ℕ) → needs (choose_admin w n) ≤ n
unfolding choose_admin needs
needs_admin w n = ground arith

needs_item : (w : List ℕ) (n : ℕ) → needs (choose_item w n) ≤ n
unfolding choose_item needs
needs_item w n = ground (arith, needs_admin w n)

needs_verb :
    (v : Option Verb) (w : List ℕ) (n : ℕ)
    → 6 ≤ n
    → needs (elim v [ none ↦ choose_item w n | some comm ↦ update comm false ]) ≤ n
unfolding needs
needs_verb none w n h = needs_item w n
needs_verb (some comm) w n h = h

-- The branch that is taken for a line of `n` tokens reads at most `n`.
choose-needs : (w : List ℕ) (n : ℕ) → needs (choose w n) ≤ n
unfolding choose needs
choose-needs w n = ground (arith, needs_item w n, needs_verb (verb_of w) w n)

abbrev pub HasResult : {A : Type 0} → Option A → Type 0
HasResult {A} o = (a : A) × (o ≡ some a)

module _ (numbers : Numbers) (longs : Longs) where
  -- The reads of a handler are inside its tokens. The handlers have the tokens from these functions
  -- only; those of a get read up to the terminal one.
  unfoldable pub CanRead : Client → Call → List (List ℕ) → Type 0
  CanRead c (update comm handle_cas) ws =
      HasResult (set_noreply_maybe c ws) × HasResult (read_line numbers longs ws handle_cas)
  CanRead c (arithmetic incr) ws = HasResult (arithmetic_tokens c ws)
  CanRead c delete ws = HasResult (delete_tokens c ws)
  CanRead c touch ws = HasResult (touch_tokens c ws)
  CanRead c call ws = Unit {0}

  noreply_read :
      (c : Client) (ws : List (List ℕ)) → 0 < length ws → HasResult (set_noreply_maybe c ws)
  unfolding set_noreply_maybe
  noreply_read c ws h =
      let (w, e) = get_elem_inside ws (length ws - 1) (omega (arith, h)) in (_, >>=-eq _ _ w e refl)

  cas_read :
      (ws : List (List ℕ)) (handle_cas : Bool)
      → (if handle_cas then 7 else 6) ≤ length ws + 1
      → HasResult (read_cas numbers longs ws handle_cas)
  unfolding read_cas
  cas_read ws false h = (some 0, refl)
  cas_read ws true h =
      let (w, e) = get_elem_inside ws 5 (omega (arith, h)) in (_, >>=-eq _ _ w e refl)

  line_read :
      (ws : List (List ℕ)) (handle_cas : Bool)
      → (if handle_cas then 7 else 6) ≤ length ws + 1
      → HasResult (read_line numbers longs ws handle_cas)
  unfolding read_line read_cas
  line_read ws handle_cas h =
      let long : 5 ≤ length ws = ground (arith, h) in
      let (key, e₁) = get_elem_inside ws 1 (omega (arith, long)) in
      let (flags, e₂) = get_elem_inside ws 2 (omega (arith, long)) in
      let (exptime, e₃) = get_elem_inside ws 3 (omega (arith, long)) in
      let (vlen, e₄) = get_elem_inside ws 4 (omega (arith, long)) in
      let (cas, e₅) = cas_read ws handle_cas h in
      (
        _,
        >>=-eq _ _ key e₁ (
            >>=-eq _ _ flags e₂
              (>>=-eq _ _ exptime e₃ (>>=-eq _ _ vlen e₄ (>>=-eq _ _ cas e₅ refl)))),
      )

  options_read : (c : Client) (ws : List (List ℕ)) → HasResult (delete_options c ws)
  unfolding delete_options
  options_read c ws = elim (Bool-cases (ltb 3 (length ws + 1))) [
    | inl long ↦
        let (hold, e) = get_elem_inside ws 2 (ground (arith, long)) in
        let (c₁, e₁) = noreply_read c ws (ground (arith, long)) in
        (_, if-true _ _ _ long (>>=-eq _ _ hold e (>>=-eq _ _ c₁ e₁ refl)))
    | inr short ↦ (_, if-false _ _ _ short refl)
  ]

  touch_read : (c : Client) (ws : List (List ℕ)) → 2 < length ws → HasResult (touch_tokens c ws)
  unfolding touch_tokens
  touch_read c ws h =
      let (c₁, e₁) = noreply_read c ws (omega (arith, h)) in
      let (key, e₂) = get_elem_inside ws 1 (omega (arith, h)) in
      let (word, e₃) = get_elem_inside ws 2 h in
      ((c₁, key, word), >>=-eq _ _ c₁ e₁ (>>=-eq _ _ key e₂ (>>=-eq _ _ word e₃ refl)))

  arithmetic_read :
      (c : Client) (ws : List (List ℕ)) → 2 < length ws → HasResult (arithmetic_tokens c ws)
  unfolding arithmetic_tokens
  arithmetic_read c ws h =
      let (c₁, e₁) = noreply_read c ws (omega (arith, h)) in
      let (key, e₂) = get_elem_inside ws 1 (omega (arith, h)) in
      let (word, e₃) = get_elem_inside ws 2 h in
      ((c₁, key, word), >>=-eq _ _ c₁ e₁ (>>=-eq _ _ key e₂ (>>=-eq _ _ word e₃ refl)))

  delete_read : (c : Client) (ws : List (List ℕ)) → 1 < length ws → HasResult (delete_tokens c ws)
  unfolding delete_tokens
  delete_read c ws h =
      let ((c₁, valid), e₁) = options_read c ws in
      let (key, e₂) = get_elem_inside ws 1 h in
      ((c₁, valid, key), >>=-eq _ _ (c₁, valid) e₁ (>>=-eq _ _ key e₂ refl))

  can_read :
      (c : Client) (call : Call) (ws : List (List ℕ))
      → needs call ≤ length ws + 1
      → CanRead c call ws
  unfolding needs CanRead
  can_read c (update comm handle_cas) ws h =
      (noreply_read c ws (ground (arith, h)), line_read ws handle_cas h)
  can_read c (arithmetic incr) ws h = arithmetic_read c ws (omega (arith, h))
  can_read c delete ws h = delete_read c ws (omega (arith, h))
  can_read c touch ws h = touch_read c ws (omega (arith, h))
  can_read c call ws h = tt

  -- For every command line and connection, where process_command goes on to a storage command, an
  -- increment or decrement, a delete or a touch, every token that the handler reads is one of
  -- those that tokenize_command has written.
  pub read_command-CanRead :
      (c : Client) (command : List ℕ) → CanRead c (read_command command).0 (read_command command).1
  unfolding read_command
  read_command-CanRead c command =
      let tokens = tokenize_command command max_tokens in
      let ws = texts command tokens in
      let count = (tokenize_command-words command max_tokens (omega arith)).3 in
      let enough = choose-needs (first_word ws) (length tokens) in
      can_read c (choose (first_word ws) (length tokens)) ws (omega (arith, enough, count))
