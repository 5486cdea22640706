-- ===== src/Ascii/Get/Answer.antt =====
-- `process_get_command` on a whole line.
use log_memcached.Base.{
  ℕ, ◌+◌, ◌<◌, ◌≡◌, refl, sym, ap, ap₂, ◌∙◌, Bool, none, some, List, [], ◌∷◌, ◌++◌, length, take,
  drop, take-drop, arith,
}
use mathlib.Core.List.{append_assoc}
use mathlib.Core.Path.{subst}
use log_memcached.Base.Text.{codes}
use log_memcached.Libc.{Libc}
use log_memcached.Items.{Cache}
use log_memcached.Delta.{Numbers}
use log_memcached.Drive.Send.{joined}
use log_memcached.Drive.Send.Order.{joined-append}
use log_memcached.Ascii.Conn.{conn_mwrite}
use log_memcached.Ascii.Tokens.{Token, max_tokens, tokenize_command, texts, unprocessed}
use log_memcached.Ascii.Tokens.Words.{words, tokenize_command-words}
use log_memcached.Ascii.Listing.{Grants, Getting, add_parts}
use log_memcached.Ascii.Get.{returned, end_get, process_get_command}
use log_memcached.Ascii.Get.Keys.{IsGranted}
use log_memcached.Ascii.Get.First.{texts-drop_one}
use log_memcached.Ascii.Get.Replies.{AllShort, replies}
use log_memcached.Ascii.Get.Line.{length-drop_le, get_loop-Ends}

-- what the end of the command leaves
record IsEnd (g g' : Getting) : Type 0 where
  pub sent : joined g'.sent ≡ joined g.sent ++ codes "END\r\n"
  pub same : g'.ilist ≡ g.ilist
  pub item : g'.client.item ≡ g.client.item
  pub left : g'.ileft ≡ length g.ilist
  pub sending : g'.client.state ≡ conn_mwrite

end_get-IsEnd : (return_cas : Bool) (g : Getting) → IsEnd g (end_get return_cas none g)
unfolding end_get add_parts
end_get-IsEnd return_cas g = record {
  sent = joined-append g.sent (codes "END\r\n" ∷ []);
  same = refl;
  item = refl;
  left = refl;
  sending = refl;
}

-- the keys of a line are what its first pass and the rest hold behind the name
pub keys_words :
    (command name : List ℕ) (keys : List (List ℕ))
    → words command ≡ name ∷ keys
    → (texts command (drop 1 (tokenize_command command max_tokens)) ≡ take 6 keys)
      × (words (unprocessed command (drop 1 (tokenize_command command max_tokens))) ≡ drop 6 keys)
      × (length (drop 1 (tokenize_command command max_tokens))
          ≡ length (texts command (drop 1 (tokenize_command command max_tokens))) + 1)
keys_words command name keys e =
    let t = tokenize_command-words command max_tokens (omega arith) in
    let d =
      texts-drop_one command name (take 6 keys) (tokenize_command command max_tokens)
        (t.0 ∙ ap (take 7) e) t.3 in
    (d.0, ap words d.1 ∙ t.1 ∙ ap (drop 7) e, d.2)

module _ ⦃libc : Libc⦄ (numbers : Numbers) (pause : Cache → Cache) (hash : List ℕ → ℕ)
    (return_cas : Bool) (grants : ℕ → Grants) where
  -- Where everything is granted, on a line with the name of the command and keys of at most 250
  -- bytes, however many, where no assertion fails for the keys one after the other, and with fuel
  -- above the number of keys, process_get_command returns with the cache that the keys one after
  -- the other leave and is about to send; what it has added to send are, in the order of the keys,
  -- the line and the value of each item that is found, and END; and the list of the items to
  -- release, all of which are to be released, is that of the items that those keys hold, and the
  -- item of the connection is as it was.
  pub process_get_command-answers :
      (fuel : ℕ) (s s' : Cache) (g : Getting) (command name bytes : List ℕ) (keys : List (List ℕ))
      (held : List ℕ)
      → ((i : ℕ) → IsGranted (grants i))
      → words command ≡ name ∷ keys
      → AllShort keys
      → replies numbers pause hash return_cas s keys ≡ some (bytes, held, s')
      → length keys < fuel
      → (g' : Getting) × (process_get_command numbers pause hash return_cas grants fuel none s g
            command
            (tokenize_command command max_tokens)
          ≡ some (returned g' s'))
        × (joined g'.sent ≡ joined g.sent ++ (bytes ++ codes "END\r\n"))
        × (g'.ilist ≡ held)
        × (g'.ileft ≡ length g'.ilist)
        × (g'.client.item ≡ g.client.item)
        × (g'.client.state ≡ conn_mwrite)
  unfolding process_get_command
  process_get_command-answers fuel s s' g command name bytes keys held all line short e enough =
      let ts : List Token = drop 1 (tokenize_command command max_tokens) in
      let (now, later, ended) = keys_words command name keys line in
      let same : keys ≡ texts command ts ++ words (unprocessed command ts) =
        sym (ap₂ (λ x y. x ++ y) now later ∙ take-drop 6 keys) in
      let (g₁, ends, sends) =
        get_loop-Ends numbers pause hash return_cas grants all fuel s s' (record g { ilist = [] })
          command ts bytes held ended (subst AllShort same short)
          (subst
            (λ (l : List (List ℕ)).
              replies numbers pause hash return_cas s l ≡ some (bytes, held, s'))
            same e)
          (omega (arith, enough, ap length later, length-drop_le 6 keys)) in
      let end = end_get-IsEnd return_cas g₁ in
      (
        end_get return_cas none g₁,
        ends,
        end.sent
            ∙ ap (λ l. l ++ codes "END\r\n") sends.sent
            ∙ append_assoc (joined g.sent) bytes (codes "END\r\n"),
        end.same ∙ sends.kept,
        end.left ∙ ap length (sym end.same),
        end.item ∙ sends.item,
        end.sending,
      )
