-- ===== src/Ascii/Get/Tests.antt =====
-- The theorems on a get of eight keys of which two are there, and on one that is refused memory.
use log_memcached.Base.{
  ℕ, ◌≡◌, refl, true, false, none, some, List, [], ◌∷◌, ◌++◌, arith, length, inl, inr,
}
use log_memcached.Base.Text.{codes}
use log_memcached.Libc.Decimal.{decimal_libc}
use log_memcached.Items.{Cache, item_is_flushed}
use log_memcached.Items.Get.{do_item_get, is_expired}
use log_memcached.Items.Renew.{do_item_update}
use log_memcached.Assoc
use log_memcached.Drive.Send.{joined}
use log_memcached.Ascii.Conn.{conn_mwrite}
use log_memcached.Ascii.Tokens.{max_tokens, tokenize_command}
use log_memcached.Ascii.Tokens.Words.{words_from}
use log_memcached.Ascii.Commands.Tests.{hash, numbers, pause, client, holding}
use log_memcached.Ascii.Listing.{Grants, Getting, release_items}
use log_memcached.Ascii.Get.{returned, out_of_fuel, listed_item, process_get_command}
use log_memcached.Ascii.Get.Answer.{process_get_command-answers}
use log_memcached.Ascii.Get.Replies.{replies}
use log_memcached.Ascii.Get.Release.{IsRead, answers}
use log_memcached.Ascii.Get.Reads.{process_get_command-reads}
use log_memcached.Ascii.Get.Stuck.{process_get_command-stuck}

abbrev granted : Grants
granted = record { ilist_room = true; suffixlist_room = true; suffix = true; refused = λ i. none }

abbrev getting : Getting
getting = record {
  client = client none;
  ilist = [];
  isize = 1;
  suffixsize = 20;
  suffixes = 0;
  ileft = 0;
  suffixleft = 0;
  sent = [];
  malloc_fails = 0;
  attempts = 0;
}

abbrev keys : List (List ℕ)
keys =
    codes "a"
    ∷ codes "b"
    ∷ codes "c"
    ∷ codes "d"
    ∷ codes "e"
    ∷ codes "f"
    ∷ codes "g"
    ∷ codes "a"
    ∷ []

-- the cache behind the keys
abbrev after : Cache
after = elim (replies numbers pause hash false (holding 0) keys) [
  | none ↦ holding 0
  | some (bytes, n, s) ↦ s
]

item_a-IsRead : IsRead (holding 0) 8 1
unfolding item_is_flushed is_expired
item_a-IsRead = record {
  unflushed = refl;
  unexpired = refl;
  recent = refl;
  used = omega arith;
  small = omega arith;
  free = refl;
}

process_get_command-answers_example :
    (g' : Getting) × (process_get_command numbers pause hash false
        (λ i. granted)
        9
        none
        (holding 0)
        getting
        (codes "get a b c d e f g a")
        (tokenize_command (codes "get a b c d e f g a") max_tokens)
      ≡ some (returned g' after))
    × (joined g'.sent ≡ [] ++ (codes "VALUE aVALUE a" ++ codes "END\r\n"))
    × (g'.ilist ≡ 1 ∷ 1 ∷ [])
    × (g'.ileft ≡ length g'.ilist)
    × (g'.client.item ≡ none)
    × (g'.client.state ≡ conn_mwrite)
unfolding words_from do_item_get do_item_update Assoc.init Assoc.insert Assoc.find item_is_flushed
    is_expired listed_item
process_get_command-answers_example =
    process_get_command-answers numbers pause hash false (λ i. granted) 9 (holding 0) after getting
      (codes "get a b c d e f g a") (codes "get") (codes "VALUE aVALUE a") keys (1 ∷ 1 ∷ [])
      (λ i. record {
        ilist_room = refl;
        suffixlist_room = refl;
        suffix = refl;
        refused = λ k. refl;
      })
      refl (omega arith) refl (omega arith)

process_get_command-reads_example :
    (g' : Getting) × (s' : Cache) × (g'' : Getting) × (process_get_command numbers pause hash true
        (λ i. granted)
        9
        none
        (holding 0)
        getting
        (codes "gets a b c d e f g a")
        (tokenize_command (codes "gets a b c d e f g a") max_tokens)
      ≡ some (returned g' s'))
    × (joined g'.sent ≡ [] ++ (answers numbers pause hash true (holding 0) keys ++ codes "END\r\n"))
    × (release_items s' g' ≡ some (g'', holding 0))
unfolding words_from Assoc.init Assoc.insert Assoc.find item_is_flushed is_expired
process_get_command-reads_example =
    process_get_command-reads numbers pause hash true (λ i. granted) 9 (holding 0) getting
      (codes "gets a b c d e f g a") (codes "gets") keys
      (λ i. record {
        ilist_room = refl;
        suffixlist_room = refl;
        suffix = refl;
        refused = λ k. refl;
      })
      refl (omega arith)
      (
        inr (1, refl, item_a-IsRead),
        (
          inl refl,
          (
            inl refl,
            (inl refl, (inl refl, (inl refl, (inl refl, (inr (1, refl, item_a-IsRead), tt))))),
          ),
        ),
      )
      refl (omega arith)

process_get_command-stuck_example :
    process_get_command numbers pause hash true
      (λ i. record granted { refused = λ k. some 3 })
      5
      none
      (holding 0)
      getting
      (codes "gets a b")
      (tokenize_command (codes "gets a b") max_tokens)
    ≡ some out_of_fuel
unfolding words_from Assoc.init Assoc.insert Assoc.find item_is_flushed is_expired
process_get_command-stuck_example =
    process_get_command-stuck numbers pause hash true
      (λ i. record granted { refused = λ k. some 3 }) (holding 0) getting (codes "gets a b")
      (codes "gets") (codes "a") (codes "b" ∷ []) 1 5
      (λ i. record { bytes = 3; refused = refl; suffix = refl })
      (record {
        found = refl;
        unflushed = refl;
        unexpired = refl;
        used = omega arith;
        small = omega arith;
        free = refl;
      })
      (omega arith) refl refl
