-- ===== src/Ascii/Get/Reads.antt =====
-- A get of items that may be read reads, and changes nothing in the end.
use log_memcached.Base.{
  ℕ, zero, suc, ◌+◌, ◌-◌, ◌<◌, ◌≤◌, ◌≡◌, refl, sym, ap, ◌∙◌, Bool, none, some, List, [], ◌∷◌, ◌++◌,
  length, take, arith, inl, inr,
}
use mathlib.Core.List.{append-nil}
use log_memcached.Base.Text.{codes}
use log_memcached.Libc.{Libc}
use log_memcached.Items.{Cache, item_of}
use log_memcached.Items.Total.{>>=-eq}
use log_memcached.Delta.{Numbers}
use log_memcached.Drive.Send.{joined}
use log_memcached.Ascii.Tokens.{max_tokens, tokenize_command}
use log_memcached.Ascii.Tokens.Words.{words}
use log_memcached.Ascii.Listing.{Grants, Getting, release_items, release_list}
use log_memcached.Ascii.Get.{returned, process_get_command}
use log_memcached.Ascii.Get.Keys.{IsGranted, value_lines}
use log_memcached.Ascii.Get.Replies.{AllShort, replies}
use log_memcached.Ascii.Get.Answer.{process_get_command-answers}
use log_memcached.Ascii.Get.Release.{
  with_refs, with_refs-nil, with_refs-count, count-append, AllRead, AllReadable, answers, items_of,
  reply_item-read, get-read, get-missing, release_list-with_refs,
}

module _ ⦃libc : Libc⦄ (numbers : Numbers) (pause : Cache → Cache) (hash : List ℕ → ℕ)
    (return_cas : Bool) where
  -- the keys one after the other, with references to the items of `l` already taken
  replies-Readable :
      (s : Cache) (total : ℕ) (l : List ℕ) (keys : List (List ℕ))
      → AllReadable numbers pause hash return_cas s total keys
      → length l + length keys ≤ total
      → replies numbers pause hash return_cas (with_refs s l) keys
        ≡ some (
          answers numbers pause hash return_cas s keys,
          items_of numbers pause hash return_cas s keys,
          with_refs s (items_of numbers pause hash return_cas s keys ++ l),
        )
  replies-Readable s total l [] r fits = refl
  replies-Readable s total l (key ∷ keys) (inl missing, r) fits =
      >>=-eq _ _ (none, with_refs s l) (get-missing numbers pause hash return_cas s key l missing)
        (>>=-eq _ _ _ (replies-Readable s total l keys r (omega (arith, fits))) (rw missing refl))
  replies-Readable s total l (key ∷ keys) (inr (it, found, read), r) fits =
      let items : List ℕ = items_of numbers pause hash return_cas s keys in
      let order =
        with_refs-count s (items ++ it ∷ l) (it ∷ (items ++ l))
          (λ p. omega (arith, count-append p items (it ∷ l), count-append p items l)) in
      >>=-eq _ _ (some it, with_refs s (it ∷ l))
        (get-read numbers pause hash return_cas s total it key l found read (omega (arith, fits)))
        (>>=-eq _ _ _ (reply_item-read numbers pause hash return_cas s total it (it ∷ l) read) (
          >>=-eq _ _ _ (replies-Readable s total (it ∷ l) keys r (omega (arith, fits))) (
            rw found (
              ap
                (λ c. some (
                  value_lines numbers return_cas (item_of s it)
                      ++ answers numbers pause hash return_cas s keys,
                  it ∷ items,
                  c,
                ))
                order))))

  items_of-AllRead :
      (s : Cache) (total : ℕ) (keys : List (List ℕ))
      → AllReadable numbers pause hash return_cas s total keys
      → AllRead s total (items_of numbers pause hash return_cas s keys)
        × (length (items_of numbers pause hash return_cas s keys) ≤ length keys)
  items_of-AllRead s total [] r = (tt, omega arith)
  items_of-AllRead s total (key ∷ keys) (inl missing, r) =
      let (reads, few) = items_of-AllRead s total keys r in rw missing (reads, omega (arith, few))
  items_of-AllRead s total (key ∷ keys) (inr (it, found, read), r) =
      let (reads, few) = items_of-AllRead s total keys r in
      rw found ((read, reads), omega (arith, few))

  take_all : (xs : List ℕ) (n : ℕ) → n ≡ length xs → take n xs ≡ xs
  take_all [] zero e = refl
  take_all [] (suc n) e = refl
  take_all (x ∷ xs) zero e = absurd (omega (arith, e))
  take_all (x ∷ xs) (suc n) e = ap (λ l. x ∷ l) (take_all xs n (omega (arith, e)))

  release_loose :
      (s s' : Cache) (g : Getting)
      → g.client.item ≡ none
      → release_list s (take g.ileft g.ilist) ≡ some s'
      → (g' : Getting) × (release_items s g ≡ some (g', s'))
  unfolding release_items
  release_loose s s' g loose back = (
    record g {
      client = record (g.client) { item = none };
      ilist = [];
      ileft = 0;
      suffixleft = 0;
      suffixes = g.suffixes - g.suffixleft;
    },
    rw (loose, release_items, back) refl,
  )

  module _ (grants : ℕ → Grants) where
    -- Where everything is granted, on a line with the name of the command and keys of at most 250
    -- bytes, however many, each of which is not in the table or has an item that is neither
    -- flushed nor expired nor on the free list, whose time is not below the clock less 60 seconds,
    -- as 32-bit numbers, and whose references are at least one and with the number of keys less
    -- than 2^16, where the connection holds no item of its own and the fuel is above the number of
    -- keys: process_get_command returns; what it has added to send are the line and the value of
    -- the item of each key that has one, in the order of the keys, and END; and conn_release_items
    -- then leaves the cache exactly as it was before the command.
    pub process_get_command-reads :
        (fuel : ℕ) (s : Cache) (g : Getting) (command name : List ℕ) (keys : List (List ℕ))
        → ((i : ℕ) → IsGranted (grants i))
        → words command ≡ name ∷ keys
        → AllShort keys
        → AllReadable numbers pause hash return_cas s (length keys) keys
        → g.client.item ≡ none
        → length keys < fuel
        → (g' : Getting) × (s' : Cache) × (g'' : Getting) × (process_get_command numbers pause hash
              return_cas grants fuel none s g command
              (tokenize_command command max_tokens)
            ≡ some (returned g' s'))
          × (joined g'.sent
              ≡ joined g.sent ++ (answers numbers pause hash return_cas s keys ++ codes "END\r\n"))
          × (release_items s' g' ≡ some (g'', s))
    process_get_command-reads fuel s g command name keys all line short readable loose enough =
        let items : List ℕ = items_of numbers pause hash return_cas s keys in
        let e = replies-Readable s (length keys) [] keys readable (omega arith) in
        let e₁ =
          ap (λ x. replies numbers pause hash return_cas x keys) (sym (with_refs-nil s))
          ∙ e
          ∙ ap (λ l. some (answers numbers pause hash return_cas s keys, items, with_refs s l))
              (append-nil items) in
        let (g', ends, sent, kept, left, item, state) =
          process_get_command-answers numbers pause hash return_cas grants fuel s
            (with_refs s items) g command name (answers numbers pause hash return_cas s keys) keys
            items all line short e₁ enough in
        let (reads, few) = items_of-AllRead s (length keys) keys readable in
        let back = release_list-with_refs s (length keys) items reads few in
        let listed = take_all g'.ilist g'.ileft left ∙ kept in
        let (g'', released) =
          release_loose (with_refs s items) s g' (item ∙ loose)
            (ap (release_list (with_refs s items)) listed ∙ back) in
        (g', with_refs s items, g'', ends, sent, released)
