-- ===== src/Shell/Words.antt =====
-- `separateString` of src/fs/shell.c: the words of a line, cut apart in place.
pub mod Split
pub mod RoundTrip
use ios.Prelude.{
  ℕ, zero, suc, ◌+◌, Bool, true, false, not, ◌&&◌, List, [], ◌∷◌, ◌==◌, if◌then◌else◌,
}
use ios.Mem.{Mem, store}
use ios.Text.{isspace}

-- The loops `while (*buf && ...) buf++`; `room` bounds the way to the terminator.
unfoldable pub skip_while : (ℕ → Bool) → ℕ → Mem → ℕ → ℕ
skip_while test zero m p = p
skip_while test (suc room) m p =
    let rest = skip_while test room m (p + 1) in if not (m p == 0) && test (m p) then rest else p

-- `*buf != '"'`
abbrev pub not_quote : ℕ → Bool
not_quote c = not (c == 34)

abbrev pub not_space : ℕ → Bool
not_space c = not (isspace c)

-- The buffer, and the offsets that `ptrs` holds.
pub record Words : Type 0 where
  pub buf : Mem
  pub ptrs : List ℕ

abbrev pub no_words : Mem → Words
no_words m = record { buf = m; ptrs = [] }

abbrev pub with_word : ℕ → Words → Words
with_word p w = record { buf = w.buf; ptrs = p ∷ w.ptrs }

-- The loop from offset p on, with room for `left` more words.
unfoldable pub separate_loop : ℕ → ℕ → Mem → ℕ → Words
separate_loop room zero m p = no_words m
separate_loop room (suc left) m p =
    let q = skip_while isspace room m p in
    let quote = skip_while not_quote room m (q + 1) in
    let end_of_word = skip_while not_space room m q in
    let closed = separate_loop room left (store m quote 0) (quote + 1) in
    let unclosed = separate_loop room left m quote in
    let ended = separate_loop room left (store m end_of_word 0) (end_of_word + 1) in
    let last = separate_loop room left m end_of_word in
    if m p == 0
    then no_words m
    else if m q == 0
    then no_words m
    else if m q == 34
    then with_word (q + 1) (if m quote == 34 then closed else unclosed)
    else with_word q (if m end_of_word == 0 then last else ended)

unfoldable pub separate_string : ℕ → Mem → ℕ → Words
separate_string room buf max = separate_loop room max buf 0
