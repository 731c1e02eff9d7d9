-- ===== src/Text/Printk.antt =====
-- src/framework/printk.c: `printk`, with the characters that `putChar` is given as a list.
-- `va_arg` takes the next argument: a word of 64 bits, of which an `int` or a `uint32_t` is the lower
-- half, or the bytes of a string. `none` is what C leaves undefined: no such argument, or a read past
-- the format's terminator, behind which a format that ends in "%l" goes on.
pub mod Pieces
use ios.Prelude.{
  ℕ, ◌+◌, ◌-◌, ◌^◌, ◌<◌, Option, none, some, List, [], ◌∷◌, ◌++◌, ltb, ◌==◌, if◌then◌else◌, u8, u32,
  u64, ℤ, pos, negsuc,
}
use ios.Text.{int_to_str, uint_to_str, ulong_to_str}

pub data Arg : Type 0 where
  word : ℕ → Arg
  text : List ℕ → Arg

-- The `int` of a word.
abbrev pub int_of : ℕ → ℤ
int_of w = if ltb (u32 w) (2 ^ 31) then pos (u32 w) else negsuc (2 ^ 32 - 1 - u32 w)

-- What is printed by the next argument, and the arguments after it.
abbrev pub with_word : List Arg → (ℕ → List ℕ) → Option (List ℕ × List Arg)
with_word [] f = none
with_word (word w ∷ args) f = some (f w, args)
with_word (text s ∷ args) f = none

abbrev pub with_text : List Arg → Option (List ℕ × List Arg)
with_text [] = none
with_text (word w ∷ args) = none
with_text (text s ∷ args) = some (s, args)

-- The specifier behind "%l". The signed one prints an unsigned number too.
unfoldable pub long_evaluation : ℕ → List Arg → Option (List ℕ × List Arg)
long_evaluation spec args =
    if spec == b'u'
    then with_word args (λ w. ulong_to_str (u64 w) 10)
    else if spec == b'd'
    then with_word args (λ w. ulong_to_str (u64 w) 10)
    else if spec == b'x'
    then with_word args (λ w. ulong_to_str (u64 w) 16)
    else some ([], args)

-- The specifier behind '%'; another character prints nothing.
unfoldable pub format_evaluation : ℕ → List Arg → Option (List ℕ × List Arg)
format_evaluation spec args =
    if spec == b'd'
    then with_word args (λ w. int_to_str (int_of w) 10)
    else if spec == b'u'
    then with_word args (λ w. uint_to_str (u32 w) 10)
    else if spec == b'o'
    then with_word args (λ w. uint_to_str (u32 w) 8)
    else if spec == b'x'
    then with_word args (λ w. uint_to_str (u32 w) 16)
    else if spec == b'c'
    then with_word args (λ w. u8 w ∷ [])
    else if spec == b's'
    then with_text args
    else if spec == b'p'
    then with_word args (λ w. b'0' ∷ b'x' ∷ ulong_to_str (u64 w) 16)
    else if spec == b'%'
    then some (b'%' ∷ [], args)
    else some ([], args)

-- What was printed, before what the rest of the format prints.
abbrev pub before : List ℕ → Option (List ℕ) → Option (List ℕ)
before out none = none
before out (some rest) = some (out ++ rest)

abbrev pub then_rest : Option (List ℕ × List Arg) → (List Arg → Option (List ℕ)) → Option (List ℕ)
then_rest none f = none
then_rest (some (out, args)) f = before out (f args)

mutual
  -- The loop of `printk` at what is left of the format.
  pub printk : List ℕ → List Arg → Option (List ℕ)
  printk [] args = some []
  printk (c ∷ fmt) args =
      let spec = after_percent fmt args in
      let rest = printk fmt args in if c == b'%' then spec else before (c ∷ []) rest

  pub after_percent : List ℕ → List Arg → Option (List ℕ)
  after_percent [] args = some []
  after_percent (c ∷ fmt) args =
      let long = after_long fmt args in
      let short = then_rest (format_evaluation c args) (λ others. printk fmt others) in
      if c == b'l' then long else short

  pub after_long : List ℕ → List Arg → Option (List ℕ)
  after_long [] args = none
  after_long (c ∷ fmt) args = then_rest (long_evaluation c args) (λ others. printk fmt others)
