-- ===== src/Text/Printk/Pieces.antt =====
-- What `printk` of src/framework/printk.c prints for a format put together from pieces.
use ios.Prelude.{
  ℕ, ◌-◌, ◌^◌, ◌<◌, ◌≡◌, ◌≢◌, some, List, [], ◌∷◌, ◌++◌, u8, u32, u64, ℤ, pos, negsuc, All, arith,
  refl, ne→==_false,
}
use ios.Text.{int_to_str, uint_to_str, ulong_to_str}
use ios.Text.Numbers.{IsInt}
use ios.Text.Printk.{
  Arg, word, text, int_of, printk, after_percent, after_long, format_evaluation, long_evaluation,
}

-- A character of the format, or a specifier with the value of its argument.
pub data Piece : Type 0 where
  literal : ℕ → Piece
  percent : Piece
  signed : ℤ → Piece
  unsigned : ℕ → Piece
  octal : ℕ → Piece
  hexadecimal : ℕ → Piece
  character : ℕ → Piece
  string : List ℕ → Piece
  pointer : ℕ → Piece
  long_unsigned : ℕ → Piece
  long_hexadecimal : ℕ → Piece

abbrev pub format_of : List Piece → List ℕ
format_of [] = []
format_of (literal c ∷ ps) = c ∷ format_of ps
format_of (percent ∷ ps) = b'%' ∷ b'%' ∷ format_of ps
format_of (signed z ∷ ps) = b'%' ∷ b'd' ∷ format_of ps
format_of (unsigned n ∷ ps) = b'%' ∷ b'u' ∷ format_of ps
format_of (octal n ∷ ps) = b'%' ∷ b'o' ∷ format_of ps
format_of (hexadecimal n ∷ ps) = b'%' ∷ b'x' ∷ format_of ps
format_of (character c ∷ ps) = b'%' ∷ b'c' ∷ format_of ps
format_of (string s ∷ ps) = b'%' ∷ b's' ∷ format_of ps
format_of (pointer n ∷ ps) = b'%' ∷ b'p' ∷ format_of ps
format_of (long_unsigned n ∷ ps) = b'%' ∷ b'l' ∷ b'u' ∷ format_of ps
format_of (long_hexadecimal n ∷ ps) = b'%' ∷ b'l' ∷ b'x' ∷ format_of ps

-- An `int` as it is passed, with its sign in the upper half.
abbrev pub word_of : ℤ → ℕ
word_of (pos n) = n
word_of (negsuc n) = 2 ^ 64 - 1 - n

abbrev pub args_of : List Piece → List Arg
args_of [] = []
args_of (literal c ∷ ps) = args_of ps
args_of (percent ∷ ps) = args_of ps
args_of (signed z ∷ ps) = word (word_of z) ∷ args_of ps
args_of (unsigned n ∷ ps) = word n ∷ args_of ps
args_of (octal n ∷ ps) = word n ∷ args_of ps
args_of (hexadecimal n ∷ ps) = word n ∷ args_of ps
args_of (character c ∷ ps) = word c ∷ args_of ps
args_of (string s ∷ ps) = text s ∷ args_of ps
args_of (pointer n ∷ ps) = word n ∷ args_of ps
args_of (long_unsigned n ∷ ps) = word n ∷ args_of ps
args_of (long_hexadecimal n ∷ ps) = word n ∷ args_of ps

-- The text that a piece stands for.
abbrev pub shown : Piece → List ℕ
shown (literal c) = c ∷ []
shown percent = b'%' ∷ []
shown (signed z) = int_to_str z 10
shown (unsigned n) = uint_to_str n 10
shown (octal n) = uint_to_str n 8
shown (hexadecimal n) = uint_to_str n 16
shown (character c) = c ∷ []
shown (string s) = s
shown (pointer n) = b'0' ∷ b'x' ∷ ulong_to_str n 16
shown (long_unsigned n) = ulong_to_str n 10
shown (long_hexadecimal n) = ulong_to_str n 16

abbrev pub text_of : List Piece → List ℕ
text_of [] = []
text_of (p ∷ ps) = shown p ++ text_of ps

-- The values fit the types that the specifiers name, and no literal is the percent sign.
abbrev pub IsPiece : Piece → Type 0
IsPiece (literal c) = c ≢ b'%'
IsPiece percent = Unit
IsPiece (signed z) = IsInt z
IsPiece (unsigned n) = n < 2 ^ 32
IsPiece (octal n) = n < 2 ^ 32
IsPiece (hexadecimal n) = n < 2 ^ 32
IsPiece (character c) = c < 256
IsPiece (string s) = Unit
IsPiece (pointer n) = n < 2 ^ 64
IsPiece (long_unsigned n) = n < 2 ^ 64
IsPiece (long_hexadecimal n) = n < 2 ^ 64

int_of-word_of : (z : ℤ) → IsInt z → int_of (word_of z) ≡ z
int_of-word_of (pos n) h = ground arith
int_of-word_of (negsuc n) h = ground arith

u32_lem : (n : ℕ) → n < 2 ^ 32 → u32 n ≡ n
u32_lem n h = omega arith

u64_lem : (n : ℕ) → n < 2 ^ 64 → u64 n ≡ n
u64_lem n h = omega arith

u8_lem : (n : ℕ) → n < 256 → u8 n ≡ n
u8_lem n h = omega arith

-- A format put together from pieces, given the pieces' values, prints the pieces' texts one after the
-- other, when the values fit the specifiers' types and no literal is the percent sign.
pub printk-format_of :
    (ps : List Piece) → All IsPiece ps → printk (format_of ps) (args_of ps) ≡ some (text_of ps)
unfolding printk after_percent after_long format_evaluation long_evaluation
printk-format_of [] h = refl
printk-format_of (literal c ∷ ps) (ne, h) = rw (ne→==_false c b'%' ne, printk-format_of ps h) refl
printk-format_of (percent ∷ ps) (fits, h) = rw (printk-format_of ps h) refl
printk-format_of (signed z ∷ ps) (fits, h) = rw (printk-format_of ps h, int_of-word_of z fits) refl
printk-format_of (unsigned n ∷ ps) (fits, h) = rw (printk-format_of ps h, u32_lem n fits) refl
printk-format_of (octal n ∷ ps) (fits, h) = rw (printk-format_of ps h, u32_lem n fits) refl
printk-format_of (hexadecimal n ∷ ps) (fits, h) = rw (printk-format_of ps h, u32_lem n fits) refl
printk-format_of (character c ∷ ps) (fits, h) = rw (printk-format_of ps h, u8_lem c fits) refl
printk-format_of (string s ∷ ps) (fits, h) = rw (printk-format_of ps h) refl
printk-format_of (pointer n ∷ ps) (fits, h) = rw (printk-format_of ps h, u64_lem n fits) refl
printk-format_of (long_unsigned n ∷ ps) (fits, h) = rw (printk-format_of ps h, u64_lem n fits) refl
printk-format_of (long_hexadecimal n ∷ ps) (fits, h) =
    rw (printk-format_of ps h, u64_lem n fits) refl
