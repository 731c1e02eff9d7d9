-- ===== src/Text/Tests.antt =====
-- Runs of the string functions, and the theorems at concrete inputs.
use ios.Prelude.{ℕ, ◌≡◌, ◌↔◌, some, none, List, [], ◌∷◌, pos, negsuc, refl, arith}
use ios.Text.Printk.{printk}
use ios.Text.Printk.Pieces.{
  Piece, literal, percent, signed, string, long_hexadecimal, format_of, args_of, text_of,
  printk-format_of,
}
use ios.Text.{atoi, int_to_str, uint_to_str, strcmp, digits_of, reversed_onto}
use ios.Text.Compare.{IsText, strcmp-eq_iff}
use ios.Text.Numbers.{atoi-int_to_str}

hex_text : uint_to_str 0xBEEF 16 ≡ b'b' ∷ b'e' ∷ b'e' ∷ b'f' ∷ []
unfolding uint_to_str digits_of reversed_onto
hex_text = refl

atoi-int_to_str_example : atoi (int_to_str (negsuc 41) 10) ≡ some (negsuc 41)
atoi-int_to_str_example = atoi-int_to_str (negsuc 41) (omega arith)

-- The digits of the least `int` overflow.
atoi_least : atoi (int_to_str (negsuc 0x7FFFFFFF) 10) ≡ none
unfolding int_to_str uint_to_str digits_of reversed_onto atoi ios.Text.skip_spaces
    ios.Text.signed_number ios.Text.number_loop ios.Text.isspace ios.Text.isdigit
atoi_least = refl

abbrev yes_text : List ℕ
yes_text = b'y' ∷ b'e' ∷ b's' ∷ []

abbrev yet_text : List ℕ
yet_text = b'y' ∷ b'e' ∷ b't' ∷ []

yes_text-IsText : IsText yes_text
yes_text-IsText = ground arith

yet_text-IsText : IsText yet_text
yet_text-IsText = ground arith

strcmp-eq_iff_example : (strcmp yes_text yet_text ≡ pos 0) ↔ (yes_text ≡ yet_text)
strcmp-eq_iff_example = strcmp-eq_iff yes_text yet_text yes_text-IsText yet_text-IsText

-- "n=%d%%%s%lx" with -5, "ok" and an address.
abbrev some_pieces : List Piece
some_pieces =
    literal b'n'
    ∷ literal b'='
    ∷ signed (negsuc 4)
    ∷ percent
    ∷ string (b'o' ∷ b'k' ∷ [])
    ∷ long_hexadecimal 0xFEE00000
    ∷ []

printk-format_of_example :
    printk (format_of some_pieces) (args_of some_pieces) ≡ some (text_of some_pieces)
printk-format_of_example =
    printk-format_of some_pieces
      (omega arith, (omega arith, (omega arith, (tt, (tt, (omega arith, tt))))))
