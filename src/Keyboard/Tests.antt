-- ===== src/Keyboard/Tests.antt =====
-- Runs of the keyboard's functions.
use ios.Prelude.{ℕ, ◌≡◌, false, List, [], ◌∷◌, refl, arith, ℤ, pos, negsuc, some}
use ios.Mem.{zeros}
use ios.Keyboard.{get_char_ex}
use ios.Keyboard.Presses.{
  Press, letter, shifted, left_shifted, cursor, up, read_keys, all_codes, all_keys,
  read_keys-all_codes,
}
use ios.Keyboard.Input.{scank_core, fgetsk_core}
use ios.Keyboard.Input.Edit.{typed, HoldsLine, fgetsk_core-HoldsLine}
use ios.Keyboard.Input.Numbers.{conversions, spelled, numbers, scank_core-conversions}

-- a, A with the right shift, cursor up, B with the left shift.
abbrev some_presses : List Press
some_presses = letter 0x1E ∷ shifted 0x1E ∷ cursor up ∷ left_shifted 0x30 ∷ []

read_keys-all_codes_example : read_keys false false (all_codes some_presses) ≡ all_keys some_presses
unfolding ios.Keyboard.code_to_char
read_keys-all_codes_example = read_keys-all_codes some_presses (ground arith)

-- "ab", a backspace, "cd" with room for three characters, and a line feed.
abbrev some_line : List ℕ
some_line = b'a' ∷ b'b' ∷ 8 ∷ b'c' ∷ b'd' ∷ 10 ∷ []

fgetsk_core-HoldsLine_example :
    HoldsLine 4 zeros (typed 3 [] some_line) (fgetsk_core zeros 4 some_line)
fgetsk_core-HoldsLine_example = fgetsk_core-HoldsLine zeros 3 some_line

fgetsk_core_run : typed 3 [] some_line ≡ b'd' ∷ b'c' ∷ b'a' ∷ []
unfolding typed
fgetsk_core_run = refl

-- 12, -7 and 0, behind each a space or a line feed.
abbrev some_numbers : List (ℤ × ℕ)
some_numbers = (pos 12, 32) ∷ (negsuc 6, 32) ∷ (pos 0, 10) ∷ []

scank_core-conversions_example :
    scank_core zeros (conversions some_numbers) (spelled some_numbers)
    ≡ some (record { count = 3; values = numbers some_numbers; left = [] })
unfolding ios.Text.isdigit
scank_core-conversions_example =
    scank_core-conversions zeros some_numbers
      ((omega arith, refl), ((omega arith, refl), ((omega arith, refl), tt)))
