-- ===== src/Keyboard/Input/Numbers.antt =====
-- `%d` of `scankCore` in src/keyboard.c on the numbers that `intToStr` writes.
use ios.Prelude.{
  ℕ, suc, ◌+◌, ◌-◌, ◌*◌, ◌<◌, ◌≡◌, List, [], ◌∷◌, ◌++◌, arith, refl, length, u32, All, ℤ, pos,
  negsuc, sub_ℕ, ◌==◌, ne→==_false, false, ap, sym, ◌∙◌, some, ◌^◌, lt→ltb,
}
use ios.Mem.{Mem}
use ios.Text.{isdigit, int_to_str, uint_to_str}
use ios.Text.Digits.{digit_value, read_number, read_number-uint_to_str}
use ios.Text.Numbers.{
  IsDigit, IsReadable, negated_suc, digit_value_decimal, read_number_grows, uint_to_str-IsDigit,
  uint_to_str-length,
}
use ios.Keyboard.Input.{Scanned, number, scan_digits, scan_number, scank_core}

-- Digits up to a character that is none.
scan_digits-append :
    (s : List ℕ) (value digits stop : ℕ) (chs : List ℕ)
    → All IsDigit s
    → read_number 10 value s < 2 ^ 31
    → isdigit stop ≡ false
    → scan_digits value digits (s ++ stop ∷ chs)
      ≡ some (read_number 10 value s, digits + length s, chs)
unfolding scan_digits read_number
scan_digits-append [] value digits stop chs h lt e =
    rw e (ap (λ (n : ℕ). some (value, n, chs)) (omega arith))
scan_digits-append (c ∷ s) value digits stop chs (d, h) lt e =
    let next = value * 10 + (c - b'0') in
    let same : value * 10 + digit_value c ≡ next =
      ap (λ (v : ℕ). value * 10 + v) (digit_value_decimal c d) in
    let fits : read_number 10 next s < 2 ^ 31 = rw (← same) lt in
    let small : next < 2 ^ 31 = omega (arith, fits, read_number_grows next s) in
    let count : digits + 1 + length s ≡ digits + suc (length s) = omega arith in
    rw (d, lt→ltb next (2 ^ 31) small, same, sym count)
      (scan_digits-append s next (digits + 1) stop chs h fits e)

scan_number_digits :
    (s : List ℕ) (stop : ℕ) (chs : List ℕ)
    → 0 < length s
    → All IsDigit s
    → read_number 10 0 s < 2 ^ 31
    → isdigit stop ≡ false
    → scan_number (s ++ stop ∷ chs) ≡ some (pos (read_number 10 0 s), length s, chs)
unfolding scan_number
scan_number_digits [] stop chs some_digit h lt e = absurd (omega arith)
scan_number_digits (c ∷ s) stop chs some_digit h lt e =
    let no_sign : (c == b'-') ≡ false = unfold isdigit in ground (arith, h.0) in
    rw (no_sign, scan_digits-append (c ∷ s) 0 0 stop chs h lt e)
      (ap (λ (n : ℕ). some (pos (read_number 10 0 (c ∷ s)), n, chs)) (omega arith))

scan_number_minus :
    (s : List ℕ) (stop : ℕ) (chs : List ℕ)
    → All IsDigit s
    → read_number 10 0 s < 2 ^ 31
    → isdigit stop ≡ false
    → scan_number (b'-' ∷ s ++ stop ∷ chs) ≡ some (sub_ℕ 0 (read_number 10 0 s), length s, chs)
unfolding scan_number
scan_number_minus s stop chs h lt e =
    rw (scan_digits-append s 0 0 stop chs h lt e)
      (ap (λ (n : ℕ). some (sub_ℕ 0 (read_number 10 0 s), n, chs)) (omega arith))

-- A number is read as its value, from at least one digit, up to the character behind it.
scan_number_spelled :
    (z : ℤ) (stop : ℕ) (chs : List ℕ)
    → IsReadable z
    → isdigit stop ≡ false
    → (digits : ℕ) × (0 < digits)
      × (scan_number (int_to_str z 10 ++ stop ∷ chs) ≡ some (z, digits, chs))
unfolding int_to_str
scan_number_spelled (pos n) stop chs h e =
    let small : u32 n ≡ n = omega arith in
    let value = (read_number-uint_to_str 10 n (omega arith) (omega arith) (omega arith)).0 in
    let s = uint_to_str n 10 in
    rw small (
      length s,
      uint_to_str-length n,
      scan_number_digits s stop chs (uint_to_str-length n) (uint_to_str-IsDigit n)
            (omega (arith, value, h)) e
          ∙ ap (λ (v : ℕ). some (pos v, length s, chs)) value,
    )
scan_number_spelled (negsuc n) stop chs h e =
    let small : u32 (n + 1) ≡ n + 1 = omega arith in
    let value = (read_number-uint_to_str 10 (n + 1) (omega arith) (omega arith) (omega arith)).0 in
    let s = uint_to_str (n + 1) 10 in
    rw small (
      length s,
      uint_to_str-length (n + 1),
      scan_number_minus s stop chs (uint_to_str-IsDigit (n + 1)) (omega (arith, value, h)) e
          ∙ ap (λ (v : ℕ). some (sub_ℕ 0 v, length s, chs)) value
          ∙ ap (λ (v : ℤ). some (v, length s, chs)) (negated_suc n),
    )

-- `%d` once for each number, and the numbers spelled out, each with a character behind it.
abbrev pub conversions : List (ℤ × ℕ) → List ℕ
conversions [] = []
conversions (z ∷ zs) = b'%' ∷ b'd' ∷ conversions zs

abbrev pub spelled : List (ℤ × ℕ) → List ℕ
spelled [] = []
spelled ((z, stop) ∷ zs) = int_to_str z 10 ++ stop ∷ spelled zs

abbrev pub numbers : List (ℤ × ℕ) → List Scanned
numbers [] = []
numbers ((z, stop) ∷ zs) = number z ∷ numbers zs

-- An `int`, not the least, and a character that is no digit.
abbrev pub IsSpelled : ℤ × ℕ → Type 0
IsSpelled (z, stop) = IsReadable z × (isdigit stop ≡ false)

-- `scank` with a `%d` for each of a list of `int`s, none of them the least, reads back what `intToStr`
-- writes of them, with one character behind each that is no digit, and no number overflows: all of
-- them, as many as there are, and nothing is left.
pub scank_core-conversions :
    (dest : Mem) (zs : List (ℤ × ℕ))
    → All IsSpelled zs
    → scank_core dest (conversions zs) (spelled zs)
      ≡ some (record { count = length zs; values = numbers zs; left = [] })
unfolding scank_core
scank_core-conversions dest [] h = refl
scank_core-conversions dest ((z, stop) ∷ zs) (ok, h) =
    let (digits, some_digit, read) = scan_number_spelled z stop (spelled zs) ok.0 ok.1 in
    rw (read, ne→==_false digits 0 (omega (arith, some_digit)), scank_core-conversions dest zs h)
      (ap (λ (n : ℕ). some (record { count = n; values = number z ∷ numbers zs; left = [] }))
        (omega arith))
