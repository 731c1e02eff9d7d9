-- ===== src/Text/Numbers.antt =====
-- Reading back decimal numbers with `atoi`.
use ios.Prelude.{
  ℕ, zero, suc, ◌+◌, ◌-◌, ◌*◌, ◌/◌, ◌%◌, ◌^◌, ◌<◌, ◌≡◌, true, List, [], ◌∷◌, arith, refl, ==_iff,
  ne→==_false, u32, length, All, ℤ, pos, negsuc, ◌≤◌, lt→ltb, false, ◌==◌, some, ap, ◌∙◌,
}
use native.Mathlib.Decide.{ℕ_discrete}
use mathlib.Core.Option.{map}
use ios.Bits.{every_below, every_below_sound}
use ios.Text.{
  digit, digits_of, reversed_onto, uint_to_str, int_to_str, isdigit, isspace, skip_spaces,
  number_loop, signed_number, negated, atoi,
}
use ios.Text.Digits.{digit_value, read_number, read_number-uint_to_str, length-reversed_onto}

abbrev pub IsDigit : ℕ → Type 0
IsDigit c = isdigit c ≡ true

pub digit_value_decimal : (c : ℕ) → IsDigit c → digit_value c ≡ c - b'0'
unfolding digit_value isdigit
digit_value_decimal c h = ground arith

pub read_number_grows : (acc : ℕ) (s : List ℕ) → acc ≤ read_number 10 acc s
unfolding read_number
read_number_grows acc [] = omega arith
read_number_grows acc (c ∷ s) = omega (arith, read_number_grows (acc * 10 + digit_value c) s)

number_loop-read_number :
    (acc : ℕ) (s : List ℕ)
    → All IsDigit s
    → read_number 10 acc s < 2 ^ 31
    → number_loop acc s ≡ some (read_number 10 acc s)
unfolding number_loop read_number
number_loop-read_number acc [] h lt = refl
number_loop-read_number acc (c ∷ s) h lt =
    let next = acc * 10 + (c - b'0') in
    let same : acc * 10 + digit_value c ≡ next =
      ap (λ (d : ℕ). acc * 10 + d) (digit_value_decimal c h.0) in
    let fits : read_number 10 next s < 2 ^ 31 = rw (← same) lt in
    let small : next < 2 ^ 31 = omega (arith, fits, read_number_grows next s) in
    rw (h.0, lt→ltb next (2 ^ 31) small, same) (number_loop-read_number next s h.1 fits)

decimal_table : every_below 10 (λ d. isdigit (digit d)) ≡ true
unfolding every_below isdigit
decimal_table = refl

digits_of-IsDigit : (len v : ℕ) → All IsDigit (digits_of len 10 v)
unfolding digits_of
digits_of-IsDigit zero v = tt
digits_of-IsDigit (suc len) v = ground (
  arith,
  every_below_sound 10 _ (v % 10) decimal_table (omega arith),
  digits_of-IsDigit len (v / 10),
)

reversed_onto-IsDigit :
    (ds rest : List ℕ) → All IsDigit ds → All IsDigit rest → All IsDigit (reversed_onto ds rest)
unfolding reversed_onto
reversed_onto-IsDigit [] rest h k = k
reversed_onto-IsDigit (d ∷ ds) rest h k = reversed_onto-IsDigit ds (d ∷ rest) h.1 (h.0, k)

pub uint_to_str-IsDigit : (v : ℕ) → All IsDigit (uint_to_str v 10)
unfolding uint_to_str isdigit
uint_to_str-IsDigit v = elim (ℕ_discrete v 0) [
  | yes z ↦ rw ((==_iff _ _).1 z) (refl, tt)
  | no nz ↦
      rw (ne→==_false _ _ nz)
        (reversed_onto-IsDigit (digits_of 32 10 v) [] (digits_of-IsDigit 32 v) tt)
]

pub uint_to_str-length : (v : ℕ) → 0 < length (uint_to_str v 10)
unfolding uint_to_str digits_of
uint_to_str-length v = ground (arith, length-reversed_onto (digits_of 32 10 v) [])

plain_first :
    (c : ℕ) → IsDigit c → (isspace c ≡ false) × ((c == b'-') ≡ false) × ((c == b'+') ≡ false)
unfolding isspace isdigit
plain_first c h = (ground arith, ground arith, ground arith)

atoi_digits :
    (s : List ℕ)
    → All IsDigit s
    → read_number 10 0 s < 2 ^ 31
    → atoi s ≡ some (pos (read_number 10 0 s))
unfolding atoi skip_spaces signed_number
atoi_digits [] h lt = unfold read_number in refl
atoi_digits (c ∷ s) h lt =
    let first = plain_first c h.0 in
    rw (first.0, first.1, first.2) (ap (map pos) (number_loop-read_number 0 (c ∷ s) h lt))

atoi_minus :
    (s : List ℕ)
    → All IsDigit s
    → read_number 10 0 s < 2 ^ 31
    → atoi (b'-' ∷ s) ≡ some (negated (read_number 10 0 s))
unfolding atoi skip_spaces signed_number isspace
atoi_minus s h lt = ap (map negated) (number_loop-read_number 0 s h lt)

pub negated_suc : (n : ℕ) → negated (n + 1) ≡ negsuc n
negated_suc n = ground arith

-- The integers of an `int`.
abbrev pub IsInt : ℤ → Type 0
IsInt (pos n) = n < 2 ^ 31
IsInt (negsuc n) = n < 2 ^ 31

-- The same but for the least, whose digits are those of 2 ^ 31.
abbrev pub IsReadable : ℤ → Type 0
IsReadable (pos n) = n < 2 ^ 31
IsReadable (negsuc n) = n + 1 < 2 ^ 31

-- `atoi` reads back what `intToStr` writes in base 10 without overflowing its `int`, for every `int` but
-- the least.
pub atoi-int_to_str : (z : ℤ) → IsReadable z → atoi (int_to_str z 10) ≡ some z
unfolding int_to_str
atoi-int_to_str (pos n) h =
    let small : u32 n ≡ n = omega arith in
    let value = (read_number-uint_to_str 10 n (omega arith) (omega arith) (omega arith)).0 in
    rw small (
      atoi_digits (uint_to_str n 10) (uint_to_str-IsDigit n) (omega (arith, value, h))
      ∙ ap (λ (v : ℕ). some (pos v)) value)
atoi-int_to_str (negsuc n) h =
    let small : u32 (n + 1) ≡ n + 1 = omega arith in
    let value = (read_number-uint_to_str 10 (n + 1) (omega arith) (omega arith) (omega arith)).0 in
    rw small (
      atoi_minus (uint_to_str (n + 1) 10) (uint_to_str-IsDigit (n + 1)) (omega (arith, value, h))
      ∙ ap (λ (v : ℕ). some (negated v)) value
      ∙ ap (λ (v : ℤ). some v) (negated_suc n))
