-- ===== src/Keyboard/Input.antt =====
-- `fgetsk_core`, `scankCore` and `sscank` of src/keyboard.c. What `getc` returns one call after the
-- other is a list of bytes, with -1 at its end; the byte 0xFF is -1 as a `signed char` too.
pub mod Edit
pub mod Numbers
use ios.Prelude.{
  ℕ, zero, suc, ◌+◌, ◌-◌, ◌*◌, Bool, true, false, not, ◌&&◌, ◌||◌, List, [], ◌∷◌, ◌++◌, ltb, leb,
  Option, none, some, ◌^◌, ◌==◌, if◌then◌else◌, ℤ, pos, negsuc, sub_ℕ,
}
use mathlib.Core.Option.{map}
use ios.Mem.{Mem, store}
use ios.Text.{isdigit}

-- What `fgetsk_core` returns, its buffer, what it put on the screen, and the bytes that are left.
pub record Line : Type 0 where
  pub count : ℕ
  pub buf : Mem
  pub shown : List ℕ
  pub left : List ℕ

abbrev line_done : ℕ → Mem → List ℕ → Line
line_done i buf left = record { count = i; buf = store buf i 0; shown = []; left = left }

abbrev showing : List ℕ → Line → Line
showing cs l = record l { shown = cs ++ l.shown }

-- The loop; `last` is `size - 1`.
unfoldable pub fgetsk_loop : ℕ → ℕ → Mem → List ℕ → Line
fgetsk_loop last i buf [] = line_done i buf []
fgetsk_loop last i buf (ch ∷ chs) =
    let same = fgetsk_loop last i buf chs in
    let erased = showing (8 ∷ b' ' ∷ 8 ∷ []) (fgetsk_loop last (i - 1) buf chs) in
    let longer = fgetsk_loop last (i + 1) (store buf i ch) chs in
    if leb last i
    then line_done i buf (ch ∷ chs)
    else if ch == 0xFF
    then line_done i buf chs
    else if ch == 10
    then showing (10 ∷ []) (line_done i buf chs)
    else if ch == 8
    then (if i == 0 then same else erased)
    else longer

-- `size` is not negative here; the buffer is left alone when it is 0.
unfoldable pub fgetsk_core : Mem → ℕ → List ℕ → Line
fgetsk_core buf zero chs = record { count = 0; buf = buf; shown = []; left = chs }
fgetsk_core buf (suc last) chs = fgetsk_loop last 0 buf chs

-- What a conversion stored.
pub data Scanned : Type 0 where
  text : Mem → Scanned
  number : ℤ → Scanned

pub record Scan : Type 0 where
  pub count : ℕ
  pub values : List Scanned
  pub left : List ℕ

-- One character of `%s` that does not end it: the text and the position of `arg` in it.
unfoldable pub text_step : Mem → ℕ → ℕ → Mem × ℕ
text_step str arg ch =
    if ch == b' '
    then (if arg == 0 then (str, arg) else (store str arg 0, arg + 1))
    else if ch == 8
    then (store str arg 0, arg - 1)
    else (store str arg ch, arg + 1)

-- The loop of `%s`.
unfoldable pub scan_text : Mem → ℕ → List ℕ → Mem × List ℕ
scan_text str arg [] = (store str arg 0, [])
scan_text str arg (ch ∷ chs) =
    let step = text_step str arg ch in
    let rest = scan_text step.0 step.1 chs in
    if ch == 0xFF || ch == 10 || ch == 13 then (store str arg 0, chs) else rest

-- The loop of `%d`: the value, the number of digits, and what is left behind the character that
-- ended it. The value is an `int`: `none` where it overflows, which C leaves undefined.
unfoldable pub scan_digits : ℕ → ℕ → List ℕ → Option (ℕ × ℕ × List ℕ)
scan_digits value digits [] = some (value, digits, [])
scan_digits value digits (ch ∷ chs) =
    let next = value * 10 + (ch - b'0') in
    let rest = scan_digits next (digits + 1) chs in
    if isdigit ch then (if ltb next (2 ^ 31) then rest else none) else some (value, digits, chs)

abbrev signed : Bool → ℕ × ℕ × List ℕ → ℤ × ℕ × List ℕ
signed true (value, digits, left) = (sub_ℕ 0 value, digits, left)
signed false (value, digits, left) = (pos value, digits, left)

unfoldable pub scan_number : List ℕ → Option (ℤ × ℕ × List ℕ)
scan_number [] = some (pos 0, 0, [])
scan_number (ch ∷ chs) =
    if ch == b'-'
    then map (signed true) (scan_digits 0 0 chs)
    else map (signed false) (scan_digits 0 0 (ch ∷ chs))

abbrev stopped : List ℕ → Scan
stopped chs = record { count = 0; values = []; left = chs }

-- One more conversion before the rest.
abbrev counted : Scanned → Scan → Scan
counted v s = record { count = s.count + 1; values = v ∷ s.values; left = s.left }

-- `ch != *fmt` ends the loop; past the input stands -1.
abbrev matches : ℕ → List ℕ → Bool
matches f [] = false
matches f (ch ∷ chs) = ch == f && not (ch == 0xFF)

abbrev after_char : List ℕ → List ℕ
after_char [] = []
after_char (ch ∷ chs) = chs

-- `scankCore` from a place in the format, `none` where a number overflows; `dest` is what the
-- destination of a `%s` holds before. A format does not end in a lone `%`.
unfoldable pub scank_core : Mem → List ℕ → List ℕ → Option Scan
scank_core dest [] chs = some (stopped chs)
scank_core dest (f ∷ []) chs = some (stopped (if f == b'%' then chs else after_char chs))
scank_core dest (f ∷ g ∷ fmt) chs =
    let words = scan_text dest 0 chs in
    let after_words = map (counted (text words.0)) (scank_core dest fmt words.1) in
    let other = scank_core dest fmt chs in
    let literal = scank_core dest (g ∷ fmt) (after_char chs) in
    if f == b'%'
    then (if g == b's'
        then after_words
        else if g == b'd'
        then elim (scan_number chs) [
          | none ↦ none
          | some (value, digits, left) ↦
              if digits == 0
              then some (stopped left)
              else map (counted (number value)) (scank_core dest fmt left)
        ]
        else other)
    else if matches f chs
    then literal
    else some (stopped (after_char chs))
