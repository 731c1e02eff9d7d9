-- ===== src/Keyboard/Presses.antt =====
-- `getCharEx` of src/keyboard.c on the codes that a keyboard sends.
use ios.Prelude.{
  ℕ, ◌+◌, ◌<◌, ◌≤◌, ◌≡◌, ◌≢◌, Bool, true, false, not, ◌&&◌, ◌||◌, List, [], ◌∷◌, ◌++◌, Option, none,
  some, ◌==◌, refl, arith, All, ap, ◌∙◌,
}
use ios.Bits.{every_below, every_below_sound}
use ios.Keyboard.{
  code_to_char, Round, again, key, plain_round, extended_round, key_round, Read, get_char_ex,
  key_up, key_down, key_left, key_right, key_home, key_end, key_del, is_shift_press,
}

-- The keys that successive calls of `getCharEx` return, up to the end of the codes.
unfoldable pub read_keys : Bool → Bool → List ℕ → List ℕ
read_keys g_shift prefixed [] = []
read_keys g_shift prefixed (code ∷ codes) = elim (key_round g_shift prefixed code) [
  | again g_shift' prefixed' ↦ read_keys g_shift' prefixed' codes
  | key ch ↦ ch ∷ read_keys g_shift false codes
]

abbrev pub then_read : Option Read → List ℕ
then_read none = []
then_read (some r) = r.char ∷ read_keys r.shift false r.codes

pub read_keys-get_char_ex :
    (g_shift prefixed : Bool) (codes : List ℕ)
    → read_keys g_shift prefixed codes ≡ then_read (get_char_ex g_shift prefixed codes)
unfolding read_keys get_char_ex
read_keys-get_char_ex g_shift prefixed [] = refl
read_keys-get_char_ex g_shift prefixed (code ∷ codes) =
    elim (key_round g_shift prefixed code)
      as (λ (r : Round).
        (elim r [
          | again g_shift' prefixed' ↦ read_keys g_shift' prefixed' codes
          | key ch ↦ ch ∷ read_keys g_shift false codes
        ])
        ≡ then_read (elim r [
          | again g_shift' prefixed' ↦ get_char_ex g_shift' prefixed' codes
          | key ch ↦ some (record { char = ch; shift = g_shift; codes = codes })
        ])) [
          | again g_shift' prefixed' ↦ read_keys-get_char_ex g_shift' prefixed' codes
          | key ch ↦ refl
        ]

-- The keys of the block between the letters and the number pad.
pub data Cursor : Type 0 where
  up down left right home end del : Cursor

abbrev cursor_code : Cursor → ℕ
cursor_code up = 0x48
cursor_code down = 0x50
cursor_code left = 0x4B
cursor_code right = 0x4D
cursor_code home = 0x47
cursor_code end = 0x4F
cursor_code del = 0x53

abbrev cursor_key : Cursor → ℕ
cursor_key up = key_up
cursor_key down = key_down
cursor_key left = key_left
cursor_key right = key_right
cursor_key home = key_home
cursor_key end = key_end
cursor_key del = key_del

-- A key that is pressed and let go, with the left or right shift held or not.
pub data Press : Type 0 where
  letter : ℕ → Press
  shifted left_shifted : ℕ → Press
  cursor : Cursor → Press

-- Set 1 of the scan codes: a key's code when it goes down, with bit 7 set when it comes up.
abbrev pub codes_of : Press → List ℕ
codes_of (letter code) = code ∷ (code + 0x80) ∷ []
codes_of (shifted code) = 0x36 ∷ code ∷ (code + 0x80) ∷ 0xB6 ∷ []
codes_of (left_shifted code) = 0x2A ∷ code ∷ (code + 0x80) ∷ 0xAA ∷ []
codes_of (cursor c) = 0xE0 ∷ cursor_code c ∷ 0xE0 ∷ (cursor_code c + 0x80) ∷ []

abbrev pub key_of : Press → ℕ
key_of (letter code) = code_to_char false code
key_of (shifted code) = code_to_char true code
key_of (left_shifted code) = code_to_char true code
key_of (cursor c) = cursor_key c

-- The key has a character.
abbrev pub HasChar : Press → Type 0
HasChar (letter code) = code_to_char false code ≢ 0
HasChar (shifted code) = code_to_char true code ≢ 0
HasChar (left_shifted code) = code_to_char true code ≢ 0
HasChar (cursor c) = Unit {0}

abbrev pub all_codes : List Press → List ℕ
all_codes [] = []
all_codes (p ∷ ps) = codes_of p ++ all_codes ps

abbrev pub all_keys : List Press → List ℕ
all_keys [] = []
all_keys (p ∷ ps) = key_of p ∷ all_keys ps

-- A code that stands for a character is the code of a key that is not a shift key.
char_table :
    (g_shift : Bool)
    → every_below 0x3A
        (λ code. code_to_char g_shift code == 0 || not (is_shift_press code) && not (code == 0))
      ≡ true
unfolding every_below code_to_char
char_table true = refl
char_table false = refl

code_to_char_past : (g_shift : Bool) (code : ℕ) → 0x3A ≤ code → code_to_char g_shift code ≡ 0
unfolding code_to_char
code_to_char_past g_shift code h = ground arith

char_range :
    (g_shift : Bool) (code : ℕ)
    → code_to_char g_shift code ≢ 0
    → (1 ≤ code) × (code < 0x3A) × (code ≢ 0x2A) × (code ≢ 0x36)
char_range g_shift code some_char =
    let low : code < 0x3A = ground (arith, code_to_char_past g_shift code) in
    ground (arith, every_below_sound 0x3A _ code (char_table g_shift) low)

down_round :
    (g_shift : Bool) (code : ℕ)
    → code_to_char g_shift code ≢ 0
    → (1 ≤ code) × (code < 0x3A) × (code ≢ 0x2A) × (code ≢ 0x36)
    → key_round g_shift false code ≡ key (code_to_char g_shift code)
unfolding key_round plain_round
down_round g_shift code some_char range = ground arith

up_round :
    (g_shift : Bool) (code : ℕ)
    → code < 0x3A
    → code ≢ 0x2A
    → code ≢ 0x36
    → key_round g_shift false (code + 0x80) ≡ again g_shift false
unfolding key_round plain_round
up_round g_shift code low no_left no_right = ground arith

-- Going down, and coming up.
read_down :
    (g_shift : Bool) (code : ℕ) (rest : List ℕ)
    → code_to_char g_shift code ≢ 0
    → read_keys g_shift false (code ∷ rest)
      ≡ code_to_char g_shift code ∷ read_keys g_shift false rest
unfolding read_keys
read_down g_shift code rest some_char =
    rw (read_keys, down_round g_shift code some_char (char_range g_shift code some_char)) refl

read_up :
    (g_shift : Bool) (code : ℕ) (rest : List ℕ)
    → code < 0x3A
    → code ≢ 0x2A
    → code ≢ 0x36
    → read_keys g_shift false ((code + 0x80) ∷ rest) ≡ read_keys g_shift false rest
unfolding read_keys
read_up g_shift code rest low no_left no_right =
    rw (read_keys, up_round g_shift code low no_left no_right) refl

read_letter :
    (g_shift : Bool) (code : ℕ) (rest : List ℕ)
    → code_to_char g_shift code ≢ 0
    → read_keys g_shift false (code ∷ (code + 0x80) ∷ rest)
      ≡ code_to_char g_shift code ∷ read_keys g_shift false rest
read_letter g_shift code rest some_char =
    let (some_code, low, no_left, no_right) = char_range g_shift code some_char in
    read_down g_shift code ((code + 0x80) ∷ rest) some_char
    ∙ ap (λ (ks : List ℕ). code_to_char g_shift code ∷ ks)
        (read_up g_shift code rest low no_left no_right)

read_press :
    (p : Press) (rest : List ℕ)
    → HasChar p
    → read_keys false false (codes_of p ++ rest) ≡ key_of p ∷ read_keys false false rest
read_press (letter code) rest some_char = read_letter false code rest some_char
read_press (shifted code) rest some_char =
    unfold read_keys key_round plain_round in read_letter true code (0xB6 ∷ rest) some_char
read_press (left_shifted code) rest some_char =
    unfold read_keys key_round plain_round in read_letter true code (0xAA ∷ rest) some_char
read_press (cursor c) rest h = read_cursor c rest
  where
    read_cursor :
        (c : Cursor) (rest : List ℕ)
        → read_keys false false (codes_of (cursor c) ++ rest)
          ≡ cursor_key c ∷ read_keys false false rest
    read_cursor up rest = unfold read_keys key_round extended_round plain_round in refl
    read_cursor _ rest = unfold read_keys key_round extended_round plain_round in refl

-- Keys that are pressed and let go one after the other, with a shift key held or not, come out of
-- `getCharEx` one by one: each key that has a character as that character, the shifted one with a
-- shift key held, and each cursor key as its KEY_ number. The codes of letting go give no key.
pub read_keys-all_codes :
    (ps : List Press) → All HasChar ps → read_keys false false (all_codes ps) ≡ all_keys ps
read_keys-all_codes [] h = unfold read_keys in refl
read_keys-all_codes (p ∷ ps) (some_char, h) =
    read_press p (all_codes ps) some_char
    ∙ ap (λ (ks : List ℕ). key_of p ∷ ks) (read_keys-all_codes ps h)
