-- ===== src/Keyboard.antt =====
-- src/keyboard.c: scan codes to characters and keys. The codes that the port delivers are a list,
-- `g_shift` is a Boolean argument; `none` means that the list ends while the function still waits.
-- What `msg_poll` does while `readKeyData` waits is in Msg.
pub mod Presses
pub mod Input
mod Tests
use ios.Prelude.{
  ℕ, zero, suc, ◌+◌, ◌-◌, Bool, true, false, not, ◌&&◌, ◌||◌, List, [], ◌∷◌, Option, none, some,
  ltb, leb, ◌==◌, if◌then◌else◌, get_or,
}

abbrev pub key_up : ℕ
key_up = 256

abbrev pub key_down : ℕ
key_down = 257

abbrev pub key_left : ℕ
key_left = 258

abbrev pub key_right : ℕ
key_right = 259

abbrev pub key_home : ℕ
key_home = 260

abbrev pub key_end : ℕ
key_end = 261

abbrev pub key_del : ℕ
key_del = 262

-- The array of `codeToChar` as far as its test lets codes through, 0x00 to 0x39.
abbrev pub scan_code_map : List ℕ
scan_code_map =
    0 ∷ 0 ∷ b'1' ∷ b'2' ∷ b'3' ∷ b'4' ∷ b'5' ∷ b'6' ∷ b'7' ∷ b'8' ∷ b'9' ∷ b'0' ∷ b'-' ∷ b'=' ∷ 8
    ∷ 0 ∷ b'q' ∷ b'w' ∷ b'e' ∷ b'r' ∷ b't' ∷ b'y' ∷ b'u' ∷ b'i' ∷ b'o' ∷ b'p' ∷ b'[' ∷ b']' ∷ 10 ∷ 0
    ∷ b'a' ∷ b's' ∷ b'd' ∷ b'f' ∷ b'g' ∷ b'h' ∷ b'j' ∷ b'k' ∷ b'l' ∷ b';' ∷ 39 ∷ b'`' ∷ 0 ∷ 92
    ∷ b'z' ∷ b'x' ∷ b'c' ∷ b'v' ∷ b'b' ∷ b'n' ∷ b'm' ∷ b',' ∷ b'.' ∷ b'/' ∷ 0 ∷ b'*' ∷ 0 ∷ b' ' ∷ []

-- The cases of the switch with shift, from code 0x02 on; 0 stands for the default.
abbrev pub shift_map : List ℕ
shift_map =
    b'!' ∷ b'@' ∷ b'#' ∷ b'$' ∷ b'%' ∷ b'^' ∷ b'&' ∷ b'*' ∷ b'(' ∷ b')' ∷ b'_' ∷ b'+' ∷ 0 ∷ 0 ∷ b'Q'
    ∷ b'W' ∷ b'E' ∷ b'R' ∷ b'T' ∷ b'Y' ∷ b'U' ∷ b'I' ∷ b'O' ∷ b'P' ∷ b'{' ∷ b'}' ∷ 0 ∷ 0 ∷ b'A'
    ∷ b'S' ∷ b'D' ∷ b'F' ∷ b'G' ∷ b'H' ∷ b'J' ∷ b'K' ∷ b'L' ∷ b':' ∷ 34 ∷ b'~' ∷ 0 ∷ b'|' ∷ b'Z'
    ∷ b'X' ∷ b'C' ∷ b'V' ∷ b'B' ∷ b'N' ∷ b'M' ∷ b'<' ∷ b'>' ∷ b'?' ∷ []

-- `codeToChar`
unfoldable pub code_to_char : Bool → ℕ → ℕ
code_to_char g_shift scan_code =
    let plain = get_or scan_code_map scan_code 0 in
    let shifted = get_or shift_map (scan_code - 2) 0 in
    if leb 0x02 scan_code && leb scan_code 0x39
    then (if g_shift && not (shifted == 0) then shifted else plain)
    else 0

abbrev is_shift_press : ℕ → Bool
is_shift_press code = code == 0x2A || code == 0x36

abbrev is_shift_release : ℕ → Bool
is_shift_release code = code == 0xAA || code == 0xB6

-- What one round of the loop comes to: on with a shift state, and, in `getCharEx`, after 0xE0 or
-- not; or a character.
pub data Round : Type 0 where
  again : Bool → Bool → Round
  key : ℕ → Round

-- The round for a code that is not 0xE0; `code & 0x80` is not zero from 0x80 on.
unfoldable pub plain_round : Bool → ℕ → Round
plain_round g_shift code =
    let ch = code_to_char g_shift code in
    if is_shift_press code
    then again true false
    else if is_shift_release code
    then again false false
    else if leb 0x80 code || code == 0 || ch == 0
    then again g_shift false
    else key ch

-- The switch after 0xE0.
unfoldable pub extended_round : Bool → ℕ → Round
extended_round g_shift code =
    if code == 0x48
    then key key_up
    else if code == 0x50
    then key key_down
    else if code == 0x4B
    then key key_left
    else if code == 0x4D
    then key key_right
    else if code == 0x47
    then key key_home
    else if code == 0x4F
    then key key_end
    else if code == 0x53
    then key key_del
    else again g_shift false

-- One code in `getCharEx`; `prefixed` stands for the wait in its inner `readKeyData`.
unfoldable pub key_round : Bool → Bool → ℕ → Round
key_round g_shift true code = extended_round g_shift code
key_round g_shift false code = if code == 0xE0 then again g_shift true else plain_round g_shift code

-- A character, the shift state after it, and the codes that are left.
pub record Read : Type 0 where
  pub char : ℕ
  pub shift : Bool
  pub codes : List ℕ

unfoldable pub get_char_ex : Bool → Bool → List ℕ → Option Read
get_char_ex g_shift prefixed [] = none
get_char_ex g_shift prefixed (code ∷ codes) = elim (key_round g_shift prefixed code) [
  | again g_shift' prefixed' ↦ get_char_ex g_shift' prefixed' codes
  | key ch ↦ some (record { char = ch; shift = g_shift; codes = codes })
]

-- `getChar`, which has no case for 0xE0; every character but '\b' is put on the screen as well.
unfoldable pub get_char : Bool → List ℕ → Option (Read × List ℕ)
get_char g_shift [] = none
get_char g_shift (code ∷ codes) = elim (plain_round g_shift code) [
  | again g_shift' prefixed ↦ get_char g_shift' codes
  | key ch ↦
      some (record { char = ch; shift = g_shift; codes = codes }, if ch == 8 then [] else ch ∷ [])
]
