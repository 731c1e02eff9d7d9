-- ===== src/Text.antt =====
-- src/framework/string.c over memory: a string is the bytes of an object up to its first zero.
-- A string that is only read is the list of those bytes, as `unsigned char`; what is written is
-- memory. `none` of `atoi` is a signed overflow, which C leaves undefined.
pub mod Digits
pub mod Compare
pub mod Numbers
pub mod Printk
mod Tests
use ios.Prelude.{
  ℕ, zero, suc, ◌+◌, ◌-◌, ◌*◌, ◌/◌, ◌%◌, ◌^◌, Bool, true, false, not, ◌&&◌, ◌||◌, List, [], ◌∷◌,
  Option, none, some, ltb, leb, ◌==◌, if◌then◌else◌, u8, u32, u64, ℤ, pos, negsuc, sub_ℕ, get_or,
}
use mathlib.Core.Option.{map}
use ios.Mem.{Mem, store}

-- DIGITS
abbrev pub digit : ℕ → ℕ
digit d =
    get_or
      (b'0' ∷ b'1' ∷ b'2' ∷ b'3' ∷ b'4' ∷ b'5' ∷ b'6' ∷ b'7' ∷ b'8' ∷ b'9' ∷ b'a' ∷ b'b' ∷ b'c'
        ∷ b'd' ∷ b'e' ∷ b'f' ∷ [])
      d 0

-- `buf[0 .. i)`: the digits of `value`, lowest first, in at most `len` rounds.
pub digits_of : ℕ → ℕ → ℕ → List ℕ
digits_of zero base value = []
digits_of (suc len) base value =
    let rest = digits_of len base (value / base) in
    if value == 0 then [] else digit (value % base) ∷ rest

-- The second loop, the digits put in front of what is already written, highest first.
pub reversed_onto : List ℕ → List ℕ → List ℕ
reversed_onto [] acc = acc
reversed_onto (x ∷ xs) acc = reversed_onto xs (x ∷ acc)

-- The text that `uintToStr` leaves in the buffer, without its terminator. 32 is `len`.
pub uint_to_str : ℕ → ℕ → List ℕ
uint_to_str value base =
    if ltb base 2 || ltb 16 base
    then []
    else if value == 0
    then b'0' ∷ []
    else reversed_onto (digits_of 32 base value) []

pub ulong_to_str : ℕ → ℕ → List ℕ
ulong_to_str value base =
    if ltb base 2 || ltb 16 base
    then []
    else if value == 0
    then b'0' ∷ []
    else reversed_onto (digits_of 64 base value) []

-- `0u - (uint32_t)value` of a negative value -(n + 1) is n + 1.
unfoldable pub int_to_str : ℤ → ℕ → List ℕ
int_to_str (pos n) base = uint_to_str (u32 n) base
int_to_str (negsuc n) base = b'-' ∷ uint_to_str (u32 (n + 1)) base

pub long_to_str : ℤ → ℕ → List ℕ
long_to_str (pos n) base = ulong_to_str (u64 n) base
long_to_str (negsuc n) base = b'-' ∷ ulong_to_str (u64 (n + 1)) base

-- The bytes at a pointer into a string: past the last byte stands the terminator.
abbrev pub head_byte : List ℕ → ℕ
head_byte [] = 0
head_byte (c ∷ s) = c

abbrev pub tail_bytes : List ℕ → List ℕ
tail_bytes [] = []
tail_bytes (c ∷ s) = s

unfoldable pub strcmp : List ℕ → List ℕ → ℤ
strcmp [] t = sub_ℕ 0 (head_byte t)
strcmp (c ∷ s) [] = sub_ℕ c 0
strcmp (c ∷ s) (d ∷ t) = let rest = strcmp s t in if c == d then rest else sub_ℕ c d

-- `strncmp` with n bytes to go.
unfoldable pub strncmp : ℕ → List ℕ → List ℕ → ℤ
strncmp zero s t = pos 0
strncmp (suc n) s t =
    let rest = strncmp n (tail_bytes s) (tail_bytes t) in
    if head_byte s == head_byte t
    then (if head_byte s == 0 then pos 0 else rest)
    else if ltb (head_byte t) (head_byte s)
    then pos 1
    else negsuc 0

unfoldable pub strlen : List ℕ → ℕ
strlen [] = 0
strlen (c ∷ s) = suc (strlen s)

-- The position of the first `ch`, or of the terminator when that is what is looked for.
unfoldable pub strchr : List ℕ → ℕ → ℕ → Option ℕ
strchr [] ch i = if ch == 0 then some i else none
strchr (c ∷ s) ch i = let rest = strchr s ch (i + 1) in if c == ch then some i else rest

-- Copies to offset `d` of `dest`, the terminator included.
unfoldable pub strcpy : Mem → ℕ → List ℕ → Mem
strcpy dest d [] = store dest d 0
strcpy dest d (c ∷ s) = strcpy (store dest d c) (d + 1) s

-- `room` bounds the walk to the end of the string at `d`.
unfoldable pub strcat : ℕ → Mem → ℕ → List ℕ → Mem
strcat zero dest d src = dest
strcat (suc room) dest d src =
    let rest = strcat room dest (d + 1) src in if dest d == 0 then strcpy dest d src else rest

-- Both loops of `strncpy`: n bytes, the source and then zeros.
unfoldable pub strncpy : ℕ → Mem → ℕ → List ℕ → Mem
strncpy zero dest d src = dest
strncpy (suc n) dest d [] = strncpy n (store dest d 0) (d + 1) []
strncpy (suc n) dest d (c ∷ s) = strncpy n (store dest d c) (d + 1) s

unfoldable pub toupper : ℕ → ℕ
toupper c = if leb b'a' c && leb c b'z' then c - (b'a' - b'A') else c

unfoldable pub isdigit : ℕ → Bool
isdigit c = leb b'0' c && leb c b'9'

unfoldable pub isalpha : ℕ → Bool
isalpha c = (leb b'A' c && leb c b'Z') || (leb b'a' c && leb c b'z')

-- The macro of string.h: space, \t, \n, \v, \f, \r.
unfoldable pub isspace : ℕ → Bool
isspace c = c == 32 || c == 9 || c == 10 || c == 11 || c == 12 || c == 13

skip_spaces : List ℕ → List ℕ
skip_spaces [] = []
skip_spaces (c ∷ s) = let rest = skip_spaces s in if isspace c then rest else c ∷ s

-- `while (isdigit(*str)) result = result * 10 + (*str - '0');` with an `int` result.
number_loop : ℕ → List ℕ → Option ℕ
number_loop result [] = some result
number_loop result (c ∷ s) =
    let next = result * 10 + (c - b'0') in
    let rest = number_loop next s in
    if isdigit c then (if ltb next (2 ^ 31) then rest else none) else some result

-- `-1 * result`
abbrev pub negated : ℕ → ℤ
negated n = sub_ℕ 0 n

signed_number : List ℕ → Option ℤ
signed_number [] = some (pos 0)
signed_number (c ∷ s) =
    if c == b'-'
    then map negated (number_loop 0 s)
    else if c == b'+'
    then map pos (number_loop 0 s)
    else map pos (number_loop 0 (c ∷ s))

pub atoi : List ℕ → Option ℤ
atoi str = signed_number (skip_spaces str)
