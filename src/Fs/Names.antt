-- ===== src/Fs/Names.antt =====
-- File names in fs.c: 8.3 names in 11 bytes, upper case, padded with spaces.
pub mod Format
use ios.Prelude.{
  ℕ, zero, suc, ◌+◌, ◌-◌, Bool, true, false, not, ◌&&◌, ◌||◌, List, [], ◌∷◌, Option, none, some,
  ltb, leb, ◌==◌, if◌then◌else◌, ℤ, pos, negsuc,
}
use ios.Mem.{Mem, store, blit, all_bytes, c_string, zeros}
use ios.Text.{strlen, strncmp, toupper, isdigit, isalpha, strncpy}
use ios.Disk.{fs_error, fs_success}
use ios.Fs.Layout.{max_entry_name_length}

-- MAX_NAME_LENGTH, the size of the arrays that names are put in.
abbrev pub max_name_length : ℕ
max_name_length = 256

-- `upper_string` from offset `o` on, with `length` bytes to go.
unfoldable pub upper_string : ℕ → ℕ → Mem → Mem
upper_string zero o str = str
upper_string (suc length) o str =
    let rest = upper_string length (o + 1) (store str o (toupper (str o))) in
    if str o == 0 then str else rest

-- The variables of the loop of `formatName`.
pub record NameState : Type 0 where
  pub extender : Bool
  pub extender_current : ℕ
  pub name_length : ℕ
  pub regular_name : Mem

abbrev pub name_start : NameState
name_start = record {
  extender = false;
  extender_current = 8;
  name_length = 0;
  regular_name = all_bytes 32;
}

-- A letter or a digit goes to the extension after a dot, and to the name before it.
unfoldable pub put_name_char : ℕ → NameState → Option NameState
put_name_char c s =
    if s.extender
    then (if leb max_entry_name_length s.extender_current
        then none
        else some (record s {
          regular_name = store s.regular_name s.extender_current c;
          extender_current = s.extender_current + 1;
        }))
    else (if leb 8 s.name_length
        then none
        else some (record s {
          regular_name = store s.regular_name s.name_length c;
          name_length = s.name_length + 1;
        }))

-- The body of the loop; `none` is the return of FS_ERROR.
unfoldable pub name_char : ℕ → NameState → Option NameState
name_char c s =
    if c == b'.'
    then (if s.extender then none else some (record s { extender = true }))
    else (if isdigit c || isalpha c then put_name_char c s else none)

unfoldable pub name_chars : List ℕ → NameState → Option NameState
name_chars [] s = some s
name_chars (c ∷ cs) s = elim (name_char c s) [ none ↦ none | some s' ↦ name_chars cs s' ]

-- After the loop: the length checks, and the copy of the 11 bytes over the name.
unfoldable pub finish_name : Mem → Option NameState → ℤ × Mem
finish_name name none = (fs_error, name)
finish_name name (some s) =
    if ltb 8 s.name_length || s.name_length == 0 || ltb 11 s.extender_current
    then (fs_error, name)
    else (fs_success, blit name 0 s.regular_name 0 max_entry_name_length)

-- One dot, or two, and spaces: what `memcpy` copies over the names "." and "..".
abbrev pub dot_name : Mem
dot_name = store (all_bytes 32) 0 b'.'

abbrev pub dotdot_name : Mem
dotdot_name = store (store (all_bytes 32) 0 b'.') 1 b'.'

abbrev zero_result : ℤ → Bool
zero_result (pos n) = n == 0
zero_result (negsuc n) = false

-- `formatName`: the status, and the array afterwards. On an error it holds the name in upper case.
unfoldable pub format_name : Mem → ℤ × Mem
format_name name =
    let text = c_string name 0 max_name_length in
    let upper = upper_string max_entry_name_length 0 name in
    if zero_result (strncmp 2 text (b'.' ∷ b'.' ∷ []))
    then (fs_success, blit name 0 dotdot_name 0 max_entry_name_length)
    else if zero_result (strncmp 1 text (b'.' ∷ []))
    then (fs_success, blit name 0 dot_name 0 max_entry_name_length)
    else finish_name upper (name_chars (c_string upper 0 (strlen text)) name_start)

-- The array that `fsLookup` looks up: the first 11 bytes of the name, formatted; an error is
-- ignored.
unfoldable pub lookup_name : List ℕ → Mem
lookup_name entry_name = (format_name (strncpy max_entry_name_length zeros 0 entry_name)).1

-- The array that `fsCreate` and `fsMkdir` store the name from, with the status of `formatName`.
pub create_name : List ℕ → ℤ × Mem
create_name entry_name = format_name (strncpy (max_name_length - 1) zeros 0 entry_name)

-- `my_strnlen`
pub my_strnlen : ℕ → ℕ → Mem → ℕ
my_strnlen zero num src = num
my_strnlen (suc left) num src =
    let rest = my_strnlen left (num + 1) src in if src num == 0 || src num == 32 then num else rest
