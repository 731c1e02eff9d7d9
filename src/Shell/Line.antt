-- ===== src/Shell/Line.antt =====
-- `shell_readline` of src/fs/shell.c: the line under edit, its cursor, and the ring of the last lines.
-- What `getCharEx` returns call after call is a list of keys; where the keys end, the call waits and
-- the result is `none`. `hist_total` stays within an `int`.
pub mod Gap
pub mod Zipper
pub mod Keys
pub mod Recall
pub mod Strings
pub mod Ring
pub mod Refinement
use ios.Prelude.{
  ℕ, zero, suc, ◌+◌, ◌-◌, ◌%◌, ◌<◌, ◌≤◌, Bool, true, false, ◌&&◌, ◌||◌, List, [], ◌∷◌, ◌++◌, Option,
  none, some, ltb, leb, ◌==◌, if◌then◌else◌, replicate,
}
use mathlib.Core.Option
use ios.Mem.{Mem, store, memcpy, c_string}
use ios.Text.{strlen}
use ios.Keyboard.{key_up, key_down, key_left, key_right, key_home, key_end, key_del}

abbrev pub hist_max : ℕ
hist_max = 16

abbrev pub hist_cmdlen : ℕ
hist_cmdlen = 1000

-- `hist_buf` and `hist_total`.
pub record History : Type 0 where
  pub hist_buf : ℕ → Mem
  pub hist_total : ℕ

-- The variables of one call, and what it put on the screen.
pub record Editor : Type 0 where
  pub buf : Mem
  pub len : ℕ
  pub cur : ℕ
  pub browse : ℕ
  pub saved : Mem
  pub saved_len : ℕ
  pub shown : List ℕ

-- The loop that takes out the character at j, with `rounds` to go.
unfoldable pub close_gap : ℕ → ℕ → Mem → Mem
close_gap zero j buf = buf
close_gap (suc rounds) j buf = close_gap rounds (j + 1) (store buf j (buf (j + 1)))

-- The loop that makes room at `cur`, from the end, with `rounds` to go.
unfoldable pub open_gap : ℕ → ℕ → Mem → Mem
open_gap zero cur buf = buf
open_gap (suc rounds) cur buf =
    open_gap rounds cur (store buf (cur + rounds + 1) (buf (cur + rounds)))

-- `putChar` of the n bytes from `from`.
unfoldable pub bytes : Mem → ℕ → ℕ → List ℕ
bytes buf from zero = []
bytes buf from (suc n) = buf from ∷ bytes buf (from + 1) n

unfoldable pub redraw_tail : Mem → ℕ → ℕ → ℕ → List ℕ
redraw_tail buf cur len blank =
    bytes buf cur (len - cur)
    ++ (if blank == 0 then [] else b' ' ∷ [])
    ++ replicate (len - cur + blank) 8

abbrev pub erasing : ℕ → List ℕ
erasing zero = []
erasing (suc n) = 8 ∷ b' ' ∷ 8 ∷ erasing n

unfoldable pub erase_line : Mem → ℕ → ℕ → List ℕ
erase_line buf cur len = bytes buf cur (len - cur) ++ erasing len

unfoldable pub press_backspace : Editor → Editor
press_backspace e =
    let cur = e.cur - 1 in
    let len = e.len - 1 in
    let buf = close_gap (len - cur) cur e.buf in
    if e.cur == 0 then e else record e {
      buf = buf;
      len = len;
      cur = cur;
      shown = e.shown ++ 8 ∷ redraw_tail buf cur len 1;
    }

unfoldable pub press_del : Editor → Editor
press_del e =
    let len = e.len - 1 in
    let buf = close_gap (len - e.cur) e.cur e.buf in
    if ltb e.cur e.len
    then record e { buf = buf; len = len; shown = e.shown ++ redraw_tail buf e.cur len 1 }
    else e

unfoldable pub press_left : Editor → Editor
press_left e = if e.cur == 0 then e else record e { cur = e.cur - 1; shown = e.shown ++ 8 ∷ [] }

unfoldable pub press_right : Editor → Editor
press_right e =
    if ltb e.cur e.len then record e { cur = e.cur + 1; shown = e.shown ++ e.buf e.cur ∷ [] } else e

unfoldable pub press_home : Editor → Editor
press_home e = record e { cur = 0; shown = e.shown ++ replicate e.cur 8 }

unfoldable pub press_end : Editor → Editor
press_end e = record e { cur = e.len; shown = e.shown ++ bytes e.buf e.cur (e.len - e.cur) }

-- `src` and `slen`: the line that `browse` names.
unfoldable pub recalled : History → Editor → Mem × ℕ
recalled h e =
    let slot = h.hist_buf (e.browse % hist_max) in
    if e.browse == h.hist_total
    then (e.saved, e.saved_len)
    else (slot, strlen (c_string slot 0 hist_cmdlen))

-- `if (slen >= size) slen = size - 1;`
unfoldable pub cut_length : ℕ → ℕ → ℕ
cut_length size slen = if leb size slen then size - 1 else slen

-- That line takes the place of the one on the screen.
unfoldable pub show_text : ℕ → Mem × ℕ → Editor → Editor
show_text size (src, slen) e =
    let len = cut_length size slen in
    let buf = memcpy e.buf 0 src 0 len in
    record e {
      buf = buf;
      len = len;
      cur = len;
      shown = e.shown ++ erase_line e.buf e.cur e.len ++ bytes buf 0 len;
    }

unfoldable pub recall : History → ℕ → Editor → Editor
recall h size e = show_text size (recalled h e) e

-- Leaving the line that is typed keeps it.
unfoldable pub save_line : History → Editor → Editor
save_line h e =
    if e.browse == h.hist_total
    then record e { saved = store (memcpy e.saved 0 e.buf 0 e.len) e.len 0; saved_len = e.len }
    else e

unfoldable pub press_up : History → ℕ → Editor → Editor
press_up h size e =
    let saving = save_line h e in
    if leb e.browse (h.hist_total - hist_max)
    then e
    else recall h size (record saving { browse = saving.browse - 1 })

unfoldable pub press_down : History → ℕ → Editor → Editor
press_down h size e =
    if leb h.hist_total e.browse then e else recall h size (record e { browse = e.browse + 1 })

unfoldable pub type_char : ℕ → ℕ → Editor → Editor
type_char size ch e =
    let buf = store (open_gap (e.len - e.cur) e.cur e.buf) e.cur ch in
    let len = e.len + 1 in
    let cur = e.cur + 1 in
    if leb (size - 1) e.len then e else record e {
      buf = buf;
      len = len;
      cur = cur;
      shown = e.shown ++ bytes buf e.cur (len - e.cur) ++ replicate (len - cur) 8;
    }

-- One round of the loop, on a key that does not end the line.
unfoldable pub edit_key : History → ℕ → ℕ → Editor → Editor
edit_key h size ch e =
    if ch == 8
    then press_backspace e
    else if ch == key_del
    then press_del e
    else if ch == key_left
    then press_left e
    else if ch == key_right
    then press_right e
    else if ch == key_home
    then press_home e
    else if ch == key_end
    then press_end e
    else if ch == key_up
    then press_up h size e
    else if ch == key_down
    then press_down h size e
    else if ltb 127 ch
    then e
    else type_char size ch e

-- The loop: the line when it ends, and the keys that are left.
unfoldable pub readline_loop : History → ℕ → Editor → List ℕ → Option (Editor × List ℕ)
readline_loop h size e [] = if leb (size - 1) e.len then some (e, []) else none
readline_loop h size e (ch ∷ keys) =
    let rest = readline_loop h size (edit_key h size ch e) keys in
    if leb (size - 1) e.len
    then some (e, ch ∷ keys)
    else if ch == 10
    then some (record e { shown = e.shown ++ 10 ∷ [] }, keys)
    else rest

-- What a call leaves.
pub record Readline : Type 0 where
  pub len : ℕ
  pub buf : Mem
  pub history : History
  pub shown : List ℕ
  pub keys : List ℕ

-- What stands behind the loop.
unfoldable pub end_line : History → Editor × List ℕ → Readline
end_line h (e, keys) =
    let buf = store e.buf e.len 0 in
    let slot = h.hist_total % hist_max in
    let line = memcpy (h.hist_buf slot) 0 buf 0 (e.len + 1) in
    record {
      len = e.len;
      buf = buf;
      history = if e.len == 0 then h else record {
        hist_buf = λ k. if k == slot then line else h.hist_buf k;
        hist_total = h.hist_total + 1;
      };
      shown = e.shown;
      keys = keys;
    }

-- `saved` is what the array of the call holds before.
unfoldable pub start_line : History → Mem → Mem → Editor
start_line h buf saved = record {
  buf = buf;
  len = 0;
  cur = 0;
  browse = h.hist_total;
  saved = store saved 0 0;
  saved_len = 0;
  shown = [];
}

unfoldable pub shell_readline : History → Mem → ℕ → Mem → List ℕ → Option Readline
shell_readline h buf size saved keys =
    Option.map (end_line h) (readline_loop h size (start_line h buf saved) keys)
