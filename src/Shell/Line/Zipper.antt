-- ===== src/Shell/Line/Zipper.antt =====
-- What `shell_readline` of src/fs/shell.c promises: a line editor on two lists around the cursor, and
-- a history of at most sixteen lines, the last one first.
use ios.Prelude.{
  ℕ, zero, suc, ◌+◌, List, [], ◌∷◌, Option, none, some, ltb, leb, ◌==◌, if◌then◌else◌, length, take,
}
use ios.Keyboard.{key_up, key_down, key_left, key_right, key_home, key_end, key_del}
use ios.Mem.Segments.{onto}

-- The characters before the cursor, the nearest one first, and the ones behind it; how many lines
-- back the line is from, and the line that was left when going back.
pub record Zipper : Type 0 where
  pub before : List ℕ
  pub after : List ℕ
  pub back : ℕ
  pub own : List ℕ

abbrev pub zipper : List ℕ → List ℕ → ℕ → List ℕ → Zipper
zipper l r k own = record { before = l; after = r; back = k; own = own }

abbrev pub line_of : Zipper → List ℕ
line_of z = onto z.before z.after

abbrev pub line_length : Zipper → ℕ
line_length z = length z.before + length z.after

abbrev pub nth : List (List ℕ) → ℕ → Option (List ℕ)
nth [] k = none
nth (l ∷ lines) zero = some l
nth (l ∷ lines) (suc k) = nth lines k

abbrev pub backspace : Zipper → Zipper
backspace z = elim z.before [ [] ↦ z | c ∷ cs ↦ record z { before = cs } ]

abbrev pub delete : Zipper → Zipper
delete z = elim z.after [ [] ↦ z | c ∷ cs ↦ record z { after = cs } ]

abbrev pub go_left : Zipper → Zipper
go_left z = elim z.before [ [] ↦ z | c ∷ cs ↦ record z { before = cs; after = c ∷ z.after } ]

abbrev pub go_right : Zipper → Zipper
go_right z = elim z.after [ [] ↦ z | c ∷ cs ↦ record z { before = c ∷ z.before; after = cs } ]

abbrev pub go_home : Zipper → Zipper
go_home z = record z { before = []; after = line_of z }

abbrev pub go_end : Zipper → Zipper
go_end z = record z { before = onto z.after z.before; after = [] }

-- A whole line, cut to the room there is, with the cursor behind it.
abbrev pub show_line : ℕ → List ℕ → Zipper → Zipper
show_line last l z = record z { before = onto (take last l) []; after = [] }

abbrev pub older_line : ℕ → Zipper → Option (List ℕ) → Zipper
older_line last z none = z
older_line last z (some l) =
    show_line last l
      (record z { back = z.back + 1; own = if z.back == 0 then line_of z else z.own })

abbrev pub older : ℕ → List (List ℕ) → Zipper → Zipper
older last lines z = older_line last z (nth lines z.back)

abbrev pub newer_line : ℕ → ℕ → Zipper → Option (List ℕ) → Zipper
newer_line last k z none = z
newer_line last k z (some l) = show_line last l (record z { back = suc k })

abbrev pub newer_from : ℕ → List (List ℕ) → Zipper → ℕ → Zipper
newer_from last lines z zero = z
newer_from last lines z (suc zero) = show_line last z.own (record z { back = 0 })
newer_from last lines z (suc (suc k)) = newer_line last k z (nth lines k)

abbrev pub newer : ℕ → List (List ℕ) → Zipper → Zipper
newer last lines z = newer_from last lines z z.back

abbrev pub insert : ℕ → ℕ → Zipper → Zipper
insert last ch z = if leb last (line_length z) then z else record z { before = ch ∷ z.before }

-- A key that does not end the line.
unfoldable pub zipper_key : ℕ → List (List ℕ) → ℕ → Zipper → Zipper
zipper_key last lines ch z =
    if ch == 8
    then backspace z
    else if ch == key_del
    then delete z
    else if ch == key_left
    then go_left z
    else if ch == key_right
    then go_right z
    else if ch == key_home
    then go_home z
    else if ch == key_end
    then go_end z
    else if ch == key_up
    then older last lines z
    else if ch == key_down
    then newer last lines z
    else if ltb 127 ch
    then z
    else insert last ch z

-- The line that the keys give, and the keys that are left; a full line ends at once.
unfoldable pub edit_line : ℕ → List (List ℕ) → Zipper → List ℕ → Option (List ℕ × List ℕ)
edit_line last lines z [] = if leb last (line_length z) then some (line_of z, []) else none
edit_line last lines z (ch ∷ keys) =
    let rest = edit_line last lines (zipper_key last lines ch z) keys in
    if leb last (line_length z)
    then some (line_of z, ch ∷ keys)
    else if ch == 10
    then some (line_of z, keys)
    else rest

abbrev pub fresh : Zipper
fresh = record { before = []; after = []; back = 0; own = [] }

-- A line that is not empty goes to the front of the history.
abbrev pub remember : ℕ → List ℕ → List (List ℕ) → List (List ℕ)
remember most [] lines = lines
remember most (c ∷ l) lines = take most ((c ∷ l) ∷ lines)
