-- ===== src/Fs/Names/Format.antt =====
-- What `formatName` accepts and writes.
use ios.Prelude.{
  ℕ, ◌+◌, ◌-◌, ◌<◌, ◌≤◌, ◌≡◌, ◌≢◌, true, false, ◌||◌, List, [], ◌∷◌, Option, none, some, ◌⊎◌, arith,
  refl, ℤ, pos, negsuc, Option-cases, inl, inr,
}
use mathlib.Core.Path.{subst}
use ios.Mem.{Mem, store, blit, c_string}
use ios.Text.{isdigit, isalpha, strlen, strncmp}
use ios.Disk.{fs_success}
use ios.Fs.Layout.{max_entry_name_length}
use ios.Fs.Names.{
  NameState, name_start, name_char, put_name_char, name_chars, finish_name, format_name,
  upper_string, zero_result, max_name_length,
}

-- A byte of a name that the loop keeps.
abbrev pub IsNameChar : ℕ → Type 0
IsNameChar c = (isdigit c || isalpha c) ≡ true

-- The loop's variables stay in range, and the 11 bytes are name characters where they were stored,
-- and spaces elsewhere.
pub record IsNameState (s : NameState) : Type 0 where
  pub name_fits : s.name_length ≤ 8
  pub extender_low : 8 ≤ s.extender_current
  pub extender_fits : s.extender_current ≤ 11
  pub no_extender : s.extender ≡ false → s.extender_current ≡ 8
  pub name_part : (j : ℕ) → j < s.name_length → IsNameChar (s.regular_name j)
  pub name_pad : (j : ℕ) → s.name_length ≤ j → j < 8 → s.regular_name j ≡ 32
  pub extender_part : (j : ℕ) → 8 ≤ j → j < s.extender_current → IsNameChar (s.regular_name j)
  pub extender_pad : (j : ℕ) → s.extender_current ≤ j → s.regular_name j ≡ 32

name_start-IsNameState : IsNameState name_start
name_start-IsNameState = record {
  name_fits = omega arith;
  extender_low = omega arith;
  extender_fits = omega arith;
  no_extender = λ e. refl;
  name_part = λ j lt. absurd (omega arith);
  name_pad = λ j a b. refl;
  extender_part = λ j a b. absurd (omega arith);
  extender_pad = λ j a. refl;
}

put_name_char-IsNameState :
    (c : ℕ) (s s' : NameState)
    → IsNameState s
    → IsNameChar c
    → put_name_char c s ≡ some s'
    → IsNameState s'
unfolding put_name_char store
put_name_char-IsNameState c s s' v k e = record {
  name_fits = ground (arith, v.name_fits);
  extender_low = ground (arith, v.extender_low);
  extender_fits = ground (arith, v.extender_fits);
  no_extender = ground (arith, v.no_extender);
  name_part = λ j lt. ground (arith, v.name_part j, v.name_fits, v.extender_low);
  name_pad = λ j a b. ground (arith, v.name_pad j, v.extender_low);
  extender_part = λ j a b. ground (arith, v.extender_part j, v.name_fits, v.no_extender);
  extender_pad =
      λ j a. ground (arith, v.extender_pad j, v.name_fits, v.no_extender, v.extender_low);
}

extender_seen-IsNameState :
    (s : NameState) → IsNameState s → IsNameState (record s { extender = true })
extender_seen-IsNameState s v = record {
  name_fits = v.name_fits;
  extender_low = v.extender_low;
  extender_fits = v.extender_fits;
  no_extender = λ e. absurd (cc);
  name_part = v.name_part;
  name_pad = v.name_pad;
  extender_part = v.extender_part;
  extender_pad = v.extender_pad;
}

name_char-IsNameState :
    (c : ℕ) (s s' : NameState) → IsNameState s → name_char c s ≡ some s' → IsNameState s'
unfolding name_char
name_char-IsNameState c s s' v e =
    ground (arith, put_name_char-IsNameState c s s' v, extender_seen-IsNameState s v)

name_chars-IsNameState :
    (cs : List ℕ) (s s' : NameState) → IsNameState s → name_chars cs s ≡ some s' → IsNameState s'
unfolding name_chars
name_chars-IsNameState [] s s' v e = ground (arith)
name_chars-IsNameState (c ∷ cs) s s' v e = elim (Option-cases (name_char c s)) [
  | inl none_eq ↦ ground (arith)
  | inr (s₁, some_eq) ↦
      name_chars-IsNameState cs s₁ s' (name_char-IsNameState c s s₁ v some_eq) (ground (arith))
]

-- An 8.3 name: 1 to 8 letters or digits, then spaces up to byte 8; at most 3 letters or digits, then
-- spaces up to byte 11.
pub record IsEntryName (entry_name : Mem) : Type 0 where
  pub base_length : ℕ
  pub extension_length : ℕ
  pub base_some : 1 ≤ base_length
  pub base_fits : base_length ≤ 8
  pub extension_fits : extension_length ≤ 3
  pub base : (j : ℕ) → j < base_length → IsNameChar (entry_name j)
  pub base_pad : (j : ℕ) → base_length ≤ j → j < 8 → entry_name j ≡ 32
  pub extension : (j : ℕ) → j < extension_length → IsNameChar (entry_name (8 + j))
  pub extension_pad : (j : ℕ) → extension_length ≤ j → j < 3 → entry_name (8 + j) ≡ 32

state-IsEntryName :
    (name : Mem) (s : NameState)
    → IsNameState s
    → 1 ≤ s.name_length
    → IsEntryName (blit name 0 s.regular_name 0 11)
unfolding blit
state-IsEntryName name s v some_name = record {
  base_length = s.name_length;
  extension_length = s.extender_current - 8;
  base_some = some_name;
  base_fits = v.name_fits;
  extension_fits = ground (arith, v.extender_fits);
  base = λ j lt. ground (arith, v.name_part j, v.name_fits);
  base_pad = λ j a b. ground (arith, v.name_pad j);
  extension = λ j lt. ground (arith, v.extender_part (8 + j), v.extender_low, v.extender_fits);
  extension_pad = λ j a b. ground (arith, v.extender_pad (8 + j), v.extender_low);
}

-- The three checks after the loop, on a state that the loop can leave.
finished_name :
    (name regular : Mem) (s : NameState)
    → finish_name name (some s) ≡ (fs_success, regular)
    → (1 ≤ s.name_length) × (blit name 0 s.regular_name 0 11 ≡ regular)
unfolding finish_name
finished_name name regular s e = ground (arith)

finish_name-IsEntryName :
    (name regular : Mem) (o : Option NameState)
    → ((s : NameState) → o ≡ some s → IsNameState s)
    → finish_name name o ≡ (fs_success, regular)
    → IsEntryName regular
unfolding finish_name
finish_name-IsEntryName name regular none v e = ground (arith)
finish_name-IsEntryName name regular (some s) v e =
    let done = finished_name name regular s e in
    subst IsEntryName done.1 (state-IsEntryName name s (v s refl) done.0)

-- A name is a text of bytes that `strncmp` does not take for "." or "..".
abbrev pub IsDots : Mem → Type 0
IsDots name =
    (strncmp 2 (c_string name 0 256) (b'.' ∷ b'.' ∷ []) ≡ pos 0)
    ⊎ (strncmp 1 (c_string name 0 256) (b'.' ∷ []) ≡ pos 0)

zero_result_no : (z : ℤ) → z ≢ pos 0 → zero_result z ≡ false
zero_result_no (pos n) e = ground (arith)
zero_result_no (negsuc n) e = refl

-- When `formatName` succeeds on a name that does not begin with a dot, the 11 bytes it leaves are an
-- 8.3 name: 1 to 8 letters or digits and spaces up to byte 8, then at most 3 letters or digits and
-- spaces up to byte 11.
pub format_name-IsEntryName :
    (name regular : Mem)
    → ¬ IsDots name
    → format_name name ≡ (fs_success, regular)
    → IsEntryName regular
unfolding format_name
format_name-IsEntryName name regular no_dots e =
    finish_name-IsEntryName (upper_string max_entry_name_length 0 name) regular
      (name_chars
        (c_string (upper_string max_entry_name_length 0 name) 0
          (strlen (c_string name 0 max_name_length)))
        name_start)
      (λ s eq. name_chars-IsNameState _ name_start s name_start-IsNameState eq)
      (ground (
        arith,
        zero_result_no (strncmp 2 (c_string name 0 256) (b'.' ∷ b'.' ∷ [])),
        zero_result_no (strncmp 1 (c_string name 0 256) (b'.' ∷ [])),
      ))
