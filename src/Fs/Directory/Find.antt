-- ===== src/Fs/Directory/Find.antt =====
-- What the search of a directory block finds.
use ios.Prelude.{
  ℕ, zero, suc, ◌+◌, ◌*◌, ◌<◌, ◌≤◌, ◌≡◌, ◌≢◌, Bool, true, false, ◌&&◌, ◌||◌, Option, some, ◌==◌,
  arith, ℤ, pos, negsuc, Bool-cases, inl, inr, ap, sym, ◌∙◌, ◌-◌,
}
use native.Mathlib.Nat.{zero-add, add-zero}
use ios.Mem.{Mem, memcmp, store}
use ios.Mem.Loops.{memcmp-eq_iff}
use ios.Fs.Layout.{
  dir_entry_size, entry_name, max_entry_name_length, dir_entry_free, dir_entry_no_more,
}
use ios.Fs.Directory.{
  Found, found, no_more, absent, first_char, entry_fits, find_loop, find_entry_at_block,
  marker_name, is_zero,
}

-- An entry that the search passes over.
abbrev pub IsPassed : Mem → Option Mem → ℕ → Type 0
IsPassed block name k = (entry_fits block name k ≡ false) × (first_char block k ≢ dir_entry_no_more)

-- All entries from `first` on and before n are passed over.
abbrev pub AllPassed : Mem → Option Mem → ℕ → ℕ → Type 0
AllPassed block name first n = (k : ℕ) → first ≤ k → k < n → IsPassed block name k

-- Where the loop at number i and entry e stops: at the first entry that fits, at the end marker before
-- one, or behind the last; the number goes along with the entry.
abbrev LoopResult : ℕ → ℕ → ℕ → Mem → Option Mem → Found → Type 0
LoopResult left i e block name (found n) =
    (m : ℕ) × (n ≡ i + m)
    × (m < left)
    × (entry_fits block name (e + m) ≡ true)
    × AllPassed block name e (e + m)
LoopResult left i e block name (no_more n) =
    (m : ℕ) × (n ≡ i + m)
    × (m < left)
    × (entry_fits block name (e + m) ≡ false)
    × (first_char block (e + m) ≡ dir_entry_no_more)
    × AllPassed block name e (e + m)
LoopResult left i e block name (absent n) = (n ≡ i + left) × AllPassed block name e (e + left)

IsPassed-from :
    (i n : ℕ) (block : Mem) (name : Option Mem)
    → IsPassed block name i
    → AllPassed block name (i + 1) n
    → AllPassed block name i n
IsPassed-from i n block name here later k lo hi = elim (Bool-cases (i == k)) [
  | inl same ↦ ground (arith, here)
  | inr other ↦ later k (ground arith) hi
]

find_step :
    (left i e : ℕ) (block : Mem) (name : Option Mem) (r : Found)
    → IsPassed block name e
    → LoopResult left (i + 1) (e + 1) block name r
    → LoopResult (suc left) i e block name r
find_step left i e block name (found n) here (m, number, lt, fits, before) =
    let at : e + 1 + m ≡ e + (m + 1) = omega arith in
    (
      m + 1,
      omega (arith, number),
      omega (arith, lt),
      rw (sym at) fits,
      IsPassed-from e (e + (m + 1)) block name here (rw (sym at) before),
    )
find_step left i e block name (no_more n) here (m, number, lt, no_fit, end, before) =
    let at : e + 1 + m ≡ e + (m + 1) = omega arith in
    (
      m + 1,
      omega (arith, number),
      omega (arith, lt),
      rw (sym at) no_fit,
      rw (sym at) end,
      IsPassed-from e (e + (m + 1)) block name here (rw (sym at) before),
    )
find_step left i e block name (absent n) here (last, before) =
    let at : e + 1 + left ≡ e + suc left = omega arith in
    (omega (arith, last), IsPassed-from e (e + suc left) block name here (rw (sym at) before))

find_loop-LoopResult :
    (left i e : ℕ) (block : Mem) (name : Option Mem)
    → LoopResult left i e block name (find_loop left i e block name)
unfolding find_loop
find_loop-LoopResult zero i e block name = (omega arith, λ k a b. absurd (omega arith))
find_loop-LoopResult (suc left) i e block name = elim (Bool-cases (entry_fits block name e)) [
  | inl fits ↦
      rw fits (0, omega arith, omega arith, rw (add-zero e) fits, λ k a b. absurd (omega arith))
  | inr no_fit ↦ elim (Bool-cases (first_char block e == dir_entry_no_more)) [
    | inl end ↦
        rw (no_fit, end)
          (
            0,
            omega arith,
            omega arith,
            rw (add-zero e) no_fit,
            rw (add-zero e) (ground arith),
            λ k a b. absurd (omega arith),
          )
    | inr more ↦
        rw (no_fit, more)
          (find_step left i e block name _ (no_fit, ground arith)
            (find_loop-LoopResult left (i + 1) (e + 1) block name))
  ]
]

-- Where a search with numbers from `begin` to `last` stops, counted in entries from the block's first.
abbrev pub FindResult : Mem → Option Mem → ℕ → ℕ → Found → Type 0
FindResult block name begin last (found n) =
    (m : ℕ) × (n ≡ begin + m)
    × (n < last)
    × (entry_fits block name m ≡ true)
    × AllPassed block name 0 m
FindResult block name begin last (no_more n) =
    (m : ℕ) × (n ≡ begin + m)
    × (n < last)
    × (entry_fits block name m ≡ false)
    × (first_char block m ≡ dir_entry_no_more)
    × AllPassed block name 0 m
FindResult block name begin last (absent n) = (n ≡ last) × AllPassed block name 0 (last - begin)

LoopResult-FindResult :
    (block : Mem) (name : Option Mem) (begin last : ℕ) (r : Found)
    → begin ≤ last
    → LoopResult (last - begin) begin 0 block name r
    → FindResult block name begin last r
LoopResult-FindResult block name begin last (found n) le (m, number, lt, fits, before) =
    (m, number, omega (arith, number, lt), rw (sym (zero-add m)) fits, rw (sym (zero-add m)) before)
LoopResult-FindResult block name begin last (no_more n) le (m, number, lt, no_fit, end, before) = (
  m,
  number,
  omega (arith, number, lt),
  rw (sym (zero-add m)) no_fit,
  rw (sym (zero-add m)) end,
  rw (sym (zero-add m)) before,
)
LoopResult-FindResult block name begin last (absent n) le (number, before) =
    (omega (arith, number, le), rw (sym (zero-add (last - begin))) before)

-- `findEntryAtBlock` with numbers from `begin` to `last`, not before it, looks at the block's entries from
-- the first on: it gives `begin` plus the place of the first entry that fits; or, with the code for the
-- end, of the end marker, when no entry before it fits and it does not fit itself; or `last` when no
-- entry of the first `last` - `begin` fits and there is no marker among them.
pub find_entry_at_block-FindResult :
    (block : Mem) (name : Option Mem) (begin last : ℕ)
    → begin ≤ last
    → FindResult block name begin last (find_entry_at_block block name begin last)
unfolding find_entry_at_block
find_entry_at_block-FindResult block name begin last le =
    LoopResult-FindResult block name begin last (find_loop (last - begin) begin 0 block name) le
      (find_loop-LoopResult (last - begin) begin 0 block name)

is_zero→eq : (z : ℤ) → is_zero z ≡ true → z ≡ pos 0
is_zero→eq (pos n) e = ground arith
is_zero→eq (negsuc n) e = ground arith

marker_fits :
    (same : Bool) (first marker : ℕ)
    → marker ≤ 1
    → (same ≡ true → first ≡ marker)
    → (same || (marker == dir_entry_free || marker == dir_entry_no_more) && marker == first)
      ≡ (first == marker)
marker_fits same first marker h e = ground arith

-- The name that `insertEntry` looks a marker up by fits exactly the entries whose first byte is the
-- marker, whatever stands in memory behind its array of two bytes.
pub entry_fits-marker_name :
    (block past : Mem) (marker k : ℕ)
    → marker ≤ 1
    → entry_fits block (some (marker_name past marker)) k ≡ (first_char block k == marker)
unfolding entry_fits store
entry_fits-marker_name block past marker k h =
    marker_fits
      (is_zero (
        memcmp block (dir_entry_size * k + entry_name) (marker_name past marker) 0
          max_entry_name_length))
      (first_char block k) marker h same_first
  where
    same_first :
        is_zero (
            memcmp block
              (dir_entry_size * k + entry_name)
              (marker_name past marker)
              0
              max_entry_name_length)
          ≡ true
        → first_char block k ≡ marker
    same_first e =
        ap block (omega arith)
        ∙ (memcmp-eq_iff max_entry_name_length block (dir_entry_size * k + entry_name)
              (marker_name past marker) 0).0
            (is_zero→eq _ e) 0 (omega arith)
