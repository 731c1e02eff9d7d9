-- ===== src/Keyboard/Input/Edit.antt =====
-- The line that `fgetsk_core` of src/keyboard.c leaves, against a line editor on a stack of bytes.
use ios.Prelude.{
  ℕ, suc, ◌+◌, ◌-◌, ◌≤◌, ◌<◌, ◌≡◌, ◌≢◌, List, [], ◌∷◌, arith, refl, length, leb, ◌==◌,
  if◌then◌else◌, Bool-cases, inl, inr,
}
use ios.Mem.{Mem, store}
use ios.Mem.Segments.{Before, Before-length, Before-store, Before-push}
use ios.Keyboard.Input.{Line, line_done, showing, fgetsk_loop, fgetsk_core}

-- The characters of a line, the last one on top of the stack.
abbrev pub erase : List ℕ → List ℕ
erase [] = []
erase (c ∷ cs) = cs

-- A line of at most `last` characters is typed on top of `stack`: 8 takes the last one back, 10 and
-- the end of the input end the line.
unfoldable pub typed : ℕ → List ℕ → List ℕ → List ℕ
typed last stack [] = stack
typed last stack (ch ∷ chs) =
    let erased = typed last (erase stack) chs in
    let longer = typed last (ch ∷ stack) chs in
    if leb last (length stack)
    then stack
    else if ch == 0xFF
    then stack
    else if ch == 10
    then stack
    else if ch == 8
    then erased
    else longer

-- `line` is the characters of `stack` with a terminator, within the `size` bytes of `buf`.
pub record HoldsLine (size : ℕ) (buf : Mem) (stack : List ℕ) (line : Line) : Type 0 where
  pub chars : Before stack line.buf line.count
  pub terminated : line.buf line.count ≡ 0
  pub fits : line.count < size
  pub beyond : (j : ℕ) → size ≤ j → line.buf j ≡ buf j

module _ (last : ℕ) (buf0 : Mem) where
  abbrev Ready : List ℕ → ℕ → Mem → Type 0
  Ready stack i buf = Before stack buf i × (i ≤ last) × ((j : ℕ) → last < j → buf j ≡ buf0 j)

  done-HoldsLine :
      (stack : List ℕ) (i : ℕ) (buf : Mem) (chs : List ℕ)
      → Ready stack i buf
      → HoldsLine (suc last) buf0 stack (line_done i buf chs)
  unfolding store
  done-HoldsLine stack i buf chs (chars, le, beyond) = record {
    chars = Before-store stack buf i i 0 (omega arith) chars;
    terminated = ground arith;
    fits = omega arith;
    beyond = λ j lt. ground (arith, beyond j);
  }

  showing-HoldsLine :
      (stack cs : List ℕ) (l : Line)
      → HoldsLine (suc last) buf0 stack l
      → HoldsLine (suc last) buf0 stack (showing cs l)
  showing-HoldsLine stack cs l h = record {
    chars = h.chars;
    terminated = h.terminated;
    fits = h.fits;
    beyond = h.beyond;
  }

  push-Ready :
      (stack : List ℕ) (i : ℕ) (buf : Mem) (ch : ℕ)
      → i < last
      → Ready stack i buf
      → Ready (ch ∷ stack) (i + 1) (store buf i ch)
  unfolding store
  push-Ready stack i buf ch lt (chars, le, beyond) =
      (Before-push stack buf i ch chars, omega arith, λ j far. ground (arith, beyond j))

  erase-Ready :
      (stack : List ℕ) (i : ℕ) (buf : Mem)
      → i ≢ 0
      → Ready stack i buf
      → Ready (erase stack) (i - 1) buf
  erase-Ready [] i buf nz (chars, le, beyond) = absurd (nz chars)
  erase-Ready (c ∷ stack) i buf nz (chars, le, beyond) = (chars.2, omega arith, beyond)

  erase_none :
      (stack : List ℕ) (i : ℕ) (buf : Mem) → i ≡ 0 → Ready stack i buf → Ready (erase stack) i buf
  erase_none [] i buf z ready = ready
  erase_none (c ∷ stack) i buf z (chars, le, beyond) = absurd (omega (arith, chars.0))

  loop-HoldsLine :
      (chs : List ℕ) (stack : List ℕ) (i : ℕ) (buf : Mem)
      → Ready stack i buf
      → HoldsLine (suc last) buf0 (typed last stack chs) (fgetsk_loop last i buf chs)
  unfolding fgetsk_loop typed
  loop-HoldsLine [] stack i buf ready = done-HoldsLine stack i buf [] ready
  loop-HoldsLine (ch ∷ chs) stack i buf ready =
      rw (Before-length stack buf i ready.0) (elim (Bool-cases (leb last i)) [
        | inl full ↦ rw full (done-HoldsLine stack i buf (ch ∷ chs) ready)
        | inr room ↦ rw room (elim (Bool-cases (ch == 0xFF)) [
          | inl e ↦ rw e (done-HoldsLine stack i buf chs ready)
          | inr n ↦ rw n (elim (Bool-cases (ch == 10)) [
            | inl e ↦ rw e (
                showing-HoldsLine stack (10 ∷ []) (line_done i buf chs)
                  (done-HoldsLine stack i buf chs ready))
            | inr n ↦ rw n (elim (Bool-cases (ch == 8)) [
              | inl e ↦ rw e (elim (Bool-cases (i == 0)) [
                | inl z ↦ rw z (
                    loop-HoldsLine chs (erase stack) i buf
                      (erase_none stack i buf (ground arith) ready))
                | inr nz ↦ rw nz (
                    showing-HoldsLine (typed last (erase stack) chs) (8 ∷ b' ' ∷ 8 ∷ [])
                      (fgetsk_loop last (i - 1) buf chs)
                      (loop-HoldsLine chs (erase stack) (i - 1) buf
                        (erase-Ready stack i buf (ground arith) ready)))
              ])
              | inr n ↦ rw n (
                  loop-HoldsLine chs (ch ∷ stack) (i + 1) (store buf i ch)
                    (push-Ready stack i buf ch (ground arith) ready))
            ])
          ])
        ])
      ])

-- `fgetsk` with room for `last` characters leaves the line that a line editor leaves, backspace
-- taking back one character at most: that many bytes, a terminator behind them, and every byte at or
-- past `size` as it was.
pub fgetsk_core-HoldsLine :
    (buf : Mem) (last : ℕ) (chs : List ℕ)
    → HoldsLine (suc last) buf (typed last [] chs) (fgetsk_core buf (suc last) chs)
unfolding fgetsk_core
fgetsk_core-HoldsLine buf last chs =
    loop-HoldsLine last buf chs [] 0 buf (refl, omega arith, λ j lt. refl)
