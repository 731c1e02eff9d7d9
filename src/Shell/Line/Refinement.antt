-- ===== src/Shell/Line/Refinement.antt =====
-- `shell_readline` of src/fs/shell.c does what the editor on lists does, call after call.
use ios.Prelude.{
  ℕ, suc, ◌-◌, ◌%◌, ◌<◌, ◌≤◌, ◌≡◌, ◌≢◌, Bool, true, false, List, [], ◌∷◌, Option, none, some, leb,
  ltb, ◌==◌, ne→==_false, ==_iff, length, arith, refl, if◌then◌else◌, All, sym,
}
use mathlib.Core.Option
use mathlib.Core.Option.{some-injective, none-ne-some}
use ios.Mem.{Mem, store}
use ios.Mem.Segments.{After, After-ext, After-onto}
use ios.Keyboard.{key_up, key_down, key_left, key_right, key_home, key_end, key_del}
use ios.Shell.Line.{
  History, Editor, Readline, hist_max, hist_cmdlen, edit_key, readline_loop, start_line, end_line,
  shell_readline,
}
use ios.Shell.Line.Zipper.{Zipper, line_of, zipper_key, edit_line, fresh, remember}
use ios.Shell.Line.Keys.{
  Shows, line_length-len, press_left-Shows, press_right-Shows, press_home-Shows, press_end-Shows,
  press_backspace-Shows, press_del-Shows, type_char-Shows,
}
use ios.Shell.Line.Strings.{IsString, IsText, line_of-IsString, zipper_key-IsText}
use ios.Shell.Line.Ring.{copied-HoldsText, added-HoldsLines}
use ios.Shell.Line.Recall.{HoldsLines, press_up-Shows, press_down-Shows}

-- A relation that both branches of a test keep.
if-related :
    {A B : Type 0} (R : A → B → Type 0) {x y : A} {x' y' : B} (b : Bool)
    → R x x'
    → R y y'
    → R (if b then x else y) (if b then x' else y')
if-related R true h k = h
if-related R false h k = k

module _ (last : ℕ) (buf0 : Mem) (h : History) (lines : List (List ℕ))
    (holds : HoldsLines h lines) where
  edit_key-Shows :
      (ch : ℕ) (e : Editor) (z : Zipper)
      → z.back ≤ length lines
      → Shows last h.hist_total buf0 e z
      → Shows last h.hist_total buf0 (edit_key h (suc last) ch e) (zipper_key last lines ch z)
  unfolding edit_key zipper_key
  edit_key-Shows ch e z le s =
      let R = Shows last h.hist_total buf0 in
      let total = h.hist_total in
      if-related R (ch == 8)
        (press_backspace-Shows last total buf0 e z.before z.after z.back z.own s)
        (if-related R (ch == key_del)
          (press_del-Shows last total buf0 e z.before z.after z.back z.own s)
          (if-related R (ch == key_left)
            (press_left-Shows last total buf0 e z.before z.after z.back z.own s)
            (if-related R (ch == key_right)
              (press_right-Shows last total buf0 e z.before z.after z.back z.own s)
              (if-related R (ch == key_home) (press_home-Shows last total buf0 e z s) (
                if-related R (ch == key_end) (press_end-Shows last total buf0 e z s) (
                  if-related R (ch == key_up) (press_up-Shows last buf0 h lines holds e z s) (
                    if-related R (ch == key_down)
                      (press_down-Shows last buf0 h lines holds e z le s)
                      (if-related R (ltb 127 ch) s (
                        type_char-Shows last total buf0 e z.before z.after z.back z.own ch
                          s)))))))))

  -- The loop ends with the line of the list editor, and the same keys left, or waits as it does.
  LoopResult : Option (Editor × List ℕ) → Option (List ℕ × List ℕ) → Type 0
  LoopResult none none = Unit
  LoopResult none (some b) = ⊥
  LoopResult (some a) none = ⊥
  LoopResult (some (e, keys)) (some (l, keys')) =
      After l e.buf 0 e.len
      × IsString l
      × (e.len ≤ last)
      × ((j : ℕ) → last < j → e.buf j ≡ buf0 j)
      × (keys ≡ keys')

  module _ (strings : All IsString lines) where
    loop_end :
        (e : Editor) (z : Zipper) (keys : List ℕ)
        → IsText lines z
        → Shows last h.hist_total buf0 e z
        → LoopResult (some (e, keys)) (some (line_of z, keys))
    unfolding LoopResult
    loop_end e z keys t s = (
      After-onto z.before z.after e.buf e.cur e.len s.before s.after,
      line_of-IsString lines z t,
      s.room,
      s.beyond,
      refl,
    )

    readline_loop-LoopResult :
        (keys : List ℕ) (e : Editor) (z : Zipper)
        → All (λ ch. ch ≢ 0) keys
        → IsText lines z
        → Shows last h.hist_total buf0 e z
        → LoopResult (readline_loop h (suc last) e keys) (edit_line last lines z keys)
    unfolding readline_loop edit_line LoopResult
    readline_loop-LoopResult [] e z nz t s =
        let size : suc last - 1 ≡ last = omega arith in
        rw (size, line_length-len last h.hist_total buf0 e z s)
          (if-related LoopResult (leb last e.len) (loop_end e z [] t s) tt)
    readline_loop-LoopResult (ch ∷ keys) e z (nz, nzs) t s =
        let size : suc last - 1 ≡ last = omega arith in
        rw (size, line_length-len last h.hist_total buf0 e z s)
          (if-related LoopResult (leb last e.len) (loop_end e z (ch ∷ keys) t s) (
            if-related LoopResult (ch == 10) (loop_end e z keys t s) (
              readline_loop-LoopResult keys _ _ nzs (zipper_key-IsText last lines strings ch z nz t)
                (edit_key-Shows ch e z t.3 s))))

-- What a call leaves, against the line, the keys left and the history of the list editor.
abbrev pub Refines : ℕ → Mem → List (List ℕ) → Option Readline → Option (List ℕ × List ℕ) → Type 0
Refines last buf0 lines none none = Unit
Refines last buf0 lines none (some b) = ⊥
Refines last buf0 lines (some r) none = ⊥
Refines last buf0 lines (some r) (some (l, keys)) =
    After l r.buf 0 r.len
    × (r.buf r.len ≡ 0)
    × (r.len ≤ last)
    × ((j : ℕ) → last < j → r.buf j ≡ buf0 j)
    × HoldsLines r.history (remember hist_max l lines)
    × (r.keys ≡ keys)

module _ (last : ℕ) (buf0 : Mem) (h : History) (lines : List (List ℕ)) (small : last < hist_cmdlen)
    (holds : HoldsLines h lines) where
  remembered-HoldsLines :
      (e : Editor) (l keys : List ℕ)
      → After l e.buf 0 e.len
      → IsString l
      → e.len ≤ last
      → HoldsLines (end_line h (e, keys)).history (remember hist_max l lines)
  unfolding end_line
  remembered-HoldsLines e [] keys text string le = rw ((==_iff e.len 0).1 (sym text)) holds
  remembered-HoldsLines e (c ∷ l) keys text string le =
      rw (ne→==_false e.len 0 (omega (arith, text.0))) (
        added-HoldsLines h lines (c ∷ l) _ holds (
          copied-HoldsText (c ∷ l) (h.hist_buf (h.hist_total % hist_max)) e.buf e.len text string
            (omega arith)))

  end_line-Refines :
      (o : Option (Editor × List ℕ)) (o' : Option (List ℕ × List ℕ))
      → LoopResult last buf0 h lines holds o o'
      → Refines last buf0 lines (Option.map (end_line h) o) o'
  unfolding LoopResult
  end_line-Refines none none r = tt
  end_line-Refines none (some b) r = r
  end_line-Refines (some a) none r = r
  end_line-Refines (some (e, keys)) (some (l, keys')) (text, string, le, beyond, same) = (
    unfold end_line store in After-ext l e.buf _ 0 e.len (λ k lo hi. ground arith) text,
    unfold end_line store in ground arith,
    unfold end_line in le,
    λ j far. unfold end_line store in ground (arith, beyond j),
    remembered-HoldsLines e l keys text string le,
    unfold end_line in same,
  )

-- One call of `shell_readline` on a buffer of at most HIST_CMDLEN bytes, with a ring that holds the
-- lines of a history without zero bytes, on keys that are not 0, gives the line that the keys give in
-- the list editor: its characters and a terminator in the buffer, its length, the bytes past the
-- buffer as they were, the same keys left, and in the ring the last sixteen lines with this one in
-- front unless it is empty. It waits for keys exactly when that editor does.
pub shell_readline-Refines :
    (last : ℕ) (h : History) (lines : List (List ℕ)) (buf saved : Mem) (keys : List ℕ)
    → last < hist_cmdlen
    → HoldsLines h lines
    → All IsString lines
    → All (λ ch. ch ≢ 0) keys
    → Refines last buf lines
        (shell_readline h buf (suc last) saved keys)
        (edit_line last lines fresh keys)
unfolding shell_readline
shell_readline-Refines last h lines buf saved keys small holds strings nz =
    end_line-Refines last buf h lines small holds _ _ (
      readline_loop-LoopResult last buf h lines holds strings keys (start_line h buf saved) fresh nz
        (tt, tt, tt, omega arith)
        (unfold start_line in
          record {
            before = refl;
            after = refl;
            room = omega arith;
            place = omega arith;
            own = λ nz. absurd (nz refl);
            beyond = λ j far. refl;
          }))
