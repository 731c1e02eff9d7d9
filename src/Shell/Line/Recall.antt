-- ===== src/Shell/Line/Recall.antt =====
-- The up and down keys of `shell_readline` in src/fs/shell.c: the ring `hist_buf` against the list of
-- the last sixteen lines.
use ios.Prelude.{
  ℕ, zero, suc, ◌+◌, ◌-◌, ◌%◌, ◌<◌, ◌≤◌, ◌≡◌, ◌≢◌, List, [], ◌∷◌, none, some, leb, true, ◌==◌,
  ne→==_false, ==_iff, length, arith, refl, Bool-cases, inl, inr, false, take, All, ap,
}
use mathlib.Core.Path.{subst}
use ios.Mem.{Mem, store, blit, memcpy}
use ios.Mem.Loops.{memcpy-blit}
use ios.Mem.Segments.{
  After, After-length, After-ext, Before-onto, After-onto, c_string-After, After-take, take_all,
}
use ios.Text.{strlen}
use ios.Shell.Line.{
  History, Editor, cut_length, recalled, show_text, hist_max, hist_cmdlen, save_line, recall,
  press_up, press_down,
}
use ios.Shell.Line.Zipper.{
  Zipper, zipper, line_of, nth, show_line, older, older_line, newer, newer_from,
}
use ios.Shell.Line.Keys.{Shows}

-- A string of characters other than the terminator, within the bytes of a slot.
pub record HoldsText (l : List ℕ) (m : Mem) : Type 0 where
  pub chars : After l m 0 (length l)
  pub terminated : m (length l) ≡ 0
  pub nonzero : All (λ c. c ≢ 0) l
  pub short : length l < hist_cmdlen

-- The ring holds the last lines, as many of the `hist_total` lines as it has slots.
pub record HoldsLines (h : History) (lines : List (List ℕ)) : Type 0 where
  pub some_lines : length lines ≤ hist_max
  pub all_lines : h.hist_total - hist_max + length lines ≡ h.hist_total
  pub line :
      (k : ℕ) (l : List ℕ)
      → nth lines k ≡ some l
      → HoldsText l (h.hist_buf ((h.hist_total - 1 - k) % hist_max))

pub nth-length :
    (lines : List (List ℕ)) (k : ℕ) → k < length lines → (l : List ℕ) × (nth lines k ≡ some l)
nth-length [] k lt = absurd (omega arith)
nth-length (l ∷ lines) zero lt = (l, refl)
nth-length (l ∷ lines) (suc k) lt = nth-length lines k (omega arith)

pub nth-none : (lines : List (List ℕ)) (k : ℕ) → length lines ≤ k → nth lines k ≡ none
nth-none [] k le = refl
nth-none (l ∷ lines) zero le = absurd (omega arith)
nth-none (l ∷ lines) (suc k) le = nth-none lines k (omega arith)

strlen_lem : (l : List ℕ) → strlen l ≡ length l
unfolding strlen
strlen_lem [] = refl
strlen_lem (c ∷ l) = ap suc (strlen_lem l)

cut_length_le :
    (last slen : ℕ) → (cut_length (suc last) slen ≤ last) × (cut_length (suc last) slen ≤ slen)
unfolding cut_length
cut_length_le last slen = ground arith

After-cut_length :
    (last slen : ℕ) (l : List ℕ) (m : Mem)
    → After l m 0 slen
    → After (take last l) m 0 (cut_length (suc last) slen)
unfolding cut_length
After-cut_length last slen l m h = elim (Bool-cases (leb (suc last) slen)) [
  | inl long ↦
      let size : 0 + last ≡ suc last - 1 = omega arith in
      rw long
        (subst (λ j. After (take last l) m 0 j) size (After-take l m 0 slen last h (ground arith)))
  | inr short ↦ rw (short, take_all l last (ground (arith, After-length l m 0 slen h))) h
]

After-memcpy :
    (l : List ℕ) (m src : Mem) (n : ℕ) → After l src 0 n → After l (memcpy m 0 src 0 n) 0 n
After-memcpy l m src n h =
    After-ext l src (memcpy m 0 src 0 n) 0 n
      (λ k lo hi. rw (memcpy-blit m 0 src 0 n) (unfold blit in ground arith)) h

-- What `memcpy(saved, buf, len); saved[len] = 0` keeps.
After-saved :
    (l : List ℕ) (m src : Mem) (n : ℕ)
    → After l src 0 n
    → After l (store (memcpy m 0 src 0 n) n 0) 0 n
After-saved l m src n h =
    After-ext l (memcpy m 0 src 0 n) _ 0 n (λ k lo hi. unfold store in ground arith)
      (After-memcpy l m src n h)

le→leb : (a b : ℕ) → a ≤ b → leb a b ≡ true
le→leb a b h = ground arith

lt→leb_false : (a b : ℕ) → b < a → leb a b ≡ false
lt→leb_false a b h = ground arith

module _ (last : ℕ) (buf0 : Mem) (h : History) where
  show_text-Shows :
      (e : Editor) (l : List ℕ) (z : Zipper) (src : Mem) (slen : ℕ)
      → After l src 0 slen
      → ((j : ℕ) → last < j → e.buf j ≡ buf0 j)
      → e.browse + z.back ≡ h.hist_total
      → (z.back ≢ 0 → After z.own e.saved 0 e.saved_len)
      → Shows last h.hist_total buf0 (show_text (suc last) (src, slen) e) (show_line last l z)
  unfolding show_text
  show_text-Shows e l z src slen text beyond place own =
      let n = cut_length (suc last) slen in
      let copied = After-memcpy (take last l) e.buf src n (After-cut_length last slen l src text) in
      let small = (cut_length_le last slen).0 in
      record {
        before = Before-onto (take last l) [] (memcpy e.buf 0 src 0 n) 0 n refl copied;
        after = refl;
        room = small;
        place = place;
        own = own;
        beyond =
            λ j far. rw (memcpy-blit e.buf 0 src 0 n) (unfold blit in ground (arith, beyond j));
      }

  module _ (lines : List (List ℕ)) (holds : HoldsLines h lines) where
    recalled_line :
        (e : Editor) (k : ℕ) (l : List ℕ)
        → nth lines k ≡ some l
        → e.browse + suc k ≡ h.hist_total
        → After l (recalled h e).0 0 (recalled h e).1
    unfolding recalled
    recalled_line e k l found place =
        let text = holds.line k l found in
        let slot : h.hist_total - 1 - k ≡ e.browse = omega arith in
        let text' : HoldsText l (h.hist_buf (e.browse % hist_max)) =
          subst (λ k. HoldsText l (h.hist_buf (k % hist_max))) slot text in
        let whole =
          c_string-After l _ 0 (length l) hist_cmdlen text'.chars text'.terminated text'.nonzero
            text'.short in
        rw (ne→==_false e.browse h.hist_total (omega arith), whole, strlen_lem l) text'.chars

    recalled_own :
        (e : Editor) (l : List ℕ)
        → e.browse ≡ h.hist_total
        → After l e.saved 0 e.saved_len
        → After l (recalled h e).0 0 (recalled h e).1
    unfolding recalled
    recalled_own e l place saved = rw ((==_iff _ _).1 place) saved

    -- Going to a line of the history.
    show_line-Shows :
        (e : Editor) (z : Zipper) (k : ℕ) (l : List ℕ)
        → nth lines k ≡ some l
        → z.back ≡ suc k
        → ((j : ℕ) → last < j → e.buf j ≡ buf0 j)
        → e.browse + suc k ≡ h.hist_total
        → After z.own e.saved 0 e.saved_len
        → Shows last h.hist_total buf0 (show_text (suc last) (recalled h e) e) (show_line last l z)
    show_line-Shows e z k l found back beyond place own =
        show_text-Shows e l z _ _ (recalled_line e k l found place) beyond (rw back place)
          (λ nz. own)

    older-lt :
        (e : Editor) (z : Zipper)
        → Shows last h.hist_total buf0 e z
        → leb e.browse (h.hist_total - hist_max) ≡ leb (length lines) z.back
    older-lt e z s = ground (arith, holds.all_lines, s.place)

    older_found :
        (e : Editor) (z : Zipper) (l : List ℕ)
        → nth lines z.back ≡ some l
        → z.back < length lines
        → Shows last h.hist_total buf0 e z
        → Shows last h.hist_total buf0
            (recall h (suc last) (record (save_line h e) { browse = (save_line h e).browse - 1 }))
            (older_line last z (some l))
    unfolding recall save_line
    older_found e z l found lt s =
        let place : e.browse - 1 + suc z.back ≡ h.hist_total =
          omega (arith, s.place, holds.all_lines) in
        elim (Bool-cases (z.back == 0)) [
          | inl here ↦
              let text =
                After-saved (line_of z) e.saved e.buf e.len
                  (After-onto z.before z.after e.buf e.cur e.len s.before s.after) in
              rw (here, (==_iff e.browse h.hist_total).1 (ground (arith, s.place)))
                (show_line-Shows _ (zipper z.before z.after (z.back + 1) (line_of z)) z.back l found
                  (omega arith) s.beyond place text)
          | inr there ↦
              rw (there, ne→==_false e.browse h.hist_total (ground (arith, s.place)))
                (show_line-Shows _ (zipper z.before z.after (z.back + 1) z.own) z.back l found
                  (omega arith) s.beyond place (s.own (ground arith)))
        ]

    pub press_up-Shows :
        (e : Editor) (z : Zipper)
        → Shows last h.hist_total buf0 e z
        → Shows last h.hist_total buf0 (press_up h (suc last) e) (older last lines z)
    unfolding press_up
    press_up-Shows e z s = rw (older-lt e z s) (elim (Bool-cases (leb (length lines) z.back)) [
      | inl oldest ↦ rw (oldest, nth-none lines z.back (ground arith)) s
      | inr more ↦
          let lt : z.back < length lines = ground arith in
          let (l, found) = nth-length lines z.back lt in
          rw (more, found) (older_found e z l found lt s)
    ])

    newer_from-Shows :
        (e : Editor) (z : Zipper) (back : ℕ)
        → z.back ≡ back
        → back ≤ length lines
        → Shows last h.hist_total buf0 e z
        → Shows last h.hist_total buf0 (press_down h (suc last) e) (newer_from last lines z back)
    unfolding press_down recall
    newer_from-Shows e z zero at le s = rw (le→leb h.hist_total e.browse (omega (arith, s.place))) s
    newer_from-Shows e z (suc zero) at le s =
        let here : e.browse + 1 ≡ h.hist_total = omega (arith, s.place) in
        rw (lt→leb_false h.hist_total e.browse (omega (arith, s.place))) (
          show_text-Shows (record e { browse = e.browse + 1 }) z.own
            (zipper z.before z.after 0 z.own) _ _
            (recalled_own (record e { browse = e.browse + 1 }) z.own here (s.own (omega arith)))
            s.beyond (omega arith) (λ nz. absurd (nz refl)))
    newer_from-Shows e z (suc (suc k)) at le s =
        let (l, found) = nth-length lines k (omega arith) in
        rw (lt→leb_false h.hist_total e.browse (omega (arith, s.place)), found)
          (show_line-Shows (record e { browse = e.browse + 1 })
            (zipper z.before z.after (suc k) z.own) k l found refl s.beyond (omega (arith, s.place))
            (s.own (omega arith)))

    pub press_down-Shows :
        (e : Editor) (z : Zipper)
        → z.back ≤ length lines
        → Shows last h.hist_total buf0 e z
        → Shows last h.hist_total buf0 (press_down h (suc last) e) (newer last lines z)
    press_down-Shows e z le s = newer_from-Shows e z z.back refl le s
