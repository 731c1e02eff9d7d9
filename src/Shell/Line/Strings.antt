-- ===== src/Shell/Line/Strings.antt =====
-- The characters that the editor of src/fs/shell.c handles are never the terminator.
use ios.Prelude.{
  if-holds, ℕ, zero, suc, ◌+◌, ◌<◌, ◌≤◌, ◌≡◌, ◌≢◌, List, [], ◌∷◌, Option, none, some, leb, ltb,
  ◌==◌, length, arith, refl, if◌then◌else◌, take, All,
}
use mathlib.Core.Path.{subst}
use mathlib.Core.Option.{some-injective, none-ne-some}
use ios.Mem.Segments.{onto}
use ios.Keyboard.{key_up, key_down, key_left, key_right, key_home, key_end, key_del}
use ios.Shell.Line.Zipper.{
  Zipper, zipper, line_of, line_length, nth, zipper_key, show_line, older_line, newer_from,
  newer_line, backspace, delete, go_left, go_right,
}

abbrev pub IsString : List ℕ → Type 0
IsString l = All (λ c. c ≢ 0) l

-- No terminator among the characters, and a line of the history at most as far back as there are.
abbrev pub IsText : List (List ℕ) → Zipper → Type 0
IsText lines z = IsString z.before × IsString z.after × IsString z.own × (z.back ≤ length lines)

onto-IsString : (l r : List ℕ) → IsString l → IsString r → IsString (onto l r)
onto-IsString [] r h k = k
onto-IsString (x ∷ l) r h k = onto-IsString l (x ∷ r) h.1 (h.0, k)

take-IsString : (n : ℕ) (l : List ℕ) → IsString l → IsString (take n l)
take-IsString zero l h = tt
take-IsString (suc n) [] h = tt
take-IsString (suc n) (x ∷ l) h = (h.0, take-IsString n l h.1)

pub line_of-IsString : (lines : List (List ℕ)) (z : Zipper) → IsText lines z → IsString (line_of z)
line_of-IsString lines z t = onto-IsString z.before z.after t.0 t.1

-- The k-th line is a string, and there is one.
nth-IsString :
    (lines : List (List ℕ)) (k : ℕ) (l : List ℕ)
    → All IsString lines
    → nth lines k ≡ some l
    → IsString l × (k < length lines)
nth-IsString [] k l h e = absurd (none-ne-some l e)
nth-IsString (x ∷ lines) zero l h e = (subst IsString (some-injective x l e) h.0, omega arith)
nth-IsString (x ∷ lines) (suc k) l h e =
    let (string, lt) = nth-IsString lines k l h.1 e in (string, omega arith)

module _ (last : ℕ) (lines : List (List ℕ)) where
  show_line-IsText :
      (l : List ℕ) (z : Zipper)
      → IsString l
      → IsString z.own
      → z.back ≤ length lines
      → IsText lines (show_line last l z)
  show_line-IsText l z string own le =
      (onto-IsString (take last l) [] (take-IsString last l string) tt, tt, own, le)

  backspace-IsText :
      (l r : List ℕ) (k : ℕ) (own : List ℕ)
      → IsText lines (zipper l r k own)
      → IsText lines (backspace (zipper l r k own))
  backspace-IsText [] r k own t = t
  backspace-IsText (c ∷ l) r k own t = (t.0.1, t.1, t.2, t.3)

  delete-IsText :
      (l r : List ℕ) (k : ℕ) (own : List ℕ)
      → IsText lines (zipper l r k own)
      → IsText lines (delete (zipper l r k own))
  delete-IsText l [] k own t = t
  delete-IsText l (c ∷ r) k own t = (t.0, t.1.1, t.2, t.3)

  go_left-IsText :
      (l r : List ℕ) (k : ℕ) (own : List ℕ)
      → IsText lines (zipper l r k own)
      → IsText lines (go_left (zipper l r k own))
  go_left-IsText [] r k own t = t
  go_left-IsText (c ∷ l) r k own t = (t.0.1, (t.0.0, t.1), t.2, t.3)

  go_right-IsText :
      (l r : List ℕ) (k : ℕ) (own : List ℕ)
      → IsText lines (zipper l r k own)
      → IsText lines (go_right (zipper l r k own))
  go_right-IsText l [] k own t = t
  go_right-IsText l (c ∷ r) k own t = ((t.1.0, t.0), t.1.1, t.2, t.3)

  module _ (strings : All IsString lines) where
    older_line-IsText :
        (z : Zipper) (o : Option (List ℕ))
        → nth lines z.back ≡ o
        → IsText lines z
        → IsText lines (older_line last z o)
    older_line-IsText z none e t = t
    older_line-IsText z (some l) e t =
        let (string, lt) = nth-IsString lines z.back l strings e in
        show_line-IsText l
          (zipper z.before z.after (z.back + 1) (if z.back == 0 then line_of z else z.own)) string
          (if-holds IsString (z.back == 0) (line_of-IsString lines z t) t.2) (omega arith)

    newer_line-IsText :
        (z : Zipper) (k : ℕ) (o : Option (List ℕ))
        → nth lines k ≡ o
        → suc k ≤ length lines
        → IsText lines z
        → IsText lines (newer_line last k z o)
    newer_line-IsText z k none e le t = t
    newer_line-IsText z k (some l) e le t =
        show_line-IsText l (zipper z.before z.after (suc k) z.own)
          (nth-IsString lines k l strings e).0 t.2 le

    newer_from-IsText :
        (z : Zipper) (back : ℕ)
        → back ≤ length lines
        → IsText lines z
        → IsText lines (newer_from last lines z back)
    newer_from-IsText z zero le t = t
    newer_from-IsText z (suc zero) le t =
        show_line-IsText z.own (zipper z.before z.after 0 z.own) t.2 t.2 (omega arith)
    newer_from-IsText z (suc (suc k)) le t =
        newer_line-IsText z k (nth lines k) refl (omega arith) t

    pub zipper_key-IsText :
        (ch : ℕ) (z : Zipper) → ch ≢ 0 → IsText lines z → IsText lines (zipper_key last lines ch z)
    unfolding zipper_key
    zipper_key-IsText ch z nz t =
        let P = IsText lines in
        if-holds P (ch == 8) (backspace-IsText z.before z.after z.back z.own t) (
          if-holds P (ch == key_del) (delete-IsText z.before z.after z.back z.own t) (
            if-holds P (ch == key_left) (go_left-IsText z.before z.after z.back z.own t) (
              if-holds P (ch == key_right) (go_right-IsText z.before z.after z.back z.own t) (
                if-holds P (ch == key_home) (tt, line_of-IsString lines z t, t.2, t.3)
                  (if-holds P (ch == key_end) (onto-IsString z.after z.before t.1 t.0, tt, t.2, t.3)
                    (if-holds P (ch == key_up) (older_line-IsText z (nth lines z.back) refl t) (
                      if-holds P (ch == key_down) (newer_from-IsText z z.back t.3 t) (
                        if-holds P (ltb 127 ch) t (
                          if-holds P (leb last (line_length z)) t
                            ((nz, t.0), t.1, t.2, t.3))))))))))
