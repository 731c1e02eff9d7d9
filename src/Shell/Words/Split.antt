-- ===== src/Shell/Words/Split.antt =====
-- The words that `separateString` of src/fs/shell.c finds in a line that is made of words.
use ios.Prelude.{
  if-holds, ℕ, zero, suc, ◌+◌, ◌<◌, ◌≤◌, ◌≡◌, ◌≢◌, Bool, true, false, not, ◌&&◌, List, [], ◌∷◌,
  ◌++◌, ◌==◌, ne→==_false, length, arith, refl, All, sym, ◌∙◌,
}
use mathlib.Core.Path.{subst}
use ios.Mem.{Mem, store}
use ios.Mem.Segments.{After, After-ext}
use ios.Text.{isspace}
use ios.Shell.Words.{skip_while, not_quote, not_space, Words, separate_loop}

-- A word on the line: as it is, or between quotes.
pub data Word : Type 0 where
  plain quoted : List ℕ → Word

abbrev pub chars_of : Word → List ℕ
chars_of (plain cs) = cs
chars_of (quoted cs) = cs

abbrev pub spelling : Word → List ℕ
spelling (plain cs) = cs ++ 32 ∷ []
spelling (quoted cs) = 34 ∷ cs ++ 34 ∷ []

-- A plain word has no space and does not start with a quote; between quotes there is no quote.
abbrev pub IsWord : Word → Type 0
IsWord (plain []) = ⊥
IsWord (plain (c ∷ cs)) = (c ≢ 34) × All (λ d. (d ≢ 0) × (isspace d ≡ false)) (c ∷ cs)
IsWord (quoted cs) = All (λ d. (d ≢ 0) × (d ≢ 34)) cs

-- Words with spaces in front of each.
abbrev pub line : List (List ℕ × Word) → List ℕ
line [] = []
line ((gap, w) ∷ ws) = gap ++ (spelling w ++ line ws)

abbrev pub IsSpaced : List ℕ × Word → Type 0
IsSpaced (gap, w) = All (λ d. isspace d ≡ true) gap × IsWord w

-- The string at offset p.
abbrev pub HoldsWord : Mem → ℕ → List ℕ → Type 0
HoldsWord m p cs = After cs m p (p + length cs) × (m (p + length cs) ≡ 0)

abbrev pub HoldWords : Mem → List ℕ → List (List ℕ × Word) → Type 0
HoldWords m [] [] = Unit
HoldWords m [] (w ∷ ws) = ⊥
HoldWords m (p ∷ ps) [] = ⊥
HoldWords m (p ∷ ps) ((gap, w) ∷ ws) = HoldsWord m p (chars_of w) × HoldWords m ps ws

pub After-append :
    (xs ys : List ℕ) (m : Mem) (i j : ℕ)
    → After (xs ++ ys) m i j
    → After xs m i (i + length xs) × After ys m (i + length xs) j
After-append [] ys m i j h = (omega arith, subst (λ k. After ys m k j) (omega arith) h)
After-append (x ∷ xs) ys m i j (lo, e, h) =
    let (front, back) = After-append xs ys m (i + 1) j h in
    let shift : i + 1 + length xs ≡ i + suc (length xs) = omega arith in
    (
      (omega arith, e, subst (λ k. After xs m (i + 1) k) shift front),
      subst (λ k. After ys m k j) shift back,
    )

-- A loop goes over the characters that it is to skip.
pub skip_while-run :
    (test : ℕ → Bool) (xs : List ℕ) (room : ℕ) (m : Mem) (p : ℕ)
    → After xs m p (p + length xs)
    → All (λ d. (d ≢ 0) × (test d ≡ true)) xs
    → (not (m (p + length xs) == 0) && test (m (p + length xs))) ≡ false
    → length xs < room
    → skip_while test room m p ≡ p + length xs
unfolding skip_while
skip_while-run test xs zero m p h ok stop lt = absurd (omega arith)
skip_while-run test [] (suc room) m p h ok stop lt =
    let here : p + 0 ≡ p = omega arith in
    rw (subst (λ q. (not (m q == 0) && test (m q)) ≡ false) here stop) (sym here)
skip_while-run test (x ∷ xs) (suc room) m p (lo, e, h) ((nz, ok), oks) stop lt =
    let next : p + suc (length xs) ≡ p + 1 + length xs = omega arith in
    rw (e, ne→==_false x 0 nz, ok, next)
      (skip_while-run test xs room m (p + 1) (subst (λ k. After xs m (p + 1) k) next h) oks
        (subst (λ q. (not (m q == 0) && test (m q)) ≡ false) next stop) (omega arith))

skip_while_le : (test : ℕ → Bool) (room : ℕ) (m : Mem) (p : ℕ) → p ≤ skip_while test room m p
unfolding skip_while
skip_while_le test zero m p = omega arith
skip_while_le test (suc room) m p = ground (arith, skip_while_le test room m (p + 1))

-- Nothing is written before the place where the loop stands.
pub separate_loop-before :
    (room left : ℕ) (m : Mem) (p j : ℕ) → j < p → (separate_loop room left m p).buf j ≡ m j
unfolding separate_loop
separate_loop-before room zero m p j lt = refl
separate_loop-before room (suc left) m p j lt =
    let q = skip_while isspace room m p in
    let quote = skip_while not_quote room m (q + 1) in
    let end_of_word = skip_while not_space room m q in
    let p_le = skip_while_le isspace room m p in
    let q_le = skip_while_le not_quote room m (q + 1) in
    let end_le = skip_while_le not_space room m q in
    let P = λ (w : Words). w.buf j ≡ m j in
    let kept : (k : ℕ) → j < k → store m k 0 j ≡ m j = λ k less. unfold store in ground arith in
    let closed : P (separate_loop room left (store m quote 0) (quote + 1)) =
      separate_loop-before room left (store m quote 0) (quote + 1) j (omega arith)
      ∙ kept quote (omega arith) in
    let ended : P (separate_loop room left (store m end_of_word 0) (end_of_word + 1)) =
      separate_loop-before room left (store m end_of_word 0) (end_of_word + 1) j (omega arith)
      ∙ kept end_of_word (omega arith) in
    if-holds P (m p == 0) refl (
      if-holds P (m q == 0) refl (
        if-holds P (m q == 34)
          (if-holds P (m quote == 34) closed
            (separate_loop-before room left m quote j (omega arith)))
          (if-holds P (m end_of_word == 0)
            (separate_loop-before room left m end_of_word j (omega arith)) ended)))

-- A word whose end was cut off holds, whatever is written behind it.
pub cut_off :
    (cs : List ℕ) (m f : Mem) (p e : ℕ)
    → e ≡ p + length cs
    → After cs m p e
    → ((j : ℕ) → j < e + 1 → f j ≡ store m e 0 j)
    → HoldsWord f p cs
cut_off cs m f p e at h same =
    let kept : (j : ℕ) → p ≤ j → j < e → f j ≡ m j =
      λ j lo hi. same j (omega arith) ∙ (unfold store in ground arith) in
    rw (sym at) (After-ext cs m f p e kept h, same e (omega arith) ∙ (unfold store in ground arith))
