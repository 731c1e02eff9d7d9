-- ===== src/Shell/Words/RoundTrip.antt =====
-- `separateString` of src/fs/shell.c gives back the words that a line was made of.
use ios.Prelude.{
  ℕ, zero, suc, ◌+◌, ◌<◌, ◌≤◌, ◌≡◌, ◌≢◌, Bool, true, false, not, ◌&&◌, List, [], ◌∷◌, ◌++◌, ◌==◌,
  ne→==_false, ==_iff, length, arith, refl, All, ap, sym, ◌∙◌,
}
use mathlib.Core.Path.{subst}
use ios.Mem.{Mem, store}
use ios.Mem.Segments.{After, After-length, After-ext}
use ios.Text.{isspace}
use ios.Shell.Words.{skip_while, not_quote, not_space, with_word, separate_loop, separate_string}
use ios.Shell.Words.Split.{
  Word, plain, quoted, chars_of, spelling, line, IsSpaced, HoldWords, After-append, skip_while-run,
  separate_loop-before, cut_off,
}

isspace-ne_zero : (c : ℕ) → isspace c ≡ true → c ≢ 0
unfolding isspace
isspace-ne_zero c h = ground arith

All-map : (P Q : ℕ → Type 0) (xs : List ℕ) → ((x : ℕ) → P x → Q x) → All P xs → All Q xs
All-map P Q [] f h = tt
All-map P Q (x ∷ xs) f h = (f x h.0, All-map P Q xs f h.1)

&&-false : (b c : Bool) → c ≡ false → (b && c) ≡ false
&&-false true c h = h
&&-false false c h = refl

-- The loop over the gap stops at the first character that is no space.
gap_end :
    (gap : List ℕ) (room : ℕ) (m : Mem) (p : ℕ)
    → All (λ d. isspace d ≡ true) gap
    → After gap m p (p + length gap)
    → isspace (m (p + length gap)) ≡ false
    → length gap < room
    → skip_while isspace room m p ≡ p + length gap
gap_end gap room m p spaces front no_space lt =
    skip_while-run isspace gap room m p front
      (All-map _ _ gap (λ d s. (isspace-ne_zero d s, s)) spaces) (&&-false _ _ no_space) lt

start_ne_zero :
    (gap : List ℕ) (m : Mem) (p : ℕ)
    → All (λ d. isspace d ≡ true) gap
    → After gap m p (p + length gap)
    → m (p + length gap) ≢ 0
    → m p ≢ 0
start_ne_zero [] m p spaces h nz = subst (λ q. m q ≢ 0) (sym h) nz
start_ne_zero (d ∷ gap) m p spaces h nz = rw h.1 (isspace-ne_zero d spaces.0)

-- One round on a plain word, and on a word between quotes.
plain_round :
    (room left : ℕ) (m : Mem) (p q stop : ℕ)
    → skip_while isspace room m p ≡ q
    → skip_while not_space room m q ≡ stop
    → m p ≢ 0
    → m q ≢ 0
    → m q ≢ 34
    → m stop ≢ 0
    → separate_loop room (suc left) m p
      ≡ with_word q (separate_loop room left (store m stop 0) (stop + 1))
unfolding separate_loop
plain_round room left m p q stop eq es p_nz q_nz no_quote s_nz =
    rw
      (
        ne→==_false (m p) 0 p_nz,
        eq,
        es,
        ne→==_false (m q) 0 q_nz,
        ne→==_false (m q) 34 no_quote,
        ne→==_false (m stop) 0 s_nz,
      )
      refl

quoted_round :
    (room left : ℕ) (m : Mem) (p q stop : ℕ)
    → skip_while isspace room m p ≡ q
    → skip_while not_quote room m (q + 1) ≡ stop
    → m p ≢ 0
    → m q ≡ 34
    → m stop ≡ 34
    → separate_loop room (suc left) m p
      ≡ with_word (q + 1) (separate_loop room left (store m stop 0) (stop + 1))
unfolding separate_loop
quoted_round room left m p q stop eq es p_nz quote close =
    rw (ne→==_false (m p) 0 p_nz, eq, quote, es, close) refl

-- A word that a round cut off, and the ones behind it.
with_word-HoldWords :
    (gap : List ℕ) (w : Word) (ws : List (List ℕ × Word)) (room left : ℕ) (m : Mem) (q stop : ℕ)
    → stop ≡ q + length (chars_of w)
    → After (chars_of w) m q stop
    → HoldWords
        (separate_loop room left (store m stop 0) (stop + 1)).buf
        (separate_loop room left (store m stop 0) (stop + 1)).ptrs
        ws
    → HoldWords
        (with_word q (separate_loop room left (store m stop 0) (stop + 1))).buf
        (with_word q (separate_loop room left (store m stop 0) (stop + 1))).ptrs
        ((gap, w) ∷ ws)
with_word-HoldWords gap w ws room left m q stop at text rest = (
  cut_off (chars_of w) m _ q stop at text
      (λ j lt. separate_loop-before room left (store m stop 0) (stop + 1) j lt),
  rest,
)

abbrev Splits : List (List ℕ × Word) → ℕ → ℕ → Mem → ℕ → Type 0
Splits ws room left m p =
    HoldWords (separate_loop room left m p).buf (separate_loop room left m p).ptrs ws

-- The rest of the line is still there behind the end that was cut off.
rest_of_line :
    (ws : List (List ℕ × Word)) (m : Mem) (stop next e : ℕ)
    → stop + 1 ≡ next
    → After (line ws) m next e
    → m e ≡ 0
    → After (line ws) (store m stop 0) (stop + 1) e × (store m stop 0 e ≡ 0) × (stop < e)
unfolding store
rest_of_line ws m stop next e at h z =
    let some_rest = After-length (line ws) m next e h in
    rw at (After-ext (line ws) m _ next e (λ k lo hi. ground arith) h, ground arith, omega arith)

separate_loop-Splits :
    (ws : List (List ℕ × Word)) (room left : ℕ) (m : Mem) (p e : ℕ)
    → All IsSpaced ws
    → After (line ws) m p e
    → m e ≡ 0
    → length ws ≤ left
    → e < p + room
    → Splits ws room left m p
separate_loop-Splits [] room zero m p e ok h z le lt = unfold separate_loop in tt
separate_loop-Splits [] room (suc left) m p e ok h z le lt =
    unfold separate_loop in rw ((==_iff (m p) 0).1 (ap m h ∙ z)) tt
separate_loop-Splits (w ∷ ws) room zero m p e ok h z le lt = absurd (omega arith)
separate_loop-Splits ((gap, plain []) ∷ ws) room (suc left) m p e ok h z le lt = absurd ok.0.1
separate_loop-Splits ((gap, plain (c ∷ cs)) ∷ ws) room (suc left) m p e
      ((spaces, (no_quote, inner)), oks) h z le lt =
    let (front, back) = After-append gap (spelling (plain (c ∷ cs)) ++ line ws) m p e h in
    let (word, rest) =
      After-append (spelling (plain (c ∷ cs))) (line ws) m (p + length gap) e back in
    let (text, space) = After-append (c ∷ cs) (32 ∷ []) m (p + length gap) _ word in
    let q : ℕ = p + length gap in
    let stop : ℕ = q + length (c ∷ cs) in
    let at_q : m q ≡ c = text.1 in
    let (rest', z', lt') = rest_of_line ws m stop _ e space.2 rest z in
    let gap_at = gap_end gap room m p spaces front (rw at_q inner.0.1) (omega arith) in
    let word_at =
      skip_while-run not_space (c ∷ cs) room m q text
        (All-map _ _ (c ∷ cs) (λ d (nz, stay). (nz, ap not stay)) inner)
        (&&-false (not (m stop == 0)) (not_space (m stop)) (rw space.1 (unfold isspace in refl)))
        (omega arith) in
    rw
      (plain_round room left m p q stop gap_at word_at
        (start_ne_zero gap m p spaces front (rw at_q inner.0.0)) (rw at_q inner.0.0)
        (rw at_q no_quote) (omega (arith, space.1)))
      (with_word-HoldWords gap (plain (c ∷ cs)) ws room left m q stop refl text (
        separate_loop-Splits ws room left (store m stop 0) (stop + 1) e oks rest' z' (omega arith)
          (omega arith)))
separate_loop-Splits ((gap, quoted cs) ∷ ws) room (suc left) m p e ((spaces, inner), oks) h z le
      lt =
    let (front, (quote_at, quote, back)) =
      After-append gap (spelling (quoted cs) ++ line ws) m p e h in
    let (word, rest) = After-append (cs ++ 34 ∷ []) (line ws) m (p + length gap + 1) e back in
    let (text, (close_at, close, behind)) =
      After-append cs (34 ∷ []) m (p + length gap + 1) _ word in
    let q : ℕ = p + length gap in
    let stop : ℕ = q + 1 + length cs in
    let (rest', z', lt') = rest_of_line ws m stop _ e behind rest z in
    let gap_at =
      gap_end gap room m p spaces front (rw quote (unfold isspace in refl)) (omega arith) in
    let word_at =
      skip_while-run not_quote cs room m (q + 1) text
        (All-map _ _ cs (λ d (nz, nq). (nz, ap not (ne→==_false d 34 nq))) inner)
        (&&-false (not (m stop == 0)) (not_quote (m stop)) (rw close refl)) (omega arith) in
    rw
      (quoted_round room left m p q stop gap_at word_at
        (start_ne_zero gap m p spaces front (omega (arith, quote))) quote close)
      (with_word-HoldWords gap (quoted cs) ws room left m (q + 1) stop refl text (
        separate_loop-Splits ws room left (store m stop 0) (stop + 1) e oks rest' z' (omega arith)
          (omega arith)))

-- A line is made of words, each with any white space in front of it: a word without white space that
-- does not start with a quote and has a space behind it, or any characters but a quote between
-- quotes; none of the characters is 0. `separateString` cuts it into exactly these words, in order,
-- each terminated in place, when there is room for as many pointers and the line ends within the
-- bytes of its array.
pub separate_string-line :
    (ws : List (List ℕ × Word)) (room max e : ℕ) (buf : Mem)
    → All IsSpaced ws
    → After (line ws) buf 0 e
    → buf e ≡ 0
    → length ws ≤ max
    → e < room
    → HoldWords (separate_string room buf max).buf (separate_string room buf max).ptrs ws
unfolding separate_string
separate_string-line ws room max e buf ok h z le lt =
    separate_loop-Splits ws room max buf 0 e ok h z le (omega arith)
