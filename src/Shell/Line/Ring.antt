-- ===== src/Shell/Line/Ring.antt =====
-- One more line in the ring `hist_buf` of src/fs/shell.c.
use ios.Prelude.{
  ℕ, zero, suc, ◌+◌, ◌-◌, ◌%◌, ◌<◌, ◌≤◌, ◌≡◌, List, [], ◌∷◌, some, ◌==◌, ne→==_false, ==_iff,
  length, arith, refl, if◌then◌else◌, take, min, sym, ◌∙◌,
}
use mathlib.Core.Path.{subst}
use mathlib.Core.Option.{some-injective, none-ne-some}
use ios.Mem.{Mem, store, blit, memcpy}
use ios.Mem.Loops.{memcpy-blit}
use ios.Mem.Segments.{After, After-length, After-ext}
use ios.Shell.Line.{History, hist_max, hist_cmdlen}
use ios.Shell.Line.Zipper.{nth}
use ios.Shell.Line.Strings.{IsString}
use ios.Shell.Line.Recall.{HoldsText, HoldsLines}

length-take : (n : ℕ) (lines : List (List ℕ)) → length (take n lines) ≡ min n (length lines)
length-take zero lines = omega arith
length-take (suc n) [] = omega arith
length-take (suc n) (l ∷ lines) = omega (arith, length-take n lines)

nth-lt : (lines : List (List ℕ)) (k : ℕ) (l : List ℕ) → nth lines k ≡ some l → k < length lines
nth-lt [] k l e = absurd (none-ne-some l e)
nth-lt (x ∷ lines) zero l e = omega arith
nth-lt (x ∷ lines) (suc k) l e = omega (arith, nth-lt lines k l e)

nth-take :
    (n k : ℕ) (lines : List (List ℕ)) (l : List ℕ)
    → nth (take n lines) k ≡ some l
    → (nth lines k ≡ some l) × (k < n)
nth-take zero k lines l e = absurd (none-ne-some l e)
nth-take (suc n) k [] l e = absurd (none-ne-some l e)
nth-take (suc n) zero (x ∷ lines) l e = (e, omega arith)
nth-take (suc n) (suc k) (x ∷ lines) l e =
    let (same, lt) = nth-take n k lines l e in (same, omega arith)

-- What `memcpy(hist_buf[..], buf, len + 1)` leaves in a slot.
pub copied-HoldsText :
    (l : List ℕ) (slot m : Mem) (n : ℕ)
    → After l m 0 n
    → IsString l
    → n < hist_cmdlen
    → HoldsText l (memcpy slot 0 (store m n 0) 0 (n + 1))
copied-HoldsText l slot m n text string small =
    let line : Mem = memcpy slot 0 (store m n 0) 0 (n + 1) in
    let len : length l ≡ n = omega (arith, After-length l m 0 n text) in
    let copied : (k : ℕ) → k ≤ n → memcpy slot 0 (store m n 0) 0 (n + 1) k ≡ store m n 0 k =
      λ k le. rw (memcpy-blit slot 0 (store m n 0) 0 (n + 1)) (unfold blit in ground arith) in
    record {
      chars =
          subst (λ j. After l line 0 j) (sym len)
            (After-ext l m line 0 n
              (λ k lo hi. copied k (omega arith) ∙ (unfold store in ground arith)) text);
      terminated = rw len (copied n (omega arith) ∙ (unfold store in ground arith));
      nonzero = string;
      short = omega arith;
    }

module _ (h : History) (lines : List (List ℕ)) (l : List ℕ) (text : Mem)
    (holds : HoldsLines h lines) (new : HoldsText l text) where
  abbrev slot : ℕ
  slot = h.hist_total % hist_max

  abbrev pub added : History
  added = record {
    hist_buf = λ k. if k == slot then text else h.hist_buf k;
    hist_total = h.hist_total + 1;
  }

  added_line :
      (k : ℕ) (x : List ℕ)
      → k < hist_max
      → nth (l ∷ lines) k ≡ some x
      → HoldsText x (added.hist_buf ((added.hist_total - 1 - k) % hist_max))
  added_line zero x lt e =
      let here : h.hist_total + 1 - 1 - 0 ≡ h.hist_total = omega arith in
      rw (here, (==_iff slot slot).1 refl)
        (subst (λ y. HoldsText y text) (some-injective l x e) new)
  added_line (suc k) x lt e =
      let back : h.hist_total + 1 - 1 - suc k ≡ h.hist_total - 1 - k = omega arith in
      let older : k < h.hist_total = omega (arith, nth-lt lines k x e, holds.all_lines) in
      rw (back, ne→==_false ((h.hist_total - 1 - k) % hist_max) slot (omega arith))
        (holds.line k x e)

  pub added-HoldsLines : HoldsLines added (take hist_max (l ∷ lines))
  added-HoldsLines = record {
    some_lines = omega (arith, length-take hist_max (l ∷ lines));
    all_lines = omega (arith, length-take hist_max (l ∷ lines), holds.all_lines, holds.some_lines);
    line =
        λ k x e. let (found, lt) = nth-take hist_max k (l ∷ lines) x e in added_line k x lt found;
  }
