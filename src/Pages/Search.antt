-- ===== src/Pages/Search.antt =====
-- The search loop of `kalloc` in src/mm/page_alloc.c.
use ios.Prelude.{
  ℕ, zero, suc, ◌+◌, ◌<◌, ◌≤◌, ◌≡◌, ◌≢◌, true, false, ◌==◌, if◌then◌else◌, arith, Option, none,
  some, refl, Bool-cases, inl, inr, ==_iff, ne→==_false,
}
use native.Mathlib.Decide.{dec_lt, ℕ_discrete}
use ios.Mem.{Mem}
use ios.Pages.{is_used, find_run, total_pages}

-- The n pages from `start` on are all free.
abbrev pub IsFreeRun : Mem → ℕ → ℕ → Type 0
IsFreeRun m n start = (q : ℕ) → start ≤ q → q < start + n → is_used m q ≡ false

-- The answer of a search of the pages below `limit`: the first run, or that there is none.
abbrev pub IsFirstFit : Mem → ℕ → ℕ → Option ℕ → Type 0
IsFirstFit m n limit none = (start : ℕ) → start + n ≤ limit → ¬ IsFreeRun m n start
IsFirstFit m n limit (some start) =
    (start + n ≤ limit) × IsFreeRun m n start × ((s : ℕ) → s < start → ¬ IsFreeRun m n s)

-- The loop's invariant at page `p`: the last `run_len` pages are free, and no run starts before.
record IsScanned (m : Mem) (n p run_start run_len : ℕ) : Type 0 where
  fits : run_len ≤ p
  short : run_len < n
  start : run_len ≢ 0 → run_start + run_len ≡ p
  free : (q : ℕ) → p ≤ q + run_len → q < p → is_used m q ≡ false
  none_before : (s : ℕ) → s + run_len < p → ¬ IsFreeRun m n s

module _ {m : Mem} {n p run_start run_len : ℕ} (v : IsScanned m n p run_start run_len) where
  IsScanned-used : is_used m p ≡ true → IsScanned m n (p + 1) run_start 0
  IsScanned-used e = record {
    fits = omega arith;
    short = omega (arith, v.short);
    start = λ h. absurd (h refl);
    free = λ q h lt. absurd (omega arith);
    none_before = λ s lt run. elim (dec_lt (s + run_len) p) [
      | yes before ↦ v.none_before s before run
      | no after ↦ cc (e, run p (omega arith) (omega (arith, v.short)))
    ];
  }

  IsScanned-free :
      is_used m p ≡ false
      → run_len + 1 ≢ n
      → IsScanned m n (p + 1) (if run_len == 0 then p else run_start) (run_len + 1)
  IsScanned-free e more = record {
    fits = omega (arith, v.fits);
    short = omega (arith, v.short);
    start = λ h. ground (arith, v.start, v.fits);
    free = λ q h lt. ground (arith, v.free q, e);
    none_before = λ s lt run. v.none_before s (omega arith) run;
  }

  start_lem : (if run_len == 0 then p else run_start) + run_len ≡ p
  start_lem = ground (arith, v.start)

  IsFirstFit-found :
      (limit : ℕ)
      → is_used m p ≡ false
      → run_len + 1 ≡ n
      → p < limit
      → IsFirstFit m n limit (some (if run_len == 0 then p else run_start))
  IsFirstFit-found limit e last inside = (
    omega (arith, start_lem),
    λ q h lt. ground (arith, v.free q, e, start_lem),
    λ s lt run. v.none_before s (omega (arith, start_lem)) run,
  )

find_run_from :
    (left p run_start run_len limit : ℕ) {m : Mem} {n : ℕ}
    → p + left ≡ limit
    → IsScanned m n p run_start run_len
    → IsFirstFit m n limit (find_run n left m p run_start run_len)
unfolding find_run
find_run_from zero p run_start run_len limit e v =
    λ s lt run. v.none_before s (omega (arith, v.short)) run
find_run_from (suc left) p run_start run_len limit {m} {n} e v = elim (Bool-cases (is_used m p)) [
  | inl used ↦
      rw used (find_run_from left (p + 1) run_start 0 limit (omega arith) (IsScanned-used v used))
  | inr free ↦ elim (ℕ_discrete (run_len + 1) n) [
    | yes last ↦ rw (free, (==_iff _ _).1 last) (IsFirstFit-found v limit free last (omega arith))
    | no more ↦
        rw (free, ne→==_false _ _ more)
          (find_run_from left (p + 1) _ (run_len + 1) limit (omega arith)
            (IsScanned-free v free more))
  ]
]

-- The search finds the first free run of the length, or there is none in the bitmap.
pub find_run-IsFirstFit :
    (m : Mem) (n : ℕ) → 0 < n → IsFirstFit m n total_pages (find_run n total_pages m 0 0 0)
find_run-IsFirstFit m n h = find_run_from total_pages 0 0 0 total_pages (omega arith) record {
  fits = omega arith;
  short = h;
  start = λ e. absurd (e refl);
  free = λ q a b. absurd (omega arith);
  none_before = λ s a. absurd (omega arith);
}
