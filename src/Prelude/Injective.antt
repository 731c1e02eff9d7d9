-- ===== src/Prelude/Injective.antt =====
-- Functions that are injective below a bound.
use Prim.Native.Nat.{ℕ, zero, suc, ◌+◌, ◌<◌}
use mathlib.Core.Logic.{◌≢◌}
use native.Mathlib.Omega.{arith}
use ios.Prelude.Tests.{◌==◌, if◌then◌else◌}

abbrev pub IsInjective : (ℕ → ℕ) → ℕ → Type 0
IsInjective f n = (k l : ℕ) → k < l → l < n → f k ≢ f l

-- n + 1 numbers below n are not all different.
pub not-IsInjective :
    (n : ℕ) (f : ℕ → ℕ) → ((k : ℕ) → k < n + 1 → f k < n) → ¬ IsInjective f (n + 1)
not-IsInjective zero f below inj = absurd (omega (arith, below 0 (omega arith)))
not-IsInjective (suc n) f below inj =
    not-IsInjective n (λ k. if f k == n then f (n + 1) else f k)
      (λ k lt. ground (arith, below k, below (n + 1), inj k (n + 1)))
      (λ k l lt lu e. ground (arith, inj k l, inj k (n + 1), inj l (n + 1)))

-- What is injective below n with all values below n has all of them.
pub IsInjective-onto :
    (n : ℕ) (f : ℕ → ℕ)
    → ((k : ℕ) → k < n → f k < n)
    → IsInjective f n
    → (i : ℕ) → i < n
    → ¬ ((k : ℕ) → k < n → f k ≢ i)
IsInjective-onto n f below inj i lt missed =
    not-IsInjective n (λ k. if k == n then i else f k) (λ k lu. ground (arith, below k))
      (λ k l lu lv e. ground (arith, inj k l, missed k))
