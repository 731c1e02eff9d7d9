-- ===== src/Mem/Segments.antt =====
-- Runs of bytes of an object as lists: the ones below an offset, and the ones up to an offset.
use ios.Prelude.{
  ℕ, zero, suc, ◌+◌, ◌-◌, ◌<◌, ◌≤◌, ◌≡◌, List, [], ◌∷◌, arith, length, take, refl, ◌≢◌, ◌∙◌, ap,
  All, ==_iff, ne→==_false,
}
use mathlib.Core.Path.{subst}
use ios.Mem.{Mem, store, c_string}

-- The bytes below offset i are `l`, the last one first.
abbrev pub Before : List ℕ → Mem → ℕ → Type 0
Before [] m i = i ≡ 0
Before (x ∷ l) m i = (1 ≤ i) × (m (i - 1) ≡ x) × Before l m (i - 1)

-- The bytes from offset i up to j are `r`.
abbrev pub After : List ℕ → Mem → ℕ → ℕ → Type 0
After [] m i j = i ≡ j
After (x ∷ r) m i j = (i < j) × (m i ≡ x) × After r m (i + 1) j

pub Before-length : (l : List ℕ) (m : Mem) (i : ℕ) → Before l m i → length l ≡ i
Before-length [] m i h = omega arith
Before-length (x ∷ l) m i h = omega (arith, Before-length l m (i - 1) h.2)

pub After-length : (r : List ℕ) (m : Mem) (i j : ℕ) → After r m i j → i + length r ≡ j
After-length [] m i j h = omega arith
After-length (x ∷ r) m i j h = omega (arith, After-length r m (i + 1) j h.2)

-- Objects that agree on the run hold the same run.
pub Before-ext :
    (l : List ℕ) (m m' : Mem) (i : ℕ)
    → ((j : ℕ) → j < i → m' j ≡ m j)
    → Before l m i
    → Before l m' i
Before-ext [] m m' i same h = h
Before-ext (x ∷ l) m m' i same (lo, e, h) =
    (lo, ground (arith, same (i - 1)), Before-ext l m m' (i - 1) (λ j lt. same j (omega arith)) h)

pub After-ext :
    (r : List ℕ) (m m' : Mem) (i j : ℕ)
    → ((k : ℕ) → i ≤ k → k < j → m' k ≡ m k)
    → After r m i j
    → After r m' i j
After-ext [] m m' i j same h = h
After-ext (x ∷ r) m m' i j same (lo, e, h) =
    (lo, ground (arith, same i), After-ext r m m' (i + 1) j (λ k a b. same k (omega arith) b) h)

pub Before-store :
    (l : List ℕ) (m : Mem) (i k v : ℕ) → i ≤ k → Before l m i → Before l (store m k v) i
unfolding store
Before-store l m i k v le h = Before-ext l m (store m k v) i (λ j lt. ground arith) h

pub Before-push :
    (l : List ℕ) (m : Mem) (i v : ℕ) → Before l m i → Before (v ∷ l) (store m i v) (i + 1)
unfolding store
Before-push l m i v h = (omega arith, ground arith, below)
  where
    same : i ≡ i + 1 - 1
    same = omega arith

    below : Before l (store m i v) (i + 1 - 1)
    below = subst (λ k. Before l (store m i v) k) same (Before-store l m i i v (omega arith) h)

-- `l` backwards in front of `r`.
abbrev pub onto : List ℕ → List ℕ → List ℕ
onto [] r = r
onto (x ∷ l) r = onto l (x ∷ r)

-- The point between the two runs moves right, or left.
pub Before-next :
    (l : List ℕ) (m : Mem) (i v : ℕ) → m i ≡ v → Before l m i → Before (v ∷ l) m (i + 1)
Before-next l m i v e h =
    let same : i ≡ i + 1 - 1 = omega arith in
    (omega arith, subst (λ k. m k ≡ v) same e, subst (λ k. Before l m k) same h)

pub After-previous :
    (x : ℕ) (l r : List ℕ) (m : Mem) (i j : ℕ)
    → Before (x ∷ l) m i
    → After r m i j
    → After (x ∷ r) m (i - 1) j
After-previous x l r m i j (lo, e, h) after =
    let same : i ≡ i - 1 + 1 = omega arith in
    (omega (arith, After-length r m i j after), e, subst (λ k. After r m k j) same after)

pub Before-onto :
    (r l : List ℕ) (m : Mem) (i j : ℕ) → Before l m i → After r m i j → Before (onto r l) m j
Before-onto [] l m i j before after = subst (λ k. Before l m k) after before
Before-onto (x ∷ r) l m i j before (lo, e, after) =
    Before-onto r (x ∷ l) m (i + 1) j (Before-next l m i x e before) after

pub After-onto :
    (l r : List ℕ) (m : Mem) (i j : ℕ) → Before l m i → After r m i j → After (onto l r) m 0 j
After-onto [] r m i j before after = subst (λ k. After r m k j) before after
After-onto (x ∷ l) r m i j before after =
    After-onto l (x ∷ r) m (i - 1) j before.2 (After-previous x l r m i j before after)

-- A run that is copied from offset d on to offset e on.
pub After-moved :
    (r : List ℕ) (m m' : Mem) (i j d e : ℕ)
    → ((k : ℕ) → i ≤ k → k < j → m' (k + e) ≡ m (k + d))
    → After r m (i + d) (j + d)
    → After r m' (i + e) (j + e)
After-moved [] m m' i j d e same after = omega arith
After-moved (x ∷ r) m m' i j d e same (lo, at, after) =
    let next : i + d + 1 ≡ i + 1 + d = omega arith in
    let next' : i + 1 + e ≡ i + e + 1 = omega arith in
    let rest =
      After-moved r m m' (i + 1) j d e (λ k a b. same k (omega arith) b)
        (subst (λ k. After r m k (j + d)) next after) in
    (
      omega arith,
      same i (omega arith) (omega arith) ∙ at,
      subst (λ k. After r m' k (j + e)) next' rest,
    )

-- A run with a terminator behind it is a string.
pub c_string-After :
    (l : List ℕ) (m : Mem) (i j room : ℕ)
    → After l m i j
    → m j ≡ 0
    → All (λ c. c ≢ 0) l
    → length l < room
    → c_string m i room ≡ l
unfolding c_string
c_string-After l m i j zero after e h lt = absurd (omega arith)
c_string-After [] m i j (suc room) after e h lt = rw ((==_iff _ _).1 (ap m after ∙ e)) refl
c_string-After (x ∷ l) m i j (suc room) (lo, at, after) e (nz, h) lt =
    rw (at, ne→==_false _ _ nz, c_string-After l m (i + 1) j room after e h (omega arith)) refl

-- The first n bytes of a run.
pub After-take :
    (l : List ℕ) (m : Mem) (i j n : ℕ) → After l m i j → i + n ≤ j → After (take n l) m i (i + n)
After-take l m i j zero h le = omega arith
After-take [] m i j (suc n) h le = absurd (omega (arith, h))
After-take (x ∷ l) m i j (suc n) (lo, e, h) le =
    let next : i + 1 + n ≡ i + suc n = omega arith in
    (
      omega arith,
      e,
      subst (λ k. After (take n l) m (i + 1) k) next (After-take l m (i + 1) j n h (omega arith)),
    )

pub take_all : (l : List ℕ) (n : ℕ) → length l ≤ n → take n l ≡ l
take_all [] zero le = refl
take_all [] (suc n) le = refl
take_all (x ∷ l) zero le = absurd (omega arith)
take_all (x ∷ l) (suc n) le = ap (λ r. x ∷ r) (take_all l n (omega arith))
