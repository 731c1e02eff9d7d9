-- ===== src/Text/Compare.antt =====
-- The comparisons and copies of string.c.
use ios.Prelude.{
  ℕ, zero, suc, ◌+◌, ◌-◌, ◌<◌, ◌≡◌, ◌≢◌, ◌↔◌, List, [], ◌∷◌, ltb, leb, ◌&&◌, ◌==◌, if◌then◌else◌,
  arith, refl, sym, pos, All, length, get_or, ◌∙◌,
}
use ios.Mem.{Mem, store}
use ios.Text.{head_byte, tail_bytes, strcmp, strncmp, strcpy, strncpy}

-- A text holds no zero byte, which would end it.
abbrev pub IsText : List ℕ → Type 0
IsText = All (λ c. c ≢ 0)

strcmp_zero : (s t : List ℕ) → IsText s → IsText t → strcmp s t ≡ pos 0 → s ≡ t
unfolding strcmp
strcmp_zero [] [] hs ht e = refl
strcmp_zero [] (d ∷ t) hs ht e = ground arith
strcmp_zero (c ∷ s) [] hs ht e = ground arith
strcmp_zero (c ∷ s) (d ∷ t) hs ht e = ground (arith, strcmp_zero s t hs.1 ht.1)

strcmp_refl : (s : List ℕ) → strcmp s s ≡ pos 0
unfolding strcmp
strcmp_refl [] = refl
strcmp_refl (c ∷ s) = ground (arith, strcmp_refl s)

-- `strcmp` of two texts without zero bytes is 0 exactly when they are the same text.
pub strcmp-eq_iff : (s t : List ℕ) → IsText s → IsText t → (strcmp s t ≡ pos 0) ↔ (s ≡ t)
strcmp-eq_iff s t hs ht = (strcmp_zero s t hs ht, λ e. rw e (strcmp_refl t))

-- The byte at a position of a text, zero at its end and past it.
abbrev pub byte_at : List ℕ → ℕ → ℕ
byte_at s j = get_or s j 0

byte_at-cons :
    (c : ℕ) (s : List ℕ) (k : ℕ) → byte_at (c ∷ s) k ≡ (if k == 0 then c else byte_at s (k - 1))
byte_at-cons c s zero = refl
byte_at-cons c s (suc k) = ground arith

-- `strncpy` of a text writes exactly n bytes: the text, cut there, and zeros after it.
pub strncpy-at :
    (n : ℕ) (dest : Mem) (d : ℕ) (s : List ℕ) (j : ℕ)
    → strncpy n dest d s j ≡ (if leb d j && ltb j (d + n) then byte_at s (j - d) else dest j)
unfolding strncpy store
strncpy-at zero dest d s j = ground arith
strncpy-at (suc n) dest d [] j = ground (arith, strncpy-at n (store dest d 0) (d + 1) [] j)
strncpy-at (suc n) dest d (c ∷ s) j =
    ground (arith, strncpy-at n (store dest d c) (d + 1) s j, byte_at-cons c s (j - d))

-- `strcpy` writes the text and its terminator, and nothing else.
pub strcpy-at :
    (dest : Mem) (d : ℕ) (s : List ℕ) (j : ℕ)
    → strcpy dest d s j ≡ (if leb d j && leb j (d + length s) then byte_at s (j - d) else dest j)
unfolding strcpy store
strcpy-at dest d [] j = ground arith
strcpy-at dest d (c ∷ s) j =
    ground (arith, strcpy-at (store dest d c) (d + 1) s j, byte_at-cons c s (j - d))

strncmp_zero :
    (n : ℕ) (s t : List ℕ)
    → IsText s
    → IsText t
    → (j : ℕ) → strncmp n s t ≡ pos 0
    → j < n
    → byte_at s j ≡ byte_at t j
unfolding strncmp
strncmp_zero zero s t hs ht j e lt = absurd (omega arith)
strncmp_zero (suc n) [] [] hs ht j e lt = refl
strncmp_zero (suc n) [] (d ∷ t) hs ht j e lt = ground arith
strncmp_zero (suc n) (c ∷ s) [] hs ht j e lt = ground arith
strncmp_zero (suc n) (c ∷ s) (d ∷ t) hs ht zero e lt = ground arith
strncmp_zero (suc n) (c ∷ s) (d ∷ t) hs ht (suc j) e lt =
    ground (arith, strncmp_zero n s t hs.1 ht.1 j)

strncmp_same :
    (n : ℕ) (s t : List ℕ) → ((j : ℕ) → j < n → byte_at s j ≡ byte_at t j) → strncmp n s t ≡ pos 0
unfolding strncmp
strncmp_same zero s t h = refl
strncmp_same (suc n) s t h = ground (
  arith,
  h 0,
  byte_at-head s,
  byte_at-head t,
  strncmp_same n (tail_bytes s) (tail_bytes t)
      (λ j lt. sym (byte_at-tail s j) ∙ h (suc j) (omega arith) ∙ byte_at-tail t j),
)
  where
    byte_at-head : (s : List ℕ) → byte_at s 0 ≡ head_byte s
    byte_at-head [] = refl
    byte_at-head (c ∷ s) = refl

    byte_at-tail : (s : List ℕ) (j : ℕ) → byte_at s (suc j) ≡ byte_at (tail_bytes s) j
    byte_at-tail [] j = refl
    byte_at-tail (c ∷ s) j = refl

-- `strncmp` of two texts without zero bytes is 0 exactly when their first n bytes agree, terminators included.
pub strncmp-eq_iff :
    (n : ℕ) (s t : List ℕ)
    → IsText s
    → IsText t
    → (strncmp n s t ≡ pos 0) ↔ ((j : ℕ) → j < n → byte_at s j ≡ byte_at t j)
strncmp-eq_iff n s t hs ht = (λ e j lt. strncmp_zero n s t hs ht j e lt, λ h. strncmp_same n s t h)
