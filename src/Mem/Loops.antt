-- ===== src/Mem/Loops.antt =====
-- The loops of src/framework/mem.c against their meaning, for every length.
use ios.Prelude.{ℕ, zero, suc, ◌+◌, ◌<◌, ◌≡◌, fun_ext, arith, u8, ◌↔◌, pos, ap, ◌∙◌}
use ios.Mem.{Mem, store, blit, fill, memcpy_loop, memcpy, memset, memcmp}

memcpy_loop-at :
    (left i : ℕ) (dest : Mem) (d : ℕ) (src : Mem) (s j : ℕ)
    → memcpy_loop left i dest d src s j ≡ blit dest (d + i) src (s + i) left j
unfolding memcpy_loop blit store
memcpy_loop-at zero i dest d src s j = ground arith
memcpy_loop-at (suc left) i dest d src s j =
    ground (arith, memcpy_loop-at left (i + 1) (store dest (d + i) (src (s + i))) d src s j)

-- `memcpy` of n bytes gives the destination with exactly those n bytes replaced.
pub memcpy-blit :
    (dest : Mem) (d : ℕ) (src : Mem) (s n : ℕ) → memcpy dest d src s n ≡ blit dest d src s n
unfolding memcpy blit
memcpy-blit dest d src s n = fun_ext (λ j. ground (arith, memcpy_loop-at n 0 dest d src s j))

memset-at : (n p value : ℕ) (m : Mem) (j : ℕ) → memset m p value n j ≡ fill m p (u8 value) n j
unfolding memset fill store
memset-at zero p value m j = ground arith
memset-at (suc n) p value m j = ground (arith, memset-at n (p + 1) value (store m p (u8 value)) j)

-- `memset` of n bytes gives the object with exactly those n bytes set to the low byte of value.
pub memset-fill : (n p value : ℕ) (m : Mem) → memset m p value n ≡ fill m p (u8 value) n
memset-fill n p value m = fun_ext (λ j. memset-at n p value m j)

memcmp-zero :
    (n : ℕ) (m1 : Mem) (a : ℕ) (m2 : Mem) (b j : ℕ)
    → memcmp m1 a m2 b n ≡ pos 0
    → j < n
    → m1 (a + j) ≡ m2 (b + j)
unfolding memcmp
memcmp-zero zero m1 a m2 b j h lt = absurd (omega arith)
memcmp-zero (suc n) m1 a m2 b zero h lt = ground arith
memcmp-zero (suc n) m1 a m2 b (suc j) h lt =
    let e : a + 1 + j ≡ a + suc j = omega arith in
    let f : b + 1 + j ≡ b + suc j = omega arith in
    ground (arith, memcmp-zero n m1 (a + 1) m2 (b + 1) j)

memcmp_same :
    (n : ℕ) (m1 : Mem) (a : ℕ) (m2 : Mem) (b : ℕ)
    → ((j : ℕ) → j < n → m1 (a + j) ≡ m2 (b + j))
    → memcmp m1 a m2 b n ≡ pos 0
unfolding memcmp
memcmp_same zero m1 a m2 b h = ground arith
memcmp_same (suc n) m1 a m2 b h =
    let first : m1 a ≡ m2 b = ap m1 (omega arith) ∙ h 0 (omega arith) ∙ ap m2 (omega arith) in
    let rest =
      memcmp_same n m1 (a + 1) m2 (b + 1)
        (λ j lt. ap m1 (omega arith) ∙ h (suc j) (omega arith) ∙ ap m2 (omega arith)) in
    ground (arith, first, rest)

-- `memcmp` is 0 exactly when the two ranges hold the same bytes.
pub memcmp-eq_iff :
    (n : ℕ) (m1 : Mem) (a : ℕ) (m2 : Mem) (b : ℕ)
    → (memcmp m1 a m2 b n ≡ pos 0) ↔ ((j : ℕ) → j < n → m1 (a + j) ≡ m2 (b + j))
memcmp-eq_iff n m1 a m2 b =
    (λ h j lt. memcmp-zero n m1 a m2 b j h lt, λ h. memcmp_same n m1 a m2 b h)
