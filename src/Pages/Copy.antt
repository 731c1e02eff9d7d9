-- ===== src/Pages/Copy.antt =====
-- The copy in `krealloc` of src/mm/page_alloc.c, by the byte loop of src/framework/mem.c.
use ios.Prelude.{ℕ, zero, suc, ◌+◌, ◌-◌, ◌<◌, ◌≤◌, ◌≡◌, ◌⊎◌, arith, ◌∙◌, ap}
use ios.Mem.{Mem, store, blit}
use ios.Pages.{copy_bytes}

-- Between ranges that do not meet, the copy is the one that takes all bytes at once.
pub copy_bytes-blit :
    (n dest src : ℕ) (m : Mem)
    → (dest + n ≤ src) ⊎ (src + n ≤ dest)
    → (j : ℕ) → copy_bytes n dest src m j ≡ blit m dest m src n j
unfolding copy_bytes blit store
copy_bytes-blit zero dest src m apart j = ground arith
copy_bytes-blit (suc n) dest src m apart j =
    let rest = copy_bytes-blit n (dest + 1) (src + 1) (store m dest (m src)) (ground arith) j in
    rest ∙ later (shifted dest src j) (first dest src j)
  where
    later :
        (dest < j → m (src + 1 + (j - (dest + 1))) ≡ m (src + (j - dest)))
        → (dest ≡ j → m src ≡ m (src + (j - dest)))
        → blit (store m dest (m src)) (dest + 1) (store m dest (m src)) (src + 1) n j
          ≡ blit m dest m src (suc n) j
    later behind at = ground (arith, behind, at)

    shifted : (d s i : ℕ) → d < i → m (s + 1 + (i - (d + 1))) ≡ m (s + (i - d))
    shifted d s i lt = ap m (omega arith)

    first : (d s i : ℕ) → d ≡ i → m s ≡ m (s + (i - d))
    first d s i e = ap m (omega arith)
