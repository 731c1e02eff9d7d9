-- ===== src/Fs/Counts/Laws.antt =====
-- What the functions on the free counts do to the disk.
use ios.Prelude.{
  ℕ, ◌+◌, ◌*◌, ◌^◌, ◌<◌, ◌≤◌, ◌≡◌, ◌⊎◌, ◌%◌, inl, inr, le_or_gt, leb, true, false, arith, refl, ℤ,
  pos, negsuc, ◌∙◌, Option, none, some,
}
use ios.Mem.{Mem, blit, zeros, store, get_u32, put_u32}
use ios.Mem.Fields.{get_u32-put_u32}
use ios.Disk.{fs_success, fs_error, max_block_size}
use ios.Disk.Laws.{block_at, with_block, block_read_lem, block_write_lem}
use ios.Fs.Layout.{super_block_base}
use ios.Fs.Counts.{adjusted, sb_adjusted, set_sb_count}

-- A field of the super block on the disk.
abbrev pub sb_field : Mem → ℕ → ℕ
sb_field storage field = get_u32 (block_at storage super_block_base zeros) field

-- No byte outside the field's four has changed.
abbrev pub SameOutside : Mem → ℕ → Mem → Type 0
SameOutside storage field storage' =
    (a : ℕ)
    → (a < super_block_base * max_block_size + field)
      ⊎ (super_block_base * max_block_size + field + 4 ≤ a)
    → storage' a ≡ storage a

-- Without a new count, FS_ERROR and the disk as it was; else the field holds it.
abbrev StoredResult : Mem → ℕ → Option ℕ → ℤ × Mem → Type 0
StoredResult storage field none (status, storage') = (status ≡ fs_error) × (storage' ≡ storage)
StoredResult storage field (some count) (status, storage') =
    (status ≡ fs_success) × (sb_field storage' field ≡ count) × SameOutside storage field storage'

sb_adjusted-StoredResult :
    (storage : Mem) (field : ℕ) (r : Option ℕ)
    → field + 4 ≤ max_block_size
    → ((count : ℕ) → r ≡ some count → count < 2 ^ 32)
    → StoredResult storage field r
        (sb_adjusted storage (block_at storage super_block_base zeros) field r)
unfolding sb_adjusted
sb_adjusted-StoredResult storage field none h small = (refl, refl)
sb_adjusted-StoredResult storage field (some count) h small =
    let new = put_u32 (block_at storage super_block_base zeros) field count in
    rw (block_write_lem storage super_block_base new (omega arith)) (
      refl,
      same_field storage new field h ∙ get_u32-put_u32 _ field count (small count refl),
      λ a out. unfold blit put_u32 store in ground arith,
    )
  where
    same_field :
        (storage new : Mem) (field : ℕ)
        → field + 4 ≤ max_block_size
        → sb_field (with_block storage super_block_base new) field ≡ get_u32 new field
    same_field storage new field h = unfold get_u32 blit in ground arith

adjusted-lt :
    (count : ℕ) (num : ℤ) (new : ℕ) → count < 2 ^ 32 → adjusted count num ≡ some new → new < 2 ^ 32
unfolding adjusted
adjusted-lt count (pos n) new h e = ground arith
adjusted-lt count (negsuc n) new h e = ground arith

set_sb_count-StoredResult :
    (storage : Mem) (field : ℕ) (num : ℤ)
    → field + 4 ≤ max_block_size
    → sb_field storage field < 2 ^ 32
    → StoredResult storage field
        (adjusted (sb_field storage field) num)
        (set_sb_count field storage num)
unfolding set_sb_count
set_sb_count-StoredResult storage field num h small =
    rw (block_read_lem storage super_block_base zeros (omega arith)) (
      sb_adjusted-StoredResult storage field _ h
        (λ count e. adjusted-lt (sb_field storage field) num count small e))

-- Adding n: the field holds the sum as a `uint32_t`. Taking n + 1 away: either the field held that much,
-- and holds the difference; or it held less, and the call fails with the disk as it was.
abbrev pub CountResult : Mem → ℕ → ℤ → ℤ × Mem → Type 0
CountResult storage field (pos n) (status, storage') =
    (status ≡ fs_success)
    × (sb_field storage' field ≡ (sb_field storage field + n) % 2 ^ 32)
    × SameOutside storage field storage'
CountResult storage field (negsuc n) (status, storage') =
    ((n < sb_field storage field)
      × (status ≡ fs_success)
      × (sb_field storage' field + (n + 1) ≡ sb_field storage field)
      × SameOutside storage field storage')
    ⊎ ((sb_field storage field ≤ n) × (status ≡ fs_error) × (storage' ≡ storage))

StoredResult-CountResult :
    (storage : Mem) (field : ℕ) (num : ℤ) (r : ℤ × Mem)
    → StoredResult storage field (adjusted (sb_field storage field) num) r
    → CountResult storage field num r
unfolding adjusted
StoredResult-CountResult storage field (pos n) r h = h
StoredResult-CountResult storage field (negsuc n) r h =
    elim (le_or_gt (n + 1) (sb_field storage field)) [
      | inl le ↦
          let fits : leb (n + 1) (sb_field storage field) ≡ true = ground arith in
          let stored = (rw fits at h) in
          inl (omega (arith, le), stored.0, omega (arith, stored.1, le), stored.2)
      | inr gt ↦
          let short : leb (n + 1) (sb_field storage field) ≡ false = ground arith in
          let stored = (rw short at h) in inr (omega (arith, gt), stored.0, stored.1)
    ]

-- An `int` whose negative is one.
abbrev pub IsNegatable : ℤ → Type 0
IsNegatable (pos n) = n < 2 ^ 31
IsNegatable (negsuc n) = n + 1 < 2 ^ 31

-- `setSbFreeBlockCount` and `setSbFreeInodeCount`, whose field lies in the block and holds 32 bits, by an
-- `int` whose negative is one: adding to the count in the super block on the disk stores the sum, which
-- wraps; taking away stores the difference when the count is at least that much, and else fails with
-- the disk as it was. No byte outside the field changes.
pub set_sb_count-CountResult :
    (storage : Mem) (field : ℕ) (num : ℤ)
    → field + 4 ≤ max_block_size
    → sb_field storage field < 2 ^ 32
    → IsNegatable num
    → CountResult storage field num (set_sb_count field storage num)
set_sb_count-CountResult storage field num h small negatable =
    StoredResult-CountResult storage field num (set_sb_count field storage num)
      (set_sb_count-StoredResult storage field num h small)
