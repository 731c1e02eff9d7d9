-- ===== src/Fs/Bitmap/Take.antt =====
-- Taking a free block and a free inode number, on the disk.
use ios.Prelude.{
  ℕ, ◌+◌, ◌*◌, ◌/◌, ◌<◌, ◌≤◌, ◌≡◌, Bool, true, false, Option, none, some, ◌==◌, if◌then◌else◌,
  arith, refl, ◌∙◌, ap,
}
use ios.Mem.{Mem, blit, zeros, get_u16, get_u32}
use ios.Disk.{disk_blocks, max_block_size}
use ios.Bits.{has_bit}
use ios.Disk.Laws.{block_at-with_block, block_at, with_block, block_read_lem, block_write_lem}
use ios.Fs.Layout.{
  Filesystem, sb_block_group_number, sb_block_per_group, sb_inode_per_group, block_bitmap_base,
  inode_bitmap_base,
}
use ios.Fs.Bitmap.{
  is_taken, bit_position, flip_bitmap_bit, free_bit, take_bit, get_free_block_number,
  get_free_inode_number,
}
use ios.Fs.Bitmap.Search.{IsBytes, IsFirstClear, free_bit-IsFirstClear, is_taken-flip_bitmap_bit}

-- Whether bit q of the bitmap that fills block `at` of the disk is set.
abbrev pub bit_on_disk : Mem → ℕ → ℕ → Bool
bit_on_disk storage at q = is_taken (block_at storage at zeros) q

-- The result of taking a bit of the bitmap in block `at`, of `count` bits, whose number n is
-- returned as base + n, and 0 when there is none.
abbrev pub TakeResult : ℕ → ℕ → ℕ → Mem → Option ℕ → ℕ × Mem → Type 0
TakeResult at count base storage none (number, storage') =
    ((q : ℕ) → q < count → bit_on_disk storage at q ≡ true) × (number ≡ 0) × (storage' ≡ storage)
TakeResult at count base storage (some n) (number, storage') =
    (number ≡ base + n)
    × (n < count)
    × (bit_on_disk storage at n ≡ false)
    × ((q : ℕ) → q < n → bit_on_disk storage at q ≡ true)
    × ((q : ℕ)
        → q < count
        → bit_on_disk storage' at q ≡ (if n == q then true else bit_on_disk storage at q))
    × ((j : ℕ) → j < at * max_block_size → storage' j ≡ storage j)
    × ((j : ℕ) → (at + 1) * max_block_size ≤ j → storage' j ≡ storage j)

block_at-IsBytes : {storage : Mem} (at : ℕ) → IsBytes storage → IsBytes (block_at storage at zeros)
unfolding blit
block_at-IsBytes {storage} at h i = ground (arith, h (at * max_block_size + i))

rewritten_bit :
    (storage : Mem) (at n q : ℕ)
    → IsBytes storage
    → q < 8192
    → bit_on_disk storage at n ≡ false
    → bit_on_disk (with_block storage at (flip_bitmap_bit n (block_at storage at zeros))) at q
      ≡ (if n == q then true else bit_on_disk storage at q)
rewritten_bit storage at n q h lt clear =
    let new = flip_bitmap_bit n (block_at storage at zeros) in
    same_byte (with_block storage at new) new at q
      (block_at-with_block storage at at new zeros (q / 8) (omega arith) ∙ ground arith)
    ∙ ground (arith, is_taken-flip_bitmap_bit (block_at-IsBytes at h) n q)
  where
    same_byte :
        (st new : Mem) (at q : ℕ)
        → block_at st at zeros (q / 8) ≡ new (q / 8)
        → bit_on_disk st at q ≡ is_taken new q
    same_byte st new at q e = unfold is_taken in ap (λ (x : ℕ). has_bit x (bit_position q)) e

-- Both functions from the outcome of the search.
take_bit-TakeResult :
    (at count first : ℕ) (storage : Mem) (r : Option ℕ)
    → at < disk_blocks
    → count ≤ 8192
    → IsBytes storage
    → IsFirstClear (block_at storage at zeros) 0 count r
    → TakeResult at count first storage r (take_bit at first storage (block_at storage at zeros) r)
unfolding take_bit
take_bit-TakeResult at count first storage none on_disk small h search =
    (λ q lt. search q (omega arith) lt, refl, refl)
take_bit-TakeResult at count first storage (some n) on_disk small h (lo, hi, clear, before) =
    rw (block_write_lem storage at (flip_bitmap_bit n (block_at storage at zeros)) on_disk) (
      refl,
      hi,
      clear,
      λ q lt. before q (omega arith) lt,
      λ q lt. rewritten_bit storage at n q h (omega arith) clear,
      λ j lt. unfold blit in ground arith,
      λ j le. unfold blit in ground arith,
    )

-- On a file system of the one group, with 8192 blocks, `getFreeBlockNumber` returns the first block
-- that the bitmap on the disk has as free, takes it and leaves every other bit and block alone; 0
-- with nothing changed when all blocks are taken.
pub get_free_block_number-takes :
    (fs : Filesystem) (storage : Mem)
    → get_u16 fs.sb sb_block_group_number ≡ 0
    → get_u32 fs.sb sb_block_per_group ≡ 8192
    → IsBytes storage
    → TakeResult block_bitmap_base 8192 0 storage
        (free_bit 1024 0 (block_at storage block_bitmap_base zeros))
        (get_free_block_number fs storage)
unfolding get_free_block_number
get_free_block_number-takes fs storage group count h =
    rw (group, count, block_read_lem storage block_bitmap_base zeros (omega arith))
      (take_bit-TakeResult block_bitmap_base 8192 0 storage _ (omega arith) (omega arith) h
        (free_bit-IsFirstClear 1024 0 8192 (block_at storage block_bitmap_base zeros) refl))

-- On a file system of the one group, with 4096 inodes, `getFreeInodeNumber` returns the first inode
-- that the bitmap on the disk has as free, where inode n + 1 has bit n, takes it and leaves every other
-- bit and block alone; 0 with nothing changed when all inodes are taken.
pub get_free_inode_number-takes :
    (fs : Filesystem) (storage : Mem)
    → get_u16 fs.sb sb_block_group_number ≡ 0
    → get_u32 fs.sb sb_inode_per_group ≡ 4096
    → IsBytes storage
    → TakeResult inode_bitmap_base 4096 1 storage
        (free_bit 512 0 (block_at storage inode_bitmap_base zeros))
        (get_free_inode_number fs storage)
unfolding get_free_inode_number
get_free_inode_number-takes fs storage group count h =
    rw (group, count, block_read_lem storage inode_bitmap_base zeros (omega arith))
      (take_bit-TakeResult inode_bitmap_base 4096 1 storage _ (omega arith) (omega arith) h
        (free_bit-IsFirstClear 512 0 4096 (block_at storage inode_bitmap_base zeros) refl))
