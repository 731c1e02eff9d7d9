-- ===== src/Fs/Bitmap.antt =====
-- The bitmaps of fs.c: bit n is bit 7 - n % 8 of byte n / 8.
pub mod Search
pub mod Take
use ios.Prelude.{
  ℕ, zero, suc, ◌+◌, ◌-◌, ◌*◌, ◌/◌, ◌%◌, ◌^◌, Bool, ◌&&◌, Option, none, some, ltb, leb, ◌==◌,
  if◌then◌else◌, bit_and, bit_xor, u32, min,
}
use ios.Bits.{has_bit, set_bit, clear_bit, flip_bit}
use ios.Mem.{Mem, store, zeros, get_u16, get_u32}
use ios.Disk.{block_read, block_write, max_block_size}
use ios.Fs.Layout.{
  Filesystem, blocks_per_group, block_bitmap_base, inode_bitmap_base, sb_block_per_group,
  sb_inode_per_group, sb_block_group_number,
}

-- The position in its byte of bit n: `0x80 >> (n % 8)` is 2 to that power.
abbrev pub bit_position : ℕ → ℕ
bit_position n = 7 - n % 8

-- `bitmap[n / 8] & (0x80 >> (n % 8))` is not zero.
unfoldable pub is_taken : Mem → ℕ → Bool
is_taken bitmap n = has_bit (bitmap (n / 8)) (bit_position n)

-- `setBit`; the switch's value is 0x80 >> (number % 8).
unfoldable pub set_bitmap_bit : ℕ → Mem → Mem
set_bitmap_bit number bitmap =
    store bitmap (number / 8) (set_bit (bitmap (number / 8)) (bit_position number))

-- `setZeroBit`
unfoldable pub set_zero_bit : ℕ → Mem → Mem
set_zero_bit number bitmap =
    store bitmap (number / 8) (clear_bit (bitmap (number / 8)) (bit_position number))

-- The `^=` of `setInodeBitmap` and `setBlockBitmap`, where `indexNum` is `bitNum / 8`.
unfoldable pub flip_bitmap_bit : ℕ → Mem → Mem
flip_bitmap_bit number bitmap =
    store bitmap (number / 8) (flip_bit (bitmap (number / 8)) (bit_position number))

-- The inner loop: the first clear bit of byte i from position j on, `left` positions to go.
unfoldable pub free_in_byte : ℕ → ℕ → Mem → ℕ → Option ℕ
free_in_byte zero j bitmap i = none
free_in_byte (suc left) j bitmap i =
    let rest = free_in_byte left (j + 1) bitmap i in
    if has_bit (bitmap i) (7 - j) then rest else some (8 * i + j)

-- The outer loop from byte i on, `left` bytes to go; a byte of ones is passed over.
unfoldable pub free_bit : ℕ → ℕ → Mem → Option ℕ
free_bit zero i bitmap = none
free_bit (suc left) i bitmap =
    let rest = free_bit left (i + 1) bitmap in
    if bitmap i == 0xFF
    then rest
    else elim (free_in_byte 8 0 bitmap i) [ none ↦ rest | some n ↦ some n ]

-- The bytes that the loop looks at: `(count + 7) / 8`, cut at the size of the bitmap.
abbrev pub bitmap_bytes : ℕ → ℕ
bitmap_bytes count = min (u32 (count + 7) / 8) max_block_size

-- What is done with the bit that was found in the bitmap of block `at`: it is toggled, the bitmap
-- written back, and its number counted from `first`; 0 is returned when there is none.
unfoldable pub take_bit : ℕ → ℕ → Mem → Mem → Option ℕ → ℕ × Mem
take_bit at first storage bitmap none = (0, storage)
take_bit at first storage bitmap (some n) =
    (first + n, (block_write storage at (flip_bitmap_bit n bitmap)).1)

-- `getFreeBlockNumber`: the block's number, 0 if there is none, and the new storage.
unfoldable pub get_free_block_number : Filesystem → Mem → ℕ × Mem
get_free_block_number fs storage =
    let base = get_u16 fs.sb sb_block_group_number * blocks_per_group in
    let bitmap = (block_read storage (base + block_bitmap_base) zeros).1 in
    take_bit (base + block_bitmap_base) base storage bitmap
      (free_bit (bitmap_bytes (get_u32 fs.sb sb_block_per_group)) 0 bitmap)

-- `getFreeInodeNumber`: inode numbers count from 1.
unfoldable pub get_free_inode_number : Filesystem → Mem → ℕ × Mem
get_free_inode_number fs storage =
    let base = get_u16 fs.sb sb_block_group_number * blocks_per_group in
    let bitmap = (block_read storage (base + inode_bitmap_base) zeros).1 in
    take_bit (base + inode_bitmap_base) 1 storage bitmap
      (free_bit (bitmap_bytes (get_u32 fs.sb sb_inode_per_group)) 0 bitmap)
