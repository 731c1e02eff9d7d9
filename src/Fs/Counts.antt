-- ===== src/Fs/Counts.antt =====
-- The free counts of the super block and of the group descriptors, as fs.c keeps them on the disk.
pub mod Laws
use ios.Prelude.{
  ℕ, zero, suc, ◌+◌, ◌-◌, ◌*◌, ◌/◌, ◌%◌, ◌^◌, leb, ◌==◌, if◌then◌else◌, u16, u32, ℤ, pos, negsuc,
  Option, none, some,
}
use ios.Mem.{Mem, zeros, get_u16, get_u32, put_u16, put_u32}
use ios.Disk.{block_read, block_write, fs_error, fs_success, max_block_size}
use ios.Fs.Layout.{
  super_block_base, gdt_base, sb_free_block_count, sb_free_inode_count, gd_size,
  gd_free_blocks_count, gd_free_inodes_count, inode_group, data_group,
}

-- `count + num` for a `uint32_t` count: a sum wraps; a difference is made only if it fits.
unfoldable pub adjusted : ℕ → ℤ → Option ℕ
adjusted count (pos n) = some (u32 (count + n))
adjusted count (negsuc n) = if leb (n + 1) count then some (count - (n + 1)) else none

sb_adjusted : Mem → Mem → ℕ → Option ℕ → ℤ × Mem
sb_adjusted storage block field none = (fs_error, storage)
sb_adjusted storage block field (some count) =
    (fs_success, (block_write storage super_block_base (put_u32 block field count)).1)

-- `setSbFreeBlockCount` and `setSbFreeInodeCount`, by the field.
pub set_sb_count : ℕ → Mem → ℤ → ℤ × Mem
set_sb_count field storage num =
    let block = (block_read storage super_block_base zeros).1 in
    sb_adjusted storage block field (adjusted (get_u32 block field) num)

abbrev pub set_sb_free_block_count : Mem → ℤ → ℤ × Mem
set_sb_free_block_count = set_sb_count sb_free_block_count

abbrev pub set_sb_free_inode_count : Mem → ℤ → ℤ × Mem
set_sb_free_inode_count = set_sb_count sb_free_inode_count

gd_adjusted : Mem → Mem → ℕ → ℕ → Option ℕ → ℤ × Mem
gd_adjusted storage block at field none = (fs_error, storage)
gd_adjusted storage block at field (some count) =
    (fs_success, (block_write storage at (put_u16 block field (u16 count))).1)

-- `setGdFreeBlockCount` and `setGdFreeInodeCount`, by the field and the group.
pub set_gd_count : ℕ → ℕ → Mem → ℤ → ℤ × Mem
set_gd_count field group storage num =
    let at = gdt_base + group * gd_size / max_block_size in
    let offset = group % (max_block_size / gd_size) * gd_size in
    let block = (block_read storage at zeros).1 in
    gd_adjusted storage block at (offset + field) (adjusted (get_u16 block (offset + field)) num)

abbrev pub set_gd_free_block_count : Mem → ℕ → ℤ → ℤ × Mem
set_gd_free_block_count storage free_data_block =
    set_gd_count gd_free_blocks_count (data_group free_data_block) storage

abbrev pub set_gd_free_inode_count : Mem → ℕ → ℤ → ℤ × Mem
set_gd_free_inode_count storage free_inode =
    set_gd_count gd_free_inodes_count (inode_group free_inode) storage
