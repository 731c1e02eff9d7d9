-- ===== src/Fs/Inodes.antt =====
-- The inode table of fs.c.
pub mod Laws
use ios.Prelude.{ℕ, ◌+◌, ◌-◌, ◌*◌, ◌/◌, ◌%◌, ◌||◌, ltb, ◌==◌, if◌then◌else◌, u32, ℤ, pos, negsuc}
use ios.Mem.{Mem, blit, zeros}
use ios.Disk.{block_read, block_write, fs_error, fs_success}
use ios.Fs.Layout.{
  number_of_inodes, inodes_per_group, inodes_per_block, inode_size, inode_table_base,
  blocks_per_group,
}

-- The block that holds inode `n + 1`, and the offset of the inode in it.
abbrev pub inode_table_block : ℕ → ℕ
inode_table_block n =
    inode_table_base
    + n / inodes_per_group * blocks_per_group
    + n % inodes_per_group / inodes_per_block

abbrev pub inode_table_offset : ℕ → ℕ
inode_table_offset n = inode_size * (n % inodes_per_group % inodes_per_block)

unfoldable pub inode_from_block : ℕ → Mem → ℤ × Mem → ℤ × Mem
inode_from_block n buffer (pos zero_or_more, block) =
    if zero_or_more == 0
    then (fs_success, blit buffer 0 block (inode_table_offset n) inode_size)
    else (fs_error, buffer)
inode_from_block n buffer (negsuc k, block) = (fs_error, buffer)

-- `buffer` is what the caller's `Inode` holds before.
unfoldable pub get_inode : Mem → ℕ → Mem → ℤ × Mem
get_inode storage inode_num buffer =
    if inode_num == 0 || ltb number_of_inodes inode_num
    then (fs_error, buffer)
    else inode_from_block (inode_num - 1) buffer
        (block_read storage (inode_table_block (inode_num - 1)) zeros)

-- `insertInodeTable`. The number is an `int`, and `freeInode--` and the divisions are done on it
-- as an `int`: the callers pass numbers of inodes, from 1 on.
unfoldable pub insert_inode_table : Mem → ℕ → Mem → Mem
insert_inode_table storage free_inode inode =
    let n = free_inode - 1 in
    let block = (block_read storage (inode_table_block n) zeros).1 in
    (block_write storage (inode_table_block n)
      (blit block (inode_table_offset n) inode 0 inode_size)).1
