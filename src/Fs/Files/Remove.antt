-- ===== src/Fs/Files/Remove.antt =====
-- `fsRemove` and `fsRmdir` of fs.c.
use ios.Prelude.{
  ℕ, zero, suc, ◌+◌, ◌-◌, ◌*◌, ◌/◌, ◌%◌, Bool, not, none, some, ltb, ◌==◌, if◌then◌else◌, ℤ, pos,
  u32, bit_and,
}
use ios.Mem.{Mem, store, blit, zeros, at_offset}
use ios.Disk.{block_read, block_write, fs_error, fs_success}
use ios.Fs.Layout.{
  blocks_per_group, inodes_per_group, inode_bitmap_base, file_type_dir, fs_d_blocks, entry_name,
  entry_inode, dir_entry_size, dir_entry_free, inode_mode, inode_blocks, inode_block,
  DirEntryLocation,
}
use ios.Fs.Bitmap.{set_zero_bit}
use ios.Fs.Inodes.{get_inode, insert_inode_table}
use ios.Fs.Counts.{
  set_sb_free_block_count, set_sb_free_inode_count, set_gd_free_block_count,
  set_gd_free_inode_count,
}
use ios.Fs.Directory.{lookup_entry, set_entry}
use ios.Fs.Files.{release_bit}

-- One data block: cleared, counted free, its bit cleared.
unfoldable pub clear_block : Mem → ℕ → Mem
clear_block storage block_num =
    let storage1 = (block_write storage block_num zeros).1 in
    let storage2 = (set_gd_free_block_count storage1 block_num (pos 1)).1 in
    let storage3 = (set_sb_free_block_count storage2 (pos 1)).1 in release_bit storage3 block_num

-- The loop over the inode's blocks at i with `left` to go; only the direct ones are given back.
unfoldable pub clear_blocks : ℕ → ℕ → Mem → Mem → Mem
clear_blocks zero i storage inode = storage
clear_blocks (suc left) i storage inode =
    clear_blocks left (i + 1)
      (if ltb i fs_d_blocks then clear_block storage (inode_block inode i) else storage) inode

-- The entry that `setEntry` puts in place of the removed one: zeros but for the marker.
abbrev pub removed_entry : Mem
removed_entry = store zeros entry_name dir_entry_free

-- What both functions do after the check of the type: blocks, entry, inode, inode bitmap, counts.
-- `bitmapNum` is an `int`, passed on as `uint32_t`.
unfoldable pub remove_entry : Mem → DirEntryLocation → Mem → Mem
remove_entry storage location inode =
    let storage1 = clear_blocks (inode_blocks inode) 0 storage inode in
    let block = (block_read storage1 location.block zeros).1 in
    let number = entry_inode (at_offset block (dir_entry_size * location.offset)) in
    let cleared = blit block (dir_entry_size * location.offset) zeros 0 dir_entry_size in
    let storage2 = (block_write storage1 location.block cleared).1 in
    let storage3 = (set_entry storage2 location removed_entry).1 in
    let storage4 = insert_inode_table storage3 number zeros in
    let at = number / inodes_per_group * blocks_per_group + inode_bitmap_base in
    let bitmap = (block_read storage4 at zeros).1 in
    let bit = u32 (number % inodes_per_group + 4294967296 - 1) in
    let storage5 = (block_write storage4 at (set_zero_bit bit bitmap)).1 in
    let storage6 = (set_sb_free_inode_count storage5 (pos 1)).1 in
    (set_gd_free_inode_count storage6 number (pos 1)).1

abbrev pub is_directory : Mem → Bool
is_directory inode = not (bit_and (inode_mode inode) file_type_dir == 0)

-- `fsRemove` of the node with an inode number and a location. The result of `getInode` is ignored.
unfoldable pub fs_remove : Mem → ℕ → DirEntryLocation → ℤ × Mem
fs_remove storage inode_num location =
    let inode = (get_inode storage inode_num zeros).1 in
    if is_directory inode
    then (fs_error, storage)
    else (fs_success, remove_entry storage location inode)

-- `fsRmdir`: an entry in use, other than the dots, makes it fail.
unfoldable pub fs_rmdir : Mem → ℕ → DirEntryLocation → ℤ × Mem
fs_rmdir storage inode_num location =
    let inode = (get_inode storage inode_num zeros).1 in
    if is_directory inode
    then elim (lookup_entry storage inode_num none) [
      | some node ↦ (fs_error, storage)
      | none ↦ (fs_success, remove_entry storage location inode)
    ]
    else (fs_error, storage)
