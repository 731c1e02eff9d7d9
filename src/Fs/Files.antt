-- ===== src/Fs/Files.antt =====
-- The contents of files in fs.c: reading and writing.
-- A pending status of a call that the code ignores is ignored here too.
pub mod Remove
pub mod Access
pub mod Keeps
pub mod RoundTrip
pub mod Create
use ios.Prelude.{
  ℕ, zero, suc, ◌+◌, ◌-◌, ◌*◌, ◌/◌, ◌%◌, Bool, true, false, not, ◌&&◌, ◌||◌, List, [], ◌∷◌, ◌++◌,
  Option, none, some, ltb, leb, ◌==◌, if◌then◌else◌, ℤ, pos, negsuc, u32, u64, bit_or,
}
use ios.Mem.{Mem, store, blit, fill, all_bytes, zeros, put_u32, get_u16, at_offset}
use ios.Text.{strlen}
use ios.Mem.{c_string}
use ios.Disk.{block_read, block_write, fs_error, fs_success, max_block_size}
use ios.Fs.Layout.{
  max_entry_name_length, blocks_per_group, block_bitmap_base, file_type_dir, user_permission,
  fs_d_blocks, entry_name, entry_name_len, entry_inode, dir_entry_size, inode_mode, inode_bytes,
  inode_blocks, inode_block, put_inode_mode, put_inode_bytes, put_inode_blocks, put_inode_block,
  data_group, gd_free_inodes_count, Filesystem, DirEntryLocation, FsNode,
}
use ios.Fs.Bitmap.{get_free_block_number, get_free_inode_number, set_zero_bit}
use ios.Fs.Inodes.{get_inode, insert_inode_table}
use ios.Fs.Counts.{
  set_sb_free_block_count, set_sb_free_inode_count, set_gd_free_block_count,
  set_gd_free_inode_count,
}
use ios.Fs.Names.{create_name, lookup_name, my_strnlen}
use ios.Fs.Directory.{lookup_entry, insert_entry}
use mathlib.Core.Option

-- The later of two offsets, and the earlier.
abbrev pub later : ℕ → ℕ → ℕ
later a b = if ltb b a then a else b

abbrev pub earlier : ℕ → ℕ → ℕ
earlier a b = if ltb b a then b else a

-- What `fillDataBlock` writes to block i: the part of the buffer that falls into it, over zeros.
unfoldable pub data_block : ℕ → ℕ → Mem → ℕ → Mem
data_block length offset buffer i =
    let block_start = i * max_block_size in
    let copy_start = later offset block_start in
    let copy_end = earlier (offset + length) (block_start + max_block_size) in
    if ltb copy_start copy_end
    then blit zeros (copy_start - block_start) buffer (copy_start - offset) (copy_end - copy_start)
    else zeros

-- `fillDataBlock` at block i with `left` blocks to go.
unfoldable pub fill_data_block : ℕ → ℕ → Mem → Mem → ℕ → ℕ → Mem → Mem
fill_data_block zero i storage inode length offset buffer = storage
fill_data_block (suc left) i storage inode length offset buffer =
    fill_data_block left (i + 1)
      (block_write storage (inode_block inode i) (data_block length offset buffer i)).1 inode length
      offset buffer

-- Clears a block's bit in its group's bitmap: the read, `setZeroBit` and the write back.
unfoldable pub release_bit : Mem → ℕ → Mem
release_bit storage block_num =
    let at = blocks_per_group * data_group block_num + block_bitmap_base in
    let bitmap = (block_read storage at zeros).1 in
    (block_write storage at (set_zero_bit (block_num % blocks_per_group) bitmap)).1

-- Gives one block back in `fsWrite`: the counts, then the bit.
unfoldable pub release_block : Mem → ℕ → Mem
release_block storage block_num =
    let storage1 = (set_sb_free_block_count storage (pos 1)).1 in
    let storage2 = (set_gd_free_block_count storage1 block_num (pos 1)).1 in
    release_bit storage2 block_num

-- The roll back of `fsWrite`: the blocks below i are given back down to `blocks`, the last first.
unfoldable pub roll_back : ℕ → ℕ → Mem → Mem → Mem
roll_back zero i storage inode = storage
roll_back (suc left) i storage inode =
    roll_back left (i - 1) (release_block storage (inode_block inode (i - 1))) inode

-- The allocation loop at i with `left` blocks to get, after `got` of them; on a failure those are
-- given back.
unfoldable pub grow_blocks : Filesystem → ℕ → ℕ → ℕ → Mem → Mem → Option Mem × Mem
grow_blocks fs zero i got storage inode = (some inode, storage)
grow_blocks fs (suc left) i got storage inode =
    let (new_block, storage1) = get_free_block_number fs storage in
    let storage2 = (set_sb_free_block_count storage1 (negsuc 0)).1 in
    let storage3 = (set_gd_free_block_count storage2 new_block (negsuc 0)).1 in
    let rest = grow_blocks fs left (i + 1) (got + 1) storage3 (put_inode_block inode i new_block) in
    if new_block == 0 then (none, roll_back got i storage1 inode) else rest

-- The loop that gives back the blocks past the new end.
unfoldable pub shrink_blocks : ℕ → ℕ → Mem → Mem → Mem × Mem
shrink_blocks zero i storage inode = (inode, storage)
shrink_blocks (suc left) i storage inode =
    shrink_blocks left (i + 1) (release_block storage (inode_block inode i))
      (put_inode_block inode i 0)

-- The last part of `fsWrite`, when all blocks are there.
unfoldable pub write_blocks : ℕ → ℕ → ℕ → ℕ → Mem → Mem → Mem → Mem
write_blocks block_count number length offset buffer inode storage =
    let (inode', storage1) =
      shrink_blocks (inode_blocks inode - block_count) block_count storage inode in
    let inode'' = put_inode_blocks inode' block_count in
    insert_inode_table (fill_data_block block_count 0 storage1 inode'' length offset buffer) number
      inode''

-- `blockCount`: at least one block.
unfoldable pub blocks_for : ℕ → ℕ → ℕ
blocks_for offset length =
    let count = u32 (u64 (offset + length + max_block_size - 1) / max_block_size) in
    if count == 0 then 1 else count

unfoldable pub write_with : Filesystem → ℕ → ℕ → ℕ → Mem → Mem → ℤ × Mem → ℤ × Mem
write_with fs number offset length buffer storage (negsuc n, inode) = (fs_error, storage)
write_with fs number offset length buffer storage (pos n, inode) =
    let block_count = blocks_for offset length in
    let blocks = inode_blocks inode in
    let inode1 = put_inode_bytes inode (offset + length) in
    let (grown, storage1) = grow_blocks fs (block_count - blocks) blocks 0 storage inode1 in
    elim grown [
      | none ↦ (fs_error, storage1)
      | some inode2 ↦
          (fs_success, write_blocks block_count number length offset buffer inode2 storage1)
    ]

-- `fsWrite`: the inode is taken from the directory entry on the disk.
unfoldable pub fs_write : Filesystem → Mem → DirEntryLocation → ℕ → ℕ → Mem → ℤ × Mem
fs_write fs storage location offset length buffer =
    let block = (block_read storage location.block zeros).1 in
    let number = entry_inode (at_offset block (dir_entry_size * location.offset)) in
    if ltb fs_d_blocks (blocks_for offset length)
    then (fs_error, storage)
    else write_with fs number offset length buffer storage (get_inode storage number zeros)

-- The number of bytes that `fsRead` copies, and what it copies them to.
unfoldable pub read_size : ℕ → ℕ → ℕ → ℕ
read_size offset length size =
    let wanted = u32 length in
    let inside = if ltb size (u32 (offset + wanted)) then size - offset else wanted in
    if ltb max_block_size (u32 (offset % max_block_size + inside))
    then max_block_size - offset % max_block_size
    else inside

unfoldable pub read_with : Mem → ℕ → ℕ → Mem → ℤ × Mem → ℤ × Mem
read_with storage offset length buffer (negsuc n, inode) = (negsuc 0, buffer)
read_with storage offset length buffer (pos n, inode) =
    let count = offset / max_block_size in
    let size = read_size offset length (inode_bytes inode) in
    let block = (block_read storage (inode_block inode count) zeros).1 in
    if leb (inode_bytes inode) offset
    then (pos 0, buffer)
    else if leb (inode_blocks inode) count
    then (pos 0, buffer)
    else (pos size, blit buffer 0 block (offset % max_block_size) size)

-- `fsRead` with a node and a buffer; the offset is an `int` that is not negative.
unfoldable pub fs_read : Mem → ℕ → ℕ → ℕ → Mem → ℤ × Mem
fs_read storage inode_num offset length buffer =
    if length == 0
    then (negsuc 0, buffer)
    else read_with storage offset length buffer (get_inode storage inode_num zeros)
