-- ===== src/Fs/Format.antt =====
-- Formatting and mounting in fs.c.
pub mod Mount
use ios.Prelude.{
  ℕ, zero, suc, ◌+◌, ◌-◌, ◌*◌, ◌/◌, ◌%◌, Bool, true, false, ◌&&◌, Option, none, some, ltb, ◌==◌,
  if◌then◌else◌, ℤ, pos, negsuc, u32, u16,
}
use ios.Mem.{Mem, store, blit, fill, zeros, get_u16, get_u32, put_u16, put_u32}
use ios.Disk.{block_read, block_write, fs_error, fs_success, max_block_size}
use ios.Fs.Layout.{
  number_of_groups, blocks_per_group, number_of_inodes, inodes_per_group, inode_size,
  super_block_base, gdt_base, block_bitmap_base, inode_bitmap_base, inode_table_base,
  data_block_base, sb_free_block_count, sb_free_inode_count, sb_block_per_group, sb_inode_per_group,
  sb_magic_signature, sb_block_group_number, gd_size, gd_free_blocks_count, gd_free_inodes_count,
  inode_block, put_inode_mode, put_inode_blocks, put_inode_block, entry_name, entry_name_len,
  dir_entry_size, Filesystem, FsNode,
}
use ios.Fs.Bitmap.{set_bitmap_bit}
use ios.Fs.Inodes.{get_inode}

-- sb->firstDataBlockEachGroup: 1 + 1 + 1 + 1 and the blocks of the inode table.
abbrev pub first_data_block : ℕ
first_data_block = 4 + (inodes_per_group * inode_size + (max_block_size - 1)) / max_block_size

abbrev pub number_of_block : ℕ
number_of_block = blocks_per_group * number_of_groups

-- `fillSuperBlock`, over zeros; fields that are set to 0 stay zeros.
unfoldable pub fill_super_block : Mem
fill_super_block =
    let sb1 = put_u32 zeros 0 number_of_inodes in
    let sb2 = put_u32 sb1 256 first_data_block in
    let sb3 = put_u32 sb2 4 number_of_block in
    let sb4 = put_u32 sb3 8 (number_of_block / 100 * 5) in
    let sb5 = put_u32 sb4 sb_free_block_count (number_of_block - first_data_block - 1) in
    let sb6 = put_u32 sb5 sb_free_inode_count (number_of_inodes - 11) in
    let sb7 = put_u32 sb6 20 super_block_base in
    let sb8 = put_u32 sb7 sb_block_per_group blocks_per_group in
    let sb9 = put_u32 sb8 sb_inode_per_group (number_of_inodes / number_of_groups) in
    let sb10 = put_u16 sb9 sb_magic_signature 0xEF53 in
    let sb11 = put_u32 sb10 80 11 in put_u16 sb11 84 128

-- `fillDescriptorTable`: the descriptor of group i at 32 * i, `left` to go.
unfoldable pub fill_descriptor_table : ℕ → ℕ → Mem → Mem → Mem
fill_descriptor_table zero i gdb sb = gdb
fill_descriptor_table (suc left) i gdb sb =
    let at = i * gd_size in
    let start = block_bitmap_base + blocks_per_group * i in
    let gd1 = put_u32 (fill gdb at 0 gd_size) at start in
    let gd2 = put_u32 gd1 (at + 4) (start + 1) in
    let gd3 = put_u32 gd2 (at + 8) (start + 2) in
    let gd4 =
      put_u16 gd3 (at + gd_free_blocks_count) (get_u32 sb sb_free_block_count / number_of_groups) in
    let gd5 =
      put_u16 gd4 (at + gd_free_inodes_count) (get_u32 sb sb_free_inode_count / number_of_groups) in
    fill_descriptor_table left (i + 1) gd5 sb

-- `initSuperBlock`: the block is 1024 bytes from the address of a structure of 1020, so its last 4
-- bytes come from what stands behind the structure.
unfoldable pub init_super_block : Mem → Mem → ℕ → Mem
init_super_block storage sb group =
    (block_write storage (super_block_base + group * blocks_per_group) sb).1

-- `initFsGdt`: one block of descriptors, of which one group has 32 bytes; `gdt` goes on with what
-- stands behind the table.
unfoldable pub init_fs_gdt : Mem → Mem → ℕ → Mem
init_fs_gdt storage gdt group = (block_write storage (gdt_base + group * blocks_per_group) gdt).1

-- Bits i, i + 1, … of a bitmap, `left` of them.
unfoldable pub set_bits : ℕ → ℕ → Mem → Mem
set_bits zero i bitmap = bitmap
set_bits (suc left) i bitmap = set_bits left (i + 1) (set_bitmap_bit i bitmap)

unfoldable pub init_block_bitmap : Mem → ℕ → Mem
init_block_bitmap storage group =
    (block_write storage (block_bitmap_base + group * blocks_per_group)
      (set_bits data_block_base 0 zeros)).1

unfoldable pub init_inode_bitmap : Mem → ℕ → Mem
init_inode_bitmap storage group =
    (block_write storage (inode_bitmap_base + group * blocks_per_group) (set_bits 10 0 zeros)).1

-- The first block of the root directory: "..", "." and the end marker, which is zeros.
abbrev pub root_entries : Mem
root_entries =
    let name1 = store (store (fill zeros entry_name 32 11) entry_name b'.') (entry_name + 1) b'.' in
    let entry1 = put_u32 (put_u32 name1 0 2) entry_name_len 2 in
    let name2 =
      store (fill entry1 (dir_entry_size + entry_name) 32 11) (dir_entry_size + entry_name) b'.' in
    put_u32 (put_u32 name2 dir_entry_size 2) (dir_entry_size + entry_name_len) 1

-- One round of the loop over the groups: the super block's free blocks less one.
unfoldable pub count_root_block : Mem → ℕ → Mem
count_root_block storage group =
    let at = blocks_per_group * group + super_block_base in
    let block = (block_read storage at zeros).1 in
    let count = u32 (get_u32 block sb_free_block_count + 4294967296 - 1) in
    (block_write storage at (put_u32 block sb_free_block_count count)).1

-- The first group descriptor counts the root's block and directory.
unfoldable pub count_root_directory : Mem → Mem
count_root_directory storage =
    let block = (block_read storage gdt_base zeros).1 in
    let count = u16 (get_u16 block gd_free_blocks_count + 65536 - 1) in
    (block_write storage gdt_base (put_u16 (put_u16 block gd_free_blocks_count count) 16 1)).1

-- The root's inode, number 2: the second of the table's first block, the rest of which is cleared.
abbrev pub root_inode : Mem
root_inode = put_inode_block (put_inode_blocks (put_inode_mode zeros 0x41FF) 1) 0 data_block_base

-- `createRoot`, with one group.
unfoldable pub create_root : Mem → Mem → Mem
create_root storage sb =
    let root_block = 1 + get_u32 sb 256 in
    let storage1 = (block_write storage root_block root_entries).1 in
    let storage2 = count_root_block storage1 0 in
    let storage3 = count_root_directory storage2 in
    let bitmap = (block_read storage3 block_bitmap_base zeros).1 in
    let storage4 = (block_write storage3 block_bitmap_base (set_bitmap_bit root_block bitmap)).1 in
    (block_write storage4 inode_table_base (blit zeros inode_size root_inode 0 inode_size)).1

-- `fsFormat`, with one group: what stands behind the two structures on the stack are arguments.
unfoldable pub fs_format : Mem → Mem → Mem → ℤ × Mem
fs_format past_sb past_gdt storage =
    let sb = blit past_sb 0 (put_u16 fill_super_block sb_block_group_number 0) 0 1020 in
    let gdt = blit past_gdt 0 (fill_descriptor_table number_of_groups 0 zeros sb) 0 gd_size in
    let storage1 = init_super_block storage sb 0 in
    let storage2 = init_fs_gdt storage1 gdt 0 in
    let storage3 = init_block_bitmap storage2 0 in
    let storage4 = init_inode_bitmap storage3 0 in (fs_success, create_root storage4 sb)

-- `validateSb`
unfoldable pub validate_sb : Mem → ℤ
validate_sb block = if get_u16 block sb_magic_signature == 0xEF53 then fs_success else fs_error

-- `readRootBlock`
unfoldable pub read_root_block : Mem → Mem → ℤ × Mem
read_root_block storage block =
    block_read storage (inode_block (get_inode storage 2 zeros).1 0) block

-- The node of the root directory that `readSuperblock` makes: its inode 2, its name "/". `stale` is what
-- the variable `entry` holds before, which the other bytes of the name keep.
abbrev pub root_node : Mem → FsNode
root_node stale = record {
  entry = store (put_u32 (put_u32 stale 0 2) entry_name_len 1) entry_name b'/';
  location = record { group = 0; block = data_block_base; offset = 0 };
}

-- `readSuperblock` of a file system with a disk: `none` is FS_ERROR.
unfoldable pub read_superblock : Mem → Mem → Option (Filesystem × FsNode)
read_superblock stale storage =
    let (status, block) = block_read storage super_block_base zeros in
    let gd = (block_read storage gdt_base zeros).1 in
    let (root_status, root_block) = read_root_block storage zeros in
    elim (status_zero status && status_zero (validate_sb block) && status_zero root_status) [
      | true ↦ some (record { sb = block; gd = gd }, root_node stale)
      | false ↦ none
    ]
  where
    status_zero : ℤ → Bool
    status_zero (pos n) = n == 0
    status_zero (negsuc n) = false
