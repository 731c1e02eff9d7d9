-- ===== src/Fs/Layout.antt =====
-- The constants of src/fs/fs.h, and the fields of its packed structures by their offsets.
use ios.Prelude.{ℕ, ◌+◌, ◌-◌, ◌*◌, ◌/◌, ◌%◌}
use ios.Mem.{Mem, get_u16, get_u32, put_u16, put_u32}

abbrev pub number_of_groups : ℕ
number_of_groups = 1

abbrev pub blocks_per_group : ℕ
blocks_per_group = 8192

abbrev pub number_of_inodes : ℕ
number_of_inodes = 4096

abbrev pub inodes_per_group : ℕ
inodes_per_group = 4096

abbrev pub inode_size : ℕ
inode_size = 128

abbrev pub inodes_per_block : ℕ
inodes_per_block = 8

-- MAX_BLOCK_SIZE / sizeof(DirEntry)
abbrev pub entries_per_block : ℕ
entries_per_block = 32

abbrev pub dir_entry_size : ℕ
dir_entry_size = 32

abbrev pub max_entry_name_length : ℕ
max_entry_name_length = 11

abbrev pub fs_d_blocks : ℕ
fs_d_blocks = 12

abbrev pub super_block_base : ℕ
super_block_base = 1

abbrev pub gdt_base : ℕ
gdt_base = 2

abbrev pub block_bitmap_base : ℕ
block_bitmap_base = 3

abbrev pub inode_bitmap_base : ℕ
inode_bitmap_base = 4

abbrev pub inode_table_base : ℕ
inode_table_base = 5

abbrev pub data_block_base : ℕ
data_block_base = 517

abbrev pub dir_entry_free : ℕ
dir_entry_free = 1

abbrev pub dir_entry_no_more : ℕ
dir_entry_no_more = 0

abbrev pub file_type_dir : ℕ
file_type_dir = 0x4000

abbrev pub user_permission : ℕ
user_permission = 0x1FF

-- GET_INODE_GROUP and GET_DATA_GROUP; `x - 1` wraps at 0 as `uint32_t`.
abbrev pub inode_group : ℕ → ℕ
inode_group x = (x + 4294967296 - 1) % 4294967296 / inodes_per_group

abbrev pub data_group : ℕ → ℕ
data_group x = (x + 4294967296 - 1) % 4294967296 / blocks_per_group

-- SuperBlock
abbrev pub sb_free_block_count : ℕ
sb_free_block_count = 12

abbrev pub sb_free_inode_count : ℕ
sb_free_inode_count = 16

abbrev pub sb_block_per_group : ℕ
sb_block_per_group = 32

abbrev pub sb_inode_per_group : ℕ
sb_inode_per_group = 40

abbrev pub sb_magic_signature : ℕ
sb_magic_signature = 56

abbrev pub sb_block_group_number : ℕ
sb_block_group_number = 86

-- GroupDescriptor, of 32 bytes
abbrev pub gd_size : ℕ
gd_size = 32

abbrev pub gd_free_blocks_count : ℕ
gd_free_blocks_count = 12

abbrev pub gd_free_inodes_count : ℕ
gd_free_inodes_count = 14

-- Inode, of 128 bytes
abbrev pub inode_mode : Mem → ℕ
inode_mode inode = get_u16 inode 0

abbrev pub inode_bytes : Mem → ℕ
inode_bytes inode = get_u32 inode 4

abbrev pub inode_blocks : Mem → ℕ
inode_blocks inode = get_u32 inode 28

abbrev pub inode_block : Mem → ℕ → ℕ
inode_block inode i = get_u32 inode (40 + 4 * i)

abbrev pub put_inode_mode : Mem → ℕ → Mem
put_inode_mode inode v = put_u16 inode 0 v

abbrev pub put_inode_bytes : Mem → ℕ → Mem
put_inode_bytes inode v = put_u32 inode 4 v

abbrev pub put_inode_blocks : Mem → ℕ → Mem
put_inode_blocks inode v = put_u32 inode 28 v

abbrev pub put_inode_block : Mem → ℕ → ℕ → Mem
put_inode_block inode i v = put_u32 inode (40 + 4 * i) v

-- DirEntry: the inode at 0, the name at 4, its length at 15; entry i of a block starts at 32 * i.
abbrev pub entry_inode : Mem → ℕ
entry_inode entry = get_u32 entry 0

abbrev pub entry_name : ℕ
entry_name = 4

abbrev pub entry_name_len : ℕ
entry_name_len = 15

-- Filesystem: the copies of the super block and of the first group descriptor.
pub record Filesystem : Type 0 where
  pub sb : Mem
  pub gd : Mem

-- DirEntryLocation
pub record DirEntryLocation : Type 0 where
  pub group : ℕ
  pub block : ℕ
  pub offset : ℕ

-- FsNode; its file system is an argument of the functions that use it.
pub record FsNode : Type 0 where
  pub entry : Mem
  pub location : DirEntryLocation
