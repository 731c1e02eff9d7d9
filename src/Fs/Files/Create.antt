-- ===== src/Fs/Files/Create.antt =====
-- New files and directories in fs.c, and the lookup of a name.
-- A pending status of a call that the code ignores is ignored here too.
use ios.Prelude.{
  ℕ, ◌+◌, ◌-◌, ◌||◌, List, Option, none, some, ◌==◌, if◌then◌else◌, ℤ, pos, negsuc, bit_or,
}
use ios.Mem.{Mem, store, blit, fill, zeros, put_u32, get_u16}
use ios.Text.{strlen}
use ios.Mem.{c_string}
use ios.Disk.{fs_error, fs_success}
use ios.Fs.Layout.{
  max_entry_name_length, file_type_dir, user_permission, entry_name, entry_name_len, dir_entry_size,
  put_inode_mode, put_inode_blocks, put_inode_block, gd_free_inodes_count, Filesystem,
  DirEntryLocation, FsNode,
}
use ios.Fs.Bitmap.{get_free_block_number, get_free_inode_number}
use ios.Fs.Inodes.{insert_inode_table}
use ios.Fs.Counts.{
  set_sb_free_block_count, set_sb_free_inode_count, set_gd_free_block_count,
  set_gd_free_inode_count,
}
use ios.Fs.Names.{create_name, lookup_name, my_strnlen}
use ios.Fs.Directory.{lookup_entry, insert_entry}
use mathlib.Core.Option

-- `fsLookup`: `none` is FS_ERROR.
unfoldable pub fs_lookup : Mem → ℕ → List ℕ → Option FsNode
fs_lookup storage parent_inode name = lookup_entry storage parent_inode (some (lookup_name name))

-- The inode of a new file or directory: one block, no bytes.
abbrev pub new_inode : ℕ → ℕ → Mem
new_inode block mode = put_inode_blocks (put_inode_mode (put_inode_block zeros 0 block) mode) 1

-- The four counts that `fsCreate` and `fsMkdir` lower by one.
unfoldable pub count_new : Mem → ℕ → ℕ → Mem
count_new storage free_data_block free_inode =
    let storage1 = (set_sb_free_block_count storage (negsuc 0)).1 in
    let storage2 = (set_sb_free_inode_count storage1 (negsuc 0)).1 in
    let storage3 = (set_gd_free_block_count storage2 free_data_block (negsuc 0)).1 in
    (set_gd_free_inode_count storage3 free_inode (negsuc 0)).1

-- The entry of a new name: its 11 bytes, its length and its inode.
abbrev pub new_entry : Mem → ℕ → ℕ → Mem
new_entry name name_len inode =
    put_u32 (put_u32 (blit zeros entry_name name 0 max_entry_name_length) entry_name_len name_len) 0
      inode

-- An inode and a block for a new name; `none` is the return of FS_ERROR, in which what was found
-- first stays taken.
unfoldable pub take_inode_and_block : Filesystem → Mem → Option (ℕ × ℕ) × Mem
take_inode_and_block fs storage =
    let (free_inode, storage1) = get_free_inode_number fs storage in
    let (free_data_block, storage2) = get_free_block_number fs storage1 in
    if free_inode == 0 || free_data_block == 0
    then (none, storage2)
    else (some (free_inode, free_data_block), storage2)

-- `fsCreate` after the checks: the result of `insertEntry` is ignored.
unfoldable pub create_with :
    Filesystem → Mem → ℕ → Mem → Option (ℕ × ℕ) × Mem → ℤ × Mem × Option FsNode
create_with fs past parent_inode name (none, storage) = (fs_error, storage, none)
create_with fs past parent_inode name (some (free_inode, free_data_block), storage) =
    let storage1 = count_new storage free_data_block free_inode in
    let inode = new_inode free_data_block (bit_or user_permission 0x2000) in
    let storage2 = insert_inode_table storage1 free_inode inode in
    let name_len = my_strnlen max_entry_name_length 0 name in
    let entry = new_entry name name_len free_inode in
    let (status, storage3, location) = insert_entry fs past storage2 parent_inode entry in
    (fs_success, storage3, Option.map (λ l. record { entry = entry; location = l }) location)

-- `fsLookup` of a name that is formatted already, in an array of 11 bytes before zeros.
abbrev pub formatted_text : Mem → List ℕ
formatted_text name = c_string name 0 max_entry_name_length

unfoldable pub create_named : Filesystem → Mem → Mem → ℕ → ℤ × Mem → ℤ × Mem × Option FsNode
create_named fs past storage parent_inode (negsuc n, name) = (fs_error, storage, none)
create_named fs past storage parent_inode (pos n, name) =
    elim (fs_lookup storage parent_inode (formatted_text name)) [
      | some node ↦ (fs_error, storage, none)
      | none ↦ create_with fs past parent_inode name (take_inode_and_block fs storage)
    ]

-- `fsCreate`; the new node is given when an entry was written.
unfoldable pub fs_create : Filesystem → Mem → Mem → ℕ → List ℕ → ℤ × Mem × Option FsNode
fs_create fs past storage parent_inode name =
    if get_u16 fs.gd gd_free_inodes_count == 0
    then (fs_error, storage, none)
    else create_named fs past storage parent_inode (create_name name)

-- The entries "." and ".." of a new directory: names of spaces after the dots, no length.
abbrev pub dot_entry : ℕ → Mem
dot_entry inode = put_u32 (store (fill zeros entry_name 32 11) entry_name b'.') 0 inode

abbrev pub dotdot_entry : ℕ → Mem
dotdot_entry inode =
    put_u32 (store (store (fill zeros entry_name 32 11) entry_name b'.') (entry_name + 1) b'.') 0
      inode

-- The rest of `fsMkdir` after the entry in the parent: the inode, and the two entries; their
-- results are ignored.
unfoldable pub fill_new_directory : Filesystem → Mem → Mem → ℕ → ℕ → ℕ → Mem
fill_new_directory fs past storage parent_inode free_inode free_data_block =
    let inode = new_inode free_data_block (bit_or user_permission file_type_dir) in
    let storage1 = insert_inode_table storage free_inode inode in
    let (status1, storage2, l1) = insert_entry fs past storage1 free_inode (dot_entry free_inode) in
    let (status2, storage3, l2) =
      insert_entry fs past storage2 free_inode (dotdot_entry parent_inode) in
    storage3

unfoldable pub made_directory :
    Filesystem → Mem → ℕ → ℕ → ℕ → Mem → ℤ × Mem × Option DirEntryLocation → ℤ × Mem × Option FsNode
made_directory fs past parent_inode free_inode free_data_block entry (negsuc n, storage, location) =
    (fs_error, storage, none)
made_directory fs past parent_inode free_inode free_data_block entry (pos n, storage, location) = (
  fs_success,
  fill_new_directory fs past storage parent_inode free_inode free_data_block,
  Option.map (λ l. record { entry = entry; location = l }) location,
)

unfoldable pub mkdir_with :
    Filesystem → Mem → ℕ → Mem → Option (ℕ × ℕ) × Mem → ℤ × Mem × Option FsNode
mkdir_with fs past parent_inode name (none, storage) = (fs_error, storage, none)
mkdir_with fs past parent_inode name (some (free_inode, free_data_block), storage) =
    let storage1 = count_new storage free_data_block free_inode in
    let name_len =
      strlen (c_string (new_entry name 0 0) entry_name (dir_entry_size - entry_name)) in
    let entry = new_entry name name_len free_inode in
    made_directory fs past parent_inode free_inode free_data_block entry
      (insert_entry fs past storage1 parent_inode entry)

unfoldable pub mkdir_named : Filesystem → Mem → Mem → ℕ → ℤ × Mem → ℤ × Mem × Option FsNode
mkdir_named fs past storage parent_inode (negsuc n, name) = (fs_error, storage, none)
mkdir_named fs past storage parent_inode (pos n, name) =
    mkdir_with fs past parent_inode name (take_inode_and_block fs storage)

-- `fsMkdir`
unfoldable pub fs_mkdir : Filesystem → Mem → Mem → ℕ → List ℕ → ℤ × Mem × Option FsNode
fs_mkdir fs past storage parent_inode name =
    mkdir_named fs past storage parent_inode (create_name name)
