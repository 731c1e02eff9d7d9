-- ===== src/Fs/Directory.antt =====
-- Directory entries in fs.c: looking up, writing, inserting, listing.
pub mod Find
use ios.Prelude.{
  ℕ, zero, suc, ◌+◌, ◌-◌, ◌*◌, ◌/◌, ◌%◌, Bool, true, false, not, ◌&&◌, ◌||◌, List, [], ◌∷◌, ◌++◌,
  Option, none, some, ltb, leb, ◌==◌, if◌then◌else◌, ℤ, pos, negsuc, u32,
}
use ios.Mem.{Mem, store, blit, all_bytes, zeros, memcmp, at_offset}
use ios.Disk.{block_read, block_write, fs_error, fs_success, max_block_size}
use ios.Fs.Layout.{
  entries_per_block, dir_entry_size, entry_name, entry_inode, max_entry_name_length, dir_entry_free,
  dir_entry_no_more, inode_blocks, inode_block, put_inode_block, put_inode_blocks, inode_group,
  Filesystem, DirEntryLocation, FsNode,
}
use ios.Fs.Bitmap.{get_free_block_number}
use ios.Fs.Inodes.{get_inode, insert_inode_table}
use ios.Fs.Counts.{set_sb_free_block_count, set_gd_free_block_count}

-- The outcome of `findEntryAtBlock`: FS_SUCCESS, -2 at the end marker, FS_ERROR; each sets
-- `*number`.
pub data Found : Type 0 where
  found no_more absent : ℕ → Found

-- The first byte of the name of entry i.
abbrev pub first_char : Mem → ℕ → ℕ
first_char block i = block (dir_entry_size * i + entry_name)

abbrev is_zero : ℤ → Bool
is_zero (pos n) = n == 0
is_zero (negsuc n) = false

-- The test that returns FS_SUCCESS at entry i. `none` is the NULL name, which fits any entry in
-- use but the dots; a name of one of the two marker bytes fits by its first byte alone.
unfoldable pub entry_fits : Mem → Option Mem → ℕ → Bool
entry_fits block none i =
    not (first_char block i == dir_entry_no_more)
    && not (first_char block i == dir_entry_free)
    && not (first_char block i == b'.')
entry_fits block (some name) i =
    is_zero (memcmp block (dir_entry_size * i + entry_name) name 0 max_entry_name_length)
    || (name 0 == dir_entry_free || name 0 == dir_entry_no_more) && name 0 == first_char block i

-- The loop at the number i with `left` numbers to go, while `entry` points to entry e.
unfoldable pub find_loop : ℕ → ℕ → ℕ → Mem → Option Mem → Found
find_loop zero i e block name = absent i
find_loop (suc left) i e block name =
    let rest = find_loop left (i + 1) (e + 1) block name in
    if entry_fits block name e
    then found i
    else if first_char block e == dir_entry_no_more
    then no_more i
    else rest

-- `findEntryAtBlock`: whatever `begin` is, the pointer starts at the block's first entry.
unfoldable pub find_entry_at_block : Mem → Option Mem → ℕ → ℕ → Found
find_entry_at_block block name begin last = find_loop (last - begin) begin 0 block name

-- Entry `number` of the block as the caller's node.
abbrev pub node_at : Mem → ℕ → ℕ → FsNode
node_at block block_num number = record {
  entry = at_offset block (dir_entry_size * number);
  location = record {
    group = inode_group (entry_inode (at_offset block (dir_entry_size * number)));
    block = block_num;
    offset = number;
  };
}

-- The loop of `lookupEntry` at block i of the inode with `left` blocks to go.
unfoldable pub lookup_blocks : ℕ → ℕ → Mem → Mem → Mem → Option Mem → Option FsNode
lookup_blocks zero i storage inode block name = none
lookup_blocks (suc left) i storage inode block name =
    let block_num = inode_block inode i in
    let block' = (block_read storage block_num block).1 in
    elim (find_entry_at_block block' name 0 entries_per_block) [
      | found number ↦ some (node_at block' block_num number)
      | no_more number ↦ none
      | absent number ↦ lookup_blocks left (i + 1) storage inode block' name
    ]

-- `lookupEntry`: `none` is FS_ERROR. The result of `getInode` is ignored.
unfoldable pub lookup_entry : Mem → ℕ → Option Mem → Option FsNode
lookup_entry storage inode name =
    let inode_buffer = (get_inode storage inode zeros).1 in
    lookup_blocks (inode_blocks inode_buffer) 0 storage inode_buffer zeros name

-- `setEntry`: the result is that of the write.
unfoldable pub set_entry : Mem → DirEntryLocation → Mem → ℤ × Mem
set_entry storage location value =
    let block = (block_read storage location.block zeros).1 in
    block_write storage location.block
      (blit block (dir_entry_size * location.offset) value 0 dir_entry_size)

-- The name that `insertEntry` looks up: the marker and a zero byte, in an array of two bytes.
-- `past` is what stands behind the array, which `memcmp` may read.
abbrev pub marker_name : Mem → ℕ → Mem
marker_name past marker = store (store past 0 marker) 1 0

-- The end marker moves to the first entry of a new block of the directory, which is cleared.
pub extend_directory : Filesystem → Mem → ℕ → Mem → Option (ℕ × Mem)
extend_directory fs storage parent_inode inode =
    let (free_block, storage1) = get_free_block_number fs storage in
    let blocks = inode_blocks inode in
    let inode' = put_inode_blocks (put_inode_block inode blocks free_block) (u32 (blocks + 1)) in
    let storage2 = insert_inode_table storage1 parent_inode inode' in
    let storage3 = (set_sb_free_block_count storage2 (negsuc 0)).1 in
    let storage4 = (set_gd_free_block_count storage3 free_block (negsuc 0)).1 in
    if free_block == 0 then none else some (free_block, (block_write storage4 free_block zeros).1)

-- When the entry at the end marker was used: the marker goes behind it.
move_marker : Filesystem → Mem → ℕ → FsNode → ℤ × Mem
move_marker fs storage parent_inode end_node =
    let here = end_node.location in
    let next = here.offset + 1 in
    let inode = (get_inode storage parent_inode zeros).1 in
    if next == entries_per_block
    then elim (extend_directory fs storage parent_inode inode) [
      | none ↦ (fs_error, (get_free_block_number fs storage).1)
      | some (block, storage') ↦ (
        fs_success,
        (set_entry storage' (record here { block = block; offset = 0 }) end_node.entry).1,
      )
    ]
    else (fs_success, (set_entry storage (record here { offset = next }) end_node.entry).1)

-- `insertEntry`: the status, the storage, and the location given to the new node.
pub insert_entry : Filesystem → Mem → Mem → ℕ → Mem → ℤ × Mem × Option DirEntryLocation
insert_entry fs past storage parent_inode entry =
    elim (lookup_entry storage parent_inode (some (marker_name past dir_entry_free))) [
      | some free_node ↦
          (fs_success, (set_entry storage free_node.location entry).1, some free_node.location)
      | none ↦
          elim (lookup_entry storage parent_inode (some (marker_name past dir_entry_no_more))) [
            | none ↦ (fs_error, storage, none)
            | some end_node ↦
                let storage' = (set_entry storage end_node.location entry).1 in
                let (status, storage'') = move_marker fs storage' parent_inode end_node in
                (status, storage'', some end_node.location)
          ]
    ]

-- `read_dir_from_block` at entry i with `left` entries to go: the entries handed to the adder, each
-- with its number. The node's block is left uninitialised there.
unfoldable pub read_dir_from_block : ℕ → ℕ → Mem → List (Mem × ℕ)
read_dir_from_block zero i block = []
read_dir_from_block (suc left) i block =
    let rest = read_dir_from_block left (i + 1) block in
    if first_char block i == dir_entry_no_more
    then []
    else if first_char block i == b'.' || first_char block i == dir_entry_free
    then rest
    else (at_offset block (dir_entry_size * i), i) ∷ rest

read_dir_blocks : ℕ → ℕ → Mem → Mem → Mem → List (Mem × ℕ)
read_dir_blocks zero i storage inode block = []
read_dir_blocks (suc left) i storage inode block =
    let block' = (block_read storage (inode_block inode i) block).1 in
    read_dir_from_block entries_per_block 0 block'
    ++ read_dir_blocks left (i + 1) storage inode block'

dir_of_inode : Mem → ℤ × Mem → Option (List (Mem × ℕ))
dir_of_inode storage (pos n, inode) =
    some (read_dir_blocks (inode_blocks inode) 0 storage inode zeros)
dir_of_inode storage (negsuc n, inode) = none

-- `fsReadDir`, when its `kmalloc` gives memory; `none` is FS_ERROR.
pub fs_read_dir : Mem → ℕ → Option (List (Mem × ℕ))
fs_read_dir storage inode = dir_of_inode storage (get_inode storage inode zeros)
