-- ===== src/Fs/Tests.antt =====
-- The file system's theorems at concrete inputs.
use ios.Prelude.{ℕ, zero, suc, ◌<◌, ◌≤◌, ◌≡◌, some, none, negsuc, refl, arith, ◌==◌}
use ios.Mem.{Mem, store, blit, zeros, all_bytes, put_u32, get_u32, get_u16}
use ios.Disk.{block_read, block_write, disksim_read, disksim_write, fs_success}
use ios.Disk.Laws.{block_at}
use ios.Fs.Layout.{
  Filesystem, inode_blocks, inode_block, put_inode_block, put_inode_blocks, put_inode_bytes,
  sb_block_group_number, sb_block_per_group, sb_inode_per_group,
}
use ios.Fs.Bitmap.{free_bit, get_free_block_number}
use ios.Fs.Bitmap.Search.{IsBytes}
use ios.Fs.Bitmap.Take.{TakeResult, get_free_block_number-takes}
use ios.Fs.Inodes.{get_inode, insert_inode_table, inode_from_block}
use ios.Fs.Inodes.Laws.{get_inode-insert_inode_table}
use ios.Fs.Counts.{set_sb_count}
use ios.Fs.Counts.Laws.{CountResult, set_sb_count-CountResult}
use ios.Fs.Directory.{find_entry_at_block, entry_fits, marker_name, first_char}
use ios.Fs.Directory.Find.{FindResult, find_entry_at_block-FindResult, entry_fits-marker_name}
use ios.Fs.Files.{blocks_for, fs_read, fs_write}
use ios.Fs.Files.Access.{ReadResult, fs_read-ReadResult}
use ios.Fs.Files.RoundTrip.{IsFile, ReadsBack, fs_read-fs_write}
use ios.Fs.Format.{fs_format, read_superblock, root_node, root_entries}
use ios.Fs.Format.Mount.{read_superblock-fs_format}
use ios.Text.{strncmp, strlen, toupper, isdigit, isalpha}
use ios.Mem.{c_string}
use ios.Fs.Names.{format_name, upper_string, finish_name, name_chars, name_char, put_name_char}
use ios.Fs.Names.Format.{IsDots, IsEntryName, format_name-IsEntryName}

-- The counts of the mounted super block, and bitmaps whose first byte is full.
abbrev fs : Filesystem
fs = record { sb = put_u32 (put_u32 zeros 32 8192) 40 4096; gd = zeros }

abbrev disk : Mem
disk = store (store zeros 3072 0xFF) 4096 0xFE

disk-IsBytes : IsBytes disk
unfolding store
disk-IsBytes i = ground arith

get_free_block_number-takes_example :
    TakeResult 3 8192 0 disk
      (free_bit 1024 0 (block_at disk 3 zeros))
      (get_free_block_number fs disk)
unfolding get_u16 get_u32 put_u32 store
get_free_block_number-takes_example = get_free_block_number-takes fs disk refl refl disk-IsBytes

get_inode-insert_inode_table_example :
    (get_inode (insert_inode_table disk 11 (all_bytes 7)) 11 zeros).1 100 ≡ 7
get_inode-insert_inode_table_example =
    get_inode-insert_inode_table disk (all_bytes 7) zeros 11 11 100 (omega arith, omega arith)
      (omega arith, omega arith) (omega arith)

set_sb_count-CountResult_example : CountResult disk 12 (negsuc 0) (set_sb_count 12 disk (negsuc 0))
unfolding get_u32 blit store
set_sb_count-CountResult_example =
    set_sb_count-CountResult disk 12 (negsuc 0) (omega arith) (omega arith) (omega arith)

find_entry_at_block-FindResult_example :
    FindResult root_entries none 5 32 (find_entry_at_block root_entries none 5 32)
find_entry_at_block-FindResult_example =
    find_entry_at_block-FindResult root_entries none 5 32 (omega arith)

entry_fits-marker_name_example :
    entry_fits root_entries (some (marker_name (all_bytes 0x55) 0)) 2
    ≡ (first_char root_entries 2 == 0)
entry_fits-marker_name_example =
    entry_fits-marker_name root_entries (all_bytes 0x55) 0 2 (omega arith)

read_superblock-fs_format_example :
    (read_superblock (all_bytes 4) (fs_format (all_bytes 1) (all_bytes 2) (all_bytes 3)).1
      ≡ some (
        record {
          sb = block_at (fs_format (all_bytes 1) (all_bytes 2) (all_bytes 3)).1 1 zeros;
          gd = block_at (fs_format (all_bytes 1) (all_bytes 2) (all_bytes 3)).1 2 zeros;
        },
        root_node (all_bytes 4),
      ))
    × (get_u16
          (block_at (fs_format (all_bytes 1) (all_bytes 2) (all_bytes 3)).1 1 zeros)
          sb_block_group_number
        ≡ 0)
    × (get_u32
          (block_at (fs_format (all_bytes 1) (all_bytes 2) (all_bytes 3)).1 1 zeros)
          sb_block_per_group
        ≡ 8192)
    × (get_u32
          (block_at (fs_format (all_bytes 1) (all_bytes 2) (all_bytes 3)).1 1 zeros)
          sb_inode_per_group
        ≡ 4096)
read_superblock-fs_format_example =
    read_superblock-fs_format (all_bytes 1) (all_bytes 2) (all_bytes 3) (all_bytes 4)

-- "a.b", which is formatted to "A       B  ".
abbrev short_name : Mem
short_name = store (store (store zeros 0 b'a') 1 b'.') 2 b'b'

short_name-no-IsDots : ¬ IsDots short_name
unfolding strncmp c_string store
short_name-no-IsDots = λ h. ground (arith, h)

format_name-IsEntryName_example : IsEntryName (format_name short_name).1
unfolding format_name upper_string finish_name name_chars name_char put_name_char strncmp strlen
    c_string store toupper isdigit isalpha
format_name-IsEntryName_example =
    format_name-IsEntryName short_name (format_name short_name).1 short_name-no-IsDots refl

-- Inode 5 has block 600; entry 2 of the root's block names it.
abbrev small_disk : Mem
small_disk =
    insert_inode_table (store zeros 529472 5) 5 (put_inode_blocks (put_inode_block zeros 0 600) 1)

abbrev small_inode : Mem
small_inode = (get_inode small_disk 5 zeros).1

below_one : (P : ℕ → Type 0) → P 0 → (k : ℕ) → k < 1 → P k
below_one P p zero lt = p
below_one P p (suc k) lt = absurd (omega arith)

small_inode-blocks : inode_blocks small_inode ≡ 1
unfolding get_inode inode_from_block insert_inode_table block_read block_write disksim_read
    disksim_write blit put_u32 get_u32 store
small_inode-blocks = refl

small_inode-block : inode_block small_inode 0 ≡ 600
unfolding get_inode inode_from_block insert_inode_table block_read block_write disksim_read
    disksim_write blit put_u32 get_u32 store
small_inode-block = refl

small_inode-IsFile : IsFile small_inode
small_inode-IsFile = (
  λ k lt.
      below_one (λ k. 517 ≤ inode_block small_inode k) (omega (arith, small_inode-block)) k
        (omega (arith, small_inode-blocks)),
  λ k lt.
      below_one (λ k. inode_block small_inode k < 8193) (omega (arith, small_inode-block)) k
        (omega (arith, small_inode-blocks)),
  λ k l a b. absurd (omega (arith, small_inode-blocks)),
)

fs_read-fs_write_example :
    ((fs_write fs small_disk
        (record { group = 0; block = 517; offset = 2 })
        10
        100
        (all_bytes 65)).0
      ≡ fs_success)
    × ReadsBack 10 100 (all_bytes 65) 20 50 zeros (
        fs_read
          (fs_write fs small_disk
            (record { group = 0; block = 517; offset = 2 })
            10
            100
            (all_bytes 65)).1
          5
          20
          50
          zeros)
unfolding get_inode inode_from_block insert_inode_table block_read block_write disksim_read
    disksim_write blit put_u32 get_u32 store blocks_for
fs_read-fs_write_example =
    fs_read-fs_write fs small_disk small_inode (record { group = 0; block = 517; offset = 2 }) 5 10
      100 (all_bytes 65) 20 50 zeros refl (omega arith, omega arith) refl small_inode-IsFile refl
      (omega (arith, small_inode-blocks)) (omega arith) (omega arith) (omega arith) (omega arith)
      (omega arith) (omega arith)

-- The same with 500 bytes.
abbrev large_disk : Mem
large_disk =
    insert_inode_table zeros 5
      (put_inode_bytes (put_inode_blocks (put_inode_block zeros 0 600) 1) 500)

abbrev large_inode : Mem
large_inode = (get_inode large_disk 5 zeros).1

fs_read-ReadResult_example :
    ReadResult large_disk large_inode 3 8 zeros (fs_read large_disk 5 3 8 zeros)
unfolding get_inode inode_from_block insert_inode_table block_read block_write disksim_read
    disksim_write blit put_u32 get_u32 store
fs_read-ReadResult_example =
    fs_read-ReadResult large_disk large_inode 5 3 8 zeros refl (omega arith) (omega arith)
      (omega arith) (omega arith) (omega arith) (omega arith)
