-- ===== src/Shell/Entries.antt =====
-- src/fs/fs_shell.c: the file system's operations on the shell's entries. The node that an entry
-- keeps in `pdata` is a field. Lists of entries of src/fs/entrylist.c are lists: `addEntryList` puts an
-- entry at the end, when its `kmalloc` gives memory.
use ios.Prelude.{
  ℕ, zero, suc, ◌+◌, ◌/◌, ◌%◌, ◌^◌, Bool, true, false, not, ◌&&◌, ◌||◌, List, [], ◌∷◌, Option, none,
  some, ltb, ◌==◌, if◌then◌else◌, ℤ, pos, negsuc,
}
use ios.Mem.{Mem, store, zeros, c_string}
use ios.Text.{toupper, head_byte, tail_bytes}
use ios.Disk.{fs_error}
use ios.Fs.Layout.{
  entry_name, entry_inode, inode_mode, inode_bytes, Filesystem, DirEntryLocation, FsNode,
}
use ios.Fs.Inodes.{get_inode}
use ios.Fs.Directory.{fs_read_dir}
use ios.Fs.Files.{fs_read, fs_write}
use ios.Fs.Files.Create.{fs_lookup, fs_create, fs_mkdir}
use ios.Fs.Files.Remove.{fs_remove, fs_rmdir}

-- The fields of `ShellEntry` that are read; the others stay zero.
pub record ShellEntry : Type 0 where
  pub name : Mem
  pub is_directory : Bool
  pub size : ℕ
  pub node : FsNode

-- The bytes from offset s of `src` on, copied to offset d: the object and where the copy ends.
unfoldable pub my_strncpy : ℕ → Mem → ℕ → Mem → ℕ → Mem × ℕ
my_strncpy zero dest d src s = (dest, d)
my_strncpy (suc length) dest d src s =
    let rest = my_strncpy length (store dest d (src s)) (d + 1) src (s + 1) in
    if src s == 0 || src s == 32 then (dest, d) else rest

abbrev dot : Mem
dot = store zeros 0 b'.'

-- The name of an entry other than the root: up to eight characters, and up to three behind a dot.
unfoldable pub entry_text : Mem → Mem
entry_text entry =
    let base = my_strncpy 8 zeros 0 entry entry_name in
    let dotted = my_strncpy 1 base.0 base.1 dot 0 in
    if entry (entry_name + 8) == 32
    then base.0
    else (my_strncpy 3 dotted.0 dotted.1 entry (entry_name + 8)).0

-- `fsNodeToShellEntry`; `inode` is what the variable holds before, which stays when `getInode` fails.
unfoldable pub fs_node_to_shell_entry : Mem → Mem → FsNode → ShellEntry
fs_node_to_shell_entry storage inode node =
    let number = entry_inode node.entry in
    let ino = (get_inode storage number inode).1 in
    record {
      name = if number == 2 then zeros else entry_text node.entry;
      is_directory = inode_mode ino / 2 ^ 12 == 4 || number == 2;
      size = inode_bytes ino;
      node = node;
    }

-- The order of two `char`s, which are signed.
abbrev pub char_lt : ℕ → ℕ → Bool
char_lt a b = ltb ((a + 128) % 256) ((b + 128) % 256)

abbrev in_name : List ℕ → Bool
in_name s = not (head_byte s == 0) && not (head_byte s == 32)

-- `myStrnicmp` of two strings.
unfoldable pub my_strnicmp : ℕ → List ℕ → List ℕ → ℤ
my_strnicmp zero s t = pos 0
my_strnicmp (suc length) s t =
    let rest = my_strnicmp length (tail_bytes s) (tail_bytes t) in
    let c1 = toupper (head_byte s) in
    let c2 = toupper (head_byte t) in
    if in_name s || in_name t
    then (if char_lt c2 c1 then negsuc 0 else if char_lt c1 c2 then pos 1 else rest)
    else pos 0

-- `adder` on the entries that `fsReadDir` finds; `location` is what it leaves of a node's location.
unfoldable pub added_entries : Mem → Mem → DirEntryLocation → List (Mem × ℕ) → List ShellEntry
added_entries storage inode location [] = []
added_entries storage inode location ((entry, i) ∷ entries) =
    fs_node_to_shell_entry storage inode
      (record { entry = entry; location = record location { offset = i } })
    ∷ added_entries storage inode location entries

-- `sfsReadDir` on an empty list: it always succeeds.
unfoldable pub sfs_read_dir : Mem → Mem → DirEntryLocation → ShellEntry → List ShellEntry
sfs_read_dir storage inode location parent =
    elim (fs_read_dir storage (entry_inode parent.node.entry)) [
      | none ↦ []
      | some entries ↦ added_entries storage inode location entries
    ]

-- The loop of `isExist`: true for FS_ERROR.
unfoldable pub has_name : List ℕ → List ShellEntry → Bool
has_name name [] = false
has_name name (e ∷ es) =
    let rest = has_name name es in
    elim (my_strnicmp 12 (c_string e.name 0 256) name) [
      | negsuc n ↦ rest
      | pos n ↦ if n == 0 then true else rest
    ]

unfoldable pub is_exist : Mem → Mem → DirEntryLocation → ShellEntry → List ℕ → Bool
is_exist storage inode location parent name =
    has_name name (sfs_read_dir storage inode location parent)

unfoldable pub sfs_read : Mem → ShellEntry → ℕ → ℕ → Mem → ℤ × Mem
sfs_read storage entry offset length buffer =
    fs_read storage (entry_inode entry.node.entry) offset length buffer

unfoldable pub sfs_write : Filesystem → Mem → ShellEntry → ℕ → ℕ → Mem → ℤ × Mem
sfs_write fs storage entry offset length buffer =
    fs_write fs storage entry.node.location offset length buffer

-- `sfsLookup`; nothing for a failure, which leaves the entry as it was.
unfoldable pub sfs_lookup : Mem → Mem → ShellEntry → List ℕ → Option ShellEntry
sfs_lookup storage inode parent name =
    elim (fs_lookup storage (entry_inode parent.node.entry) name) [
      | none ↦ none
      | some node ↦ some (fs_node_to_shell_entry storage inode node)
    ]

-- The entry of a node that was made. When there is none the code reads its variable uninitialised.
abbrev made_entry : Mem → ℤ × Mem × Option FsNode → ℤ × Mem × Option ShellEntry
made_entry inode (result, storage, none) = (result, storage, none)
made_entry inode (result, storage, some node) =
    (result, storage, some (fs_node_to_shell_entry storage inode node))

unfoldable pub sfs_create :
    Filesystem → Mem → Mem → Mem → ShellEntry → List ℕ → ℤ × Mem × Option ShellEntry
sfs_create fs past storage inode parent name =
    made_entry inode (fs_create fs past storage (entry_inode parent.node.entry) name)

unfoldable pub sfs_mkdir :
    Filesystem
    → Mem
    → Mem
    → Mem
    → DirEntryLocation
    → ShellEntry
    → List ℕ
    → ℤ × Mem × Option ShellEntry
sfs_mkdir fs past storage inode location parent name =
    if is_exist storage inode location parent name
    then (fs_error, storage, none)
    else made_entry inode (fs_mkdir fs past storage (entry_inode parent.node.entry) name)

unfoldable pub sfs_rmdir : Mem → ShellEntry → List ℕ → ℤ × Mem
sfs_rmdir storage parent name = elim (fs_lookup storage (entry_inode parent.node.entry) name) [
  | none ↦ (fs_error, storage)
  | some dir ↦ fs_rmdir storage (entry_inode dir.entry) dir.location
]

unfoldable pub sfs_remove : Mem → ShellEntry → List ℕ → ℤ × Mem
sfs_remove storage parent name = elim (fs_lookup storage (entry_inode parent.node.entry) name) [
  | none ↦ (fs_error, storage)
  | some file ↦ fs_remove storage (entry_inode file.entry) file.location
]
