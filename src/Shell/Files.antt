-- ===== src/Shell/Files.antt =====
-- The commands of src/fs/shell.c that read and write whole files: `encrypt`, `decrypt`, and what
-- redirection writes. What they print is left out.
pub mod Whole
use ios.Prelude.{
  ℕ, zero, suc, ◌+◌, ◌-◌, ◌*◌, ◌^◌, Bool, true, false, not, ◌&&◌, ◌||◌, List, [], ◌∷◌, Option, none,
  some, ltb, leb, ◌==◌, if◌then◌else◌, ℤ, pos, negsuc, bit_and, bit_or, u32, length,
}
use ios.Mem.{Mem, store, blit, zeros, at_offset, get_u32, put_u32}
use ios.Disk.{fs_error, fs_success, max_block_size}
use ios.Fs.Layout.{fs_d_blocks, entry_inode, Filesystem}
use ios.Fs.Inodes.{get_inode, insert_inode_table}
use ios.Crypt.{crypt_xor}
use ios.Shell.Entries.{ShellEntry, sfs_read, sfs_write, sfs_lookup, sfs_create}

-- `!result`
abbrev pub is_zero : ℤ → Bool
is_zero (pos n) = n == 0
is_zero (negsuc n) = false

-- `out` with what a call put into the object that starts at offset `o` of it.
abbrev pub write_at : Mem → ℕ → Mem → Mem
write_at out o part j = if ltb j o then out j else part (j - o)

-- The loop of `read_whole_file` after `total` bytes: it stops at the first call that gives none.
unfoldable pub read_whole_loop : ℕ → Mem → ShellEntry → Mem → ℕ → ℕ → ℕ × Mem
read_whole_loop zero storage entry out max total = (total, out)
read_whole_loop (suc rounds) storage entry out max total =
    let got = sfs_read storage entry total 1024 (at_offset out total) in
    let out' = write_at out total got.1 in
    if ltb total max
    then elim got.0 [
      | negsuc n ↦ (total, out')
      | pos zero ↦ (total, out')
      | pos (suc n) ↦ read_whole_loop rounds storage entry out' max (total + suc n)
    ]
    else (total, out)

-- A call gives at least one byte or ends the loop, so `max` rounds are enough.
unfoldable pub read_whole_file : Mem → ShellEntry → Mem → ℕ → ℕ × Mem
read_whole_file storage entry out max = read_whole_loop max storage entry out max 0

-- `write_string_to_file` with the text in memory; `stale` is what its variables hold before.
unfoldable pub write_string_to_file :
    Filesystem → Mem → Mem → Mem → ShellEntry → List ℕ → Mem → ℕ → ℤ × Mem
write_string_to_file fs past inode storage current filename text len =
    elim (sfs_lookup storage inode current filename) [
      | some entry ↦ written (sfs_write fs storage entry 0 len text)
      | none ↦ created (sfs_create fs past storage inode current filename)
    ]
  where
    written : ℤ × Mem → ℤ × Mem
    written (result, storage') = (if is_zero result then pos 0 else negsuc 0, storage')

    created : ℤ × Mem × Option ShellEntry → ℤ × Mem
    created (result, storage', none) = (negsuc 0, storage')
    created (result, storage', some entry) =
        if is_zero result
        then written (sfs_write fs storage' entry 0 len text)
        else (negsuc 0, storage')

abbrev pub fs_encrypt_fl : ℕ
fs_encrypt_fl = 0x800

abbrev pub crypt_check_byte : ℕ
crypt_check_byte = 0xA5

-- `flags` of an inode.
abbrev pub inode_flags : Mem → ℕ
inode_flags inode = get_u32 inode 32

abbrev pub marked_inode : ℤ × Mem → Bool
marked_inode (negsuc n, ino) = false
marked_inode (pos n, ino) = not (bit_and (inode_flags ino) fs_encrypt_fl == 0)

unfoldable pub crypt_is_marked : Mem → ShellEntry → Bool
crypt_is_marked storage entry =
    marked_inode (get_inode storage (entry_inode entry.node.entry) zeros)

-- `flags |= FS_ENCRYPT_FL` and `flags &= ~FS_ENCRYPT_FL`
abbrev pub with_mark : Bool → ℕ → ℕ
with_mark true flags = bit_or flags fs_encrypt_fl
with_mark false flags = bit_and flags (2 ^ 32 - 1 - fs_encrypt_fl)

abbrev pub mark_inode : Mem → ℕ → Bool → ℤ × Mem → Mem
mark_inode storage number on (negsuc n, ino) = storage
mark_inode storage number on (pos n, ino) =
    insert_inode_table storage number (put_u32 ino 32 (with_mark on (inode_flags ino)))

unfoldable pub crypt_mark_inode : Mem → ShellEntry → Bool → Mem
crypt_mark_inode storage entry on =
    let number = entry_inode entry.node.entry in
    mark_inode storage number on (get_inode storage number zeros)

-- CRYPT_BUF_MAX
abbrev pub crypt_buf_max : ℕ
crypt_buf_max = fs_d_blocks * max_block_size

-- What `encrypt` and `decrypt` leave: the result, the disk and `g_cryptbuf`.
abbrev pub Crypted : Type 0
Crypted = ℤ × Mem × Mem

-- The last part of both: the write, and the mark when it was done.
unfoldable pub write_crypted : Filesystem → Mem → ShellEntry → ℕ → Mem → Bool → Crypted
write_crypted fs storage entry outlen buf on =
    let (result, storage') = sfs_write fs storage entry 0 outlen buf in
    if is_zero result
    then (pos 0, crypt_mark_inode storage' entry on, buf)
    else (negsuc 0, storage', buf)

-- `encrypt` behind the lookup; `room` is the size of the array that the password stands in.
unfoldable pub encrypt_entry : Filesystem → Mem → Mem → ShellEntry → ℕ → Mem → Crypted
encrypt_entry fs storage cryptbuf entry room password =
    let marked = store cryptbuf 0 crypt_check_byte in
    let (total, body) = read_whole_file storage entry (at_offset marked 1) (crypt_buf_max - 1) in
    let plain = write_at marked 1 body in
    if entry.is_directory
    then (negsuc 0, storage, cryptbuf)
    else if crypt_is_marked storage entry
    then (negsuc 0, storage, cryptbuf)
    else if ltb crypt_buf_max (u32 (entry.size + 1))
    then (negsuc 0, storage, cryptbuf)
    else write_crypted fs storage entry (total + 1) (crypt_xor room plain (total + 1) password) true

-- `for (i = 0; i < outlen; i++) g_cryptbuf[i] = g_cryptbuf[i + 1];`
unfoldable pub shift_bytes : ℕ → ℕ → Mem → Mem
shift_bytes zero i buf = buf
shift_bytes (suc left) i buf = shift_bytes left (i + 1) (store buf i (buf (i + 1)))

unfoldable pub decrypt_entry : Filesystem → Mem → Mem → ShellEntry → ℕ → Mem → Crypted
decrypt_entry fs storage cryptbuf entry room password =
    let (total, body) = read_whole_file storage entry cryptbuf crypt_buf_max in
    let plain = crypt_xor room body total password in
    if not (crypt_is_marked storage entry)
    then (negsuc 0, storage, cryptbuf)
    else if ltb crypt_buf_max entry.size
    then (negsuc 0, storage, cryptbuf)
    else if ltb total 1 || not (plain 0 == crypt_check_byte)
    then (negsuc 0, storage, plain)
    else write_crypted fs storage entry (total - 1) (shift_bytes (total - 1) 0 plain) false
