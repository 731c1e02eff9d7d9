-- ===== src/Shell/Commands.antt =====
-- The handlers of src/fs/shell.c that work on the mounted file system. `stale` and `past` are what
-- variables hold before they are written, `location` what `adder` leaves of a node's location. What
-- the handlers print is left out.
pub mod Paths
pub mod Words
use ios.Prelude.{
  ℕ, zero, suc, ◌+◌, ◌-◌, ◌<◌, Bool, true, false, not, ◌&&◌, ◌||◌, List, [], ◌∷◌, ◌++◌, Option,
  none, some, ltb, leb, ◌==◌, if◌then◌else◌, ℤ, pos, negsuc, length,
}
use ios.Mem.{Mem, store, zeros}
use ios.Text.{strlen, head_byte}
use ios.Fs.Layout.{DirEntryLocation, Filesystem}
use ios.Shell.Entries.{ShellEntry, sfs_lookup, sfs_create, sfs_mkdir, sfs_rmdir, sfs_remove}
use ios.Shell.Dispatch.{is_help, same_text}
use ios.Shell.Files.{is_zero, Crypted, encrypt_entry, decrypt_entry}

-- The places of the array `path`.
abbrev pub path_size : ℕ
path_size = 256

-- `path`, `pathTop` and `g_currentDir`.
pub record Place : Type 0 where
  pub path : ℕ → ShellEntry
  pub path_top : ℕ
  pub current : ShellEntry

abbrev pub path_set : (ℕ → ShellEntry) → ℕ → ShellEntry → ℕ → ShellEntry
path_set path k entry i = if i == k then entry else path i

-- The end of `shell_cmd_cd`.
abbrev pub go_to : (ℕ → ShellEntry) → ℕ → ℤ × Place
go_to path top = (pos 0, record { path = path; path_top = top; current = path top })

-- `path[++pathTop] = newEntry`: `none` is a write behind the array, which the code does not guard.
abbrev pub push_entry : (ℕ → ShellEntry) → ℕ → ShellEntry → Option (ℤ × Place)
push_entry path top entry =
    if ltb (top + 1) path_size then some (go_to (path_set path (top + 1) entry) (top + 1)) else none

abbrev pub enter : (ℕ → ShellEntry) → Place → Option ShellEntry → Option (ℤ × Place)
enter path p none = some (negsuc 0, record p { path = path })
enter path p (some entry) =
    if entry.is_directory
    then push_entry path p.path_top entry
    else some (negsuc 0, record p { path = path })

-- `shell_cmd_cd`; `none` where it writes behind the array.
unfoldable pub shell_cmd_cd : Mem → Mem → ShellEntry → Place → List (List ℕ) → Option (ℤ × Place)
shell_cmd_cd storage stale root p [] = some (pos 0, p)
shell_cmd_cd storage stale root p (w ∷ []) = some (go_to (path_set p.path 0 root) 0)
shell_cmd_cd storage stale root p (w ∷ name ∷ []) =
    let path = path_set p.path 0 root in
    if is_help (w ∷ name ∷ [])
    then some (pos 0, p)
    else if same_text name (b'.' ∷ [])
    then some (pos 0, record p { path = path })
    else if same_text name (b'.' ∷ b'.' ∷ []) && ltb 0 p.path_top
    then some (go_to path (p.path_top - 1))
    else enter path p (sfs_lookup storage stale p.current name)
shell_cmd_cd storage stale root p (w ∷ name ∷ v ∷ ws) =
    some (pos 0, record p { path = path_set p.path 0 root })

-- A result that is not 0 makes the handler fail.
abbrev pub failing : ℤ × Mem → ℤ × Mem
failing (result, storage) = (if is_zero result then pos 0 else negsuc 0, storage)

abbrev pub forget : ℤ × Mem × Option ShellEntry → ℤ × Mem
forget (result, storage, entry) = (result, storage)

unfoldable pub shell_cmd_touch : Filesystem → Mem → Mem → Mem → ShellEntry → List (List ℕ) → ℤ × Mem
shell_cmd_touch fs past stale storage current [] = (negsuc 1, storage)
shell_cmd_touch fs past stale storage current (w ∷ []) = (negsuc 1, storage)
shell_cmd_touch fs past stale storage current (w ∷ name ∷ ws) =
    if is_help (w ∷ name ∷ ws)
    then (pos 0, storage)
    else failing (forget (sfs_create fs past storage stale current name))

-- The loop of `rm`: a file that cannot be removed does not stop it.
unfoldable pub remove_files : Mem → ShellEntry → List (List ℕ) → Mem
remove_files storage current [] = storage
remove_files storage current (name ∷ names) =
    remove_files (sfs_remove storage current name).1 current names

unfoldable pub shell_cmd_rm : Mem → ShellEntry → List (List ℕ) → ℤ × Mem
shell_cmd_rm storage current [] = (pos 0, storage)
shell_cmd_rm storage current (w ∷ names) =
    if is_help (w ∷ names) then (pos 0, storage) else (pos 0, remove_files storage current names)

unfoldable pub shell_cmd_mkdir :
    Filesystem → Mem → Mem → DirEntryLocation → Mem → ShellEntry → List (List ℕ) → ℤ × Mem
shell_cmd_mkdir fs past stale location storage current (w ∷ name ∷ []) =
    if is_help (w ∷ name ∷ [])
    then (pos 0, storage)
    else failing (forget (sfs_mkdir fs past storage stale location current name))
shell_cmd_mkdir fs past stale location storage current argv = (pos 0, storage)

unfoldable pub shell_cmd_rmdir : Mem → ShellEntry → List (List ℕ) → ℤ × Mem
shell_cmd_rmdir storage current (w ∷ name ∷ []) =
    if is_help (w ∷ name ∷ []) then (pos 0, storage) else failing (sfs_rmdir storage current name)
shell_cmd_rmdir storage current argv = (pos 0, storage)

-- The lookup of `encrypt` and `decrypt`, and what they do with the entry.
abbrev pub on_entry : Mem → Mem → (ShellEntry → Crypted) → Option ShellEntry → Crypted
on_entry storage cryptbuf f none = (negsuc 0, storage, cryptbuf)
on_entry storage cryptbuf f (some entry) = f entry

-- The password is an argument; `password` is the array it starts in, of `room` bytes.
unfoldable pub shell_cmd_encrypt :
    Filesystem → Mem → Mem → Mem → ShellEntry → ℕ → Mem → List (List ℕ) → Crypted
shell_cmd_encrypt fs stale storage cryptbuf current room password (w ∷ name ∷ v ∷ []) =
    if password 0 == 0
    then (negsuc 0, storage, cryptbuf)
    else on_entry storage cryptbuf (λ entry. encrypt_entry fs storage cryptbuf entry room password)
        (sfs_lookup storage stale current name)
shell_cmd_encrypt fs stale storage cryptbuf current room password argv = (pos 0, storage, cryptbuf)

unfoldable pub shell_cmd_decrypt :
    Filesystem → Mem → Mem → Mem → ShellEntry → ℕ → Mem → List (List ℕ) → Crypted
shell_cmd_decrypt fs stale storage cryptbuf current room password (w ∷ name ∷ v ∷ []) =
    if password 0 == 0
    then (negsuc 0, storage, cryptbuf)
    else on_entry storage cryptbuf (λ entry. decrypt_entry fs storage cryptbuf entry room password)
        (sfs_lookup storage stale current name)
shell_cmd_decrypt fs stale storage cryptbuf current room password argv = (pos 0, storage, cryptbuf)

-- The loops of `echo` and `sendmsg`: the words from position `at` on with spaces between them, up to
-- the first that does not fit below `limit`.
unfoldable pub joined : ℕ → ℕ → List (List ℕ) → List ℕ
joined limit at [] = []
joined limit at (w ∷ []) = if leb limit (at + strlen w) then [] else w
joined limit at (w ∷ v ∷ ws) =
    let rest = joined limit (at + strlen w + 1) (v ∷ ws) in
    if leb limit (at + strlen w) then [] else w ++ 32 ∷ rest

-- `output` of `echo`, an array of 1000 bytes, before its terminator.
unfoldable pub echo_text : List (List ℕ) → List ℕ
echo_text [] = []
echo_text (w ∷ ws) = joined 999 0 ws

-- `msg` of `sendmsg`, an array of 512 bytes, before its terminator. A loop that ends at position 511
-- ends as one that finds no word to fit.
unfoldable pub message_text : List (List ℕ) → List ℕ
message_text (w ∷ target ∷ ws) = joined 511 0 ws
message_text ws = []
