-- ===== src/Shell/Tests.antt =====
-- Runs of the shell's functions.
use ios.Prelude.{
  ℕ, zero, suc, ◌*◌, ◌/◌, ◌<◌, ◌≡◌, true, false, ◌∷◌, List, [], Option, some, none, ℤ, pos, refl,
  arith,
}
use mathlib.Core.Option.{none-ne-some}
use ios.Mem.{Mem, zeros, store, blit, fill, put_u16, get_u16, put_u32, get_u32}
use ios.Keyboard.{key_up, key_left, key_del}
use mathlib.Core.Path.{subst}
use ios.Text.{strncpy}
use ios.Disk.{disk_blocks, max_block_size, block_read, block_write, disksim_read, disksim_write}
use ios.Fs.Layout.{put_inode_block, put_inode_blocks, put_inode_bytes, inode_block}
use ios.Fs.Inodes.{get_inode, insert_inode_table, inode_from_block}
use ios.Fs.Format.{root_node}
use ios.Fs.Files.Create.{fs_lookup}
use ios.Fs.Directory.{lookup_entry, lookup_blocks, find_entry_at_block, find_loop, entry_fits}
use ios.Fs.Names.{
  lookup_name, format_name, upper_string, put_name_char, name_char, name_chars, finish_name,
}
use ios.Shell.Entries.{ShellEntry, sfs_lookup, fs_node_to_shell_entry}
use ios.Shell.Dispatch.{dispatch, nothing, parse_redirect, find_command, is_help, check_conditions}
use ios.Shell.Commands.{Place, shell_cmd_cd}
use ios.Shell.Commands.Paths.{IsPlace, PlaceResult, shell_cmd_cd-PlaceResult, shell_cmd_cd_back}
use ios.Shell.Files.{read_whole_file}
use ios.Shell.Files.Whole.{IsWhole, read_whole_file-IsWhole}
use ios.Shell.Line.{History, shell_readline}
use ios.Shell.Line.Zipper.{edit_line, fresh}
use ios.Shell.Line.Recall.{HoldsLines}
use ios.Shell.Line.Refinement.{Refines, shell_readline-Refines}
use ios.Shell.Words.{separate_string}
use ios.Shell.Words.Split.{Word, plain, quoted, line, HoldWords}
use ios.Shell.Words.RoundTrip.{separate_string-line}

abbrev no_history : History
no_history = record { hist_buf = λ k. zeros; hist_total = 0 }

no_history-HoldsLines : HoldsLines no_history []
no_history-HoldsLines = record {
  some_lines = omega arith;
  all_lines = omega arith;
  line = λ k l e. absurd (none-ne-some l e);
}

-- "ls", the cursor one to the left, "x", the line feed.
abbrev some_keys : List ℕ
some_keys = b'l' ∷ b's' ∷ key_left ∷ b'x' ∷ key_del ∷ key_up ∷ 10 ∷ []

edit_line_run : edit_line 999 [] fresh some_keys ≡ some (b'l' ∷ b'x' ∷ [], [])
unfolding edit_line ios.Shell.Line.Zipper.zipper_key
edit_line_run = refl

shell_readline-Refines_example :
    Refines 999 zeros []
      (shell_readline no_history zeros 1000 zeros some_keys)
      (edit_line 999 [] fresh some_keys)
shell_readline-Refines_example =
    shell_readline-Refines 999 no_history [] zeros zeros some_keys (omega arith)
      no_history-HoldsLines tt (ground arith)

-- cd  "a b"
abbrev some_words : List (List ℕ × Word)
some_words = ([], plain (b'c' ∷ b'd' ∷ [])) ∷ (32 ∷ [], quoted (b'a' ∷ 32 ∷ b'b' ∷ [])) ∷ []

abbrev bytes_of : List ℕ → Mem
bytes_of [] j = 0
bytes_of (c ∷ cs) zero = c
bytes_of (c ∷ cs) (suc j) = bytes_of cs j

separate_string-line_example :
    HoldWords
      (separate_string 1000 (bytes_of (line some_words)) 100).buf
      (separate_string 1000 (bytes_of (line some_words)) 100).ptrs
      some_words
unfolding ios.Text.isspace
separate_string-line_example =
    separate_string-line some_words 1000 100 9 (bytes_of (line some_words)) (ground arith)
      (ground arith) refl (omega arith) (omega arith)

-- cd docs > out
abbrev some_line : List (List ℕ)
some_line =
    (b'c' ∷ b'd' ∷ []) ∷ (b'd' ∷ b'o' ∷ b'c' ∷ []) ∷ (b'>' ∷ []) ∷ (b'o' ∷ b'u' ∷ b't' ∷ []) ∷ []

dispatch_run : dispatch false some_line ≡ nothing
unfolding dispatch parse_redirect find_command is_help check_conditions ios.Text.strcmp
dispatch_run = refl

-- A disk whose root directory holds the directory D with inode 5 in its first entry.
abbrev dir_inode : Mem
dir_inode =
    put_u16 (put_inode_bytes (put_inode_blocks (put_inode_block zeros 0 600) 1) 500) 0 0x41FF

abbrev root_inode : Mem
root_inode = put_inode_blocks (put_inode_block zeros 0 517) 1

abbrev some_disk : Mem
some_disk =
    insert_inode_table
      (insert_inode_table
        (blit zeros (517 * 1024) (put_u32 (store (fill zeros 4 32 11) 4 b'D') 0 5) 0 32) 2
        root_inode)
      5 dir_inode

abbrev the_root : ShellEntry
the_root = record { name = zeros; is_directory = true; size = 0; node = root_node zeros }

abbrev some_place : Place
some_place = record { path = λ k. the_root; path_top = 0; current = the_root }

some_place-IsPlace : IsPlace the_root some_place
some_place-IsPlace = record {
  in_array = omega arith;
  at_root = λ z. refl;
  on_top = λ up. refl;
  directories = λ k lo hi. refl;
}

abbrev cd_text : List ℕ
cd_text = b'c' ∷ b'd' ∷ []

shell_cmd_cd-PlaceResult_example :
    PlaceResult the_root some_place
      (shell_cmd_cd some_disk zeros the_root some_place (cd_text ∷ (b'D' ∷ []) ∷ []))
shell_cmd_cd-PlaceResult_example =
    shell_cmd_cd-PlaceResult some_disk zeros the_root some_place (cd_text ∷ (b'D' ∷ []) ∷ [])
      some_place-IsPlace

first_block : inode_block (get_inode some_disk 5 zeros).1 0 < disk_blocks
unfolding get_inode inode_from_block insert_inode_table block_read block_write disksim_read
    disksim_write blit put_u32 get_u32 store put_u16 get_u16 fill
first_block = omega arith

read_whole_file-IsWhole_example : IsWhole some_disk (get_inode some_disk 5 zeros).1 zeros (
    read_whole_file some_disk
      (record the_root { node = record (root_node zeros) { entry = put_u32 zeros 0 5 } })
      zeros
      1000)
unfolding get_inode inode_from_block insert_inode_table block_read block_write disksim_read
    disksim_write blit put_u32 get_u32 store put_u16 get_u16 fill
read_whole_file-IsWhole_example =
    read_whole_file-IsWhole some_disk (get_inode some_disk 5 zeros).1
      (record the_root { node = record (root_node zeros) { entry = put_u32 zeros 0 5 } }) zeros 1000
      refl
      (λ p lt. (
        omega (arith, lt),
        subst (λ k. inode_block (get_inode some_disk 5 zeros).1 k < disk_blocks) {x = 0}
            {y = p / max_block_size} (omega (arith, lt)) first_block,
      ))
      (omega arith) (omega arith)

abbrev came : Option (ℤ × Place)
came = shell_cmd_cd some_disk zeros the_root some_place (cd_text ∷ (b'D' ∷ []) ∷ [])

-- The place that was left, or the one before.
abbrev left_at : Option (ℤ × Place) → Place
left_at none = some_place
left_at (some r) = r.1

abbrev below : Place
below = left_at came

went_down : (came ≡ some (pos 0, below)) × (below.path_top ≡ 1)
unfolding shell_cmd_cd sfs_lookup fs_lookup lookup_entry lookup_blocks find_entry_at_block find_loop
    entry_fits lookup_name format_name strncpy upper_string put_name_char name_char name_chars
    finish_name is_help ios.Text.strcmp get_inode inode_from_block insert_inode_table block_read
    block_write disksim_read disksim_write blit put_u32 get_u32 store put_u16 get_u16 fill
    ios.Mem.c_string ios.Mem.memcmp ios.Text.strncmp ios.Text.toupper ios.Text.isdigit
    ios.Text.isalpha ios.Text.strlen fs_node_to_shell_entry
went_down = (refl, refl)

shell_cmd_cd_back_example :
    (back : Place) × (shell_cmd_cd some_disk zeros the_root below
        (cd_text ∷ (b'.' ∷ b'.' ∷ []) ∷ [])
      ≡ some (pos 0, back))
    × (back.path_top ≡ 0)
    × (back.current ≡ the_root)
shell_cmd_cd_back_example =
    shell_cmd_cd_back some_disk zeros the_root some_place cd_text (b'D' ∷ []) cd_text (pos 0) below
      some_place-IsPlace went_down.0 went_down.1
