-- ===== src/Lib.antt =====
-- Verification of the kernel's core: memory, disk, file system, messages and strings.
--
-- The parts of the program, and how they interact. The page allocator (src/mm/page_alloc.c) gives
-- runs of pages of the memory behind the kernel; the slab allocator (src/mm/allocator.c) cuts
-- them into objects of equal size, from which `kmalloc` serves small requests. The file system
-- (src/fs/fs.c) keeps a disk of 16386 sectors (src/fs/disksim.c) in blocks of 1024 bytes: a super
-- block, a table of group descriptors, two bitmaps, an inode table, and data blocks that hold
-- files and directories of 8.3 names. It copies and compares with src/framework/mem.c and
-- src/framework/string.c. The messages (src/msg.c) go over the serial line (src/connection.c) in
-- packets of a header, a payload and a checksum. The cipher (src/fs/crypto.c) is what the shell's
-- encrypting commands apply to a file's bytes. The shell (src/fs/shell.c) reads a line from the
-- keyboard (src/keyboard.c), cuts it into words and runs a command, which works on the file
-- system by the operations of src/fs/fs_shell.c.
--
-- The files and the code that they model:
--   Prelude        shared names: native numbers, Boolean tests, lists, `int` as ℤ, the reductions
--                  u8, u16, u32 and u64 of the unsigned types
--   Bits           the four operations on one bit of a byte, with their laws
--   Mem            memory objects, `memcpy`, `memset`, `memcmp` of src/framework/mem.c, and packed
--                  little-endian fields; Mem/Loops and Mem/Fields have their laws
--   Pages          src/mm/page_alloc.c: `initAllocator` is init_allocator, `kalloc` is kalloc with its
--                  loop find_run and take_run, `krealloc` is krealloc with resize, shrink_run
--                  and move_run, `page_free` is page_free; the static variables are the record Pages
--   Slab           src/mm/allocator.c: one slab of a cache; `cache_alloc` takes an object by take_object,
--                  `cache_dealloc_within` gives one back by give_object. Slab/Links has the circular
--                  lists as a store of `next` and `prev`, Slab/Cache a cache's three lists over the page
--                  allocator with `cache_grow`, `cache_alloc` and `cache_dealloc`, Slab/Kmalloc
--                  `kmalloc`, `kfree` and `allocator_init`. The record Heap keeps the structures that
--                  lie in pages by their addresses, the record Allocator the global variables
--   Msg            src/msg.c: `msg_send` gives the bytes it puts on the line, `msg_poll` takes the
--                  bytes that came and gives the new receiver and the messages printed
--   Crypt          src/fs/crypto.c
--   Text           src/framework/string.c, and in Text/Printk src/framework/printk.c; strings that are
--                  read are lists of bytes, strings that are written are memory
--   Serial         src/connection.c: `serial_init`, sending and receiving; `inb`'s results and `outb`'s
--                  arguments are lists
--   Disk           src/fs/disksim.c, and `blockRead` and `blockWrite` of src/fs/fs.c; the disk's
--                  storage is one memory that every operation takes and gives back
--   Fs/Layout      src/fs/fs.h: constants, packed structures by the offsets of their fields
--   Fs/Bitmap      `setBit`, `setZeroBit`, `getFreeBlockNumber`, `getFreeInodeNumber`
--   Fs/Inodes      `getInode`, `insertInodeTable`
--   Fs/Counts      the four functions that change the free counts
--   Fs/Directory   `findEntryAtBlock`, `lookupEntry`, `setEntry`, `insertEntry`, `fsReadDir`
--   Fs/Names       `formatName` and its helpers
--   Fs/Files       `fillDataBlock`, `fsWrite`, `fsRead`; Fs/Files/Create has `fsLookup`, `fsCreate`,
--                  `fsMkdir`, and Fs/Files/Remove has `fsRemove`, `fsRmdir`
--   Fs/Format      `fsFormat` and what it calls, `readSuperblock`
--   Keyboard       src/keyboard.c: `codeToChar`, `getCharEx` and `getChar` on the scan codes that come
--                  in; Keyboard/Input has `fgetsk_core` and `scankCore` on what `getc` returns
--   Shell/Line     `shell_readline` of src/fs/shell.c: the record Editor is its variables, the record
--                  History the ring of the last lines, one function per key; Shell/Line/Zipper is
--                  the editor on two lists that it is compared with
--   Shell/Words    `separateString`, which cuts a line apart in place
--   Shell/Dispatch `do_shell` from the words of a line to the command that runs
--   Shell/Entries  src/fs/fs_shell.c: the file system's operations on the shell's entries
--   Shell/Files    `read_whole_file`, `write_string_to_file`, and what `encrypt` and `decrypt` do with
--                  a file
--   Shell/Commands the handlers of `cd`, `touch`, `rm`, `mkdir`, `rmdir`, `encrypt`, `decrypt`, and the
--                  texts of `echo` and `sendmsg`
-- Each has its theorems in modules below it, named for what they prove, and runs in a module Tests.
--
-- How state is kept. An object in memory is a function from offsets to bytes. A function that
-- changes an object takes its old value and gives the new one, next to the status that the code
-- returns; FS_ERROR is -1. A block that the code reads into an uninitialised buffer is read over
-- zeros, since the read fills all 1024 bytes; a read that fails leaves zeros. What the code reads
-- behind an object on the stack, and the bytes of a variable that it reads or hands on without having
-- written them, are an argument. Objects of one call are taken to be distinct, but for `krealloc`, whose
-- copy runs byte by byte within the one memory.
--
-- Bounds and fuel. Loops run by recursion on the number of rounds left, which is the code's own
-- bound: 7680 pages, the blocks of an inode, 32 entries of a directory block, the bits of a bitmap,
-- 32 or 64 digits. The length of a password is searched in as many bytes as its array has.
-- `read_whole_file` runs for as many rounds as bytes fit, since each round but the last adds one.
-- The loops of `separateString` search for the terminator in as many bytes as the line's array has.
-- The walk of `cache_dealloc_within` has fuel for its slabs, of which a list has at most one for each page.
-- The keys and codes that come in are lists; a call that waits for more than there are gives nothing.
-- The unsigned types wrap as written. `int` results are integers; where one can overflow, in `atoi` and
-- `scankCore`, and where `krealloc` and `cd` reach behind an array, the result is `none`. Sizes of slabs
-- that do not wrap, in Slab/Sizes, are what the theorems compare those of the code with.
--
-- Not modelled: what src/mm/allocator.c prints and what the commands print with `printk`, the loops of
-- src/connection.c that join the serial port with the keyboard, the descriptor tables and the
-- interrupts, the splash screen, the start-up code, and scripts/; of the shell the commands `ls`, `cat`,
-- `fill`, `mount`, `format`, `conn`, `df` and `mkdirst`; the items of the entry list
-- (src/fs/entrylist.c), which is a list here; and of src/fs/fs.c the functions `dumpMemory`, which
-- prints, and `init_data_block`, which has no caller.
pub mod Prelude
pub mod Bits
pub mod Mem
pub mod Pages
pub mod Slab
pub mod Keyboard
pub mod Shell
pub mod Msg
pub mod Crypt
pub mod Text
pub mod Disk
pub mod Fs
pub mod Serial
