-- ===== src/Lib.antt =====
-- Harvac, a small operating system for 16-bit PCs: a model of its disk and keyboard drivers, its FAT16
-- file system, its paths and mounts, its kernel's heap, system calls and processes, the C library and
-- some of the utilities of its applications, its editor and file manager, and the words of its shell.
--
-- The parts and their files, with paths from the root of the repository:
--   Machine.antt, Drivers/Disk.antt: the state of the driver and the disk, and `src/drivers/disk.c`.
--     The BIOS transfer is one step on the sectors of the disk by the registers of the call. The
--     sequence of its outcomes is part of the state, so that errors and retries are runs. The buffer
--     `sec_buf` of `src/drivers/fat16.c` is part of the machine, since all its functions share it.
--   Drivers/Keyboard.antt: `src/drivers/keyboard.c`. The ring of events is a record on its own, the
--     modifiers another one; an interrupt is a scan code.
--   Fat16/Volume.antt: `fat16_mount`; Fat16/Table.antt: `fat16_read_fat`, `fat16_write_fat`,
--     `fat16_find_free_cluster`, `fat16_count_free_clusters` and `fat16_free_chain`;
--     Fat16/Dir.antt: `fat16_find` and `fat16_find_in_dir`; Fat16/Iterate.antt: `fat16_opendir`,
--     `fat16_readdir`; Fat16/File.antt: `fat16_open`, `fat16_read`, `fat16_seek`, `fat16_write`;
--     Fat16/Namespace.antt: create, delete, mkdir, rmdir, rename and the date of an entry. All are of
--     `src/drivers/fat16.c`.
--   Vfs/Names.antt, Vfs/Path.antt, Vfs/Resolve.antt: `src/fs/vfs.c`; Vfs/Mount.antt: `src/fs/mount.c`.
--     A path goes through `vfs_abspath`, the mount table gives the volume, and the component as an
--     8.3 name goes to the file system.
--   Editor/Far.antt: `lib/hdk/far.c`; Editor/Gap.antt: `apps/medit/gap.c`; Editor/Lines.antt:
--     `apps/medit/doc.c`; Editor/Find.antt: `apps/medit/search.c`.
--     Editor/Edit.antt: the state, the selection and the columns of `apps/medit/edit.c`, and
--     `apps/medit/clip.c`; Editor/Edit/Rows.antt: word wrap and `ensure_visible`;
--     Editor/Edit/Commands.antt: the commands; Editor/Edit/Handle.antt: `edit_handle`, with the key
--     code read to a case of its `switch` first. The other files of Editor/Edit are proofs.
--   Hdk/Keys.antt: `lib/hdk/kbd.c`; Hdk/Format.antt: `lib/hdk/fmt.c`; Hdk/Dialog.antt: the input field and
--     the answers of `lib/hdk/dlg.c`, as functions of the keys.
--   Ncd/Panel.antt: a pane of `apps/ncd/panel.c`, whose entries are a list; Ncd/Manager.antt: both panes
--     and the handlers of `apps/ncd/main.c`; Ncd/Manager/Keys.antt: its main loop and its prompt, with
--     the answers of the dialogs and the keys at the prompt as arguments. The calls of the C library that
--     they make, and the viewer, copying and removing trees of files, are two interfaces, records of
--     functions on a state of any type.
--   Shell/Words.antt: `glob_expand_args` and `read_bat_line` of `apps/shell.c`.
--   Kernel/Memory.antt: the heap of `src/kernel/memory.c`, whose bitmap and count are a record.
--   Kernel/System.antt: the statics of `src/kernel/syscalls.c`, the caller's memory and
--     `resolve_user_path`. Kernel/Files.antt: the calls on open files. Kernel/Console.antt: the console,
--     its redirections and its line editor. Kernel/Paths.antt: the calls on paths, mounts and the
--     volume. Kernel/Exec.antt: the search for a program, its loading and its arguments.
--     Kernel/Process.antt: the memory of processes and their nesting, with the stack of
--     `src/kernel/syscall.asm`, of which the saved segments are kept and the saved registers are not.
--     A call is a run on this state and the machine, one function for each `case` of the dispatch.
--   Posix/Glob.antt: `lib/posix/fnmatch.c`; Posix/Text.antt, Posix/Number.antt: `lib/posix/string.c`;
--     Posix/Stdio.antt: `getline_fd` of `lib/posix/stdio.c`; Posix/Args.antt: `lib/posix/args.c`;
--     Posix/Descriptors.antt: `lib/posix/fd.c`, with `open` and `close`, which are runs on the table of
--     descriptors and on the kernel's state, by the kernel's calls as they are modelled;
--     Posix/Dirent.antt: `build_name` of `lib/posix/dirent.c`.
--   Apps/Sort.antt, Apps/Tail.antt, Apps/Cut.antt, Apps/Grep.antt: what `apps/sort.c`, `apps/tail.c`,
--     `apps/cut.c` and `apps/grep.c` do with the lines that `getline_fd` gives them.
--   Tests/ holds runs on concrete inputs.
--
-- Numbers are natural numbers with the wrap-around of the machine's widths written out. A buffer is a
-- function from offsets to bytes. An operation is a function from the machine to a result and a new
-- machine; a C function's code of success or failure is its number or a `Result`. A C string is the
-- list of its characters up to its zero.
--
-- Loops over a count are recursion on the count. Loops along a cluster chain, which the source runs
-- until the chain ends, and the loop over the components of a path take fuel. A chain's loop out of
-- fuel has no result (`none`), so that a theorem on its result shows that the fuel is enough:
-- releasing takes one more than the clusters of a chain and at most 65537, a read takes one more than
-- the bytes that are wanted. The components of a path are fewer than its characters. The
-- loops of `ensure_visible` over lines and rows take one more than the characters or rows that are
-- left, and so does the loop over the words of a command. The
-- comparison of a name of n characters with a pattern of p takes at most n * (p + 1) + p + 1 rounds,
-- and the digits of a number are fewer than the number plus one. The calls of the kernel hand their
-- fuel on to the file system. The keys and the bytes of the serial port that are still to come are
-- lists of the state: a call that waits for one that never comes has no result.
--
-- Not modelled: of the kernel's calls, those on directory handles, which copy structures of far
-- pointers, the listing of mounts, those of the screen and the keyboard, and the dispatch by number; the
-- drivers of the screen, the serial port and the timer, and the ports of the keyboard; the rest of the C
-- library and of the utilities; the lines of the shells with their pipes and redirections; drawing, the
-- menus of the editor and the viewer of the file manager; `vfs_rename` and `vfs_dir` of
-- `src/fs/vfs.c`, `mount_init` and `mount_format_name` of `src/fs/mount.c`; and the programs in assembly.
pub mod Prelude
pub mod Machine
pub mod Errors
pub mod Drivers
pub mod Fat16
pub mod Editor
pub mod Vfs
pub mod Kernel
pub mod Posix
pub mod Apps
pub mod Hdk
pub mod Ncd
pub mod Shell
pub mod Tests
