-- ===== src/Tests/LibcRuns.antt =====
-- Runs of the descriptors and the arguments of the C library (lib/posix).
use harvac.Prelude.{
  ℕ, ◌≡◌, refl, inl, inr, arith, Bool-cases, ltb, if◌then◌else◌, true, false, [], ◌∷◌, ◌++◌, some,
  codes, take,
}
use harvac.Kernel.System.{Kernel, user_string}
use harvac.Kernel.Files.{sys_open, is_device_path, first_free, eq_folded, open_device}
use mathlib.Core.List.{map}
use harvac.Vfs.Names.{to_upper, vfs_name_to_83}
use harvac.Posix.Dirent.{build_name}
use harvac.Posix.Dirent.Names.{dotted, build_name-vfs_name_to_83}
use harvac.Posix.Text.{strcasecmp}
use harvac.Posix.Args.{args_parse}
use harvac.Posix.Args.Words.{blanks, spaced, words, args_parse-words}
use harvac.Posix.Descriptors.{
  free, console, device, LibcFd, Libc, fd_alloc_loop, fd_alloc, detect_device, kernel_handle,
  open_handle, open_kernel, libc_open, libc_close,
}
use harvac.Posix.Descriptors.Linked.{Linked, is_kernel_kind, libc_open-Linked}
use harvac.Posix.Descriptors.Closing.{freed, after_close, libc_close-Linked}
use harvac.Tests.KernelRuns.{empty_machine, kernel_with}

args_parse-words_example :
    args_parse 2 (blanks 1 ++ spaced ((codes "-n", 2) ∷ (codes "5", 0) ∷ []) (codes "f"))
    ≡ take 2 (words ((codes "-n", 2) ∷ (codes "5", 0) ∷ []) (codes "f"))
args_parse-words_example =
    args_parse-words 2 1 ((codes "-n", 2) ∷ (codes "5", 0) ∷ []) (codes "f")
      (((λ p. cc), (omega arith, (omega arith, tt))), (((λ p. cc), (omega arith, tt)), tt))
      (omega arith, tt)

-- The table at the start of a program.
abbrev start_fd : LibcFd
start_fd = record { kind = console; console_no = 0; flags = 0; khandle = 0xffff }

abbrev start : Libc
start = record {
  fd_table = λ i. if ltb i 3 then start_fd else record start_fd { kind = free };
  errno = 0;
}

abbrev com1 : Kernel
com1 = kernel_with (codes "/dev/com1")

no_handle_yet : (fd : ℕ) → is_kernel_kind (start.fd_table fd).kind ≡ false
no_handle_yet fd = elim (Bool-cases (ltb fd 3)) [ inl t ↦ rw t refl | inr f ↦ rw f refl ]

start-Linked : Linked start com1
start-Linked = record {
  in_use = λ fd h. absurd (let e = no_handle_yet fd in ground (arith, e, h));
  distinct = λ fd other ne h h'. absurd (let e = no_handle_yet fd in ground (arith, e, h));
}

opened_com1 :
    (l : Libc) × (k : Kernel) × (libc_open 1 16 256 0 start com1 empty_machine
      ≡ some (((some 3, l), k), empty_machine))
    × ((l.fd_table 3).kind ≡ device)
unfolding libc_open detect_device strcasecmp user_string open_kernel kernel_handle sys_open
    is_device_path eq_folded first_free open_device open_handle fd_alloc fd_alloc_loop
opened_com1 = (_, _, refl, refl)

opened-Linked : Linked opened_com1.0 opened_com1.1
opened-Linked =
    libc_open-Linked 1 16 256 0 start com1 start-Linked empty_machine empty_machine (some 3)
      opened_com1.0 opened_com1.1 opened_com1.2

libc_open-Linked_example : Linked opened_com1.0 opened_com1.1
libc_open-Linked_example =
    libc_open-Linked 1 16 256 0 start com1 start-Linked empty_machine empty_machine (some 3)
      opened_com1.0 opened_com1.1 opened_com1.2

libc_close-Linked_example :
    (libc_close 3 opened_com1.0 opened_com1.1 empty_machine
      ≡ some (
        ((some 0, freed 3 opened_com1.0), after_close opened_com1.0 3 opened_com1.1),
        empty_machine,
      ))
    × (((freed 3 opened_com1.0).fd_table 3).kind ≡ free)
    × (is_kernel_kind (opened_com1.0.fd_table 3).kind ≡ true
        → ((after_close opened_com1.0 3 opened_com1.1).open_files
            (opened_com1.0.fd_table 3).khandle).used
          ≡ false)
    × Linked (freed 3 opened_com1.0) (after_close opened_com1.0 3 opened_com1.1)
libc_close-Linked_example =
    libc_close-Linked 3 opened_com1.0 opened_com1.1 empty_machine (omega arith)
      (let e = opened_com1.3 in λ p. cc) opened-Linked

build_name-vfs_name_to_83_example :
    build_name (vfs_name_to_83 (codes "ab" ++ dotted (codes "c")))
    ≡ map to_upper (codes "ab") ++ dotted (map to_upper (codes "c"))
build_name-vfs_name_to_83_example =
    build_name-vfs_name_to_83 (codes "ab") (codes "c")
      ((omega arith, omega arith, omega arith), ((omega arith, omega arith, omega arith), tt))
      ((omega arith, omega arith, omega arith), tt) (omega arith) (omega arith)
