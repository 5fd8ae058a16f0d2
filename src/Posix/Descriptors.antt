-- ===== src/Posix/Descriptors.antt =====
-- The descriptors of the C library: lib/posix/fd.c, `open` of lib/posix/fcntl.c, `close` of
-- lib/posix/unistd.c and `set_errno` of lib/posix/errno.c, over the kernel's calls. A path is the
-- offset of its string in the program's segment `ds`.
pub mod Linked
pub mod Closing
use harvac.Prelude.{
  ℕ, zero, suc, ◌+◌, ◌-◌, ◌*◌, ◌/◌, ◌%◌, Bool, true, false, not, ◌&&◌, ◌||◌, ltb, leb, ◌==◌,
  if◌then◌else◌, List, [], ◌∷◌, Option, none, some, u8, update, codes,
}
use harvac.Kernel.System.{Kernel, K, ◌>>=◌, return, gets, user_string}
use harvac.Kernel.Files.{sys_open, sys_create, sys_close}
use harvac.Posix.Text.{strcasecmp}

-- `FK_FREE`, `FK_CONSOLE`, `FK_FILE` and `FK_DEVICE`
pub data FdKind : Type 0 where
  free console file device : FdKind

-- `libc_fd_t`
pub record LibcFd : Type 0 where
  pub kind : FdKind
  pub console_no : ℕ
  pub flags : ℕ
  pub khandle : ℕ

-- `_fd_table` and `errno`
pub record Libc : Type 0 where
  pub fd_table : ℕ → LibcFd
  pub errno : ℕ

abbrev pub libc_max_fds : ℕ
libc_max_fds = 16

abbrev pub is_free_kind : FdKind → Bool
is_free_kind free = true
is_free_kind console = false
is_free_kind file = false
is_free_kind device = false

unfoldable pub fd_alloc_loop : (left i : ℕ) → (ℕ → LibcFd) → Option ℕ
fd_alloc_loop zero i table = none
fd_alloc_loop (suc left) i table =
    let rest = fd_alloc_loop left (i + 1) table in
    if is_free_kind (table i).kind then some i else rest

unfoldable pub fd_alloc : (ℕ → LibcFd) → Option ℕ
fd_alloc table = fd_alloc_loop (libc_max_fds - 3) 3 table

unfoldable pub fd_free : (fd : ℕ) → (ℕ → LibcFd) → ℕ → LibcFd
fd_free fd table =
    if ltb fd libc_max_fds then update table fd (record (table fd) { kind = free }) else table

abbrev pub o_wronly : ℕ
o_wronly = 1

abbrev pub o_creat : ℕ
o_creat = 4

-- `flags & mask`, for a mask of one bit
abbrev pub has_flag : (flags mask : ℕ) → Bool
has_flag flags mask = flags / mask % 2 == 1

abbrev pub errno_of : (err : ℕ) → ℕ
errno_of err =
    if err == 0
    then 0
    else if err == 1
    then 2
    else if err == 2
    then 13
    else if err == 3
    then 9
    else if err == 4
    then 22
    else if err == 5
    then 12
    else if err == 6
    then 5
    else if err == 7
    then 17
    else if err == 8
    then 24
    else if err == 10
    then 38
    else 5

-- A call that returns -1 with `errno` set.
abbrev pub fails : (errno : ℕ) → Libc → K (Option ℕ × Libc)
fails errno l = return (none, record l { errno = errno })

abbrev pub put_fd : (fd : ℕ) → LibcFd → Libc → Libc
put_fd fd e l = record l { fd_table = update l.fd_table fd e }

unfoldable pub detect_device : (path : List ℕ) → FdKind
detect_device path =
    if strcasecmp path (codes "CON") == 0
    then console
    else if strcasecmp path (codes "/dev/tty") == 0
    then console
    else if strcasecmp path (codes "/dev/com1") == 0
    then device
    else free

unfoldable pub open_console : (flags : ℕ) → Libc → K (Option ℕ × Libc)
open_console flags l = elim (fd_alloc l.fd_table) [
  | none ↦ fails 24 l
  | some fd ↦ return (
    some fd,
    put_fd fd
        (record {
          kind = console;
          console_no = if has_flag flags o_wronly then 1 else 0;
          flags = u8 flags;
          khandle = 0xffff;
        })
        l,
  )
]

-- The descriptor for a kernel handle. If there is none left the handle is closed.
unfoldable pub open_handle : (khandle flags : ℕ) (kind : FdKind) → Libc → K (Option ℕ × Libc)
open_handle khandle flags kind l = elim (fd_alloc l.fd_table) [
  | none ↦ do _ ← sys_close khandle; fails 24 l
  | some fd ↦ return (
    some fd,
    put_fd fd (record (l.fd_table fd) { kind = kind; flags = u8 flags; khandle = khandle }) l,
  )
]

unfoldable pub kernel_handle : (fuel ds path flags : ℕ) → K ℕ
kernel_handle fuel ds path flags =
    if has_flag flags o_creat then sys_create fuel ds path else sys_open fuel ds path

unfoldable pub open_kernel : (fuel ds path flags : ℕ) (kind : FdKind) → Libc → K (Option ℕ × Libc)
open_kernel fuel ds path flags kind l = do
  khandle ← kernel_handle fuel ds path flags
  if leb 16 khandle then fails 2 l else open_handle khandle flags kind l

unfoldable pub libc_open : (fuel ds path flags : ℕ) → Libc → K (Option ℕ × Libc)
libc_open fuel ds path flags l = do
  k ← gets (λ k. k)
  let by_name : K (Option ℕ × Libc) = elim (detect_device (user_string 65536 k.memory ds path)) [
    | console ↦ open_console flags l
    | device ↦ open_kernel fuel ds path flags device l
    | free ↦ open_kernel fuel ds path flags file l
    | file ↦ open_kernel fuel ds path flags file l
  ]
  if path == 0 then fails 14 l else by_name

-- The descriptor is taken away, also where the kernel reports an error.
unfoldable pub libc_close : (fd : ℕ) → Libc → K (Option ℕ × Libc)
libc_close fd l =
    let freed : Libc = record l { fd_table = fd_free fd l.fd_table } in
    let by_kernel : K (Option ℕ × Libc) = do
      r ← sys_close (l.fd_table fd).khandle
      if r == 0 then return (some 0, freed) else fails (errno_of r) freed
    in let close : K (Option ℕ × Libc) = elim ((l.fd_table fd).kind) [
      | free ↦ fails 9 l
      | console ↦ return (some 0, freed)
      | file ↦ by_kernel
      | device ↦ by_kernel
    ] in
      if leb libc_max_fds fd then fails 9 l else close
