-- ===== src/Kernel/Files.antt =====
-- The system calls on open files of src/kernel/syscalls.c: SYSCALL_OPEN, CREATE, CLOSE, READ, WRITE,
-- SEEK and TELL, `is_device_path`, and the redirections.
pub mod Slots
pub mod Kinds
use harvac.Prelude.{
  ℕ, zero, suc, ◌+◌, ◌-◌, ◌*◌, ◌/◌, ◌%◌, Bool, true, false, not, ◌&&◌, ◌||◌, leb, ltb, ◌==◌,
  if◌then◌else◌, List, [], ◌∷◌, ◌++◌, Option, none, some, length, take, drop, u8, u16, u32, Bytes,
  update, codes,
}
use harvac.Errors.{Result, ok, err}
use harvac.Posix.Glob.{fold_lower}
use harvac.Fat16.File.{File, fat16_open_in_dir, fat16_read, fat16_write, fat16_seek}
use harvac.Fat16.Namespace.{fat16_create_in_dir}
use harvac.Kernel.System.{
  OfKind, of_file, of_serial, OpenFile, max_open_files, Kernel, K, ◌>>=◌, return, disk, gets,
  modify, user_string, copy_in, copy_out, Target, resolve_user_path,
}

abbrev pub no_handle : ℕ
no_handle = 0xffff

abbrev pub err_invalid_handle : ℕ
err_invalid_handle = 3

abbrev pub err_invalid_param : ℕ
err_invalid_param = 4

-- The first entry from the `i`-th on that is not used.
unfoldable pub first_free : (left i : ℕ) → (ℕ → OpenFile) → Option ℕ
first_free zero i open_files = none
first_free (suc left) i open_files =
    let rest = first_free left (i + 1) open_files in if (open_files i).used then rest else some i

unfoldable pub eq_folded : (a b : List ℕ) → Bool
eq_folded [] [] = true
eq_folded [] (d ∷ b) = false
eq_folded (c ∷ a) [] = false
eq_folded (c ∷ a) (d ∷ b) =
    let rest = eq_folded a b in if fold_lower c == fold_lower d then rest else false

unfoldable pub is_device_path : (path : List ℕ) → Bool
is_device_path path =
    eq_folded path (codes "CON")
    || eq_folded path (codes "/dev/tty")
    || eq_folded path (codes "/dev/com1")
    || eq_folded path (codes "/dev/CON")

abbrev pub set_entry : (i : ℕ) → OpenFile → Kernel → Kernel
set_entry i e k = record k { open_files = update k.open_files i e }

-- Whether a handle names an entry in use.
abbrev pub is_open : Kernel → (handle : ℕ) → Bool
is_open k handle = ltb handle max_open_files && (k.open_files handle).used

unfoldable pub open_device : (i : ℕ) → K ℕ
open_device i = do
  k ← gets (λ k. k)
  _ ← modify (set_entry i (record (k.open_files i) { used = true; kind = of_serial }))
  return i

unfoldable pub open_target : (fuel i : ℕ) → Target → K ℕ
open_target fuel i t = do
  r ← disk (fat16_open_in_dir fuel t.mnt.fs t.dir_cluster t.name83)
  let opened : File → K ℕ =
      λ f. do _ ← modify (set_entry i (record { used = true; kind = of_file; file = f })); return i
  elim r [ ok f ↦ opened f | err e ↦ return no_handle ]

unfoldable pub sys_open : (fuel caller_ds bx : ℕ) → K ℕ
sys_open fuel caller_ds bx = do
  k ← gets (λ k. k)
  let at : ℕ → K ℕ = λ i. do
    let file : K ℕ = do
      r ← resolve_user_path fuel caller_ds bx
      elim r [ ok t ↦ open_target fuel i t | err e ↦ return no_handle ]
    if is_device_path (user_string 15 k.memory caller_ds bx) then open_device i else file
  elim (first_free max_open_files 0 k.open_files) [ none ↦ return no_handle | some i ↦ at i ]

-- The kind of the entry stays what it was.
unfoldable pub create_target : (fuel i : ℕ) → Target → K ℕ
create_target fuel i t = do
  r ← disk (fat16_create_in_dir fuel t.mnt.fs t.dir_cluster t.name83)
  k ← gets (λ k. k)
  let created : File → K ℕ = λ f. do
    _ ← modify (set_entry i (record { used = true; kind = (k.open_files i).kind; file = f }))
    return i
  elim r [ ok f ↦ created f | err e ↦ return no_handle ]

unfoldable pub sys_create : (fuel caller_ds bx : ℕ) → K ℕ
sys_create fuel caller_ds bx = do
  r ← resolve_user_path fuel caller_ds bx
  k ← gets (λ k. k)
  let place : Target → K ℕ = λ t. elim (first_free max_open_files 0 k.open_files) [
    | none ↦ return no_handle
    | some i ↦ create_target fuel i t
  ]
  elim r [ ok t ↦ place t | err e ↦ return no_handle ]

unfoldable pub sys_close : (bx : ℕ) → K ℕ
sys_close bx = do
  k ← gets (λ k. k)
  let close : K ℕ = do
    _ ← modify (set_entry bx (record (k.open_files bx) { used = false }))
    return 0
  if is_open k bx then close else return err_invalid_handle

-- `count` bytes of the serial port to the caller's buffer; without a byte the call waits for ever.
unfoldable pub serial_read : (count seg off : ℕ) → K (Unit {0})
serial_read zero seg off = return tt
serial_read (suc count) seg off = do
  k ← gets (λ k. k)
  let store : ℕ → List ℕ → K (Unit {0}) = λ b rest. do
    _ ← modify (λ k. record k { serial_in = rest; memory = copy_out (b ∷ []) k.memory seg off })
    serial_read count seg (off + 1)
  elim k.serial_in [ [] ↦ (λ k m. none) | b ∷ rest ↦ store b rest ]

-- The loop over chunks of 512 bytes, on fuel: the number of bytes read.
unfoldable pub read_chunks : (fuel handle seg off total count : ℕ) → K ℕ
read_chunks zero handle seg off total count = λ k m. none
read_chunks (suc fuel) handle seg off total count = do
  k ← gets (λ k. k)
  let chunk = if ltb 512 count then 512 else count
  let round : K ℕ = do
    (tmp, f) ← disk (fat16_read fuel (k.open_files handle).file chunk)
    let n = length tmp
    _ ← modify (set_entry handle (record (k.open_files handle) { file = f }))
    let copied : K ℕ = do
      _ ← modify (λ k. record k { memory = copy_out tmp k.memory seg (off + total) })
      read_chunks fuel handle seg off (u16 (total + n)) (count - n)
    if n == 0 then return total else copied
  if count == 0 then return total else round

unfoldable pub sys_read : (fuel caller_ds bx cx dx : ℕ) → K ℕ
sys_read fuel caller_ds bx cx dx = do
  k ← gets (λ k. k)
  let device : K ℕ = do _ ← serial_read dx caller_ds cx; return dx
  let opened : K ℕ = elim ((k.open_files bx).kind) [
    | of_serial ↦ device
    | of_file ↦ read_chunks fuel bx caller_ds cx 0 dx
  ]
  if is_open k bx then opened else return err_invalid_handle

abbrev pub prepend : List ℕ → List ℕ → List ℕ
prepend [] out = out
prepend (b ∷ bytes) out = prepend bytes (b ∷ out)

unfoldable pub write_chunks : (fuel handle seg off total count : ℕ) → K ℕ
write_chunks zero handle seg off total count = λ k m. none
write_chunks (suc fuel) handle seg off total count = do
  k ← gets (λ k. k)
  let chunk = if ltb 512 count then 512 else count
  let round : K ℕ = do
    (n, f) ←
        disk
          (fat16_write fuel (k.open_files handle).file (copy_in chunk k.memory seg (off + total)))
    _ ← modify (set_entry handle (record (k.open_files handle) { file = f }))
    let more = write_chunks fuel handle seg off (u16 (total + n)) (count - n)
    if n == 0 then return total else more
  if count == 0 then return total else round

unfoldable pub sys_write : (fuel caller_ds bx cx dx : ℕ) → K ℕ
sys_write fuel caller_ds bx cx dx = do
  k ← gets (λ k. k)
  let device : K ℕ = do
    _ ←
        modify
          (λ k. record k { serial_out = prepend (copy_in dx k.memory caller_ds cx) k.serial_out })
    return dx
  let opened : K ℕ = elim ((k.open_files bx).kind) [
    | of_serial ↦ device
    | of_file ↦ write_chunks fuel bx caller_ds cx 0 dx
  ]
  if is_open k bx then opened else return err_invalid_handle

-- The position that SYSCALL_SEEK asks for.
unfoldable pub seek_target : (al offset : ℕ) → File → ℕ
seek_target al offset f =
    if al == 1
    then u32 (f.position + offset)
    else if al == 2
    then (if leb offset f.file_size then f.file_size - offset else 0)
    else offset

unfoldable pub sys_seek : (fuel al bx cx dx : ℕ) → K ℕ
sys_seek fuel al bx cx dx = do
  k ← gets (λ k. k)
  let e = k.open_files bx
  let seek : K ℕ = do
    (ret, f) ← disk (fat16_seek fuel e.file (seek_target al (dx * 65536 + cx) e.file))
    _ ← modify (set_entry bx (record e { file = f }))
    return (if ret == 0 then 0 else err_invalid_param)
  let opened : K ℕ = elim e.kind [ of_serial ↦ return err_invalid_param | of_file ↦ seek ]
  if is_open k bx then opened else return err_invalid_handle

abbrev pub bytes_of_u32 : ℕ → List ℕ
bytes_of_u32 v = u8 v ∷ u8 (v / 256) ∷ u8 (v / 65536) ∷ u8 (v / 16777216) ∷ []

unfoldable pub sys_tell : (caller_ds bx cx : ℕ) → K ℕ
sys_tell caller_ds bx cx = do
  k ← gets (λ k. k)
  let position = elim ((k.open_files bx).kind) as (λ x. ℕ) [
    | of_serial ↦ 0
    | of_file ↦ (k.open_files bx).file.position
  ]
  let tell : K ℕ = do
    _ ← modify (λ k. record k { memory = copy_out (bytes_of_u32 position) k.memory caller_ds cx })
    return 0
  if is_open k bx then tell else return err_invalid_handle

unfoldable pub sys_set_stdout : (bx : ℕ) → K ℕ
sys_set_stdout bx = do _ ← modify (λ k. record k { g_redirect = bx }); return 0

unfoldable pub sys_set_stdin : (bx : ℕ) → K ℕ
sys_set_stdin bx = do _ ← modify (λ k. record k { g_stdin = bx }); return 0

unfoldable pub sys_isatty : K ℕ
sys_isatty = gets (λ k. if k.g_stdin == no_handle then 1 else 0)

-- The entry of a redirection, which ends with it.
abbrev pub dropped : (handle : ℕ) → Kernel → Kernel
dropped handle k =
    if ltb handle max_open_files
    then set_entry handle (record (k.open_files handle) { used = false }) k
    else k

unfoldable pub syscall_finalize_redirect : K (Unit {0})
syscall_finalize_redirect = modify (λ k. record (dropped k.g_redirect k) { g_redirect = no_handle })

unfoldable pub syscall_finalize_stdin : K (Unit {0})
syscall_finalize_stdin = modify (λ k. record (dropped k.g_stdin k) { g_stdin = no_handle })
