-- ===== src/Kernel/Console.antt =====
-- The system calls on the console of src/kernel/syscalls.c: `out_byte`, SYSCALL_WRITE_STDOUT,
-- WRITE_CHAR, WRITE_STDERR and READ_STDIN, with the redirections.
pub mod Typing
use harvac.Prelude.{
  ℕ, zero, suc, ◌+◌, ◌-◌, Bool, Option, none, some, u8, Bytes, ltb, ◌==◌, ◌||◌, ◌&&◌, if◌then◌else◌,
  List, [], ◌∷◌, length, u16,
}
use harvac.Fat16.File.{fat16_read, fat16_write}
use harvac.Kernel.System.{
  Kernel, K, ◌>>=◌, return, disk, gets, modify, read_far_b, write_far_b, copy_out,
}
use harvac.Kernel.Files.{is_open, set_entry, prepend}

unfoldable pub out_byte : (fuel c : ℕ) → K (Unit {0})
out_byte fuel c = do
  k ← gets (λ k. k)
  let e = k.open_files k.g_redirect
  let to_file : K (Unit {0}) = do
    (n, f) ← disk (fat16_write fuel e.file (c ∷ []))
    modify (set_entry k.g_redirect (record e { file = f }))
  let to_screen : K (Unit {0}) = modify (λ k. record k { serial_out = c ∷ k.serial_out })
  if is_open k k.g_redirect then to_file else to_screen

-- The loop of SYSCALL_WRITE_STDOUT, on fuel.
unfoldable pub write_string : (fuel seg off : ℕ) → K (Unit {0})
write_string zero seg off = λ k m. none
write_string (suc fuel) seg off = do
  k ← gets (λ k. k)
  let c = read_far_b k.memory seg off
  let more : K (Unit {0}) = do _ ← out_byte fuel c; write_string fuel seg (u16 (off + 1))
  if c == 0 then return tt else more

unfoldable pub sys_write_stdout : (fuel caller_ds si : ℕ) → K ℕ
sys_write_stdout fuel caller_ds si =
    let written : K ℕ = do _ ← write_string fuel caller_ds si; return 0
    in if si == 0 then return 0 else written

unfoldable pub sys_write_char : (fuel al : ℕ) → K ℕ
sys_write_char fuel al = do _ ← out_byte fuel al; return 0

-- The loop of SYSCALL_WRITE_STDERR, on fuel: no redirection.
unfoldable pub write_unredirected : (fuel seg off : ℕ) → K (Unit {0})
write_unredirected zero seg off = λ k m. none
write_unredirected (suc fuel) seg off = do
  k ← gets (λ k. k)
  let c = read_far_b k.memory seg off
  let more : K (Unit {0}) = do
    _ ← modify (λ k. record k { serial_out = c ∷ k.serial_out })
    write_unredirected fuel seg (u16 (off + 1))
  if c == 0 then return tt else more

unfoldable pub sys_write_stderr : (fuel caller_ds si : ℕ) → K ℕ
sys_write_stderr fuel caller_ds si =
    let written : K ℕ = do _ ← write_unredirected fuel caller_ds si; return 0
    in if si == 0 then return 0 else written

-- What the line editor has: the number of characters, the memory and the bytes sent.
pub record Line : Type 0 where
  pub count : ℕ
  pub memory : Bytes
  pub sent : List ℕ

-- One key of the line editor: `none` ends the line.
unfoldable pub edit_key : (c maxlen seg off : ℕ) → Line → Option Line
edit_key c maxlen seg off l =
    let erased : Line = record l { count = l.count - 1; sent = prepend (8 ∷ 32 ∷ 8 ∷ []) l.sent } in
    let typed : Line = record {
      count = l.count + 1;
      memory = write_far_b l.memory seg (off + l.count) c;
      sent = c ∷ l.sent;
    } in
    if c == 13 || c == 10 || c == 4
    then none
    else some (
        if c == 8 || c == 0x7f
        then (if ltb 0 l.count then erased else l)
        else if ltb l.count (u16 (maxlen + 65535))
        then typed
        else l)

-- The line editor, and the keys that are left. It waits for ever for a key that does not come.
unfoldable pub edit_line : (keys : List ℕ) (maxlen seg off : ℕ) → Line → Option (Line × List ℕ)
edit_line [] maxlen seg off l = none
edit_line (key ∷ keys) maxlen seg off l =
    let c = u8 key in
    let ended : Line = record {
      count = l.count;
      memory = write_far_b l.memory seg (off + l.count) 0;
      sent = if c == 4 then l.sent else 10 ∷ 13 ∷ l.sent;
    } in
    elim (edit_key c maxlen seg off l) [
      | none ↦ some (ended, keys)
      | some l' ↦ edit_line keys maxlen seg off l'
    ]

unfoldable pub sys_read_stdin : (fuel caller_ds si di : ℕ) → K ℕ
sys_read_stdin fuel caller_ds si di = do
  k ← gets (λ k. k)
  let from_file : K ℕ = do
    (tmp, f) ← disk (fat16_read fuel (k.open_files k.g_stdin).file (if ltb 512 di then 512 else di))
    _ ← modify (set_entry k.g_stdin (record (k.open_files k.g_stdin) { file = f }))
    _ ← modify (λ k. record k { memory = copy_out tmp k.memory caller_ds si })
    return (length tmp)
  let line : Line = record { count = 0; memory = k.memory; sent = k.serial_out }
  let typed : Line → List ℕ → K ℕ = λ l keys. do
    _ ← modify (λ k. record k { memory = l.memory; serial_out = l.sent; keys = keys })
    return (l.count)
  let from_keyboard : K ℕ = elim (edit_line k.keys di caller_ds si line) [
    | none ↦ (λ k m. none)
    | some (l, keys) ↦ typed l keys
  ]
  if is_open k k.g_stdin then from_file else from_keyboard
