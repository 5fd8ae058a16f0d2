-- ===== src/Kernel/Exec.antt =====
-- SYSCALL_EXEC of src/kernel/syscalls.c: the search for the program, its loading, its arguments, and
-- `name_to_83`.
pub mod Arguments
use harvac.Prelude.{
  ℕ, zero, suc, ◌+◌, ◌-◌, ◌*◌, Bool, true, false, ◌&&◌, leb, ltb, ◌==◌, if◌then◌else◌, List, [],
  ◌∷◌, ◌++◌, Option, none, some, length, take, u16, Bytes, get_or, get_u16, codes,
}
use harvac.Machine.{M}
use harvac.Machine
use harvac.Errors.{Result, ok, err, err_not_found}
use harvac.Fat16.Volume.{Fs}
use harvac.Fat16.Dir.{Found, fat16_find, has_attr, attr_directory}
use harvac.Fat16.File.{File, fat16_open, fat16_open_in_dir, fat16_read}
use harvac.Vfs.Names.{slash, vfs_name_to_83}
use harvac.Vfs.Resolve.{last_component}
use harvac.Kernel.Process.{Processes, place_child, child_refused}
use harvac.Kernel.System.{
  Kernel, K, ◌>>=◌, return, disk, gets, modify, read_far_b, write_far_b, user_string, copy_out,
  Target, resolve_user_path, cwd_dir_cluster,
}

abbrev pub segment_size : ℕ
segment_size = 65536

-- Whether a string has a slash. Without a zero or a slash in its segment the loop does not end.
unfoldable pub has_slash : (room : ℕ) → Bytes → (seg off : ℕ) → Option Bool
has_slash zero memory seg off = none
has_slash (suc room) memory seg off =
    let rest = has_slash room memory seg (off + 1) in
    let c = read_far_b memory seg off in
    if c == 0 then some false else if c == slash then some true else rest

unfoldable pub name_to_83 : Bytes → (seg off : ℕ) → Bytes
name_to_83 memory seg off =
    let path = user_string segment_size memory seg off in
    vfs_name_to_83 (take 31 (last_component path path))

-- The name with the extension COM.
unfoldable pub with_ext : Bytes → Bytes
with_ext name_83 i = if ltb i 8 then name_83 i else get_or (codes "COM") (i - 8) 0

-- The first of some calls that opens a file.
unfoldable pub first_open : List (M (Result File)) → M (Option File)
first_open [] = Machine.return none
first_open (c ∷ cs) =
    Machine.◌>>=◌ c (λ r. elim r [ ok f ↦ Machine.return (some f) | err e ↦ first_open cs ])

-- A name with and without the extension, in a directory.
abbrev pub both : (fuel : ℕ) → Fs → (dir_cluster : ℕ) → Bytes → List (M (Result File))
both fuel fs dir_cluster name_83 =
    fat16_open_in_dir fuel fs dir_cluster name_83
    ∷ fat16_open_in_dir fuel fs dir_cluster (with_ext name_83)
    ∷ []

abbrev pub bin_name : Bytes
bin_name i = get_or (codes "BIN        ") i 0

-- The search in the directory BIN.
unfoldable pub in_bin : (fuel : ℕ) → Bytes → K (Option File)
in_bin fuel name_83 = do
  k ← gets (λ k. k)
  r ← disk (fat16_find k.root_fs bin_name)
  let search : Found → K (Option File) = λ f.
      if has_attr f.dirent attr_directory
      then disk (first_open (both fuel k.root_fs (get_u16 f.dirent 26) name_83))
      else return none
  elim r [ ok f ↦ search f | err e ↦ return none ]

-- The search for a name without a slash: the working directory, the root, and BIN.
unfoldable pub find_bare : (fuel : ℕ) → Bytes → K (Option File)
find_bare fuel name_83 = do
  k ← gets (λ k. k)
  cwd ← cwd_dir_cluster fuel
  let here : List (M (Result File)) = elim cwd [
    | none ↦ []
    | some cluster ↦ both fuel k.root_fs cluster name_83
  ]
  let root : List (M (Result File)) =
      fat16_open k.root_fs name_83 ∷ fat16_open k.root_fs (with_ext name_83) ∷ []
  file ← disk (first_open (here ++ root))
  elim file [ some f ↦ return (some f) | none ↦ in_bin fuel name_83 ]

unfoldable pub find_program : (fuel caller_ds bx : ℕ) → K (Option File)
find_program fuel caller_ds bx = do
  k ← gets (λ k. k)
  let at_path : K (Option File) = do
    r ← resolve_user_path fuel caller_ds bx
    let opens : Target → K (Option File) =
        λ t. disk (first_open (both fuel t.mnt.fs t.dir_cluster t.name83))
    elim r [ ok t ↦ opens t | err e ↦ return none ]
  elim (has_slash segment_size k.memory caller_ds bx) [
    | none ↦ (λ k m. none)
    | some true ↦ at_path
    | some false ↦ find_bare fuel (name_to_83 k.memory caller_ds bx)
  ]

-- The 24 KB of the child, cleared.
unfoldable pub clear_child : (child_seg : ℕ) → Bytes → Bytes
clear_child child_seg memory a =
    if leb (child_seg * 16) a && ltb a (child_seg * 16 + 24576) then 0 else memory a

-- The loop that loads the file, on fuel.
unfoldable pub load_loop : (fuel child_seg load_off : ℕ) → File → K (Unit {0})
load_loop zero child_seg load_off file = λ k m. none
load_loop (suc fuel) child_seg load_off file = do
  (tmp, f) ← disk (fat16_read fuel file 512)
  let n = length tmp
  let loaded : K (Unit {0}) = do
    _ ← modify (λ k. record k { memory = copy_out tmp k.memory child_seg load_off })
    let more = load_loop fuel child_seg (u16 (load_off + n)) f
    if ltb n 512 then return tt else more
  if n == 0 then return tt else loaded

-- The loop over the characters of the arguments that are left, and the zero behind them.
unfoldable pub copy_args : (left : ℕ) → Bytes → (caller_ds src child_seg dst : ℕ) → Bytes
copy_args zero memory caller_ds src child_seg dst = write_far_b memory child_seg dst 0
copy_args (suc left) memory caller_ds src child_seg dst =
    let c = read_far_b memory caller_ds src in
    let copied = write_far_b memory child_seg dst c in
    let rest = copy_args left copied caller_ds (src + 1) child_seg (dst + 1) in
    if c == 0 then write_far_b copied child_seg (dst + 1) 0 else rest

abbrev pub max_args : ℕ
max_args = 125

unfoldable pub put_args : Bytes → (caller_ds cx child_seg : ℕ) → Bytes
put_args memory caller_ds cx child_seg =
    if cx == 0
    then write_far_b memory child_seg 0x82 0
    else copy_args max_args memory caller_ds cx child_seg 0x82

-- The status and the processes. With status 0 the child runs next.
unfoldable pub sys_exec : (fuel ram_paras caller_ds bx cx : ℕ) → Processes → K (ℕ × Processes)
sys_exec fuel ram_paras caller_ds bx cx p = do
  file ← find_program fuel caller_ds bx
  let child_seg = p.next_seg
  let load : File → K (ℕ × Processes) = λ f. do
    _ ← modify (λ k. record k { memory = clear_child child_seg k.memory })
    _ ← load_loop fuel child_seg 0x100 f
    _ ← modify (λ k. record k { memory = put_args k.memory caller_ds cx child_seg })
    return (place_child ram_paras p)
  elim file [
    | none ↦ return (err_not_found, p)
    | some f ↦
        if child_refused ram_paras child_seg then return (place_child ram_paras p) else load f
  ]
