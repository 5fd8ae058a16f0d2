-- ===== src/Kernel/System.antt =====
-- The state of the system calls of src/kernel/syscalls.c, and how they read the caller's memory and
-- its paths.
use harvac.Prelude.{
  ℕ, zero, suc, ◌+◌, ◌-◌, ◌*◌, Bool, ◌==◌, if◌then◌else◌, List, [], ◌∷◌, Option, none, some, length,
  take, u8, u16, Bytes, update,
}
use harvac.Machine.{M}
use harvac.Errors.{Result, ok, err, err_not_found}
use harvac.Fat16.Volume.{Fs}
use harvac.Fat16.File.{File}
use harvac.Vfs.Names.{slash, vfs_name_to_83}
use harvac.Vfs.Path.{vfs_max_path, vfs_max_cwd, vfs_abspath}
use harvac.Vfs.Mount.{MountEntry, Mounts}
use harvac.Vfs.Resolve.{vfs_resolve_dir, last_component, vfs_getcwd}

-- `kind` of an entry of the table of open files
pub data OfKind : Type 0 where
  of_file of_serial : OfKind

-- `open_file_entry_t`
pub record OpenFile : Type 0 where
  pub used : Bool
  pub kind : OfKind
  pub file : File

abbrev pub max_open_files : ℕ
max_open_files = 16

-- The statics of the file, the mounts and the working directory, the memory by its addresses, the
-- keys to come, what the serial port still receives, and what was sent to it, the last byte first.
-- The text screen is sent the same bytes.
pub record Kernel : Type 0 where
  pub open_files : ℕ → OpenFile
  pub g_redirect : ℕ
  pub g_stdin : ℕ
  pub root_fs : Fs
  pub mounts : Mounts
  pub cwd : List ℕ
  pub memory : Bytes
  pub keys : List ℕ
  pub serial_in : List ℕ
  pub serial_out : List ℕ

-- A system call: a run on the kernel and the disk.
abbrev pub K : Type 0 → Type 0
K A = Kernel → M (A × Kernel)

infixl 5 ◌>>=◌
abbrev pub ◌>>=◌ : {A B : Type 0} → K A → (A → K B) → K B
◌>>=◌ c f k m = elim (c k m) [ none ↦ none | some ((a, k'), m') ↦ f a k' m' ]

abbrev pub return : {A : Type 0} → A → K A
return a k m = some ((a, k), m)

-- A call of the file system.
abbrev pub disk : {A : Type 0} → M A → K A
disk c k m = elim (c m) [ none ↦ none | some (a, m') ↦ some ((a, k), m') ]

abbrev pub gets : {A : Type 0} → (Kernel → A) → K A
gets f k m = some ((f k, k), m)

abbrev pub modify : (Kernel → Kernel) → K (Unit {0})
modify f k m = some ((tt, f k), m)

-- `read_far_b` and `write_far_b`, at an offset of 16 bits
abbrev pub read_far_b : Bytes → (seg off : ℕ) → ℕ
read_far_b memory seg off = memory (seg * 16 + u16 off)

abbrev pub write_far_b : Bytes → (seg off value : ℕ) → Bytes
write_far_b memory seg off value = update memory (seg * 16 + u16 off) (u8 value)

-- The string at an address, of at most `room` characters.
unfoldable pub user_string : (room : ℕ) → Bytes → (seg off : ℕ) → List ℕ
user_string zero memory seg off = []
user_string (suc room) memory seg off =
    let rest = user_string room memory seg (off + 1) in
    let c = read_far_b memory seg off in if c == 0 then [] else c ∷ rest

-- The loops that copy between the caller's memory and a buffer.
unfoldable pub copy_in : (count : ℕ) → Bytes → (seg off : ℕ) → List ℕ
copy_in zero memory seg off = []
copy_in (suc count) memory seg off = read_far_b memory seg off ∷ copy_in count memory seg (off + 1)

unfoldable pub copy_out : List ℕ → Bytes → (seg off : ℕ) → Bytes
copy_out [] memory seg off = memory
copy_out (b ∷ bytes) memory seg off = copy_out bytes (write_far_b memory seg off b) seg (off + 1)

-- The directory of an absolute path whose last component is `name`: at least the root.
unfoldable pub directory_part : (apath name : List ℕ) → List ℕ
directory_part apath name =
    let last = length apath - length name - 1 in if last == 0 then slash ∷ [] else take last apath

-- What `resolve_user_path` gives: the mount, the cluster of the directory, and the 8.3 name.
pub record Target : Type 0 where
  pub mnt : MountEntry
  pub dir_cluster : ℕ
  pub name83 : Bytes

abbrev pub target : (name : List ℕ) → Result (MountEntry × ℕ) → Result Target
target name (ok (mnt, cluster)) =
    ok (record { mnt = mnt; dir_cluster = cluster; name83 = vfs_name_to_83 name })
target name (err e) = err err_not_found

unfoldable pub resolve_user_path : (fuel seg off : ℕ) → K (Result Target)
resolve_user_path fuel seg off = do
  k ← gets (λ k. k)
  let upath = user_string (vfs_max_path - 1) k.memory seg off
  let apath = vfs_abspath k.cwd upath vfs_max_path
  let name = last_component apath apath
  let found : K (Result Target) = do
    r ← disk (vfs_resolve_dir fuel k.mounts (directory_part apath name))
    return (target name r)
  elim name [ [] ↦ return (err 4) | _ ∷ _ ↦ found ]

-- The cluster of the working directory, if it is not the root.
unfoldable pub cwd_dir_cluster : (fuel : ℕ) → K (Option ℕ)
cwd_dir_cluster fuel = do
  k ← gets (λ k. k)
  r ← disk (vfs_resolve_dir fuel k.mounts (vfs_getcwd k.cwd vfs_max_cwd))
  return (elim r [ ok (mnt, cluster) ↦ if cluster == 0 then none else some cluster | err e ↦ none ])
