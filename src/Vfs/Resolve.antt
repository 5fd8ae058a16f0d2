-- ===== src/Vfs/Resolve.antt =====
-- The operations of src/fs/vfs.c on paths: the working directory, the resolution of a path, and the
-- file operations that are handed on to src/drivers/fat16.c.
use harvac.Prelude.{
  ℕ, zero, suc, ◌-◌, ◌==◌, if◌then◌else◌, List, [], ◌∷◌, take, Bytes, get_u16, none, some,
}
use mathlib.Core.List.{map}
use harvac.Machine.{M, ◌>>=◌, return, stuck}
use harvac.Errors.{Result, ok, err, err_not_found, err_access_denied}
use harvac.Fat16.Volume.{Fs}
use harvac.Fat16.Dir.{Found, has_attr, attr_directory, fat16_find_in_dir}
use harvac.Fat16.File.{File, fat16_open}
use harvac.Fat16.Namespace.{fat16_create, fat16_delete, fat16_mkdir, fat16_rmdir}
use harvac.Vfs.Names.{slash, to_upper, vfs_name_to_83}
use harvac.Vfs.Path.{vfs_max_cwd, vfs_abspath, skip_slashes}
use harvac.Vfs.Mount.{MountEntry, Mounts, mount_resolve}

abbrev pub initial_cwd : List ℕ
initial_cwd = slash ∷ []

-- The directory, cut to the caller's buffer.
unfoldable pub vfs_getcwd : (cwd : List ℕ) (buflen : ℕ) → List ℕ
vfs_getcwd cwd buflen = take (buflen - 1) cwd

-- What follows the component at the front.
unfoldable pub skip_component : List ℕ → List ℕ
skip_component [] = []
skip_component (c ∷ cs) = let rest = skip_component cs in if c == slash then c ∷ cs else rest

-- The walk of `vfs_resolve_dir` along the components of a path, on fuel.
unfoldable pub walk_dirs : (fuel : ℕ) → Fs → (rel : List ℕ) (cluster : ℕ) → M (Result ℕ)
walk_dirs zero fs rel cluster = stuck
walk_dirs (suc fuel) fs rel cluster =
    let s = skip_slashes rel in
    let enter : Found → M (Result ℕ) = λ f.
      let deeper = walk_dirs fuel fs (skip_component s) (get_u16 f.dirent 26) in
      if has_attr f.dirent attr_directory then deeper else return (err err_access_denied) in
    let step : M (Result ℕ) = do
      r ← fat16_find_in_dir fuel fs cluster (vfs_name_to_83 s)
      elim r [ ok f ↦ enter f | err e ↦ return (err err_not_found) ]
    in elim s [ [] ↦ return (ok cluster) | _ ∷ _ ↦ step ]

unfoldable pub vfs_resolve_dir :
    (fuel : ℕ) → Mounts → (abs_path : List ℕ) → M (Result (MountEntry × ℕ))
vfs_resolve_dir fuel table abs_path = elim (mount_resolve abs_path table) [
  | none ↦ return (err err_not_found)
  | some (mnt, rel) ↦ do
    r ← walk_dirs fuel mnt.fs rel 0
    return (elim r [ ok cluster ↦ ok (mnt, cluster) | err e ↦ err e ])
]

-- The status and the working directory.
unfoldable pub vfs_chdir : (fuel : ℕ) → Mounts → (cwd path : List ℕ) → M (ℕ × List ℕ)
vfs_chdir fuel table cwd path = do
  let resolved = vfs_abspath cwd path vfs_max_cwd
  r ← vfs_resolve_dir fuel table resolved
  return (elim r [ ok d ↦ (0, map to_upper resolved) | err e ↦ (e, cwd) ])

-- What follows the last slash.
unfoldable pub last_component : List ℕ → (last : List ℕ) → List ℕ
last_component [] last = last
last_component (c ∷ cs) last = last_component cs (if c == slash then cs else last)

-- The mount and the 8.3 name of the last component. The directories on the way are not looked up.
unfoldable pub vfs_resolve : Mounts → (cwd path : List ℕ) → Result (MountEntry × Bytes)
vfs_resolve table cwd path = elim (mount_resolve (vfs_abspath cwd path vfs_max_cwd) table) [
  | none ↦ err err_not_found
  | some (mnt, rel) ↦ ok (mnt, vfs_name_to_83 (last_component rel rel))
]

unfoldable pub vfs_open : Mounts → (cwd path : List ℕ) → M (Result File)
vfs_open table cwd path = elim (vfs_resolve table cwd path) [
  | ok (mnt, name) ↦ fat16_open mnt.fs name
  | err e ↦ return (err e)
]

unfoldable pub vfs_create : (fuel : ℕ) → Mounts → (cwd path : List ℕ) → M (Result File)
vfs_create fuel table cwd path = elim (vfs_resolve table cwd path) [
  | ok (mnt, name) ↦ fat16_create fuel mnt.fs name
  | err e ↦ return (err e)
]

unfoldable pub vfs_delete : (fuel : ℕ) → Mounts → (cwd path : List ℕ) → M ℕ
vfs_delete fuel table cwd path = elim (vfs_resolve table cwd path) [
  | ok (mnt, name) ↦ fat16_delete fuel mnt.fs name
  | err e ↦ return e
]

unfoldable pub vfs_mkdir : (fuel : ℕ) → Mounts → (cwd path : List ℕ) → M ℕ
vfs_mkdir fuel table cwd path = elim (vfs_resolve table cwd path) [
  | ok (mnt, name) ↦ fat16_mkdir fuel mnt.fs name
  | err e ↦ return e
]

unfoldable pub vfs_rmdir : (fuel : ℕ) → Mounts → (cwd path : List ℕ) → M ℕ
vfs_rmdir fuel table cwd path = elim (vfs_resolve table cwd path) [
  | ok (mnt, name) ↦ fat16_rmdir fuel mnt.fs name
  | err e ↦ return e
]
