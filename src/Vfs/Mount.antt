-- ===== src/Vfs/Mount.antt =====
-- The mount table of src/fs/mount.c.
pub mod Longest
pub mod Remove
use harvac.Prelude.{
  ℕ, zero, suc, ◌+◌, ◌-◌, Bool, true, false, ◌&&◌, ◌||◌, ltb, leb, ◌==◌, if◌then◌else◌, List, [],
  ◌∷◌, length, Option, none, some,
}
use harvac.Machine.{M, ◌>>=◌, return}
use harvac.Errors.{err_not_found, err_access_denied, err_no_memory, err_disk_error, err_file_exists}
use harvac.Fat16.Volume.{Fs, fat16_mount}
use harvac.Vfs.Names.{slash}

-- `mount_entry_t`
pub record MountEntry : Type 0 where
  pub used : Bool
  pub drive : ℕ
  pub partition_lba : ℕ
  pub mount_point : List ℕ
  pub fs : Fs

-- The table of `MAX_MOUNTS` entries.
abbrev pub Mounts : Type 0
Mounts = List MountEntry

unfoldable pub str_eq : List ℕ → List ℕ → Bool
str_eq [] [] = true
str_eq [] (d ∷ ds) = false
str_eq (c ∷ cs) [] = false
str_eq (c ∷ cs) (d ∷ ds) = let rest = str_eq cs ds in if c == d then rest else false

abbrev pub mounted_at : List ℕ → MountEntry → Bool
mounted_at mount_point e = e.used && str_eq e.mount_point mount_point

unfoldable pub mount_find : List ℕ → Mounts → Option MountEntry
mount_find mount_point [] = none
mount_find mount_point (e ∷ es) =
    let rest = mount_find mount_point es in if mounted_at mount_point e then some e else rest

unfoldable pub mount_get_root : Mounts → Option MountEntry
mount_get_root = mount_find (slash ∷ [])

unfoldable pub mount_get_entry : (index : ℕ) → Mounts → Option MountEntry
mount_get_entry index [] = none
mount_get_entry zero (e ∷ es) = if e.used then some e else none
mount_get_entry (suc index) (e ∷ es) = mount_get_entry index es

-- The first entry that is not used gets the volume.
unfoldable pub mount_at_free :
    (mount_point : List ℕ) (drive partition_lba : ℕ) → Mounts → M (ℕ × Mounts)
mount_at_free mount_point drive partition_lba [] = return (err_no_memory, [])
mount_at_free mount_point drive partition_lba (e ∷ es) =
    let later : M (ℕ × Mounts) = do
      (status, es') ← mount_at_free mount_point drive partition_lba es
      return (status, e ∷ es')
    in let here : M (ℕ × Mounts) = do
      (ret, fs) ← fat16_mount drive partition_lba e.fs
      let taken : MountEntry = record {
        used = true;
        drive = drive;
        partition_lba = partition_lba;
        mount_point = mount_point;
        fs = fs;
      }
      let failed : MountEntry = record e { fs = fs }
      return (if ret == 0 then (0, taken ∷ es) else (err_disk_error, failed ∷ es))
      in if e.used then later else here

unfoldable pub mount_add :
    (mount_point : List ℕ) (drive partition_lba : ℕ) → Mounts → M (ℕ × Mounts)
mount_add mount_point drive partition_lba table = elim (mount_find mount_point table) [
  | some e ↦ return (err_file_exists, table)
  | none ↦ mount_at_free mount_point drive partition_lba table
]

unfoldable pub unmount_first : List ℕ → Mounts → ℕ × Mounts
unmount_first mount_point [] = (err_not_found, [])
unmount_first mount_point (e ∷ es) =
    let (status, es') = unmount_first mount_point es in
    if mounted_at mount_point e then (0, record e { used = false } ∷ es) else (status, e ∷ es')

unfoldable pub mount_remove : List ℕ → Mounts → ℕ × Mounts
mount_remove mount_point table =
    if str_eq mount_point (slash ∷ [])
    then (err_access_denied, table)
    else unmount_first mount_point table

-- What follows a prefix, where it is one: `strncmp(path, mp, mplen) == 0`.
unfoldable pub strip : (prefix path : List ℕ) → Option (List ℕ)
strip [] path = some path
strip (c ∷ cs) [] = none
strip (c ∷ cs) (d ∷ ds) = let rest = strip cs ds in if c == d then rest else none

-- Whether the rest of a path may follow a mount point.
unfoldable pub at_boundary : (mount_point rest : List ℕ) → Bool
at_boundary mount_point [] = true
at_boundary mount_point (c ∷ rest) = c == slash || str_eq mount_point (slash ∷ [])

-- The rest of a path behind an entry that is used and that it lies under.
unfoldable pub under : MountEntry → List ℕ → Option (List ℕ)
under e path =
    if e.used
    then elim (strip e.mount_point path) [
      | none ↦ none
      | some rest ↦ if at_boundary e.mount_point rest then some rest else none
    ]
    else none

-- The best entry so far, with the rest of the path behind it.
abbrev pub Best : Type 0
Best = Option (MountEntry × List ℕ)

abbrev pub best_len : Best → ℕ
best_len none = 0
best_len (some (e, rest)) = length e.mount_point

unfoldable pub better : List ℕ → MountEntry → Best → Best
better path e best = elim (under e path) [
  | none ↦ best
  | some rest ↦ if ltb (best_len best) (length e.mount_point) then some (e, rest) else best
]

unfoldable pub resolve_loop : List ℕ → Mounts → Best → Best
resolve_loop path [] best = best
resolve_loop path (e ∷ es) best = resolve_loop path es (better path e best)

abbrev pub drop_slash : List ℕ → List ℕ
drop_slash [] = []
drop_slash (c ∷ cs) = if c == slash then cs else c ∷ cs

-- The entry, and the path below it.
unfoldable pub mount_resolve : List ℕ → Mounts → Best
mount_resolve path table = elim (resolve_loop path table none) [
  | none ↦ none
  | some (e, rest) ↦ some (e, drop_slash rest)
]
