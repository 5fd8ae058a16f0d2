-- ===== src/Fat16/Namespace.antt =====
-- The operations of src/drivers/fat16.c that change a directory: a free slot, create, delete, mkdir,
-- rmdir, rename and the time stamp.
use harvac.Prelude.{
  ℕ, zero, suc, ◌+◌, ◌-◌, ◌*◌, ◌/◌, ◌%◌, Bool, true, ◌&&◌, ◌||◌, leb, ◌==◌, if◌then◌else◌, u32,
  Bytes, get_u16, put_u16, update, Option, none, some,
}
use harvac.Machine.{M, ◌>>=◌, ◌>>◌, return, stuck, gets, modify}
use harvac.Errors.{
  Result, ok, err, err_not_found, err_access_denied, err_no_memory, err_disk_error, err_file_exists,
}
use harvac.Fat16.Volume.{
  Fs, read_sec_buf, write_sec_buf, root_sectors, fat16_free, fat16_bad, fat16_eof_min,
}
use harvac.Fat16.Table.{fat16_read_fat, fat16_write_fat, fat16_find_free_cluster, fat16_free_chain}
use harvac.Fat16.Dir.{
  Found, attr_directory, attr_archive, has_attr, cluster_lba, in_chain, fat16_find_in_dir,
}
use harvac.Fat16.File.{File}

abbrev pub modify_buf : (Bytes → Bytes) → M (Unit {0})
modify_buf f = modify (λ m. record m { sec_buf = f m.sec_buf })

-- The first free entry of a sector, among those that are left.
unfoldable pub free_entry : Bytes → (left i : ℕ) → Option ℕ
free_entry buf zero i = none
free_entry buf (suc left) i =
    let rest = free_entry buf left (i + 1) in
    if buf (i * 32) == 0 || (buf (i * 32) == 0xe5) then some i else rest

-- A slot: the sector, and the byte in it.
abbrev pub Slot : Type 0
Slot = ℕ × ℕ

abbrev pub slot_or : Option ℕ → (lba : ℕ) → M (Result Slot) → M (Result Slot)
slot_or (some i) lba rest = return (ok (lba, i * 32))
slot_or none lba rest = rest

unfoldable pub root_slot : Fs → (left sec : ℕ) → M (Result Slot)
root_slot fs zero sec = return (err err_no_memory)
root_slot fs (suc left) sec = do
  let lba = u32 (fs.root_dir_lba + sec)
  ret ← read_sec_buf fs.drive lba
  buf ← gets (λ m. m.sec_buf)
  let next = slot_or (free_entry buf 16 0) lba (root_slot fs left (sec + 1))
  if ret == 0 then next else return (err err_disk_error)

-- A full chain gets one more cluster, filled with zeros.
unfoldable pub extend_dir : Fs → (prev : ℕ) → M (Result Slot)
extend_dir fs prev = do
  new ← fat16_find_free_cluster fs
  let lba = cluster_lba fs new
  let clear : M (Result Slot) = do
    modify_buf (λ buf j. 0)
    ret ← write_sec_buf fs.drive lba
    return (if ret == 0 then ok (lba, 0) else err err_disk_error)
  let mark : M (Result Slot) = do
    ret ← fat16_write_fat fs new fat16_eof_min
    if ret == 0 then clear else return (err err_disk_error)
  let link : M (Result Slot) = do
    ret ← fat16_write_fat fs prev new
    if ret == 0 then mark else return (err err_disk_error)
  if new == fat16_bad then return (err err_no_memory) else link

unfoldable pub chain_slot : (fuel : ℕ) → Fs → (cluster prev : ℕ) → M (Result Slot)
chain_slot zero fs cluster prev = stuck
chain_slot (suc fuel) fs cluster prev =
    let lba = cluster_lba fs cluster in
    let follow : M (Result Slot) = do
      next ← fat16_read_fat fs cluster
      chain_slot fuel fs next cluster
    in let body : M (Result Slot) = do
      ret ← read_sec_buf fs.drive lba
      buf ← gets (λ m. m.sec_buf)
      let next = slot_or (free_entry buf 16 0) lba follow
      if ret == 0 then next else return (err err_disk_error)
      in if in_chain cluster then body else extend_dir fs prev

unfoldable pub fat16_dir_free_slot : (fuel : ℕ) → Fs → (dir_cluster : ℕ) → M (Result Slot)
fat16_dir_free_slot fuel fs dir_cluster =
    if dir_cluster == 0
    then root_slot fs (root_sectors fs) 0
    else chain_slot fuel fs dir_cluster dir_cluster

-- A new entry at an offset of a sector: zeros, the name, the attributes and the first cluster.
unfoldable pub put_dirent : (name : Bytes) (attributes cluster offset : ℕ) → Bytes → Bytes
put_dirent name attributes cluster offset buf j =
    if leb offset j && leb j (offset + 31)
    then (let i = j - offset in
        if leb i 10
        then name i
        else if i == 11
        then attributes
        else if i == 26
        then cluster % 256
        else if i == 27
        then cluster / 256
        else 0)
    else buf j

-- The steps that `fat16_create_in_dir` and `fat16_mkdir_in_dir` share: the name must be new, and a
-- cluster is found and marked.
unfoldable pub reserve_cluster : (fuel : ℕ) → Fs → (dir_cluster : ℕ) → Bytes → M (Result ℕ)
reserve_cluster fuel fs dir_cluster name = do
  r ← fat16_find_in_dir fuel fs dir_cluster name
  let mark : ℕ → M (Result ℕ) = λ cluster. do
    ret ← fat16_write_fat fs cluster fat16_eof_min
    return (if ret == 0 then ok cluster else err err_disk_error)
  let reserve : M (Result ℕ) = do
    cluster ← fat16_find_free_cluster fs
    if cluster == fat16_bad then return (err err_no_memory) else mark cluster
  elim r [ ok f ↦ return (err err_file_exists) | err e ↦ reserve ]

-- The entry for a reserved cluster, in a slot that is found now; without a slot the cluster is freed.
unfoldable pub enter_cluster :
    (fuel : ℕ) → Fs → (dir_cluster : ℕ) → Bytes → (attributes cluster : ℕ) → M (Result Slot)
enter_cluster fuel fs dir_cluster name attributes cluster = do
  r ← fat16_dir_free_slot fuel fs dir_cluster
  let undo : ℕ → M (Result Slot) = λ e. do fat16_write_fat fs cluster fat16_free; return (err e)
  let enter : Slot → M (Result Slot) = λ slot. do
    modify_buf (put_dirent name attributes cluster slot.1)
    ret ← write_sec_buf fs.drive slot.0
    return (if ret == 0 then ok slot else err err_disk_error)
  elim r [ ok slot ↦ enter slot | err e ↦ undo e ]

abbrev new_file : Fs → ℕ → Result Slot → Result File
new_file fs cluster (ok slot) = ok (record {
  fs = fs;
  first_cluster = cluster;
  file_size = 0;
  position = 0;
  current_cluster = cluster;
  cluster_pos = 0;
  dir_sector_lba = slot.0;
  dir_entry_offset = slot.1;
})
new_file fs cluster (err e) = err e

unfoldable pub fat16_create_in_dir : (fuel : ℕ) → Fs → (dir_cluster : ℕ) → Bytes → M (Result File)
fat16_create_in_dir fuel fs dir_cluster name = do
  r ← reserve_cluster fuel fs dir_cluster name
  let create : ℕ → M (Result File) = λ cluster. do
    s ← enter_cluster fuel fs dir_cluster name attr_archive cluster
    return (new_file fs cluster s)
  elim r [ ok cluster ↦ create cluster | err e ↦ return (err e) ]

-- A sector of the directory, read, changed and written back.
unfoldable pub change_sector : Fs → (lba : ℕ) → (Bytes → Bytes) → M ℕ
change_sector fs lba f = do
  ret ← read_sec_buf fs.drive lba
  let write : M ℕ = do modify_buf f; write_sec_buf fs.drive lba
  let failed : M ℕ = return err_disk_error
  if ret == 0 then write else failed

unfoldable pub fat16_delete_in_dir : (fuel : ℕ) → Fs → (dir_cluster : ℕ) → Bytes → M ℕ
fat16_delete_in_dir fuel fs dir_cluster name = do
  r ← fat16_find_in_dir fuel fs dir_cluster name
  let delete : Found → M ℕ = λ f. do
    ret ← change_sector fs f.sector_lba (λ buf. update buf f.entry_offset 0xe5)
    let release : M ℕ = do fat16_free_chain fuel fs (get_u16 f.dirent 26); return 0
    if ret == 0 then release else return err_disk_error
  elim r [ ok f ↦ delete f | err e ↦ return err_not_found ]

-- The two entries of a new directory.
unfoldable pub dot_entries : (cluster parent_cluster : ℕ) → Bytes
dot_entries cluster parent_cluster =
    put_dirent (update (update (λ j. 0x20) 0 b'.') 1 b'.') attr_directory parent_cluster 32
      (put_dirent (update (λ j. 0x20) 0 b'.') attr_directory cluster 0 (λ j. 0))

unfoldable pub fat16_mkdir_in_dir : (fuel : ℕ) → Fs → (parent_cluster : ℕ) → Bytes → M ℕ
fat16_mkdir_in_dir fuel fs parent_cluster name = do
  r ← reserve_cluster fuel fs parent_cluster name
  let enter : ℕ → M ℕ = λ cluster. do
    s ← enter_cluster fuel fs parent_cluster name attr_directory cluster
    return (elim s [ ok slot ↦ 0 | err e ↦ e ])
  let make : ℕ → M ℕ = λ cluster. do
    modify_buf (λ buf. dot_entries cluster parent_cluster)
    ret ← write_sec_buf fs.drive (cluster_lba fs cluster)
    if ret == 0 then enter cluster else return err_disk_error
  elim r [ ok cluster ↦ make cluster | err e ↦ return e ]

-- Whether the entries that are left of a sector are free or begin with a dot.
unfoldable pub only_dots : Bytes → (left i : ℕ) → Bool
only_dots buf zero i = true
only_dots buf (suc left) i =
    let c = buf (i * 32) in (c == 0 || (c == 0xe5) || (c == b'.')) && only_dots buf left (i + 1)

-- The status of the check that a directory is empty, along its chain.
unfoldable pub check_empty : (fuel : ℕ) → Fs → (cluster : ℕ) → M ℕ
check_empty zero fs cluster = stuck
check_empty (suc fuel) fs cluster =
    let follow : M ℕ = (do next ← fat16_read_fat fs cluster; check_empty fuel fs next) in
    let body : M ℕ = do
      ret ← read_sec_buf fs.drive (cluster_lba fs cluster)
      buf ← gets (λ m. m.sec_buf)
      let next = if only_dots buf 16 0 then follow else return err_access_denied
      if ret == 0 then next else return err_disk_error
    in if in_chain cluster then body else return 0

unfoldable pub fat16_rmdir_in_dir : (fuel : ℕ) → Fs → (dir_cluster : ℕ) → Bytes → M ℕ
fat16_rmdir_in_dir fuel fs dir_cluster name = do
  r ← fat16_find_in_dir fuel fs dir_cluster name
  let remove : Found → M ℕ = λ f. do
    let first = get_u16 f.dirent 26
    let release : M (Unit {0}) = fat16_free_chain fuel fs first
    ret ← check_empty fuel fs first
    let unlink : M ℕ = do
      if leb 2 first then release else return tt
      change_sector fs f.sector_lba (λ buf. update buf f.entry_offset 0xe5)
    let status : M ℕ = do s ← unlink; return (if s == 0 then 0 else err_disk_error)
    if ret == 0 then status else return ret
  let directory : Found → M ℕ =
      λ f. if has_attr f.dirent attr_directory then remove f else return err_access_denied
  elim r [ ok f ↦ directory f | err e ↦ return err_not_found ]

-- The eleven characters of a name, written over an entry.
unfoldable pub put_name : (name : Bytes) (offset : ℕ) → Bytes → Bytes
put_name name offset buf j =
    if leb offset j && leb j (offset + 10) then name (j - offset) else buf j

unfoldable pub fat16_rename_in_dir :
    (fuel : ℕ) → Fs → (dir_cluster : ℕ) → (old_name new_name : Bytes) → M ℕ
fat16_rename_in_dir fuel fs dir_cluster old_name new_name = do
  r ← fat16_find_in_dir fuel fs dir_cluster old_name
  let rename : Found → M ℕ = λ f. do
    clash ← fat16_find_in_dir fuel fs dir_cluster new_name
    let write : M ℕ = change_sector fs f.sector_lba (put_name new_name f.entry_offset)
    elim clash [ ok g ↦ return err_file_exists | err e ↦ write ]
  elim r [ ok f ↦ rename f | err e ↦ return err_not_found ]

unfoldable pub fat16_set_datetime_in_dir :
    (fuel : ℕ) → Fs → (dir_cluster : ℕ) → (name83 : Bytes) (date time : ℕ) → M ℕ
fat16_set_datetime_in_dir fuel fs dir_cluster name83 date time = do
  r ← fat16_find_in_dir fuel fs dir_cluster name83
  let write : Found → M ℕ = λ f.
      change_sector fs f.sector_lba
        (λ buf. put_u16 (put_u16 buf (f.entry_offset + 22) time) (f.entry_offset + 24) date)
  elim r [ ok f ↦ write f | err e ↦ return err_not_found ]

-- The functions for the root directory.
unfoldable pub fat16_create : (fuel : ℕ) → Fs → Bytes → M (Result File)
fat16_create fuel fs name = fat16_create_in_dir fuel fs 0 name

unfoldable pub fat16_delete : (fuel : ℕ) → Fs → Bytes → M ℕ
fat16_delete fuel fs name = fat16_delete_in_dir fuel fs 0 name

unfoldable pub fat16_mkdir : (fuel : ℕ) → Fs → Bytes → M ℕ
fat16_mkdir fuel fs name = fat16_mkdir_in_dir fuel fs 0 name

unfoldable pub fat16_rmdir : (fuel : ℕ) → Fs → Bytes → M ℕ
fat16_rmdir fuel fs name = fat16_rmdir_in_dir fuel fs 0 name

unfoldable pub fat16_rename : (fuel : ℕ) → Fs → (old_name new_name : Bytes) → M ℕ
fat16_rename fuel fs old_name new_name = fat16_rename_in_dir fuel fs 0 old_name new_name
