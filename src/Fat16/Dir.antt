-- ===== src/Fat16/Dir.antt =====
-- Directory entries of src/drivers/fat16.c, and the search for a name in a directory.
pub mod Names
pub mod Lookup
use harvac.Prelude.{
  ℕ, zero, suc, ◌+◌, ◌-◌, ◌*◌, ◌/◌, ◌%◌, Bool, true, false, ◌&&◌, ltb, leb, ◌==◌, if◌then◌else◌,
  u32, Bytes,
}
use harvac.Machine.{M, ◌>>=◌, return, stuck, gets}
use harvac.Errors.{Result, ok, err, err_not_found, err_disk_error}
use harvac.Fat16.Volume.{Fs, read_sec_buf, root_sectors, fat16_eof_min}
use harvac.Fat16.Table.{fat16_read_fat}

-- `fat16_dirent_t`, by the offsets of its fields.
abbrev pub Dirent : Type 0
Dirent = Bytes

abbrev pub dirent_at : Bytes → ℕ → Dirent
dirent_at buf offset j = buf (offset + j)

abbrev pub attrs : Dirent → ℕ
attrs de = de 11

-- `de->attrs & bit`, at a bit that is a power of two
abbrev pub has_attr : Dirent → ℕ → Bool
has_attr de bit = attrs de / bit % 2 == 1

abbrev pub attr_volume : ℕ
attr_volume = 8

abbrev pub attr_directory : ℕ
attr_directory = 0x10

abbrev pub attr_archive : ℕ
attr_archive = 0x20

-- What the scans do with an entry.
pub data Kind : Type 0 where
  final skipped live : Kind

unfoldable pub kind : Dirent → Kind
kind de =
    if de 0 == 0
    then final
    else if de 0 == 0xe5
    then skipped
    else if attrs de == 0x0f
    then skipped
    else if has_attr de attr_volume
    then skipped
    else live

-- One loop of `name_match`, over the characters that are left.
unfoldable pub match_part : (name entry : Bytes) → (left i : ℕ) → Bool
match_part name entry zero i = true
match_part name entry (suc left) i =
    let rest = match_part name entry left (i + 1) in
    if name i == 0x20 && (entry i == 0x20) then true else if name i == entry i then rest else false

unfoldable pub name_match : (name entry : Bytes) → Bool
name_match name entry = match_part name entry 8 0 && match_part name entry 3 8

-- The scan of one sector: the index of the entry that matches, the end of the directory, or neither.
pub data Scan : Type 0 where
  match_at : ℕ → Scan
  no_more : Scan
  no_match : Scan

unfoldable pub scan_sector : (name buf : Bytes) → (left i : ℕ) → Scan
scan_sector name buf zero i = no_match
scan_sector name buf (suc left) i =
    let de = dirent_at buf (i * 32) in
    let rest = scan_sector name buf left (i + 1) in
    elim (kind de) [
      | final ↦ no_more
      | skipped ↦ rest
      | live ↦ if name_match name de then match_at i else rest
    ]

-- The out-parameters of a search.
pub record Found : Type 0 where
  pub dirent : Dirent
  pub sector_lba : ℕ
  pub entry_offset : ℕ

abbrev pub found : Bytes → (lba i : ℕ) → Found
found buf lba i = record {
  dirent = dirent_at buf (i * 32);
  sector_lba = lba;
  entry_offset = i * 32;
}

-- What follows the scan of a sector.
unfoldable pub after_scan : Scan → Bytes → ℕ → M (Result Found) → M (Result Found)
after_scan (match_at i) buf lba rest = return (ok (found buf lba i))
after_scan no_more buf lba rest = return (err err_not_found)
after_scan no_match buf lba rest = rest

-- The loop of `fat16_find`, over the sectors of the root directory that are left.
unfoldable pub find_loop : Fs → Bytes → (left sec : ℕ) → M (Result Found)
find_loop fs name zero sec = return (err err_not_found)
find_loop fs name (suc left) sec = do
  let lba = u32 (fs.root_dir_lba + sec)
  ret ← read_sec_buf fs.drive lba
  buf ← gets (λ m. m.sec_buf)
  let next = after_scan (scan_sector name buf 16 0) buf lba (find_loop fs name left (sec + 1))
  if ret == 0 then next else return (err 1)

unfoldable pub fat16_find : Fs → Bytes → M (Result Found)
fat16_find fs name = find_loop fs name (root_sectors fs) 0

-- `data_lba + (cluster - 2)`, at a cluster that is at least 2
abbrev pub cluster_lba : Fs → ℕ → ℕ
cluster_lba fs cluster = u32 (fs.data_lba + (cluster - 2))

abbrev pub in_chain : ℕ → Bool
in_chain cluster = leb 2 cluster && ltb cluster fat16_eof_min

-- The loop of `fat16_find_in_dir` along a cluster chain, on fuel.
unfoldable pub find_chain : (fuel : ℕ) → Fs → (cluster : ℕ) → Bytes → M (Result Found)
find_chain zero fs cluster name = stuck
find_chain (suc fuel) fs cluster name =
    let lba = cluster_lba fs cluster in
    let follow : M (Result Found) = do
      next ← fat16_read_fat fs cluster
      find_chain fuel fs next name
    in let body : M (Result Found) = do
      ret ← read_sec_buf fs.drive lba
      buf ← gets (λ m. m.sec_buf)
      let next = after_scan (scan_sector name buf 16 0) buf lba follow
      if ret == 0 then next else return (err err_disk_error)
      in if in_chain cluster then body else return (err err_not_found)

unfoldable pub fat16_find_in_dir : (fuel : ℕ) → Fs → (dir_cluster : ℕ) → Bytes → M (Result Found)
fat16_find_in_dir fuel fs dir_cluster name =
    if dir_cluster == 0 then fat16_find fs name else find_chain fuel fs dir_cluster name
