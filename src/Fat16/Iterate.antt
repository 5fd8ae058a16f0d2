-- ===== src/Fat16/Iterate.antt =====
-- Iteration over a directory: `fat16_opendir`, `fat16_opendir_cluster`, `fat16_readdir` and
-- `fat16_closedir` of src/drivers/fat16.c.
pub mod Reader
pub mod Endless
use harvac.Prelude.{
  ℕ, zero, suc, ◌+◌, ◌-◌, ◌*◌, ◌/◌, Bool, ◌&&◌, ltb, leb, ◌==◌, if◌then◌else◌, u16, u32, Bytes,
}
use harvac.Machine.{M, ◌>>=◌, return, stuck, gets}
use harvac.Errors.{Result, ok, err, err_not_found, err_disk_error}
use harvac.Fat16.Volume.{Fs, read_sec_buf}
use harvac.Fat16.Volume
use harvac.Fat16.Table.{fat16_read_fat}
use harvac.Fat16.Dir.{Dirent, dirent_at, kind, final, skipped, live, in_chain}

-- `fat16_dir_t`
pub record DirHandle : Type 0 where
  pub fs : Fs
  pub sector : ℕ
  pub entry_idx : ℕ
  pub abs_idx : ℕ
  pub root_sectors : ℕ
  pub dir_cluster : ℕ
  pub current_cluster : ℕ

unfoldable pub fat16_opendir : Fs → DirHandle
fat16_opendir fs = record {
  fs = fs;
  sector = 0;
  entry_idx = 0;
  abs_idx = 0;
  root_sectors = Volume.root_sectors fs;
  dir_cluster = 0;
  current_cluster = 0;
}

unfoldable pub fat16_opendir_cluster : Fs → (cluster : ℕ) → Result DirHandle
fat16_opendir_cluster fs cluster =
    if ltb cluster 2
    then err 1
    else ok (record {
      fs = fs;
      sector = 0;
      entry_idx = 0;
      abs_idx = 0;
      root_sectors = 0;
      dir_cluster = cluster;
      current_cluster = cluster;
    })

unfoldable pub fat16_closedir : DirHandle → DirHandle
fat16_closedir dir = record dir { sector = 0; entry_idx = 0; abs_idx = 0 }

-- One sector of a cluster, into the buffer.
unfoldable pub fat16_read_cluster : Fs → (cluster sector_off : ℕ) → M ℕ
fat16_read_cluster fs cluster sector_off =
    if ltb cluster 2
    then return 1
    else read_sec_buf fs.drive (u32 (u32 (fs.data_lba + (cluster - 2)) + sector_off))

-- What a scan of the buffer from `entry_idx` comes to: an entry or the end, or no more entries.
pub data Step : Type 0 where
  yields : Result Dirent → DirHandle → Step
  exhausted : DirHandle → Step

unfoldable pub scan_entries : Bytes → (left : ℕ) → DirHandle → Step
scan_entries buf zero dir = exhausted dir
scan_entries buf (suc left) dir =
    let de = dirent_at buf (dir.entry_idx * 32) in
    let dir' : DirHandle = record dir {
      abs_idx = u16 (dir.abs_idx + 1);
      entry_idx = u16 (dir.entry_idx + 1);
    } in
    let rest = scan_entries buf left dir' in
    elim (kind de) [
      | final ↦ yields (err err_not_found) dir'
      | skipped ↦ rest
      | live ↦ yields (ok de) dir'
    ]

unfoldable pub after_entries :
    Step → (DirHandle → M (Result Dirent × DirHandle)) → M (Result Dirent × DirHandle)
after_entries (yields r dir) next = return (r, dir)
after_entries (exhausted dir) next =
    next (record dir { sector = u16 (dir.sector + 1); entry_idx = 0 })

-- The loop over the root directory. The buffer is read anew only at the first entry of a sector.
unfoldable pub readdir_root : (fuel : ℕ) → DirHandle → M (Result Dirent × DirHandle)
readdir_root zero dir = stuck
readdir_root (suc fuel) dir =
    let scan : M (Result Dirent × DirHandle) = do
      buf ← gets (λ m. m.sec_buf)
      after_entries (scan_entries buf (16 - dir.entry_idx) dir) (readdir_root fuel)
    in let load_scan : M (Result Dirent × DirHandle) = do
      ret ← read_sec_buf dir.fs.drive (u32 (dir.fs.root_dir_lba + dir.sector))
      if ret == 0 then scan else return (err err_disk_error, dir)
      in if ltb dir.sector dir.root_sectors
        then (if dir.entry_idx == 0 then load_scan else scan)
        else return (err err_not_found, dir)

-- The loop over a cluster chain.
unfoldable pub readdir_chain : (fuel max_entries : ℕ) → DirHandle → M (Result Dirent × DirHandle)
readdir_chain zero max_entries dir = stuck
readdir_chain (suc fuel) max_entries dir =
    let follow : M (Result Dirent × DirHandle) = do
      next ← fat16_read_fat dir.fs dir.current_cluster
      readdir_chain fuel max_entries
          (record dir { current_cluster = next; entry_idx = 0; sector = 0 })
    in let left =
        if ltb dir.sector dir.fs.sectors_per_cluster then max_entries - dir.entry_idx else 0 in
      let scan : M (Result Dirent × DirHandle) = do
        ret ← fat16_read_cluster dir.fs dir.current_cluster dir.sector
        buf ← gets (λ m. m.sec_buf)
        let next = after_entries (scan_entries buf left dir) (readdir_chain fuel max_entries)
        if ret == 0 then next else return (err err_disk_error, dir)
      in if in_chain dir.current_cluster
        then (if leb max_entries dir.entry_idx then follow else scan)
        else return (err err_not_found, dir)

unfoldable pub fat16_readdir : (fuel : ℕ) → DirHandle → M (Result Dirent × DirHandle)
fat16_readdir fuel dir =
    if dir.dir_cluster == 0
    then readdir_root fuel dir
    else readdir_chain fuel (u16 (dir.fs.sectors_per_cluster * dir.fs.bytes_per_sector) / 32) dir
