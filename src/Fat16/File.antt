-- ===== src/Fat16/File.antt =====
-- Open files of src/drivers/fat16.c: opening, reading, seeking and writing.
pub mod Stall
pub mod Content
use harvac.Prelude.{
  ℕ, zero, suc, ◌+◌, ◌-◌, ◌*◌, ◌/◌, ◌%◌, Bool, true, false, ◌&&◌, ◌||◌, ltb, leb, ◌==◌,
  if◌then◌else◌, u16, u32, Bytes, get_u16, get_u32, put_u32, List, [], ◌∷◌, ◌++◌, length, take,
  drop, min,
}
use harvac.Machine.{M, ◌>>=◌, ◌>>◌, return, stuck, gets, modify}
use harvac.Errors.{Result, ok, err}
use harvac.Fat16.Volume.{Fs, read_sec_buf, write_sec_buf, fat16_bad, fat16_eof_min}
use harvac.Fat16.Table.{fat16_read_fat, fat16_write_fat, fat16_find_free_cluster}
use harvac.Fat16.Dir.{Found, fat16_find, fat16_find_in_dir}
use harvac.Fat16.Iterate.{fat16_read_cluster}

-- `fat16_file_t`; the volume is not changed after its mount.
pub record File : Type 0 where
  pub fs : Fs
  pub first_cluster : ℕ
  pub file_size : ℕ
  pub position : ℕ
  pub current_cluster : ℕ
  pub cluster_pos : ℕ
  pub dir_sector_lba : ℕ
  pub dir_entry_offset : ℕ

-- The handle of a directory entry.
unfoldable pub file_of : Fs → Found → File
file_of fs f = record {
  fs = fs;
  first_cluster = get_u16 f.dirent 26;
  file_size = get_u32 f.dirent 28;
  position = 0;
  current_cluster = get_u16 f.dirent 26;
  cluster_pos = 0;
  dir_sector_lba = f.sector_lba;
  dir_entry_offset = f.entry_offset;
}

abbrev opened : Fs → Result Found → Result File
opened fs (ok f) = ok (file_of fs f)
opened fs (err e) = err e

unfoldable pub fat16_open_in_dir : (fuel : ℕ) → Fs → (dir_cluster : ℕ) → Bytes → M (Result File)
fat16_open_in_dir fuel fs dir_cluster name = do
  r ← fat16_find_in_dir fuel fs dir_cluster name
  return (opened fs r)

unfoldable pub fat16_open : Fs → Bytes → M (Result File)
fat16_open fs name = do r ← fat16_find fs name; return (opened fs r)

-- `count` bytes of a buffer from `offset`.
abbrev pub slice : Bytes → (offset count : ℕ) → List ℕ
slice buf offset zero = []
slice buf offset (suc count) = buf offset ∷ slice buf (offset + 1) count

-- A buffer with the bytes of a list from `offset`.
abbrev pub fill : Bytes → (offset : ℕ) → List ℕ → Bytes
fill buf offset [] j = buf j
fill buf offset (x ∷ xs) j = if offset == j then x else fill buf (offset + 1) xs j

abbrev pub cluster_size : Fs → ℕ
cluster_size fs = u16 (fs.sectors_per_cluster * fs.bytes_per_sector)

-- The number of bytes that a round of `fat16_read` copies.
abbrev pub read_chunk : File → (count : ℕ) → ℕ
read_chunk f count =
    min count (min (u16 (f.file_size - f.position)) (f.fs.bytes_per_sector - f.cluster_pos % 512))

abbrev pub moved : File → (chunk : ℕ) → File
moved f chunk = record f {
  position = u32 (f.position + chunk);
  cluster_pos = u32 (f.cluster_pos + chunk);
}

-- The part of a round behind the move to the next cluster, and the rounds that follow.
unfoldable pub read_copy :
    (File → ℕ → List ℕ → M (List ℕ × File)) → File → (count : ℕ) → List ℕ → M (List ℕ × File)
read_copy rounds f count out = do
  let chunk = read_chunk f count
  ret ← fat16_read_cluster f.fs f.current_cluster (u16 (f.cluster_pos / 512))
  buf ← gets (λ m. m.sec_buf)
  let next = rounds (moved f chunk) (count - chunk) (out ++ slice buf (f.cluster_pos % 512) chunk)
  if ret == 0 then next else return (out, f)

-- The loop of `fat16_read`, on fuel. `count` bytes are still wanted, and `out` is what was copied.
unfoldable pub read_loop : (fuel : ℕ) → File → (count : ℕ) → List ℕ → M (List ℕ × File)
read_loop zero file count out = stuck
read_loop (suc fuel) file count out =
    let advance : M (List ℕ × File) = do
      next ← fat16_read_fat file.fs file.current_cluster
      let at_end = record file { current_cluster = next; cluster_pos = cluster_size file.fs }
      let start = record file { current_cluster = next; cluster_pos = 0 }
      let go = read_copy (read_loop fuel) start count out
      if leb fat16_eof_min next then return (out, at_end) else go
    in let stay = read_copy (read_loop fuel) file count out in
      let body = if leb (cluster_size file.fs) file.cluster_pos then advance else stay in
      if count == 0 || leb file.file_size file.position then return (out, file) else body

-- The bytes that are copied; their number is what the function returns.
unfoldable pub fat16_read : (fuel : ℕ) → File → (count : ℕ) → M (List ℕ × File)
fat16_read fuel file count = read_loop fuel file count []

-- The loop of `fat16_seek` along the chain, with its 16-bit counter.
unfoldable pub seek_loop : (fuel : ℕ) → Fs → (target_cluster_idx i cluster : ℕ) → M ℕ
seek_loop zero fs target i cluster = stuck
seek_loop (suc fuel) fs target i cluster =
    let body : M ℕ = do
      next ← fat16_read_fat fs cluster
      let rest = seek_loop fuel fs target (u16 (i + 1)) next
      if leb fat16_eof_min next then return next else rest
    in if ltb i target then body else return cluster

-- The status and the file.
unfoldable pub fat16_seek : (fuel : ℕ) → File → (pos : ℕ) → M (ℕ × File)
fat16_seek fuel file pos =
    let walk : M (ℕ × File) = do
      cluster ← seek_loop fuel file.fs (pos / 512) 0 file.first_cluster
      return (
        0,
        record file { current_cluster = cluster; position = pos; cluster_pos = u16 (pos % 512) },
      )
    in if ltb file.file_size pos
      then return (1, file)
      else if pos == 0
      then return
          (0, record file { current_cluster = file.first_cluster; position = 0; cluster_pos = 0 })
      else walk

unfoldable pub fat16_update_fsize : File → M ℕ
fat16_update_fsize file = do
  ret ← read_sec_buf file.fs.drive file.dir_sector_lba
  let write : M ℕ = do
    modify
        (λ m. record m { sec_buf = put_u32 m.sec_buf (file.dir_entry_offset + 28) file.file_size })
    write_sec_buf file.fs.drive file.dir_sector_lba
  if ret == 0 then write else return 1

unfoldable pub fat16_write_cluster : Fs → (cluster sector_off : ℕ) → M ℕ
fat16_write_cluster fs cluster sector_off =
    if ltb cluster 2
    then return 1
    else write_sec_buf fs.drive (u32 (u32 (fs.data_lba + (cluster - 2)) + sector_off))

-- The move of `fat16_write` to the next cluster, which it allocates at the end of the chain: false
-- if the disk is full.
unfoldable pub write_advance : File → M (Bool × File)
write_advance file = do
  next ← fat16_read_fat file.fs file.current_cluster
  let follow = record file { current_cluster = next; cluster_pos = 0 }
  let allocate : M (Bool × File) = do
    new ← fat16_find_free_cluster file.fs
    let link : M (Bool × File) = do
      fat16_write_fat file.fs file.current_cluster new
      fat16_write_fat file.fs new fat16_eof_min
      return (true, record file { current_cluster = new; cluster_pos = 0 })
    if new == fat16_bad then return (false, file) else link
  if leb fat16_eof_min next then allocate else return (true, follow)

-- The rest of a round: false if a transfer failed.
unfoldable pub write_chunk : File → (chunk : List ℕ) → M (Bool × File)
write_chunk file chunk = do
  let sector = u16 (file.cluster_pos / 512)
  ret ← fat16_read_cluster file.fs file.current_cluster sector
  let grow : File → M (Bool × File) = λ f. do
    let f' : File = record f { file_size = f.position }
    fat16_update_fsize f'
    return (true, f')
  let write : M (Bool × File) = do
    modify (λ m. record m { sec_buf = fill m.sec_buf (file.cluster_pos % 512) chunk })
    ret' ← fat16_write_cluster file.fs file.current_cluster sector
    let f : File = record file {
      position = u32 (file.position + length chunk);
      cluster_pos = u32 (file.cluster_pos + length chunk);
    }
    let next = if ltb f.file_size f.position then grow f else return (true, f)
    if ret' == 0 then next else return (false, file)
  if ret == 0 then write else return (false, file)

-- The loop of `fat16_write`, on fuel. `todo` is what is left of the caller's bytes.
unfoldable pub write_loop : (fuel : ℕ) → File → (total_written : ℕ) → (todo : List ℕ) → M (ℕ × File)
write_loop fuel file total [] = return (total, file)
write_loop zero file total (x ∷ todo) = stuck
write_loop (suc fuel) file total (x ∷ todo) = do
  let bytes = x ∷ todo
  let stay : M (Bool × File) = return (true, file)
  (room, f) ← if leb (cluster_size file.fs) file.cluster_pos then write_advance file else stay
  let chunk =
      min (length bytes)
        (min (cluster_size f.fs - f.cluster_pos) (f.fs.bytes_per_sector - f.cluster_pos % 512))
  let write : M (ℕ × File) = do
    (written, f') ← write_chunk f (take chunk bytes)
    let next = write_loop fuel f' (u16 (total + chunk)) (drop chunk bytes)
    if written then next else return (total, f')
  if room then write else return (total, f)

unfoldable pub fat16_write : (fuel : ℕ) → File → List ℕ → M (ℕ × File)
fat16_write fuel file bytes = write_loop fuel file 0 bytes
