-- ===== src/Fat16/Table.antt =====
-- The file allocation table of src/drivers/fat16.c: reading and writing an entry, the search for a
-- free cluster, the count of free clusters, and the release of a chain.
pub mod Entry
pub mod Search
pub mod Count
pub mod Release
pub mod WriteThenRead
use harvac.Prelude.{
  ℕ, zero, suc, ◌+◌, ◌-◌, ◌*◌, ◌/◌, ◌%◌, Bool, true, false, ◌&&◌, ltb, leb, ◌==◌, if◌then◌else◌,
  u16, u32, get_u16, put_u16, Bytes,
}
use harvac.Machine.{M, ◌>>=◌, ◌>>◌, return, stuck, modify, gets}
use harvac.Fat16.Volume.{Fs, read_sec_buf, write_sec_buf, fat16_free, fat16_bad, fat16_eof_min}

-- The sector of an entry, and its place in that sector.
unfoldable pub fat_sector_lba : Fs → ℕ → ℕ
fat_sector_lba fs cluster = u32 (fs.partition_lba + fs.reserved_sectors + u32 (cluster * 2) / 512)

unfoldable pub entry_in_sector : ℕ → ℕ
entry_in_sector cluster = u32 (cluster * 2) % 512

unfoldable pub fat16_read_fat : Fs → ℕ → M ℕ
fat16_read_fat fs cluster = do
  ret ← read_sec_buf fs.drive (fat_sector_lba fs cluster)
  value ← gets (λ m. get_u16 m.sec_buf (entry_in_sector cluster))
  return (if ret == 0 then value else fat16_bad)

unfoldable pub fat16_write_fat : Fs → (cluster value : ℕ) → M ℕ
fat16_write_fat fs cluster value = do
  ret ← read_sec_buf fs.drive (fat_sector_lba fs cluster)
  let update : M ℕ = do
    modify (λ m. record m { sec_buf = put_u16 m.sec_buf (entry_in_sector cluster) value })
    write_sec_buf fs.drive (fat_sector_lba fs cluster)
  if ret == 0 then update else return 1

-- The loop of `fat16_find_free_cluster`, with the clusters that are left.
unfoldable pub find_free_loop : Fs → (left cluster : ℕ) → M ℕ
find_free_loop fs zero cluster = return fat16_bad
find_free_loop fs (suc left) cluster = do
  value ← fat16_read_fat fs cluster
  let rest = find_free_loop fs left (cluster + 1)
  if value == fat16_free then return cluster else rest

unfoldable pub fat16_find_free_cluster : Fs → M ℕ
fat16_find_free_cluster fs = find_free_loop fs (fs.total_clusters - 2) 2

-- The inner loop of `fat16_count_free_clusters`, over the entries that are left of a sector: the
-- count, and whether it went on to `done`.
unfoldable pub count_sector : Fs → Bytes → (left i cl_base free_count : ℕ) → ℕ × Bool
count_sector fs buf zero i cl_base free_count = (free_count, false)
count_sector fs buf (suc left) i cl_base free_count =
    let cl = u16 (cl_base + i) in
    let is_free = leb 2 cl && (get_u16 buf (i * 2) == fat16_free) in
    let rest =
      count_sector fs buf left (i + 1) cl_base
        (if is_free then u16 (free_count + 1) else free_count) in
    if leb 2 cl && leb (u16 (fs.total_clusters + 2)) cl then (free_count, true) else rest

-- The outer loop, over the sectors that are left of the table.
unfoldable pub count_loop : Fs → (left fat_sector cl_base free_count : ℕ) → M ℕ
count_loop fs zero fat_sector cl_base free_count = return free_count
count_loop fs (suc left) fat_sector cl_base free_count = do
  ret ← read_sec_buf fs.drive (u32 (u32 (fs.partition_lba + fs.reserved_sectors) + fat_sector))
  buf ← gets (λ m. m.sec_buf)
  let (free_count', done) = count_sector fs buf 256 0 cl_base free_count
  let rest = count_loop fs left (fat_sector + 1) (u16 (cl_base + 256)) free_count'
  if ret == 0 then (if done then return free_count' else rest) else return free_count

unfoldable pub fat16_count_free_clusters : Fs → M ℕ
fat16_count_free_clusters fs = count_loop fs fs.fat_sectors 0 0 0

-- The loop of `fat16_free_chain`, on fuel; the statuses of its two calls are not looked at.
unfoldable pub fat16_free_chain : (fuel : ℕ) → Fs → (cluster : ℕ) → M (Unit {0})
fat16_free_chain zero fs cluster = stuck
fat16_free_chain (suc fuel) fs cluster =
    let body : M (Unit {0}) = do
      next ← fat16_read_fat fs cluster
      fat16_write_fat fs cluster fat16_free
      fat16_free_chain fuel fs next
    in if ltb cluster fat16_eof_min && leb 2 cluster then body else return tt
