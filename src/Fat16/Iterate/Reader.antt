-- ===== src/Fat16/Iterate/Reader.antt =====
-- One sector of a cluster is read (`fat16_read_cluster`, src/drivers/fat16.c).
use harvac.Prelude.{ℕ, ◌+◌, ◌-◌, ◌≤◌, ◌≡◌, ◌⊎◌, some, arith, u32, List, Bool, ltb, false}
use harvac.Machine.{Machine, Sector}
use harvac.Drivers.Disk.Address.{IsGeometry}
use harvac.Drivers.Disk.Transfer.{IsReady, sector}
use harvac.Fat16.Volume.{Fs}
use harvac.Fat16.Volume.Buffer.{load, read_sec_buf_lem, read_sec_buf-outcome}
use harvac.Fat16.Iterate.{fat16_read_cluster}

abbrev pub sector_of : Fs → (cluster sector_off : ℕ) → ℕ
sector_of fs cluster sector_off = u32 (u32 (fs.data_lba + (cluster - 2)) + sector_off)

pub read_cluster_lem :
    {m : Machine} (fs : Fs) (cluster sector_off : ℕ)
    → IsReady m
    → 2 ≤ cluster
    → fat16_read_cluster fs cluster sector_off m
      ≡ some (0, load m fs.drive (sector_of fs cluster sector_off))
unfolding fat16_read_cluster
read_cluster_lem fs cluster sector_off k h =
    ground (arith, read_sec_buf_lem fs.drive (sector_of fs cluster sector_off) k)

pub fat16_read_cluster-outcome :
    (fs : Fs) (cluster sector_off : ℕ) (m : Machine)
    → IsGeometry m.disk_spt m.disk_nheads
    → 2 ≤ cluster
    → (ret : ℕ) × (buf : Sector) × (later : List Bool) × (fat16_read_cluster fs cluster sector_off m
        ≡ some (ret, record m { sec_buf = buf; faults = later }))
      × ((ret ≡ 0) × (buf ≡ sector m fs.drive (sector_of fs cluster sector_off)) ⊎ (ret ≡ 1))
unfolding fat16_read_cluster
fat16_read_cluster-outcome fs cluster sector_off m g h =
    let (ret, buf, later, e, o) =
      read_sec_buf-outcome fs.drive (sector_of fs cluster sector_off) m g in
    let big : ltb cluster 2 ≡ false = ground arith in (ret, buf, later, rw big e, o)
