-- ===== src/Fat16/Volume/Buffer.antt =====
-- Transfers of one sector through `sec_buf` (src/drivers/fat16.c) on a disk without faults, and
-- reads whatever the outcomes of the calls are.
use harvac.Prelude.{ℕ, ◌≡◌, ◌⊎◌, some, arith, List, Bool}
use harvac.Machine.{Machine, Sector}
use harvac.Drivers.Disk.Address.{IsGeometry}
use harvac.Drivers.Disk.Transfer.{
  IsReady, sector, store, disk_read_sectors_one, disk_write_sectors_one, disk_read_sectors-outcome,
}
use harvac.Fat16.Volume.{read_sec_buf, write_sec_buf, kernel_segment}

-- The machine after a read into the buffer, and after a write from it.
abbrev pub load : Machine → (drive lba : ℕ) → Machine
load m drive lba = record m { sec_buf = sector m drive lba }

pub read_sec_buf_lem :
    (drive lba : ℕ) {m : Machine}
    → IsReady m
    → read_sec_buf drive lba m ≡ some (0, load m drive lba)
unfolding read_sec_buf
read_sec_buf_lem drive lba {m} k =
    ground (arith, disk_read_sectors_one drive lba kernel_segment (λ _. m.sec_buf) k)

pub write_sec_buf_lem :
    (drive lba : ℕ) {m : Machine}
    → IsReady m
    → write_sec_buf drive lba m ≡ some (0, store m drive lba m.sec_buf)
unfolding write_sec_buf
write_sec_buf_lem drive lba {m} k =
    ground (arith, disk_write_sectors_one drive lba kernel_segment (λ _. m.sec_buf) k)

-- On a disk of a known geometry: the buffer holds the sector, or the call fails.
pub read_sec_buf-outcome :
    (drive lba : ℕ) (m : Machine)
    → IsGeometry m.disk_spt m.disk_nheads
    → (ret : ℕ) × (buf : Sector) × (later : List Bool) × (read_sec_buf drive lba m
        ≡ some (ret, record m { sec_buf = buf; faults = later }))
      × ((ret ≡ 0) × (buf ≡ sector m drive lba) ⊎ (ret ≡ 1))
unfolding read_sec_buf
read_sec_buf-outcome drive lba m g =
    let (ret, buf, later, e, o) =
      disk_read_sectors-outcome drive lba kernel_segment (λ _. m.sec_buf) m g in
    (ret, buf, later, ground (arith, e), o)
