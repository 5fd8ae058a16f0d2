-- ===== src/Fat16/Table/WriteThenRead.antt =====
-- A write of a table entry and a read behind it: `fat16_write_fat` and `fat16_read_fat`
-- (src/drivers/fat16.c).
use harvac.Prelude.{refl, ℕ, ◌<◌, ◌≡◌, some, ◌==◌, if◌then◌else◌}
use harvac.Machine.{Machine, ◌>>◌}
use harvac.Drivers.Disk.Transfer.{IsReady}
use harvac.Fat16.Volume.{Fs}
use harvac.Fat16.Volume.Buffer.{load}
use harvac.Fat16.Table.{fat_sector_lba, fat16_read_fat, fat16_write_fat}
use harvac.Fat16.Table.Entry.{
  entry, put_entry, InReach, read_fat_lem, write_fat_lem, put_entry-IsReady, entry-put_entry,
}

-- On a disk without faults, with the table in reach of the driver, reading the entry of a cluster
-- behind a write of a 16-bit value returns that value if the cluster is the same, and otherwise what
-- a read without the write returns.
pub fat16_read_fat-fat16_write_fat :
    (fs : Fs) {m : Machine} (cluster value c : ℕ)
    → IsReady m
    → InReach fs
    → cluster < 65536
    → value < 65536
    → c < 65536
    → (r : ℕ) × (m₁ m₂ : Machine) × (fat16_read_fat fs c m ≡ some (r, m₁))
      × ((do fat16_write_fat fs cluster value; fat16_read_fat fs c) m
          ≡ some ((if cluster == c then value else r), m₂))
fat16_read_fat-fat16_write_fat fs {m} cluster value c k v hc hv h = (
  entry fs m c,
  load m fs.drive (fat_sector_lba fs c),
  load (put_entry fs m cluster value) fs.drive (fat_sector_lba fs c),
  read_fat_lem fs k c,
  rw (write_fat_lem fs k cluster value, ◌>>◌)
      (rw (read_fat_lem fs (put_entry-IsReady fs k cluster value) c)
        (rw (entry-put_entry fs k v cluster value c hc hv h) refl)),
)
