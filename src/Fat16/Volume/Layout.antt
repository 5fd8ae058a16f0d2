-- ===== src/Fat16/Volume/Layout.antt =====
-- Where the parts of a volume lie (`fat16_mount`, src/drivers/fat16.c).
use harvac.Prelude.{◌+◌, ◌*◌, ◌≤◌, ◌<◌, ◌≡◌}
use harvac.Fat16.Volume.{Fs, root_sectors}

-- A volume of one sector to a cluster whose table, root directory and data lie one behind the
-- other, below the 65536 sectors that the disk driver reaches.
pub record IsVolume (fs : Fs) : Type 0 where
  pub drive_byte : fs.drive < 256
  pub sector_size : fs.bytes_per_sector ≡ 512
  pub cluster_size : fs.sectors_per_cluster ≡ 1
  pub table_before_root : fs.partition_lba + fs.reserved_sectors + fs.fat_sectors ≤ fs.root_dir_lba
  pub root_before_data : fs.root_dir_lba + root_sectors fs ≤ fs.data_lba
  pub data_in_reach : fs.data_lba + fs.total_clusters ≤ 65536
  pub table_covers : fs.total_clusters + 2 ≤ 256 * fs.fat_sectors
  pub numbers_fit : fs.total_clusters < 0xfff5
