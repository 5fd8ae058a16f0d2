-- ===== src/Tests/Sample.antt =====
-- A small volume on a disk of 63 sectors and 16 heads, for the runs of src/drivers/fat16.c.
use harvac.Prelude.{[], refl, ◌==◌, if◌then◌else◌, arith, Bytes}
use harvac.Machine.{Machine}
use harvac.Drivers.Disk.Address.{IsGeometry}
use harvac.Drivers.Disk.Transfer.{IsReady}
use harvac.Fat16.Volume.{Fs, root_sectors}
use harvac.Fat16.Volume.Layout.{IsVolume}
use harvac.Fat16.Table.Entry.{InReach}

-- Every sector of the disk: as a sector of the table, the entries 2 → 3 → end.
abbrev pub two_links : Bytes
two_links o = if o == 4 then 3 else if o == 6 then 0xf8 else if o == 7 then 0xff else 0

abbrev pub sample_machine : Machine
sample_machine = record {
  platter = λ cx dx. two_links;
  geometry = λ drive. 0;
  faults = [];
  disk_spt = 63;
  disk_nheads = 16;
  sec_buf = λ o. 0;
}

abbrev pub sample_fs : Fs
sample_fs = record {
  drive = 0x80;
  partition_lba = 63;
  bytes_per_sector = 512;
  sectors_per_cluster = 1;
  reserved_sectors = 1;
  fat_count = 2;
  root_entries = 512;
  fat_sectors = 32;
  root_dir_lba = 128;
  data_lba = 160;
  total_clusters = 8000;
}

pub sample-IsGeometry : IsGeometry 63 16
sample-IsGeometry = omega arith

pub sample-IsReady : IsReady sample_machine
sample-IsReady = record { no_faults = refl; geometry_known = sample-IsGeometry }

pub sample-InReach : InReach sample_fs
sample-InReach = omega arith

pub sample-IsVolume : IsVolume sample_fs
unfolding root_sectors
sample-IsVolume = record {
  drive_byte = omega arith;
  sector_size = refl;
  cluster_size = refl;
  table_before_root = omega arith;
  root_before_data = omega arith;
  data_in_reach = omega arith;
  table_covers = omega arith;
  numbers_fit = omega arith;
}
