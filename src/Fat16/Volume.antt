-- ===== src/Fat16/Volume.antt =====
-- A mounted volume of src/drivers/fat16.c: its record, the mount, and the transfers of one sector
-- through the driver's buffer `sec_buf`.
pub mod Buffer
pub mod Layout
use harvac.Prelude.{ℕ, ◌+◌, ◌-◌, ◌*◌, ◌/◌, ◌==◌, if◌then◌else◌, u16, u32, get_u16, get_u32}
use harvac.Machine.{Machine, M, ◌>>=◌, ◌>>◌, return, modify, gets}
use harvac.Drivers.Disk.{disk_read_sectors, disk_write_sectors}

-- The marks of the file allocation table, and the kernel's error codes.
abbrev pub fat16_free : ℕ
fat16_free = 0

abbrev pub fat16_bad : ℕ
fat16_bad = 0xfff7

abbrev pub fat16_eof_min : ℕ
fat16_eof_min = 0xfff8

abbrev pub kernel_segment : ℕ
kernel_segment = 0x2000

-- `fat16_fs_t`
pub record Fs : Type 0 where
  pub drive : ℕ
  pub partition_lba : ℕ
  pub bytes_per_sector : ℕ
  pub sectors_per_cluster : ℕ
  pub reserved_sectors : ℕ
  pub fat_count : ℕ
  pub root_entries : ℕ
  pub fat_sectors : ℕ
  pub root_dir_lba : ℕ
  pub data_lba : ℕ
  pub total_clusters : ℕ

-- `disk_read_sectors(drive, lba, 1, KERNEL_SEGMENT, (uint16_t)sec_buf)`
unfoldable pub read_sec_buf : (drive lba : ℕ) → M ℕ
read_sec_buf drive lba = do
  buf ← gets (λ m. m.sec_buf)
  (ret, bufs) ← disk_read_sectors drive lba 1 kernel_segment (λ _. buf)
  modify (λ m. record m { sec_buf = bufs kernel_segment })
  return ret

-- `disk_write_sectors(drive, lba, 1, KERNEL_SEGMENT, (uint16_t)sec_buf)`
unfoldable pub write_sec_buf : (drive lba : ℕ) → M ℕ
write_sec_buf drive lba = do
  buf ← gets (λ m. m.sec_buf)
  (ret, bufs) ← disk_write_sectors drive lba 1 kernel_segment (λ _. buf)
  return ret

-- The number of sectors of the root directory, in 16-bit arithmetic.
unfoldable pub root_sectors : Fs → ℕ
root_sectors fs = u16 (fs.root_entries * 32 + fs.bytes_per_sector + 65535) / fs.bytes_per_sector

-- The fields that are read from the boot sector.
unfoldable pub parse_bpb : (drive partition_lba : ℕ) → Fs → Machine → Fs
parse_bpb drive partition_lba fs m = record fs {
  drive = drive;
  partition_lba = partition_lba;
  bytes_per_sector = get_u16 m.sec_buf 11;
  sectors_per_cluster = m.sec_buf 13;
  reserved_sectors = get_u16 m.sec_buf 14;
  fat_count = m.sec_buf 16;
  root_entries = get_u16 m.sec_buf 17;
  fat_sectors = get_u16 m.sec_buf 22;
}

-- The derived locations, with the hidden and the total sectors of the boot sector.
unfoldable pub derive_layout : (hidden total_sec : ℕ) → Fs → Fs
derive_layout hidden total_sec fs =
    let root_dir_lba =
      u32 (fs.partition_lba + fs.reserved_sectors + u16 (fs.fat_count * fs.fat_sectors)) in
    let data_lba = u32 (root_dir_lba + root_sectors fs) in
    let before_data = u32 (data_lba + 4294967296 - hidden) in
    record fs {
      root_dir_lba = root_dir_lba;
      data_lba = data_lba;
      total_clusters = u16 (u32 (total_sec + 4294967296 - before_data));
    }

-- The status, and `*fs` as the call leaves it.
unfoldable pub fat16_mount : (drive partition_lba : ℕ) → Fs → M (ℕ × Fs)
fat16_mount drive partition_lba fs = do
  ret ← read_sec_buf drive partition_lba
  parsed ← gets (parse_bpb drive partition_lba fs)
  hidden ← gets (λ m. get_u32 m.sec_buf 28)
  total_sec ← gets (λ m. get_u32 m.sec_buf 32)
  return (
      if ret == 0
      then (if parsed.bytes_per_sector == 512
          then (0, derive_layout hidden total_sec parsed)
          else (2, parsed))
      else (1, fs))
