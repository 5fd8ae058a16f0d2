-- ===== src/Fat16/File/Stall.antt =====
-- `fat16_read` (src/drivers/fat16.c) keeps the bytes up to the end of the file in 16 bits. Where
-- their number is a multiple of 65536 it copies nothing and never ends.
use mathlib.Core.List.{append-nil}
use native.Mathlib.Nat.{sub-zero}
use harvac.Prelude.{
  ◌/◌, ℕ, zero, suc, ◌+◌, ◌-◌, ◌≤◌, ◌<◌, ◌%◌, ◌≡◌, refl, none, arith, List, [], ◌++◌, u16, u32, leb,
  ◌==◌, false, ◌||◌,
}
use harvac.Machine.{Machine, M, ◌>>=◌}
use harvac.Drivers.Disk.Transfer.{IsReady, sector}
use harvac.Fat16.Volume.Buffer.{load}
use harvac.Fat16.Table.Entry.{sec_buf-IsReady}
use harvac.Fat16.Iterate.Reader.{read_cluster_lem, sector_of}
use harvac.Fat16.File.{
  File, read_loop, fat16_read, read_copy, read_chunk, moved, cluster_size, slice,
}

-- A round that reads its sector.
pub read_copy_lem :
    {m : Machine} (rounds : File → ℕ → List ℕ → M (List ℕ × File)) (f : File) (count : ℕ)
    (out : List ℕ)
    → IsReady m
    → 2 ≤ f.current_cluster
    → let lba = sector_of f.fs f.current_cluster (u16 (f.cluster_pos / 512)) in
      let chunk = read_chunk f count in
      read_copy rounds f count out m
      ≡ rounds
          (moved f chunk)
          (count - chunk)
          (out ++ slice (sector m f.fs.drive lba) (f.cluster_pos % 512) chunk)
          (load m f.fs.drive lba)
unfolding read_copy
read_copy_lem rounds f count out k h =
    rw (read_cluster_lem f.fs f.current_cluster (u16 (f.cluster_pos / 512)) k h, ◌>>=◌) refl

read_loop_stalls :
    (fuel : ℕ) (file : File) (count : ℕ) (out : List ℕ) {m : Machine}
    → IsReady m
    → 0 < count
    → file.position < file.file_size
    → file.file_size < 4294967296
    → (file.file_size - file.position) % 65536 ≡ 0
    → file.cluster_pos < cluster_size file.fs
    → 2 ≤ file.current_cluster
    → read_loop fuel file count out m ≡ none
unfolding read_loop
read_loop_stalls zero file count out k hc hp hs e hq hk = refl
read_loop_stalls (suc fuel) file count out {m} k hc hp hs e hq hk =
    let none_left : read_chunk file count ≡ 0 = omega arith in
    let position_kept : u32 (file.position + 0) ≡ file.position = omega arith in
    let cluster_pos_kept : u32 (file.cluster_pos + 0) ≡ file.cluster_pos = omega arith in
    let more : (count == 0 || leb file.file_size file.position) ≡ false = ground arith in
    let inside : leb (cluster_size file.fs) file.cluster_pos ≡ false = ground arith in
    rw (more, inside)
      (rw (read_copy_lem (read_loop fuel) file count out k hk) (
        rw none_left (
          rw (position_kept, cluster_pos_kept, sub-zero, append-nil)
            (read_loop_stalls fuel file count out (sec_buf-IsReady _ k) hc hp hs e hq hk))))

-- On a disk without faults, a read of at least one byte from a position inside a cluster does not
-- return with any fuel, if what is left of the file is a positive multiple of 65536 bytes.
pub fat16_read_stalls :
    (fuel : ℕ) (file : File) (count : ℕ) {m : Machine}
    → IsReady m
    → 0 < count
    → file.position < file.file_size
    → file.file_size < 4294967296
    → (file.file_size - file.position) % 65536 ≡ 0
    → file.cluster_pos < cluster_size file.fs
    → 2 ≤ file.current_cluster
    → fat16_read fuel file count m ≡ none
unfolding fat16_read
fat16_read_stalls fuel file count k hc hp hs e hq hk =
    read_loop_stalls fuel file count [] k hc hp hs e hq hk
