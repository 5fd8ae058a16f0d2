-- ===== src/Tests/FileRuns.antt =====
-- Runs of file reads and directory iteration (src/drivers/fat16.c).
use harvac.Prelude.{
  false, true, ℕ, ◌+◌, ◌-◌, ◌<◌, ◌≡◌, refl, arith, ◌==◌, if◌then◌else◌, none, some, [], ◌∷◌, take,
  min, Bytes,
}
use harvac.Machine.{Machine, Sector}
use harvac.Drivers.Disk.{pack}
use harvac.Drivers.Disk.Transfer.{sector}
use harvac.Fat16.Table.{fat_sector_lba, entry_in_sector}
use harvac.Fat16.Table.Entry.{entry}
use harvac.Fat16.Table.Release.{Chain, link, end_of_chain}
use harvac.Fat16.Dir.{kind}
use harvac.Errors.{Result}
use harvac.Fat16.Volume.{root_sectors}
use harvac.Fat16.Dir.{Found, fat16_find, name_match}
use harvac.Fat16.Dir.Names.{name_match-equal}
use harvac.Fat16.Dir.Lookup.{root_lba, root_sector, Finds, fat16_find-Finds}
use harvac.Fat16.Iterate.{DirHandle, fat16_readdir}
use harvac.Fat16.Iterate.Endless.{NoAnswer, fat16_readdir_stays}
use harvac.Fat16.File.{File, fat16_read}
use harvac.Fat16.File.Stall.{fat16_read_stalls}
use harvac.Fat16.File.Content.{View, rest_of, fat16_read_content}
use harvac.Tests.Sample.{two_links, sample_machine, sample_fs, sample-IsReady}

-- A file of two clusters, 2 and 3.
abbrev sample_file : File
sample_file = record {
  fs = sample_fs;
  first_cluster = 2;
  file_size = 600;
  position = 0;
  current_cluster = 2;
  cluster_pos = 0;
  dir_sector_lba = 128;
  dir_entry_offset = 0;
}

abbrev long_file : File
long_file = record sample_file { file_size = 65536 }

fat16_read_stalls_example : fat16_read 100 long_file 10 sample_machine ≡ none
fat16_read_stalls_example =
    fat16_read_stalls 100 long_file 10 sample-IsReady (omega arith) (omega arith) (omega arith) refl
      (omega arith) (omega arith)

sample-View : View sample_fs sample_machine (entry sample_fs sample_machine) (λ c. two_links)
unfolding sector
sample-View = record { ready = sample-IsReady; table = λ c. refl; clusters = λ c. refl }

file-Chain : Chain (entry sample_fs sample_machine) 2 (2 ∷ 3 ∷ [])
unfolding entry sector fat_sector_lba entry_in_sector pack
file-Chain = link (omega arith) (omega arith) (link (omega arith) (omega arith) (end_of_chain refl))

fat16_read_content_example :
    (f' : File) × (b : Sector) × (fat16_read 9 sample_file 8 sample_machine
      ≡ some (
        (take (min 8 (600 - 0)) (rest_of (λ c. two_links) sample_file (3 ∷ [])), f'),
        record sample_machine { sec_buf = b },
      ))
    × (f'.position ≡ 0 + min 8 (600 - 0))
fat16_read_content_example =
    fat16_read_content (entry sample_fs sample_machine) (λ c. two_links) 9 sample_file (3 ∷ []) 8
      sample_machine sample-View refl refl file-Chain (omega arith) (omega arith) (omega arith)
      (omega arith) (omega arith)

-- A subdirectory at cluster 2 of a disk whose every entry is deleted.
abbrev sample_dir : DirHandle
sample_dir = record {
  fs = sample_fs;
  sector = 0;
  entry_idx = 0;
  abs_idx = 0;
  root_sectors = 0;
  dir_cluster = 2;
  current_cluster = 2;
}

-- A disk of which some reads fail.
abbrev failing : Machine
failing = record sample_machine {
  platter = λ cx dx o. 0xe5;
  faults = false ∷ true ∷ true ∷ false ∷ true ∷ [];
}

fat16_readdir_stays_example : NoAnswer (fat16_readdir 100 sample_dir failing)
unfolding sector kind
fat16_readdir_stays_example =
    fat16_readdir_stays 100 sample_dir failing (omega arith) refl refl (λ e. absurd (cc e)) refl
      (omega arith) refl (λ i h. refl)

abbrev a_txt : Bytes
a_txt i = if i == 0 then b'A' else if i == 8 then b'T' else 0x20

fat16_find-Finds_example :
    (r : Result Found) × (b : Sector) × (fat16_find sample_fs a_txt sample_machine
      ≡ some (r, record sample_machine { sec_buf = b }))
    × Finds a_txt
        (root_sector sample_fs sample_machine)
        (root_lba sample_fs)
        (root_sectors sample_fs)
        r
fat16_find-Finds_example = fat16_find-Finds sample_fs a_txt sample_machine sample-IsReady

name_match-equal_at_run :
    (name_match a_txt (λ i. 0x20) ≡ true → (j : ℕ) → j < 11 → a_txt j ≡ 0x20)
    × (((j : ℕ) → j < 11 → a_txt j ≡ 0x20) → name_match a_txt (λ i. 0x20) ≡ true)
name_match-equal_at_run =
    name_match-equal a_txt (λ i. 0x20) (λ i j h k l e. ground arith) (λ i j h k l e. ground arith)
      (λ i j h k l e. refl) (λ i j h k l e. refl)
