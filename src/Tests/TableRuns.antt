-- ===== src/Tests/TableRuns.antt =====
-- Runs of the table's operations (src/drivers/fat16.c).
use harvac.Prelude.{ℕ, ◌≤◌, ◌<◌, ◌≢◌, ◌≡◌, refl, some, arith, [], ◌∷◌, ◌==◌, if◌then◌else◌}
use harvac.Machine.{◌>>◌, Machine, Sector}
use harvac.Drivers.Disk.{pack}
use harvac.Drivers.Disk.Transfer.{sector}
use harvac.Fat16.Volume.{fat16_bad}
use harvac.Fat16.Table.{
  fat_sector_lba, entry_in_sector, fat16_read_fat, fat16_write_fat, fat16_free_chain,
  fat16_count_free_clusters, fat16_find_free_cluster,
}
use harvac.Fat16.Table.Entry.{entry}
use harvac.Fat16.Table.WriteThenRead.{fat16_read_fat-fat16_write_fat}
use harvac.Fat16.Table.Search.{find_free_cluster-first}
use harvac.Fat16.Table.Count.{free_below, count_free_clusters-counts}
use harvac.Fat16.Table.Release.{
  Chain, end_of_chain, link, Changed, freed, fat16_free_chain_lem, fat16_free_chain_ends,
}
use harvac.Tests.Sample.{sample_machine, sample_fs, sample-IsReady, sample-InReach, sample-IsVolume}

two_entries : (entry sample_fs sample_machine 2 ≡ 3) × (entry sample_fs sample_machine 3 ≡ 0xfff8)
unfolding entry sector fat_sector_lba entry_in_sector pack
two_entries = (refl, refl)

two-Chain : Chain (entry sample_fs sample_machine) 2 (2 ∷ 3 ∷ [])
unfolding entry sector fat_sector_lba entry_in_sector pack
two-Chain = link (omega arith) (omega arith) (link (omega arith) (omega arith) (end_of_chain refl))

fat16_read_fat-fat16_write_fat_example :
    (r : ℕ) × (m₁ m₂ : Machine) × (fat16_read_fat sample_fs 2 sample_machine ≡ some (r, m₁))
    × ((do fat16_write_fat sample_fs 300 7; fat16_read_fat sample_fs 2) sample_machine
        ≡ some ((if 300 == 2 then 7 else r), m₂))
fat16_read_fat-fat16_write_fat_example =
    fat16_read_fat-fat16_write_fat sample_fs 300 7 2 sample-IsReady sample-InReach (omega arith)
      (omega arith) (omega arith)

fat16_free_chain_lem_example :
    (m' : Machine) × (fat16_free_chain 3 sample_fs 2 sample_machine ≡ some (tt, m'))
    × Changed sample_fs sample_machine m' (freed (2 ∷ 3 ∷ []) (entry sample_fs sample_machine))
fat16_free_chain_lem_example =
    fat16_free_chain_lem 3 sample-IsReady sample-InReach two-Chain (omega arith)

fat16_free_chain_ends_example :
    (m' : Machine) × (fat16_free_chain 70000 sample_fs 5 sample_machine ≡ some (tt, m'))
fat16_free_chain_ends_example =
    fat16_free_chain_ends 70000 5 sample-IsReady sample-InReach (omega arith)

count_free_clusters-counts_example :
    (b : Sector) × (fat16_count_free_clusters sample_fs sample_machine
      ≡ some
          (free_below (entry sample_fs sample_machine) 8002, record sample_machine { sec_buf = b }))
count_free_clusters-counts_example =
    count_free_clusters-counts sample_fs sample-IsVolume sample-IsReady

find_free_cluster-first_example :
    (c : ℕ) × (b : Sector) × (fat16_find_free_cluster sample_fs sample_machine
      ≡ some (c, record sample_machine { sec_buf = b }))
    × ((d : ℕ)
        → 2 ≤ d
        → d < 8000
        → entry sample_fs sample_machine d ≡ 0
        → (2 ≤ c) × (c ≤ d) × (entry sample_fs sample_machine c ≡ 0))
    × (((d : ℕ) → 2 ≤ d → d < 8000 → entry sample_fs sample_machine d ≢ 0) → c ≡ fat16_bad)
find_free_cluster-first_example = find_free_cluster-first sample_fs sample-IsReady
