-- ===== src/Tests/DiskRuns.antt =====
-- Runs of src/drivers/disk.c.
use harvac.Prelude.{◌≡◌, refl, some, arith, true, false, [], ◌∷◌, update}
use harvac.Machine.{Machine, ◌>>◌}
use harvac.Drivers.Disk.{pack, disk_read_sectors, disk_write_sectors, disk_ensure_geometry}
use harvac.Drivers.Disk.Transfer.{store, disk_read_sectors-disk_write_sectors}
use harvac.Tests.Sample.{sample_machine, sample-IsReady}

-- Sector 1008 is the first of cylinder 1.
pack_cylinder : pack 63 16 0x80 1008 ≡ record { cx = 257; dx = 128 }
unfolding pack
pack_cylinder = refl

-- A BIOS that reports no geometry.
geometry_fallback :
    disk_ensure_geometry 0x80 (record sample_machine { disk_spt = 0 }) ≡ sample_machine
unfolding disk_ensure_geometry
geometry_fallback = refl

abbrev two_failures : Machine
two_failures = record sample_machine { faults = true ∷ true ∷ false ∷ [] }

disk_read_sectors-disk_write_sectors_example :
    (do disk_write_sectors 0x80 7 1 0 (λ s o. o); disk_read_sectors 0x80 7 1 0 (λ s o. 0))
      sample_machine
    ≡ some ((0, update (λ s o. 0) 0 (λ o. o)), store sample_machine 0x80 7 (λ o. o))
disk_read_sectors-disk_write_sectors_example =
    disk_read_sectors-disk_write_sectors 0x80 7 7 0 0 (λ s o. o) (λ s o. 0) sample-IsReady
      (omega arith) (omega arith) (omega arith)
