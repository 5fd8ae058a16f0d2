-- ===== src/Fat16/Iterate/Endless.antt =====
-- `fat16_readdir` (src/drivers/fat16.c) in a subdirectory: when it has gone over the last entry of a
-- cluster it moves to the cluster's next sector, which the cluster does not have, and not to the
-- next cluster of the chain.
use harvac.Prelude.{
  ℕ, zero, suc, ◌+◌, ◌-◌, ◌*◌, ◌≤◌, ◌<◌, ◌≡◌, ◌≢◌, ◌/◌, sym, subst, ◌⊎◌, Option, some, List, Bool,
  refl, none, arith, true, false, ltb, leb, if◌then◌else◌, u16, Bytes, Bool-cases, inl, inr, ne→==,
}
use harvac.Machine.{Machine, ◌>>=◌}
use harvac.Errors.{Result, err, err_disk_error}
use harvac.Drivers.Disk.Address.{IsGeometry}
use harvac.Drivers.Disk.Transfer.{sector}
use harvac.Fat16.Dir.{Dirent, dirent_at, kind, skipped, in_chain}
use harvac.Fat16.Iterate.{
  DirHandle, scan_entries, exhausted, after_entries, readdir_chain, fat16_readdir,
}
use harvac.Fat16.Iterate.Reader.{fat16_read_cluster-outcome, sector_of}

scan_skips :
    (buf : Bytes) (left : ℕ) (dir : DirHandle)
    → dir.entry_idx + left ≤ 16
    → ((i : ℕ) → i < 16 → kind (dirent_at buf (i * 32)) ≡ skipped)
    → (a e : ℕ) × (scan_entries buf left dir
        ≡ exhausted (record dir { abs_idx = a; entry_idx = e }))
unfolding scan_entries
scan_skips buf zero dir h all = (dir.abs_idx, dir.entry_idx, refl)
scan_skips buf (suc left) dir h all =
    let (a, e, r) =
      scan_skips buf left
        (record dir { abs_idx = u16 (dir.abs_idx + 1); entry_idx = u16 (dir.entry_idx + 1) })
        (omega arith) all in
    (a, e, rw (all dir.entry_idx (omega arith), scan_entries) r)

-- What a call comes to that never gives an entry nor the end.
abbrev pub NoAnswer : Option ((Result Dirent × DirHandle) × Machine) → Type 0
NoAnswer r =
    (r ≡ none) ⊎ ((dir : DirHandle) × (m : Machine) × (r ≡ some ((err err_disk_error, dir), m)))

-- The round over a sector whose entries are exhausted fails or goes on at the sector behind it.
next_round :
    (fuel : ℕ) (dir dir' : DirHandle) (m : Machine)
    → IsGeometry m.disk_spt m.disk_nheads
    → 2 ≤ dir.current_cluster
    → in_chain dir.current_cluster ≡ true
    → leb 16 dir.entry_idx ≡ false
    → let buf = sector m dir.fs.drive (sector_of dir.fs dir.current_cluster dir.sector) in
      let left = if ltb dir.sector dir.fs.sectors_per_cluster then 16 - dir.entry_idx else 0 in
      scan_entries buf left dir ≡ exhausted dir'
      → ((later : List Bool)
          → NoAnswer (
              readdir_chain fuel 16
                (record dir' { sector = u16 (dir'.sector + 1); entry_idx = 0 })
                (record m { sec_buf = buf; faults = later })))
      → NoAnswer (readdir_chain (suc fuel) 16 dir m)
unfolding readdir_chain after_entries
next_round fuel dir dir' m g h2 hk he r rest =
    let (ret, buf, later, e, o) =
      fat16_read_cluster-outcome dir.fs dir.current_cluster dir.sector m g h2 in
    rw (hk, he)
      (rw (e, ◌>>=◌)
        (elim o [
          | inl (z, b) ↦ rw (z, b) (rw (r, after_entries) (rest later))
          | inr z ↦ rw z (inr (dir, record m { sec_buf = buf; faults = later }, refl))
        ]))

readdir_chain-NoAnswer :
    (fuel : ℕ) (dir : DirHandle) (m : Machine)
    → IsGeometry m.disk_spt m.disk_nheads
    → dir.fs.sectors_per_cluster ≡ 1
    → dir.entry_idx ≡ 0
    → 2 ≤ dir.current_cluster
    → in_chain dir.current_cluster ≡ true
    → ((i : ℕ)
        → i < 16
        → kind (dirent_at (sector m dir.fs.drive (sector_of dir.fs dir.current_cluster 0)) (i * 32))
          ≡ skipped)
    → NoAnswer (readdir_chain fuel 16 dir m)
unfolding sector
readdir_chain-NoAnswer zero dir m k hc he h2 hk all = inl (unfold readdir_chain in refl)
readdir_chain-NoAnswer (suc fuel) dir m k hc he h2 hk all =
    elim (Bool-cases (ltb dir.sector dir.fs.sectors_per_cluster)) [
      | inl first ↦
          let s0 : dir.sector ≡ 0 = ground arith in
          let all' : (i : ℕ) → i < 16 → kind (dirent_at buf (i * 32)) ≡ skipped = λ i hi.
            subst
              (λ s.
                kind (
                  dirent_at (sector m dir.fs.drive (sector_of dir.fs dir.current_cluster s))
                    (i * 32))
                ≡ skipped)
              (sym s0) (all i hi) in
          let (a, e, r) = scan_skips buf (16 - dir.entry_idx) dir (omega arith) all' in
          next_round fuel dir (record dir { abs_idx = a; entry_idx = e }) m k h2 hk few (rw first r)
            (λ later.
              readdir_chain-NoAnswer fuel
                (record dir { abs_idx = a; sector = u16 (dir.sector + 1); entry_idx = 0 })
                (record m { sec_buf = buf; faults = later }) k hc refl h2 hk all)
      | inr behind ↦ next_round fuel dir dir m k h2 hk few (rw behind none_left) (λ later.
          readdir_chain-NoAnswer fuel (record dir { sector = u16 (dir.sector + 1); entry_idx = 0 })
            (record m { sec_buf = buf; faults = later }) k hc refl h2 hk all)
    ]
  where
    buf : Bytes
    buf = sector m dir.fs.drive (sector_of dir.fs dir.current_cluster dir.sector)

    few : leb 16 dir.entry_idx ≡ false
    few = ground arith

    none_left : scan_entries buf 0 dir ≡ exhausted dir
    none_left = unfold scan_entries in refl

-- On a disk of a known geometry, whichever of its reads fail, for sectors of 512 bytes and clusters of
-- one sector: at the first entry of a subdirectory's cluster in which all sixteen entries are skipped,
-- the call gives neither an entry nor the end of the directory, whatever the table says follows the
-- cluster. With any fuel it does not return or it reports an error of the disk.
pub fat16_readdir_stays :
    (fuel : ℕ) (dir : DirHandle) (m : Machine)
    → IsGeometry m.disk_spt m.disk_nheads
    → dir.fs.bytes_per_sector ≡ 512
    → dir.fs.sectors_per_cluster ≡ 1
    → dir.dir_cluster ≢ 0
    → dir.entry_idx ≡ 0
    → 2 ≤ dir.current_cluster
    → in_chain dir.current_cluster ≡ true
    → ((i : ℕ)
        → i < 16
        → kind (dirent_at (sector m dir.fs.drive (sector_of dir.fs dir.current_cluster 0)) (i * 32))
          ≡ skipped)
    → NoAnswer (fat16_readdir fuel dir m)
unfolding fat16_readdir
fat16_readdir_stays fuel dir m k hb hc hd he h2 hk all =
    let sixteen : u16 (dir.fs.sectors_per_cluster * dir.fs.bytes_per_sector) / 32 ≡ 16 =
      rw (hb, hc) refl in
    rw (ne→== _ _ hd, sixteen) (readdir_chain-NoAnswer fuel dir m k hc he h2 hk all)
