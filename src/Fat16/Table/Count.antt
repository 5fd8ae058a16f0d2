-- ===== src/Fat16/Table/Count.antt =====
-- `fat16_count_free_clusters` (src/drivers/fat16.c) counts the free entries of the table.
use harvac.Prelude.{
  ℕ, zero, suc, ◌+◌, ◌*◌, ◌/◌, ◌%◌, ◌≤◌, ◌<◌, ◌≡◌, refl, inl, inr, arith, some, true, false, ◌&&◌,
  Bool-cases, ltb, leb, ◌==◌, if◌then◌else◌, get_u16, u16, u32, lt→ltb, ge→ltb, ltb→ge, Bytes,
}
use harvac.Machine.{Machine, Sector, ◌>>=◌}
use harvac.Drivers.Disk.Transfer.{IsReady, sector}
use harvac.Fat16.Volume.{Fs}
use harvac.Fat16.Volume.Buffer.{read_sec_buf_lem}
use harvac.Fat16.Volume.Layout.{IsVolume}
use harvac.Fat16.Table.{
  fat_sector_lba, entry_in_sector, count_sector, count_loop, fat16_count_free_clusters,
}
use harvac.Fat16.Table.Entry.{entry, sec_buf-IsReady, entry_sec_buf}

-- The free clusters from 2 up to `n`.
unfoldable pub free_below : (ℕ → ℕ) → ℕ → ℕ
free_below T zero = 0
free_below T (suc n) = if leb 2 n && (T n == 0) then free_below T n + 1 else free_below T n

free_below-le : (T : ℕ → ℕ) (n : ℕ) → free_below T n ≤ n
unfolding free_below
free_below-le T zero = omega arith
free_below-le T (suc n) = ground (arith, free_below-le T n)

-- One more entry, in 16-bit arithmetic.
free_below_step :
    (T : ℕ → ℕ) (n v : ℕ)
    → n < 65535
    → v ≡ T n
    → (if leb 2 n && (v == 0) then u16 (free_below T n + 1) else free_below T n)
      ≡ free_below T (suc n)
unfolding free_below
free_below_step T n v h e = ground (arith, free_below-le T n)

module _ (fs : Fs) (T : ℕ → ℕ) (buf : Bytes) (base : ℕ) where
  -- The loop over one sector, from entry `i`.
  count_sector_lem :
      (left i : ℕ)
      → i + left ≡ 256
      → base + 256 ≤ 65536
      → fs.total_clusters + 2 < 65536
      → base + i ≤ fs.total_clusters + 2
      → ((j : ℕ) → j < 256 → get_u16 buf (j * 2) ≡ T (base + j))
      → count_sector fs buf left i base (free_below T (base + i)) ≡ (
          if ltb (fs.total_clusters + 2) (base + 256)
          then (free_below T (fs.total_clusters + 2), true)
          else (free_below T (base + 256), false))
  unfolding count_sector
  count_sector_lem zero i e h t p agree =
      let e' : i ≡ 256 = omega arith in
      rw (e', ge→ltb (fs.total_clusters + 2) (base + 256) (omega arith))
  count_sector_lem (suc left) i e h t p agree =
      let n = base + i in
      let e1 : u16 (base + i) ≡ base + i = omega arith in
      let e2 : u16 (fs.total_clusters + 2) ≡ fs.total_clusters + 2 = omega arith in
      rw (e1, e2)
        (elim (Bool-cases (leb 2 (base + i) && leb (fs.total_clusters + 2) (base + i))) [
          | inl past ↦
              let at_end : fs.total_clusters + 2 ≡ base + i = ground arith in
              rw (past, at_end, lt→ltb (base + i) (base + 256) (omega arith))
          | inr inside ↦
              let step =
                free_below_step T (base + i) (get_u16 buf (i * 2)) (ground arith)
                  (agree i (omega arith)) in
              let next : suc (base + i) ≡ base + (i + 1) = omega arith in
              rw (inside, step, next)
                (count_sector_lem left (i + 1) (omega arith) h t (ground arith) agree)
        ])

module _ (fs : Fs) (v : IsVolume fs) where
  -- The entries of one sector of the table.
  entry_of_sector :
      (m : Machine) (s j : ℕ)
      → s < 256
      → j < 256
      → get_u16 (sector m fs.drive (u32 (u32 (fs.partition_lba + fs.reserved_sectors) + s))) (j * 2)
        ≡ entry fs m (256 * s + j)
  unfolding entry fat_sector_lba entry_in_sector
  entry_of_sector m s j hs hj =
      let e1 : (256 * s + j) * 2 % 4294967296 / 512 ≡ s = omega arith in
      let e2 : u32 ((256 * s + j) * 2) % 512 ≡ j * 2 = omega arith in
      let e3 : u32 (u32 (fs.partition_lba + fs.reserved_sectors) + s)
          ≡ u32 (fs.partition_lba + fs.reserved_sectors + s) =
        omega arith in
      rw (e1, e2, e3)

  -- The round of a sector that does not reach the last cluster.
  count_loop_more :
      (left s : ℕ) {m : Machine}
      → IsReady m
      → 256 * s + 256 ≤ fs.total_clusters + 2
      → let lba = u32 (u32 (fs.partition_lba + fs.reserved_sectors) + s) in
        let T = entry fs m in
        let m1 : Machine = record m { sec_buf = sector m fs.drive lba } in
        count_sector fs (sector m fs.drive lba) 256 0 (256 * s) (free_below T (256 * s))
          ≡ (free_below T (256 * s + 256), false)
        → ((b : Sector) × (count_loop fs left
                (s + 1)
                (256 * (s + 1))
                (free_below (entry fs m1) (256 * (s + 1)))
                m1
              ≡ some (free_below (entry fs m1) (fs.total_clusters + 2), record m { sec_buf = b })))
        → (b : Sector) × (count_loop fs (suc left) s (256 * s) (free_below T (256 * s)) m
            ≡ some (free_below T (fs.total_clusters + 2), record m { sec_buf = b }))
  unfolding count_loop
  count_loop_more left s {m} k le one (b, rest) =
      let lba = u32 (u32 (fs.partition_lba + fs.reserved_sectors) + s) in
      let next : u16 (256 * s + 256) ≡ 256 * (s + 1) = omega arith in
      let plain : 256 * s + 256 ≡ 256 * (s + 1) = omega arith in
      (
        b,
        rw (read_sec_buf_lem fs.drive lba k, ◌>>=◌)
            (rw one (rw (next, plain) (rw entry_sec_buf at rest))),
      )

  count_loop_lem :
      (left s : ℕ) {m : Machine}
      → IsReady m
      → s + left ≡ fs.fat_sectors
      → 256 * s ≤ fs.total_clusters + 2
      → (b : Sector) × (count_loop fs left s (256 * s) (free_below (entry fs m) (256 * s)) m
          ≡ some (free_below (entry fs m) (fs.total_clusters + 2), record m { sec_buf = b }))
  unfolding count_loop
  count_loop_lem zero s {m} k e h =
      let e' : 256 * s ≡ fs.total_clusters + 2 = omega arith in (m.sec_buf, rw e')
  count_loop_lem (suc left) s {m} k e h =
      let lba = u32 (u32 (fs.partition_lba + fs.reserved_sectors) + s) in
      let b = sector m fs.drive lba in
      let T = entry fs m in
      let zeroth : 256 * s + 0 ≡ 256 * s = omega arith in
      let one =
        count_sector_lem fs T b (256 * s) 256 0 refl (omega arith) (omega arith) (omega arith)
          (λ j hj. entry_of_sector m s j (omega arith) hj) in
      elim (Bool-cases (ltb (fs.total_clusters + 2) (256 * s + 256))) [
        | inl done ↦
            (b, rw (read_sec_buf_lem fs.drive lba k, ◌>>=◌) (rw (rw (zeroth, done) at one)))
        | inr more ↦
            let le : 256 * s + 256 ≤ fs.total_clusters + 2 = ltb→ge _ _ more in
            count_loop_more left s k le (rw (zeroth, more) at one)
              (count_loop_lem left (s + 1) (sec_buf-IsReady b k) (omega arith) (omega arith))
      ]

  -- On a disk without faults and for a volume whose regions lie behind each other, with a table
  -- for all its clusters, the count is the number of free entries among the clusters from 2 to
  -- `total_clusters + 1`, and only the buffer changes.
  pub count_free_clusters-counts :
      {m : Machine}
      → IsReady m
      → (b : Sector) × (fat16_count_free_clusters fs m
          ≡ some (free_below (entry fs m) (fs.total_clusters + 2), record m { sec_buf = b }))
  unfolding fat16_count_free_clusters free_below
  count_free_clusters-counts k = count_loop_lem fs.fat_sectors 0 k (omega arith) (omega arith)
