-- ===== src/Fat16/Table/Search.antt =====
-- `fat16_find_free_cluster` (src/drivers/fat16.c) finds the first free cluster of its range.
use harvac.Prelude.{
  refl, false, ne→==, ℕ, zero, suc, ◌+◌, ◌-◌, ◌≤◌, ◌<◌, ◌≡◌, ◌≢◌, inl, inr, arith, some, Bool-cases,
  ◌==◌, if◌then◌else◌, ==→eq,
}
use native.Mathlib.Nat.{le_refl}
use harvac.Machine.{Machine, Sector, ◌>>=◌}
use harvac.Drivers.Disk.Transfer.{IsReady, sector}
use harvac.Fat16.Volume.{Fs, fat16_bad}
use harvac.Fat16.Table.{fat_sector_lba, find_free_loop, fat16_find_free_cluster}
use harvac.Fat16.Table.Entry.{entry, read_fat_lem, sec_buf-IsReady, entry_sec_buf}

-- The first free cluster among `left` of them, or the mark of a bad one.
unfoldable pub first_free : (ℕ → ℕ) → (left cluster : ℕ) → ℕ
first_free T zero cluster = fat16_bad
first_free T (suc left) cluster =
    let rest = first_free T left (cluster + 1) in if T cluster == 0 then cluster else rest

-- With a free cluster in the range the result is the first one.
first_free-minimal :
    (T : ℕ → ℕ) (left cluster d : ℕ)
    → cluster ≤ d
    → d < cluster + left
    → T d ≡ 0
    → (cluster ≤ first_free T left cluster)
      × (first_free T left cluster ≤ d)
      × (T (first_free T left cluster) ≡ 0)
unfolding first_free
first_free-minimal T zero cluster d h l e = absurd (omega arith)
first_free-minimal T (suc left) cluster d h l e = elim (Bool-cases (T cluster == 0)) [
  | inl free ↦ rw free (le_refl cluster, h, ==→eq _ _ free)
  | inr used ↦
      rw used
        (ground (arith, first_free-minimal T left (cluster + 1) d (later used) (omega arith) e))
]
  where
    later : (T cluster == 0) ≡ false → cluster + 1 ≤ d
    later used = ground arith

first_free-full :
    (T : ℕ → ℕ) (left cluster : ℕ)
    → ((d : ℕ) → cluster ≤ d → d < cluster + left → T d ≢ 0)
    → first_free T left cluster ≡ fat16_bad
unfolding first_free
first_free-full T zero cluster h = refl
first_free-full T (suc left) cluster h =
    rw (ne→== _ _ (h cluster (le_refl cluster) (omega arith)))
      (first_free-full T left (cluster + 1) (λ d p q. h d (omega arith) (omega arith)))

module _ (fs : Fs) where
  pub find_free_loop_lem :
      (left cluster : ℕ) {m : Machine}
      → IsReady m
      → (b : Sector) × (find_free_loop fs left cluster m
          ≡ some (first_free (entry fs m) left cluster, record m { sec_buf = b }))
  unfolding find_free_loop first_free
  find_free_loop_lem zero cluster {m} k = (m.sec_buf, refl)
  find_free_loop_lem (suc left) cluster {m} k =
      let l = sector m fs.drive (fat_sector_lba fs cluster) in
      let (b, rest) = find_free_loop_lem left (cluster + 1) (sec_buf-IsReady l k) in
      elim (Bool-cases (entry fs m cluster == 0)) [
        | inl free ↦ (l, rw (read_fat_lem fs k cluster, ◌>>=◌) (rw free))
        | inr used ↦ (b, rw (read_fat_lem fs k cluster, ◌>>=◌) (rw used (rw entry_sec_buf at rest)))
      ]

-- On a disk without faults the search changes nothing but the buffer. Its result is the first free
-- cluster of 2 up to `total_clusters`, that number excluded, where there is one, and otherwise the
-- mark of a bad cluster.
pub find_free_cluster-first :
    (fs : Fs) {m : Machine}
    → IsReady m
    → (c : ℕ) × (b : Sector) × (fat16_find_free_cluster fs m ≡ some (c, record m { sec_buf = b }))
      × ((d : ℕ)
          → 2 ≤ d
          → d < fs.total_clusters
          → entry fs m d ≡ 0
          → (2 ≤ c) × (c ≤ d) × (entry fs m c ≡ 0))
      × (((d : ℕ) → 2 ≤ d → d < fs.total_clusters → entry fs m d ≢ 0) → c ≡ fat16_bad)
unfolding fat16_find_free_cluster
find_free_cluster-first fs {m} k =
    let (b, run) = find_free_loop_lem fs (fs.total_clusters - 2) 2 k in
    (
      first_free (entry fs m) (fs.total_clusters - 2) 2,
      b,
      run,
      λ d h l e. first_free-minimal (entry fs m) (fs.total_clusters - 2) 2 d h (omega arith) e,
      λ h. first_free-full (entry fs m) (fs.total_clusters - 2) 2 (λ d p q. h d p (omega arith)),
    )
