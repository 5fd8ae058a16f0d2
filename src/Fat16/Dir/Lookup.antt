-- ===== src/Fat16/Dir/Lookup.antt =====
-- `fat16_find` (src/drivers/fat16.c) against an independent description of the first matching entry.
use harvac.Prelude.{
  ℕ, zero, suc, ◌+◌, ◌*◌, ◌<◌, ◌≡◌, ◌≢◌, refl, ◌∙◌, some, arith, true, false, ◌==◌, u32, Bytes,
  Bool-cases, inl, inr, ◌⊎◌, ==→ne, ==→eq,
}
use harvac.Machine.{Machine, Sector, ◌>>=◌}
use harvac.Errors.{Result, ok, err, err_not_found}
use harvac.Drivers.Disk.Transfer.{IsReady, sector}
use harvac.Fat16.Volume.{Fs, root_sectors}
use harvac.Fat16.Volume.Buffer.{load, read_sec_buf_lem}
use harvac.Fat16.Table.Entry.{sec_buf-IsReady, sector_sec_buf}
use harvac.Fat16.Dir.{
  Dirent, dirent_at, kind, Kind, final, skipped, live, name_match, Scan, match_at, no_more,
  no_match, scan_sector, Found, found, after_scan, find_loop, fat16_find,
}

-- A search for a name goes on behind an entry.
pub record Passes (name : Bytes) (de : Dirent) : Type 0 where
  pub goes_on : kind de ≢ final
  pub no_hit : kind de ≡ live → name_match name de ≡ false

-- The entries of a sector before the `n`-th are passed.
abbrev pub PassedTo : (name buf : Bytes) → ℕ → Type 0
PassedTo name buf n = (i : ℕ) → i < n → Passes name (dirent_at buf (i * 32))

data Scanned (name buf : Bytes) : Scan → Type 0 where
  scan_hit :
      (i : ℕ)
      → i < 16
      → PassedTo name buf i
      → kind (dirent_at buf (i * 32)) ≡ live
      → name_match name (dirent_at buf (i * 32)) ≡ true
      → Scanned name buf (match_at i)
  scan_end :
      (i : ℕ)
      → i < 16
      → PassedTo name buf i
      → kind (dirent_at buf (i * 32)) ≡ final
      → Scanned name buf no_more
  scan_all : PassedTo name buf 16 → Scanned name buf no_match

Kind-cases : (k : Kind) → (k ≡ final) ⊎ ((k ≡ skipped) ⊎ (k ≡ live))
Kind-cases final = inl refl
Kind-cases skipped = inr (inl refl)
Kind-cases live = inr (inr refl)

PassedTo-step :
    (name buf : Bytes) (i : ℕ)
    → PassedTo name buf i
    → Passes name (dirent_at buf (i * 32))
    → PassedTo name buf (i + 1)
PassedTo-step name buf i p here j h = elim (Bool-cases (j == i)) [
  | inl e ↦ rw (==→eq j i e) here
  | inr e ↦ p j (omega (arith, ==→ne j i e))
]

scan_sector_lem :
    (name buf : Bytes) (left i : ℕ)
    → i + left ≡ 16
    → PassedTo name buf i
    → Scanned name buf (scan_sector name buf left i)
unfolding scan_sector
scan_sector_lem name buf zero i e p = scan_all (λ j h. p j (omega arith))
scan_sector_lem name buf (suc left) i e p = elim (Kind-cases (kind (dirent_at buf (i * 32)))) [
  | inl k ↦ rw (scan_sector, k) (scan_end i (omega arith) p k)
  | inr (inl k) ↦
      rw (scan_sector, k)
        (scan_sector_lem name buf left (i + 1) (omega arith) (
          PassedTo-step name buf i p
            (record { goes_on = λ q. cc (q, k); no_hit = λ q. absurd (cc (q, k)) })))
  | inr (inr k) ↦ elim (Bool-cases (name_match name (dirent_at buf (i * 32)))) [
    | inl t ↦ rw (scan_sector, k, t) (scan_hit i (omega arith) p k t)
    | inr f ↦
        rw (scan_sector, k, f)
          (scan_sector_lem name buf left (i + 1) (omega arith)
            (PassedTo-step name buf i p (record { goes_on = λ q. cc (q, k); no_hit = λ q. f })))
  ]
]

-- The first entry of `n` sectors that has a name and is live, as long as no entry before it ends the
-- directory: its sector, its index and its place on the disk.
pub data Finds (name : Bytes) (sectors : ℕ → Bytes) (lba : ℕ → ℕ) (n : ℕ)
    : Result Found → Type 0 where
  finds :
      (s i : ℕ)
      → s < n
      → i < 16
      → ((t : ℕ) → t < s → PassedTo name (sectors t) 16)
      → PassedTo name (sectors s) i
      → kind (dirent_at (sectors s) (i * 32)) ≡ live
      → name_match name (dirent_at (sectors s) (i * 32)) ≡ true
      → Finds name sectors lba n (ok (found (sectors s) (lba s) i))
  ends :
      (s i : ℕ)
      → s < n
      → i < 16
      → ((t : ℕ) → t < s → PassedTo name (sectors t) 16)
      → PassedTo name (sectors s) i
      → kind (dirent_at (sectors s) (i * 32)) ≡ final
      → Finds name sectors lba n (err err_not_found)
  lacks :
      ((t : ℕ) → t < n → PassedTo name (sectors t) 16)
      → Finds name sectors lba n (err err_not_found)

-- The sectors of the root directory.
abbrev pub root_lba : Fs → ℕ → ℕ
root_lba fs s = u32 (fs.root_dir_lba + s)

abbrev pub root_sector : Fs → Machine → ℕ → Bytes
root_sector fs m s = sector m fs.drive (root_lba fs s)

module _ (fs : Fs) (name : Bytes) where
  -- A run that comes to a result that is right, and changes only the buffer.
  abbrev FindsFrom : (m : Machine) (sectors : ℕ → Bytes) (n left sec : ℕ) → Type 0
  FindsFrom m sectors n left sec =
      (r : Result Found) × (b : Sector) × (find_loop fs name left sec m
        ≡ some (r, record m { sec_buf = b }))
      × Finds name sectors (root_lba fs) n r

  step_loop :
      (m : Machine) (left sec : ℕ)
      → IsReady m
      → find_loop fs name (suc left) sec m
        ≡ after_scan
            (scan_sector name (root_sector fs m sec) 16 0)
            (root_sector fs m sec)
            (root_lba fs sec)
            (find_loop fs name left (sec + 1))
            (load m fs.drive (root_lba fs sec))
  unfolding find_loop
  step_loop m left sec k = rw (read_sec_buf_lem fs.drive (root_lba fs sec) k, ◌>>=◌) refl

  after_scan_lem :
      (m : Machine) (sectors : ℕ → Bytes) (n left sec : ℕ) (scan : Scan)
      → IsReady m
      → sec < n
      → (root_sector fs m sec ≡ sectors sec)
      → scan_sector name (root_sector fs m sec) 16 0 ≡ scan
      → Scanned name (sectors sec) scan
      → ((t : ℕ) → t < sec → PassedTo name (sectors t) 16)
      → (PassedTo name (sectors sec) 16
          → FindsFrom (load m fs.drive (root_lba fs sec)) sectors n left (sec + 1))
      → FindsFrom m sectors n (suc left) sec
  unfolding after_scan
  after_scan_lem m sectors n left sec (match_at i) k h e q (scan_hit i' l p live_one hit) before
        later =
      (
        ok (found (sectors sec) (root_lba fs sec) i),
        root_sector fs m sec,
        step_loop m left sec k ∙ rw (q, e) refl,
        finds sec i h l before p live_one hit,
      )
  after_scan_lem m sectors n left sec no_more k h e q (scan_end i l p end) before later = (
    err err_not_found,
    root_sector fs m sec,
    step_loop m left sec k ∙ rw q refl,
    ends sec i h l before p end,
  )
  after_scan_lem m sectors n left sec no_match k h e q (scan_all p) before later =
      let (r, b, run, right) = later p in (r, b, step_loop m left sec k ∙ rw q run, right)

  find_loop_lem :
      (m : Machine) (sectors : ℕ → Bytes) (n left sec : ℕ)
      → IsReady m
      → sec + left ≡ n
      → ((s : ℕ) → root_sector fs m s ≡ sectors s)
      → ((t : ℕ) → t < sec → PassedTo name (sectors t) 16)
      → FindsFrom m sectors n left sec
  unfolding find_loop
  find_loop_lem m sectors n zero sec k e view before =
      (err err_not_found, m.sec_buf, refl, lacks (λ t h. before t (omega arith)))
  find_loop_lem m sectors n (suc left) sec k e view before =
      after_scan_lem m sectors n left sec _ k (omega arith) (view sec) refl
        (rw (view sec) (scan_sector_lem name (sectors sec) 16 0 refl (λ i h. absurd (omega arith))))
        before
        (λ p.
          find_loop_lem (load m fs.drive (root_lba fs sec)) sectors n left (sec + 1)
            (sec_buf-IsReady _ k) (omega arith)
            (λ s. sector_sec_buf m _ fs.drive (root_lba fs s) ∙ view s)
            (λ t h. elim (Bool-cases (t == sec)) [
              | inl same ↦ rw (==→eq t sec same) p
              | inr other ↦ before t (omega (arith, ==→ne t sec other))
            ]))

  -- On a disk without faults the search in the root directory changes nothing but the buffer, and
  -- returns the first live entry with the name before the end of the directory, or that there is
  -- none.
  pub fat16_find-Finds :
      (m : Machine)
      → IsReady m
      → (r : Result Found) × (b : Sector) × (fat16_find fs name m
          ≡ some (r, record m { sec_buf = b }))
        × Finds name (root_sector fs m) (root_lba fs) (root_sectors fs) r
  unfolding fat16_find
  fat16_find-Finds m k =
      find_loop_lem m (root_sector fs m) (root_sectors fs) (root_sectors fs) 0 k (omega arith)
        (λ s. refl) (λ t h. absurd (omega arith))
