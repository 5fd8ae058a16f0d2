-- ===== src/Fat16/Table/Entry.antt =====
-- The table as a function from clusters to entries: what `fat16_read_fat` and `fat16_write_fat`
-- (src/drivers/fat16.c) do to it.
use harvac.Prelude.{
  refl, ==→eq, ==→ne, ℕ, ◌+◌, ◌%◌, ◌≤◌, ◌<◌, ◌≡◌, ◌≢◌, ◌⊎◌, ◌∙◌, arith, some, ◌==◌, if◌then◌else◌,
  get_u16, put_u16, Bool-cases, inl, inr,
}
use harvac.Machine.{Machine, Sector}
use harvac.Drivers.Disk.Transfer.{
  IsReady, sector, store, sector-store, sector-store_ne, store-IsReady,
}
use harvac.Fat16.Volume.{Fs}
use harvac.Fat16.Volume.Buffer.{load, read_sec_buf_lem, write_sec_buf_lem}
use harvac.Fat16.Table.{fat_sector_lba, entry_in_sector, fat16_read_fat, fat16_write_fat}

-- The table that the disk holds.
unfoldable pub entry : Fs → Machine → ℕ → ℕ
entry fs m cluster =
    get_u16 (sector m fs.drive (fat_sector_lba fs cluster)) (entry_in_sector cluster)

pub entry_sec_buf :
    (fs : Fs) (m : Machine) (buf : Sector) → entry fs (record m { sec_buf = buf }) ≡ entry fs m
unfolding entry sector
entry_sec_buf fs m buf = refl

-- The machine after a write of an entry.
unfoldable pub put_entry : Fs → Machine → (cluster value : ℕ) → Machine
put_entry fs m cluster value =
    let lba = fat_sector_lba fs cluster in
    let buf = put_u16 (sector m fs.drive lba) (entry_in_sector cluster) value in
    store (record m { sec_buf = buf }) fs.drive lba buf

pub sec_buf-IsReady :
    {m : Machine} (buf : Sector) → IsReady m → IsReady (record m { sec_buf = buf })
sec_buf-IsReady buf k = record { no_faults = k.no_faults; geometry_known = k.geometry_known }

pub sector_sec_buf :
    (m : Machine) (buf : Sector) (drive lba : ℕ)
    → sector (record m { sec_buf = buf }) drive lba ≡ sector m drive lba
unfolding sector
sector_sec_buf m buf drive lba = refl

-- The table lies in reach of the disk driver.
pub record InReach (fs : Fs) : Type 0 where
  pub drive_byte : fs.drive < 256
  pub table_in_reach : fs.partition_lba + fs.reserved_sectors + 256 ≤ 65536

fat_sector_lba-lt :
    {fs : Fs} → InReach fs → (cluster : ℕ) → cluster < 65536 → fat_sector_lba fs cluster < 65536
unfolding fat_sector_lba
fat_sector_lba-lt v cluster h = omega arith

fat_sector_lba_ne :
    {fs : Fs}
    → InReach fs
    → (cluster lba : ℕ) → cluster < 65536
    → (lba < fs.partition_lba + fs.reserved_sectors)
      ⊎ (fs.partition_lba + fs.reserved_sectors + 256 ≤ lba)
    → fat_sector_lba fs cluster ≢ lba
unfolding fat_sector_lba
fat_sector_lba_ne v cluster lba h (inl p) = omega arith
fat_sector_lba_ne v cluster lba h (inr p) = omega arith

-- The sector and the place in it determine the cluster.
place_unique :
    {fs : Fs}
    → InReach fs
    → (c d : ℕ) → c < 65536
    → d < 65536
    → fat_sector_lba fs c ≡ fat_sector_lba fs d
    → entry_in_sector c ≡ entry_in_sector d
    → c ≡ d
unfolding fat_sector_lba entry_in_sector
place_unique v c d hc hd p q = omega arith

entry_in_sector_even : (c : ℕ) → entry_in_sector c % 2 ≡ 0
unfolding entry_in_sector
entry_in_sector_even c = omega arith

-- A write into one buffer, seen at another place.
get_entry-put_entry :
    (b : Sector) (c d value : ℕ)
    → value < 65536
    → get_u16 (put_u16 b (entry_in_sector c) value) (entry_in_sector d)
      ≡ (if entry_in_sector c == entry_in_sector d then value else get_u16 b (entry_in_sector d))
get_entry-put_entry b c d value h = ground (arith, entry_in_sector_even c, entry_in_sector_even d)

module _ (fs : Fs) {m : Machine} (k : IsReady m) where
  pub read_fat_lem :
      (cluster : ℕ)
      → fat16_read_fat fs cluster m
        ≡ some (entry fs m cluster, load m fs.drive (fat_sector_lba fs cluster))
  unfolding fat16_read_fat entry
  read_fat_lem cluster = ground (arith, read_sec_buf_lem fs.drive (fat_sector_lba fs cluster) k)

  pub write_fat_lem :
      (cluster value : ℕ)
      → fat16_write_fat fs cluster value m ≡ some (0, put_entry fs m cluster value)
  unfolding fat16_write_fat put_entry
  write_fat_lem cluster value =
      let lba = fat_sector_lba fs cluster in
      let buf = put_u16 (sector m fs.drive lba) (entry_in_sector cluster) value in
      ground (
        arith,
        read_sec_buf_lem fs.drive lba k,
        write_sec_buf_lem fs.drive lba (sec_buf-IsReady buf k),
      )

  pub put_entry-IsReady : (cluster value : ℕ) → IsReady (put_entry fs m cluster value)
  unfolding put_entry
  put_entry-IsReady cluster value =
      store-IsReady _ _ _ (record { no_faults = k.no_faults; geometry_known = k.geometry_known })

  -- On a disk without faults, with the table in reach of the driver, the state after a write of a
  -- 16-bit value to the entry of a cluster has that value there, and every other entry as it was.
  pub entry-put_entry :
      InReach fs
      → (cluster value c : ℕ) → cluster < 65536
      → value < 65536
      → c < 65536
      → entry fs (put_entry fs m cluster value) c ≡ (if cluster == c then value else entry fs m c)
  unfolding entry put_entry
  entry-put_entry v cluster value c hc hv h =
      rw
        (sector-store fs.drive (fat_sector_lba fs cluster) (fat_sector_lba fs c) _
          (sec_buf-IsReady _ k) v.drive_byte (fat_sector_lba-lt v cluster hc)
          (fat_sector_lba-lt v c h))
        (elim (Bool-cases (fat_sector_lba fs cluster == fat_sector_lba fs c)) [
          | inl e ↦ rw e (
              rw (← ==→eq _ _ e) (
                ground (
                  arith,
                  get_entry-put_entry (sector m fs.drive (fat_sector_lba fs cluster)) cluster c
                      value,
                  ==→eq _ _ e,
                  place_unique v cluster c hc h,
                )))
          | inr ne ↦ rw (ne, sector_sec_buf) (ground (arith, ==→ne _ _ ne))
        ])

  -- A write changes no sector outside the table.
  pub sector-put_entry :
      InReach fs
      → (cluster value lba : ℕ) → cluster < 65536
      → lba < 65536
      → (lba < fs.partition_lba + fs.reserved_sectors)
        ⊎ (fs.partition_lba + fs.reserved_sectors + 256 ≤ lba)
      → sector (put_entry fs m cluster value) fs.drive lba ≡ sector m fs.drive lba
  unfolding put_entry
  sector-put_entry v cluster value lba hc hl out =
      sector-store_ne fs.drive (fat_sector_lba fs cluster) lba _ (sec_buf-IsReady _ k) v.drive_byte
        (fat_sector_lba-lt v cluster hc) hl (fat_sector_lba_ne v cluster lba hc out)
      ∙ sector_sec_buf m _ fs.drive lba
