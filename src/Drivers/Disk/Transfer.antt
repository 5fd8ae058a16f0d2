-- ===== src/Drivers/Disk/Transfer.antt =====
-- What the transfers of src/drivers/disk.c do to the platter: the retries, and a machine on which
-- every INT 13h call succeeds as a store of sectors by number.
use harvac.Prelude.{
  ◌==◌, if◌then◌else◌, Bool-cases, inl, inr, ==→eq, ==→ne, ℕ, zero, suc, ◌+◌, ◌<◌, ◌≡◌, ◌≢◌, ◌⊎◌,
  refl, Bool, true, false, List, [], ◌∷◌, ◌++◌, some, arith, u16, update, length, All,
}
use harvac.Machine.{Machine, Sector, ◌>>◌}
use harvac.Drivers.Disk.{
  Registers, pack, transfer, chs_int, attempts, Buffers, chs_loop, disk_chs_op, disk_read_sectors,
  disk_write_sectors, disk_ensure_geometry,
}
use harvac.Drivers.Disk.Address.{IsGeometry, pack_injective}

-- Fewer failures than the attempts that are left do not show: the call transfers its sector.
pub attempts-transfer :
    (n : ℕ) (write : Bool) (r : Registers) (buf : Sector) (m : Machine) (failed rest : List Bool)
    → All (λ b. b ≡ true) failed
    → length failed < n
    → attempts n write r buf (record m { faults = failed ++ false ∷ rest })
      ≡ transfer write r buf (record m { faults = rest })
unfolding attempts chs_int
attempts-transfer zero write r buf m failed rest a h = elim h [ ]
attempts-transfer (suc n) true r buf m [] rest a h = refl
attempts-transfer (suc n) false r buf m [] rest a h = refl
attempts-transfer (suc n) write r buf m (true ∷ failed) rest a h =
    attempts-transfer n write r buf m failed rest a.1 (omega arith)
attempts-transfer (suc n) write r buf m (false ∷ failed) rest a h = cc (a.0)

-- As many failures as there are attempts make the call fail, and leave the platter alone.
pub attempts-fail :
    (n : ℕ) (write : Bool) (r : Registers) (buf : Sector) (m : Machine) (failed rest : List Bool)
    → All (λ b. b ≡ true) failed
    → length failed ≡ n
    → attempts n write r buf (record m { faults = failed ++ rest })
      ≡ ((1, buf), record m { faults = rest })
unfolding attempts chs_int
attempts-fail zero write r buf m [] rest a h = refl
attempts-fail zero write r buf m (b ∷ failed) rest a h = absurd (omega arith)
attempts-fail (suc n) write r buf m [] rest a h = absurd (omega arith)
attempts-fail (suc n) write r buf m (true ∷ failed) rest a h =
    attempts-fail n write r buf m failed rest a.1 (omega arith)
attempts-fail (suc n) write r buf m (false ∷ failed) rest a h = cc (a.0)

-- Every INT 13h call succeeds, and the geometry is known.
pub record IsReady (m : Machine) : Type 0 where
  pub no_faults : m.faults ≡ []
  pub geometry_known : IsGeometry m.disk_spt m.disk_nheads

-- The sector at a number, and the machine with another one there.
unfoldable pub sector : Machine → (drive lba : ℕ) → Sector
sector m drive lba = let r = pack m.disk_spt m.disk_nheads drive (u16 lba) in m.platter r.cx r.dx

unfoldable pub store : Machine → (drive lba : ℕ) → Sector → Machine
store m drive lba buf =
    let r = pack m.disk_spt m.disk_nheads drive (u16 lba) in
    record m { platter = update m.platter r.cx (update (m.platter r.cx) r.dx buf) }

ensure_known : (drive : ℕ) {m : Machine} → IsReady m → disk_ensure_geometry drive m ≡ m
unfolding disk_ensure_geometry
ensure_known drive k = ground (arith, k.geometry_known.some_sectors)

attempts_ready :
    (n : ℕ) (write : Bool) (r : Registers) (buf : Sector) (m : Machine)
    → m.faults ≡ []
    → attempts (suc n) write r buf m ≡ transfer write r buf m
unfolding attempts chs_int
attempts_ready n true r buf m h = ground arith
attempts_ready n false r buf m h = ground arith

-- The attempts to read, whatever their outcomes are: the platter stays, and the sector is read or the
-- call fails.
attempts-reads :
    (n : ℕ) (r : Registers) (buf : Sector) (m : Machine) (faults : List Bool)
    → let ((ret, buf'), m') = attempts n false r buf (record m { faults = faults }) in
      (later : List Bool) × (m' ≡ record m { faults = later })
      × ((ret ≡ 0) × (buf' ≡ m.platter r.cx r.dx) ⊎ (ret ≡ 1))
unfolding attempts chs_int transfer
attempts-reads zero r buf m faults = (faults, refl, inr refl)
attempts-reads (suc n) r buf m [] = ([], refl, inl (refl, refl))
attempts-reads (suc n) r buf m (true ∷ faults) = attempts-reads n r buf m faults
attempts-reads (suc n) r buf m (false ∷ faults) = (faults, refl, inl (refl, refl))

-- A call for one sector of a disk with a known geometry, whatever its outcomes are.
pub disk_read_sectors-outcome :
    (drive lba segment : ℕ) (bufs : Buffers) (m : Machine)
    → IsGeometry m.disk_spt m.disk_nheads
    → (ret : ℕ) × (buf : Sector) × (later : List Bool) × (disk_read_sectors drive lba 1 segment bufs
          m
        ≡ some ((ret, update bufs segment buf), record m { faults = later }))
      × ((ret ≡ 0) × (buf ≡ sector m drive lba) ⊎ (ret ≡ 1))
unfolding disk_read_sectors disk_chs_op chs_loop sector disk_ensure_geometry
disk_read_sectors-outcome drive lba segment bufs m g =
    let e : u16 (u16 lba + 0) ≡ u16 lba = omega arith in
    let r = pack m.disk_spt m.disk_nheads drive (u16 lba) in
    let ((ret, buf), m') = attempts 3 false r (bufs segment) m in
    let (later, same, o) = attempts-reads 3 r (bufs segment) m m.faults in
    (ret, buf, later, rw e (ground (arith, g.some_sectors, g.some_heads, same, o)), o)

-- Without faults a call for one sector reads the sector of its number, or writes it.
pub disk_read_sectors_one :
    (drive lba segment : ℕ) (bufs : Buffers) {m : Machine}
    → IsReady m
    → disk_read_sectors drive lba 1 segment bufs m
      ≡ some ((0, update bufs segment (sector m drive lba)), m)
unfolding disk_read_sectors disk_chs_op chs_loop transfer sector
disk_read_sectors_one drive lba segment bufs {m} k =
    let e : u16 (u16 lba + 0) ≡ u16 lba = omega arith in
    let r = pack m.disk_spt m.disk_nheads drive (u16 lba) in
    rw (ensure_known drive k, e)
      (ground (arith, attempts_ready 2 false r (bufs segment) m k.no_faults))

pub disk_write_sectors_one :
    (drive lba segment : ℕ) (bufs : Buffers) {m : Machine}
    → IsReady m
    → disk_write_sectors drive lba 1 segment bufs m
      ≡ some ((0, update bufs segment (bufs segment)), store m drive lba (bufs segment))
unfolding disk_write_sectors disk_chs_op chs_loop transfer store
disk_write_sectors_one drive lba segment bufs {m} k =
    let e : u16 (u16 lba + 0) ≡ u16 lba = omega arith in
    let r = pack m.disk_spt m.disk_nheads drive (u16 lba) in
    rw (ensure_known drive k, e)
      (ground (arith, attempts_ready 2 true r (bufs segment) m k.no_faults))

pub store-IsReady :
    {m : Machine} (drive lba : ℕ) (buf : Sector) → IsReady m → IsReady (store m drive lba buf)
unfolding store
store-IsReady drive lba buf k = record {
  no_faults = k.no_faults;
  geometry_known = k.geometry_known;
}

pub sector-store_self :
    (m : Machine) (drive lba : ℕ) (buf : Sector) → sector (store m drive lba buf) drive lba ≡ buf
unfolding sector store
sector-store_self m drive lba buf = ground arith

-- A write changes no other sector of the drive.
pub sector-store_ne :
    {m : Machine} (drive lba lba' : ℕ) (buf : Sector)
    → IsReady m
    → drive < 256
    → lba < 65536
    → lba' < 65536
    → lba ≢ lba'
    → sector (store m drive lba buf) drive lba' ≡ sector m drive lba'
unfolding sector store
sector-store_ne {m} drive lba lba' buf k hd hl hl' ne = ground (arith, different)
  where
    different :
        pack m.disk_spt m.disk_nheads drive (u16 lba)
        ≢ pack m.disk_spt m.disk_nheads drive (u16 lba')
    different e = ne (
        omega (
          arith,
          pack_injective m.disk_spt m.disk_nheads drive (u16 lba) (u16 lba') k.geometry_known hd
              (omega arith) (omega arith) e,
        ))

-- Both in one equation.
pub sector-store :
    {m : Machine} (drive lba lba' : ℕ) (buf : Sector)
    → IsReady m
    → drive < 256
    → lba < 65536
    → lba' < 65536
    → sector (store m drive lba buf) drive lba' ≡ (if lba == lba' then buf else sector m drive lba')
sector-store {m} drive lba lba' buf k hd hl hl' = elim (Bool-cases (lba == lba')) [
  | inl e ↦ rw e (rw (← ==→eq lba lba' e) (sector-store_self m drive lba buf))
  | inr ne ↦ rw ne (sector-store_ne drive lba lba' buf k hd hl hl' (==→ne lba lba' ne))
]

-- On a disk without faults a one-sector read after a one-sector write returns the written bytes,
-- if the two sector numbers are equal, and otherwise the sector that stood there before. Both
-- numbers are in reach of the driver.
pub disk_read_sectors-disk_write_sectors :
    {m : Machine} (drive lba lba' segment segment' : ℕ) (bufs bufs' : Buffers)
    → IsReady m
    → drive < 256
    → lba < 65536
    → lba' < 65536
    → (do
      disk_write_sectors drive lba 1 segment bufs
      disk_read_sectors drive lba' 1 segment' bufs')
        m
      ≡ some (
        (0, update bufs' segment' (if lba == lba' then bufs segment else sector m drive lba')),
        store m drive lba (bufs segment),
      )
disk_read_sectors-disk_write_sectors {m} drive lba lba' segment segment' bufs bufs' k hd hl hl' =
    rw (disk_write_sectors_one drive lba segment bufs k, ◌>>◌)
      (rw
        (disk_read_sectors_one drive lba' segment' bufs' (store-IsReady drive lba (bufs segment) k))
        (rw (sector-store drive lba lba' (bufs segment) k hd hl hl')))
