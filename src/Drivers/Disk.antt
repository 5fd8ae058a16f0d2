-- ===== src/Drivers/Disk.antt =====
-- The disk driver, src/drivers/disk.c: INT 13h transfers by cylinder, head and sector, with three
-- attempts for each sector. The assembly stubs that issue INT 13h are the state's platter, geometry
-- and outcomes.
pub mod Address
pub mod Transfer
use harvac.Prelude.{
  ℕ, zero, suc, ◌+◌, ◌*◌, ◌/◌, ◌%◌, Bool, true, false, List, [], ◌∷◌, Option, none, some, ◌==◌,
  if◌then◌else◌, u8, u16, update,
}
use harvac.Machine.{Machine, Sector, M, ◌>>=◌, ◌>>◌, return, stuck, modify, gets}

abbrev pub disk_retries : ℕ
disk_retries = 3

-- The static function of that name.
unfoldable pub disk_ensure_geometry : ℕ → Machine → Machine
disk_ensure_geometry drive m =
    let r = m.geometry drive in
    let spt = u8 (r % 64) in
    let nheads = u8 (u8 (r / 256) + 1) in
    if m.disk_spt == 0
    then (if spt == 0
        then record m { disk_spt = 63; disk_nheads = 16 }
        else record m { disk_spt = spt; disk_nheads = nheads })
    else m

-- The register pair of a transfer. The fields of CX do not overlap, so `|` is a sum.
pub record Registers : Type 0 where
  pub cx : ℕ
  pub dx : ℕ

unfoldable pub pack : (spt nheads drive l : ℕ) → Registers
pack spt nheads drive l =
    let track = l / spt in
    let sec = l % spt + 1 in
    let head = track % nheads in
    let cyl = track / nheads in
    record { cx = u16 (cyl * 256) + cyl / 256 % 4 * 64 + sec; dx = u16 (head * 256) + drive }

-- A transfer that succeeds.
unfoldable pub transfer : Bool → Registers → Sector → Machine → (ℕ × Sector) × Machine
transfer true r buf m =
    ((0, buf), record m { platter = update m.platter r.cx (update (m.platter r.cx) r.dx buf) })
transfer false r buf m = ((0, m.platter r.cx r.dx), m)

-- One INT 13h call: its outcome is taken from the state, and a failed call moves nothing.
unfoldable pub chs_int : Bool → Registers → Sector → Machine → (ℕ × Sector) × Machine
unfolding transfer
chs_int write r buf m = elim m.faults [
  | [] ↦ transfer write r buf m
  | outcome ∷ rest ↦
      let m' = record m { faults = rest } in
      if outcome then ((1, buf), m') else transfer write r buf m'
]

-- The retry loop, with the attempts that are left; `disk_reset_int` changes nothing that is read.
unfoldable pub attempts : ℕ → Bool → Registers → Sector → Machine → (ℕ × Sector) × Machine
attempts zero write r buf m = ((1, buf), m)
attempts (suc n) write r buf m =
    let ((ret, buf'), m') = chs_int write r buf m in
    let again = attempts n write r buf' m' in if ret == 0 then ((0, buf'), m') else again

-- The buffers of a transfer, by segment: the offset is one for all of them.
abbrev pub Buffers : Type 0
Buffers = ℕ → Sector

-- The loop of `disk_chs_op`, with the sectors that are left. With no heads the division by
-- `disk_nheads` faults.
unfoldable pub chs_loop :
    (count i : ℕ) (write : Bool) (drive lba segment : ℕ) → Buffers → M (ℕ × Buffers)
chs_loop zero i write drive lba segment bufs m = some ((0, bufs), m)
chs_loop (suc count) i write drive lba segment bufs m =
    let r = pack m.disk_spt m.disk_nheads drive (u16 (u16 lba + i)) in
    let ((ret, buf), m') = attempts disk_retries write r (bufs segment) m in
    let bufs' = update bufs segment buf in
    let rest = chs_loop count (i + 1) write drive lba (u16 (segment + 32)) bufs' m' in
    if m.disk_nheads == 0 then none else if ret == 0 then rest else some ((1, bufs'), m')

unfoldable pub disk_chs_op :
    (write : Bool) (drive lba count segment : ℕ) → Buffers → M (ℕ × Buffers)
disk_chs_op write drive lba count segment bufs m =
    chs_loop count 0 write drive lba segment bufs (disk_ensure_geometry drive m)

unfoldable pub disk_read_sectors : (drive lba count segment : ℕ) → Buffers → M (ℕ × Buffers)
disk_read_sectors = disk_chs_op false

unfoldable pub disk_write_sectors : (drive lba count segment : ℕ) → Buffers → M (ℕ × Buffers)
disk_write_sectors = disk_chs_op true

-- The sectors and the heads that it reports.
unfoldable pub disk_get_params : ℕ → M (ℕ × ℕ)
unfolding disk_ensure_geometry
disk_get_params drive m =
    let m' = disk_ensure_geometry drive m in some ((m'.disk_spt, m'.disk_nheads), m')
