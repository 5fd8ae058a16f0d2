-- ===== src/Machine.antt =====
-- The state of the kernel that the disk driver and the file system share, and its monad.
-- The platter, the reported geometry and the outcomes of the BIOS calls stand for the hardware and
-- the BIOS, which are not code of the repository: every function takes them from the state.
-- Real code: the statics `disk_spt`, `disk_nheads` (src/drivers/disk.c) and `sec_buf`
-- (src/drivers/fat16.c).
use harvac.Prelude.{ℕ, Bool, List, Option, none, some, Bytes}

-- One sector of 512 bytes.
abbrev pub Sector : Type 0
Sector = Bytes

pub record Machine : Type 0 where
  -- The sector at the registers CX and DX of an INT 13h transfer.
  pub platter : ℕ → ℕ → Sector
  -- What INT 13h AH=08h reports for a drive.
  pub geometry : ℕ → ℕ
  -- The outcomes of the next transfers, true for a failed one. The later ones succeed.
  pub faults : List Bool
  pub disk_spt : ℕ
  pub disk_nheads : ℕ
  pub sec_buf : Sector

-- A run: `none` is a loop that outlasts its fuel, or a division by zero.
abbrev pub M : Type 0 → Type 0
M A = Machine → Option (A × Machine)

infixl 5 ◌>>=◌ ◌>>◌
abbrev pub ◌>>=◌ : {A B : Type 0} → M A → (A → M B) → M B
◌>>=◌ m f s = elim (m s) [ none ↦ none | some (a, s') ↦ f a s' ]

abbrev pub ◌>>◌ : {A B : Type 0} → M A → M B → M B
◌>>◌ m k s = elim (m s) [ none ↦ none | some (_, s') ↦ k s' ]

abbrev pub return : {A : Type 0} → A → M A
return a s = some (a, s)

-- A run that does not end.
abbrev pub stuck : {A : Type 0} → M A
stuck s = none

abbrev pub modify : (Machine → Machine) → M (Unit {0})
modify f s = some (tt, f s)

abbrev pub gets : {A : Type 0} → (Machine → A) → M A
gets f s = some (f s, s)
