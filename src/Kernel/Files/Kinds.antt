-- ===== src/Kernel/Files/Kinds.antt =====
-- The kind of an entry that SYSCALL_CREATE of src/kernel/syscalls.c takes.
use harvac.Prelude.{ℕ, ◌<◌, ◌≡◌, refl, ◌∙◌, arith, inl, inr, true, ltb, lt→ltb, some}
use harvac.Machine.{Machine}
use harvac.Kernel.System.{of_serial, max_open_files, Kernel, copy_in}
use harvac.Kernel.Files.{sys_create, sys_write, prepend, is_open}
use harvac.Kernel.Files.Slots.{sys_create-Takes}

sys_write-device :
    (fuel caller_ds bx cx dx : ℕ) (k : Kernel) (m : Machine)
    → is_open k bx ≡ true
    → (k.open_files bx).kind ≡ of_serial
    → sys_write fuel caller_ds bx cx dx k m
      ≡ some (
        (dx, record k { serial_out = prepend (copy_in dx k.memory caller_ds cx) k.serial_out }),
        m,
      )
unfolding sys_write
sys_write-device fuel caller_ds bx cx dx k m u s = rw (u, s) refl

-- Where SYSCALL_CREATE returns a handle below 16 whose entry was last used for a device: a write to
-- that handle, of any bytes, goes to the serial port, and the disk does not change.
pub create-write_device :
    (fuel caller_ds bx : ℕ) (k : Kernel) (m m' : Machine) (h : ℕ) (k' : Kernel)
    → sys_create fuel caller_ds bx k m ≡ some ((h, k'), m')
    → h < max_open_files
    → (k.open_files h).kind ≡ of_serial
    → (cx dx : ℕ)
    → sys_write fuel caller_ds h cx dx k' m'
      ≡ some (
        (dx, record k' { serial_out = prepend (copy_in dx k'.memory caller_ds cx) k'.serial_out }),
        m',
      )
create-write_device fuel caller_ds bx k m m' h k' e l s cx dx =
    elim (sys_create-Takes fuel caller_ds bx k m m' h k' e) [
      | inl (low, free, used, same, others) ↦
          let t : ltb h max_open_files ≡ true = lt→ltb h max_open_files l in
          sys_write-device fuel caller_ds h cx dx k' m' (rw (t, used) refl) (same ∙ s)
      | inr (p, q) ↦ absurd (omega (arith, p))
    ]
