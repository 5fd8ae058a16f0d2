-- ===== src/Kernel/Memory/Bits.antt =====
-- The bits of the bitmap of src/kernel/memory.c after one of them is cleared or set.
use harvac.Prelude.{
  ℕ, zero, suc, ◌+◌, ◌-◌, ◌*◌, ◌/◌, ◌%◌, ◌≡◌, arith, true, false, ◌==◌, if◌then◌else◌,
}
use harvac.Kernel.Memory.{test_bit, clear_bit, set_bit}

pub test_bit-clear_bit :
    (b k j : ℕ) → test_bit (clear_bit b k) j ≡ (if k == j then false else test_bit b j)
unfolding test_bit clear_bit
test_bit-clear_bit b zero zero = ground arith
test_bit-clear_bit b zero (suc j) =
    let e : (b - b % 2) / 2 ≡ b / 2 = omega arith in rw e (ground arith)
test_bit-clear_bit b (suc k) zero =
    let e : (b % 2 + 2 * clear_bit (b / 2) k) % 2 ≡ b % 2 = omega arith in rw e (ground arith)
test_bit-clear_bit b (suc k) (suc j) =
    let e : (b % 2 + 2 * clear_bit (b / 2) k) / 2 ≡ clear_bit (b / 2) k = omega arith in
    rw e (ground (arith, test_bit-clear_bit (b / 2) k j))

pub test_bit-set_bit :
    (b k j : ℕ) → test_bit (set_bit b k) j ≡ (if k == j then true else test_bit b j)
unfolding test_bit set_bit
test_bit-set_bit b zero zero = ground arith
test_bit-set_bit b zero (suc j) =
    let e : (b - b % 2 + 1) / 2 ≡ b / 2 = omega arith in rw e (ground arith)
test_bit-set_bit b (suc k) zero =
    let e : (b % 2 + 2 * set_bit (b / 2) k) % 2 ≡ b % 2 = omega arith in rw e (ground arith)
test_bit-set_bit b (suc k) (suc j) =
    let e : (b % 2 + 2 * set_bit (b / 2) k) / 2 ≡ set_bit (b / 2) k = omega arith in
    rw e (ground (arith, test_bit-set_bit (b / 2) k j))
