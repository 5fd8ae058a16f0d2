-- ===== src/Kernel/Exec/Arguments.antt =====
-- The arguments of a program (SYSCALL_EXEC, src/kernel/syscalls.c) stay in their area.
use harvac.Prelude.{
  ℕ, zero, suc, ◌+◌, ◌*◌, ◌≤◌, ◌<◌, ◌≡◌, ◌∙◌, ◌⊎◌, inl, inr, arith, ◌==◌, Bool-cases, u16, Bytes,
}
use harvac.Kernel.System.{write_far_b, read_far_b}
use harvac.Kernel.Exec.{copy_args, put_args}

write_far_b-outside :
    (memory : Bytes) (seg off value last a : ℕ)
    → off ≤ last
    → last < 65536
    → (a < seg * 16 + off) ⊎ (seg * 16 + last < a)
    → write_far_b memory seg off value a ≡ memory a
write_far_b-outside memory seg off value last a h l o =
    let place : u16 off ≡ off = omega arith in rw place (ground arith)

copy_args-outside :
    (left : ℕ) (memory : Bytes) (caller_ds src child_seg dst a : ℕ)
    → dst + left < 65536
    → (a < child_seg * 16 + dst) ⊎ (child_seg * 16 + (dst + left) < a)
    → copy_args left memory caller_ds src child_seg dst a ≡ memory a
unfolding copy_args
copy_args-outside zero memory caller_ds src child_seg dst a l o =
    write_far_b-outside memory child_seg dst 0 dst a (omega arith) (omega arith) (ground arith)
copy_args-outside (suc left) memory caller_ds src child_seg dst a l o =
    let c = read_far_b memory caller_ds src in
    let copied = write_far_b memory child_seg dst c in
    let here : copied a ≡ memory a =
      write_far_b-outside memory child_seg dst c (dst + suc left) a (omega arith) l o in
    elim (Bool-cases (c == 0)) [
      | inl t ↦ rw t (
          write_far_b-outside copied child_seg (dst + 1) 0 (dst + suc left) a (omega arith) l
            (ground arith)
          ∙ here)
      | inr f ↦ rw f (
          copy_args-outside left copied caller_ds (src + 1) child_seg (dst + 1) a (omega arith)
            (ground arith)
          ∙ here)
    ]

-- Whatever the caller's arguments are, no byte of the memory outside of the argument area of the
-- child, from offset 0x82 to 0xff of its segment, changes: the program, which starts at offset 0x100,
-- stays as it was loaded.
pub put_args-outside :
    (memory : Bytes) (caller_ds cx child_seg a : ℕ)
    → (a < child_seg * 16 + 0x82) ⊎ (child_seg * 16 + 0x100 ≤ a)
    → put_args memory caller_ds cx child_seg a ≡ memory a
unfolding put_args
put_args-outside memory caller_ds cx child_seg a o = elim (Bool-cases (cx == 0)) [
  | inl t ↦ rw t (
      write_far_b-outside memory child_seg 0x82 0 0xff a (omega arith) (omega arith) (ground arith))
  | inr f ↦
      rw f (copy_args-outside 125 memory caller_ds cx child_seg 0x82 a (omega arith) (ground arith))
]
