-- ===== src/Kernel/Process.antt =====
-- The memory of processes: the cases SYSCALL_ALLOC, SYSCALL_EXEC (its part that places the child),
-- SYSCALL_EXIT, SYSCALL_GET_PID and SYSCALL_FREE of src/kernel/syscalls.c, and the stack of parents'
-- contexts and `g_next_seg` of src/kernel/syscall.asm. Segments and sizes are in paragraphs.
pub mod Blocks
pub mod Nesting
use harvac.Prelude.{
  ℕ, zero, suc, ◌+◌, ◌-◌, Bool, ◌&&◌, ◌||◌, not, leb, ltb, ◌==◌, if◌then◌else◌, List, [], ◌∷◌,
  length, u16,
}
use harvac.Errors.{err_no_memory}

abbrev pub proc_paras : ℕ
proc_paras = 0x600

abbrev pub pctx_max : ℕ
pctx_max = 8

-- `g_next_seg`, and the field `child_seg` of the entries of `pctx_stack`, the last one first
pub record Processes : Type 0 where
  pub next_seg : ℕ
  pub pctx : List ℕ

-- The tests for a block that does not fit.
abbrev pub alloc_refused : (ram_paras bx seg : ℕ) → Bool
alloc_refused ram_paras bx seg =
    not (ram_paras == 0) && (ltb ram_paras bx || ltb (u16 (ram_paras + 65536 - bx)) seg)

abbrev pub child_refused : (ram_paras child_seg : ℕ) → Bool
child_refused ram_paras child_seg =
    leb proc_paras ram_paras && ltb (u16 (ram_paras + 65536 - proc_paras)) child_seg

-- `ram_paras` is the word of the BIOS with the size of the memory, in paragraphs.
unfoldable pub sys_alloc : (ram_paras bx : ℕ) → Processes → ℕ × Processes
sys_alloc ram_paras bx p =
    let seg = p.next_seg in
    if alloc_refused ram_paras bx seg
    then (0, p)
    else (seg, record { next_seg = u16 (seg + bx); pctx = p.pctx })

unfoldable pub sys_free : Processes → ℕ × Processes
sys_free p = (0, p)

-- A full stack keeps its entries, and the child runs all the same.
unfoldable pub exec_save_parent_ctx : (child_seg : ℕ) → List ℕ → List ℕ
exec_save_parent_ctx child_seg pctx = if leb pctx_max (length pctx) then pctx else child_seg ∷ pctx

-- The part of SYSCALL_EXEC from `load_and_exec` on: the status, and the processes with the child.
unfoldable pub place_child : (ram_paras : ℕ) → Processes → ℕ × Processes
place_child ram_paras p =
    let child_seg = p.next_seg in
    if child_refused ram_paras child_seg then (err_no_memory, p) else (
      0,
      record {
        next_seg = u16 (child_seg + proc_paras);
        pctx = exec_save_parent_ctx child_seg p.pctx;
      },
    )

-- Without a parent the shell is loaded again.
unfoldable pub return_to_parent : Processes → Processes
return_to_parent p = elim p.pctx [
  | [] ↦ record { next_seg = 0x3000 + proc_paras; pctx = [] }
  | child_seg ∷ pctx ↦ record { next_seg = child_seg; pctx = pctx }
]

unfoldable pub sys_get_pid : Processes → ℕ
sys_get_pid p = if ltb proc_paras p.next_seg then p.next_seg - proc_paras else p.next_seg
