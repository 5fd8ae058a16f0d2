-- ===== src/Tests/KernelRuns.antt =====
-- Runs of the system calls on processes, open files and the console (src/kernel).
use harvac.Prelude.{
  ℕ, ◌+◌, ◌-◌, ◌*◌, ◌≡◌, inr, refl, arith, ◌∷◌, [], ◌++◌, List, codes, get_or, length, some, false,
  true,
}
use harvac.Machine.{Machine}
use harvac.Kernel.Process.{
  Processes, place_child, sys_alloc, exec_save_parent_ctx, return_to_parent, proc_paras,
}
use harvac.Kernel.Process.Blocks.{
  Block, programs, AtMost, here, next, executes, allocates, IsSafe, Reach-IsSafe,
}
use harvac.Kernel.Process.Nesting.{
  depth, idle, asks, return_to_parent-restores, return_to_parent-full,
}
use harvac.Kernel.System.{Kernel, OpenFile, of_serial, user_string}
use harvac.Kernel.Files.{sys_open, is_device_path, first_free, eq_folded, open_device}
use harvac.Kernel.Files.Slots.{Outcome, Opened, sys_open-Takes}
use harvac.Kernel.Exec.{put_args}
use harvac.Kernel.Exec.Arguments.{put_args-outside}
use harvac.Kernel.Console.{Line, edit_line}
use harvac.Kernel.Console.Typing.{typed, Stored, edit_line-typed}
use harvac.Tests.Sample.{sample_machine, sample_fs}

-- 640 KB of memory
abbrev sample_ram : ℕ
sample_ram = 0xa000

abbrev shell_only : Processes
shell_only = record { next_seg = 0x3600; pctx = [] }

abbrev with_child : Processes
with_child = record { next_seg = 0x3c00; pctx = 0x3600 ∷ [] }

abbrev child_grown : Processes
child_grown = record { next_seg = 0x3c10; pctx = 0x3600 ∷ [] }

abbrev two_blocks : List Block
two_blocks =
    record { start = 0x3c00; size = 16; program = false }
    ∷ record { start = 0x3600; size = proc_paras; program = true }
    ∷ []

starts : place_child sample_ram shell_only ≡ (0, with_child)
unfolding place_child exec_save_parent_ctx
starts = refl

grows : sys_alloc sample_ram 16 with_child ≡ (0x3c00, child_grown)
unfolding sys_alloc
grows = refl

Reach-IsSafe_example : IsSafe sample_ram child_grown two_blocks
unfolding AtMost programs
Reach-IsSafe_example =
    Reach-IsSafe {start = 0x3600} (omega arith) (omega arith) (omega arith)
      (next (next here (executes starts)) (allocates 16 grows (omega arith)))
      ((tt, omega arith), omega arith)

return_to_parent-restores_example : return_to_parent child_grown ≡ shell_only
unfolding depth
return_to_parent-restores_example =
    return_to_parent-restores (asks 16 idle grows) (omega arith) starts

-- Eight programs above one another.
abbrev full_stack : Processes
full_stack = record { next_seg = 0x6600; pctx = 0x6000 ∷ 8 ∷ 7 ∷ 6 ∷ 5 ∷ 4 ∷ 3 ∷ 2 ∷ [] }

abbrev unrecorded : Processes
unrecorded = record { next_seg = 0x6c00; pctx = full_stack.pctx }

starts_full : place_child sample_ram full_stack ≡ (0, unrecorded)
unfolding place_child exec_save_parent_ctx
starts_full = refl

ends_full :
    return_to_parent unrecorded
    ≡ record { next_seg = 0x6000; pctx = 8 ∷ 7 ∷ 6 ∷ 5 ∷ 4 ∷ 3 ∷ 2 ∷ [] }
unfolding depth
ends_full = return_to_parent-full full_stack refl (omega arith) starts_full idle (omega arith)

edit_line-typed_example :
    let start : Line = record { count = 0; memory = λ a. 0; sent = [] } in
    let keys : List ℕ = b'a' ∷ 8 ∷ b'b' ∷ [] in
    (l : Line) × (edit_line (keys ++ 13 ∷ []) 8 16 256 start ≡ some (l, []))
    × (l.memory (16 * 16 + 256 + length (typed 8 keys [])) ≡ 0)
    × Stored (λ a. 0) (16 * 16 + 256) 8 l (typed 8 keys [])
edit_line-typed_example =
    edit_line-typed (λ a. 0) [] 16 256 8 (b'a' ∷ 8 ∷ b'b' ∷ []) [] (omega arith) (omega arith)
      ((omega arith, refl), ((omega arith, refl), ((omega arith, refl), tt)))

-- A kernel with one mount, on an empty volume, and no entry in use. The first was a device's.
abbrev pub empty_machine : Machine
empty_machine = record sample_machine { platter = λ cx dx o. 0 }

abbrev unused_entry : OpenFile
unused_entry = record {
  used = false;
  kind = of_serial;
  file = record {
    fs = sample_fs;
    first_cluster = 0;
    file_size = 0;
    position = 0;
    current_cluster = 0;
    cluster_pos = 0;
    dir_sector_lba = 0;
    dir_entry_offset = 0;
  };
}

-- A path at the address of segment 16 and offset 256.
abbrev pub kernel_with : List ℕ → Kernel
kernel_with path = record {
  open_files = λ i. unused_entry;
  g_redirect = 0xffff;
  g_stdin = 0xffff;
  root_fs = sample_fs;
  mounts =
      record {
        used = true;
        drive = 0x80;
        partition_lba = 63;
        mount_point = codes "/";
        fs = sample_fs;
      }
      ∷ [];
  cwd = codes "/";
  memory = λ a. get_or path (a - 512) 0;
  keys = [];
  serial_in = [];
  serial_out = [];
}

opened :
    (k' : Kernel) × (sys_open 0 16 256 (kernel_with (codes "con")) empty_machine
      ≡ some ((0, k'), empty_machine))
unfolding sys_open first_free is_device_path eq_folded user_string open_device
opened = (_, refl)

taken_by_open :
    Outcome
      (Opened (is_device_path (user_string 15 (kernel_with (codes "con")).memory 16 256)))
      (kernel_with (codes "con"))
      0
      opened.0
taken_by_open =
    sys_open-Takes 0 16 256 (kernel_with (codes "con")) empty_machine empty_machine 0 opened.0
      opened.1

put_args-outside_example : put_args (λ a. 1) 16 256 32 (32 * 16 + 0x100) ≡ 1
put_args-outside_example = put_args-outside (λ a. 1) 16 256 32 (32 * 16 + 0x100) (inr (omega arith))
