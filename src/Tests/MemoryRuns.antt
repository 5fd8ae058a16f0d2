-- ===== src/Tests/MemoryRuns.antt =====
-- Runs of the heap of src/kernel/memory.c.
use harvac.Prelude.{ℕ, ◌+◌, ◌*◌, ◌≡◌, refl, arith, true, false, ◌==◌, if◌then◌else◌, u16}
use harvac.Kernel.Memory.{Heap, mem_alloc, mem_free, is_free, alloc_loop, heap_start, test_bit}
use harvac.Kernel.Memory.Pages.{mem_free_lem, mem_free-mem_alloc}

-- A heap whose first three pages are in use.
abbrev three_used : Heap
three_used = record { bitmap = λ i. if i == 0 then 0xf8 else 0xff; pages_used = 3 }

fourth_page : (mem_alloc three_used).0 ≡ 0x21030
unfolding mem_alloc alloc_loop test_bit
fourth_page = refl

mem_free_lem_at_run :
    (is_free three_used 1 ≡ true → mem_free (heap_start + 1 * 16) three_used ≡ three_used)
    × (is_free three_used 1 ≡ false
        → ((j : ℕ)
            → is_free (mem_free (heap_start + 1 * 16) three_used) j
              ≡ (if 1 == j then true else is_free three_used j))
          × ((mem_free (heap_start + 1 * 16) three_used).pages_used ≡ u16 (3 + 65535)))
mem_free_lem_at_run = mem_free_lem three_used 1 (omega arith)

mem_free-mem_alloc_at_run :
    let (page, h') = mem_alloc three_used in
    ((j : ℕ) → is_free (mem_free page h') j ≡ is_free three_used j)
    × ((mem_free page h').pages_used ≡ 3)
unfolding test_bit
mem_free-mem_alloc_at_run = mem_free-mem_alloc three_used 5 (omega arith) refl (omega arith)
