-- ===== src/Kernel/Memory.antt =====
-- The heap of src/kernel/memory.c: a bitmap with one bit for each page of 16 bytes.
pub mod Bits
pub mod Pages
use harvac.Prelude.{
  ℕ, zero, suc, ◌+◌, ◌-◌, ◌*◌, ◌/◌, ◌%◌, Bool, true, false, ◌||◌, ltb, leb, ◌==◌, if◌then◌else◌,
  u16, u32, Bytes, update,
}

-- `b & (1 << k)`
unfoldable pub test_bit : (b k : ℕ) → Bool
test_bit b zero = b % 2 == 1
test_bit b (suc k) = test_bit (b / 2) k

-- `b & ~(1 << k)`
unfoldable pub clear_bit : (b k : ℕ) → ℕ
clear_bit b zero = b - b % 2
clear_bit b (suc k) = b % 2 + 2 * clear_bit (b / 2) k

-- `b | (1 << k)`
unfoldable pub set_bit : (b k : ℕ) → ℕ
set_bit b zero = b - b % 2 + 1
set_bit b (suc k) = b % 2 + 2 * set_bit (b / 2) k

-- The statics of the allocator. A bit that is set is a free page.
pub record Heap : Type 0 where
  pub bitmap : Bytes
  pub pages_used : ℕ

abbrev pub heap_start : ℕ
heap_start = 0x21000

abbrev pub num_pages : ℕ
num_pages = 4096

abbrev pub memory_init : Heap
memory_init = record { bitmap = λ i. 0xff; pages_used = 0 }

-- Whether the bit of a page is set.
abbrev pub is_free : Heap → ℕ → Bool
is_free h i = test_bit (h.bitmap (i / 8)) (i % 8)

-- The loop of `mem_alloc`, over the pages that are left.
unfoldable pub alloc_loop : (left i : ℕ) → Heap → ℕ × Heap
alloc_loop zero i h = (0, h)
alloc_loop (suc left) i h =
    let rest = alloc_loop left (i + 1) h in
    let taken : Heap = record {
      bitmap = update h.bitmap (i / 8) (clear_bit (h.bitmap (i / 8)) (i % 8));
      pages_used = u16 (h.pages_used + 1);
    } in
    if is_free h i then (heap_start + i * 16, taken) else rest

unfoldable pub mem_alloc : Heap → ℕ × Heap
mem_alloc h = alloc_loop num_pages 0 h

unfoldable pub mem_free : (page : ℕ) → Heap → Heap
mem_free page h =
    let i = u16 ((page - heap_start) / 16) in
    let released : Heap = record {
      bitmap = update h.bitmap (i / 8) (set_bit (h.bitmap (i / 8)) (i % 8));
      pages_used = u16 (h.pages_used + 65535);
    } in
    if page == 0 || ltb page heap_start || leb num_pages i || is_free h i then h else released
