-- ===== src/Kernel/Memory/Pages.antt =====
-- What allocating and freeing do to the set of free pages (src/kernel/memory.c).
use harvac.Prelude.{
  ℕ, zero, suc, ◌+◌, ◌-◌, ◌*◌, ◌/◌, ◌%◌, ◌<◌, ◌≡◌, ◌≢◌, ◌∙◌, sym, refl, arith, Bool, true, false,
  ◌==◌, ◌||◌, ltb, leb, if◌then◌else◌, u16, Bytes, update, Bool-cases, inl, inr, ==→eq, ==→ne,
}
use harvac.Kernel.Memory.{
  Heap, test_bit, clear_bit, set_bit, is_free, alloc_loop, mem_alloc, mem_free, heap_start,
  num_pages,
}
use harvac.Kernel.Memory.Bits.{test_bit-clear_bit, test_bit-set_bit}

-- The bits of the pages after the bit of one page is changed.
test_bit-update :
    (bitmap : Bytes) (change : ℕ → ℕ → ℕ) (result : Bool) (i j : ℕ)
    → ((b k l : ℕ) → test_bit (change b k) l ≡ (if k == l then result else test_bit b l))
    → test_bit (update bitmap (i / 8) (change (bitmap (i / 8)) (i % 8)) (j / 8)) (j % 8)
      ≡ (if i == j then result else test_bit (bitmap (j / 8)) (j % 8))
test_bit-update bitmap change result i j changed = elim (Bool-cases (i / 8 == j / 8)) [
  | inl e ↦
      rw e
        (rw (==→eq _ _ e) (ground (arith, changed (bitmap (j / 8)) (i % 8) (j % 8), ==→eq _ _ e)))
  | inr e ↦ rw e (ground (arith, ==→ne _ _ e))
]

-- The first free page is taken.
pub record Takes (h : Heap) (page : ℕ) (h' : Heap) : Type 0 where
  pub index : ℕ
  pub in_heap : index < num_pages
  pub address : page ≡ heap_start + index * 16
  pub was_free : is_free h index ≡ true
  pub is_first : (j : ℕ) → j < index → is_free h j ≡ false
  pub free_pages : (j : ℕ) → is_free h' j ≡ (if index == j then false else is_free h j)
  pub counted : h'.pages_used ≡ u16 (h.pages_used + 1)

-- A page is taken, or none is free.
pub data Allocates (h : Heap) : ℕ × Heap → Type 0 where
  takes : (page : ℕ) (h' : Heap) → Takes h page h' → Allocates h (page, h')
  full : ((j : ℕ) → j < num_pages → is_free h j ≡ false) → Allocates h (0, h)

alloc_loop_lem :
    (left i : ℕ) (h : Heap)
    → i + left ≡ num_pages
    → ((j : ℕ) → j < i → is_free h j ≡ false)
    → Allocates h (alloc_loop left i h)
unfolding alloc_loop
alloc_loop_lem zero i h e before = full (λ j l. before j (omega arith))
alloc_loop_lem (suc left) i h e before = elim (Bool-cases (is_free h i)) [
  | inl t ↦ rw t (
      takes (heap_start + i * 16) _ (record {
        index = i;
        in_heap = omega arith;
        address = refl;
        was_free = t;
        is_first = before;
        free_pages = λ j. test_bit-update h.bitmap clear_bit false i j test_bit-clear_bit;
        counted = refl;
      }))
  | inr f ↦ rw f (
      alloc_loop_lem left (i + 1) h (omega arith) (λ j l. elim (Bool-cases (j == i)) [
        | inl here ↦ rw (==→eq j i here) f
        | inr other ↦ before j (omega (arith, ==→ne j i other))
      ]))
]

pub mem_alloc-Allocates : (h : Heap) → Allocates h (mem_alloc h)
unfolding mem_alloc
mem_alloc-Allocates h = alloc_loop_lem num_pages 0 h (omega arith) (λ j l. absurd (omega arith))

-- Freeing a page of the heap. A page that is free already changes nothing. A page in use is free
-- then, no other page changes, and the count is one less.
pub mem_free_lem :
    (h : Heap) (i : ℕ)
    → i < num_pages
    → (is_free h i ≡ true → mem_free (heap_start + i * 16) h ≡ h)
      × (is_free h i ≡ false
          → ((j : ℕ)
              → is_free (mem_free (heap_start + i * 16) h) j
                ≡ (if i == j then true else is_free h j))
            × ((mem_free (heap_start + i * 16) h).pages_used ≡ u16 (h.pages_used + 65535)))
unfolding mem_free
mem_free_lem h i l =
    let e : u16 ((heap_start + i * 16 - heap_start) / 16) ≡ i = omega arith in
    let some : heap_start + i * 16 ≢ 0 = omega arith in
    rw e (
      λ t. ground arith,
      λ f.
          let c : (heap_start + i * 16 == 0
                || ltb (heap_start + i * 16) heap_start
                || leb num_pages i
                || is_free h i)
              ≡ false =
            rw f (ground arith) in
          rw c (λ j. test_bit-update h.bitmap set_bit true i j test_bit-set_bit, refl),
    )

-- With a page free and a count below 65536, freeing the page that an allocation returns gives back
-- the same free pages and the same count.
pub mem_free-mem_alloc :
    (h : Heap) (k : ℕ)
    → k < num_pages
    → is_free h k ≡ true
    → h.pages_used < 65536
    → let (page, h') = mem_alloc h in
      ((j : ℕ) → is_free (mem_free page h') j ≡ is_free h j)
      × ((mem_free page h').pages_used ≡ h.pages_used)
mem_free-mem_alloc h k l free small = restored (mem_alloc h) (mem_alloc-Allocates h)
  where
    restored :
        (r : ℕ × Heap)
        → Allocates h r
        → ((j : ℕ) → is_free (mem_free (r.0) (r.1)) j ≡ is_free h j)
          × ((mem_free (r.0) (r.1)).pages_used ≡ h.pages_used)
    restored (page, h') (takes p q t) =
        let now : is_free h' t.index ≡ false = t.free_pages t.index ∙ ground arith in
        let (x, y) = mem_free_lem h' t.index t.in_heap in
        let (pages, count) = y now in
        rw t.address
          (λ j. pages j ∙ rw (t.free_pages j) (back t j), count ∙ omega (arith, t.counted))
      where
        back :
            (t : Takes h page h') (j : ℕ)
            → (if t.index == j then true else (if t.index == j then false else is_free h j))
              ≡ is_free h j
        back t j = elim (Bool-cases (t.index == j)) [
          | inl e ↦ rw e (rw (← ==→eq _ _ e) (sym t.was_free))
          | inr e ↦ rw e refl
        ]
    restored (page, h') (full none_free) = absurd (cc (none_free k l, free))
