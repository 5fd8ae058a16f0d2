-- ===== src/Apps/Tail.antt =====
-- The utility `tail`: the ring of the last lines in apps/tail.c.
pub mod Last
use harvac.Prelude.{
  ℕ, zero, suc, ◌+◌, ◌-◌, ◌%◌, Bool, true, false, ltb, ◌==◌, if◌then◌else◌, List, [], ◌∷◌, take,
}

-- `ring`, `ring_count`, `ring_head` and `ring_full`
pub record Ring : Type 0 where
  pub ring : ℕ → List ℕ
  pub ring_count : ℕ
  pub ring_head : ℕ
  pub ring_full : Bool

abbrev pub tail_width : ℕ
tail_width = 128

-- One line at a place of the ring, cut to its width.
abbrev pub put_line : (ℕ → List ℕ) → (slot : ℕ) → List ℕ → ℕ → List ℕ
put_line ring slot line i = if slot == i then take (tail_width - 1) line else ring i

unfoldable pub ring_push : (line : List ℕ) (n : ℕ) → Ring → Ring
ring_push line n r =
    if ltb r.ring_count n
    then record r { ring = put_line r.ring r.ring_count line; ring_count = r.ring_count + 1 }
    else record r {
      ring = put_line r.ring r.ring_head line;
      ring_head = if ltb (r.ring_head + 1) n then r.ring_head + 1 else 0;
      ring_full = true;
    }

-- The loop of `ring_flush`, from the `i`-th line on.
unfoldable pub flush_loop : (left i n : ℕ) → Ring → List (List ℕ)
flush_loop zero i n r = []
flush_loop (suc left) i n r = r.ring ((r.ring_head + i) % n) ∷ flush_loop left (i + 1) n r

unfoldable pub ring_flush : (n : ℕ) → Ring → List (List ℕ)
ring_flush n r = flush_loop (if r.ring_full then n else r.ring_count) 0 n r

-- The loop of `tail_fd`, over the lines that are read.
unfoldable pub push_all : (n : ℕ) → List (List ℕ) → Ring → Ring
push_all n [] r = r
push_all n (line ∷ lines) r = push_all n lines (ring_push line n r)

-- What is printed of the lines of a file, for at most `TAIL_MAX` lines; `ring` holds what the last file
-- left.
unfoldable pub tail_lines : (n : ℕ) (ring : ℕ → List ℕ) (lines : List (List ℕ)) → List (List ℕ)
tail_lines n ring lines =
    ring_flush n
      (push_all n lines (record { ring = ring; ring_count = 0; ring_head = 0; ring_full = false }))

abbrev pub tail_max : ℕ
tail_max = 100

unfoldable pub tail_fd : (n : ℕ) (ring : ℕ → List ℕ) (lines : List (List ℕ)) → List (List ℕ)
tail_fd n ring lines = tail_lines (if ltb tail_max n then tail_max else n) ring lines
