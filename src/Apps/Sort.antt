-- ===== src/Apps/Sort.antt =====
-- The utility `sort`: `sort_fd` of apps/sort.c.
pub mod Order
use harvac.Prelude.{
  ℕ, zero, suc, ◌+◌, ◌-◌, Bool, ltb, leb, if◌then◌else◌, List, [], ◌∷◌, Option, none, some, length,
}
use harvac.Posix.Stdio.{getline_fd}
use harvac.Posix.Text.{is_positive, strcmp}

abbrev pub sort_max_lines : ℕ
sort_max_lines = 256

abbrev pub sort_bufsz : ℕ
sort_bufsz = 9216

-- The lines, with the number of lines that there is room for, and the bytes in use.
unfoldable pub read_lines : (left dpos : ℕ) → List ℕ → List (List ℕ)
read_lines zero dpos input = []
read_lines (suc left) dpos input =
    let avail = sort_bufsz - dpos - 1 in
    elim (if leb (sort_bufsz - 1) dpos
      then none
      else getline_fd (if ltb avail 128 then avail else 128) input) [
        | none ↦ []
        | some (line, rest) ↦ line ∷ read_lines left (dpos + length line + 1) rest
      ]

-- The inner loop: `tmp` goes in among the lines before it, the last of which stands first.
unfoldable pub place : (tmp : List ℕ) (before : List (List ℕ)) → List (List ℕ)
place tmp [] = tmp ∷ []
place tmp (x ∷ before) =
    let shifted = place tmp before in
    if is_positive (strcmp x tmp) then x ∷ shifted else tmp ∷ x ∷ before

-- The outer loop.
unfoldable pub sort_loop : (before lines : List (List ℕ)) → List (List ℕ)
sort_loop before [] = before
sort_loop before (tmp ∷ lines) = sort_loop (place tmp before) lines

-- The lines from the first on, for the output.
unfoldable pub in_order : (before out : List (List ℕ)) → List (List ℕ)
in_order [] out = out
in_order (x ∷ before) out = in_order before (x ∷ out)

unfoldable pub sort_lines : List (List ℕ) → List (List ℕ)
sort_lines lines = in_order (sort_loop [] lines) []

-- The lines that are printed.
unfoldable pub sort_fd : List ℕ → List (List ℕ)
sort_fd input = sort_lines (read_lines sort_max_lines 0 input)
