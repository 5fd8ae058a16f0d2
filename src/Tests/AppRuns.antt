-- ===== src/Tests/AppRuns.antt =====
-- Runs of the command line utilities (apps).
use harvac.Prelude.{min, ℕ, ◌-◌, ◌≡◌, ◌↔◌, arith, true, List, ◌∷◌, [], codes, length, drop, get_or}
use mathlib.Core.List.{Perm}
use harvac.Apps.Sort.{sort_lines}
use harvac.Apps.Sort.Order.{IsSorted, sort_lines-IsSorted}
use harvac.Apps.Tail.{tail_max, tail_fd}
use harvac.Apps.Tail.Last.{cut_lines, tail_fd-last}
use harvac.Apps.Cut.{cut_line}
use harvac.Apps.Cut.Fields.{joined, cut_line-joined}
use harvac.Apps.Grep.{contains}
use harvac.Apps.Grep.Contains.{StandsIn, contains-StandsIn}

abbrev three_lines : List (List ℕ)
three_lines = codes "b" ∷ codes "ab" ∷ codes "a" ∷ []

sort_lines-IsSorted_example :
    IsSorted (sort_lines three_lines) × Perm (sort_lines three_lines) three_lines
sort_lines-IsSorted_example = sort_lines-IsSorted three_lines (
  ((omega arith, omega arith), tt),
  (
    ((omega arith, omega arith), ((omega arith, omega arith), tt)),
    (((omega arith, omega arith), tt), tt),
  ),
)

tail_fd-last_example :
    tail_fd 2 (λ i. []) three_lines
    ≡ drop (length three_lines - min 2 tail_max) (cut_lines three_lines)
tail_fd-last_example = tail_fd-last 2 (λ i. []) three_lines (omega arith)

second_field :
    cut_line b':' 2 (joined b':' (codes "a") (codes "b" ∷ codes "c" ∷ []))
    ≡ get_or (codes "a" ∷ codes "b" ∷ codes "c" ∷ []) (2 - 1) []
second_field =
    cut_line-joined b':' 2 (codes "a") (codes "b" ∷ codes "c" ∷ []) (omega arith, tt)
      ((omega arith, tt), ((omega arith, tt), tt)) (omega arith)

contains-StandsIn_example :
    (contains (codes "Hello") (codes "EL") true ≡ true) ↔ StandsIn true (codes "Hello") (codes "EL")
contains-StandsIn_example = contains-StandsIn (codes "Hello") (codes "EL") true
