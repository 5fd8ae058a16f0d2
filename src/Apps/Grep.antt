-- ===== src/Apps/Grep.antt =====
-- The utility `grep`: `contains` and `grep_fd` of apps/grep.c.
pub mod Contains
use harvac.Prelude.{
  ℕ, zero, suc, ◌+◌, ◌-◌, Bool, true, false, ltb, ◌==◌, if◌then◌else◌, List, [], ◌∷◌, length,
}
use harvac.Posix.Glob.{fold_lower}

-- `fold` of both characters, if the case is to be ignored
abbrev pub folded : (icase : Bool) → ℕ → ℕ
folded icase c = if icase then fold_lower c else c

-- The inner loop, at a place of the haystack.
unfoldable pub match_at : (icase : Bool) (haystack needle : List ℕ) → Bool
match_at icase haystack [] = true
match_at icase [] (n ∷ needle) = false
match_at icase (h ∷ haystack) (n ∷ needle) =
    let rest = match_at icase haystack needle in
    if folded icase h == folded icase n then rest else false

-- The outer loop, with the places that are left.
unfoldable pub contains_loop : (icase : Bool) (left : ℕ) (haystack needle : List ℕ) → Bool
contains_loop icase zero haystack needle = false
contains_loop icase (suc left) [] needle = match_at icase [] needle
contains_loop icase (suc left) (h ∷ haystack) needle =
    let rest = contains_loop icase left haystack needle in
    if match_at icase (h ∷ haystack) needle then true else rest

unfoldable pub contains : (haystack needle : List ℕ) (icase : Bool) → Bool
contains haystack needle icase =
    if length needle == 0
    then true
    else if ltb (length haystack) (length needle)
    then false
    else contains_loop icase (length haystack - length needle + 1) haystack needle

-- The lines that are printed.
unfoldable pub grep_lines : (pattern : List ℕ) (icase : Bool) → List (List ℕ) → List (List ℕ)
grep_lines pattern icase [] = []
grep_lines pattern icase (line ∷ lines) =
    let rest = grep_lines pattern icase lines in
    if contains line pattern icase then line ∷ rest else rest
