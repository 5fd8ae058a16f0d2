-- ===== src/Apps/Cut.antt =====
-- The utility `cut`: one line in `cut_fd` of apps/cut.c.
pub mod Fields
use harvac.Prelude.{
  ℕ, zero, suc, ◌-◌, Bool, true, false, ◌==◌, if◌then◌else◌, List, [], ◌∷◌, Option, none, some,
}

-- Behind the next delimiter, if there is one.
unfoldable pub behind_delim : (delim : ℕ) → List ℕ → Option (List ℕ)
behind_delim delim [] = none
behind_delim delim (c ∷ p) = let rest = behind_delim delim p in if c == delim then some p else rest

-- The loop over the fields before the wanted one, with their number.
unfoldable pub to_field : (left delim : ℕ) → List ℕ → Option (List ℕ)
to_field zero delim p = some p
to_field (suc left) delim p = elim (behind_delim delim p) [
  | none ↦ none
  | some q ↦ to_field left delim q
]

-- Up to the next delimiter or the end of the line.
unfoldable pub up_to_delim : (delim : ℕ) → List ℕ → List ℕ
up_to_delim delim [] = []
up_to_delim delim (c ∷ p) = let rest = up_to_delim delim p in if c == delim then [] else c ∷ rest

abbrev pub printed : (delim : ℕ) → Option (List ℕ) → List ℕ
printed delim none = []
printed delim (some p) = up_to_delim delim p

-- What is printed of a line, for `field` at least 1.
unfoldable pub cut_line : (delim field : ℕ) → (line : List ℕ) → List ℕ
cut_line delim field line = printed delim (to_field (field - 1) delim line)
