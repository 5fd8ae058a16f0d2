-- ===== src/Posix/Text/Fold.antt =====
-- What `strcasecmp` (lib/posix/string.c) takes for equal.
use harvac.Prelude.{ℕ, ◌+◌, ◌≤◌, ◌≡◌, arith, List, [], ◌∷◌, ◌++◌}
use harvac.Posix.Text.{strcasecmp}

-- Two strings that agree up to a letter in upper case in the one and in lower case in the other count
-- as equal, whatever stands behind that letter.
pub strcasecmp-differ :
    (prefix a b : List ℕ) (c : ℕ)
    → b'A' ≤ c
    → c ≤ b'Z'
    → (strcasecmp (prefix ++ c ∷ a) (prefix ++ (c + 32) ∷ b) ≡ 0)
      × (strcasecmp (prefix ++ (c + 32) ∷ a) (prefix ++ c ∷ b) ≡ 0)
unfolding strcasecmp
strcasecmp-differ [] a b c h k = (ground arith, ground arith)
strcasecmp-differ (p ∷ prefix) a b c h k =
    let (x, y) = strcasecmp-differ prefix a b c h k in (ground (arith, x), ground (arith, y))
