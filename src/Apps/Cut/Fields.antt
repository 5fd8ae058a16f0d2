-- ===== src/Apps/Cut/Fields.antt =====
-- `cut` (apps/cut.c) prints a field of the line.
use harvac.Prelude.{
  ℕ, zero, suc, ◌-◌, ◌<◌, ◌≡◌, ◌∙◌, refl, ap, List, [], ◌∷◌, ◌++◌, none, some, get_or, All, ◌≢◌,
  ==_refl, ne→==,
}
use harvac.Apps.Cut.{behind_delim, to_field, up_to_delim, printed, cut_line}

-- The line that has these fields.
unfoldable pub joined : (delim : ℕ) → (first : List ℕ) → List (List ℕ) → List ℕ
joined delim first [] = first
joined delim first (next ∷ fields) = first ++ delim ∷ joined delim next fields

-- No delimiter inside.
abbrev pub IsField : ℕ → List ℕ → Type 0
IsField delim = All (λ c. c ≢ delim)

up_to_delim-append :
    (delim : ℕ) (field rest : List ℕ)
    → IsField delim field
    → (up_to_delim delim (field ++ delim ∷ rest) ≡ field) × (up_to_delim delim field ≡ field)
unfolding up_to_delim
up_to_delim-append delim [] rest h = (rw (==_refl delim) refl, refl)
up_to_delim-append delim (c ∷ field) rest (h, hs) =
    let (a, b) = up_to_delim-append delim field rest hs in
    (rw (ne→== c delim h) (rw a refl), rw (ne→== c delim h) (rw b refl))

behind_delim-append :
    (delim : ℕ) (field rest : List ℕ)
    → IsField delim field
    → (behind_delim delim (field ++ delim ∷ rest) ≡ some rest) × (behind_delim delim field ≡ none)
unfolding behind_delim
behind_delim-append delim [] rest h = (rw (==_refl delim) refl, refl)
behind_delim-append delim (c ∷ field) rest (h, hs) =
    let (a, b) = behind_delim-append delim field rest hs in
    (rw (ne→== c delim h) a, rw (ne→== c delim h) b)

to_field-none :
    (delim left : ℕ) (p : List ℕ) → behind_delim delim p ≡ none → to_field (suc left) delim p ≡ none
unfolding to_field
to_field-none delim left p e = rw (to_field, e) refl

to_field-some :
    (delim left : ℕ) (p q : List ℕ)
    → behind_delim delim p ≡ some q
    → to_field (suc left) delim p ≡ to_field left delim q
unfolding to_field
to_field-some delim left p q e = rw (to_field, e) refl

to_field-joined :
    (delim left : ℕ) (first : List ℕ) (fields : List (List ℕ))
    → IsField delim first
    → All (IsField delim) fields
    → printed delim (to_field left delim (joined delim first fields))
      ≡ get_or (first ∷ fields) left []
unfolding joined
to_field-joined delim zero first [] h hs =
    unfold to_field in (up_to_delim-append delim first [] h).1
to_field-joined delim zero first (next ∷ fields) h hs =
    unfold to_field in (up_to_delim-append delim first (joined delim next fields) h).0
to_field-joined delim (suc left) first [] h hs =
    ap (printed delim) (to_field-none delim left first (behind_delim-append delim first [] h).1)
to_field-joined delim (suc left) first (next ∷ fields) h (hn, hs) =
    ap (printed delim) (
      to_field-some delim left _ _ (behind_delim-append delim first (joined delim next fields) h).0)
    ∙ to_field-joined delim left next fields hn hs

-- Of a line made of fields without the delimiter, the field with the number that is asked for is
-- printed, counted from 1, and nothing if the line has fewer fields.
pub cut_line-joined :
    (delim field : ℕ) (first : List ℕ) (fields : List (List ℕ))
    → IsField delim first
    → All (IsField delim) fields
    → 0 < field
    → cut_line delim field (joined delim first fields) ≡ get_or (first ∷ fields) (field - 1) []
unfolding cut_line
cut_line-joined delim field first fields h hs l =
    to_field-joined delim (field - 1) first fields h hs
