-- ===== src/Posix/Text/Order.antt =====
-- The order that `strcmp` (lib/posix/string.c) decides.
use harvac.Prelude.{
  ℕ, ◌≤◌, ◌<◌, ◌≡◌, inl, inr, arith, true, false, ◌==◌, List, [], ◌∷◌, All, Bool-cases, ==→eq,
  ==→ne,
}
use harvac.Posix.Text.{char_diff, is_positive, strcmp}

-- A string of nonzero bytes.
abbrev pub IsText : List ℕ → Type 0
IsText = All (λ c. (0 < c) × (c < 256))

-- The order of a dictionary.
pub data LexLe : (a b : List ℕ) → Type 0 where
  shorter : {b : List ℕ} → LexLe [] b
  less : {c d : ℕ} {a b : List ℕ} → c < d → LexLe (c ∷ a) (d ∷ b)
  same : {c d : ℕ} {a b : List ℕ} → c ≡ d → LexLe a b → LexLe (c ∷ a) (d ∷ b)

char_diff-above : (c d : ℕ) → c < 256 → d < 256 → is_positive (char_diff c d) ≡ true → d < c
char_diff-above c d h k e = ground arith

char_diff-below : (c d : ℕ) → c < 256 → d < 256 → is_positive (char_diff c d) ≡ false → c ≤ d
char_diff-below c d h k e = ground arith

-- A result that is not positive says that the first string is at most the second.
pub strcmp-LexLe :
    (a b : List ℕ) → IsText a → IsText b → is_positive (strcmp a b) ≡ false → LexLe a b
unfolding strcmp
strcmp-LexLe [] b h k e = shorter
strcmp-LexLe (c ∷ a) [] (hc, ha) k e =
    absurd (omega (arith, char_diff-below c 0 hc.1 (omega arith) e))
strcmp-LexLe (c ∷ a) (d ∷ b) (hc, ha) (hd, hb) e = elim (Bool-cases (c == d)) [
  | inl t ↦ same (==→eq c d t) (strcmp-LexLe a b ha hb (rw t at e))
  | inr f ↦ less (omega (arith, char_diff-below c d hc.1 hd.1 (rw f at e), ==→ne c d f))
]

-- A positive result says that the second is at most the first.
pub strcmp-LexLe_above :
    (a b : List ℕ) → IsText a → IsText b → is_positive (strcmp a b) ≡ true → LexLe b a
unfolding strcmp
strcmp-LexLe_above a [] h k e = shorter
strcmp-LexLe_above [] (d ∷ b) h (hd, hb) e =
    absurd (omega (arith, char_diff-above 0 d (omega arith) hd.1 e))
strcmp-LexLe_above (c ∷ a) (d ∷ b) (hc, ha) (hd, hb) e = elim (Bool-cases (c == d)) [
  | inl t ↦
      let q : d ≡ c = omega (arith, ==→eq c d t) in
      same q (strcmp-LexLe_above a b ha hb (rw t at e))
  | inr f ↦ less (char_diff-above c d hc.1 hd.1 (rw f at e))
]
