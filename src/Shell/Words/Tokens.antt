-- ===== src/Shell/Words/Tokens.antt =====
-- How `glob_expand_args` of apps/shell.c cuts the arguments of a command into tokens.
use harvac.Prelude.{
  ℕ, zero, suc, ◌≤◌, ◌<◌, ◌≡◌, ◌≢◌, ◌⊎◌, inl, inr, refl, ap, arith, false, ◌==◌, List, [], ◌∷◌,
  ◌++◌, All, length, Bool-cases, ==→ne, ==→eq,
}
use harvac.Shell.Words.{tok_max, skip_blanks, read_token}

abbrev pub NoBlank : List ℕ → Type 0
NoBlank = All (λ c. c ≢ b' ')

abbrev pub EndsWord : (rest : List ℕ) → Type 0
EndsWord [] = Unit {0}
EndsWord (c ∷ rest) = c ≡ b' '

-- How a text is cut: behind blanks, the longest piece without a blank of at most 14 characters.
pub data Cut : (p : List ℕ) → (toks : List (List ℕ)) → Type 0 where
  blanks : {p : List ℕ} → All (λ c. c ≡ b' ') p → Cut p []
  piece :
      {p : List ℕ} {toks : List (List ℕ)} (before tok rest : List ℕ)
      → p ≡ before ++ (tok ++ rest)
      → All (λ c. c ≡ b' ') before
      → NoBlank tok
      → 0 < length tok
      → (length tok ≡ 14) ⊎ ((length tok < 14) × EndsWord rest)
      → Cut rest toks
      → Cut p (tok ∷ toks)

pub read_token_lem :
    (room : ℕ) (p : List ℕ)
    → let (tok, rest) = read_token room p in
      (p ≡ tok ++ rest)
      × NoBlank tok
      × ((length tok ≡ room) ⊎ ((length tok < room) × EndsWord rest))
unfolding read_token
read_token_lem zero p = (refl, tt, inl refl)
read_token_lem (suc room) [] = (refl, tt, inr (omega arith, tt))
read_token_lem (suc room) (c ∷ p) =
    let (e, n, o) = read_token_lem room p in
    elim (Bool-cases (c == b' ')) [
      | inl t ↦ rw t (refl, tt, inr (omega arith, ==→eq _ _ t))
      | inr f ↦ rw f (
        ap (λ x. c ∷ x) e,
        (==→ne _ _ f, n),
        elim o [ inl q ↦ inl (ap suc q) | inr (q, w) ↦ inr (omega arith, w) ],
      )
    ]

-- What is behind the blanks at the start.
pub skip_blanks_lem :
    (p : List ℕ) → (before : List ℕ) × (p ≡ before ++ skip_blanks p) × All (λ c. c ≡ b' ') before
unfolding skip_blanks
skip_blanks_lem [] = ([], refl, tt)
skip_blanks_lem (c ∷ p) = elim (Bool-cases (c == b' ')) [
  | inl t ↦
      let (before, e, a) = skip_blanks_lem p in
      rw t (c ∷ before, ap (λ x. c ∷ x) e, (==→eq _ _ t, a))
  | inr f ↦ rw f ([], refl, tt)
]

length-skip_blanks : (p : List ℕ) → length (skip_blanks p) ≤ length p
unfolding skip_blanks
length-skip_blanks [] = omega arith
length-skip_blanks (c ∷ p) = let r = length-skip_blanks p in ground (arith, r)

-- The first character that is left is no blank.
skip_blanks-head :
    (p : List ℕ) (c : ℕ) (rest : List ℕ) → skip_blanks p ≡ c ∷ rest → (c == b' ') ≡ false
unfolding skip_blanks
skip_blanks-head [] c rest e = absurd cc
skip_blanks-head (d ∷ p) c rest e = elim (Bool-cases (d == b' ')) [
  | inl t ↦ skip_blanks-head p c rest (rw t at e)
  | inr f ↦
      let same : d ≡ c = ap (λ (x : List ℕ). elim x [ [] ↦ 0 | y ∷ ys ↦ y ]) (rw f at e) in
      rw same at f
]

length-read_token : (room : ℕ) (p : List ℕ) → length (read_token room p).1 ≤ length p
unfolding read_token
length-read_token zero p = omega arith
length-read_token (suc room) [] = omega arith
length-read_token (suc room) (c ∷ p) = let r = length-read_token room p in ground (arith, r)

-- Each turn of the loop takes a character at least.
pub turn :
    (p : List ℕ)
    → (length (skip_blanks p) == 0) ≡ false
    → (length (read_token tok_max (skip_blanks p)).1 < length p)
      × (0 < length (read_token tok_max (skip_blanks p)).0)
unfolding read_token
turn p f = go (skip_blanks p) refl f
  where
    go :
        (q : List ℕ)
        → skip_blanks p ≡ q
        → (length q == 0) ≡ false
        → (length (read_token tok_max q).1 < length p) × (0 < length (read_token tok_max q).0)
    go [] e f = absurd (ground (arith, f))
    go (c ∷ q) e f =
        let no_blank = skip_blanks-head p c q e in
        let short = ap length e in
        rw no_blank
          (omega (arith, length-read_token 13 q, length-skip_blanks p, short), omega arith)
