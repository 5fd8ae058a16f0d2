-- ===== src/Posix/Args/Words.antt =====
-- `args_parse` (lib/posix/args.c) gives the words of a line.
use harvac.Prelude.{
  ℕ, zero, suc, ◌≡◌, ◌≢◌, ◌∙◌, refl, ap, ap₂, ne→==, List, [], ◌∷◌, ◌++◌, take, All,
}
use harvac.Posix.Args.{skip_blanks, token, behind_token, args_loop, args_parse}

abbrev pub blanks : ℕ → List ℕ
blanks zero = []
blanks (suc n) = b' ' ∷ blanks n

-- No blank inside.
abbrev pub IsSolid : List ℕ → Type 0
IsSolid = All (λ c. c ≢ b' ')

-- A line of words, each with one more blank behind it than its number says, and what follows them.
abbrev pub spaced : List (List ℕ × ℕ) → (last : List ℕ) → List ℕ
spaced [] last = last
spaced ((w, n) ∷ ws) last = w ++ (blanks (suc n) ++ spaced ws last)

-- Its words. The last one may be missing.
abbrev pub words : List (List ℕ × ℕ) → (last : List ℕ) → List (List ℕ)
words [] [] = []
words [] (c ∷ last) = (c ∷ last) ∷ []
words ((w, n) ∷ ws) last = w ∷ words ws last

abbrev pub IsWord : List ℕ × ℕ → Type 0
IsWord (w, n) = (w ≢ []) × IsSolid w

skip_blanks-append : (n : ℕ) (p : List ℕ) → skip_blanks (blanks n ++ p) ≡ skip_blanks p
unfolding skip_blanks
skip_blanks-append zero p = refl
skip_blanks-append (suc n) p = skip_blanks-append n p

skip_blanks-solid : (c : ℕ) (p : List ℕ) → c ≢ b' ' → skip_blanks (c ∷ p) ≡ c ∷ p
unfolding skip_blanks
skip_blanks-solid c p h = rw (ne→== c b' ' h) refl

skip_blanks-spaced :
    (ws : List (List ℕ × ℕ)) (last : List ℕ)
    → All IsWord ws
    → IsSolid last
    → skip_blanks (spaced ws last) ≡ spaced ws last
skip_blanks-spaced [] [] h s = unfold skip_blanks in refl
skip_blanks-spaced [] (c ∷ last) h (s, ss) = skip_blanks-solid c last s
skip_blanks-spaced (([], n) ∷ ws) last ((h, k), hs) s = absurd (h refl)
skip_blanks-spaced ((c ∷ w, n) ∷ ws) last ((h, (k, ks)), hs) s = skip_blanks-solid c _ k

token-append :
    (w p : List ℕ)
    → IsSolid w
    → (token (w ++ b' ' ∷ p) ≡ w) × (behind_token (w ++ b' ' ∷ p) ≡ b' ' ∷ p)
unfolding token behind_token
token-append [] p h = (refl, refl)
token-append (c ∷ w) p (h, hs) =
    let (a, b) = token-append w p hs in
    (rw (ne→== c b' ' h) (ap (λ (x : List ℕ). c ∷ x) a), rw (ne→== c b' ' h) b)

token-solid : (w : List ℕ) → IsSolid w → (token w ≡ w) × (behind_token w ≡ [])
unfolding token behind_token
token-solid [] h = (refl, refl)
token-solid (c ∷ w) (h, hs) =
    let (a, b) = token-solid w hs in
    (rw (ne→== c b' ' h) (ap (λ (x : List ℕ). c ∷ x) a), rw (ne→== c b' ' h) b)

args_loop-empty : (left : ℕ) → args_loop left [] ≡ []
unfolding args_loop
args_loop-empty zero = refl
args_loop-empty (suc left) = refl

take-empty : (n : ℕ) → let none : List (List ℕ) = [] in take n none ≡ none
take-empty zero = refl
take-empty (suc n) = refl

args_loop-spaced :
    (left : ℕ) (ws : List (List ℕ × ℕ)) (last : List ℕ)
    → All IsWord ws
    → IsSolid last
    → args_loop left (spaced ws last) ≡ take left (words ws last)
unfolding args_loop
args_loop-spaced zero ws last h s = refl
args_loop-spaced (suc left) [] [] h s = refl
args_loop-spaced (suc left) [] (c ∷ last) h s =
    let (a, b) = token-solid (c ∷ last) s in
    let e : skip_blanks (behind_token (c ∷ last)) ≡ [] = rw b (unfold skip_blanks in refl) in
    rw (a, e, args_loop-empty left, take-empty left) refl
args_loop-spaced (suc left) (([], n) ∷ ws) last ((h, k), hs) s = absurd (h refl)
args_loop-spaced (suc left) ((c ∷ w, n) ∷ ws) last ((h, k), hs) s =
    let p = blanks n ++ spaced ws last in
    let (a, b) = token-append (c ∷ w) p k in
    let e : skip_blanks (behind_token (c ∷ w ++ b' ' ∷ p)) ≡ spaced ws last =
      ap skip_blanks b
      ∙ skip_blanks-append (suc n) (spaced ws last)
      ∙ skip_blanks-spaced ws last hs s in
    ap₂ (λ (x : List ℕ) (y : List (List ℕ)). x ∷ y) a
      (ap (args_loop left) e ∙ args_loop-spaced left ws last hs s)

-- A line of words of any length without blanks, with any blanks before them and between them: its
-- arguments are these words, up to the number that there is room for.
pub args_parse-words :
    (max lead : ℕ) (ws : List (List ℕ × ℕ)) (last : List ℕ)
    → All IsWord ws
    → IsSolid last
    → args_parse max (blanks lead ++ spaced ws last) ≡ take max (words ws last)
unfolding args_parse
args_parse-words max lead ws last h s =
    ap (args_loop max) (skip_blanks-append lead (spaced ws last) ∙ skip_blanks-spaced ws last h s)
    ∙ args_loop-spaced max ws last h s
