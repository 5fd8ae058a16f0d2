-- ===== src/Shell/Words/Placing.antt =====
-- The words that `glob_expand_args` of apps/shell.c puts for a token, and the room for them.
use harvac.Prelude.{
  ℕ, zero, suc, ◌+◌, ◌<◌, ◌≡◌, ◌≢◌, ◌⊎◌, inl, inr, refl, sym, ◌∙◌, arith, Bool, true, false, ◌==◌,
  if◌then◌else◌, List, [], ◌∷◌, ◌++◌, All, length, length-append, none, some, Bool-cases, ==→ne,
  ==→eq,
}
use harvac.Posix.Glob.{fnmatch, has_glob}
use harvac.Posix.Glob.Matching.{Matches, fnmatch-Matches}
use harvac.Shell.Words.{fits, appended, put_word, put_matches, names_path, put_token}

-- The names of a directory that match a token, in their order.
pub data Selected (tok : List ℕ) : (dir names : List (List ℕ)) → Type 0 where
  none_left : Selected tok [] []
  matching :
      {dir names : List (List ℕ)} {name : List ℕ}
      → Matches tok name
      → Selected tok dir names
      → Selected tok (name ∷ dir) (name ∷ names)
  other :
      {dir names : List (List ℕ)} {name : List ℕ}
      → ¬ Matches tok name
      → Selected tok dir names
      → Selected tok (name ∷ dir) names

-- A word with a blank before it fits into the 124 bytes of the command tail, with its zero.
abbrev pub HasRoom : (buf w : List ℕ) → Type 0
HasRoom buf w = length buf + length w + 1 < 124

abbrev pub behind : (buf w : List ℕ) → List ℕ
behind [] w = w
behind (c ∷ buf) w = (c ∷ buf) ++ (b' ' ∷ w)

-- Words that are put behind one another, each that has room, with the number of these.
pub data Puts : (ws : List (List ℕ)) → (buf out : List ℕ) → (n : ℕ) → Type 0 where
  no_words : {buf : List ℕ} → Puts [] buf buf 0
  put :
      {ws : List (List ℕ)} {w buf out : List ℕ} {n : ℕ}
      → HasRoom buf w
      → Puts ws (behind buf w) out n
      → Puts (w ∷ ws) buf out (suc n)
  skip :
      {ws : List (List ℕ)} {w buf out : List ℕ} {n : ℕ}
      → ¬ HasRoom buf w
      → Puts ws buf out n
      → Puts (w ∷ ws) buf out n

-- A token with a wildcard, and without a slash.
abbrev pub IsPattern : List ℕ → Type 0
IsPattern tok = (has_glob tok ≡ true) × All (λ c. c ≢ b'/') tok

-- What becomes of a token: it is put as it is, or the names that match it are; and if none of these is
-- put, it is.
pub data Expands (dir : List (List ℕ)) (tok buf out : List ℕ) : Type 0 where
  itself : {n : ℕ} → ¬ IsPattern tok → Puts (tok ∷ []) buf out n → Expands dir tok buf out
  names :
      {ws : List (List ℕ)} {n : ℕ}
      → IsPattern tok
      → Selected tok dir ws
      → Puts ws buf out (suc n)
      → Expands dir tok buf out
  no_name :
      {ws : List (List ℕ)} {n : ℕ}
      → IsPattern tok
      → Selected tok dir ws
      → Puts ws buf buf 0
      → Puts (tok ∷ []) buf out n
      → Expands dir tok buf out

-- The tokens one after the other.
pub data Built (dir : List (List ℕ)) : (toks : List (List ℕ)) → (buf out : List ℕ) → Type 0 where
  built : {buf : List ℕ} → Built dir [] buf buf
  token :
      {toks : List (List ℕ)} {tok buf mid out : List ℕ}
      → Expands dir tok buf mid
      → Built dir toks mid out
      → Built dir (tok ∷ toks) buf out

appended-behind : (buf w : List ℕ) → appended buf w ≡ behind buf w
appended-behind [] w = refl
appended-behind (c ∷ buf) w = refl

put_word-Puts : (buf w : List ℕ) → (n : ℕ) × Puts (w ∷ []) buf (put_word buf w) n
unfolding put_word
put_word-Puts buf w = elim (Bool-cases (fits (length buf) (length w))) [
  | inl t ↦ (1, rw (t, appended-behind buf w) (put (ground arith) no_words))
  | inr f ↦ (0, rw f (skip (λ h. ground arith) no_words))
]

fnmatch-Decides :
    (tok name : List ℕ)
    → let matched : Bool = elim (fnmatch tok name) [ none ↦ false | some b ↦ b ] in
      (matched ≡ true) × Matches tok name ⊎ (matched ≡ false) × (¬ Matches tok name)
fnmatch-Decides tok name =
    let (b, f, (to, back)) = fnmatch-Matches tok name in
    rw f (elim (Bool-cases b) [
      | inl t ↦ inl (t, to t)
      | inr n ↦ inr (n, λ m. let k = sym n ∙ back m in cc k)
    ])

-- Words have been put, or none and `found` is as before.
abbrev Marked : (before after : Bool) → ℕ → Type 0
Marked before after zero = after ≡ before
Marked before after (suc n) = after ≡ true

-- A match with room is put, and any other name changes nothing.
put_matches-put :
    (tok name : List ℕ) (dir : List (List ℕ)) (found : Bool) (buf : List ℕ)
    → (elim (fnmatch tok name) as (λ _. Bool) [ none ↦ false | some b ↦ b ]) ≡ true
    → fits (length buf) (length name) ≡ true
    → put_matches tok (name ∷ dir) found buf ≡ put_matches tok dir true (behind buf name)
unfolding put_matches put_word
put_matches-put tok name dir found buf t room = rw (t, room, appended-behind buf name) refl

put_matches-Puts :
    (tok : List ℕ) (dir : List (List ℕ)) (found : Bool) (buf : List ℕ)
    → let (after, out) = put_matches tok dir found buf in
      (ws : List (List ℕ)) × (n : ℕ) × Selected tok dir ws
      × Puts ws buf out n
      × Marked found after n
unfolding put_matches
put_matches-Puts tok [] found buf = ([], 0, none_left, no_words, refl)
put_matches-Puts tok (name ∷ dir) found buf = elim (fnmatch-Decides tok name) [
  | inr (f, no_match) ↦
      let (ws, n, s, p, m) = put_matches-Puts tok dir found buf in
      rw f (ws, n, other no_match s, p, m)
  | inl (t, is_match) ↦ elim (Bool-cases (fits (length buf) (length name))) [
    | inl room ↦
        let (ws, n, s, p, m) = put_matches-Puts tok dir true (behind buf name) in
        rw (put_matches-put tok name dir found buf t room)
          (name ∷ ws, suc n, matching is_match s, put (ground arith) p, Marked-true _ n m)
    | inr full ↦
        let (ws, n, s, p, m) = put_matches-Puts tok dir found buf in
        rw (t, full) (name ∷ ws, n, matching is_match s, skip (λ h. ground arith) p, m)
  ]
]
  where
    Marked-true : (after : Bool) (n : ℕ) → Marked true after n → after ≡ true
    Marked-true after zero m = m
    Marked-true after (suc n) m = m

Puts-none : {ws : List (List ℕ)} {buf out : List ℕ} {n : ℕ} → n ≡ 0 → Puts ws buf out n → out ≡ buf
Puts-none e no_words = refl
Puts-none e (put {n} h p) = absurd (omega arith)
Puts-none e (skip h p) = Puts-none e p

names_path-lem :
    (tok : List ℕ)
    → (names_path tok ≡ false) × All (λ c. c ≢ b'/') tok
      ⊎ (names_path tok ≡ true) × (¬ All (λ c. c ≢ b'/') tok)
unfolding names_path
names_path-lem [] = inl (refl, tt)
names_path-lem (c ∷ tok) = elim (Bool-cases (c == b'/')) [
  | inl t ↦ rw t (inr (refl, λ h. h.0 (==→eq _ _ t)))
  | inr f ↦ elim (names_path-lem tok) [
    | inl (n, a) ↦ rw (f, n) (inl (refl, (==→ne _ _ f, a)))
    | inr (y, a) ↦ rw (f, y) (inr (refl, λ h. a h.1))
  ]
]

pub put_token-Expands :
    (dir : List (List ℕ)) (tok buf : List ℕ) → Expands dir tok buf (put_token dir tok buf)
unfolding put_token
put_token-Expands dir tok buf =
    let (n, p) = put_word-Puts buf tok in
    elim (Bool-cases (has_glob tok)) [
      | inr f ↦ rw f (itself (λ h. let k = sym f ∙ h.0 in cc k) p)
      | inl t ↦ elim (names_path-lem tok) [
        | inr (y, a) ↦ rw (t, y) (itself (λ h. a h.1) p)
        | inl (y, a) ↦
            let (ws, k, s, q, m) = put_matches-Puts tok dir false buf in
            rw (t, y) (of_names _ (t, a) k s q m)
      ]
    ]
  where
    of_names :
        (found : Bool) {ws : List (List ℕ)} {out : List ℕ}
        → IsPattern tok
        → (k : ℕ) → Selected tok dir ws
        → Puts ws buf out k
        → Marked false found k
        → Expands dir tok buf (if found then out else put_word out tok)
    of_names found h zero s q m =
        let same = Puts-none refl q in
        let (n, p) = put_word-Puts buf tok in rw (m, same) (no_name h s (rw same at q) p)
    of_names found h (suc k) s q m = rw m (names h s q)

Puts-short :
    {ws : List (List ℕ)} {buf out : List ℕ} {n : ℕ}
    → length buf < 124
    → Puts ws buf out n
    → length out < 124
Puts-short h no_words = h
Puts-short h (put {ws} {w} {buf} room p) = Puts-short (length-behind buf w room) p
  where
    length-behind : (buf w : List ℕ) → HasRoom buf w → length (behind buf w) < 124
    length-behind [] w r = omega arith
    length-behind (c ∷ buf) w r = omega (arith, length-append (c ∷ buf) (b' ' ∷ w))
Puts-short h (skip no_room p) = Puts-short h p

pub Built-short :
    {dir toks : List (List ℕ)} {buf out : List ℕ}
    → length buf < 124
    → Built dir toks buf out
    → length out < 124
Built-short h built = h
Built-short h (token (itself i p) b) = Built-short (Puts-short h p) b
Built-short h (token (names i s p) b) = Built-short (Puts-short h p) b
Built-short h (token (no_name i s q p) b) = Built-short (Puts-short h p) b
