-- ===== src/Posix/Glob.antt =====
-- Wildcards in file names: lib/posix/fnmatch.c. A C string is the list of its characters.
pub mod Matching
use harvac.Prelude.{
  ℕ, zero, suc, ◌+◌, ◌*◌, Bool, true, false, ◌&&◌, ◌||◌, leb, ◌==◌, if◌then◌else◌, List, [], ◌∷◌,
  Option, none, some, length,
}

-- `A` to `Z` as `a` to `z`
abbrev pub fold_lower : ℕ → ℕ
fold_lower c = if leb b'A' c && leb c b'Z' then c + 32 else c

unfoldable pub ci_eq : (a b : ℕ) → Bool
ci_eq a b = fold_lower a == fold_lower b

-- Where the name does not go on with the pattern: `star + 1` and `np`, if a star was met.
abbrev pub Star : Type 0
Star = Option (List ℕ × List ℕ)

-- The last loop and the return value.
unfoldable pub only_stars : (pat : List ℕ) → Bool
only_stars [] = true
only_stars (q ∷ pat) = let rest = only_stars pat in if q == b'*' then rest else false

-- The two last branches of the loop. `none` stands for a run past the end of the name.
unfoldable pub back_up : Star → (List ℕ → List ℕ → Star → Option Bool) → Option Bool
back_up none next = some false
back_up (some (pat, [])) next = none
back_up (some (pat, c ∷ np)) next = next pat np (some (pat, np))

-- The loop, on fuel.
unfoldable pub match_loop : (fuel : ℕ) → (pat name : List ℕ) → Star → Option Bool
match_loop zero pat name star = none
match_loop (suc fuel) pat [] star = some (only_stars pat)
match_loop (suc fuel) [] (c ∷ name) star = back_up star (match_loop fuel)
match_loop (suc fuel) (q ∷ pat) (c ∷ name) star =
    let starred = match_loop fuel pat (c ∷ name) (some (pat, c ∷ name)) in
    let onward = match_loop fuel pat name star in
    let back = back_up star (match_loop fuel) in
    if q == b'*' then starred else if q == b'?' || ci_eq q c then onward else back

-- With fuel for each place of the name as often as the pattern is long.
unfoldable pub fnmatch : (pat name : List ℕ) → Option Bool
fnmatch pat name = match_loop (suc (length name * suc (length pat) + length pat)) pat name none

unfoldable pub has_glob : List ℕ → Bool
has_glob [] = false
has_glob (c ∷ str) = let rest = has_glob str in if c == b'*' || (c == b'?') then true else rest
