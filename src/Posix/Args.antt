-- ===== src/Posix/Args.antt =====
-- The arguments of a program: lib/posix/args.c. The area of the arguments is a C string, and so is
-- each argument, which `args_parse` ends with a zero in place of the blank behind it.
pub mod Words
use harvac.Prelude.{
  ℕ, zero, suc, ◌+◌, Bool, true, false, not, ◌&&◌, ◌==◌, if◌then◌else◌, List, [], ◌∷◌, Option, none,
  some, get_or,
}

unfoldable pub skip_blanks : List ℕ → List ℕ
skip_blanks [] = []
skip_blanks (c ∷ p) = let rest = skip_blanks p in if c == b' ' then rest else c ∷ p

-- Up to the next blank or the end.
unfoldable pub token : List ℕ → List ℕ
token [] = []
token (c ∷ p) = let rest = token p in if c == b' ' then [] else c ∷ rest

-- From that place on.
unfoldable pub behind_token : List ℕ → List ℕ
behind_token [] = []
behind_token (c ∷ p) = let rest = behind_token p in if c == b' ' then c ∷ p else rest

-- The loop, with the places of `argv` that are left.
unfoldable pub args_loop : (left : ℕ) → List ℕ → List (List ℕ)
args_loop zero p = []
args_loop (suc left) [] = []
args_loop (suc left) (c ∷ p) = token (c ∷ p) ∷ args_loop left (skip_blanks (behind_token (c ∷ p)))

unfoldable pub args_parse : (max : ℕ) → (tail : List ℕ) → List (List ℕ)
args_parse max tail = args_loop max (skip_blanks tail)

-- A dash and the letter.
unfoldable pub is_flag : (c : ℕ) → (arg : List ℕ) → Bool
is_flag c arg = (get_or arg 0 0 == b'-') && (get_or arg 1 0 == c) && (get_or arg 2 0 == 0)

unfoldable pub args_has_flag : (argv : List (List ℕ)) (c : ℕ) → Bool
args_has_flag [] c = false
args_has_flag (arg ∷ argv) c =
    let rest = args_has_flag argv c in if is_flag c arg then true else rest

unfoldable pub args_flag_val : (argv : List (List ℕ)) (c : ℕ) → Option (List ℕ)
args_flag_val [] c = none
args_flag_val (arg ∷ []) c = none
args_flag_val (arg ∷ val ∷ argv) c =
    let rest = args_flag_val (val ∷ argv) c in if is_flag c arg then some val else rest

unfoldable pub args_first_nonoption : (argv : List (List ℕ)) → ℕ
args_first_nonoption [] = 0
args_first_nonoption (arg ∷ argv) =
    let rest = args_first_nonoption argv in if get_or arg 0 0 == b'-' then rest + 1 else 0
