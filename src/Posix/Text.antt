-- ===== src/Posix/Text.antt =====
-- Strings and memory: lib/posix/string.c, and the functions of src/lib/strings.c that are the same. A
-- C string is the list of its characters, and an `int` of 16 bits is its two's complement.
pub mod Order
pub mod Fold
use harvac.Prelude.{
  ℕ, zero, suc, ◌+◌, ◌-◌, Bool, true, false, ◌&&◌, leb, ltb, ◌==◌, if◌then◌else◌, List, [], ◌∷◌,
  Option, none, some, length, Bytes, update, u16, drop,
}
use harvac.Posix.Glob.{fold_lower}

-- `a - b` of two characters as an `int`
abbrev pub char_diff : (a b : ℕ) → ℕ
char_diff a b = u16 (a + 65536 - b)

-- `r > 0` of an `int`
abbrev pub is_positive : ℕ → Bool
is_positive r = ltb 0 r && ltb r 32768

unfoldable pub strlen : List ℕ → ℕ
strlen s = u16 (length s)

unfoldable pub strcmp : (a b : List ℕ) → ℕ
strcmp [] [] = 0
strcmp [] (d ∷ b) = char_diff 0 d
strcmp (c ∷ a) [] = char_diff c 0
strcmp (c ∷ a) (d ∷ b) = let rest = strcmp a b in if c == d then rest else char_diff c d

unfoldable pub strncmp : (a b : List ℕ) → (n : ℕ) → ℕ
strncmp a b zero = 0
strncmp [] [] (suc n) = 0
strncmp [] (d ∷ b) (suc n) = char_diff 0 d
strncmp (c ∷ a) [] (suc n) = char_diff c 0
strncmp (c ∷ a) (d ∷ b) (suc n) = let rest = strncmp a b n in if c == d then rest else char_diff c d

-- The two characters where the loop stops are folded, and no others are compared.
unfoldable pub strcasecmp : (a b : List ℕ) → ℕ
strcasecmp [] [] = 0
strcasecmp [] (d ∷ b) = char_diff 0 (fold_lower d)
strcasecmp (c ∷ a) [] = char_diff (fold_lower c) 0
strcasecmp (c ∷ a) (d ∷ b) =
    let rest = strcasecmp a b in if c == d then rest else char_diff (fold_lower c) (fold_lower d)

-- What stands from the character on, or nothing.
unfoldable pub strchr : List ℕ → (c : ℕ) → Option (List ℕ)
strchr [] c = none
strchr (d ∷ s) c = let rest = strchr s c in if d == c then some (d ∷ s) else rest

unfoldable pub strcpy : (dst : Bytes) (at : ℕ) (src : List ℕ) → Bytes
strcpy dst at [] = update dst at 0
strcpy dst at (c ∷ src) = strcpy (update dst at c) (at + 1) src

unfoldable pub strncpy : (dst : Bytes) (at : ℕ) (src : List ℕ) (n : ℕ) → Bytes
strncpy dst at src zero = dst
strncpy dst at [] (suc n) = strncpy (update dst at 0) (at + 1) [] n
strncpy dst at (c ∷ src) (suc n) = strncpy (update dst at c) (at + 1) src n

unfoldable pub memset : (dst : Bytes) (at c n : ℕ) → Bytes
memset dst at c zero = dst
memset dst at c (suc n) = memset (update dst at c) (at + 1) c n

unfoldable pub memcmp : (a b : Bytes) (i n : ℕ) → ℕ
memcmp a b i zero = 0
memcmp a b i (suc n) =
    let rest = memcmp a b (i + 1) n in if a i == b i then rest else char_diff (a i) (b i)

-- The loop of `ends_with` on the end of the string that is as long as the suffix.
unfoldable pub same_folded : (str suffix : List ℕ) → Bool
same_folded str [] = true
same_folded [] (d ∷ suffix) = false
same_folded (c ∷ str) (d ∷ suffix) =
    let rest = same_folded str suffix in if fold_lower c == fold_lower d then rest else false

unfoldable pub ends_with : (str suffix : List ℕ) → Bool
ends_with str suffix =
    if ltb (length str) (length suffix)
    then false
    else same_folded (drop (length str - length suffix) str) suffix
