-- ===== src/Hdk/Format.antt =====
-- Names, dates, times and numbers in columns: lib/hdk/fmt.c. A string is the list of its characters.
pub mod Width
use harvac.Prelude.{
  ℕ, zero, suc, ◌+◌, ◌-◌, ◌/◌, ◌%◌, Bool, true, false, not, ◌&&◌, ◌||◌, ltb, leb, ◌==◌,
  if◌then◌else◌, List, [], ◌∷◌, ◌++◌, Option, none, some, length, take, drop, get_or, Bytes, codes,
}
use harvac.Posix.Number.{u32toa, utoa_pad2, spaces}

-- The characters in front of the first blank.
unfoldable pub until_blank : List ℕ → List ℕ
until_blank [] = []
until_blank (c ∷ s) = let rest = until_blank s in if c == b' ' then [] else c ∷ rest

-- A name of eight places and an extension of three.
unfoldable pub fat_format_name : (name ext : List ℕ) → List ℕ
fat_format_name name ext =
    until_blank (take 8 name)
    ++ (if get_or ext 0 0 == b' ' then [] else b'.' ∷ until_blank (take 3 ext))

-- The place of the last dot.
unfoldable pub last_dot : (name : List ℕ) → (i : ℕ) → Option ℕ
last_dot [] i = none
last_dot (c ∷ name) i = elim (last_dot name (i + 1)) [
  | some dot ↦ some dot
  | none ↦ if c == b'.' then some i else none
]

-- A string in a field of blanks.
abbrev pub padded : (n : ℕ) → List ℕ → List ℕ
padded n s = s ++ spaces (n - length s)

-- The loops of `fat_format_name12` behind the search for the dot.
unfoldable pub columns : Option ℕ → (name : List ℕ) → List ℕ
columns none name = padded 12 (take 12 name)
columns (some dot) name =
    if ltb 8 dot
    then padded 12 (take 12 name)
    else padded 9 (take dot name) ++ padded 3 (take 3 (drop (dot + 1) name))

unfoldable pub fat_format_name12 : (name : List ℕ) → List ℕ
fat_format_name12 name = columns (last_dot name 0) name

unfoldable pub fat_format_date : (date : ℕ) → List ℕ
fat_format_date date =
    if date == 0
    then spaces 10
    else take 4 (u32toa (date / 512 + 1980))
      ++ b'.' ∷ (utoa_pad2 (date / 32 % 16) ++ b'.' ∷ utoa_pad2 (date % 32))

unfoldable pub fat_format_time : (date time : ℕ) → List ℕ
fat_format_time date time =
    if date == 0 && (time == 0)
    then spaces 5
    else utoa_pad2 (time / 2048) ++ b':' ∷ utoa_pad2 (time / 32 % 64)

unfoldable pub fat_is_dot_entry : (name : Bytes) → Bool
fat_is_dot_entry name =
    name 0 == b'.' && (name 1 == b' ') || (name 0 == b'.' && (name 1 == b'.') && (name 2 == b' '))

unfoldable pub dots : ℕ → List ℕ
dots zero = []
dots (suc n) = b'.' ∷ dots n

unfoldable pub fmt_ellipsis_mid : (src : List ℕ) (width : ℕ) → List ℕ
fmt_ellipsis_mid src width =
    let slen = length src in
    let head = (width - 3) / 2 in
    let tail = width - 3 - head in
    if leb slen width
    then src
    else if leb width 3
    then dots width
    else take head src ++ dots 3 ++ drop (slen - tail) src

unfoldable pub fmt_uint_field : (val width : ℕ) → List ℕ
fmt_uint_field val width =
    let tmp = u32toa val in
    let pad : ℕ = if ltb (length tmp) width then width - length tmp else 0 in
    spaces pad ++ take (width - pad) tmp
