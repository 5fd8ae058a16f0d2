-- ===== src/Shell/Words.antt =====
-- The arguments of a command and the lines of a batch file: `glob_expand_args` and `read_bat_line` of
-- apps/shell.c. A string is the list of its characters.
pub mod Tokens
pub mod Placing
pub mod Expansion
use harvac.Prelude.{
  ℕ, zero, suc, ◌+◌, ◌-◌, Bool, true, false, not, ◌&&◌, ◌||◌, ltb, leb, ◌==◌, if◌then◌else◌, List,
  [], ◌∷◌, ◌++◌, Option, none, some, length,
}
use harvac.Posix.Glob.{fnmatch, has_glob}

abbrev pub glob_buf_size : ℕ
glob_buf_size = 512

abbrev pub psp_arg_max : ℕ
psp_arg_max = 124

-- The characters of `tok` but its last.
abbrev pub tok_max : ℕ
tok_max = 14

-- The test before a word of `n` characters goes to the buffer, behind `oi` characters.
abbrev pub fits : (oi n : ℕ) → Bool
fits oi n = ltb (oi + n + 2) glob_buf_size && ltb (oi + n + 1) psp_arg_max

-- A word behind what is in the buffer, with a blank between.
abbrev pub appended : (buf word : List ℕ) → List ℕ
appended [] word = word
appended (c ∷ buf) word = (c ∷ buf) ++ b' ' ∷ word

unfoldable pub put_word : (buf word : List ℕ) → List ℕ
put_word buf word = if fits (length buf) (length word) then appended buf word else buf

-- The loop over the directory: `found`, and the buffer.
unfoldable pub put_matches :
    (tok : List ℕ) (dir : List (List ℕ)) → (found : Bool) (buf : List ℕ) → Bool × List ℕ
put_matches tok [] found buf = (found, buf)
put_matches tok (name ∷ dir) found buf =
    let matched : Bool = elim (fnmatch tok name) [ none ↦ false | some b ↦ b ] in
    let next = put_matches tok dir true (put_word buf name) in
    let same = put_matches tok dir found buf in
    if matched && fits (length buf) (length name) then next else same

unfoldable pub names_path : List ℕ → Bool
names_path [] = false
names_path (c ∷ s) = let rest = names_path s in if c == b'/' then true else rest

-- One token. A directory that does not open has no entries.
unfoldable pub put_token : (dir : List (List ℕ)) (tok buf : List ℕ) → List ℕ
put_token dir tok buf =
    let (found, matches) = put_matches tok dir false buf in
    let kept = if found then matches else put_word matches tok in
    if has_glob tok && not (names_path tok) then kept else put_word buf tok

unfoldable pub skip_blanks : List ℕ → List ℕ
skip_blanks [] = []
skip_blanks (c ∷ p) = let rest = skip_blanks p in if c == b' ' then rest else c ∷ p

-- The token at the start, of at most `room` characters, and what is behind it.
unfoldable pub read_token : (room : ℕ) (p : List ℕ) → List ℕ × List ℕ
read_token zero p = ([], p)
read_token (suc room) [] = ([], [])
read_token (suc room) (c ∷ p) =
    let (tok, rest) = read_token room p in if c == b' ' then ([], c ∷ p) else (c ∷ tok, rest)

-- The loop, with fuel.
unfoldable pub expand : (dir : List (List ℕ)) (fuel : ℕ) → (p buf : List ℕ) → List ℕ
expand dir zero p buf = buf
expand dir (suc fuel) p buf =
    let (tok, rest) = read_token tok_max (skip_blanks p) in
    let more = expand dir fuel rest (put_token dir tok buf) in
    if length (skip_blanks p) == 0 then buf else more

-- `dir` is what `readdir` gives for the directory `.`. Each token takes a character at least.
unfoldable pub glob_expand_args : (dir : List (List ℕ)) (args : List ℕ) → List ℕ
glob_expand_args dir args = if has_glob args then expand dir (1 + length args) args [] else args

-- The loop of `read_bat_line`, with the room that is left: whether a byte was read, the line, and what is
-- left of the file.
unfoldable pub bat_loop : (room fuel : ℕ) (file : List ℕ) → Bool × List ℕ × List ℕ
bat_loop room zero file = (false, [], file)
bat_loop zero (suc fuel) file = (false, [], file)
bat_loop (suc room) (suc fuel) [] = (false, [], [])
bat_loop (suc room) (suc fuel) (c ∷ file) =
    let (_, skipped, after_cr) = bat_loop (suc room) fuel file in
    let (_, line, rest) = bat_loop room fuel file in
    if c == 13
    then (true, skipped, after_cr)
    else if c == 10
    then (true, [], file)
    else (true, c ∷ line, rest)

unfoldable pub read_bat_line : (maxlen : ℕ) (file : List ℕ) → Bool × List ℕ × List ℕ
read_bat_line maxlen file = bat_loop (maxlen - 1) (1 + length file) file
