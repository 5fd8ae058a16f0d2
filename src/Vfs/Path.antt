-- ===== src/Vfs/Path.antt =====
-- Paths: `normalize_path` and `vfs_abspath` of src/fs/vfs.c.
pub mod Bounds
use harvac.Prelude.{
  ℕ, zero, suc, ◌+◌, ◌-◌, Bool, true, false, ◌&&◌, ◌||◌, ltb, leb, ◌==◌, if◌then◌else◌, List, [],
  ◌∷◌, ◌++◌, length, take,
}
use mathlib.Core.List.{reverse, tail}
use harvac.Vfs.Names.{slash}

abbrev pub vfs_max_cwd : ℕ
vfs_max_cwd = 64

abbrev pub vfs_max_path : ℕ
vfs_max_path = 128

unfoldable pub skip_slashes : List ℕ → List ℕ
skip_slashes [] = []
skip_slashes (c ∷ cs) = let rest = skip_slashes cs in if c == slash then rest else c ∷ cs

-- The component of at most `room` characters at the front, and what follows it.
unfoldable pub read_component : (room : ℕ) → List ℕ → List ℕ × List ℕ
read_component zero cs = ([], cs)
read_component (suc room) [] = ([], [])
read_component (suc room) (c ∷ cs) =
    let (comp, rest) = read_component room cs in
    if c == slash then ([], c ∷ cs) else (c ∷ comp, rest)

-- What a component does to the stack, whose top stands first.
unfoldable pub push_component : List ℕ → List (List ℕ) → List (List ℕ)
push_component [] stack = [] ∷ stack
push_component (c ∷ []) stack = if c == b'.' then stack else (c ∷ []) ∷ stack
push_component (c ∷ d ∷ []) stack =
    if c == b'.' && (d == b'.') then tail stack else (c ∷ d ∷ []) ∷ stack
push_component (c ∷ d ∷ e ∷ cs) stack = (c ∷ d ∷ e ∷ cs) ∷ stack

-- The loop over the components, on fuel.
unfoldable pub collect : (fuel : ℕ) → List ℕ → List (List ℕ) → List (List ℕ)
collect zero src stack = stack
collect (suc fuel) src stack =
    let s = skip_slashes src in
    let (comp, rest) = read_component 31 s in
    let next = collect fuel rest (push_component comp stack) in
    if leb vfs_max_cwd (length stack) then stack else elim s [ [] ↦ stack | _ ∷ _ ↦ next ]

-- The loop that writes the components, behind what is written.
unfoldable pub build : (dstlen : ℕ) → List (List ℕ) → (dst : List ℕ) → List ℕ
build dstlen [] dst = dst
build dstlen (comp ∷ []) dst = dst ++ take (dstlen - 2 - length dst) comp
build dstlen (comp ∷ next ∷ comps) dst =
    let more =
      build dstlen (next ∷ comps) ((dst ++ take (dstlen - 2 - length dst) comp) ++ slash ∷ []) in
    if ltb (length dst) (dstlen - 2) then more else dst

unfoldable pub normalize_absolute : List ℕ → (dstlen : ℕ) → List ℕ
normalize_absolute src dstlen =
    build dstlen (reverse (collect (suc (length src)) src [])) (slash ∷ [])

unfoldable pub is_absolute : List ℕ → Bool
is_absolute [] = false
is_absolute (c ∷ cs) = c == slash

unfoldable pub normalize_path : List ℕ → (dstlen : ℕ) → List ℕ
normalize_path src dstlen = if is_absolute src then normalize_absolute src dstlen else slash ∷ []

unfoldable pub ends_in_slash : List ℕ → Bool
ends_in_slash [] = false
ends_in_slash (c ∷ []) = c == slash
ends_in_slash (c ∷ d ∷ cs) = ends_in_slash (d ∷ cs)

unfoldable pub vfs_abspath : (cwd path : List ℕ) → (dstlen : ℕ) → List ℕ
vfs_abspath cwd path dstlen =
    let base = take (vfs_max_path - 1) cwd in
    let full = if ends_in_slash base then base else base ++ slash ∷ [] in
    if is_absolute path
    then normalize_path path dstlen
    else normalize_path (full ++ take (vfs_max_path - 1 - length full) path) dstlen
