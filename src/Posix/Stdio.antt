-- ===== src/Posix/Stdio.antt =====
-- Reading lines: `getline_fd` of lib/posix/stdio.c, on the bytes that `glfd_getc` still returns for
-- its descriptor. Its buffer, which only groups the reads, is not part of the model.
use harvac.Prelude.{ℕ, zero, suc, ◌-◌, ◌==◌, if◌then◌else◌, List, [], ◌∷◌, Option, none, some}

-- The loop, with the room that is left: the line, and the bytes behind it.
unfoldable pub getline_loop : (room : ℕ) → List ℕ → List ℕ × List ℕ
getline_loop zero input = ([], input)
getline_loop (suc room) [] = ([], [])
getline_loop (suc room) (c ∷ input) =
    let skipped = getline_loop (suc room) input in
    let (line, rest) = getline_loop room input in
    if c == 13 then skipped else if c == 10 then ([], input) else (c ∷ line, rest)

-- `none` is the return value -1, at which no byte was read.
unfoldable pub getline_fd : (max : ℕ) → List ℕ → Option (List ℕ × List ℕ)
getline_fd max [] = none
getline_fd max (c ∷ input) =
    if max - 1 == 0 then none else some (getline_loop (max - 1) (c ∷ input))
