-- ===== src/Posix/Dirent.antt =====
-- The names of directory entries: `build_name` of lib/posix/dirent.c.
pub mod Names
use harvac.Prelude.{ℕ, zero, suc, ◌+◌, ◌==◌, if◌then◌else◌, List, [], ◌∷◌, ◌++◌, Bytes}

-- A field of an entry up to its first blank.
unfoldable pub field : (left : ℕ) → Bytes → (at : ℕ) → List ℕ
field zero raw at = []
field (suc left) raw at =
    let rest = field left raw (at + 1) in if raw at == b' ' then [] else raw at ∷ rest

unfoldable pub build_name : Bytes → List ℕ
build_name raw = field 8 raw 0 ++ (if raw 8 == b' ' then [] else b'.' ∷ field 3 raw 8)
