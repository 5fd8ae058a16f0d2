-- ===== src/Vfs/Names.antt =====
-- Path components as 8.3 names: `vfs_name_to_83` of src/fs/vfs.c. A C string is the list of its
-- characters.
pub mod Fields
use harvac.Prelude.{
  ℕ, zero, suc, ◌+◌, ◌-◌, Bool, true, false, not, ◌&&◌, ltb, leb, ◌==◌, if◌then◌else◌, update,
  Bytes, List, [], ◌∷◌,
}

abbrev pub slash : ℕ
slash = b'/'

abbrev pub to_upper : ℕ → ℕ
to_upper c = if leb b'a' c && leb c b'z' then c - 32 else c

pub record Packing : Type 0 where
  pub ni : ℕ
  pub ei : ℕ
  pub dot : Bool
  pub out : Bytes

-- One round of the loop of `vfs_name_to_83`.
unfoldable pub pack_char : ℕ → Packing → Packing
pack_char c p =
    if c == b'.' && not p.dot
    then record p { dot = true }
    else if p.dot
    then (if ltb p.ei 3
        then record p { out = update p.out (8 + p.ei) (to_upper c); ei = p.ei + 1 }
        else p)
    else (if ltb p.ni 8
        then record p { out = update p.out p.ni (to_upper c); ni = p.ni + 1 }
        else p)

unfoldable pub pack_loop : List ℕ → Packing → Bytes
pack_loop [] p = p.out
pack_loop (c ∷ cs) p = let rest = pack_loop cs (pack_char c p) in if c == slash then p.out else rest

unfoldable pub vfs_name_to_83 : List ℕ → Bytes
vfs_name_to_83 comp =
    pack_loop comp (record { ni = 0; ei = 0; dot = false; out = update (λ i. 0x20) 11 0 })
