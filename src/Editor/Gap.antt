-- ===== src/Editor/Gap.antt =====
-- The gap buffer of apps/medit/gap.c. The statics `buf`, `cap`, `gs` and `ge` are a record.
pub mod Text
pub mod Block
use harvac.Prelude.{
  ℕ, zero, suc, ◌+◌, ◌-◌, ◌*◌, Bool, true, false, ltb, leb, ◌==◌, if◌then◌else◌, u16, update, Bytes,
  Option, none, some, List, [], ◌∷◌,
}
use harvac.Editor.Far.{far_copy, far_move}

pub record Gap : Type 0 where
  pub buf : Bytes
  pub cap : ℕ
  pub gs : ℕ
  pub ge : ℕ

-- `a - b` on `u16`
abbrev pub sub_u16 : ℕ → ℕ → ℕ
sub_u16 a b = u16 (a + 65536 - b)

-- The sizes that `gb_init` asks for, in turn; `alloc_paras` is the kernel's call, which returns 0 for
-- a block that does not fit.
unfoldable pub want_paras : (alloc_paras : ℕ → ℕ) → List ℕ → Option (ℕ × ℕ)
want_paras alloc_paras [] = none
want_paras alloc_paras (paras ∷ rest) =
    let later = want_paras alloc_paras rest in
    if alloc_paras paras == 0 then later else some (alloc_paras paras, paras)

-- `none` is the return value -1; the memory at the segment is `memory`.
unfoldable pub gb_init : (alloc_paras : ℕ → ℕ) (memory : ℕ → Bytes) → Option Gap
gb_init alloc_paras memory = elim (want_paras alloc_paras (0x0bb8 ∷ 0x0800 ∷ 0x0400 ∷ [])) [
  | none ↦ none
  | some (seg, paras) ↦
      some (record { buf = memory seg; cap = u16 (paras * 16); gs = 0; ge = u16 (paras * 16) })
]

unfoldable pub gb_reset : Gap → Gap
gb_reset g = record g { gs = 0; ge = g.cap }

unfoldable pub gb_len : Gap → ℕ
gb_len g = sub_u16 g.cap (sub_u16 g.ge g.gs)

unfoldable pub gb_at : Gap → (pos : ℕ) → ℕ
gb_at g pos = if ltb pos g.gs then g.buf pos else g.buf (u16 (pos + sub_u16 g.ge g.gs))

unfoldable pub gb_move : (pos : ℕ) → Gap → Gap
gb_move pos g =
    let gap = sub_u16 g.ge g.gs in
    let buf =
      if ltb pos g.gs
      then far_move g.buf (pos + gap) pos (g.gs - pos)
      else far_move g.buf g.gs g.ge (pos - g.gs) in
    if pos == g.gs then g else record g { buf = buf; gs = pos; ge = u16 (pos + gap) }

-- `none` is the return value -1.
unfoldable pub gb_insert : Gap → (pos c : ℕ) → Option Gap
gb_insert g pos c =
    let m = gb_move pos g in
    if g.gs == g.ge
    then none
    else some (record m { buf = update m.buf m.gs c; gs = u16 (m.gs + 1) })

unfoldable pub gb_insert_block : Gap → (pos : ℕ) → (src : Bytes) → (n : ℕ) → Option Gap
gb_insert_block g pos src n =
    let m = gb_move pos g in
    if ltb (sub_u16 g.ge g.gs) n
    then none
    else some (record m { buf = far_copy m.buf m.gs src 0 n; gs = u16 (m.gs + n) })

unfoldable pub gb_del : Gap → (pos n : ℕ) → Gap
gb_del g pos n =
    let len = gb_len g in
    let count = if ltb (len - pos) n then len - pos else n in
    let m = gb_move pos g in if leb len pos then g else record m { ge = u16 (m.ge + count) }

-- The bytes from `pos` on, written to `dst`.
unfoldable pub gb_copy_out : Gap → (pos n : ℕ) → (dst : Bytes) → (offset : ℕ) → Bytes
gb_copy_out g pos zero dst offset = dst
gb_copy_out g pos (suc n) dst offset =
    gb_copy_out g (u16 (pos + 1)) n (update dst offset (gb_at g pos)) (offset + 1)

-- The buffer with the whole text in front of the gap.
unfoldable pub gb_raw : Gap → Gap
gb_raw g = gb_move (gb_len g) g

unfoldable pub gb_set_len : (n : ℕ) → Gap → Gap
gb_set_len n g = record g { gs = if ltb g.cap n then g.cap else n; ge = g.cap }
