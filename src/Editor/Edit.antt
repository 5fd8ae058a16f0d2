-- ===== src/Editor/Edit.antt =====
-- The core of the editor, apps/medit/edit.c, with the clipboard of apps/medit/clip.c: the state, the
-- selection and the columns. A column is a number without the wrap of `int`.
pub mod Rows
pub mod Commands
pub mod Handle
pub mod Motions
pub mod Valid
pub mod Typing
pub mod Undo
pub mod Safe
pub mod Wrap
pub mod Screen
use harvac.Prelude.{
  ℕ, zero, suc, ◌+◌, ◌-◌, ◌*◌, ◌/◌, Bool, true, false, not, ◌&&◌, ◌||◌, ltb, leb, ◌==◌,
  if◌then◌else◌, u16, Bytes, Option, none, some, List, codes,
}
use harvac.Editor.Gap.{Gap, gb_at, gb_len, gb_del, gb_copy_out}
use harvac.Editor.Lines.{lf, doc_line_home, doc_line_end}

-- The statics of clip.c, with the bytes at the segment.
pub record Clip : Type 0 where
  pub segment : Bytes
  pub clen : ℕ
  pub have : Bool

pub record Edit : Type 0 where
  pub gap : Gap
  pub e_cur : ℕ
  pub e_top : ℕ
  pub e_topline : ℕ
  pub e_modified : Bool
  pub e_prefcol : ℕ
  pub e_hscroll : ℕ
  pub e_currow : ℕ
  pub e_curcol : ℕ
  pub e_msg : Option (List ℕ)
  pub e_selon : Bool
  pub e_selanchor : ℕ
  pub e_sello : ℕ
  pub e_selhi : ℕ
  pub clip : Clip

-- The name of the file is not part of the state.
unfoldable pub edit_init : Edit → Edit
edit_init e = record e {
  e_cur = 0;
  e_top = 0;
  e_topline = 1;
  e_prefcol = 0;
  e_hscroll = 0;
  e_modified = false;
  e_msg = none;
  e_selon = false;
  e_selanchor = 0;
}

unfoldable pub edit_set_msg : List ℕ → Edit → Edit
edit_set_msg m e = record e { e_msg = some m }

abbrev pub memory_full : List ℕ
memory_full = codes "Minnet er fullt"

abbrev pub no_clip_room : List ℕ
no_clip_room = codes "Ikke plass til utklipp"

unfoldable pub sel_normalize : Edit → Edit
sel_normalize e =
    let below = ltb e.e_selanchor e.e_cur in
    let lo : ℕ = if below then e.e_selanchor else e.e_cur in
    let hi : ℕ = if below then e.e_cur else e.e_selanchor in
    if e.e_selon && not (e.e_selanchor == e.e_cur)
    then record e { e_sello = lo; e_selhi = hi }
    else record e { e_sello = 0; e_selhi = 0 }

unfoldable pub count_line : Gap → (pos : ℕ) → ℕ
count_line g zero = 1
count_line g (suc i) = let l = count_line g i in if gb_at g i == lf then u16 (l + 1) else l

unfoldable pub del_range : (lo hi : ℕ) → Edit → Edit
del_range lo hi e =
    let gap = gb_del e.gap lo (hi - lo) in
    let home = doc_line_home gap lo in
    let above = ltb lo e.e_top in
    record e {
      gap = gap;
      e_cur = lo;
      e_top = if above then home else e.e_top;
      e_topline = if above then count_line gap home else e.e_topline;
      e_modified = true;
      e_selon = false;
    }

-- The test of `del_selection`, `edit_copy` and `edit_cut`, on the normalized selection.
abbrev pub nothing_selected : Edit → Bool
nothing_selected s = not s.e_selon || (s.e_sello == s.e_selhi)

-- The return value, and the state.
unfoldable pub del_selection : Edit → Bool × Edit
del_selection e =
    let s = sel_normalize e in
    if nothing_selected s
    then (false, record s { e_selon = false })
    else (true, del_range s.e_sello s.e_selhi s)

abbrev pub tabstop : ℕ
tabstop = 8

-- The column behind a character at a column.
abbrev pub next_col : (c col : ℕ) → ℕ
next_col c col = if c == 9 then (col / tabstop + 1) * tabstop else col + 1

-- The loop of `disp_col`, with the characters that are left.
unfoldable pub col_loop : Gap → (left p col : ℕ) → ℕ
col_loop g zero p col = col
col_loop g (suc left) p col = col_loop g left (p + 1) (next_col (gb_at g p) col)

unfoldable pub disp_col : Gap → (home pos : ℕ) → ℕ
disp_col g home pos = col_loop g (pos - home) home 0

-- The loop of `pos_at_col`, with the characters that are left of the line.
unfoldable pub seek_col : Gap → (left p col want : ℕ) → ℕ
seek_col g zero p col want = p
seek_col g (suc left) p col want =
    let rest = seek_col g left (p + 1) (next_col (gb_at g p) col) want in
    if ltb col want then rest else p

unfoldable pub pos_at_col : Gap → (home want : ℕ) → ℕ
pos_at_col g home want = seek_col g (doc_line_end g home - home) home 0 want

unfoldable pub set_prefcol : Edit → Edit
set_prefcol e = record e { e_prefcol = disp_col e.gap (doc_line_home e.gap e.e_cur) e.e_cur }

-- `clip_set` with its return value 0 as `true`. `alloc_paras` is the kernel's call, which returns 0 for
-- a block that does not fit, and `memory` the bytes at a segment.
unfoldable pub clip_set :
    (alloc_paras : ℕ → ℕ) (memory : ℕ → Bytes) → Gap → (pos n : ℕ) → Clip → Bool × Clip
clip_set alloc_paras memory g pos n c =
    let cseg = alloc_paras (u16 (n + 15) / 16) in
    if n == 0
    then (true, record c { have = false; clen = 0 })
    else if cseg == 0
    then (false, record c { have = false; clen = 0 })
    else (true, record { segment = gb_copy_out g pos n (memory cseg) 0; have = true; clen = n })

unfoldable pub clip_len : Clip → ℕ
clip_len c = c.clen

-- A null pointer is segment 0.
unfoldable pub clip_ptr : (memory : ℕ → Bytes) → Clip → Bytes
clip_ptr memory c = if c.have then c.segment else memory 0
