-- ===== src/Editor/Edit/Rows.antt =====
-- The visual rows of wrapped lines, and `ensure_visible`, of apps/medit/edit.c. Each loop has fuel.
use harvac.Prelude.{
  ℕ, zero, suc, ◌+◌, ◌-◌, Bool, ltb, leb, not, ◌&&◌, ◌==◌, if◌then◌else◌, u16, Option, none, some,
}
use harvac.Editor.Gap.{Gap, gb_at}
use harvac.Editor.Lines.{doc_line_home, doc_line_end, doc_next_line, doc_prev_line}
use harvac.Editor.Edit.{Edit, next_col, disp_col}

abbrev pub wrap_col : ℕ
wrap_col = 78

abbrev pub cols : ℕ
cols = 80

abbrev pub text_rows : ℕ
text_rows = 23

-- The loop of `vis_row_end`, with the characters that are left and the last space before: the end of
-- the row, and the start of the next one.
unfoldable pub row_loop : Gap → (left p col : ℕ) → (space : Option ℕ) → ℕ × ℕ
row_loop g zero p col space = (p, p)
row_loop g (suc left) p col space =
    let c = gb_at g p in
    let nc = next_col c col in
    let rest = row_loop g left (p + 1) nc (if c == 32 then some p else space) in
    if leb wrap_col nc then elim space [ none ↦ (p, p) | some sp ↦ (sp, sp + 1) ] else rest

unfoldable pub vis_row_end : Gap → (pos lend : ℕ) → ℕ × ℕ
vis_row_end g pos lend = row_loop g (lend - pos) pos 0 none

unfoldable pub vis_rows_of : Gap → (fuel p lend : ℕ) → ℕ
vis_rows_of g zero p lend = 0
vis_rows_of g (suc fuel) p lend =
    let np = (vis_row_end g p lend).1 in
    let rest = vis_rows_of g fuel np lend in if ltb np lend then 1 + rest else 1

-- The rows of a line.
abbrev pub line_rows : (wrap : Bool) → Gap → (p lend : ℕ) → ℕ
line_rows wrap g p lend = if wrap then vis_rows_of g (1 + (lend - p)) p lend else 1

-- `while (chome < e_top)`
unfoldable pub top_loop : Gap → (fuel chome top line : ℕ) → ℕ × ℕ
top_loop g zero chome top line = (top, line)
top_loop g (suc fuel) chome top line =
    let rest =
      top_loop g fuel chome (doc_prev_line g top) (if ltb 1 line then line - 1 else line) in
    if ltb chome top then rest else (top, line)

-- `rows` is an `int` of 16 bits, as a bit pattern.
abbrev pub is_negative : ℕ → Bool
is_negative rows = leb 32768 rows

-- `while (p < chome)`
unfoldable pub rows_loop : (wrap : Bool) → Gap → (fuel p chome rows : ℕ) → ℕ
rows_loop wrap g zero p chome rows = rows
rows_loop wrap g (suc fuel) p chome rows =
    let lend = doc_line_end g p in
    let rest =
      rows_loop wrap g fuel (doc_next_line g lend) chome (u16 (rows + line_rows wrap g p lend)) in
    if ltb p chome then rest else rows

-- The loop over the rows of the line of the cursor: the rows, and where the row with the cursor starts
-- unless the loop passes the line.
unfoldable pub cursor_loop : Gap → (fuel vp lend cur rows : ℕ) → ℕ × Option ℕ
cursor_loop g zero vp lend cur rows = (rows, none)
cursor_loop g (suc fuel) vp lend cur rows =
    let np = (vis_row_end g vp lend).1 in
    let rest = cursor_loop g fuel np lend cur (u16 (rows + 1)) in
    if leb lend vp
    then (rows, none)
    else if ltb cur np
    then (rows, some vp)
    else if leb lend np
    then (rows, some vp)
    else rest

-- `while (rows >= TEXT_ROWS)`
unfoldable pub scroll_loop : (wrap : Bool) → Gap → (fuel rows top line : ℕ) → ℕ × ℕ × ℕ
scroll_loop wrap g zero rows top line = (rows, top, line)
scroll_loop wrap g (suc fuel) rows top line =
    let lend = doc_line_end g top in
    let less = u16 (rows + 65536 - line_rows wrap g top lend) in
    let below = doc_next_line g lend in
    let rest = scroll_loop wrap g fuel less below (u16 (line + 1)) in
    if leb text_rows rows && not (is_negative rows)
    then (if is_negative less then (0, below, u16 (line + 1)) else rest)
    else (rows, top, line)

-- The horizontal scroll position that shows a column.
abbrev pub scroll_to : (hscroll col : ℕ) → ℕ
scroll_to hscroll col =
    let left : ℕ = if ltb col hscroll then col else hscroll in
    if leb (left + cols) col then col - cols + 1 else left

-- `wrap` is `menu_wrap_flag` of apps/medit/menu.c.
unfoldable pub ensure_visible : (wrap : Bool) → Edit → Edit
ensure_visible wrap e =
    let g = e.gap in
    let chome = doc_line_home g e.e_cur in
    let lend = doc_line_end g chome in
    let home = doc_line_home g e.e_top in
    let (top, line) = top_loop g (1 + home) chome home e.e_topline in
    let before = rows_loop wrap g (1 + (chome - top)) top chome 0 in
    let (rows, start) =
      (if wrap
        then cursor_loop g (1 + (lend - chome)) chome lend e.e_cur before
        else (before, some chome)) in
    let col : ℕ = elim start [ none ↦ 0 | some vp ↦ disp_col g vp e.e_cur ] in
    let (row, top', line') = scroll_loop wrap g (1 + rows) rows top line in
    record e {
      e_top = top';
      e_topline = line';
      e_curcol = col;
      e_hscroll = if wrap then 0 else scroll_to e.e_hscroll col;
      e_currow = row;
    }
