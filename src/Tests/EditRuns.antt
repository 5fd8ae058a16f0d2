-- ===== src/Tests/EditRuns.antt =====
-- Runs of the core of the editor (apps/medit/edit.c).
use harvac.Prelude.{
  ℕ, ◌+◌, ◌≤◌, ◌<◌, ◌≡◌, refl, arith, false, Bytes, none, some, ◌==◌, if◌then◌else◌,
}
use harvac.Hdk.Keys.{k_special}
use harvac.Editor.Gap.{Gap, gb_len, gb_at}
use harvac.Editor.Gap.Text.{IsGap}
use harvac.Editor.Lines.Steps.{IsPlace}
use harvac.Editor.Lines.{doc_line_home}
use harvac.Editor.Edit.{Edit, disp_col, col_loop}
use harvac.Editor.Edit.Rows.{row_loop, vis_row_end, ensure_visible}
use harvac.Editor.Edit.Commands.{ins_char, cmd_backspace}
use harvac.Editor.Edit.Handle.{is_nav_key, k_down, edit_handle}
use harvac.Editor.Edit.Valid.{IsEdit}
use harvac.Editor.Edit.Safe.{edit_handle-IsEdit}
use harvac.Editor.Edit.Motions.{edit_handle-Moves}
use harvac.Editor.Edit.Undo.{cmd_backspace-ins_char}
use harvac.Editor.Edit.Wrap.{IsRow, vis_row_end-IsRow}
use harvac.Editor.Edit.Screen.{LinesTo, LinesTo-le, ensure_visible-screen}

-- "ab", carriage return, line feed, "bb" with a gap of ten bytes behind the line feed.
abbrev two_lines : Bytes
two_lines i = if i == 0 then b'a' else if i == 2 then 13 else if i == 3 then 10 else b'b'

abbrev buffer : Gap
buffer = record { buf = two_lines; cap = 16; gs = 4; ge = 14 }

buffer-IsGap : IsGap buffer
buffer-IsGap = record { gap = omega arith; room = omega arith; small = omega arith }

-- The cursor behind "a".
abbrev editor : Edit
editor = record {
  gap = buffer;
  e_cur = 1;
  e_top = 0;
  e_topline = 1;
  e_modified = false;
  e_prefcol = 1;
  e_hscroll = 0;
  e_currow = 0;
  e_curcol = 1;
  e_msg = none;
  e_selon = false;
  e_selanchor = 0;
  e_sello = 0;
  e_selhi = 0;
  clip = record { segment = λ i. 0; clen = 0; have = false };
}

editor-IsEdit : IsEdit editor
unfolding gb_len
editor-IsEdit = record { valid = buffer-IsGap; cursor = omega arith; selection = λ on. omega arith }

abbrev alloc_paras : ℕ → ℕ
alloc_paras n = 0x3000

abbrev memory : ℕ → Bytes
memory seg i = 0

edit_handle-IsEdit_example : IsEdit (edit_handle alloc_paras memory 0 b'x' editor).1
edit_handle-IsEdit_example = edit_handle-IsEdit alloc_paras memory 0 b'x' editor editor-IsEdit

down_key : is_nav_key (k_special 0x50) ≡ some k_down
unfolding is_nav_key
down_key = refl

behind_a : IsPlace buffer 1
unfolding gb_len gb_at
behind_a = record { inside = omega arith; whole = λ l k e. absurd (omega arith) }

edit_handle-Moves_example :
    let after = (edit_handle alloc_paras memory 0 (k_special 0x50) editor).1 in
    (after.gap ≡ buffer) × IsPlace buffer after.e_cur
edit_handle-Moves_example =
    edit_handle-Moves alloc_paras memory 0 (k_special 0x50) k_down editor down_key buffer-IsGap
      behind_a

cmd_backspace-ins_char_example :
    let b = cmd_backspace (ins_char b'x' editor) in
    (b.e_cur ≡ 1)
    × (gb_len b.gap ≡ gb_len buffer)
    × ((p : ℕ) → p < gb_len buffer → gb_at b.gap p ≡ gb_at buffer p)
cmd_backspace-ins_char_example =
    cmd_backspace-ins_char b'x' editor editor-IsEdit refl (omega arith) (omega arith)

vis_row_end-IsRow_example : IsRow buffer 0 2 (vis_row_end buffer 0 2)
vis_row_end-IsRow_example = vis_row_end-IsRow buffer 0 2 (omega arith)

first_row : vis_row_end buffer 0 2 ≡ (2, 2)
unfolding vis_row_end row_loop gb_at
first_row = refl

-- The cursor in the second line, with the screen scrolled to it.
abbrev below : Edit
below = record editor { e_cur = 5; e_top = 4; e_topline = 2 }

ensure_visible-screen_example :
    let s = ensure_visible false below in
    LinesTo buffer (doc_line_home buffer 5) s.e_top s.e_currow
    × (s.e_currow < 23)
    × (s.e_curcol ≡ disp_col buffer (doc_line_home buffer 5) 5)
    × (s.e_hscroll ≤ s.e_curcol)
    × (s.e_curcol < s.e_hscroll + 80)
unfolding doc_line_home gb_len gb_at disp_col col_loop
ensure_visible-screen_example =
    ensure_visible-screen below (omega arith)
      (λ p n r. let short = LinesTo-le buffer 4 p n (omega arith) r in omega arith) (omega arith)
