-- ===== src/Editor/Edit/Commands.antt =====
-- The commands of apps/medit/edit.c: what changes the text, and what moves the cursor.
use harvac.Prelude.{
  ℕ, ◌+◌, ◌-◌, Bool, true, not, ◌&&◌, ◌||◌, ltb, leb, ◌==◌, if◌then◌else◌, u16, Bytes, Option, none,
  some,
}
use harvac.Editor.Gap.{Gap, gb_at, gb_len, gb_insert, gb_insert_block, gb_del, sub_u16}
use harvac.Editor.Lines.{cr, lf, doc_line_home, doc_line_end, doc_next_line, doc_prev_line}
use harvac.Editor.Edit.{
  Edit, edit_set_msg, memory_full, no_clip_room, sel_normalize, nothing_selected, del_range,
  del_selection, pos_at_col, set_prefcol, clip_set, clip_len, clip_ptr,
}

-- What follows a call of `gb_insert` or `gb_insert_block` for `n` characters.
unfoldable pub after_insert : Option Gap → (n : ℕ) → Edit → Edit
after_insert none n e = edit_set_msg memory_full e
after_insert (some gap) n e =
    set_prefcol (record e { gap = gap; e_cur = u16 (e.e_cur + n); e_modified = true })

unfoldable pub ins_char : (c : ℕ) → Edit → Edit
ins_char c e = let s = (del_selection e).1 in after_insert (gb_insert s.gap s.e_cur c) 1 s

-- `e_cur++` behind a `gb_insert` whose return value is not tested.
unfoldable pub stepped : Option Gap → Edit → Edit
stepped none e = record e { e_cur = u16 (e.e_cur + 1) }
stepped (some gap) e = record e { gap = gap; e_cur = u16 (e.e_cur + 1) }

-- `gb_insert(e_cur, c); e_cur++;`
abbrev pub typed_in : (c : ℕ) → Edit → Edit
typed_in c e = stepped (gb_insert e.gap e.e_cur c) e

unfoldable pub cmd_enter : Edit → Edit
cmd_enter e =
    let s = (del_selection e).1 in
    let done = typed_in lf (typed_in cr s) in
    if ltb (sub_u16 s.gap.cap (gb_len s.gap)) 2
    then edit_set_msg memory_full s
    else record done { e_modified = true; e_prefcol = 0 }

-- A carriage return and line feed end before the position.
abbrev pub crlf_before : Gap → (pos : ℕ) → Bool
crlf_before g prev = gb_at g prev == lf && ltb 0 prev && (gb_at g (prev - 1) == cr)

-- The place before the cursor, where a carriage return and line feed count as one.
abbrev pub step_back : Gap → (pos : ℕ) → ℕ
step_back g pos = if crlf_before g (pos - 1) then pos - 1 - 1 else pos - 1

unfoldable pub cmd_backspace : Edit → Edit
cmd_backspace e =
    let (deleted, s) = del_selection e in
    let prev = step_back s.gap s.e_cur in
    let joined : ℕ =
      if s.e_cur == s.e_top && ltb 1 s.e_topline then s.e_topline - 1 else s.e_topline in
    if deleted
    then set_prefcol s
    else if s.e_cur == 0
    then s
    else set_prefcol (record s {
      gap = gb_del s.gap prev (s.e_cur - prev);
      e_cur = prev;
      e_topline = joined;
      e_modified = true;
    })

abbrev pub at_break : Gap → (pos : ℕ) → Bool
at_break g pos = gb_at g pos == cr || (gb_at g pos == lf)

unfoldable pub cmd_del : Edit → Edit
cmd_del e =
    let (deleted, s) = del_selection e in
    let count : ℕ = if at_break s.gap s.e_cur then doc_next_line s.gap s.e_cur - s.e_cur else 1 in
    if deleted
    then set_prefcol s
    else if leb (gb_len s.gap) s.e_cur
    then s
    else record s { gap = gb_del s.gap s.e_cur count; e_modified = true }

unfoldable pub cmd_left : Edit → Edit
cmd_left e = if e.e_cur == 0 then e else set_prefcol (record e { e_cur = step_back e.gap e.e_cur })

unfoldable pub cmd_right : Edit → Edit
cmd_right e =
    let next : ℕ =
      if at_break e.gap e.e_cur then doc_next_line e.gap e.e_cur else u16 (e.e_cur + 1) in
    if leb (gb_len e.gap) e.e_cur then e else set_prefcol (record e { e_cur = next })

unfoldable pub cmd_up : Edit → Edit
cmd_up e =
    let chome = doc_line_home e.gap e.e_cur in
    if chome == 0
    then e
    else record e { e_cur = pos_at_col e.gap (doc_prev_line e.gap chome) e.e_prefcol }

unfoldable pub cmd_down : Edit → Edit
cmd_down e =
    let end = doc_line_end e.gap e.e_cur in
    if leb (gb_len e.gap) end
    then e
    else record e { e_cur = pos_at_col e.gap (doc_next_line e.gap end) e.e_prefcol }

unfoldable pub cmd_home : Edit → Edit
cmd_home e = record e { e_cur = doc_line_home e.gap e.e_cur; e_prefcol = 0 }

unfoldable pub cmd_end : Edit → Edit
cmd_end e = set_prefcol (record e { e_cur = doc_line_end e.gap e.e_cur })

-- The text of a block at the cursor in place of the selection: `edit_insert_str`, and `edit_paste`
-- from its call of `del_selection` on.
unfoldable pub edit_insert_str : (s : Bytes) (n : ℕ) → Edit → Edit
edit_insert_str s n e =
    let d = (del_selection e).1 in after_insert (gb_insert_block d.gap d.e_cur s n) n d

unfoldable pub edit_paste : (memory : ℕ → Bytes) → Edit → Edit
edit_paste memory e =
    let n = clip_len e.clip in if n == 0 then e else edit_insert_str (clip_ptr memory e.clip) n e

unfoldable pub edit_select : (lo hi : ℕ) → Edit → Edit
edit_select lo hi e =
    set_prefcol (record e { e_selanchor = lo; e_cur = hi; e_selon = not (lo == hi) })

-- The parameters of `clip_set`.
module _ (alloc_paras : ℕ → ℕ) (memory : ℕ → Bytes) where
  unfoldable pub edit_copy : Edit → Edit
  edit_copy e =
      let s = sel_normalize e in
      let (ok, clip) = clip_set alloc_paras memory s.gap s.e_sello (s.e_selhi - s.e_sello) s.clip in
      let copied : Edit = record s { clip = clip } in
      if nothing_selected s then s else if ok then copied else edit_set_msg no_clip_room copied

  unfoldable pub edit_cut : Edit → Edit
  edit_cut e =
      let s = sel_normalize e in
      let (ok, clip) = clip_set alloc_paras memory s.gap s.e_sello (s.e_selhi - s.e_sello) s.clip in
      let copied : Edit = record s { clip = clip } in
      if nothing_selected s
      then s
      else if ok
      then set_prefcol (del_range s.e_sello s.e_selhi copied)
      else edit_set_msg no_clip_room copied
