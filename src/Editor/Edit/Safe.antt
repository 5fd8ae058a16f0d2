-- ===== src/Editor/Edit/Safe.antt =====
-- `edit_handle` of apps/medit/edit.c keeps the cursor and the selection in the text.
use harvac.Prelude.{
  ℕ, zero, suc, ◌+◌, ◌-◌, ◌≤◌, ◌≡◌, inl, inr, ap, arith, not, ◌&&◌, leb, ◌==◌, if◌then◌else◌, u16,
  Bool-cases, none, Bytes,
}
use harvac.Editor.Gap.{Gap, gb_len}
use harvac.Editor.Lines.{doc_next_line}
use harvac.Editor.Lines.Steps.{doc_next_line_lem}
use harvac.Editor.Edit.{
  Edit, sel_normalize, nothing_selected, del_range, set_prefcol, clip_set, clip_len, clip_ptr,
  edit_set_msg,
}
use harvac.Hdk.Keys.{has_flag, sh_shift, sh_ctrl}
use harvac.Editor.Lines.{
  doc_line_home, doc_line_home_lem, doc_line_end, doc_line_end_lem, doc_prev_line,
}
use harvac.Editor.Lines.Steps.{doc_prev_line-IsPlace}
use harvac.Editor.Edit.{pos_at_col}
use harvac.Editor.Edit.Motions.{seek_col_lem}
use harvac.Editor.Edit.Rows.{text_rows}
use harvac.Editor.Edit.Handle.{
  Motion, k_up, k_down, k_left, k_right, k_home, k_end, k_pgup, k_pgdn, k_chome, k_cend, repeat_cmd,
  move, read_key, Key, k_del, k_ins, key_bs, key_enter, key_tab, char, other, press, nav,
  nav_selection, edit_handle,
}
use harvac.Editor.Edit.Commands.{
  cmd_left, cmd_right, cmd_up, cmd_down, cmd_home, cmd_end, ins_char, step_back, at_break,
  cmd_enter, cmd_backspace, cmd_del, edit_insert_str, edit_paste, edit_select, edit_copy, edit_cut,
}
use harvac.Editor.Edit.Valid.{
  IsEdit, IsPlain-IsEdit, sel_normalize-range, sel_normalize-same, del_range-IsPlain, unselected,
}
use harvac.Editor.Edit.Typing.{
  ins_char-IsPlain, edit_insert_str-IsPlain, cmd_enter-IsPlain, cmd_backspace-IsPlain,
  cmd_del-IsPlain,
}

abbrev pub Keeps : (Edit → Edit) → Type 0
Keeps f = (e : Edit) → IsEdit e → IsEdit (f e)

edit_paste-Keeps : (memory : ℕ → Bytes) → Keeps (edit_paste memory)
unfolding edit_paste
edit_paste-Keeps memory e v = elim (Bool-cases (clip_len e.clip == 0)) [
  | inl t ↦ rw t v
  | inr f ↦ rw f (
      IsPlain-IsEdit (edit_insert_str (clip_ptr memory e.clip) (clip_len e.clip) e)
        (edit_insert_str-IsPlain (clip_ptr memory e.clip) (clip_len e.clip) e v))
]

sel_normalize-Keeps : Keeps sel_normalize
unfolding sel_normalize
sel_normalize-Keeps e v = elim (Bool-cases (e.e_selon && not (e.e_selanchor == e.e_cur))) [
  | inl t ↦ rw t v
  | inr f ↦ rw f v
]

edit_copy-Keeps : (alloc_paras : ℕ → ℕ) (memory : ℕ → Bytes) → Keeps (edit_copy alloc_paras memory)
unfolding edit_copy edit_set_msg
edit_copy-Keeps alloc_paras memory e v =
    let s = sel_normalize e in
    let w = sel_normalize-Keeps e v in
    let (ok, clip) = clip_set alloc_paras memory s.gap s.e_sello (s.e_selhi - s.e_sello) s.clip in
    elim (Bool-cases (nothing_selected s)) [
      | inl t ↦ rw t w
      | inr f ↦ rw f (elim (Bool-cases ok) [ inl y ↦ rw y w | inr n ↦ rw n w ])
    ]

edit_cut-Keeps : (alloc_paras : ℕ → ℕ) (memory : ℕ → Bytes) → Keeps (edit_cut alloc_paras memory)
unfolding edit_cut edit_set_msg set_prefcol
edit_cut-Keeps alloc_paras memory e v =
    let s = sel_normalize e in
    let w = sel_normalize-Keeps e v in
    let (ok, clip) = clip_set alloc_paras memory s.gap s.e_sello (s.e_selhi - s.e_sello) s.clip in
    let len : gb_len s.gap ≡ gb_len e.gap = ap gb_len (sel_normalize-same e).0 in
    elim (Bool-cases (nothing_selected s)) [
      | inl t ↦ rw t w
      | inr f ↦
          let (lo, hi) = sel_normalize-range e v f in
          let copied : Edit = record s { clip = clip } in
          rw f (elim (Bool-cases ok) [
            | inl y ↦ rw y (
                IsPlain-IsEdit (del_range s.e_sello s.e_selhi copied) (
                  del_range-IsPlain s.e_sello s.e_selhi copied w.valid lo (omega (arith, hi, len))))
            | inr n ↦ rw n w
          ])
    ]

-- A selection of a range of the text.
edit_select-Keeps :
    (lo hi : ℕ) (e : Edit)
    → IsEdit e
    → lo ≤ gb_len e.gap
    → hi ≤ gb_len e.gap
    → IsEdit (edit_select lo hi e)
unfolding edit_select set_prefcol
edit_select-Keeps lo hi e v l h = record { valid = v.valid; cursor = h; selection = λ on. l }

-- A place of the line that starts at a place of the text.
pos_at_col-le : (g : Gap) (home want : ℕ) → home ≤ gb_len g → pos_at_col g home want ≤ gb_len g
unfolding pos_at_col
pos_at_col-le g home want h =
    let (a, b, _, _) = doc_line_end_lem g home h in
    let (_, d) = seek_col_lem g (doc_line_end g home - home) home 0 want in omega (arith, a, b, d)

-- A motion that only moves the cursor.
cursor-IsEdit :
    (e : Edit) (cur : ℕ) → IsEdit e → cur ≤ gb_len e.gap → IsEdit (record e { e_cur = cur })
cursor-IsEdit e cur v h = record { valid = v.valid; cursor = h; selection = v.selection }

cmd_left-Keeps : Keeps cmd_left
unfolding cmd_left set_prefcol
cmd_left-Keeps e v = elim (Bool-cases (e.e_cur == 0)) [
  | inl t ↦ rw t v
  | inr f ↦ rw f (cursor-IsEdit e (step_back e.gap e.e_cur) v (ground (arith, v.cursor)))
]

cmd_right-Keeps : Keeps cmd_right
unfolding cmd_right set_prefcol
cmd_right-Keeps e v =
    let next = if at_break e.gap e.e_cur then doc_next_line e.gap e.e_cur else u16 (e.e_cur + 1) in
    let (_, l) = doc_next_line_lem e.gap e.e_cur v.cursor in
    elim (Bool-cases (leb (gb_len e.gap) e.e_cur)) [
      | inl t ↦ rw t v
      | inr f ↦ rw f (cursor-IsEdit e next v (ground (arith, f, l)))
    ]

cmd_up-Keeps : Keeps cmd_up
unfolding cmd_up
cmd_up-Keeps e v =
    let home = doc_line_home e.gap e.e_cur in
    let (le, _, _) = doc_line_home_lem e.gap e.e_cur in
    let prev = (doc_prev_line-IsPlace e.gap home (omega (arith, le, v.cursor))).inside in
    elim (Bool-cases (home == 0)) [
      | inl t ↦ rw t v
      | inr f ↦
          rw f
            (cursor-IsEdit e _ v (pos_at_col-le e.gap (doc_prev_line e.gap home) e.e_prefcol prev))
    ]

cmd_down-Keeps : Keeps cmd_down
unfolding cmd_down
cmd_down-Keeps e v =
    let end = doc_line_end e.gap e.e_cur in
    let (_, l, _, _) = doc_line_end_lem e.gap e.e_cur v.cursor in
    let (_, n) = doc_next_line_lem e.gap end l in
    elim (Bool-cases (leb (gb_len e.gap) end)) [
      | inl t ↦ rw t v
      | inr f ↦
          rw f (cursor-IsEdit e _ v (pos_at_col-le e.gap (doc_next_line e.gap end) e.e_prefcol n))
    ]

repeat_cmd-Keeps : (n : ℕ) (f : Edit → Edit) → Keeps f → Keeps (repeat_cmd n f)
repeat_cmd-Keeps zero f h e v = v
repeat_cmd-Keeps (suc n) f h e v = repeat_cmd-Keeps n f h (f e) (h e v)

move-Keeps : (m : Motion) → Keeps (move m)
unfolding move cmd_home cmd_end set_prefcol
move-Keeps k_up e v = cmd_up-Keeps e v
move-Keeps k_down e v = cmd_down-Keeps e v
move-Keeps k_left e v = cmd_left-Keeps e v
move-Keeps k_right e v = cmd_right-Keeps e v
move-Keeps k_home e v =
    let (le, _, _) = doc_line_home_lem e.gap e.e_cur in
    cursor-IsEdit e (doc_line_home e.gap e.e_cur) v (omega (arith, le, v.cursor))
move-Keeps k_end e v =
    let (_, l, _, _) = doc_line_end_lem e.gap e.e_cur v.cursor in
    cursor-IsEdit e (doc_line_end e.gap e.e_cur) v l
move-Keeps k_pgup e v = repeat_cmd-Keeps (text_rows - 1) cmd_up cmd_up-Keeps e v
move-Keeps k_pgdn e v = repeat_cmd-Keeps (text_rows - 1) cmd_down cmd_down-Keeps e v
move-Keeps k_chome e v = cursor-IsEdit e 0 v (omega arith)
move-Keeps k_cend e v = cursor-IsEdit e (gb_len e.gap) v (omega arith)

nav_selection-Keeps : (kbd_shift : ℕ) → Keeps (nav_selection kbd_shift)
unfolding nav_selection
nav_selection-Keeps kbd_shift e v = elim (Bool-cases (has_flag kbd_shift sh_shift)) [
  | inl t ↦ rw t (elim (Bool-cases e.e_selon) [
    | inl on ↦
        rw on (record { valid = v.valid; cursor = v.cursor; selection = λ h. v.selection on })
    | inr off ↦ rw off (record { valid = v.valid; cursor = v.cursor; selection = λ h. v.cursor })
  ])
  | inr f ↦ rw f (unselected v.valid v.cursor)
]

-- What a key does.
press-Keeps :
    (alloc_paras : ℕ → ℕ) (memory : ℕ → Bytes) (kbd_shift : ℕ) (k : Key) (e : Edit)
    → IsEdit e
    → IsEdit (press alloc_paras memory kbd_shift k e).1
unfolding press
press-Keeps alloc_paras memory kbd_shift (nav m) e v =
    move-Keeps m (nav_selection kbd_shift e) (nav_selection-Keeps kbd_shift e v)
press-Keeps alloc_paras memory kbd_shift k_del e v =
    elim (Bool-cases (has_flag kbd_shift sh_shift)) [
      | inl t ↦ rw t (edit_cut-Keeps alloc_paras memory e v)
      | inr f ↦ rw f (IsPlain-IsEdit (cmd_del e) (cmd_del-IsPlain e v))
    ]
press-Keeps alloc_paras memory kbd_shift k_ins e v =
    elim (Bool-cases (has_flag kbd_shift sh_shift)) [
      | inl t ↦ rw t (edit_paste-Keeps memory e v)
      | inr f ↦ rw f (elim (Bool-cases (has_flag kbd_shift sh_ctrl)) [
        | inl t ↦ rw t (edit_copy-Keeps alloc_paras memory e v)
        | inr n ↦ rw n v
      ])
    ]
press-Keeps alloc_paras memory kbd_shift key_bs e v =
    IsPlain-IsEdit (cmd_backspace e) (cmd_backspace-IsPlain e v)
press-Keeps alloc_paras memory kbd_shift key_enter e v =
    IsPlain-IsEdit (cmd_enter e) (cmd_enter-IsPlain e v)
press-Keeps alloc_paras memory kbd_shift key_tab e v =
    IsPlain-IsEdit (ins_char 9 e) (ins_char-IsPlain 9 e v)
press-Keeps alloc_paras memory kbd_shift (char c) e v =
    IsPlain-IsEdit (ins_char c e) (ins_char-IsPlain c e v)
press-Keeps alloc_paras memory kbd_shift other e v = v

-- The editor keeps its invariant: after every key, with every state of Shift and Ctrl and whether or not
-- the kernel gives memory for the clipboard, the gap buffer is valid, the cursor is in the text or at
-- its end, and so is the fixed end of the selection when there is one.
pub edit_handle-IsEdit :
    (alloc_paras : ℕ → ℕ) (memory : ℕ → Bytes) (kbd_shift k : ℕ) (e : Edit)
    → IsEdit e
    → IsEdit (edit_handle alloc_paras memory kbd_shift k e).1
unfolding edit_handle
edit_handle-IsEdit alloc_paras memory kbd_shift k e v =
    press-Keeps alloc_paras memory kbd_shift (read_key k) (record e { e_msg = none }) v
