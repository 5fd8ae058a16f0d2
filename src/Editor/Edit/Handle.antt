-- ===== src/Editor/Edit/Handle.antt =====
-- `edit_handle` of apps/medit/edit.c: a key in the text.
use harvac.Prelude.{
  ℕ, zero, suc, ◌-◌, Bool, true, false, not, ◌&&◌, ltb, leb, ◌==◌, if◌then◌else◌, Bytes, Option,
  none, some,
}
use harvac.Hdk.Keys.{k_special, k_bs, k_tab, k_enter, has_flag, sh_shift, sh_ctrl}
use harvac.Editor.Gap.{gb_len}
use harvac.Editor.Edit.{Edit, set_prefcol}
use harvac.Editor.Edit.Rows.{text_rows}
use harvac.Editor.Edit.Commands.{
  ins_char, cmd_enter, cmd_backspace, cmd_del, cmd_left, cmd_right, cmd_up, cmd_down, cmd_home,
  cmd_end, edit_paste, edit_copy, edit_cut,
}

-- The keys of `is_nav_key`, by the names of hdk_keys.h
pub data Motion : Type 0 where
  k_up k_down k_left k_right k_home k_end k_pgup k_pgdn k_chome k_cend : Motion

-- The key code of `edit_handle` read: the cases of its `switch`, with the keys Del and Ins apart.
pub data Key : Type 0 where
  nav : (m : Motion) → Key
  k_del : Key
  k_ins : Key
  key_bs : Key
  key_enter : Key
  key_tab : Key
  char : (c : ℕ) → Key
  other : Key

-- Which motion a key is: `is_nav_key`.
unfoldable pub is_nav_key : (k : ℕ) → Option Motion
is_nav_key k =
    if k == k_special 0x48
    then some k_up
    else if k == k_special 0x50
    then some k_down
    else if k == k_special 0x4b
    then some k_left
    else if k == k_special 0x4d
    then some k_right
    else if k == k_special 0x47
    then some k_home
    else if k == k_special 0x4f
    then some k_end
    else if k == k_special 0x49
    then some k_pgup
    else if k == k_special 0x51
    then some k_pgdn
    else if k == k_special 0x77
    then some k_chome
    else if k == k_special 0x75
    then some k_cend
    else none

unfoldable pub key_of : Option Motion → (k : ℕ) → Key
key_of (some m) k = nav m
key_of none k =
    if k == k_special 0x53
    then k_del
    else if k == k_special 0x52
    then k_ins
    else if k == k_bs
    then key_bs
    else if k == k_enter
    then key_enter
    else if k == k_tab
    then key_tab
    else if leb 32 k && ltb k 0x100 && not (k == 127)
    then char k
    else other

unfoldable pub read_key : (k : ℕ) → Key
read_key k = key_of (is_nav_key k) k

-- A command, as often as a page has rows but one.
abbrev pub repeat_cmd : (n : ℕ) → (Edit → Edit) → Edit → Edit
repeat_cmd zero f e = e
repeat_cmd (suc n) f e = repeat_cmd n f (f e)

-- The cases of the motions.
unfoldable pub move : Motion → Edit → Edit
move k_up e = cmd_up e
move k_down e = cmd_down e
move k_left e = cmd_left e
move k_right e = cmd_right e
move k_home e = cmd_home e
move k_end e = cmd_end e
move k_pgup e = repeat_cmd (text_rows - 1) cmd_up e
move k_pgdn e = repeat_cmd (text_rows - 1) cmd_down e
move k_chome e = record e { e_cur = 0; e_top = 0; e_topline = 1; e_prefcol = 0 }
move k_cend e = set_prefcol (record e { e_cur = gb_len e.gap })

-- The selection before a motion: with Shift it starts at the cursor or goes on, without it ends.
unfoldable pub nav_selection : (kbd_shift : ℕ) → Edit → Edit
nav_selection kbd_shift e =
    let started : Edit = record e { e_selon = true; e_selanchor = e.e_cur } in
    if has_flag kbd_shift sh_shift
    then if e.e_selon then e else started
    else record e { e_selon = false }

-- What a key does. The return value 1 is `true`.
unfoldable pub press :
    (alloc_paras : ℕ → ℕ) (memory : ℕ → Bytes) (kbd_shift : ℕ) → Key → Edit → Bool × Edit
press alloc_paras memory kbd_shift (nav m) e = (true, move m (nav_selection kbd_shift e))
press alloc_paras memory kbd_shift k_del e =
    (true, if has_flag kbd_shift sh_shift then edit_cut alloc_paras memory e else cmd_del e)
press alloc_paras memory kbd_shift k_ins e =
    if has_flag kbd_shift sh_shift
    then (true, edit_paste memory e)
    else if has_flag kbd_shift sh_ctrl
    then (true, edit_copy alloc_paras memory e)
    else (false, e)
press alloc_paras memory kbd_shift key_bs e = (true, cmd_backspace e)
press alloc_paras memory kbd_shift key_enter e = (true, cmd_enter e)
press alloc_paras memory kbd_shift key_tab e = (true, ins_char 9 e)
press alloc_paras memory kbd_shift (char c) e = (true, ins_char c e)
press alloc_paras memory kbd_shift other e = (false, e)

-- A message lasts until the next key.
unfoldable pub edit_handle :
    (alloc_paras : ℕ → ℕ) (memory : ℕ → Bytes) (kbd_shift k : ℕ) → Edit → Bool × Edit
edit_handle alloc_paras memory kbd_shift k e =
    press alloc_paras memory kbd_shift (read_key k) (record e { e_msg = none })
