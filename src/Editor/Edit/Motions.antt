-- ===== src/Editor/Edit/Motions.antt =====
-- The motions of apps/medit/edit.c and the lines of the text.
use harvac.Prelude.{
  ℕ, zero, suc, ◌+◌, ◌-◌, ◌≤◌, ◌<◌, ◌≡◌, inl, inr, refl, ap, sym, subst, ◌∙◌, arith, ltb, leb, ◌==◌,
  if◌then◌else◌, u16, Bool-cases, ltb→lt, ltb→ge, none, some, Bytes, ==→ne,
}
use harvac.Hdk.Keys.{has_flag, sh_shift}
use harvac.Editor.Gap.{Gap, gb_at, gb_len}
use harvac.Editor.Gap.Text.{IsGap, gb_len_lem}
use harvac.Editor.Lines.{
  doc_line_home, doc_line_end, doc_line_end_lem, doc_next_line, doc_prev_line,
}
use harvac.Editor.Lines.Steps.{
  IsPlace, doc_next_line-IsPlace, doc_line_home-IsPlace, doc_line_end-IsPlace,
  doc_prev_line-IsPlace,
}
use harvac.Editor.Edit.{Edit, seek_col, pos_at_col, next_col, set_prefcol}
use harvac.Editor.Edit.Rows.{text_rows}
use harvac.Editor.Edit.Commands.{
  step_back, at_break, cmd_left, cmd_right, cmd_up, cmd_down, cmd_home, cmd_end,
}
use harvac.Editor.Edit.Handle.{
  Motion, k_up, k_down, k_left, k_right, k_home, k_end, k_pgup, k_pgdn, k_chome, k_cend, repeat_cmd,
  move, is_nav_key, read_key, key_of, press, nav, nav_selection, edit_handle,
}

pub seek_col_lem :
    (g : Gap) (left p col want : ℕ)
    → (p ≤ seek_col g left p col want) × (seek_col g left p col want ≤ p + left)
unfolding seek_col
seek_col_lem g zero p col want = (omega arith, omega arith)
seek_col_lem g (suc left) p col want =
    let (a, b) = seek_col_lem g left (p + 1) (next_col (gb_at g p) col) want in
    (ground arith, ground arith)

-- A place of a line that starts at a place.
pub pos_at_col-IsPlace :
    (g : Gap) (home want : ℕ) → IsPlace g home → IsPlace g (pos_at_col g home want)
unfolding pos_at_col
pos_at_col-IsPlace g home want v =
    let (a, b, c, d) = doc_line_end_lem g home v.inside in
    let (l, h) = seek_col_lem g (doc_line_end g home - home) home 0 want in
    let p = seek_col g (doc_line_end g home - home) home 0 want in
    record {
      inside = omega arith;
      whole = λ z k e. elim (Bool-cases (ltb home p)) [
        | inl t ↦
            absurd (d (p - 1) (omega (arith, ltb→lt _ _ t)) (omega (arith, ltb→lt _ _ t)) (inl e))
        | inr f ↦
            let same : p ≡ home = omega (arith, ltb→ge _ _ f) in
            rw same (v.whole (rw same at z) (rw same at k) (rw same at e))
      ];
    }

step_back-IsPlace : (g : Gap) (p : ℕ) → 0 < p → p ≤ gb_len g → IsPlace g (step_back g p)
step_back-IsPlace g p h l = record { inside = ground arith; whole = λ z k e x. ground arith }

right-IsPlace :
    (g : Gap) (p : ℕ)
    → IsGap g
    → p < gb_len g
    → IsPlace g (if at_break g p then doc_next_line g p else u16 (p + 1))
right-IsPlace g p v h = elim (Bool-cases (at_break g p)) [
  | inl t ↦ rw t (doc_next_line-IsPlace g p (omega arith) (λ l. ground arith))
  | inr f ↦
      let next : u16 (p + 1) ≡ p + 1 = omega (arith, v.small, gb_len_lem v) in
      let back : gb_at g (p + 1 - 1) ≡ gb_at g p =
        ap (gb_at g) (let e : p + 1 - 1 ≡ p = omega arith in e) in
      rw (f, next) (record { inside = omega arith; whole = λ z k e x. ground (arith, f, back) })
]

-- A motion that keeps the text, and leaves a cursor at a place at a place.
abbrev Moves : (Edit → Edit) → Type 0
Moves f =
    (e : Edit)
    → IsGap e.gap
    → IsPlace e.gap e.e_cur
    → ((f e).gap ≡ e.gap) × IsPlace e.gap (f e).e_cur

cmd_left-Moves : Moves cmd_left
unfolding cmd_left set_prefcol
cmd_left-Moves e v p = elim (Bool-cases (e.e_cur == 0)) [
  | inl t ↦ rw t (refl, p)
  | inr f ↦ rw f (refl, step_back-IsPlace e.gap e.e_cur (omega (arith, ==→ne _ _ f)) p.inside)
]

cmd_right-Moves : Moves cmd_right
unfolding cmd_right set_prefcol
cmd_right-Moves e v p = elim (Bool-cases (leb (gb_len e.gap) e.e_cur)) [
  | inl t ↦ rw t (refl, p)
  | inr f ↦ rw f (refl, right-IsPlace e.gap e.e_cur v (ground arith))
]

cmd_up-Moves : Moves cmd_up
unfolding cmd_up
cmd_up-Moves e v p =
    let home = doc_line_home e.gap e.e_cur in
    let up =
      pos_at_col-IsPlace e.gap (doc_prev_line e.gap home) e.e_prefcol
        (doc_prev_line-IsPlace e.gap home (doc_line_home-IsPlace e.gap e.e_cur p.inside).inside) in
    elim (Bool-cases (home == 0)) [ inl t ↦ rw t (refl, p) | inr f ↦ rw f (refl, up) ]

cmd_down-Moves : Moves cmd_down
unfolding cmd_down
cmd_down-Moves e v p =
    let (_, b, c, _) = doc_line_end_lem e.gap e.e_cur p.inside in
    let end = doc_line_end e.gap e.e_cur in
    let down =
      pos_at_col-IsPlace e.gap (doc_next_line e.gap end) e.e_prefcol
        (doc_next_line-IsPlace e.gap end b c) in
    elim (Bool-cases (leb (gb_len e.gap) end)) [
      | inl t ↦ rw t (refl, p)
      | inr f ↦ rw f (refl, down)
    ]

repeat_cmd-Moves : (n : ℕ) (f : Edit → Edit) → Moves f → Moves (repeat_cmd n f)
repeat_cmd-Moves zero f h e v p = (refl, p)
repeat_cmd-Moves (suc n) f h e v p =
    let (same, q) = h e v p in
    let (rest, r) =
      repeat_cmd-Moves n f h (f e) (subst IsGap (sym same) v)
        (subst (λ g. IsPlace g (f e).e_cur) (sym same) q) in
    (rest ∙ same, subst (λ g. IsPlace g (repeat_cmd n f (f e)).e_cur) same r)

move-Moves : (m : Motion) → Moves (move m)
unfolding move cmd_home cmd_end set_prefcol
move-Moves k_up e v p = cmd_up-Moves e v p
move-Moves k_down e v p = cmd_down-Moves e v p
move-Moves k_left e v p = cmd_left-Moves e v p
move-Moves k_right e v p = cmd_right-Moves e v p
move-Moves k_home e v p = (refl, doc_line_home-IsPlace e.gap e.e_cur p.inside)
move-Moves k_end e v p = (refl, doc_line_end-IsPlace e.gap e.e_cur p)
move-Moves k_pgup e v p = repeat_cmd-Moves (text_rows - 1) cmd_up cmd_up-Moves e v p
move-Moves k_pgdn e v p = repeat_cmd-Moves (text_rows - 1) cmd_down cmd_down-Moves e v p
move-Moves k_chome e v p =
    (refl, record { inside = omega arith; whole = λ z k x. absurd (omega arith) })
move-Moves k_cend e v p =
    (refl, record { inside = omega arith; whole = λ z k x. absurd (omega arith) })

nav_selection-Moves : (kbd_shift : ℕ) → Moves (nav_selection kbd_shift)
unfolding nav_selection
nav_selection-Moves kbd_shift e v p = elim (Bool-cases (has_flag kbd_shift sh_shift)) [
  | inl t ↦
      rw t (elim (Bool-cases e.e_selon) [ inl on ↦ rw on (refl, p) | inr off ↦ rw off (refl, p) ])
  | inr f ↦ rw f (refl, p)
]

read_key-nav : (k : ℕ) (m : Motion) → is_nav_key k ≡ some m → read_key k ≡ nav m
unfolding read_key key_of
read_key-nav k m h = ap (λ o. key_of o k) h

-- A motion key in a valid gap buffer, whatever Shift, the selection and the columns are: the text stays
-- as it is, and from a place in the text that is not between a carriage return and its line feed the
-- cursor comes to such a place again.
pub edit_handle-Moves :
    (alloc_paras : ℕ → ℕ) (memory : ℕ → Bytes) (kbd_shift k : ℕ) (m : Motion) (e : Edit)
    → is_nav_key k ≡ some m
    → IsGap e.gap
    → IsPlace e.gap e.e_cur
    → let after = (edit_handle alloc_paras memory kbd_shift k e).1 in
      (after.gap ≡ e.gap) × IsPlace e.gap after.e_cur
unfolding edit_handle press
edit_handle-Moves alloc_paras memory kbd_shift k m e h v p =
    let cleared : Edit = record e { e_msg = none } in
    let (same, q) = nav_selection-Moves kbd_shift cleared v p in
    let s = nav_selection kbd_shift cleared in
    let (moved, r) =
      move-Moves m s (subst IsGap (sym same) v) (subst (λ g. IsPlace g s.e_cur) (sym same) q) in
    rw (read_key-nav k m h, edit_handle)
      (moved ∙ same, subst (λ g. IsPlace g (move m s).e_cur) same r)
