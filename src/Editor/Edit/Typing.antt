-- ===== src/Editor/Edit/Typing.antt =====
-- The commands of apps/medit/edit.c that change the text leave a valid editor without a selection.
use harvac.Prelude.{
  ℕ, ◌+◌, ◌-◌, ◌≤◌, ◌<◌, ◌≡◌, ◌⊎◌, inl, inr, ap, sym, subst, ◌∙◌, arith, true, ltb, leb, ◌==◌,
  if◌then◌else◌, Bool-cases, Option, none, some, Bytes, ==→eq, ==→ne, ltb→lt, ltb→ge,
}
use harvac.Editor.Gap.{Gap, gb_len, gb_insert, gb_insert_block, gb_del, sub_u16}
use harvac.Editor.Gap.Text.{IsGap, gb_len_lem, gb_insert_lem, gb_move_lem}
use harvac.Editor.Gap.Block.{gb_insert_block_lem}
use harvac.Editor.Lines.{cr, lf, doc_next_line}
use harvac.Editor.Lines.Steps.{doc_next_line_lem}
use harvac.Editor.Edit.{Edit, del_selection, set_prefcol, edit_set_msg}
use harvac.Editor.Edit.Commands.{
  ins_char, after_insert, stepped, typed_in, step_back, at_break, cmd_enter, cmd_backspace, cmd_del,
  edit_insert_str,
}
use harvac.Editor.Edit.Valid.{IsEdit, IsPlain, gb_del-IsGap, del_selection-IsPlain}

-- Behind an insertion that either fails, or leaves a longer text.
after_insert-IsPlain :
    (o : Option Gap) (n : ℕ) (e : Edit)
    → IsPlain e
    → (o ≡ none) ⊎ ((g : Gap) × (o ≡ some g) × IsGap g × (gb_len g ≡ gb_len e.gap + n))
    → IsPlain (after_insert o n e)
unfolding after_insert edit_set_msg set_prefcol
after_insert-IsPlain none n e v h = v
after_insert-IsPlain (some gap) n e (v, c, off) (inl h) = absurd cc
after_insert-IsPlain (some gap) n e (v, c, off) (inr (g, h, w, l)) =
    let same : gap ≡ g = cc in
    let w' : IsGap gap = subst IsGap (sym same) w in
    let l' : gb_len gap ≡ gb_len e.gap + n = ap gb_len same ∙ l in
    (w', omega (arith, l', gb_len_lem w', w'.small), off)

pub ins_char-IsPlain : (c : ℕ) (e : Edit) → IsEdit e → IsPlain (ins_char c e)
unfolding ins_char
ins_char-IsPlain c e v =
    let s = (del_selection e).1 in
    let p = del_selection-IsPlain e v in
    let (full, room) = gb_insert_lem s.e_cur c p.0 p.1 in
    after_insert-IsPlain (gb_insert s.gap s.e_cur c) 1 s p
      (elim (Bool-cases (s.gap.gs == s.gap.ge)) [
        | inl t ↦ inl (full (==→eq _ _ t))
        | inr f ↦
            let (g', e', v', n, _) = room (omega (arith, ==→ne _ _ f, p.0.gap)) in
            inr (g', e', v', n)
      ])

pub edit_insert_str-IsPlain :
    (s : Bytes) (n : ℕ) (e : Edit) → IsEdit e → IsPlain (edit_insert_str s n e)
unfolding edit_insert_str
edit_insert_str-IsPlain s n e v =
    let d = (del_selection e).1 in
    let p = del_selection-IsPlain e v in
    let (full, room) = gb_insert_block_lem d.e_cur s n p.0 p.1 in
    after_insert-IsPlain (gb_insert_block d.gap d.e_cur s n) n d p
      (elim (Bool-cases (ltb (d.gap.ge - d.gap.gs) n)) [
        | inl t ↦ inl (full (ltb→lt _ _ t))
        | inr f ↦ let (g', e', v', l, _) = room (ltb→ge _ _ f) in inr (g', e', v', l)
      ])

gb_insert-cap :
    (g g' : Gap) (pos c : ℕ)
    → IsGap g
    → pos ≤ gb_len g
    → gb_insert g pos c ≡ some g'
    → g'.cap ≡ g.cap
unfolding gb_insert
gb_insert-cap g g' pos c v h e =
    let kept = (gb_move_lem pos v h).cap_kept in
    elim (Bool-cases (g.gs == g.ge)) [
      | inl t ↦ absurd (ground (arith, e, t))
      | inr f ↦
          let same = rw f at e in
          ap (λ (o : Option Gap). elim o [ none ↦ 0 | some x ↦ x.cap ]) (sym same) ∙ kept
    ]

-- A character put in where there is room, with `e_cur++` behind it.
typed_in-IsPlain :
    (c : ℕ) (e : Edit)
    → IsPlain e
    → gb_len e.gap < e.gap.cap
    → let t = typed_in c e in
      IsPlain t × (gb_len t.gap ≡ gb_len e.gap + 1) × (t.gap.cap ≡ e.gap.cap)
unfolding stepped
typed_in-IsPlain c e (v, h, off) space =
    let (g', e', v', n, _) = (gb_insert_lem e.e_cur c v h).1 (omega (arith, space, gb_len_lem v)) in
    let kept = gb_insert-cap e.gap g' e.e_cur c v h e' in
    subst
      (λ o.
        let t = stepped o e in
        IsPlain t × (gb_len t.gap ≡ gb_len e.gap + 1) × (t.gap.cap ≡ e.gap.cap))
      (sym e') ((v', omega (arith, n, v'.small, gb_len_lem v'), off), n, kept)

pub cmd_enter-IsPlain : (e : Edit) → IsEdit e → IsPlain (cmd_enter e)
unfolding cmd_enter edit_set_msg
cmd_enter-IsPlain e v =
    let s = (del_selection e).1 in
    let p = del_selection-IsPlain e v in
    elim (Bool-cases (ltb (sub_u16 s.gap.cap (gb_len s.gap)) 2)) [
      | inl t ↦ rw t p
      | inr f ↦
          let room : gb_len s.gap + 2 ≤ s.gap.cap =
            omega (arith, ltb→ge _ _ f, gb_len_lem p.0, p.0.small) in
          let (q, n, k) = typed_in-IsPlain cr s p (omega arith) in
          let (r, _, _) = typed_in-IsPlain lf (typed_in cr s) q (omega (arith, n, k)) in rw f r
    ]

-- A deletion of characters of the text, with the cursor in front of them.
deleted-IsPlain :
    (lo n : ℕ) (e : Edit)
    → IsPlain e
    → lo + n ≤ gb_len e.gap
    → IsPlain (record e { gap = gb_del e.gap lo n; e_cur = lo; e_modified = true })
deleted-IsPlain lo n e (v, h, off) l =
    let (w, k) = gb_del-IsGap e.gap lo n v l in (w, omega (arith, k), off)

pub cmd_backspace-IsPlain : (e : Edit) → IsEdit e → IsPlain (cmd_backspace e)
unfolding cmd_backspace set_prefcol
cmd_backspace-IsPlain e v =
    let (deleted, s) = del_selection e in
    let p = del_selection-IsPlain e v in
    let prev = step_back s.gap s.e_cur in
    let low : prev ≤ s.e_cur = ground arith in
    elim (Bool-cases deleted) [
      | inl t ↦ rw t p
      | inr f ↦ rw f (elim (Bool-cases (s.e_cur == 0)) [
        | inl z ↦ rw z p
        | inr nz ↦ rw nz (deleted-IsPlain prev (s.e_cur - prev) s p (omega (arith, low, p.1)))
      ])
    ]

pub cmd_del-IsPlain : (e : Edit) → IsEdit e → IsPlain (cmd_del e)
unfolding cmd_del set_prefcol
cmd_del-IsPlain e v =
    let (deleted, s) = del_selection e in
    let p = del_selection-IsPlain e v in
    let count = if at_break s.gap s.e_cur then doc_next_line s.gap s.e_cur - s.e_cur else 1 in
    let (a, b) = doc_next_line_lem s.gap s.e_cur p.1 in
    elim (Bool-cases deleted) [
      | inl t ↦ rw t p
      | inr f ↦ rw f (elim (Bool-cases (leb (gb_len s.gap) s.e_cur)) [
        | inl z ↦ rw z p
        | inr nz ↦ rw nz (deleted-IsPlain s.e_cur count s p (ground (arith, a, b, nz)))
      ])
    ]
