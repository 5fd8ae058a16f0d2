-- ===== src/Editor/Edit/Undo.antt =====
-- What is typed in apps/medit/edit.c, Backspace takes back.
use harvac.Prelude.{
  ℕ, ◌+◌, ◌-◌, ◌≤◌, ◌<◌, ◌≡◌, ◌≢◌, refl, ap, sym, subst, ◌∙◌, arith, false, ltb, ◌==◌,
  if◌then◌else◌, u16, min, some, ne→==,
}
use harvac.Editor.Gap.{Gap, gb_at, gb_len, gb_insert, gb_del}
use harvac.Editor.Gap.Text.{IsGap, gb_len_lem, gb_insert_lem, gb_del_lem}
use harvac.Editor.Lines.{lf}
use harvac.Editor.Edit.{Edit, sel_normalize, del_selection, set_prefcol}
use harvac.Editor.Edit.Commands.{ins_char, after_insert, step_back, cmd_backspace}
use harvac.Editor.Edit.Valid.{IsEdit}

-- Without a selection nothing is deleted first.
del_selection-none :
    (e : Edit)
    → e.e_selon ≡ false
    → let (deleted, s) = del_selection e in
      (deleted ≡ false) × (s.gap ≡ e.gap) × (s.e_cur ≡ e.e_cur) × (s.e_selon ≡ false)
unfolding del_selection sel_normalize
del_selection-none e off =
    (ground (arith, off), ground (arith, off), ground (arith, off), ground (arith, off))

-- A text with one character more.
record Longer (g g' : Gap) (pos c : ℕ) : Type 0 where
  valid : IsGap g'
  longer : gb_len g' ≡ gb_len g + 1
  text :
      (p : ℕ)
      → p < gb_len g'
      → gb_at g' p ≡ (if ltb p pos then gb_at g p else if p == pos then c else gb_at g (p - 1))

ins_char-text :
    (c : ℕ) (e : Edit)
    → IsEdit e
    → e.e_selon ≡ false
    → e.gap.gs < e.gap.ge
    → let t = ins_char c e in
      Longer e.gap t.gap e.e_cur c × (t.e_cur ≡ e.e_cur + 1) × (t.e_selon ≡ false)
unfolding ins_char after_insert set_prefcol
ins_char-text c e v off space =
    let (_, g, k, o) = del_selection-none e off in
    let (g', e', v', n, text) = (gb_insert_lem e.e_cur c v.valid v.cursor).1 space in
    let s = (del_selection e).1 in
    let call : gb_insert s.gap s.e_cur c ≡ some g' = rw (g, k) e' in
    let next : u16 (s.e_cur + 1) ≡ e.e_cur + 1 =
      omega (arith, k, n, v.cursor, v'.small, gb_len_lem v') in
    subst
      (λ x.
        let t = after_insert x 1 s in
        Longer e.gap t.gap e.e_cur c × (t.e_cur ≡ e.e_cur + 1) × (t.e_selon ≡ false))
      (sym call) (record { valid = v'; longer = n; text = text }, next, o)

backspace-text :
    (e : Edit)
    → IsGap e.gap
    → e.e_cur ≤ gb_len e.gap
    → e.e_selon ≡ false
    → 0 < e.e_cur
    → gb_at e.gap (e.e_cur - 1) ≢ lf
    → let b = cmd_backspace e in (b.e_cur ≡ e.e_cur - 1) × (b.gap ≡ gb_del e.gap (e.e_cur - 1) 1)
unfolding cmd_backspace set_prefcol
backspace-text e v h off l ne =
    let (d, g, k, o) = del_selection-none e off in
    let s = (del_selection e).1 in
    let not_lf : (gb_at e.gap (e.e_cur - 1) == lf) ≡ false = ne→== _ _ ne in
    let nz : (s.e_cur == 0) ≡ false = ground (arith, k, l) in
    let prev : step_back s.gap s.e_cur ≡ e.e_cur - 1 = rw (g, k, not_lf) refl in
    let one : e.e_cur - (e.e_cur - 1) ≡ 1 = omega arith in
    rw (d, nz, prev) (refl, rw (g, k, one) refl)

-- A character typed where nothing is selected and there is room, any but a line feed, and Backspace after
-- it: the cursor is where it was, and the text is as long as before with the same bytes.
pub cmd_backspace-ins_char :
    (c : ℕ) (e : Edit)
    → IsEdit e
    → e.e_selon ≡ false
    → e.gap.gs < e.gap.ge
    → c ≢ lf
    → let b = cmd_backspace (ins_char c e) in
      (b.e_cur ≡ e.e_cur)
      × (gb_len b.gap ≡ gb_len e.gap)
      × ((p : ℕ) → p < gb_len e.gap → gb_at b.gap p ≡ gb_at e.gap p)
cmd_backspace-ins_char c e v off space ne =
    let t = ins_char c e in
    let (l, k, o) = ins_char-text c e v off space in
    let at : t.e_cur - 1 ≡ e.e_cur = omega (arith, k) in
    let typed : gb_at t.gap (t.e_cur - 1) ≡ c =
      rw at (l.text e.e_cur (omega (arith, l.longer, v.cursor)) ∙ ground arith) in
    let (cur, del) =
      backspace-text t l.valid (omega (arith, k, l.longer, v.cursor)) o (omega (arith, k))
        (rw typed ne) in
    let (w, n, text) =
      (gb_del_lem (t.e_cur - 1) 1 l.valid).1 (omega (arith, k, l.longer, v.cursor)) in
    let len : gb_len (cmd_backspace t).gap ≡ gb_len e.gap =
      ap gb_len del ∙ omega (arith, n, l.longer, k, v.cursor) in
    let one : min 1 (gb_len t.gap - e.e_cur) ≡ 1 = omega (arith, l.longer, v.cursor) in
    let back : (p : ℕ) → gb_at e.gap (p + 1 - 1) ≡ gb_at e.gap p =
      λ p. ap (gb_at e.gap) (omega arith) in
    (
      cur ∙ at,
      len,
      λ p h.
          ap (λ g. gb_at g p) del
          ∙ text p (omega (arith, n, l.longer, k, v.cursor, h))
          ∙ rw (at, one)
              (ground (
                arith,
                l.text p (omega (arith, l.longer)),
                l.text (p + 1) (omega (arith, l.longer)),
                back p,
              )),
    )
