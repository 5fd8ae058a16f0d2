-- ===== src/Editor/Edit/Screen.antt =====
-- `ensure_visible` of apps/medit/edit.c brings the cursor on the screen.
use harvac.Prelude.{
  ℕ, zero, ◌+◌, ◌-◌, ◌≤◌, ◌<◌, ◌≡◌, inl, inr, refl, arith, Bool, false, ltb, leb, ◌==◌, ◌&&◌,
  if◌then◌else◌, u16, Bool-cases, ltb→lt, ltb→ge, suc, subst, ◌∙◌, ==→eq, ==→ne,
}
use harvac.Editor.Gap.{Gap, gb_at, gb_len}
use harvac.Editor.Lines.Steps.{doc_next_line_lem, doc_next_line-lt}
use harvac.Editor.Lines.{
  cr, lf, doc_line_home_lem, doc_line_end_lem, doc_line_home, doc_line_end, doc_next_line,
  doc_prev_line,
}
use harvac.Editor.Edit.{Edit, disp_col}
use harvac.Editor.Edit.Rows.{
  cols, text_rows, scroll_to, line_rows, top_loop, rows_loop, scroll_loop, ensure_visible,
}

-- How many lines below a position the line starts that begins at `home`: a step goes behind the end of
-- the line.
pub data LinesTo (g : Gap) (home : ℕ) : (p n : ℕ) → Type 0 where
  at : {p n : ℕ} → p ≡ home → n ≡ 0 → LinesTo g home p n
  down :
      {p n k : ℕ}
      → p < home
      → LinesTo g home (doc_next_line g (doc_line_end g p)) n
      → k ≡ suc n
      → LinesTo g home p k

scroll_to-window :
    (hscroll col : ℕ) → (scroll_to hscroll col ≤ col) × (col < scroll_to hscroll col + cols)
scroll_to-window hscroll col = (ground arith, ground arith)

doc_prev_line-lt : (g : Gap) (p : ℕ) → 0 < p → doc_prev_line g p < p
unfolding doc_prev_line
doc_prev_line-lt g p h =
    let q =
      if gb_at g (p - 1) == lf && ltb 0 (p - 1) && (gb_at g (p - 1 - 1) == cr)
      then p - 1 - 1
      else p - 1 in
    let low : q < p = ground arith in let (le, _, _) = doc_line_home_lem g q in ground arith

-- One more than the position is enough fuel to come to the line of the cursor or above it.
pub top_loop-enough :
    (g : Gap) (fuel chome top line : ℕ) → top < fuel → (top_loop g fuel chome top line).0 ≤ chome
unfolding top_loop
top_loop-enough g zero chome top line h = absurd (omega arith)
top_loop-enough g (suc fuel) chome top line h = elim (Bool-cases (ltb chome top)) [
  | inl t ↦
      let less = doc_prev_line-lt g top (omega (arith, ltb→lt _ _ t)) in
      rw t (
        top_loop-enough g fuel chome (doc_prev_line g top) (if ltb 1 line then line - 1 else line)
          (omega arith))
  | inr f ↦ rw f (ltb→ge _ _ f)
]

doc_next_line-progress :
    (g : Gap) (p chome : ℕ) → p < chome → chome ≤ gb_len g → p < doc_next_line g (doc_line_end g p)
doc_next_line-progress g p chome h l =
    let lend = doc_line_end g p in
    let (a, b, _, _) = doc_line_end_lem g p (omega arith) in
    elim (Bool-cases (ltb lend (gb_len g))) [
      | inl t ↦ omega (arith, a, doc_next_line-lt g lend (ltb→lt _ _ t))
      | inr f ↦ omega (arith, (doc_next_line_lem g lend b).0, ltb→ge _ _ f, b)
    ]

-- One more than the characters up to the line of the cursor is enough fuel to count the rows above it.
pub rows_loop-enough :
    (wrap : Bool) (g : Gap) (fuel p chome rows extra : ℕ)
    → chome ≤ gb_len g
    → chome - p < fuel
    → rows_loop wrap g (fuel + extra) p chome rows ≡ rows_loop wrap g fuel p chome rows
unfolding rows_loop
rows_loop-enough wrap g zero p chome rows extra l h = absurd (omega arith)
rows_loop-enough wrap g (suc fuel) p chome rows extra l h =
    let step : suc fuel + extra ≡ suc (fuel + extra) = omega arith in
    rw step (elim (Bool-cases (ltb p chome)) [
      | inl t ↦
          let below = ltb→lt _ _ t in
          let lend = doc_line_end g p in
          let (a, b, _, _) = doc_line_end_lem g p (omega arith) in
          let (c, _) = doc_next_line_lem g lend b in
          let d = doc_next_line-progress g p chome below l in
          rw t (
            rows_loop-enough wrap g fuel (doc_next_line g lend) chome
              (u16 (rows + line_rows wrap g p lend)) extra l (omega (arith, d)))
      | inr f ↦ rw f refl
    ])

pub LinesTo-le : (g : Gap) (home p n : ℕ) → home ≤ gb_len g → LinesTo g home p n → n + p ≤ home
LinesTo-le g home p n l (at e z) = omega (arith, e, z)
LinesTo-le g home p n l (down {n = m} less r e) =
    let step = doc_next_line-progress g p home less l in
    let rest = LinesTo-le g home (doc_next_line g (doc_line_end g p)) m l r in omega arith

-- A line above the one of the cursor ends before it or where it starts.
next-le :
    (g : Gap) (pos p : ℕ)
    → pos ≤ gb_len g
    → p < doc_line_home g pos
    → doc_next_line g (doc_line_end g p) ≤ doc_line_home g pos
unfolding doc_next_line
next-le g pos p l h =
    let home = doc_line_home g pos in
    let (le, starts, _) = doc_line_home_lem g pos in
    let lend = doc_line_end g p in
    let (a, b, c, d) = doc_line_end_lem g p (omega arith) in
    let break_before : gb_at g (home - 1) ≡ lf = starts (omega arith) in
    let early : lend ≤ home - 1 = elim (Bool-cases (ltb (home - 1) lend)) [
      | inl t ↦ absurd (d (home - 1) (omega arith) (ltb→lt _ _ t) (inr break_before))
      | inr f ↦ ltb→ge _ _ f
    ] in
    elim (Bool-cases (lend == home - 1)) [
      | inl same ↦
          let e = ==→eq _ _ same in
          let is_lf : gb_at g lend ≡ lf = rw e break_before in ground (arith, is_lf, e)
      | inr other ↦ let ne = ==→ne _ _ other in ground (arith, ne, early)
    ]

-- The count of the lines above the cursor's.
rows_loop-counts :
    (g : Gap) (pos fuel p rows : ℕ)
    → pos ≤ gb_len g
    → p ≤ doc_line_home g pos
    → doc_line_home g pos - p < fuel
    → (n : ℕ) × LinesTo g (doc_line_home g pos) p n
      × (rows + n < 65536 → rows_loop false g fuel p (doc_line_home g pos) rows ≡ rows + n)
unfolding rows_loop
rows_loop-counts g pos zero p rows l a h = absurd (omega arith)
rows_loop-counts g pos (suc fuel) p rows l a h =
    let home = doc_line_home g pos in
    let (le, _, _) = doc_line_home_lem g pos in
    elim (Bool-cases (ltb p home)) [
      | inr f ↦ let over = ltb→ge _ _ f in (0, at (omega arith) refl, λ small. rw f (omega arith))
      | inl t ↦
          let less = ltb→lt _ _ t in
          let next = doc_next_line g (doc_line_end g p) in
          let step = doc_next_line-progress g p home less (omega arith) in
          let (n, r, e) =
            rows_loop-counts g pos fuel next (u16 (rows + 1)) l (next-le g pos p l less)
              (omega arith) in
          (
            suc n,
            down less r refl,
            λ small.
                let whole : u16 (rows + 1) ≡ rows + 1 = omega arith in
                rw t (e (omega arith) ∙ omega (arith, whole)),
          )
    ]

LinesTo-suc :
    {g : Gap} {home p n : ℕ}
    → LinesTo g home p (suc n)
    → LinesTo g home (doc_next_line g (doc_line_end g p)) n
LinesTo-suc (at e z) = absurd (omega (arith, z))
LinesTo-suc {g} {home} {p} {n} (down {n = m} h r e) =
    let same : m ≡ n = omega (arith, e) in
    subst (λ x. LinesTo g home (doc_next_line g (doc_line_end g p)) x) same r

-- One more than the rows is enough fuel.
scroll_loop-LinesTo :
    (g : Gap) (home fuel rows top line : ℕ)
    → rows < fuel
    → rows < 32768
    → LinesTo g home top rows
    → let (row, top', line') = scroll_loop false g fuel rows top line in
      LinesTo g home top' row × (row < 23)
unfolding scroll_loop
scroll_loop-LinesTo g home zero rows top line h small r = absurd (omega arith)
scroll_loop-LinesTo g home (suc fuel) zero top line h small r = (r, omega arith)
scroll_loop-LinesTo g home (suc fuel) (suc n) top line h small r =
    elim (Bool-cases (leb text_rows (suc n))) [
      | inr f ↦ rw f (r, ground arith)
      | inl t ↦
          let whole : leb 32768 (suc n) ≡ false = ground arith in
          let less : u16 (suc n + 65536 - 1) ≡ n = omega arith in
          let low : leb 32768 n ≡ false = ground arith in
          rw (t, whole, less, low)
            (scroll_loop-LinesTo g home fuel n (doc_next_line g (doc_line_end g top))
              (u16 (line + 1)) (omega arith) (omega arith) (LinesTo-suc r))
    ]

-- Without word wrap, for a cursor in the text with at most 32767 lines from any place to its line, as
-- many as the count of the rows holds, and less than 32688 columns in its line: the row of the cursor is
-- one of the 23 rows of the text, and as many lines below the first one on the screen the line of the
-- cursor starts. The column is the one of the cursor with tabs expanded, and one of the 80 columns from
-- the scroll position on.
pub ensure_visible-screen :
    (e : Edit)
    → e.e_cur ≤ gb_len e.gap
    → ((p n : ℕ) → LinesTo e.gap (doc_line_home e.gap e.e_cur) p n → n < 32768)
    → disp_col e.gap (doc_line_home e.gap e.e_cur) e.e_cur < 32688
    → let s = ensure_visible false e in
      LinesTo e.gap (doc_line_home e.gap e.e_cur) s.e_top s.e_currow
      × (s.e_currow < 23)
      × (s.e_curcol ≡ disp_col e.gap (doc_line_home e.gap e.e_cur) e.e_cur)
      × (s.e_hscroll ≤ s.e_curcol)
      × (s.e_curcol < s.e_hscroll + 80)
unfolding ensure_visible
ensure_visible-screen e l few narrow =
    let g = e.gap in
    let chome = doc_line_home g e.e_cur in
    let home = doc_line_home g e.e_top in
    let top = (top_loop g (1 + home) chome home e.e_topline).0 in
    let line = (top_loop g (1 + home) chome home e.e_topline).1 in
    let above = top_loop-enough g (1 + home) chome home e.e_topline (omega arith) in
    let (n, r, count) =
      rows_loop-counts g e.e_cur (1 + (chome - top)) top 0 l above (omega arith) in
    let small = few top n r in
    let rows : rows_loop false g (1 + (chome - top)) top chome 0 ≡ n =
      count (omega arith) ∙ omega arith in
    let (shown, on) = scroll_loop-LinesTo g chome (1 + n) n top line (omega arith) small r in
    let (left, right) = scroll_to-window e.e_hscroll (disp_col g chome e.e_cur) in
    rw rows (shown, on, refl, left, right)
