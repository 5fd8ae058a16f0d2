-- ===== src/Editor/Edit/Wrap.antt =====
-- The rows of wrapped lines of apps/medit/edit.c fit on the screen and come to an end.
use harvac.Prelude.{
  ℕ, zero, suc, ◌+◌, ◌-◌, ◌≤◌, ◌<◌, ◌≡◌, ◌⊎◌, inl, inr, refl, ap, sym, subst, ◌∙◌, arith, true, ltb,
  leb, ◌==◌, if◌then◌else◌, Bool-cases, Option, none, some, ltb→lt, leb→le, ==→eq, ==→ne,
}
use harvac.Editor.Gap.{Gap, gb_at}
use harvac.Editor.Edit.{next_col, col_loop, disp_col}
use harvac.Editor.Edit.Rows.{wrap_col, row_loop, vis_row_end, vis_rows_of}

col_loop-suc :
    (g : Gap) (n p col : ℕ)
    → col_loop g (suc n) p col ≡ next_col (gb_at g (p + n)) (col_loop g n p col)
unfolding col_loop
col_loop-suc g zero p col = ap (λ q. next_col (gb_at g q) col) (omega arith)
col_loop-suc g (suc n) p col =
    col_loop-suc g n (p + 1) (next_col (gb_at g p) col)
    ∙ ap (λ q. next_col (gb_at g q) (col_loop g n (p + 1) (next_col (gb_at g p) col))) (omega arith)

-- The column of the next position of a line.
disp_col-suc :
    (g : Gap) (pos p : ℕ)
    → pos ≤ p
    → disp_col g pos (p + 1) ≡ next_col (gb_at g p) (disp_col g pos p)
unfolding disp_col
disp_col-suc g pos p h =
    let next : p + 1 - pos ≡ suc (p - pos) = omega arith in
    let here : pos + (p - pos) ≡ p = omega arith in
    rw next (
      col_loop-suc g (p - pos) pos 0
      ∙ ap (λ q. next_col (gb_at g q) (col_loop g (p - pos) pos 0)) here)

disp_col_self : (g : Gap) (pos : ℕ) → disp_col g pos pos ≡ 0
unfolding disp_col col_loop
disp_col_self g pos = let e : pos - pos ≡ 0 = omega arith in rw e refl

-- The end of a row from a position and the start of the next one: the row is at most 77 columns wide.
-- The next row starts behind the space at its end, or there, at the end of the line or where one
-- character more would not fit.
pub record IsRow (g : Gap) (pos lend : ℕ) (row : ℕ × ℕ) : Type 0 where
  pub start : pos ≤ row.0
  pub width : disp_col g pos row.0 < wrap_col
  pub next :
      ((row.1 ≡ row.0 + 1) × (gb_at g row.0 ≡ b' '))
      ⊎ ((row.1 ≡ row.0) × ((row.0 ≡ lend) ⊎ (wrap_col ≤ disp_col g pos (row.0 + 1))))
  pub bound : row.1 ≤ lend
  pub progress : pos < lend → pos < row.1

-- The last space, if there is one.
abbrev SpaceIn : Gap → (pos p : ℕ) → Option ℕ → Type 0
SpaceIn g pos p none = Unit
SpaceIn g pos p (some sp) =
    (pos ≤ sp) × (sp < p) × (disp_col g pos sp < wrap_col) × (gb_at g sp ≡ b' ')

later :
    (g : Gap) (pos p : ℕ) (space : Option ℕ) → SpaceIn g pos p space → SpaceIn g pos (p + 1) space
later g pos p none h = tt
later g pos p (some sp) (a, b, c, d) = (a, omega arith, c, d)

broken :
    (g : Gap) (pos p lend : ℕ) (space : Option ℕ)
    → pos < p
    → p ≤ lend
    → disp_col g pos p < wrap_col
    → wrap_col ≤ disp_col g pos (p + 1)
    → SpaceIn g pos p space
    → IsRow g pos lend (elim space [ none ↦ (p, p) | some sp ↦ (sp, sp + 1) ])
broken g pos p lend none a l w full h = record {
  start = omega arith;
  width = w;
  next = inr (refl, inr full);
  bound = l;
  progress = λ z. a;
}
broken g pos p lend (some sp) a l w full (b, c, d, blank) = record {
  start = b;
  width = d;
  next = inl (refl, blank);
  bound = omega arith;
  progress = λ z. omega arith;
}

row_loop-IsRow :
    (g : Gap) (pos left p lend col : ℕ) (space : Option ℕ)
    → pos ≤ p
    → p + left ≡ lend
    → col ≡ disp_col g pos p
    → col < wrap_col
    → SpaceIn g pos p space
    → IsRow g pos lend (row_loop g left p col space)
unfolding row_loop
row_loop-IsRow g pos zero p lend col space a l e w h = record {
  start = a;
  width = subst (λ x. x < wrap_col) e w;
  next = inr (refl, inl (omega arith));
  bound = omega arith;
  progress = λ z. omega arith;
}
row_loop-IsRow g pos (suc left) p lend col space a l e w h =
    let c = gb_at g p in
    let next = disp_col-suc g pos p a in
    let w' : disp_col g pos p < wrap_col = subst (λ x. x < wrap_col) e w in
    let later_space : SpaceIn g pos (p + 1) (if c == 32 then some p else space) =
      elim (Bool-cases (c == 32)) [
        | inl t ↦ rw t (a, omega arith, w', ==→eq _ _ t)
        | inr f ↦ rw f (later g pos p space h)
      ] in
    elim (Bool-cases (leb wrap_col (next_col c col))) [
      | inl t ↦ rw t (broken g pos p lend space (behind t) (omega arith) w' (full t) h)
      | inr f ↦ rw f (
          row_loop-IsRow g pos left (p + 1) lend (next_col c col)
            (if c == 32 then some p else space) (omega arith) (omega arith)
            (ap (next_col c) e ∙ sym next) (ground arith) later_space)
    ]
  where
    full : leb wrap_col (next_col (gb_at g p) col) ≡ true → wrap_col ≤ disp_col g pos (p + 1)
    full t = rw (disp_col-suc g pos p a) (leb→le _ _ (rw e at t))

    behind : leb wrap_col (next_col (gb_at g p) col) ≡ true → pos < p
    behind t = elim (Bool-cases (p == pos)) [
      | inl same ↦
          let z : col ≡ 0 = e ∙ (let q = ==→eq p pos same in rw q (disp_col_self g pos)) in
          absurd (let wide = rw z at t in ground (arith, wide))
      | inr other ↦ omega (arith, ==→ne p pos other)
    ]

-- A visual row from a position in a line: it ends in the line and is at most 77 columns wide with tabs
-- expanded. Either a space stands at its end and the next row starts behind it, or the next row starts
-- where it ends, and there the line ends or the next character would not fit in 77 columns. In a line
-- that is not at its end the next row starts behind the position.
pub vis_row_end-IsRow :
    (g : Gap) (pos lend : ℕ) → pos ≤ lend → IsRow g pos lend (vis_row_end g pos lend)
unfolding vis_row_end
vis_row_end-IsRow g pos lend h =
    row_loop-IsRow g pos (lend - pos) pos lend 0 none (omega arith) (omega arith)
      (sym (disp_col_self g pos)) (omega arith) tt

-- More fuel than the line has characters left changes nothing.
pub vis_rows_of-enough :
    (g : Gap) (n p lend extra : ℕ)
    → p ≤ lend
    → lend - p < n
    → vis_rows_of g (n + extra) p lend ≡ vis_rows_of g n p lend
unfolding vis_rows_of
vis_rows_of-enough g zero p lend extra h l = absurd (omega arith)
vis_rows_of-enough g (suc n) p lend extra h l =
    let row = vis_row_end-IsRow g p lend h in
    let np = (vis_row_end g p lend).1 in
    let step : suc n + extra ≡ suc (n + extra) = omega arith in
    rw step (elim (Bool-cases (ltb np lend)) [
      | inl t ↦
          let less = ltb→lt np lend t in
          rw t (
            ap (λ x. 1 + x)
              (vis_rows_of-enough g n np lend extra row.bound
                (omega (arith, row.progress (omega (arith, row.start, less))))))
      | inr f ↦ rw f refl
    ])
