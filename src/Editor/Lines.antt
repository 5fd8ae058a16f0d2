-- ===== src/Editor/Lines.antt =====
-- The lines of a text: `doc_line_home`, `doc_line_end`, `doc_next_line` and `doc_prev_line` of
-- apps/medit/doc.c.
pub mod Steps
use harvac.Prelude.{
  ℕ, zero, suc, ◌+◌, ◌-◌, ◌≤◌, ◌<◌, ◌≡◌, ◌≢◌, ◌⊎◌, inl, inr, refl, arith, ◌&&◌, ◌||◌, ltb, leb,
  true, false, ◌==◌, if◌then◌else◌, Bool-cases, ==→eq, ==→ne,
}
use harvac.Editor.Gap.{Gap, gb_at, gb_len}

abbrev pub cr : ℕ
cr = 13

abbrev pub lf : ℕ
lf = 10

unfoldable pub doc_line_home : Gap → (pos : ℕ) → ℕ
doc_line_home g zero = 0
doc_line_home g (suc pos) =
    let before = doc_line_home g pos in if gb_at g pos == lf then suc pos else before

-- The loop of `doc_line_end`, with the positions that are left.
unfoldable pub line_end_loop : Gap → (left pos : ℕ) → ℕ
line_end_loop g zero pos = pos
line_end_loop g (suc left) pos =
    let c = gb_at g pos in
    let rest = line_end_loop g left (pos + 1) in if c == cr || (c == lf) then pos else rest

unfoldable pub doc_line_end : Gap → (pos : ℕ) → ℕ
doc_line_end g pos = line_end_loop g (gb_len g - pos) pos

unfoldable pub doc_next_line : Gap → (endpos : ℕ) → ℕ
doc_next_line g endpos =
    let n = gb_len g in
    let behind = endpos + 1 in
    if leb n endpos
    then n
    else if gb_at g endpos == cr
    then (if ltb behind n && (gb_at g behind == lf) then behind + 1 else behind)
    else behind

unfoldable pub doc_prev_line : Gap → (start : ℕ) → ℕ
doc_prev_line g start =
    let p = start - 1 in
    let q = if gb_at g p == lf && ltb 0 p && (gb_at g (p - 1) == cr) then p - 1 else p in
    if start == 0 then 0 else doc_line_home g q

-- The home of a position is not behind it, is at the start of the text or behind a line feed, and
-- no line feed stands between it and the position.
pub doc_line_home_lem :
    (g : Gap) (pos : ℕ)
    → (doc_line_home g pos ≤ pos)
      × ((doc_line_home g pos ≢ 0) → gb_at g (doc_line_home g pos - 1) ≡ lf)
      × ((p : ℕ) → doc_line_home g pos ≤ p → p < pos → gb_at g p ≢ lf)
unfolding doc_line_home
doc_line_home_lem g zero = (omega arith, λ h. absurd (h refl), λ p h l. absurd (omega arith))
doc_line_home_lem g (suc pos) =
    let (le, home, none) = doc_line_home_lem g pos in
    elim (Bool-cases (gb_at g pos == lf)) [
      | inl e ↦ rw e (omega arith, λ h. same e, λ p h l. absurd (omega arith))
      | inr ne ↦ rw ne (omega arith, home, λ p h l. inside none ne p h l)
    ]
  where
    same : (gb_at g pos == lf) ≡ true → gb_at g (suc pos - 1) ≡ lf
    same e = let k : suc pos - 1 ≡ pos = omega arith in rw k (==→eq _ _ e)

    inside :
        ((p : ℕ) → doc_line_home g pos ≤ p → p < pos → gb_at g p ≢ lf)
        → (gb_at g pos == lf) ≡ false
        → (p : ℕ) → doc_line_home g pos ≤ p
        → p < suc pos
        → gb_at g p ≢ lf
    inside none ne p h l = elim (Bool-cases (p == pos)) [
      | inl e ↦ rw (==→eq p pos e) (==→ne _ _ ne)
      | inr other ↦ none p h (omega (arith, ==→ne p pos other))
    ]

abbrev pub IsBreak : ℕ → Type 0
IsBreak c = (c ≡ cr) ⊎ (c ≡ lf)

line_end_loop_lem :
    (g : Gap) (left pos : ℕ)
    → (pos ≤ line_end_loop g left pos)
      × (line_end_loop g left pos ≤ pos + left)
      × (line_end_loop g left pos < pos + left → IsBreak (gb_at g (line_end_loop g left pos)))
      × ((p : ℕ) → pos ≤ p → p < line_end_loop g left pos → ¬ IsBreak (gb_at g p))
unfolding line_end_loop
line_end_loop_lem g zero pos =
    (omega arith, omega arith, λ h. absurd (omega arith), λ p h l. absurd (omega arith))
line_end_loop_lem g (suc left) pos =
    let (a, b, c, d) = line_end_loop_lem g left (pos + 1) in
    elim (Bool-cases (gb_at g pos == cr || (gb_at g pos == lf))) [
      | inl e ↦ rw e (omega arith, omega arith, λ h. ground arith, λ p h l. absurd (omega arith))
      | inr ne ↦ rw ne (omega arith, omega arith, λ h. c (omega arith), λ p h l. inside d ne p h l)
    ]
  where
    inside :
        ((p : ℕ) → pos + 1 ≤ p → p < line_end_loop g left (pos + 1) → ¬ IsBreak (gb_at g p))
        → (gb_at g pos == cr || (gb_at g pos == lf)) ≡ false
        → (p : ℕ) → pos ≤ p
        → p < line_end_loop g left (pos + 1)
        → ¬ IsBreak (gb_at g p)
    inside d ne p h l = elim (Bool-cases (p == pos)) [
      | inl e ↦ rw (==→eq p pos e) (λ x. ground arith)
      | inr other ↦ d p (omega (arith, ==→ne p pos other)) l
    ]

-- The end of a line from a position in the text is at that position or behind it, and is the end
-- of the text or a carriage return or line feed, and none of these stands before it.
pub doc_line_end_lem :
    (g : Gap) (pos : ℕ)
    → pos ≤ gb_len g
    → (pos ≤ doc_line_end g pos)
      × (doc_line_end g pos ≤ gb_len g)
      × (doc_line_end g pos < gb_len g → IsBreak (gb_at g (doc_line_end g pos)))
      × ((p : ℕ) → pos ≤ p → p < doc_line_end g pos → ¬ IsBreak (gb_at g p))
unfolding doc_line_end
doc_line_end_lem g pos h =
    let (a, b, c, d) = line_end_loop_lem g (gb_len g - pos) pos in
    (a, omega arith, λ l. c (omega arith), d)
