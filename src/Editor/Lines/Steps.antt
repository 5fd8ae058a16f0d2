-- ===== src/Editor/Lines/Steps.antt =====
-- Where the steps from line to line of apps/medit/doc.c lead.
use harvac.Prelude.{
  ℕ, ◌+◌, ◌-◌, ◌≤◌, ◌<◌, ◌≡◌, ◌≢◌, inl, inr, ap, arith, ◌&&◌, ltb, ◌==◌, if◌then◌else◌, Bool-cases,
  ltb→lt, ltb→ge,
}
use harvac.Editor.Gap.{Gap, gb_at, gb_len}
use harvac.Editor.Lines.{
  cr, lf, IsBreak, doc_line_home, doc_line_home_lem, doc_line_end, doc_line_end_lem, doc_next_line,
  doc_prev_line,
}

-- A place that is not between a carriage return and its line feed.
pub record IsPlace (g : Gap) (p : ℕ) : Type 0 where
  pub inside : p ≤ gb_len g
  pub whole : 0 < p → p < gb_len g → gb_at g (p - 1) ≡ cr → gb_at g p ≢ lf

pub doc_next_line_lem :
    (g : Gap) (p : ℕ) → p ≤ gb_len g → (p ≤ doc_next_line g p) × (doc_next_line g p ≤ gb_len g)
unfolding doc_next_line
doc_next_line_lem g p h = ground arith

pub doc_next_line-lt : (g : Gap) (p : ℕ) → p < gb_len g → p < doc_next_line g p
unfolding doc_next_line
doc_next_line-lt g p h = ground arith

pub doc_next_line-IsPlace :
    (g : Gap) (p : ℕ)
    → p ≤ gb_len g
    → (p < gb_len g → IsBreak (gb_at g p))
    → IsPlace g (doc_next_line g p)
unfolding doc_next_line
doc_next_line-IsPlace g p h b = record {
  inside = ground arith;
  whole = λ l k e z. ground (arith, b, at_p, at_next);
}
  where
    at_p : gb_at g (p + 1 - 1) ≡ gb_at g p
    at_p = ap (gb_at g) (let h : p + 1 - 1 ≡ p = omega arith in h)

    at_next : gb_at g (p + 1 + 1 - 1) ≡ gb_at g (p + 1)
    at_next = ap (gb_at g) (let h : p + 1 + 1 - 1 ≡ p + 1 = omega arith in h)

pub doc_line_home-IsPlace : (g : Gap) (p : ℕ) → p ≤ gb_len g → IsPlace g (doc_line_home g p)
doc_line_home-IsPlace g p h =
    let (le, home, none) = doc_line_home_lem g p in
    record { inside = omega arith; whole = λ l k e. absurd (ground (arith, home)) }

pub doc_line_end-IsPlace : (g : Gap) (p : ℕ) → IsPlace g p → IsPlace g (doc_line_end g p)
doc_line_end-IsPlace g p v =
    let (a, b, c, d) = doc_line_end_lem g p v.inside in
    record {
      inside = b;
      whole = λ l k e. elim (Bool-cases (ltb p (doc_line_end g p))) [
        | inl t ↦ absurd (
            d (doc_line_end g p - 1) (omega (arith, ltb→lt _ _ t)) (omega (arith, ltb→lt _ _ t))
              (inl e))
        | inr f ↦
            (let same : doc_line_end g p ≡ p = omega (arith, ltb→ge _ _ f) in
              rw same (v.whole (rw same at l) (rw same at k) (rw same at e)))
      ];
    }

doc_prev_line-le : (g : Gap) (p : ℕ) → doc_prev_line g p ≤ p
unfolding doc_prev_line
doc_prev_line-le g p =
    let q =
      if gb_at g (p - 1) == lf && ltb 0 (p - 1) && (gb_at g (p - 1 - 1) == cr)
      then p - 1 - 1
      else p - 1 in
    let low : q ≤ p = ground arith in let (le, _, _) = doc_line_home_lem g q in ground arith

pub doc_prev_line-IsPlace : (g : Gap) (p : ℕ) → p ≤ gb_len g → IsPlace g (doc_prev_line g p)
unfolding doc_prev_line
doc_prev_line-IsPlace g p h =
    let q =
      if gb_at g (p - 1) == lf && ltb 0 (p - 1) && (gb_at g (p - 1 - 1) == cr)
      then p - 1 - 1
      else p - 1 in
    let low : q ≤ gb_len g = ground arith in
    elim (Bool-cases (p == 0)) [
      | inl t ↦ rw t (record { inside = omega arith; whole = λ l k e. absurd (omega arith) })
      | inr f ↦ rw f (doc_line_home-IsPlace g q low)
    ]
