-- ===== src/Editor/Edit/Valid.antt =====
-- The cursor and the selection of apps/medit/edit.c stay in the text.
use harvac.Prelude.{
  ℕ, ◌+◌, ◌-◌, ◌≤◌, ◌≡◌, inl, inr, refl, ap, sym, subst, arith, Bool, true, false, ltb, Bool-cases,
}
use harvac.Editor.Gap.{Gap, gb_len, gb_del}
use harvac.Editor.Gap.Text.{IsGap, gb_del_lem}
use harvac.Editor.Edit.{
  Edit, sel_normalize, nothing_selected, del_range, del_selection, set_prefcol,
}

-- A cursor in the text, and the fixed end of a selection too.
pub record IsText (g : Gap) (cur : ℕ) (selon : Bool) (anchor : ℕ) : Type 0 where
  pub valid : IsGap g
  pub cursor : cur ≤ gb_len g
  pub selection : selon ≡ true → anchor ≤ gb_len g

abbrev pub IsEdit : Edit → Type 0
IsEdit e = IsText e.gap e.e_cur e.e_selon e.e_selanchor

-- A text without a selection.
pub unselected : {g : Gap} {cur anchor : ℕ} → IsGap g → cur ≤ gb_len g → IsText g cur false anchor
unselected v h = record { valid = v; cursor = h; selection = λ e. absurd (ground arith) }

-- What a deletion leaves of the text.
pub gb_del-IsGap :
    (g : Gap) (pos n : ℕ)
    → IsGap g
    → pos + n ≤ gb_len g
    → IsGap (gb_del g pos n) × (gb_len (gb_del g pos n) + n ≡ gb_len g)
gb_del-IsGap g pos n v h =
    let (behind, inside) = gb_del_lem pos n v in
    elim (Bool-cases (ltb pos (gb_len g))) [
      | inl t ↦ let (w, e, _) = inside (ground arith) in (w, omega (arith, e))
      | inr f ↦ let same : gb_del g pos n ≡ g = behind (ground arith) in rw same (v, ground arith)
    ]

pub sel_normalize-range :
    (e : Edit)
    → IsEdit e
    → nothing_selected (sel_normalize e) ≡ false
    → let s = sel_normalize e in (s.e_sello ≤ s.e_selhi) × (s.e_selhi ≤ gb_len e.gap)
unfolding sel_normalize
sel_normalize-range e v h = ground (arith, v.cursor, v.selection)

pub sel_normalize-same :
    (e : Edit)
    → let s = sel_normalize e in
      (s.gap ≡ e.gap)
      × (s.e_cur ≡ e.e_cur)
      × (s.e_selon ≡ e.e_selon)
      × (s.e_selanchor ≡ e.e_selanchor)
unfolding sel_normalize
sel_normalize-same e = (ground arith, ground arith, ground arith, ground arith)

-- A valid editor without a selection.
abbrev pub IsPlain : Edit → Type 0
IsPlain e = IsGap e.gap × (e.e_cur ≤ gb_len e.gap) × (e.e_selon ≡ false)

pub IsPlain-IsEdit : (e : Edit) → IsPlain e → IsEdit e
IsPlain-IsEdit e (v, h, off) = record {
  valid = v;
  cursor = h;
  selection = λ on. absurd (ground (arith, off, on));
}

pub del_range-IsPlain :
    (lo hi : ℕ) (e : Edit) → IsGap e.gap → lo ≤ hi → hi ≤ gb_len e.gap → IsPlain (del_range lo hi e)
unfolding del_range
del_range-IsPlain lo hi e v h l =
    let (w, n) = gb_del-IsGap e.gap lo (hi - lo) v (omega arith) in (w, omega (arith, n), refl)

pub del_selection-IsPlain : (e : Edit) → IsEdit e → IsPlain (del_selection e).1
unfolding del_selection
del_selection-IsPlain e v =
    let s = sel_normalize e in
    let (g, c, _, _) = sel_normalize-same e in
    let valid : IsGap s.gap = subst IsGap (sym g) v.valid in
    let len : gb_len s.gap ≡ gb_len e.gap = ap gb_len g in
    elim (Bool-cases (nothing_selected s)) [
      | inl t ↦ rw t (valid, omega (arith, v.cursor, c, len), refl)
      | inr f ↦
          let (lo, hi) = sel_normalize-range e v f in
          rw f (del_range-IsPlain s.e_sello s.e_selhi s valid lo (omega (arith, hi, len)))
    ]

set_prefcol-IsPlain : (e : Edit) → IsPlain e → IsPlain (set_prefcol e)
unfolding set_prefcol
set_prefcol-IsPlain e v = v
