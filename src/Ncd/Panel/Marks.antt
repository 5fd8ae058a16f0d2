-- ===== src/Ncd/Panel/Marks.antt =====
-- The marks of a pane of apps/ncd/panel.c.
use harvac.Prelude.{
  ℕ, zero, suc, ◌+◌, ◌<◌, ◌≡◌, refl, ap, arith, length, Bool, true, false, not, if◌then◌else◌, List,
  [], ◌∷◌, Option, none, some,
}
use harvac.Ncd.Panel.{
  Panel, count, Entry, panel_entry_get, panel_entry_set, panel_count_selected, panel_toggle_select,
}

toggled :
    (entries : List Entry) (i : ℕ) (e : Entry)
    → panel_entry_get entries i ≡ some e
    → panel_count_selected (panel_entry_set entries i (record e { selected = not e.selected }))
        + (if e.selected then 1 else 0)
      ≡ panel_count_selected entries + (if e.selected then 0 else 1)
unfolding panel_entry_get panel_entry_set panel_count_selected
toggled [] i e h = absurd cc
toggled (x ∷ entries) zero e h =
    let same : x.selected ≡ e.selected =
      ap (λ (o : Option Entry). elim o [ none ↦ false | some y ↦ y.selected ]) h in
    rw same (marks e.selected)
  where
    marks :
        (b : Bool)
        → (if not b then 1 + panel_count_selected entries else panel_count_selected entries)
            + (if b then 1 else 0)
          ≡ (if b then 1 + panel_count_selected entries else panel_count_selected entries)
            + (if b then 0 else 1)
    marks true = omega arith
    marks false = omega arith
toggled (x ∷ entries) (suc i) e h = let r = toggled entries i e h in ground (arith, r)

panel_entry_get-lt :
    (entries : List Entry) (i : ℕ)
    → i < length entries
    → (e : Entry) × (panel_entry_get entries i ≡ some e)
unfolding panel_entry_get
panel_entry_get-lt [] i h = absurd (omega arith)
panel_entry_get-lt (x ∷ entries) zero h = (x, refl)
panel_entry_get-lt (x ∷ entries) (suc i) h = panel_entry_get-lt entries i (omega arith)

pub length-panel_entry_set :
    (entries : List Entry) (i : ℕ) (x : Entry)
    → length (panel_entry_set entries i x) ≡ length entries
unfolding panel_entry_set
length-panel_entry_set [] i x = refl
length-panel_entry_set (e ∷ entries) zero x = refl
length-panel_entry_set (e ∷ entries) (suc i) x = ap suc (length-panel_entry_set entries i x)

-- With the cursor on an entry: the key that marks it raises the number of marked entries by one, or
-- lowers it by one when the entry was marked, and the number of entries stays.
pub panel_toggle_select-count :
    (p : Panel)
    → p.sel < count p
    → let q = panel_toggle_select p in
      (e : Entry) × (panel_entry_get p.entries p.sel ≡ some e)
      × (panel_count_selected q.entries + (if e.selected then 1 else 0)
          ≡ panel_count_selected p.entries + (if e.selected then 0 else 1))
      × (count q ≡ count p)
unfolding panel_toggle_select
panel_toggle_select-count p h =
    let (e, found) = panel_entry_get-lt p.entries p.sel h in
    (
      e,
      found,
      rw (found, panel_toggle_select) (toggled p.entries p.sel e found),
      rw (found, panel_toggle_select)
          (length-panel_entry_set p.entries p.sel (record e { selected = not e.selected })),
    )
