-- ===== src/Ncd/Panel/Cursor.antt =====
-- The keys that move the cursor of a pane of apps/ncd/panel.c.
use harvac.Prelude.{
  ℕ, ◌+◌, ◌-◌, ◌≤◌, ◌<◌, ◌≡◌, ◌⊎◌, inl, inr, refl, arith, true, ltb, leb, if◌then◌else◌, u16,
  Bool-cases, ltb→lt,
}
use harvac.Ncd.Panel.{
  Nav, up, down, page_up, page_down, home, end, navigate, Panel, count, max_entries,
  panel_get_visible, panel_clamp_scroll, panel_up, panel_down, panel_page_up, panel_page_down,
  panel_home, panel_end, last_entry,
}

-- The cursor is on an entry, not above the first row on the screen, and the screen is full of entries or
-- starts with the first.
pub record IsPanel (p : Panel) : Type 0 where
  pub small : count p ≤ max_entries
  pub on_entry : p.sel < count p
  pub not_above : p.scroll ≤ p.sel
  pub full : (p.scroll ≡ 0) ⊎ (p.scroll + panel_get_visible ≤ count p)

abbrev Stays : (p q : Panel) → Type 0
Stays p q = IsPanel q × (q.entries ≡ p.entries)

-- The scroll position moves after the cursor.
clamped :
    (p : Panel) (sel : ℕ)
    → IsPanel p
    → sel < count p
    → Stays p (panel_clamp_scroll (record p { sel = sel }))
unfolding panel_clamp_scroll
clamped p sel v s =
    let low : p.scroll ≤ max_entries = omega (arith, v.small, v.on_entry, v.not_above) in
    elim (Bool-cases (leb (count p) panel_get_visible)) [
      | inl t ↦
          rw t (
            record { small = v.small; on_entry = s; not_above = omega arith; full = inl refl },
            refl,
          )
      | inr f ↦ rw f (
        record {
          small = v.small;
          on_entry = s;
          not_above = ground (arith, low, f);
          full = inr (ground (arith, low, f, v.small));
        },
        refl,
      )
    ]

-- On a directory with entries, each of the six keys keeps the entries and leaves the cursor on one of
-- them, not above the first row that is shown, and the rows full of entries or from the first one on.
pub navigate-IsPanel :
    (k : Nav) (p : Panel)
    → IsPanel p
    → IsPanel (navigate k p) × ((navigate k p).entries ≡ p.entries)
unfolding panel_up panel_down panel_page_up panel_page_down panel_home panel_end
navigate-IsPanel up p v = elim (Bool-cases (ltb 0 p.sel)) [
  | inl t ↦ rw t (clamped p (p.sel - 1) v (omega (arith, v.on_entry)))
  | inr f ↦ rw f (v, refl)
]
navigate-IsPanel down p v = elim (Bool-cases (ltb p.sel (last_entry p))) [
  | inl t ↦ rw t (clamped p (p.sel + 1) v (omega (arith, ltb→lt _ _ t, v.on_entry, v.small)))
  | inr f ↦ rw f (v, refl)
]
navigate-IsPanel page_up p v =
    clamped p (if leb panel_get_visible p.sel then p.sel - panel_get_visible else 0) v
      (ground (arith, v.on_entry))
navigate-IsPanel page_down p v =
    let next = u16 (p.sel + panel_get_visible) in
    clamped p (if ltb next (count p) then next else last_entry p) v
      (ground (arith, v.on_entry, v.small))
navigate-IsPanel home p v = (
  record {
    small = v.small;
    on_entry = omega (arith, v.on_entry);
    not_above = omega arith;
    full = inl refl;
  },
  refl,
)
navigate-IsPanel end p v =
    let n : ltb 0 (count p) ≡ true = ground (arith, v.on_entry) in
    rw n (
      record {
        small = v.small;
        on_entry = omega (arith, v.on_entry);
        not_above = ground arith;
        full = ground arith;
      },
      refl,
    )
