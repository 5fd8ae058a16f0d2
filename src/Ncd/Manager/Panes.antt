-- ===== src/Ncd/Manager/Panes.antt =====
-- The panes of apps/ncd stay valid.
use harvac.Prelude.{
  ℕ, zero, suc, ◌+◌, ◌-◌, ◌≤◌, ◌<◌, ◌≡◌, ◌⊎◌, inl, inr, refl, ap, arith, true, false, not, ltb, leb,
  ◌==◌, if◌then◌else◌, u16, length, List, [], ◌∷◌, Option, none, some, Bool-cases, Option-cases,
  ==→eq, ◌∙◌,
}
use harvac.Ncd.Panel.{
  Nav, up, down, page_up, page_down, home, end, navigate, Panel, Entry, Dirent, count, max_entries,
  panel_get_visible, panel_clamp_scroll, read_entries, sink, sort_entries, first_to_last,
  panel_sort, refreshed, panel_entry_get, panel_up, panel_down, panel_page_up, panel_page_down,
  panel_home, panel_end, panel_toggle_select, last_entry,
}
use harvac.Ncd.Panel.Cursor.{IsPanel, navigate-IsPanel}
use harvac.Ncd.Panel.Marks.{length-panel_entry_set}

-- A pane: on a directory without entries only the sizes are bounded.
pub record IsPane (p : Panel) : Type 0 where
  pub entries_room : count p ≤ max_entries
  pub scroll_room : p.scroll ≤ max_entries
  pub filled : 0 < count p → IsPanel p

length-sink : (b : Entry) (before : List Entry) → length (sink b before) ≡ suc (length before)
unfolding sink
length-sink b [] = refl
length-sink b (a ∷ before) = let r = length-sink b before in ground (arith, r)

length-sort_entries :
    (before entries : List Entry)
    → length (sort_entries before entries) ≡ length before + length entries
unfolding sort_entries
length-sort_entries before [] = omega arith
length-sort_entries before (b ∷ entries) =
    let r = length-sort_entries (sink b before) entries in omega (arith, length-sink b before, r)

length-first_to_last :
    (before out : List Entry) → length (first_to_last before out) ≡ length before + length out
unfolding first_to_last
length-first_to_last [] out = omega arith
length-first_to_last (a ∷ before) out =
    let r = length-first_to_last before (a ∷ out) in omega (arith, r)

length-panel_sort : (entries : List Entry) → length (panel_sort entries) ≡ length entries
unfolding panel_sort
length-panel_sort entries =
    omega (arith, length-first_to_last (sort_entries [] entries) [], length-sort_entries [] entries)

length-read_entries : (room : ℕ) (dir : List Dirent) → length (read_entries room dir) ≤ room
unfolding read_entries
length-read_entries room [] = omega arith
length-read_entries zero (de ∷ dir) = let r = length-read_entries zero dir in ground (arith, r)
length-read_entries (suc room) (de ∷ dir) =
    let r = length-read_entries room dir in
    let s = length-read_entries (suc room) dir in ground (arith, r, s)

pub refreshed-IsPane :
    (cwd : List ℕ) (dir : Option (List Dirent)) (p : Panel)
    → p.scroll ≤ max_entries
    → IsPane (refreshed cwd dir p)
unfolding refreshed panel_clamp_scroll
refreshed-IsPane cwd none p h = record {
  entries_room = omega arith;
  scroll_room = h;
  filled = λ z. absurd (omega arith);
}
refreshed-IsPane cwd (some dir) p h =
    let entries = panel_sort (read_entries max_entries dir) in
    let n = length entries in
    let small : n ≤ max_entries = omega (
      arith,
      length-panel_sort (read_entries max_entries dir),
      length-read_entries max_entries dir,
    ) in
    elim (Bool-cases (n == 0)) [
      | inl t ↦ rw t (record {
        entries_room = omega arith;
        scroll_room = omega arith;
        filled = λ z. absurd (omega arith);
      })
      | inr f ↦
          let sel = if leb n p.sel then n - 1 else p.sel in
          let low : sel < n = ground (arith, f) in
          rw f (elim (Bool-cases (leb n panel_get_visible)) [
            | inl t ↦ rw t (record {
              entries_room = small;
              scroll_room = omega arith;
              filled = λ z. record {
                small = small;
                on_entry = low;
                not_above = omega arith;
                full = inl refl;
              };
            })
            | inr g ↦ rw g (record {
              entries_room = small;
              scroll_room = ground (arith, small, h);
              filled = λ z. record {
                small = small;
                on_entry = low;
                not_above = ground (arith, h, g);
                full = inr (ground (arith, h, g, small));
              };
            })
          ])
    ]

clamp-empty :
    (p : Panel)
    → count p ≡ 0
    → (panel_clamp_scroll p).entries ≡ p.entries × ((panel_clamp_scroll p).scroll ≡ 0)
unfolding panel_clamp_scroll
clamp-empty p z =
    let t : leb (count p) panel_get_visible ≡ true = ground (arith, z) in rw t (refl, refl)

-- What a key leaves of an empty pane.
abbrev Empty : (p q : Panel) → Type 0
Empty p q = (q.entries ≡ p.entries) × ((q.scroll ≡ 0) ⊎ (q.scroll ≡ p.scroll))

navigate-Empty : (k : Nav) (p : Panel) → count p ≡ 0 → Empty p (navigate k p)
unfolding panel_up panel_down panel_page_up panel_page_down panel_home panel_end
navigate-Empty up p z = elim (Bool-cases (ltb 0 p.sel)) [
  | inl t ↦ let (e, s) = clamp-empty (record p { sel = p.sel - 1 }) z in rw t (e, inl s)
  | inr f ↦ rw f (refl, inr refl)
]
navigate-Empty down p z = elim (Bool-cases (ltb p.sel (last_entry p))) [
  | inl t ↦ let (e, s) = clamp-empty (record p { sel = p.sel + 1 }) z in rw t (e, inl s)
  | inr f ↦ rw f (refl, inr refl)
]
navigate-Empty page_up p z =
    let (e, s) =
      clamp-empty
        (record p { sel = if leb panel_get_visible p.sel then p.sel - panel_get_visible else 0 })
        z in
    (e, inl s)
navigate-Empty page_down p z =
    let next = u16 (p.sel + panel_get_visible) in
    let (e, s) =
      clamp-empty (record p { sel = if ltb next (count p) then next else last_entry p }) z in
    (e, inl s)
navigate-Empty home p z = (refl, inl refl)
navigate-Empty end p z =
    let f : ltb 0 (count p) ≡ false = ground (arith, z) in rw f (refl, inr refl)

pub navigate-IsPane : (k : Nav) (p : Panel) → IsPane p → IsPane (navigate k p)
navigate-IsPane k p v = elim (Bool-cases (count p == 0)) [
  | inl t ↦
      let (e, s) = navigate-Empty k p (==→eq _ _ t) in
      let n : count (navigate k p) ≡ 0 = ap length e ∙ ==→eq _ _ t in
      record {
        entries_room = omega (arith, n);
        scroll_room = omega (arith, s, v.scroll_room);
        filled = λ z. absurd (omega (arith, n, z));
      }
  | inr f ↦
      let (w, e) = navigate-IsPanel k p (v.filled (ground (arith, f))) in
      record {
        entries_room = w.small;
        scroll_room = omega (arith, w.not_above, w.on_entry, w.small);
        filled = λ z. w;
      }
]

pub panel_toggle_select-IsPane : (p : Panel) → IsPane p → IsPane (panel_toggle_select p)
unfolding panel_toggle_select
panel_toggle_select-IsPane p v = elim (Option-cases (panel_entry_get p.entries p.sel)) [
  | inl n ↦ rw (n, panel_toggle_select) v
  | inr (e, h) ↦
      let l = length-panel_entry_set p.entries p.sel (record e { selected = not e.selected }) in
      rw (h, panel_toggle_select)
        (record {
          entries_room = omega (arith, l, v.entries_room);
          scroll_room = v.scroll_room;
          filled = λ z.
              (let w = v.filled (omega (arith, l)) in
                record {
                  small = omega (arith, l, w.small);
                  on_entry = omega (arith, l, w.on_entry);
                  not_above = w.not_above;
                  full = omega (arith, l, w.full);
                });
        })
]
