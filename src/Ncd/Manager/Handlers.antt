-- ===== src/Ncd/Manager/Handlers.antt =====
-- The handlers of apps/ncd/main.c keep both panes valid.
use harvac.Prelude.{
  ℕ, ◌≤◌, ◌≡◌, inl, inr, refl, arith, Bool, true, false, ◌==◌, List, [], ◌∷◌, Option, none, some,
  Bool-cases, Option-cases, ==_refl, codes,
}
use harvac.Posix.Text.{ends_with, strcmp}
use harvac.Ncd.Panel.{
  Panel, Entry, Calls, panel_entry_get, panel_sync_cwd, panel_refresh, panel_enter_dir, parent_of,
  panel_parent_dir, max_entries, count,
}
use harvac.Ncd.Manager.{
  Tools, Ncd, active, put_active, switch_panel, refresh_both, launch_child, parent_dir, enter_dir,
  launch_entry, enter_key, edit_entry, handle_f4, handle_f5, inside_dir, under_cursor, passive,
  chosen, copy_all, view_entry, handle_f3, handle_shift_f4, handle_f6, handle_f8, rename_entry,
  remove_all,
}
use harvac.Ncd.Manager.Panes.{IsPane, refreshed-IsPane}

strcmp_self : (a : List ℕ) → strcmp a a ≡ 0
unfolding strcmp
strcmp_self [] = refl
strcmp_self (c ∷ a) = rw (==_refl c) (strcmp_self a)

-- Both panes.
pub record IsNcd {S : Type 0} (n : Ncd S) : Type 0 where
  pub left : IsPane n.panel_left
  pub right : IsPane n.panel_right

module _ {S : Type 0} where
  pub active-IsPane : (n : Ncd S) → IsNcd n → IsPane (active n)
  active-IsPane n v = elim (Bool-cases n.right_active) [
    | inl t ↦ rw t v.right
    | inr f ↦ rw f v.left
  ]

  pub put_active-IsNcd :
      (p : Panel) (s : S) (n : Ncd S) → IsPane p → IsNcd n → IsNcd (put_active p s n)
  unfolding put_active
  put_active-IsNcd p s n h v = elim (Bool-cases n.right_active) [
    | inl t ↦ rw t (record { left = v.left; right = h })
    | inr f ↦ rw f (record { left = h; right = v.right })
  ]

  pub panel_refresh-IsPane :
      (calls : Calls S) (p : Panel) (s : S)
      → p.scroll ≤ max_entries
      → IsPane (panel_refresh calls p s).0
  unfolding panel_refresh
  panel_refresh-IsPane calls p s h =
      let t = panel_sync_cwd calls p s in refreshed-IsPane (calls.getcwd t) (calls.open_here t) p h

  pub panel_enter_dir-IsPane :
      (calls : Calls S) (p : Panel) (s : S) → IsPane p → IsPane (panel_enter_dir calls p s).1
  unfolding panel_enter_dir
  panel_enter_dir-IsPane calls p s v = elim (Option-cases (panel_entry_get p.entries p.sel)) [
    | inl n ↦ rw (n, panel_enter_dir) v
    | inr (e, h) ↦
        let t = calls.chdir e.name (panel_sync_cwd calls p s) in
        let q : Panel = record p { cwd = calls.getcwd t; sel = 0; scroll = 0 } in
        rw (h, panel_enter_dir)
          (elim (Bool-cases e.is_dir) [
            | inl d ↦ rw d (panel_refresh-IsPane calls q t (omega arith))
            | inr f ↦ rw f v
          ])
  ]

  pub panel_parent_dir-IsPane :
      (calls : Calls S) (p : Panel) (s : S) → IsPane p → IsPane (panel_parent_dir calls p s).0
  unfolding panel_parent_dir
  panel_parent_dir-IsPane calls p s v =
      let t = panel_sync_cwd calls p s in
      elim (Option-cases (parent_of (calls.getcwd t))) [
        | inl n ↦ rw (n, panel_parent_dir) (panel_refresh-IsPane calls p t v.scroll_room)
        | inr (d, h) ↦
            let w = calls.chdir d t in
            let q : Panel = record p { cwd = calls.getcwd w; sel = 0; scroll = 0 } in
            rw (h, panel_parent_dir) (panel_refresh-IsPane calls q w (omega arith))
      ]

module _ {S : Type 0} (tools : Tools S) where
  pub refresh_both-IsNcd : (n : Ncd S) → IsNcd n → IsNcd (refresh_both tools n)
  unfolding refresh_both
  refresh_both-IsNcd n v =
      let (_, s) = panel_refresh tools.calls n.panel_left n.world in
      record {
        left = panel_refresh-IsPane tools.calls n.panel_left n.world v.left.scroll_room;
        right = panel_refresh-IsPane tools.calls n.panel_right s v.right.scroll_room;
      }

  pub launch_child-IsNcd :
      (cmd args : List ℕ) (n : Ncd S) → IsNcd n → IsNcd (launch_child tools cmd args n)
  unfolding launch_child
  launch_child-IsNcd cmd args n v =
      refresh_both-IsNcd (record n { world = tools.spawn cmd args n.world })
        (record { left = v.left; right = v.right })

  pub parent_dir-IsNcd : (n : Ncd S) → IsNcd n → IsNcd (parent_dir tools n)
  unfolding parent_dir
  parent_dir-IsNcd n v =
      let (p, s) = panel_parent_dir tools.calls (active n) n.world in
      put_active-IsNcd p s n
        (panel_parent_dir-IsPane tools.calls (active n) n.world (active-IsPane n v)) v

  pub enter_dir-IsNcd : (n : Ncd S) → IsNcd n → IsNcd (enter_dir tools n).1
  unfolding enter_dir
  enter_dir-IsNcd n v =
      let (_, p, s) = panel_enter_dir tools.calls (active n) n.world in
      put_active-IsNcd p s n
        (panel_enter_dir-IsPane tools.calls (active n) n.world (active-IsPane n v)) v

  pub launch_entry-IsNcd : (o : Option Entry) (n : Ncd S) → IsNcd n → IsNcd (launch_entry tools o n)
  unfolding launch_entry
  launch_entry-IsNcd none n v = v
  launch_entry-IsNcd (some e) n v = elim (Bool-cases (ends_with e.name (codes ".bat"))) [
    | inl t ↦ rw t (launch_child-IsNcd (codes "SHELL.COM") e.name n v)
    | inr f ↦ rw f (elim (Bool-cases (ends_with e.name (codes ".com"))) [
      | inl t ↦ rw t (launch_child-IsNcd e.name [] n v)
      | inr g ↦ rw g v
    ])
  ]

  pub enter_key-IsNcd : (n : Ncd S) → IsNcd n → IsNcd (enter_key tools n)
  unfolding enter_key
  enter_key-IsNcd n v =
      let (entered, next) = enter_dir tools n in
      let w = enter_dir-IsNcd n v in
      elim (Bool-cases entered) [
        | inl t ↦ rw t w
        | inr f ↦ rw f (launch_entry-IsNcd (under_cursor n) next w)
      ]

  pub edit_entry-IsNcd : (o : Option Entry) (n : Ncd S) → IsNcd n → IsNcd (edit_entry tools o n)
  unfolding edit_entry
  edit_entry-IsNcd none n v = v
  edit_entry-IsNcd (some e) n v = elim (Bool-cases e.is_dir) [
    | inl t ↦ rw t v
    | inr f ↦ rw f (launch_child-IsNcd (codes "EDIT.COM") e.name n v)
  ]

  pub handle_f4-IsNcd : (n : Ncd S) → IsNcd n → IsNcd (handle_f4 tools n)
  unfolding handle_f4
  handle_f4-IsNcd n v =
      edit_entry-IsNcd (under_cursor n)
        (record n { world = panel_sync_cwd tools.calls (active n) n.world })
        (record { left = v.left; right = v.right })

  pub switch_panel-IsNcd : (n : Ncd S) → IsNcd n → IsNcd (switch_panel n)
  unfolding switch_panel
  switch_panel-IsNcd n v = record { left = v.left; right = v.right }

  pub inside_dir-IsNcd : (f : S → S) (n : Ncd S) → IsNcd n → IsNcd (inside_dir tools f n)
  unfolding inside_dir
  inside_dir-IsNcd f n v =
      let s = f (tools.calls.chdir (active n).cwd n.world) in
      refresh_both-IsNcd (record n { world = tools.calls.chdir (tools.calls.getcwd n.world) s })
        (record { left = v.left; right = v.right })

  pub handle_f5-IsNcd :
      (confirmed : Bool) (n : Ncd S) → IsNcd n → IsNcd (handle_f5 tools confirmed n)
  unfolding handle_f5
  handle_f5-IsNcd confirmed n v =
      let from = active n in
      let to = passive n in
      let copied =
        copy_all tools to.cwd (chosen tools from) (panel_sync_cwd tools.calls from n.world) in
      elim (Bool-cases (count from == 0)) [
        | inl t ↦ rw t v
        | inr f ↦ rw f (elim (Bool-cases (strcmp from.cwd to.cwd == 0)) [
          | inl t ↦ rw t v
          | inr g ↦ rw g (elim (Bool-cases confirmed) [
            | inl y ↦ rw y (
                refresh_both-IsNcd (record n { world = copied })
                  (record { left = v.left; right = v.right }))
            | inr z ↦ rw z v
          ])
        ])
      ]

  pub view_entry-IsNcd : (o : Option Entry) (n : Ncd S) → IsNcd n → IsNcd (view_entry tools o n)
  unfolding view_entry
  view_entry-IsNcd none n v = v
  view_entry-IsNcd (some e) n v = elim (Bool-cases e.is_dir) [
    | inl t ↦ rw t (refresh_both-IsNcd (enter_dir tools n).1 (enter_dir-IsNcd n v))
    | inr f ↦ rw f (
        refresh_both-IsNcd (record n { world = tools.viewer_open e.name n.world })
          (record { left = v.left; right = v.right }))
  ]

  pub handle_f3-IsNcd : (n : Ncd S) → IsNcd n → IsNcd (handle_f3 tools n)
  unfolding handle_f3
  handle_f3-IsNcd n v =
      view_entry-IsNcd (under_cursor n)
        (record n { world = panel_sync_cwd tools.calls (active n) n.world })
        (record { left = v.left; right = v.right })

  pub handle_shift_f4-IsNcd :
      (name : Option (List ℕ)) (n : Ncd S) → IsNcd n → IsNcd (handle_shift_f4 tools name n)
  unfolding handle_shift_f4
  handle_shift_f4-IsNcd none n v = v
  handle_shift_f4-IsNcd (some []) n v = v
  handle_shift_f4-IsNcd (some (c ∷ name)) n v =
      let s = tools.create (c ∷ name) (panel_sync_cwd tools.calls (active n) n.world) in
      launch_child-IsNcd (codes "EDIT.COM") (c ∷ name) (record n { world = s })
        (record { left = v.left; right = v.right })

  pub handle_f6-IsNcd :
      (answer : Option (List ℕ)) (n : Ncd S) → IsNcd n → IsNcd (handle_f6 tools answer n)
  unfolding handle_f6
  handle_f6-IsNcd answer n v = elim (Option-cases (under_cursor n)) [
    | inl none_there ↦ rw (none_there, handle_f6) v
    | inr (e, h) ↦ rw (h, handle_f6) (inside_dir-IsNcd (rename_entry tools answer e.name) n v)
  ]

  pub handle_f8-IsNcd :
      (confirmed : Bool) (n : Ncd S) → IsNcd n → IsNcd (handle_f8 tools confirmed n)
  unfolding handle_f8
  handle_f8-IsNcd true n v = inside_dir-IsNcd (remove_all tools (chosen tools (active n))) n v
  handle_f8-IsNcd false n v = v

  -- A pane never copies into its own directory: then nothing changes, whatever the answer to the dialog.
  pub handle_f5-same :
      (confirmed : Bool) (n : Ncd S)
      → (active n).cwd ≡ (passive n).cwd
      → handle_f5 tools confirmed n ≡ n
  unfolding handle_f5
  handle_f5-same confirmed n h =
      let same : (strcmp (active n).cwd (passive n).cwd == 0) ≡ true =
        rw (h, strcmp_self (passive n).cwd) refl in
      elim (Bool-cases (count (active n) == 0)) [ inl t ↦ rw t refl | inr f ↦ rw (f, same) refl ]
