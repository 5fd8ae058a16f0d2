-- ===== src/Ncd/Manager.antt =====
-- The handlers of apps/ncd/main.c: what they do to the two panes. Drawing is not part of the model.
-- The viewer and the programs act on the files alone. The answers of the dialogs and the keys that are
-- typed at the prompt for a command are arguments. The key that is awaited behind a program is left
-- out.
pub mod Keys
pub mod Panes
pub mod Handlers
pub mod Loop
use harvac.Prelude.{
  ℕ, Bool, not, ◌==◌, if◌then◌else◌, List, [], ◌∷◌, ◌++◌, Option, none, some, codes,
}
use harvac.Posix.Text.{strcmp, ends_with}
use harvac.Ncd.Panel.{
  Panel, Entry, Calls, count, panel_entry_get, panel_count_selected, panel_sync_cwd, panel_refresh,
  panel_enter_dir, panel_parent_dir,
}

-- What the panes call besides: `spawn`, the viewer, the trees of files, `rename`, `mkdir`, and `open`
-- with `O_CREAT`.
pub record Tools (S : Type 0) : Type 0 where
  pub calls : Calls S
  pub spawn : (cmd args : List ℕ) → S → S
  pub viewer_open : (name : List ℕ) → S → S
  pub copy_tree : (from to : List ℕ) → S → S
  pub remove_tree : (name : List ℕ) → S → S
  pub rename : (old new : List ℕ) → S → S
  pub mkdir : (name : List ℕ) → S → S
  pub create : (name : List ℕ) → S → S

pub record Ncd (S : Type 0) : Type 0 where
  pub panel_left : Panel
  pub panel_right : Panel
  pub right_active : Bool
  pub world : S

abbrev pub active : {S : Type 0} → Ncd S → Panel
active n = if n.right_active then n.panel_right else n.panel_left

abbrev pub passive : {S : Type 0} → Ncd S → Panel
passive n = if n.right_active then n.panel_left else n.panel_right

-- The active pane and the state of the calls replaced.
unfoldable pub put_active : {S : Type 0} → Panel → S → Ncd S → Ncd S
put_active p s n =
    if n.right_active
    then record n { panel_right = p; world = s }
    else record n { panel_left = p; world = s }

unfoldable pub switch_panel : {S : Type 0} → Ncd S → Ncd S
switch_panel n = record n { right_active = not n.right_active }

-- The entry under the cursor of the active pane.
abbrev pub under_cursor : {S : Type 0} → Ncd S → Option Entry
under_cursor n = panel_entry_get (active n).entries (active n).sel

module _ {S : Type 0} (tools : Tools S) where
  unfoldable pub refresh_both : Ncd S → Ncd S
  refresh_both n =
      let (left, s) = panel_refresh tools.calls n.panel_left n.world in
      let (right, t) = panel_refresh tools.calls n.panel_right s in
      record n { panel_left = left; panel_right = right; world = t }

  unfoldable pub launch_child : (cmd args : List ℕ) → Ncd S → Ncd S
  launch_child cmd args n = refresh_both (record n { world = tools.spawn cmd args n.world })

  unfoldable pub parent_dir : Ncd S → Ncd S
  parent_dir n = let (p, s) = panel_parent_dir tools.calls (active n) n.world in put_active p s n

  -- The return value of `panel_enter_dir`.
  unfoldable pub enter_dir : Ncd S → Bool × Ncd S
  enter_dir n =
      let (entered, p, s) = panel_enter_dir tools.calls (active n) n.world in
      (entered, put_active p s n)

  -- A program or a batch file that is launched.
  unfoldable pub launch_entry : Option Entry → Ncd S → Ncd S
  launch_entry none n = n
  launch_entry (some e) n =
      if ends_with e.name (codes ".bat")
      then launch_child (codes "SHELL.COM") e.name n
      else if ends_with e.name (codes ".com")
      then launch_child e.name [] n
      else n

  unfoldable pub enter_key : Ncd S → Ncd S
  enter_key n =
      let (entered, next) = enter_dir n in
      if entered then next else launch_entry (under_cursor n) next

  -- The file or the directory that is viewed.
  unfoldable pub view_entry : Option Entry → Ncd S → Ncd S
  view_entry none n = n
  view_entry (some e) n =
      if e.is_dir
      then refresh_both (enter_dir n).1
      else refresh_both (record n { world = tools.viewer_open e.name n.world })

  unfoldable pub handle_f3 : Ncd S → Ncd S
  handle_f3 n =
      view_entry (under_cursor n)
        (record n { world = panel_sync_cwd tools.calls (active n) n.world })

  -- `handle_f4`
  unfoldable pub edit_entry : Option Entry → Ncd S → Ncd S
  edit_entry none n = n
  edit_entry (some e) n = if e.is_dir then n else launch_child (codes "EDIT.COM") e.name n

  unfoldable pub handle_f4 : Ncd S → Ncd S
  handle_f4 n =
      edit_entry (under_cursor n)
        (record n { world = panel_sync_cwd tools.calls (active n) n.world })

  -- The name that the dialog gives, if it does.
  unfoldable pub handle_shift_f4 : (name : Option (List ℕ)) → Ncd S → Ncd S
  handle_shift_f4 none n = n
  handle_shift_f4 (some []) n = n
  handle_shift_f4 (some (c ∷ name)) n =
      let s = tools.create (c ∷ name) (panel_sync_cwd tools.calls (active n) n.world) in
      launch_child (codes "EDIT.COM") (c ∷ name) (record n { world = s })

  -- The entries that a command is about: the marked ones, or the one under the cursor.
  unfoldable pub marked : List Entry → List Entry
  marked [] = []
  marked (e ∷ entries) = let rest = marked entries in if e.selected then e ∷ rest else rest

  unfoldable pub chosen : Panel → List Entry
  chosen p =
      let one : List Entry = elim (panel_entry_get p.entries p.sel) [
        | none ↦ []
        | some e ↦ e ∷ []
      ] in
      if panel_count_selected p.entries == 0 then one else marked p.entries

  unfoldable pub copy_all : (to : List ℕ) → List Entry → S → S
  copy_all to [] s = s
  copy_all to (e ∷ entries) s = copy_all to entries (tools.copy_tree e.name (to ++ b'/' ∷ e.name) s)

  -- `confirmed` is the answer of the dialog. With no mark the cursor is on an entry.
  unfoldable pub handle_f5 : (confirmed : Bool) → Ncd S → Ncd S
  handle_f5 confirmed n =
      let from = active n in
      let to = passive n in
      let copied = copy_all to.cwd (chosen from) (panel_sync_cwd tools.calls from n.world) in
      if count from == 0
      then n
      else if strcmp from.cwd to.cwd == 0
      then n
      else if confirmed
      then refresh_both (record n { world = copied })
      else n

  -- The commands that change to the directory of the pane and back.
  unfoldable pub inside_dir : (S → S) → Ncd S → Ncd S
  inside_dir f n =
      let old_cwd = tools.calls.getcwd n.world in
      let s = f (tools.calls.chdir (active n).cwd n.world) in
      refresh_both (record n { world = tools.calls.chdir old_cwd s })

  unfoldable pub rename_entry : Option (List ℕ) → (name : List ℕ) → S → S
  rename_entry none name s = s
  rename_entry (some new) name s = if strcmp new name == 0 then s else tools.rename name new s

  unfoldable pub handle_f6 : (answer : Option (List ℕ)) → Ncd S → Ncd S
  handle_f6 answer n = elim (under_cursor n) [
    | none ↦ n
    | some e ↦ inside_dir (rename_entry answer e.name) n
  ]

  unfoldable pub make_dir : Option (List ℕ) → S → S
  make_dir none s = s
  make_dir (some []) s = s
  make_dir (some (c ∷ name)) s = tools.mkdir (c ∷ name) s

  unfoldable pub handle_f7 : (answer : Option (List ℕ)) → Ncd S → Ncd S
  handle_f7 answer n = inside_dir (make_dir answer) n

  unfoldable pub remove_all : List Entry → S → S
  remove_all [] s = s
  remove_all (e ∷ entries) s = remove_all entries (tools.remove_tree e.name s)

  unfoldable pub handle_f8 : (confirmed : Bool) → Ncd S → Ncd S
  handle_f8 confirmed n = if confirmed then inside_dir (remove_all (chosen (active n))) n else n
