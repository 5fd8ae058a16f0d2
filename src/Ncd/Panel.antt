-- ===== src/Ncd/Panel.antt =====
-- A file pane of apps/ncd/panel.c. The entries of the far segment up to `count` are a list; a string
-- is the list of its characters.
pub mod Order
pub mod Cursor
pub mod Marks
use harvac.Prelude.{
  ℕ, zero, suc, ◌+◌, ◌-◌, ◌/◌, ◌%◌, Bool, true, false, not, ◌&&◌, ◌||◌, ltb, leb, ◌==◌,
  if◌then◌else◌, u16, List, [], ◌∷◌, ◌++◌, Option, none, some, length, take, get_or, codes,
}
use harvac.Posix.Text.{is_positive, strcmp}

abbrev pub max_entries : ℕ
max_entries = 512

-- An entry of the directory, as `readdir` gives it.
pub record Dirent : Type 0 where
  pub d_name : List ℕ
  pub d_attr : ℕ
  pub d_size : ℕ
  pub d_date : ℕ
  pub d_time : ℕ

pub record Entry : Type 0 where
  pub name : List ℕ
  pub is_dir : Bool
  pub size : ℕ
  pub date : ℕ
  pub time : ℕ
  pub selected : Bool

pub record Panel : Type 0 where
  pub cwd : List ℕ
  pub entries : List Entry
  pub sel : ℕ
  pub scroll : ℕ

abbrev pub count : Panel → ℕ
count p = length p.entries

-- The test of `panel_sort`: the first entry goes behind the second.
unfoldable pub swaps : (a b : Entry) → Bool
swaps a b =
    if a.is_dir && not b.is_dir
    then false
    else if not a.is_dir && b.is_dir
    then true
    else is_positive (strcmp a.name b.name)

-- The inner loop: an entry goes up among the ones before it, the last of which stands first.
unfoldable pub sink : (b : Entry) (before : List Entry) → List Entry
sink b [] = b ∷ []
sink b (a ∷ before) = let raised = sink b before in if swaps a b then a ∷ raised else b ∷ a ∷ before

-- The outer loop.
unfoldable pub sort_entries : (before entries : List Entry) → List Entry
sort_entries before [] = before
sort_entries before (b ∷ entries) = sort_entries (sink b before) entries

-- The entries from the first on.
unfoldable pub first_to_last : (before out : List Entry) → List Entry
first_to_last [] out = out
first_to_last (a ∷ before) out = first_to_last before (a ∷ out)

unfoldable pub panel_sort : List Entry → List Entry
panel_sort entries = first_to_last (sort_entries [] entries) []

-- The rows of entries on the screen.
abbrev pub panel_get_visible : ℕ
panel_get_visible = 19 - 3 + 1

unfoldable pub panel_clamp_scroll : Panel → Panel
panel_clamp_scroll p =
    let vis = panel_get_visible in
    let top : ℕ = if ltb p.sel p.scroll then p.sel else p.scroll in
    let filled : ℕ = if ltb (count p) (u16 (top + vis)) then count p - vis else top in
    if leb (count p) vis then record p { scroll = 0 } else record p { scroll = filled }

-- The memory for the entries is not part of the model.
unfoldable pub panel_init : Panel → Panel
panel_init p = record { cwd = []; entries = []; sel = 0; scroll = 0 }

unfoldable pub is_dotdot : List ℕ → Bool
is_dotdot (x ∷ y ∷ []) = x == b'.' && (y == b'.')
is_dotdot _ = false

unfoldable pub entry_of : Dirent → Entry
entry_of de = record {
  name = de.d_name;
  is_dir = de.d_attr / 16 % 2 == 1;
  size = de.d_size;
  date = de.d_date;
  time = de.d_time;
  selected = false;
}

-- The loop of `panel_refresh` over the directory, with the entries that there is still room for.
unfoldable pub read_entries : (room : ℕ) → List Dirent → List Entry
read_entries room [] = []
read_entries zero (de ∷ dir) =
    let rest = read_entries zero dir in if is_dotdot de.d_name then rest else []
read_entries (suc room) (de ∷ dir) =
    let skipped = read_entries (suc room) dir in
    let rest = read_entries room dir in if is_dotdot de.d_name then skipped else entry_of de ∷ rest

-- `panel_refresh` from `getcwd` on. A directory that does not open is `none`.
unfoldable pub refreshed : (cwd : List ℕ) (dir : Option (List Dirent)) → Panel → Panel
refreshed cwd none p = record p { cwd = cwd; entries = [] }
refreshed cwd (some dir) p =
    let entries = panel_sort (read_entries max_entries dir) in
    let n = length entries in
    let q : Panel = record {
      cwd = cwd;
      entries = entries;
      sel = (if leb n p.sel then n - 1 else p.sel);
      scroll = p.scroll;
    } in
    if n == 0 then record { cwd = cwd; entries = []; sel = 0; scroll = 0 } else panel_clamp_scroll q

-- The entry under the cursor, and the rest of the list with another in its place.
unfoldable pub panel_entry_get : List Entry → (i : ℕ) → Option Entry
panel_entry_get [] i = none
panel_entry_get (e ∷ entries) zero = some e
panel_entry_get (e ∷ entries) (suc i) = panel_entry_get entries i

unfoldable pub panel_entry_set : List Entry → (i : ℕ) → Entry → List Entry
panel_entry_set [] i x = []
panel_entry_set (e ∷ entries) zero x = x ∷ entries
panel_entry_set (e ∷ entries) (suc i) x = e ∷ panel_entry_set entries i x

unfoldable pub panel_count_selected : List Entry → ℕ
panel_count_selected [] = 0
panel_count_selected (e ∷ entries) =
    let rest = panel_count_selected entries in if e.selected then 1 + rest else rest

unfoldable pub panel_get_name : Panel → List ℕ
panel_get_name p = elim (panel_entry_get p.entries p.sel) [ none ↦ [] | some e ↦ e.name ]

-- `p->count - 1` on `u16`
abbrev pub last_entry : Panel → ℕ
last_entry p = u16 (count p + 65535)

unfoldable pub panel_up : Panel → Panel
panel_up p = if ltb 0 p.sel then panel_clamp_scroll (record p { sel = p.sel - 1 }) else p

unfoldable pub panel_down : Panel → Panel
panel_down p =
    if ltb p.sel (last_entry p) then panel_clamp_scroll (record p { sel = p.sel + 1 }) else p

unfoldable pub panel_page_up : Panel → Panel
panel_page_up p =
    panel_clamp_scroll
      (record p { sel = if leb panel_get_visible p.sel then p.sel - panel_get_visible else 0 })

unfoldable pub panel_page_down : Panel → Panel
panel_page_down p =
    let next = u16 (p.sel + panel_get_visible) in
    panel_clamp_scroll (record p { sel = if ltb next (count p) then next else last_entry p })

unfoldable pub panel_home : Panel → Panel
panel_home p = record p { sel = 0; scroll = 0 }

unfoldable pub panel_end : Panel → Panel
panel_end p =
    let scroll : ℕ = if ltb panel_get_visible (count p) then count p - panel_get_visible else 0 in
    if ltb 0 (count p) then record p { sel = count p - 1; scroll = scroll } else p

-- The keys that move the cursor, by their functions.
pub data Nav : Type 0 where
  up down page_up page_down home end : Nav

abbrev pub navigate : Nav → Panel → Panel
navigate up p = panel_up p
navigate down p = panel_down p
navigate page_up p = panel_page_up p
navigate page_down p = panel_page_down p
navigate home p = panel_home p
navigate end p = panel_end p

unfoldable pub panel_toggle_select : Panel → Panel
panel_toggle_select p = elim (panel_entry_get p.entries p.sel) [
  | none ↦ p
  | some e ↦ record p {
    entries = panel_entry_set p.entries p.sel (record e { selected = not e.selected });
  }
]

-- The system calls that a panel makes, on a state of theirs: `chdir`, `getcwd`, and `opendir(".")` with
-- what `readdir` gives until its end.
pub record Calls (S : Type 0) : Type 0 where
  pub chdir : List ℕ → S → S
  pub getcwd : S → List ℕ
  pub open_here : S → Option (List Dirent)

module _ {S : Type 0} (calls : Calls S) where
  unfoldable pub panel_sync_cwd : Panel → S → S
  panel_sync_cwd p s = if length p.cwd == 0 then s else calls.chdir p.cwd s

  unfoldable pub panel_refresh : Panel → S → Panel × S
  panel_refresh p s =
      let t = panel_sync_cwd p s in (refreshed (calls.getcwd t) (calls.open_here t) p, t)

  -- The return value, the panel and the state of the calls.
  unfoldable pub panel_enter_dir : Panel → S → Bool × Panel × S
  panel_enter_dir p s = elim (panel_entry_get p.entries p.sel) [
    | none ↦ (false, p, s)
    | some e ↦
        let t = calls.chdir e.name (panel_sync_cwd p s) in
        let (q, u) = panel_refresh (record p { cwd = calls.getcwd t; sel = 0; scroll = 0 }) t in
        if e.is_dir then (true, q, u) else (false, p, s)
  ]

-- The loop of `panel_parent_dir`: the place of the last `/` up to `i`, or 0.
unfoldable pub last_slash : List ℕ → (i : ℕ) → ℕ
last_slash cwd zero = 0
last_slash cwd (suc i) =
    let rest = last_slash cwd i in if get_or cwd (suc i) 0 == b'/' then suc i else rest

-- What `panel_parent_dir` changes to: nothing from the root or without a directory.
unfoldable pub parent_of : List ℕ → Option (List ℕ)
parent_of cwd =
    let i = last_slash cwd (length cwd - 1) in
    if get_or cwd 0 0 == b'/' && ltb 1 (length cwd)
    then some (if ltb 0 i then take i cwd else b'/' ∷ [])
    else none

module _ {S : Type 0} (calls : Calls S) where
  unfoldable pub panel_parent_dir : Panel → S → Panel × S
  panel_parent_dir p s =
      let t = panel_sync_cwd calls p s in
      elim (parent_of (calls.getcwd t)) [
        | none ↦ panel_refresh calls p t
        | some above ↦
            let w = calls.chdir above t in
            panel_refresh calls (record p { cwd = calls.getcwd w; sel = 0; scroll = 0 }) w
      ]
