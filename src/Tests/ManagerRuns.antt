-- ===== src/Tests/ManagerRuns.antt =====
-- Runs of the panes of the file manager (apps/ncd) and of the shell's words (apps/shell.c).
use mathlib.Core.List.{Perm}
use harvac.Prelude.{ℕ, arith, Bool, true, false, List, [], ◌∷◌, some, none, All, codes}
use harvac.Ncd.Panel.{Entry, panel_sort}
use harvac.Ncd.Panel.Order.{Named, Listed, panel_sort-Listed}
use harvac.Ncd.Manager.{Tools, Ncd}
use harvac.Ncd.Manager.Keys.{Answers}

abbrev entry : (name : List ℕ) (is_dir : Bool) → Entry
entry name is_dir = record {
  name = name;
  is_dir = is_dir;
  size = 10;
  date = 0;
  time = 0;
  selected = false;
}

-- A file B, a directory C and a file A.
abbrev three : List Entry
three = entry (b'B' ∷ []) false ∷ entry (b'C' ∷ []) true ∷ entry (b'A' ∷ []) false ∷ []

three-Named : All Named three
three-Named = (
  ((omega arith, omega arith), tt),
  (((omega arith, omega arith), tt), (((omega arith, omega arith), tt), tt)),
)

panel_sort-Listed_example : Listed (panel_sort three) × Perm (panel_sort three) three
panel_sort-Listed_example = panel_sort-Listed three three-Named

-- The state of the calls is the working directory; each directory is empty.
abbrev tools : Tools (List ℕ)
tools = record {
  calls = record { chdir = λ d s. d; getcwd = λ s. s; open_here = λ s. some [] };
  spawn = λ cmd args s. s;
  viewer_open = λ name s. s;
  copy_tree = λ from to s. s;
  remove_tree = λ name s. s;
  rename = λ old new s. s;
  mkdir = λ name s. s;
  create = λ name s. s;
}

abbrev manager : Ncd (List ℕ)
manager = record {
  panel_left = record { cwd = b'/' ∷ []; entries = three; sel = 2; scroll = 0 };
  panel_right = record { cwd = b'/' ∷ []; entries = []; sel = 0; scroll = 0 };
  right_active = false;
  world = b'/' ∷ [];
}

-- A command line of one character, L, at the prompt.
abbrev answers : Answers
answers = record { confirmed = true; name = none; keys = 13 ∷ [] }

-- The arguments "-n *.C" where the directory has "A.C" and "B.H".
abbrev args : List ℕ
args = codes "-n *.C"

abbrev dir : List (List ℕ)
dir = codes "A.C" ∷ codes "B.H" ∷ []
