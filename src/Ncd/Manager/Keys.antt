-- ===== src/Ncd/Manager/Keys.antt =====
-- The keys of the main loop of apps/ncd/main.c, and its prompt for a command.
use harvac.Prelude.{
  ℕ, ◌-◌, Bool, ◌&&◌, ltb, leb, ◌==◌, if◌then◌else◌, List, [], ◌∷◌, ◌++◌, Option, none, some,
  length, codes, take,
}
use harvac.Hdk.Keys.{k_special, k_bs, k_tab, k_enter, k_esc, has_flag, sh_shift}
use harvac.Ncd.Panel.{
  Nav, up, down, page_up, page_down, home, end, navigate, Panel, panel_down, panel_toggle_select,
  panel_sync_cwd,
}
use harvac.Ncd.Manager.{
  Tools, Ncd, active, put_active, switch_panel, launch_child, parent_dir, enter_dir, enter_key,
  handle_f3, handle_f4, handle_shift_f4, handle_f5, handle_f6, handle_f7, handle_f8,
}

-- A command on the active pane alone.
abbrev pub on_active : {S : Type 0} → (Panel → Panel) → Ncd S → Ncd S
on_active f n = put_active (f (active n)) n.world n

abbrev pub is_printable : ℕ → Bool
is_printable k = leb 32 k && ltb k 127

-- `SHELL_BUF_SIZE`
abbrev pub shell_buf_size : ℕ
shell_buf_size = 128

abbrev pub all_but_last : List ℕ → List ℕ
all_but_last [] = []
all_but_last (c ∷ []) = []
all_but_last (c ∷ d ∷ cmd) = c ∷ all_but_last (d ∷ cmd)

-- A key that does not end the prompt.
unfoldable pub prompt_key : (k : ℕ) (cmd : List ℕ) → List ℕ
prompt_key k cmd =
    if k == k_bs
    then all_but_last cmd
    else if is_printable k && ltb (length cmd) (shell_buf_size - 1)
    then cmd ++ k ∷ []
    else cmd

-- The loop of `shell_prompt`: the command, which is empty at Esc, or nothing as long as no key ends it.
unfoldable pub prompt_loop : (keys cmd : List ℕ) → Option (List ℕ)
prompt_loop [] cmd = none
prompt_loop (k ∷ keys) cmd =
    let rest = prompt_loop keys (prompt_key k cmd) in
    if k == k_esc then some [] else if k == k_enter then some cmd else rest

module _ {S : Type 0} (tools : Tools S) where
  unfoldable pub run_command : List ℕ → Ncd S → Ncd S
  run_command [] n = n
  run_command (c ∷ cmd) n = launch_child tools (codes "SHELL.COM") (c ∷ cmd) n

  unfoldable pub shell_prompt : (prefill keys : List ℕ) → Ncd S → Option (Ncd S)
  shell_prompt prefill keys n =
      let n' = record n { world = panel_sync_cwd tools.calls (active n) n.world } in
      elim (prompt_loop keys (take (shell_buf_size - 1) prefill)) [
        | none ↦ none
        | some cmd ↦ some (run_command cmd n')
      ]

-- What a key asks for, by the cases of the main loop.
pub data Command : Type 0 where
  quit : Command
  view : Command
  edit : Command
  new_file : Command
  copy : Command
  rename_move : Command
  make : Command
  delete : Command
  switch : Command
  mark : Command
  go : (m : Nav) → Command
  enter : Command
  enter_right : Command
  parent : Command
  prompt : (k : ℕ) → Command
  nothing : Command

unfoldable pub command_of : (kbd_shift k : ℕ) → Command
command_of kbd_shift k =
    let shift = has_flag kbd_shift sh_shift in
    if k == k_special 0x44
    then quit
    else if k == k_special 0x3d
    then view
    else if k == k_special 0x3e
    then (if shift then new_file else edit)
    else if k == k_special 0x3f
    then copy
    else if k == k_special 0x40
    then rename_move
    else if k == k_special 0x41
    then make
    else if k == k_special 0x42
    then delete
    else if k == k_tab
    then switch
    else if k == k_special 0x52
    then mark
    else if k == k_special 0x48
    then go up
    else if k == k_special 0x50
    then go down
    else if k == k_special 0x49
    then go page_up
    else if k == k_special 0x51
    then go page_down
    else if k == k_special 0x47
    then go home
    else if k == k_special 0x4f
    then go end
    else if k == k_enter
    then enter
    else if k == k_bs
    then parent
    else if k == k_special 0x4b
    then (if shift then switch else parent)
    else if k == k_special 0x4d
    then (if shift then switch else enter_right)
    else if is_printable k
    then prompt k
    else nothing

-- What the user answers if he is asked: yes or no, the text of a field or its cancelling, and the keys
-- at the prompt.
pub record Answers : Type 0 where
  pub confirmed : Bool
  pub name : Option (List ℕ)
  pub keys : List ℕ

module _ {S : Type 0} (tools : Tools S) where
  -- `none` where the program ends, or where the prompt still waits for a key.
  unfoldable pub run : Command → Answers → Ncd S → Option (Ncd S)
  run quit a n = none
  run view a n = some (handle_f3 tools n)
  run edit a n = some (handle_f4 tools n)
  run new_file a n = some (handle_shift_f4 tools a.name n)
  run copy a n = some (handle_f5 tools a.confirmed n)
  run rename_move a n = some (handle_f6 tools a.name n)
  run make a n = some (handle_f7 tools a.name n)
  run delete a n = some (handle_f8 tools a.confirmed n)
  run switch a n = some (switch_panel n)
  run mark a n = some (on_active (λ p. panel_down (panel_toggle_select p)) n)
  run (go m) a n = some (on_active (navigate m) n)
  run enter a n = some (enter_key tools n)
  run enter_right a n = some (enter_dir tools n).1
  run parent a n = some (parent_dir tools n)
  run (prompt k) a n = shell_prompt tools (k ∷ []) a.keys n
  run nothing a n = some n

  unfoldable pub main_key : (kbd_shift k : ℕ) → Answers → Ncd S → Option (Ncd S)
  main_key kbd_shift k a n = run (command_of kbd_shift k) a n
