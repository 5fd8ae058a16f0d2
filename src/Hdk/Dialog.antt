-- ===== src/Hdk/Dialog.antt =====
-- The decisions of the dialogs of lib/hdk/dlg.c. What they draw is not part of the model, and the keys that
-- `kbd_get` gives are a list.
pub mod Answers
use harvac.Prelude.{
  ℕ, zero, suc, ◌+◌, ◌-◌, ◌*◌, ◌/◌, ◌%◌, Bool, true, false, not, ◌&&◌, ◌||◌, ltb, leb, ◌==◌,
  if◌then◌else◌, List, [], ◌∷◌, ◌++◌, Option, none, some, length, take, drop, get_or, u16,
}
use harvac.Hdk.Keys.{k_special, k_bs, k_tab, k_enter, k_esc}

-- A field: the first `len` characters of its buffer are a list.
pub record Field : Type 0 where
  pub text : List ℕ
  pub max : ℕ
  pub pos : ℕ
  pub uppercase : Bool

abbrev pub upper_case : (uppercase : Bool) (k : ℕ) → ℕ
upper_case uppercase k = if uppercase && leb b'a' k && leb k b'z' then k - 32 else k

-- The default case, without its test.
unfoldable pub put_char : (k : ℕ) → Field → Field
put_char k f = record f {
  text = take f.pos f.text ++ upper_case f.uppercase k ∷ drop f.pos f.text;
  pos = f.pos + 1;
}

-- The return value 1 is `true`.
unfoldable pub dlg_field_key : (k : ℕ) → Field → Bool × Field
dlg_field_key k f =
    if k == k_special 0x4b
    then (true, if ltb 0 f.pos then record f { pos = f.pos - 1 } else f)
    else if k == k_special 0x4d
    then (true, if ltb f.pos (length f.text) then record f { pos = f.pos + 1 } else f)
    else if k == k_special 0x47
    then (true, record f { pos = 0 })
    else if k == k_special 0x4f
    then (true, record f { pos = length f.text })
    else if k == k_bs
    then (
      true,
      if ltb 0 f.pos
          then record f { text = take (f.pos - 1) f.text ++ drop f.pos f.text; pos = f.pos - 1 }
          else f,
    )
    else if k == k_special 0x53
    then (
      true,
      if ltb f.pos (length f.text)
          then record f { text = take f.pos f.text ++ drop (f.pos + 1) f.text }
          else f,
    )
    else if leb 32 k && ltb k 0x100 && not (k == 127) && ltb (length f.text) f.max
    then (true, put_char k f)
    else (false, f)

abbrev pub hdk_cancel : ℕ
hdk_cancel = 0

abbrev pub hdk_yes : ℕ
hdk_yes = 1

abbrev pub hdk_no : ℕ
hdk_no = 2

abbrev pub hdk_all : ℕ
hdk_all = 3

-- The sets of buttons.
pub data Buttons : Type 0 where
  db_ok db_yesno db_yesnoca db_yesnoall : Buttons

-- What the buttons return; a button OK returns the code of Yes.
abbrev pub res : Buttons → List ℕ
res db_ok = hdk_yes ∷ []
res db_yesno = hdk_yes ∷ hdk_no ∷ []
res db_yesnoca = hdk_yes ∷ hdk_no ∷ hdk_cancel ∷ []
res db_yesnoall = hdk_yes ∷ hdk_no ∷ hdk_all ∷ hdk_cancel ∷ []

abbrev pub is_letter : (k lower : ℕ) → Bool
is_letter k lower = k == lower || (k + 32 == lower)

-- The letters that answer, in Norwegian and in English.
unfoldable pub shortcut : (use_no : Bool) (nbtn k : ℕ) → Option ℕ
shortcut use_no nbtn k =
    let norwegian : Option ℕ =
      (if is_letter k b'j'
        then some hdk_yes
        else if is_letter k b'n'
        then some hdk_no
        else if leb 3 nbtn && is_letter k b'a'
        then some (if nbtn == 4 then hdk_all else hdk_cancel)
        else none) in
    let english : Option ℕ =
      (if is_letter k b'y'
        then some hdk_yes
        else if is_letter k b'n'
        then some hdk_no
        else if leb 4 nbtn && is_letter k b'a'
        then some hdk_all
        else if leb 3 nbtn && is_letter k b'c'
        then some hdk_cancel
        else none) in
    if leb 2 nbtn then (if use_no then norwegian else english) else none

-- The return value of a key, or the button that is selected behind it.
unfoldable pub msgbox_key : (use_no : Bool) → Buttons → (sel k : ℕ) → Option ℕ × ℕ
msgbox_key use_no buttons sel k =
    let nbtn = length (res buttons) in
    if k == k_esc
    then (some hdk_cancel, sel)
    else if k == k_enter
    then (some (get_or (res buttons) sel 0), sel)
    else if k == k_special 0x4b
    then (none, (sel + nbtn - 1) % nbtn)
    else if k == k_special 0x4d || (k == k_tab)
    then (none, (sel + 1) % nbtn)
    else (shortcut use_no nbtn k, sel)

-- The loop of `dlg_msgbox`: the return value, once a key gives one.
unfoldable pub msgbox_loop : (use_no : Bool) → Buttons → (sel : ℕ) → (keys : List ℕ) → Option ℕ
msgbox_loop use_no buttons sel [] = none
msgbox_loop use_no buttons sel (k ∷ keys) =
    let (answer, next) = msgbox_key use_no buttons sel k in
    elim answer [ some r ↦ some r | none ↦ msgbox_loop use_no buttons next keys ]

unfoldable pub dlg_msgbox : (use_no : Bool) → Buttons → (keys : List ℕ) → Option ℕ
dlg_msgbox use_no buttons keys = msgbox_loop use_no buttons 0 keys

-- The loop of `dlg_input`. `some none` is the return value HDK_CANCEL.
unfoldable pub input_loop : Field → (keys : List ℕ) → Option (Option (List ℕ))
input_loop f [] = none
input_loop f (k ∷ keys) =
    let rest = input_loop (dlg_field_key k f).1 keys in
    if k == k_esc then some none else if k == k_enter then some (some f.text) else rest

-- The field is at most 40 characters wide.
unfoldable pub dlg_input : (buf : List ℕ) (max : ℕ) (keys : List ℕ) → Option (Option (List ℕ))
dlg_input buf max keys =
    input_loop
      (record {
        text = buf;
        max = if ltb 40 max then 40 else max;
        pos = length buf;
        uppercase = false;
      })
      keys

abbrev pub dlg_prog_w : ℕ
dlg_prog_w = 48

-- The percentage of `dlg_progress`.
unfoldable pub progress_pct : (cur total : ℕ) → ℕ
progress_pct cur total = if total == 0 then 100 else u16 (cur * 100) / total

-- The cells of its bar that are full.
unfoldable pub progress_bar : (cur total : ℕ) → ℕ
progress_bar cur total =
    let fill : ℕ = if total == 0 then dlg_prog_w else u16 (cur * dlg_prog_w) / total in
    if ltb dlg_prog_w fill then dlg_prog_w else fill
