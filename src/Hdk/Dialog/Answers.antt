-- ===== src/Hdk/Dialog/Answers.antt =====
-- What the dialogs of lib/hdk/dlg.c answer.
use native.Mathlib.Nat.{div-le_of_le-mul, mul-div_right}
use harvac.Prelude.{
  ℕ, ◌+◌, ◌-◌, ◌*◌, ◌/◌, ◌%◌, ◌≤◌, ◌<◌, ◌≡◌, ◌∙◌, ◌⊎◌, inl, inr, refl, ap, arith, Bool, false, not,
  ◌&&◌, ◌||◌, ltb, leb, ◌==◌, if◌then◌else◌, List, [], ◌∷◌, ◌++◌, Option, none, some, Bool-cases,
  Option-cases, u16, ge→ltb, length, take, drop, length-append, length-take, length-drop, get_or,
}
use harvac.Hdk.Keys.{k_special, k_bs, k_tab, k_enter, k_esc}
use harvac.Hdk.Dialog.{
  Field, upper_case, put_char, dlg_field_key, input_loop, dlg_input, Buttons, db_ok, db_yesno,
  db_yesnoca, db_yesnoall, res, hdk_cancel, shortcut, msgbox_key, msgbox_loop, dlg_msgbox,
  progress_pct, progress_bar, dlg_prog_w,
}

-- A cursor in a text that fits into the field.
pub record IsField (f : Field) : Type 0 where
  pub cursor : f.pos ≤ length f.text
  pub room : length f.text ≤ f.max

length-cut :
    (a b : ℕ) (text : List ℕ)
    → a ≤ b
    → b ≤ length text
    → length (take a text ++ drop b text) + (b - a) ≡ length text
length-cut a b text h l =
    omega (arith, length-append (take a text) (drop b text), length-take a text, length-drop b text)

put_char-IsField : (k : ℕ) (f : Field) → IsField f → length f.text < f.max → IsField (put_char k f)
unfolding put_char
put_char-IsField k f v room =
    let c = upper_case f.uppercase k in
    let n = length-append (take f.pos f.text) (c ∷ drop f.pos f.text) in
    record {
      cursor = omega (arith, n, length-take f.pos f.text, length-drop f.pos f.text, v.cursor);
      room = omega (arith, n, length-take f.pos f.text, length-drop f.pos f.text, v.cursor, room);
    }

-- Whatever the key: the cursor of a field stays in its text or at the end of it, and the text no longer than
-- the field takes.
pub dlg_field_key-IsField : (k : ℕ) (f : Field) → IsField f → IsField (dlg_field_key k f).1
unfolding dlg_field_key
dlg_field_key-IsField k f v =
    let cut = length-cut (f.pos - 1) f.pos f.text in
    let cut_del = length-cut f.pos (f.pos + 1) f.text in
    elim (Bool-cases (k == k_special 0x4b)) [
      | inl t ↦ rw t (elim (Bool-cases (ltb 0 f.pos)) [
        | inl y ↦ rw y (record { cursor = omega (arith, v.cursor); room = v.room })
        | inr n ↦ rw n v
      ])
      | inr f1 ↦ rw f1 (elim (Bool-cases (k == k_special 0x4d)) [
        | inl t ↦ rw t (elim (Bool-cases (ltb f.pos (length f.text))) [
          | inl y ↦ rw y (record { cursor = ground (arith, y); room = v.room })
          | inr n ↦ rw n v
        ])
        | inr f2 ↦ rw f2 (elim (Bool-cases (k == k_special 0x47)) [
          | inl t ↦ rw t (record { cursor = omega arith; room = v.room })
          | inr f3 ↦ rw f3 (elim (Bool-cases (k == k_special 0x4f)) [
            | inl t ↦ rw t (record { cursor = omega arith; room = v.room })
            | inr f4 ↦ rw f4 (elim (Bool-cases (k == k_bs)) [
              | inl t ↦ rw t (elim (Bool-cases (ltb 0 f.pos)) [
                | inl y ↦
                    let n = cut (omega arith) v.cursor in
                    rw y (record {
                      cursor = ground (arith, n, y, v.cursor);
                      room = omega (arith, n, v.room);
                    })
                | inr n ↦ rw n v
              ])
              | inr f5 ↦ rw f5 (elim (Bool-cases (k == k_special 0x53)) [
                | inl t ↦ rw t (elim (Bool-cases (ltb f.pos (length f.text))) [
                  | inl y ↦
                      let n = cut_del (omega arith) (ground (arith, y)) in
                      rw y
                        (record { cursor = ground (arith, n, y); room = omega (arith, n, v.room) })
                  | inr n ↦ rw n v
                ])
                | inr f6 ↦
                    rw f6
                      (elim (Bool-cases
                        (leb 32 k && ltb k 0x100 && not (k == 127) && ltb (length f.text) f.max)) [
                          | inl y ↦ rw y (put_char-IsField k f v (ground (arith, y)))
                          | inr n ↦ rw n v
                        ])
              ])
            ])
          ])
        ])
      ])
    ]

dlg_field_key-max : (k : ℕ) (f : Field) → (dlg_field_key k f).1.max ≡ f.max
unfolding dlg_field_key put_char
dlg_field_key-max k f = ground arith

input_loop-room :
    (f : Field) (keys text : List ℕ)
    → IsField f
    → input_loop f keys ≡ some (some text)
    → length text ≤ f.max
unfolding input_loop
input_loop-room f [] text v e = absurd cc
input_loop-room f (k ∷ keys) text v e =
    let next = input_loop-room (dlg_field_key k f).1 keys text (dlg_field_key-IsField k f v) in
    elim (Bool-cases (k == k_esc)) [
      | inl t ↦ absurd (let x = rw t at e in cc)
      | inr f1 ↦
          let e1 = rw f1 at e in
          elim (Bool-cases (k == k_enter)) [
            | inl t ↦
                let same : f.text ≡ text =
                  ap
                    (λ (o : Option (Option (List ℕ))). elim o [
                      | none ↦ []
                      | some i ↦ elim i [ none ↦ [] | some x ↦ x ]
                    ])
                    (rw t at e1) in
                rw same at v.room
            | inr f2 ↦ rw (dlg_field_key-max k f) at (next (rw f2 at e1))
          ]
    ]

-- What a dialog may answer: cancel, or the code of one of its buttons.
abbrev pub IsAnswer : Buttons → ℕ → Type 0
IsAnswer b r = (r ≡ hdk_cancel) ⊎ ((i : ℕ) × (i < length (res b)) × (r ≡ get_or (res b) i 0))

shortcut_lem :
    (use_no : Bool) (n k r : ℕ)
    → shortcut use_no n k ≡ some r
    → (r ≡ 0) ⊎ ((1 < n) × (r ≡ 1)) ⊎ ((1 < n) × (r ≡ 2)) ⊎ ((3 < n) × (r ≡ 3))
unfolding shortcut
shortcut_lem use_no n k r e = ground arith

shortcut-IsAnswer :
    (use_no : Bool) (b : Buttons) (k r : ℕ)
    → shortcut use_no (length (res b)) k ≡ some r
    → IsAnswer b r
shortcut-IsAnswer use_no b k r e = elim (shortcut_lem use_no (length (res b)) k r e) [
  | inl z ↦ inl z
  | inr (inl (n, o)) ↦ inr (0, omega arith, o ∙ first b)
  | inr (inr (inl (n, o))) ↦ inr (1, n, o ∙ second b n)
  | inr (inr (inr (n, o))) ↦ inr (2, omega arith, o ∙ third b n)
]
  where
    first : (b : Buttons) → 1 ≡ get_or (res b) 0 0
    first db_ok = refl
    first db_yesno = refl
    first db_yesnoca = refl
    first db_yesnoall = refl

    second : (b : Buttons) → 1 < length (res b) → 2 ≡ get_or (res b) 1 0
    second db_ok h = absurd (omega arith)
    second db_yesno h = refl
    second db_yesnoca h = refl
    second db_yesnoall h = refl

    third : (b : Buttons) → 3 < length (res b) → 3 ≡ get_or (res b) 2 0
    third db_ok h = absurd (omega arith)
    third db_yesno h = absurd (omega arith)
    third db_yesnoca h = absurd (omega arith)
    third db_yesnoall h = refl

-- The selection wraps around.
wraps : (b : Buttons) (x : ℕ) → x % length (res b) < length (res b)
wraps db_ok x = omega arith
wraps db_yesno x = omega arith
wraps db_yesnoca x = omega arith
wraps db_yesnoall x = omega arith

-- A key answers with the code of a button or cancel, and leaves a button selected.
msgbox_key-IsAnswer :
    (use_no : Bool) (b : Buttons) (sel k : ℕ)
    → sel < length (res b)
    → ((r : ℕ) → (msgbox_key use_no b sel k).0 ≡ some r → IsAnswer b r)
      × ((msgbox_key use_no b sel k).1 < length (res b))
unfolding msgbox_key
msgbox_key-IsAnswer use_no b sel k h =
    let n = length (res b) in
    elim (Bool-cases (k == k_esc)) [
      | inl t ↦ rw t (λ r e. inl (let x = e in cc), h)
      | inr f1 ↦ rw f1 (elim (Bool-cases (k == k_enter)) [
        | inl t ↦ rw t (λ r e. inr (sel, h, let x = e in cc), h)
        | inr f2 ↦ rw f2 (elim (Bool-cases (k == k_special 0x4b)) [
          | inl t ↦ rw t (λ r e. absurd cc, wraps b (sel + n - 1))
          | inr f3 ↦ rw f3 (elim (Bool-cases (k == k_special 0x4d || (k == k_tab))) [
            | inl t ↦ rw t (λ r e. absurd cc, wraps b (sel + 1))
            | inr f4 ↦ rw f4 (λ r e. shortcut-IsAnswer use_no b k r e, h)
          ])
        ])
      ])
    ]

msgbox_loop-IsAnswer :
    (use_no : Bool) (b : Buttons) (sel : ℕ) (keys : List ℕ) (r : ℕ)
    → sel < length (res b)
    → msgbox_loop use_no b sel keys ≡ some r
    → IsAnswer b r
unfolding msgbox_loop
msgbox_loop-IsAnswer use_no b sel [] r h e = absurd cc
msgbox_loop-IsAnswer use_no b sel (k ∷ keys) r h e =
    let (answers, next) = msgbox_key-IsAnswer use_no b sel k h in
    let later = msgbox_loop-IsAnswer use_no b (msgbox_key use_no b sel k).1 keys r next in
    elim (Option-cases (msgbox_key use_no b sel k).0) [
      | inl n ↦ later (rw (n, msgbox_loop) at e)
      | inr (x, y) ↦ answers r (y ∙ (rw (y, msgbox_loop) at e))
    ]

-- For each set of buttons and both languages: a box that gets an answer by the keys returns the code of
-- one of its buttons, or the code of Cancel. With Esc, or Enter at once, there is an answer.
pub dlg_msgbox-IsAnswer :
    (use_no : Bool) (b : Buttons) (keys : List ℕ)
    → ((r : ℕ) → dlg_msgbox use_no b keys ≡ some r → IsAnswer b r)
      × (dlg_msgbox use_no b (k_esc ∷ keys) ≡ some hdk_cancel)
      × (dlg_msgbox use_no b (k_enter ∷ keys) ≡ some (get_or (res b) 0 0))
unfolding dlg_msgbox msgbox_loop msgbox_key
dlg_msgbox-IsAnswer use_no b keys =
    (λ r e. msgbox_loop-IsAnswer use_no b 0 keys r (some_button b) e, refl, refl)
  where
    some_button : (b : Buttons) → 0 < length (res b)
    some_button db_ok = omega arith
    some_button db_yesno = omega arith
    some_button db_yesnoca = omega arith
    some_button db_yesnoall = omega arith

-- A text that is answered by Enter, from one that fits, is at most as long as the caller allows.
pub dlg_input-room :
    (buf keys text : List ℕ) (max : ℕ)
    → length buf ≤ max
    → length buf ≤ 40
    → dlg_input buf max keys ≡ some (some text)
    → length text ≤ max
unfolding dlg_input
dlg_input-room buf keys text max h l e =
    let limit : ℕ = if ltb 40 max then 40 else max in
    let f : Field = record { text = buf; max = limit; pos = length buf; uppercase = false } in
    let r =
      input_loop-room f keys text (record { cursor = omega arith; room = ground (arith, h, l) })
        e in
    ground (arith, r)

-- For at most 512 items, none of them behind the last: no product wraps, the percentage is at most 100 and the
-- bar at most 48 cells, and at the last item both are full.
pub dlg_progress-range :
    (cur total : ℕ)
    → cur ≤ total
    → total ≤ 512
    → (progress_pct cur total ≤ 100)
      × (progress_bar cur total ≤ dlg_prog_w)
      × (cur ≡ total → (progress_pct cur total ≡ 100) × (progress_bar cur total ≡ dlg_prog_w))
unfolding progress_pct progress_bar
dlg_progress-range cur total h l = elim (Bool-cases (total == 0)) [
  | inl t ↦ rw t (omega arith, omega arith, λ e. (refl, refl))
  | inr f ↦
      let pos : 0 < total = ground (arith, f) in
      let pct : u16 (cur * 100) ≡ cur * 100 = omega arith in
      let bar : u16 (cur * dlg_prog_w) ≡ cur * dlg_prog_w = omega arith in
      let pct_le : cur * 100 / total ≤ 100 = div-le_of_le-mul total (omega arith) in
      let bar_le : cur * dlg_prog_w / total ≤ dlg_prog_w = div-le_of_le-mul total (omega arith) in
      let within : ltb dlg_prog_w (cur * dlg_prog_w / total) ≡ false = ge→ltb _ _ bar_le in
      rw (f, pct, bar, within)
        (
          pct_le,
          bar_le,
          λ e. (
            ap (λ x. x * 100 / total) e ∙ mul-div_right 100 pos,
            ap (λ x. x * dlg_prog_w / total) e ∙ mul-div_right dlg_prog_w pos,
          ),
        )
]
