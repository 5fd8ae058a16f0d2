-- ===== src/Drivers/Keyboard.antt =====
-- The keyboard driver of src/drivers/keyboard.c: scan codes, modifiers and the ring of key events.
-- The ports are not part of the model: a scan code is an argument of the interrupt handler, and what
-- the serial port has received is a list.
pub mod Queue
pub mod Events
use harvac.Prelude.{
  ℕ, ◌+◌, ◌-◌, ◌*◌, ◌/◌, ◌%◌, Bool, true, false, not, ◌&&◌, ◌||◌, leb, ◌==◌, if◌then◌else◌, List,
  [], ◌∷◌, ◌++◌, Option, none, some, get_or, update, Bytes, u8, codes,
}

abbrev pub kbd_buffer_size : ℕ
kbd_buffer_size = 64

-- The ring of key events: a character, or a scan code in the high byte.
pub record Ring : Type 0 where
  pub kbd_buffer : Bytes
  pub kbd_head : ℕ
  pub kbd_tail : ℕ

pub record Modifiers : Type 0 where
  pub shift_pressed : Bool
  pub caps_locked : Bool
  pub ctrl_pressed : Bool
  pub alt_pressed : Bool
  pub ext_prefix : Bool

-- The statics of the driver.
pub record Keyboard : Type 0 where
  pub ring : Ring
  pub modifiers : Modifiers

abbrev pub scancode_ascii : List ℕ
scancode_ascii =
    0
    ∷ 0
    ∷ (codes "1234567890-="
        ++ (8
            ∷ 9
            ∷ (codes "qwertyuiop[]"
                ++ (13
                    ∷ 0
                    ∷ (codes "asdfghjkl;"
                        ++ (39 ∷ 96 ∷ 0 ∷ 92 ∷ (codes "zxcvbnm,./" ++ (0 ∷ 42 ∷ 0 ∷ 32 ∷ []))))))))

abbrev pub scancode_ascii_shift : List ℕ
scancode_ascii_shift =
    0
    ∷ 0
    ∷ (codes "!@#$%^&*()_+"
        ++ (8
            ∷ 9
            ∷ (codes "QWERTYUIOP{}"
                ++ (13
                    ∷ 0
                    ∷ (codes "ASDFGHJKL:"
                        ++ (34
                            ∷ 126
                            ∷ 0
                            ∷ 124
                            ∷ (codes "ZXCVBNM<>?" ++ (0 ∷ 42 ∷ 0 ∷ 32 ∷ []))))))))

abbrev pub is_lower : ℕ → Bool
is_lower c = leb b'a' c && leb c b'z'

abbrev pub is_upper : ℕ → Bool
is_upper c = leb b'A' c && leb c b'Z'

-- The next place of the ring.
abbrev pub next_place : ℕ → ℕ
next_place i = u8 ((i + 1) % kbd_buffer_size)

unfoldable pub kbd_push : (ev : ℕ) → Ring → Ring
kbd_push ev k = if next_place k.kbd_head == k.kbd_tail then k else record k {
  kbd_buffer = update k.kbd_buffer k.kbd_head ev;
  kbd_head = next_place k.kbd_head;
}

unfoldable pub translate_key : (scancode : ℕ) → Modifiers → ℕ
translate_key scancode k =
    let c = get_or (if k.shift_pressed then scancode_ascii_shift else scancode_ascii) scancode 0 in
    if leb 128 scancode
    then 0
    else if is_lower c && k.caps_locked
    then c - 32
    else if is_upper c && k.caps_locked
    then c + 32
    else c

-- The event of a key without Alt or a prefix.
unfoldable pub plain_event : (sc : ℕ) → Modifiers → ℕ
plain_event sc k =
    let ascii = translate_key sc k in
    if ascii == 0
    then sc * 256
    else if k.ctrl_pressed && is_lower ascii
    then ascii - b'a' + 1
    else if k.ctrl_pressed && is_upper ascii
    then ascii - b'A' + 1
    else ascii

abbrev pub is_shift_make : ℕ → Bool
is_shift_make sc = sc == 0x2a || sc == 0x36

abbrev pub is_shift_break : ℕ → Bool
is_shift_break sc = sc == 0xaa || sc == 0xb6

-- `process_scancode` up to the push that ends it: the modifiers, and the event if there is one.
unfoldable pub decode : (sc : ℕ) → Modifiers → Modifiers × Option ℕ
decode sc k =
    let done : Modifiers = record k { ext_prefix = false } in
    if sc == 0xe0
    then (record k { ext_prefix = true }, none)
    else if k.ext_prefix && (is_shift_make sc || is_shift_break sc)
    then (done, none)
    else if is_shift_make sc
    then (record done { shift_pressed = true }, none)
    else if is_shift_break sc
    then (record done { shift_pressed = false }, none)
    else if sc == 0x1d
    then (record done { ctrl_pressed = true }, none)
    else if sc == 0x9d
    then (record done { ctrl_pressed = false }, none)
    else if sc == 0x38
    then (record done { alt_pressed = true }, none)
    else if sc == 0xb8
    then (record done { alt_pressed = false }, none)
    else if sc == 0x3a
    then (record done { caps_locked = not k.caps_locked }, none)
    else if leb 0x80 sc
    then (done, none)
    else if k.ext_prefix
    then (done, some (sc * 256))
    else if k.alt_pressed
    then (k, some (sc * 256))
    else (k, some (plain_event sc k))

unfoldable pub process_scancode : (sc : ℕ) → Keyboard → Keyboard
process_scancode sc k =
    let (modifiers, ev) = decode sc k.modifiers in
    record { ring = elim ev [ none ↦ k.ring | some e ↦ kbd_push e k.ring ]; modifiers = modifiers }

abbrev pub is_empty : Ring → Bool
is_empty r = r.kbd_head == r.kbd_tail

-- The key, with the driver and what the serial port still has. Without either the call waits.
unfoldable pub keyboard_getkey : (serial_in : List ℕ) → Keyboard → Option (ℕ × List ℕ × Keyboard)
keyboard_getkey serial_in k =
    let ev = k.ring.kbd_buffer k.ring.kbd_tail in
    let rest : Ring = record k.ring { kbd_tail = next_place k.ring.kbd_tail } in
    let polled : Option (ℕ × List ℕ × Keyboard) = elim serial_in [
      | [] ↦ none
      | c ∷ rest ↦ some (u8 c, rest, k)
    ] in
    if is_empty k.ring then polled else some (ev, serial_in, record k { ring = rest })

unfoldable pub keyboard_shift_state : Modifiers → ℕ
keyboard_shift_state k =
    (if k.shift_pressed then 3 else 0)
    + (if k.ctrl_pressed then 4 else 0)
    + (if k.alt_pressed then 8 else 0)

unfoldable pub keyboard_available : Keyboard → Bool
keyboard_available k = not (is_empty k.ring)

abbrev pub no_modifiers : Modifiers
no_modifiers = record {
  shift_pressed = false;
  caps_locked = false;
  ctrl_pressed = false;
  alt_pressed = false;
  ext_prefix = false;
}

-- The buffer keeps what it holds.
abbrev pub keyboard_init : Bytes → Keyboard
keyboard_init buffer = record {
  ring = record { kbd_buffer = buffer; kbd_head = 0; kbd_tail = 0 };
  modifiers = no_modifiers;
}
