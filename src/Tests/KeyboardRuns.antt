-- ===== src/Tests/KeyboardRuns.antt =====
-- Runs of the keyboard driver (src/drivers/keyboard.c).
use harvac.Prelude.{◌≡◌, refl, List, [], ◌∷◌, some}
use harvac.Drivers.Keyboard.{decode, plain_event, translate_key, no_modifiers}
use harvac.Drivers.Keyboard.Events.{IsKey, decode-IsKey}
use harvac.Drivers.Keyboard.Queue.{Action, irq, getkey, queued}

-- The key A is pressed.
pressed_a : (decode 0x1e no_modifiers).1 ≡ some b'a'
unfolding decode plain_event translate_key
pressed_a = refl

decode-IsKey_example : IsKey 0x1e no_modifiers b'a'
decode-IsKey_example = decode-IsKey 0x1e no_modifiers b'a' pressed_a

-- Shift and A, then B, with a call between.
abbrev shift_a_b : List Action
shift_a_b = irq 0x2a ∷ irq 0x1e ∷ irq 0xaa ∷ getkey ∷ irq 0x30 ∷ getkey ∷ []

queued-shift_a_b : queued shift_a_b no_modifiers [] ≡ b'A' ∷ b'b' ∷ []
unfolding decode plain_event translate_key
queued-shift_a_b = refl
