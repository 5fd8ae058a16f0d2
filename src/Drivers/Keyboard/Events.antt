-- ===== src/Drivers/Keyboard/Events.antt =====
-- The events that src/drivers/keyboard.c makes of scan codes.
use harvac.Prelude.{
  ℕ, zero, suc, ◌+◌, ◌-◌, ◌*◌, ◌/◌, ◌%◌, ◌<◌, ◌≤◌, ◌≡◌, ◌⊎◌, inl, inr, refl, arith, Bool, true,
  false, ◌&&◌, leb, ◌==◌, if◌then◌else◌, List, [], ◌∷◌, All, get_or, some, Bool-cases, ==→eq,
}
use harvac.Drivers.Keyboard.{
  Modifiers, scancode_ascii, scancode_ascii_shift, is_lower, is_upper, translate_key, plain_event,
  decode,
}

abbrev all_leb : List ℕ → Bool
all_leb [] = true
all_leb (x ∷ xs) = let rest = all_leb xs in if leb x 127 then rest else false

abbrev pub IsLetter : ℕ → Type 0
IsLetter c = ((b'a' ≤ c) × (c ≤ b'z')) ⊎ ((b'A' ≤ c) × (c ≤ b'Z'))

-- A scan code in the high byte, with 0 in the low byte.
abbrev pub InHighByte : (sc ev : ℕ) → Type 0
InHighByte sc ev = (ev / 256 ≡ sc) × (ev % 256 ≡ 0)

-- The event of the key of a scan code: the scan code with a prefix or Alt, and for a key without a
-- character; otherwise the character, or with Ctrl the number of the letter.
pub data IsKey (sc : ℕ) (k : Modifiers) (ev : ℕ) : Type 0 where
  prefixed : (k.ext_prefix ≡ true) ⊎ (k.alt_pressed ≡ true) → InHighByte sc ev → IsKey sc k ev
  no_character :
      k.ext_prefix ≡ false
      → k.alt_pressed ≡ false
      → translate_key sc k ≡ 0
      → InHighByte sc ev
      → IsKey sc k ev
  character :
      k.ext_prefix ≡ false
      → k.alt_pressed ≡ false
      → (0 < ev) × (ev < 128)
      → (k.ctrl_pressed ≡ false → ev ≡ translate_key sc k)
      → (k.ctrl_pressed ≡ true → IsLetter (translate_key sc k) → ev ≡ translate_key sc k % 32)
      → (k.ctrl_pressed ≡ true → ¬ IsLetter (translate_key sc k) → ev ≡ translate_key sc k)
      → IsKey sc k ev

get_or-All : (xs : List ℕ) (i : ℕ) → All (λ c. c < 128) xs → get_or xs i 0 < 128
get_or-All [] i h = omega arith
get_or-All (x ∷ xs) zero (h, hs) = h
get_or-All (x ∷ xs) (suc i) (h, hs) = get_or-All xs i hs

All-leb : (xs : List ℕ) → all_leb xs ≡ true → All (λ c. c < 128) xs
All-leb [] h = tt
All-leb (x ∷ xs) h = (ground arith, All-leb xs (ground arith))

table :
    (shift : Bool) (sc : ℕ)
    → get_or (if shift then scancode_ascii_shift else scancode_ascii) sc 0 < 128
table true sc = get_or-All scancode_ascii_shift sc (All-leb scancode_ascii_shift refl)
table false sc = get_or-All scancode_ascii sc (All-leb scancode_ascii refl)

translate_key-lt : (sc : ℕ) (k : Modifiers) → translate_key sc k < 128
unfolding translate_key
translate_key-lt sc k =
    let c = get_or (if k.shift_pressed then scancode_ascii_shift else scancode_ascii) sc 0 in
    raised c (leb 128 sc) k.caps_locked (table k.shift_pressed sc)
  where
    raised :
        (c : ℕ) (high caps : Bool)
        → c < 128
        → (if high
            then 0
            else if is_lower c && caps
            then c - 32
            else if is_upper c && caps
            then c + 32
            else c)
          < 128
    raised c high caps h = ground arith

plain_event-IsKey :
    (sc : ℕ) (k : Modifiers)
    → k.ext_prefix ≡ false
    → k.alt_pressed ≡ false
    → IsKey sc k (plain_event sc k)
unfolding plain_event
plain_event-IsKey sc k x l =
    let a = translate_key sc k in
    let small = translate_key-lt sc k in
    elim (Bool-cases (a == 0)) [
      | inl t ↦ rw t (no_character x l (==→eq a 0 t) (omega arith, omega arith))
      | inr f ↦
          character x l (ground arith, ground arith) (λ off. ground arith) (λ on h. ground arith)
            (λ on h. ground arith)
    ]

decode-some :
    (sc : ℕ) (k : Modifiers) (ev : ℕ)
    → (decode sc k).1 ≡ some ev
    → ((k.ext_prefix ≡ true) ⊎ (k.alt_pressed ≡ true)) × (ev ≡ sc * 256)
      ⊎ (k.ext_prefix ≡ false) × (k.alt_pressed ≡ false) × (ev ≡ plain_event sc k)
unfolding decode
decode-some sc k ev e = elim (Bool-cases k.ext_prefix) [
  | inl x ↦ inl (inl x, ground arith)
  | inr x ↦ elim (Bool-cases k.alt_pressed) [
    | inl l ↦ inl (inr l, ground arith)
    | inr l ↦ inr (x, l, ground arith)
  ]
]

-- For every scan code and every state of the modifiers, an event that the driver makes: behind a
-- prefix and with Alt it has the scan code in the high byte and 0 in the low byte, and so it has for a
-- key without a character. Otherwise it is a character of seven bits that is not 0: with Ctrl and a
-- letter the letter's number, and without these the character of the key.
pub decode-IsKey : (sc : ℕ) (k : Modifiers) (ev : ℕ) → (decode sc k).1 ≡ some ev → IsKey sc k ev
decode-IsKey sc k ev e = elim (decode-some sc k ev e) [
  | inl (o, p) ↦ prefixed o (omega (arith, p), omega (arith, p))
  | inr (x, l, p) ↦ rw p (plain_event-IsKey sc k x l)
]
