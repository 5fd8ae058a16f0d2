-- ===== src/Drivers/Keyboard/Queue.antt =====
-- The ring of src/drivers/keyboard.c is a queue: keys come out in the order in which they went in.
use harvac.Prelude.{
  ℕ, suc, ◌+◌, ◌-◌, ◌<◌, ◌≡◌, inl, inr, refl, arith, true, false, ltb, ◌==◌, if◌then◌else◌, List,
  [], ◌∷◌, ◌++◌, length, length-append, get_or, get_or-append, Option, none, some, Bool-cases,
}
use harvac.Drivers.Keyboard.{
  Ring, Modifiers, Keyboard, next_place, kbd_push, decode, process_scancode, is_empty,
  keyboard_getkey,
}

-- The place of the `i`-th event.
abbrev place : (tail i : ℕ) → ℕ
place tail i = if ltb (tail + i) 64 then tail + i else tail + i - 64

-- A ring that holds the events of a list, the oldest first.
pub record Holds (k : Ring) (events : List ℕ) : Type 0 where
  pub tail_low : k.kbd_tail < 64
  pub fits : length events < 64
  pub head_is : k.kbd_head ≡ place k.kbd_tail (length events)
  pub entries : (i : ℕ) → i < length events → k.kbd_buffer (place k.kbd_tail i) ≡ get_or events i 0

-- The abstract queue: the event goes to the end of a list of fewer than 63, and is lost else.
abbrev pub offered : List ℕ → ℕ → List ℕ
offered events ev = if ltb (length events) 63 then events ++ ev ∷ [] else events

next_place-low : (i : ℕ) → i < 64 → next_place i ≡ (if ltb i 63 then i + 1 else 0)
next_place-low i h = ground arith

pub kbd_push-Holds :
    (ev : ℕ) (k : Ring) (events : List ℕ)
    → Holds k events
    → Holds (kbd_push ev k) (offered events ev)
unfolding kbd_push
kbd_push-Holds ev k events v =
    let head_low : k.kbd_head < 64 = ground (arith, v.head_is, v.tail_low, v.fits) in
    let next = next_place-low k.kbd_head head_low in
    elim (Bool-cases (ltb (length events) 63)) [
      | inl t ↦
          let free : (next_place k.kbd_head == k.kbd_tail) ≡ false =
            rw next (ground (arith, v.head_is, v.tail_low, t)) in
          let n : length (events ++ ev ∷ []) ≡ length events + 1 = length-append events (ev ∷ []) in
          rw (t, free)
            (record {
              tail_low = v.tail_low;
              fits = ground (arith, n);
              head_is = rw (next, n) (ground (arith, v.head_is, v.tail_low, t));
              entries = λ i h. rw (get_or-append events ev i 0) (
                  let old : i < length events
                      → k.kbd_buffer (place k.kbd_tail i) ≡ get_or events i 0 =
                    v.entries i in
                  ground (arith, n, v.head_is, v.tail_low, old));
            })
      | inr f ↦
          let full : (next_place k.kbd_head == k.kbd_tail) ≡ true =
            rw next (ground (arith, v.head_is, v.tail_low, v.fits, f)) in
          rw (f, full) v
    ]

pub keyboard_getkey-Holds :
    (k : Keyboard) (e : ℕ) (events : List ℕ)
    → Holds k.ring (e ∷ events)
    → (rest : Ring) × (keyboard_getkey [] k
        ≡ some (e, [], record { ring = rest; modifiers = k.modifiers }))
      × Holds rest events
unfolding keyboard_getkey
keyboard_getkey-Holds k e events v =
    let r = k.ring in
    let next = next_place-low r.kbd_tail v.tail_low in
    let some_key : is_empty r ≡ false = ground (arith, v.head_is, v.tail_low, v.fits) in
    let rest : Ring = record r { kbd_tail = next_place r.kbd_tail } in
    let first : r.kbd_buffer r.kbd_tail ≡ e =
      (let z : place r.kbd_tail 0 ≡ r.kbd_tail = ground (arith, v.tail_low) in
        rw z at (v.entries 0 (omega arith))) in
    (
      rest,
      rw (some_key, first) refl,
      record {
        tail_low = rw next (ground (arith, v.tail_low));
        fits = omega (arith, v.fits);
        head_is = rw next (ground (arith, v.head_is, v.tail_low, v.fits));
        entries = λ i h. rw next (
            let o = v.entries (suc i) (omega arith) in
            let z : place (if ltb r.kbd_tail 63 then r.kbd_tail + 1 else 0) i
                ≡ place r.kbd_tail (suc i) =
              ground (arith, v.tail_low, v.fits) in
            rw z o);
      },
    )

-- An interrupt with a scan code, or a call for a key.
pub data Action : Type 0 where
  irq : (sc : ℕ) → Action
  getkey : Action

-- The keys that the calls return. One that finds none waits, and is made again.
abbrev pub delivered : List Action → Keyboard → List ℕ
delivered [] k = []
delivered (irq sc ∷ actions) k = delivered actions (process_scancode sc k)
delivered (getkey ∷ actions) k = elim (keyboard_getkey [] k) [
  | none ↦ delivered actions k
  | some (e, _, k') ↦ e ∷ delivered actions k'
]

abbrev pub after_event : List ℕ → Option ℕ → List ℕ
after_event events none = events
after_event events (some e) = offered events e

-- The same of a queue, to which each interrupt offers the event of its scan code.
abbrev pub queued : List Action → Modifiers → (events : List ℕ) → List ℕ
queued [] m events = []
queued (irq sc ∷ actions) m events =
    queued actions (decode sc m).0 (after_event events (decode sc m).1)
queued (getkey ∷ actions) m [] = queued actions m []
queued (getkey ∷ actions) m (e ∷ events) = e ∷ queued actions m events
