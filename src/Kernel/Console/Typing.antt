-- ===== src/Kernel/Console/Typing.antt =====
-- The line editor of SYSCALL_READ_STDIN (src/kernel/syscalls.c) against the text that it edits.
use harvac.Prelude.{
  ℕ, ◌+◌, ◌-◌, ◌*◌, ◌≤◌, ◌<◌, ◌≡◌, ◌∙◌, ◌⊎◌, inl, inr, refl, arith, Bool, false, Bool-cases, ◌||◌,
  ltb, ◌==◌, if◌then◌else◌, List, [], ◌∷◌, ◌++◌, length, get_or, take, All, length-append,
  length-take, get_or-append, get_or-take, some, u8, u16, Bytes,
}
use harvac.Kernel.System.{write_far_b}
use harvac.Kernel.Console.{Line, edit_key, edit_line}

abbrev pub is_erase : ℕ → Bool
is_erase c = c == 8 || c == 0x7f

-- Whether a character ends the line.
abbrev pub is_end : ℕ → Bool
is_end c = c == 13 || c == 10 || c == 4

-- The text after the next character, in a buffer for `maxlen` bytes.
abbrev pub edited : (maxlen c : ℕ) → List ℕ → List ℕ
edited maxlen c text =
    if is_erase c
    then take (length text - 1) text
    else if ltb (length text) (maxlen - 1)
    then text ++ c ∷ []
    else text

-- The text after some characters.
abbrev pub typed : (maxlen : ℕ) → List ℕ → (text : List ℕ) → List ℕ
typed maxlen [] text = text
typed maxlen (c ∷ cs) text = typed maxlen cs (edited maxlen c text)

-- A text lies at an address, and the memory off the `maxlen` bytes from there on is the old one.
pub record Stored (old : Bytes) (base maxlen : ℕ) (l : Line) (text : List ℕ) : Type 0 where
  pub counted : l.count ≡ length text
  pub fits : length text < maxlen
  pub bytes : (i : ℕ) → i < length text → l.memory (base + i) ≡ get_or text i 0
  pub outside : (a : ℕ) → (a < base) ⊎ (base + maxlen ≤ a) → l.memory a ≡ old a

module _ (old : Bytes) (seg off maxlen : ℕ) (some_room : 0 < maxlen)
    (in_segment : off + maxlen ≤ 65536) where
  -- A line with the memory of another and one character less.
  shorter-Stored :
      (l l' : Line) (text : List ℕ)
      → l'.memory ≡ l.memory
      → l'.count ≡ l.count - 1
      → Stored old (seg * 16 + off) maxlen l text
      → Stored old (seg * 16 + off) maxlen l' (take (length text - 1) text)
  shorter-Stored l l' text p q s =
      let n : length (take (length text - 1) text) ≡ length text - 1 =
        omega (arith, length-take (length text - 1) text) in
      record {
        counted = omega (arith, q, n, s.counted);
        fits = omega (arith, n, s.fits);
        bytes = λ i h. rw p (
            rw (get_or-take (length text - 1) text i 0 (omega (arith, n, h)))
              (s.bytes i (omega (arith, n, h))));
        outside = λ a h. rw p (s.outside a h);
      }

  longer-Stored :
      (c : ℕ) (l : Line) (text : List ℕ) (sent : List ℕ)
      → c < 256
      → length text < maxlen - 1
      → Stored old (seg * 16 + off) maxlen l text
      → Stored old
          (seg * 16 + off)
          maxlen
          (record {
            count = l.count + 1;
            memory = write_far_b l.memory seg (off + l.count) c;
            sent = sent;
          })
          (text ++ c ∷ [])
  longer-Stored c l text sent b h s =
      let n : length (text ++ c ∷ []) ≡ length text + 1 = length-append text (c ∷ []) in
      let place : u16 (off + l.count) ≡ off + length text = omega (arith, s.counted, in_segment) in
      let byte : u8 c ≡ c = omega arith in
      record {
        counted = omega (arith, n, s.counted);
        fits = omega (arith, n);
        bytes = λ i k.
            rw (place, byte, get_or-append text c i 0)
              (let old_byte : i < length text → l.memory (seg * 16 + off + i) ≡ get_or text i 0 =
                  s.bytes i in
                ground (arith, n, old_byte));
        outside =
            λ a k. rw (place, byte) (let o : l.memory a ≡ old a = s.outside a k in ground arith);
      }

  edit_key-Stored :
      (c : ℕ) (l : Line) (text : List ℕ)
      → c < 256
      → is_end c ≡ false
      → Stored old (seg * 16 + off) maxlen l text
      → (l' : Line) × (edit_key c maxlen seg off l ≡ some l')
        × Stored old (seg * 16 + off) maxlen l' (edited maxlen c text)
  unfolding edit_key
  edit_key-Stored c l text b e s =
      let room : u16 (maxlen + 65535) ≡ maxlen - 1 = omega arith in
      let erased : Line = record l { count = l.count - 1; sent = 8 ∷ 32 ∷ 8 ∷ l.sent } in
      let longer : Line = record {
        count = l.count + 1;
        memory = write_far_b l.memory seg (off + l.count) c;
        sent = c ∷ l.sent;
      } in
      elim (Bool-cases (is_erase c)) [
        | inl p ↦ elim (Bool-cases (ltb 0 l.count)) [
          | inl q ↦ (erased, rw (e, p, q) refl, rw p (shorter-Stored l erased text refl refl s))
          | inr q ↦ (l, rw (e, p, q) refl, rw p (shorter-Stored l l text refl (ground arith) s))
        ]
        | inr p ↦ elim (Bool-cases (ltb (length text) (maxlen - 1))) [
          | inl q ↦ (
            longer,
            rw (e, p, room, s.counted, q) refl,
            rw (p, q) (longer-Stored c l text longer.sent b (ground arith) s),
          )
          | inr q ↦ (l, rw (e, p, room, s.counted, q) refl, rw (p, q) s)
        ]
      ]

  -- The end of a line writes a zero behind the text.
  ended-Stored :
      (l : Line) (text : List ℕ) (sent : List ℕ)
      → Stored old (seg * 16 + off) maxlen l text
      → let l' : Line = record {
        count = l.count;
        memory = write_far_b l.memory seg (off + l.count) 0;
        sent = sent;
      } in
        (l'.memory (seg * 16 + off + length text) ≡ 0) × Stored old (seg * 16 + off) maxlen l' text
  ended-Stored l text sent s =
      let place : u16 (off + l.count) ≡ off + length text =
        omega (arith, s.counted, s.fits, in_segment) in
      (
        rw place (ground arith),
        record {
          counted = s.counted;
          fits = s.fits;
          bytes = λ i k. rw place (
              let o : l.memory (seg * 16 + off + i) ≡ get_or text i 0 = s.bytes i k in
              ground arith);
          outside = λ a k.
              rw place (let o : l.memory a ≡ old a = s.outside a k in ground (arith, s.fits));
        },
      )

  edit_line-step :
      (c : ℕ) (keys : List ℕ) (l l1 : Line)
      → c < 256
      → edit_key c maxlen seg off l ≡ some l1
      → edit_line (c ∷ keys) maxlen seg off l ≡ edit_line keys maxlen seg off l1
  unfolding edit_line
  edit_line-step c keys l l1 b p =
      let byte : u8 c ≡ c = omega arith in
      let p' : edit_key (u8 c) maxlen seg off l ≡ some l1 = rw byte p in rw (edit_line, p') refl

  edit_line-Stored :
      (keys rest : List ℕ) (l : Line) (text : List ℕ)
      → All (λ c. (c < 256) × (is_end c ≡ false)) keys
      → Stored old (seg * 16 + off) maxlen l text
      → (l' : Line) × (edit_line (keys ++ 13 ∷ rest) maxlen seg off l ≡ some (l', rest))
        × (l'.memory (seg * 16 + off + length (typed maxlen keys text)) ≡ 0)
        × Stored old (seg * 16 + off) maxlen l' (typed maxlen keys text)
  unfolding edit_line edit_key
  edit_line-Stored [] rest l text a s =
      let (zeroed, stored) = ended-Stored l text (10 ∷ 13 ∷ l.sent) s in (_, refl, zeroed, stored)
  edit_line-Stored (c ∷ keys) rest l text ((b, e), a) s =
      let (l1, p, s1) = edit_key-Stored c l text b e s in
      let (l2, q, zeroed, s2) = edit_line-Stored keys rest l1 (edited maxlen c text) a s1 in
      (l2, edit_line-step c (keys ++ 13 ∷ rest) l l1 b p ∙ q, zeroed, s2)

-- The characters of a line as they are typed, none of which ends it, and Enter, where the buffer of
-- `maxlen` bytes is not empty and does not wrap in its segment: SYSCALL_READ_STDIN returns at that
-- key. The buffer then holds the text that the characters and the erasing keys make, at most
-- `maxlen - 1` bytes, with a zero behind it. The number of its bytes is the result, and no byte of the
-- memory off the buffer has changed.
pub edit_line-typed :
    (old : Bytes) (sent : List ℕ) (seg off maxlen : ℕ) (keys rest : List ℕ)
    → 0 < maxlen
    → off + maxlen ≤ 65536
    → All (λ c. (c < 256) × (is_end c ≡ false)) keys
    → let start : Line = record { count = 0; memory = old; sent = sent } in
      (l : Line) × (edit_line (keys ++ 13 ∷ rest) maxlen seg off start ≡ some (l, rest))
      × (l.memory (seg * 16 + off + length (typed maxlen keys [])) ≡ 0)
      × Stored old (seg * 16 + off) maxlen l (typed maxlen keys [])
edit_line-typed old sent seg off maxlen keys rest h k a =
    edit_line-Stored old seg off maxlen h k keys rest _ [] a (record {
      counted = refl;
      fits = h;
      bytes = λ i h. absurd (omega arith);
      outside = λ a h. refl;
    })
