-- ===== src/Vfs/Names/Fields.antt =====
-- The 8.3 names that `vfs_name_to_83` (src/fs/vfs.c) makes.
use harvac.Prelude.{
  ℕ, ◌+◌, ◌≤◌, ◌<◌, ◌≡◌, ◌≢◌, refl, arith, Bool, true, false, not, ◌&&◌, ltb, leb, ◌==◌, List, [],
  ◌∷◌, update, All, Bool-cases, inl, inr, ltb→lt, ltb→ge,
}
use harvac.Fat16.Dir.Names.{IsPadded}
use harvac.Vfs.Names.{slash, to_upper, Packing, pack_char, pack_loop, vfs_name_to_83}

-- A character of a name: not a lower case letter.
abbrev pub IsRaised : ℕ → Type 0
IsRaised c = (leb b'a' c && leb c b'z') ≡ false

-- What the loop has written: characters up to the two counters, then spaces.
record IsPacking (p : Packing) : Type 0 where
  ni_fits : p.ni ≤ 8
  ei_fits : p.ei ≤ 3
  raised : (i : ℕ) → i < 11 → IsRaised (p.out i)
  chars : (i : ℕ) → i < p.ni → p.out i ≢ 0x20
  spaces : (i : ℕ) → p.ni ≤ i → i < 8 → p.out i ≡ 0x20
  ext_chars : (i : ℕ) → 8 ≤ i → i < 8 + p.ei → p.out i ≢ 0x20
  ext_spaces : (i : ℕ) → 8 + p.ei ≤ i → i < 11 → p.out i ≡ 0x20
  ended : p.out 11 ≡ 0

to_upper-IsRaised : (c : ℕ) → IsRaised (to_upper c)
to_upper-IsRaised c = ground arith

to_upper_char : (c : ℕ) → c ≢ 0x20 → to_upper c ≢ 0x20
to_upper_char c h = ground arith

name_char :
    {p : Packing} (dotted : Bool) (u : ℕ)
    → IsRaised u
    → u ≢ 0x20
    → p.ni < 8
    → IsPacking p
    → IsPacking (record { ni = p.ni + 1; ei = p.ei; dot = dotted; out = update p.out p.ni u })
name_char {p} dotted u r h l v = record {
  ni_fits = omega arith;
  ei_fits = v.ei_fits;
  raised = λ i k. ground (arith, v.raised i k);
  chars = λ i k. ground (arith, v.chars i);
  spaces = λ i k j. ground (arith, v.spaces i (omega arith) j);
  ext_chars = λ i k j. ground (arith, v.ext_chars i k j);
  ext_spaces = λ i k j. ground (arith, v.ext_spaces i k j);
  ended = ground (arith, v.ended);
}

ext_char :
    {p : Packing} (dotted : Bool) (u : ℕ)
    → IsRaised u
    → u ≢ 0x20
    → p.ei < 3
    → IsPacking p
    → IsPacking (record { ni = p.ni; ei = p.ei + 1; dot = dotted; out = update p.out (8 + p.ei) u })
ext_char {p} dotted u r h l v = record {
  ni_fits = v.ni_fits;
  ei_fits = omega arith;
  raised = λ i k. ground (arith, v.raised i k);
  chars = λ i k. ground (arith, v.ni_fits, v.chars i k);
  spaces = λ i k j. ground (arith, v.spaces i k j);
  ext_chars = λ i k j. ground (arith, v.ext_chars i k);
  ext_spaces = λ i k j. ground (arith, v.ext_spaces i (omega arith) j);
  ended = ground (arith, v.ended);
}

with_dot : {p : Packing} (dotted : Bool) → IsPacking p → IsPacking (record p { dot = dotted })
with_dot dotted v = record {
  ni_fits = v.ni_fits;
  ei_fits = v.ei_fits;
  raised = v.raised;
  chars = v.chars;
  spaces = v.spaces;
  ext_chars = v.ext_chars;
  ext_spaces = v.ext_spaces;
  ended = v.ended;
}

pack_char-IsPacking : (c : ℕ) (p : Packing) → c ≢ 0x20 → IsPacking p → IsPacking (pack_char c p)
unfolding pack_char
pack_char-IsPacking c p h v =
    let r = to_upper-IsRaised c in
    let k = to_upper_char c h in
    elim (Bool-cases (c == b'.' && not p.dot)) [
      | inl e ↦ rw e (with_dot true v)
      | inr e ↦ elim (Bool-cases p.dot) [
        | inl d ↦ elim (Bool-cases (ltb p.ei 3)) [
          | inl l ↦ rw e (rw d (rw l (ext_char true (to_upper c) r k (ltb→lt _ _ l) v)))
          | inr l ↦ rw e (rw d (rw l (with_dot true v)))
        ]
        | inr d ↦ elim (Bool-cases (ltb p.ni 8)) [
          | inl l ↦ rw e (rw d (rw l (name_char false (to_upper c) r k (ltb→lt _ _ l) v)))
          | inr l ↦ rw e (rw d (rw l (with_dot false v)))
        ]
      ]
    ]

pack_loop_lem :
    (cs : List ℕ) (p : Packing)
    → All (λ c. c ≢ 0x20) cs
    → IsPacking p
    → (q : Packing) × (pack_loop cs p ≡ q.out) × IsPacking q
unfolding pack_loop
pack_loop_lem [] p h v = (p, refl, v)
pack_loop_lem (c ∷ cs) p (h, hs) v = elim (Bool-cases (c == slash)) [
  | inl e ↦ (p, rw e refl, v)
  | inr e ↦
      let (q, run, w) = pack_loop_lem cs (pack_char c p) hs (pack_char-IsPacking c p h v) in
      (q, rw e run, w)
]

-- The name of a path component without spaces has two fields that are padded with spaces, no lower
-- case letters, and a zero behind its eleven bytes.
pub vfs_name_to_83_lem :
    (comp : List ℕ)
    → All (λ c. c ≢ 0x20) comp
    → let out = vfs_name_to_83 comp in
      IsPadded out 0 8
      × IsPadded out 8 3
      × ((i : ℕ) → i < 11 → (leb b'a' (out i) && leb (out i) b'z') ≡ false)
      × (out 11 ≡ 0)
unfolding vfs_name_to_83
vfs_name_to_83_lem comp h =
    let (q, run, v) = pack_loop_lem comp start h (record {
      ni_fits = omega arith;
      ei_fits = omega arith;
      raised = λ i k. ground arith;
      chars = λ i k. absurd (omega arith);
      spaces = λ i k j. ground arith;
      ext_chars = λ i k j. absurd (omega arith);
      ext_spaces = λ i k j. ground arith;
      ended = refl;
    }) in
    rw run (
      λ i j a b d e. padded q v i j b d e,
      λ i j a b d e. padded_ext q v i j a b d e,
      v.raised,
      v.ended,
    )
  where
    start : Packing
    start = record { ni = 0; ei = 0; dot = false; out = update (λ i. 0x20) 11 0 }

    padded :
        (q : Packing) → IsPacking q → (i j : ℕ) → i ≤ j → j < 8 → q.out i ≡ 0x20 → q.out j ≡ 0x20
    padded q v i j b d e = elim (Bool-cases (ltb i q.ni)) [
      | inl l ↦ absurd (v.chars i (ltb→lt _ _ l) e)
      | inr l ↦ let g = ltb→ge _ _ l in v.spaces j (omega arith) d
    ]

    padded_ext :
        (q : Packing)
        → IsPacking q
        → (i j : ℕ) → 8 ≤ i
        → i ≤ j
        → j < 11
        → q.out i ≡ 0x20
        → q.out j ≡ 0x20
    padded_ext q v i j a b d e = elim (Bool-cases (ltb i (8 + q.ei))) [
      | inl l ↦ absurd (v.ext_chars i a (ltb→lt _ _ l) e)
      | inr l ↦ let g = ltb→ge _ _ l in v.ext_spaces j (omega arith) d
    ]
