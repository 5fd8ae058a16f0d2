-- ===== src/Fat16/Dir/Names.antt =====
-- `name_match` (src/drivers/fat16.c) compares the two fields of an 8.3 name.
use harvac.Prelude.{
  ℕ, zero, suc, ◌+◌, ◌≤◌, ◌<◌, ◌≡◌, refl, arith, true, false, ◌&&◌, ◌==◌, Bytes, Bool-cases, inl,
  inr, ==→eq, ==→ne, ltb, ltb→lt, ltb→ge,
}
use harvac.Fat16.Dir.{match_part, name_match}

-- In a field behind a space there are only spaces.
abbrev pub IsPadded : Bytes → (first count : ℕ) → Type 0
IsPadded b first count = (i j : ℕ) → first ≤ i → i ≤ j → j < first + count → b i ≡ 0x20 → b j ≡ 0x20

IsPadded-tail :
    (b : Bytes) (first count : ℕ) → IsPadded b first (suc count) → IsPadded b (first + 1) count
IsPadded-tail b first count p i j h k l = p i j (omega arith) k (omega arith)

match_part_sound :
    (name entry : Bytes) (left i : ℕ)
    → IsPadded name i left
    → IsPadded entry i left
    → match_part name entry left i ≡ true
    → (j : ℕ) → i ≤ j
    → j < i + left
    → name j ≡ entry j
unfolding match_part
match_part_sound name entry zero i p q t j h l = absurd (omega arith)
match_part_sound name entry (suc left) i p q t j h l =
    elim (Bool-cases (name i == 0x20 && (entry i == 0x20))) [
      | inl spaces ↦
          omega
            (arith, p i j (omega arith) h l (ground arith), q i j (omega arith) h l (ground arith))
      | inr other ↦ elim (Bool-cases (name i == entry i)) [
        | inl same ↦ elim (Bool-cases (j == i)) [
          | inl here ↦ rw (==→eq j i here) (==→eq _ _ same)
          | inr later ↦
              match_part_sound name entry left (i + 1) (IsPadded-tail name i left p)
                (IsPadded-tail entry i left q) (rw (other, same) at t) j
                (omega (arith, ==→ne j i later)) (omega arith)
        ]
        | inr differs ↦ absurd (false_true (rw (other, differs) at t))
      ]
    ]
  where
    false_true : false ≡ true → ⊥
    false_true e = cc

match_part_complete :
    (name entry : Bytes) (left i : ℕ)
    → ((j : ℕ) → i ≤ j → j < i + left → name j ≡ entry j)
    → match_part name entry left i ≡ true
unfolding match_part
match_part_complete name entry zero i same = refl
match_part_complete name entry (suc left) i same =
    let rest =
      match_part_complete name entry left (i + 1) (λ j h l. same j (omega arith) (omega arith)) in
    ground (arith, rest, same i (omega arith) (omega arith))

-- Of names whose fields are padded with spaces, a match is equality of the eleven bytes.
pub name_match-equal :
    (name entry : Bytes)
    → IsPadded name 0 8
    → IsPadded name 8 3
    → IsPadded entry 0 8
    → IsPadded entry 8 3
    → (name_match name entry ≡ true → (j : ℕ) → j < 11 → name j ≡ entry j)
      × (((j : ℕ) → j < 11 → name j ≡ entry j) → name_match name entry ≡ true)
unfolding name_match
name_match-equal name entry a b c d = (
  λ t j h.
      let first : match_part name entry 8 0 ≡ true = ground arith in
      let second : match_part name entry 3 8 ≡ true = ground arith in
      elim (Bool-cases (ltb j 8)) [
        | inl l ↦ match_part_sound name entry 8 0 a c first j (omega arith) (ltb→lt _ _ l)
        | inr l ↦ match_part_sound name entry 3 8 b d second j (ltb→ge _ _ l) h
      ],
  λ same. ground (
    arith,
    match_part_complete name entry 8 0 (λ j h l. same j (omega arith)),
    match_part_complete name entry 3 8 (λ j h l. same j (omega arith)),
  ),
)
