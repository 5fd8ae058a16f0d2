-- ===== src/Posix/Number/Decimal.antt =====
-- Printing and reading numbers (lib/posix/string.c).
use harvac.Prelude.{
  ℕ, zero, suc, ◌+◌, ◌-◌, ◌*◌, ◌/◌, ◌%◌, ◌≤◌, ◌<◌, ◌≡◌, ◌≢◌, ◌∙◌, refl, arith, true, false, ◌&&◌,
  leb, ◌==◌, List, [], ◌∷◌, All, u16, Bool-cases, inl, inr, ==→ne,
}
use harvac.Posix.Number.{
  div10_loop, digits_loop, print_loop, utoa, skip_spaces, atoi_loop, atoi_signed, atoi,
}

-- The subtractions divide.
div10_loop_lem : (fuel val d : ℕ) → val < fuel → div10_loop fuel val d ≡ (val % 10, d + val / 10)
unfolding div10_loop
div10_loop_lem zero val d h = absurd (omega arith)
div10_loop_lem (suc fuel) val d h = elim (Bool-cases (leb 10 val)) [
  | inl t ↦
      let a : (val - 10) % 10 ≡ val % 10 = ground arith in
      let b : d + 1 + (val - 10) / 10 ≡ d + val / 10 = ground arith in
      rw t (div10_loop_lem fuel (val - 10) (d + 1) (ground arith) ∙ rw (a, b) refl)
  | inr f ↦
      let a : val % 10 ≡ val = ground arith in
      let b : d + val / 10 ≡ d = ground arith in rw f (rw (a, b) refl)
]

-- The digits of a number, the last one first, and none for 0.
digits_round :
    (fuel val : ℕ) → val ≢ 0 → digits_loop (suc fuel) val ≡ val % 10 ∷ digits_loop fuel (val / 10)
unfolding digits_loop
digits_round fuel val h = elim (Bool-cases (val == 0)) [
  | inl t ↦ absurd (ground arith)
  | inr f ↦ rw f (
      rw (div10_loop_lem (suc val) val 0 (omega arith))
        (let z : 0 + val / 10 ≡ val / 10 = omega arith in rw z refl))
]

digits_end : (fuel : ℕ) → digits_loop fuel 0 ≡ []
unfolding digits_loop
digits_end zero = refl
digits_end (suc fuel) = refl

-- A digit that is read behind the digits before it.
atoi_digit :
    (val : ℕ) (out : List ℕ)
    → val < 65536
    → atoi_loop (val / 10) ((val % 10 + b'0') ∷ out) ≡ atoi_loop val out
unfolding atoi_loop
atoi_digit val out h =
    let digit : (leb b'0' (val % 10 + b'0') && leb (val % 10 + b'0') b'9') ≡ true = ground arith in
    let whole : u16 (val / 10 * 10 + (val % 10 + b'0' - b'0')) ≡ val = omega arith in
    rw digit (rw whole refl)

atoi_loop-print_loop :
    (fuel val : ℕ) (out : List ℕ)
    → val < fuel
    → val < 65536
    → atoi_loop 0 (print_loop (digits_loop fuel val) out) ≡ atoi_loop val out
unfolding print_loop
atoi_loop-print_loop zero val out h k = absurd (omega arith)
atoi_loop-print_loop (suc fuel) val out h k = elim (Bool-cases (val == 0)) [
  | inl t ↦ let z : val ≡ 0 = ground arith in rw z (rw (digits_end (suc fuel)) refl)
  | inr f ↦ rw (digits_round fuel val (==→ne _ _ f)) (
      atoi_loop-print_loop fuel (val / 10) ((val % 10 + b'0') ∷ out)
        (let n = ==→ne val 0 f in omega arith) (omega arith)
      ∙ atoi_digit val out k)
]

-- Characters of digits.
abbrev AllDigits : List ℕ → Type 0
AllDigits = All (λ c. (b'0' ≤ c) × (c ≤ b'9'))

print_loop-AllDigits :
    (fuel val : ℕ) (out : List ℕ)
    → AllDigits out
    → AllDigits (print_loop (digits_loop fuel val) out)
unfolding print_loop
print_loop-AllDigits zero val out h = unfold digits_loop in h
print_loop-AllDigits (suc fuel) val out h = elim (Bool-cases (val == 0)) [
  | inl t ↦ let z : val ≡ 0 = ground arith in rw z (rw (digits_end (suc fuel)) h)
  | inr f ↦ rw (digits_round fuel val (==→ne _ _ f)) (
      print_loop-AllDigits fuel (val / 10) ((val % 10 + b'0') ∷ out)
        ((omega arith, omega arith), h))
]

atoi-AllDigits : (s : List ℕ) → AllDigits s → atoi s ≡ atoi_loop 0 s
unfolding atoi skip_spaces atoi_signed
atoi-AllDigits [] h = unfold atoi_loop in refl
atoi-AllDigits (c ∷ s) (h, hs) =
    let a : (c == b' ') ≡ false = ground arith in
    let b : (c == b'-') ≡ false = ground arith in
    let d : (c == b'+') ≡ false = ground arith in rw a (rw (b, d) refl)

-- Reading a printed number of 16 bits gives it back. An `int` can hold it if it is below 32768.
pub atoi-utoa : (val : ℕ) → val < 32768 → atoi (utoa val) ≡ val
unfolding utoa
atoi-utoa val h = elim (Bool-cases (val == 0)) [
  | inl t ↦ let z : val ≡ 0 = ground arith in rw z zero_case
  | inr f ↦ rw f (
      atoi-AllDigits (print_loop (digits_loop (suc val) val) [])
        (print_loop-AllDigits (suc val) val [] tt)
      ∙ atoi_loop-print_loop (suc val) val [] (omega arith) (omega arith)
      ∙ unfold atoi_loop in refl)
]
  where
    zero_case : atoi (b'0' ∷ []) ≡ 0
    zero_case = unfold atoi skip_spaces atoi_signed atoi_loop in refl
