-- ===== src/Apps/Grep/Contains.antt =====
-- `contains` (apps/grep.c) decides whether a string stands in another.
use harvac.Prelude.{
  ℕ, zero, suc, ◌+◌, ◌-◌, ◌≤◌, ◌<◌, ◌≡◌, ◌↔◌, refl, arith, Bool, true, false, ltb, ◌==◌,
  if◌then◌else◌, List, [], ◌∷◌, length, Bool-cases, inl, inr, ==→eq, ==→ne, ltb→ge,
}
use harvac.Apps.Grep.{folded, match_at, contains_loop, contains}

-- A string is a front of another, letter for letter or up to case.
pub data IsFront (icase : Bool) : (haystack needle : List ℕ) → Type 0 where
  front_ends : {haystack : List ℕ} → IsFront icase haystack []
  front_char :
      {h n : ℕ} {haystack needle : List ℕ}
      → folded icase h ≡ folded icase n
      → IsFront icase haystack needle
      → IsFront icase (h ∷ haystack) (n ∷ needle)

-- A string stands somewhere in another.
pub data StandsIn (icase : Bool) : (haystack needle : List ℕ) → Type 0 where
  in_front :
      {haystack needle : List ℕ} → IsFront icase haystack needle → StandsIn icase haystack needle
  further :
      {h : ℕ} {haystack needle : List ℕ}
      → StandsIn icase haystack needle
      → StandsIn icase (h ∷ haystack) needle

absurd_test : {G : Type 0} {b : Bool} → b ≡ true → b ≡ false → G
absurd_test {G} {b} h k = absurd (cc (h, k))

match_at-IsFront :
    (icase : Bool) (haystack needle : List ℕ)
    → (match_at icase haystack needle ≡ true) ↔ IsFront icase haystack needle
unfolding match_at
match_at-IsFront icase haystack [] = (λ t. front_ends, λ f. refl)
match_at-IsFront icase [] (n ∷ needle) = (λ t. absurd_test t refl, λ f. elim f [ ])
match_at-IsFront icase (h ∷ haystack) (n ∷ needle) =
    let (sound, complete) = match_at-IsFront icase haystack needle in
    elim (Bool-cases (folded icase h == folded icase n)) [
      | inl e ↦
          (λ t. front_char (==→eq _ _ e) (sound (rw e at t)), λ f. rw e (complete (front_tail f)))
      | inr e ↦ (λ t. absurd_test (rw e at t) refl, λ f. absurd (==→ne _ _ e (front_head f)))
    ]
  where
    front_tail : IsFront icase (h ∷ haystack) (n ∷ needle) → IsFront icase haystack needle
    front_tail (front_char e f) = f

    front_head : IsFront icase (h ∷ haystack) (n ∷ needle) → folded icase h ≡ folded icase n
    front_head (front_char e f) = e

IsFront-length :
    {icase : Bool} (haystack needle : List ℕ)
    → IsFront icase haystack needle
    → length needle ≤ length haystack
IsFront-length haystack [] f = omega arith
IsFront-length [] (n ∷ needle) f = elim f [ ]
IsFront-length (h ∷ haystack) (n ∷ needle) (front_char e f) =
    omega (arith, IsFront-length haystack needle f)

StandsIn-length :
    {icase : Bool} (haystack needle : List ℕ)
    → StandsIn icase haystack needle
    → length needle ≤ length haystack
StandsIn-length haystack needle (in_front f) = IsFront-length haystack needle f
StandsIn-length (h ∷ haystack) needle (further s) = omega (arith, StandsIn-length haystack needle s)

contains_loop-StandsIn :
    (icase : Bool) (left : ℕ) (haystack needle : List ℕ)
    → length haystack + 1 ≤ left + length needle
    → (contains_loop icase left haystack needle ≡ true) ↔ StandsIn icase haystack needle
unfolding contains_loop
contains_loop-StandsIn icase zero haystack needle l =
    (λ t. absurd_test t refl, λ s. absurd (omega (arith, StandsIn-length haystack needle s)))
contains_loop-StandsIn icase (suc left) [] needle l =
    let (sound, complete) = match_at-IsFront icase [] needle in
    (λ t. in_front (sound t), λ s. complete (at_end s))
  where
    at_end : StandsIn icase [] needle → IsFront icase [] needle
    at_end (in_front f) = f
contains_loop-StandsIn icase (suc left) (h ∷ haystack) needle l =
    let (front, at_front) = match_at-IsFront icase (h ∷ haystack) needle in
    let (sound, complete) = contains_loop-StandsIn icase left haystack needle (omega arith) in
    elim (Bool-cases (match_at icase (h ∷ haystack) needle)) [
      | inl e ↦ (λ t. in_front (front e), λ s. rw e refl)
      | inr e ↦ (λ t. further (sound (rw e at t)), λ s. rw e (complete (behind e at_front s)))
    ]
  where
    behind :
        match_at icase (h ∷ haystack) needle ≡ false
        → (IsFront icase (h ∷ haystack) needle → match_at icase (h ∷ haystack) needle ≡ true)
        → StandsIn icase (h ∷ haystack) needle
        → StandsIn icase haystack needle
    behind e f (in_front x) = absurd_test (f x) e
    behind e f (further s) = s

contains-some :
    (haystack needle : List ℕ) (icase : Bool)
    → 0 < length needle
    → contains haystack needle icase ≡ (
        if ltb (length haystack) (length needle)
        then false
        else contains_loop icase (length haystack - length needle + 1) haystack needle)
unfolding contains
contains-some haystack needle icase l =
    let nz : (length needle == 0) ≡ false = ground arith in rw nz refl

-- A line is taken exactly if the pattern stands somewhere in it, where letters in upper and lower case
-- count as the same if the case is to be ignored.
pub contains-StandsIn :
    (haystack needle : List ℕ) (icase : Bool)
    → (contains haystack needle icase ≡ true) ↔ StandsIn icase haystack needle
unfolding contains
contains-StandsIn haystack [] icase = (λ t. in_front front_ends, λ s. refl)
contains-StandsIn haystack (n ∷ needle) icase =
    rw (contains-some haystack (n ∷ needle) icase (omega arith))
      (elim (Bool-cases (ltb (length haystack) (length (n ∷ needle)))) [
        | inl e ↦ rw e (
          λ t. absurd_test t refl,
          λ s. absurd (let l = StandsIn-length haystack (n ∷ needle) s in ground arith),
        )
        | inr e ↦ rw e (
            contains_loop-StandsIn icase (length haystack - length (n ∷ needle) + 1) haystack
              (n ∷ needle) (let g = ltb→ge _ _ e in omega arith))
      ])
