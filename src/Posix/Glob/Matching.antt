-- ===== src/Posix/Glob/Matching.antt =====
-- `fnmatch` (lib/posix/fnmatch.c) decides a relation between patterns and names.
use mathlib.Core.List.{tail}
use harvac.Prelude.{
  ℕ, zero, suc, ◌+◌, ◌*◌, ◌≤◌, ◌<◌, ◌≡◌, ◌⊎◌, ◌↔◌, inl, inr, refl, arith, Bool, true, false, ◌||◌,
  ◌==◌, List, [], ◌∷◌, Option, none, some, length, Bool-cases,
}
use harvac.Posix.Glob.{ci_eq, Star, only_stars, back_up, match_loop, fnmatch}

-- A pattern matches a name: a star stands for any characters, a question mark for one character, and
-- any other character for itself, in upper or lower case.
pub data Matches : (pat name : List ℕ) → Type 0 where
  done : Matches [] []
  star_ends :
      {q : ℕ} {pat name : List ℕ} → (q == b'*') ≡ true → Matches pat name → Matches (q ∷ pat) name
  star_takes :
      {q c : ℕ} {pat name : List ℕ}
      → (q == b'*') ≡ true
      → Matches (q ∷ pat) name
      → Matches (q ∷ pat) (c ∷ name)
  char :
      {q c : ℕ} {pat name : List ℕ}
      → (q == b'*') ≡ false
      → (q == b'?' || ci_eq q c) ≡ true
      → Matches pat name
      → Matches (q ∷ pat) (c ∷ name)

absurd_test : {G : Type 0} {b : Bool} → b ≡ true → b ≡ false → G
absurd_test {G} {b} h k = absurd (cc (h, k))

abbrev any : ℕ
any = b'*'

only_stars_lem : (pat : List ℕ) → (only_stars pat ≡ true) ↔ Matches pat []
unfolding only_stars
only_stars_lem [] = (λ h. done, λ h. refl)
only_stars_lem (q ∷ pat) =
    let (sound, complete) = only_stars_lem pat in
    elim (Bool-cases (q == b'*')) [
      | inl e ↦ (λ h. star_ends e (sound (rw e at h)), λ m. rw e (complete (rest m)))
      | inr e ↦ (λ h. absurd_test (rw e at h) refl, λ m. absurd (no_star m e))
    ]
  where
    rest : Matches (q ∷ pat) [] → Matches pat []
    rest (star_ends e m) = m

    no_star : Matches (q ∷ pat) [] → (q == b'*') ≡ false → ⊥
    no_star (star_ends e m) f = absurd_test e f

-- A star behind a star says no more.
two_stars :
    {q : ℕ} {pat name : List ℕ}
    → (q == b'*') ≡ true
    → Matches (any ∷ q ∷ pat) name
    → Matches (q ∷ pat) name
two_stars e (star_ends a m) = m
two_stars e (star_takes a m) = star_takes e (two_stars e m)
two_stars e (char f h m) = absurd_test refl f

char_rest :
    {q c : ℕ} {pat name : List ℕ}
    → (q == b'*') ≡ false
    → Matches (q ∷ pat) (c ∷ name)
    → ((q == b'?' || ci_eq q c) ≡ true) × Matches pat name
char_rest f (star_ends e m) = absurd_test e f
char_rest f (star_takes e m) = absurd_test e f
char_rest f (char e h m) = (h, m)

char_needed : {q : ℕ} {pat : List ℕ} → (q == b'*') ≡ false → ¬ Matches (q ∷ pat) []
char_needed f (star_ends e m) = absurd_test e f

star_or_none : {q : ℕ} {pat : List ℕ} → Matches (q ∷ pat) [] → Matches pat []
star_or_none (star_ends e m) = m

-- What a star and a character match, the star matches with one character less.
star_swallows :
    {q c : ℕ} {pat name : List ℕ}
    → (q == b'*') ≡ false
    → Matches (any ∷ q ∷ pat) (c ∷ name)
    → Matches (any ∷ pat) name
star_swallows f (star_ends a m) = star_ends refl ((char_rest f m).1)
star_swallows {name = []} f (star_takes a m) = absurd (char_needed f (star_or_none m))
star_swallows {name = d ∷ name} f (star_takes a m) = star_takes refl (star_swallows f m)
star_swallows f (char e h m) = absurd_test refl e

as_star :
    {q r : ℕ} {pat name : List ℕ}
    → (q == b'*') ≡ true
    → (r == b'*') ≡ true
    → Matches (q ∷ pat) name
    → Matches (r ∷ pat) name
as_star e g (star_ends a m) = star_ends g m
as_star e g (star_takes a m) = star_takes g (as_star e g m)
as_star e g (char f h m) = absurd_test e f

-- A star takes nothing, or the first character.
star_cases :
    {pat name : List ℕ} {q : ℕ}
    → (q == b'*') ≡ true
    → Matches (q ∷ pat) name
    → Matches pat name ⊎ Matches (any ∷ pat) (tail name)
star_cases e (star_ends a m) = inl m
star_cases e (star_takes a m) = inr (as_star e refl m)
star_cases e (char f h m) = absurd_test e f

any_later : {pat name : List ℕ} → Matches (any ∷ pat) (tail name) → Matches (any ∷ pat) name
any_later {name = []} m = m
any_later {name = c ∷ name} m = star_takes refl m

-- What the saved place can still come to.
abbrev Saved : Star → Type 0
Saved none = ⊥
Saved (some (pat, np)) = Matches (any ∷ pat) (tail np)

-- Bounds of the saved place: it is not behind the present one.
abbrev Behind : (m k : ℕ) (name : List ℕ) → Star → Type 0
Behind m k name none = Unit {0}
Behind m k name (some (p, np)) = (length name ≤ length np) × (length np ≤ m) × (length p ≤ k)

Behind-rest :
    (m k c : ℕ) (name : List ℕ) (star : Star) → Behind m k (c ∷ name) star → Behind m k name star
Behind-rest m k c name none b = tt
Behind-rest m k c name (some (p, np)) (a, b, l) = (omega arith, b, l)

-- What holds in each round. What the saved place can come to, a star at the present place can too.
record Holds (m k : ℕ) (pat name : List ℕ) (star : Star) : Type 0 where
  covers : Saved star → Matches (any ∷ pat) name
  behind : Behind m k name star
  name_room : length name ≤ m
  pat_room : length pat ≤ k

-- The loop ends, and says whether the pattern matches here or at the saved place.
abbrev Answers : Option Bool → Type 0 → Type 0
Answers none G = ⊥
Answers (some b) G = (b ≡ true) ↔ G

Answers-map : {G H : Type 0} (r : Option Bool) → (G → H) → (H → G) → Answers r G → Answers r H
Answers-map none f g a = a
Answers-map (some b) f g (sound, complete) = (λ h. f (sound h), λ h. complete (g h))

-- The loop answers from every round that holds, with this fuel.
abbrev Loops : ℕ → Type 0
Loops fuel =
    (m k : ℕ) (pat name : List ℕ) (star : Star)
    → Holds m k pat name star
    → m * suc k + length pat < fuel
    → Answers (match_loop fuel pat name star) (Matches pat name ⊎ Saved star)

back_up_lem :
    (fuel m k : ℕ) (pat name : List ℕ) (star : Star)
    → Loops fuel
    → Holds m k pat name star
    → 0 < length name
    → m * suc k + length pat < suc fuel
    → ¬ Matches pat name
    → Answers (back_up star (match_loop fuel)) (Matches pat name ⊎ Saved star)
unfolding back_up
back_up_lem fuel m k pat name none ih h l e no_match =
    (λ t. cc t, λ g. elim g [ inl x ↦ absurd (no_match x) | inr x ↦ absurd x ])
back_up_lem fuel m k pat name (some (p, [])) ih h l e no_match =
    let (a, b, c) = h.behind in omega arith
back_up_lem fuel zero k pat name (some (p, d ∷ np)) ih h l e no_match =
    let (a, b, c) = h.behind in absurd (omega arith)
back_up_lem fuel (suc m) k pat name (some (p, d ∷ np)) ih h l e no_match =
    let (a, b, c) = h.behind in
    Answers-map (match_loop fuel p np (some (p, np)))
      (λ g. inr (elim g [ inl x ↦ star_ends refl x | inr x ↦ any_later x ]))
      (λ g. elim g [ inl x ↦ absurd (no_match x) | inr x ↦ star_cases refl x ])
      (ih m k p np (some (p, np))
        (record {
          covers = any_later;
          behind = (omega arith, omega arith, c);
          name_room = omega arith;
          pat_room = c;
        })
        (omega arith))

loop_lem : (fuel : ℕ) → Loops fuel
unfolding match_loop
loop_lem zero m k pat name star h e = absurd (omega arith)
loop_lem (suc fuel) m k pat [] star h e =
    let (sound, complete) = only_stars_lem pat in
    (
      λ t. inl (sound t),
      λ g. elim g [ inl x ↦ complete x | inr x ↦ complete (star_or_none (h.covers x)) ],
    )
loop_lem (suc fuel) m k [] (c ∷ name) star h e =
    back_up_lem fuel m k [] (c ∷ name) star (loop_lem fuel) h (omega arith) (omega arith)
      (λ x. not_empty x)
  where
    not_empty : Matches [] (c ∷ name) → ⊥
    not_empty x = elim x [ ]
loop_lem (suc fuel) m k (q ∷ pat) (c ∷ name) star h e = elim (Bool-cases (q == b'*')) [
  | inl t ↦ rw t (
      Answers-map (match_loop fuel pat (c ∷ name) (some (pat, c ∷ name)))
        (λ g. inl (elim g [ inl x ↦ star_ends t x | inr x ↦ star_takes t (as_star refl t x) ]))
        (λ g. elim g [ inl x ↦ star_cases t x | inr x ↦ star_cases t (two_stars t (h.covers x)) ])
        (loop_lem fuel m k pat (c ∷ name) (some (pat, c ∷ name))
          (record {
            covers = any_later;
            behind = (omega arith, h.name_room, omega (arith, h.pat_room));
            name_room = h.name_room;
            pat_room = omega (arith, h.pat_room);
          })
          (omega arith)))
  | inr f ↦ elim (Bool-cases (q == b'?' || ci_eq q c)) [
    | inl t ↦ rw f (
        rw t (
          Answers-map (match_loop fuel pat name star)
            (λ g. elim g [ inl x ↦ inl (char f t x) | inr x ↦ inr x ])
            (λ g. elim g [ inl x ↦ inl ((char_rest f x).1) | inr x ↦ inr x ])
            (loop_lem fuel m k pat name star
              (record {
                covers = λ x. star_swallows f (h.covers x);
                behind = Behind-rest m k c name star h.behind;
                name_room = omega (arith, h.name_room);
                pat_room = omega (arith, h.pat_room);
              })
              (omega arith))))
    | inr no_match ↦ rw f (
        rw no_match (
          back_up_lem fuel m k (q ∷ pat) (c ∷ name) star (loop_lem fuel) h (omega arith)
            (omega arith) (λ x. absurd_test ((char_rest f x).0) no_match)))
  ]
]

-- The comparison of a name with a pattern always ends, and its result is true exactly if the pattern
-- matches the name.
pub fnmatch-Matches :
    (pat name : List ℕ) → (b : Bool) × (fnmatch pat name ≡ some b) × ((b ≡ true) ↔ Matches pat name)
unfolding fnmatch
fnmatch-Matches pat name = conclude _ (
    Answers-map _ (λ g. elim g [ inl x ↦ x | inr x ↦ absurd x ]) (λ x. inl x)
      (loop_lem (suc (length name * suc (length pat) + length pat)) (length name) (length pat) pat
        name none
        (record {
          covers = λ x. absurd x;
          behind = tt;
          name_room = omega arith;
          pat_room = omega arith;
        })
        (omega arith)))
  where
    conclude :
        (r : Option Bool)
        → Answers r (Matches pat name)
        → (b : Bool) × (r ≡ some b) × ((b ≡ true) ↔ Matches pat name)
    conclude none a = absurd a
    conclude (some b) a = (b, refl, a)
