-- ===== src/Apps/Sort/Order.antt =====
-- `sort` (apps/sort.c) puts the lines in the order of a dictionary and loses none.
use mathlib.Core.List.{Perm, perm_middle, append-nil}
use mathlib.Core.List.Perm
use harvac.Prelude.{ℕ, List, [], ◌∷◌, ◌++◌, All, Bool-cases, inl, inr}
use harvac.Posix.Text.{is_positive, strcmp}
use harvac.Posix.Text.Order.{IsText, LexLe, strcmp-LexLe, strcmp-LexLe_above}
use harvac.Apps.Sort.{place, sort_loop, in_order, sort_lines}

-- Each line is at most the next.
pub data IsSorted : List (List ℕ) → Type 0 where
  no_line : IsSorted []
  one_line : {a : List ℕ} → IsSorted (a ∷ [])
  next_line :
      {a b : List ℕ} {lines : List (List ℕ)}
      → LexLe a b
      → IsSorted (b ∷ lines)
      → IsSorted (a ∷ b ∷ lines)

-- The same from the last line on.
data IsDown : List (List ℕ) → Type 0 where
  down_none : IsDown []
  down_one : {a : List ℕ} → IsDown (a ∷ [])
  down_next :
      {a b : List ℕ} {lines : List (List ℕ)}
      → LexLe b a
      → IsDown (b ∷ lines)
      → IsDown (a ∷ b ∷ lines)

IsDown-tail : {a : List ℕ} {lines : List (List ℕ)} → IsDown (a ∷ lines) → IsDown lines
IsDown-tail down_one = down_none
IsDown-tail (down_next l d) = d

-- Where a line goes in below another.
place-IsDown_below :
    (x tmp : List ℕ) (before : List (List ℕ))
    → IsText tmp
    → All IsText (x ∷ before)
    → LexLe tmp x
    → IsDown (x ∷ before)
    → IsDown (x ∷ place tmp before)
unfolding place
place-IsDown_below x tmp [] ht hb l d = down_next l down_one
place-IsDown_below x tmp (y ∷ before) ht (hx, hb) l (down_next k d) =
    let (hy, hs) = hb in
    elim (Bool-cases (is_positive (strcmp y tmp))) [
      | inl t ↦
          rw t (
            down_next k
              (place-IsDown_below y tmp before ht hb (strcmp-LexLe_above y tmp hy ht t) d))
      | inr f ↦ rw f (down_next l (down_next (strcmp-LexLe y tmp hy ht f) d))
    ]

place-IsDown :
    (tmp : List ℕ) (before : List (List ℕ))
    → IsText tmp
    → All IsText before
    → IsDown before
    → IsDown (place tmp before)
unfolding place
place-IsDown tmp [] ht hb d = down_one
place-IsDown tmp (y ∷ before) ht hb d =
    let (hy, hs) = hb in
    elim (Bool-cases (is_positive (strcmp y tmp))) [
      | inl t ↦ rw t (place-IsDown_below y tmp before ht hb (strcmp-LexLe_above y tmp hy ht t) d)
      | inr f ↦ rw f (down_next (strcmp-LexLe y tmp hy ht f) d)
    ]

place-AllText :
    (tmp : List ℕ) (before : List (List ℕ))
    → IsText tmp
    → All IsText before
    → All IsText (place tmp before)
unfolding place
place-AllText tmp [] ht hb = (ht, tt)
place-AllText tmp (y ∷ before) ht (hy, hs) = elim (Bool-cases (is_positive (strcmp y tmp))) [
  | inl t ↦ rw t (hy, place-AllText tmp before ht hs)
  | inr f ↦ rw f (ht, (hy, hs))
]

place-Perm : (tmp : List ℕ) (before : List (List ℕ)) → Perm (place tmp before) (tmp ∷ before)
unfolding place
place-Perm tmp [] = Perm.refl _
place-Perm tmp (y ∷ before) = elim (Bool-cases (is_positive (strcmp y tmp))) [
  | inl t ↦ rw t (Perm.trans (Perm.cons y (place-Perm tmp before)) (Perm.swap tmp y before))
  | inr f ↦ rw f (Perm.refl _)
]

sort_loop_lem :
    (before lines : List (List ℕ))
    → All IsText before
    → All IsText lines
    → IsDown before
    → IsDown (sort_loop before lines) × Perm (sort_loop before lines) (before ++ lines)
unfolding sort_loop
sort_loop_lem before [] hb hl d = (d, rw append-nil (Perm.refl before))
sort_loop_lem before (tmp ∷ lines) hb (ht, hs) d =
    let (down, perm) =
      sort_loop_lem (place tmp before) lines (place-AllText tmp before ht hb) hs
        (place-IsDown tmp before ht hb d) in
    (
      down,
      Perm.trans perm (
          Perm.trans (Perm.append_right lines (place-Perm tmp before))
            (Perm.symm (perm_middle before lines))),
    )

in_order-Perm : (before out : List (List ℕ)) → Perm (in_order before out) (before ++ out)
unfolding in_order
in_order-Perm [] out = Perm.refl out
in_order-Perm (x ∷ before) out =
    Perm.trans (in_order-Perm before (x ∷ out)) (perm_middle before out)

-- The line in front of the output so far is at most its first line.
abbrev Linked : List (List ℕ) → List (List ℕ) → Type 0
Linked [] out = Unit {0}
Linked (x ∷ before) [] = Unit {0}
Linked (x ∷ before) (y ∷ out) = LexLe x y

Linked-empty : (before : List (List ℕ)) → Linked before []
Linked-empty [] = tt
Linked-empty (x ∷ before) = tt

in_order-IsSorted :
    (before out : List (List ℕ))
    → IsDown before
    → Linked before out
    → IsSorted out
    → IsSorted (in_order before out)
unfolding in_order
in_order-IsSorted [] out d l s = s
in_order-IsSorted (x ∷ []) [] d l s = one_line
in_order-IsSorted (x ∷ []) (y ∷ out) d l s = next_line l s
in_order-IsSorted (x ∷ w ∷ before) [] (down_next k d) l s =
    in_order-IsSorted (w ∷ before) (x ∷ []) d k one_line
in_order-IsSorted (x ∷ w ∷ before) (y ∷ out) (down_next k d) l s =
    in_order-IsSorted (w ∷ before) (x ∷ y ∷ out) d k (next_line l s)

-- For lines of nonzero bytes, the output is the same lines, each as often, in the order of a
-- dictionary.
pub sort_lines-IsSorted :
    (lines : List (List ℕ))
    → All IsText lines
    → IsSorted (sort_lines lines) × Perm (sort_lines lines) lines
unfolding sort_lines
sort_lines-IsSorted lines h =
    let (down, perm) = sort_loop_lem [] lines tt h down_none in
    (
      in_order-IsSorted (sort_loop [] lines) [] down (Linked-empty (sort_loop [] lines)) no_line,
      Perm.trans (in_order-Perm (sort_loop [] lines) []) (rw append-nil perm),
    )
