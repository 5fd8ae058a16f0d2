-- ===== src/Ncd/Panel/Order.antt =====
-- `panel_sort` of apps/ncd/panel.c puts the directories first and each kind in the order of a dictionary.
use mathlib.Core.List.{Perm, perm_middle, append-nil}
use mathlib.Core.List.Perm
use harvac.Prelude.{
  ◌≡◌, ◌⊎◌, inl, inr, refl, Bool, true, false, not, ◌&&◌, if◌then◌else◌, List, [], ◌∷◌, ◌++◌, All,
  Bool-cases,
}
use harvac.Posix.Text.{is_positive, strcmp}
use harvac.Posix.Text.Order.{IsText, LexLe, strcmp-LexLe, strcmp-LexLe_above}
use harvac.Ncd.Panel.{Entry, swaps, sink, sort_entries, first_to_last, panel_sort}

-- A directory before a file, or two of a kind by their names.
abbrev pub InOrder : (a b : Entry) → Type 0
InOrder a b =
    ((a.is_dir ≡ true) × (b.is_dir ≡ false)) ⊎ ((a.is_dir ≡ b.is_dir) × LexLe a.name b.name)

abbrev pub Named : Entry → Type 0
Named e = IsText e.name

swaps-InOrder : (a b : Entry) → Named a → Named b → swaps a b ≡ false → InOrder a b
unfolding swaps
swaps-InOrder a b ha hb e = kinds a.is_dir b.is_dir (strcmp-LexLe a.name b.name ha hb) e
  where
    kinds :
        (x y : Bool)
        → (is_positive (strcmp a.name b.name) ≡ false → LexLe a.name b.name)
        → (if x && not y
            then false
            else if not x && y
            then true
            else is_positive (strcmp a.name b.name))
          ≡ false
        → ((x ≡ true) × (y ≡ false)) ⊎ ((x ≡ y) × LexLe a.name b.name)
    kinds true true le e = inr (refl, le e)
    kinds true false le e = inl (refl, refl)
    kinds false true le e = absurd cc
    kinds false false le e = inr (refl, le e)

swaps-InOrder_above : (a b : Entry) → Named a → Named b → swaps a b ≡ true → InOrder b a
unfolding swaps
swaps-InOrder_above a b ha hb e = kinds a.is_dir b.is_dir (strcmp-LexLe_above a.name b.name ha hb) e
  where
    kinds :
        (x y : Bool)
        → (is_positive (strcmp a.name b.name) ≡ true → LexLe b.name a.name)
        → (if x && not y
            then false
            else if not x && y
            then true
            else is_positive (strcmp a.name b.name))
          ≡ true
        → ((y ≡ true) × (x ≡ false)) ⊎ ((y ≡ x) × LexLe b.name a.name)
    kinds true true le e = inr (refl, le e)
    kinds true false le e = absurd cc
    kinds false true le e = inl (refl, refl)
    kinds false false le e = inr (refl, le e)

-- Each entry is in order with the next.
pub data Listed : List Entry → Type 0 where
  listed_none : Listed []
  listed_one : {a : Entry} → Listed (a ∷ [])
  listed_next :
      {a b : Entry} {rest : List Entry} → InOrder a b → Listed (b ∷ rest) → Listed (a ∷ b ∷ rest)

-- The same from the last entry on.
data ListedDown : List Entry → Type 0 where
  down_none : ListedDown []
  down_one : {a : Entry} → ListedDown (a ∷ [])
  down_next :
      {a b : Entry} {rest : List Entry}
      → InOrder b a
      → ListedDown (b ∷ rest)
      → ListedDown (a ∷ b ∷ rest)

sink-ListedDown_below :
    (x b : Entry) (before : List Entry)
    → Named b
    → All Named (x ∷ before)
    → InOrder b x
    → ListedDown (x ∷ before)
    → ListedDown (x ∷ sink b before)
unfolding sink
sink-ListedDown_below x b [] hb hs l d = down_next l down_one
sink-ListedDown_below x b (a ∷ before) hb (hx, hs) l (down_next k d) =
    elim (Bool-cases (swaps a b)) [
      | inl t ↦ rw t (
          down_next k
            (sink-ListedDown_below a b before hb hs (swaps-InOrder_above a b hs.0 hb t) d))
      | inr f ↦ rw f (down_next l (down_next (swaps-InOrder a b hs.0 hb f) d))
    ]

sink-ListedDown :
    (b : Entry) (before : List Entry)
    → Named b
    → All Named before
    → ListedDown before
    → ListedDown (sink b before)
unfolding sink
sink-ListedDown b [] hb hs d = down_one
sink-ListedDown b (a ∷ before) hb hs d = elim (Bool-cases (swaps a b)) [
  | inl t ↦ rw t (sink-ListedDown_below a b before hb hs (swaps-InOrder_above a b hs.0 hb t) d)
  | inr f ↦ rw f (down_next (swaps-InOrder a b hs.0 hb f) d)
]

sink-All :
    (b : Entry) (before : List Entry) → Named b → All Named before → All Named (sink b before)
unfolding sink
sink-All b [] hb hs = (hb, tt)
sink-All b (a ∷ before) hb (ha, hs) = elim (Bool-cases (swaps a b)) [
  | inl t ↦ rw t (ha, sink-All b before hb hs)
  | inr f ↦ rw f (hb, (ha, hs))
]

sink-Perm : (b : Entry) (before : List Entry) → Perm (sink b before) (b ∷ before)
unfolding sink
sink-Perm b [] = Perm.refl _
sink-Perm b (a ∷ before) = elim (Bool-cases (swaps a b)) [
  | inl t ↦ rw t (Perm.trans (Perm.cons a (sink-Perm b before)) (Perm.swap b a before))
  | inr f ↦ rw f (Perm.refl _)
]

sort_entries_lem :
    (before entries : List Entry)
    → All Named before
    → All Named entries
    → ListedDown before
    → ListedDown (sort_entries before entries)
      × Perm (sort_entries before entries) (before ++ entries)
unfolding sort_entries
sort_entries_lem before [] hb hs d = (d, rw append-nil (Perm.refl before))
sort_entries_lem before (b ∷ entries) hb (h, hs) d =
    let (down, perm) =
      sort_entries_lem (sink b before) entries (sink-All b before h hb) hs
        (sink-ListedDown b before h hb d) in
    (
      down,
      Perm.trans perm (
          Perm.trans (Perm.append_right entries (sink-Perm b before))
            (Perm.symm (perm_middle before entries))),
    )

first_to_last-Perm : (before out : List Entry) → Perm (first_to_last before out) (before ++ out)
unfolding first_to_last
first_to_last-Perm [] out = Perm.refl out
first_to_last-Perm (a ∷ before) out =
    Perm.trans (first_to_last-Perm before (a ∷ out)) (perm_middle before out)

-- The last entry before is in order with the first of the output.
abbrev Joined : (before out : List Entry) → Type 0
Joined [] out = Unit {0}
Joined (a ∷ before) [] = Unit {0}
Joined (a ∷ before) (b ∷ out) = InOrder a b

Joined-nil : (before : List Entry) → Joined before []
Joined-nil [] = tt
Joined-nil (a ∷ before) = tt

first_to_last-Listed :
    (before out : List Entry)
    → ListedDown before
    → Joined before out
    → Listed out
    → Listed (first_to_last before out)
unfolding first_to_last
first_to_last-Listed [] out d j s = s
first_to_last-Listed (x ∷ []) [] d j s = listed_one
first_to_last-Listed (x ∷ []) (y ∷ out) d j s = listed_next j s
first_to_last-Listed (x ∷ w ∷ before) [] (down_next k d) j s =
    first_to_last-Listed (w ∷ before) (x ∷ []) d k listed_one
first_to_last-Listed (x ∷ w ∷ before) (y ∷ out) (down_next k d) j s =
    first_to_last-Listed (w ∷ before) (x ∷ y ∷ out) d k (listed_next j s)

-- For names of nonzero bytes: the sorted entries are the same ones, each as often, with the directories
-- before the files and each kind by name in the order of a dictionary.
pub panel_sort-Listed :
    (entries : List Entry)
    → All Named entries
    → Listed (panel_sort entries) × Perm (panel_sort entries) entries
unfolding panel_sort
panel_sort-Listed entries h =
    let (down, perm) = sort_entries_lem [] entries tt h down_none in
    (
      first_to_last-Listed (sort_entries [] entries) [] down (Joined-nil (sort_entries [] entries))
          listed_none,
      Perm.trans (first_to_last-Perm (sort_entries [] entries) []) (rw append-nil perm),
    )
