-- ===== src/Vfs/Mount/Longest.antt =====
-- `mount_resolve` (src/fs/mount.c) takes the longest mount point that a path lies under.
use mathlib.Core.List.{Mem, mem-cons_self, mem-cons_of_mem}
use harvac.Prelude.{
  ℕ, ◌≤◌, ◌≡◌, ◌⊎◌, refl, ap, sym, ◌∙◌, arith, true, ltb, if◌then◌else◌, ◌==◌, List, [], ◌∷◌, ◌++◌,
  length, none, some, Option-cases, Bool-cases, inl, inr, ==→eq, ==_refl,
}
use harvac.Vfs.Names.{slash}
use harvac.Vfs.Mount.Remove.{str_eq_sound}
use harvac.Vfs.Mount.{
  MountEntry, Mounts, str_eq, strip, at_boundary, under, Best, best_len, better, resolve_loop,
  mount_resolve, drop_slash,
}

-- A mount point of an entry in use, with the rest of a path behind it: nothing, or what starts with a
-- slash, or anything behind the root's.
abbrev pub IsUnder : List ℕ → MountEntry → (rest : List ℕ) → Type 0
IsUnder path e rest =
    (e.used ≡ true)
    × (path ≡ e.mount_point ++ rest)
    × ((rest ≡ []) ⊎ ((tail : List ℕ) × (rest ≡ slash ∷ tail)) ⊎ (e.mount_point ≡ slash ∷ []))

str_eq_refl : (a : List ℕ) → str_eq a a ≡ true
unfolding str_eq
str_eq_refl [] = refl
str_eq_refl (c ∷ a) = rw (==_refl c) (str_eq_refl a)

strip-some : (prefix path rest : List ℕ) → strip prefix path ≡ some rest → path ≡ prefix ++ rest
unfolding strip
strip-some [] path rest h = cc h
strip-some (c ∷ prefix) [] rest h = absurd cc
strip-some (c ∷ prefix) (d ∷ path) rest h = elim (Bool-cases (c == d)) [
  | inl t ↦ rw (==→eq c d t) (ap (λ (l : List ℕ). d ∷ l) (strip-some prefix path rest (rw t at h)))
  | inr f ↦ absurd (let k = rw f at h in cc k)
]

strip-append : (prefix rest : List ℕ) → strip prefix (prefix ++ rest) ≡ some rest
unfolding strip
strip-append [] rest = refl
strip-append (c ∷ prefix) rest = rw (==_refl c) (strip-append prefix rest)

boundary_sound :
    (mount_point rest : List ℕ)
    → at_boundary mount_point rest ≡ true
    → (rest ≡ []) ⊎ ((tail : List ℕ) × (rest ≡ slash ∷ tail)) ⊎ (mount_point ≡ slash ∷ [])
unfolding at_boundary
boundary_sound mount_point [] h = inl refl
boundary_sound mount_point (c ∷ rest) h = elim (Bool-cases (c == slash)) [
  | inl t ↦ inr (inl (rest, ap (λ x. x ∷ rest) (==→eq c slash t)))
  | inr f ↦ inr (inr (str_eq_sound mount_point (slash ∷ []) (rw f at h)))
]

boundary_complete :
    (mount_point rest : List ℕ)
    → (rest ≡ []) ⊎ ((tail : List ℕ) × (rest ≡ slash ∷ tail)) ⊎ (mount_point ≡ slash ∷ [])
    → at_boundary mount_point rest ≡ true
unfolding at_boundary
boundary_complete mount_point rest (inl e) = rw (e, at_boundary) refl
boundary_complete mount_point rest (inr (inl (tail, e))) = rw (e, at_boundary) refl
boundary_complete mount_point [] (inr (inr e)) = refl
boundary_complete mount_point (c ∷ rest) (inr (inr e)) = elim (Bool-cases (c == slash)) [
  | inl t ↦ rw t refl
  | inr f ↦ rw f (rw e (str_eq_refl (slash ∷ [])))
]

under-IsUnder :
    (path : List ℕ) (e : MountEntry) (rest : List ℕ)
    → under e path ≡ some rest
    → IsUnder path e rest
unfolding under
under-IsUnder path e rest h = elim (Bool-cases e.used) [
  | inr f ↦ absurd (let k = rw f at h in cc k)
  | inl t ↦ elim (Option-cases (strip e.mount_point path)) [
    | inl q ↦ absurd (let k = rw (t, q) at h in cc k)
    | inr (r, q) ↦ elim (Bool-cases (at_boundary e.mount_point r)) [
      | inr f ↦ absurd (let k = rw (t, q, f) at h in cc k)
      | inl b ↦
          let k = rw (t, q, b) at h in
          let same : r ≡ rest = cc k in
          rw (← same) (t, strip-some e.mount_point path r q, boundary_sound e.mount_point r b)
    ]
  ]
]

IsUnder-under :
    (path : List ℕ) (e : MountEntry) (rest : List ℕ)
    → IsUnder path e rest
    → under e path ≡ some rest
unfolding under
IsUnder-under path e rest (u, p, b) =
    rw (u, p, strip-append e.mount_point rest) (rw (boundary_complete e.mount_point rest b) refl)

-- The best entry is one of a list that the path lies under.
abbrev Found : List ℕ → Mounts → Best → Type 0
Found path table none = Unit {0}
Found path table (some (e, rest)) = Mem e table × IsUnder path e rest

-- No entry of a list that the path lies under has a longer mount point.
abbrev pub NoLonger : List ℕ → Mounts → ℕ → Type 0
NoLonger path [] n = Unit {0}
NoLonger path (e ∷ table) n =
    ((rest : List ℕ) → IsUnder path e rest → length e.mount_point ≤ n) × NoLonger path table n

better-none :
    (path : List ℕ) (e : MountEntry) (best : Best) → under e path ≡ none → better path e best ≡ best
unfolding better
better-none path e best q = rw (better, q) refl

better-some :
    (path : List ℕ) (e : MountEntry) (best : Best) (rest : List ℕ)
    → under e path ≡ some rest
    → better path e best
      ≡ (if ltb (best_len best) (length e.mount_point) then some (e, rest) else best)
unfolding better
better-some path e best rest q = rw (better, q) refl

better_lem :
    (path : List ℕ) (table : Mounts) (e : MountEntry) (best : Best)
    → Mem e table
    → Found path table best
    → Found path table (better path e best)
      × (best_len best ≤ best_len (better path e best))
      × ((rest : List ℕ)
          → IsUnder path e rest
          → length e.mount_point ≤ best_len (better path e best))
better_lem path table e best m u = elim (Option-cases (under e path)) [
  | inl q ↦
      rw (better-none path e best q)
        (u, omega arith, λ rest h. absurd (let k = sym q ∙ IsUnder-under path e rest h in cc k))
  | inr (rest, q) ↦
      rw (better-some path e best rest q)
        (elim (Bool-cases (ltb (best_len best) (length e.mount_point))) [
          | inl t ↦ rw t ((m, under-IsUnder path e rest q), ground arith, λ r h. omega arith)
          | inr t ↦ rw t (u, omega arith, λ r h. ground arith)
        ])
]

resolve_loop_lem :
    (path : List ℕ) (table es : Mounts) (best : Best)
    → ((e : MountEntry) → Mem e es → Mem e table)
    → Found path table best
    → Found path table (resolve_loop path es best)
      × (best_len best ≤ best_len (resolve_loop path es best))
      × NoLonger path es (best_len (resolve_loop path es best))
unfolding resolve_loop
resolve_loop_lem path table [] best sub u = (u, omega arith, tt)
resolve_loop_lem path table (e ∷ es) best sub u =
    let (v, more, le) = better_lem path table e best (sub e mem-cons_self) u in
    let (w, still, all) =
      resolve_loop_lem path table es (better path e best) (λ x m. sub x (mem-cons_of_mem e m)) v in
    (w, omega arith, ((λ rest h. let x = le rest h in omega arith), all))

-- The longest entry of a table that a path lies under, with the path below it.
pub data Longest (path : List ℕ) (table : Mounts) : Best → Type 0 where
  nothing : NoLonger path table 0 → Longest path table none
  entry_of :
      (e : MountEntry) (rest : List ℕ)
      → Mem e table
      → IsUnder path e rest
      → NoLonger path table (length e.mount_point)
      → Longest path table (some (e, drop_slash rest))

-- Resolving a path in any mount table gives either an entry of the table that is in use and whose
-- mount point the path starts with, where the path ends or goes on with a slash behind it or the
-- mount point is the root, with the path behind the mount point less one slash, such that no such
-- entry of the table has a longer mount point; or nothing, and then every such entry has an empty one.
pub mount_resolve-Longest :
    (path : List ℕ) (table : Mounts) → Longest path table (mount_resolve path table)
unfolding mount_resolve
mount_resolve-Longest path table =
    let (u, more, all) = resolve_loop_lem path table table none (λ e m. m) tt in
    conclude (resolve_loop path table none) u all
  where
    conclude :
        (best : Best)
        → Found path table best
        → NoLonger path table (best_len best)
        → Longest path table
            (elim best as (λ b. Best) [ none ↦ none | some (e, rest) ↦ some (e, drop_slash rest) ])
    conclude none u all = nothing all
    conclude (some (e, rest)) (m, u) all = entry_of e rest m u all
