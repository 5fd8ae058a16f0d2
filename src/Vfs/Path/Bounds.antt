-- ===== src/Vfs/Path/Bounds.antt =====
-- The buffers of `normalize_path` (src/fs/vfs.c) and the components it keeps.
use mathlib.Core.List.{reverse, tail}
use harvac.Prelude.{
  ℕ, zero, suc, ◌+◌, ◌-◌, ◌≤◌, ◌<◌, ◌≡◌, ◌≢◌, refl, arith, true, false, ◌&&◌, ltb, leb, ◌==◌, List,
  [], ◌∷◌, ◌++◌, length, take, length-append, length-take, All, Bool-cases, inl, inr, ==→ne, ap,
  ◌⊎◌,
}
use harvac.Vfs.Names.{slash}
use harvac.Vfs.Path.{
  vfs_max_cwd, skip_slashes, read_component, push_component, collect, build, is_absolute,
  normalize_absolute, normalize_path,
}

build_fits :
    (dstlen : ℕ) (comps : List (List ℕ)) (dst : List ℕ)
    → 2 ≤ dstlen
    → length dst < dstlen
    → length (build dstlen comps dst) < dstlen
unfolding build
build_fits dstlen [] dst h l = l
build_fits dstlen (comp ∷ []) dst h l = omega (
  arith,
  length-append dst (take (dstlen - 2 - length dst) comp),
  length-take (dstlen - 2 - length dst) comp,
)
build_fits dstlen (comp ∷ next ∷ comps) dst h l =
    elim (Bool-cases (ltb (length dst) (dstlen - 2))) [
      | inl t ↦ rw t (
          build_fits dstlen (next ∷ comps)
            ((dst ++ take (dstlen - 2 - length dst) comp) ++ slash ∷ []) h (joined (ground arith)))
      | inr t ↦ rw t l
    ]
  where
    joined :
        length dst < dstlen - 2
        → length ((dst ++ take (dstlen - 2 - length dst) comp) ++ slash ∷ []) < dstlen
    joined q = omega (
      arith,
      length-append (dst ++ take (dstlen - 2 - length dst) comp) (slash ∷ []),
      length-append dst (take (dstlen - 2 - length dst) comp),
      length-take (dstlen - 2 - length dst) comp,
    )

-- A component that is kept: not empty, neither "." nor "..", without slashes, and short enough for
-- its buffer of 32 bytes.
pub record IsKept (comp : List ℕ) : Type 0 where
  pub some_char : comp ≢ []
  pub not_dot : comp ≢ b'.' ∷ []
  pub not_dots : comp ≢ b'.' ∷ b'.' ∷ []
  pub no_slash : All (λ c. c ≢ slash) comp
  pub fits : length comp ≤ 31

read_component_lem :
    (room : ℕ) (cs : List ℕ)
    → let (comp, rest) = read_component room cs in
      All (λ c. c ≢ slash) comp × (length comp ≤ room) × (length comp + length rest ≡ length cs)
unfolding read_component
read_component_lem zero cs = (tt, omega arith, omega arith)
read_component_lem (suc room) [] = (tt, omega arith, omega arith)
read_component_lem (suc room) (c ∷ cs) =
    let (a, b, d) = read_component_lem room cs in
    elim (Bool-cases (c == slash)) [
      | inl e ↦ rw e (tt, omega arith, omega arith)
      | inr e ↦ rw e ((==→ne _ _ e, a), omega arith, omega arith)
    ]

-- The components that are kept, and the room of the stack.
pub record IsStack (stack : List (List ℕ)) : Type 0 where
  pub kept : All IsKept stack
  pub room : length stack ≤ vfs_max_cwd

push-IsStack :
    (comp : List ℕ) (stack : List (List ℕ))
    → IsKept comp
    → length stack < vfs_max_cwd
    → IsStack stack
    → IsStack (comp ∷ stack)
push-IsStack comp stack k r s = record { kept = (k, s.kept); room = omega arith }

tail-IsStack : (stack : List (List ℕ)) → IsStack stack → IsStack (tail stack)
tail-IsStack [] s = s
tail-IsStack (comp ∷ stack) s =
    let (k, ks) = s.kept in record { kept = ks; room = omega (arith, s.room) }

push_component_lem :
    (comp : List ℕ) (stack : List (List ℕ))
    → comp ≢ []
    → All (λ c. c ≢ slash) comp
    → length comp ≤ 31
    → length stack < vfs_max_cwd
    → IsStack stack
    → IsStack (push_component comp stack)
unfolding push_component
push_component_lem [] stack ne ns l r s = absurd (ne refl)
push_component_lem (c ∷ []) stack ne ns l r s = elim (Bool-cases (c == b'.')) [
  | inl e ↦ rw e s
  | inr e ↦ rw e (
      push-IsStack (c ∷ []) stack
        (record {
          some_char = ne;
          not_dot = λ q. ==→ne _ _ e (cc q);
          not_dots = λ q. absurd (cc q);
          no_slash = ns;
          fits = l;
        })
        r s)
]
push_component_lem (c ∷ d ∷ []) stack ne ns l r s = elim (Bool-cases (c == b'.' && (d == b'.'))) [
  | inl e ↦ rw e (tail-IsStack stack s)
  | inr e ↦ rw e (
      push-IsStack (c ∷ d ∷ []) stack
        (record {
          some_char = ne;
          not_dot = λ q. absurd (cc q);
          not_dots = λ q. other e q;
          no_slash = ns;
          fits = l;
        })
        r s)
]
  where
    other : (c == b'.' && (d == b'.')) ≡ false → c ∷ d ∷ [] ≢ b'.' ∷ b'.' ∷ []
    other e q = let c_dot : c ≡ b'.' = cc q in let d_dot : d ≡ b'.' = cc q in ground arith
push_component_lem (c ∷ d ∷ f ∷ cs) stack ne ns l r s =
    push-IsStack (c ∷ d ∷ f ∷ cs) stack
      (record {
        some_char = ne;
        not_dot = λ q. absurd (cc q);
        not_dots = λ q. absurd (cc q);
        no_slash = ns;
        fits = l;
      })
      r s

-- What the slashes are skipped to.
skip_slashes_lem :
    (cs : List ℕ)
    → (length (skip_slashes cs) ≤ length cs)
      × ((c : ℕ) (ds : List ℕ) → skip_slashes cs ≡ c ∷ ds → (c == slash) ≡ false)
unfolding skip_slashes
skip_slashes_lem [] = (omega arith, λ c ds q. absurd (cc q))
skip_slashes_lem (c ∷ cs) =
    let (a, b) = skip_slashes_lem cs in
    elim (Bool-cases (c == slash)) [
      | inl e ↦ rw e (omega arith, b)
      | inr e ↦ rw e (omega arith, λ x ds q. let k : c ≡ x = cc q in rw (← k) e)
    ]

read_component-some :
    (room c : ℕ) (cs : List ℕ)
    → (c == slash) ≡ false
    → let (comp, rest) = read_component (suc room) (c ∷ cs) in 0 < length comp
unfolding read_component
read_component-some room c cs e = rw e (omega arith)

-- A round of the loop at a component.
component_round :
    (c : ℕ) (cs : List ℕ) (stack : List (List ℕ))
    → (c == slash) ≡ false
    → length stack < vfs_max_cwd
    → IsStack stack
    → let (comp, rest) = read_component 31 (c ∷ cs) in IsStack (push_component comp stack)
component_round c cs stack e r s =
    let (ns, l, total) = read_component_lem 31 (c ∷ cs) in
    push_component_lem _ stack (λ q. not_empty _ q (read_component-some 30 c cs e)) ns l r s
  where
    not_empty : (comp : List ℕ) → comp ≡ [] → 0 < length comp → ⊥
    not_empty [] q h = omega arith
    not_empty (x ∷ xs) q h = absurd (cc q)

collect-stops :
    (fuel : ℕ) (src : List ℕ) (stack : List (List ℕ))
    → leb vfs_max_cwd (length stack) ≡ true
    → collect (suc fuel) src stack ≡ stack
unfolding collect
collect-stops fuel src stack e = rw e refl

collect-ends :
    (fuel : ℕ) (src : List ℕ) (stack : List (List ℕ))
    → skip_slashes src ≡ []
    → collect (suc fuel) src stack ≡ stack
unfolding collect
collect-ends fuel src stack e = elim (Bool-cases (leb vfs_max_cwd (length stack))) [
  | inl full ↦ collect-stops fuel src stack full
  | inr room ↦ rw (collect, room, e) refl
]

collect-round :
    (fuel : ℕ) (src : List ℕ) (stack : List (List ℕ)) (c : ℕ) (cs : List ℕ)
    → leb vfs_max_cwd (length stack) ≡ false
    → skip_slashes src ≡ c ∷ cs
    → collect (suc fuel) src stack ≡ (
        let (comp, rest) = read_component 31 (c ∷ cs) in
        collect fuel rest (push_component comp stack))
unfolding collect
collect-round fuel src stack c cs e q = rw (e, q, q) refl

List-cases : (xs : List ℕ) → (xs ≡ []) ⊎ ((c : ℕ) × (cs : List ℕ) × (xs ≡ c ∷ cs))
List-cases [] = inl refl
List-cases (c ∷ cs) = inr (c, cs, refl)

collect_lem :
    (fuel : ℕ) (src : List ℕ) (stack : List (List ℕ))
    → length src < fuel
    → IsStack stack
    → IsStack (collect fuel src stack)
collect_lem zero src stack h s = absurd (omega arith)
collect_lem (suc fuel) src stack h s = elim (Bool-cases (leb vfs_max_cwd (length stack))) [
  | inl full ↦ rw (collect-stops fuel src stack full) s
  | inr room ↦ elim (List-cases (skip_slashes src)) [
    | inl done ↦ rw (collect-ends fuel src stack done) s
    | inr (c, cs, more) ↦
        let (a, b) = skip_slashes_lem src in
        let (x, y, total) = read_component_lem 31 (c ∷ cs) in
        rw (collect-round fuel src stack c cs room more) (
          collect_lem fuel _ _
            (omega (arith, a, ap length more, total, read_component-some 30 c cs (b c cs more), h))
            (component_round c cs stack (b c cs more) (ground arith) s))
  ]
]

-- The result of normalizing a path, with its zero, fits in a buffer of at least two bytes.
pub normalize_path-fits :
    (src : List ℕ) (dstlen : ℕ) → 2 ≤ dstlen → length (normalize_path src dstlen) < dstlen
unfolding normalize_path normalize_absolute
normalize_path-fits src dstlen h = elim (Bool-cases (is_absolute src)) [
  | inl e ↦
      rw e (
        build_fits dstlen (reverse (collect (suc (length src)) src [])) (slash ∷ []) h
          (omega arith))
  | inr e ↦ rw e (omega arith)
]

-- The stack of components keeps at most as many as it has room for, each of which fits in its
-- buffer and is neither empty nor "." nor "..", and has no slash.
pub collect-IsStack : (src : List ℕ) → IsStack (collect (suc (length src)) src [])
collect-IsStack src =
    collect_lem (suc (length src)) src [] (omega arith) (record { kept = tt; room = omega arith })

-- The loop over the components ends by itself: every fuel above the length of the path gives the
-- same stack.
pub collect-enough :
    (fuel more : ℕ) (src : List ℕ) (stack : List (List ℕ))
    → length src < fuel
    → length src < more
    → collect fuel src stack ≡ collect more src stack
collect-enough zero more src stack h k = absurd (omega arith)
collect-enough (suc fuel) zero src stack h k = absurd (omega arith)
collect-enough (suc fuel) (suc more) src stack h k =
    elim (Bool-cases (leb vfs_max_cwd (length stack))) [
      | inl full ↦ rw (collect-stops fuel src stack full, collect-stops more src stack full) refl
      | inr room ↦ elim (List-cases (skip_slashes src)) [
        | inl done ↦ rw (collect-ends fuel src stack done, collect-ends more src stack done) refl
        | inr (c, cs, q) ↦
            let (a, b) = skip_slashes_lem src in
            let (x, y, total) = read_component_lem 31 (c ∷ cs) in
            let some = read_component-some 30 c cs (b c cs q) in
            rw (collect-round fuel src stack c cs room q, collect-round more src stack c cs room q)
              (collect-enough fuel more _ _ (omega (arith, a, ap length q, total, some, h))
                (omega (arith, a, ap length q, total, some, k)))
      ]
    ]
