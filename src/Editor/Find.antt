-- ===== src/Editor/Find.antt =====
-- The search of the editor: `up_no` and `search_next` of apps/medit/search.c.
use harvac.Prelude.{
  ℕ, zero, suc, ◌+◌, ◌-◌, ◌≤◌, ◌<◌, ◌≡◌, ◌≢◌, inl, inr, refl, arith, Bool, true, false, ◌&&◌, ◌||◌,
  ltb, leb, ◌==◌, if◌then◌else◌, Bool-cases, ==→eq, ==→ne, ltb→lt, ltb→ge, List, [], ◌∷◌, length,
}
use harvac.Editor.Gap.{Gap, gb_at, gb_len}

-- Upper case, with the three Norwegian letters of code page 865.
unfoldable pub up_no : ℕ → ℕ
up_no c =
    if leb b'a' c && leb c b'z'
    then c - 32
    else if c == 0x86
    then 0x8f
    else if c == 0x91
    then 0x92
    else if c == 0x9b
    then 0x9d
    else c

-- The inner loop: whether the characters that are left stand from `pos` on.
unfoldable pub match_here : Gap → List ℕ → (pos : ℕ) → Bool
match_here g [] pos = true
match_here g (c ∷ pattern_left) pos =
    let rest = match_here g pattern_left (pos + 1) in
    if up_no (gb_at g pos) == up_no c then rest else false

abbrev pub notf : ℕ
notf = 0xffff

-- The outer loop, with the positions that are left.
unfoldable pub search_loop : Gap → List ℕ → (left pos : ℕ) → ℕ
search_loop g s_find zero pos = notf
search_loop g s_find (suc left) pos =
    let rest = search_loop g s_find left (pos + 1) in if match_here g s_find pos then pos else rest

-- `s_find` is the string without its zero. The loop runs while `pos + plen <= len`.
unfoldable pub search_next : Gap → (s_find : List ℕ) → (from : ℕ) → ℕ
search_next g s_find from =
    let len = gb_len g in
    let plen = length s_find in
    if plen == 0 || ltb len plen then notf else search_loop g s_find (len + 1 - plen - from) from

-- Whether the string stands at a place of the text, up to case.
pub data StandsAt (g : Gap) : List ℕ → ℕ → Type 0 where
  all_there : {pos : ℕ} → StandsAt g [] pos
  one_more :
      {c pos : ℕ} {cs : List ℕ}
      → up_no (gb_at g pos) ≡ up_no c
      → StandsAt g cs (pos + 1)
      → StandsAt g (c ∷ cs) pos

match_here_sound :
    (g : Gap) (cs : List ℕ) (pos : ℕ) → match_here g cs pos ≡ true → StandsAt g cs pos
unfolding match_here
match_here_sound g [] pos h = all_there
match_here_sound g (c ∷ cs) pos h = elim (Bool-cases (up_no (gb_at g pos) == up_no c)) [
  | inl e ↦ one_more (==→eq _ _ e) (match_here_sound g cs (pos + 1) (rw e at h))
  | inr ne ↦ absurd (false_true (rw ne at h))
]
  where
    false_true : false ≡ true → ⊥
    false_true e = cc

match_here_complete :
    (g : Gap) (cs : List ℕ) (pos : ℕ) → StandsAt g cs pos → match_here g cs pos ≡ true
unfolding match_here
match_here_complete g cs pos all_there = refl
match_here_complete g (c ∷ cs) pos (one_more e t) =
    ground (arith, match_here_complete g cs (pos + 1) t)

search_loop_lem :
    (g : Gap) (cs : List ℕ) (left pos : ℕ)
    → pos + left < notf
    → (search_loop g cs left pos ≢ notf
        → (pos ≤ search_loop g cs left pos)
          × (search_loop g cs left pos < pos + left)
          × StandsAt g cs (search_loop g cs left pos))
      × ((p : ℕ) → pos ≤ p → p < pos + left → p < search_loop g cs left pos → ¬ StandsAt g cs p)
unfolding search_loop
search_loop_lem g cs zero pos b = (λ h. absurd (h refl), λ p h l q. absurd (omega arith))
search_loop_lem g cs (suc left) pos b =
    let (found, first) = search_loop_lem g cs left (pos + 1) (omega arith) in
    elim (Bool-cases (match_here g cs pos)) [
      | inl e ↦ rw e (
        λ h. (omega arith, omega arith, match_here_sound g cs pos e),
        λ p h l q. absurd (omega arith),
      )
      | inr ne ↦ rw ne (
        λ h. let (a, c, d) = found h in (omega arith, omega arith, d),
        λ p h l q s. inside first ne p h l q s,
      )
    ]
  where
    inside :
        ((p : ℕ)
          → pos + 1 ≤ p
          → p < pos + 1 + left
          → p < search_loop g cs left (pos + 1)
          → ¬ StandsAt g cs p)
        → match_here g cs pos ≡ false
        → (p : ℕ) → pos ≤ p
        → p < pos + suc left
        → p < search_loop g cs left (pos + 1)
        → StandsAt g cs p
        → ⊥
    inside first ne p h l q s = elim (Bool-cases (p == pos)) [
      | inl e ↦ cc (ne, match_here_complete g cs p s, ==→eq p pos e)
      | inr other ↦ first p (omega (arith, ==→ne p pos other)) (omega arith) q s
    ]

search_next_short :
    (g : Gap) (c : ℕ) (cs : List ℕ) (from : ℕ)
    → ltb (gb_len g) (suc (length cs)) ≡ true
    → search_next g (c ∷ cs) from ≡ notf
unfolding search_next
search_next_short g c cs from h = ground arith

search_next_fits :
    (g : Gap) (c : ℕ) (cs : List ℕ) (from : ℕ)
    → ltb (gb_len g) (suc (length cs)) ≡ false
    → search_next g (c ∷ cs) from
      ≡ search_loop g (c ∷ cs) (gb_len g + 1 - suc (length cs) - from) from
unfolding search_next
search_next_fits g c cs from h = ground arith

-- For a string of at least one character in a text below 65535 bytes, from a position in the text,
-- a result of the search that is not the mark of none is a place from there on where the string
-- stands within the text, and before the result the string stands nowhere from there on.
pub search_next-first :
    (g : Gap) (cs : List ℕ) (from : ℕ)
    → cs ≢ []
    → gb_len g < notf
    → from ≤ gb_len g
    → (search_next g cs from ≢ notf
        → (from ≤ search_next g cs from)
          × (search_next g cs from + length cs ≤ gb_len g)
          × StandsAt g cs (search_next g cs from))
      × ((p : ℕ)
          → from ≤ p
          → p + length cs ≤ gb_len g
          → p < search_next g cs from
          → ¬ StandsAt g cs p)
search_next-first g [] from ne b h = absurd (ne refl)
search_next-first g (c ∷ cs) from ne b h = elim (Bool-cases (ltb (gb_len g) (suc (length cs)))) [
  | inl short ↦
      rw (search_next_short g c cs from short)
        (λ x. absurd (x refl), λ p q l r s. absurd (omega (arith, ltb→lt _ _ short)))
  | inr fits ↦
      let (found, first) =
        search_loop_lem g (c ∷ cs) (gb_len g + 1 - suc (length cs) - from) from (omega arith) in
      rw (search_next_fits g c cs from fits) (
        λ x. let (p, q, r) = found x in (p, omega (arith, ltb→ge _ _ fits), r),
        λ p q l. first p q (omega (arith, ltb→ge _ _ fits)),
      )
]
