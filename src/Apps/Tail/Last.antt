-- ===== src/Apps/Tail/Last.antt =====
-- The ring of `tail` (apps/tail.c) is a list of the last lines.
use native.Mathlib.Nat.{mod-eq_of_lt, mod-eq-sub-mod}
use harvac.Prelude.{
  ℕ, suc, ◌+◌, ◌-◌, ◌%◌, ◌≤◌, min, ◌<◌, ◌≡◌, ◌∙◌, inl, inr, refl, sym, ap, arith, true, false, ltb,
  ◌==◌, if◌then◌else◌, List, [], ◌∷◌, ◌++◌, length, get_or, take, drop, length-append,
  get_or-append, length-drop, append_assoc, append-nil, Bool-cases, ltb→lt, ltb→ge,
}
use harvac.Apps.Tail.{
  Ring, ring_push, put_line, tail_width, flush_loop, ring_flush, push_all, tail_lines, tail_max,
  tail_fd,
}

-- The place of the `i`-th line.
abbrev place : (head i n : ℕ) → ℕ
place head i n = if ltb (head + i) n then head + i else head + i - n

-- A ring of `n` places that holds the lines of a list, the oldest first.
record Represents (n : ℕ) (r : Ring) (lines : List (List ℕ)) : Type 0 where
  counted : r.ring_count ≡ length lines
  fits : length lines ≤ n
  head_low : r.ring_head < n
  not_wrapped : r.ring_count < n → (r.ring_head ≡ 0) × (r.ring_full ≡ false)
  entries : (i : ℕ) → i < length lines → r.ring (place r.ring_head i n) ≡ get_or lines i []

-- The abstract operation: the line goes to the end, and the oldest leaves a list of `n`.
unfoldable pub keep_last : (n : ℕ) → List (List ℕ) → List ℕ → List (List ℕ)
keep_last n lines line =
    if ltb (length lines) n then lines ++ line ∷ [] else drop 1 lines ++ line ∷ []

keep_last-grow :
    (n : ℕ) (lines : List (List ℕ)) (line : List ℕ)
    → ltb (length lines) n ≡ true
    → keep_last n lines line ≡ lines ++ line ∷ []
unfolding keep_last
keep_last-grow n lines line e = rw e refl

keep_last-wrap :
    (n : ℕ) (lines : List (List ℕ)) (line : List ℕ)
    → ltb (length lines) n ≡ false
    → keep_last n lines line ≡ drop 1 lines ++ line ∷ []
unfolding keep_last
keep_last-wrap n lines line e = rw e refl

-- The same for lines that are cut to the width of the ring.
unfoldable pub keep_all : (n : ℕ) (kept lines : List (List ℕ)) → List (List ℕ)
keep_all n kept [] = kept
keep_all n kept (line ∷ lines) = keep_all n (keep_last n kept (take (tail_width - 1) line)) lines

-- The lines, each cut to 127 bytes.
abbrev pub cut_lines : List (List ℕ) → List (List ℕ)
cut_lines [] = []
cut_lines (line ∷ lines) = take (tail_width - 1) line ∷ cut_lines lines

get_or-drop : (xs : List (List ℕ)) (i : ℕ) → get_or (drop 1 xs) i [] ≡ get_or xs (i + 1) []
get_or-drop [] i = refl
get_or-drop (y ∷ xs) i = let e : i + 1 ≡ suc i = omega arith in rw e refl

module _ {n : ℕ} {r : Ring} {lines : List (List ℕ)} (v : Represents n r lines) (x : List ℕ) where
  grown_entry :
      (i : ℕ)
      → r.ring_count < n
      → i < length lines + 1
      → (if r.ring_count == place r.ring_head i n then x else r.ring (place r.ring_head i n))
        ≡ get_or (lines ++ x ∷ []) i []
  grown_entry i c h =
      let (head, full) = v.not_wrapped c in
      let at_i : place r.ring_head i n ≡ i = ground (arith, v.counted, head) in
      let old : i < length lines → r.ring i ≡ get_or lines i [] = λ l. rw at_i at (v.entries i l) in
      rw at_i (rw (get_or-append lines x i []) (ground (arith, v.counted, old)))

  wrapped_entry :
      (i : ℕ)
      → length lines ≡ n
      → i < n
      → let head = if ltb (r.ring_head + 1) n then r.ring_head + 1 else 0 in
        (if r.ring_head == place head i n then x else r.ring (place head i n))
        ≡ get_or (drop 1 lines ++ x ∷ []) i []
  wrapped_entry i c h =
      let head = if ltb (r.ring_head + 1) n then r.ring_head + 1 else 0 in
      let short : length (drop 1 lines) ≡ n - 1 = omega (arith, length-drop 1 lines) in
      let old : i + 1 < n → r.ring (place r.ring_head (i + 1) n) ≡ get_or (drop 1 lines) i [] =
        λ l. v.entries (i + 1) (omega arith) ∙ sym (get_or-drop lines i) in
      elim (Bool-cases (ltb (i + 1) n)) [
        | inl t ↦
            let moved : place head i n ≡ place r.ring_head (i + 1) n = ground (arith, v.head_low) in
            let apart : (r.ring_head == place r.ring_head (i + 1) n) ≡ false =
              ground (arith, v.head_low) in
            rw moved (
              rw apart (
                rw (get_or-append (drop 1 lines) x i [])
                  (ground (arith, short, old (ground arith)))))
        | inr f ↦
            let moved : place head i n ≡ r.ring_head = ground (arith, v.head_low) in
            let same : (r.ring_head == r.ring_head) ≡ true = ground arith in
            rw moved (rw same (rw (get_or-append (drop 1 lines) x i []) (ground (arith, short))))
      ]

ring_push-grow :
    (line : List ℕ) (n : ℕ) (r : Ring)
    → ltb r.ring_count n ≡ true
    → ring_push line n r ≡ record {
      ring = put_line r.ring r.ring_count line;
      ring_count = r.ring_count + 1;
      ring_head = r.ring_head;
      ring_full = r.ring_full;
    }
unfolding ring_push
ring_push-grow line n r e = ground arith

ring_push-wrap :
    (line : List ℕ) (n : ℕ) (r : Ring)
    → ltb r.ring_count n ≡ false
    → ring_push line n r ≡ record {
      ring = put_line r.ring r.ring_head line;
      ring_count = r.ring_count;
      ring_head = if ltb (r.ring_head + 1) n then r.ring_head + 1 else 0;
      ring_full = true;
    }
unfolding ring_push
ring_push-wrap line n r e = ground arith

ring_push-Represents :
    (line : List ℕ) (n : ℕ) (r : Ring) (lines : List (List ℕ))
    → Represents n r lines
    → Represents n (ring_push line n r) (keep_last n lines (take (tail_width - 1) line))
ring_push-Represents line n r lines v = elim (Bool-cases (ltb r.ring_count n)) [
  | inl t ↦ rw (ring_push-grow line n r t) (
      rw (keep_last-grow n lines (take (tail_width - 1) line) (ground (arith, v.counted))) (record {
        counted = omega (arith, v.counted, longer);
        fits = omega (arith, longer, ltb→lt _ _ t, v.counted);
        head_low = v.head_low;
        not_wrapped = λ h. v.not_wrapped (omega arith);
        entries = λ i h.
            grown_entry v (take (tail_width - 1) line) i (ltb→lt _ _ t) (omega (arith, longer));
      }))
  | inr f ↦
      let full : length lines ≡ n = omega (arith, v.counted, v.fits, ltb→ge _ _ f) in
      rw (ring_push-wrap line n r f) (
        rw (keep_last-wrap n lines (take (tail_width - 1) line) (ground (arith, full))) (record {
          counted = omega (arith, v.counted, kept v.head_low full);
          fits = omega (arith, full, kept v.head_low full);
          head_low = ground (arith, v.head_low);
          not_wrapped = λ h. absurd (omega (arith, v.counted, full));
          entries = λ i h.
              wrapped_entry v (take (tail_width - 1) line) i full
                (omega (arith, full, kept v.head_low full));
        }))
]
  where
    longer : length (lines ++ take (tail_width - 1) line ∷ []) ≡ length lines + 1
    longer = omega (arith, length-append lines (take (tail_width - 1) line ∷ []))

    kept :
        r.ring_head < n
        → length lines ≡ n
        → length (drop 1 lines ++ take (tail_width - 1) line ∷ []) ≡ length lines
    kept h e =
        omega (
          arith,
          length-append (drop 1 lines) (take (tail_width - 1) line ∷ []),
          length-drop 1 lines,
        )

mod-place : (head i n : ℕ) → head < n → i < n → (head + i) % n ≡ place head i n
mod-place head i n h k = elim (Bool-cases (ltb (head + i) n)) [
  | inl t ↦ rw t (mod-eq_of_lt (ltb→lt _ _ t))
  | inr f ↦
      rw f
        (mod-eq-sub-mod (ltb→ge _ _ f) ∙ mod-eq_of_lt (let l : head + i - n < n = omega arith in l))
]

flush_loop_lem :
    (i n : ℕ) (r : Ring) (lines : List (List ℕ))
    → r.ring_head < n
    → i + length lines ≤ n
    → ((j : ℕ) → j < length lines → r.ring (place r.ring_head (i + j) n) ≡ get_or lines j [])
    → flush_loop (length lines) i n r ≡ lines
unfolding flush_loop
flush_loop_lem i n r [] h l e = refl
flush_loop_lem i n r (line ∷ lines) h l e = rw (mod-place r.ring_head i n h (omega arith)) (
    let first : r.ring (place r.ring_head i n) ≡ line =
      (let z : i + 0 ≡ i = omega arith in rw z at (e 0 (omega arith))) in
    let others =
      flush_loop_lem (i + 1) n r lines h (omega arith)
        (λ j k. let z : i + suc j ≡ i + 1 + j = omega arith in rw z at (e (suc j) (omega arith))) in
    rw others (ap (λ (x : List ℕ). x ∷ lines) first))

push_all-Represents :
    (n : ℕ) (lines : List (List ℕ)) (r : Ring) (kept : List (List ℕ))
    → Represents n r kept
    → Represents n (push_all n lines r) (keep_all n kept lines)
unfolding push_all keep_all
push_all-Represents n [] r kept v = v
push_all-Represents n (line ∷ lines) r kept v =
    push_all-Represents n lines (ring_push line n r) (keep_last n kept (take (tail_width - 1) line))
      (ring_push-Represents line n r kept v)

keep_all_lem :
    (n : ℕ) (kept lines : List (List ℕ))
    → 0 < n
    → length kept ≤ n
    → keep_all n kept lines ≡ drop (length kept + length lines - n) (kept ++ cut_lines lines)
unfolding keep_all
keep_all_lem n kept [] h l =
    let z : length kept + 0 - n ≡ 0 = omega arith in rw (z, append-nil) refl
keep_all_lem n kept (line ∷ lines) h l = elim (Bool-cases (ltb (length kept) n)) [
  | inl t ↦
      let x = take (tail_width - 1) line in
      let e : length (kept ++ x ∷ []) ≡ length kept + 1 =
        omega (arith, length-append kept (x ∷ [])) in
      let z : length kept + 1 + length lines - n ≡ length kept + suc (length lines) - n =
        omega arith in
      rw (keep_last-grow n kept x t) (
        keep_all_lem n (kept ++ x ∷ []) lines h (omega (arith, e, ltb→lt _ _ t))
        ∙ rw (e, z, append_assoc) refl)
  | inr f ↦ full (λ k m. keep_all_lem n k lines h m) kept (omega (arith, ltb→ge _ _ f)) f
]
  where
    full :
        ((k : List (List ℕ))
          → length k ≤ n
          → keep_all n k lines ≡ drop (length k + length lines - n) (k ++ cut_lines lines))
        → (kept : List (List ℕ)) → length kept ≡ n
        → ltb (length kept) n ≡ false
        → keep_all n (keep_last n kept (take (tail_width - 1) line)) lines
          ≡ drop
              (length kept + suc (length lines) - n)
              (kept ++ take (tail_width - 1) line ∷ cut_lines lines)
    full ih [] e f = absurd (omega arith)
    full ih (y ∷ k) e f =
        let x = take (tail_width - 1) line in
        let g : length (k ++ x ∷ []) ≡ length k + 1 = omega (arith, length-append k (x ∷ [])) in
        let z : length k + 1 + length lines - n ≡ length lines = omega arith in
        let w : suc (length k) + suc (length lines) - n ≡ suc (length lines) = omega arith in
        rw (keep_last-wrap n (y ∷ k) x f)
          (ih (k ++ x ∷ []) (omega (arith, g)) ∙ rw (g, z, w, append_assoc) refl)

-- For at least one line.
tail_lines-last :
    (n : ℕ) (ring : ℕ → List ℕ) (lines : List (List ℕ))
    → 0 < n
    → tail_lines n ring lines ≡ drop (length lines - n) (cut_lines lines)
unfolding tail_lines ring_flush
tail_lines-last n ring lines h =
    let v = push_all-Represents n lines start [] empty in
    flushed (push_all n lines start) (keep_all n [] lines) v
    ∙ keep_all_lem n [] lines h (omega arith)
    ∙ (let z : 0 + length lines ≡ length lines = omega arith in rw z refl)
  where
    start : Ring
    start = record { ring = ring; ring_count = 0; ring_head = 0; ring_full = false }

    empty : Represents n start []
    empty = record {
      counted = refl;
      fits = omega arith;
      head_low = h;
      not_wrapped = λ k. (refl, refl);
      entries = λ i k. absurd (omega arith);
    }

    flushed :
        (r : Ring) (kept : List (List ℕ))
        → Represents n r kept
        → flush_loop (if r.ring_full then n else r.ring_count) 0 n r ≡ kept
    flushed r kept v =
        let total : (if r.ring_full then n else r.ring_count) ≡ length kept =
          grind (arith, v.counted, v.fits, v.not_wrapped) in
        rw total (
          flush_loop_lem 0 n r kept v.head_low (omega (arith, v.fits))
            (λ j k. let z : 0 + j ≡ j = omega arith in rw z (v.entries j k)))

-- For at least one line, whatever the ring held before, the lines that are printed are the last `n`
-- of the input, or the last 100 if `n` is greater, or all if these are fewer, each cut to 127 bytes.
pub tail_fd-last :
    (n : ℕ) (ring : ℕ → List ℕ) (lines : List (List ℕ))
    → 0 < n
    → tail_fd n ring lines ≡ drop (length lines - min n tail_max) (cut_lines lines)
unfolding tail_fd
tail_fd-last n ring lines h =
    let clamped : (if ltb tail_max n then tail_max else n) ≡ min n tail_max = ground arith in
    rw clamped (tail_lines-last (min n tail_max) ring lines (omega arith))
