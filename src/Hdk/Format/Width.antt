-- ===== src/Hdk/Format/Width.antt =====
-- The fields of lib/hdk/fmt.c have the width of their columns.
use harvac.Prelude.{
  ℕ, zero, suc, ◌+◌, ◌-◌, ◌/◌, ◌≤◌, ◌<◌, ◌≡◌, ◌⊎◌, ◌∙◌, inl, inr, refl, ap, arith, true, false, ltb,
  leb, if◌then◌else◌, List, ◌++◌, Option, none, some, Bool-cases, length, take, drop, length-append,
  length-take, length-drop,
}
use harvac.Posix.Number.{u32toa, spaces}
use harvac.Hdk.Format.{
  dots, last_dot, padded, columns, fat_format_name12, fmt_ellipsis_mid, fmt_uint_field,
}

length-spaces : (n : ℕ) → length (spaces n) ≡ n
unfolding spaces
length-spaces zero = refl
length-spaces (suc n) = ap suc (length-spaces n)

length-dots : (n : ℕ) → length (dots n) ≡ n
unfolding dots
length-dots zero = refl
length-dots (suc n) = ap suc (length-dots n)

-- A path in a row of a width: one that fits stays as it is, and a longer one takes the whole width; from a
-- width of four on it is the start and the end of the path with three dots between them.
pub fmt_ellipsis_mid_lem :
    (src : List ℕ) (width : ℕ)
    → (length src ≤ width → fmt_ellipsis_mid src width ≡ src)
      × (width < length src
          → (length (fmt_ellipsis_mid src width) ≡ width)
            × (3 < width
                → (head tail : ℕ) × (head + 3 + tail ≡ width)
                  × (fmt_ellipsis_mid src width
                      ≡ take head src ++ dots 3 ++ drop (length src - tail) src)))
unfolding fmt_ellipsis_mid
fmt_ellipsis_mid_lem src width =
    let head = (width - 3) / 2 in
    let tail = width - 3 - head in
    let parts = take head src ++ dots 3 ++ drop (length src - tail) src in
    let n : length parts
        ≡ length (take head src) + length (dots 3) + length (drop (length src - tail) src) =
      length-append (take head src ++ dots 3) (drop (length src - tail) src)
      ∙ ap (λ x. x + length (drop (length src - tail) src))
          (length-append (take head src) (dots 3)) in
    (
      λ fits. (let t : leb (length src) width ≡ true = ground (arith, fits) in rw t refl),
      λ long.
          let f : leb (length src) width ≡ false = ground (arith, long) in
          elim (Bool-cases (leb width 3)) [
            | inl t ↦ rw (f, t) (length-dots width, λ wide. absurd (ground (arith, wide, t)))
            | inr g ↦
                rw (f, g)
                  (
                    n
                        ∙ omega (
                          arith,
                          length-take head src,
                          length-dots 3,
                          length-drop (length src - tail) src,
                          long,
                          leb→lt g,
                        ),
                    λ wide. (head, tail, omega arith, refl),
                  )
          ],
    )
  where
    leb→lt : leb width 3 ≡ false → 3 < width
    leb→lt g = ground (arith, g)

length-padded : (n : ℕ) (s : List ℕ) → length s ≤ n → length (padded n s) ≡ n
length-padded n s h =
    length-append s (spaces (n - length s)) ∙ omega (arith, length-spaces (n - length s))

-- A name in the list of files is twelve columns wide, and so is a number in a field of any width.
pub fat_format_name12-length : (name : List ℕ) → length (fat_format_name12 name) ≡ 12
unfolding fat_format_name12 columns
fat_format_name12-length name = go (last_dot name 0)
  where
    whole : length (padded 12 (take 12 name)) ≡ 12
    whole = length-padded 12 (take 12 name) (omega (arith, length-take 12 name))

    go : (o : Option ℕ) → length (columns o name) ≡ 12
    go none = whole
    go (some dot) = elim (Bool-cases (ltb 8 dot)) [
      | inl t ↦ rw t whole
      | inr f ↦
          let base = take dot name in
          let ext = take 3 (drop (dot + 1) name) in
          rw f (
            length-append (padded 9 base) (padded 3 ext)
            ∙ omega (
              arith,
              length-padded 9 base (ground (arith, length-take dot name, f)),
              length-padded 3 ext (omega (arith, length-take 3 (drop (dot + 1) name))),
            ))
    ]

pub fmt_uint_field-length : (val width : ℕ) → length (fmt_uint_field val width) ≡ width
unfolding fmt_uint_field
fmt_uint_field-length val width =
    let tmp = u32toa val in
    let pad = if ltb (length tmp) width then width - length tmp else 0 in
    let p : (pad + length tmp ≡ width) ⊎ ((pad ≡ 0) × (width ≤ length tmp)) = ground arith in
    length-append (spaces pad) (take (width - pad) tmp)
    ∙ omega (arith, p, length-spaces pad, length-take (width - pad) tmp)
