-- ===== src/Posix/Dirent/Names.antt =====
-- `build_name` (lib/posix/dirent.c) after `vfs_name_to_83` (src/fs/vfs.c).
use mathlib.Core.List.{map}
use harvac.Prelude.{
  ℕ, zero, suc, ◌+◌, ◌≤◌, ◌<◌, ◌≡◌, ◌≢◌, ◌∙◌, refl, sym, ap, ap₂, arith, true, false, ◌==◌, ne→==,
  ltb, lt→ltb, List, [], ◌∷◌, ◌++◌, append-nil, append_assoc, length, length-append, get_or,
  get_or-append, All, update, Bytes,
}
use harvac.Vfs.Names.{slash, to_upper, Packing, pack_char, pack_loop, vfs_name_to_83}
use harvac.Posix.Dirent.{field, build_name}

-- A character that stands for itself in a name.
abbrev pub IsPlain : ℕ → Type 0
IsPlain c = (c ≢ b' ') × (c ≢ b'.') × (c ≢ slash)

-- The loop has written a name and an extension.
record Wrote (p : Packing) (name ext : List ℕ) : Type 0 where
  ni_is : p.ni ≡ length name
  ei_is : p.ei ≡ length ext
  name_is : (i : ℕ) → i < 8 → p.out i ≡ get_or name i b' '
  ext_is : (i : ℕ) → i < 3 → p.out (8 + i) ≡ get_or ext i b' '

past_end : (xs : List ℕ) (i : ℕ) → length xs ≤ i → get_or xs i b' ' ≡ b' '
past_end [] i h = refl
past_end (c ∷ xs) zero h = absurd (omega arith)
past_end (c ∷ xs) (suc i) h = past_end xs i (omega arith)

name_step :
    (c : ℕ) (p : Packing) (name : List ℕ)
    → IsPlain c
    → p.dot ≡ false
    → length name < 8
    → Wrote p name []
    → (pack_char c p).dot ≡ false × Wrote (pack_char c p) (name ++ to_upper c ∷ []) []
unfolding pack_char
name_step c p name (sp, dt, sl) d l v =
    let nd : (c == b'.') ≡ false = ne→== c b'.' dt in
    let low : ltb (length name) 8 ≡ true = lt→ltb (length name) 8 l in
    rw (nd, d, v.ni_is, low)
      (
        refl,
        record {
          ni_is = omega (arith, length-append name (to_upper c ∷ []));
          ei_is = v.ei_is;
          name_is = λ i h.
              rw (get_or-append name (to_upper c) i b' ')
                (let o = v.name_is i h in let p = past_end name i in ground (arith, p));
          ext_is = λ i h. let o = v.ext_is i h in ground arith;
        },
      )

ext_step :
    (c : ℕ) (p : Packing) (name ext : List ℕ)
    → IsPlain c
    → p.dot ≡ true
    → length ext < 3
    → Wrote p name ext
    → (pack_char c p).dot ≡ true × Wrote (pack_char c p) name (ext ++ to_upper c ∷ [])
unfolding pack_char
ext_step c p name ext (sp, dt, sl) d l v =
    let nd : (c == b'.') ≡ false = ne→== c b'.' dt in
    let low : ltb (length ext) 3 ≡ true = lt→ltb (length ext) 3 l in
    rw (nd, d, v.ei_is, low)
      (
        refl,
        record {
          ni_is = v.ni_is;
          ei_is = omega (arith, length-append ext (to_upper c ∷ []));
          name_is = λ i h. let o = v.name_is i h in ground arith;
          ext_is = λ i h.
              rw (get_or-append ext (to_upper c) i b' ')
                (let o = v.ext_is i h in let p = past_end ext i in ground (arith, p));
        },
      )

field_lem :
    (left at : ℕ) (raw : Bytes) (xs : List ℕ)
    → length xs ≤ left
    → All (λ c. c ≢ b' ') xs
    → ((i : ℕ) → i < left → raw (at + i) ≡ get_or xs i b' ')
    → field left raw at ≡ xs
unfolding field
field_lem zero at raw [] l h e = refl
field_lem zero at raw (c ∷ xs) l h e = absurd (omega arith)
field_lem (suc left) at raw [] l h e =
    let here : raw at ≡ b' ' = (let z : at + 0 ≡ at = omega arith in rw z at (e 0 (omega arith))) in
    rw here refl
field_lem (suc left) at raw (c ∷ xs) l (h, hs) e =
    let here : raw at ≡ c = (let z : at + 0 ≡ at = omega arith in rw z at (e 0 (omega arith))) in
    rw (here, ne→== c b' ' h)
      (ap (λ (x : List ℕ). c ∷ x)
        (field_lem left (at + 1) raw xs (omega arith) hs (λ i k.
          (let z : at + 1 + i ≡ at + suc i = omega arith in rw z (e (suc i) (omega arith))))))

All-raised : (xs : List ℕ) → All IsPlain xs → All (λ c. c ≢ b' ') (map to_upper xs)
All-raised [] h = tt
All-raised (c ∷ xs) (h, hs) = ((let s = h.0 in ground arith), All-raised xs hs)

length-map_upper : (xs : List ℕ) → length (map to_upper xs) ≡ length xs
length-map_upper [] = refl
length-map_upper (c ∷ xs) = omega (arith, length-map_upper xs)

-- The loop over an extension.
ext_loop :
    (cs : List ℕ) (p : Packing) (name ext : List ℕ)
    → All IsPlain cs
    → p.dot ≡ true
    → length ext + length cs ≤ 3
    → Wrote p name ext
    → (q : Packing) × (pack_loop cs p ≡ q.out) × Wrote q name (ext ++ map to_upper cs)
unfolding pack_loop
ext_loop [] p name ext h d l v = (p, refl, rw append-nil v)
ext_loop (c ∷ cs) p name ext (h, hs) d l v =
    let (d', w) = ext_step c p name ext h d (omega arith) v in
    let n : length (ext ++ to_upper c ∷ []) ≡ length ext + 1 =
      length-append ext (to_upper c ∷ []) in
    let (q, run, x) =
      ext_loop cs (pack_char c p) name (ext ++ to_upper c ∷ []) hs d' (omega (arith, n)) w in
    (q, rw (ne→== c slash h.2) run, rw append_assoc at x)

dot_step :
    (cs : List ℕ) (p : Packing)
    → p.dot ≡ false
    → pack_loop (b'.' ∷ cs) p ≡ pack_loop cs (record p { dot = true })
unfolding pack_loop pack_char
dot_step cs p d = rw d refl

-- The loop over a name, with what follows it.
name_loop :
    (cs rest : List ℕ) (p : Packing) (name : List ℕ)
    → All IsPlain cs
    → p.dot ≡ false
    → length name + length cs ≤ 8
    → Wrote p name []
    → (q : Packing) × (pack_loop (cs ++ rest) p ≡ pack_loop rest q)
      × (q.dot ≡ false)
      × Wrote q (name ++ map to_upper cs) []
unfolding pack_loop
name_loop [] rest p name h d l v = (p, refl, d, rw append-nil v)
name_loop (c ∷ cs) rest p name (h, hs) d l v =
    let (d', w) = name_step c p name h d (omega arith) v in
    let n : length (name ++ to_upper c ∷ []) ≡ length name + 1 =
      length-append name (to_upper c ∷ []) in
    let (q, run, e, x) =
      name_loop cs rest (pack_char c p) (name ++ to_upper c ∷ []) hs d' (omega (arith, n)) w in
    (q, rw (ne→== c slash h.2) run, e, rw append_assoc at x)

abbrev pub dotted : (ext : List ℕ) → List ℕ
dotted [] = []
dotted (c ∷ ext) = b'.' ∷ c ∷ ext

Wrote-build_name :
    (q : Packing) (name ext : List ℕ)
    → length name ≤ 8
    → length ext ≤ 3
    → All (λ c. c ≢ b' ') name
    → All (λ c. c ≢ b' ') ext
    → Wrote q name ext
    → build_name q.out ≡ name ++ dotted ext
unfolding build_name
Wrote-build_name q name [] l k h hs v =
    let none : q.out 8 ≡ b' ' = v.ext_is 0 (omega arith) in
    rw none (
      ap (λ (x : List ℕ). x ++ [])
        (field_lem 8 0 q.out name l h
          (λ i r. let z : 0 + i ≡ i = omega arith in rw z (v.name_is i r))))
Wrote-build_name q name (c ∷ ext) l k h hs v =
    let first : q.out 8 ≡ c = v.ext_is 0 (omega arith) in
    let some : (q.out 8 == b' ') ≡ false = ne→== (q.out 8) b' ' (λ p. hs.0 (sym first ∙ p)) in
    rw some (
      ap₂ (λ (x y : List ℕ). x ++ b'.' ∷ y)
        (field_lem 8 0 q.out name l h
          (λ i r. let z : 0 + i ≡ i = omega arith in rw z (v.name_is i r)))
        (field_lem 3 8 q.out (c ∷ ext) k hs (λ i r. v.ext_is i r)))

-- A name of at most eight characters and an extension of at most three, with a dot between them if
-- there is an extension, none of them a blank, a dot or a slash: the name that the C library builds
-- from its 8.3 form is the name in upper case.
pub build_name-vfs_name_to_83 :
    (name ext : List ℕ)
    → All IsPlain name
    → All IsPlain ext
    → length name ≤ 8
    → length ext ≤ 3
    → build_name (vfs_name_to_83 (name ++ dotted ext))
      ≡ map to_upper name ++ dotted (map to_upper ext)
unfolding vfs_name_to_83
build_name-vfs_name_to_83 name ext h hs l k = go ext hs k
  where
    start : Packing
    start = record { ni = 0; ei = 0; dot = false; out = update (λ i. 0x20) 11 0 }

    empty : Wrote start [] []
    empty = record {
      ni_is = refl;
      ei_is = refl;
      name_is = λ i h. ground arith;
      ext_is = λ i h. ground arith;
    }

    go :
        (ext : List ℕ)
        → All IsPlain ext
        → length ext ≤ 3
        → build_name (pack_loop (name ++ dotted ext) start)
          ≡ map to_upper name ++ dotted (map to_upper ext)
    go [] hs k =
        let (q, run, d, v) = name_loop name [] start [] h refl (omega arith) empty in
        let ended : pack_loop [] q ≡ q.out = (unfold pack_loop in refl) in
        ap build_name (run ∙ ended)
        ∙ Wrote-build_name q _ [] (omega (arith, length-map_upper name)) k (All-raised name h) tt v
    go (c ∷ ext) hs k =
        let (q, run, d, v) = name_loop name (b'.' ∷ c ∷ ext) start [] h refl (omega arith) empty in
        let q' : Packing = record q { dot = true } in
        let w : Wrote q' (map to_upper name) [] = record {
          ni_is = v.ni_is;
          ei_is = v.ei_is;
          name_is = v.name_is;
          ext_is = v.ext_is;
        } in
        let (r, run', x) = ext_loop (c ∷ ext) q' (map to_upper name) [] hs refl (omega arith) w in
        let dot_read : pack_loop (b'.' ∷ c ∷ ext) q ≡ pack_loop (c ∷ ext) q' =
          dot_step (c ∷ ext) q d in
        ap build_name (run ∙ dot_read ∙ run')
        ∙ Wrote-build_name r _ (map to_upper (c ∷ ext)) (omega (arith, length-map_upper name))
            (omega (arith, length-map_upper (c ∷ ext))) (All-raised name h)
            (All-raised (c ∷ ext) hs) x
