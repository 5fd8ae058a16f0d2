-- ===== src/Editor/Gap/Text.antt =====
-- The operations of apps/medit/gap.c on the text that the buffer holds.
use harvac.Prelude.{
  ℕ, ◌+◌, ◌-◌, ◌≤◌, ◌<◌, ◌≡◌, refl, sym, subst, ap₂, ◌∙◌, min, ==→eq, ltb→lt, ltb→ge, arith, false,
  ltb, leb, ◌==◌, if◌then◌else◌, u16, update, Bytes, none, some, Bool-cases, inl, inr,
}
use harvac.Editor.Far.{far_move, far_move_lem}
use harvac.Editor.Gap.{Gap, gb_len, gb_at, gb_move, gb_insert, gb_del, sub_u16}

pub record IsGap (g : Gap) : Type 0 where
  pub gap : g.gs ≤ g.ge
  pub room : g.ge ≤ g.cap
  pub small : g.cap < 65536

-- The byte at a place, for a gap at `gs` of `d` bytes.
abbrev pub byte_at : Bytes → (gs d p : ℕ) → ℕ
byte_at buf gs d p = if ltb p gs then buf p else buf (p + d)

pub gb_len_lem : {g : Gap} → IsGap g → gb_len g + (g.ge - g.gs) ≡ g.cap
unfolding gb_len
gb_len_lem v = omega arith

pub gb_at_lem :
    {g : Gap} (p : ℕ) → IsGap g → p < gb_len g → gb_at g p ≡ byte_at g.buf g.gs (g.ge - g.gs) p
unfolding gb_at
gb_at_lem {g} p v h =
    let e : u16 (p + sub_u16 g.ge g.gs) ≡ p + (g.ge - g.gs) = omega (arith, gb_len_lem v) in rw e

move_left :
    (b : Bytes) (pos gs d p : ℕ)
    → pos < gs
    → byte_at (far_move b (pos + d) pos (gs - pos)) pos d p ≡ byte_at b gs d p
move_left b pos gs d p h =
    rw (far_move_lem b (pos + d) pos (gs - pos) p, far_move_lem b (pos + d) pos (gs - pos) (p + d))
      (ground (arith, e))
  where
    e : pos ≤ p → pos + (p + d - (pos + d)) ≡ p
    e q = omega arith

move_right :
    (b : Bytes) (pos gs d p : ℕ)
    → gs ≤ pos
    → byte_at (far_move b gs (gs + d) (pos - gs)) pos d p ≡ byte_at b gs d p
move_right b pos gs d p h =
    rw (far_move_lem b gs (gs + d) (pos - gs) p, far_move_lem b gs (gs + d) (pos - gs) (p + d))
      (ground (arith, e))
  where
    e : gs ≤ p → gs + d + (p - gs) ≡ p + d
    e q = omega arith

-- What a move of the gap leaves: the text as it was, and the gap at the place.
pub record MovedTo (pos : ℕ) (g m : Gap) : Type 0 where
  pub valid : IsGap m
  pub place : m.gs ≡ pos
  pub cap_kept : m.cap ≡ g.cap
  pub width : m.ge ≡ pos + (g.ge - g.gs)
  pub text : (p : ℕ) → byte_at m.buf pos (g.ge - g.gs) p ≡ byte_at g.buf g.gs (g.ge - g.gs) p

pub gb_move_lem : {g : Gap} (pos : ℕ) → IsGap g → pos ≤ gb_len g → MovedTo pos g (gb_move pos g)
unfolding gb_move
gb_move_lem {g} pos v h = elim (Bool-cases (pos == g.gs)) [
  | inl same ↦ rw same (record {
    valid = v;
    place = sym (==→eq _ _ same);
    cap_kept = refl;
    width = omega (arith, ==→eq _ _ same);
    text = λ p. rw (==→eq _ _ same);
  })
  | inr other ↦
      rw (other, d_eq, ge_eq)
        (elim (Bool-cases (ltb pos g.gs)) [
          | inl left ↦ rw left (record {
            valid = record {
              gap = omega arith;
              room = omega (arith, gb_len_lem v);
              small = v.small;
            };
            place = refl;
            cap_kept = refl;
            width = refl;
            text = λ p. move_left g.buf pos g.gs (g.ge - g.gs) p (ltb→lt _ _ left);
          })
          | inr right ↦ rw right (record {
            valid = record {
              gap = omega arith;
              room = omega (arith, gb_len_lem v);
              small = v.small;
            };
            place = refl;
            cap_kept = refl;
            width = refl;
            text = λ p.
                subst
                  (λ e.
                    byte_at (far_move g.buf g.gs e (pos - g.gs)) pos (g.ge - g.gs) p
                    ≡ byte_at g.buf g.gs (g.ge - g.gs) p)
                  whole (move_right g.buf pos g.gs (g.ge - g.gs) p (ltb→ge _ _ right));
          })
        ])
]
  where
    d_eq : sub_u16 g.ge g.gs ≡ g.ge - g.gs
    d_eq = omega arith

    ge_eq : u16 (pos + (g.ge - g.gs)) ≡ pos + (g.ge - g.gs)
    ge_eq = omega (arith, gb_len_lem v)

    whole : g.gs + (g.ge - g.gs) ≡ g.ge
    whole = omega arith

insert_byte :
    (b b0 : Bytes) (pos gs d c p : ℕ)
    → 0 < d
    → ((q : ℕ) → byte_at b pos d q ≡ byte_at b0 gs d q)
    → byte_at (update b pos c) (pos + 1) (d - 1) p
      ≡ (if ltb p pos then byte_at b0 gs d p else if p == pos then c else byte_at b0 gs d (p - 1))
insert_byte b b0 pos gs d c p h text = ground (arith, text p, text (p - 1), e)
  where
    e : pos < p → p + (d - 1) ≡ p - 1 + d
    e q = omega arith

-- `gb_at` of a gap buffer, by the fields.
pub at_fields :
    {g : Gap} (gs d p : ℕ)
    → IsGap g
    → g.gs ≡ gs
    → g.ge - g.gs ≡ d
    → p < gb_len g
    → gb_at g p ≡ byte_at g.buf gs d p
at_fields {g} gs d p v e f h = gb_at_lem p v h ∙ ap₂ (λ x y. byte_at g.buf x y p) e f

insert_text :
    {g m : Gap} (pos c p : ℕ)
    → IsGap g
    → MovedTo pos g m
    → g.gs < g.ge
    → pos ≤ gb_len g
    → let g' : Gap = record m { buf = update m.buf m.gs c; gs = u16 (m.gs + 1) } in
      IsGap g'
      → p < gb_len g + 1
      → p < gb_len g'
      → gb_at g' p ≡ (if ltb p pos then gb_at g p else if p == pos then c else gb_at g (p - 1))
insert_text {g} {m} pos c p v s space h v' hp hp' =
    at_fields (pos + 1) (g.ge - g.gs - 1) p v' next (omega (arith, next, s.width)) hp'
    ∙ subst
        (λ x. byte_at (update m.buf x c) (pos + 1) (g.ge - g.gs - 1) p ≡ (
          if ltb p pos
          then byte_at g.buf g.gs (g.ge - g.gs) p
          else if p == pos
          then c
          else byte_at g.buf g.gs (g.ge - g.gs) (p - 1)))
        (sym s.place) (insert_byte m.buf g.buf pos g.gs (g.ge - g.gs) c p (omega arith) s.text)
    ∙ back
  where
    next : u16 (m.gs + 1) ≡ pos + 1
    next = omega (arith, s.place, gb_len_lem v)

    back :
        (if ltb p pos
          then byte_at g.buf g.gs (g.ge - g.gs) p
          else if p == pos
          then c
          else byte_at g.buf g.gs (g.ge - g.gs) (p - 1))
        ≡ (if ltb p pos then gb_at g p else if p == pos then c else gb_at g (p - 1))
    back = ground (arith, gb_at_lem p v, gb_at_lem (p - 1) v)

-- Inserting a byte at a place of the text of a valid gap buffer. With no gap the call fails.
-- Otherwise the buffer stays valid and the text is one byte longer, with the byte at the place and
-- what stood there and behind it moved up by one.
pub gb_insert_lem :
    {g : Gap} (pos c : ℕ)
    → IsGap g
    → pos ≤ gb_len g
    → (g.gs ≡ g.ge → gb_insert g pos c ≡ none)
      × (g.gs < g.ge
          → (g' : Gap) × (gb_insert g pos c ≡ some g')
            × IsGap g'
            × (gb_len g' ≡ gb_len g + 1)
            × ((p : ℕ)
                → p < gb_len g'
                → gb_at g' p
                  ≡ (if ltb p pos then gb_at g p else if p == pos then c else gb_at g (p - 1))))
unfolding gb_insert
gb_insert_lem {g} pos c v h = (
  λ full. ground arith,
  λ space.
      let s = gb_move_lem pos v h in
      let m = gb_move pos g in
      let gs' : u16 (m.gs + 1) ≡ pos + 1 = omega (arith, s.place, gb_len_lem v) in
      let g' : Gap = record m { buf = update m.buf m.gs c; gs = u16 (m.gs + 1) } in
      let v' : IsGap g' = record {
        gap = omega (arith, s.place, s.width);
        room = s.valid.room;
        small = s.valid.small;
      } in
      let longer : gb_len g' ≡ gb_len g + 1 =
        omega (arith, gb_len_lem v, gb_len_lem v', s.width, s.cap_kept) in
      (
        g',
        ground arith,
        v',
        longer,
        λ p hp. insert_text pos c p v s space h v' (omega (arith, longer, hp)) hp,
      ),
)

delete_byte :
    (b b0 : Bytes) (pos gs d n p : ℕ)
    → ((q : ℕ) → byte_at b pos d q ≡ byte_at b0 gs d q)
    → byte_at b pos (d + n) p ≡ (if ltb p pos then byte_at b0 gs d p else byte_at b0 gs d (p + n))
delete_byte b b0 pos gs d n p text = ground (arith, text p, text (p + n), e)
  where
    e : p + (d + n) ≡ p + n + d
    e = omega arith

delete_text :
    {g m : Gap} (pos k p : ℕ)
    → IsGap g
    → MovedTo pos g m
    → IsGap (record m { ge = m.ge + k })
    → p + k < gb_len g
    → p < gb_len (record m { ge = m.ge + k })
    → gb_at (record m { ge = m.ge + k }) p ≡ (if ltb p pos then gb_at g p else gb_at g (p + k))
delete_text {g} {m} pos k p v s v' hp hp' =
    at_fields pos (g.ge - g.gs + k) p v' s.place (omega (arith, s.place, s.width)) hp'
    ∙ delete_byte m.buf g.buf pos g.gs (g.ge - g.gs) k p s.text
    ∙ ground (arith, gb_at_lem p v, gb_at_lem (p + k) v)

-- Deleting bytes from a valid gap buffer. Behind the text nothing happens. Otherwise the buffer
-- stays valid, as many bytes as asked for, or as there are, are gone from the place on, and the
-- others stay in their order.
pub gb_del_lem :
    {g : Gap} (pos n : ℕ)
    → IsGap g
    → (gb_len g ≤ pos → gb_del g pos n ≡ g)
      × (pos < gb_len g
          → let k = min n (gb_len g - pos) in
            IsGap (gb_del g pos n)
            × (gb_len (gb_del g pos n) + k ≡ gb_len g)
            × ((p : ℕ)
                → p < gb_len (gb_del g pos n)
                → gb_at (gb_del g pos n) p ≡ (if ltb p pos then gb_at g p else gb_at g (p + k))))
unfolding gb_del
gb_del_lem {g} pos n v = (
  λ behind. ground arith,
  λ inside.
      let k = min n (gb_len g - pos) in
      let s = gb_move_lem pos v (omega arith) in
      let m = gb_move pos g in
      let out : leb (gb_len g) pos ≡ false = ground arith in
      let count : (if ltb (gb_len g - pos) n then gb_len g - pos else n) ≡ k = ground arith in
      let wide : u16 (m.ge + k) ≡ m.ge + k = omega (arith, s.width, gb_len_lem v) in
      rw (out, count, wide)
        (let v' : IsGap (record m { ge = m.ge + k }) = record {
          gap = omega (arith, s.place, s.width);
          room = omega (arith, s.width, s.cap_kept, gb_len_lem v);
          small = s.valid.small;
        } in
          let shorter : gb_len (record m { ge = m.ge + k }) + k ≡ gb_len g =
            omega (arith, gb_len_lem v, gb_len_lem v', s.place, s.width, s.cap_kept) in
          (v', shorter, λ p hp. delete_text pos k p v s v' (omega (arith, shorter)) hp)),
)
