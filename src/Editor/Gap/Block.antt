-- ===== src/Editor/Gap/Block.antt =====
-- `gb_insert_block` of apps/medit/gap.c on the text that the buffer holds.
use harvac.Prelude.{
  ℕ, ◌+◌, ◌-◌, ◌≤◌, ◌<◌, ◌≡◌, ap, ◌∙◌, arith, ltb, if◌then◌else◌, u16, Bytes, none, some,
}
use harvac.Editor.Far.{far_copy, far_copy_lem}
use harvac.Editor.Gap.{Gap, gb_len, gb_at, gb_move, gb_insert_block, sub_u16}
use harvac.Editor.Gap.Text.{IsGap, gb_len_lem, byte_at, gb_at_lem, at_fields, gb_move_lem}

block_byte :
    (b b0 src : Bytes) (pos gs d n p : ℕ)
    → n ≤ d
    → ((q : ℕ) → byte_at b pos d q ≡ byte_at b0 gs d q)
    → byte_at (far_copy b pos src 0 n) (pos + n) (d - n) p ≡ (
        if ltb p pos
        then byte_at b0 gs d p
        else if ltb p (pos + n)
        then src (p - pos)
        else byte_at b0 gs d (p - n))
block_byte b b0 src pos gs d n p h text =
    rw (far_copy_lem b src pos 0 n p, far_copy_lem b src pos 0 n (p + (d - n)))
      (ground (arith, text p, text (p - n), e))
  where
    e : pos + n ≤ p → p + (d - n) ≡ p - n + d
    e q = omega arith

-- Inserting a block at a place of the text of a valid gap buffer. A block that does not fit in the gap
-- makes the call fail. Otherwise the buffer stays valid and the text is longer by the block, with the
-- block at the place and what stood there and behind it moved up.
pub gb_insert_block_lem :
    {g : Gap} (pos : ℕ) (src : Bytes) (n : ℕ)
    → IsGap g
    → pos ≤ gb_len g
    → (g.ge - g.gs < n → gb_insert_block g pos src n ≡ none)
      × (n ≤ g.ge - g.gs
          → (g' : Gap) × (gb_insert_block g pos src n ≡ some g')
            × IsGap g'
            × (gb_len g' ≡ gb_len g + n)
            × ((p : ℕ)
                → p < gb_len g'
                → gb_at g' p ≡ (
                    if ltb p pos
                    then gb_at g p
                    else if ltb p (pos + n)
                    then src (p - pos)
                    else gb_at g (p - n))))
unfolding gb_insert_block
gb_insert_block_lem {g} pos src n v h =
    let d_eq : sub_u16 g.ge g.gs ≡ g.ge - g.gs = omega (arith, v.gap, v.room, v.small) in
    let s = gb_move_lem pos v h in
    let m = gb_move pos g in
    let gs' : u16 (m.gs + n) ≡ u16 (pos + n) = ap (λ x. u16 (x + n)) s.place in
    (
      λ full. ground arith,
      λ room.
          let next : u16 (m.gs + n) ≡ pos + n = omega (arith, s.place, gb_len_lem v, v.small) in
          let g' : Gap = record m { buf = far_copy m.buf m.gs src 0 n; gs = u16 (m.gs + n) } in
          let v' : IsGap g' = record {
            gap = omega (arith, next, s.width);
            room = s.valid.room;
            small = s.valid.small;
          } in
          let longer : gb_len g' ≡ gb_len g + n =
            omega (arith, gb_len_lem v, gb_len_lem v', s.width, s.cap_kept, next) in
          (
            g',
            ground arith,
            v',
            longer,
            λ p hp.
                at_fields (pos + n) (g.ge - g.gs - n) p v' next (omega (arith, next, s.width)) hp
                ∙ ap (λ x. byte_at (far_copy m.buf x src 0 n) (pos + n) (g.ge - g.gs - n) p) s.place
                ∙ block_byte m.buf g.buf src pos g.gs (g.ge - g.gs) n p room s.text
                ∙ ground (arith, gb_at_lem p v, gb_at_lem (p - n) v, longer),
          ),
    )
