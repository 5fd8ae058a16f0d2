-- ===== src/Editor/Far.antt =====
-- The block moves of lib/hdk/far.c.
use harvac.Prelude.{
  ℕ, zero, suc, ◌+◌, ◌-◌, ◌≤◌, ◌<◌, ◌≡◌, ◌∙◌, arith, ◌&&◌, ltb, leb, if◌then◌else◌, update, Bytes,
  Bool-cases, inl, inr,
}

-- `while (n--) *dst++ = *src++;` between two blocks.
unfoldable pub far_copy : (block : Bytes) (dst : ℕ) (from : Bytes) (src n : ℕ) → Bytes
far_copy block dst from src zero = block
far_copy block dst from src (suc n) =
    far_copy (update block dst (from src)) (dst + 1) from (src + 1) n

-- The two loops of `far_move`, in one block: from the first byte on, and from the last one down.
unfoldable pub move_up : (block : Bytes) (dst src n : ℕ) → Bytes
move_up block dst src zero = block
move_up block dst src (suc n) = move_up (update block dst (block src)) (dst + 1) (src + 1) n

unfoldable pub move_down : (block : Bytes) (dst src n : ℕ) → Bytes
move_down block dst src zero = block
move_down block dst src (suc n) = move_down (update block (dst + n) (block (src + n))) dst src n

unfoldable pub far_move : (block : Bytes) (dst src n : ℕ) → Bytes
far_move block dst src n =
    if ltb dst src then move_up block dst src n else move_down block dst src n

-- The bytes of one block at a place of another, all at once.
abbrev pub placed : (block from : Bytes) (dst src n : ℕ) → Bytes
placed block from dst src n j =
    if leb dst j && ltb j (dst + n) then from (src + (j - dst)) else block j

pub far_copy_lem :
    (block from : Bytes) (dst src n j : ℕ)
    → far_copy block dst from src n j ≡ placed block from dst src n j
unfolding far_copy
far_copy_lem block from dst src zero j = ground arith
far_copy_lem block from dst src (suc n) j =
    far_copy_lem (update block dst (from src)) from (dst + 1) (src + 1) n j ∙ step
  where
    e : dst + 1 ≤ j → src + 1 + (j - (dst + 1)) ≡ src + (j - dst)
    e h = omega arith

    e0 : src + (j - j) ≡ src
    e0 = omega arith

    step :
        placed (update block dst (from src)) from (dst + 1) (src + 1) n j
        ≡ placed block from dst src (suc n) j
    step = ground (arith, e, e0)

move_up_lem :
    (block : Bytes) (dst src n j : ℕ)
    → dst < src
    → move_up block dst src n j ≡ placed block block dst src n j
unfolding move_up
move_up_lem block dst src zero j h = ground arith
move_up_lem block dst src (suc n) j h =
    move_up_lem (update block dst (block src)) (dst + 1) (src + 1) n j (omega arith) ∙ step
  where
    e : dst + 1 ≤ j → src + 1 + (j - (dst + 1)) ≡ src + (j - dst)
    e h' = omega arith

    e0 : src + (j - j) ≡ src
    e0 = omega arith

    step :
        placed (update block dst (block src)) (update block dst (block src)) (dst + 1) (src + 1) n j
        ≡ placed block block dst src (suc n) j
    step = ground (arith, e, e0)

move_down_lem :
    (block : Bytes) (dst src n j : ℕ)
    → src ≤ dst
    → move_down block dst src n j ≡ placed block block dst src n j
unfolding move_down
move_down_lem block dst src zero j h = ground arith
move_down_lem block dst src (suc n) j h =
    move_down_lem (update block (dst + n) (block (src + n))) dst src n j h ∙ step
  where
    e : j ≡ dst + n → src + (j - dst) ≡ src + n
    e h' = omega arith

    step :
        placed
          (update block (dst + n) (block (src + n)))
          (update block (dst + n) (block (src + n)))
          dst
          src
          n
          j
        ≡ placed block block dst src (suc n) j
    step = ground (arith, e)

-- A move of bytes, also where the two ranges overlap, gives each byte of the target the value that
-- its source had before, and changes no other byte.
pub far_move_lem :
    (block : Bytes) (dst src n j : ℕ) → far_move block dst src n j ≡ placed block block dst src n j
unfolding far_move
far_move_lem block dst src n j = elim (Bool-cases (ltb dst src)) [
  | inl up ↦ rw up (move_up_lem block dst src n j (ground arith))
  | inr down ↦ rw down (move_down_lem block dst src n j (ground arith))
]
