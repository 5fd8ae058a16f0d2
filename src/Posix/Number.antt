-- ===== src/Posix/Number.antt =====
-- Numbers in decimal: `utoa`, `u32toa`, `format_size` and `atoi` of lib/posix/string.c, whose target
-- has no division.
pub mod Decimal
use mathlib.Core.List.{reverse}
use harvac.Prelude.{
  ℕ, zero, suc, ◌+◌, ◌-◌, ◌*◌, ◌/◌, ◌%◌, Bool, true, false, ◌&&◌, leb, ltb, ◌==◌, if◌then◌else◌,
  List, [], ◌∷◌, ◌++◌, length, take, u16,
}

-- `while (val >= 10) { val -= 10; d++; }`, on fuel: what is left of `val`, and `d`
unfoldable pub div10_loop : (fuel val d : ℕ) → ℕ × ℕ
div10_loop zero val d = (val, d)
div10_loop (suc fuel) val d =
    let next = div10_loop fuel (val - 10) (d + 1) in if leb 10 val then next else (val, d)

-- The digits, the last one first.
unfoldable pub digits_loop : (fuel val : ℕ) → List ℕ
digits_loop zero val = []
digits_loop (suc fuel) val =
    let (digit, d) = div10_loop (suc val) val 0 in
    let rest = digits_loop fuel d in if val == 0 then [] else digit ∷ rest

-- The characters of the digits, from the last in the buffer on.
unfoldable pub print_loop : (digits out : List ℕ) → List ℕ
print_loop [] out = out
print_loop (d ∷ digits) out = print_loop digits ((d + b'0') ∷ out)

unfoldable pub utoa : (val : ℕ) → List ℕ
utoa val = if val == 0 then b'0' ∷ [] else print_loop (digits_loop (suc val) val) []

-- The same loops on 32 bits.
unfoldable pub u32toa : (val : ℕ) → List ℕ
u32toa val = if val == 0 then b'0' ∷ [] else print_loop (digits_loop (suc val) val) []

unfoldable pub utoa_pad2 : (val : ℕ) → List ℕ
utoa_pad2 val = (b'0' + val / 10) % 256 ∷ (b'0' + val % 10) % 256 ∷ []

unfoldable pub spaces : ℕ → List ℕ
spaces zero = []
spaces (suc n) = b' ' ∷ spaces n

-- At most five characters, on the right of five places.
unfoldable pub format_size : (val : ℕ) → List ℕ
format_size val =
    let tmp = if ltb 99999 val then u32toa (val / 1024) ++ b'K' ∷ [] else u32toa val in
    let len = if ltb 5 (length tmp) then 5 else length tmp in spaces (5 - len) ++ take len tmp

-- `while (*s == ' ') s++`
unfoldable pub skip_spaces : List ℕ → List ℕ
skip_spaces [] = []
skip_spaces (c ∷ s) = let rest = skip_spaces s in if c == b' ' then rest else c ∷ s

unfoldable pub atoi_loop : (n : ℕ) → List ℕ → ℕ
atoi_loop n [] = n
atoi_loop n (c ∷ s) =
    let rest = atoi_loop (u16 (n * 10 + (c - b'0'))) s in
    if leb b'0' c && leb c b'9' then rest else n

-- An `int` of 16 bits as its two's complement.
unfoldable pub atoi_signed : List ℕ → ℕ
atoi_signed [] = 0
atoi_signed (c ∷ s) =
    if c == b'-' then u16 (65536 - atoi_loop 0 s) else atoi_loop 0 (if c == b'+' then s else c ∷ s)

unfoldable pub atoi : List ℕ → ℕ
atoi s = atoi_signed (skip_spaces s)
