-- ===== src/Drivers/Disk/Address.antt =====
-- The packing of a sector number into the registers of INT 13h (`disk_chs_op`, src/drivers/disk.c)
-- loses nothing.
use native.Mathlib.Nat.{div-lt_iff_lt-mul, div-add-mod, mod-lt}
use harvac.Prelude.{ap, ap₂, sym, ◌∙◌, ℕ, ◌+◌, ◌*◌, ◌/◌, ◌%◌, ◌≤◌, ◌<◌, ◌≡◌, arith}
use harvac.Drivers.Disk.{pack}

-- A geometry that reaches every 16-bit sector number within the 1024 cylinders of CX.
pub record IsGeometry (spt nheads : ℕ) : Type 0 where
  pub some_sectors : 0 < spt
  pub six_bits : spt ≤ 63
  pub some_heads : 0 < nheads
  pub eight_bits : nheads < 256
  pub reach : 64 ≤ spt * nheads

cyl-lt : (spt nheads l : ℕ) → IsGeometry spt nheads → l < 65536 → l / spt / nheads < 1024
cyl-lt spt nheads l g h =
    (div-lt_iff_lt-mul g.some_heads).1 ((div-lt_iff_lt-mul g.some_sectors).1 (omega arith))

mod_eq_div_eq : (a b d : ℕ) → a / d ≡ b / d → a % d ≡ b % d → a ≡ b
mod_eq_div_eq a b d p q = sym (div-add-mod a d) ∙ ap₂ (λ x y. d * x + y) p q ∙ div-add-mod b d

-- Two sector numbers of one drive with the same registers are equal.
pub pack_injective :
    (spt nheads drive l l' : ℕ)
    → IsGeometry spt nheads
    → drive < 256
    → l < 65536
    → l' < 65536
    → pack spt nheads drive l ≡ pack spt nheads drive l'
    → l ≡ l'
unfolding pack
pack_injective spt nheads drive l l' g hd hl hl' e =
    mod_eq_div_eq l l' spt (mod_eq_div_eq (l / spt) (l' / spt) nheads cyl_eq head_eq) sec_eq
  where
    c : l / spt / nheads < 1024
    c = cyl-lt spt nheads l g hl

    c' : l' / spt / nheads < 1024
    c' = cyl-lt spt nheads l' g hl'

    s : l % spt < spt
    s = mod-lt l g.some_sectors

    s' : l' % spt < spt
    s' = mod-lt l' g.some_sectors

    k : (l / spt) % nheads < nheads
    k = mod-lt (l / spt) g.some_heads

    k' : (l' / spt) % nheads < nheads
    k' = mod-lt (l' / spt) g.some_heads

    ecx : (pack spt nheads drive l).cx ≡ (pack spt nheads drive l').cx
    ecx = ap (λ r. r.cx) e

    edx : (pack spt nheads drive l).dx ≡ (pack spt nheads drive l').dx
    edx = ap (λ r. r.dx) e

    head_eq : (l / spt) % nheads ≡ (l' / spt) % nheads
    head_eq = omega (arith, edx, k, k')

    cyl_eq : l / spt / nheads ≡ l' / spt / nheads
    cyl_eq = omega (arith, ecx, c, c', s, s')

    sec_eq : l % spt ≡ l' % spt
    sec_eq = omega (arith, ecx, c, c', s, s')
