-- ===== src/Prelude/Words.antt =====
-- Machine words: arithmetic of `uint8_t`, `uint16_t` and `uint32_t`, and arrays of bytes as
-- functions from an index. They model the C types, and no code of their own.
use Prim.Native.Nat.{ℕ, ◌+◌, ◌*◌, ◌/◌, ◌%◌, ◌<◌}
use mathlib.Core.Path.{◌≡◌}
use mathlib.Core.Logic.{◌≢◌}
use native.Mathlib.Omega.{arith}
use harvac.Prelude.Tests.{◌==◌, if◌then◌else◌}

abbrev pub u8 : ℕ → ℕ
u8 x = x % 256

abbrev pub u16 : ℕ → ℕ
u16 x = x % 65536

abbrev pub u32 : ℕ → ℕ
u32 x = x % 4294967296

-- An array of bytes. What stands outside the array is not read.
abbrev pub Bytes : Type 0
Bytes = ℕ → ℕ

-- `f` with `v` at `i`.
abbrev pub update {ℓ} : {A : Type ℓ} → (ℕ → A) → ℕ → A → ℕ → A
update f i v j = if i == j then v else f j

pub update_self {ℓ} : {A : Type ℓ} (f : ℕ → A) (i : ℕ) (v : A) → update f i v i ≡ v
update_self f i v = ground arith

pub update_ne {ℓ} : {A : Type ℓ} (f : ℕ → A) (i j : ℕ) (v : A) → i ≢ j → update f i v j ≡ f j
update_ne f i j v h = ground arith

-- `*(uint16_t *)(b + o)`, little-endian
abbrev pub get_u16 : Bytes → ℕ → ℕ
get_u16 b o = b o + 256 * b (o + 1)

-- `*(uint16_t *)(b + o) = v`
abbrev pub put_u16 : Bytes → ℕ → ℕ → Bytes
put_u16 b o v = update (update b o (v % 256)) (o + 1) (v / 256 % 256)

-- `*(uint32_t *)(b + o)`
abbrev pub get_u32 : Bytes → ℕ → ℕ
get_u32 b o = get_u16 b o + 65536 * get_u16 b (o + 2)

-- `*(uint32_t *)(b + o) = v`
abbrev pub put_u32 : Bytes → ℕ → ℕ → Bytes
put_u32 b o v = put_u16 (put_u16 b o (v % 65536)) (o + 2) (v / 65536)

pub get_u16-put_u16 : (b : Bytes) (o v : ℕ) → v < 65536 → get_u16 (put_u16 b o v) o ≡ v
get_u16-put_u16 b o v h = ground arith

pub get_u16-put_u16_ne :
    (b : Bytes) (o p v : ℕ)
    → o ≢ p
    → o + 1 ≢ p
    → o ≢ p + 1
    → get_u16 (put_u16 b o v) p ≡ get_u16 b p
get_u16-put_u16_ne b o p v h k l = ground arith

pub get_u32-put_u32 : (b : Bytes) (o v : ℕ) → v < 4294967296 → get_u32 (put_u32 b o v) o ≡ v
get_u32-put_u32 b o v h = ground arith
