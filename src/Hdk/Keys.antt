-- ===== src/Hdk/Keys.antt =====
-- The key codes of lib/include/hdk_keys.h, and `kbd_get` of lib/hdk/kbd.c with the answers of the two
-- system calls as arguments.
use harvac.Prelude.{ℕ, ◌+◌, ◌/◌, ◌%◌, Bool, ◌==◌, if◌then◌else◌, u8}

abbrev pub k_special : ℕ → ℕ
k_special scan = 0x100 + scan

abbrev pub k_esc : ℕ
k_esc = k_special 0x01

abbrev pub k_bs : ℕ
k_bs = 0x08

abbrev pub k_tab : ℕ
k_tab = 0x09

abbrev pub k_enter : ℕ
k_enter = 0x0d

-- `flags & 2 ^ i`, for the power `p`
abbrev pub has_flag : (flags p : ℕ) → Bool
has_flag flags p = flags / p % 2 == 1

abbrev pub sh_shift : ℕ
sh_shift = 1

abbrev pub sh_ctrl : ℕ
sh_ctrl = 2

abbrev pub sh_alt : ℕ
sh_alt = 4

-- The key, and `kbd_shift`.
unfoldable pub kbd_get : (read_char get_shift : ℕ) → ℕ × ℕ
kbd_get read_char get_shift =
    let sc = u8 (read_char / 256) in
    let al = u8 read_char in
    let shift : ℕ = if get_shift % 4 == 0 then 0 else sh_shift in
    let ctrl : ℕ = if has_flag get_shift 4 then sh_ctrl else 0 in
    let alt : ℕ = if has_flag get_shift 8 then sh_alt else 0 in
    (if al == 0 then k_special sc else if al == 0x1b then k_esc else al, shift + ctrl + alt)
