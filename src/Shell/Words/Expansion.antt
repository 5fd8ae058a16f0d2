-- ===== src/Shell/Words/Expansion.antt =====
-- What `glob_expand_args` of apps/shell.c makes of the arguments of a command.
use harvac.Prelude.{
  ℕ, zero, suc, ◌+◌, ◌<◌, ◌≡◌, inl, inr, refl, arith, ◌==◌, List, length, Bool-cases,
}
use harvac.Shell.Words.{tok_max, put_token, skip_blanks, read_token, expand}
use harvac.Shell.Words.Tokens.{turn}

-- More fuel than the text has characters changes nothing, so that the loop of the model ends where the
-- loop of the code ends.
pub expand-enough :
    (dir : List (List ℕ)) (fuel extra : ℕ) (p buf : List ℕ)
    → length p < fuel
    → expand dir (fuel + extra) p buf ≡ expand dir fuel p buf
unfolding expand
expand-enough dir zero extra p buf h = absurd (omega arith)
expand-enough dir (suc fuel) extra p buf h =
    let step : suc fuel + extra ≡ suc (fuel + extra) = omega arith in
    let (tok, rest) = read_token tok_max (skip_blanks p) in
    rw step (elim (Bool-cases (length (skip_blanks p) == 0)) [
      | inl t ↦ rw t refl
      | inr f ↦ rw f (
          expand-enough dir fuel extra rest (put_token dir tok buf)
            (let (less, _) = turn p f in omega arith))
    ])
