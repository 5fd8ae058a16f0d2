-- ===== src/Tests/PosixRuns.antt =====
-- Runs of the C library (lib/posix).
use harvac.Prelude.{◌≡◌, ◌↔◌, refl, arith, Bool, true, some, codes}
use harvac.Posix.Glob.{fnmatch, match_loop, only_stars, back_up, ci_eq}
use harvac.Posix.Glob.Matching.{Matches, fnmatch-Matches}
use harvac.Posix.Text.{strcasecmp}
use harvac.Posix.Number.{atoi, utoa}
use harvac.Posix.Number.Decimal.{atoi-utoa}

fnmatch-Matches_example :
    (b : Bool) × (fnmatch (codes "*.?") (codes "AB.C") ≡ some b)
    × ((b ≡ true) ↔ Matches (codes "*.?") (codes "AB.C"))
fnmatch-Matches_example = fnmatch-Matches (codes "*.?") (codes "AB.C")

fnmatch_run : fnmatch (codes "*.?") (codes "AB.C") ≡ some true
unfolding fnmatch match_loop only_stars back_up ci_eq
fnmatch_run = refl

same_as_console : strcasecmp (codes "CON") (codes "cat") ≡ 0
unfolding strcasecmp
same_as_console = refl

atoi-utoa_at_run : atoi (utoa 32767) ≡ 32767
atoi-utoa_at_run = atoi-utoa 32767 (omega arith)
