-- ===== src/Tests/EditorRuns.antt =====
-- Runs of the editor's buffer, lines and search (apps/medit).
use harvac.Prelude.{
  ℕ, ◌+◌, ◌-◌, ◌≤◌, ◌<◌, ◌≡◌, ◌≢◌, refl, arith, ltb, ◌==◌, if◌then◌else◌, Bytes, none, some, [],
  ◌∷◌, List, min, length,
}
use harvac.Editor.Far.{far_move, far_move_lem, placed}
use harvac.Editor.Gap.{Gap, gb_len, gb_at, gb_insert, gb_del}
use harvac.Editor.Gap.Text.{IsGap, gb_insert_lem, gb_del_lem}
use harvac.Editor.Lines.{
  doc_line_home, doc_line_end, doc_line_home_lem, doc_line_end_lem, lf, IsBreak,
}
use harvac.Editor.Find.{
  up_no, match_here, search_loop, search_next, search_next-first, StandsAt, notf,
}

-- The text "a", line feed, "abaa" with a gap of ten bytes behind the line feed.
abbrev letters : Bytes
letters i = if i == 1 then 10 else if i == 13 then b'b' else b'a'

abbrev six_bytes : Gap
six_bytes = record { buf = letters; cap = 16; gs = 2; ge = 12 }

six-IsGap : IsGap six_bytes
six-IsGap = record { gap = omega arith; room = omega arith; small = omega arith }

abbrev ab : List ℕ
ab = b'A' ∷ b'B' ∷ []

found_behind_line : search_next six_bytes ab 0 ≡ 2
unfolding search_next gb_len search_loop match_here up_no gb_at
found_behind_line = refl

second_line : doc_line_home six_bytes 5 ≡ 2
unfolding doc_line_home gb_at
second_line = refl

far_move_lem_at_run : far_move letters 3 1 4 5 ≡ placed letters letters 3 1 4 5
far_move_lem_at_run = far_move_lem letters 3 1 4 5

gb_insert_lem_example :
    (◌≡◌ {A = ℕ} 2 12 → gb_insert six_bytes 4 b'x' ≡ none)
    × (2 < 12
        → (g' : Gap) × (gb_insert six_bytes 4 b'x' ≡ some g')
          × IsGap g'
          × (gb_len g' ≡ gb_len six_bytes + 1)
          × ((p : ℕ)
              → p < gb_len g'
              → gb_at g' p ≡ (
                  if ltb p 4
                  then gb_at six_bytes p
                  else if p == 4
                  then b'x'
                  else gb_at six_bytes (p - 1))))
unfolding gb_len
gb_insert_lem_example = gb_insert_lem 4 b'x' six-IsGap (omega arith)

gb_del_lem_example :
    (gb_len six_bytes ≤ 1 → gb_del six_bytes 1 2 ≡ six_bytes)
    × (1 < gb_len six_bytes
        → let k = min 2 (gb_len six_bytes - 1) in
          IsGap (gb_del six_bytes 1 2)
          × (gb_len (gb_del six_bytes 1 2) + k ≡ gb_len six_bytes)
          × ((p : ℕ)
              → p < gb_len (gb_del six_bytes 1 2)
              → gb_at (gb_del six_bytes 1 2) p
                ≡ (if ltb p 1 then gb_at six_bytes p else gb_at six_bytes (p + k))))
gb_del_lem_example = gb_del_lem 1 2 six-IsGap

doc_line_home_lem_at_run :
    (doc_line_home six_bytes 5 ≤ 5)
    × ((doc_line_home six_bytes 5 ≢ 0) → gb_at six_bytes (doc_line_home six_bytes 5 - 1) ≡ lf)
    × ((p : ℕ) → doc_line_home six_bytes 5 ≤ p → p < 5 → gb_at six_bytes p ≢ lf)
doc_line_home_lem_at_run = doc_line_home_lem six_bytes 5

doc_line_end_lem_at_run :
    (0 ≤ doc_line_end six_bytes 0)
    × (doc_line_end six_bytes 0 ≤ gb_len six_bytes)
    × (doc_line_end six_bytes 0 < gb_len six_bytes
        → IsBreak (gb_at six_bytes (doc_line_end six_bytes 0)))
    × ((p : ℕ) → 0 ≤ p → p < doc_line_end six_bytes 0 → ¬ IsBreak (gb_at six_bytes p))
doc_line_end_lem_at_run = doc_line_end_lem six_bytes 0 (omega arith)

search_next-first_example :
    ((search_next six_bytes ab 1 ≢ notf)
      → (1 ≤ search_next six_bytes ab 1)
        × (search_next six_bytes ab 1 + length ab ≤ gb_len six_bytes)
        × StandsAt six_bytes ab (search_next six_bytes ab 1))
    × ((p : ℕ)
        → 1 ≤ p
        → p + length ab ≤ gb_len six_bytes
        → p < search_next six_bytes ab 1
        → ¬ StandsAt six_bytes ab p)
unfolding gb_len
search_next-first_example =
    search_next-first six_bytes ab 1 (λ e. absurd (cc e)) (omega arith) (omega arith)
