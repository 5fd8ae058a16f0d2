-- ===== src/Fat16/Table/Release.antt =====
-- `fat16_free_chain` (src/drivers/fat16.c) frees a chain and nothing else, and ends on every table,
-- also on one whose chains run in a circle.
use native.Mathlib.Nat.{le_refl}
use harvac.Prelude.{
  subst, ℕ, zero, suc, ◌+◌, ◌≤◌, ◌<◌, ◌≡◌, ◌≢◌, refl, sym, ap, ◌⊎◌, inl, inr, arith, some, Bool,
  true, false, ◌&&◌, ◌||◌, List, [], ◌∷◌, Bool-cases, ltb, leb, lt→ltb, le→leb, ◌∙◌, ◌==◌,
  if◌then◌else◌, ==→eq, ==→ne, length,
}
use harvac.Machine.{Machine, ◌>>=◌, ◌>>◌}
use harvac.Drivers.Disk.Transfer.{IsReady, sector}
use harvac.Fat16.Volume.{Fs, fat16_eof_min}
use harvac.Fat16.Table.{fat_sector_lba, fat16_free_chain}
use harvac.Fat16.Table.Entry.{
  entry, put_entry, read_fat_lem, write_fat_lem, put_entry-IsReady, entry-put_entry,
  sector-put_entry, InReach, sec_buf-IsReady,
}

-- The clusters of the chain from `c` in the table `T`.
pub data Chain (T : ℕ → ℕ) : ℕ → List ℕ → Type 0 where
  end_of_chain : {c : ℕ} → (ltb c fat16_eof_min && leb 2 c) ≡ false → Chain T c []
  link : {c : ℕ} {cs : List ℕ} → 2 ≤ c → c < fat16_eof_min → Chain T (T c) cs → Chain T c (c ∷ cs)

unfoldable pub contains : List ℕ → ℕ → Bool
contains [] d = false
contains (c ∷ cs) d = (c == d) || contains cs d

-- A chain from a cluster that a chain contains is no longer than the latter.
Chain-tail :
    {T : ℕ → ℕ} {c : ℕ} {cs : List ℕ} (d : ℕ)
    → Chain T c cs
    → contains cs d ≡ true
    → (ds : List ℕ) × Chain T d ds × (length ds ≤ length cs)
unfolding contains
Chain-tail d (end_of_chain h) e = cc
Chain-tail {T} {c} d (link {cs = cs} p q t) e = elim (Bool-cases (c == d)) [
  | inl same ↦ (c ∷ cs, subst (λ n. Chain T n (c ∷ cs)) (==→eq c d same) (link p q t), le_refl _)
  | inr ne ↦ let (ds, u, l) = Chain-tail d t (rw ne at e) in (ds, u, omega arith)
]

Chain-unique :
    {T : ℕ → ℕ} {c : ℕ} {cs ds : List ℕ} → Chain T c cs → Chain T c ds → length cs ≡ length ds
Chain-unique (end_of_chain h) (end_of_chain h') = refl
Chain-unique (end_of_chain h) (link p q t) = absurd (ground arith)
Chain-unique (link p q t) (end_of_chain h) = absurd (ground arith)
Chain-unique (link p q t) (link p' q' t') = ap suc (Chain-unique t t')

-- No cluster stands twice on a chain.
pub Chain-distinct :
    {T : ℕ → ℕ} {c : ℕ} {cs : List ℕ}
    → Chain T (T c) cs
    → 2 ≤ c
    → c < fat16_eof_min
    → contains cs c ≡ false
Chain-distinct {T} {c} {cs} t p q = elim (Bool-cases (contains cs c)) [
  | inl h ↦ let (ds, u, l) = Chain-tail c t h in absurd (omega (arith, Chain-unique u (link p q t)))
  | inr h ↦ h
]

-- A chain is one of every table that agrees on its clusters.
pub Chain-transfer :
    {T : ℕ → ℕ} (T' : ℕ → ℕ) {c : ℕ} {cs : List ℕ}
    → ((d : ℕ) → contains cs d ≡ true → T' d ≡ T d)
    → Chain T c cs
    → Chain T' c cs
unfolding contains
Chain-transfer T' agree (end_of_chain h) = end_of_chain h
Chain-transfer {T} T' {c} agree (link {cs = cs} p q t) = link p q (
    subst (λ n. Chain T' n cs) (sym (agree c (ground arith)))
      (Chain-transfer T' (λ d h. agree d (ground arith)) t))

-- `m'` differs from `m` in the table alone, and there as the two tables say.
pub record Changed (fs : Fs) (m m' : Machine) (T : ℕ → ℕ) : Type 0 where
  pub ready : IsReady m'
  pub table : (d : ℕ) → d < 65536 → entry fs m' d ≡ T d
  pub elsewhere :
      (lba : ℕ)
      → lba < 65536
      → (lba < fs.partition_lba + fs.reserved_sectors)
        ⊎ (fs.partition_lba + fs.reserved_sectors + 256 ≤ lba)
      → sector m' fs.drive lba ≡ sector m fs.drive lba

-- The table with the clusters of a list free.
unfoldable pub freed : List ℕ → (ℕ → ℕ) → ℕ → ℕ
freed cs T d = if contains cs d then 0 else T d

put_entry-Changed :
    {fs : Fs} {m : Machine} (c value : ℕ)
    → IsReady m
    → InReach fs
    → c < 65536
    → value < 65536
    → Changed fs m (put_entry fs m c value) (λ d. if c == d then value else entry fs m d)
put_entry-Changed {fs} {m} c value k v hc hv = record {
  ready = put_entry-IsReady fs k c value;
  table = λ d h. entry-put_entry fs k v c value d hc hv h;
  elsewhere = λ lba h out. sector-put_entry fs k v c value lba hc h out;
}

-- One round of the loop.
free_round :
    {fs : Fs} {m : Machine} (fuel c : ℕ)
    → IsReady m
    → InReach fs
    → 2 ≤ c
    → c < fat16_eof_min
    → (m' : Machine) × (fat16_free_chain (suc fuel) fs c m
        ≡ fat16_free_chain fuel fs (entry fs m c) m')
      × Changed fs m m' (λ d. if c == d then 0 else entry fs m d)
unfolding fat16_free_chain entry sector
free_round {fs} {m} fuel c k v p q =
    let b = sector m fs.drive (fat_sector_lba fs c) in
    let m1 : Machine = record m { sec_buf = b } in
    let k1 : IsReady m1 = sec_buf-IsReady b k in
    let ch = put_entry-Changed {m = m1} c 0 k1 v (omega arith) (omega arith) in
    (
      put_entry fs m1 c 0,
      rw (lt→ltb _ _ q, le→leb _ _ p, read_fat_lem fs k c, ◌>>=◌, write_fat_lem fs k1 c 0, ◌>>◌)
          refl,
      record { ready = ch.ready; table = ch.table; elsewhere = ch.elsewhere },
    )

Chain-bound :
    {T : ℕ → ℕ} {c : ℕ} {cs : List ℕ} (d : ℕ) → Chain T c cs → contains cs d ≡ true → d < 65536
unfolding contains
Chain-bound d (end_of_chain h) e = cc
Chain-bound {T} {c} d (link p q t) e = ground (arith, Chain-bound d t)

-- What a first change and the freeing of the rest make together.
Changed-link :
    {fs : Fs} {m m1 m2 : Machine} (c : ℕ) (cs : List ℕ)
    → Changed fs m m1 (λ d. if c == d then 0 else entry fs m d)
    → Changed fs m1 m2 (freed cs (entry fs m1))
    → Changed fs m m2 (freed (c ∷ cs) (entry fs m))
unfolding freed contains
Changed-link c cs p q = record {
  ready = q.ready;
  table = λ d h. ground (arith, p.table d h, q.table d h);
  elsewhere = λ lba h out. q.elsewhere lba h out ∙ p.elsewhere lba h out;
}

-- On a disk without faults, with the table in reach of the driver, freeing a chain of clusters
-- returns with fuel for its clusters. Every cluster of the chain is free then, every other entry
-- of the table and every sector outside the table are as before.
pub fat16_free_chain_lem :
    (fuel : ℕ) {fs : Fs} {m : Machine} {c : ℕ} {cs : List ℕ}
    → IsReady m
    → InReach fs
    → Chain (entry fs m) c cs
    → length cs < fuel
    → (m' : Machine) × (fat16_free_chain fuel fs c m ≡ some (tt, m'))
      × Changed fs m m' (freed cs (entry fs m))
unfolding fat16_free_chain freed contains
fat16_free_chain_lem zero k v t h = elim h [ ]
fat16_free_chain_lem (suc fuel) {fs} {m} {c} k v (end_of_chain e) h =
    (m, rw e, record { ready = k; table = λ d _. refl; elsewhere = λ l _ _. refl })
fat16_free_chain_lem (suc fuel) {fs} {m} {c} k v (link {cs = cs} p q t) h =
    let (m1, run, ch) = free_round fuel c k v p q in
    let apart : contains cs c ≡ false = Chain-distinct t p q in
    let agree : (d : ℕ) → contains cs d ≡ true → entry fs m1 d ≡ entry fs m d =
      λ d e. ground (arith, ch.table d (Chain-bound d t e), apart, ==→eq c d) in
    let (m2, rest, ch2) =
      fat16_free_chain_lem fuel {m = m1} {c = entry fs m c} {cs = cs} ch.ready v
        (Chain-transfer (entry fs m1) agree t) (omega arith) in
    (m2, run ∙ rest, Changed-link c cs ch ch2)

-- The clusters below `n` whose entry is not free.
unfoldable pub in_use : (ℕ → ℕ) → ℕ → ℕ
in_use T zero = 0
in_use T (suc n) = if T n == 0 then in_use T n else suc (in_use T n)

in_use-le : (T : ℕ → ℕ) (n : ℕ) → in_use T n ≤ n
unfolding in_use
in_use-le T zero = omega arith
in_use-le T (suc n) = ground (arith, in_use-le T n)

in_use_mono :
    (T T' : ℕ → ℕ) (c n : ℕ)
    → ((d : ℕ) → d < n → T' d ≡ (if c == d then 0 else T d))
    → in_use T' n ≤ in_use T n
unfolding in_use
in_use_mono T T' c zero h = omega arith
in_use_mono T T' c (suc n) h =
    ground (arith, h n (le_refl _), in_use_mono T T' c n (λ d p. h d (omega arith)))

-- Freeing a cluster in use leaves fewer of them.
in_use-lt :
    (T T' : ℕ → ℕ) (c n : ℕ)
    → ((d : ℕ) → d < n → T' d ≡ (if c == d then 0 else T d))
    → c < n
    → T c ≢ 0
    → in_use T' n < in_use T n
unfolding in_use
in_use-lt T T' c zero h l ne = elim l [ ]
in_use-lt T T' c (suc n) h l ne = ground (
  arith,
  h n (le_refl _),
  in_use_mono T T' c n (λ d p. h d (omega arith)),
  in_use-lt T T' c n (λ d p. h d (omega arith)),
)

free_stop :
    (fuel : ℕ) (fs : Fs) (c : ℕ) (m : Machine)
    → (ltb c fat16_eof_min && leb 2 c) ≡ false
    → 0 < fuel
    → fat16_free_chain fuel fs c m ≡ some (tt, m)
unfolding fat16_free_chain
free_stop zero fs c m out h = elim h [ ]
free_stop (suc fuel) fs c m out h = rw out

and-lt : (c : ℕ) → (ltb c fat16_eof_min && leb 2 c) ≡ true → (2 ≤ c) × (c < fat16_eof_min)
and-lt c h = ground arith

free_chain_within :
    (fuel : ℕ) {fs : Fs} {m : Machine} (c : ℕ)
    → IsReady m
    → InReach fs
    → in_use (entry fs m) 65536 + 1 < fuel
    → (m' : Machine) × (fat16_free_chain fuel fs c m ≡ some (tt, m'))
free_chain_within zero c k v h = elim h [ ]
free_chain_within (suc fuel) {fs} {m} c k v h = elim (Bool-cases (ltb c fat16_eof_min && leb 2 c)) [
  | inr out ↦ (m, free_stop (suc fuel) fs c m out (omega arith))
  | inl inside ↦
      let (p, q) = and-lt c inside in
      let (m1, run, ch) = free_round fuel c k v p q in
      elim (Bool-cases (entry fs m c == 0)) [
        | inl free ↦
            (m1, run ∙ free_stop fuel fs (entry fs m c) m1 (rw (==→eq _ _ free)) (omega arith))
        | inr used ↦
            let fewer =
              in_use-lt (entry fs m) (entry fs m1) c 65536 ch.table (omega arith)
                (==→ne _ _ used) in
            let (m2, rest) =
              free_chain_within fuel {m = m1} (entry fs m c) ch.ready v (omega (arith, fewer)) in
            (m2, run ∙ rest)
      ]
]

-- On a disk without faults, with the table in reach of the driver, freeing from any cluster
-- returns on every table, a circular one included, with fuel above 65537.
pub fat16_free_chain_ends :
    (fuel : ℕ) {fs : Fs} {m : Machine} (c : ℕ)
    → IsReady m
    → InReach fs
    → 65537 < fuel
    → (m' : Machine) × (fat16_free_chain fuel fs c m ≡ some (tt, m'))
fat16_free_chain_ends fuel {fs} {m} c k v h =
    free_chain_within fuel c k v (omega (arith, in_use-le (entry fs m) 65536))
