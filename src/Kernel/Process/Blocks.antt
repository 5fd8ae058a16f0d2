-- ===== src/Kernel/Process/Blocks.antt =====
-- The blocks that processes have (src/kernel/syscalls.c) lie one above the other in the memory.
use harvac.Prelude.{
  ℕ, ◌+◌, ◌≤◌, ◌<◌, ◌≡◌, ◌≢◌, refl, sym, ap, ◌∙◌, arith, Bool, true, false, if◌then◌else◌, List, [],
  ◌∷◌, length, u16, ◌⊎◌, Bool-cases, inl, inr,
}
use harvac.Errors.{err_no_memory}
use harvac.Kernel.Process.{
  alloc_refused, child_refused, proc_paras, pctx_max, Processes, sys_alloc, place_child,
  exec_save_parent_ctx, return_to_parent,
}

-- A block, and whether it is the one of a program.
pub record Block : Type 0 where
  pub start : ℕ
  pub size : ℕ
  pub program : Bool

-- The blocks that are left when the last program ends.
unfoldable pub without_last : List Block → List Block
without_last [] = []
without_last (b ∷ blocks) = let rest = without_last blocks in if b.program then blocks else rest

-- Where the programs start.
unfoldable pub programs : List Block → List ℕ
programs [] = []
programs (b ∷ blocks) = let rest = programs blocks in if b.program then b.start ∷ rest else rest

-- The calls of the running process, on a machine with `ram` paragraphs. When the shell ends it is loaded
-- again, and nothing has a block.
pub data Step (ram : ℕ) : Processes × List Block → Processes × List Block → Type 0 where
  allocates :
      {p q : Processes} {blocks : List Block} {seg : ℕ} (n : ℕ)
      → sys_alloc ram n p ≡ (seg, q)
      → seg ≢ 0
      → Step ram (p, blocks) (q, record { start = seg; size = n; program = false } ∷ blocks)
  refuses :
      {p q : Processes} {blocks : List Block} (n : ℕ)
      → sys_alloc ram n p ≡ (0, q)
      → Step ram (p, blocks) (q, blocks)
  executes :
      {p q : Processes} {blocks : List Block}
      → place_child ram p ≡ (0, q)
      → Step ram
          (p, blocks)
          (q, record { start = p.next_seg; size = proc_paras; program = true } ∷ blocks)
  rejects :
      {p q : Processes} {blocks : List Block}
      → place_child ram p ≡ (err_no_memory, q)
      → Step ram (p, blocks) (q, blocks)
  exits :
      {p : Processes} {blocks : List Block}
      → p.pctx ≢ []
      → Step ram (p, blocks) (return_to_parent p, without_last blocks)
  reloads :
      {p : Processes} {blocks : List Block}
      → p.pctx ≡ []
      → Step ram (p, blocks) (return_to_parent p, [])

pub data Reach (ram : ℕ) (s : Processes × List Block) : Processes × List Block → Type 0 where
  here : Reach ram s s
  next : {t u : Processes × List Block} → Reach ram s t → Step ram t u → Reach ram s u

-- At every state of a run at most `n` programs have a block.
unfoldable pub AtMost : {ram : ℕ} {s t : Processes × List Block} → ℕ → Reach ram s t → Type 0
AtMost n here = Unit {0}
AtMost n (next {t} {u} r step) = AtMost n r × (length (programs (u.1)) ≤ n)

-- Each block ends below the one before it in the list, and the first below `top`.
abbrev pub Stacked : List Block → (top : ℕ) → Type 0
Stacked [] top = Unit {0}
Stacked (b ∷ blocks) top = (b.start + b.size ≤ top) × Stacked blocks b.start

pub record IsSafe (ram : ℕ) (p : Processes) (blocks : List Block) : Type 0 where
  pub stacked : Stacked blocks p.next_seg
  pub in_ram : p.next_seg ≤ ram
  pub contexts : p.pctx ≡ programs blocks

Stacked-up :
    (blocks : List Block) (low high : ℕ) → low ≤ high → Stacked blocks low → Stacked blocks high
Stacked-up [] low high h s = tt
Stacked-up (b ∷ blocks) low high h (e, s) = (omega arith, s)

without_last-Stacked :
    (blocks : List Block) (top c : ℕ) (rest : List ℕ)
    → programs blocks ≡ c ∷ rest
    → Stacked blocks top
    → Stacked (without_last blocks) c × (c ≤ top) × (programs (without_last blocks) ≡ rest)
unfolding without_last programs
without_last-Stacked [] top c rest h s = absurd (cc h)
without_last-Stacked (b ∷ blocks) top c rest h (e, s) = elim (Bool-cases b.program) [
  | inl t ↦
      let k : b.start ∷ programs blocks ≡ c ∷ rest = rw t at h in
      let first : b.start ≡ c = cc k in
      let others : programs blocks ≡ rest = cc k in
      rw t (rw first at s, omega (arith, first, e), others)
  | inr f ↦
      let (x, y, z) = without_last-Stacked blocks b.start c rest (rw f at h) s in
      rw f (x, omega (arith, y, e), z)
]

abbrev pub pair_first : {A B : Type 0} → A × B → A
pair_first x = x.0

abbrev pub pair_second : {A B : Type 0} → A × B → B
pair_second x = x.1

sys_alloc_ok :
    (ram n seg : ℕ) (p q : Processes)
    → ram < 65536
    → 0 < ram
    → p.next_seg ≤ ram
    → sys_alloc ram n p ≡ (seg, q)
    → ((seg ≡ 0) × (q ≡ p))
      ⊎ ((seg ≡ p.next_seg)
          × (p.next_seg + n ≤ ram)
          × (q ≡ record { next_seg = p.next_seg + n; pctx = p.pctx }))
unfolding sys_alloc
sys_alloc_ok ram n seg p q h nz l e = elim (Bool-cases (alloc_refused ram n p.next_seg)) [
  | inl t ↦
      let k : (0, p) ≡ (seg, q) = rw t at e in inl (sym (ap pair_first k), sym (ap pair_second k))
  | inr f ↦
      let k : (p.next_seg, record { next_seg = u16 (p.next_seg + n); pctx = p.pctx }) ≡ (seg, q) =
        rw f at e in
      let room : p.next_seg + n ≤ ram = ground arith in
      let whole : u16 (p.next_seg + n) ≡ p.next_seg + n = omega arith in
      inr (sym (ap pair_first k), room, sym (rw whole at (ap pair_second k)))
]

place_child_ok :
    (ram status : ℕ) (p q : Processes)
    → ram < 65536
    → proc_paras ≤ ram
    → p.next_seg ≤ ram
    → place_child ram p ≡ (status, q)
    → ((status ≡ err_no_memory) × (q ≡ p))
      ⊎ ((status ≡ 0)
          × (p.next_seg + proc_paras ≤ ram)
          × (q ≡ record {
            next_seg = p.next_seg + proc_paras;
            pctx = exec_save_parent_ctx p.next_seg p.pctx;
          }))
unfolding place_child
place_child_ok ram status p q h nz l e = elim (Bool-cases (child_refused ram p.next_seg)) [
  | inl t ↦
      let k : (err_no_memory, p) ≡ (status, q) = rw t at e in
      inl (sym (ap pair_first k), sym (ap pair_second k))
  | inr f ↦
      let k : (
        0,
        record {
          next_seg = u16 (p.next_seg + proc_paras);
          pctx = exec_save_parent_ctx p.next_seg p.pctx;
        },
      )
          ≡ (status, q) =
        rw f at e in
      let room : p.next_seg + proc_paras ≤ ram = ground arith in
      let whole : u16 (p.next_seg + proc_paras) ≡ p.next_seg + proc_paras = omega arith in
      inr (sym (ap pair_first k), room, sym (rw whole at (ap pair_second k)))
]

pub return_to_parent-some :
    (p : Processes) (c : ℕ) (rest : List ℕ)
    → p.pctx ≡ c ∷ rest
    → return_to_parent p ≡ record { next_seg = c; pctx = rest }
unfolding return_to_parent
return_to_parent-some p c rest e = rw e refl

exits-IsSafe :
    {ram : ℕ} (p : Processes) (blocks : List Block) (pctx : List ℕ)
    → p.pctx ≡ pctx
    → pctx ≢ []
    → IsSafe ram p blocks
    → IsSafe ram (return_to_parent p) (without_last blocks)
exits-IsSafe p blocks [] e ne v = absurd (ne refl)
exits-IsSafe p blocks (c ∷ rest) e ne v =
    let (stacked, below, others) =
      without_last-Stacked blocks p.next_seg c rest (sym v.contexts ∙ e) v.stacked in
    rw (return_to_parent-some p c rest e)
      (record { stacked = stacked; in_ram = omega (arith, below, v.in_ram); contexts = sym others })

Step-IsSafe :
    {ram : ℕ} {s t : Processes × List Block}
    → ram < 65536
    → 0x3000 + proc_paras ≤ ram
    → length (programs (t.1)) ≤ pctx_max
    → Step ram s t
    → IsSafe ram (s.0) (s.1)
    → IsSafe ram (t.0) (t.1)
unfolding return_to_parent programs exec_save_parent_ctx
Step-IsSafe h l few (allocates {p} {q} {blocks} {seg} n e ne) v =
    elim (sys_alloc_ok _ n seg p q h (omega arith) v.in_ram e) [
      | inl (a, b) ↦ absurd (ne a)
      | inr (a, room, b) ↦
          rw (a, b)
            (record { stacked = (omega arith, v.stacked); in_ram = room; contexts = v.contexts })
    ]
Step-IsSafe h l few (refuses {p} {q} {blocks} n e) v =
    elim (sys_alloc_ok _ n 0 p q h (omega arith) v.in_ram e) [
      | inl (a, b) ↦ rw b v
      | inr (a, room, b) ↦ rw b (record {
        stacked = Stacked-up blocks p.next_seg (p.next_seg + n) (omega arith) v.stacked;
        in_ram = room;
        contexts = v.contexts;
      })
    ]
Step-IsSafe h l few (executes {p} {q} {blocks} e) v =
    elim (place_child_ok _ 0 p q h (omega arith) v.in_ram e) [
      | inl (a, b) ↦ absurd (omega (arith, a))
      | inr (a, room, b) ↦
          let same : length p.pctx ≡ length (programs blocks) = ap length v.contexts in
          let kept : exec_save_parent_ctx p.next_seg p.pctx ≡ p.next_seg ∷ p.pctx = ground arith in
          rw (b, kept)
            (record {
              stacked = (omega arith, v.stacked);
              in_ram = room;
              contexts = ap (λ (l : List ℕ). p.next_seg ∷ l) v.contexts;
            })
    ]
Step-IsSafe h l few (rejects {p} {q} e) v =
    elim (place_child_ok _ err_no_memory p q h (omega arith) v.in_ram e) [
      | inl (a, b) ↦ rw b v
      | inr (a, room, b) ↦ absurd (omega (arith, a))
    ]
Step-IsSafe h l few (exits {p} {blocks} ne) v = exits-IsSafe p blocks p.pctx refl ne v
Step-IsSafe h l few (reloads {p} {blocks} none_left) v =
    rw (none_left, return_to_parent) (record { stacked = tt; in_ram = l; contexts = refl })

reached :
    {ram start : ℕ} {s : Processes × List Block}
    → ram < 65536
    → 0x3000 + proc_paras ≤ ram
    → start ≤ ram
    → (r : Reach ram (record { next_seg = start; pctx = [] }, []) s) → AtMost pctx_max r
    → IsSafe ram (s.0) (s.1)
unfolding programs AtMost
reached h l k here few = record { stacked = tt; in_ram = k; contexts = refl }
reached h l k (next r step) (few, last) = Step-IsSafe h l last step (reached h l k r few)

-- From a machine without blocks, with fewer than 65536 paragraphs of memory and room for the shell at
-- its place, in a run of requests for memory, starts and ends of programs, granted or refused, in which
-- at most eight programs have a block at any time, as many as the stack of contexts has room for: the
-- blocks of the processes lie in the memory, one above the other, so that no two overlap, and the saved
-- contexts are those of the programs in them.
pub Reach-IsSafe :
    {ram start : ℕ} {p : Processes} {blocks : List Block}
    → ram < 65536
    → 0x3000 + proc_paras ≤ ram
    → start ≤ ram
    → (r : Reach ram (record { next_seg = start; pctx = [] }, []) (p, blocks)) → AtMost pctx_max r
    → IsSafe ram p blocks
Reach-IsSafe h l k r few = reached h l k r few
