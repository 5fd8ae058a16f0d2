-- ===== src/Kernel/Process/Nesting.antt =====
-- Programs that start programs (src/kernel/syscalls.c, src/kernel/syscall.asm): what a program's end
-- gives back.
use Prim.Native.Nat.{max}
use harvac.Prelude.{
  ℕ, suc, ◌+◌, ◌≤◌, ◌<◌, ◌≡◌, ◌∙◌, refl, sym, ap, arith, true, false, leb, List, ◌∷◌, length, u16,
  Bool-cases, inl, inr,
}
use harvac.Errors.{err_no_memory}
use harvac.Kernel.Process.{
  alloc_refused, child_refused, proc_paras, pctx_max, Processes, sys_alloc, place_child,
  exec_save_parent_ctx, return_to_parent,
}
use harvac.Kernel.Process.Blocks.{pair_second, pair_first, return_to_parent-some}

-- What a program can do before it ends: ask for memory, and run programs that end.
pub data Session (ram : ℕ) : (before after : Processes) → Type 0 where
  idle : {p : Processes} → Session ram p p
  asks :
      {p q r : Processes} {seg : ℕ} (n : ℕ)
      → Session ram p q
      → sys_alloc ram n q ≡ (seg, r)
      → Session ram p r
  runs :
      {p q c d : Processes}
      → Session ram p q
      → place_child ram q ≡ (0, c)
      → Session ram c d
      → Session ram p (return_to_parent d)

-- How many programs run above the first one at most.
unfoldable pub depth : {ram : ℕ} {p q : Processes} → Session ram p q → ℕ
depth idle = 0
depth (asks n s e) = depth s
depth (runs s e t) = max (depth s) (1 + depth t)

sys_alloc_pctx : (ram n seg : ℕ) (q r : Processes) → sys_alloc ram n q ≡ (seg, r) → r.pctx ≡ q.pctx
unfolding sys_alloc
sys_alloc_pctx ram n seg q r e = elim (Bool-cases (alloc_refused ram n q.next_seg)) [
  | inl t ↦
      let k : (0, q) ≡ (seg, r) = rw t at e in
      ap (λ (x : Processes). x.pctx) (sym (ap pair_second k))
  | inr f ↦
      let k : (q.next_seg, record { next_seg = u16 (q.next_seg + n); pctx = q.pctx }) ≡ (seg, r) =
        rw f at e in
      ap (λ (x : Processes). x.pctx) (sym (ap pair_second k))
]

place_child_pctx :
    (ram : ℕ) (q c : Processes)
    → place_child ram q ≡ (0, c)
    → c.pctx ≡ exec_save_parent_ctx q.next_seg q.pctx
unfolding place_child
place_child_pctx ram q c e = elim (Bool-cases (child_refused ram q.next_seg)) [
  | inl t ↦
      let k : (err_no_memory, q) ≡ (0, c) = rw t at e in absurd (omega (arith, ap pair_first k))
  | inr f ↦
      let k : (
        0,
        record {
          next_seg = u16 (q.next_seg + proc_paras);
          pctx = exec_save_parent_ctx q.next_seg q.pctx;
        },
      )
          ≡ (0, c) =
        rw f at e in
      ap (λ (x : Processes). x.pctx) (sym (ap pair_second k))
]

saved :
    (ram : ℕ) (q c d : Processes)
    → length q.pctx < pctx_max
    → place_child ram q ≡ (0, c)
    → d.pctx ≡ c.pctx
    → return_to_parent d ≡ q
unfolding exec_save_parent_ctx
saved ram q c d h e k =
    let room : leb pctx_max (length q.pctx) ≡ false = ground arith in
    return_to_parent-some d q.next_seg q.pctx (k ∙ place_child_pctx ram q c e ∙ rw room refl)

Session-pctx :
    {ram : ℕ} {p q : Processes}
    → (s : Session ram p q) → length p.pctx + depth s ≤ pctx_max
    → q.pctx ≡ p.pctx
unfolding depth exec_save_parent_ctx
Session-pctx idle h = refl
Session-pctx (asks {p} {q} {r} {seg} n s e) h = sys_alloc_pctx _ n seg q r e ∙ Session-pctx s h
Session-pctx (runs {p} {q} {c} {d} s e t) h =
    let before = Session-pctx s (omega arith) in
    let same : length q.pctx ≡ length p.pctx = ap length before in
    let room : length q.pctx < pctx_max = omega arith in
    let kept : exec_save_parent_ctx q.next_seg q.pctx ≡ q.next_seg ∷ q.pctx = ground arith in
    let pushed : c.pctx ≡ q.next_seg ∷ q.pctx = place_child_pctx _ q c e ∙ kept in
    let grown : length c.pctx ≡ suc (length q.pctx) = ap length pushed in
    let inner : length c.pctx + depth t ≤ pctx_max = omega arith in
    ap (λ (x : Processes). x.pctx) (saved _ q c d room e (Session-pctx t inner)) ∙ before

-- A program that is started, and that ends after any requests for memory and any programs that it runs
-- to their end, which run others in turn, gives back the memory and leaves the stack of contexts as they
-- were before it started, if the contexts of all these programs fit on the stack: those saved before it
-- starts, its own and those of the programs nested above it are eight at most.
pub return_to_parent-restores :
    {ram : ℕ} {p c d : Processes}
    → (s : Session ram c d) → length p.pctx + 1 + depth s ≤ pctx_max
    → place_child ram p ≡ (0, c)
    → return_to_parent d ≡ p
unfolding exec_save_parent_ctx
return_to_parent-restores {ram} {p} {c} {d} s h e =
    let kept : exec_save_parent_ctx p.next_seg p.pctx ≡ p.next_seg ∷ p.pctx = ground arith in
    let grown : length c.pctx ≡ suc (length p.pctx) =
      ap length (place_child_pctx ram p c e ∙ kept) in
    saved ram p c d (omega arith) e (Session-pctx s (omega arith))

-- A program that is started on a full stack and runs no other is not recorded: at its end the context of
-- its parent's own start is taken, and the parent's memory is free.
pub return_to_parent-full :
    {ram : ℕ} (p : Processes) {c d : Processes} {top : ℕ} {rest : List ℕ}
    → p.pctx ≡ top ∷ rest
    → pctx_max ≤ length p.pctx
    → place_child ram p ≡ (0, c)
    → (s : Session ram c d) → length c.pctx + depth s ≤ pctx_max
    → return_to_parent d ≡ record { next_seg = top; pctx = rest }
unfolding exec_save_parent_ctx
return_to_parent-full {ram} p {c} {d} {top} {rest} k h e s few =
    let full : leb pctx_max (length p.pctx) ≡ true = ground arith in
    return_to_parent-some d top rest (Session-pctx s few ∙ place_child_pctx ram p c e ∙ rw full k)
