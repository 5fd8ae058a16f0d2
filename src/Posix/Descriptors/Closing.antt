-- ===== src/Posix/Descriptors/Closing.antt =====
-- `close` of the C library (lib/posix/unistd.c) on linked descriptors.
use harvac.Prelude.{
  ℕ, ◌<◌, ◌≡◌, ◌≢◌, ◌∙◌, inl, inr, refl, sym, arith, true, false, ltb, leb, lt→ltb, ◌==◌, ==→ne,
  ne→==, ==_refl, if◌then◌else◌, some, Bool-cases,
}
use harvac.Machine.{Machine}
use harvac.Kernel.System.{Kernel}
use harvac.Posix.Descriptors.{
  FdKind, free, console, file, device, Libc, libc_max_fds, fd_free, libc_close,
}
use harvac.Posix.Descriptors.Linked.{
  Linked, is_kernel_kind, closed, sys_close-open, closed-Linked, bind-some,
}
use harvac.Kernel.Files.{sys_close}

abbrev pub freed : (fd : ℕ) → Libc → Libc
freed fd l = record l { fd_table = fd_free fd l.fd_table }

-- The descriptors without one.
freed_is :
    (fd : ℕ) (l : Libc) (i : ℕ)
    → fd < libc_max_fds
    → (freed fd l).fd_table i
      ≡ (if fd == i then record (l.fd_table fd) { kind = free } else l.fd_table i)
unfolding fd_free
freed_is fd l i h =
    let t : ltb fd libc_max_fds ≡ true = lt→ltb fd libc_max_fds h in rw t (ground arith)

-- Another descriptor that is left, and stands for a handle.
module _ (fd : ℕ) (l : Libc) (i : ℕ) (h : fd < libc_max_fds)
    (kind : is_kernel_kind ((freed fd l).fd_table i).kind ≡ true) where
  left-ne : fd ≢ i
  left-ne p = elim (Bool-cases (fd == i)) [
    | inl t ↦ cc (rw (freed_is fd l i h, t) at kind)
    | inr f ↦ ==→ne fd i f p
  ]

  left-same : (freed fd l).fd_table i ≡ l.fd_table i
  left-same = freed_is fd l i h ∙ rw (ne→== fd i left-ne) refl

  left-kind : is_kernel_kind (l.fd_table i).kind ≡ true
  left-kind = rw left-same at kind

-- The kernel's state after a descriptor was closed.
abbrev pub after_close : Libc → (fd : ℕ) → Kernel → Kernel
after_close l fd k =
    if is_kernel_kind (l.fd_table fd).kind then closed (l.fd_table fd).khandle k else k

freed-Linked :
    (fd : ℕ) (l : Libc) (k : Kernel) → fd < libc_max_fds → Linked l k → Linked (freed fd l) k
freed-Linked fd l k h v = record {
  in_use = λ i kind. rw (left-same fd l i h kind) (v.in_use i (left-kind fd l i h kind));
  distinct = λ i j ne kind kind'.
      rw (left-same fd l i h kind, left-same fd l j h kind')
        (v.distinct i j ne (left-kind fd l i h kind) (left-kind fd l j h kind'));
}

-- A descriptor in use, where the descriptors are linked with the kernel's open files: `close` returns 0
-- and frees it, the entry of its handle, if it stands for one, is no longer in use in the kernel, and
-- the other descriptors stay linked.
pub libc_close-Linked :
    (fd : ℕ) (l : Libc) (k : Kernel) (m : Machine)
    → fd < libc_max_fds
    → (l.fd_table fd).kind ≢ free
    → Linked l k
    → (libc_close fd l k m ≡ some (((some 0, freed fd l), after_close l fd k), m))
      × (((freed fd l).fd_table fd).kind ≡ free)
      × (is_kernel_kind (l.fd_table fd).kind ≡ true
          → ((after_close l fd k).open_files (l.fd_table fd).khandle).used ≡ false)
      × Linked (freed fd l) (after_close l fd k)
unfolding libc_close
libc_close-Linked fd l k m h ne v = (
  run (l.fd_table fd).kind refl,
  rw (freed_is fd l fd h, ==_refl fd) refl,
  λ kind. rw kind (rw (==_refl (l.fd_table fd).khandle) refl),
  linked,
)
  where
    linked : Linked (freed fd l) (after_close l fd k)
    linked = elim (Bool-cases (is_kernel_kind (l.fd_table fd).kind)) [
      | inl t ↦ rw t (
          closed-Linked (freed fd l) k _ (freed-Linked fd l k h v) (λ i kind.
            rw (left-same fd l i h kind)
              (v.distinct i fd (λ p. left-ne fd l i h kind (sym p)) (left-kind fd l i h kind) t)))
      | inr f ↦ rw f (freed-Linked fd l k h v)
    ]

    low : leb libc_max_fds fd ≡ false
    low = ground arith

    run :
        (d : FdKind)
        → (l.fd_table fd).kind ≡ d
        → libc_close fd l k m ≡ some (((some 0, freed fd l), after_close l fd k), m)
    run free p = absurd (ne p)
    run console p = rw (low, p) refl
    run file p =
        let t : is_kernel_kind (l.fd_table fd).kind ≡ true = rw p refl in
        let (a, b) = v.in_use fd t in
        rw (low, p)
          (bind-some (sys_close (l.fd_table fd).khandle) _ k _ m m 0 (sys_close-open _ k m a b))
    run device p =
        let t : is_kernel_kind (l.fd_table fd).kind ≡ true = rw p refl in
        let (a, b) = v.in_use fd t in
        rw (low, p)
          (bind-some (sys_close (l.fd_table fd).khandle) _ k _ m m 0 (sys_close-open _ k m a b))
