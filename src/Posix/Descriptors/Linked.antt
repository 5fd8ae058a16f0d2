-- ===== src/Posix/Descriptors/Linked.antt =====
-- The descriptors of the C library (lib/posix) and the kernel's open files (src/kernel/syscalls.c).
use harvac.Prelude.{
  ℕ, ◌<◌, ◌≡◌, ◌≢◌, ◌∙◌, inl, inr, refl, sym, ap, arith, Bool, true, false, ltb, leb, lt→ltb, ◌==◌,
  ==→eq, ==→ne, ne→==, if◌then◌else◌, Option, none, some, Option-cases, Bool-cases, u8,
}
use harvac.Machine.{Machine}
use harvac.Kernel.System.{OpenFile, max_open_files, Kernel, K, ◌>>=◌, return, user_string}
use harvac.Kernel.Files.{sys_close, is_device_path, set_entry}
use harvac.Kernel.Files.Slots.{
  Change, Takes, Outcome, SameKind, Opened, sys_open-Takes, sys_create-Takes,
}
use harvac.Posix.Descriptors.{
  FdKind, free, console, file, device, LibcFd, Libc, fd_alloc, put_fd, fails, open_console,
  open_handle, kernel_handle, open_kernel, libc_open, detect_device, has_flag, o_creat, o_wronly,
}

-- Whether a descriptor stands for a handle of the kernel.
abbrev pub is_kernel_kind : FdKind → Bool
is_kernel_kind free = false
is_kernel_kind console = false
is_kernel_kind file = true
is_kernel_kind device = true

-- The handles of the descriptors are below 16 and in use in the kernel, and no two share one.
pub record Linked (l : Libc) (k : Kernel) : Type 0 where
  pub in_use :
      (fd : ℕ)
      → is_kernel_kind (l.fd_table fd).kind ≡ true
      → ((l.fd_table fd).khandle < 16) × ((k.open_files (l.fd_table fd).khandle).used ≡ true)
  pub distinct :
      (fd other : ℕ)
      → fd ≢ other
      → is_kernel_kind (l.fd_table fd).kind ≡ true
      → is_kernel_kind (l.fd_table other).kind ≡ true
      → (l.fd_table fd).khandle ≢ (l.fd_table other).khandle

-- The entries in use stay in use.
abbrev Grows : Kernel → Kernel → Type 0
Grows k k' = (j : ℕ) → (k.open_files j).used ≡ true → (k'.open_files j).used ≡ true

Linked-Grows : (l : Libc) (k k' : Kernel) → Grows k k' → Linked l k → Linked l k'
Linked-Grows l k k' g v = record {
  in_use = λ fd h. let (a, b) = v.in_use fd h in (a, g _ b);
  distinct = v.distinct;
}

Takes-Grows : (r : Change) (k k' : Kernel) (h : ℕ) → Takes r k h k' → Grows k k'
Takes-Grows r k k' h (low, unused, used, changed, others) j u = elim (Bool-cases (j == h)) [
  | inl t ↦ rw (==→eq j h t) used
  | inr f ↦ ap (λ (x : OpenFile). x.used) (others j (==→ne j h f)) ∙ u
]

-- A new entry whose handle, if it stands for one, is in use and no other descriptor's.
put_fd-Linked :
    (l : Libc) (k : Kernel) (fd : ℕ) (e : LibcFd)
    → Linked l k
    → (is_kernel_kind e.kind ≡ true
        → (e.khandle < 16)
          × ((k.open_files e.khandle).used ≡ true)
          × ((i : ℕ)
              → is_kernel_kind (l.fd_table i).kind ≡ true
              → (l.fd_table i).khandle ≢ e.khandle))
    → Linked (put_fd fd e l) k
put_fd-Linked l k fd e v fresh = record {
  in_use = λ i h. elim (Bool-cases (fd == i)) [
    | inl t ↦ let x = fresh (rw t at h) in rw t (x.0, x.1)
    | inr f ↦ rw f (v.in_use i (rw f at h))
  ];
  distinct = λ i j ne h h'. elim (Bool-cases (fd == i)) [
    | inl t ↦ elim (Bool-cases (fd == j)) [
      | inl t' ↦ absurd (ne (sym (==→eq fd i t) ∙ ==→eq fd j t'))
      | inr f' ↦ rw (t, f') (λ q. (fresh (rw t at h)).2 j (rw f' at h') (sym q))
    ]
    | inr f ↦ elim (Bool-cases (fd == j)) [
      | inl t' ↦ rw (f, t') ((fresh (rw t' at h')).2 i (rw f at h))
      | inr f' ↦ rw (f, f') (v.distinct i j ne (rw f at h) (rw f' at h'))
    ]
  ];
}

-- What `open` may come to.
abbrev Keeps : Libc → Kernel → K (Option ℕ × Libc) → Type 0
Keeps l k c =
    (m m' : Machine) (fd : Option ℕ) (l' : Libc) (k' : Kernel)
    → c k m ≡ some (((fd, l'), k'), m')
    → Linked l' k'

fails-Keeps : (errno : ℕ) (l : Libc) (k : Kernel) → Linked l k → Keeps l k (fails errno l)
fails-Keeps errno l k v m m' fd l' k' e =
    let a : record l { errno = errno } ≡ l' = cc in
    let b : k ≡ k' = cc in rw (sym a, sym b) (record { in_use = v.in_use; distinct = v.distinct })

put-Keeps :
    (l : Libc) (k : Kernel) (fd : ℕ) (e : LibcFd)
    → Linked (put_fd fd e l) k
    → Keeps l k (return (some fd, put_fd fd e l))
put-Keeps l k fd e v m m' r l' k' p =
    let a : put_fd fd e l ≡ l' = cc in let b : k ≡ k' = cc in rw (sym a, sym b) v

open_console-Keeps :
    (flags : ℕ) (l : Libc) (k : Kernel) → Linked l k → Keeps l k (open_console flags l)
unfolding open_console
open_console-Keeps flags l k v = go (fd_alloc l.fd_table)
  where
    entry : LibcFd
    entry = record {
      kind = console;
      console_no = if has_flag flags o_wronly then 1 else 0;
      flags = u8 flags;
      khandle = 0xffff;
    }

    go :
        (o : Option ℕ)
        → Keeps l k (elim o [ none ↦ fails 24 l | some fd ↦ return (some fd, put_fd fd entry l) ])
    go none = fails-Keeps 24 l k v
    go (some fd) = put-Keeps l k fd entry (put_fd-Linked l k fd entry v (λ h. absurd cc))

-- A handle that the kernel has just given stands for no descriptor yet.
Takes-fresh :
    (r : Change) (l : Libc) (k k' : Kernel) (h : ℕ)
    → Linked l k
    → Takes r k h k'
    → (i : ℕ) → is_kernel_kind (l.fd_table i).kind ≡ true
    → (l.fd_table i).khandle ≢ h
Takes-fresh r l k k' h v (low, unused, used, changed, others) i kind p =
    let u : (k.open_files (l.fd_table i).khandle).used ≡ true = (v.in_use i kind).1 in
    let w : (k.open_files h).used ≡ true = rw p at u in absurd (ground (arith, w, unused))

abbrev pub closed : (handle : ℕ) → Kernel → Kernel
closed handle k = set_entry handle (record (k.open_files handle) { used = false }) k

pub sys_close-open :
    (h : ℕ) (k : Kernel) (m : Machine)
    → h < max_open_files
    → (k.open_files h).used ≡ true
    → sys_close h k m ≡ some ((0, closed h k), m)
unfolding sys_close
sys_close-open h k m low used =
    let l : ltb h max_open_files ≡ true = lt→ltb h max_open_files low in rw (l, used) refl

-- Closing a handle that is no descriptor's.
pub closed-Linked :
    (l : Libc) (k : Kernel) (h : ℕ)
    → Linked l k
    → ((i : ℕ) → is_kernel_kind (l.fd_table i).kind ≡ true → (l.fd_table i).khandle ≢ h)
    → Linked l (closed h k)
closed-Linked l k h v apart = record {
  in_use = λ i kind.
      let (a, b) = v.in_use i kind in
      let n : (h == (l.fd_table i).khandle) ≡ false = ne→== h _ (λ p. apart i kind (sym p)) in
      (a, rw n b);
  distinct = v.distinct;
}

pub bind-some :
    {A B : Type 0} (c : K A) (f : A → K B) (k k1 : Kernel) (m m1 : Machine) (a : A)
    → c k m ≡ some ((a, k1), m1)
    → (c >>= f) k m ≡ f a k1 m1
bind-some c f k k1 m m1 a p = cc

bind-none :
    {A B : Type 0} (c : K A) (f : A → K B) (k : Kernel) (m : Machine)
    → c k m ≡ none
    → (c >>= f) k m ≡ none
bind-none c f k m p = cc

open_handle-Keeps :
    (r : Change) (h flags : ℕ) (kind : FdKind) (l : Libc) (k k' : Kernel)
    → Linked l k
    → Takes r k h k'
    → Keeps l k' (open_handle h flags kind l)
unfolding open_handle
open_handle-Keeps r h flags kind l k k' v t = go (fd_alloc l.fd_table)
  where
    grown : Linked l k'
    grown = Linked-Grows l k k' (Takes-Grows r k k' h t) v

    entry : ℕ → LibcFd
    entry fd = record (l.fd_table fd) { kind = kind; flags = u8 flags; khandle = h }

    go :
        (o : Option ℕ)
        → Keeps l k' (elim o [
          | none ↦ sys_close h >>= (λ _. fails 24 l)
          | some fd ↦ return (some fd, put_fd fd (entry fd) l)
        ])
    go none = λ m m' fd l' k1 e.
        fails-Keeps 24 l (closed h k') (closed-Linked l k' h grown (Takes-fresh r l k k' h v t)) m
          m' fd l' k1
          (sym
              (bind-some (sys_close h) (λ _. fails 24 l) k' _ m m 0 (sys_close-open h k' m t.0 t.2))
            ∙ e)
    go (some fd) =
        put-Keeps l k' fd (entry fd)
          (put_fd-Linked l k' fd (entry fd) grown (λ _. (t.0, t.2, Takes-fresh r l k k' h v t)))

kernel_handle-Takes :
    (fuel ds path flags : ℕ) (k : Kernel) (m m' : Machine) (h : ℕ) (k' : Kernel)
    → kernel_handle fuel ds path flags k m ≡ some ((h, k'), m')
    → (r : Change) × Outcome r k h k'
unfolding kernel_handle
kernel_handle-Takes fuel ds path flags k m m' h k' e = elim (Bool-cases (has_flag flags o_creat)) [
  | inl t ↦ (SameKind, sys_create-Takes fuel ds path k m m' h k' (rw t at e))
  | inr f ↦ (
    Opened (is_device_path (user_string 15 k.memory ds path)),
    sys_open-Takes fuel ds path k m m' h k' (rw f at e),
  )
]

open_kernel-Keeps :
    (fuel ds path flags : ℕ) (kind : FdKind) (l : Libc) (k : Kernel)
    → Linked l k
    → Keeps l k (open_kernel fuel ds path flags kind l)
unfolding open_kernel
open_kernel-Keeps fuel ds path flags kind l k v m m' fd l' k' e =
    let c = kernel_handle fuel ds path flags in
    let f : ℕ → K (Option ℕ × Libc) =
      λ h. if leb 16 h then fails 2 l else open_handle h flags kind l in
    elim (Option-cases (c k m)) [
      | inl p ↦
          absurd (let q : none ≡ some (((fd, l'), k'), m') = sym (bind-none c f k m p) ∙ e in cc)
      | inr (((h, k1), m1), p) ↦
          let (r, o) = kernel_handle-Takes fuel ds path flags k m m1 h k1 p in
          let e' : f h k1 m1 ≡ some (((fd, l'), k'), m') = sym (bind-some c f k k1 m m1 h p) ∙ e in
          elim o [
            | inl t ↦
                let low : leb 16 h ≡ false = ground (arith, t.0) in
                open_handle-Keeps r h flags kind l k k1 v t m1 m' fd l' k' (rw low at e')
            | inr (q, same) ↦
                let high : leb 16 h ≡ true = rw q refl in
                fails-Keeps 2 l k1 (rw same v) m1 m' fd l' k' (rw high at e')
          ]
    ]

-- If the descriptors of a program and the kernel's open files are linked, then they still are where
-- `open` returns, whatever the path, the flags and the disk are: every descriptor of a file or a
-- device has a handle below 16 that is in use in the kernel, and no two descriptors share one.
pub libc_open-Linked :
    (fuel ds path flags : ℕ) (l : Libc) (k : Kernel)
    → Linked l k
    → (m m' : Machine) (fd : Option ℕ) (l' : Libc) (k' : Kernel)
    → libc_open fuel ds path flags l k m ≡ some (((fd, l'), k'), m')
    → Linked l' k'
unfolding libc_open
libc_open-Linked fuel ds path flags l k v = elim (Bool-cases (path == 0)) [
  | inl t ↦ rw t (fails-Keeps 14 l k v)
  | inr f ↦ rw f (go (detect_device (user_string 65536 k.memory ds path)))
]
  where
    go :
        (d : FdKind)
        → Keeps l k (elim d [
          | console ↦ open_console flags l
          | device ↦ open_kernel fuel ds path flags device l
          | free ↦ open_kernel fuel ds path flags file l
          | file ↦ open_kernel fuel ds path flags file l
        ])
    go console = open_console-Keeps flags l k v
    go device = open_kernel-Keeps fuel ds path flags device l k v
    go free = open_kernel-Keeps fuel ds path flags file l k v
    go file = open_kernel-Keeps fuel ds path flags file l k v
