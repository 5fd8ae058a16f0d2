-- ===== src/Kernel/Files/Slots.antt =====
-- The table of open files of src/kernel/syscalls.c under SYSCALL_OPEN, CREATE and CLOSE.
use harvac.Prelude.{
  ℕ, zero, suc, ◌+◌, ◌<◌, ◌≡◌, ◌≢◌, ◌⊎◌, inl, inr, refl, sym, arith, Bool, true, false, ◌∙◌, ap,
  subst, if◌then◌else◌, Option-cases, Option, none, some, update, update_self, update_ne,
}
use harvac.Machine.{Machine, M}
use harvac.Errors.{Result, ok, err}
use harvac.Fat16.File.{fat16_open_in_dir}
use harvac.Fat16.Namespace.{fat16_create_in_dir}
use harvac.Kernel.System.{
  of_file, of_serial, OpenFile, max_open_files, Kernel, K, disk, return, ◌>>=◌, Target,
  resolve_user_path, user_string,
}
use harvac.Kernel.Files.{
  first_free, no_handle, set_entry, open_device, is_device_path, open_target, sys_open,
  create_target, sys_create,
}

-- What a call does to the entry that it takes.
abbrev pub Change : Type 1
Change = OpenFile → OpenFile → Type 0

-- The handle was free, is in use now, its entry has changed as stated, and no other one has changed.
abbrev pub Takes : Change → Kernel → (handle : ℕ) → Kernel → Type 0
Takes r k handle k' =
    (handle < max_open_files)
    × ((k.open_files handle).used ≡ false)
    × ((k'.open_files handle).used ≡ true)
    × r (k.open_files handle) (k'.open_files handle)
    × ((j : ℕ) → j ≢ handle → k'.open_files j ≡ k.open_files j)

-- What the calls that make a handle may come to.
abbrev pub Outcome : Change → Kernel → ℕ → Kernel → Type 0
Outcome r k handle k' = Takes r k handle k' ⊎ ((handle ≡ no_handle) × (k' ≡ k))

first_free-unused :
    (left i : ℕ) (files : ℕ → OpenFile) (j : ℕ)
    → first_free left i files ≡ some j
    → (j < i + left) × ((files j).used ≡ false)
unfolding first_free
first_free-unused zero i files j h = cc
first_free-unused (suc left) i files j h = ground (arith, first_free-unused left (i + 1) files j)

resolve_user_path-same :
    (fuel seg off : ℕ) (k k' : Kernel) (m m' : Machine) (r : Result Target)
    → resolve_user_path fuel seg off k m ≡ some ((r, k'), m')
    → k' ≡ k
unfolding resolve_user_path
resolve_user_path-same fuel seg off k k' m m' r h = ground arith

set_entry-Takes :
    (r : Change) (k : Kernel) (i : ℕ) (e : OpenFile)
    → i < max_open_files
    → (k.open_files i).used ≡ false
    → e.used ≡ true
    → r (k.open_files i) e
    → Takes r k i (set_entry i e k)
set_entry-Takes r k i e l free used c =
    let same : e ≡ update k.open_files i e i = sym (update_self k.open_files i e) in
    (
      l,
      free,
      ap (λ (x : OpenFile). x.used) (sym same) ∙ used,
      subst (r (k.open_files i)) same c,
      λ j ne. update_ne k.open_files i j e (λ p. ne (sym p)),
    )

-- A run that comes to an outcome wherever it returns.
abbrev Sound : Change → Kernel → K ℕ → Type 0
Sound r k c = (m m' : Machine) (h : ℕ) (k' : Kernel) → c k m ≡ some ((h, k'), m') → Outcome r k h k'

taken :
    (r : Change) (k : Kernel) (i : ℕ) (e : OpenFile)
    → i < max_open_files
    → (k.open_files i).used ≡ false
    → e.used ≡ true
    → r (k.open_files i) e
    → Sound r k (λ k m. some ((i, set_entry i e k), m))
taken r k i e l free used c m m' h k' p =
    let same : i ≡ h = cc in
    let after : set_entry i e k ≡ k' = cc in
    rw (sym same, sym after) (inl (set_entry-Takes r k i e l free used c))

refused : (r : Change) (k : Kernel) → Sound r k (return no_handle)
refused r k m m' h k' p =
    let same : h ≡ no_handle = cc in let after : k' ≡ k = cc in inr (same, after)

-- A run that leaves the kernel as it is.
abbrev Keeps : {A : Type 0} → Kernel → K A → Type 0
Keeps {A} k c = (m m' : Machine) (a : A) (k' : Kernel) → c k m ≡ some ((a, k'), m') → k' ≡ k

bind-Sound :
    {A : Type 0} (r : Change) (c : K A) (f : A → K ℕ) (k : Kernel)
    → Keeps k c
    → ((a : A) → Sound r k (f a))
    → Sound r k (c >>= f)
bind-Sound r c f k same s m m' h k' e = elim (Option-cases (c k m)) [
  | inl p ↦ absurd cc
  | inr (((a, k1), m1), p) ↦ let q : k1 ≡ k = same m m1 a k1 p in s a m1 m' h k' cc
]

disk-Keeps : {A : Type 0} (c : M A) (k : Kernel) → Keeps k (disk c)
disk-Keeps c k m m' a k' e = elim (Option-cases (c m)) [
  | inl p ↦ absurd cc
  | inr ((a1, m1), p) ↦ cc
]

-- A run that gets a free entry.
free-Sound :
    (r : Change) (k : Kernel) (f : ℕ → K ℕ)
    → ((i : ℕ) → i < max_open_files → (k.open_files i).used ≡ false → Sound r k (f i))
    → Sound r k
        (elim (first_free max_open_files 0 k.open_files) [ none ↦ return no_handle | some i ↦ f i ])
free-Sound r k f s =
    go _ (λ i p. let (l, free) = first_free-unused max_open_files 0 k.open_files i p in s i l free)
  where
    go :
        (o : Option ℕ)
        → ((i : ℕ) → o ≡ some i → Sound r k (f i))
        → Sound r k (elim o [ none ↦ return no_handle | some i ↦ f i ])
    go none s = refused r k
    go (some i) s = s i refl

if-Sound :
    (r : Bool → Change) (k : Kernel) (b : Bool) (c d : K ℕ)
    → Sound (r true) k c
    → Sound (r false) k d
    → Sound (r b) k (if b then c else d)
if-Sound r k true c d s t = s
if-Sound r k false c d s t = t

-- The kind of an entry that SYSCALL_OPEN takes.
abbrev pub Opened : (device : Bool) → Change
Opened device old new = new.kind ≡ (if device then of_serial else of_file)

abbrev pub SameKind : Change
SameKind old new = new.kind ≡ old.kind

open_target-Sound :
    (fuel i : ℕ) (t : Target) (k : Kernel)
    → i < max_open_files
    → (k.open_files i).used ≡ false
    → Sound (Opened false) k (open_target fuel i t)
unfolding open_target
open_target-Sound fuel i t k l free =
    bind-Sound (Opened false) (disk (fat16_open_in_dir fuel t.mnt.fs t.dir_cluster t.name83)) _ k
      (disk-Keeps _ k)
      (elim [
        | ok f ↦ taken (Opened false) k i _ l free refl refl
        | err e ↦ refused (Opened false) k
      ])

create_target-Sound :
    (fuel i : ℕ) (t : Target) (k : Kernel)
    → i < max_open_files
    → (k.open_files i).used ≡ false
    → Sound SameKind k (create_target fuel i t)
unfolding create_target
create_target-Sound fuel i t k l free =
    bind-Sound SameKind (disk (fat16_create_in_dir fuel t.mnt.fs t.dir_cluster t.name83)) _ k
      (disk-Keeps _ k)
      (elim [ ok f ↦ taken SameKind k i _ l free refl refl | err e ↦ refused SameKind k ])

resolve_user_path-Keeps : (fuel seg off : ℕ) (k : Kernel) → Keeps k (resolve_user_path fuel seg off)
resolve_user_path-Keeps fuel seg off k m m' r k' e =
    resolve_user_path-same fuel seg off k k' m m' r e

-- Where SYSCALL_OPEN returns: either the handle is below 16 and was free, it is in use afterwards, it
-- is a device's if the path is a device's and else a file's, and no other entry of the table has
-- changed, or it is 0xFFFF and nothing of the kernel's state but the disk and its buffer has changed.
pub sys_open-Takes :
    (fuel caller_ds bx : ℕ) (k : Kernel) (m m' : Machine) (h : ℕ) (k' : Kernel)
    → sys_open fuel caller_ds bx k m ≡ some ((h, k'), m')
    → Outcome (Opened (is_device_path (user_string 15 k.memory caller_ds bx))) k h k'
unfolding sys_open open_device
sys_open-Takes fuel caller_ds bx k =
    free-Sound (Opened (is_device_path (user_string 15 k.memory caller_ds bx))) k _ (λ i l free.
      if-Sound Opened k (is_device_path (user_string 15 k.memory caller_ds bx)) _ _
        (taken (Opened true) k i _ l free refl refl)
        (bind-Sound (Opened false) (resolve_user_path fuel caller_ds bx) _ k
          (resolve_user_path-Keeps fuel caller_ds bx k)
          (elim [ ok t ↦ open_target-Sound fuel i t k l free | err x ↦ refused (Opened false) k ])))

-- Where SYSCALL_CREATE returns: either the handle is below 16 and was free, it is in use afterwards
-- with the kind that its entry had before, and no other entry of the table has changed, or it is
-- 0xFFFF and nothing of the kernel's state but the disk and its buffer has changed.
pub sys_create-Takes :
    (fuel caller_ds bx : ℕ) (k : Kernel) (m m' : Machine) (h : ℕ) (k' : Kernel)
    → sys_create fuel caller_ds bx k m ≡ some ((h, k'), m')
    → Outcome SameKind k h k'
unfolding sys_create
sys_create-Takes fuel caller_ds bx k =
    bind-Sound SameKind (resolve_user_path fuel caller_ds bx) _ k
      (resolve_user_path-Keeps fuel caller_ds bx k)
      (elim [
        | ok t ↦ free-Sound SameKind k _ (λ i l free. create_target-Sound fuel i t k l free)
        | err x ↦ refused SameKind k
      ])
