-- ===== src/Vfs/Mount/Remove.antt =====
-- `mount_remove` (src/fs/mount.c) on the table as a map from mount points to entries.
use harvac.Prelude.{
  ℕ, suc, ◌≡◌, ◌≢◌, refl, sym, ◌∙◌, ap, arith, true, false, ◌==◌, if◌then◌else◌, List, [], ◌∷◌,
  none, some, Bool-cases, inl, inr, ==→eq,
}
use harvac.Errors.{err_not_found}
use harvac.Vfs.Names.{slash}
use harvac.Vfs.Mount.{
  MountEntry, Mounts, str_eq, mounted_at, mount_find, unmount_first, mount_remove,
}

absurd_test : false ≡ true → ⊥
absurd_test e = cc

absurd_find : {e : MountEntry} → some e ≡ none → ⊥
absurd_find h = cc

pub str_eq_sound : (a b : List ℕ) → str_eq a b ≡ true → a ≡ b
unfolding str_eq
str_eq_sound [] [] h = refl
str_eq_sound [] (d ∷ ds) h = absurd (absurd_test h)
str_eq_sound (c ∷ cs) [] h = absurd (absurd_test h)
str_eq_sound (c ∷ cs) (d ∷ ds) h = elim (Bool-cases (c == d)) [
  | inl e ↦ rw (==→eq c d e) (ap (λ (l : List ℕ). d ∷ l) (str_eq_sound cs ds (rw e at h)))
  | inr e ↦ absurd (absurd_test (rw e at h))
]

-- The entries in use at a mount point.
unfoldable pub count_at : List ℕ → Mounts → ℕ
count_at point [] = 0
count_at point (e ∷ es) =
    let rest = count_at point es in if mounted_at point e then suc rest else rest

other_point :
    (point other : List ℕ) (e : MountEntry)
    → other ≢ point
    → mounted_at point e ≡ true
    → mounted_at other e ≡ false
other_point point other e ne h = elim (Bool-cases (mounted_at other e)) [
  | inl same ↦ absurd (ne (sym (eq_of other same) ∙ eq_of point h))
  | inr no_match ↦ no_match
]
  where
    eq_of : (p : List ℕ) → mounted_at p e ≡ true → e.mount_point ≡ p
    eq_of p q = str_eq_sound e.mount_point p (ground arith)

-- The removal at a mount point that has an entry.
record Removed (point : List ℕ) (table : Mounts) (result : ℕ × Mounts) : Type 0 where
  status : result.0 ≡ 0
  one_less : suc (count_at point (result.1)) ≡ count_at point table
  others : (other : List ℕ) → other ≢ point → mount_find other (result.1) ≡ mount_find other table

unmount_first-none :
    (point : List ℕ) (table : Mounts)
    → mount_find point table ≡ none
    → unmount_first point table ≡ (err_not_found, table)
unfolding mount_find unmount_first
unmount_first-none point [] h = refl
unmount_first-none point (e ∷ es) h = elim (Bool-cases (mounted_at point e)) [
  | inl t ↦ absurd (absurd_find (rw t at h))
  | inr f ↦ rw f (rw (unmount_first-none point es (rw f at h)) refl)
]

unmount_first-Removed :
    (point : List ℕ) (table : Mounts)
    → mount_find point table ≢ none
    → Removed point table (unmount_first point table)
unfolding mount_find unmount_first count_at
unmount_first-Removed point [] h = absurd (h refl)
unmount_first-Removed point (e ∷ es) h = elim (Bool-cases (mounted_at point e)) [
  | inl t ↦ rw t (record {
    status = refl;
    one_less = rw t refl;
    others = λ other ne. rw (other_point point other e ne t) refl;
  })
  | inr f ↦
      let r = unmount_first-Removed point es (rw f at h) in
      rw f (record {
        status = r.status;
        one_less = rw f (r.one_less);
        others = λ other ne. rw (r.others other ne) refl;
      })
]

-- Removing at a mount point that is not the root. Without an entry in use there the call reports that
-- and keeps the table. Otherwise it returns 0, one entry less is in use there, and what is found at
-- any other mount point stays the same.
pub mount_remove_lem :
    (point : List ℕ) (table : Mounts)
    → point ≢ slash ∷ []
    → (mount_find point table ≡ none → mount_remove point table ≡ (err_not_found, table))
      × (mount_find point table ≢ none
          → ((mount_remove point table).0 ≡ 0)
            × (suc (count_at point ((mount_remove point table).1)) ≡ count_at point table)
            × ((other : List ℕ)
                → other ≢ point
                → mount_find other ((mount_remove point table).1) ≡ mount_find other table))
unfolding mount_remove
mount_remove_lem point table ne = elim (Bool-cases (str_eq point (slash ∷ []))) [
  | inl root ↦ absurd (ne (str_eq_sound point (slash ∷ []) root))
  | inr f ↦ rw f (
    λ h. unmount_first-none point table h,
    λ h. let r = unmount_first-Removed point table h in (r.status, r.one_less, r.others),
  )
]
