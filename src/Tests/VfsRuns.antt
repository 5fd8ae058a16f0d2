-- ===== src/Tests/VfsRuns.antt =====
-- Runs of the mount table (src/fs/mount.c) and of paths (src/fs/vfs.c).
use harvac.Prelude.{
  ◌≢◌, none, ℕ, false, leb, ◌&&◌, suc, length, ◌<◌, arith, codes, ◌≡◌, refl, true, [], ◌∷◌, List,
  some,
}
use harvac.Vfs.Mount.{
  MountEntry, Mounts, mount_resolve, resolve_loop, better, under, strip, at_boundary, str_eq,
}
use harvac.Errors.{err_not_found}
use harvac.Vfs.Mount.{mount_find, mount_remove}
use harvac.Vfs.Mount.Remove.{count_at, mount_remove_lem}
use harvac.Vfs.Mount.Longest.{Longest, mount_resolve-Longest}
use harvac.Fat16.Dir.Names.{IsPadded}
use harvac.Vfs.Names.{vfs_name_to_83}
use harvac.Vfs.Names.Fields.{vfs_name_to_83_lem}
use harvac.Vfs.Path.{
  normalize_path, collect, is_absolute, normalize_absolute, build, skip_slashes, push_component,
  read_component,
}
use harvac.Vfs.Path.Bounds.{normalize_path-fits, collect-IsStack, collect-enough, IsStack}
use harvac.Tests.Sample.{sample_fs}

abbrev mounted : List ℕ → MountEntry
mounted point = record {
  used = true;
  drive = 0x80;
  partition_lba = 63;
  mount_point = point;
  fs = sample_fs;
}

abbrev two_mounts : Mounts
two_mounts = mounted (b'/' ∷ []) ∷ mounted (b'/' ∷ b'a' ∷ []) ∷ []

-- The path "/a/b".
abbrev path_a_b : List ℕ
path_a_b = b'/' ∷ b'a' ∷ b'/' ∷ b'b' ∷ []

resolved_below_a : mount_resolve path_a_b two_mounts ≡ some (mounted (b'/' ∷ b'a' ∷ []), b'b' ∷ [])
unfolding mount_resolve resolve_loop better under strip at_boundary str_eq
resolved_below_a = refl

mount_resolve-Longest_example : Longest path_a_b two_mounts (mount_resolve path_a_b two_mounts)
mount_resolve-Longest_example = mount_resolve-Longest path_a_b two_mounts

abbrev dotted : List ℕ
dotted = codes "/a//b/./../c"

normalized : normalize_path dotted 64 ≡ codes "/a/c"
unfolding normalize_path is_absolute normalize_absolute build collect skip_slashes push_component
    read_component
normalized = refl

normalize_path-fits_example : length (normalize_path dotted 4) < 4
normalize_path-fits_example = normalize_path-fits dotted 4 (omega arith)

collect-IsStack_example : IsStack (collect (suc (length dotted)) dotted [])
collect-IsStack_example = collect-IsStack dotted

collect-enough_at_run : collect 13 dotted [] ≡ collect 100 dotted []
collect-enough_at_run = collect-enough 13 100 dotted [] (omega arith) (omega arith)

abbrev a_txt : List ℕ
a_txt = codes "a.txt"

vfs_name_to_83_lem_at_run :
    let out = vfs_name_to_83 a_txt in
    IsPadded out 0 8
    × IsPadded out 8 3
    × ((i : ℕ) → i < 11 → (leb b'a' (out i) && leb (out i) b'z') ≡ false)
    × (out 11 ≡ 0)
vfs_name_to_83_lem_at_run =
    vfs_name_to_83_lem a_txt
      (omega arith, (omega arith, (omega arith, (omega arith, (omega arith, tt)))))

abbrev at_a : List ℕ
at_a = codes "/a"

mount_remove_lem_at_run :
    (mount_find at_a two_mounts ≡ none → mount_remove at_a two_mounts ≡ (err_not_found, two_mounts))
    × (mount_find at_a two_mounts ≢ none
        → ((mount_remove at_a two_mounts).0 ≡ 0)
          × (suc (count_at at_a ((mount_remove at_a two_mounts).1)) ≡ count_at at_a two_mounts)
          × ((other : List ℕ)
              → other ≢ at_a
              → mount_find other ((mount_remove at_a two_mounts).1) ≡ mount_find other two_mounts))
mount_remove_lem_at_run = mount_remove_lem at_a two_mounts (λ e. absurd (cc e))
