-- ===== src/Kernel/Paths.antt =====
-- The system calls on paths, directories, mounts and the volume of src/kernel/syscalls.c:
-- SYSCALL_DELETE, RENAME, UTIME, STAT, MKDIR, RMDIR, CHDIR, GETCWD, MOUNT, UNMOUNT, GET_VERSION, STATFS
-- and MEM_INFO.
use harvac.Prelude.{
  ℕ, ◌+◌, ◌-◌, ◌*◌, ◌/◌, ◌||◌, not, ◌==◌, if◌then◌else◌, List, [], ◌∷◌, ◌++◌, take, u8, u16,
}
use harvac.Errors.{ok, err, err_not_found, err_access_denied}
use harvac.Fat16.File.{slice}
use harvac.Fat16.Dir.{fat16_find_in_dir}
use harvac.Fat16.Table.{fat16_count_free_clusters}
use harvac.Fat16.Namespace.{
  fat16_delete_in_dir, fat16_mkdir_in_dir, fat16_rmdir_in_dir, fat16_rename_in_dir,
  fat16_set_datetime_in_dir,
}
use harvac.Vfs.Mount.{str_eq, mount_add, mount_remove}
use harvac.Vfs.Path.{vfs_max_cwd}
use harvac.Vfs.Resolve.{vfs_chdir, vfs_getcwd}
use harvac.Kernel.Process.{Processes}
use harvac.Kernel.System.{
  K, ◌>>=◌, return, disk, gets, modify, user_string, copy_out, Target, resolve_user_path,
}

-- What a call does with a path that resolves. One that does not is not found.
abbrev pub at_path : (fuel seg off : ℕ) → (Target → K ℕ) → K ℕ
at_path fuel seg off f = do
  r ← resolve_user_path fuel seg off
  elim r [ ok t ↦ f t | err e ↦ return err_not_found ]

-- The caller's buffer gets bytes, and the call returns 0.
abbrev pub reply : List ℕ → (seg off : ℕ) → K ℕ
reply bytes seg off = do
  _ ← modify (λ k. record k { memory = copy_out bytes k.memory seg off })
  return 0

unfoldable pub sys_delete : (fuel caller_ds bx : ℕ) → K ℕ
sys_delete fuel caller_ds bx = at_path fuel caller_ds bx (λ t. do
  ret ← disk (fat16_delete_in_dir fuel t.mnt.fs t.dir_cluster t.name83)
  return (if ret == 0 then 0 else err_not_found))

unfoldable pub sys_mkdir : (fuel caller_ds bx : ℕ) → K ℕ
sys_mkdir fuel caller_ds bx =
    at_path fuel caller_ds bx (λ t. disk (fat16_mkdir_in_dir fuel t.mnt.fs t.dir_cluster t.name83))

unfoldable pub sys_rmdir : (fuel caller_ds bx : ℕ) → K ℕ
sys_rmdir fuel caller_ds bx =
    at_path fuel caller_ds bx (λ t. disk (fat16_rmdir_in_dir fuel t.mnt.fs t.dir_cluster t.name83))

unfoldable pub sys_utime : (fuel caller_ds cx dx si : ℕ) → K ℕ
sys_utime fuel caller_ds cx dx si =
    at_path fuel caller_ds si
      (λ t. disk (fat16_set_datetime_in_dir fuel t.mnt.fs t.dir_cluster t.name83 cx dx))

-- A mount is told from another by its mount point, which no two entries in use share.
unfoldable pub sys_rename : (fuel caller_ds si di : ℕ) → K ℕ
sys_rename fuel caller_ds si di = at_path fuel caller_ds si (λ old.
    at_path fuel caller_ds di (λ new.
      let rename : K ℕ =
        disk (fat16_rename_in_dir fuel old.mnt.fs old.dir_cluster old.name83 new.name83) in
      if not (str_eq old.mnt.mount_point new.mnt.mount_point)
        || not (old.dir_cluster == new.dir_cluster)
      then return err_access_denied
      else rename))

unfoldable pub sys_stat : (fuel caller_ds bx cx : ℕ) → K ℕ
sys_stat fuel caller_ds bx cx = at_path fuel caller_ds bx (λ t. do
  r ← disk (fat16_find_in_dir fuel t.mnt.fs t.dir_cluster t.name83)
  elim r [ ok f ↦ reply (slice f.dirent 0 32) caller_ds cx | err e ↦ return err_not_found ])

unfoldable pub sys_chdir : (fuel caller_ds bx : ℕ) → K ℕ
sys_chdir fuel caller_ds bx = do
  k ← gets (λ k. k)
  let path = user_string (vfs_max_cwd - 1) k.memory caller_ds bx
  (ret, cwd) ← disk (vfs_chdir fuel k.mounts k.cwd path)
  _ ← modify (λ k. record k { cwd = cwd })
  return ret

-- The comparison of the index is of 16 bits: a length of 0 stands for one of 65536.
unfoldable pub sys_getcwd : (caller_ds cx dx : ℕ) → K ℕ
sys_getcwd caller_ds cx dx = do
  k ← gets (λ k. k)
  let path = take (u16 (dx + 65535)) (vfs_getcwd k.cwd vfs_max_cwd)
  reply (path ++ 0 ∷ []) caller_ds cx

abbrev pub mount_point_len : ℕ
mount_point_len = 31

unfoldable pub sys_mount : (caller_ds bx cx dx si : ℕ) → K ℕ
sys_mount caller_ds bx cx dx si = do
  k ← gets (λ k. k)
  let mount_point = user_string mount_point_len k.memory caller_ds bx
  (ret, table) ← disk (mount_add mount_point (u8 cx) (dx + si * 65536) k.mounts)
  _ ← modify (λ k. record k { mounts = table })
  return ret

unfoldable pub sys_unmount : (caller_ds bx : ℕ) → K ℕ
sys_unmount caller_ds bx = do
  k ← gets (λ k. k)
  let (ret, table) = mount_remove (user_string mount_point_len k.memory caller_ds bx) k.mounts
  _ ← modify (λ k. record k { mounts = table })
  return ret

unfoldable pub sys_get_version : (caller_ds bx : ℕ) → K ℕ
sys_get_version caller_ds bx = reply (0 ∷ 2 ∷ 0 ∷ 0 ∷ []) caller_ds bx

unfoldable pub sys_statfs : (caller_ds cx : ℕ) → K ℕ
sys_statfs caller_ds cx = do
  k ← gets (λ k. k)
  let fs = k.root_fs
  free_cl ← disk (fat16_count_free_clusters fs)
  let low : List ℕ =
      u8 fs.total_clusters ∷ u8 (fs.total_clusters / 256) ∷ u8 free_cl ∷ u8 (free_cl / 256) ∷ []
  let high : List ℕ =
      fs.sectors_per_cluster ∷ 0 ∷ u8 fs.bytes_per_sector ∷ u8 (fs.bytes_per_sector / 256) ∷ []
  reply (low ++ high) caller_ds cx

-- `ram_paras` is the word of the BIOS with the size of the memory, in paragraphs.
unfoldable pub sys_mem_info : (ram_paras caller_ds cx : ℕ) → Processes → K ℕ
sys_mem_info ram_paras caller_ds cx p =
    reply (u8 ram_paras ∷ u8 (ram_paras / 256) ∷ u8 p.next_seg ∷ u8 (p.next_seg / 256) ∷ [])
      caller_ds cx
