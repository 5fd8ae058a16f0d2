-- ===== src/Tests/CreateRun.antt =====
-- A run of SYSCALL_CREATE and SYSCALL_WRITE (src/kernel/syscalls.c) on an empty volume.
use harvac.Prelude.{◌≡◌, refl, arith, some, codes}
use harvac.Machine.{Machine}
use harvac.Kernel.Files.Slots.{Outcome, SameKind, sys_create-Takes}
use harvac.Kernel.Files.Kinds.{create-write_device}
use harvac.Tests.KernelRuns.{empty_machine, kernel_with}
use harvac.Kernel.System.{Kernel, copy_in, user_string, directory_part, resolve_user_path}
use harvac.Kernel.Files.{sys_write, prepend, first_free, sys_create, create_target}
use harvac.Vfs.Resolve.{walk_dirs, vfs_resolve_dir, last_component}
use harvac.Vfs.Path.{
  skip_slashes, read_component, push_component, collect, build, normalize_absolute, is_absolute,
  normalize_path, ends_in_slash, vfs_abspath,
}
use harvac.Vfs.Names.{pack_char, pack_loop, vfs_name_to_83}
use harvac.Vfs.Mount.{str_eq, strip, at_boundary, under, better, resolve_loop, mount_resolve}
use harvac.Fat16.Namespace.{
  free_entry, root_slot, fat16_dir_free_slot, put_dirent, reserve_cluster, enter_cluster,
  fat16_create_in_dir, change_sector,
}
use harvac.Fat16.Dir.{kind, scan_sector, after_scan, find_loop, fat16_find, fat16_find_in_dir}
use harvac.Fat16.Table.{
  fat_sector_lba, entry_in_sector, fat16_read_fat, fat16_write_fat, find_free_loop,
  fat16_find_free_cluster,
}
use harvac.Fat16.Volume.{read_sec_buf, write_sec_buf, root_sectors}
use harvac.Drivers.Disk.{
  disk_ensure_geometry, pack, transfer, chs_int, attempts, chs_loop, disk_chs_op, disk_read_sectors,
  disk_write_sectors,
}

abbrev small_path : Kernel
small_path = kernel_with (codes "a")

created :
    (k' : Kernel) × (m' : Machine) × (sys_create 1 16 256 small_path empty_machine
      ≡ some ((0, k'), m'))
unfolding user_string directory_part resolve_user_path first_free sys_create create_target walk_dirs
    vfs_resolve_dir last_component skip_slashes read_component push_component collect build
    normalize_absolute is_absolute normalize_path ends_in_slash vfs_abspath pack_char pack_loop
    vfs_name_to_83 str_eq strip at_boundary under better resolve_loop mount_resolve free_entry
    root_slot fat16_dir_free_slot put_dirent reserve_cluster enter_cluster fat16_create_in_dir
    change_sector kind scan_sector after_scan find_loop fat16_find fat16_find_in_dir fat_sector_lba
    entry_in_sector fat16_read_fat fat16_write_fat find_free_loop fat16_find_free_cluster
    read_sec_buf write_sec_buf root_sectors disk_ensure_geometry pack transfer chs_int attempts
    chs_loop disk_chs_op disk_read_sectors disk_write_sectors
created = (_, _, refl)

taken_by_create : Outcome SameKind small_path 0 created.0
taken_by_create = sys_create-Takes 1 16 256 small_path empty_machine created.1 0 created.0 created.2

written_to_port :
    sys_write 1 16 0 256 1 created.0 created.1
    ≡ some (
      (
        1,
        record created.0 {
          serial_out = prepend (copy_in 1 created.0.memory 16 256) created.0.serial_out;
        },
      ),
      created.1,
    )
written_to_port =
    create-write_device 1 16 256 small_path empty_machine created.1 0 created.0 created.2
      (omega arith) refl 256 1
