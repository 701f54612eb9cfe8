-- ===== src/Fsops/Unsupported.antt =====
-- src/fsops: the operations that are not implemented, and the two that have nothing to do. None looks
-- at its arguments. `chmod` also sets `errno`, which is not modelled.
use capfs.Base.{ℤ, pos}
use capfs.Fsops.Session.{nyi}

abbrev pub capfs_op_chmod : ℤ
capfs_op_chmod = nyi

abbrev pub capfs_op_chown : ℤ
capfs_op_chown = nyi

abbrev pub capfs_op_create : ℤ
capfs_op_create = nyi

abbrev pub capfs_op_link : ℤ
capfs_op_link = nyi

abbrev pub capfs_op_mkdir : ℤ
capfs_op_mkdir = nyi

abbrev pub capfs_op_mknod : ℤ
capfs_op_mknod = nyi

abbrev pub capfs_op_readlink : ℤ
capfs_op_readlink = nyi

abbrev pub capfs_op_rename : ℤ
capfs_op_rename = nyi

abbrev pub capfs_op_rmdir : ℤ
capfs_op_rmdir = nyi

abbrev pub capfs_op_statfs : ℤ
capfs_op_statfs = nyi

abbrev pub capfs_op_symlink : ℤ
capfs_op_symlink = nyi

abbrev pub capfs_op_truncate : ℤ
capfs_op_truncate = nyi

abbrev pub capfs_op_unlink : ℤ
capfs_op_unlink = nyi

abbrev pub capfs_op_utimens : ℤ
capfs_op_utimens = nyi

abbrev pub capfs_op_flush : ℤ
capfs_op_flush = pos 0

abbrev pub capfs_op_fsync : ℤ
capfs_op_fsync = pos 0
