-- ===== src/Fsops/Session.antt =====
-- src/fsops: `init`, `destroy`, `ioctl`, `release`, `releasedir`, and the operations that are not
-- implemented or do nothing.
use capfs.Base.{ℕ, bit_and, Bool, not, ◌||◌, Option, none, some, List}
use capfs.Base.{ℤ, pos, neg, is_nonzero, enoent, einval, enosys, enotsup, ◌==◌, if◌then◌else◌}
use capfs.Machine.{M, pure, exited, ◌>>=◌, ◌>>◌, gets}
use capfs.CapfsFile.{CapfsFile}
use capfs.Filesystem.{MetaData, capfs_filesystem_init}
use capfs.Handle.{Handle, Heap, cap_fs_handle_free}
use capfs.Startup.{Disk, capfs_backend_init, capfs_backend_destroy}
use capfs.Layer.{Layer}
use capfs.Filetype.{filetype_root, filetype_directory, filetype_file}
use capfs.Fsops.{fuse_ioctl_compat, target, path_given}

-- The result is `g_fs_root`; the backend state that is returned is always `NULL`.
unfoldable pub capfs_op_init : Disk → CapfsFile → CapfsFile → M CapfsFile
capfs_op_init disk local old = do
  capfs_backend_init disk
  root ← gets λ s. s.root_capability
  (err, g_fs_root) ← capfs_filesystem_init local old root
  if is_nonzero err then (λ _. exited err) else pure g_fs_root

-- Whether the warning that the backend was not destroyed is logged.
unfoldable pub capfs_op_destroy : Bool
capfs_op_destroy = not (is_nonzero capfs_backend_destroy)

-- `CAPFS_IOCTL_OP_GET_CAP`
abbrev pub ioctl_get_cap : ℕ
ioctl_get_cap = 0

-- What the two `switch`es of `capfs_op_ioctl` do: the status, and `*data` if `data` is given.
unfoldable pub ioctl_command : ℕ → Handle → Option ℕ → ℤ × Option ℕ
ioctl_command cmd h out =
    let supported =
      (h.type == filetype_root) || (h.type == filetype_directory) || (h.type == filetype_file) in
    let answer : Option ℕ = elim out [ none ↦ none | some old ↦ some h.cap ] in
    if not supported
    then (neg einval, out)
    else if cmd == ioctl_get_cap
    then (pos 0, answer)
    else (neg einval, out)

module _ (layer : Layer) (cap : ℕ) (md : MetaData) where
  unfoldable pub capfs_op_ioctl :
      Heap → Option (List ℕ) → ℕ → Option ℕ → ℕ → Option ℕ → M (ℤ × Option ℕ)
  capfs_op_ioctl heap path cmd fi flags out = path_given path (
      if not (bit_and flags fuse_ioctl_compat == 0)
      then pure (neg enosys, out)
      else target layer cap md heap path fi (λ h. pure (ioctl_command cmd h out))
          (pure (neg enoent, out)))

unfoldable pub capfs_op_releasedir : Heap → Option ℕ → M (ℤ × Heap)
capfs_op_releasedir heap none = pure (pos 0, heap)
capfs_op_releasedir heap (some fh) =
    if fh == 0 then pure (pos 0, heap) else do left ← cap_fs_handle_free fh heap; pure (pos 0, left)

-- `NYI()`
abbrev pub nyi : ℤ
nyi = neg enotsup

-- The handle in `fi` is not freed.
unfoldable pub capfs_op_release : Heap → Option ℕ → ℤ × Heap
capfs_op_release heap fi = (nyi, heap)
