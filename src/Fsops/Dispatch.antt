-- ===== src/Fsops/Dispatch.antt =====
-- src/main.c, lines 53 to 82: the table of operations that is handed to FUSE, as the calls that FUSE makes
-- through it. FUSE calls `init` first, and then any operations in any order.
use capfs.Base.{ℕ, Bool, Option, List, [], ◌∷◌, ℤ}
use capfs.Machine.{M, pure, ◌>>=◌}
use capfs.CapfsFile.{CapfsFile}
use capfs.Filesystem.{MetaData}
use capfs.Handle.{Heap}
use capfs.Startup.{Disk}
use capfs.Layer.{Layer, files_layer}
use capfs.Fsops.{Stat, capfs_op_getattr, capfs_op_access, capfs_op_open, capfs_op_opendir}
use capfs.Fsops.{capfs_op_read, capfs_op_write, capfs_op_readdir}
use capfs.Fsops.Session.{capfs_op_init, capfs_op_ioctl, capfs_op_release, capfs_op_releasedir}
use capfs.Fsops.Unsupported.{
  capfs_op_chmod, capfs_op_chown, capfs_op_create, capfs_op_link, capfs_op_mkdir,
}
use capfs.Fsops.Unsupported.{
  capfs_op_mknod, capfs_op_readlink, capfs_op_rename, capfs_op_rmdir, capfs_op_statfs,
}
use capfs.Fsops.Unsupported.{capfs_op_symlink, capfs_op_truncate, capfs_op_unlink, capfs_op_utimens}
use capfs.Fsops.Unsupported.{capfs_op_flush, capfs_op_fsync}

-- One entry of the table, with the arguments that are looked at.
pub data Call : Type 0 where
  op_getattr : (path : Option (List ℕ)) (stbuf : Stat) (fi : Option ℕ) → Call
  op_access : (path : Option (List ℕ)) (mask : ℕ) → Call
  op_opendir : (path : Option (List ℕ)) (fh : ℕ) → Call
  op_readdir : (path : Option (List ℕ)) (offset : ℕ) (fi : Option ℕ) → Call
  op_releasedir : (fi : Option ℕ) → Call
  op_readlink op_mknod op_mkdir op_symlink op_unlink op_rmdir op_rename op_link op_chmod op_chown :
      Call
  op_truncate op_utimens op_flush op_fsync op_statfs op_create : Call
  op_open : (path : Option (List ℕ)) (fh : ℕ) → Call
  op_release : (fi : Option ℕ) → Call
  op_read : (path : Option (List ℕ)) (rbuf : List ℕ) (size offset : ℕ) (fi : Option ℕ) → Call
  op_write : (path : Option (List ℕ)) (wbuf : List ℕ) (size offset : ℕ) (fi : Option ℕ) → Call
  op_ioctl : (path : Option (List ℕ)) (cmd : ℕ) (fi : Option ℕ) (flags : ℕ) (out : Option ℕ) → Call

-- What a call gives back: its status, and what it fills in.
pub data Reply : Type 0 where
  status : ℤ → Reply
  attributes : ℤ → Stat → Reply
  opened : ℤ → ℕ → Reply
  buffer : ℤ → List ℕ → Reply
  names : ℤ → List (List ℕ) → Reply
  reference : ℤ → Option ℕ → Reply

-- What is in the uninitialised locals during a call, and whether `strdup` finds memory.
pub record Locals : Type 0 where
  pub file : ℕ → CapfsFile
  pub content_cap : ℕ → ℕ
  pub copied : Bool
  pub cap : ℕ
  pub md : MetaData

abbrev pub over_files : Locals → Layer
over_files l = files_layer l.file l.content_cap l.copied

-- `rounds` bounds the entries that a `readdir` lists.
module _ (layer : Locals → Layer) (rounds : ℕ) where
  unfoldable pub dispatch : Locals → Call → Heap → M (Reply × Heap)
  dispatch l (op_getattr path stbuf fi) heap =
      capfs_op_getattr (layer l) l.cap l.md heap path stbuf fi >>= λ r.
      pure (attributes r.0 r.1, heap)
  dispatch l (op_access path mask) heap =
      capfs_op_access (layer l) l.cap l.md path mask >>= λ r. pure (status r, heap)
  dispatch l (op_opendir path fh) heap =
      capfs_op_opendir (layer l) l.cap l.md heap path fh >>= λ r. pure (opened r.0 r.1, r.2)
  dispatch l (op_readdir path offset fi) heap =
      capfs_op_readdir (layer l) l.cap l.md rounds heap path offset fi >>= λ r.
      pure (names r.0 r.1, heap)
  dispatch l (op_releasedir fi) heap = capfs_op_releasedir heap fi >>= λ r. pure (status r.0, r.1)
  dispatch l op_readlink heap = pure (status capfs_op_readlink, heap)
  dispatch l op_mknod heap = pure (status capfs_op_mknod, heap)
  dispatch l op_mkdir heap = pure (status capfs_op_mkdir, heap)
  dispatch l op_symlink heap = pure (status capfs_op_symlink, heap)
  dispatch l op_unlink heap = pure (status capfs_op_unlink, heap)
  dispatch l op_rmdir heap = pure (status capfs_op_rmdir, heap)
  dispatch l op_rename heap = pure (status capfs_op_rename, heap)
  dispatch l op_link heap = pure (status capfs_op_link, heap)
  dispatch l op_chmod heap = pure (status capfs_op_chmod, heap)
  dispatch l op_chown heap = pure (status capfs_op_chown, heap)
  dispatch l op_truncate heap = pure (status capfs_op_truncate, heap)
  dispatch l op_utimens heap = pure (status capfs_op_utimens, heap)
  dispatch l op_flush heap = pure (status capfs_op_flush, heap)
  dispatch l op_fsync heap = pure (status capfs_op_fsync, heap)
  dispatch l op_statfs heap = pure (status capfs_op_statfs, heap)
  dispatch l op_create heap = pure (status capfs_op_create, heap)
  dispatch l (op_open path fh) heap =
      capfs_op_open (layer l) l.cap l.md heap path fh >>= λ r. pure (opened r.0 r.1, r.2)
  dispatch l (op_release fi) heap = let r = capfs_op_release heap fi in pure (status r.0, r.1)
  dispatch l (op_read path rbuf size offset fi) heap =
      capfs_op_read (layer l) l.cap l.md heap path rbuf size offset fi >>= λ r.
      pure (buffer r.0 r.1, heap)
  dispatch l (op_write path wbuf size offset fi) heap =
      capfs_op_write (layer l) l.cap l.md heap path wbuf size offset fi >>= λ r.
      pure (status r, heap)
  dispatch l (op_ioctl path cmd fi flags out) heap =
      capfs_op_ioctl (layer l) l.cap l.md heap path cmd fi flags out >>= λ r.
      pure (reference r.0 r.1, heap)

  -- The calls of a session, one after the other.
  unfoldable pub serve : List (Locals × Call) → Heap → M (List Reply × Heap)
  serve [] heap = pure ([], heap)
  serve ((l, call) ∷ calls) heap =
      dispatch l call heap >>= λ r. serve calls r.1 >>= λ rest. pure (r.0 ∷ rest.0, rest.1)

  -- `init` and then the calls.
  unfoldable pub session :
      Disk → CapfsFile → CapfsFile → List (Locals × Call) → Heap → M (List Reply × Heap)
  session disk local old calls heap = capfs_op_init disk local old >>= λ _. serve calls heap
