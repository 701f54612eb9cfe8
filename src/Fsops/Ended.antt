-- ===== src/Fsops/Ended.antt =====
-- Every call of a session over src/filesystem.c and src/backends/files.c comes to an end.
use capfs.Base.{
  ℕ, zero, suc, ◌≤◌, arith, not, Option, none, some, List, [], ◌∷◌, ◌==◌, ltb, is_nonzero, bit_and,
}
use capfs.Machine.{State, M}
use capfs.Machine.Ends.{Ends, normally, by_abort, by_exit, Ends-bind, Ends-if}
use capfs.Filetype.{filetype_none, filetype_file}
use capfs.CapfsFile.{CapfsFile}
use capfs.Startup.{Disk}
use capfs.Startup.Ended.{backend_init-Ends}
use capfs.Backend.Ended.{read-Ends, write-Ends}
use capfs.Filesystem.{MetaData, capfs_filesystem_get_direntry}
use capfs.Filesystem.Ended.{filesystem_init-Ends, resolve_path-Ends}
use capfs.Handle.{Handle, Heap, free, cap_fs_handle_free}
use capfs.Fsops.{resolved, target, path_given, deref, direntries, is_directory, fuse_ioctl_compat}
use capfs.Fsops.{capfs_op_getattr, capfs_op_access, capfs_op_open, capfs_op_opendir}
use capfs.Fsops.{capfs_op_read, capfs_op_write, capfs_op_readdir}
use capfs.Fsops.Session.{capfs_op_init, capfs_op_ioctl, capfs_op_releasedir}
use capfs.Fsops.Dispatch.{Call, Locals, dispatch, serve, session, over_files}
use capfs.Fsops.Dispatch.{
  op_getattr, op_access, op_opendir, op_readdir, op_releasedir, op_readlink, op_mknod, op_mkdir,
  op_symlink, op_unlink, op_rmdir, op_rename, op_link, op_chmod, op_chown, op_truncate, op_utimens,
  op_flush, op_fsync, op_statfs, op_create, op_open, op_release, op_read, op_write, op_ioctl,
}

module _ (l : Locals) where
  resolved-Ends :
      {A : Type 0} (path : Option (List ℕ)) (found : ℕ → MetaData → M A) (no_path no_metadata : M A)
      (s : State)
      → ((file : ℕ) (meta : MetaData) (t : State) → Ends (found file meta t))
      → ((t : State) → Ends (no_path t))
      → ((t : State) → Ends (no_metadata t))
      → Ends (resolved (over_files l) l.cap l.md path found no_path no_metadata s)
  unfolding resolved
  resolved-Ends path found no_path no_metadata s on_found on_no_path on_no_metadata =
      Ends-bind (resolve_path-Ends l.file l.content_cap l.copied s.root_capability path l.cap s)
        λ r t.
          Ends-if (is_nonzero r.0) _ _ (λ _. on_no_path t)
            λ _.
              Ends-if (is_nonzero (((over_files l).get_metadata r.1 l.md).0)) _ _
                (λ _. on_no_metadata t) λ _. on_found _ _ t

  path_given-Ends :
      {A : Type 0} (path : Option (List ℕ)) (m : M A) (s : State)
      → Ends (m s)
      → Ends (path_given path m s)
  unfolding path_given
  path_given-Ends none m s h = by_abort
  path_given-Ends (some path) m s h = h

  deref-Ends :
      {A : Type 0} (h : Option Handle) (found : Handle → M A) (s : State)
      → ((h : Handle) → Ends (found h s))
      → Ends (deref h found s)
  unfolding deref
  deref-Ends none found s ends' = by_abort
  deref-Ends (some h) found s ends' = ends' h

  target-Ends :
      {A : Type 0} (heap : Heap) (path : Option (List ℕ)) (fi : Option ℕ) (found : Handle → M A)
      (failed : M A) (s : State)
      → ((h : Handle) (t : State) → Ends (found h t))
      → ((t : State) → Ends (failed t))
      → Ends (target (over_files l) l.cap l.md heap path fi found failed s)
  unfolding target
  target-Ends heap path none found failed s on_found on_failed =
      resolved-Ends path _ _ _ s (λ file meta t. on_found _ t) on_failed on_failed
  target-Ends heap path (some fh) found failed s on_found on_failed =
      Ends-if (fh == 0) _ _
        (λ _. resolved-Ends path _ _ _ s (λ file meta t. on_found _ t) on_failed on_failed)
        (λ _. deref-Ends (heap.live fh) found s λ h. on_found h s)

  aimed-Ends :
      {A : Type 0} (heap : Heap) (path : Option (List ℕ)) (fi : Option ℕ) (found : Handle → M A)
      (failed : M A) (s : State)
      → ((h : Handle) (t : State) → Ends (found h t))
      → ((t : State) → Ends (failed t))
      → Ends (path_given path (target (over_files l) l.cap l.md heap path fi found failed) s)
  aimed-Ends heap path fi found failed s on_found on_failed =
      path_given-Ends path _ s (target-Ends heap path fi found failed s on_found on_failed)

-- The file system lists no entry, so that one round is enough.
direntries-Ends :
    (l : Locals) (rounds dircap offset : ℕ) (s : State)
    → 1 ≤ rounds
    → Ends (direntries (over_files l) l.cap l.md rounds dircap offset s)
unfolding direntries capfs_filesystem_get_direntry
direntries-Ends l zero dircap offset s enough = absurd (omega arith)
direntries-Ends l (suc rounds) dircap offset s enough = normally

free-Ends : (a : ℕ) (heap : Heap) (o : Option Handle) (s : State) → Ends (free a heap o s)
unfolding free
free-Ends a heap none s = by_abort
free-Ends a heap (some h) s = normally

handle_free-Ends : (a : ℕ) (heap : Heap) (s : State) → Ends (cap_fs_handle_free a heap s)
unfolding cap_fs_handle_free
handle_free-Ends a heap s =
    Ends-if (a == 0) _ _ (λ _. normally) λ _. free-Ends a heap (heap.live a) s

releasedir-Ends : (heap : Heap) (fi : Option ℕ) (s : State) → Ends (capfs_op_releasedir heap fi s)
unfolding capfs_op_releasedir
releasedir-Ends heap none s = normally
releasedir-Ends heap (some fh) s =
    Ends-if (fh == 0) _ _ (λ _. normally)
      λ _. Ends-bind (handle_free-Ends fh heap s) λ left t. normally

module _ (rounds : ℕ) (enough : 1 ≤ rounds) where
  dispatch-Ends :
      (l : Locals) (call : Call) (heap : Heap) (s : State)
      → Ends (dispatch over_files rounds l call heap s)
  unfolding dispatch capfs_op_getattr capfs_op_access capfs_op_open capfs_op_opendir capfs_op_read
      capfs_op_write capfs_op_readdir capfs_op_ioctl
  dispatch-Ends l (op_getattr path stbuf fi) heap s =
      Ends-bind (aimed-Ends l heap path fi _ _ s (λ h t. normally) (λ t. normally)) λ r t. normally
  dispatch-Ends l (op_access path mask) heap s =
      Ends-bind
        (resolved-Ends l path _ _ _ s
          (λ file meta t. Ends-if (meta.type == filetype_none) _ _ (λ _. normally) (λ _. normally))
          (λ t. normally) (λ t. normally))
        λ r t. normally
  dispatch-Ends l (op_opendir path fh) heap s =
      Ends-bind
        (path_given-Ends l path _ s (
          resolved-Ends l path _ _ _ s
            (λ file meta t. Ends-if (is_directory meta.type) _ _ (λ _. normally) (λ _. normally))
            (λ t. normally) (λ t. normally)))
        λ r t. normally
  dispatch-Ends l (op_readdir path offset fi) heap s =
      Ends-bind
        (aimed-Ends l heap path fi _ _ s
          (λ h t.
            Ends-if (is_directory h.type) _ _
              (λ _. Ends-bind (direntries-Ends l rounds h.cap offset t enough) λ names u. normally)
              (λ _. normally))
          (λ t. normally))
        λ r t. normally
  dispatch-Ends l (op_open path fh) heap s =
      Ends-bind
        (path_given-Ends l path _ s (
          resolved-Ends l path _ _ _ s
            (λ file meta t.
              Ends-if (not (meta.type == filetype_file)) _ _ (λ _. normally) (λ _. normally))
            (λ t. normally) (λ t. normally)))
        λ r t. normally
  dispatch-Ends l (op_read path rbuf size offset fi) heap s =
      Ends-bind
        (aimed-Ends l heap path fi _ _ s
          (λ h t.
            Ends-if (not (h.type == filetype_file)) _ _ (λ _. normally)
              λ _.
                Ends-if (ltb h.size offset) _ _ (λ _. normally)
                  λ _. Ends-bind (read-Ends h.cap offset rbuf size t) λ r u. normally)
          (λ t. normally))
        λ r t. normally
  dispatch-Ends l (op_write path wbuf size offset fi) heap s =
      Ends-bind
        (aimed-Ends l heap path fi _ _ s
          (λ h t.
            Ends-if (not (h.type == filetype_file)) _ _ (λ _. normally)
              λ _.
                Ends-if (ltb h.size offset) _ _ (λ _. normally)
                  λ _. Ends-bind (write-Ends h.cap offset wbuf size t) λ r u. normally)
          (λ t. normally))
        λ r t. normally
  dispatch-Ends l (op_ioctl path cmd fi flags out) heap s =
      Ends-bind
        (path_given-Ends l path _ s (
          Ends-if (not (bit_and flags fuse_ioctl_compat == 0)) _ _ (λ _. normally)
            λ _. target-Ends l heap path fi _ _ s (λ h t. normally) (λ t. normally)))
        λ r t. normally
  dispatch-Ends l (op_releasedir fi) heap s = Ends-bind (releasedir-Ends heap fi s) λ r t. normally
  dispatch-Ends l (op_release fi) heap s = normally
  dispatch-Ends l op_readlink heap s = normally
  dispatch-Ends l op_mknod heap s = normally
  dispatch-Ends l op_mkdir heap s = normally
  dispatch-Ends l op_symlink heap s = normally
  dispatch-Ends l op_unlink heap s = normally
  dispatch-Ends l op_rmdir heap s = normally
  dispatch-Ends l op_rename heap s = normally
  dispatch-Ends l op_link heap s = normally
  dispatch-Ends l op_chmod heap s = normally
  dispatch-Ends l op_chown heap s = normally
  dispatch-Ends l op_truncate heap s = normally
  dispatch-Ends l op_utimens heap s = normally
  dispatch-Ends l op_flush heap s = normally
  dispatch-Ends l op_fsync heap s = normally
  dispatch-Ends l op_statfs heap s = normally
  dispatch-Ends l op_create heap s = normally

  serve-Ends :
      (calls : List (Locals × Call)) (heap : Heap) (s : State)
      → Ends (serve over_files rounds calls heap s)
  unfolding serve
  serve-Ends [] heap s = normally
  serve-Ends ((l, call) ∷ calls) heap s =
      Ends-bind (dispatch-Ends l call heap s)
        λ r t. Ends-bind (serve-Ends calls r.1 t) λ rest u. normally

op_init-Ends :
    (disk : Disk) (local old : CapfsFile) (s : State) → Ends (capfs_op_init disk local old s)
unfolding capfs_op_init
op_init-Ends disk local old s = Ends-bind (backend_init-Ends disk s) λ _ t.
    Ends-bind (filesystem_init-Ends local old t.root_capability t)
      λ r u. Ends-if (is_nonzero r.0) _ _ (λ _. by_exit) (λ _. normally)

-- Over the file backend, with at least one round for `readdir`, `capfs_op_init` followed by any
-- sequence of calls from the table of operations comes to an end, from every state, disk and heap,
-- whatever the uninitialised locals hold and however the I/O calls turn out.
pub session-Ends :
    (rounds : ℕ) (disk : Disk) (local old : CapfsFile) (calls : List (Locals × Call)) (heap : Heap)
    (s : State)
    → 1 ≤ rounds
    → Ends (session over_files rounds disk local old calls heap s)
unfolding session
session-Ends rounds disk local old calls heap s enough =
    Ends-bind (op_init-Ends disk local old s) λ _ t. serve-Ends rounds enough calls heap t
