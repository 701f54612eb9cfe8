-- ===== src/Fsops/Refused.antt =====
-- Sessions over src/filesystem.c and src/backends/files.c, from their start: there is no handle yet.
use capfs.Base.{
  ℕ, ◌≡◌, refl, ap, ◌∙◌, ◌⊎◌, inl, inr, not, List, [], ◌∷◌, ◌==◌, neg, enoent, einval, enosys,
  bit_and,
}
use capfs.Machine.{State}
use capfs.Machine.Post.{Leads, ends, Leads-bind, Leads-if}
use capfs.Backend.Confined.{Confined}
use capfs.Handle.{Heap}
use capfs.Fsops.{fuse_ioctl_compat}
use capfs.Fsops.{capfs_op_getattr, capfs_op_access, capfs_op_open, capfs_op_opendir}
use capfs.Fsops.{capfs_op_read, capfs_op_write, capfs_op_readdir}
use capfs.Fsops.Session.{capfs_op_ioctl, capfs_op_release}
use capfs.Fsops.Handles.{path_given-Leads}
use capfs.Fsops.Dispatch.{Call, Reply, Locals, dispatch, serve, over_files}
use capfs.Fsops.Dispatch.{status, attributes, buffer, names, reference}
use capfs.Fsops.Dispatch.{
  op_getattr, op_access, op_opendir, op_readdir, op_releasedir, op_readlink, op_mknod, op_mkdir,
  op_symlink, op_unlink, op_rmdir, op_rename, op_link, op_chmod, op_chown, op_truncate, op_utimens,
  op_flush, op_fsync, op_statfs, op_create, op_open, op_release, op_read, op_write, op_ioctl,
}
use capfs.Fsops.Idle.{
  IsRefused, IsEmpty, IsIdle, unresolved, untargeted, not_opened, answered, releasedir-IsEmpty,
}

-- A call on a session without handles.
module _ (rounds : ℕ) where
  dispatch-IsRefused :
      (l : Locals) (call : Call) (heap : Heap) (s : State)
      → IsEmpty heap
      → Leads (IsIdle (IsRefused call) s) (dispatch over_files rounds l call heap s)
  unfolding dispatch capfs_op_getattr capfs_op_access capfs_op_open capfs_op_opendir capfs_op_read
      capfs_op_write capfs_op_readdir capfs_op_ioctl capfs_op_release
  dispatch-IsRefused l (op_getattr path stbuf fi) heap s v =
      answered l heap v (IsRefused (op_getattr path stbuf fi)) (λ r. r ≡ (neg enoent, stbuf))
        (λ r. attributes r.0 r.1) s
        (path_given-Leads path _ s (untargeted l heap v path fi _ (neg enoent, stbuf) s refl))
        λ r e. ap (λ x. attributes x.0 x.1) e
  dispatch-IsRefused l (op_access path mask) heap s v =
      answered l heap v (IsRefused (op_access path mask)) (λ r. r ≡ neg enoent) (λ r. status r) s
        (unresolved l heap v path _ (neg enoent) (neg enoent) s refl refl) λ r e. ap status e
  dispatch-IsRefused l (op_readdir path offset fi) heap s v =
      answered l heap v (IsRefused (op_readdir path offset fi)) (λ r. r ≡ (neg enoent, []))
        (λ r. names r.0 r.1) s
        (path_given-Leads path _ s (untargeted l heap v path fi _ (neg enoent, []) s refl))
        λ r e. ap (λ x. names x.0 x.1) e
  dispatch-IsRefused l (op_read path rbuf size offset fi) heap s v =
      answered l heap v (IsRefused (op_read path rbuf size offset fi)) (λ r. r ≡ (neg enoent, rbuf))
        (λ r. buffer r.0 r.1) s
        (path_given-Leads path _ s (untargeted l heap v path fi _ (neg enoent, rbuf) s refl))
        λ r e. ap (λ x. buffer x.0 x.1) e
  dispatch-IsRefused l (op_write path wbuf size offset fi) heap s v =
      answered l heap v (IsRefused (op_write path wbuf size offset fi)) (λ r. r ≡ neg enoent)
        (λ r. status r) s
        (path_given-Leads path _ s (untargeted l heap v path fi _ (neg enoent) s refl))
        λ r e. ap status e
  dispatch-IsRefused l (op_ioctl path cmd fi flags out) heap s v =
      answered l heap v (IsRefused (op_ioctl path cmd fi flags out))
        (λ r. (r ≡ (neg enosys, out)) ⊎ (r ≡ (neg enoent, out))) (λ r. reference r.0 r.1) s
        (path_given-Leads path _ s (
          Leads-if (not (bit_and flags fuse_ioctl_compat == 0)) _ _
            (λ _. ends (inl refl, λ i h. refl))
            (λ _. untargeted l heap v path fi _ (neg enoent, out) s (inr refl))))
        λ r h. elim h [
          | inl e ↦ inl (ap (λ x. reference x.0 x.1) e)
          | inr e ↦ inr (ap (λ x. reference x.0 x.1) e)
        ]
  dispatch-IsRefused l (op_opendir path fh) heap s v =
      Leads-bind
        (path_given-Leads path _ s (
          unresolved l heap v path _ (neg einval, fh, heap) (neg enoent, fh, heap) s (inl refl)
            (inr refl)))
        λ r t (h, same).
          let (refused, empty) = not_opened l heap v fh r h in ends (refused, empty, same)
  dispatch-IsRefused l (op_open path fh) heap s v =
      Leads-bind
        (path_given-Leads path _ s (
          unresolved l heap v path _ (neg einval, fh, heap) (neg enoent, fh, heap) s (inl refl)
            (inr refl)))
        λ r t (h, same).
          let (refused, empty) = not_opened l heap v fh r h in ends (refused, empty, same)
  dispatch-IsRefused l (op_releasedir fi) heap s v =
      Leads-bind (releasedir-IsEmpty l heap v fi s)
        λ r t (fine, empty, same). ends (ap status fine, empty, same)
  dispatch-IsRefused l (op_release fi) heap s v = ends (refl, v, λ i h. refl)
  dispatch-IsRefused l op_readlink heap s v = ends (refl, v, λ i h. refl)
  dispatch-IsRefused l op_mknod heap s v = ends (refl, v, λ i h. refl)
  dispatch-IsRefused l op_mkdir heap s v = ends (refl, v, λ i h. refl)
  dispatch-IsRefused l op_symlink heap s v = ends (refl, v, λ i h. refl)
  dispatch-IsRefused l op_unlink heap s v = ends (refl, v, λ i h. refl)
  dispatch-IsRefused l op_rmdir heap s v = ends (refl, v, λ i h. refl)
  dispatch-IsRefused l op_rename heap s v = ends (refl, v, λ i h. refl)
  dispatch-IsRefused l op_link heap s v = ends (refl, v, λ i h. refl)
  dispatch-IsRefused l op_chmod heap s v = ends (refl, v, λ i h. refl)
  dispatch-IsRefused l op_chown heap s v = ends (refl, v, λ i h. refl)
  dispatch-IsRefused l op_truncate heap s v = ends (refl, v, λ i h. refl)
  dispatch-IsRefused l op_utimens heap s v = ends (refl, v, λ i h. refl)
  dispatch-IsRefused l op_flush heap s v = ends (refl, v, λ i h. refl)
  dispatch-IsRefused l op_fsync heap s v = ends (refl, v, λ i h. refl)
  dispatch-IsRefused l op_statfs heap s v = ends (refl, v, λ i h. refl)
  dispatch-IsRefused l op_create heap s v = ends (refl, v, λ i h. refl)

-- The replies of a session, one for each call.
abbrev pub AreRefused : List (Locals × Call) → List Reply → Type 0
AreRefused [] [] = Unit {0}
AreRefused [] (r ∷ rs) = ⊥
AreRefused (c ∷ cs) [] = ⊥
AreRefused ((l, call) ∷ cs) (r ∷ rs) = IsRefused call r × AreRefused cs rs

module _ (rounds : ℕ) where
  -- Over the file backend, from a heap without handles, any sequence of calls from the table of
  -- operations, if it returns, changes no data and makes no handle, and each call that has
  -- something to do is refused with an error that leaves its output as it was (`releasedir`,
  -- `flush` and `fsync` give 0), whatever the paths, the locals and the outcome of the I/O calls.
  pub serve-AreRefused :
      (calls : List (Locals × Call)) (heap : Heap) (s : State)
      → IsEmpty heap
      → Leads
          (λ r t. AreRefused calls r.0 × IsEmpty r.1 × Confined 0 0 s t)
          (serve over_files rounds calls heap s)
  unfolding serve
  serve-AreRefused [] heap s v = ends (tt, v, λ i h. refl)
  serve-AreRefused ((l, call) ∷ calls) heap s v =
      Leads-bind (dispatch-IsRefused rounds l call heap s v) λ r t (refused, empty, same).
        Leads-bind (serve-AreRefused calls r.1 t empty) λ rest u (others, still, then_same).
          ends ((refused, others), still, λ i h. then_same i h ∙ same i h)
