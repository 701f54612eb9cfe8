-- ===== src/Fsops/Kept.antt =====
-- What the calls of a session make of the handles, over any file system.
use capfs.Base.{
  ℕ, ◌≡◌, ◌≢◌, ap, ◌∙◌, inl, inr, false, not, Option, none, some, List, [], ◌∷◌, ◌==◌, arith,
  Bool-cases,
}
use capfs.Machine.{State, Run, continue, pure}
use capfs.Machine.Post.{Leads, ends, aborts, Leads-bind, Leads-if}
use capfs.Filesystem.{MetaData}
use capfs.Filetype.{filetype_file}
use capfs.Handle.{Handle, Heap, put, offered, free, cap_fs_handle_alloc, cap_fs_handle_free}
use capfs.Layer.{Layer}
use capfs.Fsops.{
  allocate, is_directory, capfs_op_open, capfs_op_opendir, capfs_op_getattr, capfs_op_access,
}
use capfs.Fsops.{capfs_op_read, capfs_op_write, capfs_op_readdir}
use capfs.Fsops.Session.{capfs_op_ioctl, capfs_op_release, capfs_op_releasedir}
use capfs.Fsops.Handles.{some_is, offered-fresh, Leads-any, resolved-Leads, path_given-Leads}
use capfs.Fsops.Dispatch.{Call, Reply, Locals, dispatch, serve}
use capfs.Fsops.Dispatch.{
  op_getattr, op_access, op_opendir, op_readdir, op_releasedir, op_readlink, op_mknod, op_mkdir,
  op_symlink, op_unlink, op_rmdir, op_rename, op_link, op_chmod, op_chown, op_truncate, op_utimens,
  op_flush, op_fsync, op_statfs, op_create, op_open, op_release, op_read, op_write, op_ioctl,
}

-- A handle is live at its address, and is no argument of a `releasedir`.
abbrev pub Kept : ℕ → Handle → Heap → Type 0
Kept fh h heap = heap.live fh ≡ some h

abbrev pub IsNotReleased : ℕ → Call → Type 0
IsNotReleased fh (op_releasedir (some other)) = other ≢ fh
IsNotReleased fh call = Unit {0}

abbrev pub NotReleased : ℕ → List (Locals × Call) → Type 0
NotReleased fh [] = Unit {0}
NotReleased fh ((l, call) ∷ calls) = IsNotReleased fh call × NotReleased fh calls

module _ (fh : ℕ) (h : Handle) where
  -- An address that holds something is not given out.
  offered-Kept :
      (heap : Heap)
      → Kept fh h heap
      → (offered heap heap.offers == 0) ≡ false
      → (fh == offered heap heap.offers) ≡ false
  offered-Kept heap k given = elim (Bool-cases (fh == offered heap heap.offers)) [
    | inl same ↦
        let here : fh ≡ offered heap heap.offers = ground arith in
        absurd (some_is k (ap heap.live here ∙ offered-fresh heap heap.offers given))
    | inr other ↦ other
  ]

  allocate-Kept :
      (heap : Heap) (file : ℕ) (meta : MetaData) (old : ℕ)
      → Kept fh h heap
      → Kept fh h (allocate heap file meta old).2
  unfolding allocate cap_fs_handle_alloc put
  allocate-Kept heap file meta old k = elim (Bool-cases (offered heap heap.offers == 0)) [
    | inl e ↦ rw e k
    | inr e ↦ rw (e, e) (rw (offered-Kept heap k e) k)
  ]

  free-Kept :
      (a : ℕ) (heap : Heap) (o : Option Handle) (t : State)
      → a ≢ fh
      → Kept fh h heap
      → Leads (λ left _. Kept fh h left) (free a heap o t)
  unfolding free put
  free-Kept a heap none t other k = aborts
  free-Kept a heap (some g) t other k =
      let elsewhere : (fh == a) ≡ false = ground (arith, other) in ends (rw elsewhere k)

  handle_free-Kept :
      (a : ℕ) (heap : Heap) (t : State)
      → a ≢ fh
      → Kept fh h heap
      → Leads (λ left _. Kept fh h left) (cap_fs_handle_free a heap t)
  unfolding cap_fs_handle_free
  handle_free-Kept a heap t other k =
      Leads-if (a == 0) _ _ (λ _. ends k) λ _. free-Kept a heap (heap.live a) t other k

  releasedir-Kept :
      (heap : Heap) (fi : Option ℕ) (t : State)
      → IsNotReleased fh (op_releasedir fi)
      → Kept fh h heap
      → Leads (λ r _. Kept fh h r.1) (capfs_op_releasedir heap fi t)
  unfolding capfs_op_releasedir
  releasedir-Kept heap none t other k = ends k
  releasedir-Kept heap (some a) t other k =
      Leads-if (a == 0) _ _ (λ _. ends k)
        λ _. Leads-bind (handle_free-Kept a heap t other k) λ left u kept. ends kept

  module _ (layer : Layer) (cap : ℕ) (md : MetaData) (heap : Heap) (k : Kept fh h heap) where
    opendir-Kept :
        (path : Option (List ℕ)) (old : ℕ) (s : State)
        → Leads (λ r _. Kept fh h r.2) (capfs_op_opendir layer cap md heap path old s)
    unfolding capfs_op_opendir
    opendir-Kept path old s = path_given-Leads path _ s (
        resolved-Leads layer cap md path _ _ _ s
          (λ file meta t.
            Leads-if (is_directory meta.type) _ _ (λ _. ends (allocate-Kept heap file meta old k))
              (λ _. ends k))
          (λ t. ends k) (λ t. ends k))

    open-Kept :
        (path : Option (List ℕ)) (old : ℕ) (s : State)
        → Leads (λ r _. Kept fh h r.2) (capfs_op_open layer cap md heap path old s)
    unfolding capfs_op_open
    open-Kept path old s = path_given-Leads path _ s (
        resolved-Leads layer cap md path _ _ _ s
          (λ file meta t.
            Leads-if (not (meta.type == filetype_file)) _ _ (λ _. ends k)
              (λ _. ends (allocate-Kept heap file meta old k)))
          (λ t. ends k) (λ t. ends k))

  -- A call that does not see to the heap.
  untouched :
      {A : Type 0} (heap : Heap) (reply : A → Reply)
      → Kept fh h heap
      → (r : Run A)
      → Leads (λ (r' : Reply × Heap) _. Kept fh h r'.1) (continue r λ a. pure (reply a, heap))
  untouched heap reply k r = Leads-bind (Leads-any r) λ a t _. ends k

module _ (layer : Locals → Layer) (rounds : ℕ) (fh : ℕ) (h : Handle) where
  dispatch-Kept :
      (l : Locals) (call : Call) (heap : Heap) (s : State)
      → IsNotReleased fh call
      → Kept fh h heap
      → Leads (λ r _. Kept fh h r.1) (dispatch layer rounds l call heap s)
  unfolding dispatch capfs_op_release
  dispatch-Kept l (op_opendir path old) heap s other k =
      Leads-bind (opendir-Kept fh h (layer l) l.cap l.md heap k path old s) λ r t kept. ends kept
  dispatch-Kept l (op_open path old) heap s other k =
      Leads-bind (open-Kept fh h (layer l) l.cap l.md heap k path old s) λ r t kept. ends kept
  dispatch-Kept l (op_releasedir fi) heap s other k =
      Leads-bind (releasedir-Kept fh h heap fi s other k) λ r t kept. ends kept
  dispatch-Kept l (op_getattr path stbuf fi) heap s other k =
      untouched fh h heap _ k (capfs_op_getattr (layer l) l.cap l.md heap path stbuf fi s)
  dispatch-Kept l (op_access path mask) heap s other k =
      untouched fh h heap _ k (capfs_op_access (layer l) l.cap l.md path mask s)
  dispatch-Kept l (op_readdir path offset fi) heap s other k =
      untouched fh h heap _ k (capfs_op_readdir (layer l) l.cap l.md rounds heap path offset fi s)
  dispatch-Kept l (op_read path rbuf size offset fi) heap s other k =
      untouched fh h heap _ k (capfs_op_read (layer l) l.cap l.md heap path rbuf size offset fi s)
  dispatch-Kept l (op_write path wbuf size offset fi) heap s other k =
      untouched fh h heap _ k (capfs_op_write (layer l) l.cap l.md heap path wbuf size offset fi s)
  dispatch-Kept l (op_ioctl path cmd fi flags out) heap s other k =
      untouched fh h heap _ k (capfs_op_ioctl (layer l) l.cap l.md heap path cmd fi flags out s)
  dispatch-Kept l (op_release fi) heap s other k = ends k
  dispatch-Kept l op_readlink heap s other k = ends k
  dispatch-Kept l op_mknod heap s other k = ends k
  dispatch-Kept l op_mkdir heap s other k = ends k
  dispatch-Kept l op_symlink heap s other k = ends k
  dispatch-Kept l op_unlink heap s other k = ends k
  dispatch-Kept l op_rmdir heap s other k = ends k
  dispatch-Kept l op_rename heap s other k = ends k
  dispatch-Kept l op_link heap s other k = ends k
  dispatch-Kept l op_chmod heap s other k = ends k
  dispatch-Kept l op_chown heap s other k = ends k
  dispatch-Kept l op_truncate heap s other k = ends k
  dispatch-Kept l op_utimens heap s other k = ends k
  dispatch-Kept l op_flush heap s other k = ends k
  dispatch-Kept l op_fsync heap s other k = ends k
  dispatch-Kept l op_statfs heap s other k = ends k
  dispatch-Kept l op_create heap s other k = ends k

  -- Over any file system, and whatever addresses `calloc` finds, freed ones again included, a
  -- handle that is live stays live at its address and unchanged through any sequence of calls from
  -- the table of operations that returns, if none of them is a `releasedir` of that address.
  pub serve-Kept :
      (calls : List (Locals × Call)) (heap : Heap) (s : State)
      → Kept fh h heap
      → NotReleased fh calls
      → Leads (λ r _. Kept fh h r.1) (serve layer rounds calls heap s)
  unfolding serve
  serve-Kept [] heap s k others = ends k
  serve-Kept ((l, call) ∷ calls) heap s k (other, others) =
      Leads-bind (dispatch-Kept l call heap s other k)
        λ r t kept. Leads-bind (serve-Kept calls r.1 t kept others) λ rest u later. ends later
