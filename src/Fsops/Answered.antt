-- ===== src/Fsops/Answered.antt =====
-- Sessions over src/filesystem.c and src/backends/files.c on a backend file on which every call works.
use capfs.Base.{ℕ, ◌≡◌, not, Option, none, some, List, [], ◌∷◌, ◌==◌, is_nonzero, bit_and}
use capfs.Machine.{State, Run, ok, M, continue}
use capfs.Machine.Post.{Returns, returns, Returns-bind}
use capfs.Handle.{Handle, Heap}
use capfs.Filesystem.{MetaData, capfs_filesystem_get_metadata}
use capfs.Filesystem.Reading.{Lasting, resolve_path-Lasting, either}
use capfs.Fsops.{resolved, target, path_given, fuse_ioctl_compat}
use capfs.Fsops.{capfs_op_getattr, capfs_op_access, capfs_op_open, capfs_op_opendir}
use capfs.Fsops.{capfs_op_read, capfs_op_write, capfs_op_readdir}
use capfs.Fsops.Session.{capfs_op_ioctl, capfs_op_releasedir}
use capfs.Fsops.Dispatch.{Call, Reply, Locals, dispatch, serve, over_files}
use capfs.Fsops.Dispatch.{
  op_getattr, op_access, op_opendir, op_readdir, op_releasedir, op_readlink, op_mknod, op_mkdir,
  op_symlink, op_unlink, op_rmdir, op_rename, op_link, op_chmod, op_chown, op_truncate, op_utimens,
  op_flush, op_fsync, op_statfs, op_create, op_open, op_release, op_read, op_write, op_ioctl,
}

-- The path is no `NULL`, and `fi` has no handle: it is `NULL`, or `fi->fh` is 0.
abbrev pub IsGiven : Option (List ℕ) → Type 0
IsGiven none = ⊥
IsGiven (some path) = Unit {0}

abbrev pub HasNoHandle : Option ℕ → Type 0
HasNoHandle none = Unit {0}
HasNoHandle (some fh) = fh ≡ 0

-- The calls that FUSE makes while no file is open.
abbrev pub IsPlain : Call → Type 0
IsPlain (op_getattr path stbuf fi) = IsGiven path × HasNoHandle fi
IsPlain (op_opendir path fh) = IsGiven path
IsPlain (op_open path fh) = IsGiven path
IsPlain (op_readdir path offset fi) = IsGiven path × HasNoHandle fi
IsPlain (op_read path rbuf size offset fi) = IsGiven path × HasNoHandle fi
IsPlain (op_write path wbuf size offset fi) = IsGiven path × HasNoHandle fi
IsPlain (op_ioctl path cmd fi flags out) = IsGiven path × HasNoHandle fi
IsPlain (op_releasedir fi) = HasNoHandle fi
IsPlain call = Unit {0}

abbrev pub ArePlain : List (Locals × Call) → Type 0
ArePlain [] = Unit {0}
ArePlain ((l, call) ∷ calls) = IsPlain call × ArePlain calls

module _ {P : State → Type 0} (root : ℕ) (k : Lasting root P)
    (published : (s : State) → P s → s.root_capability ≡ root) where
  resolve_from :
      (l : Locals) (start : ℕ) (path : Option (List ℕ)) (s : State)
      → start ≡ root
      → P s
      → Returns (λ _ t. P t) ((over_files l).resolve_path start path l.cap s)
  resolve_from l start path s at p =
      rw at (resolve_path-Lasting root k l.file l.content_cap l.copied path l.cap s p)

  resolved-Returns :
      {A : Type 0} (l : Locals) (path : Option (List ℕ)) (found : ℕ → MetaData → M A)
      (no_path no_metadata : A) (s : State)
      → P s
      → Returns
          (λ _ t. P t)
          (resolved
            (over_files l)
            l.cap
            l.md
            path
            found
            (λ t. ok no_path t)
            (λ t. ok no_metadata t)
            s)
  unfolding resolved capfs_filesystem_get_metadata
  resolved-Returns l path found no_path no_metadata s p =
      Returns-bind (resolve_from l s.root_capability path s (published s p) p)
        λ r t still. either P (is_nonzero r.0) _ _ (returns still) (returns still)

  aimed-Returns :
      {A : Type 0} (l : Locals) (heap : Heap) (path : Option (List ℕ)) (fi : Option ℕ)
      (found : Handle → M A) (failed : A) (s : State)
      → HasNoHandle fi
      → P s
      → Returns
          (λ _ t. P t)
          (target (over_files l) l.cap l.md heap path fi found (λ t. ok failed t) s)
  unfolding target
  aimed-Returns l heap path none found failed s n p = resolved-Returns l path _ failed failed s p
  aimed-Returns l heap path (some fh) found failed s n p =
      rw n (resolved-Returns l path _ failed failed s p)

  given-Returns :
      {A : Type 0} (path : Option (List ℕ)) (m : M A) (s : State)
      → IsGiven path
      → Returns (λ _ t. P t) (m s)
      → Returns (λ _ t. P t) (path_given path m s)
  unfolding path_given
  given-Returns none m s g r = elim g [ ]
  given-Returns (some path) m s g r = r

  replied :
      {A : Type 0} (reply : A → Reply × Heap) {r : Run A}
      → Returns (λ _ t. P t) r
      → Returns (λ _ t. P t) (continue r λ a t. ok (reply a) t)
  replied reply r = Returns-bind r λ a t still. returns still

  module _ (rounds : ℕ) where
    dispatch-Returns :
        (l : Locals) (call : Call) (heap : Heap) (s : State)
        → IsPlain call
        → P s
        → Returns (λ _ t. P t) (dispatch over_files rounds l call heap s)
    unfolding dispatch capfs_op_getattr capfs_op_access capfs_op_open capfs_op_opendir capfs_op_read
        capfs_op_write capfs_op_readdir capfs_op_ioctl capfs_op_releasedir
    dispatch-Returns l (op_getattr path stbuf fi) heap s (g, n) p =
        replied _ (given-Returns path _ s g (aimed-Returns l heap path fi _ _ s n p))
    dispatch-Returns l (op_access path mask) heap s g p =
        replied _ (resolved-Returns l path _ _ _ s p)
    dispatch-Returns l (op_readdir path offset fi) heap s (g, n) p =
        replied _ (given-Returns path _ s g (aimed-Returns l heap path fi _ _ s n p))
    dispatch-Returns l (op_read path rbuf size offset fi) heap s (g, n) p =
        replied _ (given-Returns path _ s g (aimed-Returns l heap path fi _ _ s n p))
    dispatch-Returns l (op_write path wbuf size offset fi) heap s (g, n) p =
        replied _ (given-Returns path _ s g (aimed-Returns l heap path fi _ _ s n p))
    dispatch-Returns l (op_ioctl path cmd fi flags out) heap s (g, n) p = replied _ (
        given-Returns path _ s g (
          either P (not (bit_and flags fuse_ioctl_compat == 0)) _ _ (returns p)
            (aimed-Returns l heap path fi _ _ s n p)))
    dispatch-Returns l (op_opendir path fh) heap s g p =
        replied _ (given-Returns path _ s g (resolved-Returns l path _ _ _ s p))
    dispatch-Returns l (op_open path fh) heap s g p =
        replied _ (given-Returns path _ s g (resolved-Returns l path _ _ _ s p))
    dispatch-Returns l (op_releasedir none) heap s g p = returns p
    dispatch-Returns l (op_releasedir (some fh)) heap s g p = rw g (returns p)
    dispatch-Returns l (op_release fi) heap s g p = returns p
    dispatch-Returns l op_readlink heap s g p = returns p
    dispatch-Returns l op_mknod heap s g p = returns p
    dispatch-Returns l op_mkdir heap s g p = returns p
    dispatch-Returns l op_symlink heap s g p = returns p
    dispatch-Returns l op_unlink heap s g p = returns p
    dispatch-Returns l op_rmdir heap s g p = returns p
    dispatch-Returns l op_rename heap s g p = returns p
    dispatch-Returns l op_link heap s g p = returns p
    dispatch-Returns l op_chmod heap s g p = returns p
    dispatch-Returns l op_chown heap s g p = returns p
    dispatch-Returns l op_truncate heap s g p = returns p
    dispatch-Returns l op_utimens heap s g p = returns p
    dispatch-Returns l op_flush heap s g p = returns p
    dispatch-Returns l op_fsync heap s g p = returns p
    dispatch-Returns l op_statfs heap s g p = returns p
    dispatch-Returns l op_create heap s g p = returns p

    pub serve-Lasting :
        (calls : List (Locals × Call)) (heap : Heap) (s : State)
        → ArePlain calls
        → P s
        → Returns (λ _ t. P t) (serve over_files rounds calls heap s)
    unfolding serve
    serve-Lasting [] heap s g p = returns p
    serve-Lasting ((l, call) ∷ calls) heap s (g, later) p =
        Returns-bind (dispatch-Returns l call heap s g p) λ r t still.
          Returns-bind (serve-Lasting calls r.1 t later still) λ rest u kept. returns kept
