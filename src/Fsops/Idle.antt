-- ===== src/Fsops/Idle.antt =====
-- What a single call of src/fsops comes to over src/filesystem.c and src/backends/files.c, while there
-- is no handle.
use capfs.Base.{
  ℕ, ℤ, ◌≡◌, refl, ap, ◌∙◌, ◌⊎◌, inl, inr, Option, none, some, List, [], ◌==◌, pos, neg, is_nonzero,
  enoent, einval, enosys, enotsup,
}
use capfs.Machine.{State, Run, M, continue, pure}
use capfs.Machine.Post.{Leads, ends, aborts, Leads-bind, Leads-if}
use capfs.Backend.Confined.{Confined}
use capfs.Filesystem.{MetaData, capfs_filesystem_get_metadata}
use capfs.Filesystem.Untouched.{resolve_path-Untouched}
use capfs.Handle.{Handle, Heap, free, cap_fs_handle_free}
use capfs.Fsops.{resolved, target, deref}
use capfs.Fsops.Session.{capfs_op_releasedir}
use capfs.Fsops.Dispatch.{Call, Reply, Locals, over_files}
use capfs.Fsops.Dispatch.{status, attributes, opened, buffer, names, reference}
use capfs.Fsops.Dispatch.{
  op_getattr, op_access, op_opendir, op_readdir, op_releasedir, op_flush, op_fsync, op_open,
  op_read, op_write, op_ioctl,
}

-- The reply to each call: an error, with what it should fill in as it was, but for the calls that have
-- nothing to do.
abbrev pub IsRefused : Call → Reply → Type 0
IsRefused (op_getattr path stbuf fi) r = r ≡ attributes (neg enoent) stbuf
IsRefused (op_access path mask) r = r ≡ status (neg enoent)
IsRefused (op_opendir path fh) r = (r ≡ opened (neg einval) fh) ⊎ (r ≡ opened (neg enoent) fh)
IsRefused (op_open path fh) r = (r ≡ opened (neg einval) fh) ⊎ (r ≡ opened (neg enoent) fh)
IsRefused (op_readdir path offset fi) r = r ≡ names (neg enoent) []
IsRefused (op_read path rbuf size offset fi) r = r ≡ buffer (neg enoent) rbuf
IsRefused (op_write path wbuf size offset fi) r = r ≡ status (neg enoent)
IsRefused (op_ioctl path cmd fi flags out) r =
    (r ≡ reference (neg enosys) out) ⊎ (r ≡ reference (neg enoent) out)
IsRefused (op_releasedir fi) r = r ≡ status (pos 0)
IsRefused op_flush r = r ≡ status (pos 0)
IsRefused op_fsync r = r ≡ status (pos 0)
IsRefused call r = r ≡ status (neg enotsup)

-- No address holds a handle.
abbrev pub IsEmpty : Heap → Type 0
IsEmpty heap = (i : ℕ) → heap.live i ≡ none

-- From `s` on: the reply is as said, there is still no handle, and no data changed.
abbrev pub IsIdle : (Reply → Type 0) → State → Reply × Heap → State → Type 0
IsIdle P s r t = P r.0 × IsEmpty r.1 × Confined 0 0 s t

module _ (l : Locals) (heap : Heap) (empty : IsEmpty heap) where
  -- Resolving fails at the latest where the metadata are asked for.
  pub unresolved :
      {A : Type 0} {P : A → Type 0} (path : Option (List ℕ)) (found : ℕ → MetaData → M A)
      (no_path no_metadata : A) (s : State)
      → P no_path
      → P no_metadata
      → Leads
          (λ a t. P a × Confined 0 0 s t)
          (resolved
            (over_files l)
            l.cap
            l.md
            path
            found
            (λ t. Run.ok no_path t)
            (λ t. Run.ok no_metadata t)
            s)
  unfolding resolved capfs_filesystem_get_metadata
  unresolved path found no_path no_metadata s p q =
      Leads-bind
        (resolve_path-Untouched l.file l.content_cap l.copied s.root_capability path l.cap s)
        λ r t same. Leads-if (is_nonzero r.0) _ _ (λ _. ends (p, same)) (λ _. ends (q, same))

  pub untargeted :
      {A : Type 0} {P : A → Type 0} (path : Option (List ℕ)) (fi : Option ℕ) (found : Handle → M A)
      (failed : A) (s : State)
      → P failed
      → Leads
          (λ a t. P a × Confined 0 0 s t)
          (target (over_files l) l.cap l.md heap path fi found (λ t. Run.ok failed t) s)
  unfolding target deref
  untargeted path none found failed s p = unresolved path _ failed failed s p p
  untargeted path (some fh) found failed s p =
      Leads-if (fh == 0) _ _ (λ _. unresolved path _ failed failed s p p) λ _. rw (empty fh) aborts

  -- What `open` and `opendir` give back.
  abbrev pub NotOpened : ℕ → ℤ × ℕ × Heap → Type 0
  NotOpened fh r = (r ≡ (neg einval, fh, heap)) ⊎ (r ≡ (neg enoent, fh, heap))

  pub not_opened :
      (fh : ℕ) (r : ℤ × ℕ × Heap)
      → NotOpened fh r
      → ((opened r.0 r.1 ≡ opened (neg einval) fh) ⊎ (opened r.0 r.1 ≡ opened (neg enoent) fh))
        × IsEmpty r.2
  not_opened fh r (inl e) =
      (inl (ap (λ x. opened x.0 x.1) e), λ i. ap (λ x. x.2.live i) e ∙ empty i)
  not_opened fh r (inr e) =
      (inr (ap (λ x. opened x.0 x.1) e), λ i. ap (λ x. x.2.live i) e ∙ empty i)

  -- A call that does not see to the heap.
  pub answered :
      {A : Type 0} (P : Reply → Type 0) (Q : A → Type 0) (reply : A → Reply) (s : State) {r : Run A}
      → Leads (λ a t. Q a × Confined 0 0 s t) r
      → ((a : A) → Q a → P (reply a))
      → Leads (IsIdle P s) (continue r λ a. pure (reply a, heap))
  answered P Q reply s h weaken = Leads-bind h λ a t (q, same). ends (weaken a q, empty, same)

  pub releasedir-IsEmpty :
      (fi : Option ℕ) (s : State)
      → Leads
          (λ r t. (r.0 ≡ pos 0) × IsEmpty r.1 × Confined 0 0 s t)
          (capfs_op_releasedir heap fi s)
  unfolding capfs_op_releasedir cap_fs_handle_free free
  releasedir-IsEmpty none s = ends (refl, empty, λ i h. refl)
  releasedir-IsEmpty (some fh) s =
      Leads-if (fh == 0) _ _ (λ _. ends (refl, empty, λ i h. refl)) λ e. rw (e, empty fh) aborts
