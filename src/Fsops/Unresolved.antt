-- ===== src/Fsops/Unresolved.antt =====
-- The operations of src/fsops over src/filesystem.c and src/backends/files.c, without a handle.
use capfs.Base.{
  ℕ, ◌≡◌, ◌≢◌, refl, Bool, Option, none, some, [], List, pos, neg, is_nonzero, enoent, ◌⊎◌, inl,
  inr, arith,
}
use capfs.Machine.{State, M}
use capfs.Machine.Post.{Leads, ends, Leads-bind, Leads-if}
use capfs.CapfsFile.{CapfsFile}
use capfs.Filesystem.{MetaData, capfs_filesystem_get_metadata}
use capfs.Handle.{Handle, Heap}
use capfs.Layer.{Layer, files_layer}
use capfs.Fsops.{
  Stat, resolved, target, path_given, capfs_op_getattr, capfs_op_access, capfs_op_open,
}
use capfs.Fsops.{capfs_op_opendir, capfs_op_read, capfs_op_write, capfs_op_readdir}
use capfs.Fsops.Handles.{Leads-any, path_given-Leads}

module _ (local : ℕ → CapfsFile) (content_cap : ℕ → ℕ) (copied : Bool) (cap : ℕ)
    (md : MetaData) where
  abbrev layer : Layer
  layer = files_layer local content_cap copied

  unresolved :
      {A : Type 0} {P : A → State → Type 0} (path : Option (List ℕ)) (found : ℕ → MetaData → M A)
      (no_path no_metadata : M A) (s : State)
      → ((t : State) → Leads P (no_path t))
      → ((t : State) → Leads P (no_metadata t))
      → Leads P (resolved layer cap md path found no_path no_metadata s)
  unfolding resolved capfs_filesystem_get_metadata
  unresolved path found no_path no_metadata s on_no_path on_no_metadata =
      Leads-bind (Leads-any (layer.resolve_path s.root_capability path cap s))
        λ r t _. Leads-if (is_nonzero r.0) _ _ (λ _. on_no_path t) (λ _. on_no_metadata t)

  -- There is no handle: `fi` is `NULL`, or `fi->fh` is.
  untargeted :
      {A : Type 0} {P : A → State → Type 0} (heap : Heap) (path : Option (List ℕ)) (fi : Option ℕ)
      (found : Handle → M A) (failed : M A) (s : State)
      → (fi ≡ none) ⊎ (fi ≡ some 0)
      → ((t : State) → Leads P (failed t))
      → Leads P (path_given path (target layer cap md heap path fi found failed) s)
  unfolding target
  untargeted {P} heap path fi found failed s h on_failed = path_given-Leads path _ s (elim h [
    | inl e ↦ rw e (unresolved path _ _ _ s on_failed on_failed)
    | inr e ↦ rw e (unresolved path _ _ _ s on_failed on_failed)
  ])

  -- Over the file backend, without a handle, no operation on a path succeeds, for any path: if
  -- they return, `getattr`, `access`, `read`, `write` and `readdir` return -ENOENT with their
  -- outputs as they were, and `open` and `opendir` return an error and leave `fi->fh` and the
  -- heap.
  pub unresolved-Leads :
      (heap : Heap) (path : Option (List ℕ)) (fi : Option ℕ) (s : State)
      → (fi ≡ none) ⊎ (fi ≡ some 0)
      → ((st : Stat)
          → Leads (λ r _. r ≡ (neg enoent, st)) (capfs_op_getattr layer cap md heap path st fi s))
        × ((mask : ℕ) → Leads (λ r _. r ≡ neg enoent) (capfs_op_access layer cap md path mask s))
        × ((rbuf : List ℕ) (size offset : ℕ)
            → Leads
                (λ r _. r ≡ (neg enoent, rbuf))
                (capfs_op_read layer cap md heap path rbuf size offset fi s))
        × ((wbuf : List ℕ) (size offset : ℕ)
            → Leads
                (λ r t. r ≡ neg enoent)
                (capfs_op_write layer cap md heap path wbuf size offset fi s))
        × ((rounds offset : ℕ)
            → Leads
                (λ r _. r ≡ (neg enoent, []))
                (capfs_op_readdir layer cap md rounds heap path offset fi s))
        × ((fh : ℕ)
            → Leads
                (λ r _. (r.0 ≢ pos 0) × (r.1 ≡ fh) × (r.2 ≡ heap))
                (capfs_op_open layer cap md heap path fh s))
        × ((fh : ℕ)
            → Leads
                (λ r _. (r.0 ≢ pos 0) × (r.1 ≡ fh) × (r.2 ≡ heap))
                (capfs_op_opendir layer cap md heap path fh s))
  unfolding capfs_op_getattr capfs_op_access capfs_op_read capfs_op_write capfs_op_readdir
      capfs_op_open capfs_op_opendir
  unresolved-Leads heap path fi s h = (
    (λ st. untargeted heap path fi _ _ s h λ t. ends refl),
    (λ mask. unresolved path _ _ _ s (λ t. ends refl) (λ t. ends refl)),
    (λ rbuf size offset. untargeted heap path fi _ _ s h λ t. ends refl),
    (λ wbuf size offset. untargeted heap path fi _ _ s h λ t. ends refl),
    (λ rounds offset. untargeted heap path fi _ _ s h λ t. ends refl),
    (λ fh. path_given-Leads path _ s (
        unresolved path _ _ _ s (λ t. ends ((λ p. grind arith), refl, refl))
          (λ t. ends ((λ p. grind arith), refl, refl)))),
    (λ fh. path_given-Leads path _ s (
        unresolved path _ _ _ s (λ t. ends ((λ p. grind arith), refl, refl))
          (λ t. ends ((λ p. grind arith), refl, refl)))),
  )
