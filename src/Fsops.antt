-- ===== src/Fsops.antt =====
-- src/fsops: the operations that FUSE calls, over any file system and backend.
--
-- `fi` is `none` for `NULL`, and else `fi->fh`. `cap` and `md` are what the uninitialised locals hold.
-- A handle that is not live is undefined to look at; the model ends the run there.
pub mod Session
pub mod Dispatch
pub mod Ended
pub mod Kept
pub mod Files
pub mod Idle
pub mod Refused
pub mod Answered
pub mod Mounts
pub mod Handles
pub mod Startup
pub mod Transfers
pub mod Unresolved
pub mod Unsupported
use capfs.Base.{
  ℕ, zero, suc, ◌+◌, ◌-◌, ◌%◌, ◌^◌, bit_and, bit_or, Bool, true, false, not, Option, none, some,
}
use capfs.Base.{
  List, [], ◌∷◌, ℤ, pos, negsuc, neg, is_nonzero, enoent, enomem, eacces, einval, enosys, enotsup,
}
use capfs.Base.{ltb, leb, ◌==◌, if◌then◌else◌}
use capfs.Machine.{M, pure, out_of_fuel, aborted, exited, ◌>>=◌, ◌>>◌, gets}
use capfs.Filetype.{filetype_none, filetype_root, filetype_directory, filetype_file}
use capfs.CapfsFile.{CapfsFile}
use capfs.Filesystem.{MetaData, capfs_filesystem_init}
use capfs.Handle.{Handle, Heap, cap_fs_handle_alloc, cap_fs_handle_free, put}
use capfs.Startup.{Disk, capfs_backend_init, capfs_backend_destroy}
use capfs.Layer.{Layer}

-- A `long` that is returned as an `int`.
abbrev pub low_word : ℕ → ℤ
low_word n = if ltb n (2 ^ 31) then pos n else neg (2 ^ 32 - n)

abbrev pub as_int : ℤ → ℤ
as_int (pos n) = low_word (n % 2 ^ 32)
as_int (negsuc n) = low_word (2 ^ 32 - 1 - n % 2 ^ 32)

-- `struct stat`, what is set of it.
pub record Stat : Type 0 where
  pub st_mode : ℕ
  pub st_nlink : ℕ
  pub st_size : ℕ

-- `S_IFDIR` and `S_IFREG`
abbrev pub s_ifdir : ℕ
s_ifdir = 0x4000

abbrev pub s_ifreg : ℕ
s_ifreg = 0x8000

-- `FUSE_IOCTL_COMPAT`
abbrev pub fuse_ioctl_compat : ℕ
fuse_ioctl_compat = 1

abbrev pub is_directory : ℕ → Bool
is_directory type = if type == filetype_root then true else type == filetype_directory

-- What the `switch` of `capfs_op_getattr` does.
unfoldable pub fill_stat : ℕ → ℕ → ℕ → Stat → ℤ × Stat
fill_stat type size perms st =
    if type == filetype_root
    then (pos 0, record st { st_mode = bit_or s_ifdir perms; st_nlink = 2 })
    else if type == filetype_directory
    then (pos 0, record st { st_mode = bit_or s_ifdir perms })
    else if type == filetype_file
    then (pos 0, record { st_mode = bit_or s_ifreg perms; st_size = size; st_nlink = 1 })
    else (neg enoent, st)

-- `(struct capfs_handle *)fi->fh`, looked at.
unfoldable pub deref : {A : Type 0} → Option Handle → (Handle → M A) → M A
deref none found = λ _. aborted
deref (some h) found = found h

-- `assert(path)`
unfoldable pub path_given : {A : Type 0} → Option (List ℕ) → M A → M A
path_given none m = λ _. aborted
path_given (some path) m = m

-- The end of `open` and `opendir`: the status, `fi->fh` and the heap.
unfoldable pub allocate : Heap → ℕ → MetaData → ℕ → ℤ × ℕ × Heap
allocate heap file meta fh =
    let (h, heap') = cap_fs_handle_alloc heap in
    if h == 0 then (neg enomem, fh, heap') else (
      pos 0,
      h,
      record heap' {
        live =
            put heap'.live h (
              some
                (record { type = meta.type; size = meta.bytes; cap = file; perms = meta.perms }));
      },
    )

module _ (layer : Layer) (cap : ℕ) (md : MetaData) where
  -- `capfs_filesystem_resolve_path(CAPFS_ROOTCAP, path, &cap)`, then `get_metadata(cap, &md)`: the
  -- outcome if both succeed, else the error that the operation returns for the first or the second.
  unfoldable pub resolved : {A : Type 0} → Option (List ℕ) → (ℕ → MetaData → M A) → M A → M A → M A
  resolved path found no_path no_metadata = do
    root ← gets λ s. s.root_capability
    (err, file) ← layer.resolve_path root path cap
    if is_nonzero err
        then no_path
        else if is_nonzero ((layer.get_metadata file md).0)
        then no_metadata
        else found file ((layer.get_metadata file md).1)

  -- `if (fi && fi->fh) … else …`: the handle, or one made from the path.
  unfoldable pub target :
      {A : Type 0} → Heap → Option (List ℕ) → Option ℕ → (Handle → M A) → M A → M A
  target heap path fi found failed =
      let from_path =
        resolved path
          (λ file meta.
            found (record { type = meta.type; size = meta.bytes; cap = file; perms = meta.perms }))
          failed failed in
      elim fi [
        | none ↦ from_path
        | some fh ↦ if fh == 0 then from_path else deref (heap.live fh) found
      ]

  unfoldable pub capfs_op_getattr : Heap → Option (List ℕ) → Stat → Option ℕ → M (ℤ × Stat)
  capfs_op_getattr heap path stbuf fi = path_given path (
      target heap path fi (λ h. pure (fill_stat h.type h.size h.perms stbuf))
        (pure (neg enoent, stbuf)))

  unfoldable pub capfs_op_access : Option (List ℕ) → ℕ → M ℤ
  capfs_op_access path mask =
      resolved path
        (λ file meta.
          if meta.type == filetype_none
          then pure (neg enoent)
          else pure (pos (bit_and mask meta.type)))
        (pure (neg enoent)) (pure (neg enoent))

  unfoldable pub capfs_op_open : Heap → Option (List ℕ) → ℕ → M (ℤ × ℕ × Heap)
  capfs_op_open heap path fh = path_given path (
      resolved path
        (λ file meta.
          if not (meta.type == filetype_file)
          then pure (neg einval, fh, heap)
          else pure (allocate heap file meta fh))
        (pure (neg einval, fh, heap)) (pure (neg enoent, fh, heap)))

  unfoldable pub capfs_op_opendir : Heap → Option (List ℕ) → ℕ → M (ℤ × ℕ × Heap)
  capfs_op_opendir heap path fh = path_given path (
      resolved path
        (λ file meta.
          if is_directory meta.type
          then pure (allocate heap file meta fh)
          else pure (neg einval, fh, heap))
        (pure (neg einval, fh, heap)) (pure (neg enoent, fh, heap)))

  unfoldable pub capfs_op_read : Heap → Option (List ℕ) → List ℕ → ℕ → ℕ → Option ℕ → M (ℤ × List ℕ)
  capfs_op_read heap path rbuf size offset fi = path_given path (
      target heap path fi
        (λ h.
          if not (h.type == filetype_file)
          then pure (neg eacces, rbuf)
          else if ltb h.size offset
          then pure (pos 0, rbuf)
          else (layer.read h.cap offset rbuf size >>= λ r. pure (as_int r.0, r.1)))
        (pure (neg enoent, rbuf)))

  unfoldable pub capfs_op_write : Heap → Option (List ℕ) → List ℕ → ℕ → ℕ → Option ℕ → M ℤ
  capfs_op_write heap path wbuf size offset fi = path_given path (
      target heap path fi
        (λ h.
          if not (h.type == filetype_file)
          then pure (neg eacces)
          else if ltb h.size offset
          then pure (neg einval)
          else (layer.write h.cap offset wbuf size >>= λ r. pure (as_int r)))
        (pure (neg enoent)))

  -- The loop of `capfs_op_readdir`: the names that `filler` is called with.
  unfoldable pub direntries : ℕ → ℕ → ℕ → M (List (List ℕ))
  direntries zero dircap offset = λ _. out_of_fuel
  direntries (suc rounds) dircap offset =
      let rest =
        λ (name : List ℕ). direntries rounds dircap (offset + 1) >>= λ names. pure (name ∷ names) in
      elim (layer.get_direntry dircap offset) [ none ↦ pure [] | some name ↦ rest name ]

  unfoldable pub capfs_op_readdir :
      ℕ → Heap → Option (List ℕ) → ℕ → Option ℕ → M (ℤ × List (List ℕ))
  capfs_op_readdir rounds heap path offset fi = path_given path (
      target heap path fi
        (λ h.
          if is_directory h.type
          then (direntries rounds h.cap offset >>= λ names. pure (pos 0, names))
          else pure (neg enoent, []))
        (pure (neg enoent, [])))
