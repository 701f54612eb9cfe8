-- ===== src/Fsops/Mounts.antt =====
-- `capfs_op_init` of src/fsops/init.c and the calls that FUSE makes after it, when every call on the
-- backend file works.
use capfs.Base.{ℕ, ◌+◌, ◌≡◌, refl, subst, ap, ◌∙◌, inr, some, List, [], arith}
use capfs.Machine.{State}
use capfs.Machine.Frame.{Frame}
use capfs.Machine.Bytes.{slice_ext}
use capfs.Machine.Post.{Returns, Returns-bind, Returns-and, Returns-mono}
use capfs.Capability.{capref_to_capability}
use capfs.Metadata.{files_size, total_size, data_offset}
use capfs.CapfsFile.{CapfsFile, IsCapfsFile, capfs_file_size}
use capfs.Backend.Confined.{data_byte}
use capfs.Backend.ReadWrite.{Ready-Frame, data_slice}
use capfs.Filesystem.{fs_root}
use capfs.Filesystem.Formatted.{inside, fits}
use capfs.Filesystem.Reading.{Lasting}
use capfs.Handle.{Heap}
use capfs.Startup.{Disk, root_capability}
use capfs.Fsops.Startup.{Mounted, root-Formattable, op_init-Returns}
use capfs.Fsops.Dispatch.{Call, Locals, session, over_files}
use capfs.Fsops.Idle.{IsEmpty}
use capfs.Fsops.Refused.{AreRefused, serve-AreRefused}
use capfs.Fsops.Answered.{ArePlain, serve-Lasting}

-- Reading keeps what is mounted.
Mounted-Frame : {g : CapfsFile} {s t : State} → Frame 0 0 s t → Mounted g s → Mounted g t
unfolding data_slice data_byte
Mounted-Frame same m = record {
  ready = Ready-Frame (omega arith) same m.ready;
  root = ap capref_to_capability same.root ∙ m.root;
  stored =
      slice_ext _ _ 0 capfs_file_size (λ i _ _. same.outside (i + data_offset) (inr (omega arith)))
      ∙ m.stored;
  zeros = λ i lo hi. same.outside (i + data_offset) (inr (omega arith)) ∙ m.zeros i lo hi;
}

-- What is mounted, with its root capability.
abbrev MountedAt : CapfsFile → ℕ → State → Type 0
MountedAt g root t = Mounted g t × (t.root_capability ≡ root)

MountedAt-Lasting :
    (local g : CapfsFile) (v : IsCapfsFile local) (root : ℕ)
    → capref_to_capability root ≡ root_capability
    → Lasting root (MountedAt g root)
MountedAt-Lasting local g v root e =
    let k = root-Formattable root e in
    record {
      ready = λ s (m, _). m.ready;
      kept = λ s t same (m, at). (Mounted-Frame same m, same.root ∙ at);
      readable = k.readable;
      inside = inside local v root k;
      fits = fits local v root k;
    }

-- If the backend file exists with the expected size, whatever its content, and every call on it
-- works, `capfs_op_init` and any sequence of calls from the table of operations, which give a path
-- and no handle, all return, from a heap without handles: each call is answered with a refusal
-- (`releasedir`, `flush` and `fsync` with 0), no handle is made, and the data are those of a fresh
-- root: the root block that formatting makes for the whole data region, and zeros behind it up to
-- the last 256 bytes.
pub session-Returns :
    (rounds : ℕ) (disk : Disk) (content : ℕ → ℕ) (local old : CapfsFile)
    (calls : List (Locals × Call)) (heap : Heap) (s : State)
    → disk.plan ≡ []
    → disk.existing ≡ some (content, total_size)
    → IsCapfsFile local
    → IsCapfsFile old
    → ArePlain calls
    → IsEmpty heap
    → Returns
        (λ r t. AreRefused calls r.0 × IsEmpty r.1 × Mounted (fs_root local files_size) t)
        (session over_files rounds disk local old calls heap s)
unfolding session
session-Returns rounds disk content local old calls heap s quiet there v o plain empty =
    Returns-bind (op_init-Returns disk local old v o content s quiet there) λ g t (same, mounted).
      Returns-mono
        (Returns-and
          (serve-Lasting t.root_capability
            (MountedAt-Lasting local g v t.root_capability mounted.root) (λ u (_, at). at) rounds
            calls heap t plain (mounted, refl))
          (serve-AreRefused rounds calls heap t empty))
        λ r u ((still, _), (refused, idle, _)). (refused, idle, subst (λ f. Mounted f u) same still)
