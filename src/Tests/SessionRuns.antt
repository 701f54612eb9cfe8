-- ===== src/Tests/SessionRuns.antt =====
-- The theorems on sessions and on the components of a path, at concrete inputs.
use capfs.Machine.{continue, pure}
use capfs.Backend.Memory.{perform_all}
use capfs.Fsops.Files.{Transfer, store, fetch, calls_of, requests_of, replies_of, serve-perform_all}
use capfs.Tests.{one_file, file_handle}
use capfs.Handle.{Handle, Heap}
use capfs.Base.{if◌then◌else◌, Option, ◌==◌}
use capfs.Base.{ℕ, ◌≡◌, refl, true, some, none, List, [], ◌∷◌, arith}
use capfs.Machine.Post.{Leads, Returns}
use capfs.Machine.Ends.{Ends}
use capfs.Backend.Confined.{Confined}
use capfs.Filesystem.{capfs_filesystem_resolve_path}
use capfs.Filesystem.Components.{walk_path, resolve_path-walk_path}
use capfs.Fsops.Dispatch.{Call, Locals, serve, session, over_files}
use capfs.Fsops.Dispatch.{
  op_getattr, op_opendir, op_readdir, op_releasedir, op_mkdir, op_open, op_read, op_write,
  op_release,
}
use capfs.Fsops.Ended.{session-Ends}
use capfs.Metadata.{files_size}
use capfs.Filesystem.{fs_root}
use capfs.Fsops.Startup.{Mounted}
use capfs.Fsops.Mounts.{session-Returns}
use capfs.Fsops.Kept.{Kept, serve-Kept}
use capfs.Fsops.Idle.{IsEmpty}
use capfs.Fsops.Refused.{AreRefused, serve-AreRefused}
use capfs.Tests.{
  blank, root_ref, no_file, full_disk, greeting, no_handles, no_files, no_caps, no_meta, no_data,
  no_file-IsCapfsFile,
}

-- `"/a/b"`
abbrev path : List ℕ
path = 47 ∷ 97 ∷ 47 ∷ 98 ∷ []

abbrev locals : Locals
locals = record { file = no_files; content_cap = no_caps; copied = true; cap = 0; md = no_meta }

abbrev calls : List (Locals × Call)
calls =
    (locals, op_getattr (some path) (record { st_mode = 0; st_nlink = 0; st_size = 0 }) none)
    ∷ (locals, op_opendir (some path) 0)
    ∷ (locals, op_readdir (some path) 0 (some 0))
    ∷ (locals, op_releasedir none)
    ∷ (locals, op_mkdir)
    ∷ (locals, op_open (some path) 0)
    ∷ (locals, op_write (some path) greeting 2 0 (some 0))
    ∷ (locals, op_read (some path) greeting 2 0 none)
    ∷ (locals, op_release none)
    ∷ []

session-Ends_example : Ends (session over_files 1 full_disk no_file no_file calls no_handles blank)
session-Ends_example = session-Ends 1 full_disk no_file no_file calls no_handles blank (omega arith)

-- A directory is opened, and the handle at 2 is released, next to the file that is open at 1.
abbrev others : List (Locals × Call)
others = (locals, op_opendir (some path) 0) ∷ (locals, op_releasedir (some 2)) ∷ []

abbrev two_handles : ℕ → Option Handle
two_handles i = if i == 1 then some file_handle else if i == 2 then some file_handle else none

abbrev two_files : Heap
two_files = record { live = two_handles; offers = 1 ∷ 2 ∷ [] }

serve-Kept_example :
    Leads (λ r _. Kept 1 file_handle r.1) (serve over_files 1 others two_files blank)
serve-Kept_example =
    serve-Kept over_files 1 1 file_handle others two_files blank refl (tt, (λ e. omega arith, tt))

serve-AreRefused_example :
    Leads
      (λ r t. AreRefused calls r.0 × IsEmpty r.1 × Confined 0 0 blank t)
      (serve over_files 1 calls no_handles blank)
serve-AreRefused_example = serve-AreRefused 1 calls no_handles blank (λ i. refl)

session-Returns_example :
    Returns
      (λ r t. AreRefused calls r.0 × IsEmpty r.1 × Mounted (fs_root no_file files_size) t)
      (session over_files 1 full_disk no_file no_file calls no_handles blank)
session-Returns_example =
    session-Returns 1 full_disk no_data no_file no_file calls no_handles blank refl refl
      no_file-IsCapfsFile no_file-IsCapfsFile
      ((tt, tt), (tt, ((tt, refl), (tt, (tt, (tt, ((tt, refl), ((tt, tt), (tt, tt)))))))))
      (λ i. refl)

resolve_path-walk_path_example :
    capfs_filesystem_resolve_path no_files no_caps true root_ref (some path) 0 blank
    ≡ walk_path no_files no_caps true root_ref path 0 blank
resolve_path-walk_path_example = resolve_path-walk_path no_files no_caps true root_ref path 0 blank

abbrev transfers : List (Locals × Transfer)
transfers = (locals, store path greeting 2 0) ∷ (locals, fetch path (7 ∷ 8 ∷ 9 ∷ []) 2 1) ∷ []

serve-perform_all_example :
    serve over_files 1 (calls_of 1 transfers) one_file blank
    ≡ continue
        (perform_all (requests_of root_ref transfers) blank)
        λ rs. pure (replies_of transfers rs, one_file)
serve-perform_all_example =
    serve-perform_all 1 1 one_file file_handle (omega arith) refl refl transfers blank
      (omega arith, (omega arith, tt))
