-- ===== src/Tests/FilesystemRuns.antt =====
-- The theorems on src/filesystem.c, at concrete inputs.
use capfs.Base.{◌≡◌, refl, true, false, ◌⊎◌, some, [], ◌∷◌, pos, neg, enomem}
use capfs.Machine.Post.{Leads, Returns}
use capfs.Backend.{capfs_backend_cap_get_size}
use capfs.Backend.Confined.{Confined}
use capfs.Filesystem.{fs_root, capfs_filesystem_init}
use capfs.Filesystem.{capfs_filesystem_resolve_path}
use capfs.Filesystem.Formatted.{Formatted, filesystem_init-Returns}
use capfs.Filesystem.Paths.{resolve_path-Leads}
use capfs.Tests.{
  blank, blank-Ready, root_ref, root_ref-Formattable, no_file, no_files, no_caps,
  no_file-IsCapfsFile,
}

filesystem_init-Returns_example :
    Returns
      (λ (status, g_fs_root) t.
        (status ≡ pos 0)
        × (g_fs_root ≡ fs_root no_file (capfs_backend_cap_get_size root_ref))
        × Formatted no_file no_file-IsCapfsFile root_ref root_ref-Formattable t)
      (capfs_filesystem_init no_file no_file root_ref blank)
filesystem_init-Returns_example =
    filesystem_init-Returns no_file no_file-IsCapfsFile root_ref root_ref-Formattable no_file
      no_file-IsCapfsFile blank-Ready

-- `"/a/b"`
resolve_path-Leads_example :
    Leads
      (λ (status, ret) t.
        ((status ≡ pos 0) × (ret ≡ root_ref) × (true ≡ true)
          ⊎ (status ≡ neg enomem) × (ret ≡ 0) × (true ≡ false))
        × Confined 0 0 blank t)
      (capfs_filesystem_resolve_path no_files no_caps true root_ref
        (some (47 ∷ 97 ∷ 47 ∷ 98 ∷ []))
        0
        blank)
resolve_path-Leads_example =
    resolve_path-Leads no_files no_caps root_ref true (47 ∷ 97 ∷ 47 ∷ 98 ∷ []) 0 blank refl
