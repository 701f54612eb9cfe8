-- ===== src/Filesystem/Scanned.antt =====
-- Path resolution on a formatted root, when every call on the file works.
use capfs.Base.{ℕ, ◌≡◌, ap₂, true, false, List, inl, inr, pos, some}
use capfs.Machine.{State}
use capfs.Machine.Post.{Returns, Returns-and, Returns-mono}
use capfs.CapfsFile.{CapfsFile, IsCapfsFile}
use capfs.Filesystem.{is_root_path, capfs_filesystem_resolve_path}
use capfs.Filesystem.Formatted.{Formattable, Formatted, Formatted-Frame, inside, fits}
use capfs.Filesystem.Paths.{resolve_path-Leads}
use capfs.Filesystem.Reading.{Lasting, resolve_path-Lasting}

module _ (local : CapfsFile) (v : IsCapfsFile local) (root : ℕ) (k : Formattable root) where
  Formatted-Lasting : Lasting root (Formatted local v root k)
  Formatted-Lasting = record {
    ready = λ s f. f.ready;
    kept = λ s t same f. Formatted-Frame local v root k same f;
    readable = k.readable;
    inside = inside local v root k;
    fits = fits local v root k;
  }

  -- On a formatted root, and a file of the expected size on which every call works, resolving any
  -- path but `"/"` returns 0 and the root itself, if `strdup` finds memory, and the root stays
  -- formatted.
  pub resolve_path-Returns :
      (stack : ℕ → CapfsFile) (content_cap : ℕ → ℕ) (path : List ℕ) (old : ℕ) {s : State}
      → is_root_path path ≡ false
      → Formatted local v root k s
      → Returns
          (λ r t. (r ≡ (pos 0, root)) × Formatted local v root k t)
          (capfs_filesystem_resolve_path stack content_cap true root (some path) old s)
  resolve_path-Returns stack content_cap path old {s} other f =
      Returns-mono
        (Returns-and
          (resolve_path-Lasting root Formatted-Lasting stack content_cap true (some path) old s f)
          (resolve_path-Leads stack content_cap root true path old s other))
        λ r t (still, (way, _)). (
          elim way [ inl (fine, ret, _) ↦ ap₂ (λ a b. (a, b)) fine ret | inr (_, _, no') ↦ cc ],
          still,
        )
