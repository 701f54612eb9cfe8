-- ===== src/Filesystem/Paths.antt =====
-- `capfs_filesystem_resolve_path` of src/filesystem.c, whatever is stored.
use capfs.Base.{ℕ, ◌+◌, ◌≡◌, refl, ◌∙◌, Bool, true, false, not, ◌&&◌, ◌||◌, some, ◌⊎◌, inl, inr}
use capfs.Base.{List, [], ◌∷◌, ◌++◌, pos, neg, ◌==◌, arith, enomem}
use capfs.Machine.{State}
use capfs.Machine.Post.{Leads, ends, Leads-bind, Leads-if, Leads-mono}
use capfs.Filetype.{filetype_root, filetype_directory}
use capfs.CapfsFile.{CapfsFile, to_bytes, of_bytes, capfs_file_size, file_magic}
use capfs.Backend.Confined.{Confined, read-Confined}
use capfs.Filesystem.{as_size, separator, is_root_path, resolve_one, component, scan}
use capfs.Filesystem.{capfs_filesystem_resolve_path, capfs_filesystem_get_content_cap}

-- A component that is not `"/"`: the result is not set, and no data changes.
module _ (local : CapfsFile) (content_cap root : ℕ) where
  resolve_one-Leads :
      (path : List ℕ) (old : ℕ) (s : State)
      → is_root_path path ≡ false
      → Leads
          (λ (_, ret) t. (ret ≡ old) × Confined 0 0 s t)
          (resolve_one local content_cap root path old s)
  unfolding resolve_one capfs_filesystem_get_content_cap
  resolve_one-Leads path old s other =
      Leads-bind (read-Confined root 0 (to_bytes local) capfs_file_size s) λ r t same.
        let f = of_bytes (r.1) in
        Leads-if (not (as_size r.0 == capfs_file_size)) _ _ (λ _. ends (refl, same))
          λ _.
            Leads-if (not (f.magic == file_magic)) _ _ (λ _. ends (refl, same))
              λ _.
                Leads-if ((f.type == filetype_root) && is_root_path path) _ _ (λ e. ground arith)
                  λ _.
                    Leads-if (not ((f.type == filetype_directory) || (f.type == filetype_root))) _ _
                      (λ _. ends (refl, same)) (λ _. ends (refl, same))

  pub component-Leads :
      (current : List ℕ) (s : State)
      → is_root_path current ≡ false
      → Leads
          (λ ret t. (ret ≡ root) × Confined 0 0 s t)
          (component local content_cap root current s)
  component-Leads current s other =
      Leads-bind (resolve_one-Leads current root s other) λ r t same. ends same

-- A longer piece is no separator.
pub longer : (x : ℕ) (xs : List ℕ) (p : ℕ) → is_root_path (x ∷ xs ++ p ∷ []) ≡ false
longer x [] p = refl
longer x (y ∷ ys) p = refl

module _ (local : ℕ → CapfsFile) (content_cap : ℕ → ℕ) (root : ℕ) where
  scan-Leads :
      (k : ℕ) (current path : List ℕ) (s : State)
      → is_root_path current ≡ false
      → Leads
          (λ ret t. (ret ≡ root) × Confined 0 0 s t)
          (scan local content_cap k root current path s)
  unfolding scan
  scan-Leads k [] [] s other = ends (refl, λ i h. refl)
  scan-Leads k (x ∷ xs) [] s other = component-Leads (local k) (content_cap k) root (x ∷ xs) s other
  scan-Leads k [] (p ∷ ps) s other =
      Leads-if (p == separator) _ _ (λ _. scan-Leads k [] ps s refl)
        λ e. scan-Leads k (p ∷ []) ps s e
  scan-Leads k (x ∷ xs) (p ∷ ps) s other =
      Leads-if (p == separator) _ _
        (λ _.
          Leads-bind (component-Leads (local k) (content_cap k) root (x ∷ xs) s other)
            λ r t (e, same). rw e (
              Leads-mono (scan-Leads (k + 1) [] ps t refl)
                λ ret u (e', then_same). (e', λ i h. then_same i h ∙ same i h)))
        λ _. scan-Leads k (x ∷ xs ++ p ∷ []) ps s (longer x xs p)

  -- For every path but `"/"`, whatever is stored and however the I/O calls turn out,
  -- `capfs_filesystem_resolve_path` changes no data and, if it returns, gives status 0 and the
  -- root itself, or -ENOMEM where `strdup` found no memory.
  pub resolve_path-Leads :
      (copied : Bool) (path : List ℕ) (old : ℕ) (s : State)
      → is_root_path path ≡ false
      → Leads
          (λ (status, ret) t.
            ((status ≡ pos 0) × (ret ≡ root) × (copied ≡ true)
              ⊎ (status ≡ neg enomem) × (ret ≡ old) × (copied ≡ false))
            × Confined 0 0 s t)
          (capfs_filesystem_resolve_path local content_cap copied root (some path) old s)
  unfolding capfs_filesystem_resolve_path
  resolve_path-Leads copied path old s other =
      Leads-if (is_root_path path) _ _ (λ e. ground arith)
        λ _.
          Leads-if (not copied) _ _ (λ e. ends (inr (refl, refl, ground arith), λ i h. refl))
            λ e.
              Leads-bind (scan-Leads 0 [] path s refl)
                λ found t (ret, same). ends (inl (refl, ret, ground arith), same)
