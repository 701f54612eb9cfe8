-- ===== src/Filesystem/Ended.antt =====
-- Formatting, initialising and path resolution of src/filesystem.c come to an end.
use capfs.Base.{
  ℕ, zero, suc, ◌+◌, Bool, not, ◌&&◌, ◌||◌, Option, none, some, List, [], ◌∷◌, ◌++◌, ◌==◌,
  is_nonzero,
}
use capfs.Machine.{State}
use capfs.Machine.Ends.{Ends, normally, by_exit, Ends-bind, Ends-if}
use capfs.Filetype.{filetype_root, filetype_directory}
use capfs.CapfsFile.{CapfsFile, to_bytes, of_bytes, capfs_file_size, file_magic, root_header}
use capfs.Backend.Ended.{read-Ends, write-Ends, zero-Ends}
use capfs.Filesystem.{
  as_size, separator, same_string, capfs_filesystem_format, capfs_filesystem_init,
}
use capfs.Filesystem.{
  entry_loop, is_root_path, resolve_one, component, scan, capfs_filesystem_resolve_path,
  capfs_filesystem_get_content_cap,
}

format-Ends :
    (local : CapfsFile) (root : ℕ) (s : State) → Ends (capfs_filesystem_format local root s)
unfolding capfs_filesystem_format
format-Ends local root s = Ends-bind (zero-Ends root s) λ err t.
    Ends-if (is_nonzero err) _ _ (λ _. normally)
      λ _. Ends-bind (write-Ends root 0 _ capfs_file_size t) λ written u.
        Ends-if (not (as_size written == capfs_file_size)) _ _ (λ _. normally) (λ _. normally)

pub filesystem_init-Ends :
    (local old : CapfsFile) (root : ℕ) (s : State) → Ends (capfs_filesystem_init local old root s)
unfolding capfs_filesystem_init
filesystem_init-Ends local old root s = Ends-bind (format-Ends local root s) λ err t.
    Ends-if (is_nonzero err) _ _ (λ _. by_exit)
      λ _. Ends-bind (read-Ends root 0 (to_bytes old) capfs_file_size t) λ got u.
        let g = of_bytes (got.1) in
        Ends-if (not (as_size got.0 == capfs_file_size)) _ _ (λ _. normally)
          λ _.
            Ends-if (not (g.magic == file_magic)) _ _ (λ _. normally)
              λ _.
                Ends-if (not (same_string 8 g.header root_header)) _ _ (λ _. normally)
                  λ _.
                    Ends-if (not (same_string 128 g.name (separator ∷ 0 ∷ []))) _ _ (λ _. normally)
                      (λ _. normally)

module _ (local : CapfsFile) (content_cap : ℕ) where
  entry_loop-Ends :
      (rounds cap current : ℕ) (s : State) → Ends (entry_loop rounds local cap current s)
  unfolding entry_loop
  entry_loop-Ends zero cap current s = normally
  entry_loop-Ends (suc rounds) cap current s =
      Ends-bind (read-Ends cap current (to_bytes local) capfs_file_size s)
        λ _ t. entry_loop-Ends rounds cap (current + 1) t

  resolve_one-Ends :
      (root : ℕ) (path : List ℕ) (old : ℕ) (s : State)
      → Ends (resolve_one local content_cap root path old s)
  unfolding resolve_one
  resolve_one-Ends root path old s =
      Ends-bind (read-Ends root 0 (to_bytes local) capfs_file_size s) λ got t.
        let f = of_bytes (got.1) in
        let content = capfs_filesystem_get_content_cap root content_cap in
        Ends-if (not (as_size got.0 == capfs_file_size)) _ _ (λ _. normally)
          λ _.
            Ends-if (not (f.magic == file_magic)) _ _ (λ _. normally)
              λ _.
                Ends-if ((f.type == filetype_root) && is_root_path path) _ _ (λ _. normally)
                  λ _.
                    Ends-if (not ((f.type == filetype_directory) || (f.type == filetype_root))) _ _
                      (λ _. normally)
                      λ _.
                        Ends-if (is_nonzero content.0) _ _ (λ _. normally)
                          λ _. Ends-bind (entry_loop-Ends f.size content.1 0 t) λ _ u. normally

  component-Ends :
      (root : ℕ) (current : List ℕ) (s : State) → Ends (component local content_cap root current s)
  component-Ends root current s = Ends-bind (resolve_one-Ends root current root s) λ r t. normally

module _ (local : ℕ → CapfsFile) (content_cap : ℕ → ℕ) where
  scan-Ends :
      (path current : List ℕ) (k root : ℕ) (s : State)
      → Ends (scan local content_cap k root current path s)
  unfolding scan
  scan-Ends [] [] k root s = normally
  scan-Ends [] (x ∷ xs) k root s = component-Ends (local k) (content_cap k) root (x ∷ xs) s
  scan-Ends (p ∷ ps) [] k root s =
      Ends-if (p == separator) _ _ (λ _. scan-Ends ps [] k root s)
        λ _. scan-Ends ps (p ∷ []) k root s
  scan-Ends (p ∷ ps) (x ∷ xs) k root s =
      Ends-if (p == separator) _ _
        (λ _.
          Ends-bind (component-Ends (local k) (content_cap k) root (x ∷ xs) s)
            λ r t. scan-Ends ps [] (k + 1) r t)
        λ _. scan-Ends ps (x ∷ xs ++ p ∷ []) k root s

  pub resolve_path-Ends :
      (copied : Bool) (root : ℕ) (path : Option (List ℕ)) (old : ℕ) (s : State)
      → Ends (capfs_filesystem_resolve_path local content_cap copied root path old s)
  unfolding capfs_filesystem_resolve_path
  resolve_path-Ends copied root none old s = normally
  resolve_path-Ends copied root (some path) old s =
      Ends-if (is_root_path path) _ _
        (λ _. resolve_one-Ends (local 0) (content_cap 0) root path old s)
        λ _.
          Ends-if (not copied) _ _ (λ _. normally)
            λ _. Ends-bind (scan-Ends path [] 0 root s) λ found t. normally
