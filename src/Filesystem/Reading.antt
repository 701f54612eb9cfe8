-- ===== src/Filesystem/Reading.antt =====
-- Path resolution of src/filesystem.c, for a property of the state that reading keeps, when every call on
-- the file works.
use capfs.Base.{
  ℕ, ◌+◌, ◌<◌, ◌≡◌, refl, Bool, true, false, not, ◌&&◌, ◌||◌, Option, none, some, List, [], ◌∷◌,
  ◌++◌, inl, inr,
}
use capfs.Base.{◌==◌, if◌then◌else◌, Bool-cases}
use capfs.Machine.{State, M}
use capfs.Machine.Frame.{Frame}
use capfs.Machine.Post.{Returns, returns, Returns-bind, Returns-mono, Returns-and}
use capfs.Capability.{perm_read, permits, capref_to_capability}
use capfs.Metadata.{files_size}
use capfs.Filetype.{filetype_root, filetype_directory}
use capfs.CapfsFile.{CapfsFile, to_bytes, of_bytes, capfs_file_size, file_magic}
use capfs.Backend.ReadWrite.{Ready, read-Returns}
use capfs.Filesystem.{separator, as_size, is_root_path, resolve_one, component, scan}
use capfs.Filesystem.{capfs_filesystem_resolve_path, capfs_filesystem_get_content_cap}
use capfs.Filesystem.Paths.{component-Leads, longer}

-- Whichever branch is taken, the run ends.
pub either :
    {A : Type 0} (P : State → Type 0) (b : Bool) (m n : M A) {s : State}
    → Returns (λ _ t. P t) (m s)
    → Returns (λ _ t. P t) (n s)
    → Returns (λ _ t. P t) ((if b then m else n) s)
either P true m n yes' no' = yes'
either P false m n yes' no' = no'

-- A property of ready states that no read changes, and a root whose block can be read.
pub record Lasting (root : ℕ) (P : State → Type 0) : Type 0 where
  pub ready : (s : State) → P s → Ready s
  pub kept : (s t : State) → Frame 0 0 s t → P s → P t
  pub readable : permits (capref_to_capability root) perm_read ≡ true
  pub inside : 0 + capfs_file_size < (capref_to_capability root).size
  pub fits : (capref_to_capability root).base + 0 + capfs_file_size < files_size

module _ {P : State → Type 0} (root : ℕ) (k : Lasting root P) (stack : CapfsFile)
    (content_cap : ℕ) where
  resolve_one-Returns :
      (path : List ℕ) (old : ℕ) (s : State)
      → P s
      → Returns (λ _ t. P t) (resolve_one stack content_cap root path old s)
  unfolding resolve_one capfs_filesystem_get_content_cap
  resolve_one-Returns path old s p =
      Returns-bind
        (read-Returns root 0 capfs_file_size (k.ready s p) k.inside k.fits (to_bytes stack)
          k.readable)
        λ got t (n, read, same).
          let g = of_bytes (got.1) in
          let still = k.kept s t same p in
          either P (not (as_size got.0 == capfs_file_size)) _ _ (returns still) (
            either P (not (g.magic == file_magic)) _ _ (returns still) (
              either P ((g.type == filetype_root) && is_root_path path) _ _ (returns still) (
                either P (not ((g.type == filetype_directory) || (g.type == filetype_root))) _ _
                  (returns still) (returns still))))

  component-Returns :
      (current : List ℕ) (s : State)
      → is_root_path current ≡ false
      → P s
      → Returns (λ ret t. (ret ≡ root) × P t) (component stack content_cap root current s)
  component-Returns current s other p =
      Returns-mono
        (Returns-and
          (Returns-bind (resolve_one-Returns current root s p) λ r t still. returns still)
          (component-Leads stack content_cap root current s other))
        λ ret t (still, (e, _)). (e, still)

module _ {P : State → Type 0} (root : ℕ) (k : Lasting root P) (stack : ℕ → CapfsFile)
    (content_cap : ℕ → ℕ) where
  scan-Returns :
      (i : ℕ) (current path : List ℕ) (s : State)
      → is_root_path current ≡ false
      → P s
      → Returns (λ _ t. P t) (scan stack content_cap i root current path s)
  unfolding scan
  scan-Returns i [] [] s other p = returns p
  scan-Returns i (x ∷ xs) [] s other p =
      Returns-mono (component-Returns root k (stack i) (content_cap i) (x ∷ xs) s other p)
        λ ret t (_, still). still
  scan-Returns i [] (y ∷ ys) s other p = elim (Bool-cases (y == separator)) [
    | inl e ↦ rw e (scan-Returns i [] ys s refl p)
    | inr e ↦ rw e (scan-Returns i (y ∷ []) ys s e p)
  ]
  scan-Returns i (x ∷ xs) (y ∷ ys) s other p = elim (Bool-cases (y == separator)) [
    | inl e ↦ rw e (
        Returns-bind (component-Returns root k (stack i) (content_cap i) (x ∷ xs) s other p)
          λ r t (same, still). rw same (scan-Returns (i + 1) [] ys t refl still))
    | inr e ↦ rw e (scan-Returns i (x ∷ xs ++ y ∷ []) ys s (longer x xs y) p)
  ]

  pub resolve_path-Lasting :
      (copied : Bool) (path : Option (List ℕ)) (old : ℕ) (s : State)
      → P s
      → Returns
          (λ _ t. P t)
          (capfs_filesystem_resolve_path stack content_cap copied root path old s)
  unfolding capfs_filesystem_resolve_path
  resolve_path-Lasting copied none old s p = returns p
  resolve_path-Lasting copied (some path) old s p =
      either P (is_root_path path) _ _
        (resolve_one-Returns root k (stack 0) (content_cap 0) path old s p)
        (either P (not copied) _ _ (returns p)
          (Returns-bind (scan-Returns 0 [] path s refl p) λ found t still. returns still))
