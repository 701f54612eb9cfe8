-- ===== src/Filesystem/Untouched.antt =====
-- Path resolution of src/filesystem.c reads only, for every path.
use capfs.Base.{
  ℕ, zero, suc, ◌+◌, ◌∙◌, refl, Bool, not, ◌&&◌, ◌||◌, Option, none, some, List, [], ◌∷◌, ◌++◌,
  ◌==◌, is_nonzero,
}
use capfs.Machine.{State, Run, ok, M, continue}
use capfs.Machine.Post.{Leads, ends, Leads-bind, Leads-if, Leads-mono}
use capfs.Filetype.{filetype_root, filetype_directory}
use capfs.CapfsFile.{CapfsFile, to_bytes, of_bytes, capfs_file_size, file_magic}
use capfs.Backend.Confined.{Confined, read-Confined}
use capfs.Filesystem.{as_size, separator, entry_loop, is_root_path, resolve_one, component, scan}
use capfs.Filesystem.{capfs_filesystem_resolve_path, capfs_filesystem_get_content_cap}

-- A run that changes no data from `s` on.
pub Untouched-refl : {A : Type 0} {a : A} (s : State) → Leads (λ _ t. Confined 0 0 s t) (ok a s)
Untouched-refl s = ends λ i h. refl

pub Untouched-bind :
    {A B : Type 0} (s : State) {r : Run A} {k : A → M B}
    → Leads (λ _ t. Confined 0 0 s t) r
    → ((a : A) (t : State) → Leads (λ _ u. Confined 0 0 t u) (k a t))
    → Leads (λ _ u. Confined 0 0 s u) (continue r k)
Untouched-bind s h next =
    Leads-bind h λ a t same. Leads-mono (next a t) λ b u then_same i p. then_same i p ∙ same i p

module _ (local : CapfsFile) (content_cap : ℕ) where
  entry_loop-Untouched :
      (rounds cap current : ℕ) (s : State)
      → Leads (λ _ t. Confined 0 0 s t) (entry_loop rounds local cap current s)
  unfolding entry_loop
  entry_loop-Untouched zero cap current s = Untouched-refl s
  entry_loop-Untouched (suc rounds) cap current s =
      Untouched-bind s (read-Confined cap current (to_bytes local) capfs_file_size s)
        λ _ t. entry_loop-Untouched rounds cap (current + 1) t

  resolve_one-Untouched :
      (root : ℕ) (path : List ℕ) (old : ℕ) (s : State)
      → Leads (λ _ t. Confined 0 0 s t) (resolve_one local content_cap root path old s)
  unfolding resolve_one
  resolve_one-Untouched root path old s =
      Untouched-bind s (read-Confined root 0 (to_bytes local) capfs_file_size s) λ got t.
        let f = of_bytes (got.1) in
        let content = capfs_filesystem_get_content_cap root content_cap in
        Leads-if (not (as_size got.0 == capfs_file_size)) _ _ (λ _. Untouched-refl t)
          λ _.
            Leads-if (not (f.magic == file_magic)) _ _ (λ _. Untouched-refl t)
              λ _.
                Leads-if ((f.type == filetype_root) && is_root_path path) _ _
                  (λ _. Untouched-refl t)
                  λ _.
                    Leads-if (not ((f.type == filetype_directory) || (f.type == filetype_root))) _ _
                      (λ _. Untouched-refl t)
                      λ _.
                        Leads-if (is_nonzero content.0) _ _ (λ _. Untouched-refl t)
                          λ _.
                            Untouched-bind t (entry_loop-Untouched f.size content.1 0 t)
                              λ _ u. Untouched-refl u

  component-Untouched :
      (root : ℕ) (current : List ℕ) (s : State)
      → Leads (λ _ t. Confined 0 0 s t) (component local content_cap root current s)
  component-Untouched root current s =
      Untouched-bind s (resolve_one-Untouched root current root s) λ r t. Untouched-refl t

module _ (local : ℕ → CapfsFile) (content_cap : ℕ → ℕ) where
  scan-Untouched :
      (path current : List ℕ) (k root : ℕ) (s : State)
      → Leads (λ _ t. Confined 0 0 s t) (scan local content_cap k root current path s)
  unfolding scan
  scan-Untouched [] [] k root s = Untouched-refl s
  scan-Untouched [] (x ∷ xs) k root s =
      component-Untouched (local k) (content_cap k) root (x ∷ xs) s
  scan-Untouched (p ∷ ps) [] k root s =
      Leads-if (p == separator) _ _ (λ _. scan-Untouched ps [] k root s)
        λ _. scan-Untouched ps (p ∷ []) k root s
  scan-Untouched (p ∷ ps) (x ∷ xs) k root s =
      Leads-if (p == separator) _ _
        (λ _.
          Untouched-bind s (component-Untouched (local k) (content_cap k) root (x ∷ xs) s)
            λ r t. scan-Untouched ps [] (k + 1) r t)
        λ _. scan-Untouched ps (x ∷ xs ++ p ∷ []) k root s

  pub resolve_path-Untouched :
      (copied : Bool) (root : ℕ) (path : Option (List ℕ)) (old : ℕ) (s : State)
      → Leads
          (λ _ t. Confined 0 0 s t)
          (capfs_filesystem_resolve_path local content_cap copied root path old s)
  unfolding capfs_filesystem_resolve_path
  resolve_path-Untouched copied root none old s = Untouched-refl s
  resolve_path-Untouched copied root (some path) old s =
      Leads-if (is_root_path path) _ _
        (λ _. resolve_one-Untouched (local 0) (content_cap 0) root path old s)
        λ _.
          Leads-if (not copied) _ _ (λ _. Untouched-refl s)
            λ _. Untouched-bind s (scan-Untouched path [] 0 root s) λ found t. Untouched-refl t
