-- ===== src/Filesystem/RootPath.antt =====
-- `capfs_filesystem_resolve_path` of src/filesystem.c for the path `"/"`, once the root is
-- formatted.
use capfs.Base.{ℕ, ◌≡◌, refl, ap, Bool, true, not, ◌&&◌, ◌||◌, Option, [], ◌∷◌, inl, inr}
use capfs.Base.{ℤ, pos, neg, einval, ◌==◌, if◌then◌else◌, Bool-cases}
use capfs.Machine.{State, pure}
use capfs.Machine.Post.{Returns, returns, Returns-bind, Returns-else}
use capfs.Filetype.{filetype_root, filetype_directory}
use capfs.CapfsFile.{CapfsFile, IsCapfsFile, to_bytes, of_bytes, capfs_file_size, file_magic}
use capfs.Backend.ReadWrite.{read-Returns}
use capfs.Filesystem.{separator, as_size, resolve_one, fs_root}
use capfs.Filesystem.{capfs_filesystem_resolve_path, capfs_filesystem_get_content_cap}
use capfs.Filesystem.Formatted.{
  Formattable, Formatted, Formatted-Frame, block, inside, fits, read_back, accepted,
}

-- The status and `*ret_cap`.
abbrev pub root_found : ℕ → ℕ → ℕ → ℤ × ℕ
root_found type root old =
    if type == filetype_root
    then (pos 0, root)
    else if type == filetype_directory
    then (neg 1, old)
    else (neg einval, old)

-- The tests on the type, as `resolve_one` makes them.
type_tests :
    (P : State → Type 0) (type stored root old : ℕ) {s : State}
    → stored ≡ type
    → P s
    → Returns
        (λ r t. (r ≡ root_found type root old) × P t)
        ((if (stored == filetype_root) && true
            then pure (pos 0, root)
            else if not ((stored == filetype_directory) || (stored == filetype_root))
            then pure (neg einval, old)
            else pure (neg 1, old))
          s)
type_tests P type stored root old e p = rw e (elim (Bool-cases (type == filetype_root)) [
  | inl is ↦ rw is (returns (refl, p))
  | inr not_root ↦ elim (Bool-cases (type == filetype_directory)) [
    | inl is ↦ rw (not_root, is) (returns (refl, p))
    | inr other ↦ rw (not_root, other) (returns (refl, p))
  ]
])

module _ (local : CapfsFile) (v : IsCapfsFile local) (root : ℕ) (k : Formattable root) where
  type_of : (g : CapfsFile) → g ≡ block local v root k → g.type ≡ local.type
  unfolding fs_root
  type_of g e = ap (λ f. f.type) e

  -- On a formatted root, and a file of the expected size on which every call works, resolving
  -- `"/"` gives the root only if the uninitialised type of the block that was formatted happened
  -- to be that of a root; it gives -1 if that was a directory's, and else -EINVAL.
  pub resolve_root-Returns :
      (stack : ℕ → CapfsFile) (content_cap : ℕ → ℕ) (copied : Bool) (old : ℕ) {s : State}
      → IsCapfsFile (stack 0)
      → Formatted local v root k s
      → Returns
          (λ r t. (r ≡ root_found local.type root old) × Formatted local v root k t)
          (capfs_filesystem_resolve_path stack content_cap copied root
            (Option.some (separator ∷ []))
            old
            s)
  unfolding capfs_filesystem_resolve_path resolve_one capfs_filesystem_get_content_cap
  resolve_root-Returns stack content_cap copied old o f =
      Returns-bind
        (read-Returns root 0 capfs_file_size f.ready (inside local v root k) (fits local v root k)
          (to_bytes (stack 0)) k.readable)
        λ got u (n, read, same).
          let g = of_bytes (got.1) in
          let e : g ≡ block local v root k = read_back local v root k (stack 0) got.1 o f read in
          Returns-else (not (as_size got.0 == capfs_file_size)) _ _
            (ap (λ n. not (as_size n == capfs_file_size)) n)
            (Returns-else (not (g.magic == file_magic)) _ _ ((accepted local v root k g e).0) (
              type_tests (Formatted local v root k) local.type g.type root old (type_of g e)
                (Formatted-Frame local v root k same f)))
