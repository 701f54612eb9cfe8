-- ===== src/Filesystem.antt =====
-- src/filesystem.c, lines 76 to 315: formatting, initialising and path resolution.
--
-- A path is the list of its characters, without the NUL. What an uninitialised local holds is an
-- argument: `local` for a `struct capfs_file`, `content_cap` for a capability reference; where a path is
-- resolved, those of the component `k` are `local k` and `content_cap k`.
pub mod Block
pub mod Formatted
pub mod Ended
pub mod Components
pub mod Untouched
pub mod RootPath
pub mod Reading
pub mod Scanned
pub mod Paths
use capfs.Base.{
  ℕ, zero, suc, ◌+◌, ◌-◌, ◌%◌, ◌^◌, Bool, true, false, not, ◌&&◌, ◌||◌, Option, none, some,
}
use capfs.Base.{List, [], ◌∷◌, ◌++◌, ℤ, pos, negsuc, neg, is_nonzero, einval, enomem}
use capfs.Base.{◌==◌, if◌then◌else◌, drop}
use capfs.Machine.{M, pure, exited, ◌>>=◌, ◌>>◌}
use capfs.Filetype.{filetype_root, filetype_directory}
use capfs.CapfsFile.{CapfsFile, to_bytes, of_bytes, capfs_file_size, file_magic, root_header}
use capfs.Backend.{capfs_backend_zero, capfs_backend_cap_get_size}
use capfs.Backend.{capfs_backend_read, capfs_backend_write}

-- A `long` as it is compared with a `size_t`.
abbrev pub as_size : ℤ → ℕ
as_size (pos n) = n % 2 ^ 64
as_size (negsuc n) = 2 ^ 64 - 1 - n % 2 ^ 64

-- `'/'`
abbrev pub separator : ℕ
separator = 47

-- The fields that `capfs_filesystem_format` sets; the others stay as they are in `local`.
unfoldable pub fs_root : CapfsFile → ℕ → CapfsFile
fs_root local size = record local {
  size = size;
  magic = file_magic;
  name = separator ∷ 0 ∷ drop 2 local.name;
  header = root_header;
}

unfoldable pub capfs_filesystem_format : CapfsFile → ℕ → M ℤ
capfs_filesystem_format local root = do
  err ← capfs_backend_zero root
  if is_nonzero err then pure err else do
    let block = to_bytes (fs_root local (capfs_backend_cap_get_size root))
    written ← capfs_backend_write root 0 block capfs_file_size
    if not (as_size written == capfs_file_size) then pure (neg 1) else pure (pos 0)

-- `strncmp(a, b, n) == 0`, and `strcmp` where `n` covers both strings.
unfoldable pub same_string : ℕ → List ℕ → List ℕ → Bool
same_string zero a b = true
same_string (suc n) [] b = false
same_string (suc n) (x ∷ xs) [] = false
same_string (suc n) (x ∷ xs) (y ∷ ys) =
    let rest = same_string n xs ys in if not (x == y) then false else if x == 0 then true else rest

-- The second result is `g_fs_root`, which is given as `old`. The `switch` on the version changes nothing.
unfoldable pub capfs_filesystem_init : CapfsFile → CapfsFile → ℕ → M (ℤ × CapfsFile)
capfs_filesystem_init local old root = do
  err ← capfs_filesystem_format local root
  if is_nonzero err then (λ _. exited (pos 0)) else do
    (got, buffer) ← capfs_backend_read root 0 (to_bytes old) capfs_file_size
    let g_fs_root = of_bytes buffer
    if not (as_size got == capfs_file_size)
        then pure (neg einval, g_fs_root)
        else if not (g_fs_root.magic == file_magic)
        then pure (neg einval, g_fs_root)
        else if not (same_string 8 g_fs_root.header root_header)
        then pure (neg 1, g_fs_root)
        else if not (same_string 128 g_fs_root.name (separator ∷ 0 ∷ []))
        then pure (neg 1, g_fs_root)
        else pure (pos 0, g_fs_root)

-- The three that are not implemented. An output that is not set stays as it was.
unfoldable pub capfs_filesystem_get_direntry : ℕ → ℕ → Option (List ℕ)
capfs_filesystem_get_direntry dircap offset = none

pub record MetaData : Type 0 where
  pub perms : ℕ
  pub bytes : ℕ
  pub type : ℕ

unfoldable pub capfs_filesystem_get_metadata : ℕ → MetaData → ℤ × MetaData
capfs_filesystem_get_metadata file md = (neg 1, md)

unfoldable pub capfs_filesystem_get_content_cap : ℕ → ℕ → ℤ × ℕ
capfs_filesystem_get_content_cap cap_file cap_content = (neg 1, cap_content)

-- The loop over the entries, from `current` on; it makes as many rounds as the size says.
unfoldable pub entry_loop : ℕ → CapfsFile → ℕ → ℕ → M (Unit {0})
entry_loop zero local content_cap current = pure tt
entry_loop (suc rounds) local content_cap current = do
  _ ← capfs_backend_read content_cap current (to_bytes local) capfs_file_size
  entry_loop rounds local content_cap (current + 1)

-- The path is `"/"`.
abbrev pub is_root_path : List ℕ → Bool
is_root_path [] = false
is_root_path (x ∷ []) = x == separator
is_root_path (x ∷ y ∷ ys) = false

-- The second result is `*ret_cap`, which is given as `old`.
unfoldable pub resolve_one : CapfsFile → ℕ → ℕ → List ℕ → ℕ → M (ℤ × ℕ)
resolve_one local content_cap root path old = do
  (got, buffer) ← capfs_backend_read root 0 (to_bytes local) capfs_file_size
  let f = of_bytes buffer
  if not (as_size got == capfs_file_size)
      then pure (neg 1, old)
      else if not (f.magic == file_magic)
      then pure (neg einval, old)
      else if (f.type == filetype_root) && is_root_path path
      then pure (pos 0, root)
      else if not ((f.type == filetype_directory) || (f.type == filetype_root))
      then pure (neg einval, old)
      else do
        let content = capfs_filesystem_get_content_cap root content_cap
        if is_nonzero content.0
            then pure (neg 1, old)
            else do entry_loop f.size local content.1 0; pure (pos 0, old)

-- One component: its status is not looked at, and `root` is also where the result goes.
abbrev pub component : CapfsFile → ℕ → ℕ → List ℕ → M ℕ
component local content_cap root current =
    resolve_one local content_cap root current root >>= λ r. pure r.1

-- The scan: `current` is what stands between the pointers `current` and `p`, and `k` components were
-- looked up before; each has locals of its own. The result is `root`.
unfoldable pub scan : (ℕ → CapfsFile) → (ℕ → ℕ) → ℕ → ℕ → List ℕ → List ℕ → M ℕ
scan local content_cap k root [] [] = pure root
scan local content_cap k root (x ∷ xs) [] = component (local k) (content_cap k) root (x ∷ xs)
scan local content_cap k root [] (p ∷ ps) =
    let skipped = scan local content_cap k root [] ps in
    let taken = scan local content_cap k root (p ∷ []) ps in
    if p == separator then skipped else taken
scan local content_cap k root (x ∷ xs) (p ∷ ps) =
    let ended = component (local k) (content_cap k) root (x ∷ xs) >>= λ r.
    scan local content_cap (k + 1) r [] ps in
    let taken = scan local content_cap k root (x ∷ xs ++ p ∷ []) ps in
    if p == separator then ended else taken

-- `copied` says whether `strdup` finds memory; a path of `none` is `NULL`. The callers' `ret_cap` is
-- never `NULL`.
unfoldable pub capfs_filesystem_resolve_path :
    (ℕ → CapfsFile) → (ℕ → ℕ) → Bool → ℕ → Option (List ℕ) → ℕ → M (ℤ × ℕ)
capfs_filesystem_resolve_path local content_cap copied root none old = pure (neg 1, old)
capfs_filesystem_resolve_path local content_cap copied root (some path) old =
    if is_root_path path
    then resolve_one (local 0) (content_cap 0) root path old
    else if not copied
    then pure (neg enomem, old)
    else do found ← scan local content_cap 0 root [] path; pure (pos 0, found)
