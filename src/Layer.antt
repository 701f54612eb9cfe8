-- ===== src/Layer.antt =====
-- The calls that src/fsops makes on the file system and the backend, as an interface, and the
-- implementation that src/filesystem.c and src/backends/files.c give.
use capfs.Base.{ℕ, Bool, Option, List, ℤ}
use capfs.Machine.{M}
use capfs.CapfsFile.{CapfsFile}
use capfs.Backend.{capfs_backend_read, capfs_backend_write}
use capfs.Filesystem.{MetaData, capfs_filesystem_resolve_path, capfs_filesystem_get_metadata}
use capfs.Filesystem.{capfs_filesystem_get_direntry}

pub record Layer : Type 0 where
  pub resolve_path : ℕ → Option (List ℕ) → ℕ → M (ℤ × ℕ)
  pub get_metadata : ℕ → MetaData → ℤ × MetaData
  pub get_direntry : ℕ → ℕ → Option (List ℕ)
  pub read : ℕ → ℕ → List ℕ → ℕ → M (ℤ × List ℕ)
  pub write : ℕ → ℕ → List ℕ → ℕ → M ℤ

-- `local`, `content_cap` and `copied` are those of `capfs_filesystem_resolve_path`.
abbrev pub files_layer : (ℕ → CapfsFile) → (ℕ → ℕ) → Bool → Layer
files_layer local content_cap copied = record {
  resolve_path = capfs_filesystem_resolve_path local content_cap copied;
  get_metadata = capfs_filesystem_get_metadata;
  get_direntry = capfs_filesystem_get_direntry;
  read = capfs_backend_read;
  write = capfs_backend_write;
}
