-- ===== src/Tests.antt =====
-- Concrete inputs: an empty backend file on which every call works, the root capability, and a file
-- header that is all zero.
pub mod CodecRuns
pub mod BackendRuns
pub mod SpecRuns
pub mod ThreadRuns
pub mod ClientRuns
pub mod DummyRuns
pub mod FilesystemRuns
pub mod FsopsRuns
pub mod SessionRuns
use capfs.Base.{
  ℕ, ◌+◌, ◌%◌, ◌≡◌, ◌<◌, ◌≤◌, refl, ap, true, false, Option, some, none, List, [], ◌∷◌, arith,
  replicate, ◌==◌, if◌then◌else◌,
}
use capfs.Machine.{Fault, State, Stream}
use capfs.Capability.{perm_read, perm_write, permits, capref_to_capability, capability_decompress}
use capfs.Metadata.{files_size, total_size}
use capfs.CapfsFile.{CapfsFile, IsCapfsFile}
use capfs.Startup.{Disk, stream, root_capability}
use capfs.Backend.ReadWrite.{Ready}
use capfs.Filesystem.Formatted.{Formattable}
use capfs.Fsops.Startup.{root-Formattable}
use capfs.Handle.{Handle, Heap}
use capfs.Filesystem.{MetaData}

abbrev pub no_data : ℕ → ℕ
no_data i = 0

abbrev pub blank : State
blank = record {
  file = stream no_data total_size [];
  data_size = files_size;
  root_capability = 0;
  garbage = [];
}

pub blank-Ready : Ready blank
blank-Ready = record {
  healthy = record { opened = refl; quiet = refl; error = refl };
  full_size = refl;
  data_size = refl;
}

-- The reference that `capfs_backend_init` publishes.
abbrev pub root_ref : ℕ
root_ref = 11867735618059152042

pub root_ref-root : capref_to_capability root_ref ≡ root_capability
unfolding capref_to_capability capability_decompress
root_ref-root = refl

pub root_readable : permits (capref_to_capability root_ref) perm_read ≡ true
root_readable = ap (λ c. permits c perm_read) root_ref-root

pub root_writable : permits (capref_to_capability root_ref) perm_write ≡ true
root_writable = ap (λ c. permits c perm_write) root_ref-root

pub root_base : (capref_to_capability root_ref).base ≡ 0
root_base = ap (λ c. c.base) root_ref-root

pub root_size : (capref_to_capability root_ref).size ≡ files_size
root_size = ap (λ c. c.size) root_ref-root

pub root_ref-Formattable : Formattable root_ref
root_ref-Formattable = root-Formattable root_ref root_ref-root

-- `"hi"`
abbrev pub greeting : List ℕ
greeting = 104 ∷ 105 ∷ []

abbrev pub no_file : CapfsFile
no_file = record {
  magic = 0;
  name = replicate 128 0;
  type = 0;
  type_padding = 0;
  content = 0;
  size = 0;
  version = 0;
  header = replicate 8 0;
  header_padding = 0;
  heap = 0;
}

pub no_file-IsCapfsFile : IsCapfsFile no_file
no_file-IsCapfsFile = record {
  magic_fits = omega arith;
  name_fits = refl;
  type_fits = omega arith;
  type_padding_fits = omega arith;
  content_fits = omega arith;
  size_fits = omega arith;
  version_fits = omega arith;
  header_fits = refl;
  header_padding_fits = omega arith;
  heap_fits = omega arith;
}

-- The locals of each component of a path.
abbrev pub no_files : ℕ → CapfsFile
no_files k = no_file

abbrev pub no_caps : ℕ → ℕ
no_caps k = 0

-- A disk that holds an empty file of the right size.
abbrev pub full_disk : Disk
full_disk = record {
  existing = some (no_data, total_size);
  creatable = true;
  truncates = true;
  errno = 0;
  plan = [];
}

abbrev pub empty_disk : Disk
empty_disk = record full_disk { existing = none }

-- An open file through the root capability, and a heap that holds it at 1.
abbrev pub file_handle : Handle
file_handle = record { type = 3; size = 2; cap = root_ref; perms = 6 }

abbrev pub one_handle : ℕ → Option Handle
one_handle i = if i == 1 then some file_handle else none

abbrev pub one_file : Heap
one_file = record { live = one_handle; offers = 2 ∷ [] }

abbrev pub no_live : ℕ → Option Handle
no_live i = none

abbrev pub no_handles : Heap
no_handles = record { live = no_live; offers = 1 ∷ 1 ∷ [] }

abbrev pub no_meta : MetaData
no_meta = record { perms = 0; bytes = 0; type = 0 }
