-- ===== src/Startup.antt =====
-- src/backends/files.c, lines 350 to 425: opening the file and publishing the root capability.
pub mod Opened
pub mod Restarted
pub mod Ended
use capfs.Base.{ℕ, bit_or, Bool, true, false, not, Option, none, some, List}
use capfs.Base.{ℤ, pos, neg, einval, ◌==◌, if◌then◌else◌}
use capfs.Machine.{Fault, works, broken, Stream, set_file, next_fault, later_faults}
use capfs.Machine.{M, ok, exited, ◌>>=◌, ◌>>◌, gets}
use capfs.Capability.{Capability, perm_read, perm_write, perm_exec, capability_to_capref}
use capfs.Metadata.{files_size_bits, files_size, total_size}

-- What the file system holds at `BACKEND_FILES_PATH`, and how the calls on it turn out: `existing` is
-- the content and size of the file that `fopen(…, "r+b")` opens, if it can; `creatable` says whether
-- `fopen(…, "w+b")` succeeds, and `truncates` whether `truncate` does; `errno` is what a failed
-- `fopen` leaves there; `plan` is that of the stream.
pub record Disk : Type 0 where
  pub existing : Option ((ℕ → ℕ) × ℕ)
  pub creatable : Bool
  pub truncates : Bool
  pub errno : ℕ
  pub plan : List Fault

abbrev pub stream : (ℕ → ℕ) → ℕ → List Fault → Stream
stream content size plan = record {
  opened = true;
  bytes = content;
  size = size;
  position = 0;
  error = false;
  plan = plan;
}

unfoldable open_file : Disk → Option ((ℕ → ℕ) × ℕ) → M (Unit {0})
open_file disk (some (content, size)) s = ok tt (set_file s (stream content size disk.plan))
open_file disk none s =
    if not disk.creatable
    then exited (pos disk.errno)
    else if not disk.truncates
    then exited (neg 1)
    else ok tt (set_file s (stream (λ _. 0) total_size disk.plan))

-- `fseek(file, 0L, SEEK_END)`, whose result is not looked at.
unfoldable seek_end : M (Unit {0})
seek_end s =
    let f = s.file in
    let end : ℕ = elim (next_fault f.plan) [ works ↦ f.size | broken _ ↦ f.position ] in
    ok tt (set_file s (record f { position = end; plan = later_faults f.plan }))

unfoldable rewind : M (Unit {0})
rewind s =
    let f = s.file in
    let start : ℕ = elim (next_fault f.plan) [ works ↦ 0 | broken _ ↦ f.position ] in
    ok tt (set_file s (record f { position = start; error = false; plan = later_faults f.plan }))

abbrev pub root_capability : Capability
root_capability = record {
  base = 0;
  size = files_size;
  size_bits = files_size_bits;
  perms = bit_or (bit_or perm_read perm_write) perm_exec;
}

unfoldable publish_root : M (Unit {0})
unfolding capability_to_capref
publish_root s =
    ok tt
      (record s { data_size = files_size; root_capability = capability_to_capref root_capability })

-- The returned backend state is `NULL`.
unfoldable pub capfs_backend_init : Disk → M (Unit {0})
unfolding open_file seek_end rewind publish_root
capfs_backend_init disk = do
  open_file disk disk.existing
  seek_end
  end ← gets λ s. s.file.position
  if not (end == total_size) then (λ _. exited (pos einval)) else do rewind; publish_root

-- Nothing is closed or written; the status is 0.
unfoldable pub capfs_backend_destroy : ℤ
capfs_backend_destroy = pos 0
