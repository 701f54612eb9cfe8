-- ===== src/Tests/ClientRuns.antt =====
-- A client of the file backend, and a formatted root, at concrete inputs.
use capfs.Base.{
  ℕ, ◌+◌, ◌≡◌, ◌≤◌, refl, sym, ap, ◌∙◌, inr, true, some, [], ◌∷◌, ℤ, pos, arith, length,
}
use capfs.Machine.{State, Run, ok, slice, patch}
use capfs.Machine.Post.{Returns, returns}
use capfs.Machine.Bytes.{slice_shift, slice-patch, patch_outside}
use capfs.Capability.{capref_to_capability}
use capfs.Metadata.{files_size, data_offset, total_size}
use capfs.CapfsFile.{to_bytes, capfs_file_size}
use capfs.CapfsFile.RoundTrip.{length-to_bytes}
use capfs.Backend.{capfs_backend_write, capfs_backend_cap_get_size}
use capfs.Backend.Confined.{Confined, data_byte}
use capfs.Backend.Clients.{write, start, step, Steps-Confined}
use capfs.Backend.ReadWrite.{data_slice, write-Returns}
use capfs.Filesystem.{fs_root, separator, capfs_filesystem_resolve_path}
use capfs.Filesystem.Block.{fs_root-IsCapfsFile}
use capfs.Filesystem.Formatted.{Formatted}
use capfs.Filesystem.RootPath.{root_found, resolve_root-Returns}
use capfs.Startup.{stream}
use capfs.Tests.{blank, blank-Ready, root_ref, root_writable, root_base, root_size, greeting}
use capfs.Tests.{no_files, no_caps, no_data, no_file, no_file-IsCapfsFile, root_ref-Formattable}

-- The state in which a run ended.
abbrev final : {A : Type 0} → Run A → State
final (ok a s) = s
final _ = blank

ends_at :
    {n : ℤ} {Q : State → Type 0} {r : Run ℤ}
    → Returns (λ status t. (status ≡ n) × Q t) r
    → r ≡ ok n (final r)
ends_at (returns {s} (e, q)) = ap (λ m. ok m s) e

-- `"hi"` is written at 256.
write_ends :
    capfs_backend_write root_ref 256 greeting 2 blank
    ≡ ok (pos 2) (final (capfs_backend_write root_ref 256 greeting 2 blank))
write_ends = ends_at (
    write-Returns root_ref 256 2 blank-Ready (omega (arith, root_size)) (omega (arith, root_base))
      greeting root_writable (omega arith) (omega (arith, root_base)) (omega (arith, root_base)))

-- Only the root capability is held.
abbrev HoldsRoot : ℕ → Type 0
HoldsRoot cap = cap ≡ root_ref

root_within :
    (cap : ℕ)
    → HoldsRoot cap
    → let c = capref_to_capability cap in (0 ≤ c.base) × (c.base + c.size ≤ files_size)
root_within cap e = (
  omega arith,
  omega (
    arith,
    root_base,
    root_size,
    ap (λ k. (capref_to_capability k).base) e,
    ap (λ k. (capref_to_capability k).size) e,
  ),
)

Steps-Confined_example :
    Confined 0 files_size blank (final (capfs_backend_write root_ref 256 greeting 2 blank))
Steps-Confined_example =
    Steps-Confined HoldsRoot 0 files_size root_within
      (step root_ref start refl (write 256 greeting 2 (omega arith) write_ends))

-- The file with the root block at the front of its data, and zeros behind.
abbrev formatted_data : ℕ → ℕ
formatted_data =
    patch no_data data_offset (to_bytes (fs_root no_file (capfs_backend_cap_get_size root_ref)))

abbrev formatted : State
formatted = record blank { file = stream formatted_data total_size [] }

length-root_block :
    length (to_bytes (fs_root no_file (capfs_backend_cap_get_size root_ref))) ≡ capfs_file_size
unfolding capfs_backend_cap_get_size
length-root_block =
    length-to_bytes _ (fs_root-IsCapfsFile no_file _ no_file-IsCapfsFile (omega (arith, root_size)))

root_block_stored :
    slice formatted_data data_offset capfs_file_size
    ≡ to_bytes (fs_root no_file (capfs_backend_cap_get_size root_ref))
root_block_stored =
    ap (slice formatted_data data_offset) (sym length-root_block)
    ∙ slice-patch no_data data_offset _

formatted-Formatted : Formatted no_file no_file-IsCapfsFile root_ref root_ref-Formattable formatted
unfolding data_slice data_byte
formatted-Formatted = record {
  ready = record {
    healthy = record { opened = refl; quiet = refl; error = refl };
    full_size = refl;
    data_size = refl;
  };
  stored =
      ap (λ (b : ℕ). slice (λ i. formatted_data (i + data_offset)) (b + 0) capfs_file_size)
        root_base
      ∙ slice_shift formatted_data data_offset 0 capfs_file_size
      ∙ root_block_stored;
  zeros = λ i lo hi.
      patch_outside no_data data_offset _ (i + data_offset)
        (inr (omega (arith, length-root_block)));
}

-- The type was not set: `"/"` is refused.
resolve_root-Returns_example :
    Returns
      (λ r t.
        (r ≡ root_found 0 root_ref 5)
        × Formatted no_file no_file-IsCapfsFile root_ref root_ref-Formattable t)
      (capfs_filesystem_resolve_path no_files no_caps true root_ref
        (some (separator ∷ []))
        5
        formatted)
resolve_root-Returns_example =
    resolve_root-Returns no_file no_file-IsCapfsFile root_ref root_ref-Formattable no_files no_caps
      true 5 no_file-IsCapfsFile formatted-Formatted

-- `"/a/b"`
