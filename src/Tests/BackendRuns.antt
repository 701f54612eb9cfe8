-- ===== src/Tests/BackendRuns.antt =====
-- The theorems on the file backend, at concrete inputs.
use capfs.Base.{◌+◌, ◌-◌, ◌≡◌, ◌≢◌, ◌<◌, refl, false, [], ◌∷◌, pos, arith}
use capfs.Machine.{◌>>=◌}
use capfs.Machine.Post.{Leads, Returns}
use capfs.Capability.{capref_to_capability}
use capfs.Metadata.{files_size, metadata_valid_bits_generic}
use capfs.Metadata.Marked.{Marked, valid_bits-Marked}
use capfs.Backend.{
  capfs_backend_read, capfs_backend_write, capfs_backend_put_cap, capfs_backend_zero,
}
use capfs.Backend.{capfs_backend_get_cap}
use capfs.Backend.Confined.{Confined, write-Confined, put_cap-Confined}
use capfs.Backend.Loads.{get_cap-Leads}
use capfs.Backend.ReadWrite.{Written, write-Returns}
use capfs.Backend.ReadBack.{read-write}
use capfs.Backend.Zeroed.{Zeroed, zero-Returns}
use capfs.Startup.{capfs_backend_init}
use capfs.Startup.Opened.{Opened, init_created-Returns}
use capfs.Tests.{
  blank, blank-Ready, root_ref, root_readable, root_writable, root_base, root_size, greeting,
}
use capfs.Tests.{empty_disk}

write-Confined_example :
    let c = capref_to_capability root_ref in
    Leads
      (λ _ t. Confined c.base (c.base + c.size) blank t)
      (capfs_backend_write root_ref 0 greeting 2 blank)
write-Confined_example = write-Confined root_ref 0 greeting 2 blank (omega arith)

put_cap-Confined_example :
    let c = capref_to_capability root_ref in
    Leads
      (λ _ t. Confined c.base (c.base + c.size) blank t)
      (capfs_backend_put_cap root_ref 248 root_ref blank)
put_cap-Confined_example = put_cap-Confined root_ref 248 root_ref blank (omega arith)

root_inside : 256 + 2 < (capref_to_capability root_ref).size
root_inside = omega (arith, root_size)

root_stored : (capref_to_capability root_ref).base + 256 + 2 < files_size
root_stored = omega (arith, root_base)

write-Returns_example :
    Returns
      (λ status t.
        (status ≡ pos 2) × Written root_ref 256 2 blank-Ready root_inside root_stored greeting t)
      (capfs_backend_write root_ref 256 greeting 2 blank)
write-Returns_example =
    write-Returns root_ref 256 2 blank-Ready root_inside root_stored greeting root_writable
      (omega arith) (omega (arith, root_base)) (omega (arith, root_base))

read-write_example :
    Returns
      (λ (status, buffer) _. (status ≡ pos 2) × (buffer ≡ 104 ∷ 105 ∷ 9 ∷ []))
      ((capfs_backend_write root_ref 256 greeting 2 >>= λ _.
          capfs_backend_read root_ref 256 (7 ∷ 8 ∷ 9 ∷ []) 2)
        blank)
read-write_example =
    read-write root_ref 256 2 blank-Ready root_inside root_stored greeting (7 ∷ 8 ∷ 9 ∷ [])
      root_readable root_writable (omega arith) (omega (arith, root_base))
      (omega (arith, root_base))

zero-Returns_example :
    let c = capref_to_capability root_ref in
    Returns
      (λ status t. (status ≡ pos 0) × Zeroed c.base (c.base + c.size - 256) blank t)
      (capfs_backend_zero root_ref blank)
zero-Returns_example =
    zero-Returns root_ref root_writable (omega (arith, root_base)) (omega (arith, root_size))
      (omega (arith, root_base, root_size)) blank-Ready (omega (arith, root_size))

get_cap-Leads_example :
    Leads
      (λ (status, ret) _. (status ≢ pos 0) × (ret ≡ 5))
      (capfs_backend_get_cap root_ref 8 5 blank)
get_cap-Leads_example = get_cap-Leads root_ref 8 5 blank

valid_bits-Marked_example :
    Returns
      (λ status t. (status ≡ pos 0) × Marked false 1 34 blank t)
      (metadata_valid_bits_generic 256 268 false blank)
valid_bits-Marked_example =
    valid_bits-Marked false 256 268 1 blank-Ready.healthy (omega arith) (omega arith) (omega arith)

init_created-Returns_example :
    Returns (λ _ t. Opened empty_disk t) (capfs_backend_init empty_disk blank)
init_created-Returns_example = init_created-Returns empty_disk refl blank refl refl refl
