-- ===== src/Tests/FsopsRuns.antt =====
-- The theorems on src/fsops, at concrete inputs.
use capfs.Base.{◌+◌, ◌≡◌, refl, true, some, [], ◌∷◌, pos, arith}
use capfs.Machine.{◌>>=◌}
use capfs.Machine.Post.{Leads, Returns}
use capfs.Capability.{capref_to_capability}
use capfs.Backend.Confined.{Confined}
use capfs.Layer.{files_layer}
use capfs.Fsops.{capfs_op_open, capfs_op_opendir}
use capfs.Fsops.{capfs_op_read, capfs_op_write}
use capfs.Fsops.Handles.{Outcome, Freed, Leaked, opendir-Leads, open-Leads}
use capfs.Fsops.Transfers.{op_write-Confined, op_read-op_write, op_read_from_end, from_end}
use capfs.Tests.{blank, blank-Ready, root_ref, root_readable, root_writable, root_base, root_size}
use capfs.Tests.{greeting, file_handle, one_file}
use capfs.Tests.{no_handles, no_files, no_caps, no_meta}

op_write-Confined_example :
    let c = capref_to_capability root_ref in
    Leads
      (λ _ t. Confined c.base (c.base + c.size) blank t)
      (capfs_op_write
        (files_layer no_files no_caps true)
        0
        no_meta
        one_file
        (some (47 ∷ []))
        greeting
        2
        0
        (some 1)
        blank)
op_write-Confined_example =
    op_write-Confined no_files no_caps true 0 no_meta one_file (47 ∷ []) 1 file_handle refl
      (omega arith) greeting 2 0 blank (omega arith)

op_read-op_write_example :
    Returns
      (λ (status, buffer) _. (status ≡ pos 2) × (buffer ≡ 104 ∷ 105 ∷ 9 ∷ []))
      ((capfs_op_write
            (files_layer no_files no_caps true)
            0
            no_meta
            one_file
            (some (47 ∷ []))
            greeting
            2
            0
            (some 1)
          >>= λ _.
              capfs_op_read
                (files_layer no_files no_caps true)
                0
                no_meta
                one_file
                (some (47 ∷ []))
                (7 ∷ 8 ∷ 9 ∷ [])
                2
                0
                (some 1))
        blank)
op_read-op_write_example =
    op_read-op_write no_files no_caps true 0 no_meta one_file (47 ∷ []) 1 file_handle refl
      (omega arith) 2 0 blank-Ready (omega (arith, root_size)) (omega (arith, root_base)) refl
      (omega arith) (omega arith) greeting (7 ∷ 8 ∷ 9 ∷ []) root_readable root_writable
      (omega arith) (omega (arith, root_base)) (omega (arith, root_base))

opendir-Leads_example :
    Leads
      (λ r _. Outcome (Freed no_handles) no_handles 0 r)
      (capfs_op_opendir
        (files_layer no_files no_caps true)
        0
        no_meta
        no_handles
        (some (47 ∷ []))
        0
        blank)
opendir-Leads_example =
    opendir-Leads (files_layer no_files no_caps true) 0 no_meta no_handles (some (47 ∷ [])) 0 blank

open-Leads_example :
    Leads
      (λ r _. Outcome Leaked no_handles 0 r)
      (capfs_op_open
        (files_layer no_files no_caps true)
        0
        no_meta
        no_handles
        (some (47 ∷ []))
        0
        blank)
open-Leads_example =
    open-Leads (files_layer no_files no_caps true) 0 no_meta no_handles (some (47 ∷ [])) 0 blank

op_read_from_end_example :
    Returns
      (λ r _.
        r
        ≡ from_end no_files no_caps true 0 no_meta one_file
            (47 ∷ [])
            1
            file_handle
            refl
            (omega arith)
            2
            2
            blank-Ready
            (omega (arith, root_size))
            (omega (arith, root_base))
            refl
            (omega arith)
            (omega arith)
            (7 ∷ 8 ∷ 9 ∷ []))
      (capfs_op_read
        (files_layer no_files no_caps true)
        0
        no_meta
        one_file
        (some (47 ∷ []))
        (7 ∷ 8 ∷ 9 ∷ [])
        2
        2
        (some 1)
        blank)
op_read_from_end_example =
    op_read_from_end no_files no_caps true 0 no_meta one_file (47 ∷ []) 1 file_handle refl
      (omega arith) 2 2 blank-Ready (omega (arith, root_size)) (omega (arith, root_base)) refl
      (omega arith) (omega arith) (7 ∷ 8 ∷ 9 ∷ []) root_readable
