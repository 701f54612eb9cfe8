-- ===== src/Tests/SpecRuns.antt =====
-- The theorems on runs of the file backend against its memory, at concrete inputs.
use capfs.Base.{if◌then◌else◌, ltb}
use capfs.Metadata.{data_offset, total_size}
use capfs.Startup.{stream}
use capfs.Backend.ReadWrite.{Ready}
use capfs.Backend.Isolated.{Agree, IsWithin, Indistinct, perform_all-Indistinct}
use capfs.Base.{ℕ, ◌+◌, ◌-◌, ◌/◌, ◌^◌, ◌≡◌, refl, ap, true, [], ◌∷◌, pos, arith, List, ◌%◌, length}
use capfs.Machine.{State, patch, le_bytes}
use capfs.Machine.Post.{Leads, Returns}
use capfs.Machine.Settles.{Settles}
use capfs.Machine.Ends.{Ends}
use capfs.Capability.{
  Capability, perm_write, permits, capability_compres, capref_to_capability, capability_decompress,
}
use capfs.Metadata.{metadata_valid_bits_generic}
use capfs.Metadata.Framed.{MetaFrame}
use capfs.Metadata.Decided.{can_mark, valid_bits-Settles}
use capfs.Backend.{capfs_backend_put_cap}
use capfs.Backend.Settled.{Holds}
use capfs.Backend.Confined.{data_byte}
use capfs.Backend.Memory.{
  Request, read, write, get_cap, put_cap, perform_all, specify_all, IsStored, IsAdmissible,
  AreAdmissible,
}
use capfs.Backend.Refined.{AllRefine, perform_all-Refines}
use capfs.Backend.Answered.{perform_all-Returns}
use capfs.Startup.Restarted.{all_requests, perform_runs, perform_runs-Refines}
use capfs.Backend.Sized.{perform_all-Sized}
use capfs.Backend.Sized.Calls.{Sized}
use capfs.Backend.Ended.{perform_all-Ends}
use capfs.Backend.Escaped.{put_cap_escapes}
use capfs.Backend.Slots.{at_edge, put_cap_slots}
use capfs.Tests.{
  blank, blank-Ready, root_ref, root_base, root_size, root_writable, greeting, no_data,
}

pub blank-Holds : Holds no_data blank
unfolding data_byte
blank-Holds = record { ready = blank-Ready; holds = λ i. refl }

-- A write at 256, a store of a reference at 512, and a read over both.
abbrev requests : List Request
requests =
    write root_ref 256 greeting 2
    ∷ put_cap root_ref 512 root_ref
    ∷ get_cap root_ref 512 7
    ∷ read root_ref 256 (1 ∷ 2 ∷ 3 ∷ []) 2
    ∷ Request.zero root_ref
    ∷ []

pub root_ref-IsStored : IsStored root_ref
root_ref-IsStored = omega (arith, root_base, root_size)

root_zero-IsAdmissible : IsAdmissible (Request.zero root_ref)
root_zero-IsAdmissible = (
  root_ref-IsStored,
  ap (λ b. b % 256) root_base,
  ap (λ b. b % 256) root_size,
  omega (arith, root_size),
)

requests-AreAdmissible : AreAdmissible requests
requests-AreAdmissible = (
  (root_ref-IsStored, omega arith, omega arith),
  (
    (root_ref-IsStored, omega arith),
    (
      (root_ref-IsStored, omega arith),
      ((root_ref-IsStored, omega arith), (root_zero-IsAdmissible, tt)),
    ),
  ),
)

perform_all-Refines_example : AllRefine (specify_all requests no_data) (perform_all requests blank)
perform_all-Refines_example =
    perform_all-Refines requests no_data blank blank-Holds requests-AreAdmissible

perform_all-Returns_example :
    Returns (λ rs _. length rs ≡ length requests) (perform_all requests blank)
perform_all-Returns_example =
    perform_all-Returns requests no_data blank blank-Holds requests-AreAdmissible (
      ap (λ b. can_mark ((b + 256) / 8) ((b + 256 + 2 + 7) / 8)) root_base,
      (ap (λ b. can_mark ((b + 512) / 8) ((b + 512 + 7) / 8)) root_base, (tt, (tt, (tt, tt)))),
    )

-- The same requests in two runs of the program.
abbrev runs : List (State × List Request)
runs = (blank, requests) ∷ (blank, requests) ∷ []

perform_runs-Refines_example :
    AllRefine (specify_all (all_requests runs) no_data) (perform_runs runs blank)
perform_runs-Refines_example =
    perform_runs-Refines runs no_data blank blank-Holds
      (requests-AreAdmissible, (requests-AreAdmissible, tt))

perform_all-Sized_example : Leads (λ _ t. Sized true 0 t) (perform_all requests blank)
perform_all-Sized_example =
    perform_all-Sized requests blank
      (record { size = refl; data_size = refl; root_same = refl; opened_same = refl })
      (omega arith, (tt, (tt, (tt, (tt, tt)))))

perform_all-Ends_example : Ends (perform_all requests blank)
perform_all-Ends_example = perform_all-Ends requests blank

-- The capability for the 4096 bytes from 4096 on, with all permissions.
abbrev page : Capability
page = record { base = 4096; size = 4096; size_bits = 12; perms = 7 }

abbrev pub page_ref : ℕ
page_ref = 12512876264679979690

pub page_ref-page : capref_to_capability page_ref ≡ page
unfolding capref_to_capability capability_decompress
page_ref-page = refl

put_cap_escapes_example :
    Returns
      (λ status t.
        (status ≡ pos 0)
        × Holds
            (patch no_data
              ((capref_to_capability page_ref).base - 8)
              (le_bytes 8 (capability_compres (capref_to_capability root_ref))))
            t)
      (capfs_backend_put_cap page_ref (2 ^ 64 - 8) root_ref blank)
put_cap_escapes_example =
    put_cap_escapes page_ref root_ref no_data blank-Holds
      (ap (λ c. permits c perm_write) page_ref-page) (ap (λ c. c.base % 256) page_ref-page)
      (omega (arith, ap (λ c. c.base) page_ref-page))
      (omega (arith, ap (λ c. c.base) page_ref-page))
      (omega (arith, ap (λ c. c.size) page_ref-page))

-- The last slot of a word.
put_cap_slots_example :
    let at = (capref_to_capability root_ref).base + 248 in
    let form = le_bytes 8 (capability_compres (capref_to_capability root_ref)) in
    Settles
      (λ status t. (status ≡ pos 0) × Holds (patch no_data at form) t)
      (at_edge (at / 8))
      (capfs_backend_put_cap root_ref 248 root_ref blank)
put_cap_slots_example =
    put_cap_slots root_ref 248 root_ref no_data blank-Holds root_writable (omega (arith, root_size))
      (omega (arith, root_base)) (omega (arith, root_base))

-- The bit of one slot in the middle of a word.
valid_bits-Settles_example :
    Settles
      (λ status t. (status ≡ pos 0) × MetaFrame blank t)
      (can_mark (64 / 8) ((64 + 7) / 8))
      (metadata_valid_bits_generic 64 64 true blank)
valid_bits-Settles_example =
    valid_bits-Settles true 64 64 blank-Ready.healthy (omega arith) (omega arith) (omega arith)

-- A file with other data behind the page.
abbrev other_data : ℕ → ℕ
other_data i = if ltb i (data_offset + 8192) then 0 else 1

abbrev other : State
other = record blank { file = stream other_data total_size [] }

other-Ready : Ready other
other-Ready = record {
  healthy = record { opened = refl; quiet = refl; error = refl };
  full_size = refl;
  data_size = refl;
}

blank-other-Agree : Agree 4096 8192 (data_byte blank) (data_byte other)
unfolding data_byte
blank-other-Agree i from to = ground arith

abbrev page_requests : List Request
page_requests =
    write page_ref 0 greeting 2
    ∷ put_cap page_ref 512 root_ref
    ∷ get_cap page_ref 512 7
    ∷ read page_ref 0 (1 ∷ 2 ∷ 3 ∷ []) 2
    ∷ []

pub page_ref-IsStored : IsStored page_ref
page_ref-IsStored = omega (arith, ap (λ c. c.base) page_ref-page, ap (λ c. c.size) page_ref-page)

page_ref-IsWithin : IsWithin 4096 8192 page_ref
page_ref-IsWithin = omega (arith, ap (λ c. c.base) page_ref-page, ap (λ c. c.size) page_ref-page)

perform_all-Indistinct_example :
    Indistinct 4096 8192 (perform_all page_requests blank) (perform_all page_requests other)
perform_all-Indistinct_example =
    perform_all-Indistinct 4096 8192 page_requests blank other blank-Ready other-Ready
      blank-other-Agree
      (
        (page_ref-IsStored, omega arith, omega arith),
        (
          (page_ref-IsStored, omega arith),
          ((page_ref-IsStored, omega arith), ((page_ref-IsStored, omega arith), tt)),
        ),
      )
      (page_ref-IsWithin, (page_ref-IsWithin, (page_ref-IsWithin, (page_ref-IsWithin, tt))))
