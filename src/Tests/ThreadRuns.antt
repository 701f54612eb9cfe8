-- ===== src/Tests/ThreadRuns.antt =====
-- The theorems on the threads of FUSE, at concrete inputs.
use capfs.Base.{pos, ◌/◌}
use capfs.Base.{◌+◌, ◌≡◌, ap, List, [], ◌∷◌, arith}
use capfs.Machine.Post.{Returns}
use capfs.Capability.{perm_read, perm_write, permits}
use capfs.Metadata.Decided.{can_mark}
use capfs.Backend.Settled.{Holds}
use capfs.Backend.Threads.{Job, Thread, waiting, storing, answered, interleave}
use capfs.Backend.Threads.Serial.{serve_each, interleave-Returns}
use capfs.Backend.Threads.Atomic.{twice}
use capfs.Backend.Threads.Stores.{Storable, stored_at, interleave_overwrites}
use capfs.Backend.Threads.Turns.{Allowed, place, found_at}
use capfs.Tests.{blank, root_ref, root_readable, root_base, root_size, no_data}
use capfs.Tests.SpecRuns.{
  blank-Holds, page_ref, page_ref-page, page_ref-IsStored, root_ref-IsStored,
}

-- Two bytes of the page, and two bytes of the root behind the page.
abbrev page_job : Job
page_job = record { cap = page_ref; offset = 0; buffer = 7 ∷ 8 ∷ []; bytes = 2 }

abbrev root_job : Job
root_job = record { cap = root_ref; offset = 65536; buffer = 5 ∷ 6 ∷ []; bytes = 2 }

abbrev threads : List Thread
threads = waiting page_job ∷ waiting root_job ∷ []

interleave-Returns_example :
    Returns
      (λ ths t. (ths ≡ serve_each no_data (1 ∷ 0 ∷ 1 ∷ []) threads) × Holds no_data t)
      (interleave (twice (1 ∷ 0 ∷ 1 ∷ [])) threads blank)
interleave-Returns_example =
    interleave-Returns no_data (1 ∷ 0 ∷ 1 ∷ []) threads blank-Holds
      ((page_ref-IsStored, omega arith), ((root_ref-IsStored, omega arith), tt))

page_job-Allowed : Allowed page_job
page_job-Allowed = record {
  readable = ap (λ c. permits c perm_read) page_ref-page;
  inside = omega (arith, ap (λ c. c.size) page_ref-page);
  stored = omega (arith, ap (λ c. c.base) page_ref-page);
}

root_job-Allowed : Allowed root_job
root_job-Allowed = record {
  readable = root_readable;
  inside = omega (arith, root_size);
  stored = omega (arith, root_base);
}

page_job-Storable : Storable page_job
page_job-Storable = record {
  writable = ap (λ c. permits c perm_write) page_ref-page;
  inside = omega (arith, ap (λ c. c.size) page_ref-page);
  stored = omega (arith, ap (λ c. c.base) page_ref-page);
  markable = ap (λ c. can_mark ((c.base + 0) / 8) ((c.base + 0 + 2 + 7) / 8)) page_ref-page;
  long = omega arith;
}

interleave_overwrites_example :
    let after = stored_at no_data page_job (place root_job) in
    Returns
      (λ ths t.
        (ths ≡ answered (pos 2, []) ∷ answered (found_at after root_job (place root_job + 2)) ∷ [])
        × Holds after t)
      (interleave (0 ∷ 1 ∷ 0 ∷ 1 ∷ []) (storing page_job ∷ waiting root_job ∷ []) blank)
interleave_overwrites_example =
    interleave_overwrites no_data page_job root_job blank blank-Holds page_job-Storable
      root_job-Allowed (omega (arith, root_base))
