-- ===== src/Backend/Refined.antt =====
-- The operations of src/backends/files.c against the memory that they implement.
use capfs.Base.{ℕ, ◌+◌, ◌≡◌, refl, ap, ap₂, ◌∙◌, not, List, [], ◌∷◌, arith}
use capfs.Base.{leb, add64, is_negative, ℤ}
use capfs.Machine.{State, Run, ok, aborted, M, pure, ◌>>=◌, continue, slice, overlay}
use capfs.Machine.Post.{Returns-passed, Returns-mono}
use capfs.Machine.Bytes.{slice_ext}
use capfs.Capability.{perm_read, perm_write, permits, capref_to_capability}
use capfs.Capability.RoundTrip.{capref_to_capability_bounds}
use capfs.Backend.{capfs_backend_read, capfs_backend_write, capfs_backend_zero}
use capfs.Backend.{capfs_backend_get_cap, capfs_backend_put_cap}
use capfs.Backend.ReadWrite.{data_slice, read-Returns}
use capfs.Backend.Loads.{get_cap-Returns}
use capfs.Backend.Zeroed.{zero-Returns}
use capfs.Backend.Settled.{Holds, write-Settles, put_cap-Settles}
use capfs.Backend.Memory.{Request, read, write, zero, get_cap, put_cap, perform, Effect, specify}
use capfs.Backend.Memory.{
  IsAdmissible, perform_all, Effects, replies, stopped, after, prepend, specify_all, AreAdmissible,
}
use capfs.Backend.Refines.{
  Refines, refines, both_abort, fork, fork_as, given, decided, Refines-reply, Holds-Frame,
  Holds-Zeroed,
}
use capfs.Backend.Memory.{loaded, plain}
use capfs.Machine.Settles.{Settles-past, Settles-mono}

module _ (memory : ℕ → ℕ) {s : State} (h : Holds memory s) where
  slice_held : (a n : ℕ) → data_slice s a n ≡ slice memory a n
  unfolding data_slice
  slice_held a n = slice_ext _ _ a n λ i _ _. h.holds i

  pub read-Refines :
      (cap offset : ℕ) (rbuf : List ℕ) (bytes : ℕ)
      → IsAdmissible (read cap offset rbuf bytes)
      → Refines
          (λ r. r)
          (specify (read cap offset rbuf bytes) memory)
          (capfs_backend_read cap offset rbuf bytes s)
  unfolding specify capfs_backend_read
  read-Refines cap offset rbuf bytes (stored, small) =
      let c = capref_to_capability cap in
      let (base_fits, size_fits) = capref_to_capability_bounds cap in
      fork (not (permits c perm_read)) _ _ (refines refl h) λ readable.
        fork (is_negative offset) _ _ (refines refl h) λ positive.
          fork_as (leb c.size (offset + bytes)) (leb c.size (add64 offset bytes)) _ _ (ground arith)
            (refines refl h)
            λ inside. given (
              Returns-mono
                (Returns-passed (leb c.size (add64 offset bytes)) _ _ (ground arith) (
                  Returns-passed (is_negative offset) _ _ positive (
                    Returns-passed (not (permits c perm_read)) _ _ readable (
                      read-Returns cap offset bytes h.ready (ground arith) (ground arith) rbuf
                        (ground arith)))))
                λ r t (count, got, same). (
                  ap₂ (λ a b. (a, b)) count (got ∙ ap (λ xs. overlay xs rbuf) (slice_held _ bytes)),
                  Holds-Frame same h,
                ))

  write-Refines :
      (cap offset : ℕ) (wbuf : List ℕ) (bytes : ℕ)
      → IsAdmissible (write cap offset wbuf bytes)
      → Refines plain
          (specify (write cap offset wbuf bytes) memory)
          (capfs_backend_write cap offset wbuf bytes s)
  unfolding specify capfs_backend_write
  write-Refines cap offset wbuf bytes (stored, small, long) =
      let c = capref_to_capability cap in
      let (base_fits, size_fits) = capref_to_capability_bounds cap in
      fork (not (permits c perm_write)) _ _ (refines refl h) λ writable.
        fork (is_negative offset) _ _ (refines refl h) λ positive.
          fork_as (leb c.size (offset + bytes)) (leb c.size (add64 offset bytes)) _ _ (ground arith)
            (refines refl h)
            λ inside. decided (
              Settles-past (leb c.size (add64 offset bytes)) _ _ (ground arith) (
                Settles-past (is_negative offset) _ _ positive (
                  Settles-past (not (permits c perm_write)) _ _ writable (
                    Settles-mono
                      (write-Settles cap offset bytes wbuf memory h (ground arith) (ground arith)
                        (ground arith) long)
                      λ status t (count, put). (ap plain count, put)))))

  zero-Refines :
      (cap : ℕ)
      → IsAdmissible (zero cap)
      → Refines plain (specify (zero cap) memory) (capfs_backend_zero cap s)
  unfolding specify capfs_backend_zero
  zero-Refines cap (stored, aligned, blocks, some) =
      let c = capref_to_capability cap in
      fork (not (permits c perm_write)) _ _ (refines refl h) λ writable. given (
        Returns-mono
          (Returns-passed (not (permits c perm_write)) _ _ writable
            (zero-Returns cap (ground arith) aligned blocks stored h.ready some))
          λ status t (fine, z). (ap plain fine, Holds-Zeroed h z))

  get_cap-Refines :
      (cap offset old : ℕ)
      → IsAdmissible (get_cap cap offset old)
      → Refines loaded
          (specify (get_cap cap offset old) memory)
          (capfs_backend_get_cap cap offset old s)
  unfolding specify capfs_backend_get_cap
  get_cap-Refines cap offset old (stored, small) =
      let c = capref_to_capability cap in
      let (base_fits, size_fits) = capref_to_capability_bounds cap in
      fork (not (permits c perm_read)) _ _ (refines refl h) λ readable.
        fork_as (leb c.size (offset + 8)) (leb c.size (add64 offset 8)) _ _ (ground arith)
          (refines refl h)
          λ inside. given (
            Returns-mono
              (Returns-passed (leb c.size (add64 offset 8)) _ _ (ground arith) (
                Returns-passed (not (permits c perm_read)) _ _ readable (
                  get_cap-Returns cap offset old h.ready.healthy (ground arith) (ground arith)
                    (ground arith))))
              λ r t (refused, kept, same).
                (ap₂ (λ a b. (a, b ∷ [])) refused kept, Holds-Frame same h))

  put_cap-Refines :
      (cap offset newcap : ℕ)
      → IsAdmissible (put_cap cap offset newcap)
      → Refines plain
          (specify (put_cap cap offset newcap) memory)
          (capfs_backend_put_cap cap offset newcap s)
  unfolding specify capfs_backend_put_cap
  put_cap-Refines cap offset newcap (stored, small) =
      let c = capref_to_capability cap in
      let (base_fits, size_fits) = capref_to_capability_bounds cap in
      fork (not (permits c perm_write)) _ _ (refines refl h) λ writable.
        fork_as (leb c.size (offset + 8)) (leb c.size (add64 offset 8)) _ _ (ground arith)
          (refines refl h)
          λ inside. decided (
            Settles-past (leb c.size (add64 offset 8)) _ _ (ground arith) (
              Settles-past (not (permits c perm_write)) _ _ writable (
                Settles-mono
                  (put_cap-Settles cap offset newcap (c.base + offset) memory h (ground arith)
                    (ground arith) (omega arith) (ground arith))
                  λ status t (fine, put). (ap plain fine, put))))

  perform-Refines :
      (q : Request) → IsAdmissible q → Refines (λ r. r) (specify q memory) (perform q s)
  unfolding perform
  perform-Refines (read cap offset rbuf bytes) a = read-Refines cap offset rbuf bytes a
  perform-Refines (write cap offset wbuf bytes) a =
      Refines-reply (write-Refines cap offset wbuf bytes a)
  perform-Refines (zero cap) a = Refines-reply (zero-Refines cap a)
  perform-Refines (get_cap cap offset old) a = Refines-reply (get_cap-Refines cap offset old a)
  perform-Refines (put_cap cap offset newcap) a =
      Refines-reply (put_cap-Refines cap offset newcap a)

-- The runs of a sequence of requests that agree with its effects.
pub data AllRefine : Effects → Run (List (ℤ × List ℕ)) → Type 0 where
  all_refine :
      {rs : List (ℤ × List ℕ)} {memory : ℕ → ℕ} {r : List (ℤ × List ℕ)} {t : State}
      → r ≡ rs
      → Holds memory t
      → AllRefine (replies rs memory) (ok r t)
  all_abort : AllRefine stopped aborted

AllRefine-prepend :
    {x y : ℤ × List ℕ} {e : Effects} {r : Run (List (ℤ × List ℕ))}
    → x ≡ y
    → AllRefine e r
    → AllRefine (prepend y e) (continue r λ rs. pure (x ∷ rs))
AllRefine-prepend same (all_refine e h) = all_refine (ap₂ ◌∷◌ same e) h
AllRefine-prepend same all_abort = all_abort

AllRefine-after :
    {e : Effect} {r : Run (ℤ × List ℕ)} {next : (ℕ → ℕ) → Effects} {k : M (List (ℤ × List ℕ))}
    → Refines (λ x. x) e r
    → ((memory : ℕ → ℕ) (t : State) → Holds memory t → AllRefine (next memory) (k t))
    → AllRefine (after e next) (continue r λ x. k >>= λ rs. pure (x ∷ rs))
AllRefine-after (refines e h) rest = AllRefine-prepend e (rest _ _ h)
AllRefine-after both_abort rest = all_abort

-- On a ready file (of the expected size, on which every call works) whose data is the given
-- memory, the run of any sequence of reads, writes, zeroings, loads and stores of capabilities
-- refines its effects on the memory: it gives the replies and leaves the memory that the abstract
-- operations say, or it aborts where they stop. The capabilities stand for stored data, counts
-- (for reads and writes) and offsets (for capabilities) are below 2^63, buffers to be written are
-- long enough, and what is zeroed is a positive number of whole 256-byte blocks.
pub perform_all-Refines :
    (qs : List Request) (memory : ℕ → ℕ) (s : State)
    → Holds memory s
    → AreAdmissible qs
    → AllRefine (specify_all qs memory) (perform_all qs s)
unfolding specify_all perform_all
perform_all-Refines [] memory s h a = all_refine refl h
perform_all-Refines (q ∷ qs) memory s h (a, later) =
    AllRefine-after (perform-Refines memory h q a) λ f t kept. perform_all-Refines qs f t kept later
