-- ===== src/Startup/Restarted.antt =====
-- `capfs_backend_init` of src/backends/files.c on the file that an earlier run of the program left.
use capfs.Base.{ℕ, ◌+◌, ◌≡◌, refl, sym, ap, ap₂, ◌∙◌, true, some, List, [], ◌∷◌, ◌++◌, ℤ}
use capfs.Machine.{State, Run, M, pure, continue, ◌>>◌}
use capfs.Machine.Post.{Returns, returns}
use capfs.Metadata.{data_offset}
use capfs.Backend.Confined.{data_byte}
use capfs.Backend.Settled.{Holds}
use capfs.Backend.Memory.{
  Request, perform_all, Effect, done, abort, Effects, replies, stopped, prepend, after, specify,
  specify_all, AreAdmissible,
}
use capfs.Backend.Refined.{AllRefine, all_refine, all_abort, perform_all-Refines}
use capfs.Startup.{Disk, capfs_backend_init}
use capfs.Startup.Opened.{Opened, init_existing-Returns}

-- What the next run finds once the stream is flushed, which the C library does when the program exits:
-- the file as it was left.
abbrev pub left_by : State → Disk
left_by t = record {
  existing = some (t.file.bytes, t.file.size);
  creatable = true;
  truncates = true;
  errno = 0;
  plan = [];
}

-- Runs of the program, one after the other, each with the requests made to it; a run starts with
-- whatever its memory is before `capfs_backend_init`.
unfoldable pub perform_runs : List (State × List Request) → M (List (ℤ × List ℕ))
perform_runs [] s = pure [] s
perform_runs ((fresh, qs) ∷ runs) s =
    continue ((capfs_backend_init (left_by s) >> perform_all qs) fresh)
      λ rs t. continue (perform_runs runs t) λ rs'. pure (rs ++ rs')

-- The requests of all runs.
abbrev pub all_requests : List (State × List Request) → List Request
all_requests [] = []
all_requests ((fresh, qs) ∷ runs) = qs ++ all_requests runs

abbrev pub AllAdmissible : List (State × List Request) → Type 0
AllAdmissible [] = Unit {0}
AllAdmissible ((fresh, qs) ∷ runs) = AreAdmissible qs × AllAdmissible runs

-- Effects with replies in front, and effects that follow others.
abbrev prefix : List (ℤ × List ℕ) → Effects → Effects
prefix rs (replies rs' memory) = replies (rs ++ rs') memory
prefix rs stopped = stopped

abbrev followed : Effects → ((ℕ → ℕ) → Effects) → Effects
followed (replies rs memory) next = prefix rs (next memory)
followed stopped next = stopped

prefix-none : (e : Effects) → prefix [] e ≡ e
prefix-none (replies rs memory) = refl
prefix-none stopped = refl

prepend-prefix :
    (r : ℤ × List ℕ) (rs : List (ℤ × List ℕ)) (e : Effects)
    → prepend r (prefix rs e) ≡ prefix (r ∷ rs) e
prepend-prefix r rs (replies rs' memory) = refl
prepend-prefix r rs stopped = refl

prepend-followed :
    (r : ℤ × List ℕ) (e : Effects) (next : (ℕ → ℕ) → Effects)
    → prepend r (followed e next) ≡ followed (prepend r e) next
prepend-followed r (replies rs memory) next = prepend-prefix r rs (next memory)
prepend-followed r stopped next = refl

after-followed :
    (e : Effect) (next later both : (ℕ → ℕ) → Effects)
    → ((f : ℕ → ℕ) → both f ≡ followed (next f) later)
    → after e both ≡ followed (after e next) later
after-followed (done status buffer f) next later both same =
    ap (prepend (status, buffer)) (same f) ∙ prepend-followed (status, buffer) (next f) later
after-followed abort next later both same = refl

specify_all-append :
    (qs later : List Request) (memory : ℕ → ℕ)
    → specify_all (qs ++ later) memory ≡ followed (specify_all qs memory) (specify_all later)
unfolding specify_all
specify_all-append [] later memory = sym (prefix-none (specify_all later memory))
specify_all-append (q ∷ qs) later memory =
    after-followed (specify q memory) (specify_all qs) (specify_all later)
      (specify_all (qs ++ later)) λ f. specify_all-append qs later f

-- A new run finds the memory that the one before left.
module _ {f : ℕ → ℕ} {s : State} (h : Holds f s) where
  reopened :
      (qs : List Request) (a : AreAdmissible qs) {r : Run (Unit {0})}
      → Returns (λ _ u. Opened (left_by s) u) r
      → AllRefine (specify_all qs f) (continue r λ _. perform_all qs)
  unfolding data_byte
  reopened qs a (returns {s = u} o) =
      perform_all-Refines qs f u
        (record {
          ready = o.ready;
          holds = λ i. ap (λ g. g (i + data_offset)) o.content ∙ h.holds i;
        })
        a

  restarted :
      (fresh : State) (qs : List Request)
      → AreAdmissible qs
      → AllRefine (specify_all qs f) ((capfs_backend_init (left_by s) >> perform_all qs) fresh)
  restarted fresh qs a = reopened qs a (
      init_existing-Returns (left_by s) refl fresh s.file.bytes
        (ap (λ n. some (s.file.bytes, n)) h.ready.full_size))

AllRefine-prefix :
    {rs rs' : List (ℤ × List ℕ)} {e : Effects} {r : Run (List (ℤ × List ℕ))}
    → rs ≡ rs'
    → AllRefine e r
    → AllRefine (prefix rs' e) (continue r λ rs''. pure (rs ++ rs''))
AllRefine-prefix same (all_refine e h) = all_refine (ap₂ ◌++◌ same e) h
AllRefine-prefix same all_abort = all_abort

AllRefine-followed :
    {e : Effects} {r : Run (List (ℤ × List ℕ))} {next : (ℕ → ℕ) → Effects}
    {k : M (List (ℤ × List ℕ))}
    → AllRefine e r
    → ((f : ℕ → ℕ) (t : State) → Holds f t → AllRefine (next f) (k t))
    → AllRefine (followed e next) (continue r λ rs t. continue (k t) λ rs'. pure (rs ++ rs'))
AllRefine-followed (all_refine same h) rest = AllRefine-prefix same (rest _ _ h)
AllRefine-followed all_abort rest = all_abort

-- A ready file (of the expected size, on which every call works) whose data is the given memory is
-- used by runs of the program, one after the other, each of which calls `capfs_backend_init` on
-- the file as the one before left it and then performs its requests, admissible as in
-- `perform_all-Refines`. Whatever the memory of each process is at its start, the runs give the
-- replies, and leave the memory, that the abstract operations say of all requests in one sequence,
-- or the first run that must abort does: restarts are not observable.
pub perform_runs-Refines :
    (runs : List (State × List Request)) (memory : ℕ → ℕ) (s : State)
    → Holds memory s
    → AllAdmissible runs
    → AllRefine (specify_all (all_requests runs) memory) (perform_runs runs s)
unfolding perform_runs specify_all
perform_runs-Refines [] memory s h a = all_refine refl h
perform_runs-Refines ((fresh, qs) ∷ runs) memory s h (now, later) =
    rw (specify_all-append qs (all_requests runs) memory) (
      AllRefine-followed (restarted h fresh qs now)
        λ f t kept. perform_runs-Refines runs f t kept later)
