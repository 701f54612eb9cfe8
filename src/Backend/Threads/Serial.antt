-- ===== src/Backend/Threads/Serial.antt =====
-- Schedules on which each thread reads right after its seek.
use capfs.Base.{
  ℕ, zero, suc, ◌≡◌, refl, ap, true, false, Bool, not, List, [], ◌∷◌, ℤ, neg, if◌then◌else◌,
  is_negative, leb, ◌+◌,
}
use capfs.Machine.{State, Run}
use capfs.Machine.Post.{Returns, returns, Returns-bind}
use capfs.Capability.{perm_read, permits, capref_to_capability}
use capfs.Backend.Settled.{Holds}
use capfs.Backend.Memory.{Request, read, IsAdmissible, specify, Effect, done, abort}
use capfs.Backend.Refines.{Refines, refines}
use capfs.Backend.Refined.{read-Refines}
use capfs.Backend.Threads.{Job, Thread, waiting, sought, storing, placed, answered, interleave}
use capfs.Backend.Threads.Atomic.{whole, call, call_each, twice, interleave-twice}

abbrev pub request : Job → Request
request job = read job.cap job.offset job.buffer job.bytes

-- The answer that the abstract read gives.
abbrev pub answer_of : Effect → ℤ × List ℕ
answer_of (done status buffer memory) = (status, buffer)
answer_of abort = (neg 1, [])

abbrev pub specified : (ℕ → ℕ) → Job → ℤ × List ℕ
specified memory job = answer_of (specify (request job) memory)

-- An effect that leaves the memory.
data Keeps (memory : ℕ → ℕ) : Effect → Type 0 where
  keeps : {status : ℤ} {buffer : List ℕ} → Keeps memory (done status buffer memory)

Keeps-if :
    {memory : ℕ → ℕ} (b : Bool) {e e' : Effect}
    → Keeps memory e
    → Keeps memory e'
    → Keeps memory (if b then e else e')
Keeps-if true k k' = k
Keeps-if false k k' = k'

specify-Keeps : (memory : ℕ → ℕ) (job : Job) → Keeps memory (specify (request job) memory)
unfolding specify
specify-Keeps memory job =
    let c = capref_to_capability job.cap in
    Keeps-if (not (permits c perm_read)) keeps (
      Keeps-if (is_negative job.offset) keeps
        (Keeps-if (leb c.size (job.offset + job.bytes)) keeps keeps))

replied :
    {memory : ℕ → ℕ} {e : Effect} {r : Run (ℤ × List ℕ)}
    → Keeps memory e
    → Refines (λ x. x) e r
    → Returns (λ a t. (a ≡ answer_of e) × Holds memory t) r
replied keeps (refines same h) = returns (same, h)

-- A thread that reads and is not between its seek and its read, or has its answer.
abbrev pub IsIdle : Thread → Type 0
IsIdle (waiting job) = IsAdmissible (request job)
IsIdle (sought job) = ⊥
IsIdle (storing job) = ⊥
IsIdle (placed job) = ⊥
IsIdle (answered r) = Unit {0}

abbrev pub AreIdle : List Thread → Type 0
AreIdle [] = Unit {0}
AreIdle (th ∷ ths) = IsIdle th × AreIdle ths

-- What two turns should make of a thread, of the thread at a position, and of threads in turn.
abbrev pub served : (ℕ → ℕ) → Thread → Thread
served memory (waiting job) = answered (specified memory job)
served memory (sought job) = sought job
served memory (storing job) = storing job
served memory (placed job) = placed job
served memory (answered r) = answered r

abbrev pub serve_at : (ℕ → ℕ) → ℕ → List Thread → List Thread
serve_at memory i [] = []
serve_at memory zero (th ∷ ths) = served memory th ∷ ths
serve_at memory (suc i) (th ∷ ths) = th ∷ serve_at memory i ths

abbrev pub serve_each : (ℕ → ℕ) → List ℕ → List Thread → List Thread
serve_each memory [] ths = ths
serve_each memory (i ∷ is) ths = serve_each memory is (serve_at memory i ths)

module _ (memory : ℕ → ℕ) where
  served-IsIdle : (th : Thread) → IsIdle th → IsIdle (served memory th)
  served-IsIdle (waiting job) v = tt
  served-IsIdle (sought job) v = v
  served-IsIdle (storing job) v = v
  served-IsIdle (placed job) v = v
  served-IsIdle (answered r) v = tt

  serve_at-AreIdle : (i : ℕ) (ths : List Thread) → AreIdle ths → AreIdle (serve_at memory i ths)
  serve_at-AreIdle zero [] v = tt
  serve_at-AreIdle (suc i) [] v = tt
  serve_at-AreIdle zero (th ∷ ths) (v, vs) = (served-IsIdle th v, vs)
  serve_at-AreIdle (suc i) (th ∷ ths) (v, vs) = (v, serve_at-AreIdle i ths vs)

  whole-Returns :
      (th : Thread) {s : State}
      → Holds memory s
      → IsIdle th
      → Returns (λ th' t. (th' ≡ served memory th) × Holds memory t) (whole th s)
  whole-Returns (waiting job) h v =
      Returns-bind
        (replied (specify-Keeps memory job)
          (read-Refines memory h job.cap job.offset job.buffer job.bytes v))
        λ a t (same, kept). returns (ap answered same, kept)
  whole-Returns (sought job) h v = elim v [ ]
  whole-Returns (storing job) h v = elim v [ ]
  whole-Returns (placed job) h v = elim v [ ]
  whole-Returns (answered r) h v = returns (refl, h)

  call-Returns :
      (i : ℕ) (ths : List Thread) {s : State}
      → Holds memory s
      → AreIdle ths
      → Returns (λ ths' t. (ths' ≡ serve_at memory i ths) × Holds memory t) (call i ths s)
  call-Returns zero [] h v = returns (refl, h)
  call-Returns (suc i) [] h v = returns (refl, h)
  call-Returns zero (th ∷ ths) h (v, vs) =
      Returns-bind (whole-Returns th h v)
        λ th' t (same, kept). returns (ap (λ x. x ∷ ths) same, kept)
  call-Returns (suc i) (th ∷ ths) h (v, vs) =
      Returns-bind (call-Returns i ths h vs)
        λ ths' t (same, kept). returns (ap (λ x. th ∷ x) same, kept)

  call_each-Returns :
      (is : List ℕ) (ths : List Thread) {s : State}
      → Holds memory s
      → AreIdle ths
      → Returns (λ ths' t. (ths' ≡ serve_each memory is ths) × Holds memory t) (call_each is ths s)
  call_each-Returns [] ths h v = returns (refl, h)
  call_each-Returns (i ∷ is) ths h v = Returns-bind (call-Returns i ths h v) λ ths' t (same, kept).
      rw same (call_each-Returns is (serve_at memory i ths) kept (serve_at-AreIdle i ths v))

  -- On a ready file (of the expected size, on which every call works) whose data is the given
  -- memory, any number of threads with admissible reads, of which none is between its seek and its
  -- read, are scheduled so that each turn is taken twice in a row. The schedule ends with the data
  -- as they were, and each thread that had its turns has the answer that the abstract read gives;
  -- the others stand where they were.
  pub interleave-Returns :
      (is : List ℕ) (ths : List Thread) {s : State}
      → Holds memory s
      → AreIdle ths
      → Returns
          (λ ths' t. (ths' ≡ serve_each memory is ths) × Holds memory t)
          (interleave (twice is) ths s)
  interleave-Returns is ths {s} h v = rw (interleave-twice is ths s) (call_each-Returns is ths h v)
