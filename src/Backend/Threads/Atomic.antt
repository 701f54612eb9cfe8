-- ===== src/Backend/Threads/Atomic.antt =====
-- Schedules on which each thread takes its two turns in a row, against whole calls of src/backends/files.c.
use capfs.Base.{ℕ, zero, suc, ◌≡◌, refl, sym, ap, ◌∙◌, List, [], ◌∷◌}
use capfs.Machine.{State, Run, ok, aborted, exited, out_of_fuel, M, continue, pure, ◌>>=◌}
use capfs.Backend.{capfs_backend_read, capfs_backend_write}
use capfs.Backend.Threads.{
  Thread, waiting, sought, storing, placed, answered, fetch_part, store_part, advance, turn,
  interleave,
}
use capfs.Backend.Threads.Parts.{continue-continue, same_start, advance-advance, advance-storing}

-- The whole call of a thread, or what is left of it.
abbrev pub whole : Thread → M Thread
whole (waiting job) =
    capfs_backend_read job.cap job.offset job.buffer job.bytes >>= λ r. pure (answered r)
whole (sought job) = fetch_part job >>= λ r. pure (answered r)
whole (storing job) = capfs_backend_write job.cap job.offset job.buffer job.bytes >>= λ status.
    pure (answered (status, []))
whole (placed job) = store_part job >>= λ status. pure (answered (status, []))
whole (answered r) = pure (answered r)

-- The whole call of the thread at a position, and those of a schedule.
abbrev pub call : ℕ → List Thread → M (List Thread)
call i [] = pure []
call zero (th ∷ ths) = whole th >>= λ th'. pure (th' ∷ ths)
call (suc i) (th ∷ ths) = call i ths >>= λ ths'. pure (th ∷ ths')

abbrev pub call_each : List ℕ → List Thread → M (List Thread)
call_each [] ths = pure ths
call_each (i ∷ is) ths = call i ths >>= call_each is

-- Each turn twice.
abbrev pub twice : List ℕ → List ℕ
twice [] = []
twice (i ∷ is) = i ∷ i ∷ twice is

advance-whole : (th : Thread) (s : State) → continue (advance th s) advance ≡ whole th s
unfolding advance
advance-whole (waiting job) s = advance-advance job s
advance-whole (storing job) s = advance-storing job s
advance-whole (sought job) s =
    continue-continue (fetch_part job s) _ advance ∙ same_start (fetch_part job s) _ _ λ r t. refl
advance-whole (placed job) s =
    continue-continue (store_part job s) _ advance ∙ same_start (store_part job s) _ _ λ r t. refl
advance-whole (answered r) s = refl

-- A turn of the first thread, or of one behind it.
turn-first :
    (r : Run Thread) (ths : List Thread)
    → continue (continue r λ th. pure (th ∷ ths)) (turn 0)
      ≡ continue (continue r advance) λ th. pure (th ∷ ths)
unfolding turn
turn-first (ok th t) ths = refl
turn-first aborted ths = refl
turn-first (exited code) ths = refl
turn-first out_of_fuel ths = refl

turn-later :
    (i : ℕ) (th : Thread) (r : Run (List Thread))
    → continue (continue r λ ths. pure (th ∷ ths)) (turn (suc i))
      ≡ continue (continue r (turn i)) λ ths. pure (th ∷ ths)
unfolding turn
turn-later i th (ok ths t) = refl
turn-later i th aborted = refl
turn-later i th (exited code) = refl
turn-later i th out_of_fuel = refl

turn-call :
    (i : ℕ) (ths : List Thread) (s : State) → continue (turn i ths s) (turn i) ≡ call i ths s
unfolding turn
turn-call zero [] s = refl
turn-call (suc i) [] s = refl
turn-call zero (th ∷ ths) s =
    turn-first (advance th s) ths
    ∙ ap (λ r. continue r λ th'. pure (th' ∷ ths)) (advance-whole th s)
turn-call (suc i) (th ∷ ths) s =
    turn-later i th (turn i ths s)
    ∙ ap (λ r. continue r λ ths'. pure (th ∷ ths')) (turn-call i ths s)

-- For all threads that read and write, and all schedules, in every state and however the I/O calls
-- turn out, the schedule on which each turn is taken twice in a row runs as the one on which each
-- thread in turn makes its whole call, or the rest of it if it stands between its seek and its
-- transfer.
pub interleave-twice :
    (is : List ℕ) (ths : List Thread) (s : State) → interleave (twice is) ths s ≡ call_each is ths s
unfolding interleave
interleave-twice [] ths s = refl
interleave-twice (i ∷ is) ths s =
    sym (continue-continue (turn i ths s) (turn i) (interleave (twice is)))
    ∙ ap (λ r. continue r (interleave (twice is))) (turn-call i ths s)
    ∙ same_start (call i ths s) _ _ λ ths' t. interleave-twice is ths' t
