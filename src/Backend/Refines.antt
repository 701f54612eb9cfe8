-- ===== src/Backend/Refines.antt =====
-- What it is for a run of src/backends/files.c to implement an effect on the memory, and the rules
-- by which it is shown.
use capfs.Base.{refl, ℕ, ◌+◌, ◌≡◌, ◌∙◌, inr, Bool, true, false, List, arith}
use capfs.Base.{if◌then◌else◌, ℤ}
use capfs.Machine.{M, State, Run, ok, aborted, pure, continue}
use capfs.Machine.Post.{Returns, returns}
use capfs.Machine.Frame.{Frame}
use capfs.Machine.Settles.{Settles, settles, stops}
use capfs.Metadata.{data_offset}
use capfs.Backend.Confined.{data_byte}
use capfs.Backend.ReadWrite.{Ready-Frame}
use capfs.Backend.Zeroed.{Zeroed}
use capfs.Backend.Settled.{Holds}
use capfs.Backend.Memory.{Effect, done, abort, zeroed}

-- A run refines an effect, where `reply` says what its result stands for: it gives the reply of the
-- effect and leaves its memory in the file, or both end the program.
pub data Refines {A : Type 0} (reply : A → ℤ × List ℕ) : Effect → Run A → Type 0 where
  refines :
      {a : A} {status : ℤ} {buffer : List ℕ} {memory : ℕ → ℕ} {t : State}
      → reply a ≡ (status, buffer)
      → Holds memory t
      → Refines reply (done status buffer memory) (ok a t)
  both_abort : Refines reply abort aborted

module _ {A : Type 0} {reply : A → ℤ × List ℕ} where
  -- A test that the code and the specification make.
  pub fork :
      (b : Bool) {e e' : Effect} (m n : M A) {s : State}
      → Refines reply e (m s)
      → (b ≡ false → Refines reply e' (n s))
      → Refines reply (if b then e else e') ((if b then m else n) s)
  fork true m n refused next = refused
  fork false m n refused next = next refl

  -- Two tests that agree.
  pub fork_as :
      (b c : Bool) {e e' : Effect} (m n : M A) {s : State}
      → b ≡ c
      → Refines reply e (m s)
      → (b ≡ false → Refines reply e' (n s))
      → Refines reply (if b then e else e') ((if c then m else n) s)
  fork_as b c m n same refused next = rw (← same) (fork b m n refused next)

  -- A run of known result.
  pub given :
      {x : ℤ × List ℕ} {memory : ℕ → ℕ} {r : Run A}
      → Returns (λ a t. (reply a ≡ x) × Holds memory t) r
      → Refines reply (done x.0 x.1 memory) r
  given (returns (e, h)) = refines e h

  pub decided :
      {x : ℤ × List ℕ} {memory : ℕ → ℕ} {b : Bool} {r : Run A}
      → Settles (λ a t. (reply a ≡ x) × Holds memory t) b r
      → Refines reply (if b then done x.0 x.1 memory else abort) r
  decided (settles (e, h)) = refines e h
  decided stops = both_abort

  -- A run with its reply made up.
  pub Refines-reply :
      {e : Effect} {r : Run A}
      → Refines reply e r
      → Refines (λ x. x) e (continue r λ a. pure (reply a))
  Refines-reply (refines e h) = refines e h
  Refines-reply both_abort = both_abort

-- A run that changes no data.
pub Holds-Frame : {f : ℕ → ℕ} {s t : State} → Frame 0 0 s t → Holds f s → Holds f t
unfolding data_byte
Holds-Frame same h = record {
  ready = Ready-Frame (omega arith) same h.ready;
  holds = λ i. same.outside (i + data_offset) (inr (omega arith)) ∙ h.holds i;
}

pub Holds-Zeroed :
    {f : ℕ → ℕ} {lo hi : ℕ} {s t : State} → Holds f s → Zeroed lo hi s t → Holds (zeroed f lo hi) t
unfolding zeroed
Holds-Zeroed {f} {lo} {hi} h z = record {
  ready = z.ready;
  holds = λ i. grind (arith, z.zeros, z.kept, h.holds);
}
