-- ===== src/Machine/Settles.antt =====
-- Postconditions of a run that is known to end, by a test: normally, or in a failed assertion.
use capfs.Base.{◌≡◌, refl, Bool, true, false, ◌&&◌, if◌then◌else◌}
use capfs.Machine.{State, Run, ok, aborted, M, continue, assert}
use capfs.Machine.Post.{Returns, returns}

-- The run ends normally in `P` if the test holds, and aborts if it does not.
pub data Settles {A : Type 0} (P : A → State → Type 0) : Bool → Run A → Type 0 where
  settles : {a : A} {s : State} → P a s → Settles P true (ok a s)
  stops : Settles P false aborted

module _ {A B : Type 0} {P : A → State → Type 0} {Q : B → State → Type 0} where
  -- The tests of two parts in sequence are joined.
  pub Settles-bind :
      {b c : Bool} {r : Run A} {k : A → M B}
      → Settles P b r
      → ((a : A) (t : State) → P a t → Settles Q c (k a t))
      → Settles Q (b && c) (continue r k)
  Settles-bind (settles p) next = next _ _ p
  Settles-bind stops next = stops

  pub Settles-after :
      {c : Bool} {r : Run A} {k : A → M B}
      → Returns P r
      → ((a : A) (t : State) → P a t → Settles Q c (k a t))
      → Settles Q c (continue r k)
  Settles-after (returns p) next = next _ _ p

module _ {A : Type 0} {P : A → State → Type 0} where
  pub Returns-Settles : {r : Run A} → Returns P r → Settles P true r
  Returns-Settles (returns p) = settles p

  pub Settles-Returns : {b : Bool} {r : Run A} → Settles P b r → b ≡ true → Returns P r
  Settles-Returns (settles p) e = returns p
  Settles-Returns stops e = cc

  pub Settles-cast : {b c : Bool} {r : Run A} → b ≡ c → Settles P b r → Settles P c r
  Settles-cast e h = rw (← e) h

  pub Settles-mono :
      {Q : A → State → Type 0} {b : Bool} {r : Run A}
      → Settles P b r
      → ((a : A) (t : State) → P a t → Q a t)
      → Settles Q b r
  Settles-mono (settles p) weaken = settles (weaken _ _ p)
  Settles-mono stops weaken = stops

  -- An assertion is a test of its own.
  pub Settles-assert :
      (b : Bool) {c : Bool} (k : Unit {0} → M A) {s : State}
      → (b ≡ true → Settles P c (k tt s))
      → Settles P (b && c) (continue (assert b s) k)
  Settles-assert true k next = next refl
  Settles-assert false k next = stops

  -- A branch that is known to be taken, and an assertion that holds.
  pub Settles-else :
      (b : Bool) (m n : M A) {c : Bool} {s : State}
      → b ≡ false
      → Settles P c (n s)
      → Settles P c ((if b then m else n) s)
  Settles-else true m n e r = cc
  Settles-else false m n e r = r

  pub Settles-passed :
      (b : Bool) (k : Unit {0} → M A) {c : Bool} {s : State}
      → b ≡ true
      → Settles P c (k tt s)
      → Settles P c (continue (assert b s) k)
  Settles-passed true k e r = r
  Settles-passed false k e r = cc

  -- What is known of a run is known of the branch that it takes.
  pub Settles-past :
      (b : Bool) (m n : M A) {c : Bool} {s : State}
      → b ≡ false
      → Settles P c ((if b then m else n) s)
      → Settles P c (n s)
  Settles-past true m n e r = cc
  Settles-past false m n e r = r
