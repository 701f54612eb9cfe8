-- ===== src/Machine/Post.antt =====
-- Postconditions of a run. `Returns P` is total: the run ends normally, and `P` holds.
-- `Leads P` is partial: `P` holds if the run ends normally.
use capfs.Base.{◌≡◌, refl, subst, Bool, true, false, if◌then◌else◌, ℤ}
use capfs.Machine.{State, Run, ok, aborted, exited, out_of_fuel, M, continue, assert}

pub data Returns {A : Type 0} (P : A → State → Type 0) : Run A → Type 0 where
  returns : {a : A} {s : State} → P a s → Returns P (ok a s)

pub data Leads {A : Type 0} (P : A → State → Type 0) : Run A → Type 0 where
  ends : {a : A} {s : State} → P a s → Leads P (ok a s)
  aborts : Leads P aborted
  exits : {code : ℤ} → Leads P (exited code)
  cut_off : Leads P out_of_fuel

module _ {A B : Type 0} {P : A → State → Type 0} {Q : B → State → Type 0} where
  pub Returns-bind :
      {r : Run A} {k : A → M B}
      → Returns P r
      → ((a : A) (t : State) → P a t → Returns Q (k a t))
      → Returns Q (continue r k)
  Returns-bind (returns p) next = next _ _ p

  pub Leads-bind :
      {r : Run A} {k : A → M B}
      → Leads P r
      → ((a : A) (t : State) → P a t → Leads Q (k a t))
      → Leads Q (continue r k)
  Leads-bind (ends p) next = next _ _ p
  Leads-bind aborts next = aborts
  Leads-bind exits next = exits
  Leads-bind cut_off next = cut_off

module _ {A : Type 0} {P Q : A → State → Type 0} where
  pub Returns-mono : {r : Run A} → Returns P r → ((a : A) (t : State) → P a t → Q a t) → Returns Q r
  Returns-mono (returns p) weaken = returns (weaken _ _ p)

  pub Leads-mono : {r : Run A} → Leads P r → ((a : A) (t : State) → P a t → Q a t) → Leads Q r
  Leads-mono (ends p) weaken = ends (weaken _ _ p)
  Leads-mono aborts weaken = aborts
  Leads-mono exits weaken = exits
  Leads-mono cut_off weaken = cut_off

module _ {A : Type 0} {P : A → State → Type 0} where
  -- A branch of the code.
  pub Leads-if :
      (b : Bool) (m n : M A) {s : State}
      → (b ≡ true → Leads P (m s))
      → (b ≡ false → Leads P (n s))
      → Leads P ((if b then m else n) s)
  Leads-if true m n yes' no' = yes' refl
  Leads-if false m n yes' no' = no' refl

  pub Leads-assert :
      (b : Bool) (k : Unit {0} → M A) {s : State}
      → (b ≡ true → Leads P (k tt s))
      → Leads P (continue (assert b s) k)
  Leads-assert true k next = next refl
  Leads-assert false k next = aborts

  -- Inversion: what a run that ended normally satisfies.
  pub Leads-ok : {a : A} {s : State} {r : Run A} → Leads P r → r ≡ ok a s → P a s
  Leads-ok h e = ended (subst (Leads P) e h)
    where
      ended : {a : A} {s : State} → Leads P (ok a s) → P a s
      ended (ends p) = p

module _ {A : Type 0} {P : A → State → Type 0} where
  -- The branch that a test takes.
  pub Returns-then :
      (b : Bool) (m n : M A) {s : State}
      → b ≡ true
      → Returns P (m s)
      → Returns P ((if b then m else n) s)
  Returns-then true m n e r = r
  Returns-then false m n e r = cc

  pub Returns-else :
      (b : Bool) (m n : M A) {s : State}
      → b ≡ false
      → Returns P (n s)
      → Returns P ((if b then m else n) s)
  Returns-else true m n e r = cc
  Returns-else false m n e r = r

  -- What is known of a run is known of the branch that it takes.
  pub Returns-passed :
      (b : Bool) (m n : M A) {s : State}
      → b ≡ false
      → Returns P ((if b then m else n) s)
      → Returns P (n s)
  Returns-passed true m n e r = cc
  Returns-passed false m n e r = r

  pub Returns-assert :
      (b : Bool) (k : Unit {0} → M A) {s : State}
      → b ≡ true
      → Returns P (k tt s)
      → Returns P (continue (assert b s) k)
  Returns-assert true k e r = r
  Returns-assert false k e r = cc

-- Two postconditions of one run hold together.
pub Returns-and :
    {A : Type 0} {P Q : A → State → Type 0} {r : Run A}
    → Returns P r
    → Leads Q r
    → Returns (λ a s. P a s × Q a s) r
Returns-and (returns p) (ends q) = returns (p, q)
