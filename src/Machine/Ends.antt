-- ===== src/Machine/Ends.antt =====
-- Runs that end: normally, in an abort or in an exit, but not for want of fuel.
use capfs.Base.{ℕ, ◌≡◌, refl, Bool, true, false, ℤ, List, if◌then◌else◌, arith}
use capfs.Machine.{State, Run, ok, aborted, exited, M, continue, assert, fseek, fread, fwrite}

pub data Ends {A : Type 0} : Run A → Type 0 where
  normally : {a : A} {s : State} → Ends (ok a s)
  by_abort : Ends aborted
  by_exit : {code : ℤ} → Ends (exited code)

pub Ends-bind :
    {A B : Type 0} {r : Run A} {k : A → M B}
    → Ends r
    → ((a : A) (t : State) → Ends (k a t))
    → Ends (continue r k)
Ends-bind normally next = next _ _
Ends-bind by_abort next = by_abort
Ends-bind by_exit next = by_exit

module _ {A : Type 0} where
  pub Ends-if :
      (b : Bool) (m n : M A) {s : State}
      → (b ≡ true → Ends (m s))
      → (b ≡ false → Ends (n s))
      → Ends ((if b then m else n) s)
  Ends-if true m n on_true on_false = on_true refl
  Ends-if false m n on_true on_false = on_false refl

  pub Ends-assert :
      (b : Bool) (k : Unit {0} → M A) {s : State}
      → (b ≡ true → Ends (k tt s))
      → Ends (continue (assert b s) k)
  Ends-assert true k next = next refl
  Ends-assert false k next = by_abort

-- The library calls return, whatever their outcome.
pub fseek-Ends : (p : ℕ) (s : State) → Ends (fseek p s)
unfolding fseek
fseek-Ends p s = grind (arith, normally)

pub fread-Ends : (n : ℕ) (s : State) → Ends (fread n s)
unfolding fread
fread-Ends n s = normally

pub fwrite-Ends : (xs : List ℕ) (s : State) → Ends (fwrite xs s)
unfolding fwrite
fwrite-Ends xs s = normally
