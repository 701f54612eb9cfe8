-- ===== src/Machine/Frame.antt =====
-- What a run leaves alone: `Frame lo hi s s'` says that from `s` to `s'` only bytes from `lo` up to
-- `hi` of the file changed, besides the position, the error indicator and the plan.
use mathlib.Core.Path.{fun_ext}
use capfs.Base.{
  ℕ, ◌+◌, ◌≤◌, ◌<◌, ◌≡◌, refl, ◌∙◌, ◌⊎◌, inr, false, length-take, List, [], arith, length,
}
use capfs.Machine.{State, Run, M, continue}
use capfs.Machine.{fseek, fread, fwrite, patch, moved, next_fault}
use capfs.Machine.Post.{Leads, ends, Leads-bind, Leads-mono}

pub record Frame (lo hi : ℕ) (s s' : State) : Type 0 where
  pub outside : (i : ℕ) → (i < lo) ⊎ (hi ≤ i) → s'.file.bytes i ≡ s.file.bytes i
  pub opened : s'.file.opened ≡ s.file.opened
  pub data_size : s'.data_size ≡ s.data_size
  pub root : s'.root_capability ≡ s.root_capability
  pub size : hi ≤ s.file.size → s'.file.size ≡ s.file.size
  pub quiet : s.file.plan ≡ [] → s'.file.plan ≡ []
  pub error : s.file.plan ≡ [] → s'.file.error ≡ s.file.error

pub Frame-refl : (lo hi : ℕ) (s : State) → Frame lo hi s s
Frame-refl lo hi s = record {
  outside = λ i h. refl;
  opened = refl;
  data_size = refl;
  root = refl;
  size = λ h. refl;
  quiet = λ h. h;
  error = λ h. refl;
}

pub Frame-trans : {lo hi : ℕ} {s t u : State} → Frame lo hi s t → Frame lo hi t u → Frame lo hi s u
Frame-trans {hi} a b = record {
  outside = λ i h. b.outside i h ∙ a.outside i h;
  opened = b.opened ∙ a.opened;
  data_size = b.data_size ∙ a.data_size;
  root = b.root ∙ a.root;
  size = λ h. ground (arith, a.size h, b.size);
  quiet = λ h. b.quiet (a.quiet h);
  error = λ h. b.error (a.quiet h) ∙ a.error h;
}

-- A larger window frames less.
pub Frame-widen :
    {lo hi lo' hi' : ℕ} {s t : State} → lo' ≤ lo → hi ≤ hi' → Frame lo hi s t → Frame lo' hi' s t
Frame-widen p q a = record {
  outside = λ i h. a.outside i (ground arith);
  opened = a.opened;
  data_size = a.data_size;
  root = a.root;
  size = λ h. a.size (omega arith);
  quiet = a.quiet;
  error = a.error;
}

-- The library calls. A seek changes nothing; where it succeeds, the position is known.
pub fseek-Frame :
    (lo hi p : ℕ) (s : State)
    → Leads (λ failed t. Frame lo hi s t × (failed ≡ false → t.file.position ≡ p)) (fseek p s)
unfolding fseek
fseek-Frame lo hi p s = grind (arith, ends)

pub fread-Frame : (lo hi n : ℕ) (s : State) → Leads (λ _ t. Frame lo hi s t) (fread n s)
unfolding fread
fread-Frame lo hi n s = ends (ground arith)

-- A write changes bytes from the position on only.
pub fwrite-Frame :
    (lo hi : ℕ) (xs : List ℕ) (s : State)
    → lo ≤ s.file.position
    → s.file.position + length xs ≤ hi
    → Leads (λ _ t. Frame lo hi s t) (fwrite xs s)
unfolding fwrite patch
fwrite-Frame lo hi xs s p q =
    ends (ground (arith, length-take (moved (next_fault s.file.plan) (length xs)) xs))

-- Framed runs in sequence are framed.
pub Frame-bind :
    {A B : Type 0} {lo hi : ℕ} {s : State} {r : Run A} {k : A → M B}
    → Leads (λ _ t. Frame lo hi s t) r
    → ((a : A) (t : State) → Leads (λ _ u. Frame lo hi t u) (k a t))
    → Leads (λ _ u. Frame lo hi s u) (continue r k)
Frame-bind h next =
    Leads-bind h λ a t same. Leads-mono (next a t) λ b u then_same. Frame-trans same then_same

-- A run that changes no byte fits every window.
pub Frame-untouched : {lo hi : ℕ} {s t : State} → Frame 0 0 s t → Frame lo hi s t
Frame-untouched a = record {
  outside = λ i h. a.outside i (inr (omega arith));
  opened = a.opened;
  data_size = a.data_size;
  root = a.root;
  size = λ h. a.size (omega arith);
  quiet = a.quiet;
  error = a.error;
}

pub Frame-bytes : {s t : State} → Frame 0 0 s t → t.file.bytes ≡ s.file.bytes
Frame-bytes a = fun_ext λ i. a.outside i (inr (omega arith))
