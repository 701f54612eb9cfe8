-- ===== src/Machine/Healthy.antt =====
-- A stream on which every call works: the total behaviour of the library calls.
use capfs.Base.{ℕ, ◌+◌, ◌≤◌, ◌<◌, ◌^◌, ◌≡◌, refl, ap, ◌∙◌, true, false, List, []}
use capfs.Base.{arith, length, length-take, take, take_all}
use capfs.Machine.{ok, set_file, State, fseek, fread, fwrite, patch, moved, next_fault, slice}
use capfs.Machine.Post.{Returns, returns, Leads, ends}
use capfs.Machine.Frame.{Frame}

pub record Healthy (s : State) : Type 0 where
  pub opened : s.file.opened ≡ true
  pub quiet : s.file.plan ≡ []
  pub error : s.file.error ≡ false

pub Healthy-Frame : {lo hi : ℕ} {s t : State} → Frame lo hi s t → Healthy s → Healthy t
Healthy-Frame f h = record {
  opened = f.opened ∙ h.opened;
  quiet = f.quiet h.quiet;
  error = f.error h.quiet ∙ h.error;
}

module _ {s : State} (h : Healthy s) where
  all_moved : (n : ℕ) → moved (next_fault s.file.plan) n ≡ n
  all_moved n = ap (λ fs. moved (next_fault fs) n) h.quiet

  pub fseek-Returns :
      (p : ℕ)
      → p < 2 ^ 63
      → Returns (λ failed t. (failed ≡ false) × Frame 0 0 s t × (t.file.position ≡ p)) (fseek p s)
  unfolding fseek
  fseek-Returns p fits = rw sought (returns (refl, ground arith, refl))
    where
      sought : fseek p s ≡ ok false (set_file s (record s.file { position = p; plan = [] }))
      sought = ground arith

  pub fread-Returns :
      (n : ℕ)
      → s.file.position + n ≤ s.file.size
      → Returns (λ got t. (got ≡ slice s.file.bytes s.file.position n) × Frame 0 0 s t) (fread n s)
  unfolding fread
  fread-Returns n fits =
      returns (ap (slice s.file.bytes s.file.position) (all_moved _ ∙ omega arith), ground arith)

  pub fread-Moves :
      (n : ℕ)
      → s.file.position + n ≤ s.file.size
      → Leads (λ _ t. t.file.position ≡ s.file.position + n) (fread n s)
  unfolding fread
  fread-Moves n fits = ends (ap (λ k. s.file.position + k) (all_moved _ ∙ omega arith))

  -- Up to the end of the file at most.
  pub fread_any-Returns : (n : ℕ) → Returns (λ _ t. Frame 0 0 s t) (fread n s)
  unfolding fread
  fread_any-Returns n = returns (ground arith)

  pub fwrite-Returns :
      (xs : List ℕ)
      → Returns
          (λ n t.
            (n ≡ length xs)
            × Frame s.file.position (s.file.position + length xs) s t
            × (t.file.bytes ≡ patch s.file.bytes s.file.position xs))
          (fwrite xs s)
  unfolding fwrite
  fwrite-Returns xs = returns (
    all_moved _,
    ground (arith, length-take (moved (next_fault s.file.plan) (length xs)) xs),
    ap (patch s.file.bytes s.file.position) (ap (λ n. take n xs) (all_moved _) ∙ take_all xs),
  )

  pub fwrite-Moves :
      (xs : List ℕ) → Leads (λ _ t. t.file.position ≡ s.file.position + length xs) (fwrite xs s)
  unfolding fwrite
  fwrite-Moves xs = ends (ap (λ k. s.file.position + k) (all_moved _))
