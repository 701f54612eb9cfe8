-- ===== src/Machine/Bytes.antt =====
-- Reading back what was put into the content of a file.
use capfs.Base.{ℕ, zero, suc, ◌+◌, ◌-◌, ◌/◌, ◌≤◌, ◌<◌, ◌^◌, ◌≡◌, refl, ap, ap₂, ◌∙◌, ◌⊎◌}
use capfs.Base.{List, [], ◌∷◌, arith, length, get_or, take, length-take}
use capfs.Machine.{State, slice, patch, le_bytes, from_le_bytes}
use capfs.Machine.Frame.{Frame}

pub slice_ext :
    (f g : ℕ → ℕ) (p n : ℕ) → ((i : ℕ) → p ≤ i → i < p + n → f i ≡ g i) → slice f p n ≡ slice g p n
slice_ext f g p zero h = refl
slice_ext f g p (suc n) h =
    ap₂ ◌∷◌ (h p (omega arith) (omega arith))
      (slice_ext f g (p + 1) n λ i a b. h i (omega arith) (omega arith))

pub length-slice : (f : ℕ → ℕ) (p n : ℕ) → length (slice f p n) ≡ n
length-slice f p zero = refl
length-slice f p (suc n) = ap suc (length-slice f (p + 1) n)

-- The bytes that were put at `p` are found there.
pub slice-patch : (f : ℕ → ℕ) (p : ℕ) (xs : List ℕ) → slice (patch f p xs) p (length xs) ≡ xs
slice-patch f p [] = refl
slice-patch f p (x ∷ xs) =
    ap₂ ◌∷◌ first (slice_ext _ _ (p + 1) (length xs) later ∙ slice-patch f (p + 1) xs)
  where
    first : patch f p (x ∷ xs) p ≡ x
    first =
        unfold patch in
        ground (arith, ap (λ (n : ℕ). get_or (x ∷ xs) n 0) (let z : p - p ≡ 0 = omega arith in z))

    later :
        (i : ℕ) → p + 1 ≤ i → i < p + 1 + length xs → patch f p (x ∷ xs) i ≡ patch f (p + 1) xs i
    later i a b =
        unfold patch in
        ground (
          arith,
          ap (λ (n : ℕ). get_or (x ∷ xs) n 0)
              (let z : i - p ≡ suc (i - (p + 1)) = omega arith in z),
        )

pub slice-patch-take :
    (f : ℕ → ℕ) (p n : ℕ) (xs : List ℕ)
    → n ≤ length xs
    → slice (patch f p (take n xs)) p n ≡ take n xs
slice-patch-take f p n xs long =
    ap (λ k. slice (patch f p (take n xs)) p k) (omega (arith, length-take n xs))
    ∙ slice-patch f p (take n xs)

-- Elsewhere nothing changes.
pub patch_outside :
    (f : ℕ → ℕ) (p : ℕ) (xs : List ℕ) (i : ℕ) → (i < p) ⊎ (p + length xs ≤ i) → patch f p xs i ≡ f i
unfolding patch
patch_outside f p xs i h = ground arith

-- A 32-bit word comes back from its four bytes.
pub from_le_bytes-le_bytes : (md : ℕ) → md < 2 ^ 32 → from_le_bytes (le_bytes 4 md) ≡ md
from_le_bytes-le_bytes md h = omega arith

pub slice-Frame :
    {lo hi : ℕ} {s t : State} (p n : ℕ)
    → Frame lo hi s t
    → (p + n ≤ lo) ⊎ (hi ≤ p)
    → slice t.file.bytes p n ≡ slice s.file.bytes p n
slice-Frame p n same h = slice_ext _ _ p n λ i a b. same.outside i (ground arith)

pub slice_shift : (f : ℕ → ℕ) (d p n : ℕ) → slice (λ i. f (i + d)) p n ≡ slice f (p + d) n
slice_shift f d p zero = refl
slice_shift f d p (suc n) =
    ap (λ rest. f (p + d) ∷ rest) (slice_shift f d (p + 1) n ∙ ap (λ q. slice f q n) (omega arith))

-- Putting bytes at `a + d` is, seen from `d` on, putting them at `a`.
pub patch_shift :
    (f g : ℕ → ℕ) (a d : ℕ) (xs : List ℕ) (i : ℕ)
    → f (i + d) ≡ g i
    → patch f (a + d) xs (i + d) ≡ patch g a xs i
unfolding patch
patch_shift f g a d xs i e = ground (arith, same_index)
  where
    same_index : get_or xs (i + d - (a + d)) 0 ≡ get_or xs (i - a) 0
    same_index = ap (λ (n : ℕ). get_or xs n 0) (omega arith)

pub length-le_bytes : (n x : ℕ) → length (le_bytes n x) ≡ n
length-le_bytes zero x = refl
length-le_bytes (suc n) x = ap suc (length-le_bytes n (x / 256))
