-- ===== src/Metadata/Words.antt =====
-- What the functions on the validity bits do to the words, on a stream on which every call works.
use capfs.Base.{ℕ, ◌+◌, ◌*◌, ◌/◌, ◌^◌, ◌≤◌, ◌<◌, ◌≡◌, refl, ap, ap₂, ◌∙◌, ◌⊎◌, inl, inr}
use capfs.Base.{not, arith, length, ◌==◌, Bool-cases, lt→ltb, pos, neg, List}
use capfs.Base.{if◌then◌else◌}
use capfs.Machine.{patch, State, pure, slice, le_bytes, from_le_bytes}
use capfs.Machine.Post.{
  Returns, returns, Returns-bind, Returns-else, Returns-then, Returns-assert, Returns-mono,
}
use capfs.Machine.Frame.{Frame, Frame-trans, Frame-widen, Frame-untouched, Frame-bytes}
use capfs.Machine.Healthy.{Healthy, Healthy-Frame, fseek-Returns, fread_any-Returns, fwrite-Returns}
use capfs.Machine.Bytes.{slice-patch, slice-Frame, from_le_bytes-le_bytes}
use capfs.Metadata.{data_offset, num_pointers, ptr_to_offset, metadata_rawread, metadata_rawwrite}

-- The `w`-th word of validity bits: those of the slots `32 * w` and on.
unfoldable pub meta_word : State → ℕ → ℕ
meta_word s w = from_le_bytes (slice s.file.bytes (w * 4) 4)

pub meta_word-Frame :
    {lo hi : ℕ} {s t : State} (w : ℕ)
    → Frame lo hi s t
    → (w * 4 + 4 ≤ lo) ⊎ (hi ≤ w * 4)
    → meta_word t w ≡ meta_word s w
unfolding meta_word
meta_word-Frame w same h = ap from_le_bytes (slice-Frame (w * 4) 4 same h)

-- The caller's word is not filled in.
pub rawread-Returns :
    (ptr md : ℕ) {s : State}
    → Healthy s
    → ptr < num_pointers
    → Returns (λ (status, md') t. (md' ≡ md) × Frame 0 0 s t) (metadata_rawread ptr md s)
unfolding metadata_rawread
rawread-Returns ptr md {s} h below =
    Returns-assert _ _ (lt→ltb (ptr_to_offset ptr) data_offset (omega arith)) (
      Returns-else (not s.file.opened) _ _ (ground (arith, h.opened)) (
        Returns-bind (fseek-Returns h (ptr_to_offset ptr) (omega arith))
          λ failed t (worked, same, at). Returns-else failed _ _ worked (
            Returns-bind (fread_any-Returns (Healthy-Frame same h) 8)
              λ got u read. either_way got same read)))
  where
    either_way :
        {t u : State} (got : List ℕ)
        → Frame 0 0 s t
        → Frame 0 0 t u
        → Returns
            (λ (status, md') v. (md' ≡ md) × Frame 0 0 s v)
            ((if not (length got / 8 == 1) then pure (neg 1, md) else pure (pos 0, md)) u)
    either_way got same read = elim (Bool-cases (not (length got / 8 == 1))) [
      | inl e ↦ Returns-then _ _ _ e (returns (refl, Frame-trans same read))
      | inr e ↦ Returns-else _ _ _ e (returns (refl, Frame-trans same read))
    ]

-- The four bytes of the slot's word are replaced, and nothing else.
pub rawwrite-put :
    (ptr md : ℕ) {s : State}
    → Healthy s
    → ptr < num_pointers
    → Returns
        (λ status t.
          (status ≡ pos 0)
          × Frame (ptr / 32 * 4) (ptr / 32 * 4 + 4) s t
          × (t.file.bytes ≡ patch s.file.bytes (ptr / 32 * 4) (le_bytes 4 md)))
        (metadata_rawwrite ptr md s)
unfolding metadata_rawwrite
rawwrite-put ptr md {s} h below =
    Returns-assert _ _ (lt→ltb (ptr_to_offset ptr) data_offset (omega arith)) (
      Returns-else (not s.file.opened) _ _ (ground (arith, h.opened)) (
        Returns-bind (fseek-Returns h (ptr_to_offset ptr) (omega arith))
          λ failed t (worked, same, at). Returns-else failed _ _ worked (
            Returns-bind (fwrite-Returns (Healthy-Frame same h) (le_bytes 4 md))
              λ n u (all, wrote, put). Returns-else (not (n / 4 == 1)) _ _ (ground arith) (
                returns (
                  refl,
                  Frame-trans (Frame-untouched same)
                      (Frame-widen (omega arith) (omega arith) wrote),
                  put ∙ ap₂ (λ f p. patch f p (le_bytes 4 md)) (Frame-bytes same) at,
                )))))

-- So the word reads as what was written.
pub rawwrite-Returns :
    (ptr md : ℕ) {s : State}
    → Healthy s
    → ptr < num_pointers
    → md < 2 ^ 32
    → Returns
        (λ status t.
          (status ≡ pos 0)
          × Frame (ptr / 32 * 4) (ptr / 32 * 4 + 4) s t
          × (meta_word t (ptr / 32) ≡ md))
        (metadata_rawwrite ptr md s)
unfolding meta_word
rawwrite-Returns ptr md {s} h below fits =
    Returns-mono (rawwrite-put ptr md h below) λ status t (fine, wrote, put). (
      fine,
      wrote,
      ap from_le_bytes (
            ap (λ f. slice f (ptr / 32 * 4) 4) put
            ∙ slice-patch s.file.bytes (ptr / 32 * 4) (le_bytes 4 md))
          ∙ from_le_bytes-le_bytes md fits,
    )
