-- ===== src/Metadata/Ended.antt =====
-- The loops over the validity bits of src/backends/files.c, lines 161 to 274, come to an end.
use capfs.Base.{
  ℕ, zero, suc, ◌+◌, ◌-◌, ◌*◌, ◌/◌, ◌%◌, ◌≤◌, ◌<◌, ◌&&◌, Bool, not, arith, ltb, leb, ◌==◌, length,
  bit_and, add64,
}
use capfs.Machine.{State, le_bytes, indeterminate}
use capfs.Machine.Ends.{
  Ends, normally, Ends-bind, Ends-if, Ends-assert, fseek-Ends, fread-Ends, fwrite-Ends,
}
use capfs.Metadata.{
  ptr_to_offset, data_offset, metadata_rawread, metadata_rawwrite, metadata_is_capability,
}
use capfs.Metadata.{
  with_bit, head_loop, head_word, whole_loop, tail_loop, tail_word, metadata_valid_bits_generic,
}

rawread-Ends : (ptr md : ℕ) (s : State) → Ends (metadata_rawread ptr md s)
unfolding metadata_rawread
rawread-Ends ptr md s = Ends-assert (ltb (ptr_to_offset ptr) data_offset) _ λ _.
    Ends-if (not s.file.opened) _ _ (λ _. normally)
      λ _. Ends-bind (fseek-Ends (ptr_to_offset ptr) s) λ failed t.
        Ends-if failed _ _ (λ _. normally)
          λ _.
            Ends-bind (fread-Ends 8 t)
              λ got u. Ends-if (not (length got / 8 == 1)) _ _ (λ _. normally) (λ _. normally)

rawwrite-Ends : (ptr md : ℕ) (s : State) → Ends (metadata_rawwrite ptr md s)
unfolding metadata_rawwrite
rawwrite-Ends ptr md s = Ends-assert (ltb (ptr_to_offset ptr) data_offset) _ λ _.
    Ends-if (not s.file.opened) _ _ (λ _. normally)
      λ _. Ends-bind (fseek-Ends (ptr_to_offset ptr) s) λ failed t.
        Ends-if failed _ _ (λ _. normally)
          λ _.
            Ends-bind (fwrite-Ends (le_bytes 4 md) t)
              λ written u. Ends-if (not (written / 4 == 1)) _ _ (λ _. normally) (λ _. normally)

pub is_capability-Ends : (offset : ℕ) (s : State) → Ends (metadata_is_capability offset s)
unfolding metadata_is_capability
is_capability-Ends offset s =
    Ends-if (not (bit_and offset 0x3 == 0)) _ _ (λ _. normally)
      λ _. Ends-bind (rawread-Ends (offset / 8) 0 s) λ got t. normally

indeterminate-Ends : (s : State) → Ends (indeterminate s)
unfolding indeterminate
indeterminate-Ends s = grind (arith, normally)

-- The bit moves on with each round, and the loop stops at 32.
head_loop-Ends :
    (rounds : ℕ) (set : Bool) (ptr_from ptr_to bit md : ℕ) (s : State)
    → 33 ≤ rounds + bit
    → 0 < rounds
    → Ends (head_loop set rounds ptr_from ptr_to bit md s)
unfolding head_loop
head_loop-Ends zero set ptr_from ptr_to bit md s enough some = absurd (omega arith)
head_loop-Ends (suc rounds) set ptr_from ptr_to bit md s enough some =
    Ends-if (leb ptr_from ptr_to && ltb bit 32) _ _
      (λ e.
        head_loop-Ends rounds set (ptr_from + 1) ptr_to (bit + 1) (with_bit set md bit) s
          (omega arith) (ground arith))
      (λ _. normally)

tail_loop-Ends :
    (rounds : ℕ) (set : Bool) (ptr_from ptr_to bit md : ℕ) (s : State)
    → 33 ≤ rounds + bit
    → 0 < rounds
    → Ends (tail_loop set rounds ptr_from ptr_to bit md s)
unfolding tail_loop
tail_loop-Ends zero set ptr_from ptr_to bit md s enough some = absurd (omega arith)
tail_loop-Ends (suc rounds) set ptr_from ptr_to bit md s enough some =
    Ends-if (leb ptr_from ptr_to) _ _
      (λ _. Ends-assert (ltb bit 32) _ λ e.
        tail_loop-Ends rounds set (ptr_from + 1) ptr_to (bit + 1) (with_bit set md bit) s
          (omega arith) (ground arith))
      (λ _. normally)

-- A round moves on by 32 slots.
whole_loop-Ends :
    (rounds ptr_from ptr_to md : ℕ) (s : State)
    → ptr_to < ptr_from + 32 * rounds
    → 0 < rounds
    → Ends (whole_loop rounds ptr_from ptr_to md s)
unfolding whole_loop
whole_loop-Ends zero ptr_from ptr_to md s enough some = absurd (omega arith)
whole_loop-Ends (suc rounds) ptr_from ptr_to md s enough some =
    Ends-if (leb (ptr_from + 32) ptr_to) _ _
      (λ e.
        Ends-bind (rawwrite-Ends ptr_from md s)
          λ _ t. whole_loop-Ends rounds (ptr_from + 32) ptr_to md t (omega arith) (ground arith))
      (λ _. normally)

head_word-Ends :
    (set : Bool) (ptr_from ptr_to md : ℕ) (s : State) → Ends (head_word set ptr_from ptr_to md s)
unfolding head_word
head_word-Ends set ptr_from ptr_to md s =
    Ends-if (ptr_from % 32 == 0) _ _ (λ _. normally)
      λ e. Ends-bind (rawread-Ends ptr_from md s) λ got t.
        Ends-bind
          (head_loop-Ends 33 set ptr_from ptr_to (ptr_from % 32) got.1 t (omega arith)
            (omega arith))
          λ r u. Ends-bind (rawwrite-Ends r.0 r.1 u) λ _ v. normally

tail_word-Ends :
    (set : Bool) (ptr_from ptr_to md : ℕ) (s : State) → Ends (tail_word set ptr_from ptr_to md s)
unfolding tail_word
tail_word-Ends set ptr_from ptr_to md s =
    Ends-if (ltb ptr_from ptr_to) _ _
      (λ _. Ends-bind (rawread-Ends ptr_from md s) λ got t.
        Ends-bind (tail_loop-Ends 33 set ptr_from ptr_to 0 got.1 t (omega arith) (omega arith))
          λ r u. Ends-bind (rawwrite-Ends r.0 r.1 u) λ _ v. normally)
      (λ _. normally)

pub valid_bits-Ends :
    (from to : ℕ) (set : Bool) (s : State) → Ends (metadata_valid_bits_generic from to set s)
unfolding metadata_valid_bits_generic
valid_bits-Ends from to set s = Ends-assert (leb from to) _ λ _.
    Ends-if (not s.file.opened) _ _ (λ _. normally)
      λ _. Ends-bind (indeterminate-Ends s) λ md t.
        Ends-bind (head_word-Ends set (from / 8) (add64 to 7 / 8) md t) λ ptr u.
          Ends-assert (ptr % 32 == 0) _ λ _.
            Ends-bind
              (whole_loop-Ends ((add64 to 7 / 8 - ptr) / 32 + 1) ptr (add64 to 7 / 8) _ u
                (omega arith) (omega arith))
              λ ptr' v. tail_word-Ends set ptr' (add64 to 7 / 8) _ v
