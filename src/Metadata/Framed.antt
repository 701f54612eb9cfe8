-- ===== src/Metadata/Framed.antt =====
-- Which bytes the functions on the validity bits may change, however the I/O turns out.
use capfs.Base.{bit_and, ℕ, zero, suc, ◌+◌, ◌-◌, ◌/◌, ◌%◌, Bool, not}
use capfs.Base.{arith, length, ltb, leb, ◌==◌, ◌&&◌, ltb→lt, if◌then◌else◌}
use capfs.Machine.{State, le_bytes, indeterminate}
use capfs.Machine.Post.{Leads, ends, cut_off, Leads-bind, Leads-if, Leads-assert}
use capfs.Base.{add64}
use capfs.Machine.Frame.{
  Frame, Frame-bind, Frame-refl, Frame-trans, fseek-Frame, fread-Frame, fwrite-Frame,
}
use capfs.Metadata.{
  metadata_is_capability, data_offset, ptr_to_offset, metadata_rawread, metadata_rawwrite, with_bit,
}
use capfs.Metadata.{head_loop, head_word, whole_loop, tail_loop, tail_word}
use capfs.Metadata.{metadata_valid_bits_generic}

-- Only the part of the file in front of the data region may change.
abbrev pub MetaFrame : State → State → Type 0
MetaFrame s t = Frame 0 data_offset s t

pub rawread-Frame :
    (ptr md : ℕ) (s : State) → Leads (λ _ t. MetaFrame s t) (metadata_rawread ptr md s)
unfolding metadata_rawread
rawread-Frame ptr md s = Leads-assert (ltb (ptr_to_offset ptr) data_offset) _ λ below.
    Leads-if (not s.file.opened) _ _ (λ _. ends (Frame-refl _ _ s))
      λ _. Leads-bind (fseek-Frame 0 data_offset (ptr_to_offset ptr) s) λ failed t (same, there).
        Leads-if failed _ _ (λ _. ends same)
          λ worked. Leads-bind (fread-Frame 0 data_offset 8 t) λ got u read.
            Leads-if (not (length got / 8 == 1)) _ _ (λ _. ends (Frame-trans same read))
              λ _. ends (Frame-trans same read)

pub rawwrite-Frame :
    (ptr md : ℕ) (s : State) → Leads (λ _ t. MetaFrame s t) (metadata_rawwrite ptr md s)
unfolding metadata_rawwrite
rawwrite-Frame ptr md s = Leads-assert (ltb (ptr_to_offset ptr) data_offset) _ λ below.
    Leads-if (not s.file.opened) _ _ (λ _. ends (Frame-refl _ _ s))
      λ _. Leads-bind (fseek-Frame 0 data_offset (ptr_to_offset ptr) s) λ failed t (same, there).
        Leads-if failed _ _ (λ _. ends same)
          λ worked.
            Leads-bind
              (fwrite-Frame 0 data_offset (le_bytes 4 md) t (omega arith)
                (omega (arith, there worked, ltb→lt _ _ below)))
              λ n u wrote.
                Leads-if (not (n / 4 == 1)) _ _ (λ _. ends (Frame-trans same wrote))
                  λ _. ends (Frame-trans same wrote)

head_loop-Frame :
    (set : Bool) (rounds from to bit md : ℕ) (s : State)
    → Leads (λ _ t. MetaFrame s t) (head_loop set rounds from to bit md s)
unfolding head_loop
head_loop-Frame set zero from to bit md s = cut_off
head_loop-Frame set (suc rounds) from to bit md s =
    Leads-if (leb from to && ltb bit 32) _ _
      (λ _. head_loop-Frame set rounds (from + 1) to (bit + 1) (with_bit set md bit) s)
      (λ _. ends (Frame-refl _ _ s))

head_word-Frame :
    (set : Bool) (from to md : ℕ) (s : State)
    → Leads (λ _ t. MetaFrame s t) (head_word set from to md s)
unfolding head_word
head_word-Frame set from to md s =
    Leads-if (from % 32 == 0) _ _ (λ _. ends (Frame-refl _ _ s))
      λ _. Frame-bind (rawread-Frame from md s) λ got t.
        Frame-bind (head_loop-Frame set 33 from to (from % 32) got.1 t) λ reached u.
          Frame-bind (rawwrite-Frame reached.0 reached.1 u) λ status v. ends (Frame-refl _ _ v)

whole_loop-Frame :
    (rounds from to md : ℕ) (s : State)
    → Leads (λ _ t. MetaFrame s t) (whole_loop rounds from to md s)
unfolding whole_loop
whole_loop-Frame zero from to md s = cut_off
whole_loop-Frame (suc rounds) from to md s =
    Leads-if (leb (from + 32) to) _ _
      (λ _.
        Frame-bind (rawwrite-Frame from md s)
          λ status t. whole_loop-Frame rounds (from + 32) to md t)
      (λ _. ends (Frame-refl _ _ s))

tail_loop-Frame :
    (set : Bool) (rounds from to bit md : ℕ) (s : State)
    → Leads (λ _ t. MetaFrame s t) (tail_loop set rounds from to bit md s)
unfolding tail_loop
tail_loop-Frame set zero from to bit md s = cut_off
tail_loop-Frame set (suc rounds) from to bit md s =
    Leads-if (leb from to) _ _
      (λ _.
        Leads-assert (ltb bit 32) _
          λ _. tail_loop-Frame set rounds (from + 1) to (bit + 1) (with_bit set md bit) s)
      (λ _. ends (Frame-refl _ _ s))

tail_word-Frame :
    (set : Bool) (from to md : ℕ) (s : State)
    → Leads (λ _ t. MetaFrame s t) (tail_word set from to md s)
unfolding tail_word
tail_word-Frame set from to md s =
    Leads-if (ltb from to) _ _
      (λ _. Frame-bind (rawread-Frame from md s) λ got t.
        Frame-bind (tail_loop-Frame set 33 from to 0 got.1 t) λ reached u.
          Frame-bind (rawwrite-Frame reached.0 reached.1 u) λ status v. ends (Frame-refl _ _ v))
      (λ _. ends (Frame-refl _ _ s))

indeterminate-Frame : (s : State) → Leads (λ _ t. MetaFrame s t) (indeterminate s)
unfolding indeterminate
indeterminate-Frame s = grind (arith, ends, Frame-refl)

-- Whatever the range, marking it touches the words with the bits only.
pub valid_bits-Frame :
    (from to : ℕ) (set : Bool) (s : State)
    → Leads (λ _ t. MetaFrame s t) (metadata_valid_bits_generic from to set s)
unfolding metadata_valid_bits_generic
valid_bits-Frame from to set s = Leads-assert (leb from to) _ λ _.
    Leads-if (not s.file.opened) _ _ (λ _. ends (Frame-refl _ _ s))
      λ _. Frame-bind (indeterminate-Frame s) λ md t.
        Frame-bind (head_word-Frame set (from / 8) (add64 to 7 / 8) md t) λ ptr u.
          Leads-assert (ptr % 32 == 0) _ λ _.
            Frame-bind
              (whole_loop-Frame ((add64 to 7 / 8 - ptr) / 32 + 1) ptr (add64 to 7 / 8)
                (if set then 0xffff_ffff else 0) u)
              λ ptr' v. tail_word-Frame set ptr' _ _ v

pub is_capability-Frame :
    (offset : ℕ) (s : State) → Leads (λ _ t. MetaFrame s t) (metadata_is_capability offset s)
unfolding metadata_is_capability
is_capability-Frame offset s =
    Leads-if (not (bit_and offset 0x3 == 0)) _ _ (λ _. ends (Frame-refl _ _ s))
      λ _. Leads-bind (rawread-Frame (offset / 8) 0 s) λ got t same. ends same
