-- ===== src/Metadata/Decided.antt =====
-- `metadata_valid_bits_generic` on any range inside the data region, when every call works: whether
-- one of its assertions fails.
use capfs.Base.{ℕ, zero, suc, ◌+◌, ◌-◌, ◌*◌, ◌/◌, ◌%◌, ◌≤◌, ◌<◌, ◌≡◌, refl, ap, ◌∙◌, inl, inr, min}
use capfs.Base.{Bool, true, false, not, ◌&&◌, ◌||◌, arith, ltb, leb, ◌==◌, Bool-cases, ltb→lt, pos}
use capfs.Base.{if◌then◌else◌, add64, le→leb, lt→leb-false}
use capfs.Machine.{State, ok}
use capfs.Machine.Post.{Returns, returns, Returns-mono, Returns-else, Returns-then}
use capfs.Machine.Frame.{Frame-refl, Frame-trans, Frame-widen, Frame-untouched}
use capfs.Machine.Healthy.{Healthy, Healthy-Frame}
use capfs.Machine.Settles.{
  Settles, settles, stops, Settles-after, Settles-bind, Settles-mono, Settles-cast, Settles-assert,
  Settles-passed, Settles-else, Returns-Settles,
}
use capfs.Metadata.{num_pointers, data_offset, ptr_to_offset, metadata_rawwrite}
use capfs.Metadata.{head_loop, head_word, whole_loop, tail_word, with_bit}
use capfs.Metadata.{metadata_valid_bits_generic}
use capfs.Metadata.Framed.{MetaFrame}
use capfs.Metadata.Words.{rawread-Returns, rawwrite-put}
use capfs.Metadata.Marked.{
  whole_loop-Returns, full_word, full_word-lt, tail_loop-eq, indeterminate-Returns,
}

-- A word is written if it is one of the bits' words, and else an assertion fails.
rawwrite-Settles :
    (ptr md : ℕ) {s : State}
    → Healthy s
    → Settles (λ _ t. MetaFrame s t) (ltb ptr num_pointers) (metadata_rawwrite ptr md s)
rawwrite-Settles ptr md {s} h = elim (Bool-cases (ltb ptr num_pointers)) [
  | inl e ↦ rw e (
      Returns-Settles (
        Returns-mono (rawwrite-put ptr md h (ltb→lt _ _ e))
          λ status t (_, wrote, _). Frame-widen (omega arith) (omega (arith, ltb→lt _ _ e)) wrote))
  | inr e ↦
      let past : ltb (ptr_to_offset ptr) data_offset ≡ false = ground arith in
      rw e (unfold metadata_rawwrite in rw past stops)
]

-- The loop over the first word ends at the end of the word or of the range.
head_loop-Returns :
    (k rounds : ℕ) (set : Bool) (from to bit md : ℕ) (s : State)
    → k ≡ min (to + 1 - from) (32 - bit)
    → k < rounds
    → Returns (λ r t. (r.0 ≡ from + k) × (t ≡ s)) (head_loop set rounds from to bit md s)
unfolding head_loop
head_loop-Returns k zero set from to bit md s e fuel = absurd (omega arith)
head_loop-Returns zero (suc rounds) set from to bit md s e fuel =
    Returns-else (leb from to && ltb bit 32) _ _ (ground arith) (returns (omega arith, refl))
head_loop-Returns (suc k) (suc rounds) set from to bit md s e fuel =
    Returns-then (leb from to && ltb bit 32) _ _ (ground arith) (
      Returns-mono
        (head_loop-Returns k rounds set (from + 1) to (bit + 1) (with_bit set md bit) s
          (omega arith) (omega arith))
        λ r t (reached, same). (omega arith, same))

-- Where the work on the first word stops: at the next word, or behind the range.
abbrev pub head_stop : ℕ → ℕ → ℕ
head_stop from to = min (to + 1) ((from + 31) / 32 * 32)

head_word-Settles :
    (set : Bool) (from to md : ℕ) {s : State}
    → Healthy s
    → from ≤ to
    → from < num_pointers
    → Settles
        (λ ptr t. (ptr ≡ head_stop from to) × MetaFrame s t)
        (ltb (head_stop from to) num_pointers)
        (head_word set from to md s)
unfolding head_word
head_word-Settles set from to md {s} h le below = elim (Bool-cases (from % 32 == 0)) [
  | inl e ↦
      let here : from ≡ head_stop from to = ground arith in
      rw e (Settles-cast (ground arith) (settles (here, Frame-refl _ _ s)))
  | inr e ↦ rw e (
      Settles-after (rawread-Returns from md h below) λ got t (_, same).
        Settles-after
          (head_loop-Returns (min (to + 1 - from) (32 - from % 32)) 33 set from to (from % 32) got.1
            t refl (omega arith))
          λ r u (at, kept).
            let at' : r.0 ≡ head_stop from to = ground arith in
            let same' : MetaFrame s u = rw kept (Frame-untouched same) in
            Settles-cast (ap (λ p. ltb p num_pointers && true) at' ∙ ground arith) (
              Settles-bind (rawwrite-Settles r.0 r.1 (Healthy-Frame same' h))
                λ status v wrote. settles (at', Frame-trans same' wrote)))
]

whole_loop-none :
    (rounds from to md : ℕ) (s : State)
    → 0 < rounds
    → to < from + 32
    → whole_loop rounds from to md s ≡ ok from s
unfolding whole_loop
whole_loop-none zero from to md s some h = absurd (omega arith)
whole_loop-none (suc rounds) from to md s some h = rw (lt→leb-false (from + 32) to h)

-- Where the loop over the whole words stops.
abbrev pub whole_stop : ℕ → ℕ → ℕ
whole_stop from to = if ltb to from then from else to / 32 * 32

whole_loop-MetaReturns :
    (set : Bool) (from to : ℕ) {s : State}
    → Healthy s
    → from % 32 ≡ 0
    → to ≤ num_pointers
    → Returns
        (λ ptr t. (ptr ≡ whole_stop from to) × MetaFrame s t)
        (whole_loop ((to - from) / 32 + 1) from to (full_word set) s)
whole_loop-MetaReturns set from to {s} h even room = elim (Bool-cases (ltb to from)) [
  | inl e ↦
      rw
        (
          e,
          whole_loop-none ((to - from) / 32 + 1) from to (full_word set) s (omega arith)
              (ground arith),
        )
        (returns (refl, Frame-refl _ _ s))
  | inr e ↦ rw e (
      Returns-mono
        (whole_loop-Returns (to / 32 - from / 32) ((to - from) / 32 + 1) (from / 32) from to
          (full_word set) h (omega arith) (ground arith) (ground arith) room (ground arith)
          (full_word-lt set))
        λ ptr t (at, wrote, _). (ground arith, Frame-widen (omega arith) (ground arith) wrote))
]

-- Whether there is a word to write for the slots behind the whole words.
abbrev pub tail_ok : ℕ → ℕ → Bool
tail_ok ptr to = leb to ptr || ltb (to + 1) num_pointers

tail_word-Settles :
    (set : Bool) (ptr to : ℕ) {s : State}
    → Healthy s
    → ptr % 32 ≡ 0
    → to < ptr + 32
    → to ≤ num_pointers
    → Settles
        (λ status t. (status ≡ pos 0) × MetaFrame s t)
        (tail_ok ptr to)
        (tail_word set ptr to (full_word set) s)
unfolding tail_word
tail_word-Settles set ptr to {s} h even gt room = elim (Bool-cases (ltb ptr to)) [
  | inl e ↦ rw e (
      Settles-after (rawread-Returns ptr (full_word set) h (ground arith)) λ got t (kept, same).
        rw
          (
            kept,
            tail_loop-eq (to + 1 - ptr) 33 set ptr to 0 t (ground arith) (ground arith)
                (omega arith),
          )
          (Settles-cast (ground arith) (
            Settles-bind (rawwrite-Settles (to + 1) (full_word set) (Healthy-Frame same h))
              λ status u wrote. settles (refl, Frame-trans (Frame-untouched same) wrote))))
  | inr e ↦ rw e (Settles-cast (ground arith) (settles (refl, Frame-refl _ _ s)))
]

-- Whether the bits of the slots from `from` to `to` can be marked: the work on the first word ends
-- at a whole word, and each word that is written is a word of bits.
abbrev pub can_mark : ℕ → ℕ → Bool
can_mark from to =
    let stop = head_stop from to in
    ltb stop num_pointers && ((stop % 32 == 0) && tail_ok (whole_stop stop to) to)

-- On a stream on which every call works, and for any range that starts inside the data region and
-- ends at most at its end, marking the validity bits returns 0 and touches no byte behind the bits
-- if the test `can_mark` holds of the first slot and the slot behind the range; else the program
-- aborts.
pub valid_bits-Settles :
    (set : Bool) (from to : ℕ) {s : State}
    → Healthy s
    → from ≤ to
    → from / 8 < num_pointers
    → (to + 7) / 8 ≤ num_pointers
    → Settles
        (λ status t. (status ≡ pos 0) × MetaFrame s t)
        (can_mark (from / 8) ((to + 7) / 8))
        (metadata_valid_bits_generic from to set s)
unfolding metadata_valid_bits_generic
valid_bits-Settles set from to {s} h le below room =
    let no_wrap : add64 to 7 ≡ to + 7 = omega arith in
    Settles-passed (leb from to) _ (le→leb from to le) (
      Settles-else (not s.file.opened) _ _ (ground (arith, h.opened)) (
        Settles-after (indeterminate-Returns s) λ md t same₀. rw no_wrap (
          Settles-bind
            (head_word-Settles set (from / 8) ((to + 7) / 8) md (Healthy-Frame same₀ h)
              (omega arith) below)
            λ ptr u (at, same₁).
              let same : MetaFrame s u = Frame-trans (Frame-untouched same₀) same₁ in
              Settles-cast
                (ap (λ p. (p % 32 == 0) && tail_ok (whole_stop p ((to + 7) / 8)) ((to + 7) / 8)) at)
                (Settles-assert (ptr % 32 == 0) _ λ even.
                  Settles-after
                    (whole_loop-MetaReturns set ptr ((to + 7) / 8) (Healthy-Frame same h)
                      (ground arith) room)
                    λ ptr' v (at', same₂).
                      let same' : MetaFrame s v = Frame-trans same same₂ in
                      Settles-cast (ap (λ p. tail_ok p ((to + 7) / 8)) at') (
                        Settles-mono
                          (tail_word-Settles set ptr' ((to + 7) / 8) (Healthy-Frame same' h)
                            (ground arith) (ground arith) room)
                          λ status w (fine, same₃). (fine, Frame-trans same' same₃))))))
