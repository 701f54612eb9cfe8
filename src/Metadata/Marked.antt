-- ===== src/Metadata/Marked.antt =====
-- `metadata_valid_bits_generic` on a range that starts at a whole word.
use capfs.Base.{ℕ, zero, suc, ◌+◌, ◌-◌, ◌*◌, ◌/◌, ◌%◌, ◌^◌, ◌≤◌, ◌<◌, ◌≡◌, refl, ap, ◌∙◌, inl, inr}
use capfs.Base.{Bool, true, false, not, arith, ltb, leb, ◌==◌, Bool-cases, lt→ltb, ltb→lt, pos}
use capfs.Base.{if◌then◌else◌, add64, le→leb, lt→leb-false}
use capfs.Bits.{ones-bit_or, zero-bit_and}
use capfs.Machine.{State, ok, indeterminate}
use capfs.Machine.Post.{Returns, returns, Returns-bind, Returns-mono, Returns-else, Returns-then}
use capfs.Machine.Post.{Returns-assert}
use capfs.Machine.Frame.{Frame, Frame-refl, Frame-trans, Frame-widen, Frame-untouched}
use capfs.Machine.Healthy.{Healthy, Healthy-Frame}
use capfs.Metadata.{num_pointers}
use capfs.Metadata.{head_word, whole_loop, tail_loop, tail_word, with_bit}
use capfs.Metadata.{metadata_valid_bits_generic}
use capfs.Metadata.Words.{meta_word, meta_word-Frame, rawread-Returns, rawwrite-Returns}

-- `n` whole words from word `a` on are filled with `md`.
pub whole_loop-Returns :
    (n rounds a from to md : ℕ) {s : State}
    → Healthy s
    → from ≡ 32 * a
    → 32 * (a + n) ≤ to
    → to < 32 * (a + n) + 32
    → to ≤ num_pointers
    → n < rounds
    → md < 2 ^ 32
    → Returns
        (λ ptr t.
          (ptr ≡ 32 * (a + n))
          × Frame (a * 4) ((a + n) * 4) s t
          × ((w : ℕ) → a ≤ w → w < a + n → meta_word t w ≡ md))
        (whole_loop rounds from to md s)
unfolding whole_loop
whole_loop-Returns n zero a from to md h e lo hi below fuel fits = absurd (omega arith)
whole_loop-Returns zero (suc rounds) a from to md h e lo hi below fuel fits =
    Returns-else (leb (from + 32) to) _ _ (lt→leb-false _ _ (omega arith))
      (returns (omega arith, Frame-refl _ _ _, λ w p q. absurd (omega arith)))
whole_loop-Returns (suc n) (suc rounds) a from to md h e lo hi below fuel fits =
    Returns-then (leb (from + 32) to) _ _ (le→leb _ _ (omega arith)) (
      Returns-bind (rawwrite-Returns from md h (omega arith) fits) λ status t (_, wrote, word).
        Returns-mono
          (whole_loop-Returns n rounds (a + 1) (from + 32) to md (Healthy-Frame wrote h)
            (omega arith) (omega arith) (omega arith) below (omega arith) fits)
          λ ptr u (there, rest, words). (
            omega arith,
            Frame-trans (Frame-widen (omega arith) (omega arith) wrote)
                (Frame-widen (omega arith) (omega arith) rest),
            λ w p q. elim (Bool-cases (w == a)) [
              | inl here ↦
                  meta_word-Frame w rest (inl (ground arith))
                  ∙ ap (meta_word t) (ground arith)
                  ∙ word
              | inr later ↦ words w (ground arith) (omega arith)
            ],
          ))

-- Marking the bits of a word that is already uniform leaves it as it is.
abbrev pub full_word : Bool → ℕ
full_word set = if set then 0xffff_ffff else 0

with_bit-full_word :
    (set : Bool) (bit : ℕ) → bit < 32 → with_bit set (full_word set) bit ≡ full_word set
with_bit-full_word true bit h = ones-bit_or bit h
with_bit-full_word false bit h = zero-bit_and _

pub full_word-lt : (set : Bool) → full_word set < 2 ^ 32
full_word-lt true = omega arith
full_word-lt false = omega arith

pub tail_loop-eq :
    (k rounds : ℕ) (set : Bool) (from to bit : ℕ) (s : State)
    → from + k ≡ to + 1
    → bit + k ≤ 32
    → k < rounds
    → tail_loop set rounds from to bit (full_word set) s ≡ ok (to + 1, full_word set) s
unfolding tail_loop
tail_loop-eq k zero set from to bit s e room fuel = absurd (omega arith)
tail_loop-eq zero (suc rounds) set from to bit s e room fuel =
    rw (lt→leb-false from to (omega arith)) (ap (λ (n : ℕ). ok (n, full_word set) s) (omega arith))
tail_loop-eq (suc k) (suc rounds) set from to bit s e room fuel =
    rw
      (
        le→leb from to (omega arith),
        lt→ltb bit 32 (omega arith),
        with_bit-full_word set bit (omega arith),
      )
      (tail_loop-eq k rounds set (from + 1) to (bit + 1) s (omega arith) (omega arith)
        (omega arith))

-- The word that is written at the end is that of slot `to + 1`.
pub tail_word-Returns :
    (set : Bool) (e from to : ℕ) {s : State}
    → Healthy s
    → from ≡ 32 * e
    → from < to
    → to < from + 32
    → to + 1 < num_pointers
    → Returns
        (λ status t.
          (status ≡ pos 0)
          × Frame ((to + 1) / 32 * 4) ((to + 1) / 32 * 4 + 4) s t
          × (meta_word t ((to + 1) / 32) ≡ full_word set))
        (tail_word set from to (full_word set) s)
unfolding tail_word
tail_word-Returns set e from to h at lt gt below =
    Returns-then (ltb from to) _ _ (lt→ltb from to lt) (
      Returns-bind (rawread-Returns from (full_word set) h (omega arith)) λ got t (kept, same).
        rw
          (
            kept,
            tail_loop-eq (to + 1 - from) 33 set from to 0 t (omega arith) (omega arith)
                (omega arith),
          )
          (Returns-bind
            (rawwrite-Returns (to + 1) (full_word set) (Healthy-Frame same h) below
              (full_word-lt set))
            λ status u (_, wrote, word).
              returns (refl, Frame-trans (Frame-untouched same) wrote, word)))

-- What marking the slots from word `a` to slot `to` leaves.
pub record Marked (set : Bool) (a to : ℕ) (s t : State) : Type 0 where
  pub frame : Frame (a * 4) ((to + 1) / 32 * 4 + 4) s t
  pub whole : (w : ℕ) → a ≤ w → w < to / 32 → meta_word t w ≡ full_word set
  pub last : 0 < to % 32 → meta_word t ((to + 1) / 32) ≡ full_word set
  pub skipped : to % 32 ≡ 31 → meta_word t (to / 32) ≡ meta_word s (to / 32)

pub indeterminate-Returns : (s : State) → Returns (λ md t. Frame 0 0 s t) (indeterminate s)
unfolding indeterminate
indeterminate-Returns s = grind (arith, returns, Frame-refl)

module _ (set : Bool) (a to : ℕ) {s t : State} (h : Healthy t) (below : to + 1 < num_pointers)
    (from : a * 32 ≤ to) (same : Frame 0 0 s t) where
  finished :
      (ptr : ℕ) (u : State)
      → ptr ≡ 32 * (to / 32)
      → Frame (a * 4) (to / 32 * 4) t u
      → ((w : ℕ) → a ≤ w → w < to / 32 → meta_word u w ≡ full_word set)
      → ltb ptr to ≡ false
      → Returns
          (λ status v. (status ≡ pos 0) × Marked set a to s v)
          (tail_word set ptr to (full_word set) u)
  unfolding tail_word
  finished ptr u at wrote words none_left =
      let whole : to % 32 ≡ 0 = ground arith in
      Returns-else (ltb ptr to) _ _ none_left (
        returns (
          refl,
          record {
            frame =
                Frame-trans (Frame-untouched same) (Frame-widen (omega arith) (omega arith) wrote);
            whole = words;
            last = λ p. absurd (omega arith);
            skipped = λ p. absurd (omega arith);
          },
        ))

  -- The last two steps, from the state after the whole words.
  last_step :
      (ptr : ℕ) (u : State)
      → ptr ≡ 32 * (to / 32)
      → Frame (a * 4) (to / 32 * 4) t u
      → ((w : ℕ) → a ≤ w → w < to / 32 → meta_word u w ≡ full_word set)
      → Returns
          (λ status v. (status ≡ pos 0) × Marked set a to s v)
          (tail_word set ptr to (full_word set) u)
  last_step ptr u at wrote words = elim (Bool-cases (ltb ptr to)) [
    | inl more ↦
        Returns-mono
          (tail_word-Returns set (to / 32) ptr to (Healthy-Frame wrote h) at (ltb→lt _ _ more)
            (omega arith) below)
          λ status v (done, rest, word). (
            done,
            record {
              frame = Frame-trans (Frame-untouched same) (
                  Frame-trans (Frame-widen (omega arith) (omega arith) wrote)
                    (Frame-widen (omega arith) (omega arith) rest));
              whole = λ w p q. meta_word-Frame w rest (inl (omega arith)) ∙ words w p q;
              last = λ _. word;
              skipped = λ e.
                  meta_word-Frame (to / 32) rest (inl (omega arith))
                  ∙ meta_word-Frame (to / 32) wrote (inr (omega arith))
                  ∙ meta_word-Frame (to / 32) same (inr (omega arith));
            },
          )
    | inr none_left ↦ finished ptr u at wrote words none_left
  ]

pub head_word_skipped :
    (set : Bool) (from to md : ℕ) (s : State)
    → from % 32 ≡ 0
    → head_word set from to md s ≡ ok from s
unfolding head_word
head_word_skipped set from to md s e = rw e

-- On a stream on which every call works, and for a range that starts at word `a` of the validity
-- bits and ends two slots before the last one, setting or clearing the bits returns 0, changes no
-- byte of the file outside the words from `a` up to that of the second slot behind the range,
-- fills (with ones or zeros) every whole word of the range, fills the word of that second slot if
-- the first slot behind the range does not begin a word, and leaves the word of that first slot as
-- it was if the slot ends its word.
pub valid_bits-Marked :
    (set : Bool) (from to a : ℕ) {s : State}
    → Healthy s
    → from ≤ to
    → from / 8 ≡ 32 * a
    → (to + 7) / 8 + 1 < num_pointers
    → Returns
        (λ status t. (status ≡ pos 0) × Marked set a ((to + 7) / 8) s t)
        (metadata_valid_bits_generic from to set s)
unfolding metadata_valid_bits_generic
valid_bits-Marked set from to a {s} h le at below =
    Returns-assert (leb from to) _ (le→leb from to le) (
      Returns-else (not s.file.opened) _ _ (ground (arith, h.opened)) (
        Returns-bind (indeterminate-Returns s) λ md t same.
          let no_wrap : add64 to 7 ≡ to + 7 = omega arith in
          rw (no_wrap, head_word_skipped set (from / 8) ((to + 7) / 8) md t (omega arith))
            (Returns-assert (from / 8 % 32 == 0) _ (ground arith) (
              Returns-bind
                (whole_loop-Returns ((to + 7) / 8 / 32 - a) _ a (from / 8) ((to + 7) / 8)
                  (full_word set) (Healthy-Frame same h) at (omega arith) (omega arith)
                  (omega arith) (omega arith) (full_word-lt set))
                λ ptr u (there, wrote, words).
                  last_step set a ((to + 7) / 8) (Healthy-Frame same h) below (omega arith) same ptr
                    u (omega arith) (Frame-widen (omega arith) (omega arith) wrote)
                    λ w p q. words w p (omega arith)))))
