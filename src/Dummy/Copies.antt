-- ===== src/Dummy/Copies.antt =====
-- `capfs_backend_read` of src/backends/dummy.c, lines 336 to 378.
use capfs.Base.{
  neg, eacces, ℕ, zero, suc, ◌+◌, ◌^◌, ◌≤◌, ◌<◌, ◌≡◌, refl, ap, ◌∙◌, ◌⊎◌, inl, inr, min, false, not,
}
use capfs.Base.{
  Option, some, List, [], ◌∷◌, pos, ◌==◌, if◌then◌else◌, ltb, is_negative, arith, Bool-cases,
  length, get_or,
}
use capfs.Filetype.{filetype_file}
use capfs.Dummy.{Entry, capstore, entry_at, set_at, copy_loop, read_payload, read_entry, dummy_read}

length-set_at : (xs : List ℕ) (i c : ℕ) → length (set_at xs i c) ≡ length xs
unfolding set_at
length-set_at [] i c = refl
length-set_at (x ∷ xs) zero c = refl
length-set_at (x ∷ xs) (suc i) c = ap suc (length-set_at xs i c)

set_at-same : (xs : List ℕ) (i c : ℕ) → i < length xs → get_or (set_at xs i c) i 0 ≡ c
unfolding set_at
set_at-same [] i c h = absurd (omega arith)
set_at-same (x ∷ xs) zero c h = refl
set_at-same (x ∷ xs) (suc i) c h = set_at-same xs i c (omega arith)

set_at-other :
    (xs : List ℕ) (i j c : ℕ) → (j < i) ⊎ (i < j) → get_or (set_at xs i c) j 0 ≡ get_or xs j 0
unfolding set_at
set_at-other [] i j c h = refl
set_at-other (x ∷ xs) zero zero c h = absurd (ground arith)
set_at-other (x ∷ xs) zero (suc j) c h = refl
set_at-other (x ∷ xs) (suc i) zero c h = refl
set_at-other (x ∷ xs) (suc i) (suc j) c h = set_at-other xs i j c (ground arith)

copy_loop-count :
    (text : List ℕ) (i bytes : ℕ) (rbuf : List ℕ)
    → i ≤ bytes
    → (copy_loop text i bytes rbuf).0 ≡ min bytes (i + length text)
unfolding copy_loop
copy_loop-count [] i bytes rbuf h = omega arith
copy_loop-count (p ∷ ps) i bytes rbuf h = elim (Bool-cases (i == bytes)) [
  | inl e ↦ rw e (ground arith)
  | inr e ↦ rw e (copy_loop-count ps (i + 1) bytes (set_at rbuf i p) (ground arith) ∙ omega arith)
]

-- What stands in front of `i` stays; from there on the text follows.
copy_loop-kept :
    (text : List ℕ) (i bytes : ℕ) (rbuf : List ℕ) (j : ℕ)
    → (j < i) ⊎ (bytes ≤ j)
    → i ≤ bytes
    → get_or (copy_loop text i bytes rbuf).1 j 0 ≡ get_or rbuf j 0
unfolding copy_loop
copy_loop-kept [] i bytes rbuf j h le = refl
copy_loop-kept (p ∷ ps) i bytes rbuf j h le = elim (Bool-cases (i == bytes)) [
  | inl e ↦ rw e refl
  | inr e ↦ rw e (
      copy_loop-kept ps (i + 1) bytes (set_at rbuf i p) j (ground arith) (ground arith)
      ∙ set_at-other rbuf i j p (ground arith))
]

copy_loop-text :
    (text : List ℕ) (i bytes : ℕ) (rbuf : List ℕ) (k : ℕ)
    → bytes ≤ length rbuf
    → i + k < bytes
    → k < length text
    → get_or (copy_loop text i bytes rbuf).1 (i + k) 0 ≡ get_or text k 0
unfolding copy_loop
copy_loop-text [] i bytes rbuf k room h below = absurd (omega arith)
copy_loop-text (p ∷ ps) i bytes rbuf zero room h below =
    let stop : (i == bytes) ≡ false = ground arith in
    rw stop (
      ap (λ n. get_or (copy_loop ps (i + 1) bytes (set_at rbuf i p)).1 n 0)
        (let z : i + 0 ≡ i = omega arith in z)
      ∙ copy_loop-kept ps (i + 1) bytes (set_at rbuf i p) i (inl (omega arith)) (omega arith)
      ∙ set_at-same rbuf i p (omega arith))
copy_loop-text (p ∷ ps) i bytes rbuf (suc k) room h below =
    let stop : (i == bytes) ≡ false = ground arith in
    rw stop (
      ap (λ n. get_or (copy_loop ps (i + 1) bytes (set_at rbuf i p)).1 n 0)
        (let z : i + suc k ≡ i + 1 + k = omega arith in z)
      ∙ copy_loop-text ps (i + 1) bytes (set_at rbuf i p) k (omega (arith, length-set_at rbuf i p))
          (omega arith) (omega arith))

read_entry-eq :
    (offset bytes : ℕ) (rbuf : List ℕ) (e : Entry) (text : List ℕ) (o : Option Entry)
    → o ≡ some e
    → e.type ≡ filetype_file
    → e.payload ≡ some text
    → offset ≤ length text
    → read_entry o offset rbuf bytes
      ≡ (pos (copy_loop text 0 bytes rbuf).0, (copy_loop text 0 bytes rbuf).1)
unfolding read_entry read_payload
read_entry-eq offset bytes rbuf e text o there file loaded inside =
    let is_file : not (e.type == filetype_file) ≡ false = ground arith in
    let within : ltb (length text) offset ≡ false = ground arith in
    ap (λ o. read_entry o offset rbuf bytes) there
    ∙ ap (λ b. if b then (neg eacces, rbuf) else read_payload e.payload offset rbuf bytes) is_file
    ∙ ap (λ l. read_payload l offset rbuf bytes) loaded
    ∙ ap
        (λ b.
          if b
          then (pos 0, rbuf)
          else (pos (copy_loop text 0 bytes rbuf).0, (copy_loop text 0 bytes rbuf).1))
        within

dummy_read-eq :
    (cap offset bytes : ℕ) (rbuf : List ℕ) (e : Entry) (text : List ℕ)
    → entry_at capstore cap ≡ some e
    → e.type ≡ filetype_file
    → e.payload ≡ some text
    → offset ≤ length text
    → offset < 2 ^ 63
    → dummy_read cap offset rbuf bytes
      ≡ (pos (copy_loop text 0 bytes rbuf).0, (copy_loop text 0 bytes rbuf).1)
unfolding dummy_read
dummy_read-eq cap offset bytes rbuf e text there file loaded inside small =
    let front : is_negative offset ≡ false = ground arith in
    rw front
      (read_entry-eq offset bytes rbuf e text (entry_at capstore cap) there file loaded inside)

-- Reading an entry of the dummy backend that is a file with a payload, at any offset from 0 to the
-- length of the payload, into a buffer with room for the bytes asked for, returns as many bytes as
-- are asked for or the payload has, and they are those at the front of the payload, whatever the
-- offset.
pub dummy_read-front :
    (cap offset bytes : ℕ) (rbuf : List ℕ) (e : Entry) (text : List ℕ)
    → entry_at capstore cap ≡ some e
    → e.type ≡ filetype_file
    → e.payload ≡ some text
    → offset ≤ length text
    → offset < 2 ^ 63
    → bytes ≤ length rbuf
    → ((dummy_read cap offset rbuf bytes).0 ≡ pos (min bytes (length text)))
      × ((j : ℕ)
          → j < min bytes (length text)
          → get_or (dummy_read cap offset rbuf bytes).1 j 0 ≡ get_or text j 0)
dummy_read-front cap offset bytes rbuf e text there file loaded inside small room =
    let same = dummy_read-eq cap offset bytes rbuf e text there file loaded inside small in
    (
      ap (λ r. r.0) same ∙ ap pos (copy_loop-count text 0 bytes rbuf (omega arith) ∙ omega arith),
      λ j h.
          ap (λ r. get_or r.1 j 0) same
          ∙ ap (λ n. get_or (copy_loop text 0 bytes rbuf).1 n 0)
              (let z : j ≡ 0 + j = omega arith in z)
          ∙ copy_loop-text text 0 bytes rbuf j room (omega arith) (omega arith),
    )
