-- ===== src/Machine.antt =====
-- The state that src/backends/files.c runs on, and the calls of the C library that it makes.
--
-- `State` holds the statics of files.c: `g_st.file`, `g_st.data_size` and `capfs_root_capability`.
-- A stream is the content of its file with a position and an error indicator. Its `plan` says how
-- the calls to come turn out, so that a statement over every state covers every I/O error. What an
-- uninitialised variable holds is taken from `garbage`.
--
-- A run ends normally, in `abort()` (a failed `assert`), in `exit(code)`, or it is cut off.
pub mod Post
pub mod Frame
pub mod Healthy
pub mod Bytes
pub mod Settles
pub mod Ends
use capfs.Base.{ℕ, zero, suc, ◌+◌, ◌-◌, ◌*◌, ◌/◌, ◌%◌, ◌^◌, min, Bool, true, false, ◌&&◌, not}
use capfs.Base.{List, [], ◌∷◌, ◌++◌, ℤ, ltb, leb, if◌then◌else◌, is_negative}
use capfs.Base.{length, get_or, take, drop}

-- The outcome of a library call: as asked, or an error after at most so many bytes.
pub data Fault : Type 0 where
  works : Fault
  broken : ℕ → Fault

-- `opened` is false while the `FILE *` is `NULL`.
pub record Stream : Type 0 where
  pub opened : Bool
  pub bytes : ℕ → ℕ
  pub size : ℕ
  pub position : ℕ
  pub error : Bool
  pub plan : List Fault

pub record State : Type 0 where
  pub file : Stream
  pub data_size : ℕ
  pub root_capability : ℕ
  pub garbage : List ℕ

pub data Run (A : Type 0) : Type 0 where
  ok : A → State → Run A
  aborted : Run A
  exited : ℤ → Run A
  out_of_fuel : Run A

abbrev pub M : Type 0 → Type 0
M A = State → Run A

abbrev pub pure : {A : Type 0} → A → M A
pure = ok

module _ {A B : Type 0} where
  abbrev pub continue : Run A → (A → M B) → Run B
  continue (ok a s) k = k a s
  continue aborted k = aborted
  continue (exited code) k = exited code
  continue out_of_fuel k = out_of_fuel

  infixl 5 ◌>>=◌ ◌>>◌
  abbrev pub ◌>>=◌ : M A → (A → M B) → M B
  ◌>>=◌ m k s = continue (m s) k

  abbrev pub ◌>>◌ : M A → M B → M B
  m >> n = m >>= λ _. n

abbrev pub gets : {A : Type 0} → (State → A) → M A
gets f s = ok (f s) s

abbrev pub assert : Bool → M (Unit {0})
assert true s = ok tt s
assert false s = aborted

-- The bytes of a file at `p`, `p + 1`, …
abbrev pub slice : (ℕ → ℕ) → ℕ → ℕ → List ℕ
slice content p zero = []
slice content p (suc n) = content p ∷ slice content (p + 1) n

-- The content with `xs` put at `p`.
unfoldable pub patch : (ℕ → ℕ) → ℕ → List ℕ → ℕ → ℕ
patch content p xs i = if leb p i && ltb i (p + length xs) then get_or xs (i - p) 0 else content i

-- A buffer whose front is overwritten by `xs`.
abbrev pub overlay : List ℕ → List ℕ → List ℕ
overlay xs buffer = xs ++ drop (length xs) buffer

abbrev pub next_fault : List Fault → Fault
next_fault [] = works
next_fault (f ∷ fs) = f

abbrev pub later_faults : List Fault → List Fault
later_faults [] = []
later_faults (f ∷ fs) = fs

abbrev pub set_file : State → Stream → State
set_file s f = record s { file = f }

-- `fseek(file, p, SEEK_SET)`, where `p` is passed as a `long`; the result is true on an error.
unfoldable pub fseek : ℕ → M Bool
fseek p s =
    let f = s.file in
    let left = later_faults f.plan in
    elim (next_fault f.plan) [
      | broken _ ↦ ok true (set_file s (record f { plan = left }))
      | works ↦
          if is_negative p
          then ok true (set_file s (record f { plan = left }))
          else ok false (set_file s (record f { position = p; plan = left }))
    ]

abbrev pub moved : Fault → ℕ → ℕ
moved works n = n
moved (broken k) n = min k n

-- `fread` of `n` bytes: what it stores.
unfoldable pub fread : ℕ → M (List ℕ)
fread n s =
    let f = s.file in
    let here = next_fault f.plan in
    let count = moved here (min n (f.size - f.position)) in
    ok (slice f.bytes f.position count) (
      set_file s (record f {
        position = f.position + count;
        error = elim here [ works ↦ f.error | broken _ ↦ true ];
        plan = later_faults f.plan;
      }))

-- `fwrite` of the bytes `xs`: how many it takes.
unfoldable pub fwrite : List ℕ → M ℕ
unfolding patch
fwrite xs s =
    let f = s.file in
    let here = next_fault f.plan in
    let count = moved here (length xs) in
    let end = f.position + count in
    ok count (
      set_file s (record f {
        bytes = patch f.bytes f.position (take count xs);
        size = if ltb f.size end then end else f.size;
        position = end;
        error = elim here [ works ↦ f.error | broken _ ↦ true ];
        plan = later_faults f.plan;
      }))

-- `ferror(file)`: 0, or 1 after an error.
abbrev pub ferror : M ℕ
ferror = gets λ s. if s.file.error then 1 else 0

-- The value of an uninitialised `uint32_t`.
unfoldable pub indeterminate : M ℕ
indeterminate s = elim s.garbage [
  | [] ↦ ok 0 s
  | x ∷ xs ↦ ok (x % 2 ^ 32) (record s { garbage = xs })
]

-- The object representation of an unsigned number in `n` bytes, lowest first.
abbrev pub le_bytes : ℕ → ℕ → List ℕ
le_bytes zero x = []
le_bytes (suc n) x = (x % 256) ∷ le_bytes n (x / 256)

abbrev pub from_le_bytes : List ℕ → ℕ
from_le_bytes [] = 0
from_le_bytes (b ∷ bs) = b + 256 * from_le_bytes bs
