-- ===== src/Metadata.antt =====
-- src/backends/files.c, lines 59 to 87 and 161 to 285: the validity bits, one for each pointer-sized
-- slot of the data region, in 32-bit words at the front of the file.
pub mod Framed
pub mod Words
pub mod Marked
pub mod Decided
pub mod Ended
use capfs.Base.{ℕ, zero, suc, ◌+◌, ◌-◌, ◌*◌, ◌/◌, ◌%◌, ◌^◌, bit_and, bit_or, Bool, ◌&&◌, not}
use capfs.Base.{ℤ, pos, neg, ltb, leb, ◌==◌, if◌then◌else◌, add64, length}
use capfs.Machine.{M, out_of_fuel, pure, ◌>>=◌, ◌>>◌, gets, assert}
use capfs.Machine.{fseek, fread, fwrite, indeterminate, le_bytes}

-- `BACKEND_FILES_SIZE_BITS`, `BACKEND_FILES_SIZE` and what follows from them.
abbrev pub files_size_bits : ℕ
files_size_bits = 24

abbrev pub files_size : ℕ
files_size = 2 ^ files_size_bits

abbrev pub num_pointers : ℕ
num_pointers = files_size / 8

abbrev pub data_offset : ℕ
data_offset = num_pointers / 8

abbrev pub total_size : ℕ
total_size = files_size + data_offset

-- `PTR2OFFSET`: where the word with the bit of slot `ptr` stands.
abbrev pub ptr_to_offset : ℕ → ℕ
ptr_to_offset ptr = ptr / 32 * 4

abbrev pub is_open : M Bool
is_open = gets λ s. s.file.opened

-- The second result is what the caller's `*md` holds afterwards. The eight bytes are read over the
-- parameter `md` itself (`fread(&md, sizeof(md), …)` with `md` a pointer), so `*md` stays as it was.
unfoldable pub metadata_rawread : ℕ → ℕ → M (ℤ × ℕ)
metadata_rawread ptr md = do
  assert (ltb (ptr_to_offset ptr) data_offset)
  opened ← is_open
  if not opened then pure (neg 1, md) else do
    failed ← fseek (ptr_to_offset ptr)
    if failed then pure (neg 1, md) else do
      over_pointer ← fread 8
      if not (length over_pointer / 8 == 1) then pure (neg 1, md) else pure (pos 0, md)

unfoldable pub metadata_rawwrite : ℕ → ℕ → M ℤ
metadata_rawwrite ptr md = do
  assert (ltb (ptr_to_offset ptr) data_offset)
  opened ← is_open
  if not opened then pure (neg 1) else do
    failed ← fseek (ptr_to_offset ptr)
    if failed then pure (neg 1) else do
      written ← fwrite (le_bytes 4 md)
      if not (written / 4 == 1) then pure (neg 1) else pure (pos 0)

-- `md & (1 << ptr % 32)`, as the bit pattern of the `int`.
unfoldable pub metadata_is_capability : ℕ → M ℕ
unfolding metadata_rawread
metadata_is_capability offset =
    let ptr = offset / 8 in
    if not (bit_and offset 0x3 == 0)
    then pure 0
    else do (_, md) ← metadata_rawread ptr 0; pure (bit_and md (2 ^ (ptr % 32)))

-- `set ? md | (1 << bit) : md & ~(1 << bit)` on a `uint32_t`.
abbrev pub with_bit : Bool → ℕ → ℕ → ℕ
with_bit set md bit = if set then bit_or md (2 ^ bit) else bit_and md (2 ^ 32 - 1 - 2 ^ bit)

-- The loop over the bits of the first, incomplete word: `ptr_from` and `md` at its end.
unfoldable pub head_loop : Bool → ℕ → ℕ → ℕ → ℕ → ℕ → M (ℕ × ℕ)
head_loop set zero ptr_from ptr_to bit md = λ _. out_of_fuel
head_loop set (suc rounds) ptr_from ptr_to bit md =
    let rest = head_loop set rounds (ptr_from + 1) ptr_to (bit + 1) (with_bit set md bit) in
    if leb ptr_from ptr_to && ltb bit 32 then rest else pure (ptr_from, md)

-- The first word, if the range starts inside it; the result is `ptr_from`.
unfoldable pub head_word : Bool → ℕ → ℕ → ℕ → M ℕ
head_word set ptr_from ptr_to md =
    let bit = ptr_from % 32 in
    if bit == 0 then pure ptr_from else do
      (_, md₁) ← metadata_rawread ptr_from md
      (ptr, md₂) ← head_loop set 33 ptr_from ptr_to bit md₁
      _ ← metadata_rawwrite ptr md₂
      pure ptr

-- The loop over whole words; the result is `ptr_from`.
unfoldable pub whole_loop : ℕ → ℕ → ℕ → ℕ → M ℕ
whole_loop zero ptr_from ptr_to md = λ _. out_of_fuel
whole_loop (suc rounds) ptr_from ptr_to md =
    let rest = metadata_rawwrite ptr_from md >>= λ _. whole_loop rounds (ptr_from + 32) ptr_to md in
    if leb (ptr_from + 32) ptr_to then rest else pure ptr_from

-- The loop over the bits of the last word: `ptr_from` and `md` at its end.
unfoldable pub tail_loop : Bool → ℕ → ℕ → ℕ → ℕ → ℕ → M (ℕ × ℕ)
tail_loop set zero ptr_from ptr_to bit md = λ _. out_of_fuel
tail_loop set (suc rounds) ptr_from ptr_to bit md =
    let rest =
      assert (ltb bit 32)
      >> tail_loop set rounds (ptr_from + 1) ptr_to (bit + 1) (with_bit set md bit) in
    if leb ptr_from ptr_to then rest else pure (ptr_from, md)

unfoldable pub tail_word : Bool → ℕ → ℕ → ℕ → M ℤ
tail_word set ptr_from ptr_to md =
    if ltb ptr_from ptr_to
    then (do
      (_, md₁) ← metadata_rawread ptr_from md
      (ptr, md₂) ← tail_loop set 33 ptr_from ptr_to 0 md₁
      _ ← metadata_rawwrite ptr md₂
      pure (pos 0))
    else pure (pos 0)

unfoldable pub metadata_valid_bits_generic : ℕ → ℕ → Bool → M ℤ
metadata_valid_bits_generic from to set = do
  assert (leb from to)
  opened ← is_open
  if not opened then pure (neg 1) else do
    let ptr_from = from / 8
    let ptr_to = add64 to 7 / 8
    md ← indeterminate
    ptr ← head_word set ptr_from ptr_to md
    assert (ptr % 32 == 0)
    let full = if set then 0xffff_ffff else 0
    ptr' ← whole_loop ((ptr_to - ptr) / 32 + 1) ptr ptr_to full
    tail_word set ptr' ptr_to full
