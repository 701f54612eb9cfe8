-- ===== src/Capstore.antt =====
-- src/backends/files.c, lines 289 to 338: raw access to the data region, behind the bits. Sums wrap
-- at 2^64.
pub mod Access
use capfs.Base.{ℕ, not, List, ℤ, pos, neg, leb, ◌==◌, if◌then◌else◌, add64, length, take}
use capfs.Machine.{M, pure, ◌>>=◌, gets, fseek, fread, fwrite, ferror, overlay}
use capfs.Metadata.{data_offset, is_open}

abbrev pub capstore_addr2offset : ℕ → ℕ
capstore_addr2offset addr = add64 addr data_offset

-- The buffer is passed in, and comes back with what was read over its front.
unfoldable pub capstore_rawread : ℕ → List ℕ → ℕ → M (ℤ × List ℕ)
capstore_rawread offset rbuf bytes = do
  opened ← is_open
  if not opened then pure (neg 1, rbuf) else do
    data_size ← gets λ s. s.data_size
    if leb data_size (add64 offset bytes) then pure (neg 1, rbuf) else do
      failed ← fseek (capstore_addr2offset offset)
      if failed then pure (neg 1, rbuf) else do
        got ← fread bytes
        if length got == 1
            then pure (pos 0, overlay got rbuf)
            else do e ← ferror; pure (pos e, overlay got rbuf)

unfoldable pub capstore_rawwrite : ℕ → List ℕ → ℕ → M ℤ
capstore_rawwrite offset wbuf bytes = do
  opened ← is_open
  if not opened then pure (neg 1) else do
    data_size ← gets λ s. s.data_size
    if leb data_size (add64 offset bytes) then pure (neg 1) else do
      failed ← fseek (capstore_addr2offset offset)
      if failed then pure (neg 1) else do
        written ← fwrite (take bytes wbuf)
        if written == 1 then pure (pos 0) else do e ← ferror; pure (pos e)
