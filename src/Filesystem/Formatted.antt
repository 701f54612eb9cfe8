-- ===== src/Filesystem/Formatted.antt =====
-- What `capfs_filesystem_format` and `capfs_filesystem_init` do when every call on the file works.
use capfs.Base.{ℕ, ◌+◌, ◌-◌, ◌%◌, ◌≤◌, ◌<◌, ◌≡◌, refl, sym, ap, ◌∙◌, inr, true, false, not, arith}
use capfs.Base.{List, [], ◌∷◌, pos, is_nonzero, ◌==◌, length, take, take_all}
use capfs.Machine.{State, overlay}
use capfs.Machine.Post.{Returns, returns, Returns-bind, Returns-else}
use capfs.Machine.Bytes.{patch_outside, slice_ext}
use capfs.Machine.Frame.{Frame}
use capfs.Capability.{perm_read, perm_write, permits, capref_to_capability}
use capfs.Capability.RoundTrip.{capref_to_capability_bounds}
use capfs.Metadata.{files_size}
use capfs.CapfsFile.{
  CapfsFile, IsCapfsFile, to_bytes, of_bytes, capfs_file_size, file_magic, root_header,
}
use capfs.CapfsFile.RoundTrip.{length-to_bytes, of_bytes-to_bytes}
use capfs.Backend.{capfs_backend_cap_get_size}
use capfs.Backend.Confined.{data_byte}
use capfs.Backend.ReadWrite.{Ready, Ready-Frame, Written, data_slice, read-Returns, write-Returns}
use capfs.Backend.ReadBack.{data_slice-Written}
use capfs.Backend.Zeroed.{zero-Returns, Zeroed}
use capfs.Filesystem.Block.{fs_root-IsCapfsFile, overlay_all}
use capfs.Filesystem.{fs_root, capfs_filesystem_format, capfs_filesystem_init, same_string}
use capfs.Filesystem.{separator, as_size}

-- A capability that can be formatted: it can be read and written, and stands for whole blocks of 256
-- bytes inside the data region.
pub record Formattable (root : ℕ) : Type 0 where
  pub readable : permits (capref_to_capability root) perm_read ≡ true
  pub writable : permits (capref_to_capability root) perm_write ≡ true
  pub aligned : (capref_to_capability root).base % 256 ≡ 0
  pub blocks : (capref_to_capability root).size % 256 ≡ 0
  pub some : 0 < (capref_to_capability root).size
  pub room : (capref_to_capability root).base + (capref_to_capability root).size ≤ files_size

module _ (local : CapfsFile) (v : IsCapfsFile local) (root : ℕ) (k : Formattable root) where
  -- The root block that is stored.
  abbrev pub block : CapfsFile
  block = fs_root local (capfs_backend_cap_get_size root)

  block-IsCapfsFile : IsCapfsFile block
  unfolding capfs_backend_cap_get_size
  block-IsCapfsFile =
      fs_root-IsCapfsFile local _ v (omega (arith, capref_to_capability_bounds root))

  -- The block stands at the front, and all behind it is zero up to the last 256 bytes.
  pub record Formatted (t : State) : Type 0 where
    pub ready : Ready t
    pub stored :
        data_slice t ((capref_to_capability root).base + 0) capfs_file_size ≡ to_bytes block
    pub zeros :
        (i : ℕ)
        → (capref_to_capability root).base + capfs_file_size ≤ i
        → i < (capref_to_capability root).base + (capref_to_capability root).size - 256
        → data_byte t i ≡ 0

  pub inside : 0 + capfs_file_size < (capref_to_capability root).size
  inside = omega (arith, k.some, k.blocks)

  pub fits : (capref_to_capability root).base + 0 + capfs_file_size < files_size
  fits = omega (arith, k.some, k.blocks, k.room)

  length-block : length (to_bytes block) ≡ capfs_file_size
  length-block = length-to_bytes block block-IsCapfsFile

  whole : take capfs_file_size (to_bytes block) ≡ to_bytes block
  whole = ap (λ n. take n (to_bytes block)) (sym length-block) ∙ take_all (to_bytes block)

  formatted :
      {s t u : State}
      (z : Zeroed
        (capref_to_capability root).base
        ((capref_to_capability root).base + (capref_to_capability root).size - 256)
        s
        t)
      → Written root 0 capfs_file_size z.ready inside fits (to_bytes block) u
      → Formatted u
  formatted z w = record {
    ready = w.ready;
    stored =
        data_slice-Written root 0 capfs_file_size z.ready inside fits (to_bytes block)
          (omega (arith, length-block)) w
        ∙ whole;
    zeros = λ i lo hi.
        w.data_put i
        ∙ patch_outside _ _ (take capfs_file_size (to_bytes block)) i
            (inr (omega (arith, ap length whole, length-block)))
        ∙ z.zeros i (omega arith) hi;
  }

  -- On a file of the expected size on which every call works, `capfs_filesystem_format` of a
  -- capability that can be read and written and stands for a positive number of whole 256-byte
  -- blocks of the data region returns 0: the root block stands at its front, and what is behind is
  -- zero up to the last 256 bytes.
  pub format-Returns :
      {s : State}
      → Ready s
      → Returns (λ status t. (status ≡ pos 0) × Formatted t) (capfs_filesystem_format local root s)
  unfolding capfs_filesystem_format
  format-Returns r =
      Returns-bind (zero-Returns root k.writable k.aligned k.blocks k.room r k.some)
        λ err t (fine, z). Returns-else (is_nonzero err) _ _ (ap is_nonzero fine) (
          Returns-bind
            (write-Returns root 0 capfs_file_size z.ready inside fits (to_bytes block) k.writable
              (omega (arith, length-block)) (omega (arith, k.aligned))
              (omega (arith, k.some, k.blocks, k.room)))
            λ written u (put, w).
              Returns-else (not (as_size written == capfs_file_size)) _ _
                (ap (λ n. not (as_size n == capfs_file_size)) put) (returns (refl, formatted z w)))

  data_byte-Frame : {t u : State} → Frame 0 0 t u → (i : ℕ) → data_byte u i ≡ data_byte t i
  unfolding data_byte
  data_byte-Frame same i = same.outside _ (inr (omega arith))

  pub Formatted-Frame : {t u : State} → Frame 0 0 t u → Formatted t → Formatted u
  unfolding data_slice
  Formatted-Frame same f = record {
    ready = Ready-Frame (omega arith) same f.ready;
    stored = slice_ext _ _ _ capfs_file_size (λ i _ _. data_byte-Frame same i) ∙ f.stored;
    zeros = λ i lo hi. data_byte-Frame same i ∙ f.zeros i lo hi;
  }

  -- What is read back over the old `g_fs_root`.
  pub read_back :
      (old : CapfsFile) {t : State} (buffer : List ℕ)
      → IsCapfsFile old
      → Formatted t
      → buffer
        ≡ overlay
            (data_slice t ((capref_to_capability root).base + 0) capfs_file_size)
            (to_bytes old)
      → of_bytes buffer ≡ block
  read_back old buffer o f e =
      ap of_bytes (
        e
        ∙ ap (λ xs. overlay xs (to_bytes old)) f.stored
        ∙ overlay_all _ _ (length-to_bytes old o ∙ sym length-block))
      ∙ of_bytes-to_bytes block block-IsCapfsFile

  pub accepted :
      (g : CapfsFile)
      → g ≡ block
      → (not (g.magic == file_magic) ≡ false)
        × (not (same_string 8 g.header root_header) ≡ false)
        × (not (same_string 128 g.name (separator ∷ 0 ∷ [])) ≡ false)
  unfolding same_string fs_root
  accepted g e = (
    ap (λ f. not (f.magic == file_magic)) e,
    ap (λ f. not (same_string 8 f.header root_header)) e,
    ap (λ f. not (same_string 128 f.name (separator ∷ 0 ∷ []))) e,
  )

  -- On a file of the expected size on which every call works, `capfs_filesystem_init` of a
  -- capability that can be read and written and stands for a positive number of whole 256-byte
  -- blocks of the data region returns 0: the block that is read back passes the tests on magic
  -- number, header and name, is the one that was stored, and the root is formatted.
  pub filesystem_init-Returns :
      (old : CapfsFile) {s : State}
      → IsCapfsFile old
      → Ready s
      → Returns
          (λ (status, g_fs_root) t. (status ≡ pos 0) × (g_fs_root ≡ block) × Formatted t)
          (capfs_filesystem_init local old root s)
  unfolding capfs_filesystem_init
  filesystem_init-Returns old o r = Returns-bind (format-Returns r) λ err t (fine, f).
      Returns-else (is_nonzero err) _ _ (ap is_nonzero fine) (
        Returns-bind
          (read-Returns root 0 capfs_file_size f.ready inside fits (to_bytes old) k.readable)
          λ got u (n, read, same).
            let g = of_bytes (got.1) in
            let e : g ≡ block = read_back old got.1 o f read in
            let (magic, header, name) = accepted g e in
            Returns-else (not (as_size got.0 == capfs_file_size)) _ _
              (ap (λ n. not (as_size n == capfs_file_size)) n)
              (Returns-else (not (g.magic == file_magic)) _ _ magic (
                Returns-else (not (same_string 8 g.header root_header)) _ _ header (
                  Returns-else (not (same_string 128 g.name (separator ∷ 0 ∷ []))) _ _ name
                    (returns (refl, e, Formatted-Frame same f))))))
