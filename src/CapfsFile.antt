-- ===== src/CapfsFile.antt =====
-- src/filesystem.c, lines 42 to 73: the file header and its
-- object representation on x86-64, where `struct capfs_file` has 184 bytes with padding at 140 and 170.
--
-- Of the union, the member `root` is modelled; nothing uses the others.
pub mod RoundTrip
use capfs.Base.{ℕ, ◌+◌, ◌^◌, ◌<◌, ◌≡◌, List, [], ◌∷◌, ◌++◌, length, take, drop}
use capfs.Machine.{le_bytes, from_le_bytes}

abbrev pub file_name_max : ℕ
file_name_max = 127

-- `"CAP-FS "`, with its NUL.
abbrev pub root_header : List ℕ
root_header = 67 ∷ 65 ∷ 80 ∷ 45 ∷ 70 ∷ 83 ∷ 32 ∷ 0 ∷ []

abbrev pub root_version1 : ℕ
root_version1 = 0x0100

abbrev pub file_magic : ℕ
file_magic = 0x00ca_feba_be00

pub record CapfsFile : Type 0 where
  pub magic : ℕ
  pub name : List ℕ
  pub type : ℕ
  pub type_padding : ℕ
  pub content : ℕ
  pub size : ℕ
  pub version : ℕ
  pub header : List ℕ
  pub header_padding : ℕ
  pub heap : ℕ

-- `sizeof(struct capfs_file)`
abbrev pub capfs_file_size : ℕ
capfs_file_size = 184

unfoldable pub to_bytes : CapfsFile → List ℕ
to_bytes f =
    le_bytes 8 f.magic
    ++ (f.name
        ++ (le_bytes 4 f.type
            ++ (le_bytes 4 f.type_padding
                ++ (le_bytes 8 f.content
                    ++ (le_bytes 8 f.size
                        ++ (le_bytes 2 f.version
                            ++ (f.header
                                ++ (le_bytes 6 f.header_padding ++ le_bytes 8 f.heap))))))))

-- The `n` bytes at `p`.
abbrev field : ℕ → ℕ → List ℕ → List ℕ
field p n bytes = take n (drop p bytes)

unfoldable pub of_bytes : List ℕ → CapfsFile
of_bytes bytes = record {
  magic = from_le_bytes (field 0 8 bytes);
  name = field 8 128 bytes;
  type = from_le_bytes (field 136 4 bytes);
  type_padding = from_le_bytes (field 140 4 bytes);
  content = from_le_bytes (field 144 8 bytes);
  size = from_le_bytes (field 152 8 bytes);
  version = from_le_bytes (field 160 2 bytes);
  header = field 162 8 bytes;
  header_padding = from_le_bytes (field 170 6 bytes);
  heap = from_le_bytes (field 176 8 bytes);
}

-- The fields fit their places.
pub record IsCapfsFile (f : CapfsFile) : Type 0 where
  pub magic_fits : f.magic < 2 ^ 64
  pub name_fits : length f.name ≡ file_name_max + 1
  pub type_fits : f.type < 2 ^ 32
  pub type_padding_fits : f.type_padding < 2 ^ 32
  pub content_fits : f.content < 2 ^ 64
  pub size_fits : f.size < 2 ^ 64
  pub version_fits : f.version < 2 ^ 16
  pub header_fits : length f.header ≡ 8
  pub header_padding_fits : f.header_padding < 2 ^ 48
  pub heap_fits : f.heap < 2 ^ 64
