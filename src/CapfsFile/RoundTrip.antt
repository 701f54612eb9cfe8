-- ===== src/CapfsFile/RoundTrip.antt =====
-- The object representation of `struct capfs_file`, src/filesystem.c, field by field.
use capfs.Base.{ℕ, zero, suc, ◌+◌, ◌*◌, ◌/◌, ◌%◌, ◌^◌, ◌<◌, ◌≡◌, sym, ap, ◌∙◌, arith}
use capfs.Base.{List, [], ◌∷◌, ◌++◌, length, take, length-append, take-append, take_all}
use native.Mathlib.Numerals.{unary_clauses}
use capfs.Machine.{le_bytes, from_le_bytes}
use capfs.Machine.Bytes.{length-le_bytes}
use capfs.CapfsFile.{CapfsFile, IsCapfsFile, to_bytes, of_bytes, capfs_file_size, field}

-- `length xs ≡ n`, as a type that determines the list.
data HasLength (n : ℕ) (xs : List ℕ) : Type 0 where
  has_length : length xs ≡ n → HasLength n xs

word : (n x : ℕ) → HasLength n (le_bytes n x)
word n x = has_length (length-le_bytes n x)

joined : {xs ys : List ℕ} {m n : ℕ} → HasLength m xs → HasLength n ys → HasLength (m + n) (xs ++ ys)
joined {xs} {ys} (has_length a) (has_length b) = has_length (omega (arith, length-append xs ys))

length_of : {n : ℕ} {xs : List ℕ} → HasLength n xs → length xs ≡ n
length_of (has_length e) = e

take-skip : (xs ys : List ℕ) (p q n : ℕ) → length xs ≡ p → field (p + q) n (xs ++ ys) ≡ field q n ys
take-skip [] ys p q n e = ap (λ (k : ℕ). field k n ys) (let z : p + q ≡ q = omega arith in z)
take-skip (x ∷ xs) ys zero q n e = absurd (omega arith)
take-skip (x ∷ xs) ys (suc p) q n e =
    ap (λ k. field k n (x ∷ xs ++ ys)) (let z : suc p + q ≡ suc (p + q) = omega arith in z)
    ∙ take-skip xs ys p q n (omega arith)

-- `field p n bytes ≡ zs`, as a type that determines its parts.
data FieldAt (p n : ℕ) (bytes zs : List ℕ) : Type 0 where
  field_at : field p n bytes ≡ zs → FieldAt p n bytes zs

-- A field behind another one, at the front, and at the end.
skip :
    {xs ys zs : List ℕ} {p q n : ℕ}
    → HasLength p xs
    → FieldAt q n ys zs
    → FieldAt (p + q) n (xs ++ ys) zs
skip {xs} {ys} {p} {q} {n} (has_length e) (field_at rest) =
    field_at (take-skip xs ys p q n e ∙ rest)

front : {xs : List ℕ} {n : ℕ} (ys : List ℕ) → HasLength n xs → FieldAt 0 n (xs ++ ys) xs
front {xs} ys (has_length e) = field_at (ap (λ k. take k (xs ++ ys)) (sym e) ∙ take-append xs ys)

end : {xs : List ℕ} {n : ℕ} → HasLength n xs → FieldAt 0 n xs xs
end {xs} (has_length e) = field_at (ap (λ k. take k xs) (sym e) ∙ take_all xs)

found : {p n : ℕ} {bytes zs : List ℕ} → FieldAt p n bytes zs → field p n bytes ≡ zs
found (field_at e) = e

-- Horner's scheme takes the bytes apart and puts them together.
last_byte : (x q : ℕ) → q ≡ x / 256 → x % 256 + 256 * q ≡ x
last_byte x q e = omega arith

quotient-lt : (x k : ℕ) → x < 256 * k → x / 256 < k
quotient-lt x k h = omega arith

from_le_bytes-le_bytes_any : (n x : ℕ) → x < 256 ^ n → from_le_bytes (le_bytes n x) ≡ x
from_le_bytes-le_bytes_any zero x h = omega arith
from_le_bytes-le_bytes_any (suc n) x h = last_byte x _ (
    from_le_bytes-le_bytes_any n (x / 256) (
      quotient-lt x (256 ^ n)
        (let e : 256 ^ suc n ≡ 256 ^ n * 256 = simp unary_clauses in omega (arith, e))))

pub length-to_bytes : (f : CapfsFile) → IsCapfsFile f → length (to_bytes f) ≡ capfs_file_size
unfolding to_bytes
length-to_bytes f v = length_of (
    joined (word 8 f.magic) (
      joined (has_length v.name_fits) (
        joined (word 4 f.type) (
          joined (word 4 f.type_padding) (
            joined (word 8 f.content) (
              joined (word 8 f.size) (
                joined (word 2 f.version) (
                  joined (has_length v.header_fits)
                    (joined (word 6 f.header_padding) (word 8 f.heap))))))))))

magic_at : (f : CapfsFile) → IsCapfsFile f → FieldAt 0 8 (to_bytes f) (le_bytes 8 f.magic)
unfolding to_bytes
magic_at f v = front _ (word 8 f.magic)

name_at : (f : CapfsFile) → IsCapfsFile f → FieldAt 8 128 (to_bytes f) (f.name)
unfolding to_bytes
name_at f v = skip (word 8 f.magic) (front _ (has_length v.name_fits))

type_at : (f : CapfsFile) → IsCapfsFile f → FieldAt 136 4 (to_bytes f) (le_bytes 4 f.type)
unfolding to_bytes
type_at f v = skip (word 8 f.magic) (skip (has_length v.name_fits) (front _ (word 4 f.type)))

type_padding_at :
    (f : CapfsFile) → IsCapfsFile f → FieldAt 140 4 (to_bytes f) (le_bytes 4 f.type_padding)
unfolding to_bytes
type_padding_at f v =
    skip (word 8 f.magic)
      (skip (has_length v.name_fits) (skip (word 4 f.type) (front _ (word 4 f.type_padding))))

content_at : (f : CapfsFile) → IsCapfsFile f → FieldAt 144 8 (to_bytes f) (le_bytes 8 f.content)
unfolding to_bytes
content_at f v = skip (word 8 f.magic) (
    skip (has_length v.name_fits)
      (skip (word 4 f.type) (skip (word 4 f.type_padding) (front _ (word 8 f.content)))))

size_at : (f : CapfsFile) → IsCapfsFile f → FieldAt 152 8 (to_bytes f) (le_bytes 8 f.size)
unfolding to_bytes
size_at f v = skip (word 8 f.magic) (
    skip (has_length v.name_fits) (
      skip (word 4 f.type)
        (skip (word 4 f.type_padding) (skip (word 8 f.content) (front _ (word 8 f.size))))))

version_at : (f : CapfsFile) → IsCapfsFile f → FieldAt 160 2 (to_bytes f) (le_bytes 2 f.version)
unfolding to_bytes
version_at f v = skip (word 8 f.magic) (
    skip (has_length v.name_fits) (
      skip (word 4 f.type) (
        skip (word 4 f.type_padding)
          (skip (word 8 f.content) (skip (word 8 f.size) (front _ (word 2 f.version)))))))

header_at : (f : CapfsFile) → IsCapfsFile f → FieldAt 162 8 (to_bytes f) (f.header)
unfolding to_bytes
header_at f v = skip (word 8 f.magic) (
    skip (has_length v.name_fits) (
      skip (word 4 f.type) (
        skip (word 4 f.type_padding) (
          skip (word 8 f.content) (
            skip (word 8 f.size) (skip (word 2 f.version) (front _ (has_length v.header_fits))))))))

header_padding_at :
    (f : CapfsFile) → IsCapfsFile f → FieldAt 170 6 (to_bytes f) (le_bytes 6 f.header_padding)
unfolding to_bytes
header_padding_at f v = skip (word 8 f.magic) (
    skip (has_length v.name_fits) (
      skip (word 4 f.type) (
        skip (word 4 f.type_padding) (
          skip (word 8 f.content) (
            skip (word 8 f.size) (
              skip (word 2 f.version)
                (skip (has_length v.header_fits) (front _ (word 6 f.header_padding)))))))))

heap_at : (f : CapfsFile) → IsCapfsFile f → FieldAt 176 8 (to_bytes f) (le_bytes 8 f.heap)
unfolding to_bytes
heap_at f v = skip (word 8 f.magic) (
    skip (has_length v.name_fits) (
      skip (word 4 f.type) (
        skip (word 4 f.type_padding) (
          skip (word 8 f.content) (
            skip (word 8 f.size) (
              skip (word 2 f.version) (
                skip (has_length v.header_fits)
                  (skip (word 6 f.header_padding) (end (word 8 f.heap))))))))))

-- A file header whose fields fit their places comes back from its object representation of 184
-- bytes.
pub of_bytes-to_bytes : (f : CapfsFile) → IsCapfsFile f → of_bytes (to_bytes f) ≡ f
unfolding of_bytes
of_bytes-to_bytes f v = λ i. record {
  magic = (ap from_le_bytes (found (magic_at f v)) ∙ from_le_bytes-le_bytes_any 8 _ v.magic_fits) i;
  name = found (name_at f v) i;
  type = (ap from_le_bytes (found (type_at f v)) ∙ from_le_bytes-le_bytes_any 4 _ v.type_fits) i;
  type_padding =
      (ap from_le_bytes (found (type_padding_at f v))
          ∙ from_le_bytes-le_bytes_any 4 _ v.type_padding_fits)
        i;
  content =
      (ap from_le_bytes (found (content_at f v)) ∙ from_le_bytes-le_bytes_any 8 _ v.content_fits) i;
  size = (ap from_le_bytes (found (size_at f v)) ∙ from_le_bytes-le_bytes_any 8 _ v.size_fits) i;
  version =
      (ap from_le_bytes (found (version_at f v)) ∙ from_le_bytes-le_bytes_any 2 _ v.version_fits) i;
  header = found (header_at f v) i;
  header_padding =
      (ap from_le_bytes (found (header_padding_at f v))
          ∙ from_le_bytes-le_bytes_any 6 _ v.header_padding_fits)
        i;
  heap = (ap from_le_bytes (found (heap_at f v)) ∙ from_le_bytes-le_bytes_any 8 _ v.heap_fits) i;
}
