-- ===== src/Filesystem/Block.antt =====
-- The root block that formatting makes, and how it fits its object representation.
use capfs.Base.{ℕ, zero, suc, ◌-◌, ◌<◌, ◌^◌, ◌≡◌, refl, ap, List, [], ◌∷◌, length, drop, arith}
use capfs.Machine.{overlay}
use capfs.CapfsFile.{CapfsFile, IsCapfsFile}
use capfs.Filesystem.{fs_root}

length-drop : (n : ℕ) (xs : List ℕ) → length (drop n xs) ≡ length xs - n
length-drop zero xs = omega arith
length-drop (suc n) [] = omega arith
length-drop (suc n) (x ∷ xs) = omega (arith, length-drop n xs)

pub fs_root-IsCapfsFile :
    (local : CapfsFile) (size : ℕ)
    → IsCapfsFile local
    → size < 2 ^ 64
    → IsCapfsFile (fs_root local size)
unfolding fs_root
fs_root-IsCapfsFile local size v fits = record {
  magic_fits = omega arith;
  name_fits = ap (λ n. suc (suc n)) (omega (arith, length-drop 2 local.name, v.name_fits));
  type_fits = v.type_fits;
  type_padding_fits = v.type_padding_fits;
  content_fits = v.content_fits;
  size_fits = fits;
  version_fits = v.version_fits;
  header_fits = refl;
  header_padding_fits = v.header_padding_fits;
  heap_fits = v.heap_fits;
}

-- A buffer that is read over completely.
pub overlay_all : (xs ys : List ℕ) → length ys ≡ length xs → overlay xs ys ≡ xs
overlay_all [] [] e = refl
overlay_all [] (y ∷ ys) e = absurd (omega arith)
overlay_all (x ∷ xs) [] e = absurd (omega arith)
overlay_all (x ∷ xs) (y ∷ ys) e = ap (λ zs. x ∷ zs) (overlay_all xs ys (omega arith))
