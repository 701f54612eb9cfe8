-- ===== src/Tests/DummyRuns.antt =====
-- The theorems on the dummy backend, at concrete inputs.
use capfs.Base.{ℕ, ◌≡◌, ◌<◌, refl, min, [], ◌∷◌, pos, arith, length, get_or, drop}
use capfs.Dummy.{capstore, entry_at, file_01_entry, file_01_payload, folder_name}
use capfs.Dummy.{dummy_resolve_path, dummy_read, dummy_get_direntry, listed, directory_of}
use capfs.Dummy.Listings.{Located, direntry-Located}
use capfs.Dummy.Lookups.{Resolved, dummy_resolve_path-Resolved}
use capfs.Dummy.Copies.{dummy_read-front}

dummy_resolve_path-Resolved_example : Resolved folder_name 9 (dummy_resolve_path 0 folder_name 9)
dummy_resolve_path-Resolved_example = dummy_resolve_path-Resolved folder_name 9

-- Two characters from offset 5: they are those at 0.
dummy_read-front_example :
    ((dummy_read 1 5 (7 ∷ 8 ∷ 9 ∷ []) 2).0 ≡ pos (min 2 (length file_01_payload)))
    × ((j : ℕ)
        → j < min 2 (length file_01_payload)
        → get_or (dummy_read 1 5 (7 ∷ 8 ∷ 9 ∷ []) 2).1 j 0 ≡ get_or file_01_payload j 0)
unfolding capstore entry_at
dummy_read-front_example =
    dummy_read-front 1 5 2 (7 ∷ 8 ∷ 9 ∷ []) file_01_entry file_01_payload refl refl refl
      (omega arith) (omega arith) (omega arith)

-- The third entry that the root lists is the folder.
direntry-Located_example : Located folder_name (dummy_resolve_path 0 folder_name 9)
unfolding dummy_get_direntry listed directory_of capstore entry_at
direntry-Located_example = direntry-Located 0 4 9 (drop 1 folder_name) (omega arith) refl
