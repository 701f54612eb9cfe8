-- ===== src/Dummy/Listings.antt =====
-- `capfs_backend_get_direntry` of src/backends/dummy.c, lines 169 to 215, and the lookup of what it lists.
use capfs.Base.{
  ℕ, zero, suc, ◌≤◌, ◌≡◌, refl, ap, sym, ◌∙◌, inl, inr, false, Option, none, some, List, [], ◌∷◌, ℤ,
  pos, Bool-cases, is_negative, drop, arith,
}
use capfs.Dummy.{
  Entry, capstore, entry_at, listed, directory_of, dummy_get_direntry, dummy_resolve_path,
}
use capfs.Dummy.{file_01_entry, file_02_entry, folder_entry, file_03_entry}
use capfs.Dummy.Lookups.{Resolved, found, missing, dummy_resolve_path-Resolved}

-- The lookup succeeds, with an entry whose name is `path`.
pub record Located (path : List ℕ) (r : ℤ × ℕ) : Type 0 where
  pub entry : Entry
  pub succeeds : r.0 ≡ pos 0
  pub in_table : entry_at capstore r.1 ≡ some entry
  pub named : entry.name ≡ path

-- What is in the table is found.
located :
    (i : ℕ) (e : Entry) (path : List ℕ) (old : ℕ) {r : ℤ × ℕ}
    → entry_at capstore i ≡ some e
    → e.name ≡ path
    → Resolved path old r
    → Located path r
located i e path old there named (found j e' at same) = record {
  entry = e';
  succeeds = refl;
  in_table = at;
  named = same;
}
located i e path old there named (missing absent) = absurd (absent i e there named)

module _ (old : ℕ) (name : List ℕ) where
  -- An entry of a directory that is in the table, and whose name begins with the separator.
  entry_listed :
      (i : ℕ) (e : Entry)
      → entry_at capstore i ≡ some e
      → e.name ≡ 47 ∷ drop 1 e.name
      → Option.some (drop 1 e.name) ≡ some name
      → Located (47 ∷ name) (dummy_resolve_path 0 (47 ∷ name) old)
  entry_listed i e there slash given =
      located i e (47 ∷ name) old there
        (slash ∙ ap (λ o. 47 ∷ elim o [ none ↦ name | some n ↦ n ]) given)
        (dummy_resolve_path-Resolved (47 ∷ name) old)

  root_listed :
      (offset : ℕ)
      → 2 ≤ offset
      → listed (file_01_entry ∷ file_02_entry ∷ folder_entry ∷ []) offset ≡ some name
      → Located (47 ∷ name) (dummy_resolve_path 0 (47 ∷ name) old)
  unfolding listed entry_at capstore
  root_listed zero past e = absurd (omega arith)
  root_listed (suc zero) past e = absurd (omega arith)
  root_listed (suc (suc zero)) past e = entry_listed 1 file_01_entry refl refl e
  root_listed (suc (suc (suc zero))) past e = entry_listed 2 file_02_entry refl refl e
  root_listed (suc (suc (suc (suc zero)))) past e = entry_listed 3 folder_entry refl refl e
  root_listed (suc (suc (suc (suc (suc i))))) past e = cc

  folder_listed :
      (offset : ℕ)
      → 2 ≤ offset
      → listed (file_03_entry ∷ []) offset ≡ some name
      → Located (47 ∷ name) (dummy_resolve_path 0 (47 ∷ name) old)
  unfolding listed entry_at capstore
  folder_listed zero past e = absurd (omega arith)
  folder_listed (suc zero) past e = absurd (omega arith)
  folder_listed (suc (suc zero)) past e = entry_listed 4 file_03_entry refl refl e
  folder_listed (suc (suc (suc i))) past e = cc

  -- What is listed at an offset that is not negative, by the capability.
  listed_by :
      (cap offset : ℕ)
      → 2 ≤ offset
      → is_negative offset ≡ false
      → dummy_get_direntry cap offset ≡ some name
      → Located (47 ∷ name) (dummy_resolve_path 0 (47 ∷ name) old)
  unfolding dummy_get_direntry entry_at capstore directory_of
  listed_by zero offset past positive e = root_listed offset past (sym (rw positive refl) ∙ e)
  listed_by (suc zero) offset past positive e = ground arith
  listed_by (suc (suc zero)) offset past positive e = ground arith
  listed_by (suc (suc (suc zero))) offset past positive e =
      folder_listed offset past (sym (rw positive refl) ∙ e)
  listed_by (suc (suc (suc (suc zero)))) offset past positive e = ground arith
  listed_by (suc (suc (suc (suc (suc cap))))) offset past positive e = ground arith

-- A name that `capfs_backend_get_direntry` of the dummy backend gives at an offset from 2 on, for
-- any capability, is found with a separator in front by `capfs_backend_resolve_path` from the
-- root: it returns 0 and the index of an entry with that path as its name. So names are those from
-- the root, also in the folder.
pub direntry-Located :
    (cap offset old : ℕ) (name : List ℕ)
    → 2 ≤ offset
    → dummy_get_direntry cap offset ≡ some name
    → Located (47 ∷ name) (dummy_resolve_path 0 (47 ∷ name) old)
unfolding dummy_get_direntry
direntry-Located cap offset old name past e = elim (Bool-cases (is_negative offset)) [
  | inl negative ↦ ground arith
  | inr positive ↦ listed_by old name cap offset past positive e
]
