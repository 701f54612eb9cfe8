-- ===== src/Filesystem/Components.antt =====
-- `capfs_filesystem_resolve_path` of src/filesystem.c against a description that does not scan: the path is
-- split at the separators, and the components are looked up one after the other.
use mathlib.Core.Path.{fun_ext}
use mathlib.Core.List.{append-nil, append_assoc}
use capfs.Base.{
  ℕ, ◌+◌, ◌≡◌, refl, sym, ap, ◌∙◌, Bool, true, false, inl, inr, some, List, [], ◌∷◌, ◌++◌, ◌==◌,
  if◌then◌else◌, Bool-cases, pos, neg, enomem, ℤ,
}
use capfs.Machine.{State, Run, ok, aborted, exited, out_of_fuel, M, pure, continue, ◌>>=◌}
use capfs.CapfsFile.{CapfsFile}
use capfs.Filesystem.{
  separator, is_root_path, resolve_one, component, scan, capfs_filesystem_resolve_path,
}

-- A piece put in front of the first of the pieces.
abbrev pub join : List ℕ → List (List ℕ) → List (List ℕ)
join xs [] = []
join xs (y ∷ ys) = (xs ++ y) ∷ ys

-- The pieces between the separators.
unfoldable pub split : List ℕ → List (List ℕ)
split [] = [] ∷ []
split (p ∷ ps) = let rest = split ps in if p == separator then [] ∷ rest else join (p ∷ []) rest

abbrev pub nonempty : List (List ℕ) → List (List ℕ)
nonempty [] = []
nonempty ([] ∷ pieces) = nonempty pieces
nonempty ((x ∷ xs) ∷ pieces) = (x ∷ xs) ∷ nonempty pieces

-- The components of a path.
abbrev pub components : List ℕ → List (List ℕ)
components path = nonempty (split path)

-- Each component is looked up in what the one before gave, with locals of its own.
unfoldable pub walk : (ℕ → CapfsFile) → (ℕ → ℕ) → ℕ → ℕ → List (List ℕ) → M ℕ
walk local content_cap k root [] = pure root
walk local content_cap k root (c ∷ cs) =
    component (local k) (content_cap k) root c >>= λ found. walk local content_cap (k + 1) found cs

-- What the path says, from the first character on.
unfoldable pub walk_path : (ℕ → CapfsFile) → (ℕ → ℕ) → Bool → ℕ → List ℕ → ℕ → M (ℤ × ℕ)
walk_path local content_cap copied root path old =
    if is_root_path path
    then resolve_one (local 0) (content_cap 0) root path old
    else if copied
    then (walk local content_cap 0 root (components path) >>= λ found. pure (pos 0, found))
    else pure (neg enomem, old)

join-none : (pieces : List (List ℕ)) → join [] pieces ≡ pieces
join-none [] = refl
join-none (y ∷ ys) = refl

join-join :
    (xs : List ℕ) (p : ℕ) (pieces : List (List ℕ))
    → join xs (join (p ∷ []) pieces) ≡ join (xs ++ p ∷ []) pieces
join-join xs p [] = refl
join-join xs p (y ∷ ys) = ap (λ piece. piece ∷ ys) (sym (append_assoc xs (p ∷ []) y))

continue-pure : {A : Type 0} (r : Run A) → continue r (λ a. pure a) ≡ r
continue-pure (ok a s) = refl
continue-pure aborted = refl
continue-pure (exited code) = refl
continue-pure out_of_fuel = refl

module _ (local : ℕ → CapfsFile) (content_cap : ℕ → ℕ) where
  scan-walk :
      (path current : List ℕ) (k root : ℕ)
      → scan local content_cap k root current path
        ≡ walk local content_cap k root (nonempty (join current (split path)))
  unfolding scan walk split
  scan-walk [] [] k root = refl
  scan-walk [] (x ∷ xs) k root =
      sym (fun_ext λ s. continue-pure _)
      ∙ ap (λ piece. component (local k) (content_cap k) root (x ∷ piece) >>= λ found. pure found)
          (sym (append-nil xs))
  scan-walk (p ∷ ps) [] k root = elim (Bool-cases (p == separator)) [
    | inl e ↦ rw e (scan-walk ps [] k root ∙ ap found_in (join-none (split ps)))
    | inr e ↦
        rw e
          (scan-walk ps (p ∷ []) k root ∙ ap found_in (sym (join-none (join (p ∷ []) (split ps)))))
  ]
    where
      found_in : List (List ℕ) → M ℕ
      found_in pieces = walk local content_cap k root (nonempty pieces)
  scan-walk (p ∷ ps) (x ∷ xs) k root = elim (Bool-cases (p == separator)) [
    | inl e ↦ rw e (
        ap
          (λ piece. component (local k) (content_cap k) root (x ∷ piece) >>= λ r.
            scan local content_cap (k + 1) r [] ps)
          (sym (append-nil xs))
        ∙ ap (λ next. component (local k) (content_cap k) root (x ∷ xs ++ []) >>= next)
            (fun_ext λ r.
              scan-walk ps [] (k + 1) r
              ∙ ap (λ pieces. walk local content_cap (k + 1) r (nonempty pieces))
                  (join-none (split ps))))
    | inr e ↦ rw e (
        scan-walk ps (x ∷ xs ++ p ∷ []) k root
        ∙ ap (λ pieces. walk local content_cap k root (nonempty pieces))
            (sym (join-join (x ∷ xs) p (split ps))))
  ]

  -- For every path, in every state, `capfs_filesystem_resolve_path` runs as the lookup that splits
  -- the path at the separators, drops the empty pieces and looks each component up in what the one
  -- before gave, with locals of its own, after the cases of `"/"` and of a refused `strdup`.
  pub resolve_path-walk_path :
      (copied : Bool) (root : ℕ) (path : List ℕ) (old : ℕ) (s : State)
      → capfs_filesystem_resolve_path local content_cap copied root (some path) old s
        ≡ walk_path local content_cap copied root path old s
  unfolding capfs_filesystem_resolve_path walk_path
  resolve_path-walk_path true root path old s =
      ap
        (λ found.
          (if is_root_path path
              then resolve_one (local 0) (content_cap 0) root path old
              else (found >>= λ r. pure (pos 0, r)))
            s)
        (scan-walk path [] 0 root
          ∙ ap (λ pieces. walk local content_cap 0 root (nonempty pieces)) (join-none (split path)))
  resolve_path-walk_path false root path old s = refl
