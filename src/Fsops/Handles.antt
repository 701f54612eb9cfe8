-- ===== src/Fsops/Handles.antt =====
-- The life of a handle, over any file system: `open`, `opendir`, `release` and `releasedir` of
-- src/fsops.
use capfs.Base.{ℕ, suc, ◌≡◌, ◌≢◌, refl, sym, ap, ◌∙◌, ◌⊎◌, inl, inr, false, not}
use capfs.Base.{Option, none, some, List, [], ◌∷◌, ℤ, pos, neg, is_nonzero, ◌==◌, arith, Bool-cases}
use capfs.Machine.{State, Run, ok, aborted, exited, out_of_fuel, M}
use capfs.Machine.Post.{Returns, returns, Returns-bind, Returns-else}
use capfs.Machine.Post.{Leads, ends, aborts, exits, cut_off, Leads-bind, Leads-if}
use capfs.Filesystem.{MetaData}
use capfs.Filetype.{filetype_file}
use capfs.Handle.{
  Handle, Heap, put, unless_live, offered, free, cap_fs_handle_alloc, cap_fs_handle_free,
}
use capfs.Layer.{Layer}
use capfs.Fsops.{resolved, allocate, path_given, is_directory, capfs_op_open, capfs_op_opendir}
use capfs.Fsops.Session.{capfs_op_release, capfs_op_releasedir}

-- A run of unknown outcome.
pub Leads-any : {A : Type 0} (r : Run A) → Leads (λ _ _. Unit {0}) r
Leads-any (ok a s) = ends tt
Leads-any aborted = aborts
Leads-any (exited code) = exits
Leads-any out_of_fuel = cut_off

-- What holds of the three ways on from a path holds of the whole.
module _ (layer : Layer) (cap : ℕ) (md : MetaData) where
  pub resolved-Leads :
      {A : Type 0} {P : A → State → Type 0} (path : Option (List ℕ)) (found : ℕ → MetaData → M A)
      (no_path no_metadata : M A) (s : State)
      → ((file : ℕ) (meta : MetaData) (t : State) → Leads P (found file meta t))
      → ((t : State) → Leads P (no_path t))
      → ((t : State) → Leads P (no_metadata t))
      → Leads P (resolved layer cap md path found no_path no_metadata s)
  unfolding resolved
  resolved-Leads path found no_path no_metadata s on_found on_no_path on_no_metadata =
      Leads-bind (Leads-any (layer.resolve_path s.root_capability path cap s)) λ r t _.
        Leads-if (is_nonzero r.0) _ _ (λ _. on_no_path t)
          λ _.
            Leads-if (is_nonzero ((layer.get_metadata r.1 md).0)) _ _ (λ _. on_no_metadata t)
              λ _. on_found _ _ t

pub path_given-Leads :
    {A : Type 0} {P : A → State → Type 0} (path : Option (List ℕ)) (m : M A) (s : State)
    → Leads P (m s)
    → Leads P (path_given path m s)
unfolding path_given
path_given-Leads none m s h = aborts
path_given-Leads (some path) m s h = h

-- What `open` and `opendir` leave of the heap: on success one handle more, which `after` describes;
-- on an error every handle as it was.
abbrev pub Outcome : (ℕ → Heap → Type 0) → Heap → ℕ → ℤ × ℕ × Heap → Type 0
Outcome after heap fh (status, fh', heap') =
    (status ≡ pos 0) × after fh' heap'
    ⊎ (status ≢ pos 0) × (fh' ≡ fh) × ((i : ℕ) → heap'.live i ≡ heap.live i)

-- The new handle is live, and is taken off again by `releasedir`, which gives 0 and restores all handles.
abbrev pub Freed : Heap → ℕ → Heap → Type 0
Freed heap fh' heap' =
    (heap'.live fh' ≢ none)
    × ((t : State)
        → Returns (λ r _. (r.0 ≡ pos 0) × ((i : ℕ) → r.1.live i ≡ heap.live i))
            (capfs_op_releasedir heap' (some fh') t))

-- The new handle is live, and stays so after `release`, which reports an error.
abbrev pub Leaked : ℕ → Heap → Type 0
Leaked fh' heap' =
    (((capfs_op_release heap' (some fh')).1).live fh' ≢ none)
    × ((capfs_op_release heap' (some fh')).0 ≢ pos 0)

put-same : (live : ℕ → Option Handle) (a : ℕ) (h : Option Handle) → put live a h a ≡ h
unfolding put
put-same live a h = ground arith

-- Three stores at one address, the last of what was there.
put_back :
    (live : ℕ → Option Handle) (a : ℕ) (g h : Option Handle) (i : ℕ)
    → live a ≡ none
    → put (put (put live a g) a h) a none i ≡ live i
unfolding put
put_back live a g h i e = elim (Bool-cases (i == a)) [
  | inl same ↦ rw same (sym (ap live (ground arith) ∙ e))
  | inr other ↦ rw other refl
]

-- The handles after `calloc` gave an address.
abbrev zeroed : Heap → ℕ → ℕ → Option Handle
zeroed heap a = put heap.live a (some (record { type = 0; size = 0; cap = 0; perms = 0 }))

-- An address that `calloc` gives is not live.
pub offered-fresh :
    (heap : Heap) (offers : List ℕ)
    → (offered heap offers == 0) ≡ false
    → heap.live (offered heap offers) ≡ none
offered-fresh heap [] given = cc
offered-fresh heap (a ∷ offers) given = by_live (heap.live a) refl given
  where
    by_live :
        (o : Option Handle)
        → heap.live a ≡ o
        → (unless_live a o == 0) ≡ false
        → heap.live (unless_live a o) ≡ none
    by_live none e given = e
    by_live (some h) e given = cc

free-Returns :
    (a : ℕ) (heap : Heap) (h : Handle) (t : State)
    → (a == 0) ≡ false
    → heap.live a ≡ some h
    → Returns
        (λ left _. (i : ℕ) → left.live i ≡ put heap.live a none i)
        (cap_fs_handle_free a heap t)
unfolding cap_fs_handle_free free
free-Returns a heap h t given live = rw (given, live) (returns λ i. refl)

pub some_is : {h : Handle} {o : Option Handle} → o ≡ some h → o ≢ none
some_is e p = cc

allocate-Freed :
    (heap : Heap) (file : ℕ) (meta : MetaData) (fh : ℕ)
    → Outcome (Freed heap) heap fh (allocate heap file meta fh)
unfolding allocate cap_fs_handle_alloc capfs_op_releasedir
allocate-Freed heap file meta fh =
    let a = offered heap heap.offers in
    elim (Bool-cases (a == 0)) [
      | inl e ↦ rw e (inr ((λ p. grind arith), refl, λ i. refl))
      | inr e ↦
          rw (e, e)
            (inl (
              refl,
              (
                some_is (put-same (zeroed heap a) a _),
                λ t. Returns-else (a == 0) _ _ e (
                    Returns-bind (free-Returns a _ _ t e (put-same (zeroed heap a) a _))
                      λ left u freed. returns (
                        refl,
                        λ i.
                            freed i ∙ put_back heap.live a _ _ i (offered-fresh heap heap.offers e),
                      )),
              ),
            ))
    ]

allocate-Leaked :
    (heap : Heap) (file : ℕ) (meta : MetaData) (fh : ℕ)
    → Outcome Leaked heap fh (allocate heap file meta fh)
unfolding allocate cap_fs_handle_alloc capfs_op_release
allocate-Leaked heap file meta fh =
    let a = offered heap heap.offers in
    elim (Bool-cases (a == 0)) [
      | inl e ↦ rw e (inr ((λ p. grind arith), refl, λ i. refl))
      | inr e ↦ rw (e, e) (inl (refl, (some_is (put-same (zeroed heap a) a _), λ p. grind arith)))
    ]

module _ (layer : Layer) (cap : ℕ) (md : MetaData) (heap : Heap) where
  refused_with :
      (after : ℕ → Heap → Type 0) (fh n : ℕ) {t : State}
      → Leads (λ r _. Outcome after heap fh r) (ok (neg (suc n), fh, heap) t)
  refused_with after fh n = ends (inr ((λ p. grind arith), refl, λ i. refl))

  -- Over any file system, and whatever address `calloc` finds, `capfs_op_opendir`, if it returns,
  -- either gives 0 and a live handle, which `releasedir` takes off, returning 0, so that every
  -- handle is as before, or an error with `fi->fh` and every handle as before.
  pub opendir-Leads :
      (path : Option (List ℕ)) (fh : ℕ) (s : State)
      → Leads (λ r _. Outcome (Freed heap) heap fh r) (capfs_op_opendir layer cap md heap path fh s)
  unfolding capfs_op_opendir
  opendir-Leads path fh s = path_given-Leads path _ s (
      resolved-Leads layer cap md path _ _ _ s
        (λ file meta t.
          Leads-if (is_directory meta.type) _ _ (λ _. ends (allocate-Freed heap file meta fh))
            (λ _. refused_with _ fh 21))
        (λ t. refused_with _ fh 21) (λ t. refused_with _ fh 1))

  -- Over any file system, and whatever address `calloc` finds, `capfs_op_open`, if it returns,
  -- either gives 0 and a live handle that is still live after `release`, which reports an error,
  -- or an error with `fi->fh` and every handle as before.
  pub open-Leads :
      (path : Option (List ℕ)) (fh : ℕ) (s : State)
      → Leads (λ r _. Outcome Leaked heap fh r) (capfs_op_open layer cap md heap path fh s)
  unfolding capfs_op_open
  open-Leads path fh s = path_given-Leads path _ s (
      resolved-Leads layer cap md path _ _ _ s
        (λ file meta t.
          Leads-if (not (meta.type == filetype_file)) _ _ (λ _. refused_with _ fh 21)
            (λ _. ends (allocate-Leaked heap file meta fh)))
        (λ t. refused_with _ fh 21) (λ t. refused_with _ fh 1))
