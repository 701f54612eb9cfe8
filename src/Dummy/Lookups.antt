-- ===== src/Dummy/Lookups.antt =====
-- `capfs_backend_resolve_path` of src/backends/dummy.c, lines 218 to 244.
use capfs.Base.{ℕ, zero, suc, ◌+◌, ◌≡◌, ◌≢◌, refl, sym, ap, ap₂, ◌∙◌, inl, inr, true, false}
use capfs.Base.{
  Option, none, some, List, [], ◌∷◌, ℤ, pos, neg, enoent, ◌==◌, if◌then◌else◌, arith, Bool-cases,
}
use capfs.Dummy.{Entry, capstore, entry_at, same_text, find_entry, dummy_resolve_path}

same_text_sound : (a b : List ℕ) → same_text a b ≡ true → a ≡ b
unfolding same_text
same_text_sound [] [] e = refl
same_text_sound [] (y ∷ ys) e = cc
same_text_sound (x ∷ xs) [] e = cc
same_text_sound (x ∷ xs) (y ∷ ys) e = elim (Bool-cases (x == y)) [
  | inl same ↦
      ap₂ ◌∷◌ (ground arith)
        (same_text_sound xs ys (sym (ap (λ b. if b then same_text xs ys else false) same) ∙ e))
  | inr other ↦
      (let no' : false ≡ true = sym (ap (λ b. if b then same_text xs ys else false) other) ∙ e in
        cc)
]

same_text_refl : (a : List ℕ) → same_text a a ≡ true
unfolding same_text
same_text_refl [] = refl
same_text_refl (x ∷ xs) = ground (arith, same_text_refl xs)

-- The index of an entry with that name, counted from `from`, or none has it.
data Found (path : List ℕ) (es : List Entry) (from : ℕ) : Option ℕ → Type 0 where
  at :
      (i : ℕ) (e : Entry) {n : ℕ}
      → entry_at es i ≡ some e
      → e.name ≡ path
      → n ≡ from + i
      → Found path es from (some n)
  nowhere : ((i : ℕ) (e : Entry) → entry_at es i ≡ some e → e.name ≢ path) → Found path es from none

some-injective : {e e' : Entry} → Option.some e ≡ some e' → e ≡ e'
some-injective {e} p = ap (λ o. elim o [ none ↦ e | some x ↦ x ]) p

-- An entry with another name in front.
behind :
    (path : List ℕ) (e : Entry) (es : List Entry) (from : ℕ) {o : Option ℕ}
    → same_text e.name path ≡ false
    → Found path es (from + 1) o
    → Found path (e ∷ es) from o
unfolding entry_at
behind path e es from other (at i e' there named n) = at (suc i) e' there named (omega arith)
behind path e es from other (nowhere none_has) = nowhere absent
  where
    absent : (i : ℕ) (e' : Entry) → entry_at (e ∷ es) i ≡ some e' → e'.name ≢ path
    absent zero e' here named =
        let same : same_text e.name path ≡ true =
          ap (λ x. same_text x.name path) (some-injective here)
          ∙ ap (λ t. same_text t path) named
          ∙ same_text_refl path in
        cc
    absent (suc i) e' there named = none_has i e' there named

find_entry-Found :
    (es : List Entry) (path : List ℕ) (from : ℕ) → Found path es from (find_entry es path from)
unfolding find_entry entry_at
find_entry-Found [] path from = nowhere λ i e there named. cc
find_entry-Found (e ∷ es) path from = elim (Bool-cases (same_text e.name path)) [
  | inl same ↦ rw same (at 0 e refl (same_text_sound e.name path same) (omega arith))
  | inr other ↦ rw other (behind path e es from other (find_entry-Found es path (from + 1)))
]

-- Success with the index of an entry that has that name, or an error where none has it.
pub data Resolved (path : List ℕ) (old : ℕ) : ℤ × ℕ → Type 0 where
  found :
      (i : ℕ) (e : Entry)
      → entry_at capstore i ≡ some e
      → e.name ≡ path
      → Resolved path old (pos 0, i)
  missing :
      ((i : ℕ) (e : Entry) → entry_at capstore i ≡ some e → e.name ≢ path)
      → Resolved path old (neg enoent, old)

-- From the root, for every path, `capfs_backend_resolve_path` of the dummy backend returns either
-- 0 and the index of an entry of the table with that name, or -ENOENT, with the result as it was,
-- if no entry has that name.
pub dummy_resolve_path-Resolved :
    (path : List ℕ) (old : ℕ) → Resolved path old (dummy_resolve_path 0 path old)
unfolding dummy_resolve_path
dummy_resolve_path-Resolved path old =
    resolved (find_entry capstore path 0) (find_entry-Found capstore path 0)
  where
    resolved :
        (o : Option ℕ)
        → Found path capstore 0 o
        → Resolved path old
            (elim o as (λ _. ℤ × ℕ) [ some i ↦ (pos 0, i) | none ↦ (neg enoent, old) ])
    resolved (some n) (at i e there named same) =
        found n e (ap (entry_at capstore) (omega (arith, same)) ∙ there) named
    resolved none (nowhere none_has) = missing none_has
