-- ===== src/Backend/Isolated.antt =====
-- Two runs of src/backends/files.c on files that differ outside the range of the capabilities in use.
use capfs.Base.{
  ℕ, ◌+◌, ◌≤◌, ◌<◌, ◌≡◌, refl, sym, ap, ap₂, ◌∙◌, Bool, true, false, not, List, [], ◌∷◌, ℤ, arith,
  leb, is_negative, if◌then◌else◌,
}
use capfs.Machine.{State, Run, ok, aborted, patch, overlay}
use capfs.Machine.Bytes.{slice_ext}
use capfs.Capability.{perm_read, perm_write, permits, capref_to_capability}
use capfs.Backend.Confined.{data_byte}
use capfs.Backend.ReadWrite.{Ready}
use capfs.Backend.Memory.{
  Request, read, write, zero, get_cap, put_cap, perform_all, Effect, done, abort, zeroed, specify,
}
use capfs.Backend.Memory.{Effects, replies, stopped, prepend, after, specify_all, AreAdmissible}
use capfs.Backend.Refined.{AllRefine, all_refine, all_abort, perform_all-Refines}

-- Two memories that agree from `lo` up to `hi`.
abbrev pub Agree : ℕ → ℕ → (ℕ → ℕ) → (ℕ → ℕ) → Type 0
Agree lo hi f g = (i : ℕ) → lo ≤ i → i < hi → f i ≡ g i

-- The capability of the request stands for a range inside.
abbrev pub IsWithin : ℕ → ℕ → ℕ → Type 0
IsWithin lo hi cap = let c = capref_to_capability cap in (lo ≤ c.base) × (c.base + c.size ≤ hi)

abbrev pub cap_of : Request → ℕ
cap_of (read cap offset rbuf bytes) = cap
cap_of (write cap offset wbuf bytes) = cap
cap_of (zero cap) = cap
cap_of (get_cap cap offset old) = cap
cap_of (put_cap cap offset newcap) = cap

abbrev pub AreWithin : ℕ → ℕ → List Request → Type 0
AreWithin lo hi [] = Unit {0}
AreWithin lo hi (q ∷ qs) = IsWithin lo hi (cap_of q) × AreWithin lo hi qs

module _ (lo hi : ℕ) where
  -- The same reply, and memories that agree.
  data Alike : Effect → Effect → Type 0 where
    alike :
        {status : ℤ} {buffer buffer' : List ℕ} {f g : ℕ → ℕ}
        → buffer ≡ buffer'
        → Agree lo hi f g
        → Alike (done status buffer f) (done status buffer' g)
    both_abort : Alike abort abort

  Alike-if :
      (b : Bool) {e e' d d' : Effect}
      → Alike e d
      → (b ≡ false → Alike e' d')
      → Alike (if b then e else e') (if b then d else d')
  Alike-if true p q = p
  Alike-if false p q = q refl

  -- Where the write goes ahead.
  Alike-then :
      (b : Bool) {e d : Effect}
      → Alike e d
      → Alike (if b then e else abort) (if b then d else abort)
  Alike-then true p = p
  Alike-then false p = both_abort

  patch-Agree :
      (f g : ℕ → ℕ) (p : ℕ) (xs : List ℕ)
      → Agree lo hi f g
      → Agree lo hi (patch f p xs) (patch g p xs)
  unfolding patch
  patch-Agree f g p xs same i below above = ground (arith, same i below above)

  zeroed-Agree :
      (f g : ℕ → ℕ) (from to : ℕ)
      → Agree lo hi f g
      → Agree lo hi (zeroed f from to) (zeroed g from to)
  unfolding zeroed
  zeroed-Agree f g from to same i below above = ground (arith, same i below above)

  specify-Alike :
      (q : Request) (f g : ℕ → ℕ)
      → Agree lo hi f g
      → IsWithin lo hi (cap_of q)
      → Alike (specify q f) (specify q g)
  unfolding specify
  specify-Alike (read cap offset rbuf bytes) f g same (above, below) =
      let c = capref_to_capability cap in
      Alike-if (not (permits c perm_read)) (alike refl same) λ _.
        Alike-if (is_negative offset) (alike refl same) λ _.
          Alike-if (leb c.size (offset + bytes)) (alike refl same) λ inside.
            alike
              (ap (λ xs. overlay xs rbuf)
                (slice_ext f g (c.base + offset) bytes
                  λ i from to. same i (omega arith) (ground arith)))
              same
  specify-Alike (write cap offset wbuf bytes) f g same within =
      let c = capref_to_capability cap in
      Alike-if (not (permits c perm_write)) (alike refl same) λ _.
        Alike-if (is_negative offset) (alike refl same) λ _.
          Alike-if (leb c.size (offset + bytes)) (alike refl same)
            λ _. Alike-then _ (alike refl (patch-Agree f g _ _ same))
  specify-Alike (zero cap) f g same within =
      let c = capref_to_capability cap in
      Alike-if (not (permits c perm_write)) (alike refl same)
        λ _. alike refl (zeroed-Agree f g _ _ same)
  specify-Alike (get_cap cap offset old) f g same within =
      let c = capref_to_capability cap in
      Alike-if (not (permits c perm_read)) (alike refl same)
        λ _. Alike-if (leb c.size (offset + 8)) (alike refl same) λ _. alike refl same
  specify-Alike (put_cap cap offset newcap) f g same within =
      let c = capref_to_capability cap in
      Alike-if (not (permits c perm_write)) (alike refl same) λ _.
        Alike-if (leb c.size (offset + 8)) (alike refl same)
          λ _. Alike-then _ (alike refl (patch-Agree f g _ _ same))

  data AllAlike : Effects → Effects → Type 0 where
    all_alike :
        {rs rs' : List (ℤ × List ℕ)} {f g : ℕ → ℕ}
        → rs ≡ rs'
        → Agree lo hi f g
        → AllAlike (replies rs f) (replies rs' g)
    both_stop : AllAlike stopped stopped

  AllAlike-prepend :
      {r r' : ℤ × List ℕ} {e e' : Effects}
      → r ≡ r'
      → AllAlike e e'
      → AllAlike (prepend r e) (prepend r' e')
  AllAlike-prepend same (all_alike e agree) = all_alike (ap₂ ◌∷◌ same e) agree
  AllAlike-prepend same both_stop = both_stop

  AllAlike-after :
      {e e' : Effect} (next : (ℕ → ℕ) → Effects)
      → Alike e e'
      → ((f g : ℕ → ℕ) → Agree lo hi f g → AllAlike (next f) (next g))
      → AllAlike (after e next) (after e' next)
  AllAlike-after next (alike {status} {f} {g} e agree) rest =
      AllAlike-prepend (ap (λ b. (status, b)) e) (rest f g agree)
  AllAlike-after next both_abort rest = both_stop

  specify_all-AllAlike :
      (qs : List Request) (f g : ℕ → ℕ)
      → Agree lo hi f g
      → AreWithin lo hi qs
      → AllAlike (specify_all qs f) (specify_all qs g)
  unfolding specify_all
  specify_all-AllAlike [] f g same within = all_alike refl same
  specify_all-AllAlike (q ∷ qs) f g same (now, later) =
      AllAlike-after (specify_all qs) (specify-Alike q f g same now)
        λ f' g' same'. specify_all-AllAlike qs f' g' same' later

  -- Both runs end with the same replies and data that agree in the range, or both abort.
  pub data Indistinct : Run (List (ℤ × List ℕ)) → Run (List (ℤ × List ℕ)) → Type 0 where
    indistinct :
        {rs rs' : List (ℤ × List ℕ)} {s t : State}
        → rs ≡ rs'
        → Agree lo hi (data_byte s) (data_byte t)
        → Indistinct (ok rs s) (ok rs' t)
    both_aborted : Indistinct aborted aborted

  refined :
      {e e' : Effects} {r r' : Run (List (ℤ × List ℕ))}
      → AllAlike e e'
      → AllRefine e r
      → AllRefine e' r'
      → Indistinct r r'
  refined (all_alike e agree) (all_refine p h) (all_refine q k) =
      indistinct (p ∙ e ∙ sym q) λ i from to. h.holds i ∙ agree i from to ∙ sym (k.holds i)
  refined both_stop all_abort all_abort = both_aborted

  -- If the capabilities of a sequence of requests all stand for ranges between lo and hi, then on
  -- two ready files whose data agree from lo up to hi, the runs of the sequence either both end,
  -- with the same replies and data that still agree there, or both abort: what is stored elsewhere
  -- is not observed. The requests are those of `perform_all-Refines`, with the same conditions.
  pub perform_all-Indistinct :
      (qs : List Request) (s t : State)
      → Ready s
      → Ready t
      → Agree lo hi (data_byte s) (data_byte t)
      → AreAdmissible qs
      → AreWithin lo hi qs
      → Indistinct (perform_all qs s) (perform_all qs t)
  perform_all-Indistinct qs s t v w same a within =
      refined (specify_all-AllAlike qs (data_byte s) (data_byte t) same within)
        (perform_all-Refines qs (data_byte s) s (record { ready = v; holds = λ i. refl }) a)
        (perform_all-Refines qs (data_byte t) t (record { ready = w; holds = λ i. refl }) a)
