-- ===== src/Backend/Answered.antt =====
-- When src/backends/files.c answers every request of a sequence.
use capfs.Base.{
  ℕ, suc, ◌+◌, ◌/◌, ◌≡◌, refl, ap, ◌∙◌, Bool, true, false, not, List, [], ◌∷◌, ℤ, length, leb,
  is_negative, if◌then◌else◌,
}
use capfs.Machine.{State, Run}
use capfs.Machine.Post.{Returns, returns}
use capfs.Capability.{perm_read, perm_write, permits, capref_to_capability}
use capfs.Metadata.Decided.{can_mark}
use capfs.Backend.Settled.{Holds}
use capfs.Backend.Memory.{
  Request, read, write, zero, get_cap, put_cap, perform_all, Effect, done, abort, specify,
}
use capfs.Backend.Memory.{Effects, replies, prepend, after, specify_all, AreAdmissible}
use capfs.Backend.Refined.{AllRefine, all_refine, perform_all-Refines}

-- The validity bits of what is written can be marked.
abbrev pub IsMarkable : Request → Type 0
IsMarkable (write cap offset wbuf bytes) =
    let at = (capref_to_capability cap).base + offset in
    can_mark (at / 8) ((at + bytes + 7) / 8) ≡ true
IsMarkable (put_cap cap offset newcap) =
    let at = (capref_to_capability cap).base + offset in can_mark (at / 8) ((at + 7) / 8) ≡ true
IsMarkable q = Unit {0}

abbrev pub AreMarkable : List Request → Type 0
AreMarkable [] = Unit {0}
AreMarkable (q ∷ qs) = IsMarkable q × AreMarkable qs

-- An effect that is a reply.
data Replies : Effect → Type 0 where
  reply : {status : ℤ} {buffer : List ℕ} {f : ℕ → ℕ} → Replies (done status buffer f)

Replies-if : (b : Bool) {e e' : Effect} → Replies e → Replies e' → Replies (if b then e else e')
Replies-if true p q = p
Replies-if false p q = q

Replies-then :
    (b : Bool) {e : Effect} (e' : Effect) → b ≡ true → Replies e → Replies (if b then e else e')
Replies-then true e' marked p = p
Replies-then false e' marked p = cc

specify-Replies : (q : Request) (f : ℕ → ℕ) → IsMarkable q → Replies (specify q f)
unfolding specify
specify-Replies (read cap offset rbuf bytes) f m =
    let c = capref_to_capability cap in
    Replies-if (not (permits c perm_read)) reply
      (Replies-if (is_negative offset) reply (Replies-if (leb c.size (offset + bytes)) reply reply))
specify-Replies (write cap offset wbuf bytes) f m =
    let c = capref_to_capability cap in
    Replies-if (not (permits c perm_write)) reply (
      Replies-if (is_negative offset) reply
        (Replies-if (leb c.size (offset + bytes)) reply (Replies-then _ abort m reply)))
specify-Replies (zero cap) f m =
    Replies-if (not (permits (capref_to_capability cap) perm_write)) reply reply
specify-Replies (get_cap cap offset old) f m =
    let c = capref_to_capability cap in
    Replies-if (not (permits c perm_read)) reply (Replies-if (leb c.size (offset + 8)) reply reply)
specify-Replies (put_cap cap offset newcap) f m =
    let c = capref_to_capability cap in
    Replies-if (not (permits c perm_write)) reply
      (Replies-if (leb c.size (offset + 8)) reply (Replies-then _ abort m reply))

data AllReplied (n : ℕ) : Effects → Type 0 where
  all_replied : {rs : List (ℤ × List ℕ)} {f : ℕ → ℕ} → length rs ≡ n → AllReplied n (replies rs f)

AllReplied-after :
    {n : ℕ} {e : Effect} (next : (ℕ → ℕ) → Effects)
    → Replies e
    → ((f : ℕ → ℕ) → AllReplied n (next f))
    → AllReplied (suc n) (after e next)
AllReplied-after {n} next (reply {status} {buffer} {f}) rest = with_first (rest f)
  where
    with_first : {e : Effects} → AllReplied n e → AllReplied (suc n) (prepend (status, buffer) e)
    with_first (all_replied same) = all_replied (ap suc same)

specify_all-AllReplied :
    (qs : List Request) (f : ℕ → ℕ) → AreMarkable qs → AllReplied (length qs) (specify_all qs f)
unfolding specify_all
specify_all-AllReplied [] f m = all_replied refl
specify_all-AllReplied (q ∷ qs) f (now, later) =
    AllReplied-after (specify_all qs) (specify-Replies q f now)
      λ g. specify_all-AllReplied qs g later

answered :
    {n : ℕ} {e : Effects} {r : Run (List (ℤ × List ℕ))}
    → AllReplied n e
    → AllRefine e r
    → Returns (λ rs _. length rs ≡ n) r
answered (all_replied same) (all_refine e h) = returns (ap length e ∙ same)

-- On a ready file (of the expected size, on which every call works), every request of an
-- admissible sequence of reads, writes, zeroings, loads and stores of capabilities is answered,
-- with one reply each, if the validity bits of each range that is written, and of each slot that
-- is stored into, can be marked (`can_mark`).
pub perform_all-Returns :
    (qs : List Request) (memory : ℕ → ℕ) (s : State)
    → Holds memory s
    → AreAdmissible qs
    → AreMarkable qs
    → Returns (λ rs _. length rs ≡ length qs) (perform_all qs s)
perform_all-Returns qs memory s h a m =
    answered (specify_all-AllReplied qs memory m) (perform_all-Refines qs memory s h a)
