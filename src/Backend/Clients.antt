-- ===== src/Backend/Clients.antt =====
-- Clients of the file backend: sequences of operations through the capabilities that they hold.
use capfs.Base.{ℕ, ◌+◌, ◌≤◌, ◌<◌, ◌^◌, ◌≡◌, refl, ◌∙◌, inr, List, ℤ, arith, not, leb, ◌==◌}
use capfs.Base.{add64, is_nonzero}
use capfs.Machine.{State, ok}
use capfs.Machine.Post.{Leads, ends, Leads-bind, Leads-if, Leads-ok}
use capfs.Capability.{perm_read, permits, capref_to_capability}
use capfs.Metadata.Framed.{is_capability-Frame}
use capfs.Capstore.Access.{rawread-Frame}
use capfs.Backend.{capfs_backend_read, capfs_backend_write, capfs_backend_zero}
use capfs.Backend.{capfs_backend_get_cap, capfs_backend_put_cap}
use capfs.Backend.Confined.{
  Confined, data_byte, read-Confined, write-Confined, put_cap-Confined, zero-Confined,
}

-- One operation through the capability reference `cap` that returned.
pub data Step (cap : ℕ) (s t : State) : Type 0 where
  read :
      (offset : ℕ) (rbuf : List ℕ) (bytes : ℕ) {r : ℤ × List ℕ}
      → capfs_backend_read cap offset rbuf bytes s ≡ ok r t
      → Step cap s t
  write :
      (offset : ℕ) (wbuf : List ℕ) (bytes : ℕ) {r : ℤ}
      → bytes < 2 ^ 63
      → capfs_backend_write cap offset wbuf bytes s ≡ ok r t
      → Step cap s t
  zero : {r : ℤ} → capfs_backend_zero cap s ≡ ok r t → Step cap s t
  get_cap :
      (offset old : ℕ) {r : ℤ × ℕ} → capfs_backend_get_cap cap offset old s ≡ ok r t → Step cap s t
  put_cap :
      (offset newcap : ℕ) {r : ℤ}
      → offset < 2 ^ 63
      → capfs_backend_put_cap cap offset newcap s ≡ ok r t
      → Step cap s t

-- Any number of operations, each through a reference that `held` admits.
pub data Steps (held : ℕ → Type 0) (s : State) : State → Type 0 where
  start : Steps held s s
  step : {t u : State} (cap : ℕ) → Steps held s t → held cap → Step cap t u → Steps held s u

get_cap-Confined :
    (lo hi cap offset old : ℕ) (s : State)
    → Leads (λ _ t. Confined lo hi s t) (capfs_backend_get_cap cap offset old s)
unfolding capfs_backend_get_cap data_byte
get_cap-Confined lo hi cap offset old s =
    let c = capref_to_capability cap in
    Leads-if (not (permits c perm_read)) _ _ (λ _. ends λ i h. refl)
      λ _.
        Leads-if (leb c.size (add64 offset 8)) _ _ (λ _. ends λ i h. refl)
          λ _. Leads-bind (is_capability-Frame offset s) λ valid t same.
            let kept : Confined lo hi s t = λ i h. same.outside _ (inr (omega arith)) in
            Leads-if (valid == 0) _ _ (λ _. ends kept)
              λ _. Leads-bind (rawread-Frame (add64 c.base offset) _ 8 t) λ got u then_same.
                let kept' : Confined lo hi s u =
                  λ i h. then_same.outside _ (inr (omega arith)) ∙ kept i h in
                Leads-if (is_nonzero got.0) _ _ (λ _. ends kept') (λ _. ends kept')

Step-Confined :
    (cap : ℕ) {s t : State}
    → Step cap s t
    → let c = capref_to_capability cap in Confined c.base (c.base + c.size) s t
Step-Confined cap (read offset rbuf bytes e) =
    λ i h. Leads-ok (read-Confined cap offset rbuf bytes _) e i (inr (omega arith))
Step-Confined cap (write offset wbuf bytes small e) =
    Leads-ok (write-Confined cap offset wbuf bytes _ small) e
Step-Confined cap (zero e) = Leads-ok (zero-Confined cap _) e
Step-Confined cap (get_cap offset old e) = Leads-ok (get_cap-Confined _ _ cap offset old _) e
Step-Confined cap (put_cap offset newcap small e) =
    Leads-ok (put_cap-Confined cap offset newcap _ small) e

-- If the ranges of all capabilities that are held lie between lo and hi, then no sequence of
-- operations that returned (read, write of fewer than 2^63 bytes, zero, get_cap, put_cap at an
-- offset below 2^63), each through a capability that is held, changes a byte of the data region
-- outside that range.
pub Steps-Confined :
    (held : ℕ → Type 0) (lo hi : ℕ)
    → ((cap : ℕ)
        → held cap
        → let c = capref_to_capability cap in (lo ≤ c.base) × (c.base + c.size ≤ hi))
    → {s t : State} → Steps held s t
    → Confined lo hi s t
Steps-Confined held lo hi within start i h = refl
Steps-Confined held lo hi within (step cap before have now) i h =
    let (above, below) = within cap have in
    Step-Confined cap now i (ground arith) ∙ Steps-Confined held lo hi within before i h
