-- ===== src/Capstore/Access.antt =====
-- Raw access to the data region: what it leaves alone, and what it does when every call works.
use capfs.Base.{ℕ, ◌+◌, ◌≤◌, ◌<◌, ◌≡◌, refl, sym, subst, ap, ap₂, ◌∙◌, Bool, true, false, not, List}
use capfs.Base.{arith, length, length-take, take, leb, ◌==◌, ℤ, pos}
use capfs.Base.{add64, if◌then◌else◌}
use capfs.Machine.{ok, State, pure, ferror, ◌>>=◌, slice, patch, overlay}
use capfs.Machine.Post.{Returns, returns, Returns-bind, Returns-else, Leads, ends}
use capfs.Machine.Post.{Leads-bind, Leads-if}
use capfs.Machine.Frame.{Frame, Frame-refl, Frame-trans, Frame-widen, Frame-untouched}
use capfs.Machine.Frame.{fseek-Frame, fread-Frame, fwrite-Frame, Frame-bytes}
use capfs.Machine.Healthy.{Healthy, Healthy-Frame, fseek-Returns, fread-Returns, fwrite-Returns}
use capfs.Metadata.{data_offset, files_size}
use capfs.Capstore.{capstore_addr2offset, capstore_rawread, capstore_rawwrite}

-- A read changes no byte.
pub rawread-Frame :
    (offset : ℕ) (rbuf : List ℕ) (bytes : ℕ) (s : State)
    → Leads (λ _ t. Frame 0 0 s t) (capstore_rawread offset rbuf bytes s)
unfolding capstore_rawread
rawread-Frame offset rbuf bytes s =
    Leads-if (not s.file.opened) _ _ (λ _. ends (Frame-refl _ _ s))
      λ _.
        Leads-if (leb s.data_size (add64 offset bytes)) _ _ (λ _. ends (Frame-refl _ _ s))
          λ _. Leads-bind (fseek-Frame 0 0 (capstore_addr2offset offset) s) λ failed t (same, _).
            Leads-if failed _ _ (λ _. ends same)
              λ _. Leads-bind (fread-Frame 0 0 bytes t) λ got u read.
                Leads-if (length got == 1) _ _ (λ _. ends (Frame-trans same read))
                  (λ _. ends (Frame-trans same read))

-- A write changes the bytes that it is asked to write, at most.
pub rawwrite-Frame :
    (offset : ℕ) (wbuf : List ℕ) (bytes : ℕ) (s : State)
    → let a = capstore_addr2offset offset in
      Leads (λ _ t. Frame a (a + bytes) s t) (capstore_rawwrite offset wbuf bytes s)
unfolding capstore_rawwrite
rawwrite-Frame offset wbuf bytes s =
    Leads-if (not s.file.opened) _ _ (λ _. ends (Frame-refl _ _ s))
      λ _.
        Leads-if (leb s.data_size (add64 offset bytes)) _ _ (λ _. ends (Frame-refl _ _ s))
          λ _.
            Leads-bind (fseek-Frame _ _ (capstore_addr2offset offset) s) λ failed t (same, there).
              Leads-if failed _ _ (λ _. ends same)
                λ worked.
                  Leads-bind
                    (fwrite-Frame (capstore_addr2offset offset)
                      (capstore_addr2offset offset + bytes) (take bytes wbuf) t
                      (omega (arith, there worked))
                      (omega (arith, there worked, length-take bytes wbuf)))
                    λ n u wrote.
                      Leads-if (n == 1) _ _ (λ _. ends (Frame-trans same wrote))
                        (λ _. ends (Frame-trans same wrote))

-- Without an error the status is 0, whether one byte was moved or not.
pub no_error :
    {A : Type 0} {P : A → State → Type 0} (b : Bool) (f : ℤ → A) {u : State}
    → Healthy u
    → P (f (pos 0)) u
    → Returns P ((if b then pure (f (pos 0)) else (do e ← ferror; pure (f (pos e)))) u)
no_error true f h p = returns p
no_error {P} false f {u} h p =
    subst (λ e. Returns P (ok (f (pos (if e then 1 else 0))) u)) (sym h.error) (returns p)

module _ {s : State} (h : Healthy s) (offset bytes : ℕ) (inside : offset + bytes < s.data_size)
    (small : s.data_size ≤ files_size) where
  pub rawread-Returns :
      (rbuf : List ℕ)
      → offset + data_offset + bytes ≤ s.file.size
      → Returns
          (λ (status, buffer) t.
            (status ≡ pos 0)
            × (buffer ≡ overlay (slice s.file.bytes (offset + data_offset) bytes) rbuf)
            × Frame 0 0 s t)
          (capstore_rawread offset rbuf bytes s)
  unfolding capstore_rawread
  rawread-Returns rbuf fits = Returns-else (not s.file.opened) _ _ (ground (arith, h.opened)) (
      Returns-else (leb s.data_size (add64 offset bytes)) _ _ (ground arith) (
        Returns-bind (fseek-Returns h (capstore_addr2offset offset) (omega arith))
          λ failed t (worked, same, at). Returns-else failed _ _ worked (
            Returns-bind
              (fread-Returns (Healthy-Frame same h) bytes (omega (arith, same.size (omega arith))))
              λ got u (read, then_same).
                no_error (length got == 1) (λ e. (e, overlay got rbuf))
                  (Healthy-Frame then_same (Healthy-Frame same h))
                  (
                    refl,
                    ap (λ xs. overlay xs rbuf)
                        (read ∙ ap₂ (λ f p. slice f p bytes) (Frame-bytes same) (at ∙ omega arith)),
                    Frame-trans same then_same,
                  ))))

  pub rawwrite-Returns :
      (wbuf : List ℕ)
      → bytes ≤ length wbuf
      → Returns
          (λ status t.
            (status ≡ pos 0)
            × Frame (offset + data_offset) (offset + data_offset + bytes) s t
            × (t.file.bytes ≡ patch s.file.bytes (offset + data_offset) (take bytes wbuf)))
          (capstore_rawwrite offset wbuf bytes s)
  unfolding capstore_rawwrite
  rawwrite-Returns wbuf long = Returns-else (not s.file.opened) _ _ (ground (arith, h.opened)) (
      Returns-else (leb s.data_size (add64 offset bytes)) _ _ (ground arith) (
        Returns-bind (fseek-Returns h (capstore_addr2offset offset) (omega arith))
          λ failed t (worked, same, at). Returns-else failed _ _ worked (
            Returns-bind (fwrite-Returns (Healthy-Frame same h) (take bytes wbuf))
              λ n u (all, wrote, put).
                no_error (n == 1) (λ e. e) (Healthy-Frame wrote (Healthy-Frame same h))
                  (
                    refl,
                    Frame-trans (Frame-untouched same)
                        (Frame-widen (omega arith) (omega (arith, length-take bytes wbuf)) wrote),
                    put
                        ∙ ap₂ (λ f p. patch f p (take bytes wbuf)) (Frame-bytes same)
                            (at ∙ omega arith),
                  ))))
