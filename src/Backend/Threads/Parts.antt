-- ===== src/Backend/Threads/Parts.antt =====
-- The two parts of a read, and those of a write, of src/backends/files.c, one right after the other.
use capfs.Base.{
  ℕ, ◌≡◌, refl, sym, ap, ◌∙◌, true, false, Bool, not, Option, none, some, List, [], ℤ, neg, ltb,
  leb, is_nonzero, if◌then◌else◌, add64, is_negative,
}
use capfs.Machine.{State, Run, ok, aborted, exited, out_of_fuel, M, continue, pure, assert, fseek}
use capfs.Capability.{perm_read, perm_write, permits, capref_to_capability}
use capfs.Capstore.{capstore_addr2offset, capstore_rawread, capstore_rawwrite}
use capfs.Backend.{capfs_backend_read, capfs_backend_write, metadata_clear_valid_bits, as_long}
use capfs.Backend.Threads.{
  Job, rawread_seek, waiting, answered, seek_part, rawread_fetch, checked, fetch_part, after_seek,
  advance, rawwrite_seek, rawwrite_store, place_part, store_part, storing, after_place,
}

-- An answer that ends the read, or the rest of it.
abbrev pub finish : Job → Option (ℤ × List ℕ) → M (ℤ × List ℕ)
finish job none = fetch_part job
finish job (some r) = pure r

-- A test that both sides make.
same_test :
    {A B X : Type 0} (F : Run A → X) (G : Run B → X) (b : Bool) (m n : M A) (m' n' : M B)
    {s : State}
    → F (m s) ≡ G (m' s)
    → F (n s) ≡ G (n' s)
    → F ((if b then m else n) s) ≡ G ((if b then m' else n') s)
same_test F G true m n m' n' p q = p
same_test F G false m n m' n' p q = q

-- A run that both sides begin with.
pub same_start :
    {A B : Type 0} (r : Run A) (k l : A → M B)
    → ((a : A) (t : State) → k a t ≡ l a t)
    → continue r k ≡ continue r l
same_start (ok a t) k l same = same a t
same_start aborted k l same = refl
same_start (exited code) k l same = refl
same_start out_of_fuel k l same = refl

pub continue-continue :
    {A B C : Type 0} (r : Run A) (k : A → M B) (l : B → M C)
    → continue (continue r k) l ≡ continue r (λ a t. continue (k a t) l)
continue-continue (ok a t) k l = refl
continue-continue aborted k l = refl
continue-continue (exited code) k l = refl
continue-continue out_of_fuel k l = refl

rawread-parts :
    (job : Job) (at : ℕ) (s : State)
    → continue (capstore_rawread at job.buffer job.bytes s) (checked job)
      ≡ continue (rawread_seek job at s) (finish job)
unfolding capstore_rawread rawread_seek rawread_fetch fetch_part
rawread-parts job at s =
    let F = λ (r : Run (ℤ × List ℕ)). continue r (checked job) in
    let G = λ (r : Run (Option (ℤ × List ℕ))). continue r (finish job) in
    same_test F G (not s.file.opened) _ _ _ _ refl (
      same_test F G (leb s.data_size (add64 at job.bytes)) _ _ _ _ refl (
        continue-continue (fseek (capstore_addr2offset at) s) _ (checked job)
        ∙ same_start (fseek (capstore_addr2offset at) s) _ _
            (λ failed t. same_test F G failed _ _ _ _ refl refl)
        ∙ sym (continue-continue (fseek (capstore_addr2offset at) s) _ (finish job))))

-- The two parts are the read.
pub read-parts :
    (job : Job) (s : State)
    → capfs_backend_read job.cap job.offset job.buffer job.bytes s
      ≡ continue (seek_part job s) (finish job)
unfolding capfs_backend_read seek_part
read-parts job s =
    let c = capref_to_capability job.cap in
    let F = λ (r : Run (ℤ × List ℕ)). r in
    let G = λ (r : Run (Option (ℤ × List ℕ))). continue r (finish job) in
    same_test F G (not (permits c perm_read)) _ _ _ _ refl (
      same_test F G (is_negative job.offset) _ _ _ _ refl (
        same_test F G (leb c.size (add64 job.offset job.bytes)) _ _ _ _ refl (
          same_start (assert (ltb (add64 job.offset job.bytes) c.size) s) _ _
            (λ _ t. rawread-parts job (add64 c.base job.offset) t)
          ∙ sym (
              continue-continue (assert (ltb (add64 job.offset job.bytes) c.size) s) _
                (finish job)))))

after_seek-finish :
    (job : Job) (r : Option (ℤ × List ℕ)) (s : State)
    → advance (after_seek job r) s ≡ continue (finish job r s) (λ a. pure (answered a))
unfolding advance
after_seek-finish job none s = refl
after_seek-finish job (some a) s = refl

-- Two turns of a thread in a row are the read.
pub advance-advance :
    (job : Job) (s : State)
    → continue (advance (waiting job) s) advance
      ≡ continue
          (capfs_backend_read job.cap job.offset job.buffer job.bytes s)
          (λ a. pure (answered a))
unfolding advance
advance-advance job s =
    continue-continue (seek_part job s) _ advance
    ∙ same_start (seek_part job s) _ _ (after_seek-finish job)
    ∙ sym (continue-continue (seek_part job s) (finish job) _)
    ∙ ap (λ r. continue r λ a. pure (answered a)) (sym (read-parts job s))

abbrev finish_write : Job → Option ℤ → M ℤ
finish_write job none = store_part job
finish_write job (some status) = pure status

abbrev write_status : Job → ℤ → M ℤ
write_status job err = if is_nonzero err then pure (neg 1) else pure (as_long job.bytes)

rawwrite-parts :
    (job : Job) (at : ℕ) (s : State)
    → continue (capstore_rawwrite at job.buffer job.bytes s) (write_status job)
      ≡ continue (rawwrite_seek job at s) (finish_write job)
unfolding capstore_rawwrite rawwrite_seek rawwrite_store store_part
rawwrite-parts job at s =
    let F = λ (r : Run ℤ). continue r (write_status job) in
    let G = λ (r : Run (Option ℤ)). continue r (finish_write job) in
    same_test F G (not s.file.opened) _ _ _ _ refl (
      same_test F G (leb s.data_size (add64 at job.bytes)) _ _ _ _ refl (
        continue-continue (fseek (capstore_addr2offset at) s) _ (write_status job)
        ∙ same_start (fseek (capstore_addr2offset at) s) _ _
            (λ failed t. same_test F G failed _ _ _ _ refl refl)
        ∙ sym (continue-continue (fseek (capstore_addr2offset at) s) _ (finish_write job))))

-- The two parts are the write.
pub write-parts :
    (job : Job) (s : State)
    → capfs_backend_write job.cap job.offset job.buffer job.bytes s
      ≡ continue (place_part job s) (finish_write job)
unfolding capfs_backend_write place_part
write-parts job s =
    let c = capref_to_capability job.cap in
    let at = add64 c.base job.offset in
    let marked = metadata_clear_valid_bits at (add64 at job.bytes) in
    let inside = assert (ltb (add64 job.offset job.bytes) c.size) in
    let F = λ (r : Run ℤ). r in
    let G = λ (r : Run (Option ℤ)). continue r (finish_write job) in
    same_test F G (not (permits c perm_write)) _ _ _ _ refl (
      same_test F G (is_negative job.offset) _ _ _ _ refl (
        same_test F G (leb c.size (add64 job.offset job.bytes)) _ _ _ _ refl (
          same_start (marked s) _ _ (λ _ t.
            same_start (inside t) _ _ (λ _ u. rawwrite-parts job at u)
            ∙ sym (continue-continue (inside t) _ (finish_write job)))
          ∙ sym (continue-continue (marked s) _ (finish_write job)))))

after_place-finish :
    (job : Job) (r : Option ℤ) (s : State)
    → advance (after_place job r) s
      ≡ continue (finish_write job r s) (λ status. pure (answered (status, [])))
unfolding advance
after_place-finish job none s = refl
after_place-finish job (some status) s = refl

-- Two turns of a thread in a row are the write.
pub advance-storing :
    (job : Job) (s : State)
    → continue (advance (storing job) s) advance
      ≡ continue
          (capfs_backend_write job.cap job.offset job.buffer job.bytes s)
          (λ status. pure (answered (status, [])))
unfolding advance
advance-storing job s =
    continue-continue (place_part job s) _ advance
    ∙ same_start (place_part job s) _ _ (after_place-finish job)
    ∙ sym (continue-continue (place_part job s) (finish_write job) _)
    ∙ ap (λ r. continue r λ status. pure (answered (status, []))) (sym (write-parts job s))
