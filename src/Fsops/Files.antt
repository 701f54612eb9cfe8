-- ===== src/Fsops/Files.antt =====
-- `capfs_op_read` and `capfs_op_write` of src/fsops on an open file, over src/backends/files.c, in a row.
use capfs.Base.{
  ℕ, ◌≤◌, ◌≡◌, ◌≢◌, refl, sym, ap, ◌∙◌, true, false, some, List, [], ◌∷◌, ◌==◌, ltb, ℤ, arith,
}
use capfs.Machine.{State, Run, ok, aborted, exited, out_of_fuel, M, pure, continue}
use capfs.Filetype.{filetype_file}
use capfs.Handle.{Handle, Heap}
use capfs.Backend.{capfs_backend_read, capfs_backend_write}
use capfs.Backend.Memory.{Request, plain, read, write, perform, perform_all}
use capfs.Fsops.{as_int, target, deref, path_given, capfs_op_read, capfs_op_write}
use capfs.Fsops.Dispatch.{
  Call, Reply, Locals, dispatch, serve, over_files, op_read, op_write, buffer, status,
}

-- A transfer from or to the file.
pub data Transfer : Type 0 where
  fetch : (path rbuf : List ℕ) (size offset : ℕ) → Transfer
  store : (path wbuf : List ℕ) (size offset : ℕ) → Transfer

-- The call that asks for it, the request that it comes to, and the reply that is made of the result.
abbrev pub call_of : ℕ → Transfer → Call
call_of fh (fetch path rbuf size offset) = op_read (some path) rbuf size offset (some fh)
call_of fh (store path wbuf size offset) = op_write (some path) wbuf size offset (some fh)

abbrev pub request_of : ℕ → Transfer → Request
request_of cap (fetch path rbuf size offset) = read cap offset rbuf size
request_of cap (store path wbuf size offset) = write cap offset wbuf size

abbrev pub reply_of : Transfer → ℤ × List ℕ → Reply
reply_of (fetch path rbuf size offset) r = buffer (as_int r.0) r.1
reply_of (store path wbuf size offset) r = status (as_int r.0)

abbrev pub offset_of : Transfer → ℕ
offset_of (fetch path rbuf size offset) = offset
offset_of (store path wbuf size offset) = offset

abbrev pub calls_of : ℕ → List (Locals × Transfer) → List (Locals × Call)
calls_of fh [] = []
calls_of fh ((l, x) ∷ xs) = (l, call_of fh x) ∷ calls_of fh xs

abbrev pub requests_of : ℕ → List (Locals × Transfer) → List Request
requests_of cap [] = []
requests_of cap ((l, x) ∷ xs) = request_of cap x ∷ requests_of cap xs

abbrev pub replies_of : List (Locals × Transfer) → List (ℤ × List ℕ) → List Reply
replies_of ((l, x) ∷ xs) (r ∷ rs) = reply_of x r ∷ replies_of xs rs
replies_of _ _ = []

-- No transfer starts behind the size in the handle.
abbrev pub AreInside : ℕ → List (Locals × Transfer) → Type 0
AreInside size [] = Unit {0}
AreInside size ((l, x) ∷ xs) = (offset_of x ≤ size) × AreInside size xs

-- What is made of a result is made of it in two steps.
continue-twice :
    {A B C : Type 0} (r : Run A) (f : A → B) (g : B → C)
    → continue (continue r λ a. pure (f a)) (λ b. pure (g b)) ≡ continue r λ a. pure (g (f a))
continue-twice (ok a s) f g = refl
continue-twice aborted f g = refl
continue-twice (exited code) f g = refl
continue-twice out_of_fuel f g = refl

-- A first run and those that follow it, with the replies made up on the way or at the end.
module _ (heap : Heap) (l : Locals) (x : Transfer) (xs : List (Locals × Transfer))
    (rest : Heap → M (List Reply × Heap)) (others : M (List (ℤ × List ℕ)))
    (ih : (t : State) → rest heap t ≡ continue (others t) λ rs. pure (replies_of xs rs, heap)) where
  abbrev with_reply : Reply × Heap → M (List Reply × Heap)
  with_reply c t = continue (rest c.1 t) λ ds. pure (c.0 ∷ ds.0, ds.1)

  abbrev with_result : ℤ × List ℕ → M (List (ℤ × List ℕ))
  with_result r t = continue (others t) λ rs. pure (r ∷ rs)

  in_turn :
      (run : Run (ℤ × List ℕ))
      → continue (continue run λ r. pure (reply_of x r, heap)) with_reply
        ≡ continue (continue run with_result) (λ rs. pure (replies_of ((l, x) ∷ xs) rs, heap))
  in_turn (ok r t) =
      ap (λ after. continue after λ ds. pure (reply_of x r ∷ ds.0, ds.1)) (ih t)
      ∙ continue-twice (others t) (λ rs. (replies_of xs rs, heap))
          (λ ds. (reply_of x r ∷ ds.0, ds.1))
      ∙ sym (continue-twice (others t) (λ rs. r ∷ rs) (λ rs. (replies_of ((l, x) ∷ xs) rs, heap)))
  in_turn aborted = refl
  in_turn (exited code) = refl
  in_turn out_of_fuel = refl

module _ (rounds fh : ℕ) (heap : Heap) (h : Handle) (given : fh ≢ 0) (live : heap.live fh ≡ some h)
    (file : h.type ≡ filetype_file) where
  transfer :
      (l : Locals) (x : Transfer) (s : State)
      → offset_of x ≤ h.size
      → dispatch over_files rounds l (call_of fh x) heap s
        ≡ continue (perform (request_of h.cap x) s) λ r. pure (reply_of x r, heap)
  unfolding dispatch perform capfs_op_read capfs_op_write target deref path_given
  transfer l (fetch path rbuf size offset) s inside =
      let not_null : (fh == 0) ≡ false = ground (arith, given) in
      let is_file : (h.type == filetype_file) ≡ true = ground (arith, file) in
      let below : ltb h.size offset ≡ false = ground arith in
      rw (not_null, live, is_file, below)
        (continue-twice (capfs_backend_read h.cap offset rbuf size s) (λ r. (as_int r.0, r.1))
          (λ r. (buffer r.0 r.1, heap)))
  transfer l (store path wbuf size offset) s inside =
      let not_null : (fh == 0) ≡ false = ground (arith, given) in
      let is_file : (h.type == filetype_file) ≡ true = ground (arith, file) in
      let below : ltb h.size offset ≡ false = ground arith in
      let run = capfs_backend_write h.cap offset wbuf size s in
      rw (not_null, live, is_file, below)
        (continue-twice run as_int (λ r. (status r, heap))
          ∙ sym (continue-twice run plain (λ r. (status (as_int r.0), heap))))

  -- Over the file backend, through a live handle of a file, any sequence of `capfs_op_read` and
  -- `capfs_op_write`, at offsets up to the size in the handle, that size included, runs as the
  -- same sequence of backend reads and writes through the capability of the handle, in every state
  -- and however the I/O calls turn out: the replies are its results with the status cut to an
  -- `int`, and the heap stays as it is.
  pub serve-perform_all :
      (xs : List (Locals × Transfer)) (s : State)
      → AreInside h.size xs
      → serve over_files rounds (calls_of fh xs) heap s
        ≡ continue (perform_all (requests_of h.cap xs) s) λ rs. pure (replies_of xs rs, heap)
  unfolding serve perform_all
  serve-perform_all [] s inside = refl
  serve-perform_all ((l, x) ∷ xs) s (now, later) =
      ap
        (λ run. continue run (
          with_reply heap l x xs (serve over_files rounds (calls_of fh xs))
            (perform_all (requests_of h.cap xs)) λ t. serve-perform_all xs t later))
        (transfer l x s now)
      ∙ in_turn heap l x xs (serve over_files rounds (calls_of fh xs))
          (perform_all (requests_of h.cap xs)) (λ t. serve-perform_all xs t later)
          (perform (request_of h.cap x) s)
