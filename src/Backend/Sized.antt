-- ===== src/Backend/Sized.antt =====
-- What sequences of requests leave of the file's size and of the statics.
pub mod Calls
use capfs.Base.{
  ℕ, zero, suc, Bool, ◌+◌, ◌/◌, ◌≤◌, ◌<◌, ◌^◌, ◌≡◌, ◌∙◌, not, List, [], ◌∷◌, false, arith, ltb, leb,
  ◌==◌, add64, is_negative, is_nonzero, take, length-take,
}
use capfs.Machine.{State, fseek}
use capfs.Machine.Post.{Leads, ends, cut_off, Leads-bind, Leads-if, Leads-assert, Leads-mono}
use capfs.Machine.Frame.{Frame, fwrite-Frame}
use capfs.Capability.{perm_read, perm_write, permits, capref_to_capability}
use capfs.Capability.RoundTrip.{capref_to_capability_bounds}
use capfs.Metadata.{files_size, total_size, metadata_valid_bits_generic}
use capfs.Metadata.Framed.{valid_bits-Frame, is_capability-Frame}
use capfs.Capstore.{capstore_addr2offset, capstore_rawread, capstore_rawwrite}
use capfs.Capstore.Access.{rawread-Frame}
use capfs.Backend.{capfs_backend_read, capfs_backend_write, capfs_backend_zero, zero_loop}
use capfs.Backend.{
  capfs_backend_get_cap, capfs_backend_put_cap, metadata_clear_valid_bits, metadata_set_valid_bits,
}
use capfs.Backend.Memory.{Request, read, write, zero, get_cap, put_cap, perform, perform_all}
use capfs.Backend.Sized.Calls.{
  Sized, read-Sized, write-Sized, zero-Sized, get_cap-Sized, put_cap-Sized,
}

-- Writes are of fewer than 2^63 bytes.
abbrev pub IsBounded : Request → Type 0
IsBounded (write cap offset wbuf bytes) = bytes < 2 ^ 63
IsBounded q = Unit {0}

abbrev pub AreBounded : List Request → Type 0
AreBounded [] = Unit {0}
AreBounded (q ∷ qs) = IsBounded q × AreBounded qs

module _ {opened : Bool} {root : ℕ} where
  perform-Sized :
      (q : Request) {s : State}
      → Sized opened root s
      → IsBounded q
      → Leads (λ _ t. Sized opened root t) (perform q s)
  unfolding perform
  perform-Sized (read cap offset rbuf bytes) v b = read-Sized cap offset rbuf bytes v
  perform-Sized (write cap offset wbuf bytes) v b =
      Leads-bind (write-Sized cap offset wbuf bytes v b) λ _ t v'. ends v'
  perform-Sized (zero cap) v b = Leads-bind (zero-Sized cap v) λ _ t v'. ends v'
  perform-Sized (get_cap cap offset old) v b =
      Leads-bind (get_cap-Sized cap offset old v) λ _ t v'. ends v'
  perform-Sized (put_cap cap offset newcap) v b =
      Leads-bind (put_cap-Sized cap offset newcap v) λ _ t v'. ends v'

  -- If the file has its expected size and the data size is the one that `capfs_backend_init` sets,
  -- then after any sequence of reads, writes of fewer than 2^63 bytes, zeroings, loads and stores
  -- of capabilities that returns, at any offsets, however the I/O calls turn out, the file still
  -- has that size, and it being open, the data size and the root capability are as before.
  pub perform_all-Sized :
      (qs : List Request) (s : State)
      → Sized opened root s
      → AreBounded qs
      → Leads (λ _ t. Sized opened root t) (perform_all qs s)
  unfolding perform_all
  perform_all-Sized [] s v b = ends v
  perform_all-Sized (q ∷ qs) s v (b, bs) =
      Leads-bind (perform-Sized q v b)
        λ r t v'. Leads-bind (perform_all-Sized qs t v' bs) λ rs u v''. ends v''
