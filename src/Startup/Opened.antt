-- ===== src/Startup/Opened.antt =====
-- `capfs_backend_init` of src/backends/files.c, lines 352 to 410, by the outcome of the calls it
-- makes.
use capfs.Base.{ℕ, ◌≡◌, ◌≢◌, refl, true, Option, none, some, []}
use capfs.Base.{pos, einval, arith}
use capfs.Machine.{State, exited}
use capfs.Machine.Post.{Returns, returns}
use capfs.Capability.{capref_to_capability, capability_to_capref, IsCapability}
use capfs.Capability.RoundTrip.{capref_to_capability-capability_to_capref}
use capfs.Metadata.{total_size}
use capfs.Backend.ReadWrite.{Ready}
use capfs.Startup.{Disk, open_file, seek_end, rewind, root_capability, publish_root}
use capfs.Startup.{capfs_backend_init}

root_capability-IsCapability : IsCapability root_capability
root_capability-IsCapability = record {
  base_fits = omega arith;
  bits_fit = omega arith;
  perms_fit = omega arith;
  size_agrees = refl;
}

published : capref_to_capability (capability_to_capref root_capability) ≡ root_capability
published = capref_to_capability-capability_to_capref root_capability root_capability-IsCapability

-- What the file holds once it is open.
abbrev pub opened_content : Option ((ℕ → ℕ) × ℕ) → ℕ → ℕ
opened_content (some (content, size)) = content
opened_content none = λ _. 0

pub record Opened (disk : Disk) (t : State) : Type 0 where
  pub ready : Ready t
  pub root : capref_to_capability t.root_capability ≡ root_capability
  pub content : t.file.bytes ≡ opened_content disk.existing

module _ (disk : Disk) (quiet : disk.plan ≡ []) (s : State) where
  -- If the backend file exists with the expected size and every call works, `capfs_backend_init`
  -- leaves it open with its content, and publishes a reference to the capability for the whole
  -- data region.
  pub init_existing-Returns :
      (content : ℕ → ℕ)
      → disk.existing ≡ some (content, total_size)
      → Returns (λ _ t. Opened disk t) (capfs_backend_init disk s)
  unfolding capfs_backend_init open_file seek_end rewind publish_root
  init_existing-Returns content e =
      rw (e, quiet)
        (returns record {
          ready = record {
            healthy = record { opened = refl; quiet = refl; error = refl };
            full_size = refl;
            data_size = refl;
          };
          root = published;
          content = refl;
        })

  -- If there is no backend file, but it can be created and extended and every call works,
  -- `capfs_backend_init` leaves a file of zeros open, of the expected size, and publishes a
  -- reference to the capability for the whole data region.
  pub init_created-Returns :
      disk.existing ≡ none
      → disk.creatable ≡ true
      → disk.truncates ≡ true
      → Returns (λ _ t. Opened disk t) (capfs_backend_init disk s)
  unfolding capfs_backend_init open_file seek_end rewind publish_root
  init_created-Returns e can cut =
      rw (e, can, cut, quiet)
        (returns record {
          ready = record {
            healthy = record { opened = refl; quiet = refl; error = refl };
            full_size = refl;
            data_size = refl;
          };
          root = published;
          content = refl;
        })

  -- If the backend file exists with another size and every call works, `capfs_backend_init` ends
  -- the program with status EINVAL.
  pub init_refused :
      (content : ℕ → ℕ) (size : ℕ)
      → disk.existing ≡ some (content, size)
      → size ≢ total_size
      → capfs_backend_init disk s ≡ exited (pos einval)
  unfolding capfs_backend_init open_file seek_end rewind publish_root
  init_refused content size e other = rw (e, quiet) (ground arith)
