-- ===== src/Startup/Ended.antt =====
-- `capfs_backend_init` of src/backends/files.c comes to an end.
use capfs.Base.{ℕ, Bool, true, false, not, Option, none, some, ◌==◌, pos, einval, if◌then◌else◌}
use capfs.Machine.{State, Run, M, exited, ◌>>◌}
use capfs.Machine.Ends.{Ends, normally, by_exit, Ends-bind, Ends-if}
use capfs.Metadata.{total_size}
use capfs.Startup.{Disk, open_file, seek_end, rewind, publish_root, capfs_backend_init}

either : {A : Type 0} (b : Bool) {m n : Run A} → Ends m → Ends n → Ends (if b then m else n)
either true p q = p
either false p q = q

open_file-Ends :
    (disk : Disk) (existing : Option ((ℕ → ℕ) × ℕ)) (s : State) → Ends (open_file disk existing s)
unfolding open_file
open_file-Ends disk (some (content, size)) s = normally
open_file-Ends disk none s =
    either (not disk.creatable) by_exit (either (not disk.truncates) by_exit normally)

seek_end-Ends : (s : State) → Ends (seek_end s)
unfolding seek_end
seek_end-Ends s = normally

-- What is done once the position is at the end.
abbrev sized : M (Unit {0})
sized u =
    (if not (u.file.position == total_size)
        then (λ _. exited (pos einval))
        else (rewind >> publish_root))
      u

sized-Ends : (s : State) → Ends (sized s)
unfolding rewind publish_root
sized-Ends s = Ends-if (not (s.file.position == total_size)) _ _ (λ _. by_exit) (λ _. normally)

pub backend_init-Ends : (disk : Disk) (s : State) → Ends (capfs_backend_init disk s)
unfolding capfs_backend_init
backend_init-Ends disk s =
    Ends-bind {k = λ _. seek_end >> sized} (open_file-Ends disk disk.existing s)
      λ _ t. Ends-bind {k = λ _. sized} (seek_end-Ends t) λ _ u. sized-Ends u
