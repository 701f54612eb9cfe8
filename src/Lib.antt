-- ===== src/Lib.antt =====
-- The capability file system (CAP-FS): a FUSE file system whose storage is reached through
-- capabilities. A capability is a base, a size and permissions, packed into 64 bits and salted.
--
-- The program has three layers. `src/fsops` holds the operations that FUSE calls; they turn a path or
-- a handle into a capability, and read or write through it. `src/filesystem.c` formats the range of the
-- root capability and resolves paths. `src/backends/files.c` checks each access against its capability,
-- and keeps the data in one file, behind validity bits that say which slots hold capabilities.
--
-- How the files correspond to the code:
--   * Machine: the state and the calls of the C library that files.c makes. A run is a function from a
--     `State` to an outcome: it ends, it aborts in a failed `assert`, it exits in a `PANIC`, or it runs
--     out of fuel. The outcomes of the I/O calls to come are part of the state, and so is what
--     uninitialised words hold. Machine/Post has total and partial postconditions, Machine/Settles
--     those of a run that is known to return or abort, Machine/Ends the runs with enough fuel,
--     Machine/Frame what a run leaves alone, Machine/Healthy the runs on which every call works.
--   * Capability: `struct capability` of files.c, its packed form and its references.
--   * Metadata, Capstore: the validity bits and the raw data of files.c, `metadata_*` and `capstore_*`.
--   * Startup: `capfs_backend_init` and `capfs_backend_destroy` of files.c. Startup/Restarted runs the
--     program again and again, each time on the file that it left.
--   * Backend: the operations `capfs_backend_*` of files.c. Backend/Clients has sequences of them
--     through capabilities that are held. Backend/Memory is an abstract specification: requests, and
--     their effects on a memory of bytes; Backend/Refines says what it is to implement it.
--     Backend/Threads cuts reads and writes at the seek in front of the transfer, and interleaves the
--     turns of threads.
--   * Filetype, CapfsFile: the file types of include/capfs.h, and `struct capfs_file` of
--     src/filesystem.c. The code reads and writes the struct as bytes; its object representation is that
--     of the x86-64 ABI, which `to_bytes` and `of_bytes` write out.
--   * Filesystem: the functions of src/filesystem.c. Filesystem/Components describes a path by its
--     components.
--   * Handle: src/include/capfs_handle.h, with the heap that handles live on.
--   * Layer: the calls that src/fsops makes on the layers below, as an interface.
--   * Fsops: src/fsops, one function for each operation. Fsops/Dispatch is the table of operations in
--     src/main.c, with sessions: `init`, and then any sequence of calls. Fsops/Mounts has the sessions
--     on a backend file on which every call works.
--   * Dummy: src/backends/dummy.c, the other backend, which is chosen when the program is built. Its
--     functions have the prefix `dummy_` in place of `capfs_backend_`.
--   * Tests: concrete inputs, at which the theorems are applied.
--
-- A 64-bit number is a natural number below 2^64, and sums are taken modulo 2^64 where they can wrap.
-- An `off_t` is its bit pattern, negative from 2^63 on. A capability reference is its number.
--
-- Loops run on fuel where they are not structural. The head and tail loops over a word of validity bits
-- have 33 rounds, one more than a word has bits; the loop over whole words has as many rounds as words
-- in the range and one more; the loop that zeroes a capability has one round for each 256 bytes and two
-- more. The modules named Ended count the rounds. The loop over directory entries takes its fuel as an
-- argument; with files.c it ends at once.
--
-- The stream is shared by the threads of libfuse, and a call of the C library on it is atomic, as POSIX
-- demands. Backend/Threads has schedules of reads and writes whose turns are coarser: one goes up to the
-- seek in front of the transfer, with the work of a write on the validity bits, and one from there to
-- the answer. Schedules that interleave more finely are not modelled; outside Backend/Threads operations
-- run one at a time. A restart finds the file as it was left, since the C library flushes the stream when
-- the program exits.
--
-- Not modelled: logging, `errno`, libfuse and what `main` does to start it, and the freeing of the
-- copy that path resolution makes. Looking at a handle that is not live, and freeing an address that is
-- not live, are undefined in C and end the run in the model. `calloc` gives any address that is not live,
-- one that was freed before too, or none: the addresses that its calls find are part of the heap. A shift
-- by 64 or more is taken modulo 64.
pub mod Base
pub mod Bits
pub mod Machine
pub mod Capability
pub mod Metadata
pub mod Capstore
pub mod Startup
pub mod Backend
pub mod Filetype
pub mod CapfsFile
pub mod Filesystem
pub mod Handle
pub mod Layer
pub mod Fsops
pub mod Dummy
pub mod Tests
