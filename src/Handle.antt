-- ===== src/Handle.antt =====
-- src/include/capfs_handle.h: the handles of open files and directories, and the heap they live on. An
-- address is a number, and `NULL` is 0.
use capfs.Base.{ℕ, Option, none, some, List, [], ◌∷◌, ◌==◌, if◌then◌else◌}
use capfs.Machine.{M, pure, aborted}

pub record Handle : Type 0 where
  pub type : ℕ
  pub size : ℕ
  pub cap : ℕ
  pub perms : ℕ

-- `live` is what the addresses hold, and `offers` the addresses that the calls of `calloc` to come find,
-- in any order and again after they were freed; 0 is no memory.
pub record Heap : Type 0 where
  pub live : ℕ → Option Handle
  pub offers : List ℕ

-- What `calloc` finds: an address that is not live, or 0. An offer that is live is none.
abbrev pub unless_live : ℕ → Option Handle → ℕ
unless_live address none = address
unless_live address (some h) = 0

abbrev pub offered : Heap → List ℕ → ℕ
offered heap [] = 0
offered heap (a ∷ offers) = unless_live a (heap.live a)

abbrev pub later_offers : List ℕ → List ℕ
later_offers [] = []
later_offers (a ∷ offers) = offers

-- One address set.
unfoldable pub put : (ℕ → Option Handle) → ℕ → Option Handle → ℕ → Option Handle
put live address h i = if i == address then h else live i

-- The allocated struct is all zero.
unfoldable pub cap_fs_handle_alloc : Heap → ℕ × Heap
unfolding put
cap_fs_handle_alloc heap =
    let a = offered heap heap.offers in
    let left = later_offers heap.offers in
    if a == 0 then (0, record heap { offers = left }) else (
      a,
      record {
        live = put heap.live a (some (record { type = 0; size = 0; cap = 0; perms = 0 }));
        offers = left;
      },
    )

-- `free` of what an address holds. If that is nothing, it is undefined; the model ends the run there.
unfoldable pub free : ℕ → Heap → Option Handle → M Heap
unfolding put
free address heap none = λ _. aborted
free address heap (some h) = pure (record heap { live = put heap.live address none })

unfoldable pub cap_fs_handle_free : ℕ → Heap → M Heap
unfolding free
cap_fs_handle_free address heap =
    if address == 0 then pure heap else free address heap (heap.live address)
