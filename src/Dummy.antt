-- ===== src/Dummy.antt =====
-- src/backends/dummy.c: a backend with a fixed table of five entries. A capability is the index of its
-- entry. A string is the list of its characters, without the NUL.
mod Table
pub mod Lookups
pub mod Copies
pub mod Listings
pub use Table.*
use capfs.Base.{
  ℕ, zero, suc, ◌+◌, ◌-◌, ◌^◌, Bool, true, false, not, Option, none, some, List, [], ◌∷◌,
}
use capfs.Base.{
  ℤ, pos, neg, enoent, eacces, enotsup, ltb, ◌==◌, if◌then◌else◌, is_negative, length, drop,
}
use capfs.Filetype.{filetype_none, filetype_root, filetype_directory, filetype_file}

-- The root capability that `capfs_backend_init` publishes, which is also `root_cap`.
abbrev pub dummy_root_capability : ℕ
dummy_root_capability = 0

-- `capstore`
unfoldable pub capstore : List Entry
capstore = root_entry ∷ file_01_entry ∷ file_02_entry ∷ folder_entry ∷ file_03_entry ∷ []

-- `capstore[cap]`, where `cap < NUMCAPS`.
unfoldable pub entry_at : List Entry → ℕ → Option Entry
entry_at [] i = none
entry_at (e ∷ es) zero = some e
entry_at (e ∷ es) (suc i) = entry_at es i

-- `strcmp(a, b) == 0`
unfoldable pub same_text : List ℕ → List ℕ → Bool
same_text [] [] = true
same_text [] (y ∷ ys) = false
same_text (x ∷ xs) [] = false
same_text (x ∷ xs) (y ∷ ys) = let rest = same_text xs ys in if x == y then rest else false

-- The loop over the table, from entry `i` on: the index of the first entry with that name.
unfoldable pub find_entry : List Entry → List ℕ → ℕ → Option ℕ
find_entry [] path i = none
find_entry (e ∷ es) path i =
    let rest = find_entry es path (i + 1) in if same_text e.name path then some i else rest

-- `capfs_backend_resolve_path`; the second result is `*retcap`, which is given as `old`.
unfoldable pub dummy_resolve_path : ℕ → List ℕ → ℕ → ℤ × ℕ
dummy_resolve_path root path old =
    let found : ℤ × ℕ = elim (find_entry capstore path 0) [
      | some i ↦ (pos 0, i)
      | none ↦ (neg enoent, old)
    ] in
    if root == dummy_root_capability then found else (neg enotsup, old)

-- The entries of `rootdir` or `folderdir`.
unfoldable pub directory_of : ℕ → Option (List Entry)
directory_of type =
    if type == filetype_root
    then some (file_01_entry ∷ file_02_entry ∷ folder_entry ∷ [])
    else if type == filetype_directory
    then some (file_03_entry ∷ [])
    else none

-- What `capfs_backend_get_direntry` gives at an offset that is not negative.
unfoldable pub listed : List Entry → ℕ → Option (List ℕ)
listed dir zero = some (46 ∷ 46 ∷ [])
listed dir (suc zero) = some (46 ∷ [])
listed dir (suc (suc i)) = elim (entry_at dir i) [ none ↦ none | some e ↦ some (drop 1 e.name) ]

-- `capfs_backend_get_direntry`
unfoldable pub dummy_get_direntry : ℕ → ℕ → Option (List ℕ)
dummy_get_direntry cap offset =
    let of_entry = λ (e : Entry). elim (directory_of e.type) as (λ _. Option (List ℕ)) [
      | none ↦ none
      | some dir ↦ listed dir offset
    ] in
    let found : Option (List ℕ) = elim (entry_at capstore cap) [
      | none ↦ none
      | some e ↦ of_entry e
    ] in
    if is_negative offset then none else found

-- `capfs_backend_get_filetype_cap`, `capfs_backend_get_perms` and `capfs_backend_get_capsize`; the last
-- gives `*retsize`, which is given as `old`.
unfoldable pub dummy_get_filetype_cap : ℕ → ℕ
dummy_get_filetype_cap cap = elim (entry_at capstore cap) [ none ↦ filetype_none | some e ↦ e.type ]

unfoldable pub dummy_get_perms : ℕ → ℕ
dummy_get_perms cap = elim (entry_at capstore cap) [ none ↦ 0 | some e ↦ e.perms ]

unfoldable pub payload_size : Option (List ℕ) → ℕ → ℕ
payload_size none old = old
payload_size (some text) old = length text

unfoldable pub dummy_get_capsize : ℕ → ℕ → ℤ × ℕ
dummy_get_capsize cap old = elim (entry_at capstore cap) [
  | none ↦ (neg eacces, old)
  | some e ↦ (pos 0, payload_size e.payload old)
]

-- `rbuf[i] = c`
unfoldable pub set_at : List ℕ → ℕ → ℕ → List ℕ
set_at [] i c = []
set_at (x ∷ xs) zero c = c ∷ xs
set_at (x ∷ xs) (suc i) c = x ∷ set_at xs i c

-- The copying loop: the number of characters, and the buffer.
unfoldable pub copy_loop : List ℕ → ℕ → ℕ → List ℕ → ℕ × List ℕ
copy_loop [] i bytes rbuf = (i, rbuf)
copy_loop (p ∷ ps) i bytes rbuf =
    let rest = copy_loop ps (i + 1) bytes (set_at rbuf i p) in
    if i == bytes then (i, rbuf) else rest

-- What is done with the payload; a file has one.
unfoldable pub read_payload : Option (List ℕ) → ℕ → List ℕ → ℕ → ℤ × List ℕ
read_payload none offset rbuf bytes = (neg eacces, rbuf)
read_payload (some text) offset rbuf bytes =
    let (n, buffer) = copy_loop text 0 bytes rbuf in
    if ltb (length text) offset then (pos 0, rbuf) else (pos n, buffer)

-- `capfs_backend_read` of the entry, if there is one.
unfoldable pub read_entry : Option Entry → ℕ → List ℕ → ℕ → ℤ × List ℕ
read_entry none offset rbuf bytes = (pos 0, rbuf)
read_entry (some e) offset rbuf bytes =
    if not (e.type == filetype_file)
    then (neg eacces, rbuf)
    else read_payload e.payload offset rbuf bytes

-- `capfs_backend_read`
unfoldable pub dummy_read : ℕ → ℕ → List ℕ → ℕ → ℤ × List ℕ
dummy_read cap offset rbuf bytes =
    read_entry (entry_at capstore cap) (if is_negative offset then 0 else offset) rbuf bytes

-- `capfs_backend_write`, `capfs_backend_zero`, `capfs_backend_get_cap`, `capfs_backend_put_cap`,
-- `capfs_backend_cap_get_perms` and `capfs_backend_cap_get_size`: none does anything.
abbrev pub dummy_write : ℤ
dummy_write = pos 0

abbrev pub dummy_zero : ℤ
dummy_zero = neg 1

abbrev pub dummy_get_cap : ℤ
dummy_get_cap = pos 0

abbrev pub dummy_put_cap : ℤ
dummy_put_cap = pos 0

abbrev pub dummy_cap_get_perms : ℕ
dummy_cap_get_perms = 0

abbrev pub dummy_cap_get_size : ℕ
dummy_cap_get_size = 0

-- `capfs_backend_destroy`
abbrev pub dummy_destroy : ℤ
dummy_destroy = pos 0
