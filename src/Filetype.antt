-- ===== src/Filetype.antt =====
-- include/capfs.h, lines 42 to 49: `capfs_filetype_t`, as the number that is stored.
use capfs.Base.{ℕ}

abbrev pub filetype_none : ℕ
filetype_none = 0

abbrev pub filetype_root : ℕ
filetype_root = 1

abbrev pub filetype_directory : ℕ
filetype_directory = 2

abbrev pub filetype_file : ℕ
filetype_file = 3

abbrev pub filetype_symlink : ℕ
filetype_symlink = 4

abbrev pub filetype_hardlink : ℕ
filetype_hardlink = 5
