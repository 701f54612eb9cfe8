-- ===== src/Dummy/Table.antt =====
-- src/backends/dummy.c, lines 49 to 90: the entries of the table.
use capfs.Base.{ℕ, Option, none, some, List, [], ◌∷◌}
use capfs.Filetype.{filetype_root, filetype_directory, filetype_file}

-- `struct capability`; the payload of a folder is `NULL`.
pub record Entry : Type 0 where
  pub name : List ℕ
  pub perms : ℕ
  pub payload : Option (List ℕ)
  pub type : ℕ

-- `"/"`
abbrev pub root_name : List ℕ
root_name = 47 ∷ []

-- `"sdfsdfsfsdasd"`
abbrev pub root_payload : List ℕ
root_payload = 115 ∷ 100 ∷ 102 ∷ 115 ∷ 100 ∷ 102 ∷ 115 ∷ 102 ∷ 115 ∷ 100 ∷ 97 ∷ 115 ∷ 100 ∷ []

-- `"/file-01.dat"`
abbrev pub file_01_name : List ℕ
file_01_name = 47 ∷ 102 ∷ 105 ∷ 108 ∷ 101 ∷ 45 ∷ 48 ∷ 49 ∷ 46 ∷ 100 ∷ 97 ∷ 116 ∷ []

-- `"FILE 1 CONTENT!\n"`
abbrev pub file_01_payload : List ℕ
file_01_payload = 70 ∷ 73 ∷ 76 ∷ 69 ∷ 32 ∷ 49 ∷ 32 ∷ 67 ∷ 79 ∷ 78 ∷ 84 ∷ 69 ∷ 78 ∷ 84 ∷ 33 ∷ 10 ∷ []

-- `"/file-02.dat"`
abbrev pub file_02_name : List ℕ
file_02_name = 47 ∷ 102 ∷ 105 ∷ 108 ∷ 101 ∷ 45 ∷ 48 ∷ 50 ∷ 46 ∷ 100 ∷ 97 ∷ 116 ∷ []

-- `"FILE 2 CONTENT!\n"`
abbrev pub file_02_payload : List ℕ
file_02_payload = 70 ∷ 73 ∷ 76 ∷ 69 ∷ 32 ∷ 50 ∷ 32 ∷ 67 ∷ 79 ∷ 78 ∷ 84 ∷ 69 ∷ 78 ∷ 84 ∷ 33 ∷ 10 ∷ []

-- `"/folder"`
abbrev pub folder_name : List ℕ
folder_name = 47 ∷ 102 ∷ 111 ∷ 108 ∷ 100 ∷ 101 ∷ 114 ∷ []

-- `"/folder/file-03.dat"`
abbrev pub file_03_name : List ℕ
file_03_name =
    47 ∷ 102 ∷ 111 ∷ 108 ∷ 100 ∷ 101 ∷ 114 ∷ 47 ∷ 102 ∷ 105 ∷ 108 ∷ 101 ∷ 45 ∷ 48 ∷ 51 ∷ 46 ∷ 100
    ∷ 97 ∷ 116 ∷ []

-- `"FILE 3 CONTENT!\n"`
abbrev pub file_03_payload : List ℕ
file_03_payload = 70 ∷ 73 ∷ 76 ∷ 69 ∷ 32 ∷ 51 ∷ 32 ∷ 67 ∷ 79 ∷ 78 ∷ 84 ∷ 69 ∷ 78 ∷ 84 ∷ 33 ∷ 10 ∷ []

abbrev pub root_entry : Entry
root_entry = record {
  name = root_name;
  perms = 493;
  payload = some root_payload;
  type = filetype_root;
}

abbrev pub file_01_entry : Entry
file_01_entry = record {
  name = file_01_name;
  perms = 420;
  payload = some file_01_payload;
  type = filetype_file;
}

abbrev pub file_02_entry : Entry
file_02_entry = record {
  name = file_02_name;
  perms = 420;
  payload = some file_02_payload;
  type = filetype_file;
}

abbrev pub folder_entry : Entry
folder_entry = record { name = folder_name; perms = 493; payload = none; type = filetype_directory }

abbrev pub file_03_entry : Entry
file_03_entry = record {
  name = file_03_name;
  perms = 420;
  payload = some file_03_payload;
  type = filetype_file;
}
