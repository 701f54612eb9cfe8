-- ===== src/Fsops/Startup.antt =====
-- `capfs_op_init` of src/fsops/init.c, when every call on the file works.
use capfs.Base.{ℕ, ◌+◌, ◌-◌, ◌%◌, ◌≤◌, ◌<◌, ◌≡◌, sym, ap, ◌∙◌, some, [], arith}
use capfs.Base.{Bool, true, ◌∷◌, refl, not, is_nonzero, ◌==◌}
use capfs.Machine.{State}
use capfs.Machine.Post.{Returns, returns, Returns-bind, Returns-else, Returns-and}
use capfs.Machine.Post.{Leads, ends, exits, Leads-bind, Leads-if}
use capfs.Capability.{perm_read, perm_write, permits, capref_to_capability}
use capfs.Metadata.{files_size, total_size}
use capfs.CapfsFile.{
  CapfsFile, IsCapfsFile, to_bytes, of_bytes, capfs_file_size, file_magic, root_header,
}
use capfs.Backend.{capfs_backend_cap_get_size}
use capfs.Backend.Confined.{data_byte}
use capfs.Backend.ReadWrite.{Ready, data_slice}
use capfs.Startup.{Disk, root_capability}
use capfs.Startup.Opened.{Opened, init_existing-Returns}
use capfs.Backend.Sized.Calls.{Sized, zero-Sized, write-Sized, read-Sized}
use capfs.Filesystem.{
  fs_root, as_size, same_string, separator, capfs_filesystem_format, capfs_filesystem_init,
}
use capfs.Filesystem.Formatted.{Formattable, Formatted, filesystem_init-Returns}
use capfs.Fsops.Session.{capfs_op_init}

-- The root capability stands for the whole data region, and can be formatted.
pub root-Formattable : (root : ℕ) → capref_to_capability root ≡ root_capability → Formattable root
root-Formattable root e = record {
  readable = ap (λ c. permits c perm_read) e;
  writable = ap (λ c. permits c perm_write) e;
  aligned = ap (λ c. c.base % 256) e;
  blocks = ap (λ c. c.size % 256) e;
  some = omega (arith, ap (λ c. c.size) e);
  room = omega (arith, ap (λ c. c.size) e, ap (λ c. c.base) e);
}

-- Formatting and initialising keep the root capability.
module _ {opened : Bool} {root_cap : ℕ} where
  format-Sized :
      (local : CapfsFile) (root : ℕ) {s : State}
      → Sized opened root_cap s
      → Leads (λ _ t. Sized opened root_cap t) (capfs_filesystem_format local root s)
  unfolding capfs_filesystem_format
  format-Sized local root v = Leads-bind (zero-Sized root v) λ err t v'.
      Leads-if (is_nonzero err) _ _ (λ _. ends v')
        λ _.
          Leads-bind (write-Sized root 0 _ capfs_file_size v' (omega arith)) λ n u v''.
            Leads-if (not (as_size n == capfs_file_size)) _ _ (λ _. ends v'') λ _. ends v''

  filesystem_init-Sized :
      (local old : CapfsFile) (root : ℕ) {s : State}
      → Sized opened root_cap s
      → Leads (λ _ t. Sized opened root_cap t) (capfs_filesystem_init local old root s)
  unfolding capfs_filesystem_init
  filesystem_init-Sized local old root v = Leads-bind (format-Sized local root v) λ err t v'.
      Leads-if (is_nonzero err) _ _ (λ _. exits)
        λ _. Leads-bind (read-Sized root 0 (to_bytes old) capfs_file_size v') λ got u v''.
          let g = of_bytes (got.1) in
          Leads-if (not (as_size got.0 == capfs_file_size)) _ _ (λ _. ends v'')
            λ _.
              Leads-if (not (g.magic == file_magic)) _ _ (λ _. ends v'')
                λ _.
                  Leads-if (not (same_string 8 g.header root_header)) _ _ (λ _. ends v'')
                    λ _.
                      Leads-if (not (same_string 128 g.name (separator ∷ 0 ∷ []))) _ _
                        (λ _. ends v'') λ _. ends v''

-- The published root capability stands for the whole data region; the root block is stored at its front,
-- and all behind it is zero up to the last block.
pub record Mounted (g_fs_root : CapfsFile) (t : State) : Type 0 where
  pub ready : Ready t
  pub root : capref_to_capability t.root_capability ≡ root_capability
  pub stored : data_slice t 0 capfs_file_size ≡ to_bytes g_fs_root
  pub zeros : (i : ℕ) → capfs_file_size ≤ i → i < files_size - 256 → data_byte t i ≡ 0

module _ (disk : Disk) (local old : CapfsFile) (v : IsCapfsFile local) (o : IsCapfsFile old) where
  mounted :
      (root : ℕ) (e : capref_to_capability root ≡ root_capability) (g : CapfsFile) {t : State}
      → g ≡ fs_root local (capfs_backend_cap_get_size root)
      → Formatted local v root (root-Formattable root e) t
      → t.root_capability ≡ root
      → (g ≡ fs_root local files_size) × Mounted g t
  unfolding capfs_backend_cap_get_size
  mounted root e g {t} same f published = (
    same ∙ ap (λ c. fs_root local c.size) e,
    record {
      ready = f.ready;
      root = ap capref_to_capability published ∙ e;
      stored =
          ap (λ c. data_slice t (c.base + 0) capfs_file_size) (sym e)
          ∙ f.stored
          ∙ ap to_bytes (sym same);
      zeros = λ i lo hi.
          f.zeros i (omega (arith, ap (λ c. c.base) e))
            (omega (arith, ap (λ c. c.base) e, ap (λ c. c.size) e));
    },
  )

  Opened-Sized : {t : State} → Opened disk t → Sized true t.root_capability t
  Opened-Sized opened = record {
    size = opened.ready.full_size;
    data_size = opened.ready.data_size;
    root_same = refl;
    opened_same = opened.ready.healthy.opened;
  }

  -- If the backend file exists with the expected size and every call on it works, `capfs_op_init`
  -- returns: `g_fs_root` is the root block that formatting makes for the whole data region, that
  -- block is stored at the front of the data, and the data behind it is zero up to the last 256
  -- bytes.
  pub op_init-Returns :
      (content : ℕ → ℕ) (s : State)
      → disk.plan ≡ []
      → disk.existing ≡ some (content, total_size)
      → Returns
          (λ g_fs_root t. (g_fs_root ≡ fs_root local files_size) × Mounted g_fs_root t)
          (capfs_op_init disk local old s)
  unfolding capfs_op_init
  op_init-Returns content s quiet e =
      Returns-bind (init_existing-Returns disk quiet s content e) λ _ t opened.
        let root = t.root_capability in
        Returns-bind
          (Returns-and
            (filesystem_init-Returns local v root (root-Formattable root opened.root) old o
              opened.ready)
            (filesystem_init-Sized local old root (Opened-Sized opened)))
          λ r u ((fine, same, f), sized).
            Returns-else (is_nonzero r.0) _ _ (ap is_nonzero fine)
              (returns (mounted root opened.root r.1 same f sized.root_same))
