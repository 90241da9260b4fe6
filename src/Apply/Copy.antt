-- ===== src/Apply/Copy.antt =====
-- executor.go: `copyEntry`, a copy through a temp file.
use cs_sync.Prelude.{Text, txt, false, List, [], ◌∷◌, ◌++◌, if◌then◌else◌}
use cs_sync.Model.{EntryType, symlink, type_eq}
use cs_sync.Os.{Outcome, done, failed, FileInfo, Os, Act, ◌>>=◌, ◌>>◌, attempt, reads}
use cs_sync.Os.Paths.{FilePath, pieces, clean, join, drop_last, dir_of}

-- `filepath.Join(root, path)`
unfoldable pub place : Text → Text → FilePath
unfolding clean join pieces
place root path = join (clean root) (record { rooted = false; parts = pieces path })

-- The path with a suffix on its last part.
with_suffix : Text → FilePath → FilePath
unfolding drop_last
with_suffix s p = record p { parts = add s p.parts }
  where
    add : Text → List Text → List Text
    add s [] = s ∷ []
    add s (c ∷ []) = (c ++ s) ∷ []
    add s (c ∷ d ∷ cs) = c ∷ add s (d ∷ cs)

unfoldable pub settle : {W A : Type 0} → (W → W) → Outcome A × W → Outcome A × W
settle undo (done a, w) = (done a, w)
settle undo (failed e, w) = (failed e, undo w)

-- Cleans up after a failure.
unfoldable pub guarded : {W A : Type 0} → Act W A → (W → W) → Act W A
unfolding settle
guarded m undo w = settle undo (m w)

module _ (os : Os) (random : os.World → Text) where
  open os use {World}

  -- `io.Copy` and `out.Sync`
  unfoldable pub fill : FilePath → FilePath → Act World (Unit {0})
  fill src tmp = do bytes ← reads (os.read_file src); os.write_at tmp bytes 0; os.sync_file tmp

  unfoldable pub publish : FilePath → FilePath → FileInfo → Act World (Unit {0})
  publish tmp dst fi = do os.close_file tmp; os.chtimes tmp fi.mod_time; os.rename_file tmp dst

  -- The copy of a file from where its source is opened.
  unfoldable pub copy_file : FilePath → FilePath → FilePath → Act World (Unit {0})
  unfolding guarded fill publish
  copy_file src dst tmp = do
    fi ← reads (os.stat src)
    os.open_temp tmp fi.perm
    guarded (fill src tmp) (λ w. (os.remove tmp (os.close_file tmp w).1).1)
    guarded (publish tmp dst fi) (λ w. (os.remove tmp w).1)

  copy_link : FilePath → FilePath → Act World (Unit {0})
  copy_link src dst = do
    target ← reads (os.read_link src)
    attempt (os.remove dst)
    os.make_symlink target dst

  unfoldable pub copy_entry : Text → Text → Text → EntryType → Act World (Unit {0})
  unfolding place copy_file copy_link with_suffix
  copy_entry src_root dst_root rel_path type = do
    os.mkdir_all (dir_of (place dst_root rel_path)) 0o755
    if type_eq type symlink
        then copy_link (place src_root rel_path) (place dst_root rel_path)
        else (λ w.
            copy_file (place src_root rel_path) (place dst_root rel_path)
              (with_suffix (txt ".cs-sync.tmp." ++ random w) (place dst_root rel_path)) w)
