-- ===== src/Apply.antt =====
-- internal/apply: the operations of a pass carried out on the two roots. `acl.Apply` and `acl.Read`
-- are calls of the system's ACL tools, and a RustFS target is reached through rclone.
pub mod Copy
pub mod Safe
use mathlib.Core.Bool.{◌||◌, ◌&&◌}
use cs_sync.Prelude.{eqt, Text, txt, Bool, true, false, none, some, List, [], ◌∷◌, if◌then◌else◌}
use Copy.{place, copy_entry}
use cs_sync.Os.{
  Error, errorf, is_not_exist, Outcome, done, failed, Os, Act, ◌>>=◌, ◌>>◌, pure, raise, attempt,
}
use cs_sync.Os.Paths.{FilePath, clean, join, dir_of}
use cs_sync.Prelude.Dict.{Dict, lookup}
use cs_sync.Reconcile.Ops.{
  Side, primary, secondary, mkdir, copy, delete, rmdir, rename, conflict_rename, Op,
}

-- What rclone does for `CopyTo`, `CopyFrom` and `Delete` of package rustfs.
pub record Rclone (W : Type 0) : Type 0 where
  pub copy_to : FilePath → Text → W → Outcome (Unit {0}) × W
  pub copy_from : Text → FilePath → W → Outcome (Unit {0}) × W
  pub delete_object : Text → W → Outcome (Unit {0}) × W

pub record Roots : Type 0 where
  pub primary_root : Text
  pub secondary_root : Text
  pub roots_acl_type : Text
  pub bootstrap_acl : Dict Text
  pub is_rustfs : Bool

-- `Roots.root`
root_of : Roots → Side → Text
root_of roots primary = roots.primary_root
root_of roots secondary = roots.secondary_root

is_secondary : Side → Bool
is_secondary primary = false
is_secondary secondary = true

-- Whether the operation writes to or reads from a RustFS secondary.
uses_rustfs : Roots → Op → Bool
unfolding is_secondary
uses_rustfs roots op =
    let reads_it : Bool = elim op.src [ none ↦ false | some s ↦ is_secondary s ] in
    roots.is_rustfs && (is_secondary op.dst || reads_it)

-- `random` is what `rand.Int63` puts into a temp file's name.
module _ (os : Os) (rclone : Rclone os.World) (random : os.World → Text) where
  open os use {World}

  copy_acl : Roots → FilePath → Text → Act World (Unit {0})
  unfolding place
  copy_acl roots dst rel_path w =
      let own = place roots.primary_root rel_path in
      let parent = join (clean roots.primary_root) (dir_of (clean rel_path)) in
      let from : FilePath = elim (os.stat own w) [ done fi ↦ own | failed e ↦ parent ] in
      elim (os.read_acl from roots.roots_acl_type w) [
        | failed e ↦ (done tt, w)
        | done text ↦ (done tt, (os.apply_acl dst roots.roots_acl_type text w).1)
      ]

  bootstrap : Roots → FilePath → Text → Act World (Unit {0})
  unfolding lookup
  bootstrap roots dst rel_path w = elim (lookup rel_path roots.bootstrap_acl) [
    | none ↦ (done tt, w)
    | some text ↦
        if eqt text []
        then (done tt, w)
        else (done tt, (os.apply_acl dst roots.roots_acl_type text w).1)
  ]

  -- `mkdirWithACL`: only a failure to make the directory is an error.
  mkdir_with_acl : Text → Text → Roots → Act World (Unit {0})
  unfolding place copy_acl bootstrap
  mkdir_with_acl dst_root rel_path roots = do
    os.mkdir_all (place dst_root rel_path) 0o755
    if eqt roots.roots_acl_type []
        then pure tt
        else if eqt dst_root roots.primary_root
        then bootstrap roots (place dst_root rel_path) rel_path
        else copy_acl roots (place dst_root rel_path) rel_path

  -- `applyOneRustFS`; objects are named by the path with slashes, and folders are implicit.
  apply_one_rustfs : Op → Roots → Act World (Unit {0})
  unfolding place is_secondary
  apply_one_rustfs op roots =
      let local = place roots.primary_root op.path in
      let moved = (do
        rclone.copy_to local op.path
        attempt (rclone.delete_object op.old_path)
        pure tt) in
      let unexpected = raise (errorf (txt "applyOneRustFS: unexpected DstSide")) in
      elim op.kind [
        | copy ↦
            if is_secondary op.dst
            then rclone.copy_to local op.path
            else rclone.copy_from op.path local
        | delete ↦ if is_secondary op.dst then rclone.delete_object op.path else unexpected
        | rename ↦ if is_secondary op.dst then moved else unexpected
        | conflict_rename ↦ if is_secondary op.dst then moved else unexpected
        | mkdir ↦ pure tt
        | rmdir ↦ pure tt
      ]

  forgive_missing : Outcome (Unit {0}) × World → Outcome (Unit {0}) × World
  unfolding is_not_exist
  forgive_missing (done u, w) = (done u, w)
  forgive_missing (failed e, w) = if is_not_exist e then (done tt, w) else (failed e, w)

  apply_on_disk : Op → Roots → Act World (Unit {0})
  unfolding place root_of mkdir_with_acl forgive_missing copy_entry
  apply_on_disk op roots =
      let dst_root = root_of roots op.dst in
      elim op.kind [
        | mkdir ↦ mkdir_with_acl dst_root op.path roots
        | rmdir ↦ os.remove_all (place dst_root op.path)
        | delete ↦ λ w. forgive_missing (os.remove (place dst_root op.path) w)
        | rename ↦ (do
          os.mkdir_all (dir_of (place dst_root op.path)) 0o755
          os.rename_file (place dst_root op.old_path) (place dst_root op.path))
        | conflict_rename ↦ os.rename_file (place dst_root op.old_path) (place dst_root op.path)
        | copy ↦
            let src_root : Text = elim op.src [
              | none ↦ roots.secondary_root
              | some s ↦ root_of roots s
            ] in
            copy_entry os random src_root dst_root op.path op.type
      ]

  -- `applyOne`
  apply_one : Op → Roots → Act World (Unit {0})
  unfolding uses_rustfs apply_one_rustfs apply_on_disk
  apply_one op roots =
      if uses_rustfs roots op then apply_one_rustfs op roots else apply_on_disk op roots

  -- `Apply`: an error ends no more than its operation.
  unfoldable pub apply : List Op → Roots → World → List (Op × Error) × World
  unfolding apply_one
  apply [] roots w = ([], w)
  apply (op ∷ ops) roots w =
      let (r, w') = apply_one op roots w in
      let (errs, w'') = apply ops roots w' in
      (elim r [ done u ↦ errs | failed e ↦ (op, e) ∷ errs ], w'')
