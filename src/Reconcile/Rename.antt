-- ===== src/Reconcile/Rename.antt =====
-- internal/reconcile/rename.go: local renames found by device and inode.
use cs_sync.Prelude.{
  Text, ℕ, Bool, false, not, ◌&&◌, Option, none, some, List, [], ◌∷◌, ◌++◌, ◌==◌, if◌then◌else◌,
  is_none,
}
use cs_sync.Model.{file, type_eq, Entry, Tree, same_identity}
use cs_sync.Prelude.Dict.{lookup, insert}
use cs_sync.Reconcile.Ops.{Side, primary, secondary, rename, Result}

-- The map from device and inode to a path; a later path with the same key replaces an earlier one.
abbrev pub Inodes : Type 0
Inodes = List ((ℕ × ℕ) × Text)

abbrev insert_inode : ℕ → ℕ → Text → Inodes → Inodes
insert_inode d i p m = ((d, i), p) ∷ m

lookup_inode : ℕ → ℕ → Inodes → Option Text
lookup_inode d i [] = none
lookup_inode d i (((d', i'), p) ∷ m) =
    let rest = lookup_inode d i m in if d' == d && i' == i then some p else rest

-- A file that can be correlated: not a directory or link, and with a device or an inode.
has_inode : Entry → Bool
has_inode e = type_eq e.type file && not (e.dev == 0 && e.ino == 0)

-- The first loop of `applySideRename`: files of the baseline that `new_tree` lacks.
unfoldable pub deleted_by_key : Tree → Tree → Inodes → Inodes
unfolding has_inode
deleted_by_key new_tree [] m = m
deleted_by_key new_tree ((p, e) ∷ rest) m =
    deleted_by_key new_tree rest
      (if has_inode e && is_none (lookup p new_tree) then insert_inode e.dev e.ino p m else m)

-- The result so far, and the paths that rename detection has resolved.
abbrev pub Renames : Type 0
Renames = Result × List Text

module _ (baseline : Tree) (dst : Side) (other_tree : Tree) (deleted : Inodes) where
  -- The tests on the other side: it still has the old path as in the baseline, and not the new.
  clean_for : Text → Text → Entry → Bool
  clean_for old_path np old_entry = elim (lookup old_path other_tree) [
    | none ↦ false
    | some other_old ↦ is_none (lookup np other_tree) && same_identity old_entry other_old
  ]

  -- The path that `np` was renamed from, if every guard of the second loop passes.
  unfoldable pub renamed_from : Text → Entry → Option Text
  unfolding has_inode lookup_inode clean_for
  renamed_from np ne =
      if has_inode ne && is_none (lookup np baseline)
      then elim (lookup_inode ne.dev ne.ino deleted) [
        | none ↦ none
        | some old_path ↦ elim (lookup old_path baseline) [
          | none ↦ none
          | some old_entry ↦
              if old_entry.size == ne.size && clean_for old_path np old_entry
              then some old_path
              else none
        ]
      ]
      else none

  unfoldable pub rename_one : Text → Entry → Renames → Renames
  unfolding renamed_from
  rename_one np ne (res, consumed) = elim (renamed_from np ne) [
    | none ↦ (res, consumed)
    | some old_path ↦ (
      record res {
        ops =
            res.ops
            ++ record {
              kind = rename;
              dst = dst;
              src = none;
              path = np;
              old_path = old_path;
              type = file;
            }
              ∷ [];
        new_baseline = insert np ne res.new_baseline;
      },
      old_path ∷ np ∷ consumed,
    )
  ]

  unfoldable pub rename_loop : Tree → Renames → Renames
  unfolding rename_one
  rename_loop [] s = s
  rename_loop ((np, ne) ∷ rest) s = rename_loop rest (rename_one np ne s)

unfoldable pub apply_side_rename : Tree → Tree → Side → Tree → Renames → Renames
unfolding deleted_by_key rename_loop
apply_side_rename baseline new_tree dst other_tree s = elim (deleted_by_key new_tree baseline []) [
  | [] ↦ s
  | x ∷ m ↦ rename_loop baseline dst other_tree (x ∷ m) new_tree s
]

unfoldable pub detect_renames : Tree → Tree → Tree → Result → Renames
unfolding apply_side_rename
detect_renames baseline pr se res =
    apply_side_rename baseline se primary pr (apply_side_rename baseline pr secondary se (res, []))
