-- ===== src/Examples/Merging.antt =====
-- reconcile.go at a baseline with one file that both sides have changed.
use cs_sync.Prelude.{eqt, Text, txt, ℕ, ◌≡◌, refl, false, some, [], ◌∷◌, ◌++◌, arith, length-append}
use cs_sync.Model.{file, Entry, zero_entry, Tree, same_identity}
use cs_sync.Prelude.Dict.{contains, lookup, keys}
use cs_sync.Prelude.Strings.{eqt-length, eqt-append_right}
use cs_sync.Reconcile.{diff_paths, reconcile}
use cs_sync.Reconcile.Kept.{
  IsConflictSafe, IsKept, reconcile-keeps_primary, reconcile-keeps_secondary,
}
use cs_sync.Reconcile.Merge.{merged, resolved, reconcile-merged}
use cs_sync.Reconcile.Oneway.{IsPushing, reconcile-push, reconcile-pull}
use cs_sync.Reconcile.Ops.{primary, secondary, conflict_path}
use cs_sync.Reconcile.Paths.{IsSorted, diff_paths-IsSorted}
use cs_sync.Reconcile.Rename.{detect_renames}

abbrev no_stamp : Text → Text
no_stamp p = []

abbrev version : ℕ → Entry
version n = record zero_entry { path = txt "a"; type = file; size = n }

abbrev old_tree : Tree
old_tree = (txt "a", version 1) ∷ []

abbrev their_tree : Tree
their_tree = (txt "a", version 2) ∷ []

abbrev our_tree : Tree
our_tree = (txt "a", version 3) ∷ []

conflict_path-plain : (q : Text) → eqt (conflict_path no_stamp q) (txt "a") ≡ false
unfolding conflict_path
conflict_path-plain q =
    eqt-length (q ++ (txt "_conflict_" ++ [])) (txt "a")
      (omega (arith, length-append q (txt "_conflict_")))

a-IsConflictSafe : IsConflictSafe no_stamp old_tree their_tree our_tree (txt "a")
unfolding contains keys conflict_path eqt
a-IsConflictSafe = record {
  is_plain = conflict_path-plain;
  injective = λ q. eqt-append_right q (txt "a") (txt "_conflict_");
  free_b = refl;
  free_pr = refl;
  free_se = refl;
}

none_resolved : contains (txt "a") (resolved no_stamp old_tree their_tree our_tree) ≡ false
unfolding contains detect_renames lookup
none_resolved = refl

reconcile-merged_example :
    lookup (txt "a") (reconcile no_stamp old_tree their_tree our_tree).new_baseline
    ≡ merged (some (version 1)) (some (version 2)) (some (version 3))
unfolding lookup eqt
reconcile-merged_example =
    reconcile-merged no_stamp old_tree their_tree our_tree (txt "a") none_resolved
      conflict_path-plain

reconcile-keeps_primary_example :
    IsKept no_stamp old_tree their_tree our_tree ⊥ (txt "a") (version 2)
unfolding lookup eqt same_identity
reconcile-keeps_primary_example =
    reconcile-keeps_primary no_stamp old_tree their_tree our_tree (txt "a") (version 2)
      a-IsConflictSafe none_resolved refl refl

reconcile-keeps_secondary_example :
    IsKept no_stamp old_tree their_tree our_tree
      ((same_identity (version 1) (version 2) ≡ false)
        × (same_identity (version 2) (version 3) ≡ false))
      (txt "a")
      (version 3)
unfolding lookup eqt same_identity
reconcile-keeps_secondary_example =
    reconcile-keeps_secondary no_stamp old_tree their_tree our_tree (txt "a") (version 3)
      a-IsConflictSafe none_resolved refl refl

reconcile-push_example : IsPushing secondary (reconcile no_stamp old_tree their_tree old_tree)
reconcile-push_example = reconcile-push no_stamp old_tree their_tree

reconcile-pull_example : IsPushing primary (reconcile no_stamp old_tree old_tree our_tree)
reconcile-pull_example = reconcile-pull no_stamp old_tree our_tree

diff_paths-IsSorted_example : IsSorted (diff_paths old_tree ((txt "b", version 2) ∷ []) our_tree [])
diff_paths-IsSorted_example = diff_paths-IsSorted old_tree ((txt "b", version 2) ∷ []) our_tree []
