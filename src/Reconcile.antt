-- ===== src/Reconcile.antt =====
-- internal/reconcile: the three-way merge.
pub mod Ops
pub mod Rename
pub mod Oneway
pub mod Paths
pub mod Merge
pub mod Kept
use cs_sync.Prelude.{Text, not, Option, none, some, List, [], ◌∷◌, ◌++◌, if◌then◌else◌, keep_if}
use cs_sync.Model.{Entry, Tree, same_identity}
use cs_sync.Prelude.Dict.{contains, lookup, insert, keys}
use cs_sync.Prelude.Strings.{ltt}
use Ops.{primary, secondary, Result, empty_result, add_create, delete_op, conflict, conflict_delete}
use Rename.{detect_renames}

-- `all[p] = true`
add_key : Text → List Text → List Text
add_key p ps = if contains p ps then ps else p ∷ ps

unfoldable pub add_keys : List Text → List Text → List Text
unfolding add_key
add_keys [] ps = ps
add_keys (k ∷ ks) ps = add_keys ks (add_key k ps)

-- `sort.Strings`
unfoldable pub insert_sorted : Text → List Text → List Text
insert_sorted p [] = p ∷ []
insert_sorted p (q ∷ qs) = let rest = insert_sorted p qs in if ltt q p then q ∷ rest else p ∷ q ∷ qs

unfoldable pub sort_texts : List Text → List Text
unfolding insert_sorted
sort_texts [] = []
sort_texts (p ∷ ps) = insert_sorted p (sort_texts ps)

-- The paths that the generic diff visits.
unfoldable pub diff_paths : Tree → Tree → Tree → List Text → List Text
unfolding add_keys sort_texts
diff_paths b pr se renamed = sort_texts (
    keep_if (λ p. not (contains p renamed))
      (add_keys (keys se) (add_keys (keys pr) (add_keys (keys b) []))))

module _ (stamp : Text → Text) where
  -- One turn of the loop: the switch on where the path is present.
  unfoldable pub decide : Text → Option Entry → Option Entry → Option Entry → Result → Result
  decide p none (some pr) none r = add_create secondary primary p pr r
  decide p none none (some se) r = add_create primary secondary p se r
  decide p none (some pr) (some se) r =
      if same_identity pr se
      then record r { new_baseline = insert p pr r.new_baseline }
      else conflict stamp p pr se r
  decide p (some b) none none r = r
  decide p (some b) none (some se) r =
      if same_identity b se
      then record r { ops = r.ops ++ delete_op secondary p se ∷ [] }
      else conflict_delete stamp secondary p se r
  decide p (some b) (some pr) none r =
      if same_identity b pr
      then record r { ops = r.ops ++ delete_op primary p pr ∷ [] }
      else conflict_delete stamp primary p pr r
  decide p (some b) (some pr) (some se) r =
      if same_identity b pr
      then (if same_identity b se
          then record r { new_baseline = insert p b r.new_baseline }
          else add_create primary secondary p se r)
      else if same_identity b se
      then add_create secondary primary p pr r
      else if same_identity pr se
      then record r { new_baseline = insert p pr r.new_baseline }
      else conflict stamp p pr se r
  decide p none none none r = r

  unfoldable pub diff_loop : Tree → Tree → Tree → List Text → Result → Result
  unfolding decide
  diff_loop b pr se [] r = r
  diff_loop b pr se (p ∷ ps) r =
      diff_loop b pr se ps (decide p (lookup p b) (lookup p pr) (lookup p se) r)

  unfoldable pub reconcile : Tree → Tree → Tree → Result
  unfolding detect_renames diff_paths diff_loop
  reconcile b pr se =
      let (res, renamed) = detect_renames b pr se empty_result in
      diff_loop b pr se (diff_paths b pr se renamed) res
