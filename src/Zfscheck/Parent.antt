-- ===== src/Zfscheck/Parent.antt =====
-- zfscheck.go: which dataset `ParentDataset` chooses, and the answers of `CheckAndPrepare`.
use mathlib.Core.Path.{subst}
use mathlib.Core.Option.{some-injective, none-ne-some}
use cs_sync.Prelude.{
  eqt, Text, txt, ℕ, ◌≤◌, ◌≡◌, refl, sym, ap, ◌∙◌, ◌⊎◌, inl, inr, true, false, ◌&&◌, Option, none,
  some, List, [], ◌∷◌, arith, if◌then◌else◌, Bool-cases, length,
}
use cs_sync.Os.{Outcome, done, failed}
use cs_sync.Zfscheck.{
  Dataset, windows, ZfsTool, mount_path, is_over, is_longer, best_of, without_dataset,
  list_datasets, parent_dataset, acltype_on, prepare_on, check_and_prepare,
}

pub data IsListed (d : Dataset) : List Dataset → Type 0 where
  at_head : (ds : List Dataset) → IsListed d (d ∷ ds)
  further : (b : Dataset) (ds : List Dataset) → IsListed d ds → IsListed d (b ∷ ds)

abbrev mount_length : Dataset → ℕ
mount_length d = length (mount_path d)

-- What the loop chooses from a list: a dataset of the list over the path, no shorter than any other
-- that is, and nothing only where none is over the path.
pub record IsLongest (path : Text) (ds : List Dataset) (chosen : Option Dataset) : Type 0 where
  pub is_listed : (b : Dataset) → chosen ≡ some b → IsListed b ds × (is_over path b ≡ true)
  pub is_longest :
      (b d : Dataset)
      → chosen ≡ some b
      → IsListed d ds
      → is_over path d ≡ true
      → length (mount_path d) ≤ length (mount_path b)
  pub none_over : (d : Dataset) → chosen ≡ none → IsListed d ds → is_over path d ≡ false

abbrev step : Text → Dataset → Option Dataset → Option Dataset
step path d best = if is_over path d && is_longer d best then some d else best

best_of-grows :
    (path : Text) (b : Dataset) (ds : List Dataset)
    → (c : Dataset) × (best_of path (some b) ds ≡ some c) × (mount_length b ≤ mount_length c)
unfolding best_of is_longer
best_of-grows path b [] = (b, refl, omega arith)
best_of-grows path b (d ∷ ds) = elim (Bool-cases (is_over path d && is_longer d (some b))) [
  | inl e ↦
      let (c, chosen, longer) = best_of-grows path d ds in
      (c, rw e chosen, ground (arith, e, longer))
  | inr e ↦ let (c, chosen, longer) = best_of-grows path b ds in (c, rw e chosen, longer)
]

step-covers :
    (path : Text) (d : Dataset) (best : Option Dataset)
    → is_over path d ≡ true
    → (b : Dataset) × (step path d best ≡ some b) × (mount_length d ≤ mount_length b)
unfolding is_longer
step-covers path d none over = (d, rw over refl, omega arith)
step-covers path d (some b) over = elim (Bool-cases (is_longer d (some b))) [
  | inl e ↦ (d, rw (over, e) refl, omega arith)
  | inr e ↦ (b, rw (over, e) refl, ground (arith, e))
]

chosen-longest :
    (path : Text) (best : Option Dataset) (ds : List Dataset) (b d : Dataset)
    → best_of path best ds ≡ some b
    → IsListed d ds
    → is_over path d ≡ true
    → mount_length d ≤ mount_length b
unfolding best_of
chosen-longest path best [] b d e l over = elim l [ ]
chosen-longest path best (x ∷ ds) b d e (further b' ds' l) over =
    chosen-longest path (step path x best) ds b d e l over
chosen-longest path best (d ∷ ds) b d' e (at_head ds') over =
    let (x, stepped, covers) = step-covers path d best over in
    let (c, chosen, longer) = best_of-grows path x ds in
    let same : c ≡ b =
      some-injective c b (sym chosen ∙ ap (λ o. best_of path o ds) (sym stepped) ∙ e) in
    subst (λ y. mount_length d ≤ mount_length y) same (omega (arith, covers, longer))

chosen-none :
    (path : Text) (best : Option Dataset) (ds : List Dataset) (d : Dataset)
    → best_of path best ds ≡ none
    → IsListed d ds
    → is_over path d ≡ false
unfolding best_of
chosen-none path best [] d e l = elim l [ ]
chosen-none path best (x ∷ ds) d e (further b' ds' l) = chosen-none path (step path x best) ds d e l
chosen-none path best (d ∷ ds) d' e (at_head ds') = elim (Bool-cases (is_over path d)) [
  | inr apart ↦ apart
  | inl over ↦
      let (x, stepped, covers) = step-covers path d best over in
      let (c, chosen, longer) = best_of-grows path x ds in
      absurd (none-ne-some c (sym e ∙ ap (λ o. best_of path o ds) stepped ∙ chosen))
]

chosen-IsListed :
    (path : Text) (best : Option Dataset) (ds all : List Dataset)
    → ((d : Dataset) → IsListed d ds → IsListed d all)
    → ((b : Dataset) → best ≡ some b → IsListed b all × (is_over path b ≡ true))
    → (b : Dataset) → best_of path best ds ≡ some b
    → IsListed b all × (is_over path b ≡ true)
unfolding best_of
chosen-IsListed path best [] all sub inv = inv
chosen-IsListed path best (d ∷ ds) all sub inv =
    chosen-IsListed path (step path d best) ds all (λ x l. sub x (further d ds l))
      (stepped (Bool-cases (is_over path d && is_longer d best)))
  where
    stepped :
        ((is_over path d && is_longer d best) ≡ true)
          ⊎ ((is_over path d && is_longer d best) ≡ false)
        → (b : Dataset) → step path d best ≡ some b
        → IsListed b all × (is_over path b ≡ true)
    stepped (inl e) b k =
        let same : d ≡ b = some-injective d b (rw e at k) in
        subst (λ x. IsListed x all × (is_over path x ≡ true)) same
          (sub d (at_head ds), ground (arith, e))
    stepped (inr e) b k = inv b (rw e at k)

best_of-IsLongest : (path : Text) (ds : List Dataset) → IsLongest path ds (best_of path none ds)
best_of-IsLongest path ds = record {
  is_listed = chosen-IsListed path none ds ds (λ d l. l) (λ b e. absurd (none-ne-some b e));
  is_longest = chosen-longest path none ds;
  none_over = chosen-none path none ds;
}

done_injective : (a b : Option Dataset) → done a ≡ done b → a ≡ b
done_injective a b e = ap answer e
  where
    answer : Outcome (Option Dataset) → Option Dataset
    answer (done x) = x
    answer (failed x) = a

-- `ParentDataset` answers with the dataset whose mount point is the longest of those over the absolute path
-- of the folder, and with none only where no mount point of the listing is over it. A mount point is over
-- a path here if it is the path, or the path begins with it and one more slash; so "/" is over no path but
-- itself, and "-" and "none" are over none.
pub parent_dataset-IsLongest :
    (tool : ZfsTool) (given path : Text) (w : tool.World) (ds : List Dataset)
    (chosen : Option Dataset)
    → tool.abs given w ≡ done path
    → list_datasets tool w ≡ done ds
    → parent_dataset tool given w ≡ done chosen
    → IsLongest path ds chosen
unfolding parent_dataset
parent_dataset-IsLongest tool given path w ds chosen e e' k =
    let found : parent_dataset tool given w ≡ done (best_of path none ds) =
      rw (parent_dataset, e, e') refl in
    subst (IsLongest path ds) (done_injective _ _ (sym found ∙ k)) (best_of-IsLongest path ds)

windows-nfs4 :
    (tool : ZfsTool) (found : Outcome (Option Dataset)) (w : tool.World)
    → (prepare_on tool windows found w).0 ≡ done (txt "nfs4")
unfolding prepare_on without_dataset acltype_on
windows-nfs4 tool (failed e) w = refl
windows-nfs4 tool (done none) w = refl
windows-nfs4 tool (done (some d)) w = elim (Bool-cases (eqt d.ds_name [])) [
  | inl e ↦ rw e refl
  | inr e ↦ rw e refl
]

-- On Windows the answer is always "nfs4", whatever the zfs program says, and even if it fails.
pub check_and_prepare-windows :
    (tool : ZfsTool) (given : Text) (w : tool.World)
    → (check_and_prepare tool windows given w).0 ≡ done (txt "nfs4")
unfolding check_and_prepare
check_and_prepare-windows tool given w = windows-nfs4 tool (parent_dataset tool given w) w
