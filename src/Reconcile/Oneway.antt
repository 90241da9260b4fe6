-- ===== src/Reconcile/Oneway.antt =====
-- The merge when one side's own tree stands in for the baseline, as `Sender.Pass` (the receiver's
-- last acked tree) and `forceOneway` call it.
use cs_sync.Prelude.{
  Text, ◌≡◌, refl, ◌≢◌, inl, inr, false, Option, none, some, List, [], ◌∷◌, ◌++◌, arith, Bool-cases,
  Option-cases, All, All-append, All-map, is_none,
}
use cs_sync.Model.{Entry, Tree, same_identity, same_identity_refl}
use cs_sync.Prelude.Dict.{lookup}
use cs_sync.Prelude.Strings.{eqt_refl}
use cs_sync.Reconcile.{diff_paths, decide, diff_loop, reconcile}
use cs_sync.Reconcile.Ops.{
  Side, primary, secondary, conflict_rename, Op, Result, empty_result, create_op, add_create,
  delete_op,
}
use cs_sync.Reconcile.Rename.{
  Inodes, deleted_by_key, Renames, renamed_from, rename_one, rename_loop, apply_side_rename,
  detect_renames,
}

-- An operation that changes `side` only, and preserves no losing version.
pub record IsPush (side : Side) (o : Op) : Type 0 where
  pub at : o.dst ≡ side
  pub no_loser : o.kind ≢ conflict_rename

pub record IsPushing (side : Side) (r : Result) : Type 0 where
  pub all : All (IsPush side) r.ops
  pub no_conflict : r.conflicts ≡ 0

IsPushing-empty : (side : Side) → IsPushing side empty_result
IsPushing-empty side = record { all = tt; no_conflict = refl }

create_op-IsPush : (side src : Side) (p : Text) (e : Entry) → IsPush side (create_op side src p e)
unfolding create_op
create_op-IsPush side src p e = record { at = ground arith; no_loser = ground arith }

delete_op-IsPush : (side : Side) (p : Text) (e : Entry) → IsPush side (delete_op side p e)
unfolding delete_op
delete_op-IsPush side p e = record { at = refl; no_loser = ground arith }

module _ (side : Side) {r : Result} (h : IsPushing side r) where
  keep-IsPushing : (t : Tree) → IsPushing side (record r { new_baseline = t })
  keep-IsPushing t = record { all = h.all; no_conflict = h.no_conflict }

  delete-IsPushing :
      (p : Text) (e : Entry) → IsPushing side (record r { ops = r.ops ++ delete_op side p e ∷ [] })
  delete-IsPushing p e = record {
    all = All-append _ r.ops _ h.all (delete_op-IsPush side p e, tt);
    no_conflict = h.no_conflict;
  }

  add_create-IsPushing :
      (src : Side) (p : Text) (e : Entry) → IsPushing side (add_create side src p e r)
  unfolding add_create
  add_create-IsPushing src p e = record {
    all = All-append _ r.ops _ h.all (create_op-IsPush side src p e, tt);
    no_conflict = h.no_conflict;
  }

module _ (stamp : Text → Text) where
  decide-push :
      (p : Text) (pr old : Option Entry) {r : Result}
      → IsPushing secondary r
      → IsPushing secondary (decide stamp p old pr old r)
  unfolding decide
  decide-push p (some pr) none h = add_create-IsPushing secondary h primary p pr
  decide-push p none none h = h
  decide-push p none (some b) {r} h = rw (same_identity_refl b) (delete-IsPushing secondary h p b)
  decide-push p (some pr) (some b) h = elim (Bool-cases (same_identity b pr)) [
    | inl e ↦ rw (e, same_identity_refl b) (keep-IsPushing secondary h _)
    | inr e ↦ rw (e, same_identity_refl b) (add_create-IsPushing secondary h primary p pr)
  ]

  decide-pull :
      (p : Text) (se old : Option Entry) {r : Result}
      → IsPushing primary r
      → IsPushing primary (decide stamp p old old se r)
  unfolding decide
  decide-pull p (some se) none h = add_create-IsPushing primary h secondary p se
  decide-pull p none none h = h
  decide-pull p none (some b) {r} h = rw (same_identity_refl b) (delete-IsPushing primary h p b)
  decide-pull p (some se) (some b) h = elim (Bool-cases (same_identity b se)) [
    | inl e ↦ rw (e, same_identity_refl b) (keep-IsPushing primary h _)
    | inr e ↦ rw (e, same_identity_refl b) (add_create-IsPushing primary h secondary p se)
  ]

  diff_loop-push :
      (t pr : Tree) (ps : List Text) {r : Result}
      → IsPushing secondary r
      → IsPushing secondary (diff_loop stamp t pr t ps r)
  unfolding diff_loop
  diff_loop-push t pr [] h = h
  diff_loop-push t pr (p ∷ ps) h =
      diff_loop-push t pr ps (decide-push p (lookup p pr) (lookup p t) h)

  diff_loop-pull :
      (t se : Tree) (ps : List Text) {r : Result}
      → IsPushing primary r
      → IsPushing primary (diff_loop stamp t t se ps r)
  unfolding diff_loop
  diff_loop-pull t se [] h = h
  diff_loop-pull t se (p ∷ ps) h =
      diff_loop-pull t se ps (decide-pull p (lookup p se) (lookup p t) h)

-- A tree has every path that it lists, so nothing is missing from it.
abbrev IsListed : Tree → Text × Entry → Type 0
IsListed t pe = is_none (lookup pe.0 t) ≡ false

IsListed-cons :
    (j : Text) (v : Entry) (t : Tree) (pe : Text × Entry) → IsListed t pe → IsListed ((j, v) ∷ t) pe
unfolding lookup
IsListed-cons j v t pe h = ground arith

All-IsListed : (t : Tree) → All (IsListed t) t
unfolding lookup
All-IsListed [] = tt
All-IsListed ((p, e) ∷ t) =
    (rw (eqt_refl p), All-map _ _ t (λ pe. IsListed-cons p e t pe) (All-IsListed t))

deleted_by_key-listed :
    (t m : Tree) (acc : Inodes) → All (IsListed t) m → deleted_by_key t m acc ≡ acc
unfolding deleted_by_key
deleted_by_key-listed t [] acc h = refl
deleted_by_key-listed t ((p, e) ∷ m) acc (hp, hm) = ground (arith, deleted_by_key-listed t m acc hm)

-- A side that is its own baseline has no renames.
apply_side_rename_self :
    (t : Tree) (dst : Side) (other_tree : Tree) (s : Renames)
    → apply_side_rename t t dst other_tree s ≡ s
unfolding apply_side_rename
apply_side_rename_self t dst other_tree s =
    rw (deleted_by_key-listed t t [] (All-IsListed t), apply_side_rename)

rename_one-IsPushing :
    (b : Tree) (dst : Side) (t : Tree) (d : Inodes) (np : Text) (ne : Entry) (s : Renames)
    → IsPushing dst s.0
    → IsPushing dst (rename_one b dst t d np ne s).0
unfolding rename_one
rename_one-IsPushing b dst t d np ne (r, consumed) h =
    elim (Option-cases (renamed_from b dst t d np ne)) [
      | inl e ↦ rw (e, rename_one) h
      | inr (old, e) ↦
          rw (e, rename_one)
            (record {
              all = All-append _ r.ops _ h.all (record { at = refl; no_loser = ground arith }, tt);
              no_conflict = h.no_conflict;
            })
    ]

rename_loop-IsPushing :
    (b : Tree) (dst : Side) (t : Tree) (d : Inodes) (nt : Tree) (s : Renames)
    → IsPushing dst s.0
    → IsPushing dst (rename_loop b dst t d nt s).0
unfolding rename_loop
rename_loop-IsPushing b dst t d [] s h = h
rename_loop-IsPushing b dst t d ((np, ne) ∷ nt) s h =
    rename_loop-IsPushing b dst t d nt _ (rename_one-IsPushing b dst t d np ne s h)

apply_side_rename-IsPushing :
    (b nt : Tree) (dst : Side) (t : Tree) (s : Renames)
    → IsPushing dst s.0
    → IsPushing dst (apply_side_rename b nt dst t s).0
unfolding apply_side_rename
apply_side_rename-IsPushing b nt dst t s h = go (deleted_by_key nt b []) refl
  where
    go :
        (d : Inodes) → deleted_by_key nt b [] ≡ d → IsPushing dst (apply_side_rename b nt dst t s).0
    go [] e = rw (e, apply_side_rename) h
    go (x ∷ d) e = rw (e, apply_side_rename) (rename_loop-IsPushing b dst t (x ∷ d) nt s h)

module _ (stamp : Text → Text) where
  -- With the secondary's own tree as the baseline, renames included, every operation of the pass
  -- changes the secondary, none sets a losing version aside, and no conflict is counted.
  pub reconcile-push : (t pr : Tree) → IsPushing secondary (reconcile stamp t pr t)
  unfolding reconcile detect_renames
  reconcile-push t pr =
      let s = apply_side_rename t pr secondary t (empty_result, []) in
      rw (apply_side_rename_self t primary pr) (
        diff_loop-push stamp t pr (diff_paths t pr t s.1) (
          apply_side_rename-IsPushing t pr secondary t (empty_result, [])
            (IsPushing-empty secondary)))

  -- With the primary's own tree as the baseline every operation of the pass changes the primary,
  -- none sets a losing version aside, and no conflict is counted.
  pub reconcile-pull : (t se : Tree) → IsPushing primary (reconcile stamp t t se)
  unfolding reconcile detect_renames
  reconcile-pull t se =
      let s = apply_side_rename t se primary t (empty_result, []) in
      rw (apply_side_rename_self t secondary se) (
        diff_loop-pull stamp t se (diff_paths t t se s.1)
          (apply_side_rename-IsPushing t se primary t (empty_result, []) (IsPushing-empty primary)))
