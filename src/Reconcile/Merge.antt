-- ===== src/Reconcile/Merge.antt =====
-- What the merge makes of each path: the three-way merge as a table, and the content that it keeps.
use cs_sync.Prelude.{
  Text, eqt, eqt_iff, ◌≡◌, refl, inl, inr, false, Option, none, some, List, [], ◌∷◌, arith,
  if◌then◌else◌, Bool-cases, Option-cases,
}
use cs_sync.Model.{Entry, Tree, same_identity}
use cs_sync.Prelude.Dict.{contains, lookup, lookup-insert, lookup-keys}
use cs_sync.Reconcile.{diff_paths, decide, diff_loop, reconcile}
use cs_sync.Reconcile.Ops.{
  Side, primary, secondary, Result, empty_result, add_create, conflict_path, conflict,
  conflict_delete,
}
use cs_sync.Reconcile.Paths.{contains-diff_paths}
use cs_sync.Reconcile.Rename.{
  Inodes, deleted_by_key, Renames, renamed_from, rename_one, rename_loop, apply_side_rename,
  detect_renames,
}

-- The three-way merge of one path: the side that changed since the baseline, and the primary where
-- both changed the content. A path that either side has deleted is absent, also where the other side
-- has edited it: the edit is then the loser below.
abbrev pub merged : Option Entry → Option Entry → Option Entry → Option Entry
merged none none se = se
merged none (some pr) se = some pr
merged (some b) none se = none
merged (some b) (some pr) none = none
merged (some b) (some pr) (some se) =
    if same_identity b pr then (if same_identity b se then some b else some se) else some pr

-- The version that loses a conflict at one path, if there is a conflict.
abbrev pub loser : Option Entry → Option Entry → Option Entry → Option Entry
loser none (some pr) (some se) = if same_identity pr se then none else some se
loser (some b) none (some se) = if same_identity b se then none else some se
loser (some b) (some pr) none = if same_identity b pr then none else some pr
loser (some b) (some pr) (some se) =
    if same_identity b pr
    then none
    else if same_identity b se
    then none
    else if same_identity pr se
    then none
    else some se
loser _ _ _ = none

abbrev pub over : Option Entry → Option Entry → Option Entry
over none o = o
over (some e) o = some e

module _ (stamp : Text → Text) where
  -- One turn of the loop changes the baseline at its path and at its conflict path only.
  pub lookup-decide :
      (p k : Text) (b pr se : Option Entry) (r : Result)
      → lookup k (decide stamp p b pr se r).new_baseline ≡ (
          if eqt (conflict_path stamp p) k
          then over (loser b pr se) (
              if eqt p k
              then over (merged b pr se) (lookup k r.new_baseline)
              else lookup k r.new_baseline)
          else if eqt p k
          then over (merged b pr se) (lookup k r.new_baseline)
          else lookup k r.new_baseline)
  unfolding decide add_create conflict conflict_delete
  lookup-decide p k none none none r = ground arith
  lookup-decide p k none (some pr) none r = simp lookup-insert (ground arith)
  lookup-decide p k none none (some se) r = simp lookup-insert (ground arith)
  lookup-decide p k none (some pr) (some se) r = elim (Bool-cases (same_identity pr se)) [
    | inl e ↦ rw e (simp lookup-insert (ground arith))
    | inr e ↦ rw e (simp lookup-insert (ground arith))
  ]
  lookup-decide p k (some b) none none r = ground arith
  lookup-decide p k (some b) none (some se) r = elim (Bool-cases (same_identity b se)) [
    | inl e ↦ rw e (ground arith)
    | inr e ↦ rw e (simp lookup-insert (ground arith))
  ]
  lookup-decide p k (some b) (some pr) none r = elim (Bool-cases (same_identity b pr)) [
    | inl e ↦ rw e (ground arith)
    | inr e ↦ rw e (simp lookup-insert (ground arith))
  ]
  lookup-decide p k (some b) (some pr) (some se) r = elim (Bool-cases (same_identity b pr)) [
    | inl e ↦ elim (Bool-cases (same_identity b se)) [
      | inl e' ↦ rw (e, e') (simp lookup-insert (ground arith))
      | inr e' ↦ rw (e, e') (simp lookup-insert (ground arith))
    ]
    | inr e ↦ elim (Bool-cases (same_identity b se)) [
      | inl e' ↦ rw (e, e') (simp lookup-insert (ground arith))
      | inr e' ↦ elim (Bool-cases (same_identity pr se)) [
        | inl e'' ↦ rw (e, e', e'') (simp lookup-insert (ground arith))
        | inr e'' ↦ rw (e, e', e'') (simp lookup-insert (ground arith))
      ]
    ]
  ]

  -- A path that is no conflict copy has its merge after the loop, if the loop visits it.
  lookup-diff_loop :
      (b pr se : Tree) (k : Text) (ps : List Text) (r : Result)
      → ((p : Text) → eqt (conflict_path stamp p) k ≡ false)
      → lookup k (diff_loop stamp b pr se ps r).new_baseline ≡ (
          if contains k ps
          then over (merged (lookup k b) (lookup k pr) (lookup k se)) (lookup k r.new_baseline)
          else lookup k r.new_baseline)
  unfolding diff_loop contains
  lookup-diff_loop b pr se k [] r fresh = refl
  lookup-diff_loop b pr se k (p ∷ ps) r fresh =
      rw (lookup-diff_loop b pr se k ps _ fresh, lookup-decide, fresh p)
        (elim (Bool-cases (eqt p k)) [
          | inl e ↦ rw (e, (eqt_iff p k).0 e) (ground arith)
          | inr e ↦ rw e
        ])

module _ (b pr se : Tree) (k : Text) where
  abbrev Untouched : Renames → Type 0
  Untouched s = contains k s.1 ≡ false → lookup k s.0.new_baseline ≡ none

  rename_one-Untouched :
      (dst : Side) (t : Tree) (d : Inodes) (np : Text) (ne : Entry) (s : Renames)
      → Untouched s
      → Untouched (rename_one b dst t d np ne s)
  unfolding rename_one contains
  rename_one-Untouched dst t d np ne (r, consumed) h =
      elim (Option-cases (renamed_from b dst t d np ne)) [
        | inl e ↦ rw (e, rename_one) h
        | inr (old, e) ↦
            rw (e, rename_one) (λ free. rw lookup-insert (ground (arith, h (ground arith))))
      ]

  rename_loop-Untouched :
      (dst : Side) (t : Tree) (d : Inodes) (nt : Tree) (s : Renames)
      → Untouched s
      → Untouched (rename_loop b dst t d nt s)
  unfolding rename_loop
  rename_loop-Untouched dst t d [] s h = h
  rename_loop-Untouched dst t d ((np, ne) ∷ nt) s h =
      rename_loop-Untouched dst t d nt _ (rename_one-Untouched dst t d np ne s h)

  apply_side_rename-Untouched :
      (nt : Tree) (dst : Side) (t : Tree) (s : Renames)
      → Untouched s
      → Untouched (apply_side_rename b nt dst t s)
  unfolding apply_side_rename
  apply_side_rename-Untouched nt dst t s h = go (deleted_by_key nt b []) refl
    where
      go : (d : Inodes) → deleted_by_key nt b [] ≡ d → Untouched (apply_side_rename b nt dst t s)
      go [] e = rw (e, apply_side_rename) h
      go (x ∷ d) e = rw (e, apply_side_rename) (rename_loop-Untouched dst t (x ∷ d) nt s h)

  -- Rename detection records a baseline entry only for the paths that it resolves.
  detect_renames-Untouched : Untouched (detect_renames b pr se empty_result)
  unfolding detect_renames lookup
  detect_renames-Untouched =
      apply_side_rename-Untouched se primary pr _
        (apply_side_rename-Untouched pr secondary se (empty_result, []) (λ _. refl))

module _ (stamp : Text → Text) (b pr se : Tree) where
  -- The paths that rename detection resolves.
  abbrev pub resolved : List Text
  resolved = (detect_renames b pr se empty_result).1

  -- After a pass the new baseline holds at each path the three-way merge of what the baseline and
  -- the two sides have there: the version of the side that changed it, the primary's where both
  -- changed or created it, and nothing where either side has deleted it, even if the other has
  -- edited it. This is for a path that rename detection has not resolved and that is not spelled
  -- like a conflict copy.
  pub reconcile-merged :
      (k : Text)
      → contains k resolved ≡ false
      → ((p : Text) → eqt (conflict_path stamp p) k ≡ false)
      → lookup k (reconcile stamp b pr se).new_baseline
        ≡ merged (lookup k b) (lookup k pr) (lookup k se)
  unfolding reconcile
  reconcile-merged k free fresh =
      rw (lookup-diff_loop stamp b pr se k (diff_paths b pr se resolved) _ fresh) (
        ground (
          arith,
          contains-diff_paths k b pr se resolved,
          detect_renames-Untouched b pr se k free,
          lookup-keys k b,
          lookup-keys k pr,
          lookup-keys k se,
        ))
