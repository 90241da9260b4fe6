-- ===== src/Reconcile/Kept.antt =====
-- reconcile.go: where the new baseline keeps the versions that a side has changed, for paths that
-- rename detection has not resolved and whose conflict copies have names of their own.
use cs_sync.Prelude.{
  eqt, Text, eqt_iff, ◌≡◌, refl, ◌∙◌, ◌⊎◌, inl, inr, true, false, Option, none, some, List, [], ◌∷◌,
  arith, if◌then◌else◌, Bool-cases,
}
use cs_sync.Model.{Entry, Tree, same_identity, same_identity_refl}
use cs_sync.Prelude.Dict.{contains, lookup, keys, lookup-keys}
use cs_sync.Reconcile.{diff_paths, diff_loop, reconcile}
use cs_sync.Reconcile.Merge.{merged, loser, over, lookup-decide, resolved, reconcile-merged}
use cs_sync.Reconcile.Ops.{Result, conflict_path}
use cs_sync.Reconcile.Paths.{contains-diff_paths}

module _ (stamp : Text → Text) (b pr se : Tree) where
  -- The name of the conflict copy for `p` is spelled like no other name in play.
  pub record IsConflictSafe (p : Text) : Type 0 where
    pub is_plain : (q : Text) → eqt (conflict_path stamp q) p ≡ false
    pub injective : (q : Text) → eqt (conflict_path stamp q) (conflict_path stamp p) ≡ eqt q p
    pub free_b : contains (conflict_path stamp p) (keys b) ≡ false
    pub free_pr : contains (conflict_path stamp p) (keys pr) ≡ false
    pub free_se : contains (conflict_path stamp p) (keys se) ≡ false

  -- The conflict copy of a visited path is recorded if its turn has a losing version.
  lookup-diff_loop_at_loser :
      (p : Text) (ps : List Text) (r : Result)
      → IsConflictSafe p
      → contains (conflict_path stamp p) ps ≡ false
      → lookup (conflict_path stamp p) (diff_loop stamp b pr se ps r).new_baseline ≡ (
          if contains p ps
          then over
              (loser (lookup p b) (lookup p pr) (lookup p se))
              (lookup (conflict_path stamp p) r.new_baseline)
          else lookup (conflict_path stamp p) r.new_baseline)
  unfolding diff_loop contains
  lookup-diff_loop_at_loser p [] r safe fresh = refl
  lookup-diff_loop_at_loser p (q ∷ ps) r safe fresh =
      let apart : eqt q (conflict_path stamp p) ≡ false = ground arith in
      rw
        (
          lookup-diff_loop_at_loser p ps _ safe (ground arith),
          lookup-decide,
          safe.injective q,
          apart,
        )
        (elim (Bool-cases (eqt q p)) [
          | inl e ↦ rw (e, (eqt_iff q p).0 e) (ground arith)
          | inr e ↦ rw e (ground arith)
        ])

  at_conflict_path :
      (p : Text) {e : Entry}
      → IsConflictSafe p
      → contains p (resolved stamp b pr se) ≡ false
      → loser (lookup p b) (lookup p pr) (lookup p se) ≡ some e
      → lookup (conflict_path stamp p) (reconcile stamp b pr se).new_baseline ≡ some e
  unfolding reconcile
  at_conflict_path p safe free lost =
      let ps = diff_paths b pr se (resolved stamp b pr se) in
      rw
        (lookup-diff_loop_at_loser p ps _ safe (
          ground (
            arith,
            safe.free_b,
            safe.free_pr,
            safe.free_se,
            contains-diff_paths (conflict_path stamp p) b pr se (resolved stamp b pr se),
          )))
        (ground (
          arith,
          contains-diff_paths p b pr se (resolved stamp b pr se),
          lookup-keys p b,
          lookup-keys p pr,
          lookup-keys p se,
        ))

  -- The new baseline has the entry at a path, up to what a comparison of entries looks at.
  abbrev IsRecorded : Text → Entry → Type 0
  IsRecorded q e =
      (e' : Entry) × (lookup q (reconcile stamp b pr se).new_baseline ≡ some e')
      × (same_identity e' e ≡ true)

  -- The entry is recorded at `p`, or, if it is contested there, as the conflict copy of `p`.
  abbrev pub IsKept : Type 0 → Text → Entry → Type 0
  IsKept Contested p e = IsRecorded p e ⊎ (Contested × IsRecorded (conflict_path stamp p) e)

  -- The secondary has deleted what the baseline had.
  abbrev pub IsDeleted : Option Entry → Option Entry → Type 0
  IsDeleted (some old) none = Unit {0}
  IsDeleted _ _ = ⊥

  -- The primary has deleted what the baseline had, or has another version that is not the baseline's.
  abbrev pub IsOverruled : Option Entry → Option Entry → Entry → Type 0
  IsOverruled none none e = ⊥
  IsOverruled none (some x) e = same_identity x e ≡ false
  IsOverruled (some old) none e = Unit {0}
  IsOverruled (some old) (some x) e = (same_identity old x ≡ false) × (same_identity x e ≡ false)

  abbrev IsChange : Option Entry → Entry → Type 0
  IsChange none e = Unit {0}
  IsChange (some old) e = same_identity old e ≡ false

  module _ (p : Text) (e : Entry) (safe : IsConflictSafe p)
      (free : contains p (resolved stamp b pr se) ≡ false) where
    IsKept-in_place :
        (e' : Entry)
        → merged (lookup p b) (lookup p pr) (lookup p se) ≡ some e'
        → same_identity e' e ≡ true
        → {C : Type 0} → IsKept C p e
    IsKept-in_place e' m s = inl (e', reconcile-merged stamp b pr se p free safe.is_plain ∙ m, s)

    IsKept-aside :
        {C : Type 0} → C → loser (lookup p b) (lookup p pr) (lookup p se) ≡ some e → IsKept C p e
    IsKept-aside c l = inr (c, (e, at_conflict_path p safe free l, same_identity_refl e))

    -- What the primary has created or changed since the baseline is in the new baseline: under its
    -- own path, or, only where the secondary has deleted it, as a conflict copy. This is for a path
    -- that rename detection has not resolved, where the names of conflict copies are spelled like no
    -- other name in play.
    pub reconcile-keeps_primary :
        lookup p pr ≡ some e
        → IsChange (lookup p b) e
        → IsKept (IsDeleted (lookup p b) (lookup p se)) p e
    reconcile-keeps_primary at_p changed = go (lookup p b) (lookup p se) refl refl changed
      where
        go :
            (ob os : Option Entry)
            → lookup p b ≡ ob
            → lookup p se ≡ os
            → IsChange ob e
            → IsKept (IsDeleted ob os) p e
        go none os eb es ch = IsKept-in_place e (rw (eb, at_p)) (same_identity_refl e)
        go (some old) none eb es ch = IsKept-aside tt (rw (eb, at_p, es, ch))
        go (some old) (some s) eb es ch =
            IsKept-in_place e (rw (eb, at_p, es, ch)) (same_identity_refl e)

    -- What the secondary has created or changed since the baseline is in the new baseline: under
    -- its own path, or, only where the primary has deleted it or has changed it otherwise, as a
    -- conflict copy. This is for a path that rename detection has not resolved, where the names of
    -- conflict copies are spelled like no other name in play.
    pub reconcile-keeps_secondary :
        lookup p se ≡ some e
        → IsChange (lookup p b) e
        → IsKept (IsOverruled (lookup p b) (lookup p pr) e) p e
    reconcile-keeps_secondary at_p changed = go (lookup p b) (lookup p pr) refl refl changed
      where
        go :
            (ob op : Option Entry)
            → lookup p b ≡ ob
            → lookup p pr ≡ op
            → IsChange ob e
            → IsKept (IsOverruled ob op e) p e
        go none none eb ep ch = IsKept-in_place e (rw (eb, ep, at_p)) (same_identity_refl e)
        go none (some x) eb ep ch = elim (Bool-cases (same_identity x e)) [
          | inl s ↦ IsKept-in_place x (rw (eb, ep)) s
          | inr s ↦ IsKept-aside s (rw (eb, ep, at_p, s))
        ]
        go (some old) none eb ep ch = IsKept-aside tt (rw (eb, ep, at_p, ch))
        go (some old) (some x) eb ep ch = elim (Bool-cases (same_identity old x)) [
          | inl s ↦ IsKept-in_place e (rw (eb, ep, at_p, s, ch)) (same_identity_refl e)
          | inr s ↦ elim (Bool-cases (same_identity x e)) [
            | inl t ↦ IsKept-in_place x (rw (eb, ep, at_p, s)) t
            | inr t ↦ IsKept-aside (s, t) (rw (eb, ep, at_p, s, ch, t))
          ]
        ]
