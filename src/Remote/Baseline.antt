-- ===== src/Remote/Baseline.antt =====
-- sender.go: `applyToBaseline`, what the sender records of the remote side after an ack.
use cs_sync.Prelude.{
  eqt, Text, eqt_iff, ◌≡◌, ap, ◌∙◌, ◌⊎◌, inl, inr, Option, none, some, [], ◌∷◌, ◌++◌, arith,
  if◌then◌else◌,
}
use cs_sync.Model.{Entry, Tree}
use cs_sync.Prelude.Dict.{lookup, insert, erase, lookup-insert, lookup-erase}
use cs_sync.Prelude.Strings.{has_prefix, trim_prefix}
use cs_sync.Reconcile.Ops.{mkdir, copy, delete, rmdir, rename, conflict_rename, Op}

-- The deletion of what lies below a directory.
erase_below : Text → Tree → Tree
unfolding has_prefix
erase_below pfx [] = []
erase_below pfx ((p, e) ∷ t) =
    let rest = erase_below pfx t in if has_prefix p pfx then rest else (p, e) ∷ rest

-- The entries of `from` that lie below `pfx` move to `dst`. The map is read as it was before the
-- loop.
move_below : Text → Text → Tree → Tree → Tree
unfolding has_prefix trim_prefix
move_below pfx dst [] t = t
move_below pfx dst ((p, e) ∷ from) t =
    let np = dst ++ (47 ∷ trim_prefix p pfx) in
    let moved = move_below pfx dst from (insert np (record e { path = np }) (erase p t)) in
    let kept = move_below pfx dst from t in if has_prefix p pfx then moved else kept

rename_entry : Text → Text → Tree → Tree
rename_entry old new t = elim (lookup old t) [
  | none ↦ t
  | some e ↦ insert new (record e { path = new }) (erase old t)
]

record_entry : Text → Tree → Tree → Tree
record_entry p tree t = elim (lookup p tree) [ none ↦ t | some e ↦ insert p e t ]

unfoldable pub apply_to_baseline : Op → Tree → Tree → Tree
unfolding erase_below move_below rename_entry record_entry
apply_to_baseline op tree t = elim op.kind [
  | delete ↦ erase op.path t
  | rmdir ↦ erase_below (op.path ++ (47 ∷ [])) (erase op.path t)
  | rename ↦
      let t' = rename_entry op.old_path op.path t in
      move_below (op.old_path ++ (47 ∷ [])) op.path t' t'
  | mkdir ↦ record_entry op.path tree t
  | copy ↦ record_entry op.path tree t
  | conflict_rename ↦ record_entry op.path tree t
]

lookup-erase_below :
    (pfx q : Text) (t : Tree)
    → lookup q (erase_below pfx t) ≡ (if has_prefix q pfx then none else lookup q t)
unfolding erase_below lookup
lookup-erase_below pfx q [] = ground arith
lookup-erase_below pfx q ((p, e) ∷ t) =
    ground
      (arith, lookup-erase_below pfx q t, eqt_iff p q, λ (e : p ≡ q). ap (λ x. has_prefix x pfx) e)

-- After the ack of an rmdir, the baseline has neither the directory nor anything below it, and all
-- the rest as before.
pub apply_to_baseline-rmdir :
    (op : Op) (tree t : Tree) (q : Text)
    → op.kind ≡ rmdir
    → lookup q (apply_to_baseline op tree t) ≡ (
        if has_prefix q (op.path ++ (47 ∷ []))
        then none
        else if eqt op.path q
        then none
        else lookup q t)
unfolding apply_to_baseline
apply_to_baseline-rmdir op tree t q k = rw k (
    lookup-erase_below (op.path ++ (47 ∷ [])) q (erase op.path t)
    ∙ ap (λ x. if has_prefix q (op.path ++ (47 ∷ [])) then none else x) (lookup-erase op.path q t))

lookup-record_entry :
    (p q : Text) (tree t : Tree) (e : Entry)
    → lookup p tree ≡ some e
    → lookup q (record_entry p tree t) ≡ (if eqt p q then some e else lookup q t)
unfolding record_entry
lookup-record_entry p q tree t e h = go (lookup p tree) h
  where
    go :
        (o : Option Entry)
        → o ≡ some e
        → lookup q (elim o [ none ↦ t | some e' ↦ insert p e' t ])
          ≡ (if eqt p q then some e else lookup q t)
    go none h = absurd (ground (arith, h))
    go (some e') h =
        let same : e' ≡ e = ground (arith, h) in
        lookup-insert p q e' t ∙ ap (λ z. if eqt p q then some z else lookup q t) same

-- After the ack of a mkdir or a copy of a path of the source tree, the baseline has the source's
-- entry at that path, and all other paths as before.
pub apply_to_baseline-entry :
    (op : Op) (tree t : Tree) (q : Text) (e : Entry)
    → (op.kind ≡ mkdir) ⊎ (op.kind ≡ copy)
    → lookup op.path tree ≡ some e
    → lookup q (apply_to_baseline op tree t) ≡ (if eqt op.path q then some e else lookup q t)
unfolding apply_to_baseline
apply_to_baseline-entry op tree t q e (inl k) h = rw k (lookup-record_entry op.path q tree t e h)
apply_to_baseline-entry op tree t q e (inr k) h = rw k (lookup-record_entry op.path q tree t e h)

-- After the ack of a delete, the baseline has nothing at that path, and all other paths as before.
apply_to_baseline-delete :
    (op : Op) (tree t : Tree) (q : Text)
    → op.kind ≡ delete
    → lookup q (apply_to_baseline op tree t) ≡ (if eqt op.path q then none else lookup q t)
unfolding apply_to_baseline
apply_to_baseline-delete op tree t q k = rw k (lookup-erase op.path q t)
