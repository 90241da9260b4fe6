-- ===== src/Reconcile/Paths.antt =====
-- Which paths a pass visits: the union of the three trees less the renamed paths, in byte order.
use mathlib.Core.Bool.{◌||◌, ◌&&◌}
use cs_sync.Prelude.{
  Text, eqt, eqt_iff, ◌≡◌, refl, ◌∙◌, inl, inr, true, false, not, List, [], ◌∷◌, arith,
  if◌then◌else◌, Bool-cases, keep_if, All, All-map,
}
use cs_sync.Model.{Tree}
use cs_sync.Prelude.Dict.{contains, keys}
use cs_sync.Prelude.Strings.{ltt, ltt_trans, ltt_total}
use cs_sync.Reconcile.{add_keys, insert_sorted, sort_texts, diff_paths}

module _ (k : Text) where
  contains-insert_sorted :
      (p : Text) (ps : List Text)
      → contains k (insert_sorted p ps) ≡ (if eqt p k then true else contains k ps)
  unfolding contains insert_sorted
  contains-insert_sorted p [] = refl
  contains-insert_sorted p (q ∷ qs) = ground (arith, contains-insert_sorted p qs)

  contains-sort_texts : (ps : List Text) → contains k (sort_texts ps) ≡ contains k ps
  unfolding contains sort_texts
  contains-sort_texts [] = refl
  contains-sort_texts (p ∷ ps) =
      ground (arith, contains-insert_sorted p (sort_texts ps), contains-sort_texts ps)

  contains-add_keys :
      (ks ps : List Text) → contains k (add_keys ks ps) ≡ (contains k ks || contains k ps)
  unfolding contains add_keys
  contains-add_keys [] ps = refl
  contains-add_keys (j ∷ ks) ps =
      ground (arith, eqt_iff j k, contains-add_keys ks ps, contains-add_keys ks (j ∷ ps))

  contains-keep_if :
      (renamed ps : List Text)
      → contains k (keep_if (λ p. not (contains p renamed)) ps)
        ≡ (contains k ps && not (contains k renamed))
  unfolding contains
  contains-keep_if renamed [] = refl
  contains-keep_if renamed (p ∷ ps) = ground (arith, eqt_iff p k, contains-keep_if renamed ps)

  -- A path is visited exactly if some tree has it and rename detection has not resolved it.
  pub contains-diff_paths :
      (b pr se : Tree) (renamed : List Text)
      → contains k (diff_paths b pr se renamed) ≡ (
          (contains k (keys se) || (contains k (keys pr) || contains k (keys b)))
          && not (contains k renamed))
  unfolding diff_paths contains
  contains-diff_paths b pr se renamed =
      let bs = add_keys (keys b) [] in
      let ps = add_keys (keys pr) bs in
      let all = add_keys (keys se) ps in
      ground (
        arith,
        contains-sort_texts (keep_if (λ p. not (contains p renamed)) all),
        contains-keep_if renamed all,
        contains-add_keys (keys se) ps,
        contains-add_keys (keys pr) bs,
        contains-add_keys (keys b) [],
      )

-- Each path sorts before the later ones.
abbrev pub IsSorted : List Text → Type 0
IsSorted [] = Unit
IsSorted (p ∷ ps) = All (λ q. ltt p q ≡ true) ps × IsSorted ps

All-insert_sorted :
    (q p : Text) (ps : List Text)
    → ltt q p ≡ true
    → All (λ x. ltt q x ≡ true) ps
    → All (λ x. ltt q x ≡ true) (insert_sorted p ps)
unfolding insert_sorted
All-insert_sorted q p [] h hs = (h, tt)
All-insert_sorted q p (x ∷ ps) h (hx, hs) = elim (Bool-cases (ltt x p)) [
  | inl e ↦ rw e (hx, All-insert_sorted q p ps h hs)
  | inr e ↦ rw e (h, (hx, hs))
]

insert_sorted-IsSorted :
    (p : Text) (ps : List Text)
    → contains p ps ≡ false
    → IsSorted ps
    → IsSorted (insert_sorted p ps)
unfolding insert_sorted contains
insert_sorted-IsSorted p [] h s = (tt, tt)
insert_sorted-IsSorted p (q ∷ ps) h (hq, s) = elim (Bool-cases (ltt q p)) [
  | inl e ↦
      rw e
        (All-insert_sorted q p ps e hq, insert_sorted-IsSorted p ps (ground (arith, eqt_iff q p)) s)
  | inr e ↦
      let pq : ltt p q ≡ true = ltt_total q p e (ground arith) in
      rw e ((pq, All-map _ _ ps (λ x h. ltt_trans p q x pq h) hq), (hq, s))
]

-- No path is listed twice.
abbrev NoDup : List Text → Type 0
NoDup [] = Unit
NoDup (p ∷ ps) = (contains p ps ≡ false) × NoDup ps

add_keys-NoDup : (ks ps : List Text) → NoDup ps → NoDup (add_keys ks ps)
unfolding add_keys
add_keys-NoDup [] ps h = h
add_keys-NoDup (k ∷ ks) ps h = elim (Bool-cases (contains k ps)) [
  | inl e ↦ rw e (add_keys-NoDup ks ps h)
  | inr e ↦ rw e (add_keys-NoDup ks (k ∷ ps) (e, h))
]

keep_if-NoDup :
    (renamed ps : List Text) → NoDup ps → NoDup (keep_if (λ p. not (contains p renamed)) ps)
keep_if-NoDup renamed [] h = h
keep_if-NoDup renamed (p ∷ ps) (hp, h) = elim (Bool-cases (contains p renamed)) [
  | inl e ↦ rw e (keep_if-NoDup renamed ps h)
  | inr e ↦ rw e (ground (arith, contains-keep_if p renamed ps, hp), keep_if-NoDup renamed ps h)
]

sort_texts-IsSorted : (ps : List Text) → NoDup ps → IsSorted (sort_texts ps)
unfolding sort_texts
sort_texts-IsSorted [] h = tt
sort_texts-IsSorted (p ∷ ps) (hp, h) =
    insert_sorted-IsSorted p (sort_texts ps) (contains-sort_texts p ps ∙ hp)
      (sort_texts-IsSorted ps h)

-- The visited paths strictly increase, so each is visited once and a directory before its contents.
pub diff_paths-IsSorted :
    (b pr se : Tree) (renamed : List Text) → IsSorted (diff_paths b pr se renamed)
unfolding diff_paths
diff_paths-IsSorted b pr se renamed = sort_texts-IsSorted _ (
    keep_if-NoDup renamed _
      (add_keys-NoDup (keys se) _ (add_keys-NoDup (keys pr) _ (add_keys-NoDup (keys b) [] tt))))
