-- ===== src/Service/Acls.antt =====
-- main.go: `chooseACLSource` and `aclCSVMatches`.
use mathlib.Core.Bool.{◌&&◌}
use cs_sync.Prelude.{
  eqt, Text, txt, eqt_iff, ◌≡◌, refl, inl, inr, Bool, true, false, Option, none, some, [], ◌∷◌,
  arith, ltb, if◌then◌else◌, Bool-cases, length,
}
use cs_sync.Model.{dir, type_eq, Entry, Tree}
use cs_sync.Prelude.Dict.{Dict, contains, lookup, keys}

-- A table fits if every folder that it lists is a folder of the primary.
unfoldable pub acl_csv_matches : Dict Text → Tree → Bool
unfolding lookup
acl_csv_matches [] tree = true
acl_csv_matches ((p, text) ∷ csv) tree =
    let rest = acl_csv_matches csv tree in
    let is_folder : Bool = elim (lookup p tree) [ none ↦ false | some e ↦ type_eq e.type dir ] in
    if eqt p (txt ".") then rest else if is_folder then rest else false

-- The primary's table, else the secondary's, else none.
unfoldable pub choose_acl_source : Dict Text → Dict Text → Tree → Option (Dict Text)
unfolding acl_csv_matches
choose_acl_source primary_csv secondary_csv tree =
    if ltb 0 (length primary_csv) && acl_csv_matches primary_csv tree
    then some primary_csv
    else if ltb 0 (length secondary_csv) && acl_csv_matches secondary_csv tree
    then some secondary_csv
    else none

abbrev pub IsFolder : Tree → Text → Type 0
IsFolder tree p = (e : Entry) × (lookup p tree ≡ some e) × (type_eq e.type dir ≡ true)

first-IsFolder :
    (q text : Text) (csv : Dict Text) (tree : Tree)
    → eqt q (txt ".") ≡ false
    → acl_csv_matches ((q, text) ∷ csv) tree ≡ true
    → IsFolder tree q
unfolding acl_csv_matches
first-IsFolder q text csv tree apart h = go (lookup q tree) refl
  where
    go : (o : Option Entry) → lookup q tree ≡ o → IsFolder tree q
    go none e = absurd (ground (arith, h, apart, e))
    go (some x) e = (x, e, ground (arith, h, apart, e))

rest_matches :
    (q text : Text) (csv : Dict Text) (tree : Tree)
    → acl_csv_matches ((q, text) ∷ csv) tree ≡ true
    → acl_csv_matches csv tree ≡ true
unfolding acl_csv_matches
rest_matches q text csv tree h = ground (arith, h)

acl_csv_matches_sound :
    (csv : Dict Text) (tree : Tree) (p : Text)
    → acl_csv_matches csv tree ≡ true
    → contains p (keys csv) ≡ true
    → eqt p (txt ".") ≡ false
    → IsFolder tree p
unfolding contains keys
acl_csv_matches_sound [] tree p h has apart = absurd (ground (arith, has))
acl_csv_matches_sound ((q, text) ∷ csv) tree p h has apart = elim (Bool-cases (eqt q p)) [
  | inl e ↦
      let same : q ≡ p = (eqt_iff q p).0 e in
      rw same at (first-IsFolder q text csv tree (rw same apart) h)
  | inr e ↦
      acl_csv_matches_sound csv tree p (rest_matches q text csv tree h) (ground (arith, has, e))
        apart
]

-- A table that is chosen lists, besides the root, only folders that the primary has, so that a
-- restore touches nothing else.
pub choose_acl_source_sound :
    (primary_csv secondary_csv csv : Dict Text) (tree : Tree) (p : Text)
    → choose_acl_source primary_csv secondary_csv tree ≡ some csv
    → contains p (keys csv) ≡ true
    → eqt p (txt ".") ≡ false
    → IsFolder tree p
unfolding choose_acl_source
choose_acl_source_sound primary_csv secondary_csv csv tree p chosen has apart =
    acl_csv_matches_sound csv tree p (ground (arith, chosen)) has apart
