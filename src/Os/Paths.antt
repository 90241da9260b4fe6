-- ===== src/Os/Paths.antt =====
-- path/filepath on Unix: a path is kept as `Clean` leaves it, its parts without separators.
-- `filepath.FromSlash` and `filepath.ToSlash` change nothing there.
use mathlib.Core.Bool.{◌||◌, ◌&&◌}
use mathlib.Core.List.{reverse, append-nil, reverse-append, reverse-cons, reverse-reverse}
use mathlib.Core.Path.{ap₂}
use cs_sync.Prelude.{
  eqt, Text, txt, eqt_iff, eqt_refl, ℕ, ◌≡◌, refl, sym, ap, ◌∙◌, inl, inr, Bool, true, false, not,
  Option, none, some, List, [], ◌∷◌, ◌++◌, map, arith, ◌==◌, if◌then◌else◌, Bool-cases, All,
  All-append,
}
use cs_sync.Prelude.Dict.{contains}
use cs_sync.Prelude.Strings.{has_prefix}

-- "." is the path that is not rooted and has no parts, "/" the rooted one.
pub record FilePath : Type 0 where
  pub rooted : Bool
  pub parts : List Text

abbrev dot_dot : Text
dot_dot = txt ".."

-- The pieces between slashes.
cons_piece : ℕ → List Text → List Text
cons_piece c [] = (c ∷ []) ∷ []
cons_piece c (p ∷ ps) = (c ∷ p) ∷ ps

unfoldable pub pieces : Text → List Text
unfolding cons_piece
pieces [] = [] ∷ []
pieces (c ∷ s) = let ps = pieces s in if c == b'/' then [] ∷ ps else cons_piece c ps

-- The last part goes, unless it is a ".." that could not be resolved.
go_up : Bool → List Text → List Text
go_up rooted [] = if rooted then [] else dot_dot ∷ []
go_up rooted (p ∷ ps) = if eqt p dot_dot then dot_dot ∷ p ∷ ps else ps

clean_piece : Bool → Text → List Text → List Text
unfolding go_up
clean_piece rooted c st =
    if eqt c [] || eqt c (txt ".") then st else if eqt c dot_dot then go_up rooted st else c ∷ st

-- `st` is what is kept so far, the last part first.
clean_onto : Bool → List Text → List Text → List Text
unfolding clean_piece
clean_onto rooted [] st = st
clean_onto rooted (c ∷ cs) st = clean_onto rooted cs (clean_piece rooted c st)

unfoldable pub clean : Text → FilePath
unfolding clean_onto pieces has_prefix
clean s =
    let rooted = has_prefix s (txt "/") in
    record { rooted = rooted; parts = reverse (clean_onto rooted (pieces s) []) }

-- `filepath.Join` of two clean paths.
unfoldable pub join : FilePath → FilePath → FilePath
unfolding clean_onto
join base p = record {
  rooted = base.rooted;
  parts = reverse (clean_onto base.rooted p.parts (reverse base.parts));
}

-- `filepath.Dir`
unfoldable pub drop_last : List Text → List Text
drop_last [] = []
drop_last (p ∷ []) = []
drop_last (p ∷ q ∷ ps) = p ∷ drop_last (q ∷ ps)

unfoldable pub dir_of : FilePath → FilePath
unfolding drop_last
dir_of p = record p { parts = drop_last p.parts }

-- What is left of two paths after their common beginning.
strip_common : List Text → List Text → List Text × List Text
strip_common [] ts = ([], ts)
strip_common (b ∷ bs) [] = (b ∷ bs, [])
strip_common (b ∷ bs) (t ∷ ts) =
    let rest = strip_common bs ts in if eqt b t then rest else (b ∷ bs, t ∷ ts)

same_root : Bool → Bool → Bool
same_root true b = b
same_root false b = not b

-- `filepath.Rel`
unfoldable pub rel : FilePath → FilePath → Option FilePath
unfolding strip_common same_root
rel base target =
    let (bs, ts) = strip_common base.parts target.parts in
    if same_root base.rooted target.rooted && not (contains dot_dot bs)
    then some (record { rooted = false; parts = map (λ _. dot_dot) bs ++ ts })
    else none

first_is_up : List Text → Bool
first_is_up [] = false
first_is_up (c ∷ cs) = eqt c dot_dot

-- `p == ".."` or `p` begins with "../".
unfoldable pub escapes : FilePath → Bool
unfolding first_is_up
escapes p = first_is_up p.parts

abbrev pub NoDots : List Text → Type 0
NoDots = All (λ c. eqt c dot_dot ≡ false)

clean_piece-NoDots : (c : Text) (st : List Text) → NoDots st → NoDots (clean_piece true c st)
unfolding clean_piece
clean_piece-NoDots c st h = elim (Bool-cases (eqt c [] || eqt c (txt "."))) [
  | inl e ↦ rw (e, clean_piece) h
  | inr e ↦ elim (Bool-cases (eqt c dot_dot)) [
    | inl e' ↦ rw (e, clean_piece, e') (up st h)
    | inr e' ↦ rw (e, clean_piece, e') (e', h)
  ]
]
  where
    up : (st : List Text) → NoDots st → NoDots (go_up true st)
    up [] h = tt
    up (p ∷ st) (hp, h) = rw hp h

clean_onto-NoDots : (cs st : List Text) → NoDots st → NoDots (clean_onto true cs st)
unfolding clean_onto
clean_onto-NoDots [] st h = h
clean_onto-NoDots (c ∷ cs) st h = clean_onto-NoDots cs _ (clean_piece-NoDots c st h)

reverse-NoDots : (cs : List Text) → NoDots cs → NoDots (reverse cs)
reverse-NoDots [] h = tt
reverse-NoDots (c ∷ cs) (hc, h) =
    rw (reverse-append (c ∷ []) cs)
      (All-append _ (reverse cs) (c ∷ []) (reverse-NoDots cs h) (hc, tt))

pub NoDots-append : (xs ys : List Text) → NoDots xs → NoDots ys → NoDots (xs ++ ys)
NoDots-append xs ys = All-append _ xs ys

-- A rooted path joined with any path has no ".." left.
pub join-NoDots :
    (base p : FilePath) → base.rooted ≡ true → NoDots base.parts → NoDots (join base p).parts
unfolding join
join-NoDots base p rooted h = rw rooted (
    reverse-NoDots _ (clean_onto-NoDots p.parts (reverse base.parts) (reverse-NoDots base.parts h)))

-- One plain name below a path.
pub join-name :
    (base : FilePath) (s : Text)
    → eqt s [] ≡ false
    → eqt s (txt ".") ≡ false
    → eqt s dot_dot ≡ false
    → (join base (record { rooted = false; parts = s ∷ [] })).parts ≡ base.parts ++ s ∷ []
unfolding join clean_onto clean_piece
join-name base s zero_dots one two =
    rw (zero_dots, one, two)
      (reverse-cons s (reverse base.parts) ∙ ap (λ z. z ++ s ∷ []) (reverse-reverse base.parts))

strip_common_lem :
    (bs ts : List Text)
    → (cs : List Text) × (bs ≡ cs ++ (strip_common bs ts).0) × (ts ≡ cs ++ (strip_common bs ts).1)
unfolding strip_common
strip_common_lem [] ts = ([], refl, refl)
strip_common_lem (b ∷ bs) [] = ([], refl, refl)
strip_common_lem (b ∷ bs) (t ∷ ts) = elim (Bool-cases (eqt b t)) [
  | inl e ↦
      let (cs, hb, ht) = strip_common_lem bs ts in
      rw e (b ∷ cs, ap (◌∷◌ b) hb, ap₂ ◌∷◌ (sym ((eqt_iff b t).0 e)) ht)
  | inr e ↦ rw e ([], refl, refl)
]

-- A relative path from `base` that does not climb says that the target lies at or below `base`.
pub rel-below :
    (base target r : FilePath)
    → rel base target ≡ some r
    → escapes r ≡ false
    → (ps : List Text) × (target.parts ≡ base.parts ++ ps)
unfolding rel escapes
rel-below base target r h stays =
    let (cs, hb, ht) = strip_common_lem base.parts target.parts in
    let none_left : (strip_common base.parts target.parts).0 ≡ [] =
      left (strip_common base.parts target.parts).0 (strip_common base.parts target.parts).1
        (ground (arith, h, stays)) in
    (
      (strip_common base.parts target.parts).1,
      ht
          ∙ ap (λ l. l ++ (strip_common base.parts target.parts).1)
              (sym (rw (none_left, append-nil) at hb)),
    )
  where
    left : (bs ts : List Text) → first_is_up (map (λ _. dot_dot) bs ++ ts) ≡ false → bs ≡ []
    left [] ts h = refl
    left (b ∷ bs) ts h = cc (eqt_refl dot_dot)
