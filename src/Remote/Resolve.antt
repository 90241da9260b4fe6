-- ===== src/Remote/Resolve.antt =====
-- `Receiver.full` of receiver.go: where a path from the wire lands under the destination.
use cs_sync.Prelude.{
  Text, txt, ◌≡◌, refl, true, false, Option, none, some, List, ◌++◌, arith, if◌then◌else◌,
}
use cs_sync.Os.{errorf, Outcome, done, failed}
use cs_sync.Os.Paths.{FilePath, clean, join, rel, escapes, NoDots, join-NoDots, rel-below}

unfoldable pub full : FilePath → Text → Outcome FilePath
unfolding clean join rel escapes
full dest path =
    let c = clean path in
    if c.rooted
    then failed (errorf (txt "refusing absolute path"))
    else elim (rel dest (join dest c)) [
      | none ↦ failed (errorf (txt "path escapes dest"))
      | some r ↦ if escapes r then failed (errorf (txt "path escapes dest")) else done (join dest c)
    ]

-- At or below the destination, with no ".." on the way.
pub record IsUnder (dest p : FilePath) : Type 0 where
  pub below : List Text
  pub parts_eq : p.parts ≡ dest.parts ++ below
  pub rooted_eq : p.rooted ≡ dest.rooted
  pub no_dots : NoDots p.parts

-- For a rooted destination without "..", a path that the receiver accepts resolves to the
-- destination or to a place below it, without "..".
pub full-IsUnder :
    (dest : FilePath) (path : Text) (p : FilePath)
    → dest.rooted ≡ true
    → NoDots dest.parts
    → full dest path ≡ done p
    → IsUnder dest p
unfolding full
full-IsUnder dest path p rooted plain h = go (rel dest (join dest (clean path))) refl
  where
    go : (o : Option FilePath) → rel dest (join dest (clean path)) ≡ o → IsUnder dest p
    go none e = absurd (ground (arith, e, h))
    go (some r) e =
        let stays : escapes r ≡ false = ground (arith, e, h) in
        let same : join dest (clean path) ≡ p = ground (arith, e, h) in
        let (ps, at) = rel-below dest (join dest (clean path)) r e stays in
        let u : IsUnder dest (join dest (clean path)) = record {
          below = ps;
          parts_eq = at;
          rooted_eq = unfold join in refl;
          no_dots = join-NoDots dest (clean path) rooted plain;
        } in
        rw same at u
