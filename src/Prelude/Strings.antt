-- ===== src/Prelude/Strings.antt =====
-- Go strings as lists of bytes: equality, order (`sort.Strings` and `<` compare bytes), and the
-- `strings` functions that the program calls.
use Prim.Native.Nat.{ℕ, compare, Ordering}
use Prim.Native.Char.{code}
use Prim.Native.String.{String}
use mathlib.Core.Path.{◌≡◌, refl, ap, ◌∙◌, sym}
use mathlib.Core.Logic.{◌↔◌}
use mathlib.Core.Bool.{Bool, true, false}
use mathlib.Core.List.{List, [], ◌∷◌, ◌++◌}
use native.Mathlib.Omega.{arith}
use cs_sync.Prelude.Tests.{◌==◌, if◌then◌else◌}
use cs_sync.Prelude.Lists.{length, drop, length-append}
use mathlib.Core.Logic.{◌≢◌}

abbrev pub Text : Type 0
Text = List ℕ

-- A literal's bytes.
abbrev pub txt : String → Text
txt String.[] = []
txt (String.◌∷◌ c s) = code c ∷ txt s

unfoldable pub eqt : Text → Text → Bool
eqt [] [] = true
eqt [] (b ∷ t) = false
eqt (a ∷ s) [] = false
eqt (a ∷ s) (b ∷ t) = let rest = eqt s t in if a == b then rest else false

-- Byte by byte, a shorter text before its extensions.
unfoldable pub ltt : Text → Text → Bool
ltt [] [] = false
ltt [] (b ∷ t) = true
ltt (a ∷ s) [] = false
ltt (a ∷ s) (b ∷ t) =
    let rest = ltt s t in
    elim (compare a b) [ Ordering.lt ↦ true | Ordering.eq ↦ rest | Ordering.gt ↦ false ]

-- `strings.HasPrefix s prefix`
unfoldable pub has_prefix : Text → Text → Bool
has_prefix s [] = true
has_prefix [] (p ∷ ps) = false
has_prefix (a ∷ s) (p ∷ ps) = let rest = has_prefix s ps in if a == p then rest else false

-- `strings.TrimPrefix`
unfoldable pub trim_prefix : Text → Text → Text
unfolding has_prefix
trim_prefix s p = if has_prefix s p then drop (length p) s else s

pub eqt_refl : (s : Text) → eqt s s ≡ true
unfolding eqt
eqt_refl [] = refl
eqt_refl (a ∷ s) = ground (arith, eqt_refl s)

pub eqt_sound : (s t : Text) → eqt s t ≡ true → s ≡ t
unfolding eqt
eqt_sound [] [] h = refl
eqt_sound [] (b ∷ t) h = cc
eqt_sound (a ∷ s) [] h = cc
eqt_sound (a ∷ s) (b ∷ t) h = ground (arith, eqt_sound s t)

pub eqt_iff : (s t : Text) → (eqt s t ≡ true) ↔ (s ≡ t)
eqt_iff s t = (eqt_sound s t, λ e. ap (eqt s) (sym e) ∙ eqt_refl s)

pub ltt_irrefl : (s : Text) → ltt s s ≡ false
unfolding ltt
ltt_irrefl [] = refl
ltt_irrefl (a ∷ s) = ground (arith, ltt_irrefl s)

pub ltt_trans : (s t u : Text) → ltt s t ≡ true → ltt t u ≡ true → ltt s u ≡ true
unfolding ltt
ltt_trans [] [] u p q = cc
ltt_trans [] (b ∷ t) [] p q = cc
ltt_trans [] (b ∷ t) (c ∷ u) p q = refl
ltt_trans (a ∷ s) [] u p q = cc
ltt_trans (a ∷ s) (b ∷ t) [] p q = cc
ltt_trans (a ∷ s) (b ∷ t) (c ∷ u) p q = ground (arith, ltt_trans s t u)

-- Two texts are ordered one way or the other, or are equal.
pub ltt_total : (s t : Text) → ltt s t ≡ false → eqt s t ≡ false → ltt t s ≡ true
unfolding ltt eqt
ltt_total [] [] p q = cc
ltt_total [] (b ∷ t) p q = cc
ltt_total (a ∷ s) [] p q = refl
ltt_total (a ∷ s) (b ∷ t) p q = ground (arith, ltt_total s t)

pub has_prefix-append : (p s : Text) → has_prefix (p ++ s) p ≡ true
unfolding has_prefix
has_prefix-append [] s = refl
has_prefix-append (a ∷ p) s = ground (arith, has_prefix-append p s)

-- A path sorts before every path below it.
pub ltt-append : (p s : Text) (b : ℕ) → ltt p (p ++ b ∷ s) ≡ true
unfolding ltt
ltt-append [] s b = refl
ltt-append (a ∷ p) s b = ground (arith, ltt-append p s b)

pub trim_prefix-append : (p s : Text) → trim_prefix (p ++ s) p ≡ s
unfolding trim_prefix
trim_prefix-append p s = rw (has_prefix-append p s) (drop-length p s)
  where
    drop-length : (p s : Text) → drop (length p) (p ++ s) ≡ s
    drop-length [] s = refl
    drop-length (a ∷ p) s = drop-length p s

pub eqt-length : (s t : Text) → length s ≢ length t → eqt s t ≡ false
eqt-length s t h = ground (arith, eqt_iff s t, λ (e : s ≡ t). h (ap length e))

-- A common ending makes no difference.
pub eqt-append_right : (s t u : Text) → eqt (s ++ u) (t ++ u) ≡ eqt s t
unfolding eqt
eqt-append_right [] [] u = eqt_refl u
eqt-append_right [] (b ∷ t) u = eqt-length u (b ∷ t ++ u) (omega (arith, length-append t u))
eqt-append_right (a ∷ s) [] u = eqt-length (a ∷ s ++ u) u (omega (arith, length-append s u))
eqt-append_right (a ∷ s) (b ∷ t) u = ground (arith, eqt-append_right s t u)
