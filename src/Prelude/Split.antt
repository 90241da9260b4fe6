-- ===== src/Prelude/Split.antt =====
-- `strings.Index`, `strings.LastIndex`, `strings.Contains` and `strings.TrimSpace` for one byte, as
-- the parts before and after it.
use Prim.Native.Nat.{ℕ}
use mathlib.Core.Path.{◌≡◌, refl}
use mathlib.Core.Bool.{Bool, true, false, ◌||◌, ◌&&◌}
use mathlib.Core.List.{List, [], ◌∷◌, ◌++◌, reverse, reverse-append, reverse-reverse}
use mathlib.Core.Option.{Option, none, some}
use native.Mathlib.Omega.{arith}
use cs_sync.Prelude.Tests.{◌==◌, leb, if◌then◌else◌}
use cs_sync.Prelude.Strings.{Text}
use cs_sync.Prelude.Lists.{All, All-append}

unfoldable pub has_byte : ℕ → Text → Bool
has_byte c [] = false
has_byte c (d ∷ s) = let rest = has_byte c s in if d == c then true else rest

cons_first : ℕ → Option (Text × Text) → Option (Text × Text)
cons_first d none = none
cons_first d (some (s, t)) = some (d ∷ s, t)

-- At the first occurrence: `s[:i]` and `s[i+1:]` for `i := strings.Index(s, c)`.
unfoldable pub split_first : ℕ → Text → Option (Text × Text)
unfolding cons_first
split_first c [] = none
split_first c (d ∷ s) =
    let rest = split_first c s in if d == c then some ([], s) else cons_first d rest

-- At the last occurrence.
last_or : ℕ → ℕ → Text → Option (Text × Text) → Option (Text × Text)
last_or c d s none = if d == c then some ([], s) else none
last_or c d s (some (l, r)) = some (d ∷ l, r)

unfoldable pub split_last : ℕ → Text → Option (Text × Text)
unfolding last_or
split_last c [] = none
split_last c (d ∷ s) = last_or c d s (split_last c s)

-- `strings.Split` at a byte: the parts between its occurrences.
cons_part : ℕ → List Text → List Text
cons_part d [] = (d ∷ []) ∷ []
cons_part d (p ∷ ps) = (d ∷ p) ∷ ps

unfoldable pub split_on : ℕ → Text → List Text
unfolding cons_part
split_on c [] = [] ∷ []
split_on c (d ∷ s) = let ps = split_on c s in if d == c then [] ∷ ps else cons_part d ps

-- The white space of ASCII; `TrimSpace` drops the other spaces of Unicode too.
unfoldable pub is_space : ℕ → Bool
is_space c = c == 32 || (leb 9 c && leb c 13)

unfoldable pub trim_left : Text → Text
unfolding is_space
trim_left [] = []
trim_left (c ∷ s) = let rest = trim_left s in if is_space c then rest else c ∷ s

unfoldable pub trim_space : Text → Text
unfolding trim_left
trim_space s = reverse (trim_left (reverse (trim_left s)))

-- `strings.Fields`: the parts between white space, none of them empty.
drop_blank : List Text → List Text
drop_blank [] = []
drop_blank ([] ∷ ps) = drop_blank ps
drop_blank ((c ∷ p) ∷ ps) = (c ∷ p) ∷ drop_blank ps

words_of : Text → List Text
words_of [] = [] ∷ []
words_of (c ∷ s) = let ps = words_of s in if is_space c then [] ∷ ps else cons_part c ps

unfoldable pub fields : Text → List Text
unfolding drop_blank words_of cons_part is_space
fields s = drop_blank (words_of s)

pub split_first-none : (c : ℕ) (s : Text) → has_byte c s ≡ false → split_first c s ≡ none
unfolding has_byte split_first
split_first-none c [] h = refl
split_first-none c (d ∷ s) h = ground (arith, split_first-none c s)

pub split_first-append :
    (c : ℕ) (s t : Text) → has_byte c s ≡ false → split_first c (s ++ c ∷ t) ≡ some (s, t)
unfolding has_byte split_first
split_first-append c [] t h = ground arith
split_first-append c (d ∷ s) t h = ground (arith, split_first-append c s t)

pub split_last-none : (c : ℕ) (s : Text) → has_byte c s ≡ false → split_last c s ≡ none
unfolding has_byte split_last
split_last-none c [] h = refl
split_last-none c (d ∷ s) h = ground (arith, split_last-none c s)

pub split_last-append :
    (c : ℕ) (s t : Text) → has_byte c t ≡ false → split_last c (s ++ c ∷ t) ≡ some (s, t)
unfolding has_byte split_last
split_last-append c [] t h = ground (arith, split_last-none c t h)
split_last-append c (d ∷ s) t h = ground (arith, split_last-append c s t h)

pub has_byte-append : (c : ℕ) (s t : Text) → has_byte c (s ++ t) ≡ (has_byte c s || has_byte c t)
unfolding has_byte
has_byte-append c [] t = refl
has_byte-append c (d ∷ s) t = ground (arith, has_byte-append c s t)

NotSpace : ℕ → Type 0
NotSpace c = is_space c ≡ false

trim_left_of : (s : Text) → All NotSpace s → trim_left s ≡ s
unfolding trim_left NotSpace
trim_left_of [] h = refl
trim_left_of (c ∷ s) (hc, h) = rw hc

All-reverse : (s : Text) → All NotSpace s → All NotSpace (reverse s)
All-reverse [] h = tt
All-reverse (c ∷ s) (hc, h) =
    rw (reverse-append (c ∷ []) s)
      (All-append NotSpace (reverse s) (c ∷ []) (All-reverse s h) (hc, tt))

words_of_word : (s : Text) → All NotSpace s → words_of s ≡ s ∷ []
unfolding words_of cons_part NotSpace
words_of_word [] h = refl
words_of_word (c ∷ s) (hc, h) = rw (hc, words_of_word s h)

words_of-append : (s t : Text) → All NotSpace s → words_of (s ++ 32 ∷ t) ≡ s ∷ words_of t
unfolding words_of cons_part is_space NotSpace
words_of-append [] t h = refl
words_of-append (c ∷ s) t (hc, h) = rw (hc, words_of-append s t h)

-- A text that is not empty and has no white space is one field.
pub fields_word :
    (c : ℕ) (s : Text) → All (λ c. is_space c ≡ false) (c ∷ s) → fields (c ∷ s) ≡ (c ∷ s) ∷ []
unfolding fields drop_blank NotSpace
fields_word c s h = rw (words_of_word (c ∷ s) h)

pub fields-append :
    (c : ℕ) (s t : Text)
    → All (λ c. is_space c ≡ false) (c ∷ s)
    → fields (c ∷ s ++ 32 ∷ t) ≡ (c ∷ s) ∷ fields t
unfolding fields drop_blank NotSpace
fields-append c s t h = rw (words_of-append (c ∷ s) t h)

pub has_byte_word : (s : Text) → All (λ c. is_space c ≡ false) s → has_byte 10 s ≡ false
unfolding has_byte is_space
has_byte_word [] h = refl
has_byte_word (c ∷ s) (hc, h) = ground (arith, has_byte_word s h)

-- A text without white space is left as it is.
pub trim_space_of : (s : Text) → All (λ c. is_space c ≡ false) s → trim_space s ≡ s
unfolding trim_space NotSpace
trim_space_of s h =
    rw (trim_left_of s h, trim_left_of (reverse s) (All-reverse s h)) (reverse-reverse s)
