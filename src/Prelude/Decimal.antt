-- ===== src/Prelude/Decimal.antt =====
-- `strconv.Atoi` and `%d`: signed decimal numbers as text.
use Prim.Native.Nat.{ℕ, zero, suc, ◌+◌, ◌-◌, ◌*◌, ◌/◌, ◌%◌, ◌^◌, ◌<◌}
use mathlib.Core.Path.{◌≡◌, refl, sym, ap, ◌∙◌}
use mathlib.Core.Logic.{inl, inr, ◌≢◌}
use mathlib.Core.Bool.{Bool, true, ◌&&◌}
use mathlib.Core.List.{[], ◌∷◌}
use mathlib.Core.Option.{Option, none, some, some-injective}
use native.Mathlib.Omega.{arith}
use cs_sync.Prelude.Tests.{◌==◌, ltb, leb, if◌then◌else◌, Bool-cases}
use cs_sync.Prelude.Lists.{All}
use cs_sync.Prelude.Strings.{Text}

unfoldable pub is_digit : ℕ → Bool
is_digit c = leb 48 c && leb c 57

-- The value of digits read after `n`; `none` at another byte.
unfoldable pub digits_value : ℕ → Text → Option ℕ
unfolding is_digit
digits_value n [] = some n
digits_value n (c ∷ s) =
    let rest = digits_value (n * 10 + (c - 48)) s in if is_digit c then rest else none

-- An `int`: `minus n` is -n.
pub data Signed : Type 0 where
  plus minus : ℕ → Signed

in_range : Signed → Option Signed
in_range (plus n) = if ltb n (2 ^ 63) then some (plus n) else none
in_range (minus n) = if leb n (2 ^ 63) then some (minus n) else none

unsigned : Text → Option ℕ
unfolding digits_value
unsigned [] = none
unsigned (c ∷ s) = digits_value 0 (c ∷ s)

bind_range : (ℕ → Signed) → Option ℕ → Option Signed
unfolding in_range
bind_range sign none = none
bind_range sign (some n) = in_range (sign n)

unfoldable pub atoi : Text → Option Signed
unfolding unsigned bind_range
atoi [] = none
atoi (c ∷ s) =
    if c == b'-'
    then bind_range minus (unsigned s)
    else if c == b'+'
    then bind_range plus (unsigned s)
    else bind_range plus (unsigned (c ∷ s))

-- The digits of `n` before `acc`; the fuel is above the number of digits.
digits_onto : ℕ → ℕ → Text → Text
digits_onto zero n acc = acc
digits_onto (suc f) n acc =
    let rest = digits_onto f (n / 10) ((48 + n % 10) ∷ acc) in
    if ltb n 10 then (48 + n) ∷ acc else rest

-- `%d` of a number that is not negative.
unfoldable pub decimal : ℕ → Text
unfolding digits_onto
decimal n = digits_onto (suc n) n []

digits_value-digits_onto :
    (f n : ℕ) (acc : Text) → n < f → digits_value 0 (digits_onto f n acc) ≡ digits_value n acc
unfolding digits_value digits_onto is_digit
digits_value-digits_onto zero n acc h = absurd (omega arith)
digits_value-digits_onto (suc f) n acc h = elim (Bool-cases (ltb n 10)) [
  | inl e ↦ rw e (ground arith)
  | inr e ↦
      rw (e, digits_value-digits_onto f (n / 10) ((48 + n % 10) ∷ acc) (ground arith))
        (ground arith)
]

-- The first byte of a printed number is a digit.
abbrev pub StartsWithDigit : Text → Type 0
StartsWithDigit [] = ⊥
StartsWithDigit (c ∷ s) = is_digit c ≡ true

digits_onto-StartsWithDigit : (f n : ℕ) (acc : Text) → n < f → StartsWithDigit (digits_onto f n acc)
unfolding digits_onto is_digit
digits_onto-StartsWithDigit zero n acc h = absurd (omega arith)
digits_onto-StartsWithDigit (suc f) n acc h = elim (Bool-cases (ltb n 10)) [
  | inl e ↦ rw e (ground arith)
  | inr e ↦ rw e (digits_onto-StartsWithDigit f (n / 10) ((48 + n % 10) ∷ acc) (ground arith))
]

abbrev pub IsDigits : Text → Type 0
IsDigits = All (λ c. is_digit c ≡ true)

digits_onto-IsDigits : (f n : ℕ) (acc : Text) → IsDigits acc → IsDigits (digits_onto f n acc)
unfolding digits_onto is_digit
digits_onto-IsDigits zero n acc h = h
digits_onto-IsDigits (suc f) n acc h = elim (Bool-cases (ltb n 10)) [
  | inl e ↦ rw e (ground arith, h)
  | inr e ↦ rw e (digits_onto-IsDigits f (n / 10) ((48 + n % 10) ∷ acc) (ground arith, h))
]

pub decimal-IsDigits : (n : ℕ) → IsDigits (decimal n)
unfolding decimal
decimal-IsDigits n = digits_onto-IsDigits (suc n) n [] tt

atoi-digits :
    (s : Text) (n : ℕ)
    → StartsWithDigit s
    → digits_value 0 s ≡ some n
    → n < 2 ^ 63
    → atoi s ≡ some (plus n)
unfolding atoi is_digit in_range
atoi-digits [] n d v h = absurd d
atoi-digits (c ∷ s) n d v h = ground arith

-- Reading a printed number gives it back.
pub atoi-decimal : (n : ℕ) → n < 2 ^ 63 → atoi (decimal n) ≡ some (plus n)
unfolding decimal
atoi-decimal n h =
    atoi-digits (decimal n) n (digits_onto-StartsWithDigit (suc n) n [] (omega arith))
      (digits_value-digits_onto (suc n) n [] (omega arith) ∙ (unfold digits_value in refl)) h

StartsWithDigit-ne-nil : (s : Text) → StartsWithDigit s → s ≢ []
StartsWithDigit-ne-nil [] h e = h
StartsWithDigit-ne-nil (c ∷ s) h e = cc

pub decimal-ne-nil : (n : ℕ) → decimal n ≢ []
unfolding decimal
decimal-ne-nil n =
    StartsWithDigit-ne-nil (decimal n) (digits_onto-StartsWithDigit (suc n) n [] (omega arith))

digits_value-decimal : (n : ℕ) → digits_value 0 (decimal n) ≡ some n
unfolding decimal
digits_value-decimal n =
    digits_value-digits_onto (suc n) n [] (omega arith) ∙ (unfold digits_value in refl)

pub decimal_injective : (m n : ℕ) → decimal m ≡ decimal n → m ≡ n
decimal_injective m n e =
    some-injective m n
      (sym (digits_value-decimal m) ∙ ap (digits_value 0) e ∙ digits_value-decimal n)
