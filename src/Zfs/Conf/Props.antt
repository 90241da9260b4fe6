-- ===== src/Zfs/Conf/Props.antt =====
-- pveconf.go: the names of the chunk properties, and the chunks of an encoded configuration.
use cs_sync.Prelude.{
  eqt, Text, txt, eqt_iff, ℕ, zero, suc, ◌≤◌, ◌≡◌, refl, sym, ap, ◌∙◌, ◌≢◌, inl, inr, true, false,
  List, [], ◌∷◌, ◌++◌, arith, ◌==◌, ==_iff, Bool-cases, length, take, drop, All,
}
use cs_sync.Prelude.Decimal.{is_digit, decimal, IsDigits, decimal-IsDigits, decimal_injective}
use cs_sync.Prelude.Split.{has_byte, is_space}
use cs_sync.Zfs.Command.{is_unset}
use cs_sync.Zfs.Conf.{conf_prop, chunks_on, chunks_of}

-- No chunk's name has a "=", and no two have one name.
pub conf_prop-has_byte : (i : ℕ) → has_byte b'=' (conf_prop i) ≡ false
unfolding conf_prop has_byte is_digit
conf_prop-has_byte i = elim (Bool-cases (i == 0)) [
  | inl e ↦ rw e refl
  | inr e ↦ rw e (digits_have_no (decimal i) (decimal-IsDigits i))
]
  where
    digits_have_no : (s : Text) → IsDigits s → has_byte b'=' s ≡ false
    digits_have_no [] h = refl
    digits_have_no (c ∷ s) (hc, h) = ground (arith, digits_have_no s h)

nil-ne-cons : {c : ℕ} {s : Text} → [] ≢ c ∷ s
nil-ne-cons e = cc

conf_prop_injective : (i j : ℕ) → conf_prop i ≡ conf_prop j → i ≡ j
unfolding conf_prop
conf_prop_injective i j e = elim (Bool-cases (i == 0)) [
  | inl a ↦ elim (Bool-cases (j == 0)) [
    | inl b ↦ omega (arith, (==_iff i 0).0 a, (==_iff j 0).0 b)
    | inr b ↦ absurd (nil-ne-cons (rw (a, b) at (ap (drop 10) e)))
  ]
  | inr a ↦ elim (Bool-cases (j == 0)) [
    | inl b ↦ absurd (nil-ne-cons (sym (rw (a, b) at (ap (drop 10) e))))
    | inr b ↦ decimal_injective i j (rw (a, b) at (ap (drop 11) e))
  ]
]

pub eqt-conf_prop : (i j : ℕ) → eqt (conf_prop i) (conf_prop j) ≡ (i == j)
eqt-conf_prop i j = ground (
  arith,
  eqt_iff (conf_prop i) (conf_prop j),
  conf_prop_injective i j,
  λ (e : i ≡ j). ap conf_prop e,
)

-- What an encoded configuration is made of: no white space and no "-".
abbrev pub IsCode : ℕ → Type 0
IsCode c = (is_space c ≡ false) × ((c == b'-') ≡ false)

-- A chunk that reads as set.
abbrev pub IsChunk : Text → Type 0
IsChunk v = (eqt v [] ≡ false) × All IsCode v

pub is_unset-IsChunk : (v : Text) → IsChunk v → is_unset v ≡ false
unfolding is_unset eqt
is_unset-IsChunk [] (n, h) = n
is_unset-IsChunk (c ∷ v) (n, ((_, hc), h)) = ground arith

take-All : (n : ℕ) (s : Text) → All IsCode s → All IsCode (take n s)
take-All zero s h = tt
take-All (suc n) [] h = tt
take-All (suc n) (c ∷ s) (hc, h) = (hc, take-All n s h)

drop-All : (n : ℕ) (s : Text) → All IsCode s → All IsCode (drop n s)
drop-All zero s h = h
drop-All (suc n) [] h = tt
drop-All (suc n) (c ∷ s) (hc, h) = drop-All n s h

take-drop : (n : ℕ) (s : Text) → take n s ++ drop n s ≡ s
take-drop zero s = refl
take-drop (suc n) [] = refl
take-drop (suc n) (c ∷ s) = ap (λ t. c ∷ t) (take-drop n s)

length-drop : (n : ℕ) (s : Text) → length (drop n s) ≤ length s
length-drop zero s = omega arith
length-drop (suc n) [] = omega arith
length-drop (suc n) (c ∷ s) = omega (arith, length-drop n s)

abbrev pub concat : List Text → Text
concat [] = []
concat (v ∷ vs) = v ++ concat vs

concat-chunks_on :
    (fuel size : ℕ) (s : Text) → length s ≤ fuel → concat (chunks_on fuel (suc size) s) ≡ s
unfolding chunks_on
concat-chunks_on zero size [] h = refl
concat-chunks_on zero size (c ∷ s) h = absurd (omega arith)
concat-chunks_on (suc fuel) size [] h = refl
concat-chunks_on (suc fuel) size (c ∷ s) h =
    ap (λ t. c ∷ take size s ++ t)
      (concat-chunks_on fuel size (drop size s) (omega (arith, length-drop size s)))
    ∙ ap (λ t. c ∷ t) (take-drop size s)

chunks_on-IsChunk :
    (fuel size : ℕ) (s : Text) → All IsCode s → All IsChunk (chunks_on fuel (suc size) s)
unfolding chunks_on eqt
chunks_on-IsChunk zero size s h = tt
chunks_on-IsChunk (suc fuel) size [] h = tt
chunks_on-IsChunk (suc fuel) size (c ∷ s) (hc, h) =
    ((refl, (hc, take-All size s h)), chunks_on-IsChunk fuel size (drop size s) (drop-All size s h))

-- The chunks put together are the text.
pub concat-chunks_of : (size : ℕ) (s : Text) → concat (chunks_of (suc size) s) ≡ s
unfolding chunks_of
concat-chunks_of size s = concat-chunks_on (length s) size s (omega arith)

pub chunks_of-IsChunk : (size : ℕ) (s : Text) → All IsCode s → All IsChunk (chunks_of (suc size) s)
unfolding chunks_of
chunks_of-IsChunk size s h = chunks_on-IsChunk (length s) size s h

-- What a property that is not set reads as.
pub is_unset_dash : is_unset (txt "-") ≡ true
unfolding is_unset eqt
is_unset_dash = refl
