-- ===== src/Guard/Backoff.antt =====
-- `Backoff`: one second doubled for each attempt, at most five minutes, in a signed 64-bit number.

use native.Mathlib.Nat.{add-zero, add-suc, pow-suc, mul-one}
use native.Mathlib.Decide.{dec_lt}
use cs_sync.Prelude.{
  ℕ, zero, suc, ◌+◌, ◌-◌, ◌*◌, ◌%◌, ◌^◌, ◌<◌, ◌≡◌, refl, Bool, true, false, ◌&&◌, ◌||◌, arith, ltb,
  leb, ◌==◌, if◌then◌else◌, ==_iff,
}

abbrev pub second : ℕ
second = 1_000_000_000

abbrev pub max_wait : ℕ
max_wait = 300_000_000_000

-- `time.Second << uint(attempts)` as a bit pattern; from 2 ^ 63 on it stands for a negative number.
unfoldable pub backoff : ℕ → ℕ
backoff attempts =
    let d = second * 2 ^ attempts % 2 ^ 64 in
    if ltb max_wait d || (d == 0 || leb (2 ^ 63) d) then max_wait else d

pow-add : (m n : ℕ) → 2 ^ (m + n) ≡ 2 ^ m * 2 ^ n
pow-add m zero = simp (add-zero, mul-one)
pow-add m (suc n) = rw (add-suc, pow-suc, pow-suc, pow-add m n) (omega arith)

-- The closed form, as a function of the same argument.
abbrev wait : ℕ → ℕ
wait n = if ltb n 9 then second * 2 ^ n else max_wait

agrees_below : ℕ → Bool
agrees_below zero = true
agrees_below (suc n) = (backoff n == wait n) && agrees_below n

agrees_below_sound : (n x : ℕ) → agrees_below n ≡ true → x < n → backoff x ≡ wait x
unfolding agrees_below
agrees_below_sound zero x h lt = absurd (omega arith)
agrees_below_sound (suc n) x h lt = elim (dec_lt x n) [
  | yes p ↦ agrees_below_sound n x (ground arith) p
  | no p ↦ let e : x ≡ n = omega arith in rw e ((==_iff (backoff n) (wait n)).0 (ground arith))
]

table : agrees_below 64 ≡ true
unfolding agrees_below backoff
table = refl

-- From 64 on every bit is shifted out.
shifted_out : (m : ℕ) → backoff (64 + m) ≡ max_wait
unfolding backoff
shifted_out m = let e : second * 2 ^ (64 + m) % 2 ^ 64 ≡ 0 = rw (pow-add 64 m) (omega arith) in rw e

-- The wait doubles from one second and is five minutes from the ninth attempt on, however often
-- the shift overflows.
pub backoff_lem : (n : ℕ) → backoff n ≡ (if ltb n 9 then second * 2 ^ n else max_wait)
backoff_lem n = elim (dec_lt n 64) [
  | yes p ↦ agrees_below_sound 64 n table p
  | no p ↦
      let e : 64 + (n - 64) ≡ n = omega arith in
      let e' : ltb n 9 ≡ false = ground arith in rw e' ((rw e at (shifted_out (n - 64))))
]
