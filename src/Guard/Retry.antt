-- ===== src/Guard/Retry.antt =====
-- `RetryState`: failing paths with their attempts, the time of the next try, and the quarantine.
pub mod Quarantine
use cs_sync.Prelude.{
  eqt, Text, ℕ, ◌+◌, ◌/◌, ◌≤◌, ◌≡◌, refl, inl, inr, Bool, true, false, not, ◌&&◌, Option, none,
  some, List, [], ◌∷◌, arith, ltb, leb, if◌then◌else◌, Bool-cases,
}
use cs_sync.Guard.Backoff.{second, backoff}
use cs_sync.Prelude.Dict.{Dict, lookup, insert, erase, lookup-insert, lookup-erase}
use mathlib.Core.Bool.{◌||◌}

abbrev max_attempts : ℕ
max_attempts = 10

pub record RetryItem : Type 0 where
  pub attempts : ℕ
  pub next_try : ℕ
  pub quarantined : Bool
  pub last_err : Text

abbrev pub RetryState : Type 0
RetryState = Dict RetryItem

abbrev fresh_item : RetryItem
fresh_item = record { attempts = 0; next_try = 0; quarantined = false; last_err = [] }

-- `r.Items[path]`, or the item that `Fail` adds.
unfoldable pub item_at : Text → RetryState → RetryItem
item_at path r = elim (lookup path r) [ none ↦ fresh_item | some it ↦ it ]

-- The item after one more failure at time `now`, in nanoseconds since 1970.
unfoldable pub failed_item : ℕ → Text → RetryItem → RetryItem
failed_item now err it =
    let n = it.attempts + 1 in
    record {
      attempts = n;
      next_try = (now + backoff n) / second;
      quarantined = it.quarantined || leb max_attempts n;
      last_err = err;
    }

-- `Fail`: true if the path just got quarantined.
unfoldable pub fail : ℕ → Text → Text → RetryState → RetryState × Bool
unfolding item_at failed_item
fail now path err r =
    let it = item_at path r in
    let it' = failed_item now err it in (insert path it' r, (it'.quarantined && not it.quarantined))

unfoldable pub skip : ℕ → Text → RetryState → Bool
skip now path r = elim (lookup path r) [
  | none ↦ false
  | some it ↦ if it.quarantined then true else ltb (now / second) it.next_try
]

unfoldable pub clear : Text → RetryState → RetryState
clear path r = erase path r

unfoldable pub quarantined_count : RetryState → ℕ
quarantined_count [] = 0
quarantined_count ((p, it) ∷ r) = let n = quarantined_count r in if it.quarantined then n + 1 else n

-- Quarantined exactly from the tenth attempt on, and tried at least once.
abbrev IsCounted : RetryItem → Type 0
IsCounted it = (it.quarantined ≡ leb max_attempts it.attempts) × (1 ≤ it.attempts)

pub record IsValid (r : RetryState) : Type 0 where
  pub at : (p : Text) (it : RetryItem) → lookup p r ≡ some it → IsCounted it

pub failed_item-IsCounted :
    (now : ℕ) (err path : Text) (r : RetryState)
    → IsValid r
    → IsCounted (failed_item now err (item_at path r))
unfolding failed_item item_at
failed_item-IsCounted now err path r v = go (lookup path r) refl
  where
    go :
        (o : Option RetryItem)
        → lookup path r ≡ o
        → IsCounted (failed_item now err (elim o [ none ↦ fresh_item | some it ↦ it ]))
    go none e = (ground arith, omega arith)
    go (some it) e = let c = v.at path it e in (ground arith, omega arith)

-- A failure of any path keeps the rule that a path is quarantined exactly from its tenth attempt
-- on.
pub fail-IsValid :
    (now : ℕ) (path err : Text) (r : RetryState) → IsValid r → IsValid (fail now path err r).0
unfolding fail
fail-IsValid now path err r v = record {
  at = λ p it h. elim (Bool-cases (eqt path p)) [
    | inl e ↦
        let h' : some (failed_item now err (item_at path r)) ≡ some it =
          rw (lookup-insert, e) at h in
        let c : IsCounted (failed_item now err (item_at path r)) =
          failed_item-IsCounted now err path r v in
        (ground (arith, h', c), ground (arith, h', c))
    | inr e ↦ v.at p it (rw (lookup-insert, e) at h)
  ];
}

-- A success keeps it too.
clear-IsValid : (path : Text) (r : RetryState) → IsValid r → IsValid (clear path r)
unfolding clear
clear-IsValid path r v = record {
  at = λ p it h. elim (Bool-cases (eqt path p)) [
    | inl e ↦ cc (rw (lookup-erase, e) at h)
    | inr e ↦ v.at p it (rw (lookup-erase, e) at h)
  ];
}

one_if : Bool → ℕ
one_if b = if b then 1 else 0

-- The count after a write, with what stood at the key before it.
quarantined_count-insert :
    (p : Text) (it : RetryItem) (r : RetryState)
    → quarantined_count (insert p it r) + one_if (item_at p r).quarantined
      ≡ quarantined_count r + one_if it.quarantined
unfolding quarantined_count insert item_at lookup one_if
quarantined_count-insert p it [] = ground arith
quarantined_count-insert p it ((q, it') ∷ r) = ground (arith, quarantined_count-insert p it r)

-- `Fail` reports a quarantine exactly when the count of quarantined paths goes up, and by one.
pub quarantined_count-fail :
    (now : ℕ) (path err : Text) (r : RetryState)
    → quarantined_count (fail now path err r).0
      ≡ quarantined_count r + (if (fail now path err r).1 then 1 else 0)
unfolding fail one_if failed_item
quarantined_count-fail now path err r =
    ground (arith, quarantined_count-insert path (failed_item now err (item_at path r)) r)

-- The state after `n` failures in a row of one path, at the times and with the errors given.
unfoldable pub fail_times : Text → List (ℕ × Text) → RetryState → RetryState
fail_times path [] r = r
fail_times path ((now, err) ∷ rest) r = fail_times path rest (fail now path err r).0
