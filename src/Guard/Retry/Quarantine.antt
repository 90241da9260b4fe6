-- ===== src/Guard/Retry/Quarantine.antt =====
-- Failures in a row: when a path is retried and when it is given up.
use cs_sync.Prelude.{
  Text, eqt_refl, ℕ, ◌+◌, ◌≤◌, ◌<◌, ◌≡◌, refl, true, false, Option, none, some, List, [], ◌∷◌,
  arith, length,
}
use cs_sync.Guard.Backoff.{max_wait, backoff}
use cs_sync.Guard.Retry.{
  RetryItem, RetryState, item_at, failed_item, fail, skip, IsValid, failed_item-IsCounted,
  fail-IsValid, fail_times,
}
use cs_sync.Prelude.Dict.{lookup, lookup-insert}

item_at-fail :
    (now : ℕ) (path err : Text) (r : RetryState)
    → item_at path (fail now path err r).0 ≡ failed_item now err (item_at path r)
unfolding fail item_at
item_at-fail now path err r =
    ground (arith, lookup-insert path path (failed_item now err (item_at path r)) r, eqt_refl path)

fail_times-quarantined :
    (path : Text) (l : List (ℕ × Text)) (r : RetryState)
    → (item_at path (fail_times path l r)).attempts ≡ (item_at path r).attempts + length l
unfolding fail_times
fail_times-quarantined path [] r = omega arith
fail_times-quarantined path ((now, err) ∷ l) r =
    rw (fail_times-quarantined path l, item_at-fail) (unfold failed_item in omega arith)

fail_times-IsValid :
    (path : Text) (l : List (ℕ × Text)) (r : RetryState) → IsValid r → IsValid (fail_times path l r)
unfolding fail_times
fail_times-IsValid path [] r v = v
fail_times-IsValid path ((now, err) ∷ l) r v =
    fail_times-IsValid path l _ (fail-IsValid now path err r v)

item_at-new : (path : Text) (r : RetryState) → lookup path r ≡ none → (item_at path r).attempts ≡ 0
unfolding item_at
item_at-new path r h = rw (h, item_at)

skip-quarantined :
    (t : ℕ) (path : Text) (r : RetryState)
    → IsValid r
    → 10 ≤ (item_at path r).attempts
    → skip t path r ≡ true
unfolding skip item_at
skip-quarantined t path r v h = go (lookup path r) refl h
  where
    go :
        (o : Option RetryItem)
        → lookup path r ≡ o
        → 10 ≤ (item_at path r).attempts
        → skip t path r ≡ true
    go none e h = absurd (omega (arith, item_at-new path r e))
    go (some it) e h = ground (arith, v.at path it e, e, h)

-- In a state where paths are quarantined exactly from their tenth attempt on, a path that has had
-- no failure is skipped in every later pass after ten failures in a row, whenever they happen.
pub fail_times-gives_up :
    (t : ℕ) (path : Text) (l : List (ℕ × Text)) (r : RetryState)
    → IsValid r
    → lookup path r ≡ none
    → 10 ≤ length l
    → skip t path (fail_times path l r) ≡ true
fail_times-gives_up t path l r v new h =
    skip-quarantined t path (fail_times path l r) (fail_times-IsValid path l r v)
      (omega (arith, fail_times-quarantined path l r, item_at-new path r new))

backoff-le : (n : ℕ) → backoff n ≤ max_wait
unfolding backoff
backoff-le n = ground arith

-- In a state where paths are quarantined exactly from their tenth attempt on, a path that fails
-- after fewer than nine failures is tried again once five minutes have passed.
pub fail-retried :
    (now t : ℕ) (path err : Text) (r : RetryState)
    → IsValid r
    → (item_at path r).attempts < 9
    → now + max_wait ≤ t
    → skip t path (fail now path err r).0 ≡ false
unfolding skip fail failed_item
fail-retried now t path err r v few late = ground (
  arith,
  lookup-insert path path (failed_item now err (item_at path r)) r,
  eqt_refl path,
  failed_item-IsCounted now err path r v,
  backoff-le ((item_at path r).attempts + 1),
)
