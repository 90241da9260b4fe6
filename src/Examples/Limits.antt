-- ===== src/Examples/Limits.antt =====
-- guard.go at small budgets, states and files.
use cs_sync.Prelude.{
  eqt, Text, txt, ℕ, ◌*◌, ◌^◌, ◌≡◌, refl, true, List, [], ◌∷◌, arith, ltb, if◌then◌else◌,
}
use cs_sync.Guard.{
  freeze_file, approve_file, Files, writes, Disk, consume_approval, open_gate, pass_gate,
  pass_gate_once,
}
use cs_sync.Guard.Backoff.{second, max_wait, backoff, backoff_lem}
use cs_sync.Guard.Retry.{skip, IsValid, fail_times}
use cs_sync.Guard.Retry.Quarantine.{fail_times-gives_up}
use cs_sync.Prelude.Dict.{lookup}

abbrev sound : Disk
sound = record { is_seen = λ name. true; is_removed = λ name. true; writing = writes }

abbrev both_markers : Files
both_markers = (approve_file, []) ∷ (freeze_file, []) ∷ []

pass_gate_once_example : (pass_gate sound (pass_gate sound both_markers).0).1 ≡ open_gate
unfolding pass_gate consume_approval lookup eqt
pass_gate_once_example = pass_gate_once sound sound both_markers refl refl refl

nothing-IsValid : IsValid []
unfolding lookup
nothing-IsValid = record { at = λ p it e. absurd (ground (arith, e)) }

abbrev ten_times : List (ℕ × Text)
ten_times =
    (1, [])
    ∷ (2, [])
    ∷ (3, [])
    ∷ (4, [])
    ∷ (5, [])
    ∷ (6, [])
    ∷ (7, [])
    ∷ (8, [])
    ∷ (9, [])
    ∷ (10, [])
    ∷ []

fail_times-gives_up_example : skip 99 (txt "a") (fail_times (txt "a") ten_times []) ≡ true
fail_times-gives_up_example =
    fail_times-gives_up 99 (txt "a") ten_times [] nothing-IsValid (unfold lookup in refl)
      (omega arith)

backoff_lem_example : backoff 12 ≡ (if ltb 12 9 then second * 2 ^ 12 else max_wait)
backoff_lem_example = backoff_lem 12
