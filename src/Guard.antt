-- ===== src/Guard.antt =====
-- internal/guard/guard.go: the source-liveness check, the delete budget with its freeze and approve
-- markers, and the per-path retry quarantine.
pub mod Retry
pub mod Backoff
use cs_sync.Prelude.{
  eqt, Text, txt, eqt_refl, ℕ, ◌+◌, ◌*◌, ◌/◌, ◌≤◌, ◌<◌, ◌≡◌, refl, ◌≢◌, ◌⊎◌, inl, inr, Bool, true,
  false, not, ◌&&◌, Option, none, some, arith, ltb, ◌==◌, if◌then◌else◌, Bool-cases, is_none,
}
use cs_sync.Os.{other_error, done, failed, Act}
use cs_sync.Prelude.Dict.{Dict, lookup, insert, erase, lookup-insert, lookup-erase}

-- What `CheckSource` and `Budget.Check` refuse a pass for.
pub data Refusal : Type 0 where
  cannot_stat : Text → Refusal
  wrong_device : ℕ → ℕ → Refusal
  too_many_deletes : ℕ → Refusal
  too_large_a_share : ℕ → Refusal

-- `CheckSource` with what `dev root` returned (`none` is an error). Gives the recorded device back,
-- since the source writes it through a pointer.
unfoldable pub check_source : Text → Option ℕ → ℕ → ℕ × Option Refusal
check_source root none recorded = (recorded, some (cannot_stat root))
check_source root (some d) recorded =
    if d == 0
    then (recorded, none)
    else if recorded == 0
    then (d, none)
    else if recorded == d
    then (recorded, none)
    else (recorded, some (wrong_device d recorded))

-- 0 switches a limit off, as a negative number does in the source.
pub record Budget : Type 0 where
  pub max_count : ℕ
  pub max_percent : ℕ

unfoldable pub check_budget : Budget → ℕ → ℕ → Option Refusal
check_budget b deletes tree_size =
    if deletes == 0
    then none
    else if ltb 0 b.max_count && ltb b.max_count deletes
    then some (too_many_deletes deletes)
    else if (ltb 0 b.max_percent && ltb 0 tree_size)
        && ltb b.max_percent (deletes * 100 / tree_size)
    then some (too_large_a_share (deletes * 100 / tree_size))
    else none

abbrev pub freeze_file : Text
freeze_file = txt "delete-freeze.txt"

abbrev pub approve_file : Text
approve_file = txt "delete-approve.txt"

-- The files of a state directory, by name.
abbrev pub Files : Type 0
Files = Dict Text

-- How `os.WriteFile` of the freeze marker ends: a write that fails may leave a part of the text.
pub data Writing : Type 0 where
  writes writes_nothing : Writing
  writes_part : Text → Writing

-- What the file system does with the marker files in one pass: which can be looked at, which can be
-- removed, and how writing ends.
pub record Disk : Type 0 where
  pub is_seen : Text → Bool
  pub is_removed : Text → Bool
  pub writing : Writing

freeze_by : Writing → Text → Act Files (Unit {0})
freeze_by writes body fs = (done tt, insert freeze_file body fs)
freeze_by writes_nothing body fs = (failed other_error, fs)
freeze_by (writes_part text) body fs = (failed other_error, insert freeze_file text fs)

-- `Freeze`; `body` is the text with the time and the reason.
unfoldable pub freeze : Disk → Text → Act Files (Unit {0})
unfolding freeze_by
freeze d body = freeze_by d.writing body

-- Whether `os.Stat` finds a file.
unfoldable pub exists_on : Disk → Text → Files → Bool
exists_on d name fs = d.is_seen name && not (is_none (lookup name fs))

unfoldable pub frozen : Disk → Files → Bool
unfolding exists_on
frozen d fs = exists_on d freeze_file fs

-- `os.Remove`, whose failure is ignored.
unfoldable pub remove_marker : Disk → Text → Files → Files
remove_marker d name fs = if d.is_removed name then erase name fs else fs

unfoldable pub consume_approval : Disk → Files → Files × Bool
unfolding exists_on remove_marker
consume_approval d fs =
    if not (exists_on d approve_file fs)
    then (fs, false)
    else (remove_marker d freeze_file (remove_marker d approve_file fs), true)

-- The gate at the start of `Pass`: an approval is consumed, or a freeze marker stops the pass.
pub data Gate : Type 0 where
  approved stopped open_gate : Gate

unfoldable pub pass_gate : Disk → Files → Files × Gate
unfolding consume_approval frozen
pass_gate d fs =
    let (fs', ok) = consume_approval d fs in
    (fs', (if ok then approved else if frozen d fs' then stopped else open_gate))

lt_of_div_le : (x t m : ℕ) → 0 < t → x / t ≤ m → x < (m + 1) * t
lt_of_div_le x t m pos h = grind arith

-- A pass that the budget lets through deletes at most `max_count` entries, and at most
-- `max_percent` percent of a tree that is not empty (rounded down), for each limit that is on.
pub check_budget_sound :
    (b : Budget) (deletes tree_size : ℕ)
    → check_budget b deletes tree_size ≡ none
    → (0 < b.max_count → deletes ≤ b.max_count)
      × (0 < b.max_percent → 0 < tree_size → deletes * 100 < (b.max_percent + 1) * tree_size)
unfolding check_budget
check_budget_sound b deletes tree_size h = (
  (λ on. ground arith),
  (λ on full. lt_of_div_le (deletes * 100) tree_size b.max_percent full (ground arith)),
)

pub names_differ : eqt freeze_file approve_file ≡ false
unfolding eqt
names_differ = refl

pass_gate_clear :
    (d : Disk) (fs : Files)
    → lookup approve_file fs ≡ none
    → lookup freeze_file fs ≡ none
    → (pass_gate d fs).1 ≡ open_gate
unfolding pass_gate
pass_gate_clear d fs unapproved warm = elim (Bool-cases (d.is_seen approve_file)) [
  | inl e ↦
      rw (unapproved, e)
        (elim (Bool-cases (d.is_seen freeze_file)) [
          | inl e' ↦ rw (warm, e') refl
          | inr e' ↦ rw (warm, e') refl
        ])
  | inr e ↦
      rw (unapproved, e)
        (elim (Bool-cases (d.is_seen freeze_file)) [
          | inl e' ↦ rw (warm, e') refl
          | inr e' ↦ rw (warm, e') refl
        ])
]

-- Where both marker files could be removed, an approval opens the gate once: the next pass finds
-- neither of them.
pub pass_gate_once :
    (d d' : Disk) (fs : Files)
    → (pass_gate d fs).1 ≡ approved
    → d.is_removed approve_file ≡ true
    → d.is_removed freeze_file ≡ true
    → (pass_gate d' (pass_gate d fs).0).1 ≡ open_gate
unfolding pass_gate
pass_gate_once d d' fs h gone gone' = elim (Bool-cases (exists_on d approve_file fs)) [
  | inr e ↦ absurd (ground (arith, e, h))
  | inl e ↦
      rw (e, gone, gone')
        (pass_gate_clear d' (erase freeze_file (erase approve_file fs))
          (simp (lookup-erase, eqt_refl, names_differ)) (simp (lookup-erase, eqt_refl)))
]

-- Freezing does not touch an approval,
pub freeze_unapproved :
    (d : Disk) (body : Text) (fs : Files)
    → exists_on d approve_file (freeze d body fs).1 ≡ exists_on d approve_file fs
unfolding freeze exists_on
freeze_unapproved d body fs = go d.writing
  where
    go :
        (how : Writing)
        → (d.is_seen approve_file && not (is_none (lookup approve_file (freeze_by how body fs).1)))
          ≡ (d.is_seen approve_file && not (is_none (lookup approve_file fs)))
    go writes = simp (lookup-insert, names_differ)
    go writes_nothing = refl
    go (writes_part text) = simp (lookup-insert, names_differ)

-- and leaves a marker, unless nothing could be written.
pub freeze_marks :
    (d : Disk) (body : Text) (fs : Files)
    → d.writing ≢ writes_nothing
    → is_none (lookup freeze_file (freeze d body fs).1) ≡ false
unfolding freeze
freeze_marks d body fs = go d.writing
  where
    go :
        (how : Writing)
        → how ≢ writes_nothing
        → is_none (lookup freeze_file (freeze_by how body fs).1) ≡ false
    go writes h = simp (lookup-insert, eqt_refl)
    go writes_nothing h = absurd (h refl)
    go (writes_part text) h = simp (lookup-insert, eqt_refl)

-- A source whose device is known, that is not 0, is let through only if it is on the recorded
-- device or no device was recorded, and then its device is recorded.
pub check_source_sound :
    (root : Text) (d recorded : ℕ)
    → 0 < d
    → (check_source root (some d) recorded).1 ≡ none
    → ((check_source root (some d) recorded).0 ≡ d) × ((recorded ≡ 0) ⊎ (recorded ≡ d))
unfolding check_source
check_source_sound root d recorded pos h = ground arith
