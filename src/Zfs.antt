-- ===== src/Zfs.antt =====
-- zfs.go: the snapshots of a replication and their slots. `zfs` is a command, whose listing is taken
-- as parsed.
pub mod Command
pub mod Guests
pub mod Conf
pub mod Quiet
pub mod Backup
pub mod Cycle
pub mod Session
pub mod Lan
pub mod Slots
pub mod Rotated
pub mod Recovery
pub mod Recovered
use mathlib.Core.Bool.{◌||◌, ◌&&◌}
use cs_sync.Prelude.{
  eqt, Text, txt, ℕ, ◌-◌, ◌*◌, Bool, true, false, not, Option, none, some, List, [], ◌∷◌, ◌++◌, ltb,
  if◌then◌else◌, is_none,
}
use cs_sync.Os.{errorf, Outcome, done, failed, Act, ◌>>=◌, ◌>>◌, pure, lift, reads}
use cs_sync.Prelude.Strings.{has_prefix}

pub record Snap : Type 0 where
  pub slot : Text
  pub guid : Text
  pub created : ℕ

-- The commands that the rotation runs, and what it asks of the clock and of the user properties.
pub record Zfs : Type 1 where
  pub World : Type 0
  pub list_snaps : Text → World → Outcome (List Snap)
  pub rename_snap : Text → Text → Text → World → Outcome (Unit {0}) × World
  pub destroy_snap : Text → Text → World → Outcome (Unit {0}) × World
  pub exists_ds : Text → World → Bool
  pub is_consistent : Text → Text → World → Bool
  pub unix_now : World → ℕ
  pub clear_blocked : World → World

unfoldable pub find_slot : Text → List Snap → Option Snap
find_slot slot [] = none
find_slot slot (s ∷ l) = let rest = find_slot slot l in if eqt s.slot slot then some s else rest

-- The limits on kept snapshots.
pub record Keep : Type 0 where
  pub keep_hours : ℕ
  pub keep_days : ℕ

-- `month_day` and `month_day_hour` format a time for a kept slot.
module _ (zfs : Zfs) (month_day month_day_hour : ℕ → Text) where
  open zfs use {World}

  -- The slot under which an old n1 is kept, if it is.
  unfoldable pub kept_slot : Text → Bool → List Snap → Snap → World → Option Text
  unfolding find_slot
  kept_slot ds keep l n1 w =
      let kf = txt "kf" ++ month_day n1.created in
      let kd = txt "kd" ++ month_day n1.created in
      let kh = txt "kh" ++ month_day_hour n1.created in
      if zfs.is_consistent ds n1.slot w && is_none (find_slot kf l)
      then some kf
      else if keep && is_none (find_slot kd l)
      then some kd
      else if keep && is_none (find_slot kh l)
      then some kh
      else none

  unfoldable pub retire : Text → Bool → List Snap → Act World (Unit {0})
  unfolding find_slot kept_slot
  retire ds keep l w = elim (find_slot (txt "n1") l) [
    | none ↦ (done tt, w)
    | some n1 ↦ elim (kept_slot ds keep l n1 w) [
      | some k ↦ zfs.rename_snap ds (txt "n1") k w
      | none ↦ zfs.destroy_snap ds (txt "n1") w
    ]
  ]

  unfoldable pub shift_old : Text → List Snap → Act World (Unit {0})
  unfolding find_slot
  shift_old ds l =
      if is_none (find_slot (txt "n0") l) then pure tt else zfs.rename_snap ds (txt "n0") (txt "n1")

  unfoldable pub found_new : List Snap → Outcome (Unit {0})
  unfolding find_slot
  found_new l =
      if is_none (find_slot (txt "new") l) then failed (errorf (txt "no new snapshot")) else done tt

  -- `rotate` up to its pruning.
  unfoldable pub rotate_slots : Text → Bool → Act World (Unit {0})
  unfolding retire shift_old found_new
  rotate_slots ds keep = do
    l ← reads (zfs.list_snaps ds)
    lift (found_new l)
    retire ds keep l
    shift_old ds l
    zfs.rename_snap ds (txt "new") (txt "n0")

  -- Whether a kept snapshot is past its age; an age below zero is none.
  pub is_expired : Keep → ℕ → Snap → Bool
  unfolding has_prefix
  is_expired k now s =
      let age = now - s.created in
      (has_prefix s.slot (txt "kh") && ltb (k.keep_hours * 3600) age)
      || ((has_prefix s.slot (txt "kd") || has_prefix s.slot (txt "kf"))
          && ltb (k.keep_days * 86400) age)

  pub prune_each : Keep → ℕ → Text → List Snap → World → World
  unfolding is_expired
  prune_each k now ds [] w = w
  prune_each k now ds (s ∷ l) w =
      let w' = if is_expired k now s then (zfs.destroy_snap ds s.slot w).1 else w in
      prune_each k now ds l w'

  pub prune : Keep → Text → World → World
  unfolding prune_each
  prune k ds w = elim (zfs.list_snaps ds w) [
    | failed e ↦ w
    | done l ↦ prune_each k (zfs.unix_now w) ds l w
  ]

  pub tidied : Keep → Text → Outcome (Unit {0}) × World → Outcome (Unit {0}) × World
  unfolding prune
  tidied k ds (failed e, w) = (failed e, w)
  tidied k ds (done u, w) = (done tt, zfs.clear_blocked (prune k ds w))

  unfoldable pub rotate : Keep → Text → Bool → Act World (Unit {0})
  unfolding rotate_slots tidied
  rotate k ds keep w = tidied k ds (rotate_slots ds keep w)

  -- The snapshot that a cycle has made but not confirmed goes.
  pub discard : Text → Option Snap → Act World (Unit {0})
  discard ds none = pure tt
  discard ds (some s) = zfs.destroy_snap ds s.slot

  -- Whether the primary has already rotated the snapshot with this identity.
  pub has_rotated : Text → List Snap → Bool
  has_rotated guid [] = false
  has_rotated guid (s ∷ l) =
      let rest = has_rotated guid l in
      if eqt s.guid guid && eqt s.slot (txt "n0") then true else rest

  -- The switch of `recoverCycle` on the two unconfirmed snapshots.
  pub recover_from :
      Keep → Bool → Text → Text → List Snap → Option Snap → Option Snap → Act World (Unit {0})
  unfolding rotate discard has_rotated
  recover_from k versions primary_ds backup_ds pl pn none = discard primary_ds pn
  recover_from k versions primary_ds backup_ds pl none (some b) =
      if has_rotated b.guid pl then rotate k backup_ds true else zfs.destroy_snap backup_ds b.slot
  recover_from k versions primary_ds backup_ds pl (some p) (some b) =
      if eqt p.guid b.guid
      then rotate k primary_ds versions >> rotate k backup_ds true
      else if has_rotated b.guid pl
      then rotate k backup_ds true
      else zfs.destroy_snap backup_ds b.slot >> zfs.destroy_snap primary_ds p.slot

  -- `recoverCycle`
  unfoldable pub recover_cycle : Keep → Bool → Text → Text → Act World (Unit {0})
  unfolding find_slot discard recover_from
  recover_cycle k versions primary_ds backup_ds = do
    pl ← reads (zfs.list_snaps primary_ds)
    there ← reads (λ w. done (zfs.exists_ds backup_ds w))
    if not there then discard primary_ds (find_slot (txt "new") pl) else (do
      bl ← reads (zfs.list_snaps backup_ds)
      recover_from k versions primary_ds backup_ds pl (find_slot (txt "new") pl)
          (find_slot (txt "new") bl))
