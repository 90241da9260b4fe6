-- ===== src/Zfs/Backup.antt =====
-- zfsnet.go, the backup's side: `planBackup` decides what the primary has to send, `receiveStream` takes
-- it, and `handle` answers the frames of a connection behind the handshake. The backup's `zcfg` has
-- the fields that `cfg` fills in from the hello.
pub mod Base
use mathlib.Core.Bool.{◌||◌, ◌&&◌}
use mathlib.Core.List.{reverse}
use cs_sync.Prelude.{
  eqt, Text, txt, ℕ, Bool, true, false, not, Option, none, some, List, [], ◌∷◌, ◌++◌, if◌then◌else◌,
}
use cs_sync.Os.{Outcome, done, failed, Act}
use cs_sync.Prelude.Dict.{Dict}
use cs_sync.Zfs.{Snap, find_slot, rotate}
use cs_sync.Zfs.Command.{
  Host, ZfsConfig, is_unset, zfs_exists, zfs_get, zfs_run, snap_name, list_snaps_of, destroy_named,
  zfs_of, is_approved, set_blocked,
}

-- wire.ZfsHello; a ZfsSnapRef is the pair of its slot and GUID.
pub record ZfsHello : Type 0 where
  pub hello_nr : Text
  pub fs_guid : Text
  pub hello_snaps : List (Text × Text)
  pub hello_recursive : Bool
  pub conf_only : Bool
  pub hello_conf : Dict Text

-- wire.ZfsPlan, a constructor for each kind.
pub data ZfsPlan : Type 0 where
  plan_full plan_rotate : ZfsPlan
  plan_inc plan_resume plan_blocked plan_error : Text → ZfsPlan

-- The last slot under which the hello lists a snapshot.
unfoldable pub slot_of_guid : Text → List (Text × Text) → Text → Text
slot_of_guid guid [] slot = slot
slot_of_guid guid ((s, g) ∷ snaps) slot = slot_of_guid guid snaps (if eqt g guid then s else slot)

unfoldable pub has_guid : Text → List Snap → Bool
has_guid guid [] = false
has_guid guid (s ∷ l) = let rest = has_guid guid l in if eqt s.guid guid then true else rest

-- The first of the references, the newest first, that is confirmed and that the backup has.
unfoldable pub first_common : List Snap → List (Text × Text) → Option Text
unfolding has_guid
first_common bl [] = none
first_common bl ((slot, guid) ∷ newer_first) =
    let rest = first_common bl newer_first in
    if not (eqt slot (txt "new")) && has_guid guid bl then some guid else rest

unfoldable pub newest_guid : Snap → List Snap → Text
newest_guid b [] = b.guid
newest_guid b (b' ∷ bl) = newest_guid b' bl

module _ (h : Host) (month_day month_day_hour : ℕ → Text) (c : ZfsConfig) where
  open h use {World}

  -- `rotate` of the backup, by the command.
  abbrev pub rotate_backup : Act World (Unit {0})
  rotate_backup = rotate (zfs_of h c) month_day month_day_hour c.retention c.backup_ds true

  -- Whether the base may be sent from: it is the newest snapshot of the backup, or a rollback is let
  -- through.
  unfoldable pub plan_common : Snap → List Snap → Option Text → World → ZfsPlan × World
  unfolding newest_guid is_approved set_blocked
  plan_common b bl none w = (plan_error (txt "no common base snapshot"), w)
  plan_common b bl (some base) w =
      let newest = newest_guid b bl in
      if not (eqt base newest) && (not c.rollback_auto && not (is_approved h c base newest w))
      then (plan_blocked (txt "rollback needed"), set_blocked h c base newest w)
      else (plan_inc base, w)

  unfoldable pub plan_base : ZfsHello → List Snap → World → ZfsPlan × World
  unfolding first_common plan_common
  plan_base hello [] w =
      (plan_error (txt "backup dataset has no sync snapshots (rebase needed)"), w)
  plan_base hello (b ∷ bl) w =
      plan_common b bl (first_common (b ∷ bl) (reverse hello.hello_snaps)) w

  unfoldable pub plan_again : ZfsHello → Outcome (Unit {0}) × World → ZfsPlan × World
  unfolding plan_base list_snaps_of
  plan_again hello (failed e, w) = (plan_error (txt "rotate"), w)
  plan_again hello (done u, w) = elim (list_snaps_of h c c.backup_ds w) [
    | failed e ↦ (plan_error (txt "list"), w)
    | done bl ↦ plan_base hello bl w
  ]

  unfoldable pub plan_rotated : Outcome (Unit {0}) × World → ZfsPlan × World
  plan_rotated (failed e, w) = (plan_error (txt "rotate"), w)
  plan_rotated (done u, w) = (plan_rotate, w)

  -- The switch on the slot that the primary has for the backup's unconfirmed snapshot.
  unfoldable pub plan_new : ZfsHello → Text → Snap → World → ZfsPlan × World
  unfolding plan_again plan_rotated destroy_named
  plan_new hello slot bn w =
      if eqt slot (txt "new")
      then plan_rotated (rotate_backup w)
      else if eqt slot (txt "n0")
      then plan_again hello (rotate_backup w)
      else plan_again hello (done tt, (destroy_named h c (snap_name h c c.backup_ds bn.slot) w).1)

  unfoldable pub plan_listed : ZfsHello → World → ZfsPlan × World
  unfolding plan_new plan_base list_snaps_of slot_of_guid find_slot
  plan_listed hello w = elim (list_snaps_of h c c.backup_ds w) [
    | failed e ↦ (plan_error (txt "list"), w)
    | done bl ↦ elim (find_slot (txt "new") bl) [
      | some bn ↦ plan_new hello (slot_of_guid bn.guid hello.hello_snaps []) bn w
      | none ↦ plan_base hello bl w
    ]
  ]

  -- `planBackup`; the messages of the errors are shortened.
  unfoldable pub plan_backup : ZfsHello → World → ZfsPlan × World
  unfolding plan_listed zfs_exists zfs_get zfs_run is_unset
  plan_backup hello w =
      let token = zfs_get h (txt "receive_resume_token") c.backup_ds w in
      if not (zfs_exists h c.backup_ds w)
      then (plan_full, w)
      else if not (
          eqt (zfs_get h (txt "cs:sync") c.backup_ds w)
            (hello.hello_nr ++ txt ":" ++ hello.fs_guid))
      then (plan_error (txt "cs:sync"), w)
      else if not (is_unset token)
      then (if not c.recursive
          then (plan_resume token, w)
          else plan_listed hello (zfs_run h (txt "recv" ∷ txt "-A" ∷ c.backup_ds ∷ []) w).1)
      else plan_listed hello w
