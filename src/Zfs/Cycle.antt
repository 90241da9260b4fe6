-- ===== src/Zfs/Cycle.antt =====
-- zfs.go: `cycle` with a backup on the same host.
pub mod Confirmed
use mathlib.Core.Bool.{◌||◌, ◌&&◌}
use mathlib.Core.List.{reverse}
use cs_sync.Prelude.{
  eqt, Text, txt, ℕ, Bool, true, false, not, Option, none, some, List, [], ◌∷◌, ◌++◌, if◌then◌else◌,
  is_none,
}
use cs_sync.Os.{errorf, Outcome, done, failed, Act, ◌>>=◌, ◌>>◌, pure, reads}
use cs_sync.Prelude.Dict.{Dict}
use cs_sync.Zfs.{Snap, find_slot, rotate, recover_cycle}
use cs_sync.Zfs.Backup.{has_guid, newest_guid}
use cs_sync.Zfs.Command.{
  Host, ZfsConfig, is_unset, zfs_exists, zfs_get, zfs_run, set_quietly, snap_name, send_args,
  list_snaps_of, destroy_named, zfs_of, changed, fix_tree, is_approved, set_blocked, status,
  take_snapshot,
}
use cs_sync.Zfs.Conf.{apply_confs, confs_if_on, mark_seen, conf_only_local}

-- The first of the snapshots, the newest first, whose identity the backup has.
newest_shared : List Snap → List Snap → Option Snap
unfolding has_guid
newest_shared bl [] = none
newest_shared bl (s ∷ newer_first) =
    let rest = newest_shared bl newer_first in if has_guid s.guid bl then some s else rest

-- How the transfer ends when it does not fail.
pub data TransferEnd : Type 0 where
  sent_over held_back : TransferEnd

last_guid : List Snap → Text
unfolding newest_guid
last_guid [] = []
last_guid (b ∷ bl) = newest_guid b bl

-- The snapshot "new" that both listings have, if their identities agree.
unfoldable pub confirmed_new : List Snap → List Snap → Option (Snap × Snap)
unfolding find_slot
confirmed_new pl bl = elim (find_slot (txt "new") pl) [
  | none ↦ none
  | some p ↦ elim (find_slot (txt "new") bl) [
    | none ↦ none
    | some b ↦ if eqt b.guid p.guid then some (p, b) else none
  ]
]

unfoldable pub listed_or_none : Outcome (List Snap) → List Snap
listed_or_none (done l) = l
listed_or_none (failed e) = []

module _ (h : Host) (month_day month_day_hour : ℕ → Text) (fuel : ℕ) (c : ZfsConfig) where
  open h use {World}

  abbrev pub new_name : Text
  new_name = snap_name h c c.primary_ds (txt "new")

  sync_mark : World → Text
  unfolding zfs_get
  sync_mark w = c.nr ++ txt ":" ++ zfs_get h (txt "guid") c.primary_ds w

  -- The properties of a backup that has just been created.
  mark_backup : World → World
  unfolding set_quietly sync_mark fix_tree
  mark_backup w =
      let w1 = set_quietly h (txt "readonly=on") c.backup_ds w in
      let w2 = set_quietly h (txt "canmount=noauto") c.backup_ds w1 in
      let w3 = set_quietly h (txt "cs:sync=" ++ sync_mark w2) c.backup_ds w2 in
      if c.recursive then fix_tree h c c.backup_ds w3 else w3

  unfoldable pub send_full : Act World TransferEnd
  unfolding mark_backup send_args
  send_full w =
      let (r, w') =
        h.send_recv (send_args h c (new_name ∷ []))
          (txt "recv" ∷ txt "-s" ∷ txt "-u" ∷ c.backup_ds ∷ []) w in
      elim r [ failed e ↦ (failed e, w') | done u ↦ (done sent_over, mark_backup w') ]

  -- An interrupted receive is resumed, or its partial state is discarded.
  resume_first : World → World
  unfolding zfs_get zfs_run is_unset
  resume_first w =
      let token = zfs_get h (txt "receive_resume_token") c.backup_ds w in
      let (r, w') =
        h.send_recv (txt "send" ∷ txt "-t" ∷ token ∷ [])
          (txt "recv" ∷ txt "-s" ∷ txt "-u" ∷ c.backup_ds ∷ []) w in
      let discarded = (zfs_run h (txt "recv" ∷ txt "-A" ∷ c.backup_ds ∷ []) w').1 in
      if is_unset token then w else elim r [ done u ↦ w' | failed e ↦ discarded ]

  after_inc : World → World
  unfolding fix_tree
  after_inc w =
      let w' = if c.recursive then fix_tree h c c.backup_ds w else w in
      if eqt c.service_name [] then w' else h.remove_approval c.service_name w'

  send_from : Snap → Act World TransferEnd
  unfolding after_inc send_args
  send_from base w =
      let (r, w') =
        h.send_recv
          (send_args h c (txt "-i" ∷ snap_name h c c.primary_ds base.slot ∷ new_name ∷ []))
          (txt "recv" ∷ txt "-s" ∷ txt "-F" ∷ txt "-u" ∷ c.backup_ds ∷ []) w in
      elim r [ failed e ↦ (failed e, w') | done u ↦ (done sent_over, after_inc w') ]

  send_common : List Snap → Option Snap → Act World TransferEnd
  unfolding send_from last_guid is_approved set_blocked status
  send_common bl none w = (failed (errorf (txt "no common base snapshot")), w)
  send_common bl (some base) w =
      let newest = last_guid bl in
      if not (eqt base.guid newest)
        && (not c.rollback_auto && not (is_approved h c base.guid newest w))
      then (done held_back, status h c (txt "blocked") (set_blocked h c base.guid newest w))
      else send_from base w

  unfoldable pub send_inc : List Snap → Act World TransferEnd
  unfolding resume_first zfs_get sync_mark send_common newest_shared list_snaps_of
  send_inc pl w =
      let w1 = resume_first w in
      if not (eqt (zfs_get h (txt "cs:sync") c.backup_ds w1) (sync_mark w1))
      then (failed (errorf (txt "cs:sync")), w1)
      else (do
        bl ← reads (list_snaps_of h c c.backup_ds)
        send_common bl (newest_shared bl (reverse pl)))
          w1

  unfoldable pub transfer : List Snap → Act World TransferEnd
  unfolding zfs_exists send_full send_inc
  transfer pl w = if zfs_exists h c.backup_ds w then send_inc pl w else send_full w

  -- What both sides note of a confirmed snapshot.
  pub note_snapshot : Text → Dict Text → Snap → Snap → World → World
  unfolding set_quietly apply_confs mark_seen
  note_snapshot consistent confs p b w =
      let mark = txt "cs:consistent=" ++ consistent in
      let w1 =
        if eqt consistent []
        then w
        else set_quietly h mark (snap_name h c c.backup_ds b.slot)
            (set_quietly h mark (snap_name h c c.primary_ds p.slot) w) in
      let slot = c.prefix ++ txt "new" in
      elim confs [
        | [] ↦ w1
        | conf ∷ more ↦ mark_seen h c (conf ∷ more) (
            apply_confs h fuel c.backup_ds (conf ∷ more) slot
              (apply_confs h fuel c.primary_ds (conf ∷ more) slot w1))
      ]

  abbrev pub rotate_side : Text → Bool → Act World (Unit {0})
  rotate_side ds keep = rotate (zfs_of h c) month_day month_day_hour c.retention ds keep

  pub rotate_both : Act World Bool
  rotate_both = do rotate_side c.primary_ds c.versions; rotate_side c.backup_ds true; pure true

  -- The test that both sides hold the snapshot, and what follows it.
  unfoldable pub confirm : Text → Dict Text → Act World Bool
  unfolding confirmed_new listed_or_none list_snaps_of note_snapshot rotate_both
  confirm consistent confs w =
      let pl = listed_or_none (list_snaps_of h c c.primary_ds w) in
      let bl = listed_or_none (list_snaps_of h c c.backup_ds w) in
      elim (confirmed_new pl bl) [
        | none ↦ (
          failed (errorf (txt "backup did not confirm snapshot")),
          (destroy_named h c new_name w).1,
        )
        | some (p, b) ↦ rotate_both (note_snapshot consistent confs p b w)
      ]

  pub after_transfer : Text → Dict Text → Outcome TransferEnd × World → Outcome Bool × World
  unfolding confirm destroy_named
  after_transfer consistent confs (failed e, w) = (failed e, (destroy_named h c new_name w).1)
  after_transfer consistent confs (done held_back, w) =
      (done false, (destroy_named h c new_name w).1)
  after_transfer consistent confs (done sent_over, w) = confirm consistent confs w

  -- The cycle proper, once the snapshot is taken.
  unfoldable pub send_snapshot : List Snap → Text → Act World Bool
  unfolding after_transfer transfer confs_if_on
  send_snapshot pl consistent w = after_transfer consistent (confs_if_on h c w) (transfer pl w)

  -- Nothing has changed since n0 but, it may be, the Proxmox configurations.
  pub unchanged : Act World Bool
  unfolding conf_only_local
  unchanged w = (done false, conf_only_local h c fuel w)

  unfoldable pub take_and_send : List Snap → Act World Bool
  unfolding send_snapshot take_snapshot
  take_and_send pl = do
    consistent ← take_snapshot h c c.primary_ds (txt "new")
    send_snapshot pl consistent

  unfoldable pub cycle_listed : List Snap → Act World Bool
  unfolding unchanged take_and_send changed find_slot
  cycle_listed pl w =
      if not (is_none (find_slot (txt "n0") pl)) && not (changed h c w)
      then unchanged w
      else take_and_send pl w

  unfoldable pub cycle_recovered : Act World Bool
  unfolding cycle_listed list_snaps_of
  cycle_recovered = do pl ← reads (list_snaps_of h c c.primary_ds); cycle_listed pl

  abbrev pub recovery : Act World (Unit {0})
  recovery =
      recover_cycle (zfs_of h c) month_day month_day_hour c.retention c.versions c.primary_ds
        c.backup_ds

  -- `cycle`; the Boolean that it returns beside an error is left out.
  unfoldable pub cycle : Act World Bool
  unfolding recover_cycle cycle_recovered
  cycle = recovery >> cycle_recovered
