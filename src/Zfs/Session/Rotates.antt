-- ===== src/Zfs/Session/Rotates.antt =====
-- zfsnet.go: what the answer to a rotation says of the backup.
use cs_sync.Prelude.{
  eqt, Text, txt, ℕ, ◌≡◌, refl, inl, inr, Bool, true, false, Option, none, some, [], arith,
  Bool-cases,
}
use cs_sync.Os.{Outcome, done, failed}
use cs_sync.Zfs.{Snap, find_slot}
use cs_sync.Zfs.Command.{Host, ZfsConfig, list_snaps_of, zfs_of, status}
use cs_sync.Zfs.Cycle.{listed_or_none}
use cs_sync.Zfs.Quiet.{IsQuiet, set_quietly-Shows, apply_confs-Shows}
use cs_sync.Zfs.Recovery.{IsPair, relisted, rotate-Holds}
use cs_sync.Zfs.Rotated.{Holds}
use cs_sync.Zfs.Session.{
  ZfsRotate, ZfsMsg, done_msg, Receive, ZfsRecv, consistency_noted, rotation_answer, note_rotation,
  rotate_found, take_rotate,
}

unfoldable pub is_good : ZfsMsg → Bool
is_good (done_msg ok e g) = ok
is_good _ = false

module _ (h : Host) (month_day month_day_hour : ℕ → Text) (fuel : ℕ) (recv : Receive h.World)
    (rv : ZfsRecv) (c : ZfsConfig) (other_ds : Text)
    (law : IsPair (zfs_of h c) c.backup_ds other_ds) (quiet : IsQuiet h c c.backup_ds)
    (status_lists : (line : Text) (w : h.World)
      → list_snaps_of h c c.backup_ds (status h c line w) ≡ list_snaps_of h c c.backup_ds w) where
  open h use {World}

  note_rotation-lists :
      (r : ZfsRotate) (s : Snap) (w : World)
      → list_snaps_of h c c.backup_ds
          (note_rotation h month_day month_day_hour fuel recv rv c r s w)
        ≡ list_snaps_of h c c.backup_ds w
  unfolding note_rotation
  note_rotation-lists r s w =
      apply_confs-Shows h c c.backup_ds quiet (list_snaps_of h c c.backup_ds w) fuel c.backup_ds
        r.rotate_conf _ _
        (elim (Bool-cases (eqt (consistency_noted r) [])) [
          | inl e ↦ rw e refl
          | inr e ↦
              rw e (
                set_quietly-Shows h c c.backup_ds quiet (list_snaps_of h c c.backup_ds w) _ _ w
                  refl)
        ])

  rotation_answer-Holds :
      (n0 n1 : Option Text) (x : Outcome (Unit {0}) × World)
      → is_good (rotation_answer h month_day month_day_hour fuel recv rv c x).0 ≡ true
      → (x.0 ≡ done tt → Holds (zfs_of h c) c.backup_ds none n0 n1 x.1)
      → Holds
          (zfs_of h c)
          c.backup_ds
          none
          n0
          n1
          (rotation_answer h month_day month_day_hour fuel recv rv c x).1
  unfolding rotation_answer is_good
  rotation_answer-Holds n0 n1 (failed e, w) good k = absurd (ground (arith, good))
  rotation_answer-Holds n0 n1 (done u, w) good k =
      relisted (zfs_of h c) c.backup_ds none n0 n1 w _ (status_lists (txt "ok") w) (k refl)

  -- A rotation that the backup acknowledges has moved the snapshot that was in new into n0 and the one
  -- in n0 into n1, and left none in new. This is where renaming and destroying change the listing as they say,
  -- and setting properties and the status file do not.
  pub take_rotate-advances :
      (r : ZfsRotate) (n0 n1 new : Option Text) (w : World)
      → Holds (zfs_of h c) c.backup_ds new n0 n1 w
      → is_good (take_rotate h month_day month_day_hour fuel recv rv (some c) r w).0 ≡ true
      → Holds
          (zfs_of h c)
          c.backup_ds
          none
          new
          n0
          (take_rotate h month_day month_day_hour fuel recv rv (some c) r w).1
  unfolding take_rotate is_good
  take_rotate-advances r n0 n1 new w before good =
      go (find_slot (txt "new") (listed_or_none (list_snaps_of h c c.backup_ds w))) refl
    where
      go :
          (o : Option Snap)
          → find_slot (txt "new") (listed_or_none (list_snaps_of h c c.backup_ds w)) ≡ o
          → Holds
              (zfs_of h c)
              c.backup_ds
              none
              new
              n0
              (take_rotate h month_day month_day_hour fuel recv rv (some c) r w).1
      go none e = absurd (ground (arith, rw (e, take_rotate, rotate_found) at good))
      go (some s) e =
          let noted = note_rotation h month_day month_day_hour fuel recv rv c r s w in
          rw (e, take_rotate, rotate_found)
            (rotation_answer-Holds new n0 _ (rw (e, take_rotate, rotate_found) at good) (λ ok.
              rotate-Holds (zfs_of h c) month_day month_day_hour c.backup_ds other_ds law
                c.retention true new n0 n1 noted
                (relisted (zfs_of h c) c.backup_ds new n0 n1 w noted (note_rotation-lists r s w)
                  before)
                ok))
