-- ===== src/Zfs/Cycle/Confirmed.antt =====
-- zfs.go: what a cycle that reports data as sent leaves on both sides.
use cs_sync.Prelude.{
  eqt, Text, txt, eqt_iff, ℕ, ◌≡◌, refl, ◌∙◌, inl, inr, true, not, ◌&&◌, Option, none, some, List,
  [], ◌∷◌, ◌++◌, arith, if◌then◌else◌, Bool-cases, is_none,
}
use cs_sync.Os.{Outcome, done, failed, Act, ◌>>◌, pure, reads}
use cs_sync.Prelude.Dict.{Dict}
use cs_sync.Os.Keeps.{bind-ends}
use cs_sync.Zfs.{Snap, Zfs, find_slot}
use cs_sync.Zfs.Command.{
  Host, ZfsConfig, set_quietly, snap_name, list_snaps_of, zfs_of, changed, take_snapshot,
}
use cs_sync.Zfs.Cycle.{
  TransferEnd, sent_over, held_back, confirmed_new, listed_or_none, note_snapshot, rotate_side,
  rotate_both, confirm, after_transfer, send_snapshot, unchanged, take_and_send, cycle_listed,
  cycle_recovered, recovery, cycle,
}
use cs_sync.Zfs.Quiet.{IsQuiet, set_quietly-Shows, apply_confs-Shows, mark_seen-Shows}
use cs_sync.Zfs.Recovered.{IsSettled, find_slot-guid, rotated-IsSettled}
use cs_sync.Zfs.Recovery.{IsPair}
use cs_sync.Zfs.Rotated.{Holds}
use cs_sync.Zfs.Slots.{guid_at}

-- Both sides agree on some snapshot.
abbrev pub IsAgreed : (h : Host) (c : ZfsConfig) → h.World → Type 0
IsAgreed h c w = (g : Text) × IsSettled (zfs_of h c) c.primary_ds c.backup_ds (some g) w

pub listed_lem :
    (o : Outcome (List Snap)) (slot : Text) (s : Snap)
    → find_slot slot (listed_or_none o) ≡ some s
    → o ≡ done (listed_or_none o)
unfolding listed_or_none find_slot
listed_lem (done l) slot s h = refl
listed_lem (failed e) slot s h = absurd (ground (arith, h))

confirmed_new_lem :
    (pl bl : List Snap) (p b : Snap)
    → confirmed_new pl bl ≡ some (p, b)
    → (find_slot (txt "new") pl ≡ some p) × (find_slot (txt "new") bl ≡ some b) × (b.guid ≡ p.guid)
unfolding confirmed_new
confirmed_new_lem pl bl p b h =
    start (find_slot (txt "new") pl) refl (find_slot (txt "new") bl) refl
  where
    start :
        (x : Option Snap)
        → find_slot (txt "new") pl ≡ x
        → (y : Option Snap) → find_slot (txt "new") bl ≡ y
        → (find_slot (txt "new") pl ≡ some p)
          × (find_slot (txt "new") bl ≡ some b)
          × (b.guid ≡ p.guid)
    start none ex y ey = absurd (ground (arith, rw (ex, confirmed_new) at h))
    start (some s) ex none ey = absurd (ground (arith, rw (ex, confirmed_new, ey) at h))
    start (some s) ex (some t) ey = elim (Bool-cases (eqt t.guid s.guid)) [
      | inl e ↦
          let same : some (s, t) ≡ some (p, b) = rw (ex, confirmed_new, ey, e) at h in
          (
            ground (arith, ex, same),
            ground (arith, ey, same),
            ground (arith, same, eqt_iff t.guid s.guid),
          )
      | inr e ↦ absurd (ground (arith, rw (ex, confirmed_new, ey, e) at h))
    ]

-- Whatever a listing holds.
pub Holds-of :
    (zfs : Zfs) (ds : Text) (l : List Snap) (w : zfs.World) (new : Option Text)
    → zfs.list_snaps ds w ≡ done l
    → guid_at (txt "new") l ≡ new
    → Holds zfs ds new (guid_at (txt "n0") l) (guid_at (txt "n1") l) w
Holds-of zfs ds l w new lists e = record {
  listing = l;
  lists = lists;
  has_new = e;
  has_n0 = refl;
  has_n1 = refl;
}

module _ (h : Host) (month_day month_day_hour : ℕ → Text) (fuel : ℕ) (c : ZfsConfig)
    (law_p : IsPair (zfs_of h c) c.primary_ds c.backup_ds)
    (law_b : IsPair (zfs_of h c) c.backup_ds c.primary_ds) (quiet_p : IsQuiet h c c.primary_ds)
    (quiet_b : IsQuiet h c c.backup_ds) where
  open h use {World}

  note_snapshot-lists :
      (ds : Text) (quiet : IsQuiet h c ds) (consistent : Text) (confs : Dict Text) (p b : Snap)
      (w : World)
      → list_snaps_of h c ds
          (note_snapshot h month_day month_day_hour fuel c consistent confs p b w)
        ≡ list_snaps_of h c ds w
  unfolding note_snapshot
  note_snapshot-lists ds quiet consistent confs p b w = noted confs
    where
      marked : World
      marked =
          if eqt consistent []
          then w
          else set_quietly h (txt "cs:consistent=" ++ consistent) (snap_name h c c.backup_ds b.slot)
              (set_quietly h (txt "cs:consistent=" ++ consistent)
                (snap_name h c c.primary_ds p.slot) w)

      marked-lists : list_snaps_of h c ds marked ≡ list_snaps_of h c ds w
      marked-lists = elim (Bool-cases (eqt consistent [])) [
        | inl e ↦ rw e refl
        | inr e ↦ rw e (
            set_quietly-Shows h c ds quiet (list_snaps_of h c ds w) _ _ _
              (set_quietly-Shows h c ds quiet (list_snaps_of h c ds w) _ _ w refl))
      ]

      noted :
          (confs : Dict Text)
          → list_snaps_of h c ds
              (note_snapshot h month_day month_day_hour fuel c consistent confs p b w)
            ≡ list_snaps_of h c ds w
      noted [] = marked-lists
      noted (conf ∷ more) = mark_seen-Shows h c ds quiet (list_snaps_of h c ds w) (conf ∷ more) _ (
          apply_confs-Shows h c ds quiet (list_snaps_of h c ds w) fuel _ (conf ∷ more) _ _ (
            apply_confs-Shows h c ds quiet (list_snaps_of h c ds w) fuel _ (conf ∷ more) _ _
              marked-lists))

  rotate_both-IsAgreed :
      (g : Text) (p0 p1 b0 b1 : Option Text) (w : World)
      → Holds (zfs_of h c) c.primary_ds (some g) p0 p1 w
      → Holds (zfs_of h c) c.backup_ds (some g) b0 b1 w
      → (rotate_both h month_day month_day_hour fuel c w).0 ≡ done true
      → IsAgreed h c (rotate_both h month_day month_day_hour fuel c w).1
  unfolding rotate_both
  rotate_both-IsAgreed g p0 p1 b0 b1 w hp hb ok = (
    g,
    bind-ends (IsSettled zfs c.primary_ds c.backup_ds (some g)) rotate_p
        (λ _. rotate_b >> pure true) w true ok
        (λ u first rest.
          bind-ends (IsSettled zfs c.primary_ds c.backup_ds (some g)) rotate_b (λ _. pure true)
            (rotate_p w).1 true rest
            (λ v second last.
              rotated-IsSettled zfs month_day month_day_hour c.primary_ds c.backup_ds law_p law_b
                c.retention c.versions g p0 p1 b0 b1 w hp hb first second)),
  )
    where
      zfs : Zfs
      zfs = zfs_of h c

      rotate_p : Act World (Unit {0})
      rotate_p = rotate_side h month_day month_day_hour fuel c c.primary_ds c.versions

      rotate_b : Act World (Unit {0})
      rotate_b = rotate_side h month_day month_day_hour fuel c c.backup_ds true

  confirm-IsAgreed :
      (consistent : Text) (confs : Dict Text) (w : World)
      → (confirm h month_day month_day_hour fuel c consistent confs w).0 ≡ done true
      → IsAgreed h c (confirm h month_day month_day_hour fuel c consistent confs w).1
  unfolding confirm
  confirm-IsAgreed consistent confs w ok = go (confirmed_new pl bl) refl
    where
      pl : List Snap
      pl = listed_or_none (list_snaps_of h c c.primary_ds w)

      bl : List Snap
      bl = listed_or_none (list_snaps_of h c c.backup_ds w)

      go :
          (o : Option (Snap × Snap))
          → confirmed_new pl bl ≡ o
          → IsAgreed h c (confirm h month_day month_day_hour fuel c consistent confs w).1
      go none e = absurd (ground (arith, rw (confirm, e) at ok))
      go (some (p, b)) e =
          let (fp, fb, same) = confirmed_new_lem pl bl p b e in
          let noted = note_snapshot h month_day month_day_hour fuel c consistent confs p b w in
          rw (confirm, e)
            (rotate_both-IsAgreed p.guid (guid_at (txt "n0") pl) (guid_at (txt "n1") pl)
              (guid_at (txt "n0") bl) (guid_at (txt "n1") bl) noted
              (Holds-of (zfs_of h c) c.primary_ds pl noted (some p.guid)
                (note_snapshot-lists c.primary_ds quiet_p consistent confs p b w
                  ∙ listed_lem _ (txt "new") p fp)
                (find_slot-guid (txt "new") pl p fp).0)
              (Holds-of (zfs_of h c) c.backup_ds bl noted (some p.guid)
                (note_snapshot-lists c.backup_ds quiet_b consistent confs p b w
                  ∙ listed_lem _ (txt "new") b fb)
                (rw (← same) (find_slot-guid (txt "new") bl b fb).0))
              (rw (confirm, e) at ok))

  after_transfer-IsAgreed :
      (consistent : Text) (confs : Dict Text) (r : Outcome TransferEnd × World)
      → (after_transfer h month_day month_day_hour fuel c consistent confs r).0 ≡ done true
      → IsAgreed h c (after_transfer h month_day month_day_hour fuel c consistent confs r).1
  unfolding after_transfer
  after_transfer-IsAgreed consistent confs (failed e, w) ok = absurd (ground (arith, ok))
  after_transfer-IsAgreed consistent confs (done held_back, w) ok = absurd (ground (arith, ok))
  after_transfer-IsAgreed consistent confs (done sent_over, w) ok =
      confirm-IsAgreed consistent confs w ok

  cycle_listed-IsAgreed :
      (pl : List Snap) (w : World)
      → (cycle_listed h month_day month_day_hour fuel c pl w).0 ≡ done true
      → IsAgreed h c (cycle_listed h month_day month_day_hour fuel c pl w).1
  unfolding cycle_listed unchanged take_and_send send_snapshot
  cycle_listed-IsAgreed pl w ok =
      elim (Bool-cases (not (is_none (find_slot (txt "n0") pl)) && not (changed h c w))) [
        | inl same ↦ absurd (ground (arith, rw same at ok))
        | inr news ↦ rw news (
            bind-ends (IsAgreed h c) (take_snapshot h c c.primary_ds (txt "new"))
              (send_snapshot h month_day month_day_hour fuel c pl) w true (rw news at ok)
              (λ consistent taken rest. after_transfer-IsAgreed consistent _ _ rest))
      ]

  -- A cycle that returns that it has sent data leaves one and the same snapshot in n0 on both sides, and
  -- none in new. This is where renaming and destroying change the listing of their dataset as they say and no other, and
  -- where setting properties changes no listing; of the transfer itself nothing is supposed.
  pub cycle-IsAgreed :
      (w : World)
      → (cycle h month_day month_day_hour fuel c w).0 ≡ done true
      → IsAgreed h c (cycle h month_day month_day_hour fuel c w).1
  unfolding cycle cycle_recovered
  cycle-IsAgreed w ok =
      bind-ends (IsAgreed h c) (recovery h month_day month_day_hour fuel c)
        (λ _. cycle_recovered h month_day month_day_hour fuel c) w true ok
        (λ u recovered ok1.
          bind-ends (IsAgreed h c) (reads (list_snaps_of h c c.primary_ds))
            (cycle_listed h month_day month_day_hour fuel c) _ true ok1
            (λ pl listed ok2. cycle_listed-IsAgreed pl _ ok2))
