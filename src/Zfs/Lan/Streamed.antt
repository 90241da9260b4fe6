-- ===== src/Zfs/Lan/Streamed.antt =====
-- zfsnet.go: what a cycle over the network that reports data as sent leaves on the primary.
use cs_sync.Prelude.{
  eqt, Text, txt, eqt_iff, ℕ, ◌≡◌, refl, ap, ◌∙◌, ◌≢◌, inl, inr, true, false, Option, none, some,
  List, [], ◌∷◌, ◌++◌, arith, if◌then◌else◌, Bool-cases,
}
use cs_sync.Os.{Outcome, done, failed, Act, ◌>>=◌, ◌>>◌, pure, lift, reads}
use cs_sync.Prelude.Dict.{Dict}
use cs_sync.Os.Keeps.{Keeps-bind, bind-done, bind-ends}
use cs_sync.Zfs.{Snap, find_slot}
use cs_sync.Zfs.Backup.{
  ZfsPlan, plan_full, plan_rotate, plan_inc, plan_resume, plan_blocked, plan_error,
}
use cs_sync.Zfs.Command.{
  Host, ZfsConfig, set_quietly, snap_name, list_snaps_of, zfs_of, take_snapshot,
}
use cs_sync.Zfs.Cycle.{listed_or_none}
use cs_sync.Zfs.Cycle.Confirmed.{listed_lem, Holds-of}
use cs_sync.Zfs.Lan.{
  Lan, done_of, plan_of, dial_zfs, stream_to, recv_done, discard_failed, or_discard, stream_args,
  confirmed_by, confirm_listed, stream_confirmed, send_confirmed, note_primary, rotate_primary,
  tell_backup, finish_lan, drop_stale, send_taken, send_noted, send_planned, follow, closing,
  answer_plan, exchange, conf_only_remote, is_same, cycle_remote_listed, cycle_remote,
}
use cs_sync.Zfs.Quiet.{IsQuiet, set_quietly-Shows, apply_confs-Shows, mark_seen-Shows}
use cs_sync.Zfs.Recovered.{find_slot-guid}
use cs_sync.Zfs.Recovery.{IsPair, relisted, rotate-Holds}
use cs_sync.Zfs.Rotated.{Holds}
use cs_sync.Zfs.Session.{
  ZfsMsg, welcome_msg, ack_msg, ping_msg, hello_msg, plan_msg, chunk_msg, done_msg, rotate_msg,
  garbled, stray,
}
use cs_sync.Zfs.Slots.{guid_at}

-- The connection does not touch the primary's snapshots.
pub record IsApart (h : Host) (lan : Lan h.World) (c : ZfsConfig) : Type 0 where
  pub send_lists :
      (m : ZfsMsg) (w : h.World)
      → list_snaps_of h c c.primary_ds (lan.send_msg m w).1 ≡ list_snaps_of h c c.primary_ds w
  pub recv_lists :
      (w : h.World)
      → list_snaps_of h c c.primary_ds (lan.recv_msg w).1 ≡ list_snaps_of h c c.primary_ds w
  pub hang_up_lists :
      (w : h.World)
      → list_snaps_of h c c.primary_ds (lan.hang_up_lan w) ≡ list_snaps_of h c c.primary_ds w

module _ (h : Host) (month_day month_day_hour : ℕ → Text) (fuel : ℕ) (lan : Lan h.World)
    (key : Text) (c : ZfsConfig) (other_ds : Text) (law : IsPair (zfs_of h c) c.primary_ds other_ds)
    (quiet : IsQuiet h c c.primary_ds) (apart : IsApart h lan c) where
  open h use {World}

  -- The primary holds `guid` in n0 and nothing in new.
  abbrev pub IsPromoted : Text → World → Type 0
  IsPromoted guid w = (n1 : Option Text) × Holds (zfs_of h c) c.primary_ds none (some guid) n1 w

  relisted-IsPromoted :
      (g : Text) (w w' : World)
      → list_snaps_of h c c.primary_ds w' ≡ list_snaps_of h c c.primary_ds w
      → IsPromoted g w
      → IsPromoted g w'
  relisted-IsPromoted g w w' same (n1, holds) =
      (n1, relisted (zfs_of h c) c.primary_ds none (some g) n1 w w' same holds)

  note_primary-lists :
      (consistent : Text) (confs : Dict Text) (s : Snap) (w : World)
      → list_snaps_of h c c.primary_ds
          (note_primary h month_day month_day_hour fuel lan key c consistent confs s w)
        ≡ list_snaps_of h c c.primary_ds w
  unfolding note_primary
  note_primary-lists consistent confs s w = noted confs
    where
      marked-lists :
          list_snaps_of h c c.primary_ds (
            if eqt consistent []
            then w
            else set_quietly h
                (txt "cs:consistent=" ++ consistent)
                (snap_name h c c.primary_ds s.slot)
                w)
          ≡ list_snaps_of h c c.primary_ds w
      marked-lists = elim (Bool-cases (eqt consistent [])) [
        | inl e ↦ rw e refl
        | inr e ↦
            rw e (
              set_quietly-Shows h c c.primary_ds quiet (list_snaps_of h c c.primary_ds w) _ _ w
                refl)
      ]

      noted :
          (confs : Dict Text)
          → list_snaps_of h c c.primary_ds
              (note_primary h month_day month_day_hour fuel lan key c consistent confs s w)
            ≡ list_snaps_of h c c.primary_ds w
      noted [] = marked-lists
      noted (conf ∷ more) =
          mark_seen-Shows h c c.primary_ds quiet (list_snaps_of h c c.primary_ds w) (conf ∷ more) _
            (apply_confs-Shows h c c.primary_ds quiet (list_snaps_of h c c.primary_ds w) fuel _
              (conf ∷ more) _ _ marked-lists)

  -- The backup has reported this identity as received.
  abbrev pub IsHeard : Text → Type 0
  IsHeard guid = (w : World) × (e : Text) × ((lan.recv_msg w).0 ≡ done (done_msg true e guid))

  done_of_lem :
      (m : ZfsMsg) (guid : Text) → done_of m ≡ done guid → (e : Text) × (m ≡ done_msg true e guid)
  unfolding done_of
  done_of_lem (done_msg true e g) guid h = (e, ground (arith, h))
  done_of_lem (done_msg false e g) guid h = absurd (ground (arith, h))
  done_of_lem (welcome_msg v k) guid h = absurd (ground (arith, h))
  done_of_lem (ack_msg b e) guid h = absurd (ground (arith, h))
  done_of_lem ping_msg guid h = absurd (ground (arith, h))
  done_of_lem (hello_msg hello) guid h = absurd (ground (arith, h))
  done_of_lem (plan_msg p) guid h = absurd (ground (arith, h))
  done_of_lem (chunk_msg b) guid h = absurd (ground (arith, h))
  done_of_lem (rotate_msg r) guid h = absurd (ground (arith, h))
  done_of_lem garbled guid h = absurd (ground (arith, h))
  done_of_lem stray guid h = absurd (ground (arith, h))

  recv_done-IsHeard :
      (w : World) (guid : Text)
      → (recv_done h month_day month_day_hour fuel lan key c w).0 ≡ done guid
      → IsHeard guid
  unfolding recv_done
  recv_done-IsHeard w guid ok =
      let (m, heard, known) = bind-done lan.recv_msg (λ m. lift (done_of m)) w guid ok in
      let (e, same) = done_of_lem m guid known in (w, e, heard ∙ ap done same)

  -- The snapshot that was confirmed stands in new.
  abbrev ShowsNew : Snap → World → Type 0
  ShowsNew s w = find_slot (txt "new") (listed_or_none (list_snaps_of h c c.primary_ds w)) ≡ some s

  abbrev IsConfirmed : Snap → World → Type 0
  IsConfirmed s w = ShowsNew s w × IsHeard s.guid

  confirmed_by_lem :
      (guid : Text) (l : List Snap) (s : Snap)
      → confirmed_by h month_day month_day_hour fuel lan key c guid l ≡ done s
      → (find_slot (txt "new") l ≡ some s) × (s.guid ≡ guid)
  unfolding confirmed_by
  confirmed_by_lem guid l s e = go (find_slot (txt "new") l) refl
    where
      go :
          (o : Option Snap)
          → find_slot (txt "new") l ≡ o
          → (find_slot (txt "new") l ≡ some s) × (s.guid ≡ guid)
      go none f = absurd (ground (arith, rw (f, confirmed_by) at e))
      go (some t) f = elim (Bool-cases (eqt t.guid guid)) [
        | inl same ↦
            let answer : done t ≡ done s = rw (f, confirmed_by, same) at e in
            (ground (arith, f, answer), ground (arith, answer, same, eqt_iff t.guid guid))
        | inr differs ↦ absurd (ground (arith, rw (f, confirmed_by, differs) at e))
      ]

  tell_backup-IsPromoted :
      (g consistent : Text) (confs : Dict Text) (w : World)
      → IsPromoted g w
      → IsPromoted g (tell_backup h month_day month_day_hour fuel lan key c consistent confs w).1
  unfolding tell_backup recv_done
  tell_backup-IsPromoted g consistent confs =
      Keeps-bind (IsPromoted g) (lan.send_msg _) _
        (λ w p. relisted-IsPromoted g w _ (apart.send_lists _ w) p)
        (λ u.
          Keeps-bind (IsPromoted g) (recv_done h month_day month_day_hour fuel lan key c)
            (λ _. pure true)
            (Keeps-bind (IsPromoted g) lan.recv_msg _
              (λ w p. relisted-IsPromoted g w _ (apart.recv_lists w) p) (λ m w p. p))
            (λ t w p. p))

  finish_lan-IsPromoted :
      (consistent : Text) (confs : Dict Text) (s : Snap) (w : World)
      → ShowsNew s w
      → (finish_lan h month_day month_day_hour fuel lan key c consistent confs s w).0 ≡ done true
      → IsPromoted s.guid
          (finish_lan h month_day month_day_hour fuel lan key c consistent confs s w).1
  unfolding finish_lan
  finish_lan-IsPromoted consistent confs s w shows ok =
      bind-ends (IsPromoted s.guid) (rotate_primary h month_day month_day_hour fuel lan key c)
        (λ _. tell_backup h month_day month_day_hour fuel lan key c consistent confs) noted true ok
        (λ u first rest. tell_backup-IsPromoted s.guid consistent confs _ (
          guid_at (txt "n0") pl,
          rotate-Holds (zfs_of h c) month_day month_day_hour c.primary_ds other_ds law c.retention
              c.versions (some s.guid) (guid_at (txt "n0") pl) (guid_at (txt "n1") pl) noted
              (Holds-of (zfs_of h c) c.primary_ds pl noted (some s.guid)
                (note_primary-lists consistent confs s w ∙ listed_lem _ (txt "new") s shows)
                (find_slot-guid (txt "new") pl s shows).0)
              first,
        ))
    where
      pl : List Snap
      pl = listed_or_none (list_snaps_of h c c.primary_ds w)

      noted : World
      noted = note_primary h month_day month_day_hour fuel lan key c consistent confs s w

  abbrev pub IsSent : World → Type 0
  IsSent w = (g : Text) × IsPromoted g w × IsHeard g

  send_confirmed-IsConfirmed :
      (pl : List Snap) (plan : ZfsPlan) (s : Snap) (w : World)
      → (send_confirmed h month_day month_day_hour fuel lan key c pl plan w).0 ≡ done s
      → IsConfirmed s (send_confirmed h month_day month_day_hour fuel lan key c pl plan w).1
  unfolding send_confirmed stream_confirmed confirm_listed
  send_confirmed-IsConfirmed pl plan s w ok =
      bind-ends (IsConfirmed s)
        (lift (stream_args h month_day month_day_hour fuel lan key c pl plan))
        (stream_confirmed h month_day month_day_hour fuel lan key c) w s ok
        (λ args chosen ok1.
          bind-ends (IsConfirmed s) (stream_to h month_day month_day_hour fuel lan key c args)
            (λ _.
              recv_done h month_day month_day_hour fuel lan key c
              >>= confirm_listed h month_day month_day_hour fuel lan key c)
            w s ok1
            (λ u streamed ok2.
              bind-ends (IsConfirmed s) (recv_done h month_day month_day_hour fuel lan key c)
                (confirm_listed h month_day month_day_hour fuel lan key c) _ s ok2
                (λ guid answered ok3.
                  let (shows, same) = confirmed_by_lem guid _ s ok3 in
                  (shows, rw same (recv_done-IsHeard _ guid answered)))))

  discard_failed-IsConfirmed :
      (s : Snap) (x : Outcome Snap × World)
      → (discard_failed h month_day month_day_hour fuel lan key c x).0 ≡ done s
      → (x.0 ≡ done s → IsConfirmed s x.1)
      → IsConfirmed s (discard_failed h month_day month_day_hour fuel lan key c x).1
  unfolding discard_failed
  discard_failed-IsConfirmed s (done t, w) ok k = k ok
  discard_failed-IsConfirmed s (failed e, w) ok k = absurd (ground (arith, ok))

  send_taken-IsSent :
      (pl : List Snap) (plan : ZfsPlan) (consistent : Text) (confs : Dict Text) (w : World)
      → (send_taken h month_day month_day_hour fuel lan key c pl plan consistent confs w).0
        ≡ done true
      → IsSent (send_taken h month_day month_day_hour fuel lan key c pl plan consistent confs w).1
  unfolding send_taken or_discard
  send_taken-IsSent pl plan consistent confs w ok =
      bind-ends IsSent (or_discard h month_day month_day_hour fuel lan key c sending_it)
        (finish_lan h month_day month_day_hour fuel lan key c consistent confs) w true ok
        (λ s sent rest.
          let (shows, heard) =
            discard_failed-IsConfirmed s (sending_it w) sent
              (send_confirmed-IsConfirmed pl plan s w) in
          (s.guid, finish_lan-IsPromoted consistent confs s _ shows rest, heard))
    where
      sending_it : Act World Snap
      sending_it = send_confirmed h month_day month_day_hour fuel lan key c pl plan

  send_planned-IsSent :
      (pl : List Snap) (plan : ZfsPlan) (w : World)
      → (send_planned h month_day month_day_hour fuel lan key c pl plan w).0 ≡ done true
      → IsSent (send_planned h month_day month_day_hour fuel lan key c pl plan w).1
  unfolding send_planned send_noted
  send_planned-IsSent pl plan w ok =
      bind-ends IsSent (take_snapshot h c c.primary_ds (txt "new"))
        (send_noted h month_day month_day_hour fuel lan key c pl plan)
        (drop_stale h month_day month_day_hour fuel lan key c pl w) true ok
        (λ consistent taken rest. send_taken-IsSent pl plan consistent _ _ rest)

  -- An action that ends with `pure false` does not say that data was sent.
  ends_false : {A : Type 0} (m : Act World A) (w : World) → ((m >> pure false) w).0 ≢ done true
  ends_false m w ok =
      let (a, first, last) = bind-done m (λ _. pure false) w true ok in
      absurd (ground (arith, last))

  follow-IsSent :
      (pl : List Snap) (plan : ZfsPlan) (w : World)
      → (follow h month_day month_day_hour fuel lan key c pl plan w).0 ≡ done true
      → IsSent (follow h month_day month_day_hour fuel lan key c pl plan w).1
  unfolding follow
  follow-IsSent pl (plan_error m) w ok = absurd (ground (arith, ok))
  follow-IsSent pl (plan_blocked m) w ok = absurd (ground (arith, ok))
  follow-IsSent pl plan_rotate w ok =
      absurd (ends_false (rotate_primary h month_day month_day_hour fuel lan key c) w ok)
  follow-IsSent pl (plan_resume token) w ok = absurd (
      ends_false
        (stream_to h month_day month_day_hour fuel lan key c (txt "send" ∷ txt "-t" ∷ token ∷ [])
          >> recv_done h month_day month_day_hour fuel lan key c)
        w ok)
  follow-IsSent pl plan_full w ok = send_planned-IsSent pl plan_full w ok
  follow-IsSent pl (plan_inc base) w ok = send_planned-IsSent pl (plan_inc base) w ok

  exchange-IsSent :
      (pl : List Snap) (w : World)
      → (exchange h month_day month_day_hour fuel lan key c pl w).0 ≡ done true
      → IsSent (exchange h month_day month_day_hour fuel lan key c pl w).1
  unfolding exchange answer_plan
  exchange-IsSent pl w ok =
      bind-ends IsSent (lan.send_msg _)
        (λ _. lan.recv_msg >>= answer_plan h month_day month_day_hour fuel lan key c pl) w true ok
        (λ u told ok1.
          bind-ends IsSent lan.recv_msg (answer_plan h month_day month_day_hour fuel lan key c pl) _
            true ok1
            (λ m heard ok2.
              bind-ends IsSent (lift (plan_of m))
                (follow h month_day month_day_hour fuel lan key c pl) _ true ok2
                (λ plan known ok3. follow-IsSent pl plan _ ok3)))

  hang_up-IsSent : (w : World) → IsSent w → IsSent (lan.hang_up_lan w)
  hang_up-IsSent w (g, promoted, heard) =
      (g, relisted-IsPromoted g w _ (apart.hang_up_lists w) promoted, heard)

  cycle_remote_listed-IsSent :
      (pl : List Snap) (w : World)
      → (cycle_remote_listed h month_day month_day_hour fuel lan key c pl w).0 ≡ done true
      → IsSent (cycle_remote_listed h month_day month_day_hour fuel lan key c pl w).1
  unfolding cycle_remote_listed closing
  cycle_remote_listed-IsSent pl w ok =
      elim (Bool-cases (is_same h month_day month_day_hour fuel lan key c pl w)) [
        | inl same ↦ absurd (
            ends_false (conf_only_remote h month_day month_day_hour fuel lan key c) w
              (rw same at ok))
        | inr news ↦ rw news (
            bind-ends IsSent (dial_zfs h month_day month_day_hour fuel lan key c)
              (λ _.
                closing h month_day month_day_hour fuel lan key c
                  (exchange h month_day month_day_hour fuel lan key c pl))
              w true (rw news at ok)
              (λ u dialled over. hang_up-IsSent _ (exchange-IsSent pl _ over)))
      ]

  -- A cycle over the network that returns that it has sent data leaves in n0 of the primary a snapshot
  -- whose identity the connection has reported as received, and none in new. This is where renaming and destroying change the
  -- listing as they say, and where setting properties and the connection do not.
  pub cycle_remote-IsSent :
      (w : World)
      → (cycle_remote h month_day month_day_hour fuel lan key c w).0 ≡ done true
      → IsSent (cycle_remote h month_day month_day_hour fuel lan key c w).1
  unfolding cycle_remote
  cycle_remote-IsSent w ok =
      bind-ends IsSent (reads (list_snaps_of h c c.primary_ds))
        (cycle_remote_listed h month_day month_day_hour fuel lan key c) w true ok
        (λ pl listed rest. cycle_remote_listed-IsSent pl _ rest)
