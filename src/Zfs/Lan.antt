-- ===== src/Zfs/Lan.antt =====
-- zfsnet.go, the primary's side: `dial`, `streamTo`, `recvDone`, `cycleRemote` and `confOnlyRemote`.
pub mod Streamed
use mathlib.Core.Bool.{◌||◌, ◌&&◌}
use cs_sync.Prelude.{
  eqt, Text, txt, ℕ, Bool, true, false, not, Option, none, some, List, [], ◌∷◌, ◌++◌, ◌==◌,
  if◌then◌else◌, is_none,
}
use cs_sync.Os.{errorf, Outcome, done, failed, Act, ◌>>=◌, ◌>>◌, pure, raise, lift, reads}
use cs_sync.Prelude.Dict.{Dict}
use cs_sync.Wire.{proto_version_here}
use cs_sync.Zfs.{Snap, find_slot, rotate}
use cs_sync.Zfs.Backup.{
  ZfsHello, ZfsPlan, plan_full, plan_rotate, plan_inc, plan_resume, plan_blocked, plan_error,
}
use cs_sync.Zfs.Command.{
  Host, ZfsConfig, zfs_get, set_quietly, snap_name, send_args, list_snaps_of, destroy_named, zfs_of,
  changed, status, take_snapshot,
}
use cs_sync.Zfs.Conf.{apply_confs, conf_delta, confs_if_on, mark_seen}
use cs_sync.Zfs.Cycle.{listed_or_none, confirm}
use cs_sync.Zfs.Session.{
  ZfsMsg, welcome_msg, ack_msg, hello_msg, plan_msg, chunk_msg, done_msg, rotate_msg,
}

-- What zfs send writes: the blocks that its output's reads give, and how it ends.
pub record SendStream : Type 0 where
  pub send_blocks_of : List Text
  pub send_ends : Outcome (Unit {0})

-- The connection to the backup, and zfs send.
pub record Lan (W : Type 0) : Type 0 where
  pub connect_tcp : W → Outcome (Unit {0}) × W
  pub send_msg : ZfsMsg → W → Outcome (Unit {0}) × W
  pub recv_msg : W → Outcome ZfsMsg × W
  pub hang_up_lan : W → W
  pub start_send : List Text → W → Outcome SendStream

unfoldable pub peer_of : ZfsMsg → Outcome (Unit {0})
peer_of (welcome_msg v key) =
    if v == proto_version_here then done tt else failed (errorf (txt "protocol version mismatch"))
peer_of _ = failed (errorf (txt "handshake"))

unfoldable pub accepted_by : ZfsMsg → Outcome (Unit {0})
accepted_by (ack_msg true e) = done tt
accepted_by (ack_msg false e) = failed (errorf (txt "REFUSED by backup: " ++ e))
accepted_by _ = failed (errorf (txt "handshake accept-ack"))

-- `recvDone` on the frame that was received.
unfoldable pub done_of : ZfsMsg → Outcome Text
done_of (done_msg true e g) = done g
done_of (done_msg false e g) = failed (errorf (txt "backup: " ++ e))
done_of _ = failed (errorf (txt "expected ZfsDone"))

unfoldable pub plan_of : ZfsMsg → Outcome ZfsPlan
plan_of (plan_msg p) = done p
plan_of _ = failed (errorf (txt "expected plan"))

-- The last snapshot with this identity.
unfoldable pub base_snap : Text → List Snap → Option Snap → Option Snap
base_snap guid [] found = found
base_snap guid (s ∷ l) found = base_snap guid l (if eqt s.guid guid then some s else found)

unfoldable pub refs_of : List Snap → List (Text × Text)
refs_of [] = []
refs_of (s ∷ l) = (s.slot, s.guid) ∷ refs_of l

module _ (h : Host) (month_day month_day_hour : ℕ → Text) (fuel : ℕ) (lan : Lan h.World)
    (key : Text) (c : ZfsConfig) where
  open h use {World}

  -- A failure after the connection is made closes it.
  or_hang_up : Act World (Unit {0}) → Act World (Unit {0})
  or_hang_up m w =
      let (r, w') = m w in
      elim r [ done u ↦ (done tt, w') | failed e ↦ (failed e, lan.hang_up_lan w') ]

  handshake : Act World (Unit {0})
  unfolding peer_of accepted_by
  handshake = do
    m ← lan.recv_msg
    lift (peer_of m)
    lan.send_msg (welcome_msg proto_version_here key)
    a ← lan.recv_msg
    lift (accepted_by a)

  -- `dial`
  unfoldable pub dial_zfs : Act World (Unit {0})
  unfolding or_hang_up handshake
  dial_zfs = lan.connect_tcp >> or_hang_up handshake

  send_chunks : List Text → Act World (Unit {0})
  send_chunks [] = pure tt
  send_chunks ([] ∷ bs) = send_chunks bs
  send_chunks ((b ∷ block) ∷ bs) = lan.send_msg (chunk_msg (b ∷ block)) >> send_chunks bs

  -- `streamTo`; the empty chunk ends the stream.
  unfoldable pub stream_to : List Text → Act World (Unit {0})
  unfolding send_chunks
  stream_to args = do
    s ← reads (lan.start_send args)
    send_chunks s.send_blocks_of
    lift s.send_ends
    lan.send_msg (chunk_msg [])

  -- `recvDone`
  unfoldable pub recv_done : Act World Text
  unfolding done_of
  recv_done = do m ← lan.recv_msg; lift (done_of m)

  -- What `fail` does: the snapshot of this cycle goes.
  unfoldable pub discard_failed : {A : Type 0} → Outcome A × World → Outcome A × World
  unfolding destroy_named
  discard_failed (done a, w) = (done a, w)
  discard_failed (failed e, w) =
      (failed e, (destroy_named h c (snap_name h c c.primary_ds (txt "new")) w).1)

  unfoldable pub or_discard : {A : Type 0} → Act World A → Act World A
  unfolding discard_failed
  or_discard m w = discard_failed (m w)

  unfoldable pub stream_args : List Snap → ZfsPlan → Outcome (List Text)
  unfolding base_snap send_args
  stream_args pl (plan_inc base) = elim (base_snap base pl none) [
    | none ↦ failed (errorf (txt "backup chose unknown base"))
    | some s ↦ done (
        send_args h c (
          txt "-i"
          ∷ snap_name h c c.primary_ds s.slot
          ∷ snap_name h c c.primary_ds (txt "new")
          ∷ []))
  ]
  stream_args pl _ = done (send_args h c (snap_name h c c.primary_ds (txt "new") ∷ []))

  -- The primary's own snapshot, if it is the one that the backup reports.
  unfoldable pub confirmed_by : Text → List Snap → Outcome Snap
  unfolding find_slot
  confirmed_by guid l = elim (find_slot (txt "new") l) [
    | none ↦ failed (errorf (txt "backup did not confirm snapshot"))
    | some s ↦
        if eqt s.guid guid then done s else failed (errorf (txt "backup did not confirm snapshot"))
  ]

  unfoldable pub confirm_listed : Text → Act World Snap
  unfolding confirmed_by listed_or_none list_snaps_of
  confirm_listed guid = do
    l ← reads (λ w. done (listed_or_none (list_snaps_of h c c.primary_ds w)))
    lift (confirmed_by guid l)

  unfoldable pub stream_confirmed : List Text → Act World Snap
  unfolding stream_to recv_done confirm_listed
  stream_confirmed args = stream_to args >> (recv_done >>= confirm_listed)

  -- Up to the confirmation.
  unfoldable pub send_confirmed : List Snap → ZfsPlan → Act World Snap
  unfolding stream_args stream_confirmed
  send_confirmed pl plan = lift (stream_args pl plan) >>= stream_confirmed

  unfoldable pub note_primary : Text → Dict Text → Snap → World → World
  unfolding set_quietly apply_confs mark_seen
  note_primary consistent confs s w =
      let w1 =
        if eqt consistent []
        then w
        else set_quietly h (txt "cs:consistent=" ++ consistent) (snap_name h c c.primary_ds s.slot)
            w in
      elim confs [
        | [] ↦ w1
        | conf ∷ more ↦
            mark_seen h c (conf ∷ more)
              (apply_confs h fuel c.primary_ds (conf ∷ more) (c.prefix ++ txt "new") w1)
      ]

  -- `c.rotate(c.primary, c.versions)`
  abbrev pub rotate_primary : Act World (Unit {0})
  rotate_primary = rotate (zfs_of h c) month_day month_day_hour c.retention c.primary_ds c.versions

  -- The backup is told to rotate.
  unfoldable pub tell_backup : Text → Dict Text → Act World Bool
  unfolding recv_done
  tell_backup consistent confs = do
    lan.send_msg (
        rotate_msg (record {
          by_app = eqt consistent (txt "app");
          consistent = consistent;
          rotate_conf = confs;
        }))
    recv_done
    pure true

  -- Both sides rotate, the primary first.
  unfoldable pub finish_lan : Text → Dict Text → Snap → Act World Bool
  unfolding note_primary rotate tell_backup
  finish_lan consistent confs s w =
      (rotate_primary >> tell_backup consistent confs) (note_primary consistent confs s w)

  -- A stale "new" that the backup does not hold goes first.
  unfoldable pub drop_stale : List Snap → World → World
  unfolding find_slot destroy_named
  drop_stale pl w = elim (find_slot (txt "new") pl) [
    | none ↦ w
    | some s ↦ (destroy_named h c (snap_name h c c.primary_ds s.slot) w).1
  ]

  unfoldable pub send_taken : List Snap → ZfsPlan → Text → Dict Text → Act World Bool
  unfolding or_discard send_confirmed finish_lan
  send_taken pl plan consistent confs =
      or_discard (send_confirmed pl plan) >>= finish_lan consistent confs

  unfoldable pub send_noted : List Snap → ZfsPlan → Text → Act World Bool
  unfolding send_taken confs_if_on
  send_noted pl plan consistent w = send_taken pl plan consistent (confs_if_on h c w) w

  -- The plans "full" and "inc".
  unfoldable pub send_planned : List Snap → ZfsPlan → Act World Bool
  unfolding drop_stale take_snapshot send_noted
  send_planned pl plan w =
      (take_snapshot h c c.primary_ds (txt "new") >>= send_noted pl plan) (drop_stale pl w)

  unfoldable pub follow : List Snap → ZfsPlan → Act World Bool
  unfolding status rotate stream_to recv_done send_planned
  follow pl (plan_error m) = raise (errorf (txt "backup: " ++ m))
  follow pl (plan_blocked m) = λ w. (done false, status h c (txt "blocked: " ++ m) w)
  follow pl plan_rotate = rotate_primary >> pure false
  follow pl (plan_resume token) =
      stream_to (txt "send" ∷ txt "-t" ∷ token ∷ []) >> recv_done >> pure false
  follow pl plan_full = send_planned pl plan_full
  follow pl (plan_inc base) = send_planned pl (plan_inc base)

  unfoldable pub hello_for : List (Text × Text) → Bool → Dict Text → World → ZfsHello
  unfolding zfs_get
  hello_for snaps conf_only confs w = record {
    hello_nr = c.nr;
    fs_guid = zfs_get h (txt "guid") c.primary_ds w;
    hello_snaps = snaps;
    hello_recursive = c.recursive;
    conf_only = conf_only;
    hello_conf = confs;
  }

  -- `defer cn.Close()`
  unfoldable pub closing : {A : Type 0} → Act World A → Act World A
  closing m w = let (r, w') = m w in (r, lan.hang_up_lan w')

  unfoldable pub answer_plan : List Snap → ZfsMsg → Act World Bool
  unfolding plan_of follow
  answer_plan pl m = lift (plan_of m) >>= follow pl

  unfoldable pub exchange : List Snap → Act World Bool
  unfolding hello_for refs_of answer_plan
  exchange pl w =
      (lan.send_msg (hello_msg (hello_for (refs_of pl) false [] w))
          >> (lan.recv_msg >>= answer_plan pl))
        w

  unfoldable pub send_delta : Dict Text → Act World (Unit {0})
  unfolding hello_for recv_done apply_confs mark_seen
  send_delta d = do
    hello ← reads (λ w. done (hello_for [] true d w))
    lan.send_msg (hello_msg hello)
    recv_done
    (λ w. (done tt, mark_seen h c d (apply_confs h fuel c.primary_ds d [] w)))

  -- `confOnlyRemote`
  unfoldable pub conf_only_remote : Act World (Unit {0})
  unfolding conf_delta dial_zfs closing send_delta
  conf_only_remote w =
      let (d, w1) = conf_delta h c fuel w in
      let sent = (dial_zfs >> closing (send_delta d)) w1 in
      elim d [ [] ↦ (done tt, w1) | conf ∷ more ↦ sent ]

  unfoldable pub is_same : List Snap → World → Bool
  unfolding find_slot changed
  is_same pl w =
      not (is_none (find_slot (txt "n0") pl))
      && (is_none (find_slot (txt "new") pl) && not (changed h c w))

  unfoldable pub cycle_remote_listed : List Snap → Act World Bool
  unfolding is_same conf_only_remote dial_zfs closing exchange
  cycle_remote_listed pl w =
      if is_same pl w
      then (conf_only_remote >> pure false) w
      else (dial_zfs >> closing (exchange pl)) w

  -- `cycleRemote`; the Boolean that it returns beside an error is left out.
  unfoldable pub cycle_remote : Act World Bool
  unfolding cycle_remote_listed list_snaps_of
  cycle_remote = do pl ← reads (list_snaps_of h c c.primary_ds); cycle_remote_listed pl
