-- ===== src/Zfs/Session.antt =====
-- zfsnet.go, the backup's side of a connection: `cfg`, `receiveStream` and the loop of `handle` behind the handshake.
-- A connection carries one hello, which its callers send. A frame at a time is taken: a stream under way is a part of the session. The zfs recv process is `Receive`.
pub mod Rotates
use mathlib.Core.Bool.{◌||◌, ◌&&◌}
use cs_sync.Prelude.{
  eqt, Text, txt, ℕ, Bool, true, false, not, Option, none, some, List, [], ◌∷◌, ◌++◌, if◌then◌else◌,
}
use cs_sync.Os.{Outcome, done, failed}
use cs_sync.Prelude.Dict.{Dict}
use cs_sync.Zfs.{Snap, find_slot, Keep, rotate}
use cs_sync.Zfs.Backup.{
  ZfsHello, ZfsPlan, plan_full, plan_rotate, plan_inc, plan_blocked, plan_error, plan_backup,
}
use cs_sync.Zfs.Command.{
  Host, ZfsConfig, zfs_exists, set_quietly, snap_name, list_snaps_of, zfs_of, fix_tree, status,
}
use cs_sync.Zfs.Conf.{apply_confs}
use cs_sync.Zfs.Cycle.{listed_or_none}

-- wire.ZfsRotate
pub record ZfsRotate : Type 0 where
  pub by_app : Bool
  pub consistent : Text
  pub rotate_conf : Dict Text

-- The frames of a replication, in both directions, with those of the handshake. `garbled` is a hello
-- that cannot be decoded, `stray` any other frame.
pub data ZfsMsg : Type 0 where
  welcome_msg : ℕ → Text → ZfsMsg
  ack_msg : Bool → Text → ZfsMsg
  ping_msg : ZfsMsg
  hello_msg : ZfsHello → ZfsMsg
  plan_msg : ZfsPlan → ZfsMsg
  chunk_msg : Text → ZfsMsg
  done_msg : Bool → Text → Text → ZfsMsg
  rotate_msg : ZfsRotate → ZfsMsg
  garbled stray : ZfsMsg

-- zfs recv with its standard input.
pub record Receive (W : Type 0) : Type 0 where
  pub start_recv : List Text → W → Outcome (Unit {0}) × W
  pub feed : Text → W → Outcome (Unit {0}) × W
  pub wait_recv : W → Outcome (Unit {0}) × W

-- `zfsRecv`
pub record ZfsRecv : Type 0 where
  pub dataset : Text
  pub recv_nr : Text
  pub recv_key : Text
  pub recv_service : Text
  pub recv_auto : Bool
  pub recv_retention : Keep

-- What `handle` keeps between frames: the configuration and the hello of the last plan, and the plan
-- of a stream under way.
pub record Session : Type 0 where
  pub cur : Option ZfsConfig
  pub last_hello : ZfsHello
  pub streaming : Option ZfsPlan
  pub is_open : Bool

-- `cfg`
unfoldable pub config_for : ZfsRecv → ZfsHello → ZfsConfig
config_for rv hello = record {
  primary_ds = [];
  backup_ds = rv.dataset;
  nr = hello.hello_nr;
  prefix = txt "sync_" ++ hello.hello_nr ++ txt "_" ++ hello.fs_guid ++ txt "_";
  versions = false;
  retention = rv.recv_retention;
  rollback_auto = rv.recv_auto;
  service_name = rv.recv_service;
  recursive = hello.hello_recursive;
  pve_on = false;
}

is_full : ZfsPlan → Bool
is_full plan_full = true
is_full _ = false

is_inc : ZfsPlan → Bool
is_inc (plan_inc base) = true
is_inc _ = false

new_guid_of : Outcome (List Snap) → Text
unfolding find_slot
new_guid_of (failed e) = []
new_guid_of (done l) = elim (find_slot (txt "new") l) [ none ↦ [] | some s ↦ s.guid ]

-- The consistency that a rotation notes; older senders only say that an application was frozen.
unfoldable pub consistency_noted : ZfsRotate → Text
consistency_noted r = if eqt r.consistent [] && r.by_app then txt "app" else r.consistent

module _ (h : Host) (month_day month_day_hour : ℕ → Text) (fuel : ℕ) (recv : Receive h.World)
    (rv : ZfsRecv) where
  open h use {World}

  abbrev pub Handled : Type 0
  Handled = Session × List ZfsMsg × World

  -- What follows a stream that zfs recv has taken.
  after_stream : ZfsConfig → ZfsHello → ZfsPlan → World → World
  unfolding set_quietly fix_tree is_full is_inc
  after_stream c hello plan w =
      let w1 =
        if is_full plan
        then set_quietly h (txt "cs:sync=" ++ hello.hello_nr ++ txt ":" ++ hello.fs_guid)
            c.backup_ds
            (set_quietly h (txt "canmount=noauto") c.backup_ds
              (set_quietly h (txt "readonly=on") c.backup_ds w))
        else w in
      let w2 = if c.recursive then fix_tree h c c.backup_ds w1 else w1 in
      if is_inc plan && not (eqt rv.recv_service [])
      then h.remove_approval rv.recv_service w2
      else w2

  stream_result : ZfsConfig → ZfsHello → ZfsPlan → Outcome (Unit {0}) × World → ZfsMsg × World
  unfolding after_stream new_guid_of list_snaps_of
  stream_result c hello plan (failed e, w) = (done_msg false (txt "zfs recv") [], w)
  stream_result c hello plan (done u, w) =
      let w' = after_stream c hello plan w in
      (done_msg true [] (new_guid_of (list_snaps_of h c c.backup_ds w')), w')

  -- The end of the loop of `receiveStream`.
  finish_stream : Session → ZfsConfig → ZfsPlan → World → Handled
  unfolding stream_result
  finish_stream s c plan w =
      let (reply, w') = stream_result c s.last_hello plan (recv.wait_recv w) in
      (record s { streaming = none }, reply ∷ [], w')

  fed : Session → ZfsConfig → ZfsPlan → Outcome (Unit {0}) × World → Handled
  unfolding finish_stream
  fed s c plan (done u, w) = (s, [], w)
  fed s c plan (failed e, w) = finish_stream s c plan w

  -- A frame while a stream is under way.
  take_chunk : Session → ZfsConfig → ZfsPlan → ZfsMsg → World → Handled
  unfolding fed finish_stream
  take_chunk s c plan (chunk_msg []) w = finish_stream s c plan w
  take_chunk s c plan (chunk_msg (b ∷ data')) w = fed s c plan (recv.feed (b ∷ data') w)
  take_chunk s c plan _ w = (record s { streaming = none }, [], (recv.wait_recv w).1)

  recv_args : ZfsConfig → ZfsPlan → List Text
  unfolding is_inc
  recv_args c plan =
      if is_inc plan
      then txt "recv" ∷ txt "-s" ∷ txt "-F" ∷ txt "-u" ∷ c.backup_ds ∷ []
      else txt "recv" ∷ txt "-s" ∷ txt "-u" ∷ c.backup_ds ∷ []

  started : Session → ZfsPlan → Outcome (Unit {0}) × World → Handled
  started s plan (done u, w) = (record s { streaming = some plan }, plan_msg plan ∷ [], w)
  started s plan (failed e, w) = (s, plan_msg plan ∷ done_msg false (txt "zfs recv") [] ∷ [], w)

  -- What follows the answer with a plan.
  follow_plan : Session → ZfsConfig → ZfsPlan → World → Handled
  unfolding started recv_args status
  follow_plan s c (plan_blocked m) w =
      (s, plan_msg (plan_blocked m) ∷ [], status h c (txt "blocked: " ++ m) w)
  follow_plan s c (plan_error m) w =
      (s, plan_msg (plan_error m) ∷ [], h.write_status rv.recv_service (txt "error: " ++ m) w)
  follow_plan s c plan_rotate w = (s, plan_msg plan_rotate ∷ [], w)
  follow_plan s c plan w = started s plan (recv.start_recv (recv_args c plan) w)

  take_conf : Session → ZfsHello → World → Handled
  unfolding config_for zfs_exists apply_confs
  take_conf s hello w =
      let c = config_for rv hello in
      let stored = apply_confs h fuel c.backup_ds hello.hello_conf [] w in
      if not (eqt hello.hello_nr rv.recv_nr)
      then (s, done_msg false (txt "nr mismatch") [] ∷ [], w)
      else if not (zfs_exists h c.backup_ds w)
      then (s, done_msg false (txt "backup dataset does not exist yet") [] ∷ [], w)
      else (s, done_msg true [] [] ∷ [], stored)

  take_hello : Session → ZfsHello → World → Handled
  unfolding take_conf plan_backup follow_plan config_for
  take_hello s hello w =
      let s' = record s { last_hello = hello } in
      let c = config_for rv hello in
      let (plan, w') = plan_backup h month_day month_day_hour c hello w in
      let planned = follow_plan (record s' { cur = some c }) c plan w' in
      if hello.conf_only
      then take_conf s' hello w
      else if not (eqt hello.hello_nr rv.recv_nr)
      then follow_plan s' c (plan_error (txt "nr mismatch")) w
      else planned

  unfoldable pub rotation_answer : ZfsConfig → Outcome (Unit {0}) × World → ZfsMsg × World
  unfolding status
  rotation_answer c (failed e, w) = (done_msg false (txt "rotate") [], w)
  rotation_answer c (done u, w) = (done_msg true [] [], status h c (txt "ok") w)

  -- What a rotation notes of the snapshot before it renames it.
  unfoldable pub note_rotation : ZfsConfig → ZfsRotate → Snap → World → World
  unfolding set_quietly apply_confs consistency_noted
  note_rotation c r s w =
      let mark = consistency_noted r in
      let w1 =
        if eqt mark []
        then w
        else set_quietly h (txt "cs:consistent=" ++ mark) (snap_name h c c.backup_ds s.slot) w in
      apply_confs h fuel c.backup_ds r.rotate_conf (c.prefix ++ txt "new") w1

  unfoldable pub rotate_found : ZfsConfig → ZfsRotate → Option Snap → World → ZfsMsg × World
  unfolding rotation_answer note_rotation rotate
  rotate_found c r none w = (done_msg false (txt "no new snapshot to rotate") [], w)
  rotate_found c r (some s) w = rotation_answer c (
      rotate (zfs_of h c) month_day month_day_hour c.retention c.backup_ds true
        (note_rotation c r s w))

  unfoldable pub take_rotate : Option ZfsConfig → ZfsRotate → World → ZfsMsg × World
  unfolding rotate_found find_slot listed_or_none list_snaps_of
  take_rotate none r w = (done_msg false (txt "rotate without hello") [], w)
  take_rotate (some c) r w =
      rotate_found c r (find_slot (txt "new") (listed_or_none (list_snaps_of h c c.backup_ds w))) w

  -- A frame between streams.
  take_frame : Session → ZfsMsg → World → Handled
  unfolding take_hello take_rotate
  take_frame s ping_msg w = (s, ack_msg true [] ∷ [], w)
  take_frame s (hello_msg hello) w = take_hello s hello w
  take_frame s (rotate_msg r) w = let (reply, w') = take_rotate s.cur r w in (s, reply ∷ [], w')
  take_frame s garbled w = (record s { is_open = false }, [], w)
  take_frame s _ w = (s, [], w)

  dispatch_frame : Option ZfsPlan → Option ZfsConfig → Session → ZfsMsg → World → Handled
  unfolding take_frame take_chunk
  dispatch_frame (some plan) (some c) s m w = take_chunk s c plan m w
  dispatch_frame (some plan) none s m w = take_frame s m w
  dispatch_frame none c s m w = take_frame s m w

  -- The frames of a connection in their order, and all the answers.
  unfoldable pub serve_zfs : Session → List ZfsMsg → World → List ZfsMsg × World
  unfolding dispatch_frame
  serve_zfs s [] w = ([], w)
  serve_zfs s (m ∷ ms) w =
      let (s', replies, w') = dispatch_frame s.streaming s.cur s m w in
      let (later, w'') = serve_zfs s' ms w' in
      if s'.is_open then (replies ++ later, w'') else (replies, w')
