-- ===== src/Examples/Networked.antt =====
-- A cycle of zfsnet.go against a backup that asks for everything, over a host whose states are the
-- stages of that cycle. The dataset "p" stands for both sides.
use mathlib.Core.Path.{subst}
use cs_sync.Prelude.{
  eqt, Text, txt, eqt_iff, ℕ, ◌≡◌, refl, sym, ap, Bool, true, false, none, some, List, [], ◌∷◌,
  ◌++◌, arith, if◌then◌else◌,
}
use cs_sync.Os.{other_error, Outcome, done, failed}
use cs_sync.Prelude.Dict.{contains}
use cs_sync.Wire.{proto_version_here}
use cs_sync.Zfs.{Snap, Zfs, rotate_slots, rotate}
use cs_sync.Zfs.Backup.{plan_full}
use cs_sync.Zfs.Command.{Host, ZfsConfig, list_snaps_of, rename_of, destroy_named, zfs_of, status}
use cs_sync.Zfs.Lan.{Lan, cycle_remote}
use cs_sync.Zfs.Lan.Streamed.{IsApart, IsSent, cycle_remote-IsSent}
use cs_sync.Zfs.Quiet.{IsQuiet}
use cs_sync.Zfs.Recovery.{IsPair}
use cs_sync.Zfs.Rotated.{Holds}
use cs_sync.Zfs.Session.{
  ZfsRotate, ZfsMsg, welcome_msg, ack_msg, hello_msg, plan_msg, done_msg, Receive, ZfsRecv,
  take_rotate,
}
use cs_sync.Zfs.Session.Rotates.{is_good, take_rotate-advances}
use cs_sync.Zfs.Slots.{rename_slot, guid_at}

data Phase : Type 0 where
  calling greeted asked snapped promoted : Phase

abbrev phase_lists : Phase → Text
phase_lists snapped = txt "p@s_new" ++ 9 ∷ txt "7" ++ 9 ∷ txt "1"
phase_lists promoted = txt "p@s_n0" ++ 9 ∷ txt "7" ++ 9 ∷ txt "1"
phase_lists _ = []

phase_answers : List Text → Phase → Outcome Text
unfolding contains
phase_answers args ph =
    let listing = if contains (txt "p") args then phase_lists ph else [] in
    if contains (txt "snapshot") args then done listing else failed other_error

same_args : List Text → List Text → Bool
same_args [] [] = true
same_args [] (b ∷ m) = false
same_args (a ∷ l) [] = false
same_args (a ∷ l) (b ∷ m) = let rest = same_args l m in if eqt a b then rest else false

phase_runs : List Text → Phase → Outcome Text × Phase
unfolding same_args
phase_runs args asked =
    if same_args args (txt "snapshot" ∷ txt "p@s_new" ∷ [])
    then (done [], snapped)
    else (failed other_error, asked)
phase_runs args snapped =
    if same_args args (txt "rename" ∷ txt "p@s_new" ∷ txt "p@s_n0" ∷ [])
    then (done [], promoted)
    else (failed other_error, snapped)
phase_runs args ph = (failed other_error, ph)

abbrev phase_host : Host
phase_host = record {
  World = Phase;
  query = phase_answers;
  command = phase_runs;
  send_recv = λ a b ph. (failed other_error, ph);
  now_unix = λ ph. 0;
  read_approval = λ id ph. failed other_error;
  remove_approval = λ id ph. ph;
  write_blocked = λ id t ph. ph;
  remove_blocked = λ id ph. ph;
  write_status = λ id t ph. ph;
  freeze_due = λ ph. false;
  note_freeze = λ ph. ph;
  freeze_snap = λ ds name r ph. (failed other_error, ph);
  guests_of = λ t. none;
  stat_file = λ path ph. false;
  glob_files = λ pattern ph. [];
  read_conf = λ path ph. failed other_error;
  gzip64 = λ s. s;
  gunzip64 = λ s. some s;
  conf_seen = λ ph. none;
  set_conf_seen = λ m ph. ph;
}

abbrev said : Phase → ZfsMsg
said calling = welcome_msg proto_version_here []
said greeted = ack_msg true []
said asked = plan_msg plan_full
said _ = done_msg true [] (txt "7")

abbrev told : ZfsMsg → Phase → Phase
told (welcome_msg v k) calling = greeted
told (hello_msg hello) greeted = asked
told _ ph = ph

abbrev phase_lan : Lan Phase
phase_lan = record {
  connect_tcp = λ ph. (done tt, ph);
  send_msg = λ m ph. (done tt, told m ph);
  recv_msg = λ ph. (done (said ph), ph);
  hang_up_lan = λ ph. ph;
  start_send = λ args ph. done (record { send_blocks_of = txt "data" ∷ []; send_ends = done tt });
}

abbrev phase_config : ZfsConfig
phase_config = record {
  primary_ds = txt "p";
  backup_ds = txt "p";
  nr = txt "7";
  prefix = txt "s_";
  versions = true;
  retention = record { keep_hours = 24; keep_days = 30 };
  rollback_auto = false;
  service_name = [];
  recursive = false;
  pve_on = false;
}

abbrev phase_zfs : Zfs
phase_zfs = zfs_of phase_host phase_config

abbrev dateless : ℕ → Text
dateless t = []

lan_cycle_runs :
    (cycle_remote phase_host dateless dateless 1 phase_lan [] phase_config calling).0 ≡ done true
unfolding cycle_remote rotate rotate_slots phase_answers phase_runs eqt contains rename_of
lan_cycle_runs = refl

phase_listing_inj : (l m : List Snap) → ◌≡◌ {A = Outcome (List Snap)} (done l) (done m) → l ≡ m
phase_listing_inj l m e = ground (arith, e)

phase_destroy :
    (ds slot : Text) (ph : Phase) → phase_zfs.destroy_snap ds slot ph ≡ (failed other_error, ph)
unfolding destroy_named phase_runs eqt
phase_destroy ds slot calling = refl
phase_destroy ds slot greeted = refl
phase_destroy ds slot asked = refl
phase_destroy ds slot snapped = refl
phase_destroy ds slot promoted = refl

phase_rename :
    (from to : Text) (ph : Phase) (l : List Snap)
    → phase_zfs.list_snaps (txt "p") ph ≡ done l
    → (phase_zfs.rename_snap (txt "p") from to ph).0 ≡ done tt
    → phase_zfs.list_snaps (txt "p") (phase_zfs.rename_snap (txt "p") from to ph).1
      ≡ done (rename_slot from to l)
unfolding list_snaps_of phase_answers rename_of phase_runs eqt contains rename_slot
phase_rename from to calling l e ok = absurd (ground (arith, ok))
phase_rename from to greeted l e ok = absurd (ground (arith, ok))
phase_rename from to asked l e ok = absurd (ground (arith, ok))
phase_rename from to snapped l e ok =
    let is_new : from ≡ txt "new" = ground (arith, ok, eqt_iff from (txt "new")) in
    let is_n0 : to ≡ txt "n0" = ground (arith, ok, eqt_iff to (txt "n0")) in
    subst
      (λ (f : Text).
        phase_zfs.list_snaps (txt "p") (phase_zfs.rename_snap (txt "p") f to snapped).1
        ≡ done (rename_slot f to l))
      (sym is_new)
      (subst
        (λ (t : Text).
          phase_zfs.list_snaps (txt "p") (phase_zfs.rename_snap (txt "p") (txt "new") t snapped).1
          ≡ done (rename_slot (txt "new") t l))
        (sym is_n0) (ap done (ap (rename_slot (txt "new") (txt "n0")) (phase_listing_inj _ l e))))
phase_rename from to promoted l e ok = absurd (ground (arith, ok))

elsewhere :
    (ph ph' : Phase) → phase_zfs.list_snaps (txt "q") ph ≡ phase_zfs.list_snaps (txt "q") ph'
unfolding list_snaps_of phase_answers eqt contains
elsewhere ph ph' = refl

phase-IsPair : IsPair phase_zfs (txt "p") (txt "q")
unfolding eqt
phase-IsPair = record {
  faithful = record {
    after_rename = phase_rename;
    after_destroy = λ slot ph l e ok. absurd (ground (arith, phase_destroy (txt "p") slot ph, ok));
  };
  rename_apart = λ from to ph. elsewhere _ ph;
  destroy_apart = λ slot ph. elsewhere _ ph;
  destroy_failed = λ slot ph e h. rw (phase_destroy (txt "p") slot ph) refl;
  clear_lists = λ ph. refl;
  clear_lists_apart = λ ph. refl;
}

phase_set :
    (sub : Text) (a b : Text) (ph : Phase)
    → eqt sub (txt "snapshot") ≡ false
    → eqt sub (txt "rename") ≡ false
    → phase_host.command (sub ∷ a ∷ b ∷ []) ph ≡ (failed other_error, ph)
unfolding phase_runs
phase_set sub a b calling h k = refl
phase_set sub a b greeted h k = refl
phase_set sub a b asked h k = rw (h, same_args) refl
phase_set sub a b snapped h k = rw (k, same_args) refl
phase_set sub a b promoted h k = refl

phase-IsQuiet : IsQuiet phase_host phase_config (txt "p")
unfolding eqt
phase-IsQuiet = record {
  set_keeps = λ a b ph. rw (phase_set (txt "set") a b ph refl refl) refl;
  inherit_keeps = λ a b ph. rw (phase_set (txt "inherit") a b ph refl refl) refl;
  seen_keeps = λ m ph. refl;
}

told_lists :
    (m : ZfsMsg) (ph : Phase)
    → phase_zfs.list_snaps (txt "p") (told m ph) ≡ phase_zfs.list_snaps (txt "p") ph
unfolding list_snaps_of phase_answers eqt contains
told_lists m ph = ground arith

phase-IsApart : IsApart phase_host phase_lan phase_config
phase-IsApart = record {
  send_lists = told_lists;
  recv_lists = λ ph. refl;
  hang_up_lists = λ ph. refl;
}

cycle_remote-IsSent_example :
    IsSent phase_host dateless dateless 1 phase_lan [] phase_config
      (txt "q")
      phase-IsPair
      phase-IsQuiet
      phase-IsApart
      (cycle_remote phase_host dateless dateless 1 phase_lan [] phase_config calling).1
cycle_remote-IsSent_example =
    cycle_remote-IsSent phase_host dateless dateless 1 phase_lan [] phase_config (txt "q")
      phase-IsPair phase-IsQuiet phase-IsApart calling lan_cycle_runs

abbrev phase_recv : Receive Phase
phase_recv = record {
  start_recv = λ args ph. (done tt, ph);
  feed = λ t ph. (done tt, ph);
  wait_recv = λ ph. (done tt, ph);
}

abbrev phase_receiver : ZfsRecv
phase_receiver = record {
  dataset = txt "p";
  recv_nr = txt "7";
  recv_key = [];
  recv_service = [];
  recv_auto = false;
  recv_retention = record { keep_hours = 24; keep_days = 30 };
}

status_lists :
    (line : Text) (ph : Phase)
    → list_snaps_of phase_host phase_config (txt "p") (status phase_host phase_config line ph)
      ≡ list_snaps_of phase_host phase_config (txt "p") ph
unfolding status
status_lists line ph = refl

abbrev app_rotation : ZfsRotate
app_rotation = record { by_app = true; consistent = []; rotate_conf = [] }

phase-Holds : Holds phase_zfs (txt "p") (some (txt "7")) none none snapped
unfolding list_snaps_of phase_answers eqt contains guid_at
phase-Holds = record {
  listing = record { slot = txt "new"; guid = txt "7"; created = 1 } ∷ [];
  lists = refl;
  has_new = refl;
  has_n0 = refl;
  has_n1 = refl;
}

rotation_runs :
    is_good
      (take_rotate phase_host dateless dateless 1 phase_recv phase_receiver
        (some phase_config)
        app_rotation
        snapped).0
    ≡ true
unfolding take_rotate rotate rotate_slots phase_answers phase_runs eqt contains rename_of is_good
rotation_runs = refl

take_rotate-advances_example :
    Holds phase_zfs
      (txt "p")
      none
      (some (txt "7"))
      none
      (take_rotate phase_host dateless dateless 1 phase_recv phase_receiver
        (some phase_config)
        app_rotation
        snapped).1
take_rotate-advances_example =
    take_rotate-advances phase_host dateless dateless 1 phase_recv phase_receiver phase_config
      (txt "q") phase-IsPair phase-IsQuiet status_lists app_rotation none none (some (txt "7"))
      snapped phase-Holds rotation_runs
