-- ===== src/Examples/Cycling.antt =====
-- A whole cycle of zfs.go with a backup that does not exist yet, over a host whose states are the
-- stages of that cycle.
use mathlib.Core.Bool.{◌&&◌}
use mathlib.Core.Path.{subst}
use cs_sync.Prelude.{
  eqt, Text, txt, eqt_iff, ℕ, ◌≡◌, refl, sym, ap, Bool, true, false, none, some, List, [], ◌∷◌,
  ◌++◌, arith, if◌then◌else◌,
}
use cs_sync.Os.{other_error, Outcome, done, failed}
use cs_sync.Prelude.Dict.{contains}
use cs_sync.Zfs.{Snap, Zfs, rotate_slots, rotate}
use cs_sync.Zfs.Command.{Host, ZfsConfig, list_snaps_of, rename_of, destroy_named, zfs_of}
use cs_sync.Zfs.Cycle.{cycle}
use cs_sync.Zfs.Cycle.Confirmed.{IsAgreed, cycle-IsAgreed}
use cs_sync.Zfs.Quiet.{IsQuiet}
use cs_sync.Zfs.Recovery.{IsPair}
use cs_sync.Zfs.Slots.{rename_slot, drop_slot}

data Stage : Type 0 where
  fresh taken_once arrived primary_done both_done : Stage

abbrev new_line : Text → Text
new_line ds = ds ++ txt "@s_new" ++ 9 ∷ txt "7" ++ 9 ∷ txt "1"

abbrev n0_line : Text → Text
n0_line ds = ds ++ txt "@s_n0" ++ 9 ∷ txt "7" ++ 9 ∷ txt "1"

abbrev primary_lists : Stage → Text
primary_lists fresh = []
primary_lists taken_once = new_line (txt "p")
primary_lists arrived = new_line (txt "p")
primary_lists primary_done = n0_line (txt "p")
primary_lists both_done = n0_line (txt "p")

abbrev backup_lists : Stage → Text
backup_lists fresh = []
backup_lists taken_once = []
backup_lists arrived = new_line (txt "b")
backup_lists primary_done = new_line (txt "b")
backup_lists both_done = n0_line (txt "b")

abbrev is_there : Stage → Bool
is_there fresh = false
is_there taken_once = false
is_there _ = true

last_of : List Text → Text
last_of [] = []
last_of (a ∷ []) = a
last_of (a ∷ b ∷ l) = last_of (b ∷ l)

-- The listing of snapshots, the test for the backup, and no property.
answers : List Text → Stage → Outcome Text
unfolding last_of contains
answers args st =
    if contains (txt "snapshot") args
    then done (if eqt (last_of args) (txt "p") then primary_lists st else backup_lists st)
    else if contains (txt "list") args && is_there st
    then done []
    else failed other_error

eq_args : List Text → List Text → Bool
eq_args [] [] = true
eq_args [] (b ∷ m) = false
eq_args (a ∷ l) [] = false
eq_args (a ∷ l) (b ∷ m) = let rest = eq_args l m in if eqt a b then rest else false

-- Taking the snapshot and the two renames of this cycle succeed, each at its stage, and setting a property.
runs : List Text → Stage → Outcome Text × Stage
unfolding eq_args
runs args fresh =
    if eq_args args (txt "snapshot" ∷ txt "p@s_new" ∷ [])
    then (done [], taken_once)
    else (failed other_error, fresh)
runs args arrived =
    if eq_args args (txt "rename" ∷ txt "p@s_new" ∷ txt "p@s_n0" ∷ [])
    then (done [], primary_done)
    else (failed other_error, arrived)
runs args primary_done =
    if eq_args args (txt "rename" ∷ txt "b@s_new" ∷ txt "b@s_n0" ∷ [])
    then (done [], both_done)
    else (failed other_error, primary_done)
runs args st = (failed other_error, st)

abbrev receives : Stage → Stage
receives taken_once = arrived
receives st = st

abbrev stage_host : Host
stage_host = record {
  World = Stage;
  query = answers;
  command = runs;
  send_recv = λ a b st. (done tt, receives st);
  now_unix = λ st. 0;
  read_approval = λ id st. failed other_error;
  remove_approval = λ id st. st;
  write_blocked = λ id t st. st;
  remove_blocked = λ id st. st;
  write_status = λ id t st. st;
  freeze_due = λ st. false;
  note_freeze = λ st. st;
  freeze_snap = λ ds name r st. (failed other_error, st);
  guests_of = λ t. none;
  stat_file = λ path st. false;
  glob_files = λ pattern st. [];
  read_conf = λ path st. failed other_error;
  gzip64 = λ s. s;
  gunzip64 = λ s. some s;
  conf_seen = λ st. none;
  set_conf_seen = λ m st. st;
}

abbrev stage_config : ZfsConfig
stage_config = record {
  primary_ds = txt "p";
  backup_ds = txt "b";
  nr = txt "7";
  prefix = txt "s_";
  versions = true;
  retention = record { keep_hours = 24; keep_days = 30 };
  rollback_auto = false;
  service_name = [];
  recursive = false;
  pve_on = false;
}

abbrev stage_zfs : Zfs
stage_zfs = zfs_of stage_host stage_config

abbrev no_time : ℕ → Text
no_time t = []

runs_whole : (cycle stage_host no_time no_time 1 stage_config fresh).0 ≡ done true
unfolding cycle rotate rotate_slots answers runs eqt contains rename_of
runs_whole = refl

listing_inj : (l m : List Snap) → ◌≡◌ {A = Outcome (List Snap)} (done l) (done m) → l ≡ m
listing_inj l m e = ground (arith, e)

-- Nothing can be destroyed.
no_destroy :
    (ds slot : Text) (st : Stage) → stage_zfs.destroy_snap ds slot st ≡ (failed other_error, st)
unfolding destroy_named runs eqt
no_destroy ds slot fresh = refl
no_destroy ds slot taken_once = refl
no_destroy ds slot arrived = refl
no_destroy ds slot primary_done = refl
no_destroy ds slot both_done = refl

after_destroy_any :
    (ds slot : Text) (st : Stage) (l : List Snap)
    → stage_zfs.list_snaps ds st ≡ done l
    → (stage_zfs.destroy_snap ds slot st).0 ≡ done tt
    → stage_zfs.list_snaps ds (stage_zfs.destroy_snap ds slot st).1 ≡ done (drop_slot slot l)
after_destroy_any ds slot st l e ok = absurd (ground (arith, no_destroy ds slot st, ok))

destroy_lists :
    (ds ds' slot : Text) (st : Stage)
    → stage_zfs.list_snaps ds' (stage_zfs.destroy_snap ds slot st).1 ≡ stage_zfs.list_snaps ds' st
destroy_lists ds ds' slot st = rw (no_destroy ds slot st) refl

after_rename_p :
    (from to : Text) (st : Stage) (l : List Snap)
    → stage_zfs.list_snaps (txt "p") st ≡ done l
    → (stage_zfs.rename_snap (txt "p") from to st).0 ≡ done tt
    → stage_zfs.list_snaps (txt "p") (stage_zfs.rename_snap (txt "p") from to st).1
      ≡ done (rename_slot from to l)
unfolding list_snaps_of answers rename_of runs eqt contains rename_slot
after_rename_p from to fresh l e ok = absurd (ground (arith, ok))
after_rename_p from to taken_once l e ok = absurd (ground (arith, ok))
after_rename_p from to arrived l e ok =
    let is_new : from ≡ txt "new" = ground (arith, ok, eqt_iff from (txt "new")) in
    let is_n0 : to ≡ txt "n0" = ground (arith, ok, eqt_iff to (txt "n0")) in
    subst
      (λ (f : Text).
        stage_zfs.list_snaps (txt "p") (stage_zfs.rename_snap (txt "p") f to arrived).1
        ≡ done (rename_slot f to l))
      (sym is_new)
      (subst
        (λ (t : Text).
          stage_zfs.list_snaps (txt "p") (stage_zfs.rename_snap (txt "p") (txt "new") t arrived).1
          ≡ done (rename_slot (txt "new") t l))
        (sym is_n0) (ap done (ap (rename_slot (txt "new") (txt "n0")) (listing_inj _ l e))))
after_rename_p from to primary_done l e ok = absurd (ground (arith, ok))
after_rename_p from to both_done l e ok = absurd (ground (arith, ok))

after_rename_b :
    (from to : Text) (st : Stage) (l : List Snap)
    → stage_zfs.list_snaps (txt "b") st ≡ done l
    → (stage_zfs.rename_snap (txt "b") from to st).0 ≡ done tt
    → stage_zfs.list_snaps (txt "b") (stage_zfs.rename_snap (txt "b") from to st).1
      ≡ done (rename_slot from to l)
unfolding list_snaps_of answers rename_of runs eqt contains rename_slot
after_rename_b from to fresh l e ok = absurd (ground (arith, ok))
after_rename_b from to taken_once l e ok = absurd (ground (arith, ok))
after_rename_b from to arrived l e ok = absurd (ground (arith, ok))
after_rename_b from to primary_done l e ok =
    let is_new : from ≡ txt "new" = ground (arith, ok, eqt_iff from (txt "new")) in
    let is_n0 : to ≡ txt "n0" = ground (arith, ok, eqt_iff to (txt "n0")) in
    subst
      (λ (f : Text).
        stage_zfs.list_snaps (txt "b") (stage_zfs.rename_snap (txt "b") f to primary_done).1
        ≡ done (rename_slot f to l))
      (sym is_new)
      (subst
        (λ (t : Text).
          stage_zfs.list_snaps (txt "b")
            (stage_zfs.rename_snap (txt "b") (txt "new") t primary_done).1
          ≡ done (rename_slot (txt "new") t l))
        (sym is_n0) (ap done (ap (rename_slot (txt "new") (txt "n0")) (listing_inj _ l e))))
after_rename_b from to both_done l e ok = absurd (ground (arith, ok))

rename_p-lists_b :
    (from to : Text) (st : Stage)
    → stage_zfs.list_snaps (txt "b") (stage_zfs.rename_snap (txt "p") from to st).1
      ≡ stage_zfs.list_snaps (txt "b") st
unfolding list_snaps_of answers rename_of runs eqt contains
rename_p-lists_b from to fresh = refl
rename_p-lists_b from to taken_once = refl
rename_p-lists_b from to arrived = ground arith
rename_p-lists_b from to primary_done = refl
rename_p-lists_b from to both_done = refl

rename_b-lists_p :
    (from to : Text) (st : Stage)
    → stage_zfs.list_snaps (txt "p") (stage_zfs.rename_snap (txt "b") from to st).1
      ≡ stage_zfs.list_snaps (txt "p") st
unfolding list_snaps_of answers rename_of runs eqt contains
rename_b-lists_p from to fresh = refl
rename_b-lists_p from to taken_once = refl
rename_b-lists_p from to arrived = refl
rename_b-lists_p from to primary_done = ground arith
rename_b-lists_p from to both_done = refl

p-IsPair : IsPair stage_zfs (txt "p") (txt "b")
unfolding eqt
p-IsPair = record {
  faithful = record { after_rename = after_rename_p; after_destroy = after_destroy_any (txt "p") };
  rename_apart = rename_p-lists_b;
  destroy_apart = destroy_lists (txt "p") (txt "b");
  destroy_failed = λ slot st e h. destroy_lists (txt "p") (txt "p") slot st;
  clear_lists = λ st. refl;
  clear_lists_apart = λ st. refl;
}

b-IsPair : IsPair stage_zfs (txt "b") (txt "p")
unfolding eqt
b-IsPair = record {
  faithful = record { after_rename = after_rename_b; after_destroy = after_destroy_any (txt "b") };
  rename_apart = rename_b-lists_p;
  destroy_apart = destroy_lists (txt "b") (txt "p");
  destroy_failed = λ slot st e h. destroy_lists (txt "b") (txt "b") slot st;
  clear_lists = λ st. refl;
  clear_lists_apart = λ st. refl;
}

-- Setting a property fails and changes nothing.
no_set :
    (assignment target : Text) (st : Stage)
    → stage_host.command (txt "set" ∷ assignment ∷ target ∷ []) st ≡ (failed other_error, st)
unfolding runs eqt
no_set assignment target fresh = refl
no_set assignment target taken_once = refl
no_set assignment target arrived = refl
no_set assignment target primary_done = refl
no_set assignment target both_done = refl

no_inherit :
    (prop target : Text) (st : Stage)
    → stage_host.command (txt "inherit" ∷ prop ∷ target ∷ []) st ≡ (failed other_error, st)
unfolding runs eqt
no_inherit prop target fresh = refl
no_inherit prop target taken_once = refl
no_inherit prop target arrived = refl
no_inherit prop target primary_done = refl
no_inherit prop target both_done = refl

stage-IsQuiet : (ds : Text) → IsQuiet stage_host stage_config ds
stage-IsQuiet ds = record {
  set_keeps = λ assignment target st. rw (no_set assignment target st) refl;
  inherit_keeps = λ prop target st. rw (no_inherit prop target st) refl;
  seen_keeps = λ m st. refl;
}

cycle-IsAgreed_example :
    IsAgreed stage_host stage_config (cycle stage_host no_time no_time 1 stage_config fresh).1
cycle-IsAgreed_example =
    cycle-IsAgreed stage_host no_time no_time 1 stage_config p-IsPair b-IsPair
      (stage-IsQuiet (txt "p")) (stage-IsQuiet (txt "b")) fresh runs_whole
