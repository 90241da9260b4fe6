-- ===== src/Examples/Replicating.antt =====
-- Zfs/Backup and Zfs/Recovered at small inputs.
use cs_sync.Prelude.{
  eqt, Text, txt, ℕ, ◌≡◌, refl, Bool, true, false, none, some, List, [], ◌∷◌, ◌++◌, arith,
  if◌then◌else◌,
}
use cs_sync.Os.{other_error, Outcome, done, failed}
use cs_sync.Prelude.Dict.{contains}
use cs_sync.Zfs.{Snap, Zfs, Keep, rotate_slots, rotate, recover_cycle}
use cs_sync.Zfs.Backup.{ZfsHello, plan_inc, plan_backup}
use cs_sync.Zfs.Backup.Base.{IsLicensed, plan_backup-IsLicensed}
use cs_sync.Zfs.Command.{Host, ZfsConfig}
use cs_sync.Zfs.Recovered.{rotated_first, IsSettled, recover_cycle-IsSettled}
use cs_sync.Zfs.Recovery.{IsPair}
use cs_sync.Zfs.Rotated.{Holds}
use cs_sync.Zfs.Slots.{rename_slot, drop_slot, guid_at}

-- Two datasets "p" and "b", whose world is the pair of their listings.
abbrev of_primary : Text → Bool
of_primary ds = eqt ds (txt "p")

abbrev side_of : Text → List Snap × List Snap → List Snap
side_of ds w = if of_primary ds then w.0 else w.1

abbrev on_side : Text → (List Snap → List Snap) → List Snap × List Snap → List Snap × List Snap
on_side ds f w = if of_primary ds then (f w.0, w.1) else (w.0, f w.1)

abbrev two_pools : Zfs
two_pools = record {
  World = List Snap × List Snap;
  list_snaps = λ ds w. done (side_of ds w);
  rename_snap = λ ds from to w. (done tt, on_side ds (rename_slot from to) w);
  destroy_snap = λ ds slot w. (done tt, on_side ds (drop_slot slot) w);
  exists_ds = λ ds w. true;
  is_consistent = λ ds slot w. false;
  unix_now = λ w. 0;
  clear_blocked = λ w. w;
}

done_inj : (l m : List Snap) → ◌≡◌ {A = Outcome (List Snap)} (done l) (done m) → l ≡ m
done_inj l m e = ground (arith, e)

p-IsPair : IsPair two_pools (txt "p") (txt "b")
unfolding eqt
p-IsPair = record {
  faithful = record {
    after_rename = λ from to w l e ok. rw (done_inj w.0 l e) refl;
    after_destroy = λ slot w l e ok. rw (done_inj w.0 l e) refl;
  };
  rename_apart = λ from to w. refl;
  destroy_apart = λ slot w. refl;
  destroy_failed = λ slot w e h. absurd (ground (arith, h));
  clear_lists = λ w. refl;
  clear_lists_apart = λ w. refl;
}

b-IsPair : IsPair two_pools (txt "b") (txt "p")
unfolding eqt
b-IsPair = record {
  faithful = record {
    after_rename = λ from to w l e ok. rw (done_inj w.1 l e) refl;
    after_destroy = λ slot w l e ok. rw (done_inj w.1 l e) refl;
  };
  rename_apart = λ from to w. refl;
  destroy_apart = λ slot w. refl;
  destroy_failed = λ slot w e h. absurd (ground (arith, h));
  clear_lists = λ w. refl;
  clear_lists_apart = λ w. refl;
}

abbrev snap : Text → Text → Snap
snap slot guid = record { slot = slot; guid = guid; created = 0 }

-- The primary has rotated, the backup has not.
abbrev half_done : List Snap × List Snap
half_done = (
  snap (txt "n1") (txt "1") ∷ snap (txt "n0") (txt "2") ∷ [],
  snap (txt "n0") (txt "1") ∷ snap (txt "new") (txt "2") ∷ [],
)

abbrev thirty : Keep
thirty = record { keep_hours = 24; keep_days = 30 }

abbrev no_day : ℕ → Text
no_day t = []

on_p : Holds two_pools (txt "p") none (some (txt "2")) (some (txt "1")) half_done
unfolding guid_at eqt
on_p = record { listing = half_done.0; lists = refl; has_new = refl; has_n0 = refl; has_n1 = refl }

on_b : Holds two_pools (txt "b") (some (txt "2")) (some (txt "1")) none half_done
unfolding guid_at eqt
on_b = record { listing = half_done.1; lists = refl; has_new = refl; has_n0 = refl; has_n1 = refl }

recovers :
    (recover_cycle two_pools no_day no_day thirty true (txt "p") (txt "b") half_done).0 ≡ done tt
unfolding recover_cycle rotate rotate_slots eqt
recovers = refl

recover_cycle-IsSettled_example :
    IsSettled two_pools
      (txt "p")
      (txt "b")
      (some (txt "2"))
      (recover_cycle two_pools no_day no_day thirty true (txt "p") (txt "b") half_done).1
recover_cycle-IsSettled_example =
    recover_cycle-IsSettled two_pools no_day no_day (txt "p") (txt "b") p-IsPair b-IsPair thirty
      true none (some (txt "2")) (some (txt "1")) (some (txt "2")) (some (txt "1")) none
      (some (txt "2")) half_done on_p on_b refl (rotated_first (txt "2") refl refl refl refl)
      recovers

-- A backup "b" with two snapshots, of which the primary still has the older one.
backup_answers : List Text → Outcome Text
backup_answers args =
    let listing =
      txt "b@s_n1"
      ++ 9 ∷ txt "1"
      ++ 9 ∷ txt "10"
      ++ 10 ∷ txt "b@s_n0"
      ++ 9 ∷ txt "2"
      ++ 9 ∷ txt "20" in
    elim args [
      | [] ↦ failed other_error
      | sub ∷ rest ↦
          if eqt sub (txt "get")
          then (if contains (txt "cs:sync") rest then done (txt "7:77") else done (txt "-"))
          else if contains (txt "snapshot") rest
          then done listing
          else done (txt "b")
    ]

abbrev backup_host : Host
backup_host = record {
  World = Unit {0};
  query = λ args w. backup_answers args;
  command = λ args w. (failed other_error, w);
  send_recv = λ a b w. (failed other_error, w);
  now_unix = λ w. 0;
  read_approval = λ id w. done (txt "1 2");
  remove_approval = λ id w. w;
  write_blocked = λ id t w. w;
  remove_blocked = λ id w. w;
  write_status = λ id t w. w;
  freeze_due = λ w. false;
  note_freeze = λ w. w;
  freeze_snap = λ ds name r w. (failed other_error, w);
  guests_of = λ t. none;
  stat_file = λ path w. false;
  glob_files = λ pattern w. [];
  read_conf = λ path w. failed other_error;
  gzip64 = λ s. s;
  gunzip64 = λ s. some s;
  conf_seen = λ w. none;
  set_conf_seen = λ m w. w;
}

abbrev backup_config : ZfsConfig
backup_config = record {
  primary_ds = [];
  backup_ds = txt "b";
  nr = txt "7";
  prefix = txt "s_";
  versions = true;
  retention = thirty;
  rollback_auto = false;
  service_name = txt "svc";
  recursive = false;
  pve_on = false;
}

abbrev offer : ZfsHello
offer = record {
  hello_nr = txt "7";
  fs_guid = txt "77";
  hello_snaps = (txt "n1", txt "1") ∷ (txt "n0", txt "3") ∷ [];
  hello_recursive = false;
  conf_only = false;
  hello_conf = [];
}

planned : plan_backup backup_host no_day no_day backup_config offer tt ≡ (plan_inc (txt "1"), tt)
unfolding plan_backup backup_answers eqt contains
planned = refl

plan_backup-IsLicensed_example :
    IsLicensed backup_host no_day no_day backup_config offer (txt "1") tt
plan_backup-IsLicensed_example =
    plan_backup-IsLicensed backup_host no_day no_day backup_config offer (txt "1") tt tt planned
