-- ===== src/Examples/Guests.antt =====
-- The configuration of one guest, whose disk is the primary.
use cs_sync.Prelude.{Text, txt, refl, ◌≡◌, false, true, none, some, [], eqt}
use cs_sync.Os.{other_error, done, failed}
use cs_sync.Prelude.Dict.{lookup}
use cs_sync.Zfs.Command.{Host, ZfsConfig}
use cs_sync.Prelude.Split.{split_last}
use cs_sync.Prelude.Decimal.{is_digit}
use cs_sync.Zfs.Guests.{pve_confs, find_conf_file, sub_dir, encode_conf, guest_kind}
use cs_sync.Zfs.Guests.Decoded.{IsConfOf, pve_confs-IsConfOf}

abbrev guest_host : Host
guest_host = record {
  World = Unit {0};
  query = λ args w. failed other_error;
  command = λ args w. (failed other_error, w);
  send_recv = λ a b w. (failed other_error, w);
  now_unix = λ w. 0;
  read_approval = λ id w. failed other_error;
  remove_approval = λ id w. w;
  write_blocked = λ id t w. w;
  remove_blocked = λ id w. w;
  write_status = λ id t w. w;
  freeze_due = λ w. false;
  note_freeze = λ w. w;
  freeze_snap = λ ds name r w. (failed other_error, w);
  guests_of = λ t. none;
  stat_file = λ path w. eqt path (txt "/etc/pve/qemu-server/101.conf");
  glob_files = λ pattern w. [];
  read_conf = λ path w. done (txt "cores: 2");
  gzip64 = λ s. s;
  gunzip64 = λ s. some s;
  conf_seen = λ w. none;
  set_conf_seen = λ m w. w;
}

abbrev guest_config : ZfsConfig
guest_config = record {
  primary_ds = txt "tank/vm-101-disk-0";
  backup_ds = txt "b";
  nr = txt "7";
  prefix = txt "s_";
  versions = true;
  retention = record { keep_hours = 0; keep_days = 30 };
  rollback_auto = false;
  service_name = txt "svc";
  recursive = false;
  pve_on = true;
}

abbrev guest_text : Text
guest_text = txt "gz1:#cs-pve qemu 101\ncores: 2"

collected : lookup [] (pve_confs guest_host guest_config tt) ≡ some guest_text
unfolding pve_confs lookup eqt split_last is_digit find_conf_file sub_dir encode_conf guest_kind
collected = refl

pve_confs-IsConfOf_example : IsConfOf guest_host (λ s. refl) guest_config tt [] guest_text
pve_confs-IsConfOf_example =
    pve_confs-IsConfOf guest_host (λ s. refl) guest_config tt [] guest_text collected
