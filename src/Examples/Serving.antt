-- ===== src/Examples/Serving.antt =====
-- receiver.go and executor.go over a system that only notes which paths it was asked for.
use cs_sync.Prelude.{
  eqt, Text, txt, ◌≡◌, refl, ◌≢◌, ◌⊎◌, inl, true, false, none, some, List, [], ◌∷◌, arith, All,
}
use cs_sync.Apply.{Rclone, Roots}
use cs_sync.Apply.Copy.{settle, guarded, fill, publish, copy_file}
use cs_sync.Apply.Safe.{IsAside, copy_file-failed}
use cs_sync.Model.{file, zero_entry, Tree, same_identity}
use cs_sync.Os.{not_exist, other_error, Outcome, done, failed, Os}
use cs_sync.Os.Paths.{FilePath, pieces, clean, join, rel, escapes, NoDots}
use cs_sync.Prelude.Dict.{contains, lookup, insert, keys}
use cs_sync.Prelude.Strings.{has_prefix}
use cs_sync.Reconcile.{reconcile}
use cs_sync.Reconcile.Ops.{primary, add_create, delete_op}
use cs_sync.Remote.Calls.{AvoidsRoot, IsBelowRoot, IsOpenUnder}
use cs_sync.Remote.Confined.{serve_frames-keeps}
use cs_sync.Remote.Keeps.{IsConfined}
use cs_sync.Remote.Receiver.{
  Transfer, ack, panic, decode_into, install, finish_file, ended, end_file, serve_frames,
}
use cs_sync.Remote.Resolve.{full, IsUnder, full-IsUnder}
use cs_sync.Remote.Verified.{end_file-mismatch}
use cs_sync.Service.{StateFiles, PassSettings, local_pass}
use cs_sync.Wire.{
  WireOp, FileBegin, FileData, Incoming, mkdir_frame, file_begin, file_data, file_end,
}

abbrev Log : Type 0
Log = List FilePath

abbrev note : FilePath → Log → Outcome (Unit {0}) × Log
note p w = (done tt, p ∷ w)

abbrev noting : Os
noting = record {
  World = Log;
  mkdir_all = λ p m w. note p w;
  rename_file = λ p q w. (done tt, p ∷ q ∷ w);
  remove = λ p w. note p w;
  remove_all = λ p w. note p w;
  make_symlink = λ t p w. note p w;
  read_link = λ p w. failed not_exist;
  stat = λ p w. failed not_exist;
  create_temp = λ d w. (done d, d ∷ w);
  open_temp = λ p m w. note p w;
  write_at = λ p s n w. note p w;
  write_file = λ p s w. note p w;
  read_file = λ p w. failed not_exist;
  sync_file = λ p w. note p w;
  close_file = λ p w. note p w;
  chmod = λ p m w. note p w;
  chtimes = λ p m w. note p w;
  apply_acl = λ p t s w. note p w;
  read_acl = λ p t w. failed not_exist;
}

abbrev tank : FilePath
tank = record { rooted = true; parts = txt "tank" ∷ [] }

abbrev AllUnder : Log → Type 0
AllUnder = All (IsUnder tank)

noting-IsConfined : IsConfined noting tank AllUnder
noting-IsConfined = record {
  keeps_mkdir_all = λ p m u w h. (u, h);
  keeps_rename_file = λ p q u v w h. (u, (v, h));
  keeps_remove = λ p u w h. (u, h);
  keeps_remove_all = λ p u w h. (u, h);
  keeps_make_symlink = λ t p u w h. (u, h);
  keeps_create_temp = λ d u w h. (u, h);
  temp_is_under = λ d t w u e. rw (same d t e) at u;
  keeps_write_at = λ p s n u w h. (u, h);
  keeps_write_file = λ p s u w h. (u, h);
  keeps_sync_file = λ p u w h. (u, h);
  keeps_close_file = λ p u w h. (u, h);
  keeps_chmod = λ p m u w h. (u, h);
  keeps_chtimes = λ p m u w h. (u, h);
  keeps_apply_acl = λ p t s u w h. (u, h);
}
  where
    same : (d t : FilePath) → done d ≡ done t → d ≡ t
    same d t e = ground (arith, e)

abbrev make_a : WireOp
make_a = record {
  op_path = txt "a";
  op_old_path = [];
  op_mode = 0o755;
  op_mtime = 0;
  op_link = [];
  op_acl = [];
}

abbrev no_meta : FileBegin
no_meta = record { begin_path = []; begin_size = 0; begin_mode = 0; begin_mtime = 0 }

abbrev begin_f : FileBegin
begin_f = record { begin_path = txt "a/f"; begin_size = 2; begin_mode = 0o644; begin_mtime = 5 }

abbrev two_bytes : FileData
two_bytes = record { offset = 0; block_hash = txt "hi"; block = txt "hi" }

abbrev session : List Incoming
session =
    mkdir_frame (some make_a)
    ∷ file_begin (some begin_f)
    ∷ file_data (some two_bytes)
    ∷ file_end (some (txt "hi"))
    ∷ []

-- A file without permissions that follows another gets the mode of that one.
mode_stays : (decode_into begin_f (record begin_f { begin_mode = 0 })).begin_mode ≡ 0o644
unfolding decode_into
mode_stays = refl

abbrev identity : Text → Text
identity s = s

tank-NoDots : NoDots tank.parts
unfolding eqt
tank-NoDots = (refl, tt)

f-AvoidsRoot : AvoidsRoot tank (txt "a/f")
unfolding AvoidsRoot full eqt has_prefix
f-AvoidsRoot p e same = absurd (ground (arith, e, same))

serve_frames-keeps_example :
    AllUnder (serve_frames noting identity tank (txt "nfs4") (txt "7") session (none, no_meta) []).1
unfolding IsBelowRoot IsOpenUnder eqt
serve_frames-keeps_example =
    serve_frames-keeps noting identity tank (txt "nfs4") AllUnder refl tank-NoDots noting-IsConfined
      (txt "7") session (none, no_meta) [] (tt, (f-AvoidsRoot, (tt, (tt, tt)))) (tt, inl refl) tt

abbrev half_done : Transfer
half_done = record { tmp = tank; cur_path = txt "a/f"; meta = begin_f; hashed = txt "hi" }

differs : identity half_done.hashed ≢ txt "torn"
differs e = ground (arith, e)

end_file-mismatch_example :
    ((end_file noting identity tank (txt "nfs4") half_done (txt "torn") []).1
      ≡ tank ∷ tank ∷ tank ∷ [])
    × (((end_file noting identity tank (txt "nfs4") half_done (txt "torn") []).0
          ≡ (some half_done, panic))
        ⊎ ((end_file noting identity tank (txt "nfs4") half_done (txt "torn") []).0.0 ≡ none))
    × ((end_file noting identity tank (txt "nfs4") half_done (txt "torn") []).0.1 ≢ ack none)
end_file-mismatch_example =
    end_file-mismatch noting identity tank (txt "nfs4") half_done (txt "torn") [] differs

-- The hash that the sender sends for a torn copy.
torn_panics : (end_file noting identity tank (txt "nfs4") half_done (txt "torn") []).0.1 ≡ panic
unfolding end_file finish_file install ended eqt
torn_panics = refl

abbrev in_tank : FilePath
in_tank = record { rooted = true; parts = txt "tank" ∷ txt "b" ∷ [] }

resolves : full tank (txt "a/../b") ≡ done in_tank
unfolding full clean join rel escapes eqt pieces has_prefix contains
resolves = refl

full-IsUnder_example : IsUnder tank in_tank
full-IsUnder_example = full-IsUnder tank (txt "a/../b") in_tank refl tank-NoDots resolves

-- The same system with one file to read, where no rename succeeds.
abbrev stuck : Os
stuck = record noting {
  stat = λ p w. done (record { is_dir = false; info_size = 2; mod_time = 5; perm = 0o644 });
  read_file = λ p w. done (txt "hi");
  rename_file = λ p q w. (failed other_error, w);
}

abbrev OnlyTank : Log → Type 0
OnlyTank = All (λ p. p ≡ tank)

stuck-IsAside : IsAside stuck tank in_tank OnlyTank
stuck-IsAside = record {
  aside_open = λ n w h. (refl, h);
  aside_write = λ s n w h. (refl, h);
  aside_sync = λ w h. (refl, h);
  aside_close = λ w h. (refl, h);
  aside_chtimes = λ n w h. (refl, h);
  aside_remove = λ w h. (refl, h);
  failed_rename = λ w e h z. h;
}

abbrev no_random : Log → Text
no_random w = []

cannot_rename : (copy_file stuck no_random in_tank in_tank tank []).0 ≡ failed other_error
unfolding copy_file fill publish guarded settle
cannot_rename = refl

copy_file-failed_example : OnlyTank (copy_file stuck no_random in_tank in_tank tank []).1
copy_file-failed_example =
    copy_file-failed stuck no_random tank in_tank OnlyTank stuck-IsAside in_tank [] other_error tt
      cannot_rename

abbrev noting_rclone : Rclone Log
noting_rclone = record {
  copy_to = λ p o w. (failed other_error, w);
  copy_from = λ o p w. (failed other_error, w);
  delete_object = λ o w. (failed other_error, w);
}

abbrev two_roots : Roots
two_roots = record {
  primary_root = txt "/tank";
  secondary_root = txt "/mirror";
  roots_acl_type = [];
  bootstrap_acl = [];
  is_rustfs = false;
}

abbrev new_file : Tree
new_file = (txt "f", record zero_entry { path = txt "f"; type = file }) ∷ []

abbrev no_stamps : Text → Text
no_stamps p = []

abbrev noting_files : StateFiles Log
noting_files = record {
  write_last_file = λ id ops w. w;
  save_state = λ b w. (done tt, w);
  write_acl_table = λ b acl w. (done tt, w);
  mirror_acl_table = λ w. (done tt, w);
}

abbrev both_ways : PassSettings
both_ways = record { is_oneway = false; pull = false; resync = false; root_acl = []; service = [] }

-- Every copy fails here, and the file stands in the baseline all the same.
abbrev after_failure : Tree
after_failure =
    (local_pass noting noting_rclone no_random no_stamps noting_files both_ways two_roots []
      new_file [] []).0

-- The next pass then deletes the file on the primary.
lost :
    (reconcile no_stamps after_failure new_file []).ops
    ≡ delete_op primary (txt "f") (record zero_entry { path = txt "f"; type = file }) ∷ []
unfolding local_pass reconcile lookup eqt keys contains insert add_create same_identity
lost = refl
