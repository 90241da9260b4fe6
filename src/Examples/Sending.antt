-- ===== src/Examples/Sending.antt =====
-- sender.go over a network that answers every frame with an error, and over one that is down.
use cs_sync.Prelude.{
  eqt, Text, txt, ℕ, ◌+◌, ◌≡◌, refl, Bool, true, false, none, some, [], ◌∷◌, ◌++◌, arith,
  if◌then◌else◌,
}
use cs_sync.Guard.{check_source, Budget, check_budget, freeze_file, writes, Disk, frozen, pass_gate}
use cs_sync.Guard.Retry.{skip}
use cs_sync.Model.{file, dir, zero_entry, Tree, same_identity}
use cs_sync.Os.{not_exist, errorf, done, failed}
use cs_sync.Prelude.Dict.{contains, lookup, keys}
use cs_sync.Prelude.Strings.{has_prefix}
use cs_sync.Reconcile.{reconcile}
use cs_sync.Reconcile.Ops.{primary, secondary, mkdir, copy, rmdir, Op, delete_op}
use cs_sync.Remote.Baseline.{apply_to_baseline, apply_to_baseline-rmdir}
use cs_sync.Remote.Batch.{Sender, is_blocked, Batch, after_op, send_batch}
use cs_sync.Remote.Connect.{Config, connect}
use cs_sync.Remote.Gated.{pass-frozen, pass-over_budget}
use cs_sync.Remote.Link.{ack_reply, Net, roundtrip, roundtrip_done}
use cs_sync.Remote.Ordered.{send_batch-failed_mkdir}
use cs_sync.Remote.Pass.{PassEnd, is_frozen, over_budget, Request, exceeds, pass}
use cs_sync.Remote.Sender.{send_blocks, send_end, send_file, send_op}
use cs_sync.Remote.Whole.{IsWhole, send_file-IsWhole}
use cs_sync.Wire.{ping}

-- The number of frames that were sent.
abbrev refusing : Net
refusing = record {
  World = ℕ;
  dial = λ w. (done tt, w);
  send_frame = λ f w. (done tt, w + 1);
  send_welcome = λ m w. (done tt, w);
  receive = λ w. (done (ack_reply (some (record { ok = false; err = txt "full" }))), w);
  hang_up = λ w. w;
  stat_source = λ p w. (failed not_exist, w);
  open_source = λ p w. (failed not_exist, w);
  now = λ w. 0;
  root_dev = λ w. some 7;
}

abbrev agreeing : Net
agreeing = record refusing {
  receive = λ w. (done (ack_reply (some (record { ok = true; err = [] }))), w);
}

abbrev here : Config
here = record {
  version = [];
  transfer_key = [];
  acl_type = [];
  goos = [];
  own_id = [];
  loop_stamp = [];
}

abbrev known_tree : Tree
known_tree = (txt "a", zero_entry) ∷ (txt "b", zero_entry) ∷ []

-- A connected sender that has recorded two files.
abbrev at_rest : Sender (Bool × ℕ)
at_rest = record {
  link = (true, 0);
  same_os = false;
  source = 7;
  known = known_tree;
  retry = [];
  files = [];
}

abbrev sound_disk : Disk
sound_disk = record { is_seen = λ name. true; is_removed = λ name. true; writing = writes }

-- The source has become empty.
abbrev emptied : Request
emptied = record { tree = []; resync = false; root_acl = []; acl_bytes = []; disk = sound_disk }

abbrev at_most_one : Budget
at_most_one = record { max_count = 1; max_percent = 0 }

abbrev no_text : {A : Type 0} → A → Text
no_text a = []

abbrev a_pass : Sender (Bool × ℕ) × PassEnd
a_pass =
    pass agreeing no_text no_text no_text no_text at_most_one (txt "/data") here emptied at_rest

too_many : a_pass.1 ≡ over_budget
unfolding pass pass_gate check_source connect exceeds reconcile check_budget lookup eqt roundtrip
    keys contains same_identity delete_op
too_many = refl

pass-over_budget_example :
    (a_pass.0.known ≡ known_tree)
    × (a_pass.0.retry ≡ [])
    × (pass agreeing no_text no_text no_text no_text at_most_one (txt "/data") here emptied a_pass.0
        ≡ (a_pass.0, is_frozen))
pass-over_budget_example =
    pass-over_budget agreeing no_text no_text no_text no_text at_most_one (txt "/data") here here
      emptied emptied at_rest too_many refl (λ e. ground (arith, e)) refl

roundtrip_done_example : (true ≡ true) × ((roundtrip agreeing ping (true, 0)).1.0 ≡ true)
roundtrip_done_example = roundtrip_done agreeing ping (true, 0) (unfold roundtrip in refl)

abbrev make_dir_a : Op
make_dir_a = record {
  kind = mkdir;
  dst = secondary;
  src = some primary;
  path = txt "a";
  old_path = [];
  type = dir;
}

abbrev copy_in_a : Op
copy_in_a = record {
  kind = copy;
  dst = secondary;
  src = some primary;
  path = txt "a/f";
  old_path = [];
  type = file;
}

abbrev start : Batch refusing no_text no_text
start = record { sender = at_rest; blocked = []; num_sent = 0; num_failed = 0; broken = false }

no_skip : skip 0 (txt "a") [] ≡ false
unfolding skip lookup
no_skip = refl

no_block : is_blocked [] (txt "a") ≡ false
unfolding is_blocked
no_block = refl

is_refused :
    (send_op refusing no_text false [] make_dir_a (true, 0)).0
    ≡ failed (errorf (txt "remote: full"))
unfolding send_op roundtrip
is_refused = refl

is_below : has_prefix (txt "a/f") (txt "a" ++ (47 ∷ [])) ≡ true
unfolding has_prefix
is_below = refl

send_batch-failed_mkdir_example :
    send_batch refusing no_text no_text [] (make_dir_a ∷ copy_in_a ∷ []) start
    ≡ after_op refusing no_text no_text make_dir_a [] start
        (send_op refusing no_text false [] make_dir_a (true, 0))
send_batch-failed_mkdir_example =
    send_batch-failed_mkdir refusing no_text no_text [] make_dir_a (copy_in_a ∷ []) start
      (errorf (txt "remote: full")) refl no_skip no_block is_refused (is_below, tt)

abbrev drop_a : Op
drop_a = record {
  kind = rmdir;
  dst = secondary;
  src = none;
  path = txt "a";
  old_path = [];
  type = dir;
}

apply_to_baseline-rmdir_example : lookup (txt "a/f") (apply_to_baseline drop_a [] known_tree) ≡ (
    if has_prefix (txt "a/f") (txt "a" ++ (47 ∷ []))
    then none
    else if eqt (txt "a") (txt "a/f")
    then none
    else lookup (txt "a/f") known_tree)
apply_to_baseline-rmdir_example = apply_to_baseline-rmdir drop_a [] known_tree (txt "a/f") refl

pass-frozen_example :
    pass agreeing no_text no_text no_text no_text at_most_one
      (txt "/data")
      here
      emptied
      (record at_rest { files = (freeze_file, []) ∷ [] })
    ≡ (record at_rest { files = (freeze_file, []) ∷ [] }, is_frozen)
unfolding lookup frozen eqt
pass-frozen_example =
    pass-frozen agreeing no_text no_text no_text no_text at_most_one (txt "/data") here emptied
      (record at_rest { files = (freeze_file, []) ∷ [] }) refl refl

-- The source has one file, of two bytes, that stays as it is.
abbrev steady : Net
steady = record agreeing {
  stat_source = λ p w. (done (2, 5), w);
  open_source = λ p w. (done (txt "hi" ∷ [], none), w);
}

is_sent : (send_file steady no_text (txt "f") zero_entry (true, 0)).0 ≡ done tt
unfolding send_file send_blocks send_end roundtrip
is_sent = refl

send_file-IsWhole_example : IsWhole steady no_text (txt "f") zero_entry (true, 0)
send_file-IsWhole_example = send_file-IsWhole steady no_text (txt "f") zero_entry (true, 0) is_sent
