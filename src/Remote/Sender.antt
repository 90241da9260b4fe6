-- ===== src/Remote/Sender.antt =====
-- sender.go: `sendOp` and `sendFile`, what one operation puts on the wire.
use mathlib.Core.Bool.{◌&&◌}
use cs_sync.Prelude.{
  Text, txt, ℕ, ◌+◌, Bool, not, Option, none, some, List, [], ◌∷◌, ◌++◌, ◌==◌, if◌then◌else◌,
  length,
}
use cs_sync.Model.{symlink, type_eq, Entry, zero_entry, Tree}
use cs_sync.Os.{Error, errorf, Act, ◌>>=◌, ◌>>◌, pure, raise, attempt}
use cs_sync.Os.Paths.{rel}
use cs_sync.Prelude.Dict.{lookup}
use cs_sync.Reconcile.Ops.{mkdir, copy, delete, rmdir, rename, conflict_rename, Op}
use cs_sync.Remote.Link.{Net, Link, roundtrip, beside}
use cs_sync.Wire.{
  WireOp, mkdir_frame, rename_frame, delete_frame, rmdir_frame, symlink_frame, file_begin,
  file_data, file_end,
}

-- `e` is `primaryTree[path]`, or the zero entry.
entry_at : Text → Tree → Entry
entry_at p t = elim (lookup p t) [ none ↦ zero_entry | some e ↦ e ]

abbrev blank_op : WireOp
blank_op = record {
  op_path = [];
  op_old_path = [];
  op_mode = 0;
  op_mtime = 0;
  op_link = [];
  op_acl = [];
}

-- What the blocks hold together.
unfoldable pub concat_blocks : List Text → Text
concat_blocks [] = []
concat_blocks (b ∷ bs) = b ++ concat_blocks bs

abbrev pub ended_by : {W : Type 0} → Option Error → Act W (Unit {0})
ended_by none = pure tt
ended_by (some e) = raise e

-- `hash` is `hex.EncodeToString` of the SHA-256 sum.
module _ (net : Net) (hash : Text → Text) where
  -- The blocks in turn, each with its own hash.
  unfoldable pub send_blocks : List Text → ℕ → Act (Link net) (Unit {0})
  unfolding roundtrip
  send_blocks [] off = pure tt
  send_blocks (b ∷ bs) off = do
    roundtrip net (file_data (some (record { offset = off; block_hash = hash b; block = b })))
    send_blocks bs (off + length b)

  -- The end of the file, if the source is as it was; else a hash that cannot fit, whose ack is
  -- ignored, and an error.
  unfoldable pub send_end : Text → ℕ × ℕ → ℕ × ℕ → Act (Link net) (Unit {0})
  unfolding roundtrip concat_blocks
  send_end full_hash (size0, time0) (size1, time1) =
      if not (size1 == size0 && time1 == time0)
      then (do
        attempt (roundtrip net (file_end (some (txt "torn"))))
        raise (errorf (txt "torn copy")))
      else roundtrip net (file_end (some full_hash))

  -- `sendFile`; the limiter only delays.
  unfoldable pub send_file : Text → Entry → Act (Link net) (Unit {0})
  unfolding roundtrip send_blocks send_end concat_blocks
  send_file rel e = do
    before ← beside net (net.stat_source rel)
    content ← beside net (net.open_source rel)
    roundtrip net (
        file_begin (
          some (record {
            begin_path = rel;
            begin_size = before.0;
            begin_mode = e.mode;
            begin_mtime = e.mtime_ns;
          })))
    send_blocks content.0 0
    ended_by content.1
    after ← beside net (net.stat_source rel)
    send_end (hash (concat_blocks content.0)) before after

  -- `sendOp` to a cs-sync host.
  unfoldable pub send_op : Bool → Tree → Op → Act (Link net) (Unit {0})
  unfolding entry_at send_file roundtrip
  send_op same_os tree op =
      let e = entry_at op.path tree in
      elim op.kind [
        | mkdir ↦ roundtrip net (
            mkdir_frame (
              some (record blank_op {
                op_path = op.path;
                op_mode = e.mode;
                op_mtime = e.mtime_ns;
                op_acl = if same_os then e.acl else [];
              })))
        | rename ↦
            roundtrip net (
              rename_frame
                (some (record blank_op { op_path = op.path; op_old_path = op.old_path })))
        | delete ↦ roundtrip net (delete_frame (some (record blank_op { op_path = op.path })))
        | rmdir ↦ roundtrip net (rmdir_frame (some (record blank_op { op_path = op.path })))
        | copy ↦
            if type_eq e.type symlink
            then roundtrip net (
                symlink_frame
                  (some (record blank_op { op_path = op.path; op_link = e.link_target })))
            else send_file op.path e
        | conflict_rename ↦ pure tt
      ]
