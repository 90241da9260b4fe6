-- ===== src/Remote/Whole.antt =====
-- sender.go: when a file counts as sent.
use mathlib.Core.Bool.{◌&&◌}
use cs_sync.Prelude.{Text, ℕ, ◌≡◌, inl, inr, Option, some, List, arith, ◌==◌, Bool-cases}
use cs_sync.Model.{Entry}
use cs_sync.Os.{Error, Outcome, done}
use cs_sync.Os.Keeps.{bind-done}
use cs_sync.Remote.Link.{Net, Link, roundtrip, beside}
use cs_sync.Remote.Sender.{concat_blocks, ended_by, send_blocks, send_end, send_file}
use cs_sync.Wire.{Incoming, file_begin}

module _ (net : Net) (hash : Text → Text) where
  send_end_done :
      (full_hash : Text) (before after : ℕ × ℕ) (l : Link net)
      → (send_end net hash full_hash before after l).0 ≡ done tt
      → (after.0 ≡ before.0) × (after.1 ≡ before.1)
  unfolding send_end
  send_end_done full_hash (size0, time0) (size1, time1) l e =
      elim (Bool-cases (size1 == size0 && time1 == time0)) [
        | inl s ↦ (ground (arith, s), ground (arith, s))
        | inr s ↦ absurd (ground (arith, rw s at e))
      ]

  -- The frame that announces the file, with the size that the first stat gave.
  abbrev announced : Text → Entry → ℕ × ℕ → Incoming
  announced file_path e before = file_begin (
      some (record {
        begin_path = file_path;
        begin_size = before.0;
        begin_mode = e.mode;
        begin_mtime = e.mtime_ns;
      }))

  abbrev statted : Text → Link net → Outcome (ℕ × ℕ) × Link net
  statted file_path = beside net (net.stat_source file_path)

  abbrev read_from : Text → Link net → Outcome (List Text × Option Error) × Link net
  read_from file_path = beside net (net.open_source file_path)

  -- Where the connection and the source stand behind the last block of the file.
  abbrev behind_blocks : Text → Entry → ℕ × ℕ → List Text × Option Error → Link net → Link net
  behind_blocks file_path e before content l =
      (ended_by content.1
        (send_blocks net hash content.0 0 (roundtrip net (announced file_path e before) l).1).1).1

  -- The source as it was read before the first block is as it was read behind the last.
  pub record IsWhole (file_path : Text) (e : Entry) (l : Link net) : Type 0 where
    pub before : ℕ × ℕ
    pub after : ℕ × ℕ
    pub content : List Text × Option Error
    pub stat_first : (statted file_path l).0 ≡ done before
    pub content_read : (read_from file_path (statted file_path l).1).0 ≡ done content
    pub stat_last :
        (statted file_path (
          behind_blocks file_path e before content
            (read_from file_path (statted file_path l).1).1)).0
        ≡ done after
    pub same_size : after.0 ≡ before.0
    pub same_time : after.1 ≡ before.1

  -- A file transfer returns without an error only if the size and the modification time of the
  -- source, read again where its last block has been answered, are those read before the first.
  pub send_file-IsWhole :
      (file_path : Text) (e : Entry) (l : Link net)
      → (send_file net hash file_path e l).0 ≡ done tt
      → IsWhole file_path e l
  unfolding send_file
  send_file-IsWhole file_path e l ok =
      let (before, at0, e1) = bind-done (statted file_path) _ l tt ok in
      let l1 : Link net = (statted file_path l).1 in
      let (content, at1, e2) = bind-done (read_from file_path) _ l1 tt e1 in
      let l2 : Link net = (read_from file_path l1).1 in
      let (u, at2, e3) = bind-done (roundtrip net (announced file_path e before)) _ l2 tt e2 in
      let l3 : Link net = (roundtrip net (announced file_path e before) l2).1 in
      let (v, at3, e4) = bind-done (send_blocks net hash content.0 0) _ l3 tt e3 in
      let l4 : Link net = (send_blocks net hash content.0 0 l3).1 in
      let (x, at4, e5) = bind-done (ended_by content.1) _ l4 tt e4 in
      let l5 : Link net = (ended_by content.1 l4).1 in
      let (after, at5, e6) = bind-done (statted file_path) _ l5 tt e5 in
      let (size, time) = send_end_done (hash (concat_blocks content.0)) before after _ e6 in
      record {
        before = before;
        after = after;
        content = content;
        stat_first = at0;
        content_read = at1;
        stat_last = at5;
        same_size = size;
        same_time = time;
      }
