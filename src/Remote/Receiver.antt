-- ===== src/Remote/Receiver.antt =====
-- receiver.go: one connection of `cs-sync serve`, from the frames to the calls of the operating
-- system and the acks.
use mathlib.Core.Bool.{◌||◌}
use cs_sync.Prelude.{
  eqt, Text, txt, false, not, Option, none, some, List, [], ◌∷◌, ◌++◌, ltb, ◌==◌, if◌then◌else◌,
  length,
}
use cs_sync.Os.{
  Error, errorf, is_not_exist, Outcome, done, failed, Os, Act, and_then, ◌>>=◌, ◌>>◌, pure, raise,
  attempt, lift,
}
use cs_sync.Os.Paths.{FilePath, pieces, join, dir_of}
use cs_sync.Remote.Resolve.{full}
use cs_sync.Wire.{
  WireOp, FileBegin, FileData, FolderAcl, LoopMarker, Incoming, ping, loop_marker, mkdir_frame,
  rename_frame, delete_frame, rmdir_frame, symlink_frame, file_begin, file_data, file_end,
  folder_acl, acl_csv, unknown_frame,
}

-- The transfer in progress: the temp file, and the bytes hashed so far.
pub record Transfer : Type 0 where
  pub tmp : FilePath
  pub cur_path : Text
  pub meta : FileBegin
  pub hashed : Text

-- What a frame leads to: an ack, with the error if there is one, or a panic of the process.
pub data Answer : Type 0 where
  ack : Option Error → Answer
  panic : Answer

-- What `finishFile` returns, or that slicing a hash panics.
pub data Verdict : Type 0 where
  installed hash_panic : Verdict

ack_of : {A : Type 0} → Outcome A → Answer
ack_of (done a) = ack none
ack_of (failed e) = ack (some e)

-- gob sends no field that is zero, and leaves such a field as it was: what is decoded into `m`.
unfoldable pub decode_into : FileBegin → FileBegin → FileBegin
decode_into m b = record {
  begin_path = if eqt b.begin_path [] then m.begin_path else b.begin_path;
  begin_size = if b.begin_size == 0 then m.begin_size else b.begin_size;
  begin_mode = if b.begin_mode == 0 then m.begin_mode else b.begin_mode;
  begin_mtime = if b.begin_mtime == 0 then m.begin_mtime else b.begin_mtime;
}

-- `curMeta` is one variable for the whole connection; every other message is decoded into a new one.
unfoldable pub decoded : FileBegin → Incoming → Incoming
unfolding decode_into
decoded m (file_begin (some b)) = file_begin (some (decode_into m b))
decoded m f = f

-- A payload that `Decode` refuses is taken to leave `curMeta` as it was.
abbrev pub kept_meta : FileBegin → Incoming → FileBegin
kept_meta m (file_begin (some b)) = b
kept_meta m f = m

-- `hash` is `hex.EncodeToString` of the SHA-256 sum.
module _ (os : Os) (hash : Text → Text) (dest : FilePath) (acl_type : Text) where
  open os use {World}

  abbrev State : Type 0
  State = Option Transfer

  -- `abortTransfer`
  unfoldable pub abort_transfer : State → World → World
  abort_transfer none w = w
  abort_transfer (some t) w = (os.remove t.tmp (os.close_file t.tmp w).1).1

  -- The metadata, and the rename onto the target.
  unfoldable pub put_in_place : Transfer → Act World Verdict
  unfolding full
  put_in_place t = do
    os.chmod t.tmp t.meta.begin_mode
    os.chtimes t.tmp t.meta.begin_mtime
    target ← lift (full dest t.cur_path)
    os.rename_file t.tmp target
    pure installed

  -- The test of the hash and the steps behind it; a hash that is too short cannot be sliced.
  unfoldable pub install : Transfer → Text → Act World Verdict
  unfolding put_in_place
  install t want =
      if not (eqt (hash t.hashed) want)
      then (if ltb (length (hash t.hashed)) 12 || ltb (length want) 12
          then pure hash_panic
          else raise (errorf (txt "e2e hash mismatch")))
      else put_in_place t

  -- `finishFile`; its deferred `os.Remove` runs on every way out.
  unfoldable pub finish_file : Transfer → Text → Act World Verdict
  unfolding install
  finish_file t want w =
      let (synced, w1) = os.sync_file t.tmp w in
      let (closed, w2) = os.close_file t.tmp w1 in
      let (verdict, w3) = and_then synced (λ _. and_then closed (λ _. install t want)) w2 in
      (verdict, (os.remove t.tmp w3).1)

  -- A failure to apply the ACL is only logged.
  unfoldable pub inherit : FilePath → Text → Act World (Unit {0})
  inherit target acl =
      if eqt acl [] then pure tt else (do attempt (os.apply_acl target acl_type acl); pure tt)

  -- `mkdir`
  unfoldable pub make_dir : WireOp → Act World (Unit {0})
  unfolding full inherit
  make_dir op = do
    target ← lift (full dest op.op_path)
    os.mkdir_all target op.op_mode
    inherit target op.op_acl

  unfoldable pub rename_path : WireOp → Act World (Unit {0})
  unfolding full
  rename_path op = do
    from ← lift (full dest op.op_old_path)
    to ← lift (full dest op.op_path)
    os.mkdir_all (dir_of to) 0o755
    os.rename_file from to

  -- A path that is already gone is deleted.
  forgive : Outcome (Unit {0}) → Outcome (Unit {0})
  unfolding is_not_exist
  forgive (done u) = done u
  forgive (failed e) = if is_not_exist e then done tt else failed e

  unfoldable pub delete_path : WireOp → Act World (Unit {0})
  unfolding full forgive
  delete_path op w =
      let (r, w') = (do target ← lift (full dest op.op_path); os.remove target) w in (forgive r, w')

  unfoldable pub remove_dir : WireOp → Act World (Unit {0})
  unfolding full
  remove_dir op = do target ← lift (full dest op.op_path); os.remove_all target

  unfoldable pub link_path : WireOp → Act World (Unit {0})
  unfolding full
  link_path op = do
    target ← lift (full dest op.op_path)
    attempt (os.remove target)
    os.mkdir_all (dir_of target) 0o755
    os.make_symlink op.op_link target

  -- `TFileBegin` behind the abort of an earlier transfer.
  unfoldable pub begin_file : FileBegin → Act World Transfer
  unfolding full
  begin_file b = do
    target ← lift (full dest b.begin_path)
    os.mkdir_all (dir_of target) 0o755
    tmp ← os.create_temp (dir_of target)
    pure (record { tmp = tmp; cur_path = b.begin_path; meta = b; hashed = [] })

  unfoldable pub folder_acl_of : FolderAcl → Act World (Unit {0})
  unfolding full
  folder_acl_of a =
      if eqt a.folder (txt ".")
      then os.apply_acl dest a.folder_acl_type a.acl_text
      else (do target ← lift (full dest a.folder); os.apply_acl target a.folder_acl_type a.acl_text)

  abbrev acl_csv_name : Text
  acl_csv_name = txt "cs-sync-acl.csv"

  abbrev under_dest : List Text → FilePath
  under_dest ps = record dest { parts = dest.parts ++ ps }

  -- `writeAclCSV`, with the process id in the name of the temp file.
  unfoldable pub write_acl_csv : Text → Text → Act World (Unit {0})
  write_acl_csv pid bytes = do
    os.mkdir_all (under_dest (txt ".backupdata" ∷ [])) 0o700
    os.write_file (under_dest (txt ".backupdata" ∷ (acl_csv_name ++ (txt ".tmp." ++ pid)) ∷ []))
        bytes
    os.rename_file (under_dest (txt ".backupdata" ∷ (acl_csv_name ++ (txt ".tmp." ++ pid)) ∷ []))
        (under_dest (txt ".backupdata" ∷ acl_csv_name ∷ []))

  -- `filepath.Join` of the marker's directory and its name, which holds the id as it came.
  unfoldable pub marker_file : LoopMarker → FilePath
  unfolding join pieces
  marker_file m =
      join (under_dest (txt ".backupdata" ∷ txt "loop" ∷ []))
        (record { rooted = false; parts = pieces (m.service_id ++ txt ".loop") })

  -- `loopmark.Write`: failures are ignored, and an empty id writes nothing.
  unfoldable pub write_marker : LoopMarker → World → World
  unfolding marker_file
  write_marker m w =
      if eqt m.service_id []
      then w
      else ((do
        os.mkdir_all (under_dest (txt ".backupdata" ∷ txt "loop" ∷ [])) 0o755
        os.write_file (marker_file m) (m.stamp ++ (10 ∷ [])))
          w).1

  abbrev simple : State → Outcome (Unit {0}) × World → (State × Answer) × World
  unfolding ack_of
  simple s (r, w) = ((s, ack_of r), w)

  abbrev bad_frame : Error
  bad_frame = errorf (txt "decode")

  unfoldable pub stored :
      Transfer → FileData → Outcome (Unit {0}) × World → (State × Answer) × World
  unfolding abort_transfer
  stored t fd (failed e, w) = ((none, ack (some e)), abort_transfer (some t) w)
  stored t fd (done u, w) = ((some (record t { hashed = t.hashed ++ fd.block }), ack none), w)

  -- `TFileData` during a transfer: the block's hash, the write, and the running hash.
  unfoldable pub take_block : Transfer → FileData → World → (State × Answer) × World
  unfolding abort_transfer stored
  take_block t fd w =
      if not (eqt (hash fd.block) fd.block_hash)
      then ((none, ack (some (errorf (txt "block hash mismatch")))), abort_transfer (some t) w)
      else stored t fd (os.write_at t.tmp fd.block fd.offset w)

  -- A panic leaves the transfer open, for the deferred `abortTransfer`.
  unfoldable pub ended : Transfer → Outcome Verdict × World → (State × Answer) × World
  ended t (failed e, w) = ((none, ack (some e)), w)
  ended t (done installed, w) = ((none, ack none), w)
  ended t (done hash_panic, w) = ((some t, panic), w)

  -- `TFileEnd` during a transfer.
  unfoldable pub end_file : Transfer → Text → World → (State × Answer) × World
  unfolding finish_file ended
  end_file t want w = ended t (finish_file t want w)

  unfoldable pub begun : Outcome Transfer × World → (State × Answer) × World
  begun (done t, w) = ((some t, ack none), w)
  begun (failed e, w) = ((none, ack (some e)), w)

  -- What one turn of the loop in `handle` does with a frame, once it is decoded.
  unfoldable pub dispatch : Text → Incoming → State → World → (State × Answer) × World
  unfolding abort_transfer make_dir rename_path delete_path remove_dir link_path begin_file begun
      folder_acl_of write_acl_csv write_marker take_block end_file ack_of
  dispatch pid ping s w = ((s, ack none), w)
  dispatch pid (loop_marker none) s w = ((s, ack (some bad_frame)), w)
  dispatch pid (loop_marker (some m)) s w = ((s, ack none), write_marker m w)
  dispatch pid (mkdir_frame none) s w = ((s, ack (some bad_frame)), w)
  dispatch pid (mkdir_frame (some op)) s w = simple s (make_dir op w)
  dispatch pid (rename_frame none) s w = ((s, ack (some bad_frame)), w)
  dispatch pid (rename_frame (some op)) s w = simple s (rename_path op w)
  dispatch pid (delete_frame none) s w = ((s, ack (some bad_frame)), w)
  dispatch pid (delete_frame (some op)) s w = simple s (delete_path op w)
  dispatch pid (rmdir_frame none) s w = ((s, ack (some bad_frame)), w)
  dispatch pid (rmdir_frame (some op)) s w = simple s (remove_dir op w)
  dispatch pid (symlink_frame none) s w = ((s, ack (some bad_frame)), w)
  dispatch pid (symlink_frame (some op)) s w = simple s (link_path op w)
  dispatch pid (file_begin none) s w = ((none, ack (some bad_frame)), abort_transfer s w)
  dispatch pid (file_begin (some b)) s w = begun (begin_file b (abort_transfer s w))
  dispatch pid (file_data none) s w = ((none, ack (some bad_frame)), abort_transfer s w)
  dispatch pid (file_data (some fd)) none w =
      ((none, ack (some (errorf (txt "FileData without FileBegin")))), w)
  dispatch pid (file_data (some fd)) (some t) w = take_block t fd w
  dispatch pid (file_end none) s w = ((none, ack (some bad_frame)), abort_transfer s w)
  dispatch pid (file_end (some want)) none w =
      ((none, ack (some (errorf (txt "FileEnd without FileBegin")))), w)
  dispatch pid (file_end (some want)) (some t) w = end_file t want w
  dispatch pid (folder_acl none) s w = ((s, ack (some bad_frame)), w)
  dispatch pid (folder_acl (some a)) s w = simple s (folder_acl_of a w)
  dispatch pid (acl_csv none) s w = ((s, ack (some bad_frame)), w)
  dispatch pid (acl_csv (some bytes)) s w = simple s (write_acl_csv pid bytes w)
  dispatch pid (unknown_frame t) s w = ((s, ack (some (errorf (txt "unknown frame type")))), w)

  -- One turn of the loop: the frame is decoded with the metadata of the last `TFileBegin` at hand,
  -- and the metadata that it gives is kept.
  unfoldable pub handle :
      Text → Incoming → State × FileBegin → World → ((State × FileBegin) × Answer) × World
  unfolding dispatch decoded
  handle pid f (s, m) w =
      let ((s', a), w') = dispatch pid (decoded m f) s w in
      (((s', kept_meta m (decoded m f)), a), w')

  -- The frames of a connection in turn, until it closes or the process panics; the transfer that is
  -- open then is aborted.
  unfoldable pub serve_frames :
      Text → List Incoming → State × FileBegin → World → List Answer × World
  unfolding handle
  serve_frames pid [] s w = ([], abort_transfer s.0 w)
  serve_frames pid (f ∷ fs) s w =
      let ((s', a), w') = handle pid f s w in
      let (rest, w'') = serve_frames pid fs s' w' in
      elim a [ panic ↦ (panic ∷ [], abort_transfer s'.0 w') | ack e ↦ (ack e ∷ rest, w'') ]
