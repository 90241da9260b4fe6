-- ===== src/Remote/Confined.antt =====
-- receiver.go: what the handling of frames keeps of the file system, for frames that name paths below
-- the destination.
use mathlib.Core.Path.{subst}
use cs_sync.Prelude.{
  eqt, Text, ◌≡◌, refl, sym, ◌∙◌, ◌⊎◌, inl, inr, true, Option, none, some, List, [], ◌∷◌, arith,
  Bool-cases, All,
}
use cs_sync.Os.{Outcome, done, failed, Os, Act, ◌>>=◌, pure, lift}
use cs_sync.Os.Paths.{FilePath, dir_of, NoDots}
use cs_sync.Prelude.Strings.{eqt_sound}
use cs_sync.Remote.Calls.{
  AvoidsRoot, IsBelowRoot, IsOpenUnder, under, make_dir-Keeps, rename_path-Keeps, delete_path-Keeps,
  remove_dir-Keeps, link_path-Keeps, folder_acl_of-Keeps, write_acl_csv-Keeps, write_marker-keeps,
  abort_transfer-keeps, finish_file-Keeps,
}
use cs_sync.Os.Keeps.{Keeps, Keeps-bind, Keeps-lift, bind-done}
use cs_sync.Remote.Keeps.{IsConfined, dir_of-IsUnder}
use cs_sync.Remote.Receiver.{
  Transfer, Answer, ack, panic, Verdict, installed, hash_panic, decode_into, decoded, kept_meta,
  abort_transfer, begin_file, stored, take_block, ended, end_file, begun, dispatch, handle,
  serve_frames,
}
use cs_sync.Remote.Resolve.{full, IsUnder}
use cs_sync.Wire.{
  FileBegin, FileData, Incoming, ping, loop_marker, mkdir_frame, rename_frame, delete_frame,
  rmdir_frame, symlink_frame, file_begin, file_data, file_end, folder_acl, acl_csv, unknown_frame,
}

module _ (os : Os) (hash : Text → Text) (dest : FilePath) (acl_type : Text) (P : os.World → Type 0)
    (rooted : dest.rooted ≡ true) (plain : NoDots dest.parts) (c : IsConfined os dest P) where
  begin_file-Keeps :
      (b : FileBegin) → AvoidsRoot dest b.begin_path → Keeps P (begin_file os hash dest acl_type b)
  unfolding begin_file AvoidsRoot
  begin_file-Keeps b avoids = Keeps-lift P (full dest b.begin_path) _ (λ t e.
      Keeps-bind P (os.mkdir_all (dir_of t) 0o755) (λ u. os.create_temp (dir_of t) >>= opened)
        (c.keeps_mkdir_all (dir_of t) 0o755 (inside t e))
        (λ u.
          Keeps-bind P (os.create_temp (dir_of t)) opened
            (c.keeps_create_temp (dir_of t) (inside t e)) (λ tmp w h. h)))
    where
      inside : (t : FilePath) → full dest b.begin_path ≡ done t → IsUnder dest (dir_of t)
      inside t e =
          dir_of-IsUnder dest t (under os hash dest acl_type P rooted plain c b.begin_path t e)
            (avoids t e)

      opened : FilePath → Act os.World Transfer
      opened tmp = pure (record { tmp = tmp; cur_path = b.begin_path; meta = b; hashed = [] })

  begin_file-IsUnder :
      (b : FileBegin) (w : os.World) (t : Transfer)
      → AvoidsRoot dest b.begin_path
      → (begin_file os hash dest acl_type b w).0 ≡ done t
      → IsUnder dest t.tmp
  unfolding begin_file AvoidsRoot
  begin_file-IsUnder b w t avoids e =
      let (p, at, e1) = bind-done (lift (full dest b.begin_path)) _ w t e in
      let (u, made, e2) = bind-done (os.mkdir_all (dir_of p) 0o755) _ w t e1 in
      let (tmp, named, e3) = bind-done (os.create_temp (dir_of p)) _ _ t e2 in
      let same : tmp ≡ t.tmp = ground (arith, e3) in
      rw (sym same) (
        c.temp_is_under (dir_of p) tmp _
          (dir_of-IsUnder dest p (under os hash dest acl_type P rooted plain c b.begin_path p at)
            (avoids p at))
          named)

  begun-keeps :
      (x : Outcome Transfer × os.World)
      → P x.1
      → ((t : Transfer) → x.0 ≡ done t → IsUnder dest t.tmp)
      → P (begun os hash dest acl_type x).1 × IsOpenUnder dest (begun os hash dest acl_type x).0.0
  unfolding begun IsOpenUnder
  begun-keeps (done t, w) h u = (h, u t refl)
  begun-keeps (failed e, w) h u = (h, tt)

  take_block-keeps :
      (t : Transfer) (fd : FileData) (w : os.World)
      → IsUnder dest t.tmp
      → P w
      → P (take_block os hash dest acl_type t fd w).1
        × IsOpenUnder dest (take_block os hash dest acl_type t fd w).0.0
  unfolding take_block IsOpenUnder stored
  take_block-keeps t fd w u h = elim (Bool-cases (eqt (hash fd.block) fd.block_hash)) [
    | inl e ↦ rw e (
        written (os.write_at t.tmp fd.block fd.offset w)
          (c.keeps_write_at t.tmp fd.block fd.offset u w h))
    | inr e ↦ rw e (abort_transfer-keeps os hash dest acl_type P rooted plain c (some t) w u h, tt)
  ]
    where
      written :
          (x : Outcome (Unit {0}) × os.World)
          → P x.1
          → P (stored os hash dest acl_type t fd x).1
            × IsOpenUnder dest (stored os hash dest acl_type t fd x).0.0
      written (done v, w) h = (h, u)
      written (failed e, w) h =
          (abort_transfer-keeps os hash dest acl_type P rooted plain c (some t) w u h, tt)

  ended-keeps :
      (t : Transfer) (x : Outcome Verdict × os.World)
      → IsUnder dest t.tmp
      → P x.1
      → P (ended os hash dest acl_type t x).1
        × IsOpenUnder dest (ended os hash dest acl_type t x).0.0
  unfolding ended IsOpenUnder
  ended-keeps t (failed e, w) u h = (h, tt)
  ended-keeps t (done installed, w) u h = (h, tt)
  ended-keeps t (done hash_panic, w) u h = (h, u)

  -- For a rooted destination without "..", whatever predicate of the file system the calls at or
  -- below the destination keep is kept by the handling of every frame, whether it is acked,
  -- refused or panics, and the temp file of the transfer that is open then lies below the
  -- destination. A new file, link or new name is asked for below the destination, not at it, and
  -- the id in a loop marker has no slash.
  dispatch-keeps :
      (pid : Text) (f : Incoming) (s : Option Transfer) (w : os.World)
      → IsBelowRoot dest f
      → IsOpenUnder dest s
      → P w
      → P (dispatch os hash dest acl_type pid f s w).1
        × IsOpenUnder dest (dispatch os hash dest acl_type pid f s w).0.0
  unfolding dispatch IsBelowRoot IsOpenUnder begin_file end_file
  dispatch-keeps pid ping s w b u h = (h, u)
  dispatch-keeps pid (loop_marker none) s w b u h = (h, u)
  dispatch-keeps pid (loop_marker (some m)) s w b u h =
      (write_marker-keeps os hash dest acl_type P rooted plain c m w b h, u)
  dispatch-keeps pid (mkdir_frame none) s w b u h = (h, u)
  dispatch-keeps pid (mkdir_frame (some op)) s w b u h =
      (make_dir-Keeps os hash dest acl_type P rooted plain c op w h, u)
  dispatch-keeps pid (rename_frame none) s w b u h = (h, u)
  dispatch-keeps pid (rename_frame (some op)) s w b u h =
      (rename_path-Keeps os hash dest acl_type P rooted plain c op b w h, u)
  dispatch-keeps pid (delete_frame none) s w b u h = (h, u)
  dispatch-keeps pid (delete_frame (some op)) s w b u h =
      (delete_path-Keeps os hash dest acl_type P rooted plain c op w h, u)
  dispatch-keeps pid (rmdir_frame none) s w b u h = (h, u)
  dispatch-keeps pid (rmdir_frame (some op)) s w b u h =
      (remove_dir-Keeps os hash dest acl_type P rooted plain c op w h, u)
  dispatch-keeps pid (symlink_frame none) s w b u h = (h, u)
  dispatch-keeps pid (symlink_frame (some op)) s w b u h =
      (link_path-Keeps os hash dest acl_type P rooted plain c op b w h, u)
  dispatch-keeps pid (file_begin none) s w b u h =
      (abort_transfer-keeps os hash dest acl_type P rooted plain c s w u h, tt)
  dispatch-keeps pid (file_begin (some m)) s w b u h =
      let h' = abort_transfer-keeps os hash dest acl_type P rooted plain c s w u h in
      begun-keeps _ (begin_file-Keeps m b _ h') (λ t e. begin_file-IsUnder m _ t b e)
  dispatch-keeps pid (file_data none) s w b u h =
      (abort_transfer-keeps os hash dest acl_type P rooted plain c s w u h, tt)
  dispatch-keeps pid (file_data (some fd)) none w b u h = (h, tt)
  dispatch-keeps pid (file_data (some fd)) (some t) w b u h = take_block-keeps t fd w u h
  dispatch-keeps pid (file_end none) s w b u h =
      (abort_transfer-keeps os hash dest acl_type P rooted plain c s w u h, tt)
  dispatch-keeps pid (file_end (some want)) none w b u h = (h, tt)
  dispatch-keeps pid (file_end (some want)) (some t) w b u h =
      ended-keeps t _ u (finish_file-Keeps os hash dest acl_type P rooted plain c t want u w h)
  dispatch-keeps pid (folder_acl none) s w b u h = (h, u)
  dispatch-keeps pid (folder_acl (some a)) s w b u h =
      (folder_acl_of-Keeps os hash dest acl_type P rooted plain c a w h, u)
  dispatch-keeps pid (acl_csv none) s w b u h = (h, u)
  dispatch-keeps pid (acl_csv (some bytes)) s w b u h =
      (write_acl_csv-Keeps os hash dest acl_type P rooted plain c pid bytes w h, u)
  dispatch-keeps pid (unknown_frame t) s w b u h = (h, u)

  -- The path in the metadata that is kept between frames: none yet, or one below the destination.
  IsNamed : FileBegin → Type 0
  IsNamed m = (eqt m.begin_path [] ≡ true) ⊎ AvoidsRoot dest m.begin_path

  decode_into-AvoidsRoot :
      (m b : FileBegin)
      → IsNamed m
      → AvoidsRoot dest b.begin_path
      → AvoidsRoot dest (decode_into m b).begin_path
  unfolding IsNamed decode_into
  decode_into-AvoidsRoot m b named avoids = elim (Bool-cases (eqt b.begin_path [])) [
    | inr e ↦ rw e avoids
    | inl e ↦ rw e (elim named [
      | inl z ↦ subst (AvoidsRoot dest) (eqt_sound _ _ e ∙ sym (eqt_sound _ _ z)) avoids
      | inr a ↦ a
    ])
  ]

  -- Decoding a frame into what was kept makes it ask for nothing else, and what is kept then is named.
  decoded-IsBelowRoot :
      (m : FileBegin) (f : Incoming)
      → IsNamed m
      → IsBelowRoot dest f
      → IsBelowRoot dest (decoded m f) × IsNamed (kept_meta m (decoded m f))
  unfolding decoded IsBelowRoot IsNamed
  decoded-IsBelowRoot m (file_begin (some b)) named below =
      let a = decode_into-AvoidsRoot m b named below in (a, inr a)
  decoded-IsBelowRoot m (file_begin none) named below = (below, named)
  decoded-IsBelowRoot m ping named below = (below, named)
  decoded-IsBelowRoot m (loop_marker x) named below = (below, named)
  decoded-IsBelowRoot m (mkdir_frame x) named below = (below, named)
  decoded-IsBelowRoot m (rename_frame x) named below = (below, named)
  decoded-IsBelowRoot m (delete_frame x) named below = (below, named)
  decoded-IsBelowRoot m (rmdir_frame x) named below = (below, named)
  decoded-IsBelowRoot m (symlink_frame x) named below = (below, named)
  decoded-IsBelowRoot m (file_data x) named below = (below, named)
  decoded-IsBelowRoot m (file_end x) named below = (below, named)
  decoded-IsBelowRoot m (folder_acl x) named below = (below, named)
  decoded-IsBelowRoot m (acl_csv x) named below = (below, named)
  decoded-IsBelowRoot m (unknown_frame t) named below = (below, named)

  -- What a connection's state keeps between frames.
  abbrev pub IsSound : Option Transfer × FileBegin → Type 0
  IsSound s =
      IsOpenUnder dest s.0 × ((eqt s.1.begin_path [] ≡ true) ⊎ AvoidsRoot dest s.1.begin_path)

  handle-keeps :
      (pid : Text) (f : Incoming) (s : Option Transfer × FileBegin) (w : os.World)
      → IsBelowRoot dest f
      → IsSound s
      → P w
      → P (handle os hash dest acl_type pid f s w).1
        × IsSound (handle os hash dest acl_type pid f s w).0.0
  unfolding handle IsNamed
  handle-keeps pid f (s, m) w below (u, named) h =
      let (below', named') = decoded-IsBelowRoot m f named below in
      let (h', u') = dispatch-keeps pid (decoded m f) s w below' u h in (h', (u', named'))

  -- For a rooted destination without "..", whatever predicate of the file system the calls at or
  -- below the destination keep still holds when a connection is over, after any sequence of frames
  -- that asks for no new file, link or new name at the destination itself, and whose loop markers
  -- have an id without a slash. A transfer that is open at the start, or metadata kept from one, is
  -- below the destination too.
  pub serve_frames-keeps :
      (pid : Text) (fs : List Incoming) (s : Option Transfer × FileBegin) (w : os.World)
      → All (IsBelowRoot dest) fs
      → IsSound s
      → P w
      → P (serve_frames os hash dest acl_type pid fs s w).1
  unfolding serve_frames
  serve_frames-keeps pid [] s w b (u, named) h =
      abort_transfer-keeps os hash dest acl_type P rooted plain c s.0 w u h
  serve_frames-keeps pid (f ∷ fs) s w (bf, bs) u h =
      let (h', u') = handle-keeps pid f s w bf u h in
      let s' = (handle os hash dest acl_type pid f s w).0.0 in
      let w' = (handle os hash dest acl_type pid f s w).1 in
      go (handle os hash dest acl_type pid f s w).0.1 refl
        (abort_transfer-keeps os hash dest acl_type P rooted plain c s'.0 w' u'.0 h')
        (serve_frames-keeps pid fs s' w' bs u' h')
    where
      s' : Option Transfer × FileBegin
      s' = (handle os hash dest acl_type pid f s w).0.0

      w' : os.World
      w' = (handle os hash dest acl_type pid f s w).1

      go :
          (a : Answer)
          → (handle os hash dest acl_type pid f s w).0.1 ≡ a
          → P (abort_transfer os hash dest acl_type s'.0 w')
          → P (serve_frames os hash dest acl_type pid fs s' w').1
          → P (serve_frames os hash dest acl_type pid (f ∷ fs) s w).1
      go panic e h k = rw (serve_frames, e) h
      go (ack r) e h k = rw (serve_frames, e) k
