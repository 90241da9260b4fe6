-- ===== src/Remote/Calls.antt =====
-- receiver.go: what each call behind a frame keeps, when its paths lie below the destination.
use mathlib.Core.List.{append-nil, append_assoc}
use mathlib.Core.Bool.{◌||◌}
use cs_sync.Prelude.{
  eqt, Text, txt, ◌≡◌, refl, sym, ◌∙◌, ◌≢◌, inl, inr, true, false, Option, none, some, List, [],
  ◌∷◌, ◌++◌, arith, ltb, Bool-cases, length, length-append,
}
use cs_sync.Os.{Outcome, done, failed, Os, Act, and_then, ◌>>=◌, ◌>>◌, pure, lift}
use cs_sync.Os.Paths.{FilePath, pieces, join, dir_of, NoDots, NoDots-append, join-NoDots, join-name}
use cs_sync.Prelude.Strings.{eqt-length}
use cs_sync.Os.Keeps.{Keeps, Keeps-bind, Keeps-lift, Keeps-attempt}
use cs_sync.Remote.Keeps.{IsConfined, dir_of-IsUnder}
use cs_sync.Remote.Receiver.{
  Transfer, Verdict, installed, abort_transfer, put_in_place, install, finish_file, inherit,
  make_dir, rename_path, delete_path, remove_dir, link_path, folder_acl_of, write_acl_csv,
  marker_file, write_marker,
}
use cs_sync.Remote.Resolve.{full, IsUnder, full-IsUnder}
use cs_sync.Wire.{
  WireOp, FolderAcl, LoopMarker, Incoming, loop_marker, rename_frame, symlink_frame, file_begin,
}

-- Where the file, link or new name that a frame asks for lands is not the destination itself.
unfoldable pub AvoidsRoot : FilePath → Text → Type 0
unfolding full
AvoidsRoot dest path = (p : FilePath) → full dest path ≡ done p → p.parts ≢ dest.parts

-- The service id of a loop marker is a name without a slash.
unfoldable pub IsOneName : LoopMarker → Type 0
unfolding pieces
IsOneName m = pieces (m.service_id ++ txt ".loop") ≡ (m.service_id ++ txt ".loop") ∷ []

-- What is asked of a frame: no new file, link or name at the destination itself, and a loop marker
-- with a plain name.
unfoldable pub IsBelowRoot : FilePath → Incoming → Type 0
unfolding AvoidsRoot IsOneName
IsBelowRoot dest (loop_marker (some m)) = IsOneName m
IsBelowRoot dest (rename_frame (some op)) = AvoidsRoot dest op.op_path
IsBelowRoot dest (symlink_frame (some op)) = AvoidsRoot dest op.op_path
IsBelowRoot dest (file_begin (some b)) = AvoidsRoot dest b.begin_path
IsBelowRoot dest _ = Unit

-- The temp file of the transfer in progress lies below the destination.
unfoldable pub IsOpenUnder : FilePath → Option Transfer → Type 0
IsOpenUnder dest none = Unit
IsOpenUnder dest (some t) = IsUnder dest t.tmp

-- A name that ends in ".loop" is none of the three special ones.
service_file-plain :
    (s : Text)
    → (eqt (s ++ txt ".loop") [] ≡ false)
      × (eqt (s ++ txt ".loop") (txt ".") ≡ false)
      × (eqt (s ++ txt ".loop") (txt "..") ≡ false)
service_file-plain s =
    let n = length-append s (txt ".loop") in
    (
      eqt-length (s ++ txt ".loop") [] (omega (arith, n)),
      eqt-length (s ++ txt ".loop") (txt ".") (omega (arith, n)),
      eqt-length (s ++ txt ".loop") (txt "..") (omega (arith, n)),
    )

module _ (os : Os) (hash : Text → Text) (dest : FilePath) (acl_type : Text) (P : os.World → Type 0)
    (rooted : dest.rooted ≡ true) (plain : NoDots dest.parts) (c : IsConfined os dest P) where
  pub under : (path : Text) (p : FilePath) → full dest path ≡ done p → IsUnder dest p
  under path p e = full-IsUnder dest path p rooted plain e

  inherit-Keeps :
      (p : FilePath) (acl : Text) → IsUnder dest p → Keeps P (inherit os hash dest acl_type p acl)
  unfolding inherit
  inherit-Keeps p acl u = elim (Bool-cases (eqt acl [])) [
    | inl e ↦ λ w h. rw e h
    | inr e ↦ λ w h. rw e (c.keeps_apply_acl p acl_type acl u w h)
  ]

  pub make_dir-Keeps : (op : WireOp) → Keeps P (make_dir os hash dest acl_type op)
  unfolding make_dir
  make_dir-Keeps op = Keeps-lift P _ _ (λ t e.
      Keeps-bind P (os.mkdir_all t op.op_mode) (λ u. inherit os hash dest acl_type t op.op_acl)
        (c.keeps_mkdir_all t op.op_mode (under op.op_path t e))
        (λ u. inherit-Keeps t op.op_acl (under op.op_path t e)))

  pub rename_path-Keeps :
      (op : WireOp) → AvoidsRoot dest op.op_path → Keeps P (rename_path os hash dest acl_type op)
  unfolding rename_path AvoidsRoot
  rename_path-Keeps op a = Keeps-lift P _ _ (λ from e. Keeps-lift P _ _ (λ to e'.
      Keeps-bind P _ _
        (c.keeps_mkdir_all (dir_of to) 0o755
          (dir_of-IsUnder dest to (under op.op_path to e') (a to e')))
        (λ u. c.keeps_rename_file from to (under op.op_old_path from e) (under op.op_path to e'))))

  pub delete_path-Keeps : (op : WireOp) → Keeps P (delete_path os hash dest acl_type op)
  unfolding delete_path
  delete_path-Keeps op = Keeps-lift P _ _ (λ t e. c.keeps_remove t (under op.op_path t e))

  pub remove_dir-Keeps : (op : WireOp) → Keeps P (remove_dir os hash dest acl_type op)
  unfolding remove_dir
  remove_dir-Keeps op = Keeps-lift P _ _ (λ t e. c.keeps_remove_all t (under op.op_path t e))

  pub link_path-Keeps :
      (op : WireOp) → AvoidsRoot dest op.op_path → Keeps P (link_path os hash dest acl_type op)
  unfolding link_path AvoidsRoot
  link_path-Keeps op a = Keeps-lift P _ _ (λ t e.
      Keeps-attempt P (os.remove t)
        (λ r. os.mkdir_all (dir_of t) 0o755 >> os.make_symlink op.op_link t)
        (c.keeps_remove t (under op.op_path t e))
        (λ r.
          Keeps-bind P (os.mkdir_all (dir_of t) 0o755) (λ u. os.make_symlink op.op_link t)
            (c.keeps_mkdir_all (dir_of t) 0o755
              (dir_of-IsUnder dest t (under op.op_path t e) (a t e)))
            (λ u. c.keeps_make_symlink op.op_link t (under op.op_path t e))))

  pub folder_acl_of-Keeps : (a : FolderAcl) → Keeps P (folder_acl_of os hash dest acl_type a)
  unfolding folder_acl_of
  folder_acl_of-Keeps a = elim (Bool-cases (eqt a.folder (txt "."))) [
    | inl e ↦ rw e (c.keeps_apply_acl dest a.folder_acl_type a.acl_text at_root)
    | inr e ↦ rw e (
        Keeps-lift P _ _
          (λ t e. c.keeps_apply_acl t a.folder_acl_type a.acl_text (under a.folder t e)))
  ]
    where
      at_root : IsUnder dest dest
      at_root = record {
        below = [];
        parts_eq = sym (append-nil dest.parts);
        rooted_eq = refl;
        no_dots = plain;
      }

  within : (ps : List Text) → NoDots ps → IsUnder dest (record dest { parts = dest.parts ++ ps })
  within ps h = record {
    below = ps;
    parts_eq = refl;
    rooted_eq = refl;
    no_dots = NoDots-append dest.parts ps plain h;
  }

  pub write_acl_csv-Keeps :
      (pid bytes : Text) → Keeps P (write_acl_csv os hash dest acl_type pid bytes)
  unfolding write_acl_csv eqt
  write_acl_csv-Keeps pid bytes =
      Keeps-bind P (os.mkdir_all folder 0o700)
        (λ u. os.write_file temp bytes >> os.rename_file temp final)
        (c.keeps_mkdir_all folder 0o700 (within (txt ".backupdata" ∷ []) (refl, tt)))
        (λ u.
          Keeps-bind P (os.write_file temp bytes) (λ v. os.rename_file temp final)
            (c.keeps_write_file temp bytes temp_under)
            (λ v.
              c.keeps_rename_file temp final temp_under
                (within (txt ".backupdata" ∷ txt "cs-sync-acl.csv" ∷ []) (refl, (refl, tt)))))
    where
      folder : FilePath
      folder = record dest { parts = dest.parts ++ txt ".backupdata" ∷ [] }

      temp : FilePath
      temp = record dest {
        parts =
            dest.parts ++ txt ".backupdata" ∷ (txt "cs-sync-acl.csv" ++ (txt ".tmp." ++ pid)) ∷ [];
      }

      final : FilePath
      final = record dest { parts = dest.parts ++ txt ".backupdata" ∷ txt "cs-sync-acl.csv" ∷ [] }

      temp_under : IsUnder dest temp
      temp_under =
          within (txt ".backupdata" ∷ (txt "cs-sync-acl.csv" ++ (txt ".tmp." ++ pid)) ∷ [])
            (refl, (refl, tt))

  marker_file-IsUnder :
      (m : LoopMarker) → IsOneName m → IsUnder dest (marker_file os hash dest acl_type m)
  unfolding marker_file IsOneName eqt
  marker_file-IsUnder m one =
      let folder : FilePath = record dest {
        parts = dest.parts ++ txt ".backupdata" ∷ txt "loop" ∷ [];
      } in
      let (a, b, d) = service_file-plain m.service_id in
      rw one (record {
        below = txt ".backupdata" ∷ txt "loop" ∷ (m.service_id ++ txt ".loop") ∷ [];
        parts_eq =
            join-name folder (m.service_id ++ txt ".loop") a b d ∙ append_assoc dest.parts _ _;
        rooted_eq = unfold join in refl;
        no_dots =
            join-NoDots folder
              (record { rooted = false; parts = (m.service_id ++ txt ".loop") ∷ [] }) rooted
              (NoDots-append dest.parts _ plain (refl, (refl, tt)));
      })

  pub write_marker-keeps :
      (m : LoopMarker) (w : os.World)
      → IsOneName m
      → P w
      → P (write_marker os hash dest acl_type m w)
  unfolding write_marker eqt
  write_marker-keeps m w one h = elim (Bool-cases (eqt m.service_id [])) [
    | inl e ↦ rw e h
    | inr e ↦ rw e (written w h)
  ]
    where
      written : Keeps P (
          os.mkdir_all
            (record dest { parts = dest.parts ++ txt ".backupdata" ∷ txt "loop" ∷ [] })
            0o755
          >> os.write_file (marker_file os hash dest acl_type m) (m.stamp ++ (10 ∷ [])))
      written =
          Keeps-bind P
            (os.mkdir_all
              (record dest { parts = dest.parts ++ txt ".backupdata" ∷ txt "loop" ∷ [] }) 0o755)
            _
            (c.keeps_mkdir_all _ 0o755
              (within (txt ".backupdata" ∷ txt "loop" ∷ []) (refl, (refl, tt))))
            (λ u.
              c.keeps_write_file (marker_file os hash dest acl_type m) (m.stamp ++ (10 ∷ []))
                (marker_file-IsUnder m one))

  pub abort_transfer-keeps :
      (s : Option Transfer) (w : os.World)
      → IsOpenUnder dest s
      → P w
      → P (abort_transfer os hash dest acl_type s w)
  unfolding abort_transfer IsOpenUnder
  abort_transfer-keeps none w u h = h
  abort_transfer-keeps (some t) w u h = c.keeps_remove t.tmp u _ (c.keeps_close_file t.tmp u w h)

  put_in_place-Keeps :
      (t : Transfer) → IsUnder dest t.tmp → Keeps P (put_in_place os hash dest acl_type t)
  unfolding put_in_place
  put_in_place-Keeps t u =
      Keeps-bind P (os.chmod t.tmp t.meta.begin_mode)
        (λ a. os.chtimes t.tmp t.meta.begin_mtime >> rest) (c.keeps_chmod t.tmp t.meta.begin_mode u)
        (λ a.
          Keeps-bind P (os.chtimes t.tmp t.meta.begin_mtime) (λ b. rest)
            (c.keeps_chtimes t.tmp t.meta.begin_mtime u)
            (λ b.
              Keeps-lift P (full dest t.cur_path) (λ p. os.rename_file t.tmp p >> pure installed)
                (λ p e.
                  Keeps-bind P (os.rename_file t.tmp p) (λ d. pure installed)
                    (c.keeps_rename_file t.tmp p u (under t.cur_path p e)) (λ d w h. h))))
    where
      rest : Act os.World Verdict
      rest = lift (full dest t.cur_path) >>= λ p. os.rename_file t.tmp p >> pure installed

  install-Keeps :
      (t : Transfer) (want : Text)
      → IsUnder dest t.tmp
      → Keeps P (install os hash dest acl_type t want)
  unfolding install
  install-Keeps t want u = elim (Bool-cases (eqt (hash t.hashed) want)) [
    | inl e ↦ λ w h. rw e (put_in_place-Keeps t u w h)
    | inr e ↦ elim (Bool-cases (ltb (length (hash t.hashed)) 12 || ltb (length want) 12)) [
      | inl b ↦ λ w h. rw (e, b) h
      | inr b ↦ λ w h. rw (e, b) h
    ]
  ]

  pub finish_file-Keeps :
      (t : Transfer) (want : Text)
      → IsUnder dest t.tmp
      → Keeps P (finish_file os hash dest acl_type t want)
  unfolding finish_file
  finish_file-Keeps t want u w h =
      let kept = c.keeps_close_file t.tmp u _ (c.keeps_sync_file t.tmp u w h) in
      c.keeps_remove t.tmp u _
        (verify (os.sync_file t.tmp w).0 (os.close_file t.tmp (os.sync_file t.tmp w).1).0 _ kept)
    where
      verify :
          (r q : Outcome (Unit {0})) (w : os.World)
          → P w
          → P (and_then r (λ a. and_then q (λ b. install os hash dest acl_type t want)) w).1
      verify (failed e) q w h = h
      verify (done a) (failed e) w h = h
      verify (done a) (done b) w h = install-Keeps t want u w h
