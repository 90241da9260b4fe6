-- ===== src/Apply/Safe.antt =====
-- executor.go: what a copy that fails leaves behind.
use cs_sync.Prelude.{Text, ℕ, ◌≡◌, refl, arith}
use cs_sync.Apply.Copy.{settle, guarded, fill, publish, copy_file}
use cs_sync.Os.{Error, Outcome, done, failed, FileInfo, Os, Act, and_then, ◌>>=◌, ◌>>◌, reads}
use cs_sync.Os.Paths.{FilePath}
use cs_sync.Os.Keeps.{Keeps, Keeps-bind}

-- `P` is kept by every call on the temp file, and by a rename onto the target that fails.
pub record IsAside (os : Os) (tmp dst : FilePath) (P : os.World → Type 0) : Type 0 where
  pub aside_open : (n : ℕ) → Keeps P (os.open_temp tmp n)
  pub aside_write : (s : Text) (n : ℕ) → Keeps P (os.write_at tmp s n)
  pub aside_sync : Keeps P (os.sync_file tmp)
  pub aside_close : Keeps P (os.close_file tmp)
  pub aside_chtimes : (n : ℕ) → Keeps P (os.chtimes tmp n)
  pub aside_remove : Keeps P (os.remove tmp)
  pub failed_rename :
      (w : os.World) (e : Error)
      → P w
      → (os.rename_file tmp dst w).0 ≡ failed e
      → P (os.rename_file tmp dst w).1

-- `P` still holds if the action fails.
abbrev FailsInto : {W A : Type 0} → (W → Type 0) → Act W A → Type 0
FailsInto {W} P m = (w : W) (e : Error) → P w → (m w).0 ≡ failed e → P (m w).1

module _ {W A B : Type 0} (P : W → Type 0) where
  FailsInto-bind :
      (m : Act W A) (f : A → Act W B)
      → Keeps P m
      → ((a : A) → FailsInto P (f a))
      → FailsInto P (m >>= f)
  FailsInto-bind m f km kf w e h = go (m w) (km w h)
    where
      go :
          (x : Outcome A × W) → P x.1 → (and_then x.0 f x.1).0 ≡ failed e → P (and_then x.0 f x.1).1
      go (done a, w') h z = kf a w' e h z
      go (failed e', w') h z = h

module _ {W A : Type 0} (P : W → Type 0) where
  FailsInto-guarded :
      (m : Act W A) (undo : W → W)
      → FailsInto P m
      → ((w : W) → P w → P (undo w))
      → FailsInto P (guarded m undo)
  unfolding guarded
  FailsInto-guarded m undo fm ku w e h = go (m w) (λ e'. fm w e' h)
    where
      go :
          (x : Outcome A × W)
          → ((e' : Error) → x.0 ≡ failed e' → P x.1)
          → (settle undo x).0 ≡ failed e
          → P (settle undo x).1
      go (done a, w') k z = absurd (ground (arith, z))
      go (failed e', w') k z = ku w' (k e' refl)

module _ (os : Os) (random : os.World → Text) (tmp dst : FilePath) (P : os.World → Type 0)
    (c : IsAside os tmp dst P) where
  fill-Keeps : (src : FilePath) → Keeps P (fill os random src tmp)
  unfolding fill
  fill-Keeps src =
      Keeps-bind P (reads (os.read_file src)) (λ bytes. os.write_at tmp bytes 0 >> os.sync_file tmp)
        (λ w h. h)
        (λ bytes.
          Keeps-bind P (os.write_at tmp bytes 0) (λ u. os.sync_file tmp) (c.aside_write bytes 0)
            (λ u. c.aside_sync))

  publish-FailsInto : (fi : FileInfo) → FailsInto P (publish os random tmp dst fi)
  unfolding publish
  publish-FailsInto fi =
      FailsInto-bind P (os.close_file tmp)
        (λ u. os.chtimes tmp fi.mod_time >> os.rename_file tmp dst) c.aside_close
        (λ u.
          FailsInto-bind P (os.chtimes tmp fi.mod_time) (λ v. os.rename_file tmp dst)
            (c.aside_chtimes fi.mod_time) (λ v. c.failed_rename))

  guarded-Keeps :
      (m : Act os.World (Unit {0})) (undo : os.World → os.World)
      → Keeps P m
      → ((w : os.World) → P w → P (undo w))
      → Keeps P (guarded m undo)
  unfolding guarded
  guarded-Keeps m undo km ku w h = go (m w) (km w h)
    where
      go : (x : Outcome (Unit {0}) × os.World) → P x.1 → P (settle undo x).1
      go (done a, w') h = h
      go (failed e, w') h = ku w' h

  -- A file copy that fails, at whatever step, leaves the target as it was: whatever predicate the calls on
  -- the temp file and a failed rename keep still holds.
  pub copy_file-failed :
      (src : FilePath) (w : os.World) (e : Error)
      → P w
      → (copy_file os random src dst tmp w).0 ≡ failed e
      → P (copy_file os random src dst tmp w).1
  unfolding copy_file
  copy_file-failed src =
      FailsInto-bind P (reads (os.stat src))
        (λ fi. os.open_temp tmp fi.perm >> (filled >> published fi)) (λ w h. h)
        (λ fi.
          FailsInto-bind P (os.open_temp tmp fi.perm) (λ u. filled >> published fi)
            (c.aside_open fi.perm)
            (λ u.
              FailsInto-bind P filled (λ v. published fi)
                (guarded-Keeps (fill os random src tmp) _ (fill-Keeps src)
                  (λ w h. c.aside_remove _ (c.aside_close w h)))
                (λ v.
                  FailsInto-guarded P (publish os random tmp dst fi) _ (publish-FailsInto fi)
                    (λ w h. c.aside_remove w h))))
    where
      filled : Act os.World (Unit {0})
      filled = guarded (fill os random src tmp) (λ w. (os.remove tmp (os.close_file tmp w).1).1)

      published : FileInfo → Act os.World (Unit {0})
      published fi = guarded (publish os random tmp dst fi) (λ w. (os.remove tmp w).1)
