-- ===== src/Remote/Keeps.antt =====
-- What every call of the operating system below the destination keeps, and the directories that lie
-- there.
use mathlib.Core.List.{append-nil}
use cs_sync.Prelude.{Text, ℕ, ◌≡◌, refl, ap, ◌∙◌, ◌≢◌, List, [], ◌∷◌, ◌++◌}
use cs_sync.Os.{done, Os}
use cs_sync.Os.Keeps.{Keeps}
use cs_sync.Os.Paths.{FilePath, drop_last, dir_of, NoDots}
use cs_sync.Remote.Resolve.{IsUnder}

-- `P` is kept by every call whose paths lie at or below `dest`. A temp file lies in the directory
-- that `os.CreateTemp` is given.
pub record IsConfined (os : Os) (dest : FilePath) (P : os.World → Type 0) : Type 0 where
  pub keeps_mkdir_all : (p : FilePath) (m : ℕ) → IsUnder dest p → Keeps P (os.mkdir_all p m)
  pub keeps_rename_file :
      (p q : FilePath) → IsUnder dest p → IsUnder dest q → Keeps P (os.rename_file p q)
  pub keeps_remove : (p : FilePath) → IsUnder dest p → Keeps P (os.remove p)
  pub keeps_remove_all : (p : FilePath) → IsUnder dest p → Keeps P (os.remove_all p)
  pub keeps_make_symlink :
      (t : Text) (p : FilePath) → IsUnder dest p → Keeps P (os.make_symlink t p)
  pub keeps_create_temp : (d : FilePath) → IsUnder dest d → Keeps P (os.create_temp d)
  pub temp_is_under :
      (d t : FilePath) (w : os.World)
      → IsUnder dest d
      → (os.create_temp d w).0 ≡ done t
      → IsUnder dest t
  pub keeps_write_at :
      (p : FilePath) (s : Text) (n : ℕ) → IsUnder dest p → Keeps P (os.write_at p s n)
  pub keeps_write_file : (p : FilePath) (s : Text) → IsUnder dest p → Keeps P (os.write_file p s)
  pub keeps_sync_file : (p : FilePath) → IsUnder dest p → Keeps P (os.sync_file p)
  pub keeps_close_file : (p : FilePath) → IsUnder dest p → Keeps P (os.close_file p)
  pub keeps_chmod : (p : FilePath) (m : ℕ) → IsUnder dest p → Keeps P (os.chmod p m)
  pub keeps_chtimes : (p : FilePath) (m : ℕ) → IsUnder dest p → Keeps P (os.chtimes p m)
  pub keeps_apply_acl : (p : FilePath) (t s : Text) → IsUnder dest p → Keeps P (os.apply_acl p t s)

drop_last-append :
    (xs : List Text) (y : Text) (ys : List Text)
    → drop_last (xs ++ y ∷ ys) ≡ xs ++ drop_last (y ∷ ys)
unfolding drop_last
drop_last-append [] y ys = refl
drop_last-append (x ∷ []) y ys = refl
drop_last-append (x ∷ z ∷ xs) y ys = ap (◌∷◌ x) (drop_last-append (z ∷ xs) y ys)

drop_last-NoDots : (xs : List Text) → NoDots xs → NoDots (drop_last xs)
unfolding drop_last
drop_last-NoDots [] h = tt
drop_last-NoDots (x ∷ []) h = tt
drop_last-NoDots (x ∷ z ∷ xs) (hx, h) = (hx, drop_last-NoDots (z ∷ xs) h)

-- The directory of a path below the destination lies at or below it.
pub dir_of-IsUnder :
    (dest p : FilePath) → IsUnder dest p → p.parts ≢ dest.parts → IsUnder dest (dir_of p)
unfolding dir_of
dir_of-IsUnder dest p u apart = go u.below u.parts_eq
  where
    go : (ps : List Text) → p.parts ≡ dest.parts ++ ps → IsUnder dest (dir_of p)
    go [] e = absurd (apart (e ∙ append-nil dest.parts))
    go (x ∷ xs) e = record {
      below = drop_last (x ∷ xs);
      parts_eq = ap drop_last e ∙ drop_last-append dest.parts x xs;
      rooted_eq = u.rooted_eq;
      no_dots = drop_last-NoDots p.parts u.no_dots;
    }
