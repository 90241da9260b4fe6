-- ===== src/Os.antt =====
-- What the program uses of the Go packages os and path/filepath (on Unix).
pub mod Paths
pub mod Keeps
use cs_sync.Prelude.{Text, ℕ, Bool, true, false}
use Paths.{FilePath}

-- An `error`: `os.IsNotExist` and `os.IsExist` tell the first two apart, and the program's own errors
-- carry a message.
pub data Error : Type 0 where
  not_exist already_exists other_error : Error
  errorf : Text → Error

unfoldable pub is_not_exist : Error → Bool
is_not_exist not_exist = true
is_not_exist _ = false

pub data Outcome (A : Type 0) : Type 0 where
  done : A → Outcome A
  failed : Error → Outcome A

-- The metadata that `os.Stat` gives.
pub record FileInfo : Type 0 where
  pub is_dir : Bool
  pub info_size : ℕ
  pub mod_time : ℕ
  pub perm : ℕ

-- The calls of the operating system over an unknown state of the world. Any call may fail.
pub record Os : Type 1 where
  pub World : Type 0
  pub mkdir_all : FilePath → ℕ → World → Outcome (Unit {0}) × World
  pub rename_file : FilePath → FilePath → World → Outcome (Unit {0}) × World
  pub remove : FilePath → World → Outcome (Unit {0}) × World
  pub remove_all : FilePath → World → Outcome (Unit {0}) × World
  pub make_symlink : Text → FilePath → World → Outcome (Unit {0}) × World
  pub read_link : FilePath → World → Outcome Text
  pub stat : FilePath → World → Outcome FileInfo
  pub create_temp : FilePath → World → Outcome FilePath × World
  pub open_temp : FilePath → ℕ → World → Outcome (Unit {0}) × World
  pub write_at : FilePath → Text → ℕ → World → Outcome (Unit {0}) × World
  pub write_file : FilePath → Text → World → Outcome (Unit {0}) × World
  pub read_file : FilePath → World → Outcome Text
  pub sync_file : FilePath → World → Outcome (Unit {0}) × World
  pub close_file : FilePath → World → Outcome (Unit {0}) × World
  pub chmod : FilePath → ℕ → World → Outcome (Unit {0}) × World
  pub chtimes : FilePath → ℕ → World → Outcome (Unit {0}) × World
  pub apply_acl : FilePath → Text → Text → World → Outcome (Unit {0}) × World
  pub read_acl : FilePath → Text → World → Outcome Text

-- Actions in sequence: the first failure ends the rest.
abbrev pub Act : Type 0 → Type 0 → Type 0
Act W A = W → Outcome A × W

abbrev pub and_then : {W A B : Type 0} → Outcome A → (A → Act W B) → Act W B
and_then (done a) f w = f a w
and_then (failed e) f w = (failed e, w)

infixl 5 ◌>>=◌ ◌>>◌
abbrev pub ◌>>=◌ : {W A B : Type 0} → Act W A → (A → Act W B) → Act W B
◌>>=◌ m f w = let (r, w') = m w in and_then r f w'

abbrev pub ◌>>◌ : {W A B : Type 0} → Act W A → Act W B → Act W B
m >> n = m >>= λ _. n

abbrev pub pure : {W A : Type 0} → A → Act W A
pure a w = (done a, w)

abbrev pub raise : {W A : Type 0} → Error → Act W A
raise e w = (failed e, w)

-- A call whose failure the source ignores.
abbrev pub attempt : {W A : Type 0} → Act W A → Act W (Outcome A)
attempt m w = let (r, w') = m w in (done r, w')

abbrev pub lift : {W A : Type 0} → Outcome A → Act W A
lift r w = (r, w)

abbrev pub reads : {W A : Type 0} → (W → Outcome A) → Act W A
reads f w = (f w, w)
