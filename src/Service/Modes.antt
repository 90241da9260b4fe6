-- ===== src/Service/Modes.antt =====
-- The translation layer of `runCmd` in main.go: what the flags of a run make of the endpoints, and
-- every refusal of it. `filepath.Abs` is the parameter `abs`.
pub mod Aimed
use cs_sync.Prelude.{
  eqt, Text, txt, ℕ, ◌≡◌, refl, Bool, true, false, not, ◌&&◌, ◌||◌, Option, none, some, [],
  if◌then◌else◌, is_none,
}
use cs_sync.Endpoint.{
  Kind, local_path, cs_sync_host, rust_fs, Endpoint, ParseError, parsed, refused, parse, host_port,
  is_local,
}
use cs_sync.Prelude.Split.{split_first}

-- rustfs.Target (internal/rustfs/target.go)
pub record Target : Type 0 where
  pub target_host : Text
  pub target_port : ℕ
  pub target_bucket : Text
  pub access : Text
  pub secret : Text

-- The flags that name endpoints and their keys.
pub record Flags : Type 0 where
  pub mode_flag : Text
  pub primary_spec : Text
  pub secondary_spec : Text
  pub backup_spec : Text
  pub key_flag : Text
  pub primary_key : Text
  pub secondary_key : Text
  pub backup_key : Text
  pub storage_path : Text

-- The messages with which the command exits.
pub data UsageError : Type 0 where
  unknown_mode primary_required : UsageError
  bad_primary bad_secondary bad_backup : ParseError → UsageError
  sync_remote_primary sync_without_secondary sync_remote_bucket sync_host : UsageError
  sync_local_backup push_remote_primary push_with_secondary push_without_backup : UsageError
  pull_with_secondary pull_without_backup pull_remote_backup pull_from_host : UsageError
  key_required : UsageError
  credentials_required : Text → UsageError
  scan_without_secondary : UsageError

pub data Checked (A : Type 0) : Type 0 where
  accept : A → Checked A
  reject : UsageError → Checked A

infixl 5 ◌>>=◌ ◌>>◌
abbrev ◌>>=◌ : {A B : Type 0} → Checked A → (A → Checked B) → Checked B
accept a >>= f = f a
reject e >>= f = reject e

abbrev ◌>>◌ : {B : Type 0} → Checked (Unit {0}) → Checked B → Checked B
m >> n = m >>= λ _. n

-- An `if` that prints and exits.
abbrev exit_if : Bool → UsageError → Checked (Unit {0})
exit_if true e = reject e
exit_if false e = accept tt

-- Inversion of an accepted chain.
pub >>=-eq-accept :
    {A B : Type 0} (m : Checked A) (f : A → Checked B) {b : B}
    → (m >>= f) ≡ accept b
    → (a : A) × (m ≡ accept a) × (f a ≡ accept b)
>>=-eq-accept (accept a) f h = (a, refl, h)
>>=-eq-accept (reject e) f h = cc

pub >>-eq-accept :
    {B : Type 0} (test : Bool) (e : UsageError) (m : Checked B) {b : B}
    → (exit_if test e >> m) ≡ accept b
    → m ≡ accept b
>>-eq-accept true e m h = cc
>>-eq-accept false e m h = h

pub data Internal : Type 0 where
  bidir oneway : Internal

-- The one-way leg behind `haveSender`.
pub data Leg : Type 0 where
  no_leg : Leg
  wire_leg : Text → Text → Leg
  bucket_leg : Target → Leg

-- What the layer decides; `secondaryKind` is "rustfs" where there is a target.
pub record Roles : Type 0 where
  pub internal_mode : Internal
  pub from_secondary : Bool
  pub anchor : Text
  pub mirror : Text
  pub mirror_bucket : Option Target
  pub leg : Leg

unfoldable pub resolve_psk : Text → Text → Text
resolve_psk default_key override = if not (eqt override []) then override else default_key

-- `resolveRustFSTarget`
unfoldable pub resolve_target : Endpoint → Text → Text → Checked Target
unfolding split_first
resolve_target ep default_key override =
    let key = if eqt override [] then default_key else override in
    elim (split_first b':' key) [
      | none ↦ reject (credentials_required ep.raw)
      | some (user, password) ↦
          if eqt user [] || eqt password []
          then reject (credentials_required ep.raw)
          else accept (record {
            target_host = ep.host;
            target_port = ep.port;
            target_bucket = ep.bucket;
            access = user;
            secret = password;
          })
    ]

abbrev pub is_local_path : Kind → Bool
is_local_path local_path = true
is_local_path _ = false

abbrev is_host_kind : Kind → Bool
is_host_kind cs_sync_host = true
is_host_kind _ = false

-- An endpoint flag that may be left empty.
unfoldable pub parse_spec : (ParseError → UsageError) → Text → Checked (Option Endpoint)
parse_spec wrong spec =
    if eqt spec []
    then accept none
    else elim (parse spec) [ parsed ep ↦ accept (some ep) | refused e ↦ reject (wrong e) ]

unfoldable pub parse_primary : Text → Checked Endpoint
parse_primary spec = elim (parse spec) [
  | parsed ep ↦ accept ep
  | refused e ↦ reject (bad_primary e)
]

-- `haveSecondaryLeg`
unfoldable pub has_mirror : Roles → Bool
has_mirror r = not (eqt r.mirror []) || not (is_none r.mirror_bucket)

unfoldable pub is_mode : Text → Bool
is_mode m = eqt m (txt "sync") || (eqt m (txt "push") || eqt m (txt "pull"))

module _ (abs : Text → Text) (flags : Flags) where
  -- The sender's leg, once a mode has one. `applying` tells a run from a scan.
  unfoldable pub sender_leg : Bool → Option Endpoint → Checked Leg
  unfolding resolve_psk resolve_target host_port
  sender_leg applying none = accept no_leg
  sender_leg applying (some ep) = elim ep.kind [
    | local_path ↦ accept no_leg
    | cs_sync_host ↦
        let psk = resolve_psk flags.key_flag flags.backup_key in
        do exit_if (applying && eqt psk []) key_required; accept (wire_leg (host_port ep) psk)
    | rust_fs ↦ do
      target ← resolve_target ep flags.key_flag flags.backup_key
      accept (bucket_leg target)
  ]

  -- The secondary of sync mode: the path and the bucket of the mirror side.
  unfoldable pub sync_secondary : Endpoint → Checked (Text × Option Target)
  unfolding resolve_target is_local
  sync_secondary ep = elim ep.kind [
    | local_path ↦ accept (abs ep.path, none)
    | rust_fs ↦ do
      exit_if (not (is_local ep)) sync_remote_bucket
      target ← resolve_target ep flags.key_flag flags.secondary_key
      accept (if eqt flags.storage_path [] then [] else abs flags.storage_path, some target)
    | cs_sync_host ↦ reject sync_host
  ]

  unfoldable pub sync_roles : Bool → Endpoint → Option Endpoint → Option Endpoint → Checked Roles
  unfolding sync_secondary sender_leg
  sync_roles applying p none b = do
    exit_if (not (is_local_path p.kind)) sync_remote_primary
    reject sync_without_secondary
  sync_roles applying p (some s) b = do
    exit_if (not (is_local_path p.kind)) sync_remote_primary
    sides ← sync_secondary s
    exit_if (elim b [ none ↦ false | some ep ↦ is_local_path ep.kind ]) sync_local_backup
    to_backup ← sender_leg applying b
    accept (record {
      internal_mode = bidir;
      from_secondary = false;
      anchor = abs p.path;
      mirror = sides.0;
      mirror_bucket = sides.1;
      leg = to_backup;
    })

  unfoldable pub push_roles : Bool → Endpoint → Option Endpoint → Option Endpoint → Checked Roles
  unfolding sender_leg
  push_roles applying p s none = do
    exit_if (not (is_local_path p.kind)) push_remote_primary
    exit_if (not (is_none s)) push_with_secondary
    reject push_without_backup
  push_roles applying p s (some b) = do
    exit_if (not (is_local_path p.kind)) push_remote_primary
    exit_if (not (is_none s)) push_with_secondary
    to_backup ← sender_leg applying (some b)
    accept (record {
      internal_mode = (if is_local_path b.kind then oneway else bidir);
      from_secondary = false;
      anchor = abs p.path;
      mirror = (if is_local_path b.kind then abs b.path else []);
      mirror_bucket = none;
      leg = to_backup;
    })

  unfoldable pub pull_roles : Bool → Endpoint → Option Endpoint → Option Endpoint → Checked Roles
  unfolding resolve_target
  pull_roles applying p s none = do
    exit_if (not (is_none s)) pull_with_secondary
    reject pull_without_backup
  pull_roles applying p s (some b) = do
    exit_if (not (is_none s)) pull_with_secondary
    exit_if (not (is_local_path b.kind)) pull_remote_backup
    exit_if (is_host_kind p.kind) pull_from_host
    bucket ←
        (if is_local_path p.kind then accept none else (do
          target ← resolve_target p flags.key_flag flags.primary_key
          accept (some target)))
    accept (record {
      internal_mode = oneway;
      from_secondary = true;
      anchor = abs b.path;
      mirror = (if is_local_path p.kind then abs p.path else []);
      mirror_bucket = bucket;
      leg = no_leg;
    })

  unfoldable pub roles_of : Bool → Endpoint → Option Endpoint → Option Endpoint → Checked Roles
  unfolding sync_roles push_roles pull_roles
  roles_of applying p s b =
      if eqt flags.mode_flag (txt "sync")
      then sync_roles applying p s b
      else if eqt flags.mode_flag (txt "push")
      then push_roles applying p s b
      else pull_roles applying p s b

  -- From the parsed flags to the roles of the sides.
  unfoldable pub translate : Bool → Checked Roles
  unfolding parse_primary parse_spec roles_of has_mirror is_mode
  translate applying = do
    exit_if (not (is_mode flags.mode_flag)) unknown_mode
    exit_if (eqt flags.primary_spec []) primary_required
    p ← parse_primary flags.primary_spec
    s ← parse_spec bad_secondary flags.secondary_spec
    b ← parse_spec bad_backup flags.backup_spec
    roles ← roles_of applying p s b
    exit_if (not applying && not (has_mirror roles)) scan_without_secondary
    accept roles
