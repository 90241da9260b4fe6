-- ===== src/Service.antt =====
-- main.go: the local pass from the scanned trees to the saved baseline, and the choice of the ACL
-- table that a start restores.
use mathlib.Core.Bool.{◌||◌, ◌&&◌}
pub mod Acls
pub mod Modes
use mathlib.Core.List.{reverse}
use mathlib.Core.Path.{ap₂}
use cs_sync.Prelude.{
  eqt, Text, ℕ, suc, ◌≡◌, refl, ap, inl, inr, Bool, true, false, not, List, [], ◌∷◌, arith, ◌==◌,
  if◌then◌else◌, Bool-cases, length, keep_if, All,
}
use cs_sync.Apply.{Rclone, Roots, apply}
use cs_sync.Apply.Copy.{place}
use cs_sync.Endpoint.{is_letter}
use cs_sync.Model.{dir, type_eq, Entry, Tree}
use cs_sync.Os.{Outcome, done, failed, Os, Act}
use cs_sync.Os.Paths.{clean}
use cs_sync.Prelude.Decimal.{is_digit}
use cs_sync.Reconcile.{reconcile}
use cs_sync.Reconcile.Ops.{Op}
use cs_sync.Remote.Batch.{is_delete}

-- `forceOneway`: the baseline becomes a copy of the mirror's tree.
unfoldable pub force_oneway : Bool → Tree → Tree → Tree
force_oneway pull primary_tree secondary_tree = if pull then primary_tree else secondary_tree

-- The two lists of `applyOrdered`, in the order in which they are applied.
creates_of : List Op → List Op
creates_of ops = keep_if (λ op. not (is_delete op.kind)) ops

deletes_of : List Op → List Op
deletes_of ops = reverse (keep_if (λ op. is_delete op.kind) ops)

-- The files of the packages internal/state and of the status, by the calls that a pass makes of them.
pub record StateFiles (W : Type 0) : Type 0 where
  pub write_last_file : Text → List Op → W → W
  pub save_state : Tree → Act W (Unit {0})
  pub write_acl_table : Tree → Text → Act W (Unit {0})
  pub mirror_acl_table : Act W (Unit {0})

-- How a pass is run; `resync` is for the reasons "safety-net" and "sighup".
pub record PassSettings : Type 0 where
  pub is_oneway : Bool
  pub pull : Bool
  pub resync : Bool
  pub root_acl : Text
  pub service : Text

module _ (os : Os) (rclone : Rclone os.World) (random : os.World → Text) (stamp : Text → Text) where
  open os use {World}

  -- `applyOrdered`: the errors of `Apply` go nowhere.
  apply_ordered : List Op → Roots → World → World
  unfolding creates_of deletes_of apply
  apply_ordered ops roots w =
      (apply os rclone random (deletes_of ops) roots
        (apply os rclone random (creates_of ops) roots w).1).1

  -- `syncExistingFolderACLs`; every failure is only logged.
  sync_folder_acls : Roots → Tree → World → World
  unfolding place
  sync_folder_acls roots [] w = w
  sync_folder_acls roots ((p, e) ∷ t) w =
      let dst = place roots.secondary_root p in
      let is_there : Bool = elim (os.stat dst w) [ done fi ↦ fi.is_dir | failed z ↦ false ] in
      let w' =
        if type_eq e.type dir && (not (eqt e.acl []) && is_there)
        then (os.apply_acl dst roots.roots_acl_type e.acl w).1
        else w in
      sync_folder_acls roots t w'

  -- `populateACL` of the folders: a folder whose ACL cannot be read keeps what it has.
  unfoldable populate_acl : Text → Text → World → Tree → Tree
  unfolding place
  populate_acl root acl_type w [] = []
  populate_acl root acl_type w ((p, e) ∷ t) =
      let rest = populate_acl root acl_type w t in
      let with_acl : Entry = elim (os.read_acl (place root p) acl_type w) [
        | done text ↦ record e { acl = text }
        | failed z ↦ e
      ] in
      if type_eq e.type dir then (p, with_acl) ∷ rest else (p, e) ∷ rest

  -- What `doPass` leaves beside the operations: the status line, the saved state, `acl.csv` and its
  -- copy, and the root's ACL on the secondary. Failures are only logged.
  finish_pass :
      StateFiles World → PassSettings → Roots → List Op → Tree → World → Outcome (Unit {0}) × World
  finish_pass files c roots ops b w =
      let w1 = if eqt c.service [] then w else files.write_last_file c.service ops w in
      let (saved, w2) = files.save_state b w1 in
      let w3 = (files.write_acl_table b c.root_acl w2).1 in
      let w4 = (files.mirror_acl_table w3).1 in
      let w5 = (os.apply_acl (clean roots.secondary_root) roots.roots_acl_type c.root_acl w4).1 in
      (saved, (if roots.is_rustfs then w3 else if eqt c.root_acl [] then w4 else w5))

  -- The baseline that the next pass loads: the one that was saved, or the one before.
  stands : Tree → Tree → Outcome (Unit {0}) × World → Tree × World
  stands before b (done u, w) = (b, w)
  stands before b (failed e, w) = (before, w)

  -- `doPass` with a secondary, from the resync of ACLs on: the baseline that stands afterwards. With no
  -- operations nothing is saved.
  unfoldable pub local_pass :
      StateFiles World → PassSettings → Roots → Tree → Tree → Tree → World → Tree × World
  unfolding force_oneway apply_ordered sync_folder_acls reconcile finish_pass stands
  local_pass files c roots loaded pr se w =
      let w1 = if c.resync && not roots.is_rustfs then sync_folder_acls roots pr w else w in
      let b = if c.is_oneway then force_oneway c.pull pr se else loaded in
      let res = reconcile stamp b pr se in
      elim res.ops [
        | [] ↦ (loaded, w1)
        | op ∷ more ↦ stands loaded res.new_baseline (
            finish_pass files c roots (op ∷ more) res.new_baseline
              (apply_ordered (op ∷ more) roots w1))
      ]

-- `sanitizeName`, rune by rune.
unfoldable pub is_safe : ℕ → Bool
unfolding is_letter
is_safe c = is_letter c || (is_digit c || (c == b'.' || (c == b'-' || c == b'_')))

safe_rune : ℕ → ℕ
unfolding is_safe
safe_rune c = if is_safe c then c else b'_'

unfoldable pub sanitize_name : Text → Text
unfolding safe_rune
sanitize_name [] = []
sanitize_name (c ∷ s) = safe_rune c ∷ sanitize_name s

underscore-IsSafe : is_safe b'_' ≡ true
unfolding is_safe is_digit
underscore-IsSafe = ground arith

safe_rune-safe : (c : ℕ) → is_safe (safe_rune c) ≡ true
unfolding safe_rune
safe_rune-safe c = elim (Bool-cases (is_safe c)) [
  | inl e ↦ rw (e, e) refl
  | inr e ↦ rw (e, underscore-IsSafe) refl
]

safe_rune-safe_rune : (c : ℕ) → safe_rune (safe_rune c) ≡ safe_rune c
unfolding safe_rune
safe_rune-safe_rune c = rw (safe_rune-safe c) refl

-- A name for a state directory has only letters, digits, dots, dashes and underscores, as many as
-- the address has characters, and is left alone by a second pass.
pub sanitize_name_lem :
    (s : Text)
    → All (λ c. is_safe c ≡ true) (sanitize_name s)
      × (length (sanitize_name s) ≡ length s)
      × (sanitize_name (sanitize_name s) ≡ sanitize_name s)
unfolding sanitize_name
sanitize_name_lem [] = (tt, refl, refl)
sanitize_name_lem (c ∷ s) =
    let (safe, size, again) = sanitize_name_lem s in
    ((safe_rune-safe c, safe), ap suc size, ap₂ ◌∷◌ (safe_rune-safe_rune c) again)
