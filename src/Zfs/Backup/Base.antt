-- ===== src/Zfs/Backup/Base.antt =====
-- zfsnet.go: from which snapshot an incremental stream may start.
use mathlib.Core.Path.{subst}
use mathlib.Core.Bool.{◌||◌, ◌&&◌}
use mathlib.Core.List.{reverse, append_assoc, reverse-append, reverse-cons, reverse-reverse}
use cs_sync.Prelude.{
  eqt, Text, txt, ℕ, ◌≡◌, refl, sym, ap, ◌∙◌, ◌≢◌, inl, inr, Bool, true, false, not, Option, none,
  some, List, [], ◌∷◌, ◌++◌, arith, Bool-cases, All, All-append,
}
use cs_sync.Os.{Outcome, done, failed}
use cs_sync.Zfs.{Snap, find_slot}
use cs_sync.Zfs.Backup.{
  ZfsHello, ZfsPlan, plan_inc, has_guid, first_common, newest_guid, rotate_backup, plan_common,
  plan_base, plan_again, plan_rotated, plan_new, plan_listed, plan_backup,
}
use cs_sync.Zfs.Command.{
  Host, ZfsConfig, zfs_run, snap_name, list_snaps_of, destroy_named, is_approved,
}

-- A snapshot that the primary offers as confirmed and the backup holds.
abbrev pub is_common : List Snap → Text × Text → Bool
is_common bl (slot, guid) = not (eqt slot (txt "new")) && has_guid guid bl

-- `base` is the newest common snapshot of what is offered, the oldest first.
pub record IsNewestCommon (bl : List Snap) (offered : List (Text × Text)) (base : Text)
    : Type 0 where
  pub older : List (Text × Text)
  pub base_slot : Text
  pub newer : List (Text × Text)
  pub place_in : offered ≡ older ++ (base_slot, base) ∷ newer
  pub shared : is_common bl (base_slot, base) ≡ true
  pub latest : All (λ ref. is_common bl ref ≡ false) newer

base_of : ZfsPlan → Text
base_of (plan_inc base) = base
base_of _ = []

All-reverse :
    (bl : List Snap) (l : List (Text × Text))
    → All (λ ref. is_common bl ref ≡ false) l
    → All (λ ref. is_common bl ref ≡ false) (reverse l)
All-reverse bl [] h = tt
All-reverse bl (x ∷ l) (hx, h) =
    rw (reverse-cons x l) (All-append _ (reverse l) (x ∷ []) (All-reverse bl l h) (hx, tt))

first_common-split :
    (bl : List Snap) (refs : List (Text × Text)) (base : Text)
    → first_common bl refs ≡ some base
    → (newer : List (Text × Text)) × (slot : Text) × (older : List (Text × Text)) × (refs
        ≡ newer ++ (slot, base) ∷ older)
      × (is_common bl (slot, base) ≡ true)
      × All (λ ref. is_common bl ref ≡ false) newer
unfolding first_common
first_common-split bl [] base h = absurd (ground (arith, h))
first_common-split bl ((slot, guid) ∷ refs) base h = elim (Bool-cases (is_common bl (slot, guid))) [
  | inl e ↦ ([], slot, refs, ground (arith, e), ground (arith, e), tt)
  | inr e ↦
      let (newer, s, older, split, common, none_newer) =
        first_common-split bl refs base (ground (arith, e)) in
      ((slot, guid) ∷ newer, s, older, ap (◌∷◌ (slot, guid)) split, common, (e, none_newer))
]

first_common-IsNewestCommon :
    (bl : List Snap) (offered : List (Text × Text)) (base : Text)
    → first_common bl (reverse offered) ≡ some base
    → IsNewestCommon bl offered base
first_common-IsNewestCommon bl offered base h =
    let (newer, slot, older, split, common, none_newer) =
      first_common-split bl (reverse offered) base h in
    record {
      older = reverse older;
      base_slot = slot;
      newer = reverse newer;
      place_in =
          sym (reverse-reverse offered)
          ∙ ap reverse split
          ∙ reverse-append newer ((slot, base) ∷ older)
          ∙ rw (reverse-cons (slot, base) older, append_assoc) refl;
      shared = common;
      latest = All-reverse bl newer none_newer;
    }

module _ (h : Host) (month_day month_day_hour : ℕ → Text) (c : ZfsConfig) where
  open h use {World}

  -- What the answer `plan_inc base` says of the world it leaves.
  pub record IsLicensed (hello : ZfsHello) (base : Text) (w : World) : Type 0 where
    pub first : Snap
    pub others : List Snap
    pub listed : list_snaps_of h c c.backup_ds w ≡ done (first ∷ others)
    pub from_newest : IsNewestCommon (first ∷ others) hello.hello_snaps base
    pub released :
        (eqt base (newest_guid first others)
          || (c.rollback_auto || is_approved h c base (newest_guid first others) w))
        ≡ true

  plan_common-IsLicensed :
      (hello : ZfsHello) (b : Snap) (bl : List Snap) (found : Option Text) (base : Text)
      (w w' : World)
      → list_snaps_of h c c.backup_ds w ≡ done (b ∷ bl)
      → first_common (b ∷ bl) (reverse hello.hello_snaps) ≡ found
      → plan_common h month_day month_day_hour c b bl found w ≡ (plan_inc base, w')
      → IsLicensed hello base w'
  unfolding plan_common base_of
  plan_common-IsLicensed hello b bl none base w w' listed first e = absurd (ground (arith, e))
  plan_common-IsLicensed hello b bl (some g) base w w' listed first e =
      elim (Bool-cases (
        not (eqt g (newest_guid b bl))
        && (not c.rollback_auto && not (is_approved h c g (newest_guid b bl) w)))) [
          | inl blocked ↦ absurd (ground (arith, e, blocked))
          | inr open_to ↦
              let answer : (plan_inc g, w) ≡ (plan_inc base, w') = rw open_to at e in
              subst (λ (v : World). IsLicensed hello base v)
                (ap (λ (pw : ZfsPlan × World). pw.1) answer)
                (rw (← ap (λ (pw : ZfsPlan × World). base_of pw.0) answer) (record {
                  first = b;
                  others = bl;
                  listed = listed;
                  from_newest = first_common-IsNewestCommon (b ∷ bl) hello.hello_snaps g first;
                  released = ground (arith, open_to);
                }))
        ]

  plan_base-IsLicensed :
      (hello : ZfsHello) (bl : List Snap) (base : Text) (w w' : World)
      → list_snaps_of h c c.backup_ds w ≡ done bl
      → plan_base h month_day month_day_hour c hello bl w ≡ (plan_inc base, w')
      → IsLicensed hello base w'
  unfolding plan_base
  plan_base-IsLicensed hello [] base w w' listed e = absurd (ground (arith, e))
  plan_base-IsLicensed hello (b ∷ bl) base w w' listed e =
      plan_common-IsLicensed hello b bl (first_common (b ∷ bl) (reverse hello.hello_snaps)) base w
        w' listed refl e

  plan_again-IsLicensed :
      (hello : ZfsHello) (r : Outcome (Unit {0}) × World) (base : Text) (w' : World)
      → plan_again h month_day month_day_hour c hello r ≡ (plan_inc base, w')
      → IsLicensed hello base w'
  unfolding plan_again
  plan_again-IsLicensed hello (failed z, w) base w' e = absurd (ground (arith, e))
  plan_again-IsLicensed hello (done u, w) base w' e = go (list_snaps_of h c c.backup_ds w) refl
    where
      go :
          (o : Outcome (List Snap)) → list_snaps_of h c c.backup_ds w ≡ o → IsLicensed hello base w'
      go (failed z) eq = absurd (ground (arith, rw (eq, plan_again) at e))
      go (done bl) eq = plan_base-IsLicensed hello bl base w w' eq (rw (eq, plan_again) at e)

  plan_rotated-none :
      (r : Outcome (Unit {0}) × World) (base : Text) (w' : World)
      → plan_rotated h month_day month_day_hour c r ≢ (plan_inc base, w')
  unfolding plan_rotated
  plan_rotated-none (failed z, w) base w' e = absurd (ground (arith, e))
  plan_rotated-none (done u, w) base w' e = absurd (ground (arith, e))

  plan_new-IsLicensed :
      (hello : ZfsHello) (slot : Text) (bn : Snap) (base : Text) (w w' : World)
      → plan_new h month_day month_day_hour c hello slot bn w ≡ (plan_inc base, w')
      → IsLicensed hello base w'
  unfolding plan_new
  plan_new-IsLicensed hello slot bn base w w' e = elim (Bool-cases (eqt slot (txt "new"))) [
    | inl new ↦ absurd (plan_rotated-none _ base w' (rw new at e))
    | inr other ↦ elim (Bool-cases (eqt slot (txt "n0"))) [
      | inl n0 ↦
          plan_again-IsLicensed hello (rotate_backup h month_day month_day_hour c w) base w'
            (rw (other, n0) at e)
      | inr unknown ↦
          plan_again-IsLicensed hello
            (done tt, (destroy_named h c (snap_name h c c.backup_ds bn.slot) w).1) base w'
            (rw (other, unknown) at e)
    ]
  ]

  plan_listed-IsLicensed :
      (hello : ZfsHello) (base : Text) (w w' : World)
      → plan_listed h month_day month_day_hour c hello w ≡ (plan_inc base, w')
      → IsLicensed hello base w'
  unfolding plan_listed
  plan_listed-IsLicensed hello base w w' e = go (list_snaps_of h c c.backup_ds w) refl
    where
      found :
          (bl : List Snap) (o : Option Snap)
          → list_snaps_of h c c.backup_ds w ≡ done bl
          → find_slot (txt "new") bl ≡ o
          → IsLicensed hello base w'
      found bl none eq eo =
          plan_base-IsLicensed hello bl base w w' eq (rw (eq, plan_listed, eo) at e)
      found bl (some bn) eq eo =
          plan_new-IsLicensed hello _ bn base w w' (rw (eq, plan_listed, eo) at e)

      go :
          (o : Outcome (List Snap)) → list_snaps_of h c c.backup_ds w ≡ o → IsLicensed hello base w'
      go (failed z) eq = absurd (ground (arith, rw (eq, plan_listed) at e))
      go (done bl) eq = found bl (find_slot (txt "new") bl) eq refl

  -- The backup asks for an incremental stream only from the newest snapshot that the primary has
  -- confirmed and the backup still holds, and only where nothing newer on the backup is lost by it: the base is
  -- the backup's newest snapshot, or rollbacks are automatic, or the approval file names exactly this pair.
  pub plan_backup-IsLicensed :
      (hello : ZfsHello) (base : Text) (w w' : World)
      → plan_backup h month_day month_day_hour c hello w ≡ (plan_inc base, w')
      → IsLicensed hello base w'
  unfolding plan_backup
  plan_backup-IsLicensed hello base w w' e =
      let cleared = (zfs_run h (txt "recv" ∷ txt "-A" ∷ c.backup_ds ∷ []) w).1 in
      ground (
        arith,
        plan_listed-IsLicensed hello base w w',
        plan_listed-IsLicensed hello base cleared w',
      )
