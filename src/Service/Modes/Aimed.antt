-- ===== src/Service/Modes/Aimed.antt =====
-- main.go: which directory a run with one direction writes to.
use cs_sync.Prelude.{
  eqt, Text, txt, ◌≡◌, refl, ◌∙◌, inl, inr, Bool, true, false, not, ◌&&◌, Option, none, some, [],
  arith, if◌then◌else◌, Bool-cases, All, All-map,
}
use cs_sync.Endpoint.{local_path, Endpoint, ParseError, parsed, parse, is_local}
use cs_sync.Model.{Tree}
use cs_sync.Reconcile.{reconcile}
use cs_sync.Reconcile.Oneway.{IsPush, reconcile-push, reconcile-pull}
use cs_sync.Reconcile.Ops.{Side, primary, secondary, Op}
use cs_sync.Service.{force_oneway}
use cs_sync.Service.Modes.{
  Flags, UsageError, unknown_mode, primary_required, bad_secondary, bad_backup,
  scan_without_secondary, accept, >>=-eq-accept, >>-eq-accept, bidir, oneway, no_leg, Roles,
  parse_spec, parse_primary, has_mirror, is_mode, sender_leg, sync_roles, push_roles, pull_roles,
  roles_of, translate,
}

-- The directory that an operation on a side writes to.
abbrev pub side_path : Roles → Side → Text
side_path r primary = r.anchor
side_path r secondary = r.mirror

-- The side that a run with one direction writes to.
abbrev pub target_side : Roles → Side
target_side r = if r.from_secondary then primary else secondary

module _ (abs : Text → Text) (flags : Flags) (applying : Bool) where
  -- What a run with one direction is set up for.
  abbrev IsAimed : Option Endpoint → Roles → Type 0
  IsAimed b r =
      (ep : Endpoint) × (b ≡ some ep)
      × (ep.kind ≡ local_path)
      × (side_path r (target_side r) ≡ abs ep.path)
      × (r.leg ≡ no_leg)

  sync_roles-bidir :
      (p : Endpoint) (s b : Option Endpoint) {r : Roles}
      → sync_roles abs flags applying p s b ≡ accept r
      → r.internal_mode ≡ bidir
  unfolding sync_roles
  sync_roles-bidir p none b h = ground arith
  sync_roles-bidir p (some s) b h = ground arith

  push_roles-IsAimed :
      (p : Endpoint) (s b : Option Endpoint) {r : Roles}
      → push_roles abs flags applying p s b ≡ accept r
      → r.internal_mode ≡ oneway
      → IsAimed b r
  unfolding push_roles sender_leg
  push_roles-IsAimed p s none h one = absurd (ground arith)
  push_roles-IsAimed p s (some b) h one = (b, refl, ground arith, ground arith, ground arith)

  pull_roles-IsAimed :
      (p : Endpoint) (s b : Option Endpoint) {r : Roles}
      → pull_roles abs flags applying p s b ≡ accept r
      → IsAimed b r
  unfolding pull_roles
  pull_roles-IsAimed p s none h = absurd (ground arith)
  pull_roles-IsAimed p s (some b) h = (b, refl, ground arith, ground arith, ground arith)

  parse_spec-some :
      (wrong : ParseError → UsageError) (spec : Text) {ep : Endpoint}
      → parse_spec wrong spec ≡ accept (some ep)
      → parse spec ≡ parsed ep
  unfolding parse_spec
  parse_spec-some wrong spec h = ground arith

  roles_of-IsAimed :
      (p : Endpoint) (s b : Option Endpoint) {r : Roles}
      → roles_of abs flags applying p s b ≡ accept r
      → r.internal_mode ≡ oneway
      → IsAimed b r
  unfolding roles_of
  roles_of-IsAimed p s b h one = elim (Bool-cases (eqt flags.mode_flag (txt "sync"))) [
    | inl e ↦ absurd (ground (arith, sync_roles-bidir p s b (rw e at h)))
    | inr e ↦ elim (Bool-cases (eqt flags.mode_flag (txt "push"))) [
      | inl e' ↦ push_roles-IsAimed p s b (rw (e, e') at h) one
      | inr e' ↦ pull_roles-IsAimed p s b (rw (e, e') at h)
    ]
  ]

  translate_parts :
      {r : Roles}
      → translate abs flags applying ≡ accept r
      → (p : Endpoint) × (s : Option Endpoint) × (b : Option Endpoint) × (parse_spec bad_backup
            flags.backup_spec
          ≡ accept b)
        × (roles_of abs flags applying p s b ≡ accept r)
  unfolding translate
  translate_parts h =
      let known = >>-eq-accept (not (is_mode flags.mode_flag)) unknown_mode _ h in
      let named = >>-eq-accept (eqt flags.primary_spec []) primary_required _ known in
      let (p, ep, h1) = >>=-eq-accept (parse_primary flags.primary_spec) _ named in
      let (s, es, h2) = >>=-eq-accept (parse_spec bad_secondary flags.secondary_spec) _ h1 in
      let (b, eb, h3) = >>=-eq-accept (parse_spec bad_backup flags.backup_spec) _ h2 in
      let (r', er, h4) = >>=-eq-accept (roles_of abs flags applying p s b) _ h3 in
      (
        p,
        s,
        b,
        eb,
        er ∙ >>-eq-accept (not applying && not (has_mirror r')) scan_without_secondary _ h4,
      )

  -- In a run with one direction, which is a push to a local path or a pull, every operation that the
  -- merge of whatever trees queues has as its destination the directory that the backup's endpoint
  -- names, and the run has no leg to another host. The ACLs and the ACL table that a pass writes beside
  -- its operations are not meant.
  pub translate-one_direction :
      (stamp : Text → Text) (pr se : Tree) {r : Roles}
      → translate abs flags applying ≡ accept r
      → r.internal_mode ≡ oneway
      → (ep : Endpoint) × (parse flags.backup_spec ≡ parsed ep)
        × (ep.kind ≡ local_path)
        × (r.leg ≡ no_leg)
        × All
            (λ (op : Op). side_path r op.dst ≡ abs ep.path)
            (reconcile stamp (force_oneway r.from_secondary pr se) pr se).ops
  translate-one_direction stamp pr se {r} h one =
      let (p, s, b, eb, hr) = translate_parts h in
      let (ep, is_b, is_local, path, silent) = roles_of-IsAimed p s b hr one in
      (
        ep,
        parse_spec-some bad_backup flags.backup_spec (rw is_b at eb),
        is_local,
        silent,
        All-map _ _ _ (λ (op : Op) (push : IsPush (target_side r) op). rw (push.at) path)
            (pass_is_aimed r.from_secondary),
      )
    where
      pass_is_aimed :
          (from : Bool)
          → All
              (IsPush (if from then primary else secondary))
              (reconcile stamp (force_oneway from pr se) pr se).ops
      pass_is_aimed true = unfold force_oneway in (reconcile-pull stamp pr se).all
      pass_is_aimed false = unfold force_oneway in (reconcile-push stamp se pr).all
