-- ===== src/Remote/Pass.antt =====
-- sender.go: `Pass`, one remote reconcile pass, and `resyncFolderACLs`.
use cs_sync.Prelude.{
  eqt, Text, txt, ℕ, Bool, true, false, not, ◌&&◌, ◌||◌, Option, none, some, List, [], ◌∷◌,
  if◌then◌else◌, length, count_if, is_none,
}
use cs_sync.Guard.{
  Refusal, check_source, Budget, check_budget, Files, Disk, freeze, Gate, approved, stopped,
  open_gate, pass_gate,
}
use cs_sync.Model.{dir, type_eq, Tree}
use cs_sync.Os.{Error, Outcome, done, failed}
use cs_sync.Reconcile.{reconcile}
use cs_sync.Reconcile.Ops.{Op}
use cs_sync.Remote.Batch.{Sender, is_delete, send_order, send_batch}
use cs_sync.Remote.Connect.{Config, connect}
use cs_sync.Remote.Link.{Net, Link, roundtrip}
use cs_sync.Wire.{Incoming, folder_acl, acl_csv}

-- How a pass ends.
pub data PassEnd : Type 0 where
  is_frozen refused_source not_connected over_budget nothing_to_do : PassEnd
  ran : ℕ → ℕ → PassEnd

-- What a pass is called with, and what the file system does meanwhile; `resync` is for the reasons
-- "safety-net" and "sighup".
pub record Request : Type 0 where
  pub tree : Tree
  pub resync : Bool
  pub root_acl : Text
  pub acl_bytes : Text
  pub disk : Disk

-- `hash` is the hexadecimal SHA-256 sum, `stamp` the time in a conflict's name, `describe` an
-- error's text, `body` the freeze marker's text for a number of deletes, and `root` the source.
module _ (net : Net) (hash : Text → Text) (stamp : Text → Text) (describe : Error → Text)
    (body : ℕ → Text) (budget : Budget) (root : Text) where
  open net use {World}

  -- A roundtrip whose failure is only logged.
  push : Incoming → Link net → Link net
  unfolding roundtrip
  push f l = (roundtrip net f l).1

  -- `resyncFolderACLs` over the folders; the loop ends when the connection is gone.
  resync_folders : Text → Tree → Link net → Bool × Link net
  unfolding roundtrip
  resync_folders acl_type [] l = (true, l)
  resync_folders acl_type ((p, e) ∷ t) l =
      let l' =
        (roundtrip net
          (folder_acl (some (record { folder = p; folder_acl_type = acl_type; acl_text = e.acl })))
          l).1 in
      let here = resync_folders acl_type t l in
      let rest = resync_folders acl_type t l' in
      if not (type_eq e.type dir) || eqt e.acl [] then here else if l'.0 then rest else (false, l')

  resync_acls : Config → Request → Link net → Link net
  unfolding resync_folders push
  resync_acls cfg rq l =
      let (whole, l') = resync_folders cfg.acl_type rq.tree l in
      if whole && not (eqt rq.root_acl [])
      then push
          (folder_acl (
            some (record {
              folder = txt ".";
              folder_acl_type = cfg.acl_type;
              acl_text = rq.root_acl;
            })))
          l'
      else l'

  -- `acl.csv` and the ACL of the root, after the operations.
  push_acls : Config → Request → Bool → Link net → Link net
  unfolding push
  push_acls cfg rq same_os l =
      let l1 =
        if l.0 && not (eqt rq.acl_bytes []) then push (acl_csv (some rq.acl_bytes)) l else l in
      if (l1.0 && same_os) && not (eqt rq.root_acl [])
      then push
          (folder_acl (
            some (record {
              folder = txt ".";
              folder_acl_type = cfg.acl_type;
              acl_text = rq.root_acl;
            })))
          l1
      else l1

  -- The operations, or the resync when there are none.
  unfoldable pub run_ops :
      Config → Request → Sender (Link net) → List Op → Sender (Link net) × PassEnd
  unfolding send_order send_batch resync_acls push_acls
  run_ops cfg rq s [] = (
    (if s.same_os && rq.resync then record s { link = resync_acls cfg rq s.link } else s),
    nothing_to_do,
  )
  run_ops cfg rq s (op ∷ more) =
      let b =
        send_batch net hash describe rq.tree (send_order (op ∷ more))
          (record { sender = s; blocked = []; num_sent = 0; num_failed = 0; broken = false }) in
      let s' = b.sender in
      (record s' { link = push_acls cfg rq s'.same_os s'.link }, ran b.num_sent b.num_failed)

  -- Whether the budget refuses the operations, unless they are approved.
  unfoldable pub exceeds : Bool → Tree → List Op → Bool
  unfolding check_budget
  exceeds is_approved known ops =
      not (is_none (check_budget budget (count_if (λ op. is_delete op.kind) ops) (length known)))
      && not is_approved

  -- `Pass` once it is connected.
  unfoldable pub pass_ops :
      Config → Request → Bool → Sender (Link net) → Sender (Link net) × PassEnd
  unfolding exceeds freeze run_ops reconcile
  pass_ops cfg rq is_approved s =
      let ops = (reconcile stamp s.known rq.tree s.known).ops in
      if exceeds is_approved s.known ops
      then (
        record s {
          files = (freeze rq.disk (body (count_if (λ op. is_delete op.kind) ops)) s.files).1;
        },
        over_budget,
      )
      else run_ops cfg rq s ops

  unfoldable pub pass_connected :
      Config
      → Request
      → Bool
      → Sender (Link net)
      → Outcome Bool × Link net
      → Sender (Link net) × PassEnd
  unfolding pass_ops
  pass_connected cfg rq is_approved s (failed e, l) = (record s { link = l }, not_connected)
  pass_connected cfg rq is_approved s (done b, l) =
      pass_ops cfg rq is_approved (record s { link = l; same_os = b })

  unfoldable pub pass_source :
      Config → Request → Bool → Sender (Link net) → ℕ × Option Refusal → Sender (Link net) × PassEnd
  unfolding pass_connected connect
  pass_source cfg rq is_approved s (d, some r) = (record s { source = d }, refused_source)
  pass_source cfg rq is_approved s (d, none) =
      pass_connected cfg rq is_approved (record s { source = d }) (connect net cfg s.same_os s.link)

  unfoldable pub pass_gated :
      Config → Request → Sender (Link net) → Files × Gate → Sender (Link net) × PassEnd
  unfolding pass_source check_source
  pass_gated cfg rq s (fs, stopped) = (record s { files = fs }, is_frozen)
  pass_gated cfg rq s (fs, approved) =
      pass_source cfg rq true (record s { files = fs })
        (check_source root (net.root_dev s.link.1) s.source)
  pass_gated cfg rq s (fs, open_gate) =
      pass_source cfg rq false (record s { files = fs })
        (check_source root (net.root_dev s.link.1) s.source)

  -- `Pass`, whose saving of the state to disk is the state that it gives.
  unfoldable pub pass : Config → Request → Sender (Link net) → Sender (Link net) × PassEnd
  unfolding pass_gated pass_gate
  pass cfg rq s = pass_gated cfg rq s (pass_gate rq.disk s.files)
