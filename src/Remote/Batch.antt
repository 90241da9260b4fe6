-- ===== src/Remote/Batch.antt =====
-- sender.go: the operations of a pass in the order in which they are sent, and the loop over them.
-- The fields of `Sender` that a pass changes, and the files of its state directory.
use cs_sync.Prelude.{
  Text, ℕ, ◌+◌, Bool, true, false, not, ◌||◌, List, [], ◌∷◌, ◌++◌, if◌then◌else◌, keep_if,
}
use cs_sync.Guard.{Files}
use cs_sync.Guard.Retry.{RetryState, fail, skip, clear}
use cs_sync.Model.{Tree}
use cs_sync.Os.{Error, Outcome, done, failed}
use cs_sync.Prelude.Strings.{ltt, has_prefix}
use cs_sync.Reconcile.Ops.{OpKind, mkdir, copy, delete, rmdir, rename, conflict_rename, Op}
use cs_sync.Remote.Baseline.{apply_to_baseline}
use cs_sync.Remote.Link.{Net, Link}
use cs_sync.Remote.Sender.{send_op}

pub record Sender (L : Type 0) : Type 0 where
  pub link : L
  pub same_os : Bool
  pub source : ℕ
  pub known : Tree
  pub retry : RetryState
  pub files : Files

abbrev pub is_delete : OpKind → Bool
is_delete delete = true
is_delete rmdir = true
is_delete _ = false

-- `sort.Slice` by path, ascending or descending.
insert_op : (Text → Text → Bool) → Op → List Op → List Op
insert_op before op [] = op ∷ []
insert_op before op (q ∷ qs) =
    let rest = insert_op before op qs in if before q.path op.path then q ∷ rest else op ∷ q ∷ qs

sort_ops : (Text → Text → Bool) → List Op → List Op
unfolding insert_op
sort_ops before [] = []
sort_ops before (op ∷ ops) = insert_op before op (sort_ops before ops)

-- Creates ascending, deletes descending.
unfoldable pub send_order : List Op → List Op
unfolding sort_ops ltt
send_order ops =
    sort_ops ltt (keep_if (λ op. not (is_delete op.kind)) ops)
    ++ sort_ops (λ p q. ltt q p) (keep_if (λ op. is_delete op.kind) ops)

unfoldable pub is_blocked : List Text → Text → Bool
unfolding has_prefix
is_blocked [] p = false
is_blocked (b ∷ bs) p = has_prefix p b || is_blocked bs p

-- `hash` is the hexadecimal SHA-256 sum, and `describe` an error's text.
module _ (net : Net) (hash : Text → Text) (describe : Error → Text) where
  open net use {World}

  -- The loop over the operations: the state, the blocked prefixes, the counts, and whether it broke.
  pub record Batch : Type 0 where
    pub sender : Sender (Link net)
    pub blocked : List Text
    pub num_sent : ℕ
    pub num_failed : ℕ
    pub broken : Bool

  unfoldable pub after_op : Op → Tree → Batch → Outcome (Unit {0}) × Link net → Batch
  unfolding fail clear apply_to_baseline
  after_op op tree b (failed e, l) =
      let s = b.sender in
      record b {
        sender = record s { link = l; retry = (fail (net.now l.1) op.path (describe e) s.retry).0 };
        blocked = elim op.kind [
          | mkdir ↦ (op.path ++ (47 ∷ [])) ∷ b.blocked
          | copy ↦ b.blocked
          | delete ↦ b.blocked
          | rmdir ↦ b.blocked
          | rename ↦ b.blocked
          | conflict_rename ↦ b.blocked
        ];
        num_failed = b.num_failed + 1;
        broken = not l.0;
      }
  after_op op tree b (done u, l) =
      let s = b.sender in
      record b {
        sender = record s {
          link = l;
          retry = clear op.path s.retry;
          known = apply_to_baseline op tree s.known;
        };
        num_sent = b.num_sent + 1;
      }

  unfoldable pub one_op : Tree → Op → Batch → Batch
  unfolding skip is_blocked send_op after_op
  one_op tree op b =
      if skip (net.now b.sender.link.1) op.path b.sender.retry || is_blocked b.blocked op.path
      then b
      else after_op op tree b (send_op net hash b.sender.same_os tree op b.sender.link)

  unfoldable pub send_batch : Tree → List Op → Batch → Batch
  unfolding one_op
  send_batch tree [] b = b
  send_batch tree (op ∷ ops) b =
      let b' = one_op tree op b in
      let rest = send_batch tree ops b' in if b'.broken then b' else rest
