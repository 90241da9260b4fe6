-- ===== src/Remote/Ordered.antt =====
-- sender.go: the loop of `Pass` over its operations.
use cs_sync.Prelude.{
  Text, ◌≡◌, refl, inl, inr, true, false, List, [], ◌∷◌, ◌++◌, arith, Bool-cases, All, All-map,
}
use cs_sync.Guard.Retry.{skip}
use cs_sync.Model.{Tree}
use cs_sync.Os.{Error, Outcome, done, failed}
use cs_sync.Prelude.Strings.{has_prefix}
use cs_sync.Reconcile.Ops.{mkdir, Op}
use cs_sync.Remote.Batch.{is_blocked, Batch, after_op, one_op, send_batch}
use cs_sync.Remote.Link.{Net, Link}
use cs_sync.Remote.Sender.{send_op}

module _ (net : Net) (hash : Text → Text) (describe : Error → Text) where
  one_op-blocked :
      (tree : Tree) (op : Op) (b : Batch net hash describe)
      → is_blocked b.blocked op.path ≡ true
      → one_op net hash describe tree op b ≡ b
  unfolding one_op
  one_op-blocked tree op b h =
      elim (Bool-cases (skip (net.now b.sender.link.1) op.path b.sender.retry)) [
        | inl e ↦ rw e refl
        | inr e ↦ rw (e, h) refl
      ]

  one_op-tried :
      (tree : Tree) (op : Op) (b : Batch net hash describe)
      → skip (net.now b.sender.link.1) op.path b.sender.retry ≡ false
      → is_blocked b.blocked op.path ≡ false
      → one_op net hash describe tree op b
        ≡ after_op net hash describe op tree b
            (send_op net hash b.sender.same_os tree op b.sender.link)
  unfolding one_op
  one_op-tried tree op b due free = rw (due, free) refl

  -- Operations at blocked paths are passed over: nothing is sent, and nothing is recorded.
  send_batch-blocked :
      (tree : Tree) (ops : List Op) (b : Batch net hash describe)
      → All (λ op. is_blocked b.blocked op.path ≡ true) ops
      → send_batch net hash describe tree ops b ≡ b
  unfolding send_batch one_op
  send_batch-blocked tree [] b h = refl
  send_batch-blocked tree (op ∷ ops) b (h, hs) =
      rw (one_op-blocked tree op b h, send_batch-blocked tree ops b hs)
        (elim (Bool-cases b.broken) [ inl e ↦ rw e refl | inr e ↦ rw e refl ])

  after_op-blocks :
      (tree : Tree) (op : Op) (b : Batch net hash describe) (x : Outcome (Unit {0}) × Link net)
      (e : Error) (p : Text)
      → op.kind ≡ mkdir
      → x.0 ≡ failed e
      → has_prefix p (op.path ++ (47 ∷ [])) ≡ true
      → is_blocked (after_op net hash describe op tree b x).blocked p ≡ true
  unfolding after_op is_blocked
  after_op-blocks tree op b (done u, l) e p made broke below = absurd (ground (arith, broke))
  after_op-blocks tree op b (failed z, l) e p made broke below = rw (made, is_blocked, below) refl

  -- When a directory that was due could not be made, and all the later operations of the batch lie
  -- below it, none of them is sent or recorded: the batch ends as it was after the failure.
  pub send_batch-failed_mkdir :
      (tree : Tree) (op : Op) (ops : List Op) (b : Batch net hash describe) (e : Error)
      → op.kind ≡ mkdir
      → skip (net.now b.sender.link.1) op.path b.sender.retry ≡ false
      → is_blocked b.blocked op.path ≡ false
      → (send_op net hash b.sender.same_os tree op b.sender.link).0 ≡ failed e
      → All (λ child. has_prefix child.path (op.path ++ (47 ∷ [])) ≡ true) ops
      → send_batch net hash describe tree (op ∷ ops) b
        ≡ after_op net hash describe op tree b
            (send_op net hash b.sender.same_os tree op b.sender.link)
  unfolding send_batch one_op
  send_batch-failed_mkdir tree op ops b e made due clear_path broke below =
      let x = send_op net hash b.sender.same_os tree op b.sender.link in
      let b1 = after_op net hash describe op tree b x in
      let rest = send_batch-blocked tree ops b1 (
        All-map _ _ ops (λ child h. after_op-blocks tree op b x e child.path made broke h) below) in
      rw (one_op-tried tree op b due clear_path, rest)
        (elim (Bool-cases b1.broken) [ inl z ↦ rw z refl | inr z ↦ rw z refl ])
