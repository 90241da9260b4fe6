-- ===== src/Remote/Gated.antt =====
-- sender.go: the gates of `Pass` and the order of its batch.
use cs_sync.Prelude.{
  Text, ℕ, ◌≡◌, refl, ap, ◌∙◌, ◌≢◌, inl, inr, Bool, true, false, ◌&&◌, Option, none, some, List, [],
  ◌∷◌, arith, Bool-cases, is_none, is_none_lem,
}
use cs_sync.Guard.{
  Refusal, check_source, Budget, freeze_file, approve_file, writes_nothing, Disk, exists_on, frozen,
  remove_marker, consume_approval, pass_gate, freeze_unapproved, freeze_marks,
}
use cs_sync.Guard.Retry.{RetryState}
use cs_sync.Model.{Tree}
use cs_sync.Os.{Error, Outcome, done, failed}
use cs_sync.Prelude.Dict.{lookup}
use cs_sync.Reconcile.{reconcile}
use cs_sync.Reconcile.Ops.{Op}
use cs_sync.Remote.Batch.{Sender}
use cs_sync.Remote.Connect.{Config}
use cs_sync.Remote.Link.{Net, Link}
use cs_sync.Remote.Pass.{
  PassEnd, is_frozen, refused_source, not_connected, over_budget, nothing_to_do, ran, Request,
  run_ops, exceeds, pass_ops, pass_connected, pass_source, pass_gated, pass,
}

module _ (net : Net) (hash : Text → Text) (stamp : Text → Text) (describe : Error → Text)
    (body : ℕ → Text) (budget : Budget) (root : Text) where
  -- A pass of a frozen relationship that nobody approved changes nothing and sends nothing.
  pub pass-frozen :
      (cfg : Config) (rq : Request) (s : Sender (Link net))
      → lookup approve_file s.files ≡ none
      → frozen rq.disk s.files ≡ true
      → pass net hash stamp describe body budget root cfg rq s ≡ (s, is_frozen)
  unfolding pass pass_gated pass_gate consume_approval exists_on frozen
  pass-frozen cfg rq s unapproved cold = elim (Bool-cases (rq.disk.is_seen approve_file)) [
    | inl e ↦ rw (unapproved, e, cold) refl
    | inr e ↦ rw (unapproved, e, cold) refl
  ]

  -- What the sender knows of the remote side and its retries.
  abbrev Memory : Type 0
  Memory = Tree × RetryState

  abbrev memory : Sender (Link net) → Memory
  memory s = (s.known, s.retry)

  -- A pass that ended over its budget kept its memory, and froze the relationship.
  HasStopped : Disk → Sender (Link net) → Sender (Link net) × PassEnd → Type 0
  HasStopped d s (s', over_budget) =
      (memory s' ≡ memory s)
      × (exists_on d approve_file s'.files ≡ false)
      × (d.writing ≢ writes_nothing → is_none (lookup freeze_file s'.files) ≡ false)
  HasStopped d s (s', is_frozen) = memory s' ≡ memory s
  HasStopped d s (s', refused_source) = memory s' ≡ memory s
  HasStopped d s (s', not_connected) = memory s' ≡ memory s
  HasStopped d s (s', nothing_to_do) = memory s' ≡ memory s
  HasStopped d s (s', ran n m) = Unit

  run_ops-HasStopped :
      (cfg : Config) (rq : Request) (s : Sender (Link net)) (ops : List Op)
      → HasStopped rq.disk s (run_ops net hash stamp describe body budget root cfg rq s ops)
  unfolding run_ops HasStopped
  run_ops-HasStopped cfg rq s [] = elim (Bool-cases (s.same_os && rq.resync)) [
    | inl e ↦ rw e refl
    | inr e ↦ rw e refl
  ]
  run_ops-HasStopped cfg rq s (op ∷ ops) = tt

  pass_ops-HasStopped :
      (cfg : Config) (rq : Request) (a : Bool) (s : Sender (Link net))
      → (a ≡ false → exists_on rq.disk approve_file s.files ≡ false)
      → HasStopped rq.disk s (pass_ops net hash stamp describe body budget root cfg rq a s)
  unfolding pass_ops HasStopped exceeds
  pass_ops-HasStopped cfg rq a s absent =
      elim (Bool-cases (
        exceeds net hash stamp describe body budget root a s.known
          (reconcile stamp s.known rq.tree s.known).ops)) [
            | inl e ↦ rw e (
              refl,
              freeze_unapproved rq.disk _ s.files ∙ absent (unapproved e),
              freeze_marks rq.disk _ s.files,
            )
            | inr e ↦ rw e (run_ops-HasStopped cfg rq s _)
          ]
    where
      unapproved :
          exceeds net hash stamp describe body budget root a s.known
              (reconcile stamp s.known rq.tree s.known).ops
            ≡ true
          → a ≡ false
      unapproved e = ground (arith, e)

  connected-HasStopped :
      (cfg : Config) (rq : Request) (a : Bool) (s : Sender (Link net)) (x : Outcome Bool × Link net)
      → (a ≡ false → exists_on rq.disk approve_file s.files ≡ false)
      → HasStopped rq.disk s (pass_connected net hash stamp describe body budget root cfg rq a s x)
  unfolding pass_connected HasStopped
  connected-HasStopped cfg rq a s (failed e, l) absent = refl
  connected-HasStopped cfg rq a s (done b, l) absent =
      pass_ops-HasStopped cfg rq a (record s { link = l; same_os = b }) absent

  source-HasStopped :
      (cfg : Config) (rq : Request) (a : Bool) (s : Sender (Link net)) (x : ℕ × Option Refusal)
      → (a ≡ false → exists_on rq.disk approve_file s.files ≡ false)
      → HasStopped rq.disk s (pass_source net hash stamp describe body budget root cfg rq a s x)
  unfolding pass_source HasStopped
  source-HasStopped cfg rq a s (d, some r) absent = refl
  source-HasStopped cfg rq a s (d, none) absent =
      connected-HasStopped cfg rq a (record s { source = d }) _ absent

  pass-HasStopped :
      (cfg : Config) (rq : Request) (s : Sender (Link net))
      → HasStopped rq.disk s (pass net hash stamp describe body budget root cfg rq s)
  unfolding pass pass_gated pass_gate consume_approval HasStopped
  pass-HasStopped cfg rq s = elim (Bool-cases (exists_on rq.disk approve_file s.files)) [
    | inr e ↦ elim (Bool-cases (frozen rq.disk s.files)) [
      | inl cold ↦ rw (e, cold) refl
      | inr warm ↦
          rw (e, warm)
            (source-HasStopped cfg rq false s (check_source root (net.root_dev s.link.1) s.source)
              (λ z. e))
    ]
    | inl e ↦ rw e (
        source-HasStopped cfg rq true
          (record s {
            files = remove_marker rq.disk freeze_file (remove_marker rq.disk approve_file s.files);
          })
          (check_source root (net.root_dev s.link.1) s.source) (λ z. absurd (ground (arith, z))))
  ]

  -- Where the approval can be looked for and the freeze marker could at least be created, a pass that
  -- ends over its delete budget forgets nothing and records nothing, and every pass after it that finds
  -- the marker, with whatever tree and for whatever reason, stops at once and changes nothing.
  pub pass-over_budget :
      (cfg cfg' : Config) (rq rq' : Request) (s : Sender (Link net))
      → (pass net hash stamp describe body budget root cfg rq s).1 ≡ over_budget
      → rq.disk.is_seen approve_file ≡ true
      → rq.disk.writing ≢ writes_nothing
      → rq'.disk.is_seen freeze_file ≡ true
      → ((pass net hash stamp describe body budget root cfg rq s).0.known ≡ s.known)
        × ((pass net hash stamp describe body budget root cfg rq s).0.retry ≡ s.retry)
        × (pass net hash stamp describe body budget root cfg' rq'
              (pass net hash stamp describe body budget root cfg rq s).0
            ≡ ((pass net hash stamp describe body budget root cfg rq s).0, is_frozen))
  unfolding HasStopped exists_on frozen
  pass-over_budget cfg cfg' rq rq' s e looked wrote found =
      read (pass net hash stamp describe body budget root cfg rq s) (pass-HasStopped cfg rq s) e
    where
      read :
          (x : Sender (Link net) × PassEnd)
          → HasStopped rq.disk s x
          → x.1 ≡ over_budget
          → (x.0.known ≡ s.known)
            × (x.0.retry ≡ s.retry)
            × (pass net hash stamp describe body budget root cfg' rq' x.0 ≡ (x.0, is_frozen))
      read (s', over_budget) (m, unapproved, marked) e = (
        ap (λ z. z.0) m,
        ap (λ z. z.1) m,
        pass-frozen cfg' rq' s' (is_none_lem (ground (arith, unapproved, looked)))
            (ground (arith, marked wrote, found)),
      )
      read (s', is_frozen) h e = absurd (ground (arith, e))
      read (s', refused_source) h e = absurd (ground (arith, e))
      read (s', not_connected) h e = absurd (ground (arith, e))
      read (s', nothing_to_do) h e = absurd (ground (arith, e))
      read (s', ran n m) h e = absurd (ground (arith, e))
