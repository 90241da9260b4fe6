-- ===== src/Remote/Verified.antt =====
-- receiver.go: `finishFile` and the hash of what was received.
use mathlib.Core.Bool.{◌||◌}
use cs_sync.Prelude.{
  eqt, Text, eqt_iff, ◌≡◌, refl, ap, ◌≢◌, ◌⊎◌, inl, inr, none, some, arith, ltb, Bool-cases, length,
}
use cs_sync.Os.{Outcome, done, failed, Os, and_then}
use cs_sync.Os.Paths.{FilePath}
use cs_sync.Remote.Receiver.{
  Transfer, ack, panic, Verdict, installed, hash_panic, install, finish_file, ended, end_file,
}

module _ (os : Os) (hash : Text → Text) (dest : FilePath) (acl_type : Text) where
  install-mismatch :
      (t : Transfer) (want : Text) (w : os.World)
      → hash t.hashed ≢ want
      → ((install os hash dest acl_type t want w).1 ≡ w)
        × ((install os hash dest acl_type t want w).0 ≢ done installed)
  unfolding install
  install-mismatch t want w apart = elim (Bool-cases (eqt (hash t.hashed) want)) [
    | inl e ↦ absurd (apart ((eqt_iff (hash t.hashed) want).0 e))
    | inr e ↦ elim (Bool-cases (ltb (length (hash t.hashed)) 12 || ltb (length want) 12)) [
      | inl b ↦ rw (e, b) (refl, λ z. ground (arith, z))
      | inr b ↦ rw (e, b) (refl, λ z. ground (arith, z))
    ]
  ]

  -- A transfer whose received bytes do not have the hash that the file's end names is never
  -- acknowledged as good, and nothing happens beyond syncing, closing and removing the temp file: no
  -- metadata is set and nothing is renamed onto the target. Unless the process panics, the transfer
  -- is open no longer; where it panics, the transfer is still open, to be closed and removed again
  -- when the connection ends.
  pub end_file-mismatch :
      (t : Transfer) (want : Text) (w : os.World)
      → hash t.hashed ≢ want
      → ((end_file os hash dest acl_type t want w).1
          ≡ (os.remove t.tmp (os.close_file t.tmp (os.sync_file t.tmp w).1).1).1)
        × (((end_file os hash dest acl_type t want w).0 ≡ (some t, panic))
            ⊎ ((end_file os hash dest acl_type t want w).0.0 ≡ none))
        × ((end_file os hash dest acl_type t want w).0.1 ≢ ack none)
  unfolding end_file finish_file ended
  end_file-mismatch t want w apart =
      go (os.sync_file t.tmp w).0 (os.close_file t.tmp (os.sync_file t.tmp w).1).0
    where
      w' : os.World
      w' = (os.close_file t.tmp (os.sync_file t.tmp w).1).1

      Claim : Outcome Verdict × os.World → Type 0
      Claim x =
          ((ended os hash dest acl_type t (x.0, (os.remove t.tmp x.1).1)).1
            ≡ (os.remove t.tmp w').1)
          × (((ended os hash dest acl_type t (x.0, (os.remove t.tmp x.1).1)).0 ≡ (some t, panic))
              ⊎ ((ended os hash dest acl_type t (x.0, (os.remove t.tmp x.1).1)).0.0 ≡ none))
          × ((ended os hash dest acl_type t (x.0, (os.remove t.tmp x.1).1)).0.1 ≢ ack none)

      judged : (x : Outcome Verdict × os.World) → x.1 ≡ w' → x.0 ≢ done installed → Claim x
      judged (failed e, w) same unlike =
          (ap (λ z. (os.remove t.tmp z).1) same, inr refl, λ z. ground (arith, z))
      judged (done installed, w) same unlike = absurd (unlike refl)
      judged (done hash_panic, w) same unlike =
          (ap (λ z. (os.remove t.tmp z).1) same, inl refl, λ z. ground (arith, z))

      go :
          (r q : Outcome (Unit {0}))
          → Claim (and_then r (λ a. and_then q (λ b. install os hash dest acl_type t want)) w')
      go (failed e) q = judged (failed e, w') refl (λ z. ground (arith, z))
      go (done a) (failed e) = judged (failed e, w') refl (λ z. ground (arith, z))
      go (done a) (done b) =
          let (same, unlike) = install-mismatch t want w' apart in
          judged (install os hash dest acl_type t want w') same unlike
