-- ===== src/Remote/Link.antt =====
-- sender.go: the connection to the receiver, its frames and their acks.
use cs_sync.Prelude.{
  Text, txt, ℕ, ◌≡◌, refl, Bool, true, false, Option, none, some, List, ◌++◌, arith, if◌then◌else◌,
}
use cs_sync.Os.{Error, errorf, Outcome, done, failed, Act}
use cs_sync.Wire.{Welcome, Incoming}

pub record Ack : Type 0 where
  pub ok : Bool
  pub err : Text

-- A frame that the receiver sends; `none` stands for a payload that `Decode` refuses.
pub data Reply : Type 0 where
  ack_reply : Option Ack → Reply
  welcome_reply : Option Welcome → Reply
  other_reply : ℕ → Reply

-- The network, the files of the source and the clock, over an unknown state of the world.
pub record Net : Type 1 where
  pub World : Type 0
  pub dial : World → Outcome (Unit {0}) × World
  pub send_frame : Incoming → World → Outcome (Unit {0}) × World
  pub send_welcome : Welcome → World → Outcome (Unit {0}) × World
  pub receive : World → Outcome Reply × World
  pub hang_up : World → World
  -- The size and the modification time of a file of the source.
  pub stat_source : Text → World → Outcome (ℕ × ℕ) × World
  -- The blocks that the full reads of an opened file give until the last one, and the error that
  -- ends them if it is not the end of the file.
  pub open_source : Text → World → Outcome (List Text × Option Error) × World
  pub now : World → ℕ
  -- `rootDev`: 0 where the system has no device numbers.
  pub root_dev : World → Option ℕ

module _ (net : Net) where
  open net use {World}

  -- Whether `s.conn` is set, and the world.
  abbrev pub Link : Type 0
  Link = Bool × World

  -- The connection is closed and forgotten.
  abbrev dropped : World → Link
  dropped w = (false, net.hang_up w)

  replied : Outcome Reply × World → Outcome (Unit {0}) × Link
  replied (failed e, w) = (failed e, dropped w)
  replied (done (ack_reply none), w) = (failed (errorf (txt "decode")), (true, w))
  replied (done (ack_reply (some a)), w) =
      if a.ok then (done tt, (true, w)) else (failed (errorf (txt "remote: " ++ a.err)), (true, w))
  replied (done (welcome_reply _), w) = (failed (errorf (txt "expected ack")), dropped w)
  replied (done (other_reply _), w) = (failed (errorf (txt "expected ack")), dropped w)

  sent : Outcome (Unit {0}) × World → Outcome (Unit {0}) × Link
  unfolding replied
  sent (failed e, w) = (failed e, dropped w)
  sent (done u, w) = replied (net.receive w)

  unfoldable pub roundtrip : Incoming → Act Link (Unit {0})
  unfolding sent
  roundtrip f (false, w) = (failed (errorf (txt "not connected")), (false, w))
  roundtrip f (true, w) = sent (net.send_frame f w)

  -- A call that leaves the connection alone.
  abbrev pub beside : {A : Type 0} → (World → Outcome A × World) → Act Link A
  beside f (c, w) = let (r, w') = f w in (r, (c, w'))

  -- An acknowledged frame means that there was a connection, and that it is still there.
  pub roundtrip_done :
      (f : Incoming) (l : Link)
      → (roundtrip f l).0 ≡ done tt
      → (l.0 ≡ true) × ((roundtrip f l).1.0 ≡ true)
  unfolding roundtrip
  roundtrip_done f (false, w) e = absurd (ground (arith, e))
  roundtrip_done f (true, w) e = (refl, go (net.send_frame f w) e)
    where
      acked : (x : Outcome Reply × World) → (replied x).0 ≡ done tt → (replied x).1.0 ≡ true
      acked (failed z, w) e = absurd (ground (arith, e))
      acked (done (ack_reply none), w) e = absurd (ground (arith, e))
      acked (done (ack_reply (some a)), w) e = ground (arith, e)
      acked (done (welcome_reply v), w) e = absurd (ground (arith, e))
      acked (done (other_reply v), w) e = absurd (ground (arith, e))

      go : (x : Outcome (Unit {0}) × World) → (sent x).0 ≡ done tt → (sent x).1.0 ≡ true
      go (failed z, w) e = absurd (ground (arith, e))
      go (done u, w) e = acked (net.receive w) e
