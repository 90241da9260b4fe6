-- ===== src/Remote/Connect.antt =====
-- sender.go: `connect`; receiver.go: the checks of `Serve` and of the handshake in `handle`.
use mathlib.Core.Bool.{◌||◌, ◌&&◌}
use cs_sync.Prelude.{
  eqt, Text, txt, ◌≡◌, refl, inl, inr, Bool, true, false, not, Option, none, some, [], ◌++◌, arith,
  ◌==◌, if◌then◌else◌, Bool-cases,
}
use cs_sync.Os.{Error, errorf, Outcome, done, failed}
use cs_sync.Remote.Link.{
  Reply, ack_reply, welcome_reply, other_reply, Net, Link, roundtrip, roundtrip_done,
}
use cs_sync.Wire.{Welcome, proto_version_here, ping, loop_marker}

-- The fields of `Sender` that stay as they are.
pub record Config : Type 0 where
  pub version : Text
  pub transfer_key : Text
  pub acl_type : Text
  pub goos : Text
  pub own_id : Text
  pub loop_stamp : Text

-- The source's address is checked before a byte is exchanged; `none` is an address that cannot be
-- split.
unfoldable admits : Text → Option Text → Bool
admits allow_ip none = eqt allow_ip []
admits allow_ip (some host) = eqt allow_ip [] || eqt host allow_ip

-- The receiver's answer to the sender's hello: the error of the ack.
unfoldable pub judge_hello : Text → Welcome → Option Text
judge_hello transfer_key hello =
    if not (hello.proto_version == proto_version_here)
    then some (txt "protocol version mismatch")
    else if not (eqt transfer_key []) && not (eqt hello.key transfer_key)
    then some (txt "transfer key mismatch")
    else none

unfoldable pub hello_of : Config → Welcome
hello_of cfg = record {
  proto_version = proto_version_here;
  sync_version = cfg.version;
  os_name = cfg.goos;
  welcome_acl_type = cfg.acl_type;
  key = cfg.transfer_key;
}

module _ (net : Net) where
  open net use {World}

  -- A failure before `s.conn` is set closes what was dialled.
  refuse : Error → World → Outcome Bool × Link net
  refuse e w = (failed e, (false, net.hang_up w))

  -- The accept ack, and the loop marker whose failure is only logged. Gives `s.sameOS`.
  accepted : Config → Welcome → Outcome Reply × World → Outcome Bool × Link net
  unfolding refuse
  accepted cfg peer (failed e, w) = refuse e w
  accepted cfg peer (done (ack_reply none), w) = refuse (errorf (txt "decode")) w
  accepted cfg peer (done (ack_reply (some a)), w) =
      if not a.ok then refuse (errorf (txt "REFUSED by receiver: " ++ a.err)) w else (
        done (eqt peer.os_name cfg.goos && eqt peer.welcome_acl_type cfg.acl_type),
        (
          true,
          if eqt cfg.own_id []
              then w
              else (net.send_frame
                  (loop_marker (some (record { service_id = cfg.own_id; stamp = cfg.loop_stamp })))
                  w).1,
        ),
      )
  accepted cfg peer (done (welcome_reply _), w) = refuse (errorf (txt "expected accept-ack")) w
  accepted cfg peer (done (other_reply _), w) = refuse (errorf (txt "expected accept-ack")) w

  greeted : Config → Welcome → Outcome (Unit {0}) × World → Outcome Bool × Link net
  unfolding refuse accepted
  greeted cfg peer (failed e, w) = refuse e w
  greeted cfg peer (done u, w) = accepted cfg peer (net.receive w)

  welcomed : Config → Outcome Reply × World → Outcome Bool × Link net
  unfolding refuse greeted hello_of
  welcomed cfg (failed e, w) = refuse e w
  welcomed cfg (done (welcome_reply none), w) = refuse (errorf (txt "decode")) w
  welcomed cfg (done (welcome_reply (some peer)), w) =
      if not (peer.proto_version == proto_version_here)
      then refuse (errorf (txt "REFUSING: protocol version mismatch")) w
      else greeted cfg peer (net.send_welcome (hello_of cfg) w)
  welcomed cfg (done (ack_reply _), w) = refuse (errorf (txt "handshake")) w
  welcomed cfg (done (other_reply _), w) = refuse (errorf (txt "handshake")) w

  dialled : Config → Outcome (Unit {0}) × World → Outcome Bool × Link net
  unfolding welcomed
  dialled cfg (failed e, w) = (failed e, (false, w))
  dialled cfg (done u, w) = welcomed cfg (net.receive w)

  -- After the liveness probe of a connection that was there: a live one is kept with the old
  -- `sameOS`, and one that answers with an error is closed.
  probed : Config → Bool → Outcome (Unit {0}) × Link net → Outcome Bool × Link net
  unfolding dialled
  probed cfg same_os (done u, l) = (done same_os, l)
  probed cfg same_os (failed e, (c, w)) =
      let w' = if c then net.hang_up w else w in dialled cfg (net.dial w')

  -- `connect` with a cs-sync host as the target.
  unfoldable pub connect : Config → Bool → Link net → Outcome Bool × Link net
  unfolding probed dialled roundtrip
  connect cfg same_os (true, w) = probed cfg same_os (roundtrip net ping (true, w))
  connect cfg same_os (false, w) = dialled cfg (net.dial w)

  -- Whether there is a connection is what the outcome says.
  Agrees : Outcome Bool × Link net → Type 0
  Agrees (done b, (c, w)) = c ≡ true
  Agrees (failed e, (c, w)) = c ≡ false

  dialled-Agrees : (cfg : Config) (x : Outcome (Unit {0}) × World) → Agrees (dialled cfg x)
  unfolding dialled welcomed greeted accepted refuse Agrees
  dialled-Agrees cfg (failed e, w) = refl
  dialled-Agrees cfg (done u, w) = welcome (net.receive w)
    where
      accept : (peer : Welcome) (x : Outcome Reply × World) → Agrees (accepted cfg peer x)
      accept peer (failed e, w) = refl
      accept peer (done (ack_reply none), w) = refl
      accept peer (done (ack_reply (some a)), w) = elim (Bool-cases a.ok) [
        | inl e ↦ rw e refl
        | inr e ↦ rw e refl
      ]
      accept peer (done (welcome_reply v), w) = refl
      accept peer (done (other_reply v), w) = refl

      greet : (peer : Welcome) (x : Outcome (Unit {0}) × World) → Agrees (greeted cfg peer x)
      greet peer (failed e, w) = refl
      greet peer (done v, w) = accept peer (net.receive w)

      welcome : (x : Outcome Reply × World) → Agrees (welcomed cfg x)
      welcome (failed e, w) = refl
      welcome (done (welcome_reply none), w) = refl
      welcome (done (welcome_reply (some peer)), w) =
          elim (Bool-cases (peer.proto_version == proto_version_here)) [
            | inl e ↦ rw e (greet peer (net.send_welcome (hello_of cfg) w))
            | inr e ↦ rw e refl
          ]
      welcome (done (ack_reply v), w) = refl
      welcome (done (other_reply v), w) = refl

  read_off :
      (x : Outcome Bool × Link net)
      → Agrees x
      → ((b : Bool) → x.0 ≡ done b → x.1.0 ≡ true) × ((e : Error) → x.0 ≡ failed e → x.1.0 ≡ false)
  unfolding Agrees
  read_off (done b, (c, w)) h = (λ b e. h, λ e z. absurd (ground (arith, z)))
  read_off (failed e, (c, w)) h = (λ b z. absurd (ground (arith, z)), λ e z. h)

  probed-Agrees :
      (cfg : Config) (same_os : Bool) (x : Outcome (Unit {0}) × Link net)
      → (x.0 ≡ done tt → x.1.0 ≡ true)
      → Agrees (probed cfg same_os x)
  unfolding probed Agrees
  probed-Agrees cfg same_os (done u, l) h = h refl
  probed-Agrees cfg same_os (failed e, (c, w)) h = dialled-Agrees cfg (net.dial _)

  -- `connect` returns without an error exactly when the sender has a connection afterwards.
  pub connect_lem :
      (cfg : Config) (same_os : Bool) (l : Link net)
      → ((b : Bool) → (connect cfg same_os l).0 ≡ done b → (connect cfg same_os l).1.0 ≡ true)
        × ((e : Error) → (connect cfg same_os l).0 ≡ failed e → (connect cfg same_os l).1.0 ≡ false)
  unfolding connect
  connect_lem cfg same_os (false, w) = read_off _ (dialled-Agrees cfg (net.dial w))
  connect_lem cfg same_os (true, w) = read_off _ (
      probed-Agrees cfg same_os (roundtrip net ping (true, w))
        (λ e. (roundtrip_done net ping (true, w) e).1))
