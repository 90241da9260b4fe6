-- ===== src/Examples/Parsing.antt =====
-- endpoint.go and wire.go at a host, a bucket and a short frame.
use cs_sync.Prelude.{eqt, Text, txt, ◌≡◌, refl, true, Option, none, some, [], ◌∷◌, ◌++◌, arith}
use cs_sync.Endpoint.{
  local_path, cs_sync_host, Endpoint, parsed, is_letter, is_local_form, is_host_byte, is_host,
  parse, host_port,
}
use cs_sync.Endpoint.Laws.{HasFields, parse-HasFields}
use cs_sync.Endpoint.Print.{parse-host_port}
use cs_sync.Prelude.Decimal.{is_digit}
use cs_sync.Prelude.Split.{trim_space}
use cs_sync.Prelude.Strings.{has_prefix}
use cs_sync.Wire.Frame.{Cipher, seal, payload_for, send, received, recv, recv-send}

abbrev nas : Text
nas = txt "nas-1"

abbrev nas_host : Endpoint
nas_host = record { kind = cs_sync_host; raw = []; path = []; host = nas; port = 9010; bucket = [] }

nas-is_host : is_host nas ≡ true
unfolding is_host is_host_byte is_letter is_digit
nas-is_host = refl

parse-host_port_example :
    parse (host_port nas_host) ≡ parsed (record nas_host { raw = host_port nas_host })
parse-host_port_example = parse-host_port nas 9010 nas-is_host (omega arith) (omega arith) [] []

abbrev unmark : Text → Option Text
unmark [] = none
unmark (c ∷ s) = some s

-- A cipher that puts a byte in front, for which the nonce is not used.
abbrev marking : Cipher
marking = record {
  nonce_size = 2;
  seal_box = λ nonce plain ad. 1 ∷ plain;
  open_box = λ nonce box ad. unmark box;
}

recv-send_example :
    recv (some marking) (send (some marking) (8 ∷ 9 ∷ []) 3 (txt "hi") ++ txt "rest")
    ≡ received 3 (txt "hi") (txt "rest")
unfolding payload_for seal
recv-send_example =
    recv-send (some marking) (8 ∷ 9 ∷ []) 3 (txt "hi") (txt "rest")
      (record { open-seal = λ nonce plain ad size. refl }, refl) (omega arith)

parses_path :
    parse (txt "/tank")
    ≡ parsed (record {
      kind = local_path;
      raw = txt "/tank";
      path = txt "/tank";
      host = [];
      port = 0;
      bucket = [];
    })
unfolding parse is_local_form trim_space has_prefix eqt
parses_path = refl

parse-HasFields_example :
    (txt "/tank" ≡ txt "/tank")
    × HasFields local_path (record {
      kind = local_path;
      raw = txt "/tank";
      path = txt "/tank";
      host = [];
      port = 0;
      bucket = [];
    })
parse-HasFields_example =
    parse-HasFields (txt "/tank")
      (record {
        kind = local_path;
        raw = txt "/tank";
        path = txt "/tank";
        host = [];
        port = 0;
        bucket = [];
      })
      parses_path
