-- ===== src/Endpoint.antt =====
-- internal/endpoint/endpoint.go: the endpoint syntax.
pub mod Laws
pub mod Print
use mathlib.Core.Bool.{◌&&◌, ◌||◌}
use cs_sync.Prelude.{
  eqt, Text, txt, ℕ, ◌/◌, Bool, true, false, Option, none, some, [], ◌∷◌, ◌++◌, ltb, leb, ◌==◌,
  if◌then◌else◌,
}
use cs_sync.Prelude.Decimal.{is_digit, Signed, plus, atoi, decimal}
use cs_sync.Prelude.Split.{has_byte, split_first, split_last, trim_space}
use cs_sync.Prelude.Strings.{has_prefix}

pub data Kind : Type 0 where
  local_path cs_sync_host rust_fs : Kind

pub record Endpoint : Type 0 where
  pub kind : Kind
  pub raw : Text
  pub path : Text
  pub host : Text
  pub port : ℕ
  pub bucket : Text

pub data ParseError : Type 0 where
  empty_endpoint empty_bucket slash_in_bucket bad_port bad_host : ParseError

pub data Parsed : Type 0 where
  parsed : Endpoint → Parsed
  refused : ParseError → Parsed

unfoldable pub is_letter : ℕ → Bool
is_letter c = (leb b'A' c && leb c b'Z') || (leb b'a' c && leb c b'z')

unfoldable pub is_slash : ℕ → Bool
is_slash c = c == b'/' || c == 92

-- `winPathRe`, `strings.HasPrefix(spec, "/")` and `relPathRe`.
win_path : Text → Bool
unfolding is_letter is_slash
win_path (a ∷ b ∷ c ∷ s) = is_letter a && (b == b':' && is_slash c)
win_path _ = false

rel_path : Text → Bool
unfolding is_slash
rel_path (a ∷ b ∷ c ∷ s) = a == b'.' && (is_slash b || (b == b'.' && is_slash c))
rel_path (a ∷ b ∷ []) = a == b'.' && is_slash b
rel_path _ = false

unfoldable pub is_local_form : Text → Bool
unfolding win_path rel_path has_prefix
is_local_form s = win_path s || (has_prefix s (txt "/") || rel_path s)

-- `hostRe`
unfoldable pub is_host_byte : ℕ → Bool
unfolding is_letter
is_host_byte c = is_letter c || (is_digit c || (c == b'.' || c == b'-'))

unfoldable pub is_host : Text → Bool
unfolding is_host_byte
is_host [] = false
is_host (c ∷ []) = is_host_byte c
is_host (c ∷ d ∷ s) = let rest = is_host (d ∷ s) in if is_host_byte c then rest else false

-- The port that `Atoi` read, if it is in range.
unfoldable pub port_of : Option Signed → Option ℕ
port_of (some (plus n)) = if ltb 0 n && leb n 65535 then some n else none
port_of _ = none

-- `host[:port]`: the host, and port 0 where there is none; `none` for a bad port.
unfoldable pub split_port : Text → Option (Text × ℕ)
unfolding split_last port_of atoi
split_port hostport = elim (split_last b':' hostport) [
  | none ↦ some (hostport, 0)
  | some (host, port_text) ↦ elim (port_of (atoi port_text)) [
    | none ↦ none
    | some port ↦ some (host, port)
  ]
]

abbrev default_cs_sync_port : ℕ
default_cs_sync_port = 9010

abbrev default_rust_fs_port : ℕ
default_rust_fs_port = 9000

-- The last part of `Parse`: the host test and the default ports. `bucket` is `none` where the
-- source has `isRustFS` false.
unfoldable pub finish : Text → Option Text → Text → ℕ → Parsed
unfolding is_host
finish raw bucket host port =
    if is_host host
    then elim bucket [
      | none ↦ parsed (record {
        kind = cs_sync_host;
        raw = raw;
        path = [];
        host = host;
        port = (if port == 0 then default_cs_sync_port else port);
        bucket = [];
      })
      | some name ↦ parsed (record {
        kind = rust_fs;
        raw = raw;
        path = [];
        host = host;
        port = (if port == 0 then default_rust_fs_port else port);
        bucket = name;
      })
    ]
    else refused bad_host

unfoldable pub parse_host : Text → Option Text → Text → Parsed
unfolding split_port finish
parse_host raw bucket hostport = elim (split_port hostport) [
  | none ↦ refused bad_port
  | some (host, port) ↦ finish raw bucket host port
]

-- After the local forms: split off the bucket.
unfoldable pub parse_remote : Text → Text → Parsed
unfolding parse_host split_first has_byte
parse_remote raw spec = elim (split_first b'/' spec) [
  | none ↦ parse_host raw none spec
  | some (hostport, bucket) ↦
      if eqt bucket []
      then refused empty_bucket
      else if has_byte b'/' bucket
      then refused slash_in_bucket
      else parse_host raw (some bucket) hostport
]

unfoldable pub parse : Text → Parsed
unfolding parse_remote trim_space is_local_form
parse raw =
    let spec = trim_space raw in
    if eqt spec []
    then refused empty_endpoint
    else if is_local_form spec
    then parsed
        (record { kind = local_path; raw = raw; path = spec; host = []; port = 0; bucket = [] })
    else parse_remote raw spec

unfoldable pub host_port : Endpoint → Text
unfolding decimal
host_port e = e.host ++ (b':' ∷ decimal e.port)

is_remote : Kind → Bool
is_remote local_path = false
is_remote _ = true

-- `IsLocal`
unfoldable pub is_local : Endpoint → Bool
unfolding is_remote
is_local e = is_remote e.kind && (eqt e.host (txt "localhost") || eqt e.host (txt "127.0.0.1"))
