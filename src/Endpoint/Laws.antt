-- ===== src/Endpoint/Laws.antt =====
-- What `Parse` accepts, and reading back what `HostPort` prints.
use cs_sync.Prelude.{
  eqt, Text, eqt_iff, ℕ, ◌≤◌, ◌≡◌, refl, ◌≢◌, inl, inr, true, false, Option, none, some, [], arith,
  Bool-cases,
}
use cs_sync.Endpoint.{
  Kind, local_path, cs_sync_host, rust_fs, Endpoint, Parsed, parsed, refused, is_local_form,
  is_host, port_of, split_port, finish, parse_host, parse_remote, parse,
}
use cs_sync.Prelude.Decimal.{Signed, plus, atoi}
use cs_sync.Prelude.Split.{has_byte, split_first, split_last, trim_space}

abbrev IsPort : ℕ → Type 0
IsPort n = (1 ≤ n) × (n ≤ 65535)

-- The fields that each kind of endpoint has.
abbrev pub HasFields : Kind → Endpoint → Type 0
HasFields local_path e = (e.path ≢ []) × (e.host ≡ []) × (e.bucket ≡ [])
HasFields cs_sync_host e =
    (is_host e.host ≡ true) × (1 ≤ e.port) × (e.port ≤ 65535) × (e.bucket ≡ [])
HasFields rust_fs e =
    (is_host e.host ≡ true)
    × (1 ≤ e.port)
    × (e.port ≤ 65535)
    × (e.bucket ≢ [])
    × (has_byte b'/' e.bucket ≡ false)

abbrev Accepts : Text → Parsed → Type 0
Accepts raw (refused x) = Unit
Accepts raw (parsed e) = (e.raw ≡ raw) × HasFields e.kind e

abbrev IsBucket : Option Text → Type 0
IsBucket none = Unit
IsBucket (some name) = (name ≢ []) × (has_byte b'/' name ≡ false)

finish-Accepts :
    (raw : Text) (bucket : Option Text) (host : Text) (port : ℕ)
    → port ≤ 65535
    → IsBucket bucket
    → Accepts raw (finish raw bucket host port)
unfolding finish
finish-Accepts raw none host port p b = elim (Bool-cases (is_host host)) [
  | inl e ↦ rw (e, finish) (refl, (e, ground arith, ground arith, refl))
  | inr e ↦ rw (e, finish) tt
]
finish-Accepts raw (some name) host port p b = elim (Bool-cases (is_host host)) [
  | inl e ↦ rw (e, finish) (refl, (e, ground arith, ground arith, b.0, b.1))
  | inr e ↦ rw (e, finish) tt
]

port_of-le : (o : Option Signed) {n : ℕ} → port_of o ≡ some n → n ≤ 65535
unfolding port_of
port_of-le (some (plus n)) h = ground arith
port_of-le _ h = cc

split_port-le :
    (s : Text) (host : Text) (port : ℕ) → split_port s ≡ some (host, port) → port ≤ 65535
unfolding split_port
split_port-le s host port h = go (split_last b':' s) refl
  where
    go : (o : Option (Text × Text)) → split_last b':' s ≡ o → port ≤ 65535
    go none e = ground (arith, e, h)
    go (some (l, r)) e = ground (arith, e, h, port_of-le (atoi r) {n = port})

parse_host-Accepts :
    (raw : Text) (bucket : Option Text) (s : Text)
    → IsBucket bucket
    → Accepts raw (parse_host raw bucket s)
unfolding parse_host
parse_host-Accepts raw bucket s b = go (split_port s) refl
  where
    go : (o : Option (Text × ℕ)) → split_port s ≡ o → Accepts raw (parse_host raw bucket s)
    go none e = rw (e, parse_host) tt
    go (some (host, port)) e =
        rw (e, parse_host) (finish-Accepts raw bucket host port (split_port-le s host port e) b)

parse_remote-Accepts : (raw spec : Text) → Accepts raw (parse_remote raw spec)
unfolding parse_remote
parse_remote-Accepts raw spec = go (split_first b'/' spec) refl
  where
    go :
        (o : Option (Text × Text)) → split_first b'/' spec ≡ o → Accepts raw (parse_remote raw spec)
    go none e = rw (e, parse_remote) (parse_host-Accepts raw none spec tt)
    go (some (l, r)) e = elim (Bool-cases (eqt r [])) [
      | inl h ↦ rw (e, parse_remote, h) tt
      | inr h ↦ elim (Bool-cases (has_byte b'/' r)) [
        | inl h' ↦ rw (e, parse_remote, h, h') tt
        | inr h' ↦
            rw (e, parse_remote, h, h')
              (parse_host-Accepts raw (some r) l
                ((λ (z : r ≡ []). ground (arith, (eqt_iff r []).1 z, h)), h'))
      ]
    ]

parse-Accepts : (raw : Text) → Accepts raw (parse raw)
unfolding parse
parse-Accepts raw = elim (Bool-cases (eqt (trim_space raw) [])) [
  | inl e ↦ rw (e, parse) tt
  | inr e ↦ elim (Bool-cases (is_local_form (trim_space raw))) [
    | inl e' ↦
        rw (e, parse, e')
          (
            refl,
            (
              (λ (z : trim_space raw ≡ []). ground (arith, (eqt_iff (trim_space raw) []).1 z, e)),
              refl,
              refl,
            ),
          )
    | inr e' ↦ rw (e, parse, e') (parse_remote-Accepts raw (trim_space raw))
  ]
]

-- An accepted endpoint keeps its spelling. A path is not empty; a host and a bucket endpoint have
-- a host of allowed bytes and a port from 1 to 65535, and exactly the latter has a bucket, which is
-- not empty and has no slash.
pub parse-HasFields :
    (raw : Text) (e : Endpoint) → parse raw ≡ parsed e → (e.raw ≡ raw) × HasFields e.kind e
parse-HasFields raw e h = rw h at (parse-Accepts raw)
