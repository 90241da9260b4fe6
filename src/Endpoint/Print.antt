-- ===== src/Endpoint/Print.antt =====
-- Reading back what `HostPort` prints, with and without a bucket.
use mathlib.Core.List.{append-nil}
use cs_sync.Prelude.{
  eqt, Text, eqt_iff, ℕ, ◌≤◌, ◌≡◌, refl, ◌≢◌, true, false, some, [], ◌∷◌, ◌++◌, arith, ◌==◌, All,
  All-append, All-map,
}
use cs_sync.Endpoint.{
  cs_sync_host, rust_fs, Endpoint, parsed, is_letter, is_slash, is_local_form, is_host_byte,
  is_host, port_of, split_port, finish, parse_host, parse_remote, parse, host_port,
}
use cs_sync.Prelude.Decimal.{is_digit, decimal, decimal-IsDigits, atoi-decimal, decimal-ne-nil}
use cs_sync.Prelude.Split.{
  has_byte, is_space, trim_space, split_first-none, split_first-append, split_last-append,
  trim_space_of,
}

-- A byte of a host or a port: no white space, separator or slash.
abbrev IsPlain : ℕ → Type 0
IsPlain c = (is_space c ≡ false) × (is_slash c ≡ false) × ((c == b'/') ≡ false)

is_host_byte-IsPlain : (c : ℕ) → is_host_byte c ≡ true → IsPlain c × ((c == b':') ≡ false)
unfolding is_host_byte is_letter is_digit is_space is_slash
is_host_byte-IsPlain c h = ((ground arith, ground arith, ground arith), ground arith)

is_digit-IsPlain : (c : ℕ) → is_digit c ≡ true → IsPlain c × ((c == b':') ≡ false)
unfolding is_digit is_space is_slash
is_digit-IsPlain c h = ((ground arith, ground arith, ground arith), ground arith)

is_host-All : (s : Text) → is_host s ≡ true → All (λ c. is_host_byte c ≡ true) s
unfolding is_host
is_host-All [] h = cc
is_host-All (c ∷ []) h = (h, tt)
is_host-All (c ∷ d ∷ s) h = (ground arith, is_host-All (d ∷ s) (ground arith))

has_byte-none : (c : ℕ) (s : Text) → All (λ d. (d == c) ≡ false) s → has_byte c s ≡ false
unfolding has_byte
has_byte-none c [] h = refl
has_byte-none c (d ∷ s) (hd, h) = rw (hd, has_byte-none c s h)

-- No local form has three bytes at the start that are no slashes.
not-local_form :
    (a b c : ℕ) (s : Text)
    → is_slash a ≡ false
    → is_slash b ≡ false
    → is_slash c ≡ false
    → is_local_form (a ∷ b ∷ c ∷ s) ≡ false
unfolding is_local_form
not-local_form a b c s ha hb hc = ground (arith, slash a ha)
  where
    slash : (a : ℕ) → is_slash a ≡ false → (a == b'/') ≡ false
    slash a h = unfold is_slash in ground arith

module _ (host : Text) (port : ℕ) (valid : is_host host ≡ true) (pos : 1 ≤ port)
    (small : port ≤ 65535) where
  address : Text
  address = host ++ (b':' ∷ decimal port)

  host_bytes : All (λ c. IsPlain c × ((c == b':') ≡ false)) host
  host_bytes = All-map _ _ host is_host_byte-IsPlain (is_host-All host valid)

  port_bytes : All (λ c. IsPlain c × ((c == b':') ≡ false)) (decimal port)
  port_bytes = All-map _ _ (decimal port) is_digit-IsPlain (decimal-IsDigits port)

  address-IsPlain : All IsPlain address
  unfolding address
  address-IsPlain = All-append IsPlain host _ (All-map _ _ host (λ c h. h.0) host_bytes) (
    unfold is_space is_slash in (refl, refl, refl),
    All-map _ _ (decimal port) (λ c h. h.0) port_bytes,
  )

  split_port-address : split_port address ≡ some (host, port)
  unfolding split_port address port_of
  split_port-address =
      let a =
        split_last-append b':' host (decimal port) (
          has_byte-none b':' (decimal port) (All-map _ _ (decimal port) (λ c h. h.1) port_bytes)) in
      ground (arith, a, atoi-decimal port (omega arith))

  address-is_local_form : (rest : Text) → is_local_form (address ++ rest) ≡ false
  unfolding address
  address-is_local_form rest =
      go host (decimal port) host_bytes port_bytes valid (decimal-ne-nil port)
    where
      go :
          (h p : Text)
          → All (λ c. IsPlain c × ((c == b':') ≡ false)) h
          → All (λ c. IsPlain c × ((c == b':') ≡ false)) p
          → is_host h ≡ true
          → p ≢ []
          → is_local_form ((h ++ (b':' ∷ p)) ++ rest) ≡ false
      go [] p hb pb v n = unfold is_host in cc
      go h [] hb pb v n = absurd (n refl)
      go (a ∷ []) (c ∷ p) hb pb v n =
          not-local_form a b':' c (p ++ rest) hb.0.0.1 (unfold is_slash in refl) pb.0.0.1
      go (a ∷ b ∷ []) (c ∷ p) hb pb v n =
          not-local_form a b b':' _ hb.0.0.1 hb.1.0.0.1 (unfold is_slash in refl)
      go (a ∷ b ∷ c ∷ h) p hb pb v n = not-local_form a b c _ hb.0.0.1 hb.1.0.0.1 hb.1.1.0.0.1

  address-ne-nil : (rest : Text) → eqt (address ++ rest) [] ≡ false
  unfolding address eqt
  address-ne-nil rest = go host
    where
      go : (h : Text) → eqt ((h ++ (b':' ∷ decimal port)) ++ rest) [] ≡ false
      go [] = refl
      go (c ∷ h) = refl

  address-no_slash : has_byte b'/' address ≡ false
  address-no_slash = has_byte-none b'/' address (All-map _ _ address (λ c h. h.2) address-IsPlain)

  -- The address that `HostPort` prints of a valid host and a port from 1 to 65535 is read back as
  -- the cs-sync host with that host and port.
  pub parse-host_port :
      (raw : Text) (bucket : Text)
      → let e : Endpoint = record {
        kind = cs_sync_host;
        raw = raw;
        path = [];
        host = host;
        port = port;
        bucket = bucket;
      } in
        parse (host_port e)
        ≡ parsed (record {
          kind = cs_sync_host;
          raw = host_port e;
          path = [];
          host = host;
          port = port;
          bucket = [];
        })
  unfolding parse host_port parse_remote parse_host finish address
  parse-host_port raw bucket =
      let spaces = trim_space_of address (All-map _ _ address (λ c h. h.0) address-IsPlain) in
      let form = rw append-nil at (address-is_local_form []) in
      let full = rw append-nil at (address-ne-nil []) in
      ground (
        arith,
        spaces,
        form,
        full,
        split_first-none b'/' address address-no_slash,
        split_port-address,
        valid,
      )

  -- The same address of a valid host and port with a slash and a bucket name is read back as that
  -- bucket, for a name that is not empty and has neither a slash nor white space.
  pub parse-host_port_bucket :
      (raw name : Text)
      → name ≢ []
      → has_byte b'/' name ≡ false
      → All (λ c. is_space c ≡ false) name
      → let e : Endpoint = record {
        kind = rust_fs;
        raw = raw;
        path = [];
        host = host;
        port = port;
        bucket = name;
      } in
        parse (host_port e ++ (b'/' ∷ name))
        ≡ parsed (record {
          kind = rust_fs;
          raw = host_port e ++ (b'/' ∷ name);
          path = [];
          host = host;
          port = port;
          bucket = name;
        })
  unfolding parse host_port parse_remote parse_host finish address
  parse-host_port_bucket raw name full no_slash no_space =
      let whole : Text = address ++ (b'/' ∷ name) in
      let spaces : trim_space whole ≡ whole = trim_space_of whole (
        All-append _ address _ (All-map _ _ address (λ c h. h.0) address-IsPlain)
          ((unfold is_space in refl), no_space)) in
      ground (
        arith,
        spaces,
        address-is_local_form (b'/' ∷ name),
        address-ne-nil (b'/' ∷ name),
        split_first-append b'/' address name address-no_slash,
        split_port-address,
        eqt_iff name [],
        full,
        no_slash,
        valid,
      )
