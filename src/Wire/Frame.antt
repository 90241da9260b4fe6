-- ===== src/Wire/Frame.antt =====
-- wire.go, `Send` and `Recv`, and crypto.go, `seal` and `open`: a type byte, four bytes of length,
-- and the payload, sealed where the connection has a cipher.
use cs_sync.Prelude.{
  Text, ℕ, ◌+◌, ◌*◌, ◌/◌, ◌%◌, ◌^◌, ◌≤◌, ◌<◌, ◌≡◌, refl, Option, none, some, [], ◌∷◌, ◌++◌, arith,
  ltb, if◌then◌else◌, length, take, drop, length-append,
}

-- `cipherAEAD`: of ChaCha20-Poly1305 the code relies on a nonce of fixed size, and on opening what
-- was sealed with the same nonce and associated data.
pub record Cipher : Type 0 where
  pub nonce_size : ℕ
  pub seal_box : Text → Text → Text → Text
  pub open_box : Text → Text → Text → Option Text

pub record IsLawful (c : Cipher) : Type 0 where
  pub open-seal :
      (nonce plain ad : Text)
      → length nonce ≡ c.nonce_size
      → c.open_box nonce (c.seal_box nonce plain ad) ad ≡ some plain

abbrev max_frame : ℕ
max_frame = 2 * (4 * 1024 * 1024) + 65536 + 64

-- `seal` with the random nonce given: the nonce stands before the sealed text.
unfoldable pub seal : Cipher → Text → ℕ → Text → Text
seal c nonce t plain = nonce ++ c.seal_box nonce plain (t ∷ [])

open_sealed : Cipher → ℕ → Text → Option Text
open_sealed c t sealed =
    if ltb (length sealed) c.nonce_size
    then none
    else c.open_box (take c.nonce_size sealed) (drop c.nonce_size sealed) (t ∷ [])

-- `binary.BigEndian.PutUint32` and `Uint32`.
put_uint32 : ℕ → Text
put_uint32 n = n / 2 ^ 24 % 256 ∷ n / 2 ^ 16 % 256 ∷ n / 2 ^ 8 % 256 ∷ n % 256 ∷ []

uint32 : ℕ → ℕ → ℕ → ℕ → ℕ
uint32 a b c d = a * 2 ^ 24 + b * 2 ^ 16 + c * 2 ^ 8 + d

-- The payload on the wire.
unfoldable pub payload_for : Option Cipher → Text → ℕ → Text → Text
unfolding seal
payload_for none nonce t payload = payload
payload_for (some c) nonce t payload = seal c nonce t payload

-- The bytes that `Send` writes; the length is cut to 32 bits.
unfoldable pub send : Option Cipher → Text → ℕ → Text → Text
unfolding payload_for put_uint32
send cipher nonce t payload =
    let p = payload_for cipher nonce t payload in t ∷ (put_uint32 (length p % 2 ^ 32) ++ p)

pub data Received : Type 0 where
  received : ℕ → Text → Text → Received
  short_read too_large wrong_key : Received

-- Decrypt the payload that was read; `rest` is what the connection still holds.
unfoldable pub opened : Option Cipher → ℕ → Text → Text → Received
unfolding open_sealed
opened none t p rest = received t p rest
opened (some c) t p rest = elim (open_sealed c t p) [
  | none ↦ wrong_key
  | some plain ↦ received t plain rest
]

-- `Recv` on the bytes that arrive.
unfoldable pub recv : Option Cipher → Text → Received
unfolding opened uint32
recv cipher (t ∷ a ∷ b ∷ c ∷ d ∷ rest) =
    let n = uint32 a b c d in
    if ltb max_frame n
    then too_large
    else if ltb (length rest) n
    then short_read
    else opened cipher t (take n rest) (drop n rest)
recv cipher _ = short_read

uint32-put_uint32 :
    (n : ℕ)
    → n < 2 ^ 32
    → uint32 (n / 2 ^ 24 % 256) (n / 2 ^ 16 % 256) (n / 2 ^ 8 % 256) (n % 256) ≡ n
unfolding uint32
uint32-put_uint32 n h = omega arith

take-append : (xs ys : Text) → take (length xs) (xs ++ ys) ≡ xs
take-append [] ys = refl
take-append (x ∷ xs) ys = rw (take-append xs ys)

drop-append : (xs ys : Text) → drop (length xs) (xs ++ ys) ≡ ys
drop-append [] ys = refl
drop-append (x ∷ xs) ys = drop-append xs ys

abbrev LawfulIf : Option Cipher → Text → Type 0
LawfulIf none nonce = Unit
LawfulIf (some c) nonce = IsLawful c × (length nonce ≡ c.nonce_size)

opened-payload_for :
    (cipher : Option Cipher) (nonce : Text) (t : ℕ) (payload rest : Text)
    → LawfulIf cipher nonce
    → opened cipher t (payload_for cipher nonce t payload) rest ≡ received t payload rest
unfolding opened payload_for
opened-payload_for none nonce t payload rest h = refl
opened-payload_for (some c) nonce t payload rest (law, size) =
    let box = c.seal_box nonce payload (t ∷ []) in
    let e : take c.nonce_size (nonce ++ box) ≡ nonce = rw (← size) (take-append nonce box) in
    let e' : drop c.nonce_size (nonce ++ box) ≡ box = rw (← size) (drop-append nonce box) in
    ground (arith, e, e', law.open-seal nonce payload (t ∷ []) size, length-append nonce box, size)

-- What one end sends the other end receives, with its type and payload, and the bytes after it are
-- left on the connection: for a payload whose sealed form is within the limit of `Recv`, and for a
-- cipher that both ends have from the same key.
pub recv-send :
    (cipher : Option Cipher) (nonce : Text) (t : ℕ) (payload rest : Text)
    → LawfulIf cipher nonce
    → length (payload_for cipher nonce t payload) ≤ max_frame
    → recv cipher (send cipher nonce t payload ++ rest) ≡ received t payload rest
unfolding recv send
recv-send cipher nonce t payload rest law fits =
    let p = payload_for cipher nonce t payload in
    let n : length p % 2 ^ 32 ≡ length p = omega arith in
    ground (
      arith,
      n,
      uint32-put_uint32 (length p) (omega arith),
      length-append p rest,
      take-append p rest,
      drop-append p rest,
      opened-payload_for cipher nonce t payload rest law,
    )

-- A payload over the limit is refused by the other end, unless its length does not fit 32 bits.
recv-send_too_large :
    (cipher : Option Cipher) (nonce : Text) (t : ℕ) (payload rest : Text)
    → max_frame < length (payload_for cipher nonce t payload)
    → length (payload_for cipher nonce t payload) < 2 ^ 32
    → recv cipher (send cipher nonce t payload ++ rest) ≡ too_large
unfolding recv send
recv-send_too_large cipher nonce t payload rest big fits =
    let p = payload_for cipher nonce t payload in
    let n : length p % 2 ^ 32 ≡ length p = omega arith in
    ground (arith, n, uint32-put_uint32 (length p) fits)
