-- ===== src/E2e.antt =====
-- End-to-end encryption between the gateway and the providers: coordinator/internal/e2e/e2e.go.
-- The primitives are those of golang.org/x/crypto and the standard library; a byte is a number, and a base64 text is the
-- list of its bytes. Random keys and nonces are arguments.
pub mod Sealing
pub mod Toy
use idlegrid.Prelude.{
  ℕ, ◌==◌, ◌≡◌, Bool, true, false, Option, none, some, List, length, if◌then◌else◌,
}

abbrev pub Bytes : Type 0
Bytes = List ℕ

-- Base64, X25519, HKDF-SHA256 with the info string, ChaCha20-Poly1305 and Ed25519; `none` is an error.
pub record Crypto : Type 0 where
  pub encode64 : Bytes → Bytes
  pub decode64 : Bytes → Option Bytes
  pub basepoint : Bytes
  pub x25519 : Bytes → Bytes → Option Bytes
  pub hkdf : Bytes → Bytes → Option Bytes
  pub aead_seal : Bytes → Bytes → Bytes → Bytes
  pub aead_open : Bytes → Bytes → Bytes → Option Bytes
  pub ed_public : Bytes → Bytes
  pub ed_sign : Bytes → Bytes → Bytes
  pub ed_verify : Bytes → Bytes → Bytes → Bool

-- What the primitives promise: decoding inverts encoding, both sides of an X25519 exchange agree, an opened payload is
-- the one that was sealed under the same key and nonce, and a signature verifies.
pub record IsLawful (c : Crypto) : Type 0 where
  pub decoded : (b : Bytes) → c.decode64 (c.encode64 b) ≡ some b
  pub agreed :
      (a b pa pb : Bytes)
      → c.x25519 a c.basepoint ≡ some pa
      → c.x25519 b c.basepoint ≡ some pb
      → c.x25519 a pb ≡ c.x25519 b pa
  pub opened : (k n p : Bytes) → c.aead_open k n (c.aead_seal k n p) ≡ some p
  pub verified : (k m : Bytes) → c.ed_verify (c.ed_public k) m (c.ed_sign k m) ≡ true
  pub signature_size : (k m : Bytes) → length (c.ed_sign k m) ≡ 64
  pub public_size : (k : Bytes) → length (c.ed_public k) ≡ 32

abbrev pub key_size : ℕ
key_size = 32

abbrev pub nonce_size : ℕ
nonce_size = 12

-- `XKeyPair`.
pub record XKeyPair : Type 0 where
  pub private_key : Bytes
  pub public_key : Bytes

-- `GenerateX25519`, of 32 random bytes; `none` is its panic.
unfoldable pub generate_x25519 : Crypto → Bytes → Option XKeyPair
generate_x25519 c random = elim (c.x25519 random c.basepoint) [
  | none ↦ none
  | some p ↦ some (record { private_key = random; public_key = p })
]

-- A text that decodes to that many bytes.
abbrev of_size : ℕ → Option Bytes → Option Bytes
of_size n none = none
of_size n (some b) = if length b == n then some b else none

unfoldable pub sized : Crypto → ℕ → Bytes → Option Bytes
sized c n b64 = of_size n (c.decode64 b64)

-- `SealedPayload`: the base64 texts of the ephemeral public key, the nonce and the ciphertext.
pub record SealedPayload : Type 0 where
  pub eph_pub : Bytes
  pub nonce : Bytes
  pub ciphertext : Bytes

-- `X25519`, then `deriveKey` with the nonce as salt.
abbrev derive_from : Crypto → Bytes → Option Bytes → Option Bytes
derive_from c nonce none = none
derive_from c nonce (some shared) = c.hkdf shared nonce

unfoldable pub derive_key : Crypto → Bytes → Bytes → Bytes → Option Bytes
derive_key c priv point nonce = derive_from c nonce (c.x25519 priv point)

abbrev pub sealed_with : Crypto → Bytes → XKeyPair → Bytes → Option Bytes → Option SealedPayload
sealed_with c plaintext eph nonce none = none
sealed_with c plaintext eph nonce (some key) = some (record {
  eph_pub = c.encode64 eph.public_key;
  nonce = c.encode64 nonce;
  ciphertext = c.encode64 (c.aead_seal key nonce plaintext);
})

abbrev seal_with : Crypto → Bytes → Bytes → Bytes → Option XKeyPair → Option SealedPayload
seal_with c plaintext recipient nonce none = none
seal_with c plaintext recipient nonce (some eph) =
    sealed_with c plaintext eph nonce (derive_key c eph.private_key recipient nonce)

-- `Seal`, with the random bytes of the ephemeral key and of the nonce; a panic of `GenerateX25519` counts as an error.
unfoldable pub seal : Crypto → Bytes → Bytes → Bytes → Bytes → Option SealedPayload
unfolding generate_x25519 derive_key
seal c random nonce plaintext recipient =
    seal_with c plaintext recipient nonce (generate_x25519 c random)

abbrev open_with : Crypto → Bytes → Bytes → Option Bytes → Option Bytes
open_with c nonce ct none = none
open_with c nonce ct (some key) = c.aead_open key nonce ct

abbrev open_parts : Crypto → Bytes → Option Bytes → Option Bytes → Option Bytes → Option Bytes
open_parts c priv (some eph) (some nonce) (some ct) =
    open_with c nonce ct (derive_key c priv eph nonce)
open_parts c priv _ _ _ = none

-- `Open`, under another name since `open` is a keyword.
unfoldable pub open_payload : Crypto → SealedPayload → Bytes → Option Bytes
unfolding sized derive_key
open_payload c s priv =
    open_parts c priv (sized c key_size s.eph_pub) (sized c nonce_size s.nonce)
      (c.decode64 s.ciphertext)

-- `Sign`.
unfoldable pub sign : Crypto → Bytes → Bytes → Bytes
sign c priv message = c.encode64 (c.ed_sign priv message)

abbrev verify_parts : Crypto → Bytes → Option Bytes → Option Bytes → Bool
verify_parts c message (some key) (some sig) = c.ed_verify key message sig
verify_parts c message _ _ = false

-- `Verify`.
unfoldable pub verify : Crypto → Bytes → Bytes → Bytes → Bool
unfolding sized
verify c pub_b64 message sig_b64 = verify_parts c message (sized c 32 pub_b64) (sized c 64 sig_b64)

-- `PubKeyFromB64` and `PubKeyToB64`.
unfoldable pub pub_key_from_b64 : Crypto → Bytes → Option Bytes
unfolding sized
pub_key_from_b64 c b64 = sized c key_size b64

unfoldable pub pub_key_to_b64 : Crypto → Bytes → Bytes
pub_key_to_b64 c key = c.encode64 key
