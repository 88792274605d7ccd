-- ===== src/E2e/Sealing.antt =====
-- Sealing and opening, signing and verifying are inverse (coordinator/internal/e2e/e2e.go).
use idlegrid.Prelude.{ℕ, ◌≡◌, refl, ◌∙◌, arith, true, some, length}
use idlegrid.E2e.{
  Bytes, Crypto, IsLawful, SealedPayload, generate_x25519, sized, derive_key, seal, open_payload,
  sign, verify, pub_key_from_b64, pub_key_to_b64,
}

module _ (c : Crypto) (lawful : IsLawful c) where
  size_lem : (n : ℕ) (b : Bytes) → length b ≡ n → sized c n (c.encode64 b) ≡ some b
  unfolding sized
  size_lem n b h = rw (lawful.decoded b) (ground arith)

  agree_lem :
      (random secret recipient eph nonce : Bytes)
      → c.x25519 secret c.basepoint ≡ some recipient
      → c.x25519 random c.basepoint ≡ some eph
      → derive_key c secret eph nonce ≡ derive_key c random recipient nonce
  unfolding derive_key
  agree_lem random secret recipient eph nonce mine fresh =
      rw (lawful.agreed secret random recipient eph mine fresh) refl

  -- A payload that is sealed to the public key of a pair is opened by its private key, whatever the plaintext: `Seal`
  -- succeeds, where X25519 and HKDF do, and `Open` of its result gives the plaintext. Keys have 32 bytes, the
  -- nonce 12.
  pub open_payload-seal :
      (random secret recipient eph nonce key plaintext : Bytes)
      → c.x25519 secret c.basepoint ≡ some recipient
      → c.x25519 random c.basepoint ≡ some eph
      → length eph ≡ 32
      → length nonce ≡ 12
      → derive_key c random recipient nonce ≡ some key
      → (s : SealedPayload) × (seal c random nonce plaintext recipient ≡ some s)
        × (open_payload c s secret ≡ some plaintext)
  unfolding seal generate_x25519 open_payload
  open_payload-seal random secret recipient eph nonce key plaintext mine fresh size32 size12
        derived =
      let s : SealedPayload = record {
        eph_pub = c.encode64 eph;
        nonce = c.encode64 nonce;
        ciphertext = c.encode64 (c.aead_seal key nonce plaintext);
      } in
      (
        s,
        rw (fresh, generate_x25519) (rw derived refl),
        rw
            (
              size_lem 32 eph size32,
              size_lem 12 nonce size12,
              lawful.decoded (c.aead_seal key nonce plaintext),
            )
            (rw (agree_lem random secret recipient eph nonce mine fresh ∙ derived)
              (lawful.opened key nonce plaintext)),
      )

  -- A signature verifies under the signer's public key.
  pub verify-sign :
      (key message : Bytes)
      → verify c (c.encode64 (c.ed_public key)) message (sign c key message) ≡ true
  unfolding verify sign
  verify-sign key message =
      rw
        (
          size_lem 32 (c.ed_public key) (lawful.public_size key),
          size_lem 64 (c.ed_sign key message) (lawful.signature_size key message),
        )
        (lawful.verified key message)

  -- A public key of 32 bytes is parsed from its text.
  pub pub_key_from_b64-to_b64 :
      (key : Bytes) → length key ≡ 32 → pub_key_from_b64 c (pub_key_to_b64 c key) ≡ some key
  unfolding pub_key_from_b64 pub_key_to_b64
  pub_key_from_b64-to_b64 key size = size_lem 32 key size
