-- ===== src/E2e/Toy.antt =====
-- Primitives that keep the promises of the real ones and hide nothing, for the tests.
use idlegrid.Prelude.{
  ℕ, ◌+◌, ◌≡◌, refl, ap, sym, arith, true, some, [], ◌∷◌, replicate, length-replicate,
}
use idlegrid.E2e.{Bytes, Crypto, IsLawful}

abbrev pub first : Bytes → ℕ
first [] = 0
first (b ∷ bs) = b

abbrev pub toy : Crypto
toy = record {
  encode64 = λ b. b;
  decode64 = λ b. some b;
  basepoint = [];
  x25519 = λ priv point. some (replicate 32 (first priv + first point));
  hkdf = λ shared salt. some shared;
  aead_seal = λ key nonce plaintext. plaintext;
  aead_open = λ key nonce ciphertext. some ciphertext;
  ed_public = λ priv. replicate 32 (first priv);
  ed_sign = λ priv message. replicate 64 (first priv);
  ed_verify = λ pub_key message sig. true;
}

toy_agreed :
    (a b pa pb : Bytes)
    → some (replicate 32 (first a + 0)) ≡ some pa
    → some (replicate 32 (first b + 0)) ≡ some pb
    → some (replicate 32 (first a + first pb)) ≡ some (replicate 32 (first b + first pa))
toy_agreed a b pa pb p q =
    let ea : replicate 32 (first a + 0) ≡ pa = cc in
    let eb : replicate 32 (first b + 0) ≡ pb = cc in
    let fa : first pa ≡ first a + 0 = ap first (sym ea) in
    let fb : first pb ≡ first b + 0 = ap first (sym eb) in
    let same : first a + first pb ≡ first b + first pa = omega arith in
    ap (λ (v : ℕ). some (replicate 32 v)) same

pub toy-IsLawful : IsLawful toy
toy-IsLawful = record {
  decoded = λ b. refl;
  agreed = toy_agreed;
  opened = λ k n p. refl;
  verified = λ k m. refl;
  signature_size = λ k m. length-replicate 64 (first k);
  public_size = λ k. length-replicate 32 (first k);
}
