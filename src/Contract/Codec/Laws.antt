-- ===== src/Contract/Codec/Laws.antt =====
-- What is assumed of the libraries of Codec, and that what `sign` returns `verify` accepts.
use sec_s_magik.Base.{
  ℕ, ◌<◌, ◌≡◌, subst, true, false, Text, ok, some, length, All, arith, >>=-eq-ok,
}
use sec_s_magik.Contract.Codec.{
  Crypto, JsonLibrary, is_bad_hex, hex, key, public_hex, transcript, sign, verify,
}

abbrev pub IsBytes : Text → Type 0
IsBytes = All (λ b. b < 256)

-- Documented behaviour: hex coding is lowercase, two digits a byte, and inverts; keys and signatures
-- have 32 and 64 bytes; a key that is not weak accepts what its signing key signs.
pub record CryptoLaws {SigningKey VerifyingKey : Type 0} (c : Crypto SigningKey VerifyingKey)
    : Type 0 where
  pub decode_encode : (b : Text) → IsBytes b → c.hex_decode (c.hex_encode b) ≡ some b
  pub encode_good : (b : Text) → IsBytes b → is_bad_hex (length b) (c.hex_encode b) ≡ false
  pub key_IsBytes : (k : VerifyingKey) → IsBytes (c.to_bytes k)
  pub key_length : (k : VerifyingKey) → length (c.to_bytes k) ≡ 32
  pub from_to_bytes : (k : VerifyingKey) → c.from_bytes (c.to_bytes k) ≡ some k
  pub signature_IsBytes : (k : SigningKey) (m : Text) → IsBytes (c.sign_bytes k m)
  pub signature_length : (k : SigningKey) (m : Text) → length (c.sign_bytes k m) ≡ 64
  pub verify_sign :
      (k : SigningKey) (m : Text)
      → c.is_weak (c.verifying_key k) ≡ false
      → c.verify_strict (c.verifying_key k) m (c.sign_bytes k m) ≡ true

module _ {SigningKey VerifyingKey : Type 0} (crypto : Crypto SigningKey VerifyingKey)
    (laws : CryptoLaws crypto) where
  hex-encode :
      (n : ℕ) (b : Text) → IsBytes b → length b ≡ n → hex crypto n (crypto.hex_encode b) ≡ ok b
  unfolding hex
  hex-encode n b small e =
      let good : is_bad_hex n (crypto.hex_encode b) ≡ false =
        subst (λ m. is_bad_hex m (crypto.hex_encode b) ≡ false) e (laws.encode_good b small) in
      ground (arith, e, good, laws.decode_encode b small)

  -- The key that a public text stands for is the signing key's own.
  key-public_hex :
      (k : SigningKey) (v : VerifyingKey)
      → key crypto (public_hex crypto k) ≡ ok v
      → (v ≡ crypto.verifying_key k) × (crypto.is_weak (crypto.verifying_key k) ≡ false)
  unfolding key public_hex
  key-public_hex k v h =
      let vk = crypto.verifying_key k in
      ground (
        arith,
        h,
        hex-encode 32 (crypto.to_bytes vk) (laws.key_IsBytes vk) (laws.key_length vk),
        laws.from_to_bytes vk,
      )

  -- Given the laws of the cryptography, what a key signs, under one domain, verifies there under
  -- the key's public text, if that text is a usable key.
  pub verify-sign :
      {Value : Type 0} (json : JsonLibrary Value) (domain : Text) (value : Value) (k : SigningKey)
      (v : VerifyingKey) (signature : Text)
      → key crypto (public_hex crypto k) ≡ ok v
      → sign crypto json domain value k ≡ ok signature
      → verify crypto json domain value signature (public_hex crypto k) ≡ ok tt
  unfolding sign verify
  verify-sign json domain value k v signature good signed =
      let (t, written, rest) = >>=-eq-ok (transcript json domain value) _ signed in
      let (same, strong) = key-public_hex k v good in
      ground (
        arith,
        good,
        written,
        rest,
        same,
        hex-encode 64 (crypto.sign_bytes k t) (laws.signature_IsBytes k t)
            (laws.signature_length k t),
        laws.verify_sign k t strong,
      )
