-- ===== src/Contract/Codec.antt =====
-- Keys, digests and signatures of the grant contract crate: lib.rs. The cryptography, the hex coding
-- and the canonical JSON form come from libraries, and are parameters.
pub mod Laws
use sec_s_magik.Base.{
  ℕ, ◌*◌, Bool, true, false, ◌&&◌, ◌||◌, not, List, [], ◌∷◌, ◌++◌, Text, Result, ok, err, ◌>>=◌,
  ◌>>◌, deny, ok_or, Option, none, some, length, all, leb, ltb, eqb, bytes,
}
use sec_s_magik.Contract.{Refusal, invalid_holder_authority}
use sec_s_magik.Contract.Json.{Json, safe}

-- ed25519_dalek, sha2 and hex. Keys, messages and signatures are bytes outside their types.
pub record Crypto (SigningKey VerifyingKey : Type 0) : Type 0 where
  pub from_bytes : Text → Option VerifyingKey
  pub to_bytes : VerifyingKey → Text
  pub is_weak : VerifyingKey → Bool
  pub verify_strict : VerifyingKey → Text → Text → Bool
  pub verifying_key : SigningKey → VerifyingKey
  pub sign_bytes : SigningKey → Text → Text
  pub sha256 : Text → Text
  pub hex_encode : Text → Text
  pub hex_decode : Text → Option Text

-- serde_json and serde_jcs: what a match on a value sees, and its canonical bytes.
pub record JsonLibrary (Value : Type 0) : Type 0 where
  pub view : Value → Json
  pub to_vec : Value → Option Text

abbrev pub max_bytes : ℕ
max_bytes = 131072

abbrev pub is_hex_digit : ℕ → Bool
is_hex_digit b = (leb b'0' b && leb b b'9') || (leb b'a' b && leb b b'f')

-- The test of `hex::<N>` before it decodes.
unfoldable pub is_bad_hex : ℕ → Text → Bool
is_bad_hex n s = not (eqb (length s) (n * 2)) || not (all is_hex_digit s)

module _ {SigningKey VerifyingKey : Type 0} (crypto : Crypto SigningKey VerifyingKey) where
  unfoldable pub hex : ℕ → Text → Result Refusal Text
  hex n s = do
    deny (is_bad_hex n s) invalid_holder_authority
    decoded ← ok_or (crypto.hex_decode s) invalid_holder_authority
    deny (not (eqb (length decoded) n)) invalid_holder_authority
    ok decoded

  unfoldable pub key : Text → Result Refusal VerifyingKey
  key s = do
    raw ← hex 32 s
    k ← ok_or (crypto.from_bytes raw) invalid_holder_authority
    deny (crypto.is_weak k) invalid_holder_authority
    ok k

  -- `hex::encode(k.verifying_key().to_bytes())`
  unfoldable pub public_hex : SigningKey → Text
  public_hex k = crypto.hex_encode (crypto.to_bytes (crypto.verifying_key k))

module _ {Value : Type 0} (json : JsonLibrary Value) where
  unfoldable pub canonical : Value → Result Refusal Text
  canonical v = do
    safe (json.view v) 0
    b ← ok_or (json.to_vec v) invalid_holder_authority
    deny (ltb max_bytes (length b)) invalid_holder_authority
    ok b

  unfoldable pub transcript : Text → Value → Result Refusal Text
  transcript domain v = do b ← canonical v; ok (domain ++ 0 ∷ b)

module _ {SigningKey VerifyingKey Value : Type 0} (crypto : Crypto SigningKey VerifyingKey)
    (json : JsonLibrary Value) where
  unfoldable pub digest : Value → Result Refusal Text
  digest v = do b ← canonical json v; ok (crypto.hex_encode (crypto.sha256 b))

  unfoldable pub sign : Text → Value → SigningKey → Result Refusal Text
  sign domain v k = do t ← transcript json domain v; ok (crypto.hex_encode (crypto.sign_bytes k t))

  unfoldable pub verify : Text → Value → Text → Text → Result Refusal (Unit {0})
  verify domain v signature public_key = do
    k ← key crypto public_key
    t ← transcript json domain v
    s ← hex crypto 64 signature
    deny (not (crypto.verify_strict k t s)) invalid_holder_authority
