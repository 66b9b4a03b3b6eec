-- ===== src/Server/Identity.antt =====
-- Keys of verifiers and the check of a signed context: server/src/identity.rs, with
-- `verify_ed25519_with_key` of server/src/verifier.rs. Ed25519 and bincode are parameters.
pub mod Window
use sec_s_magik.Base.{
  ℕ, ◌+◌, Bool, true, false, not, ◌&&◌, ◌||◌, List, [], ◌∷◌, Option, none, some, Text, bytes,
  Result, ok, err, ◌>>=◌, ◌>>◌, deny, ok_or, ◌==◌, ◌!=◌, ltb, leb, any, find, select, contains,
  if◌then◌else◌, list_eq, nat_eq,
}
use sec_s_magik.Server.Clock.{is_clock_read_failure}
use sec_s_magik.Server.Errors.{
  VerificationError, wrong_audience, expired_claim, invalid_signature, internal_error,
  unknown_verifier_key, revoked_verifier_key, expired_verifier_key, not_yet_valid_verifier_key,
  untrusted_verifier_key,
}
use sec_s_magik.Server.Context.{
  AuthenticatorKind, is_node_and_verifier, VerifiedCallContext, SignedVerifiedCallContext,
}

-- The libraries: `Signature::from_slice` as a test, the check of a signature of a message under a
-- key, and the bytes of a context.
pub record Ed25519 : Type 0 where
  pub is_signature : List ℕ → Bool
  pub verify : List ℕ → List ℕ → List ℕ → Bool
  pub serialize : VerifiedCallContext → Option (List ℕ)

pub data VerificationKeyStatus : Type 0 where
  active revoked expired unknown not_yet_valid : VerificationKeyStatus

pub record PublicVerifierKey : Type 0 where
  pub key_id : Text
  pub algorithm : Text
  pub public_key : List ℕ
  pub status : VerificationKeyStatus
  pub not_before : Option ℕ
  pub not_after : Option ℕ
  pub revoked_at : Option ℕ
  pub replaced_by : Option Text
  pub production_authority : Bool

abbrev pub check_status : VerificationKeyStatus → Result VerificationError (Unit {0})
check_status active = ok tt
check_status revoked = err revoked_verifier_key
check_status expired = err expired_verifier_key
check_status unknown = err unknown_verifier_key
check_status not_yet_valid = err not_yet_valid_verifier_key

abbrev pub is_some_and : Option ℕ → (ℕ → Bool) → Bool
is_some_and none test = false
is_some_and (some n) test = test n

unfoldable pub ensure_active_at : PublicVerifierKey → ℕ → Result VerificationError (Unit {0})
ensure_active_at key now =
    check_status key.status
    >> deny (is_some_and key.not_before (λ not_before. ltb now not_before))
        not_yet_valid_verifier_key
    >> deny (is_some_and key.not_after (λ not_after. ltb not_after now)) expired_verifier_key
    >> deny (is_some_and key.revoked_at (λ revoked_at. leb revoked_at now)) revoked_verifier_key

-- The map of keys by id, and the ids that were given twice.
pub record PublicVerifierKeyRegistry : Type 0 where
  pub keys : List PublicVerifierKey
  pub duplicate_key_ids : List Text

abbrev pub has_id : Text → PublicVerifierKey → Bool
has_id id key = key.key_id == id

-- One round of the loop of `from_keys`.
unfoldable pub insert_key :
    PublicVerifierKeyRegistry → PublicVerifierKey → PublicVerifierKeyRegistry
insert_key registry key = record {
  keys = key ∷ select (λ old. not (old.key_id == key.key_id)) registry.keys;
  duplicate_key_ids =
      if any (has_id key.key_id) registry.keys
      then key.key_id ∷ registry.duplicate_key_ids
      else registry.duplicate_key_ids;
}

unfoldable pub insert_keys :
    PublicVerifierKeyRegistry → List PublicVerifierKey → PublicVerifierKeyRegistry
unfolding insert_key
insert_keys registry [] = registry
insert_keys registry (key ∷ keys) = insert_keys (insert_key registry key) keys

unfoldable pub from_keys : List PublicVerifierKey → PublicVerifierKeyRegistry
unfolding insert_keys
from_keys keys = insert_keys (record { keys = []; duplicate_key_ids = [] }) keys

-- The key with an id that was given once.
unfoldable pub get_unique :
    PublicVerifierKeyRegistry → Text → Result VerificationError PublicVerifierKey
get_unique registry id = ok_or (find (has_id id) registry.keys) unknown_verifier_key >>= λ key.
    deny (contains registry.duplicate_key_ids id) unknown_verifier_key >> ok key

module _ (lib : Ed25519) where
  unfoldable pub verify_ed25519_with_key :
      SignedVerifiedCallContext → List ℕ → Text → ℕ → Result VerificationError (Unit {0})
  verify_ed25519_with_key signed verifying_key expected_audience now =
      deny (signed.context.audience != expected_audience) wrong_audience
      >> deny (is_clock_read_failure now) expired_claim
      >> deny (ltb signed.context.expires_at now) expired_claim
      >> deny (not (lib.is_signature signed.signature)) invalid_signature
      >> ok_or (lib.serialize signed.context) internal_error
      >>= λ message.
          deny (not (lib.verify verifying_key message signed.signature)) invalid_signature

  unfoldable pub verify_signed_context :
      PublicVerifierKeyRegistry
      → SignedVerifiedCallContext
      → Text
      → ℕ
      → Result VerificationError (Unit {0})
  unfolding get_unique ensure_active_at verify_ed25519_with_key
  verify_signed_context registry signed expected_audience now =
      get_unique registry signed.signer_key_id >>= λ key.
      ensure_active_at key now
      >> verify_ed25519_with_key signed key.public_key expected_audience now

  unfoldable pub verify_production_signed_context :
      PublicVerifierKeyRegistry
      → SignedVerifiedCallContext
      → Text
      → ℕ
      → Result VerificationError (Unit {0})
  unfolding get_unique ensure_active_at verify_ed25519_with_key
  verify_production_signed_context registry signed expected_audience now =
      get_unique registry signed.signer_key_id >>= λ key.
      ensure_active_at key now
      >> deny
          (not key.production_authority
            || key.algorithm != bytes "ed25519"
            || not (is_node_and_verifier signed.authenticator_kind))
          untrusted_verifier_key
      >> verify_ed25519_with_key signed key.public_key expected_audience now
