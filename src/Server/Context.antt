-- ===== src/Server/Context.antt =====
-- What the verifier hands to the router: server/src/verifier.rs, with the enumerations of
-- server/src/receipt.rs and the metadata of server/src/proof_keys.rs that it carries. Byte arrays
-- are lists of bytes.
use sec_s_magik.Base.{ℕ, Bool, true, false, List, Option, Text}

pub data AuthenticatorKind : Type 0 where
  local_dev_untrusted local_mac ed25519_node ed25519_verifier : AuthenticatorKind
  ed25519_node_and_verifier external_anchor : AuthenticatorKind

abbrev pub is_local_dev : AuthenticatorKind → Bool
is_local_dev local_dev_untrusted = true
is_local_dev _ = false

abbrev pub is_node_and_verifier : AuthenticatorKind → Bool
is_node_and_verifier ed25519_node_and_verifier = true
is_node_and_verifier _ = false

pub data Decision : Type 0 where
  accepted rejected : Decision

pub data RequiredProofTier : Type 0 where
  metadata_bound light_client_verified recursive_proof_carrying_state : RequiredProofTier

pub record ObservedProofMetadata : Type 0 where
  pub vk_id : Text
  pub vk_version : ℕ
  pub proof_system : Text
  pub circuit_id : Text
  pub circuit_version : ℕ
  pub vk_fingerprint_algorithm : Text
  pub vk_fingerprint : Text
  pub public_input_schema_id : Text
  pub public_input_schema_hash_algorithm : Text
  pub public_input_schema_hash : Text
  pub observed_tier : RequiredProofTier
  pub adapter_claim_label : Option Text

pub record VerifiedSubject : Type 0 where
  pub subject_id : Text
  pub key_id : Text

pub record VerifiedCallContext : Type 0 where
  pub schema_version : ℕ
  pub context_id : Text
  pub packet_hash : List ℕ
  pub session_id : List ℕ
  pub nonce : List ℕ
  pub opcode : ℕ
  pub operation : Text
  pub resource : Option Text
  pub subject : VerifiedSubject
  pub audience : Text
  pub evidence_summary : List Text
  pub proof_metadata : Option ObservedProofMetadata
  pub capability_result : Text
  pub credential_result : Text
  pub issued_at : ℕ
  pub expires_at : ℕ
  pub descriptor_fingerprint : Text
  pub replay_scope : Text
  pub handler_id : Option Text

pub record SignedVerifiedCallContext : Type 0 where
  pub context : VerifiedCallContext
  pub signer_key_id : Text
  pub authenticator_kind : AuthenticatorKind
  pub signature : List ℕ
