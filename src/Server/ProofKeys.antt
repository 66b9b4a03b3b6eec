-- ===== src/Server/ProofKeys.antt =====
-- The registry of proof keys and the gate of proof metadata: server/src/proof_keys.rs. The JSON
-- decoder and `str::trim` with `is_empty` are parameters.
pub mod Gate
use sec_s_magik.Base.{
  ℕ, Bool, true, false, not, ◌&&◌, ◌||◌, List, [], ◌∷◌, ◌++◌, Option, none, some, Text, bytes,
  Result, ok, err, ◌>>=◌, ◌>>◌, deny, ok_or, each_after, each, ◌==◌, ◌!=◌, leb, ltb, any, all, find,
  take, length, is_empty, contains, if◌then◌else◌, list_eq, nat_eq,
}
use sec_s_magik.Server.Text.{decimal}
use sec_s_magik.Server.Context.{
  RequiredProofTier, metadata_bound, light_client_verified, recursive_proof_carrying_state,
  ObservedProofMetadata,
}

pub record ProofMetadataRoutePolicy : Type 0 where
  pub required_tier : RequiredProofTier
  pub require_active : Bool

pub data ProofKeyLifecycle : Type 0 where
  active deprecated revoked : ProofKeyLifecycle

pub record ProofKeyRef : Type 0 where
  pub vk_id : Text
  pub vk_version : ℕ

pub record ProofKeyEntry : Type 0 where
  pub vk_id : Text
  pub vk_version : ℕ
  pub proof_system : Text
  pub circuit_id : Text
  pub circuit_version : ℕ
  pub vk_fingerprint_algorithm : Text
  pub vk_fingerprint : Text
  pub public_input_schema_id : Text
  pub public_input_schema_hash_algorithm : Text
  pub public_input_schema_hash : Text
  pub lifecycle : ProofKeyLifecycle
  pub not_before : ℕ
  pub not_after : Option ℕ
  pub allowed_tiers : List RequiredProofTier
  pub supersedes : Option ProofKeyRef
  pub deprecated_historical_only : Bool
  pub claim_label : Text

pub data ProofKeyRegistryError : Type 0 where
  empty_registry missing_required_field invalid_hash_algorithm invalid_vk_fingerprint :
      ProofKeyRegistryError
  invalid_public_input_schema_hash invalid_validity_window invalid_allowed_tier :
      ProofKeyRegistryError
  invalid_supersession overclaiming_claim_label duplicate_registry_entry invalid_json :
      ProofKeyRegistryError

pub data ProofGateReason : Type 0 where
  missing_proof_key_registry_entry unknown_verification_key proof_system_mismatch : ProofGateReason
  proof_circuit_mismatch proof_vk_fingerprint_mismatch proof_public_input_schema_mismatch :
      ProofGateReason
  proof_key_deprecated proof_key_revoked proof_key_not_yet_valid proof_key_expired : ProofGateReason
  proof_tier_below_policy proof_verifier_not_executed : ProofGateReason

unfoldable pub gate_reason_code : ProofGateReason → Text
gate_reason_code missing_proof_key_registry_entry = bytes "missing_proof_key_registry_entry"
gate_reason_code unknown_verification_key = bytes "unknown_verification_key"
gate_reason_code proof_system_mismatch = bytes "proof_system_mismatch"
gate_reason_code proof_circuit_mismatch = bytes "proof_circuit_mismatch"
gate_reason_code proof_vk_fingerprint_mismatch = bytes "proof_vk_fingerprint_mismatch"
gate_reason_code proof_public_input_schema_mismatch = bytes "proof_public_input_schema_mismatch"
gate_reason_code proof_key_deprecated = bytes "proof_key_deprecated"
gate_reason_code proof_key_revoked = bytes "proof_key_revoked"
gate_reason_code proof_key_not_yet_valid = bytes "proof_key_not_yet_valid"
gate_reason_code proof_key_expired = bytes "proof_key_expired"
gate_reason_code proof_tier_below_policy = bytes "proof_tier_below_policy"
gate_reason_code proof_verifier_not_executed = bytes "proof_verifier_not_executed"

abbrev pub is_metadata_bound : RequiredProofTier → Bool
is_metadata_bound metadata_bound = true
is_metadata_bound _ = false

abbrev pub is_hex_byte : ℕ → Bool
is_hex_byte c = (leb 48 c && leb c 57) || (leb 97 c && leb c 102)

unfoldable pub is_lower_hex_sha256 : Text → Bool
is_lower_hex_sha256 value = length value == 64 && all is_hex_byte value

abbrev pub is_after : Option ℕ → (ℕ → Bool) → Bool
is_after none test = false
is_after (some n) test = test n

abbrev pub supersedes_badly : (Text → Bool) → ProofKeyEntry → Option ProofKeyRef → Bool
supersedes_badly is_blank entry none = false
supersedes_badly is_blank entry (some ref) =
    is_blank ref.vk_id
    || ref.vk_version == 0
    || (ref.vk_id == entry.vk_id && leb entry.vk_version ref.vk_version)

unfoldable pub validate_entry :
    (Text → Bool) → ProofKeyEntry → Result ProofKeyRegistryError (Unit {0})
unfolding is_lower_hex_sha256
validate_entry is_blank entry =
    deny
      (is_blank entry.vk_id
        || is_blank entry.proof_system
        || is_blank entry.circuit_id
        || is_blank entry.public_input_schema_id
        || is_blank entry.claim_label
        || entry.vk_version == 0
        || entry.circuit_version == 0)
      missing_required_field
    >> deny
        (entry.vk_fingerprint_algorithm != bytes "sha256"
          || entry.public_input_schema_hash_algorithm != bytes "sha256")
        invalid_hash_algorithm
    >> deny (not (is_lower_hex_sha256 entry.vk_fingerprint)) invalid_vk_fingerprint
    >> deny (not (is_lower_hex_sha256 entry.public_input_schema_hash))
        invalid_public_input_schema_hash
    >> deny (is_after entry.not_after (λ not_after. leb not_after entry.not_before))
        invalid_validity_window
    >> deny
        (is_empty entry.allowed_tiers
          || any (λ tier. not (is_metadata_bound tier)) entry.allowed_tiers)
        invalid_allowed_tier
    >> deny (supersedes_badly is_blank entry entry.supersedes) invalid_supersession
    >> deny
        (not (
          entry.claim_label == bytes "proof_metadata_bound"
          || entry.claim_label == bytes "proof_registry_checked"))
        overclaiming_claim_label

abbrev pub same_lookup_key : ProofKeyEntry → ProofKeyEntry → Bool
same_lookup_key e f =
    e.proof_system == f.proof_system
    && e.circuit_id == f.circuit_id
    && e.vk_id == f.vk_id
    && e.vk_version == f.vk_version

abbrev pub is_unknown_ref : List ProofKeyEntry → Option ProofKeyRef → Bool
is_unknown_ref entries none = false
is_unknown_ref entries (some ref) =
    not (any (λ e. e.vk_id == ref.vk_id && e.vk_version == ref.vk_version) entries)

-- `from_entries`; the sorting of the entries is a parameter.
unfoldable pub from_entries :
    (Text → Bool)
    → (List ProofKeyEntry → List ProofKeyEntry)
    → List ProofKeyEntry
    → Result ProofKeyRegistryError (List ProofKeyEntry)
unfolding validate_entry
from_entries is_blank sort entries =
    deny (is_empty entries) empty_registry
    >> each_after
        (λ seen entry.
          validate_entry is_blank entry
          >> deny (any (same_lookup_key entry) seen) duplicate_registry_entry)
        [] entries
    >> each (λ entry. deny (is_unknown_ref entries entry.supersedes) invalid_supersession) entries
    >> ok (sort entries)

-- `ProofKeyRegistry::lookup`
unfoldable pub lookup_entry : List ProofKeyEntry → Text → Text → Text → ℕ → Option ProofKeyEntry
lookup_entry entries proof_system circuit_id vk_id vk_version =
    find
      (λ e.
        e.proof_system == proof_system
        && e.circuit_id == circuit_id
        && e.vk_id == vk_id
        && e.vk_version == vk_version)
      entries

abbrev pub has_key_id : ObservedProofMetadata → ProofKeyEntry → Bool
has_key_id o e = e.vk_id == o.vk_id && e.vk_version == o.vk_version

unfoldable pub match_observed :
    List ProofKeyEntry → ObservedProofMetadata → Result ProofGateReason ProofKeyEntry
match_observed entries o = ok_or (find (has_key_id o) entries) unknown_verification_key >>= λ e.
    deny (e.proof_system != o.proof_system) proof_system_mismatch
    >> deny (e.circuit_id != o.circuit_id || e.circuit_version != o.circuit_version)
        proof_circuit_mismatch
    >> deny
        (e.vk_fingerprint_algorithm != o.vk_fingerprint_algorithm
          || e.vk_fingerprint != o.vk_fingerprint)
        proof_vk_fingerprint_mismatch
    >> deny
        (e.public_input_schema_id != o.public_input_schema_id
          || e.public_input_schema_hash_algorithm != o.public_input_schema_hash_algorithm
          || e.public_input_schema_hash != o.public_input_schema_hash)
        proof_public_input_schema_mismatch
    >> ok e

pub record ProofMetadataBinding : Type 0 where
  pub proof_registry_checked : Bool
  pub proof_metadata_bound : Bool
  pub claim_label : Text
  pub vk_id : Text
  pub vk_version : ℕ
  pub proof_system : Text
  pub circuit_id : Text
  pub circuit_version : ℕ
  pub vk_fingerprint_sha256_prefix : Text
  pub public_input_schema_id : Text
  pub public_input_schema_hash_sha256_prefix : Text

abbrev pub true_or_false : Bool → Text
true_or_false true = bytes "true"
true_or_false false = bytes "false"

unfoldable pub redaction_safe_summary_fields : ProofMetadataBinding → List Text
redaction_safe_summary_fields b =
    (bytes "proof_registry_checked:" ++ true_or_false b.proof_registry_checked)
    ∷ (bytes "proof_metadata_bound:" ++ true_or_false b.proof_metadata_bound)
    ∷ (bytes "proof_claim_label:" ++ b.claim_label)
    ∷ (bytes "proof_vk_id:" ++ b.vk_id)
    ∷ (bytes "proof_vk_version:" ++ decimal b.vk_version)
    ∷ (bytes "proof_system:" ++ b.proof_system)
    ∷ (bytes "proof_circuit_id:" ++ b.circuit_id)
    ∷ (bytes "proof_circuit_version:" ++ decimal b.circuit_version)
    ∷ (bytes "proof_vk_fingerprint_sha256_prefix:" ++ b.vk_fingerprint_sha256_prefix)
    ∷ (bytes "proof_public_input_schema_id:" ++ b.public_input_schema_id)
    ∷ (bytes "proof_public_input_schema_hash_sha256_prefix:"
        ++ b.public_input_schema_hash_sha256_prefix)
    ∷ []

abbrev pub check_tier : RequiredProofTier → Result ProofGateReason (Unit {0})
check_tier metadata_bound = ok tt
check_tier _ = err proof_verifier_not_executed

abbrev pub check_lifecycle : Bool → ProofKeyLifecycle → Result ProofGateReason (Unit {0})
check_lifecycle require_active revoked = err proof_key_revoked
check_lifecycle require_active deprecated = deny require_active proof_key_deprecated
check_lifecycle require_active active = ok tt

unfoldable pub binding_of : ProofKeyEntry → ProofMetadataBinding
binding_of e = record {
  proof_registry_checked = true;
  proof_metadata_bound = true;
  claim_label = e.claim_label;
  vk_id = e.vk_id;
  vk_version = e.vk_version;
  proof_system = e.proof_system;
  circuit_id = e.circuit_id;
  circuit_version = e.circuit_version;
  vk_fingerprint_sha256_prefix = take 16 e.vk_fingerprint;
  public_input_schema_id = e.public_input_schema_id;
  public_input_schema_hash_sha256_prefix = take 16 e.public_input_schema_hash;
}

-- `ProofMetadataGate::evaluate_metadata` at the time of the gate.
unfoldable pub evaluate_metadata :
    List ProofKeyEntry
    → ℕ
    → Option ObservedProofMetadata
    → RequiredProofTier
    → Bool
    → Result ProofGateReason ProofMetadataBinding
unfolding match_observed binding_of
evaluate_metadata entries evaluated_at observed required_tier require_active =
    check_tier required_tier >> ok_or observed missing_proof_key_registry_entry >>= λ o.
    match_observed entries o >>= λ e.
    check_lifecycle require_active e.lifecycle
    >> deny (ltb evaluated_at e.not_before) proof_key_not_yet_valid
    >> deny (is_after e.not_after (λ not_after. leb not_after evaluated_at)) proof_key_expired
    >> deny (not (is_metadata_bound o.observed_tier) || not (any is_metadata_bound e.allowed_tiers))
        proof_tier_below_policy
    >> ok (binding_of e)
