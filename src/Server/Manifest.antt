-- ===== src/Server/Manifest.antt =====
-- The receiver's operation descriptors: server/src/manifest.rs. A manifest is the list of its
-- descriptors, at most one for an opcode. SHA-256 is a parameter.
use sec_s_magik.Base.{
  ℕ, Bool, true, false, not, ◌&&◌, ◌||◌, List, [], ◌∷◌, ◌++◌, Option, none, some, Text, bytes,
  Result, deny, ok_or, ◌==◌, leb, is_empty, find, select, length, if◌then◌else◌, list_eq, nat_eq,
}
use sec_s_magik.Server.Errors.{VerificationError, internal_error, unknown_operation}
use sec_s_magik.Server.Text.{decimal, lower_hex}
use sec_s_magik.Server.Authority.{AuthorityMode, mode_text}
use sec_s_magik.Server.Privacy.{
  DisclosurePolicy, DisclosurePermission, class_text, surface_text, representation_text,
}

pub data OpcodeRange : Type 0 where
  reserved core_standardized castalia_standard_candidate operator_defined : OpcodeRange

unfoldable pub classify : ℕ → OpcodeRange
classify opcode =
    if leb 1 opcode && leb opcode 10
    then core_standardized
    else if leb 11 opcode && leb opcode 63
    then castalia_standard_candidate
    else if leb 64 opcode && leb opcode 255
    then operator_defined
    else reserved

pub data TargetKind : Type 0 where
  legacy_core_example local_dev_process receiver_production_handler : TargetKind

pub data ReplayScope : Type 0 where
  session_opcode_nonce : ReplayScope

pub record OutputProfile : Type 0 where
  pub schema_id : Text
  pub max_output_bytes : ℕ
  pub max_execution_response_bytes : ℕ

pub record OperationDescriptor : Type 0 where
  pub opcode : ℕ
  pub name : Text
  pub payload_schema : Option Text
  pub output_profile : Option OutputProfile
  pub target_kind : TargetKind
  pub required_credentials : List Text
  pub required_capabilities : List Text
  pub accepted_evidence : List Text
  pub required_authority_mode : Option AuthorityMode
  pub replay_scope : ReplayScope
  pub max_ttl_seconds : ℕ
  pub handler_id : Text
  pub dev_binding : Bool
  pub range : OpcodeRange
  pub disclosure_policy : DisclosurePolicy

abbrev pub is_bad_profile : OutputProfile → Bool
is_bad_profile profile =
    is_empty profile.schema_id
    || profile.max_output_bytes == 0
    || profile.max_execution_response_bytes == 0

abbrev pub is_bad_output : Option OutputProfile → Bool
is_bad_output none = false
is_bad_output (some profile) = is_bad_profile profile

unfoldable pub validate : OperationDescriptor → Result VerificationError (Unit {0})
validate d = deny (is_bad_output d.output_profile) internal_error

unfoldable pub target_kind_label : TargetKind → Text
target_kind_label legacy_core_example = bytes "legacy_core_example"
target_kind_label local_dev_process = bytes "local_dev_process"
target_kind_label receiver_production_handler = bytes "receiver_production_handler"

unfoldable pub replay_scope_fingerprint_label : ReplayScope → Text
replay_scope_fingerprint_label session_opcode_nonce = bytes "session_opcode_nonce"

unfoldable pub opcode_range_label : OpcodeRange → Text
opcode_range_label reserved = bytes "reserved"
opcode_range_label core_standardized = bytes "core_standardized"
opcode_range_label castalia_standard_candidate = bytes "castalia_standard_candidate"
opcode_range_label operator_defined = bytes "operator_defined"

-- One field of the fingerprint: its name, the length of its value, the value, each with its mark.
unfoldable pub fingerprint_field : Text → Text → Text
fingerprint_field name value =
    name ++ bytes ":" ++ decimal (length value) ++ bytes ":" ++ value ++ (10 ∷ [])

abbrev pub repeated_field : Text → List Text → Text
unfolding fingerprint_field
repeated_field name [] = []
repeated_field name (value ∷ values) = fingerprint_field name value ++ repeated_field name values

abbrev pub true_or_false : Bool → Text
true_or_false true = bytes "true"
true_or_false false = bytes "false"

abbrev pub profile_fields : Option OutputProfile → Text
unfolding fingerprint_field
profile_fields none = fingerprint_field (bytes "output_profile_present") (bytes "false")
profile_fields (some profile) =
    fingerprint_field (bytes "output_profile_present") (bytes "true")
    ++ fingerprint_field (bytes "output_schema_id") profile.schema_id
    ++ fingerprint_field (bytes "output_max_bytes") (decimal profile.max_output_bytes)
    ++ fingerprint_field (bytes "output_max_execution_response_bytes")
        (decimal profile.max_execution_response_bytes)

abbrev pub empty_or : Option Text → Text
empty_or none = []
empty_or (some text) = text

abbrev pub empty_or_mode : Option AuthorityMode → Text
unfolding mode_text
empty_or_mode none = []
empty_or_mode (some mode) = mode_text mode

abbrev pub permission_fields : List DisclosurePermission → Text
unfolding fingerprint_field class_text surface_text representation_text
permission_fields [] = []
permission_fields (p ∷ ps) =
    fingerprint_field (bytes "disclosure_permission") (
      class_text p.class
      ++ bytes ":"
      ++ surface_text p.surface
      ++ bytes ":"
      ++ representation_text p.representation)
    ++ permission_fields ps

-- The bytes that `authorization_fingerprint` digests.
unfoldable pub fingerprint_bytes : OperationDescriptor → Text
unfolding fingerprint_field target_kind_label replay_scope_fingerprint_label opcode_range_label
    mode_text class_text surface_text representation_text
fingerprint_bytes d =
    fingerprint_field (bytes "version") (bytes "secs-descriptor-fingerprint-v1")
    ++ fingerprint_field (bytes "opcode") (lower_hex (d.opcode ∷ []))
    ++ fingerprint_field (bytes "operation") d.name
    ++ fingerprint_field (bytes "payload_schema") (empty_or d.payload_schema)
    ++ profile_fields d.output_profile
    ++ fingerprint_field (bytes "target_kind") (target_kind_label d.target_kind)
    ++ repeated_field (bytes "required_credential") d.required_credentials
    ++ repeated_field (bytes "required_capability") d.required_capabilities
    ++ repeated_field (bytes "accepted_evidence") d.accepted_evidence
    ++ fingerprint_field (bytes "required_authority_mode") (empty_or_mode d.required_authority_mode)
    ++ fingerprint_field (bytes "replay_scope") (replay_scope_fingerprint_label d.replay_scope)
    ++ fingerprint_field (bytes "max_ttl_seconds") (decimal d.max_ttl_seconds)
    ++ fingerprint_field (bytes "handler_id") d.handler_id
    ++ fingerprint_field (bytes "dev_binding") (true_or_false d.dev_binding)
    ++ fingerprint_field (bytes "range") (opcode_range_label d.range)
    ++ fingerprint_field (bytes "disclosure_policy_id") d.disclosure_policy.policy_id
    ++ fingerprint_field (bytes "disclosure_policy_version")
        (decimal d.disclosure_policy.policy_version)
    ++ permission_fields d.disclosure_policy.permissions

unfoldable pub authorization_fingerprint : (List ℕ → List ℕ) → OperationDescriptor → Text
unfolding fingerprint_bytes
authorization_fingerprint sha256 d =
    bytes "descriptor:sha256:" ++ lower_hex (sha256 (fingerprint_bytes d))

abbrev pub ReceiverManifest : Type 0
ReceiverManifest = List OperationDescriptor

unfoldable pub with_descriptor : ReceiverManifest → OperationDescriptor → ReceiverManifest
with_descriptor manifest d = d ∷ select (λ old. not (old.opcode == d.opcode)) manifest

-- `ReceiverManifest::new`: a later descriptor replaces an earlier one of its opcode.
unfoldable pub new_manifest : ReceiverManifest → List OperationDescriptor → ReceiverManifest
unfolding with_descriptor
new_manifest manifest [] = manifest
new_manifest manifest (d ∷ ds) = new_manifest (with_descriptor manifest d) ds

unfoldable pub lookup : ReceiverManifest → ℕ → Result VerificationError OperationDescriptor
lookup manifest opcode = ok_or (find (λ d. d.opcode == opcode) manifest) unknown_operation
