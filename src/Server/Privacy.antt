-- ===== src/Server/Privacy.antt =====
-- The scan for fields that must not be disclosed: server/src/privacy.rs. The JSON parser and the
-- lossy decoding of bytes are parameters.
mod Policy
unfoldable pub use Policy.*
pub mod Names
use sec_s_magik.Base.{
  ℕ, ◌-◌, Bool, true, false, not, ◌&&◌, ◌||◌, List, [], ◌∷◌, Option, none, some, Text, bytes,
  Result, ok, err, ◌>>=◌, ◌>>◌, deny, ◌==◌, ◌!=◌, is_prefix, is_empty, length, take, drop, contains,
  if◌then◌else◌, list_eq, nat_eq,
}
use sec_s_magik.Server.Text.{contains_text, to_ascii_lowercase, strip_suffix, split_once}
use sec_s_magik.Contract.Json.{
  Json, null, boolean, number, string, array, object, Items, nil, cons, Fields, end, field,
}

pub record PrivacyViolation : Type 0 where
  pub surface : PrivacySurface
  pub class : ForbiddenFieldClass
  pub field_name : Text

abbrev wallet_identity_names : List Text
wallet_identity_names =
    bytes "wallet_id"
    ∷ bytes "walletId"
    ∷ bytes "wallet"
    ∷ bytes "wallet_address"
    ∷ bytes "walletAddress"
    ∷ []

abbrev holder_identity_names : List Text
holder_identity_names =
    bytes "holder_id"
    ∷ bytes "holderId"
    ∷ bytes "holder"
    ∷ bytes "holder_did"
    ∷ bytes "holderDid"
    ∷ []

abbrev subject_identity_names : List Text
subject_identity_names =
    bytes "subject_id"
    ∷ bytes "subjectId"
    ∷ bytes "subject"
    ∷ bytes "subject_handle"
    ∷ bytes "subjectHandle"
    ∷ bytes "stable_subject_handle"
    ∷ []

abbrev credential_identity_names : List Text
credential_identity_names =
    bytes "credential_id" ∷ bytes "credentialId" ∷ bytes "cred_id" ∷ bytes "credential_uuid" ∷ []

abbrev raw_credential_attributes_names : List Text
raw_credential_attributes_names =
    bytes "credential"
    ∷ bytes "credential_payload"
    ∷ bytes "attributes"
    ∷ bytes "claims"
    ∷ bytes "raw_attributes"
    ∷ bytes "rawCredentialAttributes"
    ∷ []

abbrev raw_proof_bytes_names : List Text
raw_proof_bytes_names =
    bytes "proof"
    ∷ bytes "proof_bytes"
    ∷ bytes "raw_proof"
    ∷ bytes "signature"
    ∷ bytes "sig_bytes"
    ∷ bytes "presentation_proof"
    ∷ []

abbrev witness_private_inputs_names : List Text
witness_private_inputs_names =
    bytes "witness"
    ∷ bytes "private_witness"
    ∷ bytes "secret"
    ∷ bytes "preimage"
    ∷ bytes "nullifier_preimage"
    ∷ []

abbrev trace_debug_material_names : List Text
trace_debug_material_names =
    bytes "trace"
    ∷ bytes "debug_trace"
    ∷ bytes "presentation_trace"
    ∷ bytes "span_payload"
    ∷ bytes "backtrace_with_payload"
    ∷ []

abbrev token_secret_names : List Text
token_secret_names =
    bytes "token"
    ∷ bytes "bearer"
    ∷ bytes "authorization"
    ∷ bytes "auth_header"
    ∷ bytes "api_key"
    ∷ bytes "session_token"
    ∷ []

abbrev source_auth_token_names : List Text
source_auth_token_names =
    bytes "source_auth_token"
    ∷ bytes "sourceAuthToken"
    ∷ bytes "authority_source_token"
    ∷ bytes "upstream_token"
    ∷ []

abbrev issuer_private_material_names : List Text
issuer_private_material_names =
    bytes "issuer_private_key"
    ∷ bytes "issuer_sk"
    ∷ bytes "issuer_secret"
    ∷ bytes "issuer_private_material"
    ∷ bytes "signing_secret"
    ∷ []

abbrev stable_nullifier_names : List Text
stable_nullifier_names =
    bytes "nullifier"
    ∷ bytes "stable_nullifier"
    ∷ bytes "global_nullifier"
    ∷ bytes "link_secret"
    ∷ bytes "linking_tag"
    ∷ []

abbrev network_metadata_names : List Text
network_metadata_names =
    bytes "ip"
    ∷ bytes "ip_address"
    ∷ bytes "remote_addr"
    ∷ bytes "peer_addr"
    ∷ bytes "x_forwarded_for"
    ∷ bytes "user_agent"
    ∷ bytes "network_metadata"
    ∷ []

-- The `match` on the base of a field name.
unfoldable pub classify_base : Text → Option ForbiddenFieldClass
classify_base base =
    if contains wallet_identity_names base
    then some wallet_identity
    else if contains holder_identity_names base
    then some holder_identity
    else if contains subject_identity_names base
    then some subject_identity
    else if contains credential_identity_names base
    then some credential_identity
    else if contains raw_credential_attributes_names base
    then some raw_credential_attributes
    else if contains raw_proof_bytes_names base
    then some raw_proof_bytes
    else if contains witness_private_inputs_names base
    then some witness_private_inputs
    else if contains trace_debug_material_names base
    then some trace_debug_material
    else if contains token_secret_names base
    then some token_secret
    else if contains source_auth_token_names base
    then some source_auth_token
    else if contains issuer_private_material_names base
    then some issuer_private_material
    else if contains stable_nullifier_names base
    then some stable_nullifier
    else if contains network_metadata_names base
    then some network_metadata
    else none

abbrev pub digest_suffix : Text
digest_suffix = bytes "_sha256"

abbrev pub or_else : Option Text → Text → Text
or_else none text = text
or_else (some found) text = found

abbrev pub representation_of : Text → DisclosureRepresentation
representation_of name = elim (strip_suffix digest_suffix name) [
  | none ↦ derived_status
  | some base ↦ redacted_digest
]

unfoldable pub classify_field_name : Text → Option (ForbiddenFieldClass × DisclosureRepresentation)
unfolding classify_base
classify_field_name name = elim (classify_base (or_else (strip_suffix digest_suffix name) name)) [
  | none ↦ none
  | some class ↦ some (class, representation_of name)
]

abbrev pub keeps_signature : PrivacySurface → Bool
keeps_signature verify_receipt = true
keeps_signature reject_receipt = true
keeps_signature execute_receipt = true
keeps_signature public_audit = true
keeps_signature _ = false

module _ (on : PrivacySurface) (policy : DisclosurePolicy) where
  unfoldable pub check_field_name : Text → Result PrivacyViolation (Unit {0})
  unfolding classify_field_name permits
  check_field_name name =
      if name == bytes "signature" && keeps_signature on
      then ok tt
      else elim (classify_field_name name) [
        | none ↦ ok tt
        | some (class, representation) ↦
            deny (representation != redacted_digest || not (permits policy class on representation))
              (record { surface = on; class = class; field_name = name })
      ]

  unfoldable pub is_redacted_marker : Text → Bool
  is_redacted_marker value =
      let lower = to_ascii_lowercase value in
      contains_text (bytes "[redacted]") lower
      || contains_text (bytes "redacted_") lower
      || is_prefix (bytes "sha256:") lower
      || is_prefix (bytes "digest:") lower

  abbrev pub is_classified : Text → Bool
  unfolding classify_field_name
  is_classified name = elim (classify_field_name name) [ none ↦ false | some found ↦ true ]

  unfoldable pub scan_text : Text → Result PrivacyViolation (Unit {0})
  unfolding check_field_name is_redacted_marker classify_field_name
  scan_text text =
      if contains_text (bytes "I02_SENTINEL_") text
      then err
          (record { surface = on; class = trace_debug_material; field_name = bytes "sentinel" })
      else elim (split_once 58 text) [
        | none ↦ ok tt
        | some (start, rest) ↦
            if is_classified start && is_redacted_marker rest then ok tt else check_field_name start
      ]

  unfoldable mutual
    unfolding scan_text check_field_name

    pub scan_value : Json → Result PrivacyViolation (Unit {0})
    scan_value null = ok tt
    scan_value (boolean b) = ok tt
    scan_value (number n) = ok tt
    scan_value (string text) = scan_text text
    scan_value (array items) = scan_items items
    scan_value (object fields) = scan_object fields

    pub scan_items : Items → Result PrivacyViolation (Unit {0})
    scan_items nil = ok tt
    scan_items (cons value items) = scan_value value >> scan_items items

    pub scan_object : Fields → Result PrivacyViolation (Unit {0})
    scan_object end = ok tt
    scan_object (field name value fields) =
        check_field_name name >> scan_value value >> scan_object fields

  unfoldable pub scan_string_fields : List Text → Result PrivacyViolation (Unit {0})
  unfolding scan_text
  scan_string_fields [] = ok tt
  scan_string_fields (text ∷ texts) = scan_text text >> scan_string_fields texts

  unfoldable pub scan_json_bytes :
      (Text → Option Json) → (Text → Text) → Text → Result PrivacyViolation (Unit {0})
  unfolding scan_value scan_text
  scan_json_bytes parse lossy payload =
      if is_empty payload
      then ok tt
      else elim (parse payload) [ none ↦ scan_text (lossy payload) | some value ↦ scan_value value ]
