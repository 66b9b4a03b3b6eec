-- ===== src/Server/Errors.antt =====
-- The errors of verification and their stable reason codes: server/src/verifier.rs.
use sec_s_magik.Base.{Text, bytes}

pub data VerificationError : Type 0 where
  malformed_packet expired_claim claim_ttl_exceeds_descriptor_max invalid_session :
      VerificationError
  missing_prototype_proof_envelope bad_prototype_proof_envelope missing_tunnel_key bad_mac :
      VerificationError
  unknown_operation handler_unavailable prototype_operation_not_production_authorized :
      VerificationError
  wrong_audience wrong_subject wrong_origin wrong_operation wrong_resource : VerificationError
  resource_lock_violation authority_amplification insufficient_evidence invalid_presentation :
      VerificationError
  invalid_signature not_yet_valid_claim unsupported_signature_suite unknown_issuer :
      VerificationError
  wrong_issuer_key wrong_trust_root wrong_registry_root wrong_root wrong_epoch stale revoked :
      VerificationError
  not_final equivocated malformed_dregg_authority unsupported_suite wrong_binding :
      VerificationError
  missing_status missing_revocation_root wrong_revocation_root : VerificationError
  unsupported_revocation_verifier unsupported_bls_threshold_finality : VerificationError
  unsupported_rotated_replay_verifier missing_live_dregg_verifier : VerificationError
  missing_live_dregg_revocation_verifier missing_live_dregg_bls_threshold_verifier :
      VerificationError
  missing_live_dregg_rotated_replay_verifier evidence_tier_too_weak : VerificationError
  unsupported_evidence_kind unsupported_evidence_tier unsupported_authority_mode : VerificationError
  authority_mode_downgrade reserved_authority_mode stale_dregg_revocation_root : VerificationError
  invalid_dregg_revocation_proof invalid_dregg_finality_qc : VerificationError
  unsupported_dregg_finality_committee invalid_dregg_rotated_proof invalid_admission :
      VerificationError
  revoked_issuer revoked_credential stale_registry_status unknown_verifier_key : VerificationError
  revoked_verifier_key expired_verifier_key not_yet_valid_verifier_key : VerificationError
  untrusted_verifier_key bad_caller_proof unknown_caller_key revoked_caller_key : VerificationError
  expired_caller_key not_yet_valid_caller_key missing_caller_registry : VerificationError
  privacy_policy_violation over_disclosed_presentation forbidden_field_present : VerificationError
  internal_error : VerificationError

unfoldable pub reason_code : VerificationError → Text
reason_code malformed_packet = bytes "malformed_packet"
reason_code expired_claim = bytes "expired_claim"
reason_code claim_ttl_exceeds_descriptor_max = bytes "claim_ttl_exceeds_descriptor_max"
reason_code invalid_session = bytes "invalid_session"
reason_code missing_prototype_proof_envelope = bytes "missing_prototype_proof_envelope"
reason_code bad_prototype_proof_envelope = bytes "bad_prototype_proof_envelope"
reason_code missing_tunnel_key = bytes "missing_tunnel_key"
reason_code bad_mac = bytes "bad_mac"
reason_code unknown_operation = bytes "unknown_operation"
reason_code handler_unavailable = bytes "handler_unavailable"
reason_code prototype_operation_not_production_authorized =
    bytes "prototype_operation_not_production_authorized"
reason_code wrong_audience = bytes "wrong_audience"
reason_code wrong_subject = bytes "wrong_subject"
reason_code wrong_origin = bytes "wrong_origin"
reason_code wrong_operation = bytes "wrong_operation"
reason_code wrong_resource = bytes "wrong_resource"
reason_code resource_lock_violation = bytes "resource_lock_violation"
reason_code authority_amplification = bytes "authority_amplification"
reason_code insufficient_evidence = bytes "insufficient_evidence"
reason_code invalid_presentation = bytes "invalid_presentation"
reason_code invalid_signature = bytes "invalid_signature"
reason_code not_yet_valid_claim = bytes "not_yet_valid_claim"
reason_code unsupported_signature_suite = bytes "unsupported_signature_suite"
reason_code unknown_issuer = bytes "unknown_issuer"
reason_code wrong_issuer_key = bytes "wrong_issuer_key"
reason_code wrong_trust_root = bytes "wrong_trust_root"
reason_code wrong_registry_root = bytes "wrong_registry_root"
reason_code wrong_root = bytes "wrong_root"
reason_code wrong_epoch = bytes "wrong_epoch"
reason_code stale = bytes "stale"
reason_code revoked = bytes "revoked"
reason_code not_final = bytes "not_final"
reason_code equivocated = bytes "equivocated"
reason_code malformed_dregg_authority = bytes "malformed"
reason_code unsupported_suite = bytes "unsupported_suite"
reason_code wrong_binding = bytes "wrong_binding"
reason_code missing_status = bytes "missing_status"
reason_code missing_revocation_root = bytes "missing_revocation_root"
reason_code wrong_revocation_root = bytes "wrong_revocation_root"
reason_code unsupported_revocation_verifier = bytes "unsupported_revocation_verifier"
reason_code unsupported_bls_threshold_finality = bytes "unsupported_bls_threshold_finality"
reason_code unsupported_rotated_replay_verifier = bytes "unsupported_rotated_replay_verifier"
reason_code missing_live_dregg_verifier = bytes "missing_live_dregg_verifier"
reason_code missing_live_dregg_revocation_verifier = bytes "missing_live_dregg_revocation_verifier"
reason_code missing_live_dregg_bls_threshold_verifier =
    bytes "missing_live_dregg_bls_threshold_verifier"
reason_code missing_live_dregg_rotated_replay_verifier =
    bytes "missing_live_dregg_rotated_replay_verifier"
reason_code evidence_tier_too_weak = bytes "evidence_tier_too_weak"
reason_code unsupported_evidence_kind = bytes "unsupported_evidence_kind"
reason_code unsupported_evidence_tier = bytes "unsupported_evidence_tier"
reason_code unsupported_authority_mode = bytes "unsupported_authority_mode"
reason_code authority_mode_downgrade = bytes "authority_mode_downgrade"
reason_code reserved_authority_mode = bytes "reserved_authority_mode"
reason_code stale_dregg_revocation_root = bytes "stale_dregg_revocation_root"
reason_code invalid_dregg_revocation_proof = bytes "invalid_dregg_revocation_proof"
reason_code invalid_dregg_finality_qc = bytes "invalid_dregg_finality_qc"
reason_code unsupported_dregg_finality_committee = bytes "unsupported_dregg_finality_committee"
reason_code invalid_dregg_rotated_proof = bytes "invalid_dregg_rotated_proof"
reason_code invalid_admission = bytes "invalid_admission"
reason_code revoked_issuer = bytes "revoked_issuer"
reason_code revoked_credential = bytes "revoked_credential"
reason_code stale_registry_status = bytes "stale_registry_status"
reason_code unknown_verifier_key = bytes "unknown_verifier_key"
reason_code revoked_verifier_key = bytes "revoked_verifier_key"
reason_code expired_verifier_key = bytes "expired_verifier_key"
reason_code not_yet_valid_verifier_key = bytes "not_yet_valid_verifier_key"
reason_code untrusted_verifier_key = bytes "untrusted_verifier_key"
reason_code bad_caller_proof = bytes "bad_caller_proof"
reason_code unknown_caller_key = bytes "unknown_caller_key"
reason_code revoked_caller_key = bytes "revoked_caller_key"
reason_code expired_caller_key = bytes "expired_caller_key"
reason_code not_yet_valid_caller_key = bytes "not_yet_valid_caller_key"
reason_code missing_caller_registry = bytes "missing_caller_registry"
reason_code privacy_policy_violation = bytes "privacy_policy_violation"
reason_code over_disclosed_presentation = bytes "over_disclosed_presentation"
reason_code forbidden_field_present = bytes "forbidden_field_present"
reason_code internal_error = bytes "internal_error"
