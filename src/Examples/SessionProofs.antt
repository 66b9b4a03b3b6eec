-- ===== src/Examples/SessionProofs.antt =====
-- The session of Session: a presentation and a status request.
use sec_s_magik.Base.{◌≡◌, refl, true, ok, bytes, list_eq, nat_eq, arith}
use sec_s_magik.Contract.{check_text, is_bad_text}
use sec_s_magik.Contract.Json.{safe, has_key}
use sec_s_magik.Contract.Validity
use sec_s_magik.Contract.Claims.{Proof}
use sec_s_magik.Contract.Codec.{
  canonical, key, public_hex, sign, verify, transcript, digest, hex, is_bad_hex,
}
use sec_s_magik.Contract.Holder.{validate_grant, grant_mismatch, verify_grant, checked_add}
use sec_s_magik.Contract.Selector.{
  validate, validate_selection, references, validate_ref, validate_hierarchy, hierarchy_within,
  selection_within, within,
}
use sec_s_magik.Contract.Version2
use sec_s_magik.Contract.Version2.{Permission}
use sec_s_magik.Contract.Sessions.{
  StatusRequest, presentation_schema, status_schema, is_bad_structure, is_unbound, str_field,
  count_fields,
}
use sec_s_magik.Contract.Sessions.Protocol
use sec_s_magik.Contract.Sessions.Issue.{issue-verify_parent}
use sec_s_magik.Contract.Sessions.Presentations.{session_present-verify}
use sec_s_magik.Contract.Sessions.Presented.{session_presentation_bound, IsPresented}
use sec_s_magik.Contract.Version2.{permission_eq}
use sec_s_magik.Examples.Libraries.{crypto, crypto_laws, json, times, encode}
use sec_s_magik.Examples.Documents.{value2, list_value2}
use sec_s_magik.Examples.Session.{
  wire, session_wire, pin, parent, challenge, context, authorization,
}
use sec_s_magik.Examples.SessionKeys.{credential, issued}

abbrev proof : Proof
proof = record {
  schema = presentation_schema;
  credential_digest = encode (times 32 128);
  call_digest = encode (times 32 4);
  nonce = times 32 b'7';
  issued_at = 300;
  expires_at = 360;
  signature = encode (times 64 1);
}

presented :
    Protocol.present crypto json value2 list_value2 wire session_wire pin credential
      (bytes "call")
      (times 32 b'7')
      context
      300
      true
    ≡ ok proof
unfolding Protocol.present Protocol.verify_credential Protocol.call_allowed str_field count_fields
    Protocol.review_challenge Protocol.parent_binding Protocol.structure is_bad_structure is_unbound
    checked_add digest verify_grant verify validate_grant grant_mismatch canonical safe has_key
    check_text is_bad_text key hex is_bad_hex public_hex sign transcript Validity.contains
    Validity.end_of Version2.profile Version2.permissions_within Version2.permissions
    Version2.validate Version2.all_narrowed Version2.any_narrows Version2.roles_narrower
    Version2.found_within within validate validate_selection references validate_ref
    validate_hierarchy selection_within hierarchy_within
presented = refl

proof_verifies :
    Protocol.verify_presentation crypto json value2 list_value2 wire session_wire pin parent
      credential
      (bytes "call")
      proof
      context
      359
    ≡ ok tt
proof_verifies =
    session_present-verify crypto json value2 list_value2 wire session_wire crypto_laws pin parent
      credential (bytes "call") (times 32 b'7') context 300 359 true proof presented
      (issue-verify_parent crypto json value2 list_value2 wire session_wire crypto_laws pin
        authorization (times 32 b'6') context true 220 359 credential issued (omega arith)
        (omega arith))
      (omega arith) (omega arith)

session_present-verify_example :
    Protocol.verify_presentation crypto json value2 list_value2 wire session_wire pin parent
      credential
      (bytes "call")
      proof
      context
      359
    ≡ ok tt
session_present-verify_example =
    session_present-verify crypto json value2 list_value2 wire session_wire crypto_laws pin parent
      credential (bytes "call") (times 32 b'7') context 300 359 true proof presented
      (issue-verify_parent crypto json value2 list_value2 wire session_wire crypto_laws pin
        authorization (times 32 b'6') context true 220 359 credential issued (omega arith)
        (omega arith))
      (omega arith) (omega arith)

session_presentation_bound_example :
    IsPresented crypto json value2 list_value2 wire session_wire pin parent credential
      (bytes "call")
      proof
      359
session_presentation_bound_example =
    session_presentation_bound crypto json value2 list_value2 wire session_wire pin parent
      credential (bytes "call") proof context 359 proof_verifies

abbrev status : StatusRequest
status = record {
  schema = status_schema;
  request_id = times 32 b'2';
  challenge_id = times 32 b'1';
  nonce = times 32 b'8';
  issued_at = 470;
  expires_at = 500;
  signature = encode (times 64 1);
}

asked :
    Protocol.prove_status crypto json value2 list_value2 wire session_wire challenge
      (times 32 b'8')
      470
      true
    ≡ ok status
unfolding Protocol.prove_status Protocol.review_challenge Protocol.parent_binding Protocol.structure
    is_bad_structure is_unbound checked_add digest verify_grant verify validate_grant grant_mismatch
    canonical safe has_key check_text is_bad_text key hex is_bad_hex public_hex sign transcript
    Validity.contains Validity.end_of Version2.profile Version2.permissions_within
    Version2.permissions Version2.validate Version2.all_narrowed Version2.any_narrows
    Version2.roles_narrower Version2.found_within within validate validate_selection references
    validate_ref validate_hierarchy selection_within hierarchy_within
asked = refl
