-- ===== src/Examples/SessionKeys.antt =====
-- The session of Session: its authorization and the credential issued on it.
use sec_s_magik.Base.{◌≤◌, ◌<◌, ◌≡◌, ◌↔◌, refl, true, false, Text, ok, list_eq, nat_eq, arith}
use sec_s_magik.Contract.{check_text, is_bad_text}
use sec_s_magik.Contract.Json.{safe, has_key}
use sec_s_magik.Contract.Validity
use sec_s_magik.Contract.Codec.{
  canonical, key, public_hex, sign, verify, transcript, digest, hex, is_bad_hex,
}
use sec_s_magik.Contract.Holder.{validate_grant, grant_mismatch, verify_grant, checked_add}
use sec_s_magik.Contract.Selector.{
  validate, validate_selection, references, validate_ref, validate_hierarchy, hierarchy_within,
  selection_within, within,
}
use sec_s_magik.Contract.Version2
use sec_s_magik.Contract.Version2.{Permission}
use sec_s_magik.Contract.Sessions.{Credential, credential_schema, is_bad_structure, is_unbound}
use sec_s_magik.Contract.Sessions.Protocol
use sec_s_magik.Contract.Sessions.Windows.{session_credential_window, parent_binding_at}
use sec_s_magik.Contract.Sessions.Exchange.{authorize-verify}
use sec_s_magik.Contract.Sessions.Issue.{issue-verify_parent}
use sec_s_magik.Contract.Version2.{permission_eq}
use sec_s_magik.Examples.Libraries.{crypto, crypto_laws, json, times, encode}
use sec_s_magik.Examples.Documents.{value2, list_value2}
use sec_s_magik.Examples.Session.{
  wire, session_wire, pin, parent, challenge, context, authorization,
}

authorized :
    Protocol.authorize crypto json value2 list_value2 wire session_wire pin parent challenge
      (encode (times 64 1))
      context
      false
      210
    ≡ ok authorization
unfolding Protocol.authorize Protocol.review_challenge Protocol.parent_binding Protocol.structure
    is_bad_structure is_unbound checked_add digest verify_grant verify validate_grant grant_mismatch
    canonical safe has_key check_text is_bad_text key hex is_bad_hex public_hex sign transcript
    Validity.contains Validity.end_of Version2.profile Version2.permissions_within
    Version2.permissions Version2.validate Version2.all_narrowed Version2.any_narrows
    Version2.roles_narrower Version2.found_within within validate validate_selection references
    validate_ref validate_hierarchy selection_within hierarchy_within
authorized = refl

authorize-verify_example :
    Protocol.verify_authorization crypto json value2 list_value2 wire session_wire pin authorization
      context 210
    ≡ ok tt
authorize-verify_example =
    authorize-verify crypto json value2 list_value2 wire session_wire crypto_laws pin parent
      challenge (encode (times 64 1)) context false 210 authorization authorized

abbrev pub credential : Credential Text
credential = record {
  claims = record {
    schema = credential_schema;
    credential_id = times 32 b'6';
    challenge_digest = encode (times 32 32);
    challenge = challenge;
  };
  signature = encode (times 64 1);
}

pub issued :
    Protocol.issue crypto json value2 list_value2 wire session_wire pin authorization
      (times 32 b'6')
      context
      true
      220
    ≡ ok credential
unfolding Protocol.issue Protocol.verify_authorization Protocol.review_challenge
    Protocol.parent_binding Protocol.structure is_bad_structure is_unbound checked_add digest
    verify_grant verify validate_grant grant_mismatch canonical safe has_key check_text is_bad_text
    key hex is_bad_hex public_hex sign transcript Validity.contains Validity.end_of Version2.profile
    Version2.permissions_within Version2.permissions Version2.validate Version2.all_narrowed
    Version2.any_narrows Version2.roles_narrower Version2.found_within within validate
    validate_selection references validate_ref validate_hierarchy selection_within hierarchy_within
issued = refl

issue-verify_parent_example :
    Protocol.verify_parent crypto json value2 list_value2 wire session_wire pin parent credential
      context 499
    ≡ ok tt
issue-verify_parent_example =
    issue-verify_parent crypto json value2 list_value2 wire session_wire crypto_laws pin
      authorization (times 32 b'6') context true 220 499 credential issued (omega arith)
      (omega arith)

verified :
    Protocol.verify_credential crypto json value2 list_value2 wire session_wire pin credential
      context 220
    ≡ ok tt
unfolding Protocol.verify_credential Protocol.review_challenge Protocol.parent_binding
    Protocol.structure is_bad_structure is_unbound checked_add digest verify_grant verify
    validate_grant grant_mismatch canonical safe has_key check_text is_bad_text key hex is_bad_hex
    public_hex sign transcript Validity.contains Validity.end_of Version2.profile
    Version2.permissions_within Version2.permissions Version2.validate Version2.all_narrowed
    Version2.any_narrows Version2.roles_narrower Version2.found_within within validate
    validate_selection references validate_ref validate_hierarchy selection_within hierarchy_within
verified = refl

session_credential_window_example :
    (Protocol.verify_credential crypto json value2 list_value2 wire session_wire pin credential
        context 500
      ≡ ok tt)
    ↔ ((200 ≤ 500) × (500 < 500))
session_credential_window_example =
    session_credential_window crypto json value2 list_value2 wire session_wire pin credential
      context 220 500 verified

bound :
    Protocol.parent_binding crypto json value2 list_value2 wire session_wire pin parent challenge
      context 220
    ≡ ok tt
unfolding Protocol.review_challenge Protocol.parent_binding Protocol.structure is_bad_structure
    is_unbound checked_add digest verify_grant verify validate_grant grant_mismatch canonical safe
    has_key check_text is_bad_text key hex is_bad_hex public_hex sign transcript Validity.contains
    Validity.end_of Version2.profile Version2.permissions_within Version2.permissions
    Version2.validate Version2.all_narrowed Version2.any_narrows Version2.roles_narrower
    Version2.found_within within validate validate_selection references validate_ref
    validate_hierarchy selection_within hierarchy_within
bound = refl

parent_binding_at_example :
    Protocol.parent_binding crypto json value2 list_value2 wire session_wire pin parent challenge
      context 499
    ≡ ok tt
parent_binding_at_example =
    parent_binding_at crypto json value2 list_value2 wire session_wire pin parent challenge context
      220 499 bound (omega arith) (omega arith)
