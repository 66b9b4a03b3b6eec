-- ===== src/Examples/Grants.antt =====
-- One grant, a credential derived from it, and a presentation, in version 1: the theorems on the
-- holder documents; and one access point.
use sec_s_magik.Base.{
  ℕ, ◌+◌, ◌≤◌, ◌<◌, ◌≡◌, ◌↔◌, refl, true, false, [], ◌∷◌, Text, none, ok, bytes, list_eq, nat_eq,
  arith,
}
use sec_s_magik.Contract.{check_text, is_bad_text}
use sec_s_magik.Contract.Json.{safe, has_key}
use sec_s_magik.Contract.Validity
use sec_s_magik.Contract.Claims.{IssuerPin, GrantClaims, Grant, Credential, Proof, Profile, Wire}
use sec_s_magik.Contract.Codec.{
  canonical, key, public_hex, sign, verify, transcript, digest, hex, is_bad_hex,
}
use sec_s_magik.Contract.Holder.{
  validate_grant, grant_mismatch, issue_grant, verify_grant, derive_credential, verify_credential,
  validate_credential, credential_mismatch, present, verify_presentation, checked_add,
}
use sec_s_magik.Contract.Holder.Issue.{issue-verify}
use sec_s_magik.Contract.Holder.Credentials.{
  derive-verify, verify_credential_window, verify_credential_narrows,
}
use sec_s_magik.Contract.Holder.Presentations.{present-verify, verify_presentation_bound}
use sec_s_magik.Contract.Scope.{validate_scope, scope_within}
use sec_s_magik.Contract.Version1
use sec_s_magik.Contract.Version1.{Permission}
use sec_s_magik.Contract.Version1.{permission_eq}
use sec_s_magik.Contract.Version1.Narrowing.{IsContained}
use sec_s_magik.Contract.Version1.Documents.{verify_credential-IsContained}
use sec_s_magik.Base.{contains}
use sec_s_magik.Examples.Libraries.{crypto, crypto_laws, json, times, encode}
use sec_s_magik.Examples.Documents.{folder1, document1, list_value1}

abbrev profile : Profile (Permission Text)
profile = Version1.profile json list_value1

-- Each document is written as one of its texts.
abbrev wire : Wire (Permission Text) Text
wire = record {
  grant_claims = λ c. c.grant_id;
  grant_value = λ g. g.signature;
  credential_claims = λ c. c.credential_id;
  credential_value = λ c. c.signature;
  proof_claims = λ schema credential_digest call_digest nonce issued_at expires_at. nonce;
  presentation = λ c call p. call;
}

abbrev pin : IssuerPin
pin = record {
  issuer = bytes "issuer";
  key_id = bytes "key";
  public_key = encode (times 32 1);
  service = bytes "files";
}

abbrev claims : GrantClaims (Permission Text)
claims = record {
  schema = bytes "secs.holder-grant.v1";
  grant_id = times 32 b'0';
  revision = times 64 b'0';
  issuer = bytes "issuer";
  key_id = bytes "key";
  service = bytes "files";
  holder_public_key = encode (times 32 2);
  installation_id = none;
  validity = Validity.dated 100 1000;
  max_credential_lifetime_seconds = 600;
  onward_delegation = false;
  permissions = folder1 ∷ [];
}

abbrev grant : Grant (Permission Text)
grant = record { claims = claims; signature = encode (times 64 1) }

issued : issue_grant crypto json wire profile pin claims true 150 ≡ ok grant
unfolding issue_grant validate_grant grant_mismatch canonical safe has_key check_text is_bad_text
    key hex is_bad_hex public_hex sign transcript Validity.contains Version1.profile
    Version1.permissions validate_scope
issued = refl

issue-verify_example :
    (grant.claims ≡ claims)
    × (public_hex crypto true ≡ pin.public_key)
    × (verify_grant crypto json wire profile pin grant 150 ≡ ok tt)
issue-verify_example =
    issue-verify crypto json wire profile crypto_laws pin claims true 150 grant issued

abbrev credential : Credential (Permission Text)
credential = record {
  grant = grant;
  claims = record {
    schema = bytes "secs.holder-credential.v1";
    credential_id = times 32 b'1';
    grant_digest = encode (times 32 128);
    holder_public_key = encode (times 32 2);
    installation_id = none;
    permissions = document1 ∷ [];
    issued_at = 200;
    expires_at = 500;
  };
  signature = encode (times 64 2);
}

derived :
    derive_credential crypto json wire profile pin grant
      (document1 ∷ [])
      none
      (times 32 b'1')
      200
      500
      false
    ≡ ok credential
unfolding derive_credential validate_credential credential_mismatch digest verify_grant verify
    validate_grant grant_mismatch canonical safe has_key check_text is_bad_text key hex is_bad_hex
    public_hex sign transcript Validity.contains Validity.end_of Version1.profile
    Version1.permissions Version1.permissions_within Version1.permission_within validate_scope
    scope_within
derived = refl

credential_verifies : verify_credential crypto json wire profile pin credential 499 ≡ ok tt
credential_verifies =
    derive-verify crypto json wire profile crypto_laws pin grant (document1 ∷ []) none
      (times 32 b'1') 200 500 false credential 499 derived (omega arith) (omega arith)

derive-verify_example : verify_credential crypto json wire profile pin credential 499 ≡ ok tt
derive-verify_example =
    derive-verify crypto json wire profile crypto_laws pin grant (document1 ∷ []) none
      (times 32 b'1') 200 500 false credential 499 derived (omega arith) (omega arith)

verify_credential_window_example :
    (verify_credential crypto json wire profile pin credential 500 ≡ ok tt)
    ↔ ((200 ≤ 500) × (500 < 500))
verify_credential_window_example =
    verify_credential_window crypto json wire profile pin credential 499 500 credential_verifies

verify_credential_narrows_example :
    (500 ≤ 200 + 3600)
    × (credential.claims.holder_public_key ≡ claims.holder_public_key)
    × (profile.permissions_within (document1 ∷ []) (folder1 ∷ []) ≡ ok tt)
    × ((t : ℕ) → 200 ≤ t → t < 500 → verify_grant crypto json wire profile pin grant t ≡ ok tt)
verify_credential_narrows_example =
    verify_credential_narrows crypto json wire profile pin credential 499 credential_verifies

abbrev proof : Proof
proof = record {
  schema = bytes "secs.holder-presentation.v1";
  credential_digest = encode (times 32 128);
  call_digest = encode (times 32 4);
  nonce = times 32 b'2';
  issued_at = 460;
  expires_at = 500;
  signature = encode (times 64 2);
}

presented :
    present crypto json wire profile pin credential (bytes "call") (times 32 b'2') 460 false
    ≡ ok proof
unfolding present checked_add verify_credential validate_credential credential_mismatch digest
    verify_grant verify validate_grant grant_mismatch canonical safe has_key check_text is_bad_text
    key hex is_bad_hex public_hex sign transcript Validity.contains Validity.end_of Version1.profile
    Version1.permissions Version1.permissions_within Version1.permission_within validate_scope
    scope_within
presented = refl

proof_verifies :
    verify_presentation crypto json wire profile pin credential (bytes "call") proof 499 ≡ ok tt
proof_verifies =
    present-verify crypto json wire profile crypto_laws pin credential (bytes "call")
      (times 32 b'2') 460 499 false proof presented (omega arith) (omega arith)

present-verify_example :
    verify_presentation crypto json wire profile pin credential (bytes "call") proof 499 ≡ ok tt
present-verify_example =
    present-verify crypto json wire profile crypto_laws pin credential (bytes "call")
      (times 32 b'2') 460 499 false proof presented (omega arith) (omega arith)

verify_presentation_bound_example :
    (verify_credential crypto json wire profile pin credential 499 ≡ ok tt)
    × (digest crypto json (bytes "call") ≡ ok proof.call_digest)
    × (digest crypto json credential.signature ≡ ok proof.credential_digest)
    × (200 ≤ 460)
    × (460 ≤ 499)
    × (499 < 500)
    × (500 ≤ 500)
    × (500 ≤ 460 + 60)
verify_presentation_bound_example =
    verify_presentation_bound crypto json wire profile pin credential (bytes "call") proof 499
      proof_verifies

verify_credential-IsContained_example :
    (g : Permission Text) × (contains (folder1 ∷ []) g ≡ true)
    × IsContained json list_value1 document1 g
verify_credential-IsContained_example =
    verify_credential-IsContained crypto json list_value1 wire pin credential 499 document1
      credential_verifies refl
