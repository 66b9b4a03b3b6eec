-- ===== src/Examples/Session.antt =====
-- One session: a version 2 grant, a challenge under it, and its authorization.
use sec_s_magik.Base.{false, [], ◌∷◌, Text, none, bytes, list_eq, nat_eq}
use sec_s_magik.Contract.Validity
use sec_s_magik.Contract.Claims.{IssuerPin, Grant, Wire}
use sec_s_magik.Contract.Version2.{Permission}
use sec_s_magik.Contract.Sessions.{
  Context, Challenge, Authorization, SessionWire, challenge_schema, authorization_schema,
}
use sec_s_magik.Contract.Version2.{permission_eq}
use sec_s_magik.Examples.Libraries.{times, encode}
use sec_s_magik.Examples.Documents.{middle2, narrow2}

abbrev pub wire : Wire (Permission Text) Text
wire = record {
  grant_claims = λ c. c.grant_id;
  grant_value = λ g. g.signature;
  credential_claims = λ c. c.credential_id;
  credential_value = λ c. c.signature;
  proof_claims = λ schema credential_digest call_digest nonce issued_at expires_at. nonce;
  presentation = λ c call p. call;
}

abbrev pub session_wire : SessionWire Text
session_wire = record {
  challenge = λ c. c.challenge_id;
  authorization = λ a. a.holder_signature;
  claims = λ c. c.credential_id;
  credential = λ c. c.signature;
  status_claims = λ schema request_id challenge_id nonce issued_at expires_at. nonce;
  presentation = λ c call p. call;
}

abbrev pub pin : IssuerPin
pin = record {
  issuer = bytes "issuer";
  key_id = bytes "key";
  public_key = encode (times 32 1);
  service = bytes "files";
}

abbrev pub parent : Grant (Permission Text)
parent = record {
  claims = record {
    schema = bytes "secs.holder-grant.v2";
    grant_id = times 32 b'0';
    revision = times 64 b'0';
    issuer = bytes "issuer";
    key_id = bytes "key";
    service = bytes "files";
    holder_public_key = encode (times 32 2);
    installation_id = none;
    validity = Validity.until_revoked 100;
    max_credential_lifetime_seconds = 600;
    onward_delegation = false;
    permissions = middle2 ∷ [];
  };
  signature = encode (times 64 1);
}

-- The holder has the second key; the session has the first.
abbrev pub challenge : Challenge Text
challenge = record {
  schema = challenge_schema;
  challenge_id = times 32 b'1';
  request_id = times 32 b'2';
  nonce = times 64 b'3';
  issuer = bytes "issuer";
  key_id = bytes "key";
  service = bytes "files";
  audience = bytes "app";
  origin = bytes "https://app.example";
  parent_grant_id = times 32 b'0';
  parent_grant_digest = encode (times 32 128);
  parent_revision = times 64 b'0';
  holder_public_key = encode (times 32 2);
  installation_id = times 32 b'4';
  session_installation_id = times 32 b'5';
  session_public_key = encode (times 32 1);
  permissions = narrow2 ∷ [];
  issued_at = 200;
  review_deadline = 320;
  expires_at = 500;
}

abbrev pub context : Context
context = record { origin = bytes "https://app.example"; audience = bytes "app" }

abbrev pub authorization : Authorization Text
authorization = record {
  schema = authorization_schema;
  challenge = challenge;
  parent_grant = parent;
  holder_signature = encode (times 64 2);
  session_signature = encode (times 64 1);
}
