-- ===== src/Contract/Sessions/Protocol.antt =====
-- The operations on challenges, authorisations, session credentials and presentations:
-- holder_sessions.rs of the grant contract crate.
use sec_s_magik.Base.{
  ℕ, min, ◌&&◌, ◌||◌, not, List, [], Text, some, Result, ok, ◌>>=◌, ◌>>◌, deny, ok_or, each, Eq,
  ◌==◌, ◌!=◌, list_eq, nat_eq, option_eq, length, any, is_empty, eqb, leb, ltb, bytes,
}
use sec_s_magik.Contract.{Refusal, check_text, invalid_holder_session}
use sec_s_magik.Contract.Json.{has_key}
use sec_s_magik.Contract.Claims.{IssuerPin, Grant, Proof, Wire}
use sec_s_magik.Contract.Codec.{
  Crypto, JsonLibrary, hex, key, public_hex, canonical, digest, sign, verify,
}
use sec_s_magik.Contract.Holder
use sec_s_magik.Contract.Holder.{checked_add}
use sec_s_magik.Contract.Version2
use sec_s_magik.Contract.Version2.{Permission}
use sec_s_magik.Contract.Sessions.{
  Context, Challenge, Authorization, CredentialClaims, Credential, StatusRequest, SessionWire,
  authorization_schema, credential_schema, presentation_schema, status_schema, authorize_domain,
  possession_domain, credential_domain, proof_domain, status_domain, str_field, count_fields,
  as_object, is_bad_structure, is_out_of_window, is_unbound,
}

module _ {SigningKey VerifyingKey Value : Type 0} ⦃e : Eq Value⦄
    (crypto : Crypto SigningKey VerifyingKey) (json : JsonLibrary Value)
    (permission_value : Permission Value → Value)
    (permissions_value : List (Permission Value) → Value) (wire : Wire (Permission Value) Value)
    (session_wire : SessionWire Value) where
  unfoldable pub structure : Challenge Value → Context → ℕ → Result Refusal (Unit {0})
  structure c context now = do
    canonical json (session_wire.challenge c)
    check_text c.issuer
    check_text c.key_id
    check_text c.service
    check_text c.origin
    check_text c.audience
    hex crypto 16 c.challenge_id
    hex crypto 16 c.request_id
    hex crypto 32 c.nonce
    hex crypto 16 c.parent_grant_id
    hex crypto 32 c.parent_grant_digest
    hex crypto 32 c.parent_revision
    hex crypto 16 c.installation_id
    hex crypto 16 c.session_installation_id
    key crypto c.holder_public_key
    key crypto c.session_public_key
    deny (is_bad_structure c context now) invalid_holder_session
    later ← ok_or (checked_add c.issued_at 120) invalid_holder_session
    deny
        (not (eqb c.review_deadline (min later c.expires_at))
          || is_empty c.permissions
          || ltb 64 (length c.permissions))
        invalid_holder_session
    each (λ p. Version2.validate json permission_value p c.service) c.permissions

  -- The context that `prove_status` and `prove_possession` build from the challenge.
  abbrev pub own_context : Challenge Value → Context
  own_context c = record { origin = c.origin; audience = c.audience }

  abbrev pub status_value : StatusRequest → Value
  status_value p =
      session_wire.status_claims p.schema p.request_id p.challenge_id p.nonce p.issued_at
        p.expires_at

  unfoldable pub prove_status :
      Challenge Value → Text → ℕ → SigningKey → Result Refusal StatusRequest
  prove_status c nonce now session = do
    structure c (own_context c) now
    hex crypto 16 nonce
    deny (public_hex crypto session != c.session_public_key) invalid_holder_session
    later ← ok_or (checked_add now 60) invalid_holder_session
    let unsigned : StatusRequest = record {
      schema = status_schema;
      request_id = c.request_id;
      challenge_id = c.challenge_id;
      nonce = nonce;
      issued_at = now;
      expires_at = min later c.expires_at;
      signature = [];
    }
    signature ← sign crypto json status_domain (status_value unsigned) session
    ok (record unsigned { signature = signature })

  unfoldable pub verify_status :
      Challenge Value → StatusRequest → Context → ℕ → Result Refusal (Unit {0})
  verify_status c p context now = do
    structure c context now
    hex crypto 16 p.nonce
    deny
        (p.schema != status_schema
          || p.request_id != c.request_id
          || p.challenge_id != c.challenge_id
          || is_out_of_window c p.issued_at p.expires_at now)
        invalid_holder_session
    verify crypto json status_domain (status_value p) p.signature c.session_public_key

  unfoldable pub parent_binding :
      IssuerPin
      → Grant (Permission Value)
      → Challenge Value
      → Context
      → ℕ
      → Result Refusal (Unit {0})
  parent_binding pin parent c context now = do
    structure c context now
    Holder.verify_grant crypto json wire (Version2.profile json permission_value permissions_value)
        pin parent now
    deny
        (c.issuer != pin.issuer
          || c.key_id != pin.key_id
          || c.service != pin.service
          || c.parent_grant_id != parent.claims.grant_id)
        invalid_holder_session
    parent_digest ← digest crypto json (wire.grant_value parent)
    deny (c.parent_grant_digest != parent_digest || is_unbound c parent.claims)
        invalid_holder_session
    Version2.permissions_within json permission_value permissions_value c.permissions
        parent.claims.permissions

  unfoldable pub review_challenge :
      IssuerPin
      → Grant (Permission Value)
      → Challenge Value
      → Context
      → ℕ
      → Result Refusal (Unit {0})
  review_challenge pin parent c context now = do
    parent_binding pin parent c context now
    deny (leb c.review_deadline now) invalid_holder_session

  unfoldable pub prove_possession : Challenge Value → SigningKey → ℕ → Result Refusal Text
  prove_possession c session now = do
    structure c (own_context c) now
    deny (public_hex crypto session != c.session_public_key || leb c.review_deadline now)
        invalid_holder_session
    sign crypto json possession_domain (session_wire.challenge c) session

  unfoldable pub authorize :
      IssuerPin
      → Grant (Permission Value)
      → Challenge Value
      → Text
      → Context
      → SigningKey
      → ℕ
      → Result Refusal (Authorization Value)
  authorize pin parent challenge session_signature context holder now = do
    review_challenge pin parent challenge context now
    deny (public_hex crypto holder != challenge.holder_public_key) invalid_holder_session
    verify crypto json possession_domain (session_wire.challenge challenge) session_signature
        challenge.session_public_key
    holder_signature ← sign crypto json authorize_domain (session_wire.challenge challenge) holder
    let a : Authorization Value = record {
      schema = authorization_schema;
      challenge = challenge;
      parent_grant = parent;
      holder_signature = holder_signature;
      session_signature = session_signature;
    }
    canonical json (session_wire.authorization a)
    ok a

  unfoldable pub verify_authorization :
      IssuerPin → Authorization Value → Context → ℕ → Result Refusal (Unit {0})
  verify_authorization pin a context now = do
    canonical json (session_wire.authorization a)
    deny (a.schema != authorization_schema) invalid_holder_session
    review_challenge pin a.parent_grant a.challenge context now
    verify crypto json authorize_domain (session_wire.challenge a.challenge) a.holder_signature
        a.challenge.holder_public_key
    verify crypto json possession_domain (session_wire.challenge a.challenge) a.session_signature
        a.challenge.session_public_key

  unfoldable pub issue :
      IssuerPin
      → Authorization Value
      → Text
      → Context
      → SigningKey
      → ℕ
      → Result Refusal (Credential Value)
  issue pin a id context issuer now = do
    verify_authorization pin a context now
    hex crypto 16 id
    deny (public_hex crypto issuer != pin.public_key) invalid_holder_session
    challenge_digest ← digest crypto json (session_wire.challenge a.challenge)
    let claims : CredentialClaims Value = record {
      schema = credential_schema;
      credential_id = id;
      challenge_digest = challenge_digest;
      challenge = a.challenge;
    }
    signature ← sign crypto json credential_domain (session_wire.claims claims) issuer
    let c : Credential Value = record { claims = claims; signature = signature }
    canonical json (session_wire.credential c)
    ok c

  unfoldable pub verify_credential :
      IssuerPin → Credential Value → Context → ℕ → Result Refusal (Unit {0})
  verify_credential pin c context now = do
    canonical json (session_wire.credential c)
    structure c.claims.challenge context now
    hex crypto 16 c.claims.credential_id
    deny (c.claims.schema != credential_schema) invalid_holder_session
    challenge_digest ← digest crypto json (session_wire.challenge c.claims.challenge)
    deny
        (c.claims.challenge_digest != challenge_digest
          || c.claims.challenge.issuer != pin.issuer
          || c.claims.challenge.key_id != pin.key_id
          || c.claims.challenge.service != pin.service)
        invalid_holder_session
    verify crypto json credential_domain (session_wire.claims c.claims) c.signature pin.public_key

  unfoldable pub verify_parent :
      IssuerPin
      → Grant (Permission Value)
      → Credential Value
      → Context
      → ℕ
      → Result Refusal (Unit {0})
  verify_parent pin parent c context now = do
    verify_credential pin c context now
    parent_binding pin parent c.claims.challenge context now

  unfoldable pub call_allowed : Credential Value → Value → Result Refusal (Unit {0})
  call_allowed c call = do
    canonical json call
    fields ← ok_or (as_object (json.view call)) invalid_holder_session
    deny
        (not (eqb (count_fields fields) 3)
          || not (has_key (bytes "parameters") fields)
          || not (
              any
                (λ p.
                  some p.operation == str_field (bytes "operation") fields
                  && some p.resource == str_field (bytes "resource") fields)
                c.claims.challenge.permissions))
        invalid_holder_session

  abbrev pub proof_value : Proof → Value
  proof_value p =
      wire.proof_claims p.schema p.credential_digest p.call_digest p.nonce p.issued_at p.expires_at

  unfoldable pub present :
      IssuerPin → Credential Value → Value → Text → Context → ℕ → SigningKey → Result Refusal Proof
  present pin c call nonce context now session = do
    verify_credential pin c context now
    call_allowed c call
    hex crypto 16 nonce
    deny (public_hex crypto session != c.claims.challenge.session_public_key) invalid_holder_session
    credential_digest ← digest crypto json (session_wire.credential c)
    call_digest ← digest crypto json call
    later ← ok_or (checked_add now 60) invalid_holder_session
    let unsigned : Proof = record {
      schema = presentation_schema;
      credential_digest = credential_digest;
      call_digest = call_digest;
      nonce = nonce;
      issued_at = now;
      expires_at = min later c.claims.challenge.expires_at;
      signature = [];
    }
    signature ← sign crypto json proof_domain (proof_value unsigned) session
    let p : Proof = record unsigned { signature = signature }
    canonical json (session_wire.presentation c call p)
    ok p

  unfoldable pub verify_presentation :
      IssuerPin
      → Grant (Permission Value)
      → Credential Value
      → Value
      → Proof
      → Context
      → ℕ
      → Result Refusal (Unit {0})
  verify_presentation pin parent c call proof context now = do
    verify_parent pin parent c context now
    call_allowed c call
    hex crypto 16 proof.nonce
    deny (proof.schema != presentation_schema) invalid_holder_session
    credential_digest ← digest crypto json (session_wire.credential c)
    deny (proof.credential_digest != credential_digest) invalid_holder_session
    call_digest ← digest crypto json call
    deny
        (proof.call_digest != call_digest
          || is_out_of_window c.claims.challenge proof.issued_at proof.expires_at now)
        invalid_holder_session
    verify crypto json proof_domain (proof_value proof) proof.signature
        c.claims.challenge.session_public_key
