-- ===== src/Contract/Sessions/Issue.antt =====
-- Issuing a session credential: issue, verify_credential and verify_parent of holder_sessions.rs.
use sec_s_magik.Base.{
  ℕ, ◌≤◌, ◌<◌, ◌≡◌, refl, subst, true, false, List, Text, ok, is_ok, Eq, ◌!=◌, list_eq, nat_eq,
  bne→eq, eq→beq, arith,
}
use sec_s_magik.Contract.Claims.{IssuerPin, Grant, Wire}
use sec_s_magik.Contract.Codec.{
  Crypto, JsonLibrary, hex, key, public_hex, canonical, digest, sign, verify,
}
use sec_s_magik.Contract.Version2
use sec_s_magik.Contract.Version2.{Permission}
use sec_s_magik.Contract.Holder
use sec_s_magik.Contract.Holder.{checked_add}
use sec_s_magik.Contract.Sessions.{
  Context, Challenge, Authorization, Credential, SessionWire, credential_schema, credential_domain,
}
use sec_s_magik.Contract.Sessions.Protocol
use sec_s_magik.Contract.Codec.Laws.{CryptoLaws, verify-sign}
use sec_s_magik.Contract.Sessions.Windows.{
  parent_binding_at, session_credential_window, parent_facts,
}
use sec_s_magik.Contract.Sessions.Exchange.{review_facts}

module _ {SigningKey VerifyingKey Value : Type 0} ⦃e : Eq Value⦄
    (crypto : Crypto SigningKey VerifyingKey) (json : JsonLibrary Value)
    (permission_value : Permission Value → Value)
    (permissions_value : List (Permission Value) → Value) (wire : Wire (Permission Value) Value)
    (session_wire : SessionWire Value) where
  authorization_facts :
      (pin : IssuerPin) (a : Authorization Value) (context : Context) (now : ℕ)
      → Protocol.verify_authorization crypto json permission_value permissions_value wire
          session_wire pin a context now
        ≡ ok tt
      → Protocol.review_challenge crypto json permission_value permissions_value wire session_wire
          pin a.parent_grant a.challenge context now
        ≡ ok tt
  unfolding Protocol.verify_authorization
  authorization_facts pin a context now h = ground arith

  -- The issuer's names in a bound challenge are the pinned ones.
  bound_names :
      (pin : IssuerPin) (parent : Grant (Permission Value)) (c : Challenge Value)
      (context : Context) (now : ℕ)
      → Protocol.parent_binding crypto json permission_value permissions_value wire session_wire pin
          parent c context now
        ≡ ok tt
      → ((c.issuer != pin.issuer) ≡ false)
        × ((c.key_id != pin.key_id) ≡ false)
        × ((c.service != pin.service) ≡ false)
  unfolding Protocol.parent_binding
  bound_names pin parent c context now h = (ground arith, ground arith, ground arith)

  pinned_key :
      (pin : IssuerPin) (parent : Grant (Permission Value)) (now : ℕ)
      → Holder.verify_grant crypto json wire
          (Version2.profile json permission_value permissions_value)
          pin
          parent
          now
        ≡ ok tt
      → (v : VerifyingKey) × (key crypto pin.public_key ≡ ok v)
  unfolding Holder.verify_grant Holder.validate_grant
  pinned_key pin parent now h = ground arith

  -- What `issue` checks and returns.
  record IsIssued (pin : IssuerPin) (a : Authorization Value) (id : Text) (context : Context)
      (issuer : SigningKey) (now : ℕ) (c : Credential Value) : Type 0 where
    same_challenge : c.claims.challenge ≡ a.challenge
    authorized :
        Protocol.verify_authorization crypto json permission_value permissions_value wire
          session_wire pin a context now
        ≡ ok tt
    good_id : is_ok (hex crypto 16 c.claims.credential_id) ≡ true
    schema : c.claims.schema ≡ credential_schema
    own_key : public_hex crypto issuer ≡ pin.public_key
    digested :
        digest crypto json (session_wire.challenge a.challenge) ≡ ok c.claims.challenge_digest
    signed :
        sign crypto json credential_domain (session_wire.claims c.claims) issuer ≡ ok c.signature
    written : is_ok (canonical json (session_wire.credential c)) ≡ true

  IsIssued-facts :
      (pin : IssuerPin) (a : Authorization Value) (id : Text) (context : Context)
      (issuer : SigningKey) (now : ℕ) (c : Credential Value)
      → Protocol.issue crypto json permission_value permissions_value wire session_wire pin a id
          context issuer now
        ≡ ok c
      → IsIssued pin a id context issuer now c
  unfolding Protocol.issue
  IsIssued-facts pin a id context issuer now c h = record {
    same_challenge = ground arith;
    authorized = ground arith;
    good_id = ground arith;
    schema = ground arith;
    own_key = bne→eq (public_hex crypto issuer) pin.public_key (ground arith);
    digested = ground arith;
    signed = ground arith;
    written = ground arith;
  }

  issued_verifies :
      CryptoLaws crypto
      → (pin : IssuerPin) (a : Authorization Value) (id : Text) (context : Context)
        (issuer : SigningKey) (now : ℕ) (c : Credential Value)
      → IsIssued pin a id context issuer now c
      → Protocol.verify_credential crypto json permission_value permissions_value wire session_wire
          pin c context now
        ≡ ok tt
  unfolding Protocol.verify_credential
  issued_verifies laws pin a id context issuer now c facts =
      let (bound, _) =
        review_facts crypto json permission_value permissions_value wire session_wire pin
          a.parent_grant a.challenge context now
          (authorization_facts pin a context now facts.authorized) in
      let (valid, granted, _, _) =
        parent_facts crypto json permission_value permissions_value wire session_wire pin
          a.parent_grant a.challenge context now bound in
      let (issuer_eq, key_id_eq, service_eq) =
        bound_names pin a.parent_grant a.challenge context now bound in
      let (v, good) = pinned_key pin a.parent_grant now granted in
      let signed =
        subst
          (λ q.
            verify crypto json credential_domain (session_wire.claims c.claims) c.signature q
            ≡ ok tt)
          facts.own_key
          (verify-sign crypto laws json credential_domain (session_wire.claims c.claims) issuer v
            c.signature (rw facts.own_key good) facts.signed) in
      ground (
        arith,
        facts.written,
        facts.same_challenge,
        valid,
        facts.good_id,
        eq→beq c.claims.schema credential_schema facts.schema,
        facts.digested,
        eq→beq c.claims.challenge_digest c.claims.challenge_digest refl,
        issuer_eq,
        key_id_eq,
        service_eq,
        signed,
      )

  both_verify :
      (pin : IssuerPin) (parent : Grant (Permission Value)) (c : Credential Value)
      (context : Context) (now : ℕ)
      → Protocol.verify_credential crypto json permission_value permissions_value wire session_wire
          pin c context now
        ≡ ok tt
      → Protocol.parent_binding crypto json permission_value permissions_value wire session_wire pin
          parent c.claims.challenge context now
        ≡ ok tt
      → Protocol.verify_parent crypto json permission_value permissions_value wire session_wire pin
          parent c context now
        ≡ ok tt
  unfolding Protocol.verify_parent
  both_verify pin parent c context now h k = ground arith

  -- Given the laws of the cryptography, a session credential that is issued on an authorization
  -- verifies, in the same context and with the authorization's parent grant, at every time of its
  -- challenge's window.
  pub issue-verify_parent :
      CryptoLaws crypto
      → (pin : IssuerPin) (a : Authorization Value) (id : Text) (context : Context)
        (issuer : SigningKey) (now t : ℕ) (c : Credential Value)
      → Protocol.issue crypto json permission_value permissions_value wire session_wire pin a id
          context issuer now
        ≡ ok c
      → a.challenge.issued_at ≤ t
      → t < a.challenge.expires_at
      → Protocol.verify_parent crypto json permission_value permissions_value wire session_wire pin
          a.parent_grant c context t
        ≡ ok tt
  issue-verify_parent laws pin a id context issuer now t c h begun unexpired =
      let facts = IsIssued-facts pin a id context issuer now c h in
      let (bound, _) =
        review_facts crypto json permission_value permissions_value wire session_wire pin
          a.parent_grant a.challenge context now
          (authorization_facts pin a context now facts.authorized) in
      let bound_now =
        parent_binding_at crypto json permission_value permissions_value wire session_wire pin
          a.parent_grant a.challenge context now t bound begun unexpired in
      let window =
        session_credential_window crypto json permission_value permissions_value wire session_wire
          pin c context now t (issued_verifies laws pin a id context issuer now c facts) in
      both_verify pin a.parent_grant c context t
        (window.1 (rw facts.same_challenge begun, rw facts.same_challenge unexpired))
        (rw facts.same_challenge bound_now)
