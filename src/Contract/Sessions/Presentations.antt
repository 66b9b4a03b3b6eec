-- ===== src/Contract/Sessions/Presentations.antt =====
-- Presenting a session credential with a call, and asking for its status: present,
-- verify_presentation, prove_status and verify_status of holder_sessions.rs.
use sec_s_magik.Base.{
  ℕ, ◌+◌, ◌≤◌, ◌<◌, min, ◌≡◌, refl, subst, true, false, List, Text, ok, is_ok, Eq, list_eq, nat_eq,
  bne→eq, eq→beq, arith, option_eq,
}
use sec_s_magik.Contract.Claims.{IssuerPin, Grant, Proof, Wire}
use sec_s_magik.Contract.Codec.{Crypto, JsonLibrary, hex, public_hex, digest, sign, verify}
use sec_s_magik.Contract.Version2.{Permission}
use sec_s_magik.Contract.Holder.{checked_add}
use sec_s_magik.Contract.Sessions.{
  Context, Challenge, Credential, SessionWire, presentation_schema, proof_domain, is_out_of_window,
}
use sec_s_magik.Contract.Sessions.Protocol
use sec_s_magik.Contract.Codec.Laws.{CryptoLaws, verify-sign}
use sec_s_magik.Contract.Sessions.Windows.{well_structured, structure_window, credential_facts}
use sec_s_magik.Contract.Sessions.Exchange.{structure_keys}

pub out_of_window_at :
    {Value : Type 0} (c : Challenge Value) (now t expires : ℕ)
    → expires ≡ min (now + 60) c.expires_at
    → c.issued_at ≤ now
    → now ≤ t
    → t < expires
    → is_out_of_window c now expires t ≡ false
unfolding is_out_of_window
out_of_window_at c now t expires h a b d = ground (arith, h, a, b, d)

module _ {SigningKey VerifyingKey Value : Type 0} ⦃e : Eq Value⦄
    (crypto : Crypto SigningKey VerifyingKey) (json : JsonLibrary Value)
    (permission_value : Permission Value → Value)
    (permissions_value : List (Permission Value) → Value) (wire : Wire (Permission Value) Value)
    (session_wire : SessionWire Value) where
  -- What `present` checks and returns.
  record IsShown (pin : IssuerPin) (c : Credential Value) (call : Value) (context : Context)
      (now : ℕ) (session : SigningKey) (p : Proof) : Type 0 where
    credential :
        Protocol.verify_credential crypto json permission_value permissions_value wire session_wire
          pin c context now
        ≡ ok tt
    allowed :
        Protocol.call_allowed crypto json permission_value permissions_value wire session_wire c
          call
        ≡ ok tt
    good_nonce : is_ok (hex crypto 16 p.nonce) ≡ true
    own_key : public_hex crypto session ≡ c.claims.challenge.session_public_key
    schema : p.schema ≡ presentation_schema
    credential_digest : digest crypto json (session_wire.credential c) ≡ ok p.credential_digest
    call_digest : digest crypto json call ≡ ok p.call_digest
    issued : p.issued_at ≡ now
    expires : p.expires_at ≡ min (now + 60) c.claims.challenge.expires_at
    signed :
        sign crypto json proof_domain
          (Protocol.proof_value crypto json permission_value permissions_value wire session_wire p)
          session
        ≡ ok p.signature

  IsShown-facts :
      (pin : IssuerPin) (c : Credential Value) (call : Value) (nonce : Text) (context : Context)
      (now : ℕ) (session : SigningKey) (p : Proof)
      → Protocol.present crypto json permission_value permissions_value wire session_wire pin c call
          nonce context now session
        ≡ ok p
      → IsShown pin c call context now session p
  unfolding Protocol.present checked_add
  IsShown-facts pin c call nonce context now session p h = record {
    credential = ground arith;
    allowed = ground arith;
    good_nonce = ground arith;
    own_key =
        bne→eq (public_hex crypto session) c.claims.challenge.session_public_key (ground arith);
    schema = ground arith;
    credential_digest = ground arith;
    call_digest = ground arith;
    issued = ground arith;
    expires = ground arith;
    signed = ground arith;
  }

  -- Given the laws of the cryptography, what a session key presents verifies with the same call,
  -- from when it is made until the earlier of sixty seconds later and the end of the session, at
  -- each time when the credential verifies with the given parent.
  pub session_present-verify :
      CryptoLaws crypto
      → (pin : IssuerPin) (parent : Grant (Permission Value)) (c : Credential Value) (call : Value)
        (nonce : Text) (context : Context) (now t : ℕ) (session : SigningKey) (p : Proof)
      → Protocol.present crypto json permission_value permissions_value wire session_wire pin c call
          nonce context now session
        ≡ ok p
      → Protocol.verify_parent crypto json permission_value permissions_value wire session_wire pin
          parent c context t
        ≡ ok tt
      → now ≤ t
      → t < min (now + 60) c.claims.challenge.expires_at
      → Protocol.verify_presentation crypto json permission_value permissions_value wire
          session_wire pin parent c call p context t
        ≡ ok tt
  unfolding Protocol.verify_presentation
  session_present-verify laws pin parent c call nonce context now t session p h current later soon =
      let facts = IsShown-facts pin c call nonce context now session p h in
      let x = c.claims.challenge in
      let valid =
        credential_facts crypto json permission_value permissions_value wire session_wire pin c
          context now facts.credential in
      let (_, (v, good)) =
        structure_keys crypto json permission_value permissions_value wire session_wire x context
          now valid in
      let (begun, _, _) = structure_window x context now (
        well_structured crypto json permission_value permissions_value wire session_wire x context
          now valid) in
      let fresh =
        out_of_window_at x now t p.expires_at facts.expires begun later (rw facts.expires soon) in
      let signed =
        subst
          (λ q.
            verify crypto json proof_domain
              (Protocol.proof_value crypto json permission_value permissions_value wire session_wire
                p)
              p.signature q
            ≡ ok tt)
          facts.own_key
          (verify-sign crypto laws json proof_domain
            (Protocol.proof_value crypto json permission_value permissions_value wire session_wire
              p)
            session v p.signature (rw facts.own_key good) facts.signed) in
      ground (
        arith,
        current,
        facts.allowed,
        facts.good_nonce,
        eq→beq p.schema presentation_schema facts.schema,
        facts.credential_digest,
        eq→beq p.credential_digest p.credential_digest refl,
        facts.call_digest,
        eq→beq p.call_digest p.call_digest refl,
        facts.issued,
        fresh,
        signed,
      )
