-- ===== src/Contract/Sessions/Status.antt =====
-- Asking for the status of a session: prove_status and verify_status of holder_sessions.rs.
use sec_s_magik.Base.{
  ℕ, ◌+◌, ◌≤◌, ◌<◌, min, ◌≡◌, subst, true, List, Text, ok, is_ok, Eq, list_eq, nat_eq, bne→eq,
  eq→beq, arith,
}
use sec_s_magik.Contract.Claims.{Wire}
use sec_s_magik.Contract.Codec.{Crypto, JsonLibrary, hex, public_hex, sign, verify}
use sec_s_magik.Contract.Version2.{Permission}
use sec_s_magik.Contract.Holder.{checked_add}
use sec_s_magik.Contract.Sessions.{
  Challenge, StatusRequest, SessionWire, status_schema, status_domain,
}
use sec_s_magik.Contract.Sessions.Protocol
use sec_s_magik.Contract.Codec.Laws.{CryptoLaws, verify-sign}
use sec_s_magik.Contract.Sessions.Windows.{well_structured, structure_at, structure_window}
use sec_s_magik.Contract.Sessions.Exchange.{structure_keys}
use sec_s_magik.Contract.Sessions.Presentations.{out_of_window_at}

module _ {SigningKey VerifyingKey Value : Type 0} ⦃e : Eq Value⦄
    (crypto : Crypto SigningKey VerifyingKey) (json : JsonLibrary Value)
    (permission_value : Permission Value → Value)
    (permissions_value : List (Permission Value) → Value) (wire : Wire (Permission Value) Value)
    (session_wire : SessionWire Value) where
  record IsAsked (c : Challenge Value) (now : ℕ) (session : SigningKey) (p : StatusRequest)
      : Type 0 where
    valid :
        Protocol.structure crypto json permission_value permissions_value wire session_wire c
          (Protocol.own_context crypto json permission_value permissions_value wire session_wire c)
          now
        ≡ ok tt
    good_nonce : is_ok (hex crypto 16 p.nonce) ≡ true
    own_key : public_hex crypto session ≡ c.session_public_key
    schema : p.schema ≡ status_schema
    request : p.request_id ≡ c.request_id
    challenge : p.challenge_id ≡ c.challenge_id
    issued : p.issued_at ≡ now
    expires : p.expires_at ≡ min (now + 60) c.expires_at
    signed :
        sign crypto json status_domain
          (Protocol.status_value crypto json permission_value permissions_value wire session_wire p)
          session
        ≡ ok p.signature

  IsAsked-facts :
      (c : Challenge Value) (nonce : Text) (now : ℕ) (session : SigningKey) (p : StatusRequest)
      → Protocol.prove_status crypto json permission_value permissions_value wire session_wire c
          nonce now session
        ≡ ok p
      → IsAsked c now session p
  unfolding Protocol.prove_status checked_add
  IsAsked-facts c nonce now session p h = record {
    valid = ground arith;
    good_nonce = ground arith;
    own_key = bne→eq (public_hex crypto session) c.session_public_key (ground arith);
    schema = ground arith;
    request = ground arith;
    challenge = ground arith;
    issued = ground arith;
    expires = ground arith;
    signed = ground arith;
  }

  -- Given the laws of the cryptography, a status request that a session key proves verifies in the
  -- challenge's own context from when it is made until the earlier of sixty seconds later and the
  -- end of the challenge.
  pub prove_status-verify :
      CryptoLaws crypto
      → (c : Challenge Value) (nonce : Text) (now t : ℕ) (session : SigningKey) (p : StatusRequest)
      → Protocol.prove_status crypto json permission_value permissions_value wire session_wire c
          nonce now session
        ≡ ok p
      → now ≤ t
      → t < min (now + 60) c.expires_at
      → Protocol.verify_status crypto json permission_value permissions_value wire session_wire c p
          (Protocol.own_context crypto json permission_value permissions_value wire session_wire c)
          t
        ≡ ok tt
  unfolding Protocol.verify_status
  prove_status-verify laws c nonce now t session p h later soon =
      let facts = IsAsked-facts c nonce now session p h in
      let own =
        Protocol.own_context crypto json permission_value permissions_value wire session_wire c in
      let (_, (v, good)) =
        structure_keys crypto json permission_value permissions_value wire session_wire c own now
          facts.valid in
      let (begun, _, _) = structure_window c own now (
        well_structured crypto json permission_value permissions_value wire session_wire c own now
          facts.valid) in
      let fresh =
        out_of_window_at c now t p.expires_at facts.expires begun later (rw facts.expires soon) in
      let valid_now =
        structure_at crypto json permission_value permissions_value wire session_wire c own now t
          facts.valid (omega (arith, begun, later)) (omega (arith, soon)) in
      let signed =
        subst
          (λ q.
            verify crypto json status_domain
              (Protocol.status_value crypto json permission_value permissions_value wire
                session_wire p)
              p.signature q
            ≡ ok tt)
          facts.own_key
          (verify-sign crypto laws json status_domain
            (Protocol.status_value crypto json permission_value permissions_value wire session_wire
              p)
            session v p.signature (rw facts.own_key good) facts.signed) in
      ground (
        arith,
        valid_now,
        facts.good_nonce,
        eq→beq p.schema status_schema facts.schema,
        eq→beq p.request_id c.request_id facts.request,
        eq→beq p.challenge_id c.challenge_id facts.challenge,
        facts.issued,
        fresh,
        signed,
      )
