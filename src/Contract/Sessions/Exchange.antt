-- ===== src/Contract/Sessions/Exchange.antt =====
-- From a challenge to a session credential: prove_possession, authorize, verify_authorization, issue
-- and verify_parent of holder_sessions.rs.
use sec_s_magik.Base.{
  ℕ, ◌<◌, ◌≡◌, subst, true, List, Text, ok, is_ok, Eq, list_eq, nat_eq, bne→eq, eq→beq, arith,
}
use sec_s_magik.Contract.Claims.{IssuerPin, Grant, Wire}
use sec_s_magik.Contract.Codec.{Crypto, JsonLibrary, key, public_hex, canonical, sign, verify}
use sec_s_magik.Contract.Version2.{Permission}
use sec_s_magik.Contract.Sessions.{
  Context, Challenge, Authorization, SessionWire, authorize_domain, possession_domain,
  authorization_schema,
}
use sec_s_magik.Contract.Sessions.Protocol
use sec_s_magik.Contract.Codec.Laws.{CryptoLaws, verify-sign}
use sec_s_magik.Contract.Sessions.Windows.{parent_facts}

module _ {SigningKey VerifyingKey Value : Type 0} ⦃e : Eq Value⦄
    (crypto : Crypto SigningKey VerifyingKey) (json : JsonLibrary Value)
    (permission_value : Permission Value → Value)
    (permissions_value : List (Permission Value) → Value) (wire : Wire (Permission Value) Value)
    (session_wire : SessionWire Value) where
  pub structure_keys :
      (c : Challenge Value) (context : Context) (now : ℕ)
      → Protocol.structure crypto json permission_value permissions_value wire session_wire c
          context now
        ≡ ok tt
      → ((v : VerifyingKey) × (key crypto c.holder_public_key ≡ ok v))
        × ((v : VerifyingKey) × (key crypto c.session_public_key ≡ ok v))
  unfolding Protocol.structure
  structure_keys c context now h = (ground arith, ground arith)

  pub review_facts :
      (pin : IssuerPin) (parent : Grant (Permission Value)) (c : Challenge Value)
      (context : Context) (now : ℕ)
      → Protocol.review_challenge crypto json permission_value permissions_value wire session_wire
          pin parent c context now
        ≡ ok tt
      → (Protocol.parent_binding crypto json permission_value permissions_value wire session_wire
            pin parent c context now
          ≡ ok tt)
        × (now < c.review_deadline)
  unfolding Protocol.review_challenge
  review_facts pin parent c context now h = (ground arith, ground arith)

  possession_facts :
      (c : Challenge Value) (session : SigningKey) (now : ℕ) (s : Text)
      → Protocol.prove_possession crypto json permission_value permissions_value wire session_wire c
          session now
        ≡ ok s
      → (Protocol.structure crypto json permission_value permissions_value wire session_wire c
            (Protocol.own_context crypto json permission_value permissions_value wire session_wire
              c)
            now
          ≡ ok tt)
        × (public_hex crypto session ≡ c.session_public_key)
        × (sign crypto json possession_domain (session_wire.challenge c) session ≡ ok s)
  unfolding Protocol.prove_possession
  possession_facts c session now s h = (
    ground arith,
    bne→eq (public_hex crypto session) c.session_public_key (ground arith),
    ground arith,
  )

  -- What a session key proves possession with, verifies under the challenge's session key.
  possession_verifies :
      CryptoLaws crypto
      → (c : Challenge Value) (session : SigningKey) (now : ℕ) (s : Text)
      → Protocol.prove_possession crypto json permission_value permissions_value wire session_wire c
          session now
        ≡ ok s
      → verify crypto json possession_domain (session_wire.challenge c) s c.session_public_key
        ≡ ok tt
  possession_verifies laws c session now s h =
      let (valid, own_key, signed) = possession_facts c session now s h in
      let (_, (v, good)) =
        structure_keys c
          (Protocol.own_context crypto json permission_value permissions_value wire session_wire c)
          now valid in
      subst (λ q. verify crypto json possession_domain (session_wire.challenge c) s q ≡ ok tt)
        own_key
        (verify-sign crypto laws json possession_domain (session_wire.challenge c) session v s
          (rw own_key good) signed)

  -- What `authorize` checks and returns.
  record IsAuthorized (pin : IssuerPin) (parent : Grant (Permission Value)) (c : Challenge Value)
      (s : Text) (context : Context) (holder : SigningKey) (now : ℕ) (a : Authorization Value)
      : Type 0 where
    same_challenge : a.challenge ≡ c
    same_parent : a.parent_grant ≡ parent
    schema : a.schema ≡ authorization_schema
    reviewed :
        Protocol.review_challenge crypto json permission_value permissions_value wire session_wire
          pin parent c context now
        ≡ ok tt
    own_key : public_hex crypto holder ≡ c.holder_public_key
    possessed :
        verify crypto json possession_domain
          (session_wire.challenge c)
          a.session_signature
          c.session_public_key
        ≡ ok tt
    signed :
        sign crypto json authorize_domain (session_wire.challenge c) holder ≡ ok a.holder_signature
    written : is_ok (canonical json (session_wire.authorization a)) ≡ true

  authorize_facts :
      (pin : IssuerPin) (parent : Grant (Permission Value)) (c : Challenge Value) (s : Text)
      (context : Context) (holder : SigningKey) (now : ℕ) (a : Authorization Value)
      → Protocol.authorize crypto json permission_value permissions_value wire session_wire pin
          parent c s context holder now
        ≡ ok a
      → IsAuthorized pin parent c s context holder now a
  unfolding Protocol.authorize
  authorize_facts pin parent c s context holder now a h = record {
    same_challenge = ground arith;
    same_parent = ground arith;
    schema = ground arith;
    reviewed = ground arith;
    own_key = bne→eq (public_hex crypto holder) c.holder_public_key (ground arith);
    possessed = ground arith;
    signed = ground arith;
    written = ground arith;
  }

  -- Given the laws of the cryptography, what a holder authorizes verifies as an authorization, in
  -- that context and at that time.
  pub authorize-verify :
      CryptoLaws crypto
      → (pin : IssuerPin) (parent : Grant (Permission Value)) (c : Challenge Value) (s : Text)
        (context : Context) (holder : SigningKey) (now : ℕ) (a : Authorization Value)
      → Protocol.authorize crypto json permission_value permissions_value wire session_wire pin
          parent c s context holder now
        ≡ ok a
      → Protocol.verify_authorization crypto json permission_value permissions_value wire
          session_wire pin a context now
        ≡ ok tt
  unfolding Protocol.verify_authorization
  authorize-verify laws pin parent c s context holder now a h =
      let facts = authorize_facts pin parent c s context holder now a h in
      let (bound, _) = review_facts pin parent c context now facts.reviewed in
      let (valid, _, _, _) =
        parent_facts crypto json permission_value permissions_value wire session_wire pin parent c
          context now bound in
      let ((v, good), _) = structure_keys c context now valid in
      let signed =
        subst
          (λ q.
            verify crypto json authorize_domain (session_wire.challenge c) a.holder_signature q
            ≡ ok tt)
          facts.own_key
          (verify-sign crypto laws json authorize_domain (session_wire.challenge c) holder v
            a.holder_signature (rw facts.own_key good) facts.signed) in
      ground (
        arith,
        facts.written,
        facts.same_challenge,
        facts.same_parent,
        eq→beq a.schema authorization_schema facts.schema,
        facts.reviewed,
        facts.possessed,
        signed,
      )
