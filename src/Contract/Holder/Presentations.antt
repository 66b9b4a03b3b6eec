-- ===== src/Contract/Holder/Presentations.antt =====
-- Presenting a credential with a call, and verifying the presentation: present and
-- verify_presentation.
use sec_s_magik.Base.{
  ℕ, ◌+◌, ◌≤◌, ◌<◌, min, ◌≡◌, sym, ◌∙◌, subst, Text, Result, ok, err, is_ok, Bool, true, false,
  ◌==◌, list_eq, nat_eq, bne→eq, eq→beq, beq→eq, ap, refl, arith,
}
use sec_s_magik.Contract.{Refusal}
use sec_s_magik.Contract.Claims.{IssuerPin, CredentialClaims, Credential, Proof, Profile, Wire}
use sec_s_magik.Contract.Codec.{Crypto, JsonLibrary, hex, key, public_hex, digest, sign, verify}
use sec_s_magik.Contract.Codec.Laws.{CryptoLaws, verify-sign}
use sec_s_magik.Contract.Holder.{
  verify_credential, present, verify_presentation, proof_mismatch, proof_value, checked_add,
}
use sec_s_magik.Contract.Holder.Credentials.{
  verify_credential_window, verify_credential_narrows, holder_key,
}

abbrev agrees : Text → Result Refusal Text → Bool
agrees d (ok x) = d == x
agrees d (err e) = false

agrees-ok : (d : Text) (m : Result Refusal Text) → agrees d m ≡ true → m ≡ ok d
agrees-ok d (ok x) h = ap ok (sym (beq→eq d x h))
agrees-ok d (err e) h = cc

module _ {SigningKey VerifyingKey Value P : Type 0} (crypto : Crypto SigningKey VerifyingKey)
    (json : JsonLibrary Value) (wire : Wire P Value) (profile : Profile P) where
  -- What `present` has checked and what it returns.
  record IsPresented (pin : IssuerPin) (c : Credential P) (call : Value) (nonce : Text) (now : ℕ)
      (k : SigningKey) (p : Proof) : Type 0 where
    credential : verify_credential crypto json wire profile pin c now ≡ ok tt
    own_key : public_hex crypto k ≡ c.claims.holder_public_key
    good_nonce : is_ok (hex crypto 16 p.nonce) ≡ true
    schema : p.schema ≡ profile.presentation_schema
    credential_digest : digest crypto json (wire.credential_value c) ≡ ok p.credential_digest
    call_digest : digest crypto json call ≡ ok p.call_digest
    issued : p.issued_at ≡ now
    expires : p.expires_at ≡ min (now + 60) c.claims.expires_at
    signed :
        sign crypto json profile.presentation_domain (proof_value crypto json wire profile p) k
        ≡ ok p.signature

  present_facts :
      (pin : IssuerPin) (c : Credential P) (call : Value) (nonce : Text) (now : ℕ) (k : SigningKey)
      (p : Proof)
      → present crypto json wire profile pin c call nonce now k ≡ ok p
      → IsPresented pin c call nonce now k p
  unfolding present checked_add
  present_facts pin c call nonce now k p h = record {
    credential = ground arith;
    own_key = bne→eq (public_hex crypto k) c.claims.holder_public_key (ground arith);
    good_nonce = ground arith;
    schema = ground arith;
    credential_digest = ground arith;
    call_digest = ground arith;
    issued = ground arith;
    expires = ground arith;
    signed = ground arith;
  }

  -- The holder's key of a verified credential is usable.
  credential_key :
      (pin : IssuerPin) (c : Credential P) (now : ℕ)
      → verify_credential crypto json wire profile pin c now ≡ ok tt
      → (v : VerifyingKey) × (key crypto c.claims.holder_public_key ≡ ok v)
  credential_key pin c now h =
      let (_, holder, _, granted) =
        verify_credential_narrows crypto json wire profile pin c now h in
      let (begun, unexpired) =
        (verify_credential_window crypto json wire profile pin c now now h).0 h in
      rw holder (holder_key crypto json wire profile pin c.grant now (granted now begun unexpired))

  fresh_proof :
      (x : CredentialClaims P) (p : Proof) (now t : ℕ)
      → p.issued_at ≡ now
      → p.expires_at ≡ min (now + 60) x.expires_at
      → x.issued_at ≤ now
      → now ≤ t
      → t < p.expires_at
      → proof_mismatch crypto json wire profile x p t ≡ false
  unfolding proof_mismatch
  fresh_proof x p now t issued expires a b d = ground (arith, issued, expires, a, b, d)

  -- Given the laws of the cryptography, a holder's presentation of a credential with a call
  -- verifies, with that call, from the moment it is made until the earlier of sixty seconds later
  -- and the credential's expiry.
  pub present-verify :
      CryptoLaws crypto
      → (pin : IssuerPin) (c : Credential P) (call : Value) (nonce : Text) (now t : ℕ)
        (k : SigningKey) (p : Proof)
      → present crypto json wire profile pin c call nonce now k ≡ ok p
      → now ≤ t
      → t < min (now + 60) c.claims.expires_at
      → verify_presentation crypto json wire profile pin c call p t ≡ ok tt
  unfolding verify_presentation
  present-verify laws pin c call nonce now t k p h later soon =
      let facts = present_facts pin c call nonce now k p h in
      let window = verify_credential_window crypto json wire profile pin c now in
      let (begun, _) = (window now facts.credential).0 facts.credential in
      let (v, good) = credential_key pin c now facts.credential in
      let valid_now =
        (window t facts.credential).1 (omega (arith, begun, later), omega (arith, soon)) in
      let signed_now =
        subst
          (λ q.
            verify crypto json profile.presentation_domain (proof_value crypto json wire profile p)
              p.signature q
            ≡ ok tt)
          facts.own_key
          (verify-sign crypto laws json profile.presentation_domain
            (proof_value crypto json wire profile p) k v p.signature (rw facts.own_key good)
            facts.signed) in
      let fresh =
        fresh_proof c.claims p now t facts.issued facts.expires begun later
          (rw facts.expires soon) in
      ground (
        arith,
        valid_now,
        signed_now,
        fresh,
        facts.good_nonce,
        eq→beq p.schema profile.presentation_schema facts.schema,
        facts.credential_digest,
        facts.call_digest,
        eq→beq p.credential_digest p.credential_digest refl,
        eq→beq p.call_digest p.call_digest refl,
      )

  mismatch_facts :
      (x : CredentialClaims P) (p : Proof) (now : ℕ)
      → proof_mismatch crypto json wire profile x p now ≡ false
      → (x.issued_at ≤ p.issued_at)
        × (p.issued_at ≤ now)
        × (now < p.expires_at)
        × (p.expires_at ≤ x.expires_at)
        × (p.expires_at ≤ p.issued_at + 60)
  unfolding proof_mismatch
  mismatch_facts x p now h = (ground arith, ground arith, ground arith, ground arith, ground arith)

  presentation_facts :
      (pin : IssuerPin) (c : Credential P) (call : Value) (p : Proof) (now : ℕ)
      → verify_presentation crypto json wire profile pin c call p now ≡ ok tt
      → (verify_credential crypto json wire profile pin c now ≡ ok tt)
        × (proof_mismatch crypto json wire profile c.claims p now ≡ false)
        × (digest crypto json call ≡ ok p.call_digest)
        × (digest crypto json (wire.credential_value c) ≡ ok p.credential_digest)
  unfolding verify_presentation
  presentation_facts pin c call p now h = (
    ground arith,
    ground arith,
    agrees-ok p.call_digest (digest crypto json call) (ground arith),
    agrees-ok p.credential_digest (digest crypto json (wire.credential_value c)) (ground arith),
  )

  -- A presentation that verifies does so under a credential that verifies, is bound by digest to that
  -- credential and to the call it came with, and lasts at most sixty seconds within the credential's
  -- window.
  pub verify_presentation_bound :
      (pin : IssuerPin) (c : Credential P) (call : Value) (p : Proof) (now : ℕ)
      → verify_presentation crypto json wire profile pin c call p now ≡ ok tt
      → (verify_credential crypto json wire profile pin c now ≡ ok tt)
        × (digest crypto json call ≡ ok p.call_digest)
        × (digest crypto json (wire.credential_value c) ≡ ok p.credential_digest)
        × (c.claims.issued_at ≤ p.issued_at)
        × (p.issued_at ≤ now)
        × (now < p.expires_at)
        × (p.expires_at ≤ c.claims.expires_at)
        × (p.expires_at ≤ p.issued_at + 60)
  verify_presentation_bound pin c call p now h =
      let (credential, fresh, of_call, of_credential) = presentation_facts pin c call p now h in
      let (a, b, d, e, f) = mismatch_facts c.claims p now fresh in
      (credential, of_call, of_credential, a, b, d, e, f)

  -- A presentation verifies with one call only, up to the digest of its canonical form.
  pub verify_presentation_one_call :
      (pin : IssuerPin) (c : Credential P) (call other : Value) (p : Proof) (now t : ℕ)
      → verify_presentation crypto json wire profile pin c call p now ≡ ok tt
      → verify_presentation crypto json wire profile pin c other p t ≡ ok tt
      → digest crypto json call ≡ digest crypto json other
  verify_presentation_one_call pin c call other p now t h g =
      let (_, _, a, _) = presentation_facts pin c call p now h in
      let (_, _, b, _) = presentation_facts pin c other p t g in a ∙ sym b
