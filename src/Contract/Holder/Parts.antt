-- ===== src/Contract/Holder/Parts.antt =====
-- What the validations of Holder establish.
use sec_s_magik.Base.{
  ℕ, ◌≤◌, ◌<◌, ◌-◌, ◌≡◌, true, false, ok, list_eq, option_eq, nat_eq, bne→eq, arith,
}
use sec_s_magik.Contract.Json.{safe_integer}
use sec_s_magik.Contract.Validity
use sec_s_magik.Contract.Claims.{IssuerPin, GrantClaims, Grant, CredentialClaims, Profile, Wire}
use sec_s_magik.Contract.Codec.{Crypto, JsonLibrary}
use sec_s_magik.Contract.Holder.{
  grant_mismatch, validate_grant, verify_grant, credential_mismatch, validate_credential,
  ends_before, other_installation,
}

module _ {SigningKey VerifyingKey Value P : Type 0} (crypto : Crypto SigningKey VerifyingKey)
    (json : JsonLibrary Value) (wire : Wire P Value) (profile : Profile P) where
  -- Everything that `validate_grant` checks without the time.
  pub record IsGrant (pin : IssuerPin) (c : GrantClaims P) : Type 0 where
    pub schema : c.schema ≡ profile.grant_schema
    pub issuer : c.issuer ≡ pin.issuer
    pub key_id : c.key_id ≡ pin.key_id
    pub service : c.service ≡ pin.service
    pub lifetime : c.max_credential_lifetime_seconds ≤ 3600
    pub closed : c.onward_delegation ≡ false

  pub grant_facts :
      (pin : IssuerPin) (c : GrantClaims P) (now : ℕ)
      → validate_grant crypto json wire profile pin c now ≡ ok tt
      → grant_mismatch crypto json wire profile pin c now ≡ false
  unfolding validate_grant
  grant_facts pin c now h = ground arith

  pub grant_claims_facts :
      (pin : IssuerPin) (c : GrantClaims P) (now : ℕ)
      → grant_mismatch crypto json wire profile pin c now ≡ false
      → IsGrant pin c × (Validity.contains c.validity now ≡ true)
  unfolding grant_mismatch
  grant_claims_facts pin c now h = (
    record {
      schema = bne→eq c.schema profile.grant_schema (ground arith);
      issuer = bne→eq c.issuer pin.issuer (ground arith);
      key_id = bne→eq c.key_id pin.key_id (ground arith);
      service = bne→eq c.service pin.service (ground arith);
      lifetime = ground arith;
      closed = ground arith;
    },
    ground arith,
  )

  -- Only the validity of a grant depends on the time.
  pub validate_grant_at :
      (pin : IssuerPin) (c : GrantClaims P) (now t : ℕ)
      → validate_grant crypto json wire profile pin c now ≡ ok tt
      → Validity.contains c.validity t ≡ true
      → validate_grant crypto json wire profile pin c t ≡ ok tt
  unfolding validate_grant grant_mismatch
  validate_grant_at pin c now t h v = ground arith

  -- What `credential_mismatch` compares, in order.
  pub record IsCredential (g : GrantClaims P) (x : CredentialClaims P) : Type 0 where
    pub holder : x.holder_public_key ≡ g.holder_public_key
    pub within_safe : x.expires_at ≤ safe_integer
    pub lifetime : x.expires_at - x.issued_at ≤ g.max_credential_lifetime_seconds
    pub granted : Validity.contains g.validity x.issued_at ≡ true
    pub bounded :
        ends_before crypto json wire profile (Validity.end_of g.validity) x.expires_at ≡ false
    pub installation :
        other_installation crypto json wire profile g.installation_id x.installation_id ≡ false

  pub IsCredential-facts :
      (g : GrantClaims P) (x : CredentialClaims P) (now : ℕ)
      → credential_mismatch crypto json wire profile g x now ≡ false
      → IsCredential g x × (x.issued_at ≤ now) × (now < x.expires_at)
  unfolding credential_mismatch
  IsCredential-facts g x now h = (
    record {
      holder = bne→eq x.holder_public_key g.holder_public_key (ground arith);
      within_safe = ground arith;
      lifetime = ground arith;
      granted = ground arith;
      bounded = ground arith;
      installation = ground arith;
    },
    ground arith,
    ground arith,
  )

  pub credential_mismatch_at :
      (g : GrantClaims P) (x : CredentialClaims P) (now t : ℕ)
      → credential_mismatch crypto json wire profile g x now ≡ false
      → x.issued_at ≤ t
      → t < x.expires_at
      → credential_mismatch crypto json wire profile g x t ≡ false
  unfolding credential_mismatch
  credential_mismatch_at g x now t h begun unexpired = ground arith

  -- Within a credential's window its grant is valid.
  granted_until :
      (v : Validity.Validity) (a e t : ℕ)
      → Validity.contains v a ≡ true
      → ends_before crypto json wire profile (Validity.end_of v) e ≡ false
      → e ≤ safe_integer
      → a ≤ t
      → t < e
      → Validity.contains v t ≡ true
  unfolding Validity.contains Validity.end_of
  granted_until v a e t c b s p q = ground arith

  pub validate_facts :
      (pin : IssuerPin) (g : Grant P) (x : CredentialClaims P) (now : ℕ)
      → validate_credential crypto json wire profile pin g x now ≡ ok tt
      → (credential_mismatch crypto json wire profile g.claims x now ≡ false)
        × (x.schema ≡ profile.credential_schema)
        × (verify_grant crypto json wire profile pin g now ≡ ok tt)
        × (profile.permissions_within x.permissions g.claims.permissions ≡ ok tt)
  unfolding validate_credential
  validate_facts pin g x now h = (
    ground arith,
    bne→eq x.schema profile.credential_schema (ground arith),
    ground arith,
    ground arith,
  )

  pub verify_grant_at :
      (pin : IssuerPin) (g : Grant P) (now t : ℕ)
      → verify_grant crypto json wire profile pin g now ≡ ok tt
      → Validity.contains g.claims.validity t ≡ true
      → verify_grant crypto json wire profile pin g t ≡ ok tt
  unfolding verify_grant
  verify_grant_at pin g now t h v = ground (arith, validate_grant_at pin g.claims now t)

  -- A credential that validates at one time validates throughout its window.
  pub validate_credential_at :
      (pin : IssuerPin) (g : Grant P) (x : CredentialClaims P) (now t : ℕ)
      → validate_credential crypto json wire profile pin g x now ≡ ok tt
      → x.issued_at ≤ t
      → t < x.expires_at
      → validate_credential crypto json wire profile pin g x t ≡ ok tt
  unfolding validate_credential
  validate_credential_at pin g x now t h begun unexpired =
      let (fits, schema, granted, narrower) = validate_facts pin g x now h in
      let (facts, a, b) = IsCredential-facts g.claims x now fits in
      ground (
        arith,
        h,
        verify_grant_at pin g now t granted (
            granted_until g.claims.validity x.issued_at x.expires_at t facts.granted facts.bounded
              facts.within_safe begun unexpired),
        credential_mismatch_at g.claims x now t fits begun unexpired,
      )
