-- ===== src/Contract/Holder/Credentials.antt =====
-- Deriving a credential and verifying it: derive_credential, validate_credential, verify_credential.
use sec_s_magik.Base.{
  ℕ, ◌+◌, ◌≤◌, ◌<◌, ◌≡◌, ◌↔◌, sym, List, Text, Option, ok, is_ok, true, list_eq, nat_eq, arith,
}
use sec_s_magik.Contract.Claims.{IssuerPin, Grant, Credential, Profile, Wire}
use sec_s_magik.Contract.Codec.{Crypto, JsonLibrary, key, public_hex, canonical, sign}
use sec_s_magik.Contract.Codec.Laws.{CryptoLaws, verify-sign}
use sec_s_magik.Contract.Holder.{
  validate_grant, verify_grant, validate_credential, derive_credential, verify_credential,
}
use sec_s_magik.Contract.Holder.Parts.{
  IsGrant, grant_facts, grant_claims_facts, IsCredential-facts, validate_facts,
  validate_credential_at,
}

module _ {SigningKey VerifyingKey Value P : Type 0} (crypto : Crypto SigningKey VerifyingKey)
    (json : JsonLibrary Value) (wire : Wire P Value) (profile : Profile P) where
  -- The parts of a successful derivation.
  derive_facts :
      (pin : IssuerPin) (g : Grant P) (ps : List P) (i : Option Text) (id : Text) (a e : ℕ)
      (k : SigningKey) (c : Credential P)
      → derive_credential crypto json wire profile pin g ps i id a e k ≡ ok c
      → (c.grant ≡ g)
        × (c.claims.holder_public_key ≡ public_hex crypto k)
        × (c.claims.permissions ≡ ps)
        × (c.claims.issued_at ≡ a)
        × (c.claims.expires_at ≡ e)
        × (validate_credential crypto json wire profile pin g c.claims a ≡ ok tt)
        × (sign crypto json profile.credential_domain (wire.credential_claims c.claims) k
            ≡ ok c.signature)
  unfolding derive_credential
  derive_facts pin g ps i id a e k c h = (
    ground arith,
    ground arith,
    ground arith,
    ground arith,
    ground arith,
    ground arith,
    ground arith,
  )

  derive_canonical :
      (pin : IssuerPin) (g : Grant P) (ps : List P) (i : Option Text) (id : Text) (a e : ℕ)
      (k : SigningKey) (c : Credential P)
      → derive_credential crypto json wire profile pin g ps i id a e k ≡ ok c
      → is_ok (canonical json (wire.credential_value c)) ≡ true
  unfolding derive_credential
  derive_canonical pin g ps i id a e k c h = ground arith

  validated :
      (pin : IssuerPin) (g : Grant P) (now : ℕ)
      → verify_grant crypto json wire profile pin g now ≡ ok tt
      → validate_grant crypto json wire profile pin g.claims now ≡ ok tt
  unfolding verify_grant
  validated pin g now h = ground arith

  pub holder_key :
      (pin : IssuerPin) (g : Grant P) (now : ℕ)
      → verify_grant crypto json wire profile pin g now ≡ ok tt
      → (v : VerifyingKey) × (key crypto g.claims.holder_public_key ≡ ok v)
  unfolding verify_grant validate_grant
  holder_key pin g now h = ground arith

  -- Given the laws of the cryptography, a credential that a holder derives from a grant verifies at
  -- every time from when it was issued up to but not including when it expires.
  pub derive-verify :
      CryptoLaws crypto
      → (pin : IssuerPin) (g : Grant P) (ps : List P) (i : Option Text) (id : Text) (a e : ℕ)
        (k : SigningKey) (c : Credential P) (now : ℕ)
      → derive_credential crypto json wire profile pin g ps i id a e k ≡ ok c
      → a ≤ now
      → now < e
      → verify_credential crypto json wire profile pin c now ≡ ok tt
  unfolding verify_credential
  derive-verify laws pin g ps i id a e k c now h begun unexpired =
      let (grant, holder, _, issued, expires, valid, signed) =
        derive_facts pin g ps i id a e k c h in
      let written = derive_canonical pin g ps i id a e k c h in
      let (fits, _, granted, _) = validate_facts crypto json wire profile pin g c.claims a valid in
      let (facts, _, _) = IsCredential-facts crypto json wire profile g.claims c.claims a fits in
      let (v, good) = holder_key pin g a granted in
      let valid_now =
        validate_credential_at crypto json wire profile pin g c.claims a now valid (rw issued begun)
          (rw expires unexpired) in
      let signed_now =
        verify-sign crypto laws json profile.credential_domain (wire.credential_claims c.claims) k v
          c.signature (rw (sym holder, facts.holder) good) signed in
      ground (arith, grant, written, valid_now, holder, signed_now)

  pub verify_facts :
      (pin : IssuerPin) (c : Credential P) (now : ℕ)
      → verify_credential crypto json wire profile pin c now ≡ ok tt
      → validate_credential crypto json wire profile pin c.grant c.claims now ≡ ok tt
  unfolding verify_credential
  verify_facts pin c now h = ground arith

  verify_again :
      (pin : IssuerPin) (c : Credential P) (now t : ℕ)
      → verify_credential crypto json wire profile pin c now ≡ ok tt
      → validate_credential crypto json wire profile pin c.grant c.claims t ≡ ok tt
      → verify_credential crypto json wire profile pin c t ≡ ok tt
  unfolding verify_credential
  verify_again pin c now t h valid = ground arith

  -- A credential that verifies at one time verifies at exactly the times of its window, from when it
  -- was issued up to but not including when it expires.
  pub verify_credential_window :
      (pin : IssuerPin) (c : Credential P) (now t : ℕ)
      → verify_credential crypto json wire profile pin c now ≡ ok tt
      → (verify_credential crypto json wire profile pin c t ≡ ok tt)
        ↔ ((c.claims.issued_at ≤ t) × (t < c.claims.expires_at))
  verify_credential_window pin c now t h =
      let valid = verify_facts pin c now h in
      (
        λ again.
            let (fits, _, _, _) =
              validate_facts crypto json wire profile pin c.grant c.claims t
                (verify_facts pin c t again) in
            let (_, begun, unexpired) =
              IsCredential-facts crypto json wire profile c.grant.claims c.claims t fits in
            (begun, unexpired),
        λ (begun, unexpired). verify_again pin c now t h (
            validate_credential_at crypto json wire profile pin c.grant c.claims now t valid begun
              unexpired),
      )

  grant_of :
      (pin : IssuerPin) (g : Grant P) (now : ℕ)
      → verify_grant crypto json wire profile pin g now ≡ ok tt
      → IsGrant crypto json wire profile pin g.claims
  grant_of pin g now h =
      let (facts, _) =
        grant_claims_facts crypto json wire profile pin g.claims now
          (grant_facts crypto json wire profile pin g.claims now (validated pin g now h)) in
      facts

  -- A credential that verifies lasts at most an hour, belongs to its grant's holder, passes the check
  -- of its permissions against its grant's, and its grant verifies throughout its window.
  pub verify_credential_narrows :
      (pin : IssuerPin) (c : Credential P) (now : ℕ)
      → verify_credential crypto json wire profile pin c now ≡ ok tt
      → (c.claims.expires_at ≤ c.claims.issued_at + 3600)
        × (c.claims.holder_public_key ≡ c.grant.claims.holder_public_key)
        × (profile.permissions_within c.claims.permissions c.grant.claims.permissions ≡ ok tt)
        × ((t : ℕ)
            → c.claims.issued_at ≤ t
            → t < c.claims.expires_at
            → verify_grant crypto json wire profile pin c.grant t ≡ ok tt)
  verify_credential_narrows pin c now h =
      let valid = verify_facts pin c now h in
      let (fits, _, granted, narrower) =
        validate_facts crypto json wire profile pin c.grant c.claims now valid in
      let (facts, _, _) =
        IsCredential-facts crypto json wire profile c.grant.claims c.claims now fits in
      let grant = grant_of pin c.grant now granted in
      (
        omega (arith, facts.lifetime, grant.lifetime),
        facts.holder,
        narrower,
        λ t begun unexpired.
            let (_, _, again, _) = validate_facts crypto json wire profile pin c.grant c.claims t (
              validate_credential_at crypto json wire profile pin c.grant c.claims now t valid begun
                unexpired) in
            again,
      )
