-- ===== src/Contract/Holder/Issue.antt =====
-- Issuing a grant and verifying it: issue_grant and verify_grant.
use sec_s_magik.Base.{ℕ, ◌≡◌, subst, ok, list_eq, nat_eq, bne→eq, arith}
use sec_s_magik.Contract.Claims.{IssuerPin, GrantClaims, Grant, Profile, Wire}
use sec_s_magik.Contract.Codec.{Crypto, JsonLibrary, key, public_hex, sign, verify}
use sec_s_magik.Contract.Codec.Laws.{CryptoLaws, verify-sign}
use sec_s_magik.Contract.Holder.{validate_grant, issue_grant, verify_grant}

module _ {SigningKey VerifyingKey Value P : Type 0} (crypto : Crypto SigningKey VerifyingKey)
    (json : JsonLibrary Value) (wire : Wire P Value) (profile : Profile P) where
  -- A validated grant has a usable issuer key.
  issuer_key :
      (pin : IssuerPin) (c : GrantClaims P) (now : ℕ)
      → validate_grant crypto json wire profile pin c now ≡ ok tt
      → (v : VerifyingKey) × (key crypto pin.public_key ≡ ok v)
  unfolding validate_grant
  issuer_key pin c now h = ground arith

  -- The parts of a successful issue.
  issue_facts :
      (pin : IssuerPin) (claims : GrantClaims P) (k : SigningKey) (now : ℕ) (g : Grant P)
      → issue_grant crypto json wire profile pin claims k now ≡ ok g
      → (g.claims ≡ claims)
        × (public_hex crypto k ≡ pin.public_key)
        × (validate_grant crypto json wire profile pin claims now ≡ ok tt)
        × (sign crypto json profile.grant_domain (wire.grant_claims claims) k ≡ ok g.signature)
  unfolding issue_grant
  issue_facts pin claims k now g h = (
    ground arith,
    bne→eq (public_hex crypto k) pin.public_key (ground arith),
    ground arith,
    ground arith,
  )

  -- Given the laws of the cryptography, a grant that is issued carries the claims asked for,
  -- unchanged, under the pinned issuer key, and verifies at the time of issue.
  pub issue-verify :
      CryptoLaws crypto
      → (pin : IssuerPin) (claims : GrantClaims P) (k : SigningKey) (now : ℕ) (g : Grant P)
      → issue_grant crypto json wire profile pin claims k now ≡ ok g
      → (g.claims ≡ claims)
        × (public_hex crypto k ≡ pin.public_key)
        × (verify_grant crypto json wire profile pin g now ≡ ok tt)
  unfolding verify_grant
  issue-verify laws pin claims k now g h =
      let (same, own_key, valid, signed) = issue_facts pin claims k now g h in
      let (v, good) = issuer_key pin claims now valid in
      (
        same,
        own_key,
        rw (same, valid)
            (subst
              (λ t.
                verify crypto json profile.grant_domain (wire.grant_claims claims) g.signature t
                ≡ ok tt)
              own_key
              (verify-sign crypto laws json profile.grant_domain (wire.grant_claims claims) k v
                g.signature (rw own_key good) signed)),
      )
