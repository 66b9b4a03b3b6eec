-- ===== src/Contract/Version1/Documents.antt =====
-- The credentials of version 1, at the permissions of lib.rs.
use sec_s_magik.Base.{ℕ, ◌≡◌, true, List, ok, Eq, contains}
use sec_s_magik.Contract.Claims.{IssuerPin, Credential, Wire}
use sec_s_magik.Contract.Codec.{Crypto, JsonLibrary}
use sec_s_magik.Contract.Holder
use sec_s_magik.Contract.Holder.Credentials.{verify_credential_narrows}
use sec_s_magik.Contract.Version1.{Permission, permission_eq, permissions_within, profile}
use sec_s_magik.Contract.Version1.Narrowing.{IsContained, permissions_within-IsContained}

module _ {SigningKey VerifyingKey Value : Type 0} ⦃e : Eq Value⦄
    (crypto : Crypto SigningKey VerifyingKey) (json : JsonLibrary Value)
    (permissions_value : List (Permission Value) → Value)
    (wire : Wire (Permission Value) Value) where
  checked :
      (child parent : List (Permission Value))
      → (profile json permissions_value).permissions_within child parent ≡ ok tt
      → permissions_within json permissions_value child parent ≡ ok tt
  unfolding profile
  checked child parent h = h

  -- Each permission of a version 1 credential that verifies is contained in one permission of its
  -- grant: the same operation, resource and constraints, and no path that the grant's does not cover.
  pub verify_credential-IsContained :
      (pin : IssuerPin) (c : Credential (Permission Value)) (now : ℕ) (p : Permission Value)
      → Holder.verify_credential crypto json wire (profile json permissions_value) pin c now ≡ ok tt
      → contains c.claims.permissions p ≡ true
      → (g : Permission Value) × (contains c.grant.claims.permissions g ≡ true)
        × IsContained json permissions_value p g
  verify_credential-IsContained pin c now p h m =
      let (_, _, narrower, _) =
        verify_credential_narrows crypto json wire (profile json permissions_value) pin c now h in
      permissions_within-IsContained json permissions_value c.claims.permissions
        c.grant.claims.permissions p
        (checked c.claims.permissions c.grant.claims.permissions narrower) m
