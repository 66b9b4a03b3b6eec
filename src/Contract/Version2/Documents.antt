-- ===== src/Contract/Version2/Documents.antt =====
-- The functions of scoped_grants.rs: those of version 1, over the names and permissions of version 2.
use sec_s_magik.Base.{ℕ, List, Text, Option, Result, Eq}
use sec_s_magik.Contract.{Refusal}
use sec_s_magik.Contract.Claims.{
  IssuerPin, GrantClaims, Grant, CredentialClaims, Credential, Proof, Wire,
}
use sec_s_magik.Contract.Codec.{Crypto, JsonLibrary}
use sec_s_magik.Contract.Holder
use sec_s_magik.Contract.Version2.{Permission, permission_eq, profile}

module _ {SigningKey VerifyingKey Value : Type 0} ⦃e : Eq Value⦄
    (crypto : Crypto SigningKey VerifyingKey) (json : JsonLibrary Value)
    (permission_value : Permission Value → Value)
    (permissions_value : List (Permission Value) → Value)
    (wire : Wire (Permission Value) Value) where
  unfoldable pub validate_grant :
      IssuerPin → GrantClaims (Permission Value) → ℕ → Result Refusal (Unit {0})
  validate_grant =
      Holder.validate_grant crypto json wire (profile json permission_value permissions_value)

  unfoldable pub issue_grant :
      IssuerPin
      → GrantClaims (Permission Value)
      → SigningKey
      → ℕ
      → Result Refusal (Grant (Permission Value))
  issue_grant =
      Holder.issue_grant crypto json wire (profile json permission_value permissions_value)

  unfoldable pub verify_grant : IssuerPin → Grant (Permission Value) → ℕ → Result Refusal (Unit {0})
  verify_grant =
      Holder.verify_grant crypto json wire (profile json permission_value permissions_value)

  unfoldable pub validate_credential :
      IssuerPin
      → Grant (Permission Value)
      → CredentialClaims (Permission Value)
      → ℕ
      → Result Refusal (Unit {0})
  validate_credential =
      Holder.validate_credential crypto json wire (profile json permission_value permissions_value)

  unfoldable pub derive_credential :
      IssuerPin
      → Grant (Permission Value)
      → List (Permission Value)
      → Option Text
      → (credential_id : Text) (issued_at expires_at : ℕ) → SigningKey
      → Result Refusal (Credential (Permission Value))
  derive_credential =
      Holder.derive_credential crypto json wire (profile json permission_value permissions_value)

  unfoldable pub verify_credential :
      IssuerPin → Credential (Permission Value) → ℕ → Result Refusal (Unit {0})
  verify_credential =
      Holder.verify_credential crypto json wire (profile json permission_value permissions_value)

  unfoldable pub present :
      IssuerPin
      → Credential (Permission Value)
      → Value
      → Text
      → ℕ
      → SigningKey
      → Result Refusal Proof
  present = Holder.present crypto json wire (profile json permission_value permissions_value)

  unfoldable pub verify_presentation :
      IssuerPin → Credential (Permission Value) → Value → Proof → ℕ → Result Refusal (Unit {0})
  verify_presentation =
      Holder.verify_presentation crypto json wire (profile json permission_value permissions_value)
