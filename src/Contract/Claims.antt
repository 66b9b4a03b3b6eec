-- ===== src/Contract/Claims.antt =====
-- The signed documents of the grant contract crate: the records of lib.rs, generic in the permission,
-- and what its two versions differ in.
use sec_s_magik.Base.{ℕ, Bool, List, Text, Option, Result}
use sec_s_magik.Contract.{Refusal}
use sec_s_magik.Contract.Validity.{Validity}

pub record IssuerPin : Type 0 where
  pub issuer : Text
  pub key_id : Text
  pub public_key : Text
  pub service : Text

pub record GrantClaims (P : Type 0) : Type 0 where
  pub schema : Text
  pub grant_id : Text
  pub revision : Text
  pub issuer : Text
  pub key_id : Text
  pub service : Text
  pub holder_public_key : Text
  pub installation_id : Option Text
  pub validity : Validity
  pub max_credential_lifetime_seconds : ℕ
  pub onward_delegation : Bool
  pub permissions : List P

pub record Grant (P : Type 0) : Type 0 where
  pub claims : GrantClaims P
  pub signature : Text

pub record CredentialClaims (P : Type 0) : Type 0 where
  pub schema : Text
  pub credential_id : Text
  pub grant_digest : Text
  pub holder_public_key : Text
  pub installation_id : Option Text
  pub permissions : List P
  pub issued_at : ℕ
  pub expires_at : ℕ

pub record Credential (P : Type 0) : Type 0 where
  pub grant : Grant P
  pub claims : CredentialClaims P
  pub signature : Text

pub record Proof : Type 0 where
  pub schema : Text
  pub credential_digest : Text
  pub call_digest : Text
  pub nonce : Text
  pub issued_at : ℕ
  pub expires_at : ℕ
  pub signature : Text

-- What tells the versions apart: names, the refusal, and the checks of permissions. The second
-- version first checks each permission against the grant's service.
pub record Profile (P : Type 0) : Type 0 where
  pub grant_schema : Text
  pub credential_schema : Text
  pub presentation_schema : Text
  pub grant_domain : Text
  pub credential_domain : Text
  pub presentation_domain : Text
  pub refusal : Refusal
  pub check_service : Text → List P → Result Refusal (Unit {0})
  pub check_permissions : List P → Result Refusal (Unit {0})
  pub permissions_within : List P → List P → Result Refusal (Unit {0})

-- The JSON values that the derived serializers and `json!` build. `proof_claims` leaves the
-- signature of a proof out.
pub record Wire (P Value : Type 0) : Type 0 where
  pub grant_claims : GrantClaims P → Value
  pub grant_value : Grant P → Value
  pub credential_claims : CredentialClaims P → Value
  pub credential_value : Credential P → Value
  pub proof_claims :
      (schema credential_digest call_digest nonce : Text) (issued_at expires_at : ℕ) → Value
  pub presentation : Credential P → Value → Proof → Value
