-- ===== src/Contract/Holder.antt =====
-- Holder grants, credentials and presentations: lib.rs and scoped_grants.rs of the grant contract
-- crate. The two versions repeat the same functions over their own schema names and permissions, and
-- the source's claims are generic in the permission, so the functions here take the version as a
-- `Profile`. Times are u64 unix seconds.
pub mod Parts
pub mod Issue
pub mod Credentials
pub mod Presentations
use sec_s_magik.Base.{
  ℕ, ◌+◌, ◌-◌, ◌^◌, min, Bool, true, false, ◌&&◌, ◌||◌, not, List, [], Text, Result, ok, err, ◌>>=◌,
  ◌>>◌, deny, ok_or, Option, none, some, ◌==◌, ◌!=◌, list_eq, option_eq, nat_eq, length, leb, ltb,
  if◌then◌else◌,
}
use sec_s_magik.Contract.{Refusal, check_text}
use sec_s_magik.Contract.Json.{safe_integer}
use sec_s_magik.Contract.Validity
use sec_s_magik.Contract.Claims.{
  IssuerPin, GrantClaims, Grant, CredentialClaims, Credential, Proof, Profile, Wire,
}
use sec_s_magik.Contract.Codec.{
  Crypto, JsonLibrary, hex, key, public_hex, canonical, digest, sign, verify,
}

abbrev pub max_root_claims : ℕ
max_root_claims = 61440

abbrev pub max_presentation : ℕ
max_presentation = 130000

-- `u64::checked_add`
unfoldable pub checked_add : ℕ → ℕ → Option ℕ
checked_add a b = if ltb (a + b) (2 ^ 64) then some (a + b) else none

module _ {SigningKey VerifyingKey Value P : Type 0} (crypto : Crypto SigningKey VerifyingKey)
    (json : JsonLibrary Value) (wire : Wire P Value) (profile : Profile P) where
  open profile use {refusal}

  -- `if let Some(i) = &installation_id { hex::<16>(i)?; }`
  abbrev pub check_installation : Option Text → Result Refusal (Unit {0})
  check_installation none = ok tt
  check_installation (some i) = do hex crypto 16 i; ok tt

  unfoldable pub grant_mismatch : IssuerPin → GrantClaims P → ℕ → Bool
  grant_mismatch pin c now =
      c.schema != profile.grant_schema
      || c.issuer != pin.issuer
      || c.key_id != pin.key_id
      || c.service != pin.service
      || c.onward_delegation
      || not (Validity.contains c.validity now)
      || not
          (leb 60 c.max_credential_lifetime_seconds && leb c.max_credential_lifetime_seconds 3600)

  -- `validate_grant`
  unfoldable pub validate_grant : IssuerPin → GrantClaims P → ℕ → Result Refusal (Unit {0})
  validate_grant pin c now = do
    written ← canonical json (wire.grant_claims c)
    deny (ltb max_root_claims (length written)) refusal
    check_text pin.issuer
    check_text pin.key_id
    check_text pin.service
    key crypto pin.public_key
    hex crypto 16 c.grant_id
    hex crypto 32 c.revision
    key crypto c.holder_public_key
    check_installation c.installation_id
    deny (grant_mismatch pin c now) refusal
    profile.check_service c.service c.permissions
    profile.check_permissions c.permissions

  -- `issue_grant`
  unfoldable pub issue_grant : IssuerPin → GrantClaims P → SigningKey → ℕ → Result Refusal (Grant P)
  issue_grant pin claims k now = do
    validate_grant pin claims now
    deny (public_hex crypto k != pin.public_key) refusal
    signature ← sign crypto json profile.grant_domain (wire.grant_claims claims) k
    ok (record { claims = claims; signature = signature })

  -- `verify_grant`
  unfoldable pub verify_grant : IssuerPin → Grant P → ℕ → Result Refusal (Unit {0})
  verify_grant pin g now = do
    validate_grant pin g.claims now
    verify crypto json profile.grant_domain (wire.grant_claims g.claims) g.signature pin.public_key

  abbrev pub ends_before : Option ℕ → ℕ → Bool
  ends_before none t = false
  ends_before (some last) t = ltb last t

  abbrev pub other_installation : Option Text → Option Text → Bool
  other_installation none installation = false
  other_installation (some i) installation = some i != installation

  -- The conditions of `validate_credential` after the digest.
  unfoldable pub credential_mismatch : GrantClaims P → CredentialClaims P → ℕ → Bool
  credential_mismatch g x now =
      x.holder_public_key != g.holder_public_key
      || ltb now x.issued_at
      || leb x.expires_at now
      || ltb safe_integer x.expires_at
      || ltb g.max_credential_lifetime_seconds (x.expires_at - x.issued_at)
      || not (Validity.contains g.validity x.issued_at)
      || ends_before (Validity.end_of g.validity) x.expires_at
      || other_installation g.installation_id x.installation_id

  -- `validate_credential`, which does not read the credential's own signature.
  unfoldable pub validate_credential :
      IssuerPin → Grant P → CredentialClaims P → ℕ → Result Refusal (Unit {0})
  validate_credential pin grant x now = do
    verify_grant pin grant now
    hex crypto 16 x.credential_id
    deny (x.schema != profile.credential_schema) refusal
    expected ← digest crypto json (wire.grant_value grant)
    deny (x.grant_digest != expected || credential_mismatch grant.claims x now) refusal
    check_installation x.installation_id
    profile.permissions_within x.permissions grant.claims.permissions

  -- `derive_credential`
  unfoldable pub derive_credential :
      IssuerPin
      → Grant P
      → List P
      → Option Text
      → (credential_id : Text) (issued_at expires_at : ℕ) → SigningKey
      → Result Refusal (Credential P)
  derive_credential pin grant permissions installation_id credential_id issued_at expires_at k = do
    grant_digest ← digest crypto json (wire.grant_value grant)
    let claims : CredentialClaims P = record {
      schema = profile.credential_schema;
      credential_id = credential_id;
      grant_digest = grant_digest;
      holder_public_key = public_hex crypto k;
      installation_id = installation_id;
      permissions = permissions;
      issued_at = issued_at;
      expires_at = expires_at;
    }
    validate_credential pin grant claims issued_at
    signature ← sign crypto json profile.credential_domain (wire.credential_claims claims) k
    let c : Credential P = record { grant = grant; claims = claims; signature = signature }
    canonical json (wire.credential_value c)
    ok c

  -- `verify_credential`
  unfoldable pub verify_credential : IssuerPin → Credential P → ℕ → Result Refusal (Unit {0})
  verify_credential pin c now = do
    canonical json (wire.credential_value c)
    validate_credential pin c.grant c.claims now
    verify crypto json profile.credential_domain (wire.credential_claims c.claims) c.signature
        c.claims.holder_public_key

  abbrev pub proof_value : Proof → Value
  proof_value p =
      wire.proof_claims p.schema p.credential_digest p.call_digest p.nonce p.issued_at p.expires_at

  -- `present`
  unfoldable pub present :
      IssuerPin → Credential P → Value → Text → ℕ → SigningKey → Result Refusal Proof
  present pin c call nonce now k = do
    verify_credential pin c now
    deny (public_hex crypto k != c.claims.holder_public_key) refusal
    hex crypto 16 nonce
    credential_digest ← digest crypto json (wire.credential_value c)
    call_digest ← digest crypto json call
    later ← ok_or (checked_add now 60) refusal
    let unsigned : Proof = record {
      schema = profile.presentation_schema;
      credential_digest = credential_digest;
      call_digest = call_digest;
      nonce = nonce;
      issued_at = now;
      expires_at = min later c.claims.expires_at;
      signature = [];
    }
    signature ← sign crypto json profile.presentation_domain (proof_value unsigned) k
    let p : Proof = record unsigned { signature = signature }
    written ← canonical json (wire.presentation c call p)
    deny (ltb max_presentation (length written)) refusal
    ok p

  -- The conditions of `verify_presentation` on times.
  unfoldable pub proof_mismatch : CredentialClaims P → Proof → ℕ → Bool
  proof_mismatch x p now =
      ltb p.issued_at x.issued_at
      || ltb now p.issued_at
      || leb p.expires_at now
      || ltb x.expires_at p.expires_at
      || ltb 60 (p.expires_at - p.issued_at)

  -- `verify_presentation`
  unfoldable pub verify_presentation :
      IssuerPin → Credential P → Value → Proof → ℕ → Result Refusal (Unit {0})
  verify_presentation pin c call p now = do
    verify_credential pin c now
    hex crypto 16 p.nonce
    deny (p.schema != profile.presentation_schema) refusal
    credential_digest ← digest crypto json (wire.credential_value c)
    deny (p.credential_digest != credential_digest) refusal
    call_digest ← digest crypto json call
    deny (p.call_digest != call_digest || proof_mismatch c.claims p now) refusal
    verify crypto json profile.presentation_domain (proof_value p) p.signature
        c.claims.holder_public_key
