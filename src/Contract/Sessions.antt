-- ===== src/Contract/Sessions.antt =====
-- Session keys authorised by a grant's holder: holder_sessions.rs of the grant contract crate. A
-- challenge names a parent grant, a session key and a window; holder and session key sign it, the
-- issuer signs a credential over it, and the session key presents that with a call.
pub mod Protocol
pub mod Windows
pub mod Exchange
pub mod Issue
pub mod Presentations
pub mod Presented
pub mod Status
use sec_s_magik.Base.{
  ℕ, suc, ◌-◌, min, Bool, true, false, ◌&&◌, ◌||◌, not, List, [], Text, Option, none, some, Result,
  ok, err, ◌>>=◌, ◌>>◌, deny, ok_or, each, Eq, ◌==◌, ◌!=◌, list_eq, nat_eq, option_eq, length, any,
  is_empty, eqb, leb, ltb, bytes, if◌then◌else◌,
}
use sec_s_magik.Contract.{Refusal, check_text, invalid_holder_session}
use sec_s_magik.Contract.Json.{
  Json, null, boolean, number, string, array, object, Fields, end, field, safe_integer, has_key,
}
use sec_s_magik.Contract.Validity
use sec_s_magik.Contract.Claims.{IssuerPin, Grant, GrantClaims, Proof, Wire}
use sec_s_magik.Contract.Codec.{
  Crypto, JsonLibrary, hex, key, public_hex, canonical, digest, sign, verify,
}
use sec_s_magik.Contract.Holder
use sec_s_magik.Contract.Holder.{checked_add}
use sec_s_magik.Contract.Version2
use sec_s_magik.Contract.Version2.{Permission}

pub record Context : Type 0 where
  pub origin : Text
  pub audience : Text

pub record Challenge (Value : Type 0) : Type 0 where
  pub schema : Text
  pub challenge_id : Text
  pub request_id : Text
  pub nonce : Text
  pub issuer : Text
  pub key_id : Text
  pub service : Text
  pub audience : Text
  pub origin : Text
  pub parent_grant_id : Text
  pub parent_grant_digest : Text
  pub parent_revision : Text
  pub holder_public_key : Text
  pub installation_id : Text
  pub session_installation_id : Text
  pub session_public_key : Text
  pub permissions : List (Permission Value)
  pub issued_at : ℕ
  pub review_deadline : ℕ
  pub expires_at : ℕ

pub record Authorization (Value : Type 0) : Type 0 where
  pub schema : Text
  pub challenge : Challenge Value
  pub parent_grant : Grant (Permission Value)
  pub holder_signature : Text
  pub session_signature : Text

pub record CredentialClaims (Value : Type 0) : Type 0 where
  pub schema : Text
  pub credential_id : Text
  pub challenge_digest : Text
  pub challenge : Challenge Value

pub record Credential (Value : Type 0) : Type 0 where
  pub claims : CredentialClaims Value
  pub signature : Text

pub record StatusRequest : Type 0 where
  pub schema : Text
  pub request_id : Text
  pub challenge_id : Text
  pub nonce : Text
  pub issued_at : ℕ
  pub expires_at : ℕ
  pub signature : Text

abbrev pub challenge_schema : Text
challenge_schema = bytes "secs.holder-session-challenge.v1"

abbrev pub authorization_schema : Text
authorization_schema = bytes "secs.holder-session-authorization.v1"

abbrev pub credential_schema : Text
credential_schema = bytes "secs.holder-session-credential.v1"

abbrev pub presentation_schema : Text
presentation_schema = bytes "secs.holder-session-presentation.v1"

abbrev pub status_schema : Text
status_schema = bytes "secs.holder-session-status.v1"

abbrev pub authorize_domain : Text
authorize_domain = bytes "secs.holder-session-authorization.v1/signature"

abbrev pub possession_domain : Text
possession_domain = bytes "secs.holder-session-possession.v1/signature"

abbrev pub credential_domain : Text
credential_domain = bytes "secs.holder-session-credential.v1/signature"

abbrev pub proof_domain : Text
proof_domain = bytes "secs.holder-session-presentation.v1/signature"

abbrev pub status_domain : Text
status_domain = bytes "secs.holder-session-status.v1/signature"

-- The JSON values that the derived serializers and `json!` build here. `status_claims` leaves the
-- signature out.
pub record SessionWire (Value : Type 0) : Type 0 where
  pub challenge : Challenge Value → Value
  pub authorization : Authorization Value → Value
  pub claims : CredentialClaims Value → Value
  pub credential : Credential Value → Value
  pub status_claims :
      (schema request_id challenge_id nonce : Text) (issued_at expires_at : ℕ) → Value
  pub presentation : Credential Value → Value → Proof → Value

-- `value[name].as_str()`, in an object whose keys are distinct.
unfoldable pub str_field : Text → Fields → Option Text
str_field name end = none
str_field name (field k (string s) rest) = if k == name then some s else str_field name rest
str_field name (field k null rest) = if k == name then none else str_field name rest
str_field name (field k (boolean b) rest) = if k == name then none else str_field name rest
str_field name (field k (number n) rest) = if k == name then none else str_field name rest
str_field name (field k (array xs) rest) = if k == name then none else str_field name rest
str_field name (field k (object fs) rest) = if k == name then none else str_field name rest

unfoldable pub count_fields : Fields → ℕ
count_fields end = 0
count_fields (field k v rest) = suc (count_fields rest)

abbrev pub as_object : Json → Option Fields
as_object (object fields) = some fields
as_object null = none
as_object (boolean b) = none
as_object (number n) = none
as_object (string s) = none
as_object (array items) = none

-- The conditions of `structure` before the review deadline.
unfoldable pub is_bad_structure : {Value : Type 0} → Challenge Value → Context → ℕ → Bool
is_bad_structure c context now =
    c.schema != challenge_schema
    || c.origin != context.origin
    || c.audience != context.audience
    || c.holder_public_key == c.session_public_key
    || ltb safe_integer now
    || ltb now c.issued_at
    || leb c.expires_at c.issued_at
    || leb c.expires_at now
    || ltb safe_integer c.expires_at

-- Those of a status request or a presentation on times.
unfoldable pub is_out_of_window : {Value : Type 0} → Challenge Value → ℕ → ℕ → ℕ → Bool
is_out_of_window c issued_at expires_at now =
    ltb issued_at c.issued_at
    || ltb now issued_at
    || leb expires_at now
    || ltb c.expires_at expires_at
    || ltb 60 (expires_at - issued_at)

abbrev pub other_installation : Option Text → Text → Bool
other_installation none id = false
other_installation (some i) id = i != id

abbrev pub ends_before : Option ℕ → ℕ → Bool
ends_before none t = false
ends_before (some last) t = ltb last t

-- The conditions of `parent_binding` after the digest.
unfoldable pub is_unbound :
    {Value : Type 0} → Challenge Value → GrantClaims (Permission Value) → Bool
is_unbound c g =
    c.parent_revision != g.revision
    || c.holder_public_key != g.holder_public_key
    || other_installation g.installation_id c.installation_id
    || not (Validity.contains g.validity c.issued_at)
    || ends_before (Validity.end_of g.validity) c.expires_at
    || ltb g.max_credential_lifetime_seconds (c.expires_at - c.issued_at)
