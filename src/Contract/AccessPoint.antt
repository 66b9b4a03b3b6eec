-- ===== src/Contract/AccessPoint.antt =====
-- Signed routes to a service: the access points of lib.rs of the grant contract crate. The parser of
-- URLs is a library's, and a parameter.
pub mod Issue
use sec_s_magik.Base.{
  ℕ, ◌-◌, Bool, true, false, ◌||◌, not, Text, Option, none, some, Result, ok, ◌>>=◌, ◌>>◌, deny,
  ok_or, ◌==◌, ◌!=◌, list_eq, nat_eq, length, all, is_empty, leb, ltb, bytes,
}
use sec_s_magik.Contract.{Refusal, check_text, invalid_holder_authority}
use sec_s_magik.Contract.Json.{safe_integer}
use sec_s_magik.Contract.Claims.{IssuerPin}
use sec_s_magik.Contract.Codec.{Crypto, JsonLibrary, key, public_hex, sign, verify}

-- What the code reads of a parsed `url::Url`.
pub record Url : Type 0 where
  pub scheme : Text
  pub host_str : Option Text
  pub username : Text
  pub password : Option Text
  pub query : Option Text
  pub fragment : Option Text
  pub ascii_serialization : Text

pub record AccessPointClaims : Type 0 where
  pub schema : Text
  pub issuer : Text
  pub key_id : Text
  pub service : Text
  pub origin : Text
  pub authority_receiver : Text
  pub prefix : Text
  pub not_before : ℕ
  pub not_after : ℕ

pub record AccessPointBinding : Type 0 where
  pub claims : AccessPointClaims
  pub signature : Text

abbrev pub access_point : Text
access_point = bytes "secs.service-access-point.v1"

abbrev pub is_present : Option Text → Bool
is_present none = false
is_present (some t) = true

-- The conditions of `access_origin` on the parsed URL.
unfoldable pub is_bad_origin : Text → Url → Bool
is_bad_origin value parsed =
    parsed.scheme != bytes "https"
    || not (is_present parsed.host_str)
    || not (is_empty parsed.username)
    || is_present parsed.password
    || is_present parsed.query
    || is_present parsed.fragment
    || value != parsed.ascii_serialization

unfoldable pub access_origin : (Text → Option Url) → Text → Result Refusal (Unit {0})
access_origin parse value = do
  deny (ltb 2048 (length value) || not (all (λ b. ltb b 128) value)) invalid_holder_authority
  parsed ← ok_or (parse value) invalid_holder_authority
  deny (is_bad_origin value parsed) invalid_holder_authority

-- The conditions of `access_point_claims`; `-` stops at zero, as `saturating_sub` does.
unfoldable pub access_mismatch : IssuerPin → AccessPointClaims → ℕ → Bool
access_mismatch pin c now =
    c.schema != access_point
    || c.issuer != pin.issuer
    || c.key_id != pin.key_id
    || c.service != pin.service
    || c.prefix != bytes "/service/v1"
    || ltb safe_integer now
    || ltb now c.not_before
    || leb c.not_after now
    || ltb safe_integer c.not_after
    || ltb 604800 (c.not_after - c.not_before)

module _ {SigningKey VerifyingKey Value : Type 0} (crypto : Crypto SigningKey VerifyingKey)
    (json : JsonLibrary Value) (claims_value : AccessPointClaims → Value)
    (parse : Text → Option Url) where
  unfoldable pub access_point_claims : IssuerPin → AccessPointClaims → ℕ → Result Refusal (Unit {0})
  access_point_claims pin c now = do
    check_text pin.service
    check_text pin.issuer
    check_text pin.key_id
    key crypto pin.public_key
    deny (access_mismatch pin c now) invalid_holder_authority
    access_origin parse c.origin
    access_origin parse c.authority_receiver

  unfoldable pub issue_access_point :
      IssuerPin → AccessPointClaims → SigningKey → ℕ → Result Refusal AccessPointBinding
  issue_access_point pin claims issuer now = do
    access_point_claims pin claims now
    deny (public_hex crypto issuer != pin.public_key) invalid_holder_authority
    signature ← sign crypto json access_point (claims_value claims) issuer
    ok (record { claims = claims; signature = signature })

  unfoldable pub verify_access_point :
      IssuerPin → AccessPointBinding → Text → ℕ → Result Refusal (Unit {0})
  verify_access_point pin binding origin now = do
    access_point_claims pin binding.claims now
    deny (binding.claims.origin != origin) invalid_holder_authority
    verify crypto json access_point (claims_value binding.claims) binding.signature pin.public_key
