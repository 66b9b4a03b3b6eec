-- ===== src/Contract/AccessPoint/Issue.antt =====
-- Issuing an access point and verifying it: issue_access_point and verify_access_point of lib.rs.
use sec_s_magik.Base.{
  ℕ, ◌+◌, ◌≤◌, ◌<◌, ◌≡◌, sym, subst, false, Text, Option, some, ok, list_eq, nat_eq, bne→eq,
  beq_refl, arith, bytes,
}
use sec_s_magik.Contract.Claims.{IssuerPin}
use sec_s_magik.Contract.Codec.{Crypto, JsonLibrary, key, public_hex, sign, verify}
use sec_s_magik.Contract.Codec.Laws.{CryptoLaws, verify-sign}
use sec_s_magik.Contract.AccessPoint.{
  Url, AccessPointClaims, AccessPointBinding, access_point, access_mismatch, access_origin,
  access_point_claims, issue_access_point, verify_access_point, is_bad_origin,
}

mismatch_at :
    (pin : IssuerPin) (c : AccessPointClaims) (now t : ℕ)
    → access_mismatch pin c now ≡ false
    → c.not_before ≤ t
    → t < c.not_after
    → access_mismatch pin c t ≡ false
unfolding access_mismatch
mismatch_at pin c now t h a b = ground arith

mismatch_window :
    (pin : IssuerPin) (c : AccessPointClaims) (now : ℕ)
    → access_mismatch pin c now ≡ false
    → (c.not_before ≤ now) × (now < c.not_after) × (c.not_after ≤ c.not_before + 604800)
unfolding access_mismatch
mismatch_window pin c now h = (ground arith, ground arith, ground arith)

module _ {SigningKey VerifyingKey Value : Type 0} (crypto : Crypto SigningKey VerifyingKey)
    (json : JsonLibrary Value) (claims_value : AccessPointClaims → Value)
    (parse : Text → Option Url) where
  claims_facts :
      (pin : IssuerPin) (c : AccessPointClaims) (now : ℕ)
      → access_point_claims crypto json claims_value parse pin c now ≡ ok tt
      → (access_mismatch pin c now ≡ false)
        × (access_origin parse c.origin ≡ ok tt)
        × (access_origin parse c.authority_receiver ≡ ok tt)
  unfolding access_point_claims
  claims_facts pin c now h = (ground arith, ground arith, ground arith)

  claims_at :
      (pin : IssuerPin) (c : AccessPointClaims) (now t : ℕ)
      → access_point_claims crypto json claims_value parse pin c now ≡ ok tt
      → access_mismatch pin c t ≡ false
      → access_point_claims crypto json claims_value parse pin c t ≡ ok tt
  unfolding access_point_claims
  claims_at pin c now t h same = ground arith

  claims_key :
      (pin : IssuerPin) (c : AccessPointClaims) (now : ℕ)
      → access_point_claims crypto json claims_value parse pin c now ≡ ok tt
      → (v : VerifyingKey) × (key crypto pin.public_key ≡ ok v)
  unfolding access_point_claims
  claims_key pin c now h = ground arith

  issue_access_facts :
      (pin : IssuerPin) (claims : AccessPointClaims) (k : SigningKey) (now : ℕ)
      (b : AccessPointBinding)
      → issue_access_point crypto json claims_value parse pin claims k now ≡ ok b
      → (b.claims ≡ claims)
        × (public_hex crypto k ≡ pin.public_key)
        × (access_point_claims crypto json claims_value parse pin claims now ≡ ok tt)
        × (sign crypto json access_point (claims_value claims) k ≡ ok b.signature)
  unfolding issue_access_point
  issue_access_facts pin claims k now b h = (
    ground arith,
    bne→eq (public_hex crypto k) pin.public_key (ground arith),
    ground arith,
    ground arith,
  )

  -- Given the laws of the cryptography, an access point that is issued verifies for its own origin
  -- at every time of its window.
  pub issue_access_point-verify :
      CryptoLaws crypto
      → (pin : IssuerPin) (claims : AccessPointClaims) (k : SigningKey) (now t : ℕ)
        (b : AccessPointBinding)
      → issue_access_point crypto json claims_value parse pin claims k now ≡ ok b
      → claims.not_before ≤ t
      → t < claims.not_after
      → verify_access_point crypto json claims_value parse pin b claims.origin t ≡ ok tt
  unfolding verify_access_point
  issue_access_point-verify laws pin claims k now t b h begun unexpired =
      let (same, own_key, valid, signed) = issue_access_facts pin claims k now b h in
      let (v, good) = claims_key pin claims now valid in
      let (fits, _, _) = claims_facts pin claims now valid in
      let valid_now =
        claims_at pin claims now t valid (mismatch_at pin claims now t fits begun unexpired) in
      let signed_now =
        subst (λ q. verify crypto json access_point (claims_value claims) b.signature q ≡ ok tt)
          own_key
          (verify-sign crypto laws json access_point (claims_value claims) k v b.signature
            (rw own_key good) signed) in
      ground (arith, same, valid_now, signed_now, beq_refl claims.origin)

  origin_facts :
      (pin : IssuerPin) (b : AccessPointBinding) (origin : Text) (now : ℕ)
      → verify_access_point crypto json claims_value parse pin b origin now ≡ ok tt
      → (b.claims.origin ≡ origin)
        × (access_point_claims crypto json claims_value parse pin b.claims now ≡ ok tt)
        × (verify crypto json access_point (claims_value b.claims) b.signature pin.public_key
            ≡ ok tt)
  unfolding verify_access_point
  origin_facts pin b origin now h =
      (bne→eq b.claims.origin origin (ground arith), ground arith, ground arith)

  parsed_origin :
      (value : Text)
      → access_origin parse value ≡ ok tt
      → (u : Url) × (parse value ≡ some u) × (is_bad_origin value u ≡ false)
  unfolding access_origin
  parsed_origin value h = ground arith

  url_facts :
      (value : Text) (u : Url)
      → is_bad_origin value u ≡ false
      → (u.scheme ≡ bytes "https") × (value ≡ u.ascii_serialization)
  unfolding is_bad_origin
  url_facts value u h = (
    bne→eq u.scheme (bytes "https") (ground arith),
    bne→eq value u.ascii_serialization (ground arith),
  )

  -- An access point that verifies for an origin names that origin, which parses as an https URL and
  -- is written as its parsed origin is; it is read within its window, which is at most a week, and
  -- its signature verifies under the pinned key.
  pub verify_access_point_bound :
      (pin : IssuerPin) (b : AccessPointBinding) (origin : Text) (now : ℕ)
      → verify_access_point crypto json claims_value parse pin b origin now ≡ ok tt
      → ((u : Url) × (parse origin ≡ some u)
          × (u.scheme ≡ bytes "https")
          × (origin ≡ u.ascii_serialization))
        × (b.claims.origin ≡ origin)
        × (b.claims.not_before ≤ now)
        × (now < b.claims.not_after)
        × (b.claims.not_after ≤ b.claims.not_before + 604800)
        × (verify crypto json access_point (claims_value b.claims) b.signature pin.public_key
            ≡ ok tt)
  verify_access_point_bound pin b origin now h =
      let (named, valid, signed) = origin_facts pin b origin now h in
      let (fits, of_origin, _) = claims_facts pin b.claims now valid in
      let (begun, unexpired, week) = mismatch_window pin b.claims now fits in
      let (u, found, good) = parsed_origin origin (rw (sym named) of_origin) in
      let (https, written) = url_facts origin u good in
      ((u, found, https, written), named, begun, unexpired, week, signed)
