-- ===== src/Examples/Routes.antt =====
-- One access point: the theorems on issue_access_point and verify_access_point.
use sec_s_magik.Base.{
  ◌+◌, ◌≤◌, ◌<◌, ◌≡◌, refl, true, [], Text, Option, none, some, ok, bytes, list_eq, nat_eq, arith,
  ◌==◌, if◌then◌else◌,
}
use sec_s_magik.Contract.{check_text, is_bad_text}
use sec_s_magik.Contract.Json.{safe, has_key}
use sec_s_magik.Contract.Claims.{IssuerPin}
use sec_s_magik.Contract.Codec.{
  canonical, key, public_hex, sign, verify, transcript, hex, is_bad_hex,
}
use sec_s_magik.Contract.AccessPoint.{
  Url, AccessPointClaims, AccessPointBinding, access_point, access_mismatch, access_origin,
  is_bad_origin, access_point_claims, issue_access_point, verify_access_point,
}
use sec_s_magik.Contract.AccessPoint.Issue.{issue_access_point-verify, verify_access_point_bound}
use sec_s_magik.Examples.Libraries.{crypto, crypto_laws, json, times, encode}

abbrev pin : IssuerPin
pin = record {
  issuer = bytes "issuer";
  key_id = bytes "key";
  public_key = encode (times 32 1);
  service = bytes "files";
}

abbrev origin : Text
origin = bytes "https://files.example"

-- A parser that knows one URL.
abbrev parse : Text → Option Url
parse t =
    if t == origin
    then some (record {
      scheme = bytes "https";
      host_str = some (bytes "files.example");
      username = [];
      password = none;
      query = none;
      fragment = none;
      ascii_serialization = origin;
    })
    else none

abbrev claims : AccessPointClaims
claims = record {
  schema = access_point;
  issuer = bytes "issuer";
  key_id = bytes "key";
  service = bytes "files";
  origin = origin;
  authority_receiver = origin;
  prefix = bytes "/service/v1";
  not_before = 100;
  not_after = 1000;
}

abbrev claims_value : AccessPointClaims → Text
claims_value c = c.origin

abbrev binding : AccessPointBinding
binding = record { claims = claims; signature = encode (times 64 1) }

issued : issue_access_point crypto json claims_value parse pin claims true 150 ≡ ok binding
unfolding issue_access_point access_point_claims access_mismatch access_origin is_bad_origin
    canonical safe has_key check_text is_bad_text key hex is_bad_hex public_hex sign transcript
issued = refl

binding_verifies : verify_access_point crypto json claims_value parse pin binding origin 999 ≡ ok tt
binding_verifies =
    issue_access_point-verify crypto json claims_value parse crypto_laws pin claims true 150 999
      binding issued (omega arith) (omega arith)

issue_access_point-verify_example :
    verify_access_point crypto json claims_value parse pin binding origin 999 ≡ ok tt
issue_access_point-verify_example =
    issue_access_point-verify crypto json claims_value parse crypto_laws pin claims true 150 999
      binding issued (omega arith) (omega arith)

verify_access_point_bound_example :
    ((u : Url) × (parse origin ≡ some u)
      × (u.scheme ≡ bytes "https")
      × (origin ≡ u.ascii_serialization))
    × (origin ≡ origin)
    × (100 ≤ 999)
    × (999 < 1000)
    × (1000 ≤ 100 + 604800)
    × (verify crypto json access_point (claims_value claims) binding.signature pin.public_key
        ≡ ok tt)
verify_access_point_bound_example =
    verify_access_point_bound crypto json claims_value parse pin binding origin 999 binding_verifies
