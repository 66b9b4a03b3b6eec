-- ===== src/Server/Authority.antt =====
-- The modes of authority evidence: `AuthorityMode` and `AuthorityModePolicyDecision` of
-- server/src/dregg_authority.rs.
use sec_s_magik.Base.{
  Bool, true, false, ◌||◌, List, [], ◌∷◌, ◌++◌, none, some, Text, bytes, Result, ok, err, ◌==◌, Eq,
  if◌then◌else◌, list_eq, nat_eq,
}
use sec_s_magik.Server.Enums.{discrete_eq}
use sec_s_magik.Server.Errors.{
  VerificationError, reserved_authority_mode, authority_mode_downgrade, unsupported_authority_mode,
  reason_code,
}
use sec_s_magik.Server.Text.{strip_prefix}

pub data AuthorityMode : Type 0 where
  local_fixture signed_source solo_verified_receipt federation_checkpoint : AuthorityMode
  light_client_verified recursive_proof_carrying_state : AuthorityMode

abbrev pub AuthorityMode-discrete : Discrete AuthorityMode
AuthorityMode-discrete = hlevel

instance abbrev pub mode_eq : Eq AuthorityMode
mode_eq = discrete_eq AuthorityMode-discrete

-- `as_str`
unfoldable pub mode_text : AuthorityMode → Text
mode_text local_fixture = bytes "local_fixture"
mode_text signed_source = bytes "signed_source"
mode_text solo_verified_receipt = bytes "solo_verified_receipt"
mode_text federation_checkpoint = bytes "federation_checkpoint"
mode_text light_client_verified = bytes "light_client_verified"
mode_text recursive_proof_carrying_state = bytes "recursive_proof_carrying_state"

abbrev pub is_reserved : AuthorityMode → Bool
is_reserved light_client_verified = true
is_reserved recursive_proof_carrying_state = true
is_reserved _ = false

unfoldable pub satisfies_required_mode :
    AuthorityMode → AuthorityMode → Result VerificationError (Unit {0})
satisfies_required_mode mode required =
    if is_reserved mode || is_reserved required
    then err reserved_authority_mode
    else if mode == required
    then ok tt
    else err authority_mode_downgrade

-- `FromStr`
unfoldable pub parse_mode : Text → Result VerificationError AuthorityMode
parse_mode text =
    if text == bytes "local_fixture"
    then ok local_fixture
    else if text == bytes "signed_source"
    then ok signed_source
    else if text == bytes "solo_verified_receipt"
    then ok solo_verified_receipt
    else if text == bytes "federation_checkpoint"
    then ok federation_checkpoint
    else if text == bytes "light_client_verified"
    then ok light_client_verified
    else if text == bytes "recursive_proof_carrying_state"
    then ok recursive_proof_carrying_state
    else err unsupported_authority_mode

abbrev pub stripped : Text → List Text → List Text
stripped start [] = []
stripped start (field ∷ fields) =
    let rest = stripped start fields in
    elim (strip_prefix start field) [ none ↦ rest | some value ↦ value ∷ rest ]

abbrev pub single_label : List Text → Result VerificationError AuthorityMode
unfolding parse_mode
single_label (label ∷ []) = parse_mode label
single_label _ = err unsupported_authority_mode

unfoldable pub from_verified_summary : List Text → Result VerificationError AuthorityMode
unfolding parse_mode
from_verified_summary fields = single_label (stripped (bytes "authority_mode:") fields)

abbrev pub reason_field : Result VerificationError (Unit {0}) → List Text
unfolding reason_code
reason_field (ok done) = []
reason_field (err e) = (bytes "reason:" ++ reason_code e) ∷ []

abbrev pub satisfied_text : Result VerificationError (Unit {0}) → Text
satisfied_text (ok done) = bytes "true"
satisfied_text (err e) = bytes "false"

-- `AuthorityModePolicyDecision::redacted_summary_fields`
unfoldable pub redacted_summary_fields : AuthorityMode → AuthorityMode → List Text
unfolding satisfies_required_mode mode_text
redacted_summary_fields observed required =
    let result = satisfies_required_mode observed required in
    (bytes "authority_mode:" ++ mode_text observed)
    ∷ (bytes "required_authority_mode:" ++ mode_text required)
    ∷ (bytes "authority_mode_satisfied:" ++ satisfied_text result)
    ∷ reason_field result
