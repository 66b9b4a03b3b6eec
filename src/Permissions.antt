-- ===== src/Permissions.antt =====
-- The receiver-local permission policy: permissions/src/lib.rs. Texts are bytes, times are unix
-- seconds and opcodes are numbers. JSON decoding and file reading are parameters.
pub mod Decision
pub mod Reasons
pub mod Permctl
use sec_s_magik.Base.{
  ℕ, Bool, true, false, ◌&&◌, ◌||◌, not, List, [], ◌∷◌, Text, bytes, Result, ok, err, ◌>>=◌, Eq,
  ◌==◌, ◌≡◌, ◌↔◌, refl, leb, ltb, is_prefix, is_empty, any, select, if◌then◌else◌, Option, none,
  some, ok_or, Bool-cases, ◌>>◌, deny, each, length, arith, list_eq, nat_eq, ◌!=◌,
}

pub data AuthoritySource : Type 0 where
  receiver_local dregg_backed dregg_authority : AuthoritySource

pub data PermissionStatus : Type 0 where
  active revoked : PermissionStatus

pub data PermissionEffect : Type 0 where
  allow deny_effect : PermissionEffect

pub data ResourceScope : Type 0 where
  exact : Text → ResourceScope
  prefix : Text → ResourceScope

-- `ResourceScope::matches`
unfoldable pub scope_matches : ResourceScope → Text → Bool
scope_matches (exact value) resource = value == resource
scope_matches (prefix start) resource = is_prefix start resource

unfoldable pub declared_value : ResourceScope → Text
declared_value (exact value) = value
declared_value (prefix start) = start

pub record PermissionRecord : Type 0 where
  pub caller_id : Text
  pub opcode : ℕ
  pub operation : Text
  pub resource : ResourceScope
  pub effect : PermissionEffect
  pub not_before : ℕ
  pub not_after : ℕ
  pub status : PermissionStatus
  pub authority_source : AuthoritySource

-- The arguments of a permission question: caller, opcode, operation and resource.
pub record Request : Type 0 where
  pub caller_id : Text
  pub opcode : ℕ
  pub operation : Text
  pub resource : Text

unfoldable pub matches_request : Request → PermissionRecord → Bool
unfolding scope_matches
matches_request q r =
    r.caller_id == q.caller_id
    && r.opcode == q.opcode
    && r.operation == q.operation
    && scope_matches r.resource q.resource

abbrev pub is_active : PermissionStatus → Bool
is_active active = true
is_active revoked = false

abbrev pub is_receiver_local : AuthoritySource → Bool
is_receiver_local receiver_local = true
is_receiver_local _ = false

abbrev pub is_allow : PermissionEffect → Bool
is_allow allow = true
is_allow deny_effect = false

-- The window is [not_before, not_after).
unfoldable pub is_applicable : ℕ → PermissionRecord → Bool
is_applicable now r =
    is_active r.status
    && is_receiver_local r.authority_source
    && leb r.not_before now
    && ltb now r.not_after

pub data PermissionDecision : Type 0 where
  allowed : PermissionDecision

pub data DenyReason : Type 0 where
  no_matching_grant explicit_deny revoked_grant expired not_yet_valid : DenyReason
  authority_source_unsupported : DenyReason

-- `DenyReason::code`
unfoldable pub deny_code : DenyReason → Text
deny_code no_matching_grant = bytes "permission_no_matching_grant"
deny_code explicit_deny = bytes "permission_explicit_deny"
deny_code revoked_grant = bytes "permission_revoked"
deny_code expired = bytes "permission_expired"
deny_code not_yet_valid = bytes "permission_not_yet_valid"
deny_code authority_source_unsupported = bytes "permission_authority_source_unsupported"

pub data PolicyError : Type 0 where
  empty malformed invalid_record unreadable : PolicyError

-- The checks of `PermissionPolicy::new` on one record.
unfoldable pub is_invalid_record : PermissionRecord → Bool
unfolding declared_value
is_invalid_record r =
    is_empty r.caller_id
    || is_empty r.operation
    || is_empty (declared_value r.resource)
    || leb r.not_after r.not_before

-- `PermissionPolicy::new`; a policy is its list of records.
unfoldable pub new_policy : List PermissionRecord → Result PolicyError (List PermissionRecord)
unfolding is_invalid_record
new_policy records = do each (λ r. deny (is_invalid_record r) invalid_record) records; ok records

-- What the policy loader takes from outside: `str::trim` with `is_empty`, the JSON decoder, and
-- the contents of the file, if it can be read.
module _ (is_blank : Text → Bool) (decode : Text → Option (List PermissionRecord)) where
  unfoldable pub from_json_str : Text → Result PolicyError (List PermissionRecord)
  unfolding new_policy
  from_json_str json =
      if is_blank json
      then err empty
      else do records ← ok_or (decode json) malformed; new_policy records

  unfoldable pub from_json_file : Option Text → Result PolicyError (List PermissionRecord)
  unfolding from_json_str
  from_json_file contents = do json ← ok_or contents unreadable; from_json_str json

-- Why one matching `Allow` record does not apply.
unfoldable pub candidate_reason : ℕ → PermissionRecord → DenyReason
candidate_reason now r =
    if not (is_active r.status)
    then revoked_grant
    else if not (is_receiver_local r.authority_source)
    then authority_source_unsupported
    else if leb r.not_after now
    then expired
    else if ltb now r.not_before
    then not_yet_valid
    else no_matching_grant

abbrev is_revoked_grant : DenyReason → Bool
is_revoked_grant revoked_grant = true
is_revoked_grant _ = false

-- `if reason == NoMatchingGrant { reason = candidate; }`
abbrev keep_specific : DenyReason → DenyReason → DenyReason
keep_specific no_matching_grant candidate = candidate
keep_specific reason candidate = reason

-- The loop of `most_informative_inapplicable_reason` over the `Allow` records.
unfoldable pub inform : ℕ → DenyReason → List PermissionRecord → DenyReason
inform now reason [] = reason
inform now reason (r ∷ rs) =
    let rest = inform now (keep_specific reason (candidate_reason now r)) rs in
    if is_revoked_grant (candidate_reason now r) then revoked_grant else rest

unfoldable pub most_informative_inapplicable_reason : List PermissionRecord → ℕ → DenyReason
unfolding inform
most_informative_inapplicable_reason matching now =
    inform now no_matching_grant (select (λ r. is_allow r.effect) matching)

-- `PermissionPolicy::evaluate`
unfoldable pub evaluate : List PermissionRecord → Request → ℕ → Result DenyReason PermissionDecision
evaluate records q now =
    let matching = select (matches_request q) records in
    if is_empty matching
    then err no_matching_grant
    else if any (λ r. not (is_allow r.effect) && is_applicable now r) matching
    then err explicit_deny
    else if any (λ r. is_allow r.effect && is_applicable now r) matching
    then ok allowed
    else err (most_informative_inapplicable_reason matching now)
