-- ===== src/Permissions/Permctl.antt =====
-- The policy tool: server/src/permctl.rs. Files are what reading them gives.
pub mod Revoke
pub mod Grant
use sec_s_magik.Base.{
  ℕ, ◌+◌, Bool, true, false, ◌&&◌, not, List, [], ◌∷◌, ◌++◌, Text, Option, none, some, Result, ok,
  err, ok_or, ◌==◌, list_eq, nat_eq, if◌then◌else◌, ◌≡◌, refl,
}
use sec_s_magik.Permissions
use sec_s_magik.Permissions.{
  PermissionRecord, Request, DenyReason, exact, prefix, allow, deny_effect, active, revoked,
  receiver_local, no_matching_grant, declared_value, is_active, new_policy, PermissionDecision,
}

pub data PermctlError : Type 0 where
  unreadable malformed unwritable : PermctlError

-- What `read_to_string` can give.
pub data FileRead : Type 0 where
  contents : Text → FileRead
  not_found other_error : FileRead

module _ (is_blank : Text → Bool) (decode : Text → Option (List PermissionRecord)) where
  unfoldable pub load_records : FileRead → Result PermctlError (List PermissionRecord)
  load_records (contents json) = if is_blank json then ok [] else ok_or (decode json) malformed
  load_records not_found = ok []
  load_records other_error = err unreadable

unfoldable pub build_record :
    (caller_id : Text) (opcode : ℕ) (operation resource : Text) (is_prefix is_deny : Bool)
    (not_before not_after : ℕ)
    → PermissionRecord
build_record caller_id opcode operation resource is_prefix is_deny not_before not_after = record {
  caller_id = caller_id;
  opcode = opcode;
  operation = operation;
  resource = if is_prefix then prefix resource else exact resource;
  effect = if is_deny then deny_effect else allow;
  not_before = not_before;
  not_after = not_after;
  status = active;
  authority_source = receiver_local;
}

unfoldable pub grant : List PermissionRecord → PermissionRecord → List PermissionRecord
grant records r = records ++ r ∷ []

-- `caller × opcode × operation × resource-value` of a revocation; its resource is the declared one.
unfoldable pub is_named : Request → PermissionRecord → Bool
unfolding declared_value
is_named q r =
    r.caller_id == q.caller_id
    && r.opcode == q.opcode
    && r.operation == q.operation
    && declared_value r.resource == q.resource

-- The loop of `revoke`, with the number of records that it has revoked.
unfoldable pub revoke_from : ℕ → List PermissionRecord → Request → List PermissionRecord × ℕ
revoke_from count [] q = ([], count)
revoke_from count (r ∷ rs) q =
    let hit = is_named q r && is_active r.status in
    let (rest, total) = revoke_from (if hit then count + 1 else count) rs q in
    ((if hit then record r { status = revoked } else r) ∷ rest, total)

unfoldable pub revoke : List PermissionRecord → Request → List PermissionRecord × ℕ
unfolding revoke_from
revoke records q = revoke_from 0 records q

-- `permctl::evaluate`: an invalid record set is a refusal.
unfoldable pub evaluate : List PermissionRecord → Request → ℕ → Result DenyReason PermissionDecision
evaluate records q now = elim (new_policy records) [
  | ok policy ↦ Permissions.evaluate policy q now
  | err e ↦ err no_matching_grant
]
