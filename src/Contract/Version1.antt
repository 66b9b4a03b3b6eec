-- ===== src/Contract/Version1.antt =====
-- Version 1 of the holder documents: the permissions of lib.rs of the grant contract crate, and the
-- names that its functions use.
pub mod Narrowing
pub mod Documents
use sec_s_magik.Base.{
  ℕ, Bool, true, false, ◌&&◌, ◌||◌, not, List, [], Text, Result, ok, ◌>>=◌, ◌>>◌, deny, each_after,
  Eq, ◌==◌, list_eq, nat_eq, beq→eq, beq_refl, contains, all, any, length, is_empty, ltb, ◌≡◌, ◌↔◌,
  arith, bytes,
}
use sec_s_magik.Contract.{Refusal, check_text, invalid_holder_authority}
use sec_s_magik.Contract.Json.{Json, object, null, boolean, number, string, array, safe}
use sec_s_magik.Contract.Codec.{JsonLibrary, canonical}
use sec_s_magik.Contract.Claims.{Profile}
use sec_s_magik.Contract.Scope.{Scope, scope_eq, validate_scope, scope_within}

pub record Permission (Value : Type 0) : Type 0 where
  pub operation : Text
  pub resource : Text
  pub scope : Scope
  pub constraints : Value

-- `Value::is_object`
abbrev pub is_object : Json → Bool
is_object (object fields) = true
is_object null = false
is_object (boolean b) = false
is_object (number n) = false
is_object (string s) = false
is_object (array items) = false

module _ {Value : Type 0} ⦃e : Eq Value⦄ where
  abbrev pub permission_beq : Permission Value → Permission Value → Bool
  permission_beq a b =
      a.operation == b.operation
      && a.resource == b.resource
      && a.scope == b.scope
      && a.constraints == b.constraints

  pub permission_beq_iff : (a b : Permission Value) → (permission_beq a b ≡ true) ↔ (a ≡ b)
  permission_beq_iff a b = (
    λ h. cc (
      beq→eq a.operation b.operation (ground arith),
      beq→eq a.resource b.resource (ground arith),
      beq→eq a.scope b.scope (ground arith),
      beq→eq a.constraints b.constraints (ground arith),
    ),
    λ p. ground (
      arith,
      beq_refl a.operation,
      beq_refl a.resource,
      beq_refl a.scope,
      beq_refl a.constraints,
      p,
    ),
  )

  instance abbrev pub permission_eq : Eq (Permission Value)
  permission_eq = record { beq = permission_beq; beq_iff = permission_beq_iff }

  -- The test of one parent permission in `permissions_within`.
  unfoldable pub permission_within : Permission Value → Permission Value → Bool
  permission_within c p =
      c.operation == p.operation
      && c.resource == p.resource
      && c.constraints == p.constraints
      && scope_within c.scope p.scope

module _ {Value : Type 0} ⦃e : Eq Value⦄ (json : JsonLibrary Value)
    (permissions_value : List (Permission Value) → Value) where
  -- One permission of the loop of `permissions`.
  abbrev check_permission : List (Permission Value) → Permission Value → Result Refusal (Unit {0})
  check_permission seen r = do
    check_text r.operation
    check_text r.resource
    validate_scope r.scope
    deny (not (is_object (json.view r.constraints)) || contains seen r) invalid_holder_authority
    safe (json.view r.constraints) 8

  unfoldable pub permissions : List (Permission Value) → Result Refusal (Unit {0})
  permissions p = do
    deny (is_empty p || ltb 64 (length p)) invalid_holder_authority
    each_after check_permission [] p
    canonical json (permissions_value p)
    ok tt

  unfoldable pub permissions_within :
      List (Permission Value) → List (Permission Value) → Result Refusal (Unit {0})
  permissions_within child parent = do
    permissions child
    permissions parent
    deny (not (all (λ c. any (permission_within c) parent) child)) invalid_holder_authority

  unfoldable pub profile : Profile (Permission Value)
  profile = record {
    grant_schema = bytes "secs.holder-grant.v1";
    credential_schema = bytes "secs.holder-credential.v1";
    presentation_schema = bytes "secs.holder-presentation.v1";
    grant_domain = bytes "secs.holder-grant.v1/signature";
    credential_domain = bytes "secs.holder-credential.v1/signature";
    presentation_domain = bytes "secs.holder-presentation.v1/signature";
    refusal = invalid_holder_authority;
    check_service = λ service ps. ok tt;
    check_permissions = permissions;
    permissions_within = permissions_within;
  }
