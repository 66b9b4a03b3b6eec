-- ===== src/Contract/Version2.antt =====
-- Version 2 of the holder documents: scoped_grants.rs of the grant contract crate. A permission
-- selects the resources of each role.
pub mod Narrowing
pub mod Documents
use sec_s_magik.Base.{
  ℕ, Bool, true, false, ◌&&◌, ◌||◌, not, List, [], ◌∷◌, Text, Result, ok, err, ◌>>=◌, ◌>>◌, deny,
  ok_or, each, each_after, Option, none, some, Eq, ◌==◌, ◌!=◌, list_eq, nat_eq, contains, any,
  length, is_empty, eqb, ltb, bytes, get_elem?, beq→eq, beq_refl, ◌≡◌, ◌↔◌, arith, if◌then◌else◌,
}
use sec_s_magik.Contract.{Refusal, check_text, invalid_scoped_holder_authority}
use sec_s_magik.Contract.Codec.{JsonLibrary, canonical}
use sec_s_magik.Contract.Claims.{Profile}
use sec_s_magik.Contract.Selector
use sec_s_magik.Contract.Selector.{ResourceSelector}
use sec_s_magik.Contract.Compound.{
  RoleSelection, EffectContract, EffectRule, validate_rule, selection_of,
}
use sec_s_magik.Contract.Compound.Equality.{role_selection_eq}
use sec_s_magik.Contract.Version1.{is_object}

pub record Permission (Value : Type 0) : Type 0 where
  pub operation : Text
  pub resource : Text
  pub roles : List RoleSelection
  pub constraints : Value

-- One role of the loop of `Permission::validate`.
abbrev check_role : Text → List RoleSelection → RoleSelection → Result Refusal (Unit {0})
check_role service seen r = do
  check_text r.role
  Selector.validate r.selector
  deny (r.selector.service != service || any (λ p. p.role == r.role) seen)
      invalid_scoped_holder_authority

module _ {Value : Type 0} (json : JsonLibrary Value)
    (permission_value : Permission Value → Value) where
  -- `Permission::validate`
  unfoldable pub validate : Permission Value → Text → Result Refusal (Unit {0})
  validate p service = do
    check_text service
    check_text p.operation
    check_text p.resource
    deny (is_empty p.roles || ltb 16 (length p.roles) || not (is_object (json.view p.constraints)))
        invalid_scoped_holder_authority
    each_after (check_role service) [] p.roles
    canonical json (permission_value p)
    ok tt

  -- `Permission::effect_rule`
  unfoldable pub effect_rule : Permission Value → EffectContract → Result Refusal EffectRule
  effect_rule p contract = do
    validate p contract.service
    let rule : EffectRule = record {
      service = contract.service;
      operation = p.operation;
      roles = p.roles;
    }
    validate_rule rule contract
    ok rule

-- `match p.roles.iter().find(..)`, for one role of the child.
unfoldable pub found_within : Option RoleSelection → ResourceSelector → Result Refusal Bool
found_within (some r) selector = Selector.within selector r.selector
found_within none selector = ok false

-- The loop over the roles of a child. It goes on after a role that is not narrower, so that a later
-- selector still refuses.
unfoldable pub roles_narrower : List RoleSelection → List RoleSelection → Result Refusal Bool
roles_narrower parent [] = ok true
roles_narrower parent (role ∷ rest) = do
  here ← found_within (selection_of parent role.role) role.selector
  later ← roles_narrower parent rest
  ok (here && later)

module _ {Value : Type 0} ⦃e : Eq Value⦄ where
  abbrev pub permission_beq : Permission Value → Permission Value → Bool
  permission_beq a b =
      a.operation == b.operation
      && a.resource == b.resource
      && a.roles == b.roles
      && a.constraints == b.constraints

  pub permission_beq_iff : (a b : Permission Value) → (permission_beq a b ≡ true) ↔ (a ≡ b)
  permission_beq_iff a b = (
    λ h. cc (
      beq→eq a.operation b.operation (ground arith),
      beq→eq a.resource b.resource (ground arith),
      beq→eq a.roles b.roles (ground arith),
      beq→eq a.constraints b.constraints (ground arith),
    ),
    λ p. ground (
      arith,
      beq_refl a.operation,
      beq_refl a.resource,
      beq_refl a.roles,
      beq_refl a.constraints,
      p,
    ),
  )

  instance abbrev pub permission_eq : Eq (Permission Value)
  permission_eq = record { beq = permission_beq; beq_iff = permission_beq_iff }

  -- The parents that the loop skips with `continue`.
  abbrev pub is_other : Permission Value → Permission Value → Bool
  is_other c p =
      c.operation != p.operation
      || c.resource != p.resource
      || c.constraints != p.constraints
      || not (eqb (length c.roles) (length p.roles))

  -- The loop over the parents of one child; it asks every parent.
  unfoldable pub any_narrows : Permission Value → List (Permission Value) → Result Refusal Bool
  any_narrows c [] = ok false
  any_narrows c (p ∷ rest) =
      let narrower = if is_other c p then ok false else roles_narrower p.roles c.roles in
      do found ← narrower; later ← any_narrows c rest; ok (found || later)

  -- The loop over the children.
  unfoldable pub all_narrowed :
      List (Permission Value) → List (Permission Value) → Result Refusal (Unit {0})
  all_narrowed parent [] = ok tt
  all_narrowed parent (c ∷ rest) = do
    found ← any_narrows c parent
    deny (not found) invalid_scoped_holder_authority
    all_narrowed parent rest

module _ {Value : Type 0} ⦃e : Eq Value⦄ (json : JsonLibrary Value)
    (permission_value : Permission Value → Value)
    (permissions_value : List (Permission Value) → Value) where
  -- One permission of the loop of `permissions`, under the service of its first role.
  abbrev check_permission : List (Permission Value) → Permission Value → Result Refusal (Unit {0})
  check_permission seen r = do
    first ← ok_or (get_elem? r.roles 0) invalid_scoped_holder_authority
    validate json permission_value r first.selector.service
    deny (contains seen r) invalid_scoped_holder_authority

  unfoldable pub permissions : List (Permission Value) → Result Refusal (Unit {0})
  permissions p = do
    deny (is_empty p || ltb 64 (length p)) invalid_scoped_holder_authority
    each_after check_permission [] p
    canonical json (permissions_value p)
    ok tt

  unfoldable pub permissions_within :
      List (Permission Value) → List (Permission Value) → Result Refusal (Unit {0})
  permissions_within child parent = do
    permissions child
    permissions parent
    all_narrowed parent child

  unfoldable pub profile : Profile (Permission Value)
  profile = record {
    grant_schema = bytes "secs.holder-grant.v2";
    credential_schema = bytes "secs.holder-credential.v2";
    presentation_schema = bytes "secs.holder-presentation.v2";
    grant_domain = bytes "secs.holder-grant.v2/signature";
    credential_domain = bytes "secs.holder-credential.v2/signature";
    presentation_domain = bytes "secs.holder-presentation.v2/signature";
    refusal = invalid_scoped_holder_authority;
    check_service = λ service ps. each (λ p. validate json permission_value p service) ps;
    check_permissions = permissions;
    permissions_within = permissions_within;
  }
