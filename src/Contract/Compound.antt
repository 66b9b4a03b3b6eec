-- ===== src/Contract/Compound.antt =====
-- Compound effect rules: compound_resources.rs of the grant contract crate. One rule selects the
-- resources of every role of one operation; the provider's installed contract names the roles.
pub mod Narrowing
pub mod Matching
pub mod Equality
use sec_s_magik.Base.{
  ℕ, zero, suc, ◌+◌, Bool, true, false, ◌&&◌, ◌||◌, not, List, [], ◌∷◌, Text, Result, ok, err,
  ◌>>=◌, ◌>>◌, deny, each, each_after, Option, none, some, ok_or, ◌==◌, ◌!=◌, list_eq, nat_eq, eqb,
  contains, all, any, find, length, is_empty, ltb, if◌then◌else◌,
}
use sec_s_magik.Contract.{Refusal, check_text, invalid_compound_resources}
use sec_s_magik.Contract.Selector
use sec_s_magik.Contract.Selector.{ResourceRef, ref_eq, ResourceSelector, ResourceSnapshot}

pub record RoleContract : Type 0 where
  pub name : Text
  pub kinds : List Text
  pub minimum : ℕ
  pub maximum : ℕ

pub record EffectContract : Type 0 where
  pub service : Text
  pub operation : Text
  pub roles : List RoleContract

pub record RoleSelection : Type 0 where
  pub role : Text
  pub selector : ResourceSelector

pub record EffectRule : Type 0 where
  pub service : Text
  pub operation : Text
  pub roles : List RoleSelection

pub record ResolvedRole : Type 0 where
  pub role : Text
  pub resources : List ResourceRef

abbrev fresh_kind : List Text → Text → Result Refusal (Unit {0})
fresh_kind seen kind = do check_text kind; deny (contains seen kind) invalid_compound_resources

-- One role of the loop of `EffectContract::validate`.
abbrev check_role : List RoleContract → RoleContract → Result Refusal (Unit {0})
check_role seen role = do
  check_text role.name
  deny
      (any (λ r. r.name == role.name) seen
        || eqb role.maximum 0
        || ltb 128 role.maximum
        || ltb role.maximum role.minimum
        || is_empty role.kinds
        || ltb 16 (length role.kinds))
      invalid_compound_resources
  each_after fresh_kind [] role.kinds

-- `EffectContract::validate`
unfoldable pub validate_contract : EffectContract → Result Refusal (Unit {0})
validate_contract c = do
  check_text c.service
  check_text c.operation
  deny (is_empty c.roles || ltb 16 (length c.roles) || all (λ r. eqb r.minimum 0) c.roles)
      invalid_compound_resources
  each_after check_role [] c.roles

-- One target of one effect in `EffectContract::validate_plan`.
abbrev check_target : RoleContract → List ResourceRef → ResourceRef → Result Refusal (Unit {0})
check_target role seen target = do
  check_text target.kind
  check_text target.id
  deny (not (contains role.kinds target.kind) || contains seen target) invalid_compound_resources

abbrev check_effect : EffectContract → List ResolvedRole → ResolvedRole → Result Refusal (Unit {0})
check_effect c seen effect = do
  role ← ok_or (find (λ r. r.name == effect.role) c.roles) invalid_compound_resources
  deny
      (any (λ r. r.role == effect.role) seen
        || ltb (length effect.resources) role.minimum
        || ltb role.maximum (length effect.resources))
      invalid_compound_resources
  each_after (check_target role) [] effect.resources

-- `EffectContract::validate_plan`
unfoldable pub validate_plan : EffectContract → List ResolvedRole → Result Refusal (Unit {0})
validate_plan c effects = do
  validate_contract c
  deny (not (eqb (length effects) (length c.roles))) invalid_compound_resources
  each_after (check_effect c) [] effects

abbrev check_selection :
    EffectContract → List RoleSelection → RoleSelection → Result Refusal (Unit {0})
check_selection c seen selection = do
  role ← ok_or (find (λ r. r.name == selection.role) c.roles) invalid_compound_resources
  Selector.validate selection.selector
  deny
      (any (λ r. r.role == selection.role) seen
        || selection.selector.service != c.service
        || not (all (λ k. contains role.kinds k) selection.selector.kinds))
      invalid_compound_resources

-- `EffectRule::validate`
unfoldable pub validate_rule : EffectRule → EffectContract → Result Refusal (Unit {0})
validate_rule rule c = do
  validate_contract c
  deny
      (rule.service != c.service
        || rule.operation != c.operation
        || not (eqb (length rule.roles) (length c.roles)))
      invalid_compound_resources
  each_after (check_selection c) [] rule.roles

abbrev pub selection_of : List RoleSelection → Text → Option RoleSelection
selection_of roles role = find (λ r. r.role == role) roles

-- The loop of `EffectRule::within` over the selections of the child.
unfoldable pub roles_within : List RoleSelection → List RoleSelection → Result Refusal Bool
roles_within parent [] = ok true
roles_within parent (selection ∷ rest) =
    let continue = roles_within parent rest in
    do
      previous ← ok_or (selection_of parent selection.role) invalid_compound_resources
      narrower ← Selector.within selection.selector previous.selector
      if not narrower then ok false else continue

-- `EffectRule::within`
unfoldable pub rule_within : EffectRule → EffectRule → EffectContract → Result Refusal Bool
rule_within child parent c = do
  validate_rule child c
  validate_rule parent c
  roles_within parent.roles child.roles

module _ (snapshot : ResourceSnapshot) where
  -- The inner loop of `EffectRule::permits`: the targets of one effect.
  unfoldable pub permits_targets : ResourceSelector → Text → List ResourceRef → Result Refusal Bool
  permits_targets selector service [] = ok true
  permits_targets selector service (target ∷ rest) =
      let continue = permits_targets selector service rest in
      do
        permitted ← Selector.permits snapshot selector service target
        if not permitted then ok false else continue

  -- Its outer loop.
  unfoldable pub permits_effects :
      List RoleSelection → Text → List ResolvedRole → Result Refusal Bool
  permits_effects roles service [] = ok true
  permits_effects roles service (effect ∷ rest) =
      let continue = permits_effects roles service rest in
      do
        selection ← ok_or (selection_of roles effect.role) invalid_compound_resources
        permitted ← permits_targets selection.selector service effect.resources
        if not permitted then ok false else continue

  -- `EffectRule::permits`
  unfoldable pub rule_permits :
      EffectRule → EffectContract → List ResolvedRole → Result Refusal Bool
  rule_permits rule c effects = do
    validate_rule rule c
    validate_plan c effects
    permits_effects rule.roles c.service effects

  -- The last loop of `matching_rule`, from the index of its first rule.
  unfoldable pub first_permitting :
      EffectContract → List ResolvedRole → ℕ → List EffectRule → Result Refusal (Option ℕ)
  first_permitting c effects index [] = ok none
  first_permitting c effects index (rule ∷ rest) =
      let continue = first_permitting c effects (index + 1) rest in
      do permitted ← rule_permits rule c effects; if permitted then ok (some index) else continue

  unfoldable pub matching_rule :
      List EffectRule → EffectContract → List ResolvedRole → Result Refusal (Option ℕ)
  matching_rule rules c effects = do
    validate_plan c effects
    deny (ltb 64 (length rules)) invalid_compound_resources
    each (λ rule. validate_rule rule c) rules
    first_permitting c effects 0 rules
