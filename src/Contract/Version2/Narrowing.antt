-- ===== src/Contract/Version2/Narrowing.antt =====
-- What `permissions_within` of scoped_grants.rs establishes: the effects that a credential's
-- permission permits, one permission of its grant permits whole.
use sec_s_magik.Base.{
  Bool, true, false, List, [], ◌∷◌, Result, ok, Eq, ◌==◌, list_eq, nat_eq, beq→eq, beq_refl, bne→eq,
  contains, ◌≡◌, refl, arith, Bool-cases, Option-cases, Result-cases, inl, inr, length, subst, sym,
  ok_injective, >>=-eq-ok, if◌then◌else◌,
}
use sec_s_magik.Contract.{Refusal}
use sec_s_magik.Contract.Codec.{JsonLibrary}
use sec_s_magik.Contract.Selector.{ResourceSnapshot}
use sec_s_magik.Contract.Selector.Narrowing.{Answers}
use sec_s_magik.Contract.Compound.{
  RoleSelection, ResolvedRole, selection_of, roles_within, permits_effects, EffectContract,
  EffectRule, validate_rule, validate_plan, rule_permits,
}
use sec_s_magik.Contract.Compound.Narrowing.{effects_narrow}
use sec_s_magik.Contract.Version2.{
  Permission, permission_eq, found_within, roles_narrower, is_other, any_narrows, all_narrowed,
  permissions_within, effect_rule, validate,
}

-- A role that is narrower is within the parent's selection of that role.
roles_narrower→roles_within :
    (parent child : List RoleSelection)
    → roles_narrower parent child ≡ ok true
    → roles_within parent child ≡ ok true
unfolding roles_narrower roles_within found_within
roles_narrower→roles_within parent [] h = refl
roles_narrower→roles_within parent (role ∷ rest) h =
    elim (Option-cases (selection_of parent role.role)) [
      | inl absent ↦ ground (arith, absent)
      | inr (previous, there) ↦ ground (arith, there, roles_narrower→roles_within parent rest)
    ]

module _ {Value : Type 0} ⦃e : Eq Value⦄ where
  -- A parent permission that contains a child permission, by roles.
  pub record IsContained (c p : Permission Value) : Type 0 where
    pub operation : c.operation ≡ p.operation
    pub resource : c.resource ≡ p.resource
    pub constraints : c.constraints ≡ p.constraints
    pub count : length c.roles ≡ length p.roles
    pub roles : roles_within p.roles c.roles ≡ ok true

  narrows→IsContained :
      (c p : Permission Value)
      → is_other c p ≡ false
      → roles_narrower p.roles c.roles ≡ ok true
      → IsContained c p
  narrows→IsContained c p same h = record {
    operation = bne→eq c.operation p.operation (ground arith);
    resource = bne→eq c.resource p.resource (ground arith);
    constraints = bne→eq c.constraints p.constraints (ground arith);
    count = ground arith;
    roles = roles_narrower→roles_within p.roles c.roles h;
  }

  any_narrows_witness :
      (c : Permission Value) (parent : List (Permission Value))
      → any_narrows c parent ≡ ok true
      → (p : Permission Value) × (contains parent p ≡ true) × IsContained c p
  unfolding any_narrows
  any_narrows_witness c [] h = cc
  any_narrows_witness c (p ∷ rest) h =
      let first : Result Refusal Bool =
        if is_other c p then ok false else roles_narrower p.roles c.roles in
      elim (Result-cases first) [
        | inr (e, refused) ↦ ground (arith, refused, h)
        | inl (true, narrower) ↦ (
          p,
          ground (arith, beq_refl p),
          narrows→IsContained c p (ground (arith, narrower)) (ground (arith, narrower)),
        )
        | inl (false, wider) ↦
            let (q, held, inside) = any_narrows_witness c rest (ground (arith, wider, h)) in
            (q, ground (arith, held), inside)
      ]

  all_narrowed_witness :
      (parent child : List (Permission Value)) (c : Permission Value)
      → all_narrowed parent child ≡ ok tt
      → contains child c ≡ true
      → any_narrows c parent ≡ ok true
  unfolding all_narrowed
  all_narrowed_witness parent [] c h m = cc
  all_narrowed_witness parent (x ∷ rest) c h m = elim (Bool-cases (x == c)) [
    | inl hit ↦ subst (λ y. any_narrows y parent ≡ ok true) (beq→eq x c hit) (ground (arith, h))
    | inr miss ↦ all_narrowed_witness parent rest c (ground (arith, h)) (ground (arith, miss, m))
  ]

module _ {Value : Type 0} ⦃e : Eq Value⦄ (json : JsonLibrary Value)
    (permission_value : Permission Value → Value)
    (permissions_value : List (Permission Value) → Value) where
  narrowed :
      (child parent : List (Permission Value))
      → permissions_within json permission_value permissions_value child parent ≡ ok tt
      → all_narrowed parent child ≡ ok tt
  unfolding permissions_within
  narrowed child parent h = ground arith

  -- When the check of version 2 permissions passes, each child permission has one parent permission
  -- of the same operation, resource, constraints and number of roles, whose selection of each role
  -- that the child selects is no narrower.
  pub permissions_within-IsContained :
      (child parent : List (Permission Value)) (c : Permission Value)
      → permissions_within json permission_value permissions_value child parent ≡ ok tt
      → contains child c ≡ true
      → (p : Permission Value) × (contains parent p ≡ true) × IsContained c p
  permissions_within-IsContained child parent c h m =
      any_narrows_witness c parent (all_narrowed_witness parent child c (narrowed child parent h) m)

  -- What `effect_rule` returns, and that it is valid.
  effect_rule_facts :
      (p : Permission Value) (contract : EffectContract) (rule : EffectRule)
      → effect_rule json permission_value p contract ≡ ok rule
      → (rule ≡ record { service = contract.service; operation = p.operation; roles = p.roles })
        × (validate_rule rule contract ≡ ok tt)
  unfolding effect_rule
  effect_rule_facts p contract rule h =
      let made : EffectRule = record {
        service = contract.service;
        operation = p.operation;
        roles = p.roles;
      } in
      let (u, checked, h1) = >>=-eq-ok (validate json permission_value p contract.service) _ h in
      let (v, valid, done) = >>=-eq-ok (validate_rule made contract) (λ _. ok made) h1 in
      let same = ok_injective done in
      (sym same, subst (λ r. validate_rule r contract ≡ ok tt) same valid)

  -- The rule of a permission under a contract permits the plan.
  pub record Permits (snapshot : ResourceSnapshot) (contract : EffectContract)
      (effects : List ResolvedRole) (p : Permission Value) : Type 0 where
    pub rule : EffectRule
    pub made : effect_rule json permission_value p contract ≡ ok rule
    pub permits : rule_permits snapshot rule contract effects ≡ ok true

  -- The selections of a parent permission permit each target of a plan that the child's rule permits.
  pub IsContained-permits_effects :
      (snapshot : ResourceSnapshot) (contract : EffectContract)
      → Answers snapshot contract.service
      → (effects : List ResolvedRole) (c p : Permission Value) → IsContained c p
      → Permits snapshot contract effects c
      → (validate_plan contract effects ≡ ok tt)
        × (permits_effects snapshot p.roles contract.service effects ≡ ok true)
  unfolding rule_permits
  IsContained-permits_effects snapshot contract answers effects c p inside permitted =
      let (own, _) = effect_rule_facts c contract permitted.rule permitted.made in
      let (u, ruled, planned) =
        >>=-eq-ok (validate_rule permitted.rule contract) _ permitted.permits in
      let (v, plan, loop) =
        >>=-eq-ok (validate_plan contract effects)
          (λ _. permits_effects snapshot permitted.rule.roles contract.service effects) planned in
      let narrow =
        subst
          (λ (r : EffectRule). permits_effects snapshot r.roles contract.service effects ≡ ok true)
          own loop in
      (
        plan,
        effects_narrow snapshot contract.service answers c.roles p.roles effects inside.roles
            narrow,
      )

  pub effect_rule-permits :
      (snapshot : ResourceSnapshot) (contract : EffectContract) (effects : List ResolvedRole)
      (p : Permission Value) (rule : EffectRule)
      → effect_rule json permission_value p contract ≡ ok rule
      → validate_plan contract effects ≡ ok tt
      → permits_effects snapshot p.roles contract.service effects ≡ ok true
      → rule_permits snapshot rule contract effects ≡ ok true
  unfolding rule_permits
  effect_rule-permits snapshot contract effects p rule made plan loop =
      let (form, valid) = effect_rule_facts p contract rule made in
      let own : permits_effects snapshot rule.roles contract.service effects ≡ ok true =
        subst
          (λ (r : EffectRule). permits_effects snapshot r.roles contract.service effects ≡ ok true)
          (sym form) loop in
      rw (valid, plan, own) refl
