-- ===== src/Contract/Compound/Narrowing.antt =====
-- An effect rule that is `within` another permits no plan that the other does not permit:
-- compound_resources.rs.
use sec_s_magik.Base.{
  ◌≡◌, refl, subst, true, List, [], ◌∷◌, Text, ok, some, ok_or, ◌==◌, list_eq, nat_eq, Bool-cases,
  inl, inr, beq→eq, >>=-eq-ok, ok_or-eq-ok, arith,
}
use sec_s_magik.Contract.{invalid_compound_resources}
use sec_s_magik.Contract.Selector
use sec_s_magik.Contract.Selector.{ResourceRef, ResourceSelector, ResourceSnapshot}
use sec_s_magik.Contract.Selector.Narrowing.{Answers, within_narrows}
use sec_s_magik.Contract.Compound.{
  EffectContract, RoleSelection, EffectRule, ResolvedRole, selection_of, roles_within, rule_within,
  permits_targets, permits_effects, rule_permits,
}

-- Each role that the child selects is selected by the parent, more widely.
roles_within_selection :
    (parent child : List RoleSelection) (role : Text) (s : RoleSelection)
    → roles_within parent child ≡ ok true
    → selection_of child role ≡ some s
    → (t : RoleSelection) × (selection_of parent role ≡ some t)
      × (Selector.within s.selector t.selector ≡ ok true)
unfolding roles_within
roles_within_selection parent [] role s h f = cc
roles_within_selection parent (x ∷ rest) role s h f =
    let (t, found, tail) =
      >>=-eq-ok (ok_or (selection_of parent x.role) invalid_compound_resources) _ h in
    elim (Bool-cases (x.role == role)) [
      | inl hit ↦
          let same : x ≡ s = ground (arith, hit) in
          (
            t,
            subst (λ r. selection_of parent r ≡ some t) (beq→eq x.role role hit)
                (ok_or-eq-ok _ _ found),
            subst (λ r. Selector.within r.selector t.selector ≡ ok true) same
                (ground (arith, tail)),
          )
      | inr miss ↦
          roles_within_selection parent rest role s (ground (arith, tail)) (ground (arith, miss))
    ]

module _ (snapshot : ResourceSnapshot) (service : Text) (answers : Answers snapshot service) where
  targets_narrow :
      (child parent : ResourceSelector) (targets : List ResourceRef)
      → Selector.within child parent ≡ ok true
      → permits_targets snapshot child service targets ≡ ok true
      → permits_targets snapshot parent service targets ≡ ok true
  unfolding permits_targets
  targets_narrow child parent [] w h = refl
  targets_narrow child parent (target ∷ rest) w h = ground (
    arith,
    within_narrows snapshot service answers child parent target w,
    targets_narrow child parent rest w,
  )

  pub effects_narrow :
      (child parent : List RoleSelection) (effects : List ResolvedRole)
      → roles_within parent child ≡ ok true
      → permits_effects snapshot child service effects ≡ ok true
      → permits_effects snapshot parent service effects ≡ ok true
  unfolding permits_effects
  effects_narrow child parent [] w h = refl
  effects_narrow child parent (effect ∷ rest) w h =
      let (s, found, tail) =
        >>=-eq-ok (ok_or (selection_of child effect.role) invalid_compound_resources) _ h in
      let (t, there, narrower) =
        roles_within_selection parent child effect.role s w (ok_or-eq-ok _ _ found) in
      ground (
        arith,
        tail,
        there,
        targets_narrow s.selector t.selector effect.resources narrower,
        effects_narrow child parent rest w,
      )

-- A child rule that is `within` a parent under a contract permits no plan of effects that the parent
-- does not permit, in any state that answers the questions about the contract's service.
pub rule_within_narrows :
    (snapshot : ResourceSnapshot) (c : EffectContract)
    → Answers snapshot c.service
    → (child parent : EffectRule) (effects : List ResolvedRole)
    → rule_within child parent c ≡ ok true
    → rule_permits snapshot child c effects ≡ ok true
    → rule_permits snapshot parent c effects ≡ ok true
unfolding rule_within rule_permits
rule_within_narrows snapshot c answers child parent effects w h =
    ground (arith, w, h, effects_narrow snapshot c.service answers child.roles parent.roles effects)
