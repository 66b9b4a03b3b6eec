-- ===== src/Contract/Compound/Matching.antt =====
-- Which rule `matching_rule` of compound_resources.rs finds.
use sec_s_magik.Base.{
  ℕ, suc, ◌+◌, ◌≡◌, refl, subst, Bool, true, false, List, [], ◌∷◌, take, get_elem?, ok, >>=-eq-ok,
  Option, none, some, All, arith, if◌then◌else◌,
}
use sec_s_magik.Contract.Selector.{ResourceSnapshot}
use sec_s_magik.Contract.Compound.{
  EffectContract, EffectRule, ResolvedRole, rule_permits, first_permitting, matching_rule,
}

module _ (snapshot : ResourceSnapshot) (c : EffectContract) (effects : List ResolvedRole) where
  abbrev pub Refuses : EffectRule → Type 0
  Refuses rule = rule_permits snapshot rule c effects ≡ ok false

  -- The rule at `i` permits the plan, and none before it does.
  pub record IsFirst (rules : List EffectRule) (i : ℕ) : Type 0 where
    pub rule : EffectRule
    pub at_index : get_elem? rules i ≡ some rule
    pub permits : rule_permits snapshot rule c effects ≡ ok true
    pub earlier : All Refuses (take i rules)

  abbrev pub Outcome : List EffectRule → ℕ → Option ℕ → Type 0
  Outcome rules base none = All Refuses rules
  Outcome rules base (some j) = (i : ℕ) × (j ≡ base + i) × IsFirst rules i

  step :
      (rule : EffectRule) (rest : List EffectRule) (base : ℕ) (r : Option ℕ)
      → Refuses rule
      → Outcome rest (base + 1) r
      → Outcome (rule ∷ rest) base r
  step rule rest base none refuses h = (refuses, h)
  step rule rest base (some j) refuses (i, e, first) = (
    suc i,
    omega arith,
    record {
      rule = first.rule;
      at_index = first.at_index;
      permits = first.permits;
      earlier = (refuses, first.earlier);
    },
  )

  decide :
      (rule : EffectRule) (rest : List EffectRule) (base : ℕ) (permitted : Bool) (r : Option ℕ)
      → rule_permits snapshot rule c effects ≡ ok permitted
      → (if permitted then ok (some base) else first_permitting snapshot c effects (base + 1) rest)
        ≡ ok r
      → (first_permitting snapshot c effects (base + 1) rest ≡ ok r → Outcome rest (base + 1) r)
      → Outcome (rule ∷ rest) base r
  decide rule rest base true none asked tail ih = cc
  decide rule rest base true (some j) asked tail ih =
      (0, ground arith, record { rule = rule; at_index = refl; permits = asked; earlier = tt })
  decide rule rest base false r asked tail ih = step rule rest base r asked (ih tail)

  first_permitting-Outcome :
      (base : ℕ) (rules : List EffectRule) (r : Option ℕ)
      → first_permitting snapshot c effects base rules ≡ ok r
      → Outcome rules base r
  unfolding first_permitting
  first_permitting-Outcome base [] none h = tt
  first_permitting-Outcome base [] (some j) h = cc
  first_permitting-Outcome base (rule ∷ rest) r h =
      let (permitted, asked, tail) = >>=-eq-ok (rule_permits snapshot rule c effects) _ h in
      decide rule rest base permitted r asked tail (first_permitting-Outcome (base + 1) rest r)

  -- The index that `matching_rule` returns is that of the first rule that permits the whole plan,
  -- and all earlier rules refuse it.
  pub matching_rule-IsFirst :
      (rules : List EffectRule) (i : ℕ)
      → matching_rule snapshot rules c effects ≡ ok (some i)
      → IsFirst rules i
  unfolding matching_rule
  matching_rule-IsFirst rules i h =
      let (k, e, first) = first_permitting-Outcome 0 rules (some i) (ground (arith, h)) in
      subst (IsFirst rules) (omega (arith, e)) first

  -- Where `matching_rule` succeeds without an index, every rule refuses the plan.
  pub matching_rule-none :
      (rules : List EffectRule)
      → matching_rule snapshot rules c effects ≡ ok none
      → All Refuses rules
  unfolding matching_rule
  matching_rule-none rules h = first_permitting-Outcome 0 rules none (ground (arith, h))
