-- ===== src/Permissions/Reasons.antt =====
-- The reasons that `evaluate` of permissions/src/lib.rs gives when it refuses.
use sec_s_magik.Base.{
  ℕ, ◌≡◌, ◌≢◌, ◌↔◌, refl, inl, inr, Bool, true, false, not, ◌&&◌, List, [], ◌∷◌, Result, ok, err,
  any, select, any-select, is_empty, Bool-cases, arith, sym, ap, ◌∙◌, if◌then◌else◌,
  is_empty-select, select-none, Has, All, any→Has, Has→any, none→All, All→none,
}
use sec_s_magik.Permissions.{
  PermissionDecision, allow, revoked, PermissionRecord, Request, DenyReason, matches_request,
  is_applicable, is_active, is_allow, evaluate, allowed, explicit_deny, no_matching_grant,
  revoked_grant, candidate_reason, inform, is_revoked_grant, keep_specific,
  most_informative_inapplicable_reason,
}
use sec_s_magik.Permissions.Decision.{
  grants, denies, Denies, Grants, any-denies, no-denies, no-grants,
}

-- A record that does not apply has a specific reason.
candidate_specific :
    (now : ℕ) (r : PermissionRecord)
    → is_applicable now r ≡ false
    → candidate_reason now r ≢ no_matching_grant
unfolding is_applicable candidate_reason
candidate_specific now r h = ground arith

candidate_revoked :
    (now : ℕ) (r : PermissionRecord)
    → is_revoked_grant (candidate_reason now r) ≡ not (is_active r.status)
unfolding candidate_reason
candidate_revoked now r = ground arith

-- The loop answers `revoked_grant` exactly when it meets a revoked record.
inform_revoked :
    (now : ℕ) (reason : DenyReason) (rs : List PermissionRecord)
    → is_revoked_grant reason ≡ false
    → is_revoked_grant (inform now reason rs) ≡ any (λ r. not (is_active r.status)) rs
unfolding inform
inform_revoked now reason [] h = h
inform_revoked now reason (r ∷ rs) h =
    elim (Bool-cases (is_revoked_grant (candidate_reason now r))) [
      | inl e ↦ ground (arith, e, candidate_revoked now r)
      | inr e ↦ ground (
        arith,
        e,
        candidate_revoked now r,
        inform_revoked now (keep_specific reason (candidate_reason now r)) rs,
      )
    ]

-- A specific reason stays.
inform_keeps :
    (now : ℕ) (reason : DenyReason) (rs : List PermissionRecord)
    → reason ≢ no_matching_grant
    → inform now reason rs ≢ no_matching_grant
unfolding inform
inform_keeps now reason [] h = h
inform_keeps now reason (r ∷ rs) h = ground (arith, inform_keeps now reason rs h)

-- The loop over records that do not apply has a specific reason, if there is a record.
inform_specific :
    (now : ℕ) (rs : List PermissionRecord)
    → any (is_applicable now) rs ≡ false
    → (inform now no_matching_grant rs ≡ no_matching_grant)
    → is_empty rs ≡ true
unfolding inform
inform_specific now [] h e = refl
inform_specific now (r ∷ rs) h e =
    ground (arith, candidate_specific now r, inform_keeps now (candidate_reason now r) rs)

-- The loop looks only at records that allow, so it never answers `explicit_deny`.
inform-ne-explicit_deny :
    (now : ℕ) (reason : DenyReason) (rs : List PermissionRecord)
    → reason ≢ explicit_deny
    → inform now reason rs ≢ explicit_deny
unfolding inform candidate_reason
inform-ne-explicit_deny now reason [] h = h
inform-ne-explicit_deny now reason (r ∷ rs) h =
    ground (arith, inform-ne-explicit_deny now (keep_specific reason (candidate_reason now r)) rs)

module _ (q : Request) (now : ℕ) where
  -- The record allows the request and has been revoked.
  abbrev pub Withdrawn : PermissionRecord → Type 0
  Withdrawn r = (matches_request q r ≡ true) × (r.effect ≡ allow) × (r.status ≡ revoked)

  -- The record allows the request, whatever its window, status and source.
  abbrev pub Allows : PermissionRecord → Type 0
  Allows r = (matches_request q r ≡ true) × (r.effect ≡ allow)

  abbrev withdrawn : PermissionRecord → Bool
  withdrawn r = matches_request q r && (is_allow r.effect && not (is_active r.status))

  abbrev allows : PermissionRecord → Bool
  allows r = matches_request q r && is_allow r.effect

  -- The answer, with each loop read over all records.
  abbrev answer : List PermissionRecord → Result DenyReason PermissionDecision
  answer rs =
      if any (denies q now) rs
      then err explicit_deny
      else if any (grants q now) rs
      then ok allowed
      else err (most_informative_inapplicable_reason (select (matches_request q) rs) now)

  evaluate-answer : (rs : List PermissionRecord) → evaluate rs q now ≡ answer rs
  unfolding evaluate most_informative_inapplicable_reason inform
  evaluate-answer rs = ground (
    arith,
    any-select (matches_request q) (λ r. not (is_allow r.effect) && is_applicable now r) rs,
    any-select (matches_request q) (λ r. is_allow r.effect && is_applicable now r) rs,
    Bool-cases (is_empty (select (matches_request q) rs)),
  )

  reason_revoked :
      (rs : List PermissionRecord)
      → is_revoked_grant (most_informative_inapplicable_reason (select (matches_request q) rs) now)
        ≡ any withdrawn rs
  unfolding most_informative_inapplicable_reason
  reason_revoked rs =
      inform_revoked now no_matching_grant _ refl
      ∙ any-select (λ r. is_allow r.effect) _ (select (matches_request q) rs)
      ∙ any-select (matches_request q) _ rs

  reason_specific :
      (rs : List PermissionRecord)
      → any (grants q now) rs ≡ false
      → most_informative_inapplicable_reason (select (matches_request q) rs) now ≡ no_matching_grant
      → any allows rs ≡ false
  unfolding most_informative_inapplicable_reason
  reason_specific rs h e =
      sym (any-select (matches_request q) (λ r. is_allow r.effect) rs)
      ∙ is_empty-select (λ r. is_allow r.effect) (select (matches_request q) rs)
          (inform_specific now _
            (any-select (λ r. is_allow r.effect) (is_applicable now) (select (matches_request q) rs)
              ∙ any-select (matches_request q) _ rs
              ∙ h)
            e)

  reason_none :
      (rs : List PermissionRecord)
      → any allows rs ≡ false
      → most_informative_inapplicable_reason (select (matches_request q) rs) now ≡ no_matching_grant
  unfolding most_informative_inapplicable_reason inform
  reason_none rs h = rw (
      select-none (λ r. is_allow r.effect) (select (matches_request q) rs)
        (any-select (matches_request q) (λ r. is_allow r.effect) rs ∙ h))

  revoked_answer : (d : DenyReason) → is_revoked_grant d ≡ true → d ≡ revoked_grant
  revoked_answer d h = ground arith

  withdrawn→Withdrawn : (r : PermissionRecord) → withdrawn r ≡ true → Withdrawn r
  withdrawn→Withdrawn r h = (ground arith, ground arith, ground arith)

  Withdrawn→withdrawn : (r : PermissionRecord) → Withdrawn r → withdrawn r ≡ true
  Withdrawn→withdrawn r h = ground arith

  allows→not_Allows : (r : PermissionRecord) → allows r ≡ false → ¬ (Allows r)
  allows→not_Allows r h a = ground arith

  not_Allows→allows : (r : PermissionRecord) → ¬ (Allows r) → allows r ≡ false
  not_Allows→allows r h = elim (Bool-cases (allows r)) [
    | inl e ↦ absurd (h (ground arith, ground arith))
    | inr e ↦ e
  ]

  answer-explicit_deny :
      (rs : List PermissionRecord) → answer rs ≡ err explicit_deny → any (denies q now) rs ≡ true
  unfolding most_informative_inapplicable_reason
  answer-explicit_deny rs h = ground (
    arith,
    inform-ne-explicit_deny now no_matching_grant
        (select (λ r. is_allow r.effect) (select (matches_request q) rs)),
  )

  -- A refusal says `explicit_deny` exactly when a record that denies the request is in force.
  pub evaluate-explicit_deny_iff :
      (rs : List PermissionRecord) → (evaluate rs q now ≡ err explicit_deny) ↔ Has (Denies q now) rs
  evaluate-explicit_deny_iff rs = (to, from)
    where
      to : evaluate rs q now ≡ err explicit_deny → Has (Denies q now) rs
      to h = (any-denies q now rs).0 (answer-explicit_deny rs (sym (evaluate-answer rs) ∙ h))

      from : Has (Denies q now) rs → evaluate rs q now ≡ err explicit_deny
      from h = evaluate-answer rs ∙ rw ((any-denies q now rs).1 h)

  -- Where no record that denies or grants the request is in force, the refusal says
  -- `revoked_grant` exactly when a record that allows the request has been revoked, and
  -- `no_matching_grant` exactly when no record allows it at all.
  pub evaluate_reasons :
      (rs : List PermissionRecord)
      → All (λ r. ¬ (Denies q now r)) rs
      → All (λ r. ¬ (Grants q now r)) rs
      → ((evaluate rs q now ≡ err revoked_grant) ↔ Has Withdrawn rs)
        × ((evaluate rs q now ≡ err no_matching_grant) ↔ All (λ r. ¬ (Allows r)) rs)
  evaluate_reasons rs undenied ungranted = ((to, from), (to_none, from_none))
    where
      reason : DenyReason
      reason = most_informative_inapplicable_reason (select (matches_request q) rs) now

      refused : evaluate rs q now ≡ err reason
      refused = evaluate-answer rs ∙ rw (no-denies q now rs undenied, no-grants q now rs ungranted)

      to : evaluate rs q now ≡ err revoked_grant → Has Withdrawn rs
      to h =
          any→Has withdrawn withdrawn→Withdrawn rs
            (sym (reason_revoked rs) ∙ ground (arith, refused))

      from : Has Withdrawn rs → evaluate rs q now ≡ err revoked_grant
      from h =
          refused
          ∙ ap err (
              revoked_answer reason
                (reason_revoked rs ∙ Has→any withdrawn Withdrawn→withdrawn rs h))

      to_none : evaluate rs q now ≡ err no_matching_grant → All (λ r. ¬ (Allows r)) rs
      to_none h =
          none→All allows allows→not_Allows rs
            (reason_specific rs (no-grants q now rs ungranted) (ground (arith, refused)))

      from_none : All (λ r. ¬ (Allows r)) rs → evaluate rs q now ≡ err no_matching_grant
      from_none h = refused ∙ ap err (reason_none rs (All→none allows not_Allows→allows rs h))
