-- ===== src/Examples/Policies.antt =====
-- Policies of a few records: the theorems on permissions/src/lib.rs and server/src/permctl.rs.
use sec_s_magik.Base.{
  ℕ, ◌≡◌, ◌↔◌, inl, refl, true, false, List, [], ◌∷◌, ◌++◌, Text, ok, err, Has, All, none→All, any,
  arith, bytes, list_eq, nat_eq,
}
use sec_s_magik.Permissions.{
  PermissionRecord, Request, allow, deny_effect, exact, prefix, active, revoked, receiver_local,
  allowed, evaluate, new_policy, matches_request, is_applicable, explicit_deny, revoked_grant,
  no_matching_grant, scope_matches, is_invalid_record, declared_value,
}
use sec_s_magik.Permissions.Decision.{
  Grants, Denies, grants, denies, denies→not_Denies, grants→Grants, Grants→grants,
  evaluate-allowed_iff,
}
use sec_s_magik.Permissions.Reasons.{
  Withdrawn, Allows, evaluate-explicit_deny_iff, evaluate_reasons,
}
use sec_s_magik.Permissions.Permctl
use sec_s_magik.Permissions.Permctl.{revoke, is_named, grant, revoke_from}
use sec_s_magik.Permissions.Permctl.Revoke.{revoke_ends, revoke_lifts_denials}
use sec_s_magik.Permissions.Permctl.Grant.{new_policy_iff, grant_permits, granted, question}

abbrev alice : Text
alice = bytes "alice"

abbrev read : Text
read = bytes "read"

-- Alice may read everything under docs/ from 10 to 20.
abbrev reader : PermissionRecord
reader = record {
  caller_id = alice;
  opcode = 7;
  operation = read;
  resource = prefix (bytes "docs/");
  effect = allow;
  not_before = 10;
  not_after = 20;
  status = active;
  authority_source = receiver_local;
}

-- But not docs/x.
abbrev secret : PermissionRecord
secret = record reader { resource = exact (bytes "docs/x"); effect = deny_effect }

-- She once could read notes.
abbrev past : PermissionRecord
past = record reader { resource = exact (bytes "notes"); status = revoked }

abbrev asks : Text → Request
asks resource = record { caller_id = alice; opcode = 7; operation = read; resource = resource }

abbrev policy : List PermissionRecord
policy = reader ∷ secret ∷ past ∷ []

allows_a : evaluate policy (asks (bytes "docs/a")) 12 ≡ ok allowed
unfolding evaluate matches_request is_applicable scope_matches
allows_a = refl

evaluate-allowed_iff_example : (evaluate policy (asks (bytes "docs/a")) 12 ≡ ok allowed) ↔ (
    Has (Grants (asks (bytes "docs/a")) 12) policy
    × All (λ r. ¬ (Denies (asks (bytes "docs/a")) 12 r)) policy)
evaluate-allowed_iff_example = evaluate-allowed_iff (asks (bytes "docs/a")) 12 policy

evaluate-explicit_deny_iff_example :
    (evaluate policy (asks (bytes "docs/x")) 12 ≡ err explicit_deny)
    ↔ Has (Denies (asks (bytes "docs/x")) 12) policy
evaluate-explicit_deny_iff_example = evaluate-explicit_deny_iff (asks (bytes "docs/x")) 12 policy

none_denies_notes : any (denies (asks (bytes "notes")) 12) policy ≡ false
unfolding matches_request is_applicable scope_matches
none_denies_notes = refl

none_grants_notes : any (grants (asks (bytes "notes")) 12) policy ≡ false
unfolding matches_request is_applicable scope_matches
none_grants_notes = refl

grants→not_Grants :
    (q : Request) (now : ℕ) (r : PermissionRecord) → grants q now r ≡ false → ¬ (Grants q now r)
grants→not_Grants q now r h g = ground (arith, h, Grants→grants q now r g)

evaluate_reasons_example :
    ((evaluate policy (asks (bytes "notes")) 12 ≡ err revoked_grant)
      ↔ Has (Withdrawn (asks (bytes "notes")) 12) policy)
    × ((evaluate policy (asks (bytes "notes")) 12 ≡ err no_matching_grant)
        ↔ All (λ r. ¬ (Allows (asks (bytes "notes")) 12 r)) policy)
evaluate_reasons_example =
    evaluate_reasons (asks (bytes "notes")) 12 policy
      (none→All (denies (asks (bytes "notes")) 12) (denies→not_Denies (asks (bytes "notes")) 12)
        policy none_denies_notes)
      (none→All (grants (asks (bytes "notes")) 12) (grants→not_Grants (asks (bytes "notes")) 12)
        policy none_grants_notes)

secret-grants_nothing : grants (asks (bytes "docs/a")) 12 secret ≡ false
unfolding matches_request is_applicable scope_matches
secret-grants_nothing = refl

allows_a_still : evaluate (policy ++ secret ∷ []) (asks (bytes "docs/a")) 12 ≡ ok allowed
unfolding evaluate matches_request is_applicable scope_matches
allows_a_still = refl

revoked_x :
    evaluate (revoke policy (asks (bytes "docs/x"))).0 (asks (bytes "docs/a")) 12 ≡ ok allowed
unfolding evaluate matches_request is_applicable scope_matches revoke revoke_from is_named
    declared_value
revoked_x = refl

revoke_ends_example :
    Has
      (λ r. Grants (asks (bytes "docs/a")) 12 r × (is_named (asks (bytes "docs/x")) r ≡ false))
      policy
revoke_ends_example =
    revoke_ends (asks (bytes "docs/x")) policy (asks (bytes "docs/a")) 12 revoked_x

reader-grants_x : grants (asks (bytes "docs/x")) 12 reader ≡ true
unfolding matches_request is_applicable scope_matches
reader-grants_x = refl

names_secret : is_named (asks (bytes "docs/x")) secret ≡ true
unfolding is_named declared_value
names_secret = refl

spares_reader : is_named (asks (bytes "docs/x")) reader ≡ false
unfolding is_named declared_value
spares_reader = refl

reader-denies_nothing : denies (asks (bytes "docs/x")) 12 reader ≡ false
unfolding matches_request is_applicable scope_matches
reader-denies_nothing = refl

revoke_lifts_denials_example :
    evaluate (revoke (reader ∷ secret ∷ []) (asks (bytes "docs/x"))).0 (asks (bytes "docs/x")) 12
    ≡ ok allowed
revoke_lifts_denials_example =
    revoke_lifts_denials (asks (bytes "docs/x")) (reader ∷ secret ∷ []) (asks (bytes "docs/x")) 12
      (
        λ d. absurd (denies→not_Denies (asks (bytes "docs/x")) 12 reader reader-denies_nothing d),
        ((λ d. names_secret), tt),
      )
      (inl (grants→Grants (asks (bytes "docs/x")) 12 reader reader-grants_x, spares_reader))

policy_accepted : new_policy policy ≡ ok policy
unfolding new_policy is_invalid_record declared_value
policy_accepted = refl

abbrev nameless : PermissionRecord
nameless = record reader { caller_id = [] }

grant_permits_example :
    Permctl.evaluate
      (grant policy (granted policy alice 7 read (bytes "notes") false 10 30))
      (question policy alice 7 read (bytes "notes") false 10 30 (bytes "notes"))
      12
    ≡ ok allowed
grant_permits_example =
    grant_permits policy alice 7 read (bytes "notes") false 10 30 (bytes "notes") 12
      ((new_policy_iff policy).0.0 policy_accepted) (λ e. cc e) (λ e. cc e) (λ e. cc e) refl
      (omega arith) (omega arith)
      (none→All (denies (asks (bytes "notes")) 12) (denies→not_Denies (asks (bytes "notes")) 12)
        policy none_denies_notes)
