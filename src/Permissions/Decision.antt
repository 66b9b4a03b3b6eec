-- ===== src/Permissions/Decision.antt =====
-- `evaluate` of permissions/src/lib.rs against a description that does not mention its tests:
-- which records are in force for a request, and what the policy then answers.
use mathlib.Core.List.{Perm}
use sec_s_magik.Base.{
  ℕ, ◌≤◌, ◌<◌, ◌≡◌, ◌↔◌, inl, inr, Bool, true, false, not, ◌&&◌, ◌++◌, List, Text, ok, is_ok, any,
  select, Has, All, any→Has, Has→any, none→All, All→none, any-select, any-append, any-perm, sym, ap,
  ◌∙◌, is_empty, is_prefix→append, is_prefix-append, beq→eq, beq_refl, Bool-cases, arith, list_eq,
  nat_eq,
}
use sec_s_magik.Permissions.{
  AuthoritySource, PermissionStatus, ResourceScope, PermissionRecord, Request, receiver_local,
  active, allow, deny_effect, exact, prefix, scope_matches, matches_request, is_applicable,
  is_active, is_receiver_local, is_allow, evaluate, allowed,
}

-- The scope is the resource itself, or a beginning of it.
abbrev pub Covers : ResourceScope → Text → Type 0
Covers (exact value) resource = value ≡ resource
Covers (prefix start) resource = (rest : Text) × (resource ≡ start ++ rest)

-- The record is about this request, active, of a source that is evaluated here, and in its window.
pub record InForce (q : Request) (now : ℕ) (r : PermissionRecord) : Type 0 where
  pub caller : r.caller_id ≡ q.caller_id
  pub opcode : r.opcode ≡ q.opcode
  pub operation : r.operation ≡ q.operation
  pub resource : Covers r.resource q.resource
  pub active_status : r.status ≡ active
  pub source : r.authority_source ≡ receiver_local
  pub begun : r.not_before ≤ now
  pub unexpired : now < r.not_after

scope_matches→Covers : (s : ResourceScope) (t : Text) → scope_matches s t ≡ true → Covers s t
unfolding scope_matches
scope_matches→Covers (exact value) t h = beq→eq value t h
scope_matches→Covers (prefix start) t h = is_prefix→append start t h

Covers→scope_matches : (s : ResourceScope) (t : Text) → Covers s t → scope_matches s t ≡ true
unfolding scope_matches
Covers→scope_matches (exact value) t h = ground (arith, h, beq_refl t)
Covers→scope_matches (prefix start) t (rest, e) = rw e (is_prefix-append start rest)

is_active→eq : (s : PermissionStatus) → is_active s ≡ true → s ≡ active
is_active→eq s h = ground arith

is_receiver_local→eq : (s : AuthoritySource) → is_receiver_local s ≡ true → s ≡ receiver_local
is_receiver_local→eq s h = ground arith

module _ (q : Request) (now : ℕ) where
  abbrev pub in_force : PermissionRecord → Bool
  in_force r = matches_request q r && is_applicable now r

  in_force→InForce : (r : PermissionRecord) → in_force r ≡ true → InForce q now r
  unfolding matches_request is_applicable
  in_force→InForce r h = record {
    caller = beq→eq r.caller_id q.caller_id (ground arith);
    opcode = ground arith;
    operation = beq→eq r.operation q.operation (ground arith);
    resource = scope_matches→Covers r.resource q.resource (ground arith);
    active_status = is_active→eq r.status (ground arith);
    source = is_receiver_local→eq r.authority_source (ground arith);
    begun = ground arith;
    unexpired = ground arith;
  }

  InForce→in_force : (r : PermissionRecord) → InForce q now r → in_force r ≡ true
  unfolding matches_request is_applicable
  InForce→in_force r h = ground (
    arith,
    beq_refl r.caller_id,
    beq_refl r.operation,
    Covers→scope_matches r.resource q.resource h.resource,
  )

  -- The two kinds of record that decide.
  abbrev pub Grants : PermissionRecord → Type 0
  Grants r = InForce q now r × (r.effect ≡ allow)

  abbrev pub Denies : PermissionRecord → Type 0
  Denies r = InForce q now r × (r.effect ≡ deny_effect)

  abbrev pub grants : PermissionRecord → Bool
  grants r = matches_request q r && (is_allow r.effect && is_applicable now r)

  abbrev pub denies : PermissionRecord → Bool
  denies r = matches_request q r && (not (is_allow r.effect) && is_applicable now r)

  pub grants→Grants : (r : PermissionRecord) → grants r ≡ true → Grants r
  grants→Grants r h = (in_force→InForce r (ground arith), ground arith)

  pub Grants→grants : (r : PermissionRecord) → Grants r → grants r ≡ true
  Grants→grants r h = ground (arith, InForce→in_force r h.0)

  not_Grants→grants : (r : PermissionRecord) → ¬ (Grants r) → grants r ≡ false
  not_Grants→grants r h = elim (Bool-cases (grants r)) [
    | inl e ↦ absurd (h (grants→Grants r e))
    | inr e ↦ e
  ]

  pub denies→not_Denies : (r : PermissionRecord) → denies r ≡ false → ¬ (Denies r)
  denies→not_Denies r h d = ground (arith, InForce→in_force r d.0)

  not_Denies→denies : (r : PermissionRecord) → ¬ (Denies r) → denies r ≡ false
  not_Denies→denies r h = elim (Bool-cases (denies r)) [
    | inl e ↦ absurd (h (in_force→InForce r (ground arith), ground arith))
    | inr e ↦ e
  ]

  pub denies→Denies : (r : PermissionRecord) → denies r ≡ true → Denies r
  denies→Denies r h = (in_force→InForce r (ground arith), ground arith)

  Denies→denies : (r : PermissionRecord) → Denies r → denies r ≡ true
  Denies→denies r h = ground (arith, InForce→in_force r h.0)

  pub any-denies : (rs : List PermissionRecord) → (any denies rs ≡ true) ↔ Has Denies rs
  any-denies rs = (any→Has denies denies→Denies rs, Has→any denies Denies→denies rs)

  pub no-denies : (rs : List PermissionRecord) → All (λ r. ¬ (Denies r)) rs → any denies rs ≡ false
  no-denies rs = All→none denies not_Denies→denies rs

  pub no-grants : (rs : List PermissionRecord) → All (λ r. ¬ (Grants r)) rs → any grants rs ≡ false
  no-grants rs = All→none grants not_Grants→grants rs

  -- `evaluate` with its loops read over all records, not over the matching ones.
  pub evaluate-is_ok :
      (rs : List PermissionRecord)
      → is_ok (evaluate rs q now) ≡ (any grants rs && not (any denies rs))
  unfolding evaluate
  evaluate-is_ok rs = ground (
    arith,
    any-select (matches_request q) (λ r. not (is_allow r.effect) && is_applicable now r) rs,
    any-select (matches_request q) (λ r. is_allow r.effect && is_applicable now r) rs,
    Bool-cases (is_empty (select (matches_request q) rs)),
  )

  is_ok→allowed :
      (rs : List PermissionRecord)
      → is_ok (evaluate rs q now) ≡ true
      → evaluate rs q now ≡ ok allowed
  unfolding evaluate
  is_ok→allowed rs h = ground arith

  -- `evaluate` allows a request exactly when some record that allows it is in force and no record
  -- that denies it is in force.
  pub evaluate-allowed_iff :
      (rs : List PermissionRecord)
      → (evaluate rs q now ≡ ok allowed) ↔ (Has Grants rs × All (λ r. ¬ (Denies r)) rs)
  evaluate-allowed_iff rs = (to, from)
    where
      to : evaluate rs q now ≡ ok allowed → Has Grants rs × All (λ r. ¬ (Denies r)) rs
      to h =
          let passes : (any grants rs && not (any denies rs)) ≡ true =
            sym (evaluate-is_ok rs) ∙ ap is_ok h in
          (
            any→Has grants grants→Grants rs (ground (arith, passes)),
            none→All denies denies→not_Denies rs (ground (arith, passes)),
          )

      from : Has Grants rs × All (λ r. ¬ (Denies r)) rs → evaluate rs q now ≡ ok allowed
      from h =
          is_ok→allowed rs (
            ground
              (arith, evaluate-is_ok rs, Has→any grants Grants→grants rs h.0, no-denies rs h.1))

  -- The order of the records does not decide: a policy and a rearrangement of it allow the same
  -- requests.
  pub evaluate_unordered :
      (rs ss : List PermissionRecord)
      → Perm rs ss
      → is_ok (evaluate rs q now) ≡ is_ok (evaluate ss q now)
  evaluate_unordered rs ss h =
      cc (evaluate-is_ok rs, evaluate-is_ok ss, any-perm grants h, any-perm denies h)

  -- A policy that is extended by records none of which grants a request allows the request only if
  -- it did so before.
  pub evaluate_append :
      (rs ss : List PermissionRecord)
      → All (λ r. ¬ (Grants r)) ss
      → evaluate (rs ++ ss) q now ≡ ok allowed
      → evaluate rs q now ≡ ok allowed
  evaluate_append rs ss none_grants h = is_ok→allowed rs (
      ground (
        arith,
        evaluate-is_ok rs,
        evaluate-is_ok (rs ++ ss),
        any-append grants rs ss,
        any-append denies rs ss,
        no-grants ss none_grants,
      ))
