-- ===== src/Permissions/Permctl/Grant.antt =====
-- What granting a record does: `PermissionPolicy::new`, and `build_record`, `grant` and `evaluate`
-- of server/src/permctl.rs.
use sec_s_magik.Base.{
  ℕ, ◌≤◌, ◌<◌, ◌≡◌, ◌≢◌, ◌↔◌, refl, ◌⊎◌, inl, inr, Bool, false, List, [], ◌∷◌, ◌++◌, Text, ok, err,
  Has, All, any, none→All, All→none, each-deny, arith, if◌then◌else◌,
}
use sec_s_magik.Permissions.{
  PermissionRecord, Request, allowed, exact, prefix, invalid_record, is_invalid_record, new_policy,
  no_matching_grant, declared_value,
}
use sec_s_magik.Permissions.Decision.{Covers, Grants, Denies, evaluate-allowed_iff}
use sec_s_magik.Permissions.Permctl.{build_record, grant, evaluate}

-- The record names a caller, an operation and a resource, and its window is not empty.
pub record IsValid (r : PermissionRecord) : Type 0 where
  pub caller : r.caller_id ≢ []
  pub operation : r.operation ≢ []
  pub resource : declared_value r.resource ≢ []
  pub window : r.not_before < r.not_after

valid→IsValid : (r : PermissionRecord) → is_invalid_record r ≡ false → IsValid r
unfolding is_invalid_record
valid→IsValid r h = record {
  caller = λ e. ground arith;
  operation = λ e. ground arith;
  resource = λ e. ground arith;
  window = ground arith;
}

IsValid→valid : (r : PermissionRecord) → IsValid r → is_invalid_record r ≡ false
unfolding is_invalid_record
IsValid→valid r v = ground arith

new_policy-any :
    (rs : List PermissionRecord)
    → new_policy rs ≡ (if any is_invalid_record rs then err invalid_record else ok rs)
unfolding new_policy
new_policy-any rs = ground (arith, each-deny is_invalid_record invalid_record rs)

-- A policy is built from exactly the records that are all valid, and holds them as they are; any
-- other list is refused with `invalid_record`.
pub new_policy_iff :
    (rs : List PermissionRecord)
    → ((new_policy rs ≡ ok rs) ↔ All IsValid rs)
      × ((new_policy rs ≡ ok rs) ⊎ (new_policy rs ≡ err invalid_record))
new_policy_iff rs = ((to, from), ground (arith, new_policy-any rs))
  where
    to : new_policy rs ≡ ok rs → All IsValid rs
    to h = none→All is_invalid_record valid→IsValid rs (ground (arith, new_policy-any rs))

    from : All IsValid rs → new_policy rs ≡ ok rs
    from v = ground (arith, new_policy-any rs, All→none is_invalid_record IsValid→valid rs v)

-- `evaluate` refuses a list with an invalid record, whatever it grants.
pub evaluate_invalid :
    (rs : List PermissionRecord) (q : Request) (now : ℕ)
    → ¬ (All IsValid rs)
    → evaluate rs q now ≡ err no_matching_grant
unfolding evaluate
evaluate_invalid rs q now h = elim (new_policy_iff rs).1 [
  | inl e ↦ absurd (h ((new_policy_iff rs).0.0 e))
  | inr e ↦ rw (e, evaluate)
]

Has-last {ℓ} : {A : Type ℓ} (P : A → Type 0) (xs : List A) (a : A) → P a → Has P (xs ++ a ∷ [])
Has-last P [] a h = inl h
Has-last P (x ∷ xs) a h = inr (Has-last P xs a h)

All-snoc {ℓ} :
    {A : Type ℓ} (P : A → Type 0) (xs : List A) (a : A) → All P xs → P a → All P (xs ++ a ∷ [])
All-snoc P [] a h k = (k, tt)
All-snoc P (x ∷ xs) a h k = (h.0, All-snoc P xs a h.1 k)

module _ (rs : List PermissionRecord) (caller : Text) (opcode : ℕ) (operation value : Text)
    (is_prefix : Bool) (not_before not_after : ℕ) where
  abbrev pub granted : PermissionRecord
  granted = build_record caller opcode operation value is_prefix false not_before not_after

  abbrev pub question : Text → Request
  question resource = record {
    caller_id = caller;
    opcode = opcode;
    operation = operation;
    resource = resource;
  }

  granted-IsValid :
      caller ≢ [] → operation ≢ [] → value ≢ [] → not_before < not_after → IsValid granted
  unfolding build_record declared_value
  granted-IsValid c o v window = record {
    caller = c;
    operation = o;
    resource = λ e. ground arith;
    window = window;
  }

  granted-Grants :
      (resource : Text) (now : ℕ)
      → Covers (if is_prefix then prefix value else exact value) resource
      → not_before ≤ now
      → now < not_after
      → Grants (question resource) now granted
  unfolding build_record
  granted-Grants resource now covers begun unexpired = (
    record {
      caller = refl;
      opcode = refl;
      operation = refl;
      resource = covers;
      active_status = refl;
      source = refl;
      begun = begun;
      unexpired = unexpired;
    },
    refl,
  )

  granted-not_Denies : (q : Request) (now : ℕ) → ¬ (Denies q now granted)
  unfolding build_record
  granted-not_Denies q now d = cc (d.1)

  -- Granting a new record with non-empty fields and a window around `now` to a list of valid
  -- records makes `evaluate` allow, at that time, each request that it covers, if no record that
  -- denies the request is in force.
  pub grant_permits :
      (resource : Text) (now : ℕ)
      → All IsValid rs
      → caller ≢ []
      → operation ≢ []
      → value ≢ []
      → Covers (if is_prefix then prefix value else exact value) resource
      → not_before ≤ now
      → now < not_after
      → All (λ r. ¬ (Denies (question resource) now r)) rs
      → evaluate (grant rs granted) (question resource) now ≡ ok allowed
  unfolding grant evaluate
  grant_permits resource now valid c o v covers begun unexpired undenied =
      rw ((new_policy_iff (rs ++ granted ∷ [])).0.1 all_valid, evaluate)
        ((evaluate-allowed_iff (question resource) now (rs ++ granted ∷ [])).1 (
          Has-last (Grants (question resource) now) rs granted
              (granted-Grants resource now covers begun unexpired),
          All-snoc (λ r. ¬ (Denies (question resource) now r)) rs granted undenied
              (granted-not_Denies (question resource) now),
        ))
    where
      all_valid : All IsValid (rs ++ granted ∷ [])
      all_valid = All-snoc IsValid rs granted valid (granted-IsValid c o v (omega arith))
