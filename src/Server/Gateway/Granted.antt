-- ===== src/Server/Gateway/Granted.antt =====
-- What the authority gate and the proof gate of `route_verified` let through: server/src/gateway.rs
-- with server/src/dregg_authority.rs and server/src/proof_keys.rs.
use sec_s_magik.Base.{
  ℕ, List, Option, none, some, Result, ok, err, ◌≡◌, sym, ap, ◌∙◌, ◌⊎◌, inl, inr, ◌==◌, ◌>>=◌, find,
  ok_or, beq→eq, Option-cases, Result-cases, false, ok_or-eq-ok, ok_injective, >>=-eq-ok, nat_eq,
  arith,
}
use sec_s_magik.Server.Context.{
  VerifiedCallContext, SignedVerifiedCallContext, ObservedProofMetadata,
}
use sec_s_magik.Server.Authority.{
  AuthorityMode, mode_eq, is_reserved, from_verified_summary, satisfies_required_mode,
}
use sec_s_magik.Server.Manifest.{OperationDescriptor}
use sec_s_magik.Server.ProofKeys.{
  ProofKeyEntry, ProofMetadataBinding, binding_of, has_key_id, evaluate_metadata,
  missing_proof_key_registry_entry,
}
use sec_s_magik.Server.ProofKeys.Gate.{IsMatch, IsUsable, evaluate_metadata-bound}
use sec_s_magik.Server.Gateway.Setup.{Router, Externals, ProofRoute}
use sec_s_magik.Server.Gateway.Check.{reject_error, check_authority, proof_binding}

pub reject_error-eq-ok {ℓ} :
    {E F A : Type ℓ} (f : E → F) (r : Result E A) {a : A} → reject_error f r ≡ ok a → r ≡ ok a
reject_error-eq-ok f (ok a) h = cc h
reject_error-eq-ok f (err e) h = cc h

-- The evidence of a context names the one authority mode that the descriptor requires, if any.
abbrev pub IsAuthorized : VerifiedCallContext → OperationDescriptor → Type 0
IsAuthorized c d =
    (d.required_authority_mode ≡ none)
    ⊎ ((mode : AuthorityMode) × (d.required_authority_mode ≡ some mode)
        × (from_verified_summary c.evidence_summary ≡ ok mode)
        × (is_reserved mode ≡ false))

-- No proof policy names the opcode and nothing is bound, or the metadata that was observed agrees
-- with a key of the registry that may serve, and its fields are bound.
abbrev pub IsProved : Router → ℕ → VerifiedCallContext → Option ProofMetadataBinding → Type 0
IsProved router now c binding =
    ((find (λ route. route.opcode == c.opcode) router.proof_metadata_policies ≡ none)
      × (binding ≡ none))
    ⊎ ((route : ProofRoute) × (entries : List ProofKeyEntry) × (o : ObservedProofMetadata)
        × (e : ProofKeyEntry) × (find (λ route. route.opcode == c.opcode)
              router.proof_metadata_policies
            ≡ some route)
        × (router.proof_key_registry ≡ some entries)
        × (c.proof_metadata ≡ some o)
        × (find (has_key_id o) entries ≡ some e)
        × IsMatch o e
        × IsUsable now route.policy.require_active o e
        × (binding ≡ some (binding_of e)))

satisfies-eq-ok :
    (observed required : AuthorityMode) {u : Unit {0}}
    → satisfies_required_mode observed required ≡ ok u
    → (observed ≡ required) × (is_reserved required ≡ false)
unfolding satisfies_required_mode
satisfies-eq-ok observed required h = (beq→eq observed required (ground arith), ground arith)

module _ (ext : Externals) (router : Router) (now : ℕ) where
  pub check_authority-IsAuthorized :
      (signed : SignedVerifiedCallContext) (d : OperationDescriptor) {u : Unit {0}}
      → check_authority ext router now signed d ≡ ok u
      → IsAuthorized signed.context d
  unfolding check_authority
  check_authority-IsAuthorized signed d h = elim (Option-cases d.required_authority_mode) [
    | inl absent ↦ inl absent
    | inr (required, there) ↦
        elim (Result-cases (from_verified_summary signed.context.evidence_summary)) [
          | inr (e, refused) ↦ ground (arith, there, refused, h)
          | inl (observed, read) ↦ elim (Result-cases (satisfies_required_mode observed required)) [
            | inr (e, refused) ↦ ground (arith, there, read, refused, h)
            | inl (done, satisfied) ↦
                let (same, free) = satisfies-eq-ok observed required satisfied in
                inr (required, there, read ∙ ap ok same, free)
          ]
        ]
  ]

  policy_facts :
      (signed : SignedVerifiedCallContext) (binding : Option ProofMetadataBinding)
      (route : ProofRoute)
      → find (λ route. route.opcode == signed.context.opcode) router.proof_metadata_policies
        ≡ some route
      → (ok_or router.proof_key_registry missing_proof_key_registry_entry >>= λ entries.
          evaluate_metadata entries now signed.context.proof_metadata route.policy.required_tier
            route.policy.require_active
          >>= λ binding. ok (some binding))
        ≡ ok binding
      → IsProved router now signed.context binding
  policy_facts signed binding route there h =
      let (entries, registered, h1) =
        >>=-eq-ok (ok_or router.proof_key_registry missing_proof_key_registry_entry) _ h in
      let (b, evaluated, done) =
        >>=-eq-ok
          (evaluate_metadata entries now signed.context.proof_metadata route.policy.required_tier
            route.policy.require_active)
          (λ binding. ok (some binding)) h1 in
      let (o, e, tier, observed, found, agrees, usable, same) =
        evaluate_metadata-bound entries now signed.context.proof_metadata route.policy.required_tier
          route.policy.require_active b evaluated in
      inr (
        route,
        entries,
        o,
        e,
        there,
        ok_or-eq-ok _ _ registered,
        observed,
        found,
        agrees,
        usable,
        sym (ok_injective done) ∙ ap some same,
      )

  pub proof_binding-IsProved :
      (signed : SignedVerifiedCallContext) (binding : Option ProofMetadataBinding)
      → proof_binding ext router now signed ≡ ok binding
      → IsProved router now signed.context binding
  unfolding proof_binding
  proof_binding-IsProved signed binding h =
      elim (Option-cases
        (find (λ route. route.opcode == signed.context.opcode) router.proof_metadata_policies)) [
          | inl absent ↦ inl (absent, ground (arith, absent, h))
          | inr (route, there) ↦ policy_facts signed binding route there (ground (arith, there, h))
        ]
