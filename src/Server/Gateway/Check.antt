-- ===== src/Server/Gateway/Check.antt =====
-- The questions of `route_verified` before it reserves a replay key; they change nothing
-- (server/src/gateway.rs).
use sec_s_magik.Base.{
  ℕ, ◌-◌, Bool, true, false, not, ◌&&◌, ◌||◌, List, [], ◌∷◌, ◌++◌, Option, none, some, Text, bytes,
  Result, ok, err, ◌>>=◌, ◌>>◌, deny, ok_or, ◌==◌, ltb, is_empty, is_prefix, contains, find,
  if◌then◌else◌, list_eq, nat_eq,
}
use sec_s_magik.Server.Errors.{
  VerificationError, expired_claim, wrong_audience, invalid_signature, unknown_verifier_key,
  revoked_verifier_key, expired_verifier_key, not_yet_valid_verifier_key, untrusted_verifier_key,
  reason_code,
}
use sec_s_magik.Server.Context.{
  AuthenticatorKind, is_local_dev, VerifiedCallContext, SignedVerifiedCallContext,
}
use sec_s_magik.Server.Authority.{
  mode_text, satisfies_required_mode, from_verified_summary, redacted_summary_fields,
}
use sec_s_magik.Server.Identity.{verify_signed_context, verify_production_signed_context}
use sec_s_magik.Server.Manifest.{
  ReceiverManifest, OperationDescriptor, TargetKind, legacy_core_example, lookup,
  authorization_fingerprint,
}
use sec_s_magik.Server.ProofKeys.{
  ProofGateReason, missing_proof_key_registry_entry, gate_reason_code, ProofMetadataBinding,
  redaction_safe_summary_fields, evaluate_metadata,
}
use sec_s_magik.Server.Gateway.Setup.{Router, Externals}

-- A call that is refused before it is routed: whose receipt is written, the reason, the evidence that
-- replaces the receipt's, and whether a receipt and an event are written at all.
pub record Rejection : Type 0 where
  pub signed : SignedVerifiedCallContext
  pub reason : Text
  pub summary : Option (List Text)
  pub is_emitted : Bool

abbrev pub plain_rejection : SignedVerifiedCallContext → Text → Rejection
plain_rejection signed reason = record {
  signed = signed;
  reason = reason;
  summary = none;
  is_emitted = true;
}

unfoldable pub should_emit_signed_context_reject : VerificationError → Bool
should_emit_signed_context_reject expired_claim = true
should_emit_signed_context_reject wrong_audience = true
should_emit_signed_context_reject invalid_signature = true
should_emit_signed_context_reject unknown_verifier_key = true
should_emit_signed_context_reject revoked_verifier_key = true
should_emit_signed_context_reject expired_verifier_key = true
should_emit_signed_context_reject not_yet_valid_verifier_key = true
should_emit_signed_context_reject _ = false

abbrev pub handler_matches : Option Text → OperationDescriptor → Bool
handler_matches (some handler_id) d = handler_id == d.handler_id
handler_matches none d = elim d.output_profile [ none ↦ false | some profile ↦ true ]

-- The test of `signed_context_matches_active_manifest` against the descriptor that it found.
unfoldable pub matches_descriptor :
    (List ℕ → List ℕ) → VerifiedCallContext → OperationDescriptor → Bool
matches_descriptor sha256 context d =
    not (is_empty context.descriptor_fingerprint)
    && context.descriptor_fingerprint == authorization_fingerprint sha256 d
    && not (ltb d.max_ttl_seconds (context.expires_at - context.issued_at))
    && context.operation == d.name
    && handler_matches context.handler_id d

unfoldable pub signed_context_matches_active_manifest :
    (List ℕ → List ℕ) → VerifiedCallContext → ReceiverManifest → Bool
signed_context_matches_active_manifest sha256 context manifest =
    elim (lookup manifest context.opcode) [
      | err e ↦ false
      | ok d ↦ matches_descriptor sha256 context d
    ]

abbrev pub is_legacy : TargetKind → Bool
is_legacy legacy_core_example = true
is_legacy _ = false

unfoldable pub is_dev_descriptor : OperationDescriptor → Bool
is_dev_descriptor d =
    d.dev_binding
    || is_prefix (bytes "dev/") d.handler_id
    || is_prefix (bytes "candidate.dev") d.name
    || (is_legacy d.target_kind && contains d.accepted_evidence (bytes "prototype-proof-envelope"))

unfoldable pub production_context_uses_dev_descriptor :
    SignedVerifiedCallContext → AuthenticatorKind → ReceiverManifest → Bool
production_context_uses_dev_descriptor signed router_kind manifest =
    if is_local_dev router_kind
    then false
    else elim (lookup manifest signed.context.opcode) [ err e ↦ true | ok d ↦ is_dev_descriptor d ]

abbrev pub reject_error {ℓ} : {E F A : Type ℓ} → (E → F) → Result E A → Result F A
reject_error f (ok a) = ok a
reject_error f (err e) = err (f e)

abbrev pub with_evidence : List Text → SignedVerifiedCallContext → SignedVerifiedCallContext
with_evidence added signed = record signed {
  context = record signed.context { evidence_summary = signed.context.evidence_summary ++ added };
}

-- What a call that passes is routed with: the context, the descriptor, and the context of the receipts.
pub record Routed : Type 0 where
  pub signed : SignedVerifiedCallContext
  pub descriptor : OperationDescriptor
  pub receipt_signed : SignedVerifiedCallContext

module _ (ext : Externals) (router : Router) (now : ℕ) where
  unfoldable pub verify_for_router : SignedVerifiedCallContext → Result VerificationError (Unit {0})
  verify_for_router signed =
      if is_local_dev router.authenticator_kind
      then verify_signed_context ext.ed25519 router.verifier_keys signed router.expected_audience
          now
      else if is_local_dev signed.authenticator_kind
          || signed.signer_key_id == bytes "verifier:local-prototype"
      then err untrusted_verifier_key
      else verify_production_signed_context ext.ed25519 router.verifier_keys signed
          router.expected_audience now

  abbrev pub verification_rejection : SignedVerifiedCallContext → VerificationError → Rejection
  verification_rejection signed e = record {
    signed = signed;
    reason = reason_code e;
    summary = none;
    is_emitted = should_emit_signed_context_reject e;
  }

  -- The gate of node registrations: the fields that it adds to the evidence.
  unfoldable pub registration_evidence :
      SignedVerifiedCallContext → List ℕ → OperationDescriptor → Result Rejection (List Text)
  registration_evidence signed payload d =
      if signed.context.operation == bytes "node.registration.v0"
      then reject_error (plain_rejection signed)
          (ext.validate_registration payload signed.context d now)
      else ok []

  abbrev authority_rejection : SignedVerifiedCallContext → Text → List Text → Rejection
  authority_rejection signed reason summary = record {
    signed = signed;
    reason = reason;
    summary = some summary;
    is_emitted = true;
  }

  -- The gate of the required authority mode.
  unfoldable pub check_authority :
      SignedVerifiedCallContext → OperationDescriptor → Result Rejection (Unit {0})
  check_authority signed d = elim d.required_authority_mode [
    | none ↦ ok tt
    | some required ↦ elim (from_verified_summary signed.context.evidence_summary) [
      | err e ↦ err (
          authority_rejection signed (reason_code e) (
            (bytes "required_authority_mode:" ++ mode_text required)
            ∷ bytes "authority_mode_satisfied:false"
            ∷ (bytes "reason:" ++ reason_code e)
            ∷ []))
      | ok observed ↦
          reject_error
            (λ e.
              authority_rejection signed (reason_code e)
                (redacted_summary_fields observed required))
            (satisfies_required_mode observed required)
    ]
  ]

  -- The gate of proof metadata, where the opcode has a policy.
  unfoldable pub proof_binding :
      SignedVerifiedCallContext → Result ProofGateReason (Option ProofMetadataBinding)
  proof_binding signed =
      elim (find (λ route. route.opcode == signed.context.opcode) router.proof_metadata_policies) [
        | none ↦ ok none
        | some route ↦
            ok_or router.proof_key_registry missing_proof_key_registry_entry >>= λ entries.
            evaluate_metadata entries now signed.context.proof_metadata route.policy.required_tier
              route.policy.require_active
            >>= λ binding. ok (some binding)
      ]

  abbrev pub receipt_context :
      SignedVerifiedCallContext → Option ProofMetadataBinding → SignedVerifiedCallContext
  receipt_context signed none = signed
  receipt_context signed (some binding) =
      with_evidence (redaction_safe_summary_fields binding) signed

  -- `route_verified` up to the reservation of the replay key. The lookup succeeds where the manifest
  -- matches; its `expect` is a rejection that is never reached.
  unfoldable pub check_call : SignedVerifiedCallContext → List ℕ → Result Rejection Routed
  check_call signed payload =
      reject_error (verification_rejection signed) (verify_for_router signed)
      >> deny
          (not (signed_context_matches_active_manifest ext.sha256 signed.context router.manifest))
          (plain_rejection signed (bytes "descriptor_context_mismatch"))
      >> deny
          (production_context_uses_dev_descriptor signed router.authenticator_kind router.manifest)
          (plain_rejection signed (bytes "prototype_operation_not_production_authorized"))
      >> reject_error (verification_rejection signed) (lookup router.manifest signed.context.opcode)
      >>= λ d. registration_evidence signed payload d >>= λ added.
          let routed = with_evidence added signed in
          check_authority routed d
          >> reject_error (λ reason. plain_rejection routed (gate_reason_code reason))
              (proof_binding routed)
          >>= λ binding. ok (record {
            signed = routed;
            descriptor = d;
            receipt_signed = receipt_context routed binding;
          })
