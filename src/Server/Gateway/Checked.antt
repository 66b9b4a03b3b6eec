-- ===== src/Server/Gateway/Checked.antt =====
-- What a call satisfies that passes the questions of `route_verified` (server/src/gateway.rs).
use sec_s_magik.Base.{
  ℕ, Bool, true, false, not, List, Option, Text, bytes, ok, ◌≡◌, refl, sym, deny, ◌>>◌, >>=-eq-ok,
  deny-eq-ok, ok_injective, Bool-cases, inl, inr, ◌⊎◌, arith,
}
use sec_s_magik.Server.Context.{SignedVerifiedCallContext, is_local_dev}
use sec_s_magik.Server.Identity.{PublicVerifierKey}
use sec_s_magik.Server.Identity.Window.{
  IsVerifiedBy, verify_signed_context-IsVerifiedBy, verify_production-IsVerifiedBy,
}
use sec_s_magik.Server.Manifest.{OperationDescriptor, lookup}
use sec_s_magik.Server.ProofKeys.{ProofMetadataBinding, gate_reason_code}
use sec_s_magik.Server.Gateway.Described.{
  IsDescribedBy, IsProduction, manifest-IsDescribedBy, descriptor-IsProduction,
}
use sec_s_magik.Server.Gateway.Granted.{
  IsAuthorized, IsProved, check_authority-IsAuthorized, proof_binding-IsProved, reject_error-eq-ok,
}
use sec_s_magik.Server.Gateway.Setup.{Router, Externals}
use sec_s_magik.Server.Gateway.Check.{
  Routed, check_call, verify_for_router, signed_context_matches_active_manifest,
  production_context_uses_dev_descriptor, registration_evidence, check_authority, proof_binding,
  reject_error, verification_rejection, plain_rejection, with_evidence, receipt_context,
}

not-false : (b : Bool) → not b ≡ false → b ≡ true
not-false b h = ground arith

module _ (ext : Externals) (router : Router) (now : ℕ) (signed : SignedVerifiedCallContext)
    (payload : List ℕ) where
  pub record IsChecked (routed : Routed) : Type 0 where
    pub verified : verify_for_router ext router now signed ≡ ok tt
    pub matches : IsDescribedBy ext.sha256 signed.context routed.descriptor
    pub not_dev : (is_local_dev router.authenticator_kind ≡ true) ⊎ IsProduction routed.descriptor
    pub described : lookup router.manifest signed.context.opcode ≡ ok routed.descriptor
    pub registered :
        (added : List Text) × (registration_evidence ext router now signed payload routed.descriptor
          ≡ ok added)
        × (routed.signed ≡ with_evidence added signed)
    pub authorized : IsAuthorized routed.signed.context routed.descriptor
    pub proved :
        (binding : Option ProofMetadataBinding) × IsProved router now routed.signed.context binding
        × (routed.receipt_signed ≡ receipt_context ext router now routed.signed binding)

  IsChecked-of :
      (d : OperationDescriptor) (added : List Text) (binding : Option ProofMetadataBinding)
      (routed : Routed)
      → record {
        signed = with_evidence added signed;
        descriptor = d;
        receipt_signed = receipt_context ext router now (with_evidence added signed) binding;
      }
        ≡ routed
      → verify_for_router ext router now signed ≡ ok tt
      → IsDescribedBy ext.sha256 signed.context d
      → (is_local_dev router.authenticator_kind ≡ true) ⊎ IsProduction d
      → lookup router.manifest signed.context.opcode ≡ ok d
      → registration_evidence ext router now signed payload d ≡ ok added
      → IsAuthorized (with_evidence added signed).context d
      → IsProved router now (with_evidence added signed).context binding
      → IsChecked routed
  IsChecked-of d added binding routed same v m n l r a p = rw (sym same) (record {
    verified = v;
    matches = m;
    not_dev = n;
    described = l;
    registered = (added, r, refl);
    authorized = a;
    proved = (binding, p, refl);
  })

  pub check-IsChecked :
      (routed : Routed) → check_call ext router now signed payload ≡ ok routed → IsChecked routed
  unfolding check_call
  check-IsChecked routed h =
      let a =
        reject_error (verification_rejection ext router now signed)
          (verify_for_router ext router now signed) in
      let b =
        deny
          (not (signed_context_matches_active_manifest ext.sha256 signed.context router.manifest))
          (plain_rejection signed (bytes "descriptor_context_mismatch")) in
      let c =
        deny
          (production_context_uses_dev_descriptor signed router.authenticator_kind router.manifest)
          (plain_rejection signed (bytes "prototype_operation_not_production_authorized")) in
      let l =
        reject_error (verification_rejection ext router now signed)
          (lookup router.manifest signed.context.opcode) in
      let (d, h1, k1) = >>=-eq-ok (a >> b >> c >> l) _ h in
      let (u1, h2, found) = >>=-eq-ok (a >> b >> c) (λ _. l) h1 in
      let (u2, h3, live) = >>=-eq-ok (a >> b) (λ _. c) h2 in
      let (u3, accepted, matched) = >>=-eq-ok a (λ _. b) h3 in
      let (added, registered, k2) =
        >>=-eq-ok (registration_evidence ext router now signed payload d) _ k1 in
      let routed_signed = with_evidence added signed in
      let p =
        reject_error (λ reason. plain_rejection routed_signed (gate_reason_code reason))
          (proof_binding ext router now routed_signed) in
      let (binding, h4, done) =
        >>=-eq-ok (check_authority ext router now routed_signed d >> p) _ k2 in
      let (u4, authorized, proved) =
        >>=-eq-ok (check_authority ext router now routed_signed d) (λ _. p) h4 in
      let here = reject_error-eq-ok _ _ found in
      IsChecked-of d added binding routed (ok_injective done) (reject_error-eq-ok _ _ accepted)
        (manifest-IsDescribedBy ext.sha256 signed.context router.manifest d here
          (not-false _ (deny-eq-ok _ _ matched)))
        (descriptor-IsProduction signed router.authenticator_kind router.manifest d here
          (deny-eq-ok _ _ live))
        here registered (check_authority-IsAuthorized ext router now routed_signed d authorized)
        (proof_binding-IsProved ext router now routed_signed binding
          (reject_error-eq-ok _ _ proved))

  -- Whatever the router's kind, a call that is verified is signed by a key that the registry holds, was
  -- given once and is active, for the router's audience, and is not expired at a time that was read.
  pub verify_for_router-IsVerifiedBy :
      verify_for_router ext router now signed ≡ ok tt
      → (key : PublicVerifierKey) × IsVerifiedBy ext.ed25519 router.verifier_keys
          router.expected_audience now signed key
  unfolding verify_for_router
  verify_for_router-IsVerifiedBy h = elim (Bool-cases (is_local_dev router.authenticator_kind)) [
    | inl local ↦
        verify_signed_context-IsVerifiedBy ext.ed25519 router.verifier_keys signed
          router.expected_audience now (ground (arith, local, h))
    | inr production ↦
        let (key, verified, authority, algorithm, kind) =
          verify_production-IsVerifiedBy ext.ed25519 router.verifier_keys signed
            router.expected_audience now (ground (arith, production, h)) in
        (key, verified)
  ]
