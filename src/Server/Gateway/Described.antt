-- ===== src/Server/Gateway/Described.antt =====
-- What it is for a context to be of the descriptor of its opcode: server/src/gateway.rs.
use sec_s_magik.Base.{
  ℕ, ◌-◌, ◌≤◌, Bool, true, false, not, List, Option, none, some, Text, bytes, ok, ◌≡◌, ◌≢◌, refl,
  ap, ◌⊎◌, inl, inr, ◌==◌, ltb, is_prefix, contains, beq→eq, &&-true, ||-false, ◌&&◌, Bool-cases,
  Option-cases, find-some, ok_or-eq-ok, list_eq, nat_eq, arith,
}
use sec_s_magik.Server.Context.{
  AuthenticatorKind, VerifiedCallContext, SignedVerifiedCallContext, is_local_dev,
}
use sec_s_magik.Server.Manifest.{
  OperationDescriptor, OutputProfile, ReceiverManifest, legacy_core_example, lookup,
  authorization_fingerprint,
}
use sec_s_magik.Server.Gateway.Check.{
  handler_matches, matches_descriptor, signed_context_matches_active_manifest, is_dev_descriptor,
  is_legacy, production_context_uses_dev_descriptor,
}

-- The handler that the context names is the descriptor's, or it names none and the descriptor has an
-- output profile.
abbrev pub IsHandledBy : Option Text → OperationDescriptor → Type 0
IsHandledBy handler_id d =
    (handler_id ≡ some d.handler_id)
    ⊎ ((handler_id ≡ none) × (profile : OutputProfile) × (d.output_profile ≡ some profile))

-- A context is of a descriptor: its fingerprint, its lifetime, its operation and its handler.
pub record IsDescribedBy (sha256 : List ℕ → List ℕ) (c : VerifiedCallContext)
    (d : OperationDescriptor) : Type 0 where
  pub opcode : d.opcode ≡ c.opcode
  pub fingerprint : c.descriptor_fingerprint ≡ authorization_fingerprint sha256 d
  pub lifetime : c.expires_at - c.issued_at ≤ d.max_ttl_seconds
  pub operation : c.operation ≡ d.name
  pub handler : IsHandledBy c.handler_id d

-- A descriptor is not for development.
pub record IsProduction (d : OperationDescriptor) : Type 0 where
  pub no_dev_binding : d.dev_binding ≡ false
  pub no_dev_handler : is_prefix (bytes "dev/") d.handler_id ≡ false
  pub no_candidate : is_prefix (bytes "candidate.dev") d.name ≡ false
  pub no_prototype :
      (d.target_kind ≢ legacy_core_example)
      ⊎ (contains d.accepted_evidence (bytes "prototype-proof-envelope") ≡ false)

handler_facts :
    (h : Option Text) (d : OperationDescriptor) → handler_matches h d ≡ true → IsHandledBy h d
handler_facts (some handler_id) d h = inl (ap some (beq→eq handler_id d.handler_id h))
handler_facts none d h = inr (elim (Option-cases d.output_profile) [
  | inl absent ↦ ground (arith, absent, h)
  | inr (profile, there) ↦ (refl, profile, there)
])

matches-IsDescribedBy :
    (sha256 : List ℕ → List ℕ) (c : VerifiedCallContext) (d : OperationDescriptor)
    → d.opcode ≡ c.opcode
    → matches_descriptor sha256 c d ≡ true
    → IsDescribedBy sha256 c d
unfolding matches_descriptor
matches-IsDescribedBy sha256 c d same h =
    let fingerprinted = c.descriptor_fingerprint == authorization_fingerprint sha256 d in
    let living = not (ltb d.max_ttl_seconds (c.expires_at - c.issued_at)) in
    let (h1, handled) = &&-true _ (handler_matches c.handler_id d) h in
    let (h2, named) = &&-true _ (c.operation == d.name) h1 in
    let (h3, lives) = &&-true _ living h2 in
    let (_, printed) = &&-true _ fingerprinted h3 in
    record {
      opcode = same;
      fingerprint = beq→eq c.descriptor_fingerprint (authorization_fingerprint sha256 d) printed;
      lifetime = ground (arith, lives);
      operation = beq→eq c.operation d.name named;
      handler = handler_facts c.handler_id d handled;
    }

lookup-opcode :
    (manifest : ReceiverManifest) (opcode : ℕ) (d : OperationDescriptor)
    → lookup manifest opcode ≡ ok d
    → d.opcode ≡ opcode
unfolding lookup
lookup-opcode manifest opcode d h =
    beq→eq d.opcode opcode (find-some (λ d. d.opcode == opcode) manifest d (ok_or-eq-ok _ _ h))

pub manifest-IsDescribedBy :
    (sha256 : List ℕ → List ℕ) (c : VerifiedCallContext) (manifest : ReceiverManifest)
    (d : OperationDescriptor)
    → lookup manifest c.opcode ≡ ok d
    → signed_context_matches_active_manifest sha256 c manifest ≡ true
    → IsDescribedBy sha256 c d
unfolding signed_context_matches_active_manifest
manifest-IsDescribedBy sha256 c manifest d here h =
    matches-IsDescribedBy sha256 c d (lookup-opcode manifest c.opcode d here) (ground (arith, here))

both_false : (a b : Bool) → (a && b) ≡ false → b ≡ true → a ≡ false
both_false a b h e = ground arith

dev-IsProduction : (d : OperationDescriptor) → is_dev_descriptor d ≡ false → IsProduction d
unfolding is_dev_descriptor
dev-IsProduction d h =
    let prototyped = contains d.accepted_evidence (bytes "prototype-proof-envelope") in
    let (h1, prototype) = ||-false _ (is_legacy d.target_kind && prototyped) h in
    let (h2, candidate) = ||-false _ (is_prefix (bytes "candidate.dev") d.name) h1 in
    let (binding, handler) = ||-false d.dev_binding (is_prefix (bytes "dev/") d.handler_id) h2 in
    record {
      no_dev_binding = binding;
      no_dev_handler = handler;
      no_candidate = candidate;
      no_prototype = elim (Bool-cases prototyped) [
        | inr other ↦ inr other
        | inl found ↦
            let live = both_false (is_legacy d.target_kind) prototyped prototype found in
            inl (λ legacy. cc (ap is_legacy legacy, live))
      ];
    }

pub descriptor-IsProduction :
    (signed : SignedVerifiedCallContext) (kind : AuthenticatorKind) (manifest : ReceiverManifest)
    (d : OperationDescriptor)
    → lookup manifest signed.context.opcode ≡ ok d
    → production_context_uses_dev_descriptor signed kind manifest ≡ false
    → (is_local_dev kind ≡ true) ⊎ IsProduction d
unfolding production_context_uses_dev_descriptor
descriptor-IsProduction signed kind manifest d here h = elim (Bool-cases (is_local_dev kind)) [
  | inl local ↦ inl local
  | inr production ↦ inr (dev-IsProduction d (ground (arith, here, production)))
]
