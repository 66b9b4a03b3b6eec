-- ===== src/Examples/Gateway.antt =====
-- A router in production mode with one descriptor, one key, one grant and one program, and its calls.
use sec_s_magik.Base.{
  ℕ, true, false, List, [], ◌∷◌, none, some, bytes, ok, ◌≡◌, refl, is_empty, list_beq, nat_eq,
}
use sec_s_magik.Permissions.{
  PermissionRecord, exact, allow, active, receiver_local, evaluate, matches_request, scope_matches,
  is_applicable,
}
use sec_s_magik.Server.Context.{
  ed25519_node_and_verifier, accepted, VerifiedCallContext, SignedVerifiedCallContext,
}
use sec_s_magik.Server.Manifest.{
  OperationDescriptor, receiver_production_handler, session_opcode_nonce, operator_defined, lookup,
  authorization_fingerprint,
}
use sec_s_magik.Server.Identity.{
  PublicVerifierKey, VerificationKeyStatus, get_unique, ensure_active_at, verify_ed25519_with_key,
  verify_production_signed_context,
}
use sec_s_magik.Server.Ledger.Tables.{as_i64, insert_or_ignore, same_replay_key}
use sec_s_magik.Server.Ledger.Replay.{
  prune_expired_replay_reservations, reservation, reserve_replay,
}
use sec_s_magik.Server.Receipt.{
  execution, verify_from_signed_context, sign_ed25519, signed_payload_bytes,
  validate_output_projection,
}
use sec_s_magik.Server.Gateway.Setup.{
  HandlerOutcome, Router, Externals, Moment, Store, accepted_response,
}
use sec_s_magik.Server.Gateway.Check.{
  check_call, verify_for_router, signed_context_matches_active_manifest, matches_descriptor,
  production_context_uses_dev_descriptor, is_dev_descriptor, registration_evidence, check_authority,
  proof_binding,
}
use sec_s_magik.Server.Gateway.Trace.{
  record_event, record_operation_event, record_receipt_with_emitted_event, sign_receipt,
  record_signed_receipt, record_verify_receipt, record_execution_receipt, receipt_id_of,
}
use sec_s_magik.Server.Gateway.Admit.{
  reserve_call, use_nullifier, permit_call, record_routed, admit_call,
}
use sec_s_magik.Server.Gateway.Execute.{
  normalize_handler_outcome, execution_receipt, answer, finish_call, call_program, execute_call,
  route_verified,
}

-- A toy signature holds when it repeats its key, and a toy digest is one byte.
abbrev pub toy_externals : Externals
toy_externals = record {
  sha256 = λ data_bytes. 171 ∷ [];
  is_blank = is_empty;
  ed25519 = record {
    is_signature = λ signature. true;
    verify = λ key message signature. list_beq key signature;
    serialize = λ context. some (1 ∷ []);
  };
  serialize_receipt = λ version receipt. some (2 ∷ []);
  sign = λ message. 9 ∷ [];
  validate_registration = λ payload context descriptor now. ok [];
}

abbrev pub provision : OperationDescriptor
provision = record {
  opcode = 68;
  name = bytes "membership.provision";
  payload_schema = none;
  output_profile = none;
  target_kind = receiver_production_handler;
  required_credentials = [];
  required_capabilities = [];
  accepted_evidence = [];
  required_authority_mode = none;
  replay_scope = session_opcode_nonce;
  max_ttl_seconds = 300;
  handler_id = bytes "membership/provision";
  dev_binding = false;
  range = operator_defined;
  disclosure_policy = record { policy_id = bytes "p"; policy_version = 1; permissions = [] };
}

abbrev pub verifier_key : PublicVerifierKey
verifier_key = record {
  key_id = bytes "v";
  algorithm = bytes "ed25519";
  public_key = 5 ∷ [];
  status = VerificationKeyStatus.active;
  not_before = none;
  not_after = some 5000;
  revoked_at = none;
  replaced_by = none;
  production_authority = true;
}

abbrev pub grant_to_alice : PermissionRecord
grant_to_alice = record {
  caller_id = bytes "alice";
  opcode = 68;
  operation = bytes "membership.provision";
  resource = exact (bytes "r");
  effect = allow;
  not_before = 0;
  not_after = 9000;
  status = active;
  authority_source = receiver_local;
}

abbrev pub policy : List PermissionRecord
policy = grant_to_alice ∷ []

abbrev pub router : Router
router = record {
  programs = bytes "membership/provision" ∷ [];
  limits = record { max_payload_bytes = 8; max_output_bytes = 8; handler_timeout = 30 };
  authenticator_kind = ed25519_node_and_verifier;
  signer_key_id = bytes "node";
  verifier_keys = record { keys = verifier_key ∷ []; duplicate_key_ids = [] };
  expected_audience = bytes "here";
  manifest = provision ∷ [];
  permission_policy = some policy;
  proof_key_registry = none;
  proof_metadata_policies = [];
}

abbrev pub context : VerifiedCallContext
context = record {
  schema_version = 4;
  context_id = bytes "ctx";
  packet_hash = 1 ∷ [];
  session_id = 3 ∷ [];
  nonce = 4 ∷ [];
  opcode = 68;
  operation = bytes "membership.provision";
  resource = some (bytes "r");
  subject = record { subject_id = bytes "alice"; key_id = bytes "k" };
  audience = bytes "here";
  evidence_summary = [];
  proof_metadata = none;
  capability_result = [];
  credential_result = [];
  issued_at = 990;
  expires_at = 1200;
  descriptor_fingerprint = bytes "descriptor:sha256:ab";
  replay_scope = bytes "session:opcode:nonce";
  handler_id = some (bytes "membership/provision");
}

abbrev pub signed : SignedVerifiedCallContext
signed = record {
  context = context;
  signer_key_id = bytes "v";
  authenticator_kind = ed25519_node_and_verifier;
  signature = 5 ∷ [];
}

abbrev pub succeeds : HandlerOutcome
succeeds = record { decision = accepted; reason = none; output = none }

abbrev pub at : ℕ → Moment
at now = record {
  timestamp = now;
  fails = λ statement. false;
  run = λ handler_id context payload limits. some succeeds;
}

abbrev pub empty : Store
empty = record {
  replay_reservations = [];
  scoped_nullifier_uses = [];
  events = [];
  receipts = [];
  telemetry = [];
  executions = [];
}

pub first_call_runs :
    (route_verified toy_externals router (at 1000) signed (7 ∷ []) empty).1.executions
    ≡ record {
      handler_id = bytes "membership/provision";
      context = context;
      payload = 7 ∷ [];
      timestamp = 1000;
    }
      ∷ []
unfolding route_verified admit_call execute_call check_call verify_for_router
    signed_context_matches_active_manifest matches_descriptor production_context_uses_dev_descriptor
    is_dev_descriptor registration_evidence check_authority proof_binding lookup
    authorization_fingerprint get_unique ensure_active_at verify_ed25519_with_key
    verify_production_signed_context as_i64 insert_or_ignore same_replay_key
    prune_expired_replay_reservations reservation reserve_replay reserve_call use_nullifier
    permit_call record_routed evaluate matches_request scope_matches is_applicable call_program
    finish_call execution_receipt normalize_handler_outcome answer record_event
    record_operation_event record_receipt_with_emitted_event sign_receipt record_signed_receipt
    record_verify_receipt record_execution_receipt sign_ed25519 signed_payload_bytes
    validate_output_projection execution verify_from_signed_context receipt_id_of
first_call_runs = refl

pub first_call_accepted :
    (route_verified toy_externals router (at 1000) signed (7 ∷ []) empty).0.response.decision
    ≡ accepted
unfolding route_verified admit_call execute_call check_call verify_for_router
    signed_context_matches_active_manifest matches_descriptor production_context_uses_dev_descriptor
    is_dev_descriptor registration_evidence check_authority proof_binding lookup
    authorization_fingerprint get_unique ensure_active_at verify_ed25519_with_key
    verify_production_signed_context as_i64 insert_or_ignore same_replay_key
    prune_expired_replay_reservations reservation reserve_replay reserve_call use_nullifier
    permit_call record_routed evaluate matches_request scope_matches is_applicable call_program
    finish_call execution_receipt normalize_handler_outcome answer record_event
    record_operation_event record_receipt_with_emitted_event sign_receipt record_signed_receipt
    record_verify_receipt record_execution_receipt sign_ed25519 signed_payload_bytes
    validate_output_projection execution verify_from_signed_context receipt_id_of accepted_response
first_call_accepted = refl

pub first_call_verified :
    verify_production_signed_context toy_externals.ed25519 router.verifier_keys signed
      (bytes "here")
      1000
    ≡ ok tt
unfolding get_unique ensure_active_at verify_ed25519_with_key verify_production_signed_context
first_call_verified = refl
