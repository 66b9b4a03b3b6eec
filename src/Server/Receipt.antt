-- ===== src/Server/Receipt.antt =====
-- Receipts and events: server/src/receipt.rs. SHA-256, bincode and Ed25519 are parameters.
use sec_s_magik.Base.{
  ℕ, ◌/◌, ◌%◌, Bool, true, false, not, ◌&&◌, ◌||◌, List, [], ◌∷◌, ◌++◌, Option, none, some, Text,
  bytes, Result, ok, err, ◌>>=◌, ◌>>◌, deny, ok_or, ◌==◌, is_empty, length, contains, if◌then◌else◌,
  list_eq, option_eq, nat_eq,
}
use sec_s_magik.Server.Errors.{VerificationError, internal_error}
use sec_s_magik.Server.Context.{
  AuthenticatorKind, local_dev_untrusted, Decision, accepted, rejected, VerifiedCallContext,
  SignedVerifiedCallContext,
}
use sec_s_magik.Server.Nullifier.{
  NullifierReason, duplicate_nullifier, domain_mismatch, missing_scoped_nullifier,
  unsupported_scope, reason_text, nullifier_domain_version, scoped_evidence, domain_fingerprint,
  commitment_fingerprint,
}

pub data ReceiptKind : Type 0 where
  reject verify execute forward : ReceiptKind

pub data ReceiptEventKind : Type 0 where
  packet_received packet_rejected packet_verified operation_described operation_routed :
      ReceiptEventKind
  handler_started handler_succeeded handler_failed receipt_emitted : ReceiptEventKind

pub record ReceiptOutputProjection : Type 0 where
  pub schema_id : Text
  pub byte_count : ℕ
  pub digest_sha256 : List ℕ

pub record Receipt : Type 0 where
  pub schema_version : ℕ
  pub receipt_id : Text
  pub context_id : Option Text
  pub kind : ReceiptKind
  pub packet_hash : List ℕ
  pub session_id : List ℕ
  pub nonce : List ℕ
  pub opcode : ℕ
  pub operation : Option Text
  pub decision : Decision
  pub reason : Option Text
  pub handler_id : Option Text
  pub timestamp : ℕ
  pub authenticator_kind : AuthenticatorKind
  pub signer_key_id : Text
  pub evidence_summary : List Text
  pub output_projection : Option ReceiptOutputProjection
  pub signature : List ℕ

unfoldable pub kind_text : ReceiptKind → Text
kind_text reject = bytes "reject"
kind_text verify = bytes "verify"
kind_text execute = bytes "execute"
kind_text forward = bytes "forward"

unfoldable pub reject_from_verified_context : Text → VerifiedCallContext → Text → ℕ → Receipt
reject_from_verified_context receipt_id context reason timestamp = record {
  schema_version = 3;
  receipt_id = receipt_id;
  context_id = some context.context_id;
  kind = reject;
  packet_hash = context.packet_hash;
  session_id = context.session_id;
  nonce = context.nonce;
  opcode = context.opcode;
  operation = some context.operation;
  decision = rejected;
  reason = some reason;
  handler_id = context.handler_id;
  timestamp = timestamp;
  authenticator_kind = local_dev_untrusted;
  signer_key_id = [];
  evidence_summary = [];
  output_projection = none;
  signature = [];
}

pub data NullifierOutcome : Type 0 where
  scoped_use_recorded : NullifierOutcome
  refused : NullifierReason → NullifierOutcome

unfoldable pub outcome_text : NullifierOutcome → Text
unfolding reason_text
outcome_text scoped_use_recorded = bytes "scoped_use_recorded"
outcome_text (refused reason) = reason_text reason

abbrev named_field : Text → Option Text → List Text
named_field name none = []
named_field name (some value) = (name ++ value) ∷ []

unfoldable pub privacy_safe_summary : NullifierOutcome → Option Text → Option Text → List Text
unfolding outcome_text nullifier_domain_version
privacy_safe_summary outcome domain commitment =
    bytes "scoped_use_enforced:true"
    ∷ (bytes "nullifier_domain_version:" ++ nullifier_domain_version)
    ∷ (bytes "nullifier_outcome:" ++ outcome_text outcome)
    ∷ (named_field (bytes "nullifier_domain_fingerprint:") domain
        ++ named_field (bytes "nullifier_commitment_fingerprint:") commitment)

abbrev pub outcome_of : Decision → Option Text → NullifierOutcome
unfolding reason_text
outcome_of accepted none = scoped_use_recorded
outcome_of rejected none = refused missing_scoped_nullifier
outcome_of decision (some reason) =
    if reason == reason_text duplicate_nullifier
    then refused duplicate_nullifier
    else if reason == reason_text domain_mismatch
    then refused domain_mismatch
    else if reason == reason_text missing_scoped_nullifier
    then refused missing_scoped_nullifier
    else if reason == reason_text unsupported_scope
    then refused unsupported_scope
    else elim decision [
      | rejected ↦ refused missing_scoped_nullifier
      | accepted ↦ scoped_use_recorded
    ]

module _ (sha256 : List ℕ → List ℕ) (is_blank : Text → Bool) where
  unfoldable pub receipt_evidence_summary : VerifiedCallContext → Decision → Option Text → List Text
  unfolding scoped_evidence privacy_safe_summary domain_fingerprint commitment_fingerprint
      reason_text
  receipt_evidence_summary context decision reason =
      if not (contains context.evidence_summary (bytes "scoped_use_required"))
      then context.evidence_summary
      else elim (scoped_evidence sha256 is_blank context) [
        | err refusal ↦ privacy_safe_summary (outcome_of decision reason) none none
        | ok evidence ↦
            privacy_safe_summary (outcome_of decision reason)
              (some (domain_fingerprint sha256 evidence.domain))
              (some (commitment_fingerprint sha256 evidence.commitment))
      ]

  unfoldable pub execution : Text → VerifiedCallContext → Decision → Option Text → ℕ → Receipt
  unfolding receipt_evidence_summary
  execution receipt_id context decision reason timestamp = record {
    schema_version = 3;
    receipt_id = receipt_id;
    context_id = some context.context_id;
    kind = execute;
    packet_hash = context.packet_hash;
    session_id = context.session_id;
    nonce = context.nonce;
    opcode = context.opcode;
    operation = some context.operation;
    decision = decision;
    reason = reason;
    handler_id = context.handler_id;
    timestamp = timestamp;
    authenticator_kind = local_dev_untrusted;
    signer_key_id = [];
    evidence_summary = receipt_evidence_summary context decision reason;
    output_projection = none;
    signature = [];
  }

  unfoldable pub verify_from_signed_context : Text → SignedVerifiedCallContext → ℕ → Receipt
  unfolding receipt_evidence_summary
  verify_from_signed_context receipt_id signed timestamp = record {
    schema_version = 3;
    receipt_id = receipt_id;
    context_id = some signed.context.context_id;
    kind = verify;
    packet_hash = signed.context.packet_hash;
    session_id = signed.context.session_id;
    nonce = signed.context.nonce;
    opcode = signed.context.opcode;
    operation = some signed.context.operation;
    decision = accepted;
    reason = none;
    handler_id = signed.context.handler_id;
    timestamp = timestamp;
    authenticator_kind = signed.authenticator_kind;
    signer_key_id = signed.signer_key_id;
    evidence_summary = receipt_evidence_summary signed.context accepted none;
    output_projection = none;
    signature = [];
  }

  -- `to_le_bytes` of a `u64`.
  abbrev le_bytes : ℕ → List ℕ
  le_bytes n =
      n % 256
      ∷ n / 256 % 256
      ∷ n / 65536 % 256
      ∷ n / 16777216 % 256
      ∷ n / 4294967296 % 256
      ∷ n / 1099511627776 % 256
      ∷ n / 281474976710656 % 256
      ∷ n / 72057594037927936 % 256
      ∷ []

  -- `ReceiptOutputProjection::from_output`
  unfoldable pub from_output : Text → List ℕ → Result VerificationError ReceiptOutputProjection
  from_output schema_id output =
      deny (is_empty schema_id) internal_error
      >> ok (record {
        schema_id = schema_id;
        byte_count = length output;
        digest_sha256 =
            sha256 (bytes "secs-execution-output-v1/digest" ++ le_bytes (length output) ++ output);
      })

  abbrev pub projection_of :
      Decision
      → Option Text
      → Option (List ℕ)
      → Result VerificationError (Option ReceiptOutputProjection)
  unfolding from_output
  projection_of accepted (some schema_id) (some output) =
      from_output schema_id output >>= λ p. ok (some p)
  projection_of decision none none = ok none
  projection_of decision schema output = err internal_error

  unfoldable pub execution_with_output :
      Text
      → VerifiedCallContext
      → Decision
      → Option Text
      → ℕ
      → Option Text
      → Option (List ℕ)
      → Result VerificationError Receipt
  unfolding from_output execution
  execution_with_output receipt_id context decision reason timestamp schema output =
      projection_of decision schema output >>= λ projection.
      ok (record (execution receipt_id context decision reason timestamp) {
        output_projection = projection;
      })

abbrev pub is_execute : ReceiptKind → Bool
is_execute execute = true
is_execute _ = false

abbrev pub is_accepted : Decision → Bool
is_accepted accepted = true
is_accepted rejected = false

abbrev pub is_some {ℓ} : {A : Type ℓ} → Option A → Bool
is_some none = false
is_some (some a) = true

abbrev pub is_bad_projection : Receipt → Option ReceiptOutputProjection → Bool
is_bad_projection r none = false
is_bad_projection r (some p) =
    not (is_execute r.kind)
    || not (is_accepted r.decision)
    || is_some r.reason
    || is_empty p.schema_id

unfoldable pub validate_output_projection : Receipt → Result VerificationError (Unit {0})
validate_output_projection r =
    deny
      (r.schema_version == 1 && (not (is_empty r.evidence_summary) || is_some r.output_projection))
      internal_error
    >> deny (r.schema_version == 2 && is_some r.output_projection) internal_error
    >> deny (not (r.schema_version == 1 || r.schema_version == 2 || r.schema_version == 3))
        internal_error
    >> deny (is_bad_projection r r.output_projection) internal_error

-- bincode of the unsigned receipt of a version, and the signature of a message.
module _ (serialize : ℕ → Receipt → Option (List ℕ)) (sign : List ℕ → List ℕ) where
  unfoldable pub signed_payload_bytes : Receipt → Result VerificationError (List ℕ)
  unfolding validate_output_projection
  signed_payload_bytes r =
      validate_output_projection r
      >> deny (r.schema_version == 2 && is_some r.output_projection) internal_error
      >> deny (not (r.schema_version == 1 || r.schema_version == 2 || r.schema_version == 3))
          internal_error
      >> ok_or (serialize r.schema_version r) internal_error

  unfoldable pub sign_ed25519 :
      Text → AuthenticatorKind → Receipt → Result VerificationError Receipt
  unfolding signed_payload_bytes
  sign_ed25519 signer_key_id authenticator_kind receipt =
      let cleared = record receipt {
        signer_key_id = signer_key_id;
        authenticator_kind = authenticator_kind;
        signature = [];
      } in
      signed_payload_bytes cleared >>= λ message. ok (record cleared { signature = sign message })
