-- ===== src/Server/Gateway/Setup.antt =====
-- The router's configuration, what it takes from outside, and its state (server/src/gateway.rs).
use sec_s_magik.Base.{ℕ, Bool, List, Option, none, some, Text, Result, list_eq, nat_eq}
use sec_s_magik.Permissions.{PermissionRecord}
use sec_s_magik.Server.Context.{
  AuthenticatorKind, Decision, accepted, rejected, VerifiedCallContext,
}
use sec_s_magik.Server.Identity.{Ed25519, PublicVerifierKeyRegistry}
use sec_s_magik.Server.Ledger.Tables.{ReplayReservation, ScopedNullifierUse}
use sec_s_magik.Server.Manifest.{ReceiverManifest, OperationDescriptor}
use sec_s_magik.Server.ProofKeys.{ProofKeyEntry, ProofMetadataRoutePolicy}
use sec_s_magik.Server.Receipt.{Receipt, ReceiptKind, ReceiptEventKind}

-- Durations are opaque numbers.
pub record ExecutionLimits : Type 0 where
  pub max_payload_bytes : ℕ
  pub max_output_bytes : ℕ
  pub handler_timeout : ℕ

pub record HandlerOutcome : Type 0 where
  pub decision : Decision
  pub reason : Option Text
  pub output : Option (List ℕ)

-- `HandlerOutcome::rejected`
unfoldable pub rejected_outcome : Text → HandlerOutcome
rejected_outcome reason = record { decision = rejected; reason = some reason; output = none }

-- The policy of proof metadata for an opcode.
pub record ProofRoute : Type 0 where
  pub opcode : ℕ
  pub policy : ProofMetadataRoutePolicy

-- `ConfigurableRouter`, with the ids of its installed programs.
pub record Router : Type 0 where
  pub programs : List Text
  pub limits : ExecutionLimits
  pub authenticator_kind : AuthenticatorKind
  pub signer_key_id : Text
  pub verifier_keys : PublicVerifierKeyRegistry
  pub expected_audience : Text
  pub manifest : ReceiverManifest
  pub permission_policy : Option (List PermissionRecord)
  pub proof_key_registry : Option (List ProofKeyEntry)
  pub proof_metadata_policies : List ProofRoute

-- Libraries, and `validate_verified_registration_route` of server/src/node_registration.rs, which
-- answers with the fields that it adds to the evidence or with the text of its error.
pub record Externals : Type 0 where
  pub sha256 : List ℕ → List ℕ
  pub is_blank : Text → Bool
  pub ed25519 : Ed25519
  pub serialize_receipt : ℕ → Receipt → Option (List ℕ)
  pub sign : List ℕ → List ℕ
  pub validate_registration :
      List ℕ → VerifiedCallContext → OperationDescriptor → ℕ → Result Text (List Text)

-- The statements of one call that may fail.
pub data Statement : Type 0 where
  prune_replay insert_replay insert_nullifier insert_telemetry : Statement
  insert_event : ReceiptEventKind → Statement
  insert_receipt : ReceiptKind → Statement

-- What a call meets: the reading of the clock, the statements that fail, and what an installed
-- program answers, `none` when it exceeds its time.
pub record Moment : Type 0 where
  pub timestamp : ℕ
  pub fails : Statement → Bool
  pub run : Text → VerifiedCallContext → List ℕ → ExecutionLimits → Option HandlerOutcome

pub record Event : Type 0 where
  pub timestamp : ℕ
  pub event_kind : ReceiptEventKind
  pub packet_hash : Option (List ℕ)
  pub opcode : Option ℕ
  pub operation : Option Text
  pub handler_id : Option Text
  pub reason : Option Text

pub record Telemetry : Type 0 where
  pub opcode : ℕ
  pub payload_size : ℕ
  pub operation : Text

-- A call of a program: its id, and what it was called with.
pub record Execution : Type 0 where
  pub handler_id : Text
  pub context : VerifiedCallContext
  pub payload : List ℕ
  pub timestamp : ℕ

-- The tables, and the calls of programs so far, newest first. Programs run outside; the list of
-- calls is what the model keeps of their effect.
pub record Store : Type 0 where
  pub replay_reservations : List ReplayReservation
  pub scoped_nullifier_uses : List ScopedNullifierUse
  pub events : List Event
  pub receipts : List Receipt
  pub telemetry : List Telemetry
  pub executions : List Execution

-- `DecisionResponse` of core/src/response.rs.
pub record DecisionResponse : Type 0 where
  pub decision : Decision
  pub reason_code : Option Text
  pub context_id : Option Text
  pub receipt_id : Option Text

unfoldable pub accepted_response : Option Text → Option Text → DecisionResponse
accepted_response context_id receipt_id = record {
  decision = accepted;
  reason_code = none;
  context_id = context_id;
  receipt_id = receipt_id;
}

unfoldable pub rejected_response : Text → Option Text → Option Text → DecisionResponse
rejected_response reason context_id receipt_id = record {
  decision = rejected;
  reason_code = some reason;
  context_id = context_id;
  receipt_id = receipt_id;
}
