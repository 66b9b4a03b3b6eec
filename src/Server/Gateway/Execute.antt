-- ===== src/Server/Gateway/Execute.antt =====
-- The handler of an admitted call, its outcome, its receipt and the response; and `route_verified`
-- as a whole (server/src/gateway.rs).
use sec_s_magik.Base.{
  ℕ, Bool, true, false, not, ◌&&◌, List, ◌∷◌, ◌++◌, Option, none, some, Text, bytes, ok, err, ltb,
  min, length, contains, if◌then◌else◌, list_eq, option_eq, nat_eq,
}
use sec_s_magik.Server.Text.{decimal}
use sec_s_magik.Server.Context.{
  Decision, accepted, rejected, VerifiedCallContext, SignedVerifiedCallContext,
}
use sec_s_magik.Server.Manifest.{OperationDescriptor, OutputProfile}
use sec_s_magik.Server.Receipt.{
  handler_started, handler_succeeded, handler_failed, is_accepted, is_some,
}
use sec_s_magik.Server.Gateway.Setup.{
  Router, Externals, ExecutionLimits, HandlerOutcome, rejected_outcome, Moment, Store,
  DecisionResponse, accepted_response, rejected_response,
}
use sec_s_magik.Server.Gateway.Check.{Routed}
use sec_s_magik.Server.Gateway.Trace.{
  record_execution_receipt, record_execution_receipt_required, record_operation_event,
}
use sec_s_magik.Server.Gateway.Admit.{admit_call}

abbrev pub is_longer : ℕ → Option (List ℕ) → Bool
is_longer bound none = false
is_longer bound (some output) = ltb bound (length output)

unfoldable pub normalize_handler_outcome :
    OperationDescriptor → ExecutionLimits → HandlerOutcome → HandlerOutcome
normalize_handler_outcome d limits outcome =
    if not (is_accepted outcome.decision) && is_some outcome.output
    then rejected_outcome (bytes "handler_output_unexpected")
    else if is_longer limits.max_output_bytes outcome.output
    then rejected_outcome (bytes "output_too_large")
    else if not (is_some d.output_profile) && is_some outcome.output
    then rejected_outcome (bytes "handler_output_unexpected")
    else if is_some d.output_profile && is_accepted outcome.decision && not (is_some outcome.output)
    then rejected_outcome (bytes "handler_output_missing")
    else outcome

-- The limits of the handler: a profile narrows the output.
unfoldable pub handler_limits : ExecutionLimits → Option OutputProfile → ExecutionLimits
handler_limits limits none = limits
handler_limits limits (some profile) = record limits {
  max_output_bytes = min limits.max_output_bytes profile.max_output_bytes;
}

pub data ExecutionStatus : Type 0 where
  verifier_rejected execution_rejected executed : ExecutionStatus

pub record ExecutionRouteProjection : Type 0 where
  pub status : ExecutionStatus
  pub reason_code : Option Text
  pub context_id : Option Text
  pub receipt_id : Option Text
  pub output_schema : Option Text
  pub output : Option (List ℕ)

abbrev pub or_handler_rejected : Option Text → Text
or_handler_rejected none = bytes "handler_rejected"
or_handler_rejected (some reason) = reason

unfoldable pub execution_projection :
    VerifiedCallContext → OutputProfile → Text → HandlerOutcome → ExecutionRouteProjection
execution_projection context profile receipt_id outcome = elim outcome.decision [
  | accepted ↦ record {
    status = executed;
    reason_code = none;
    context_id = some context.context_id;
    receipt_id = some receipt_id;
    output_schema = some profile.schema_id;
    output = outcome.output;
  }
  | rejected ↦ record {
    status = execution_rejected;
    reason_code = some (or_handler_rejected outcome.reason);
    context_id = some context.context_id;
    receipt_id = some receipt_id;
    output_schema = none;
    output = none;
  }
]

-- What `route_verified` leaves: its response, whether the execution started, and the projection.
pub record Route : Type 0 where
  pub response : DecisionResponse
  pub is_started : Bool
  pub projection : Option ExecutionRouteProjection

abbrev pub outcome_or_timeout : Option HandlerOutcome → HandlerOutcome
outcome_or_timeout none = rejected_outcome (bytes "handler_timeout")
outcome_or_timeout (some outcome) = outcome

abbrev pub schema_of : Option OutputProfile → Option (List ℕ) → Option Text
schema_of (some profile) (some output) = some profile.schema_id
schema_of profile output = none

abbrev pub transport_failure : VerifiedCallContext → Route
transport_failure context = record {
  response = rejected_response (bytes "execution_transport_failure") (some context.context_id) none;
  is_started = true;
  projection = none;
}

module _ (ext : Externals) (router : Router) (moment : Moment) where
  -- The receipt of an execution; none where it is required and not persisted.
  unfoldable pub execution_receipt :
      OperationDescriptor
      → SignedVerifiedCallContext
      → Decision
      → Option Text
      → Option Text
      → Option (List ℕ)
      → Store
      → Option Text × Store
  execution_receipt d signed decision reason schema output store =
      if is_some d.output_profile
      then record_execution_receipt_required ext router moment signed decision reason schema output
          store
      else let (id, written) =
          record_execution_receipt ext router moment signed decision reason store in
        (some id, written)

  unfoldable pub post_start_execution_rejection :
      OperationDescriptor → SignedVerifiedCallContext → Text → Store → Route × Store
  post_start_execution_rejection d signed reason store =
      let (receipt, written) = execution_receipt d signed rejected (some reason) none none store in
      elim receipt [
        | none ↦ (transport_failure signed.context, written)
        | some id ↦ (
          record {
            response = rejected_response reason (some signed.context.context_id) (some id);
            is_started = true;
            projection = none;
          },
          record_operation_event moment handler_failed signed (some reason) written,
        )
      ]

  -- The response to an outcome whose receipt has been written.
  unfoldable pub answer : Routed → HandlerOutcome → Text → Route
  answer routed outcome id = record {
    response = elim outcome.decision [
      | accepted ↦ accepted_response (some routed.signed.context.context_id) (some id)
      | rejected ↦
          rejected_response (or_handler_rejected outcome.reason)
            (some routed.signed.context.context_id) (some id)
    ];
    is_started = true;
    projection = elim routed.descriptor.output_profile [
      | none ↦ none
      | some profile ↦ some (execution_projection routed.signed.context profile id outcome)
    ];
  }

  abbrev pub event_of : Decision → sec_s_magik.Server.Receipt.ReceiptEventKind
  event_of accepted = handler_succeeded
  event_of rejected = handler_failed

  -- The receipt, the event and the response of an outcome.
  unfoldable pub finish_call : Routed → HandlerOutcome → Store → Route × Store
  finish_call routed outcome store =
      let (receipt, written) =
        execution_receipt routed.descriptor routed.receipt_signed outcome.decision outcome.reason
          (schema_of routed.descriptor.output_profile outcome.output) outcome.output store in
      elim receipt [
        | none ↦ (transport_failure routed.signed.context, written)
        | some id ↦ (
          answer routed outcome id,
          record_operation_event moment (event_of outcome.decision) routed.signed outcome.reason
              written,
        )
      ]

  -- The call of an installed program.
  unfoldable pub call_program : Routed → Text → List ℕ → Store → Route × Store
  call_program routed handler_id payload store =
      let limits = handler_limits router.limits routed.descriptor.output_profile in
      let started =
        record_operation_event moment handler_started routed.signed
          (some (bytes "payload_size:" ++ decimal (length payload))) store in
      let called = record started {
        executions =
            record {
              handler_id = handler_id;
              context = routed.signed.context;
              payload = payload;
              timestamp = moment.timestamp;
            }
            ∷ started.executions;
      } in
      finish_call routed
        (normalize_handler_outcome routed.descriptor limits
          (outcome_or_timeout (moment.run handler_id routed.signed.context payload limits)))
        called

  unfoldable pub execute_call : Routed → List ℕ → Store → Route × Store
  execute_call routed payload store =
      if ltb router.limits.max_payload_bytes (length payload)
      then post_start_execution_rejection routed.descriptor routed.receipt_signed
          (bytes "payload_too_large") store
      else elim routed.signed.context.handler_id [
        | none ↦
            post_start_execution_rejection routed.descriptor routed.receipt_signed
              (bytes "handler_unavailable") store
        | some handler_id ↦
            if contains router.programs handler_id
            then call_program routed handler_id payload store
            else post_start_execution_rejection routed.descriptor routed.receipt_signed
                (bytes "handler_unavailable") store
      ]

  unfoldable pub route_verified : SignedVerifiedCallContext → List ℕ → Store → Route × Store
  route_verified signed payload store =
      let (admission, after) = admit_call ext router moment signed payload store in
      elim admission [
        | err response ↦
            (record { response = response; is_started = false; projection = none }, after)
        | ok routed ↦ execute_call routed payload after
      ]
