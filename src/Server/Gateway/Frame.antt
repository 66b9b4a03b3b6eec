-- ===== src/Server/Gateway/Frame.antt =====
-- What writes only receipts, events and telemetry leaves the rest of the store as it was
-- (server/src/gateway.rs).
use sec_s_magik.Base.{
  ℕ, true, List, ◌∷◌, length, if◌then◌else◌, Option, none, some, Text, bytes, ◌>>=◌, ok, err, ◌≡◌,
  refl, ◌∙◌, inl, inr, Bool-cases, arith,
}
use sec_s_magik.Server.Context.{Decision, rejected, SignedVerifiedCallContext}
use sec_s_magik.Server.Receipt.{
  Receipt, ReceiptEventKind, execution_with_output, execution, verify_from_signed_context,
  reject_from_verified_context, packet_verified, is_some, packet_rejected, handler_failed,
  operation_routed,
}
use sec_s_magik.Server.Manifest.{OperationDescriptor}
use sec_s_magik.Server.Gateway.Setup.{
  Router, Externals, Moment, insert_telemetry, Store, HandlerOutcome, rejected_response,
}
use sec_s_magik.Server.Gateway.Check.{Rejection, Routed}
use sec_s_magik.Server.Gateway.Trace.{
  receipt_id_of, replace_summary, record_event, record_operation_event,
  record_receipt_with_emitted_event, sign_receipt, record_signed_receipt, record_reject_receipt,
  record_verify_receipt, record_execution_receipt, record_execution_receipt_required,
}
use sec_s_magik.Server.Gateway.Admit.{reject_call, reject_execution, record_routed}
use sec_s_magik.Server.Gateway.Execute.{
  execution_receipt, post_start_execution_rejection, finish_call, schema_of, Route,
  transport_failure, answer, event_of,
}

pub record IsTraceOf (before after : Store) : Type 0 where
  pub same_executions : after.executions ≡ before.executions
  pub same_reservations : after.replay_reservations ≡ before.replay_reservations
  pub same_uses : after.scoped_nullifier_uses ≡ before.scoped_nullifier_uses

pub IsTraceOf-refl : (s : Store) → IsTraceOf s s
IsTraceOf-refl s = record { same_executions = refl; same_reservations = refl; same_uses = refl }

pub IsTraceOf-trans : (s t u : Store) → IsTraceOf s t → IsTraceOf t u → IsTraceOf s u
IsTraceOf-trans s t u h k = record {
  same_executions = k.same_executions ∙ h.same_executions;
  same_reservations = k.same_reservations ∙ h.same_reservations;
  same_uses = k.same_uses ∙ h.same_uses;
}

pub event-IsTraceOf :
    (m : Moment) (kind : ReceiptEventKind) (signed : SignedVerifiedCallContext)
    (reason : Option Text) (s : Store)
    → IsTraceOf s (record_operation_event m kind signed reason s)
unfolding record_operation_event record_event
event-IsTraceOf m kind signed reason s = record {
  same_executions = ground arith;
  same_reservations = ground arith;
  same_uses = ground arith;
}

emitted-IsTraceOf :
    (m : Moment) (r : Receipt) (s : Store) → IsTraceOf s (record_receipt_with_emitted_event m r s).1
unfolding record_receipt_with_emitted_event
emitted-IsTraceOf m r s = record {
  same_executions = ground arith;
  same_reservations = ground arith;
  same_uses = ground arith;
}

module _ (ext : Externals) (router : Router) (m : Moment) where
  signed-IsTraceOf :
      (r : Receipt) (s : Store) → IsTraceOf s (record_signed_receipt ext router m r s)
  unfolding record_signed_receipt
  signed-IsTraceOf r s =
      elim (sign_receipt ext router m r)
        as (λ x.
          IsTraceOf s (elim x [ err e ↦ s | ok t ↦ (record_receipt_with_emitted_event m t s).1 ])) [
            | ok t ↦ emitted-IsTraceOf m t s
            | err e ↦ IsTraceOf-refl s
          ]

  pub reject_receipt-IsTraceOf :
      (signed : SignedVerifiedCallContext) (reason : Text) (summary : Option (List Text))
      (s : Store)
      → IsTraceOf s (record_reject_receipt ext router m signed reason summary s).1
  unfolding record_reject_receipt
  reject_receipt-IsTraceOf signed reason summary s =
      signed-IsTraceOf
        (replace_summary ext router m summary (
          reject_from_verified_context (receipt_id_of (bytes "reject") m.timestamp signed.context)
            signed.context reason m.timestamp))
        s

  verify_receipt-IsTraceOf :
      (signed : SignedVerifiedCallContext) (s : Store)
      → IsTraceOf s (record_verify_receipt ext router m signed s)
  unfolding record_verify_receipt
  verify_receipt-IsTraceOf signed s =
      IsTraceOf-trans s _ _
        (signed-IsTraceOf
          (verify_from_signed_context ext.sha256 ext.is_blank
            (receipt_id_of (bytes "verify") m.timestamp signed.context) signed m.timestamp)
          s)
        (event-IsTraceOf m packet_verified signed none _)

  execution_receipt-IsTraceOf :
      (signed : SignedVerifiedCallContext) (d : Decision) (reason : Option Text) (s : Store)
      → IsTraceOf s (record_execution_receipt ext router m signed d reason s).1
  unfolding record_execution_receipt
  execution_receipt-IsTraceOf signed d reason s =
      signed-IsTraceOf
        (execution ext.sha256 ext.is_blank
          (receipt_id_of (bytes "execute") m.timestamp signed.context) signed.context d reason
          m.timestamp)
        s

  required-IsTraceOf :
      (signed : SignedVerifiedCallContext) (d : Decision) (reason : Option Text)
      (schema : Option Text) (output : Option (List ℕ)) (s : Store)
      → IsTraceOf s
          (record_execution_receipt_required ext router m signed d reason schema output s).1
  unfolding record_execution_receipt_required
  required-IsTraceOf signed d reason schema output s =
      let id = receipt_id_of (bytes "execute") m.timestamp signed.context in
      elim (execution_with_output ext.sha256 ext.is_blank id signed.context d reason m.timestamp
            schema output
          >>= sign_receipt ext router m)
        as (λ x.
          IsTraceOf s
            (elim x as (λ x. Option Text × Store) [
              | err e ↦ (none, s)
              | ok r ↦ (
                if (record_receipt_with_emitted_event m r s).0 then some id else none,
                (record_receipt_with_emitted_event m r s).1,
              )
            ]).1) [ ok r ↦ emitted-IsTraceOf m r s | err e ↦ IsTraceOf-refl s ]

  pub reject_call-IsTraceOf :
      (r : Rejection) (s : Store) → IsTraceOf s (reject_call ext router m r s).1
  unfolding reject_call
  reject_call-IsTraceOf r s = elim (Bool-cases r.is_emitted) [
    | inl emitted ↦ rw emitted (
        IsTraceOf-trans s _ _ (reject_receipt-IsTraceOf r.signed r.reason r.summary s)
          (event-IsTraceOf m packet_rejected r.signed (some r.reason) _))
    | inr silent ↦ rw silent (IsTraceOf-refl s)
  ]

  pub reject_execution-IsTraceOf :
      (signed : SignedVerifiedCallContext) (reason : Text) (s : Store)
      → IsTraceOf s (reject_execution ext router m signed reason s).1
  unfolding reject_execution
  reject_execution-IsTraceOf signed reason s =
      IsTraceOf-trans s _ _ (execution_receipt-IsTraceOf signed rejected (some reason) s)
        (event-IsTraceOf m handler_failed signed (some reason) _)

  pub record_routed-IsTraceOf :
      (routed : Routed) (payload : List ℕ) (s : Store)
      → IsTraceOf s (record_routed ext router m routed payload s)
  unfolding record_routed
  record_routed-IsTraceOf routed payload s =
      let counted = if m.fails insert_telemetry then s else record s {
        telemetry =
            record {
              opcode = routed.signed.context.opcode;
              payload_size = length payload;
              operation = routed.signed.context.operation;
            }
            ∷ s.telemetry;
      } in
      let first : IsTraceOf s counted = record {
        same_executions = ground arith;
        same_reservations = ground arith;
        same_uses = ground arith;
      } in
      IsTraceOf-trans s _ _
        (IsTraceOf-trans s counted _ first (verify_receipt-IsTraceOf routed.receipt_signed counted))
        (event-IsTraceOf m operation_routed routed.signed none _)

  receipt-IsTraceOf :
      (d : OperationDescriptor) (signed : SignedVerifiedCallContext) (decision : Decision)
      (reason : Option Text) (schema : Option Text) (output : Option (List ℕ)) (s : Store)
      → IsTraceOf s (execution_receipt ext router m d signed decision reason schema output s).1
  unfolding execution_receipt
  receipt-IsTraceOf d signed decision reason schema output s =
      elim (Bool-cases (is_some d.output_profile)) [
        | inl profiled ↦ rw profiled (required-IsTraceOf signed decision reason schema output s)
        | inr plain ↦ rw plain (execution_receipt-IsTraceOf signed decision reason s)
      ]

  pub post_start-IsTraceOf :
      (d : OperationDescriptor) (signed : SignedVerifiedCallContext) (reason : Text) (s : Store)
      → IsTraceOf s (post_start_execution_rejection ext router m d signed reason s).1
  unfolding post_start_execution_rejection
  post_start-IsTraceOf d signed reason s =
      let written = receipt-IsTraceOf d signed rejected (some reason) none none s in
      let out = execution_receipt ext router m d signed rejected (some reason) none none s in
      elim out.0
        as (λ x.
          IsTraceOf s
            (elim x as (λ x. Route × Store) [
              | none ↦ (transport_failure signed.context, out.1)
              | some id ↦ (
                record {
                  response = rejected_response reason (some signed.context.context_id) (some id);
                  is_started = true;
                  projection = none;
                },
                record_operation_event m handler_failed signed (some reason) out.1,
              )
            ]).1) [
              | none ↦ written
              | some id ↦
                  IsTraceOf-trans s _ _ written
                    (event-IsTraceOf m handler_failed signed (some reason) _)
            ]

  pub finish-IsTraceOf :
      (routed : Routed) (outcome : HandlerOutcome) (s : Store)
      → IsTraceOf s (finish_call ext router m routed outcome s).1
  unfolding finish_call
  finish-IsTraceOf routed outcome s =
      let schema = schema_of routed.descriptor.output_profile outcome.output in
      let written =
        receipt-IsTraceOf routed.descriptor routed.receipt_signed outcome.decision outcome.reason
          schema outcome.output s in
      let out =
        execution_receipt ext router m routed.descriptor routed.receipt_signed outcome.decision
          outcome.reason schema outcome.output s in
      elim out.0
        as (λ x.
          IsTraceOf s
            (elim x as (λ x. Route × Store) [
              | none ↦ (transport_failure routed.signed.context, out.1)
              | some id ↦ (
                answer ext router m routed outcome id,
                record_operation_event m (event_of ext router m outcome.decision) routed.signed
                    outcome.reason out.1,
              )
            ]).1) [
              | none ↦ written
              | some id ↦
                  IsTraceOf-trans s _ _ written (event-IsTraceOf m _ routed.signed outcome.reason _)
            ]
