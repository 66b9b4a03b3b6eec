-- ===== src/Server/Gateway/Admit.antt =====
-- The gates of `route_verified` that leave a trace, in their order: the replay key, the scoped
-- nullifier, and the permission policy (server/src/gateway.rs).
use sec_s_magik.Base.{
  ℕ, not, List, [], ◌∷◌, Option, none, some, Text, bytes, Result, ok, err, length, contains,
  if◌then◌else◌, list_eq, nat_eq,
}
use sec_s_magik.Permissions.{evaluate, deny_code}
use sec_s_magik.Server.Context.{rejected, VerifiedCallContext, SignedVerifiedCallContext}
use sec_s_magik.Server.Ledger.Replay.{reserved, duplicate, reserve_replay}
use sec_s_magik.Server.Ledger.Nullifiers.{is_recorded, record_scoped_nullifier_use}
use sec_s_magik.Server.Nullifier.{scoped_evidence, reason_text, duplicate_nullifier}
use sec_s_magik.Server.Receipt.{packet_rejected, operation_routed, handler_failed}
use sec_s_magik.Server.Gateway.Setup.{
  Router, Externals, prune_replay, insert_replay, insert_nullifier, insert_telemetry, Moment, Store,
  DecisionResponse, rejected_response,
}
use sec_s_magik.Server.Gateway.Check.{Rejection, plain_rejection, Routed, check_call}
use sec_s_magik.Server.Gateway.Trace.{
  record_reject_receipt, record_execution_receipt, record_verify_receipt, record_operation_event,
}

module _ (ext : Externals) (router : Router) (moment : Moment) where
  -- A rejection before the routing: a receipt and an event, if they are emitted, and the response.
  unfoldable pub reject_call : Rejection → Store → DecisionResponse × Store
  reject_call r store =
      if not r.is_emitted
      then (rejected_response r.reason (some r.signed.context.context_id) none, store)
      else let (id, written) =
          record_reject_receipt ext router moment r.signed r.reason r.summary store in
        (
          rejected_response r.reason (some r.signed.context.context_id) (some id),
          record_operation_event moment packet_rejected r.signed (some r.reason) written,
        )

  -- A rejection after the reservation: an execution receipt, an event, and the response.
  unfoldable pub reject_execution :
      SignedVerifiedCallContext → Text → Store → DecisionResponse × Store
  reject_execution signed reason store =
      let (id, written) =
        record_execution_receipt ext router moment signed rejected (some reason) store in
      (
        rejected_response reason (some signed.context.context_id) (some id),
        record_operation_event moment handler_failed signed (some reason) written,
      )

  -- `reserve_replay` and what follows it: the rejection, if it is one.
  unfoldable pub reserve_call :
      SignedVerifiedCallContext → Store → Result Rejection (Unit {0}) × Store
  reserve_call signed store =
      let (outcome, rows) =
        reserve_replay (moment.fails prune_replay) (moment.fails insert_replay) signed.context
          signed.signer_key_id moment.timestamp store.replay_reservations in
      (
        elim outcome [
          | ok reserved ↦ ok tt
          | ok duplicate ↦ err (plain_rejection signed (bytes "replay_detected"))
          | err e ↦ err (plain_rejection signed (bytes "replay_reservation_failed"))
        ],
        record store { replay_reservations = rows },
      )

  -- The gate of scoped nullifiers: the reason of the rejection, if it is one.
  unfoldable pub use_nullifier : SignedVerifiedCallContext → Store → Result Text (Unit {0}) × Store
  use_nullifier signed store =
      if not (contains signed.context.evidence_summary (bytes "scoped_use_required"))
      then (ok tt, store)
      else elim (scoped_evidence ext.sha256 ext.is_blank signed.context) [
        | err reason ↦ (err (reason_text reason), store)
        | ok evidence ↦
            let (outcome, rows) =
              record_scoped_nullifier_use ext.sha256 (moment.fails insert_nullifier) evidence.domain
                evidence.commitment signed.context moment.timestamp store.scoped_nullifier_uses in
            (
              elim outcome [
                | ok outcome ↦
                    if is_recorded outcome then ok tt else err (reason_text duplicate_nullifier)
                | err e ↦ err (bytes "scoped_nullifier_storage_failed")
              ],
              record store { scoped_nullifier_uses = rows },
            )
      ]

  abbrev pub resource_or_empty : Option Text → Text
  resource_or_empty none = []
  resource_or_empty (some resource) = resource

  -- The permission gate: the code of the denial, if it is one.
  unfoldable pub permit_call : VerifiedCallContext → Result Text (Unit {0})
  permit_call context = elim router.permission_policy [
    | none ↦ ok tt
    | some policy ↦
        elim (evaluate policy
          (record {
            caller_id = context.subject.subject_id;
            opcode = context.opcode;
            operation = context.operation;
            resource = resource_or_empty context.resource;
          })
          moment.timestamp) [ ok granted ↦ ok tt | err reason ↦ err (deny_code reason) ]
  ]

  -- The telemetry, the verify receipt and the event of a call that is routed.
  unfoldable pub record_routed : Routed → List ℕ → Store → Store
  record_routed routed payload store =
      let context = routed.signed.context in
      let counted = if moment.fails insert_telemetry then store else record store {
        telemetry =
            record {
              opcode = context.opcode;
              payload_size = length payload;
              operation = context.operation;
            }
            ∷ store.telemetry;
      } in
      record_operation_event moment operation_routed routed.signed none
        (record_verify_receipt ext router moment routed.receipt_signed counted)

  -- `route_verified` up to the start of the execution: the response of a call that is refused.
  unfoldable pub admit_call :
      SignedVerifiedCallContext → List ℕ → Store → Result DecisionResponse Routed × Store
  admit_call signed payload store = elim (check_call ext router moment.timestamp signed payload) [
    | err rejection ↦ let (response, after) = reject_call rejection store in (err response, after)
    | ok routed ↦
        let (reservation, store1) = reserve_call routed.signed store in
        elim reservation [
          | err rejection ↦
              let (response, after) = reject_call rejection store1 in (err response, after)
          | ok done ↦
              let (nullifier, store2) = use_nullifier routed.signed store1 in
              elim nullifier [
                | err reason ↦
                    let (response, after) = reject_execution routed.signed reason store2 in
                    (err response, after)
                | ok done ↦
                    let store3 = record_routed routed payload store2 in
                    elim (permit_call routed.signed.context) [
                      | err reason ↦
                          let (response, after) = reject_execution routed.signed reason store3 in
                          (err response, after)
                      | ok done ↦ (ok routed, store3)
                    ]
              ]
        ]
  ]
