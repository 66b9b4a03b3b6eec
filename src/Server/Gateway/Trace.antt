-- ===== src/Server/Gateway/Trace.antt =====
-- The receipts and events that `route_verified` writes (server/src/gateway.rs, with the statements
-- of server/src/ledger.rs). An error of a statement is printed and otherwise ignored, but for the
-- receipts that are required.
use sec_s_magik.Base.{
  ℕ, Bool, true, false, ◌||◌, List, [], ◌∷◌, ◌++◌, Option, none, some, Text, bytes, Result, ok, err,
  ◌>>=◌, ◌==◌, any, take, if◌then◌else◌, list_eq, nat_eq,
}
use sec_s_magik.Server.Errors.{VerificationError}
use sec_s_magik.Server.Text.{decimal, lower_hex}
use sec_s_magik.Server.Context.{Decision, VerifiedCallContext, SignedVerifiedCallContext}
use sec_s_magik.Server.Ledger.Tables.{as_i64}
use sec_s_magik.Server.Receipt.{
  Receipt, ReceiptEventKind, receipt_emitted, packet_verified, kind_text,
  reject_from_verified_context, verify_from_signed_context, execution, execution_with_output,
  sign_ed25519,
}
use sec_s_magik.Server.Gateway.Setup.{
  Router, Externals, insert_event, insert_receipt, Moment, Event, Store,
}

unfoldable pub context_receipt_suffix : VerifiedCallContext → Text
context_receipt_suffix context =
    context.context_id ++ bytes "-" ++ lower_hex (take 8 context.packet_hash)

unfoldable pub receipt_id_of : Text → ℕ → VerifiedCallContext → Text
receipt_id_of kind timestamp context =
    bytes "receipt-"
    ++ kind
    ++ bytes "-"
    ++ decimal timestamp
    ++ bytes "-"
    ++ lower_hex (context.opcode ∷ [])
    ++ bytes "-"
    ++ context_receipt_suffix context

-- `Ledger::record_event`
unfoldable pub record_event : Moment → Event → Store → Store
record_event moment event store =
    if moment.fails (insert_event event.event_kind)
    then store
    else record store { events = event ∷ store.events }

-- `record_operation_event`
unfoldable pub record_operation_event :
    Moment → ReceiptEventKind → SignedVerifiedCallContext → Option Text → Store → Store
record_operation_event moment kind signed reason store =
    record_event moment
      (record {
        timestamp = as_i64 moment.timestamp;
        event_kind = kind;
        packet_hash = some signed.context.packet_hash;
        opcode = some signed.context.opcode;
        operation = some signed.context.operation;
        handler_id = signed.context.handler_id;
        reason = reason;
      })
      store

abbrev pub emitted_event : Receipt → Event
emitted_event r = record {
  timestamp = as_i64 r.timestamp;
  event_kind = receipt_emitted;
  packet_hash = some r.packet_hash;
  opcode = some r.opcode;
  operation = r.operation;
  handler_id = r.handler_id;
  reason = some (kind_text r.kind);
}

-- `Ledger::record_receipt_with_emitted_event`: both rows or none, and none where the id of the
-- receipt, the key of its table, is taken.
unfoldable pub record_receipt_with_emitted_event : Moment → Receipt → Store → Bool × Store
record_receipt_with_emitted_event moment r store =
    if moment.fails (insert_receipt r.kind)
      || moment.fails (insert_event receipt_emitted)
      || any (λ old. old.receipt_id == r.receipt_id) store.receipts
    then (false, store)
    else (
      true,
      record store { receipts = r ∷ store.receipts; events = emitted_event r ∷ store.events },
    )

module _ (ext : Externals) (router : Router) (moment : Moment) where
  -- `sign_receipt` of the router's identity.
  unfoldable pub sign_receipt : Receipt → Result VerificationError Receipt
  sign_receipt r =
      sign_ed25519 ext.serialize_receipt ext.sign router.signer_key_id router.authenticator_kind r

  -- `record_signed_receipt`
  unfoldable pub record_signed_receipt : Receipt → Store → Store
  record_signed_receipt r store = elim (sign_receipt r) [
    | err e ↦ store
    | ok signed ↦ let (done, after) = record_receipt_with_emitted_event moment signed store in after
  ]

  abbrev pub replace_summary : Option (List Text) → Receipt → Receipt
  replace_summary none r = r
  replace_summary (some summary) r = record r { evidence_summary = summary }

  -- `record_verified_reject_receipt` and `record_authority_mode_reject_receipt`
  unfoldable pub record_reject_receipt :
      SignedVerifiedCallContext → Text → Option (List Text) → Store → Text × Store
  record_reject_receipt signed reason summary store =
      let id = receipt_id_of (bytes "reject") moment.timestamp signed.context in
      (
        id,
        record_signed_receipt
            (replace_summary summary
              (reject_from_verified_context id signed.context reason moment.timestamp))
            store,
      )

  unfoldable pub record_verify_receipt : SignedVerifiedCallContext → Store → Store
  record_verify_receipt signed store =
      let id = receipt_id_of (bytes "verify") moment.timestamp signed.context in
      record_operation_event moment packet_verified signed none (
        record_signed_receipt
          (verify_from_signed_context ext.sha256 ext.is_blank id signed moment.timestamp) store)

  unfoldable pub record_execution_receipt :
      SignedVerifiedCallContext → Decision → Option Text → Store → Text × Store
  record_execution_receipt signed decision reason store =
      let id = receipt_id_of (bytes "execute") moment.timestamp signed.context in
      (
        id,
        record_signed_receipt
            (execution ext.sha256 ext.is_blank id signed.context decision reason moment.timestamp)
            store,
      )

  -- `record_execution_receipt_required`: none where the receipt is not persisted.
  unfoldable pub record_execution_receipt_required :
      SignedVerifiedCallContext
      → Decision
      → Option Text
      → Option Text
      → Option (List ℕ)
      → Store
      → Option Text × Store
  record_execution_receipt_required signed decision reason schema output store =
      let id = receipt_id_of (bytes "execute") moment.timestamp signed.context in
      elim (execution_with_output ext.sha256 ext.is_blank id signed.context decision reason
          moment.timestamp schema output
        >>= sign_receipt) [
          | err e ↦ (none, store)
          | ok r ↦
              let (done, after) = record_receipt_with_emitted_event moment r store in
              (if done then some id else none, after)
        ]
