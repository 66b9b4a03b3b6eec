-- ===== src/Server/Gateway/Safety.antt =====
-- What must hold for a program to run (server/src/gateway.rs
-- with server/src/identity.rs, server/src/ledger.rs and permissions/src/lib.rs).
use sec_s_magik.Base.{
  ℕ, List, [], none, some, Text, ok, Bool, true, false, Bool-cases, bytes, any, contains, ◌⊎◌,
  list_eq, nat_eq, ◌≡◌, ◌≢◌, inl, inr, Result-cases, arith,
}
use sec_s_magik.Permissions.{PermissionRecord, Request, evaluate, allowed}
use sec_s_magik.Server.Context.{VerifiedCallContext, SignedVerifiedCallContext}
use sec_s_magik.Server.Identity.{PublicVerifierKey}
use sec_s_magik.Server.Identity.Window.{IsVerifiedBy}
use sec_s_magik.Server.Gateway.Setup.{Router, Externals, Moment, Store, insert_nullifier}
use sec_s_magik.Server.Gateway.Check.{Routed, check_call}
use sec_s_magik.Server.Gateway.Checked.{IsChecked, check-IsChecked, verify_for_router-IsVerifiedBy}
use sec_s_magik.Server.Gateway.Admit.{permit_call, use_nullifier, reserve_call}
use sec_s_magik.Server.Nullifier.{NullifierDomainV1, ScopedNullifierEvidence, scoped_evidence}
use sec_s_magik.Server.Ledger.Tables.{ScopedNullifierUse, same_nullifier_key, insert_or_ignore}
use sec_s_magik.Server.Ledger.Nullifiers.{
  ScopedNullifierUseOutcome, is_recorded, nullifier_row, record_scoped_nullifier_use,
}
use sec_s_magik.Server.Gateway.Execute.{route_verified}
use sec_s_magik.Server.Gateway.Gates.{IsRun, reserved_store, route-IsRouting}
use sec_s_magik.Server.Gateway.Once.{reserve_call-IsReserved}
use sec_s_magik.Server.Ledger.AtMostOnce.{IsReserved}

-- The question that the router asks of its permission policy.
abbrev pub request_of : VerifiedCallContext → Request
request_of context = record {
  caller_id = context.subject.subject_id;
  opcode = context.opcode;
  operation = context.operation;
  resource = elim context.resource [ none ↦ [] | some resource ↦ resource ];
}

module _ (ext : Externals) (router : Router) (m : Moment) where
  permit-allowed :
      (c : VerifiedCallContext) (policy : List PermissionRecord)
      → router.permission_policy ≡ some policy
      → permit_call ext router m c ≡ ok tt
      → evaluate policy (request_of c) m.timestamp ≡ ok allowed
  unfolding permit_call
  permit-allowed c policy installed h =
      elim (Result-cases (evaluate policy (request_of c) m.timestamp)) [
        | inl (allowed, yes_it_is) ↦ yes_it_is
        | inr (reason, denied) ↦ ground (arith, installed, denied)
      ]

  -- No use of the nullifier of the call is in the table, where its evidence demands a scoped use.
  abbrev pub IsUnused : VerifiedCallContext → Store → Type 0
  IsUnused c s =
      (contains c.evidence_summary (bytes "scoped_use_required") ≡ false)
      ⊎ ((evidence : ScopedNullifierEvidence) × (scoped_evidence ext.sha256 ext.is_blank c
            ≡ ok evidence)
          × (any
                (same_nullifier_key
                  (nullifier_row ext.sha256 evidence.domain evidence.commitment c m.timestamp))
                s.scoped_nullifier_uses
              ≡ false))

  fresh_row :
      (fails : Bool) (d : NullifierDomainV1) (n : Text) (c : VerifiedCallContext)
      (rows : List ScopedNullifierUse) (o : ScopedNullifierUseOutcome)
      → (record_scoped_nullifier_use ext.sha256 fails d n c m.timestamp rows).0 ≡ ok o
      → is_recorded o ≡ true
      → any (same_nullifier_key (nullifier_row ext.sha256 d n c m.timestamp)) rows ≡ false
  unfolding record_scoped_nullifier_use insert_or_ignore
  fresh_row fails d n c rows o h recorded =
      elim (Bool-cases
        (any (same_nullifier_key (nullifier_row ext.sha256 d n c m.timestamp)) rows)) [
          | inr free ↦ free
          | inl taken ↦ ground (arith, taken, h, recorded)
        ]

  use-IsUnused :
      (signed : SignedVerifiedCallContext) (s : Store)
      → (use_nullifier ext router m signed s).0 ≡ ok tt
      → IsUnused signed.context s
  unfolding use_nullifier
  use-IsUnused signed s h =
      elim (Bool-cases (contains signed.context.evidence_summary (bytes "scoped_use_required"))) [
        | inr free ↦ inl free
        | inl demanded ↦
            elim (Result-cases (scoped_evidence ext.sha256 ext.is_blank signed.context)) [
              | inr (e, refused) ↦ ground (arith, demanded, refused, h)
              | inl (evidence, found) ↦
                  let answer =
                    (record_scoped_nullifier_use ext.sha256 (m.fails insert_nullifier)
                      evidence.domain evidence.commitment signed.context m.timestamp
                      s.scoped_nullifier_uses).0 in
                  elim (Result-cases answer) [
                    | inr (e, failed) ↦ ground (arith, demanded, found, failed, h)
                    | inl (o, stored) ↦ inr (
                      evidence,
                      found,
                      fresh_row (m.fails insert_nullifier) evidence.domain evidence.commitment
                          signed.context s.scoped_nullifier_uses o stored
                          (ground (arith, demanded, found, stored, h)),
                    )
                  ]
            ]
      ]

  module _ (signed : SignedVerifiedCallContext) (payload : List ℕ) (s : Store) where
    routed-IsUnused :
        (routed : Routed)
        → (use_nullifier ext router m routed.signed
            (reserved_store ext router m signed payload s routed)).0
          ≡ ok tt
        → IsUnused routed.signed.context s
    unfolding reserve_call
    routed-IsUnused routed h =
        use-IsUnused routed.signed (reserved_store ext router m signed payload s routed) h

    -- A call that changes the programs that ran is signed by a key that the registry holds under
    -- its id, given once and active at the time; it is of the router's audience and not expired;
    -- its context has the opcode, the fingerprint, the operation and the handler of the descriptor
    -- that the manifest holds for it, and lives no longer than that allows; under a router that is
    -- not for local development that is no development descriptor; the registration gate took it;
    -- its evidence names the authority mode that the descriptor requires, if any; where a proof
    -- policy names its opcode, the observed metadata agrees with a proof key that may serve; its
    -- replay key stands in the table, with its expiry or a later one; no use of its nullifier was
    -- recorded before, where its evidence demands a scoped use; and one installed program ran once,
    -- on its payload within the bound.
    pub route-gated :
        (route_verified ext router m signed payload s).1.executions ≢ s.executions
        → (routed : Routed) × (handler_id : Text) × (key : PublicVerifierKey) × IsVerifiedBy
            ext.ed25519 router.verifier_keys router.expected_audience m.timestamp signed key
          × IsChecked ext router m.timestamp signed payload routed
          × IsReserved routed.signed.context
              (route_verified ext router m signed payload s).1.replay_reservations
          × IsUnused routed.signed.context s
          × IsRun router m routed payload s
              (route_verified ext router m signed payload s).1
              handler_id
    route-gated changed = elim (route-IsRouting ext router m signed payload s).executions [
      | inl same ↦ absurd (changed same)
      | inr (routed, handler_id, passed, rows, run) ↦
          let checked =
            check-IsChecked ext router m.timestamp signed payload routed passed.checked in
          let (key, verified) =
            verify_for_router-IsVerifiedBy ext router m.timestamp signed payload checked.verified in
          (
            routed,
            handler_id,
            key,
            verified,
            checked,
            reserve_call-IsReserved ext router m signed payload s routed _ passed.reserved rows,
            routed-IsUnused routed passed.used,
            run,
          )
    ]

    -- Where a permission policy is installed, no program runs on a call whose subject, opcode,
    -- operation and resource the policy does not allow at the time.
    pub route-permitted :
        (policy : List PermissionRecord)
        → router.permission_policy ≡ some policy
        → (route_verified ext router m signed payload s).1.executions ≢ s.executions
        → (routed : Routed) × (check_call ext router m.timestamp signed payload ≡ ok routed)
          × (evaluate policy (request_of routed.signed.context) m.timestamp ≡ ok allowed)
    route-permitted policy installed changed =
        elim (route-IsRouting ext router m signed payload s).executions [
          | inl same ↦ absurd (changed same)
          | inr (routed, handler_id, passed, rows, run) ↦ (
            routed,
            passed.checked,
            permit-allowed routed.signed.context policy installed passed.permitted,
          )
        ]
