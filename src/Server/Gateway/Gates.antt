-- ===== src/Server/Gateway/Gates.antt =====
-- No program runs unless every gate was passed: `route_verified` of server/src/gateway.rs.
use sec_s_magik.Base.{
  ℕ, ◌≤◌, true, List, ◌∷◌, some, Text, bytes, Result, ok, err, ◌≡◌, refl, ap, ◌∙◌, ◌⊎◌, inl, inr,
  length, contains, ltb, Result-cases, Option-cases, Bool-cases, list_eq, nat_eq, arith,
}
use sec_s_magik.Server.Context.{rejected, SignedVerifiedCallContext}
use sec_s_magik.Server.Receipt.{handler_started}
use sec_s_magik.Server.Gateway.Setup.{
  Router, Externals, Moment, Store, DecisionResponse, rejected_response,
}
use sec_s_magik.Server.Gateway.Check.{Rejection, Routed, check_call}
use sec_s_magik.Server.Gateway.Admit.{
  reject_call, reject_execution, record_routed, reserve_call, use_nullifier, permit_call,
  admit_call,
}
use sec_s_magik.Server.Gateway.Execute.{
  Route, post_start_execution_rejection, call_program, execute_call, route_verified,
}
use sec_s_magik.Server.Gateway.Frame.{
  reject_call-IsTraceOf, reject_execution-IsTraceOf, record_routed-IsTraceOf, post_start-IsTraceOf,
  finish-IsTraceOf, event-IsTraceOf,
}

module _ (ext : Externals) (router : Router) (m : Moment) (signed : SignedVerifiedCallContext)
    (payload : List ℕ) (s : Store) where
  -- The store after the reservation of the replay key of a routed call.
  abbrev pub reserved_store : Routed → Store
  reserved_store routed = (reserve_call ext router m routed.signed s).1

  -- What a call that is admitted has passed.
  pub record HasPassedGates (routed : Routed) : Type 0 where
    pub checked : check_call ext router m.timestamp signed payload ≡ ok routed
    pub reserved : (reserve_call ext router m routed.signed s).0 ≡ ok tt
    pub used : (use_nullifier ext router m routed.signed (reserved_store routed)).0 ≡ ok tt
    pub permitted : permit_call ext router m routed.signed.context ≡ ok tt

  -- The reservations after a call: those before it, or those after the reservation of a call that
  -- passed the checks.
  unfoldable pub HasReservations : Store → Type 0
  HasReservations after =
      (after.replay_reservations ≡ s.replay_reservations)
      ⊎ ((routed : Routed) × (check_call ext router m.timestamp signed payload ≡ ok routed)
          × (after.replay_reservations ≡ (reserved_store routed).replay_reservations))

  pub record IsAdmission (admission : Result DecisionResponse Routed × Store) : Type 0 where
    pub same_executions : admission.1.executions ≡ s.executions
    pub reservations : HasReservations admission.1
    pub outcome :
        ((response : DecisionResponse) × (admission.0 ≡ err response)
          × (response.decision ≡ rejected))
        ⊎ ((routed : Routed) × HasPassedGates routed
            × (admission.0 ≡ ok routed)
            × (admission.1.replay_reservations ≡ (reserved_store routed).replay_reservations))

  reject_call_rejects :
      (r : Rejection) (t : Store) → (reject_call ext router m r t).0.decision ≡ rejected
  unfolding reject_call rejected_response
  reject_call_rejects r t = ground arith

  reject_execution_rejects :
      (c : SignedVerifiedCallContext) (reason : Text) (t : Store)
      → (reject_execution ext router m c reason t).0.decision ≡ rejected
  unfolding reject_execution rejected_response
  reject_execution_rejects c reason t = refl

  reserve-executions : (routed : Routed) → (reserved_store routed).executions ≡ s.executions
  unfolding reserve_call
  reserve-executions routed = refl

  use-executions :
      (c : SignedVerifiedCallContext) (t : Store)
      → ((use_nullifier ext router m c t).1.executions ≡ t.executions)
        × ((use_nullifier ext router m c t).1.replay_reservations ≡ t.replay_reservations)
  unfolding use_nullifier
  use-executions c t = (ground arith, ground arith)

  pub admit-IsAdmission : IsAdmission (admit_call ext router m signed payload s)
  unfolding admit_call HasReservations
  admit-IsAdmission = elim (Result-cases (check_call ext router m.timestamp signed payload)) [
    | inr (rejection, e) ↦
        let trace = reject_call-IsTraceOf ext router m rejection s in
        record {
          same_executions = ground (arith, e, trace.same_executions);
          reservations = inl (ground (arith, e, trace.same_reservations));
          outcome = inl (
            (reject_call ext router m rejection s).0,
            ground (arith, e),
            reject_call_rejects rejection s,
          );
        }
    | inl (routed, checked) ↦
        let t = reserved_store routed in
        let same = reserve-executions routed in
        elim (Result-cases (reserve_call ext router m routed.signed s).0) [
          | inr (rejection, e) ↦
              let trace = reject_call-IsTraceOf ext router m rejection t in
              record {
                same_executions = ground (arith, checked, e, trace.same_executions, same);
                reservations =
                    inr (routed, checked, ground (arith, checked, e, trace.same_reservations));
                outcome = inl (
                  (reject_call ext router m rejection t).0,
                  ground (arith, checked, e),
                  reject_call_rejects rejection t,
                );
              }
          | inl (done, reserved) ↦
              let u = (use_nullifier ext router m routed.signed t).1 in
              let (used_executions, used_rows) = use-executions routed.signed t in
              elim (Result-cases (use_nullifier ext router m routed.signed t).0) [
                | inr (reason, e) ↦
                    let trace = reject_execution-IsTraceOf ext router m routed.signed reason u in
                    record {
                      same_executions = ground (
                        arith, checked, reserved, e, trace.same_executions, same, used_executions,
                      );
                      reservations = inr (
                        routed,
                        checked,
                        ground (arith, checked, reserved, e, trace.same_reservations, used_rows),
                      );
                      outcome = inl (
                        (reject_execution ext router m routed.signed reason u).0,
                        ground (arith, checked, reserved, e),
                        reject_execution_rejects routed.signed reason u,
                      );
                    }
                | inl (done2, used) ↦
                    let v = record_routed ext router m routed payload u in
                    let wrote = record_routed-IsTraceOf ext router m routed payload u in
                    elim (Result-cases (permit_call ext router m routed.signed.context)) [
                      | inr (reason, e) ↦
                          let trace =
                            reject_execution-IsTraceOf ext router m routed.signed reason v in
                          record {
                            same_executions = ground (
                              arith, checked, reserved, used, e, trace.same_executions,
                              wrote.same_executions, same, used_executions,
                            );
                            reservations = inr (
                              routed,
                              checked,
                              ground (
                                arith, checked, reserved, used, e, trace.same_reservations,
                                wrote.same_reservations, used_rows,
                              ),
                            );
                            outcome = inl (
                              (reject_execution ext router m routed.signed reason v).0,
                              ground (arith, checked, reserved, used, e),
                              reject_execution_rejects routed.signed reason v,
                            );
                          }
                      | inl (done3, permitted) ↦
                          let rows : (admit_call ext router m signed payload
                                s).1.replay_reservations
                              ≡ t.replay_reservations =
                            ground (
                              arith, checked, reserved, used, permitted, wrote.same_reservations,
                              used_rows,
                            ) in
                          record {
                            same_executions = ground (
                              arith, checked, reserved, used, permitted, wrote.same_executions,
                              same, used_executions,
                            );
                            reservations = inr (routed, checked, rows);
                            outcome = inr (
                              routed,
                              record {
                                checked = checked;
                                reserved = reserved;
                                used = used;
                                permitted = permitted;
                              },
                              ground (arith, checked, reserved, used, permitted),
                              rows,
                            );
                          }
                    ]
              ]
        ]
  ]

-- A program that runs: installed under the id of the context, on a payload within the bound.
pub record IsRun (router : Router) (m : Moment) (routed : Routed) (payload : List ℕ)
    (s after : Store) (handler_id : Text) : Type 0 where
  pub named : routed.signed.context.handler_id ≡ some handler_id
  pub installed : contains router.programs handler_id ≡ true
  pub bounded : length payload ≤ router.limits.max_payload_bytes
  pub ran :
      after.executions
      ≡ record {
        handler_id = handler_id;
        context = routed.signed.context;
        payload = payload;
        timestamp = m.timestamp;
      }
        ∷ s.executions

module _ (ext : Externals) (router : Router) (m : Moment) (routed : Routed) (payload : List ℕ)
    (s : Store) where
  call-executions :
      (handler_id : Text)
      → ((call_program ext router m routed handler_id payload s).1.executions
          ≡ record {
            handler_id = handler_id;
            context = routed.signed.context;
            payload = payload;
            timestamp = m.timestamp;
          }
            ∷ s.executions)
        × ((call_program ext router m routed handler_id payload s).1.replay_reservations
            ≡ s.replay_reservations)
  unfolding call_program
  call-executions handler_id =
      let started = event-IsTraceOf m handler_started routed.signed _ s in
      let finished = finish-IsTraceOf ext router m routed _ _ in
      (
        finished.same_executions
            ∙ ap
                (λ es.
                  record {
                    handler_id = handler_id;
                    context = routed.signed.context;
                    payload = payload;
                    timestamp = m.timestamp;
                  }
                  ∷ es)
                started.same_executions,
        finished.same_reservations ∙ started.same_reservations,
      )

  pub record IsExecution (result : Route × Store) : Type 0 where
    pub same_reservations : result.1.replay_reservations ≡ s.replay_reservations
    pub executions :
        (result.1.executions ≡ s.executions)
        ⊎ ((handler_id : Text) × IsRun router m routed payload s result.1 handler_id)

  refused_call :
      (reason : Text) (result : Route × Store)
      → result
        ≡ post_start_execution_rejection ext router m routed.descriptor routed.receipt_signed reason
            s
      → IsExecution result
  refused_call reason result e =
      let trace =
        post_start-IsTraceOf ext router m routed.descriptor routed.receipt_signed reason s in
      record {
        same_reservations = ap (λ r. r.1.replay_reservations) e ∙ trace.same_reservations;
        executions = inl (ap (λ r. r.1.executions) e ∙ trace.same_executions);
      }

  pub execute-IsExecution : IsExecution (execute_call ext router m routed payload s)
  unfolding execute_call
  execute-IsExecution = elim (Bool-cases (ltb router.limits.max_payload_bytes (length payload))) [
    | inl large ↦ refused_call (bytes "payload_too_large") _ (ground (arith, large))
    | inr small ↦ elim (Option-cases routed.signed.context.handler_id) [
      | inl missing ↦ refused_call (bytes "handler_unavailable") _ (ground (arith, small, missing))
      | inr (handler_id, named) ↦ elim (Bool-cases (contains router.programs handler_id)) [
        | inr absent ↦
            refused_call (bytes "handler_unavailable") _ (ground (arith, small, named, absent))
        | inl installed ↦
            let (ran, rows) = call-executions handler_id in
            let same : execute_call ext router m routed payload s
                ≡ call_program ext router m routed handler_id payload s =
              ground (arith, small, named, installed) in
            record {
              same_reservations = ap (λ r. r.1.replay_reservations) same ∙ rows;
              executions = inr (
                handler_id,
                record {
                  named = named;
                  installed = installed;
                  bounded = ground (arith, small);
                  ran = ap (λ r. r.1.executions) same ∙ ran;
                },
              );
            }
      ]
    ]
  ]

module _ (ext : Externals) (router : Router) (m : Moment) (signed : SignedVerifiedCallContext)
    (payload : List ℕ) (s : Store) where
  -- A call either runs no program, or it passed every gate and runs one program once.
  pub record IsRouting (result : Route × Store) : Type 0 where
    pub reservations : HasReservations ext router m signed payload s result.1
    pub executions :
        (result.1.executions ≡ s.executions)
        ⊎ ((routed : Routed) × (handler_id : Text) × HasPassedGates ext router m signed payload s
              routed
            × (result.1.replay_reservations
                ≡ (reserved_store ext router m signed payload s routed).replay_reservations)
            × IsRun router m routed payload s result.1 handler_id)

  pub route-IsRouting : IsRouting (route_verified ext router m signed payload s)
  unfolding route_verified HasReservations
  route-IsRouting =
      let admission = admit-IsAdmission ext router m signed payload s in
      let after = (admit_call ext router m signed payload s).1 in
      elim admission.outcome [
        | inl (response, refused, rejects) ↦ record {
          reservations = ground (arith, refused, admission.reservations);
          executions = inl (ground (arith, refused, admission.same_executions));
        }
        | inr (routed, passed, admitted, rows) ↦
            let done = execute-IsExecution ext router m routed payload after in
            let same : route_verified ext router m signed payload s
                ≡ execute_call ext router m routed payload after =
              ground (arith, admitted) in
            let kept = ap (λ r. r.1.replay_reservations) same ∙ done.same_reservations ∙ rows in
            record {
              reservations = inr (routed, passed.checked, kept);
              executions = elim done.executions [
                | inl none_ran ↦
                    inl (ap (λ r. r.1.executions) same ∙ none_ran ∙ admission.same_executions)
                | inr (handler_id, run) ↦ inr (
                  routed,
                  handler_id,
                  passed,
                  kept,
                  record {
                    named = run.named;
                    installed = run.installed;
                    bounded = run.bounded;
                    ran =
                        ap (λ r. r.1.executions) same
                        ∙ run.ran
                        ∙ ap
                            (λ es.
                              record {
                                handler_id = handler_id;
                                context = routed.signed.context;
                                payload = payload;
                                timestamp = m.timestamp;
                              }
                              ∷ es)
                            admission.same_executions;
                  },
                )
              ];
            }
      ]
