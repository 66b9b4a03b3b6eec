-- ===== src/Examples/GatewayRuns.antt =====
-- The theorems on the router at a call that runs its program, and at a replay of it.
use sec_s_magik.Base.{◌≤◌, true, List, [], ◌∷◌, Text, bytes, ok, ◌≡◌, ◌≢◌, refl, sym, ◌∙◌, arith}
use sec_s_magik.Permissions.{evaluate, allowed}
use sec_s_magik.Server.Context.{is_node_and_verifier}
use sec_s_magik.Server.Identity.{PublicVerifierKey}
use sec_s_magik.Server.Identity.Window.{IsVerifiedBy, verify_production-IsVerifiedBy}
use sec_s_magik.Server.Ledger.AtMostOnce.{IsReserved}
use sec_s_magik.Server.Gateway.Setup.{Store, HandlerOutcome}
use sec_s_magik.Server.Gateway.Check.{Routed, check_call}
use sec_s_magik.Server.Gateway.Checked.{IsChecked}
use sec_s_magik.Server.Gateway.Execute.{route_verified, normalize_handler_outcome}
use sec_s_magik.Server.Gateway.Gates.{HasPassedGates, IsRun}
use sec_s_magik.Server.Gateway.Once.{
  Call, route_calls, IsOrdered, route_calls-at_most_once, execution_count,
}
use sec_s_magik.Server.Gateway.Outcome.{IsAnswered, route-accepted, IsNormal, normalize-IsNormal}
use sec_s_magik.Server.Gateway.Safety.{request_of, route-gated, route-permitted, IsUnused}
use sec_s_magik.Examples.Gateway.{
  toy_externals, router, policy, provision, context, signed, succeeds, at, empty, first_call_runs,
  first_call_accepted, first_call_verified,
}

-- The call, a replay of it, and a replay after a later call of the clock.
abbrev replays : List Call
replays =
    record { moment = at 1000; signed = signed; payload = 7 ∷ [] }
    ∷ record { moment = at 1000; signed = signed; payload = 7 ∷ [] }
    ∷ record { moment = at 1200; signed = signed; payload = [] }
    ∷ []

abbrev after_first : Store
after_first = (route_verified toy_externals router (at 1000) signed (7 ∷ []) empty).1

runs_something : after_first.executions ≢ []
runs_something h = cc (sym first_call_runs ∙ h)

replays-IsOrdered : IsOrdered 0 replays
unfolding IsOrdered
replays-IsOrdered = (omega arith, (omega arith, (omega arith, tt)))

route_calls-at_most_once_example :
    execution_count context (route_calls toy_externals router replays empty) ≤ 1
route_calls-at_most_once_example =
    route_calls-at_most_once toy_externals router context replays 0 empty (omega arith)
      replays-IsOrdered refl

route-gated_example :
    (routed : Routed) × (handler_id : Text) × (key : PublicVerifierKey) × IsVerifiedBy
      toy_externals.ed25519 router.verifier_keys router.expected_audience 1000 signed key
    × IsChecked toy_externals router 1000 signed (7 ∷ []) routed
    × IsReserved routed.signed.context after_first.replay_reservations
    × IsUnused toy_externals router (at 1000) routed.signed.context empty
    × IsRun router (at 1000) routed (7 ∷ []) empty after_first handler_id
route-gated_example =
    route-gated toy_externals router (at 1000) signed (7 ∷ []) empty runs_something

route-permitted_example :
    (routed : Routed) × (check_call toy_externals router 1000 signed (7 ∷ []) ≡ ok routed)
    × (evaluate policy (request_of routed.signed.context) 1000 ≡ ok allowed)
route-permitted_example =
    route-permitted toy_externals router (at 1000) signed (7 ∷ []) empty policy refl runs_something

route-accepted_example :
    (routed : Routed) × (handler_id : Text) × (outcome : HandlerOutcome) × HasPassedGates
      toy_externals router
      (at 1000)
      signed
      (7 ∷ [])
      empty
      routed
    × IsAnswered router (at 1000) (7 ∷ []) routed handler_id outcome
route-accepted_example =
    route-accepted toy_externals router (at 1000) (7 ∷ []) signed empty first_call_accepted

normalize-IsNormal_example :
    IsNormal provision router.limits succeeds
      (normalize_handler_outcome provision router.limits succeeds)
    × (normalize_handler_outcome provision router.limits
          (normalize_handler_outcome provision router.limits succeeds)
        ≡ normalize_handler_outcome provision router.limits succeeds)
normalize-IsNormal_example = normalize-IsNormal provision router.limits succeeds

verify_production-IsVerifiedBy_example :
    (key : PublicVerifierKey) × IsVerifiedBy toy_externals.ed25519 router.verifier_keys
      (bytes "here")
      1000
      signed
      key
    × (key.production_authority ≡ true)
    × (key.algorithm ≡ bytes "ed25519")
    × (is_node_and_verifier signed.authenticator_kind ≡ true)
verify_production-IsVerifiedBy_example =
    verify_production-IsVerifiedBy toy_externals.ed25519 router.verifier_keys signed (bytes "here")
      1000 first_call_verified
