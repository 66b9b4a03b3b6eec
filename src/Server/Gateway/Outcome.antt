-- ===== src/Server/Gateway/Outcome.antt =====
-- What the response of a call says of its program (server/src/gateway.rs).
use sec_s_magik.Base.{
  ℕ, ◌≤◌, true, false, List, Option, none, some, Text, bytes, ◌≡◌, refl, sym, ap, ◌∙◌, subst, inl,
  inr, length, contains, ltb, Option-cases, Bool-cases, list_eq, nat_eq, arith,
}
use sec_s_magik.Server.Context.{accepted, rejected, SignedVerifiedCallContext}
use sec_s_magik.Server.Manifest.{OperationDescriptor, OutputProfile}
use sec_s_magik.Server.Receipt.{is_some}
use sec_s_magik.Server.Gateway.Setup.{
  Router, Externals, Moment, Store, ExecutionLimits, HandlerOutcome, rejected_outcome,
  rejected_response,
}
use sec_s_magik.Server.Gateway.Check.{Routed}
use sec_s_magik.Server.Gateway.Admit.{admit_call}
use sec_s_magik.Server.Gateway.Execute.{
  normalize_handler_outcome, handler_limits, is_longer, outcome_or_timeout, schema_of, answer,
  execution_receipt, post_start_execution_rejection, finish_call, call_program, execute_call,
  route_verified,
}
use sec_s_magik.Server.Gateway.Gates.{HasPassedGates, admit-IsAdmission}

-- The outcome that is reported keeps the limits: output only with an acceptance, exactly where the
-- descriptor has a profile, and within the bound; an acceptance is the program's own outcome.
pub record IsNormal (d : OperationDescriptor) (limits : ExecutionLimits)
    (given reported : HandlerOutcome) : Type 0 where
  pub bounded : is_longer limits.max_output_bytes reported.output ≡ false
  pub refusals_are_bare : reported.decision ≡ rejected → reported.output ≡ none
  pub profiled : reported.decision ≡ accepted → is_some reported.output ≡ is_some d.output_profile
  pub unchanged : reported.decision ≡ accepted → reported ≡ given

-- Whatever a program answers, the outcome that is reported has an output only with an acceptance, then
-- exactly where the descriptor has a profile, and within the bound of the limits; an acceptance is
-- the program's own outcome; and normalising again changes nothing.
pub normalize-IsNormal :
    (d : OperationDescriptor) (limits : ExecutionLimits) (given : HandlerOutcome)
    → IsNormal d limits given (normalize_handler_outcome d limits given)
      × (normalize_handler_outcome d limits (normalize_handler_outcome d limits given)
          ≡ normalize_handler_outcome d limits given)
unfolding normalize_handler_outcome rejected_outcome
normalize-IsNormal d limits given = (
  record {
    bounded = ground arith;
    refusals_are_bare = λ h. ground arith;
    profiled = λ h. ground arith;
    unchanged = λ h. ground arith;
  },
  ground arith,
)

module _ (ext : Externals) (router : Router) (m : Moment) where
  post_start_rejects :
      (d : OperationDescriptor) (signed : SignedVerifiedCallContext) (reason : Text) (s : Store)
      → (post_start_execution_rejection ext router m d signed reason s).0.response.decision
        ≡ rejected
  unfolding post_start_execution_rejection rejected_response
  post_start_rejects d signed reason s =
      elim (Option-cases
        (execution_receipt ext router m d signed rejected (some reason) none none s).0) [
          | inl missing ↦ ground (arith, missing)
          | inr (id, made) ↦ ground (arith, made)
        ]

  finish-accepted :
      (routed : Routed) (outcome : HandlerOutcome) (s : Store)
      → (finish_call ext router m routed outcome s).0.response.decision ≡ accepted
      → outcome.decision ≡ accepted
  unfolding finish_call answer rejected_response
  finish-accepted routed outcome s h =
      let schema = schema_of routed.descriptor.output_profile outcome.output in
      elim (Option-cases
        (execution_receipt ext router m routed.descriptor routed.receipt_signed outcome.decision
          outcome.reason schema outcome.output s).0) [
            | inl missing ↦ ground (arith, missing)
            | inr (id, made) ↦ ground (arith, made)
          ]

-- The output is no longer than the bound, where there is one.
abbrev pub IsWithin : ℕ → Option (List ℕ) → Type 0
IsWithin bound none = Unit
IsWithin bound (some output) = length output ≤ bound

-- The output keeps the bound of the profile, where there is one.
abbrev pub IsWithinProfile : Option OutputProfile → Option (List ℕ) → Type 0
IsWithinProfile none output = Unit
IsWithinProfile (some profile) output = IsWithin profile.max_output_bytes output

handler_limits-IsWithin :
    (limits : ExecutionLimits) (profile : Option OutputProfile) (output : Option (List ℕ))
    → is_longer (handler_limits limits profile).max_output_bytes output ≡ false
    → IsWithin limits.max_output_bytes output × IsWithinProfile profile output
unfolding handler_limits
handler_limits-IsWithin limits none none h = (tt, tt)
handler_limits-IsWithin limits none (some output) h = (ground arith, tt)
handler_limits-IsWithin limits (some profile) none h = (tt, tt)
handler_limits-IsWithin limits (some profile) (some output) h = (ground arith, ground arith)

-- What an accepted response says of the program of the call.
pub record IsAnswered (router : Router) (m : Moment) (payload : List ℕ) (routed : Routed)
    (handler_id : Text) (outcome : HandlerOutcome) : Type 0 where
  pub named : routed.signed.context.handler_id ≡ some handler_id
  pub installed : contains router.programs handler_id ≡ true
  pub answered :
      m.run handler_id routed.signed.context payload
        (handler_limits router.limits routed.descriptor.output_profile)
      ≡ some outcome
  pub accepts : outcome.decision ≡ accepted
  pub bounded :
      is_longer
        (handler_limits router.limits routed.descriptor.output_profile).max_output_bytes
        outcome.output
      ≡ false
  pub within_limits : IsWithin router.limits.max_output_bytes outcome.output
  pub within_profile : IsWithinProfile routed.descriptor.output_profile outcome.output
  pub profiled : is_some outcome.output ≡ is_some routed.descriptor.output_profile

accepted_answer :
    (given : Option HandlerOutcome)
    → (outcome_or_timeout given).decision ≡ accepted
    → given ≡ some (outcome_or_timeout given)
unfolding rejected_outcome
accepted_answer none h = cc h
accepted_answer (some outcome) h = refl

module _ (ext : Externals) (router : Router) (m : Moment) (payload : List ℕ) where
  normal_answer :
      (routed : Routed) (handler_id : Text)
      → routed.signed.context.handler_id ≡ some handler_id
      → contains router.programs handler_id ≡ true
      → let limits = handler_limits router.limits routed.descriptor.output_profile in
        let given = outcome_or_timeout (m.run handler_id routed.signed.context payload limits) in
        (normalize_handler_outcome routed.descriptor limits given).decision ≡ accepted
        → IsAnswered router m payload routed handler_id given
  normal_answer routed handler_id named installed h =
      let limits = handler_limits router.limits routed.descriptor.output_profile in
      let answer = m.run handler_id routed.signed.context payload limits in
      let given = outcome_or_timeout answer in
      let normal = (normalize-IsNormal routed.descriptor limits given).0 in
      let same = normal.unchanged h in
      let accepts = ap (λ o. o.decision) (sym same) ∙ h in
      let bounded =
        ap (λ o. is_longer limits.max_output_bytes o.output) (sym same) ∙ normal.bounded in
      let (within_limits, within_profile) =
        handler_limits-IsWithin router.limits routed.descriptor.output_profile given.output
          bounded in
      record {
        named = named;
        installed = installed;
        answered = accepted_answer answer accepts;
        accepts = accepts;
        bounded = bounded;
        within_limits = within_limits;
        within_profile = within_profile;
        profiled = ap (λ o. is_some o.output) (sym same) ∙ normal.profiled h;
      }

  call-IsAnswered :
      (routed : Routed) (handler_id : Text) (s : Store)
      → routed.signed.context.handler_id ≡ some handler_id
      → contains router.programs handler_id ≡ true
      → (call_program ext router m routed handler_id payload s).0.response.decision ≡ accepted
      → (outcome : HandlerOutcome) × IsAnswered router m payload routed handler_id outcome
  unfolding call_program
  call-IsAnswered routed handler_id s named installed h =
      let limits = handler_limits router.limits routed.descriptor.output_profile in
      (
        outcome_or_timeout (m.run handler_id routed.signed.context payload limits),
        normal_answer routed handler_id named installed (finish-accepted ext router m routed _ _ h),
      )

  execute-IsAnswered :
      (routed : Routed) (s : Store)
      → (execute_call ext router m routed payload s).0.response.decision ≡ accepted
      → (handler_id : Text) × (outcome : HandlerOutcome) × IsAnswered router m payload routed
          handler_id outcome
  unfolding execute_call
  execute-IsAnswered routed s h =
      let refused = λ (reason : Text).
        post_start_rejects ext router m routed.descriptor routed.receipt_signed reason s in
      elim (Bool-cases (ltb router.limits.max_payload_bytes (length payload))) [
        | inl large ↦ ground (arith, large, refused (bytes "payload_too_large"))
        | inr small ↦ elim (Option-cases routed.signed.context.handler_id) [
          | inl missing ↦ ground (arith, small, missing, refused (bytes "handler_unavailable"))
          | inr (handler_id, named) ↦ elim (Bool-cases (contains router.programs handler_id)) [
            | inr absent ↦
                ground (arith, small, named, absent, refused (bytes "handler_unavailable"))
            | inl installed ↦
                let same : execute_call ext router m routed payload s
                    ≡ call_program ext router m routed handler_id payload s =
                  ground (arith, small, named, installed) in
                let (outcome, answered) =
                  call-IsAnswered routed handler_id s named installed
                    (subst (λ r. r.0.response.decision ≡ accepted) same h) in
                (handler_id, outcome, answered)
          ]
        ]
      ]

  -- An accepted response means that the call passed every gate, and that the program installed under
  -- the id of its context was called with the routed context and the payload, and accepted within its
  -- time, with an output exactly where the descriptor has a profile, within the bound of the router
  -- and that of the profile.
  pub route-accepted :
      (signed : SignedVerifiedCallContext) (s : Store)
      → (route_verified ext router m signed payload s).0.response.decision ≡ accepted
      → (routed : Routed) × (handler_id : Text) × (outcome : HandlerOutcome) × HasPassedGates ext
          router m signed payload s routed
        × IsAnswered router m payload routed handler_id outcome
  unfolding route_verified
  route-accepted signed s h =
      let admission = admit-IsAdmission ext router m signed payload s in
      let after = (admit_call ext router m signed payload s).1 in
      elim admission.outcome [
        | inl (response, refused, rejects) ↦ ground (arith, refused, rejects)
        | inr (routed, passed, admitted, rows) ↦
            let same : route_verified ext router m signed payload s
                ≡ execute_call ext router m routed payload after =
              ground (arith, admitted) in
            let (handler_id, outcome, answered) =
              execute-IsAnswered routed after
                (subst (λ r. r.0.response.decision ≡ accepted) same h) in
            (routed, handler_id, outcome, passed, answered)
      ]
