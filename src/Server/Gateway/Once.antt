-- ===== src/Server/Gateway/Once.antt =====
-- A verified context runs at most once: `route_verified` of server/src/gateway.rs over the calls of a
-- router, with the reservations of server/src/ledger.rs.
use sec_s_magik.Base.{
  ℕ, zero, suc, ◌≤◌, ◌<◌, Bool, true, false, ◌&&◌, List, [], ◌∷◌, Text, ok, ◌≡◌, refl, sym, ap, ◌∙◌,
  subst, inl, inr, length, select, any_mono, &&-true, Bool-cases, ◌==◌, beq→eq, list_eq, nat_eq,
  arith,
}
use sec_s_magik.Server.Context.{VerifiedCallContext, SignedVerifiedCallContext}
use sec_s_magik.Server.Ledger.Tables.{ReplayReservation}
use sec_s_magik.Server.Ledger.Replay.{reserved, reserve_replay}
use sec_s_magik.Server.Ledger.AtMostOnce.{
  protects, IsReserved, same_key, reserve_replay-IsReserved, reserve_replay-reserved,
  reserve_replay-refused,
}
use sec_s_magik.Server.Gateway.Setup.{
  Router, Externals, Moment, Store, Execution, prune_replay, insert_replay,
}
use sec_s_magik.Server.Gateway.Check.{Routed, check_call}
use sec_s_magik.Server.Gateway.Admit.{reserve_call}
use sec_s_magik.Server.Gateway.Execute.{route_verified}
use sec_s_magik.Server.Gateway.Checked.{check-IsChecked, verify_for_router-IsVerifiedBy}
use sec_s_magik.Server.Gateway.Gates.{reserved_store, HasReservations, route-IsRouting}

-- One call of the router: what it meets, the signed context, and the payload.
pub record Call : Type 0 where
  pub moment : Moment
  pub signed : SignedVerifiedCallContext
  pub payload : List ℕ

-- The calls of a router in their order, the first call first.
unfoldable pub route_calls : Externals → Router → List Call → Store → Store
route_calls ext router [] s = s
route_calls ext router (call ∷ calls) s =
    route_calls ext router calls
      (route_verified ext router call.moment call.signed call.payload s).1

-- The clock does not go back, from a time on.
unfoldable pub IsOrdered : ℕ → List Call → Type 0
IsOrdered t [] = Unit
IsOrdered t (call ∷ calls) = (t ≤ call.moment.timestamp) × IsOrdered call.moment.timestamp calls

-- The executions of a context: those with its session, opcode, nonce, replay scope and expiry.
unfoldable pub is_execution_of : VerifiedCallContext → Execution → Bool
is_execution_of c e = same_key c e.context && e.context.expires_at == c.expires_at

abbrev pub execution_count : VerifiedCallContext → Store → ℕ
execution_count c s = length (select (is_execution_of c) s.executions)

module _ (ext : Externals) (router : Router) (m : Moment) (signed : SignedVerifiedCallContext)
    (payload : List ℕ) (s : Store) where
  -- A call that passes the checks is not expired.
  checked_facts :
      (routed : Routed)
      → check_call ext router m.timestamp signed payload ≡ ok routed
      → m.timestamp ≤ routed.signed.context.expires_at
  checked_facts routed h =
      let checked = check-IsChecked ext router m.timestamp signed payload routed h in
      let (key, verified) =
        verify_for_router-IsVerifiedBy ext router m.timestamp signed payload checked.verified in
      let (added, registered, same) = checked.registered in
      subst (λ e. m.timestamp ≤ e) (sym (ap (λ c. c.context.expires_at) same))
        verified.accepted.not_expired

  -- A reservation that succeeds succeeds in the table.
  reserve_call_facts :
      (routed : Routed)
      → (reserve_call ext router m routed.signed s).0 ≡ ok tt
      → (reserve_replay
          (m.fails prune_replay)
          (m.fails insert_replay)
          routed.signed.context
          routed.signed.signer_key_id
          m.timestamp
          s.replay_reservations).0
        ≡ ok reserved
  unfolding reserve_call
  reserve_call_facts routed h = ground arith

  pub reserved_rows :
      (routed : Routed)
      → (reserved_store ext router m signed payload s routed).replay_reservations
        ≡ (reserve_replay
            (m.fails prune_replay)
            (m.fails insert_replay)
            routed.signed.context
            routed.signed.signer_key_id
            m.timestamp
            s.replay_reservations).1
  unfolding reserve_call
  reserved_rows routed = refl

  -- After a reservation that succeeds, the context's key is reserved in the table.
  pub reserve_call-IsReserved :
      (routed : Routed) (rows : List ReplayReservation)
      → (reserve_call ext router m routed.signed s).0 ≡ ok tt
      → rows ≡ (reserved_store ext router m signed payload s routed).replay_reservations
      → IsReserved routed.signed.context rows
  reserve_call-IsReserved routed rows h same =
      subst (IsReserved routed.signed.context) (sym (same ∙ reserved_rows routed)) (
        reserve_replay-reserved (m.fails prune_replay) (m.fails insert_replay) routed.signed.context
          routed.signed.signer_key_id m.timestamp s.replay_reservations
          (reserve_call_facts routed h))

  kept :
      (c : VerifiedCallContext) (after : Store)
      → HasReservations ext router m signed payload s after
      → m.timestamp ≤ c.expires_at
      → c.expires_at < 9223372036854775808
      → IsReserved c s.replay_reservations
      → IsReserved c after.replay_reservations
  unfolding HasReservations reserve_call
  kept c after (inl same) early small h = subst (IsReserved c) (sym same) h
  kept c after (inr (routed, checked, same)) early small h = subst (IsReserved c) (sym same) (
      reserve_replay-IsReserved (m.fails prune_replay) (m.fails insert_replay) c
        routed.signed.context routed.signed.signer_key_id m.timestamp s.replay_reservations early
        small h)

is_zero : (n : ℕ) → (0 < n → ⊥) → n ≡ 0
is_zero zero h = refl
is_zero (suc n) h = absurd (h (omega arith))

protects_same :
    (c d : VerifiedCallContext)
    → same_key c d ≡ true
    → d.expires_at ≡ c.expires_at
    → (r : ReplayReservation) → protects d r ≡ true
    → protects c r ≡ true
unfolding protects
protects_same c d key same r p = ground (
  arith,
  same,
  beq→eq d.session_id c.session_id (ground arith),
  beq→eq d.opcode c.opcode (ground arith),
  beq→eq d.nonce c.nonce (ground arith),
  beq→eq d.replay_scope c.replay_scope (ground arith),
)

abbrev execution_record : Moment → Routed → List ℕ → Text → Execution
execution_record m routed payload handler_id = record {
  handler_id = handler_id;
  context = routed.signed.context;
  payload = payload;
  timestamp = m.timestamp;
}

execution_facts :
    (c : VerifiedCallContext) (e : Execution)
    → is_execution_of c e ≡ true
    → (same_key c e.context ≡ true) × (e.context.expires_at ≡ c.expires_at)
unfolding is_execution_of
execution_facts c e h =
    let (key, same) = &&-true (same_key c e.context) (e.context.expires_at == c.expires_at) h in
    (key, beq→eq e.context.expires_at c.expires_at same)

count_other :
    (c : VerifiedCallContext) (e : Execution) (es : List Execution)
    → is_execution_of c e ≡ false
    → length (select (is_execution_of c) (e ∷ es)) ≡ length (select (is_execution_of c) es)
count_other c e es h = ground (arith, h)

count_mine :
    (c : VerifiedCallContext) (e : Execution) (es : List Execution)
    → is_execution_of c e ≡ true
    → length (select (is_execution_of c) (e ∷ es)) ≡ suc (length (select (is_execution_of c) es))
count_mine c e es h = ground (arith, h)

-- What holds between calls: the context was executed at most once, and once it was, its key is
-- reserved as long as it has not expired.
record IsOnce (c : VerifiedCallContext) (t : ℕ) (s : Store) : Type 0 where
  once : execution_count c s ≤ 1
  held : 0 < execution_count c s → t ≤ c.expires_at → IsReserved c s.replay_reservations

same_run :
    (c d : VerifiedCallContext)
    → same_key c d ≡ true
    → d.expires_at ≡ c.expires_at
    → (rows : List ReplayReservation) → IsReserved d rows
    → IsReserved c rows
unfolding IsReserved
same_run c d key same rows h =
    any_mono (protects d) (protects c) (λ r p. protects_same c d key same r p) rows h

module _ (ext : Externals) (router : Router) (c : VerifiedCallContext)
    (small : c.expires_at < 9223372036854775808) where
  step-IsOnce :
      (call : Call) (t : ℕ) (s : Store)
      → t ≤ call.moment.timestamp
      → IsOnce c t s
      → IsOnce c call.moment.timestamp
          (route_verified ext router call.moment call.signed call.payload s).1
  step-IsOnce call t s later h =
      let m = call.moment in
      let after = (route_verified ext router m call.signed call.payload s).1 in
      let routing = route-IsRouting ext router m call.signed call.payload s in
      let keep = kept ext router m call.signed call.payload s c after routing.reservations in
      elim routing.executions [
        | inl same ↦
            let count = ap (λ es. length (select (is_execution_of c) es)) same in
            record {
              once = omega (arith, count, h.once);
              held = λ some_run early.
                  keep early small
                    (h.held (omega (arith, count, some_run)) (omega (arith, later, early)));
            }
        | inr (routed, handler_id, passed, rows, run) ↦
            elim (Bool-cases
              (is_execution_of c (execution_record m routed call.payload handler_id))) [
                | inr other ↦
                    let count =
                      ap (λ es. length (select (is_execution_of c) es)) run.ran
                      ∙ count_other c _ s.executions other in
                    record {
                      once = omega (arith, count, h.once);
                      held = λ some_run early.
                          keep early small
                            (h.held (omega (arith, count, some_run)) (omega (arith, later, early)));
                    }
                | inl mine ↦
                    let (key, same) = execution_facts c _ mine in
                    let succeeded =
                      reserve_call_facts ext router m call.signed call.payload s routed
                        passed.reserved in
                    let early =
                      subst (λ e. m.timestamp ≤ e) same
                        (checked_facts ext router m call.signed call.payload s routed
                          passed.checked) in
                    let fresh = is_zero (execution_count c s) (λ some_run.
                      reserve_replay-refused (m.fails prune_replay) (m.fails insert_replay) c
                        routed.signed.context routed.signed.signer_key_id m.timestamp
                        s.replay_reservations early small key
                        (h.held some_run (omega (arith, later, early))) succeeded) in
                    let count =
                      ap (λ es. length (select (is_execution_of c) es)) run.ran
                      ∙ count_mine c _ s.executions mine in
                    record {
                      once = omega (arith, count, fresh);
                      held = λ some_run live. same_run c routed.signed.context key same _ (
                          reserve_call-IsReserved ext router m call.signed call.payload s routed _
                            passed.reserved rows);
                    }
              ]
      ]

  calls-IsOnce :
      (calls : List Call) (t : ℕ) (s : Store)
      → IsOrdered t calls
      → IsOnce c t s
      → execution_count c (route_calls ext router calls s) ≤ 1
  unfolding route_calls IsOrdered
  calls-IsOnce [] t s ordered h = h.once
  calls-IsOnce (call ∷ calls) t s ordered h =
      calls-IsOnce calls call.moment.timestamp _ ordered.1 (step-IsOnce call t s ordered.0 h)

-- Over any calls of a router, one after the other, that has run nothing, whose clock does not go back, whichever statements
-- fail and whatever the programs answer, the executions with the session, opcode, nonce, replay scope
-- and expiry of a context are at most one, where the expiry is a positive `i64`.
pub route_calls-at_most_once :
    (ext : Externals) (router : Router) (c : VerifiedCallContext) (calls : List Call) (start : ℕ)
    (s : Store)
    → c.expires_at < 9223372036854775808
    → IsOrdered start calls
    → s.executions ≡ []
    → execution_count c (route_calls ext router calls s) ≤ 1
route_calls-at_most_once ext router c calls start s small ordered nothing =
    let none_yet = ap (λ es. length (select (is_execution_of c) es)) nothing in
    calls-IsOnce ext router c small calls start s ordered (record {
      once = omega (arith, none_yet);
      held = λ some_run early. absurd (omega (arith, none_yet, some_run));
    })
