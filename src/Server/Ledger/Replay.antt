-- ===== src/Server/Ledger/Replay.antt =====
-- Reservations of replay keys: `reserve_replay` and its pruning in server/src/ledger.rs.
use sec_s_magik.Base.{
  ℕ, Bool, true, false, not, List, Text, Result, ok, err, ltb, select, if◌then◌else◌, list_eq,
  nat_eq,
}
use sec_s_magik.Server.Clock.{is_clock_read_failure}
use sec_s_magik.Server.Context.{VerifiedCallContext}
use sec_s_magik.Server.Ledger.Tables.{
  SqlError, sql_error, as_i64, insert_or_ignore, ReplayReservation, same_replay_key,
}

pub data ReplayReservationOutcome : Type 0 where
  reserved duplicate : ReplayReservationOutcome

-- `DELETE FROM replay_reservations WHERE expires_at < now`, which the sentinel skips.
unfoldable pub prune_expired_replay_reservations :
    Bool → ℕ → List ReplayReservation → Result SqlError (Unit {0}) × List ReplayReservation
unfolding as_i64
prune_expired_replay_reservations fails now rows =
    if is_clock_read_failure now
    then (ok tt, rows)
    else if fails
    then (err sql_error, rows)
    else (ok tt, select (λ r. not (ltb r.expires_at (as_i64 now))) rows)

unfoldable pub reservation : VerifiedCallContext → Text → ℕ → ReplayReservation
unfolding as_i64
reservation context signer_key_id reserved_at = record {
  reserved_at = as_i64 reserved_at;
  expires_at = as_i64 context.expires_at;
  replay_scope = context.replay_scope;
  session_id = context.session_id;
  opcode = context.opcode;
  nonce = context.nonce;
  packet_hash = context.packet_hash;
  context_id = context.context_id;
  signer_key_id = signer_key_id;
}

abbrev outcome_of : Bool → ReplayReservationOutcome
outcome_of true = reserved
outcome_of false = duplicate

-- An error of the pruning is ignored.
unfoldable pub reserve_replay :
    (prune_fails insert_fails : Bool)
    → VerifiedCallContext
    → Text
    → ℕ
    → List ReplayReservation
    → Result SqlError ReplayReservationOutcome × List ReplayReservation
unfolding prune_expired_replay_reservations insert_or_ignore reservation same_replay_key
reserve_replay prune_fails insert_fails context signer_key_id reserved_at rows =
    let (ignored, live) = prune_expired_replay_reservations prune_fails reserved_at rows in
    let (after, affected) =
      insert_or_ignore same_replay_key (reservation context signer_key_id reserved_at) live in
    if insert_fails then (err sql_error, live) else (ok (outcome_of affected), after)
