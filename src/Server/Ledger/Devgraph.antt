-- ===== src/Server/Ledger/Devgraph.antt =====
-- Reservations of the portable issue producer: `reserve_devgraph_authority_replay` of
-- server/src/ledger.rs, with the binding of server/src/devgraph_authority.rs.
use sec_s_magik.Base.{
  ℕ, Bool, not, ◌&&◌, List, Text, Result, ok, err, ◌>>=◌, ok_or, ◌==◌, leb, find, select,
  if◌then◌else◌, list_eq, nat_eq,
}
use sec_s_magik.Server.Clock.{is_clock_read_failure}
use sec_s_magik.Server.Ledger.Tables.{SqlError, sql_error, checked_sqlite_integer, insert_or_ignore}

pub data DevgraphReplayReservationOutcome : Type 0 where
  reserved exact_duplicate scope_conflict : DevgraphReplayReservationOutcome

pub record DevgraphAuthorityReplayBindingV1 : Type 0 where
  pub actor_id : Text
  pub audience : Text
  pub expires_at : ℕ
  pub idempotency_key_digest_sha256 : Text
  pub issued_at : ℕ
  pub nonce : List ℕ
  pub operation : Text
  pub replay_scope : Text
  pub receiver_policy_id : Text
  pub receiver_policy_version : ℕ
  pub receiver_policy_digest_sha256 : Text
  pub request_digest_sha256 : Text
  pub resource : Text
  pub secs_context_id : Text
  pub secs_verifier_key_id : Text
  pub session_id : List ℕ
  pub wallet_presentation_digest_sha256 : Text

-- A row is the time of the reservation beside the binding, whose numbers are stored as `i64`.
pub record DevgraphReservation : Type 0 where
  pub reserved_at : ℕ
  pub binding : DevgraphAuthorityReplayBindingV1

-- `UNIQUE(session_id, operation, nonce)`
unfoldable pub same_devgraph_key : DevgraphReservation → DevgraphReservation → Bool
same_devgraph_key r s =
    r.binding.session_id == s.binding.session_id
    && r.binding.operation == s.binding.operation
    && r.binding.nonce == s.binding.nonce

-- `DELETE ... WHERE expires_at <= now`, which the sentinel skips.
unfoldable pub prune_expired_devgraph_authority_replay_reservations :
    Bool → ℕ → List DevgraphReservation → Result SqlError (Unit {0}) × List DevgraphReservation
unfolding checked_sqlite_integer
prune_expired_devgraph_authority_replay_reservations fails now rows =
    if is_clock_read_failure now then (ok tt, rows) else elim (checked_sqlite_integer now) [
      | err e ↦ (err e, rows)
      | ok checked_now ↦
          if fails
          then (err sql_error, rows)
          else (ok tt, select (λ r. not (leb r.binding.expires_at checked_now)) rows)
    ]

-- The binding with its numbers checked: `i64::try_from` of each.
unfoldable pub checked_binding :
    DevgraphAuthorityReplayBindingV1 → Result SqlError DevgraphAuthorityReplayBindingV1
unfolding checked_sqlite_integer
checked_binding b = checked_sqlite_integer b.expires_at >>= λ e.
    checked_sqlite_integer b.issued_at >>= λ i.
    checked_sqlite_integer b.receiver_policy_version >>= λ v.
    ok (record b { expires_at = e; issued_at = i; receiver_policy_version = v })

-- The comparison of the stored row with the binding; the key is not compared again.
unfoldable pub is_exact_duplicate :
    DevgraphAuthorityReplayBindingV1 → DevgraphAuthorityReplayBindingV1 → Bool
is_exact_duplicate row b =
    row.expires_at == b.expires_at
    && row.replay_scope == b.replay_scope
    && row.actor_id == b.actor_id
    && row.audience == b.audience
    && row.resource == b.resource
    && row.request_digest_sha256 == b.request_digest_sha256
    && row.idempotency_key_digest_sha256 == b.idempotency_key_digest_sha256
    && row.receiver_policy_id == b.receiver_policy_id
    && row.receiver_policy_version == b.receiver_policy_version
    && row.receiver_policy_digest_sha256 == b.receiver_policy_digest_sha256
    && row.wallet_presentation_digest_sha256 == b.wallet_presentation_digest_sha256
    && row.secs_context_id == b.secs_context_id
    && row.secs_verifier_key_id == b.secs_verifier_key_id
    && row.issued_at == b.issued_at

-- `fetch_one` of the row with the key, and the comparison.
unfoldable pub compare_reserved :
    DevgraphReservation
    → List DevgraphReservation
    → Result SqlError DevgraphReplayReservationOutcome
unfolding same_devgraph_key is_exact_duplicate
compare_reserved row rows = ok_or (find (same_devgraph_key row) rows) sql_error >>= λ found.
    ok (if is_exact_duplicate found.binding row.binding then exact_duplicate else scope_conflict)

-- The statements from the insertion on.
unfoldable pub insert_devgraph :
    (insert_fails select_fails : Bool)
    → DevgraphReservation
    → List DevgraphReservation
    → Result SqlError DevgraphReplayReservationOutcome × List DevgraphReservation
unfolding insert_or_ignore compare_reserved same_devgraph_key
insert_devgraph insert_fails select_fails row rows =
    if insert_fails
    then (err sql_error, rows)
    else let (after, affected) = insert_or_ignore same_devgraph_key row rows in
      if affected
      then (ok reserved, after)
      else if select_fails
      then (err sql_error, after)
      else (compare_reserved row after, after)

unfoldable pub reserve_devgraph_authority_replay :
    (prune_fails insert_fails select_fails : Bool)
    → DevgraphAuthorityReplayBindingV1
    → ℕ
    → List DevgraphReservation
    → Result SqlError DevgraphReplayReservationOutcome × List DevgraphReservation
unfolding prune_expired_devgraph_authority_replay_reservations checked_binding insert_devgraph
    checked_sqlite_integer
reserve_devgraph_authority_replay prune_fails insert_fails select_fails b reserved_at rows =
    let (pruned, live) =
      prune_expired_devgraph_authority_replay_reservations prune_fails reserved_at rows in
    elim (pruned >>= λ done. checked_sqlite_integer reserved_at >>= λ at.
    checked_binding b >>= λ c. ok (record { reserved_at = at; binding = c })) [
      | err e ↦ (err e, live)
      | ok row ↦ insert_devgraph insert_fails select_fails row live
    ]
