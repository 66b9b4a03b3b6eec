-- ===== src/Server/Ledger/AtMostOnce.antt =====
-- A replay key is reserved at most once before its reservation expires: `reserve_replay` of
-- server/src/ledger.rs.
use sec_s_magik.Base.{
  ℕ, ◌≤◌, ◌<◌, Bool, true, not, ◌&&◌, List, Text, ok, ◌==◌, ◌≡◌, ◌≢◌, ltb, leb, any, any-select,
  any_mono, beq_refl, beq→eq, list_eq, nat_eq, arith,
}
use sec_s_magik.Server.Context.{VerifiedCallContext}
use sec_s_magik.Server.Ledger.Tables.{as_i64, insert_or_ignore, ReplayReservation, same_replay_key}
use sec_s_magik.Server.Ledger.Replay.{
  reserved, prune_expired_replay_reservations, reservation, reserve_replay,
}

-- A row that keeps the key of the context at least until the context expires.
unfoldable pub protects : VerifiedCallContext → ReplayReservation → Bool
unfolding as_i64
protects c r =
    leb (as_i64 c.expires_at) r.expires_at
    && c.session_id == r.session_id
    && c.opcode == r.opcode
    && c.nonce == r.nonce
    && c.replay_scope == r.replay_scope

unfoldable pub IsReserved : VerifiedCallContext → List ReplayReservation → Type 0
IsReserved c rows = any (protects c) rows ≡ true

keeps :
    (c : VerifiedCallContext) (now : ℕ)
    → now ≤ c.expires_at
    → c.expires_at < 9223372036854775808
    → (r : ReplayReservation) → protects c r ≡ true
    → (not (ltb r.expires_at (as_i64 now)) && protects c r) ≡ true
unfolding protects as_i64
keeps c now early small r h = ground arith

pub prune-IsReserved :
    (fails : Bool) (now : ℕ) (c : VerifiedCallContext) (rows : List ReplayReservation)
    → now ≤ c.expires_at
    → c.expires_at < 9223372036854775808
    → IsReserved c rows
    → IsReserved c (prune_expired_replay_reservations fails now rows).1
unfolding prune_expired_replay_reservations IsReserved
prune-IsReserved fails now c rows early small h = ground (
  arith,
  any-select (λ r. not (ltb r.expires_at (as_i64 now))) (protects c) rows,
  any_mono (protects c) (λ r. not (ltb r.expires_at (as_i64 now)) && protects c r)
      (keeps c now early small) rows h,
)

-- The new row stands for the context it was made of.
protects-reservation :
    (c : VerifiedCallContext) (signer : Text) (at : ℕ) → protects c (reservation c signer at) ≡ true
unfolding protects reservation as_i64
protects-reservation c signer at =
    ground
      (arith, beq_refl c.session_id, beq_refl c.opcode, beq_refl c.nonce, beq_refl c.replay_scope)

-- A row that protects the context conflicts with a new row of any context with its key.
abbrev pub same_key : VerifiedCallContext → VerifiedCallContext → Bool
same_key c d =
    d.session_id == c.session_id
    && d.opcode == c.opcode
    && d.nonce == c.nonce
    && d.replay_scope == c.replay_scope

conflicts :
    (c d : VerifiedCallContext) (signer : Text) (at : ℕ)
    → same_key c d ≡ true
    → (r : ReplayReservation) → protects c r ≡ true
    → same_replay_key (reservation d signer at) r ≡ true
unfolding protects reservation same_replay_key
conflicts c d signer at same r h = ground (
  arith,
  beq→eq d.session_id c.session_id (ground arith),
  beq→eq d.opcode c.opcode (ground arith),
  beq→eq d.nonce c.nonce (ground arith),
  beq→eq d.replay_scope c.replay_scope (ground arith),
)

-- Every reservation, whatever its context and whichever statements fail, keeps a reservation that
-- has not expired at its time.
pub reserve_replay-IsReserved :
    (prune_fails insert_fails : Bool) (c d : VerifiedCallContext) (signer : Text) (now : ℕ)
    (rows : List ReplayReservation)
    → now ≤ c.expires_at
    → c.expires_at < 9223372036854775808
    → IsReserved c rows
    → IsReserved c (reserve_replay prune_fails insert_fails d signer now rows).1
unfolding reserve_replay insert_or_ignore IsReserved
reserve_replay-IsReserved pf if_ c d signer now rows early small h =
    ground (arith, prune-IsReserved pf now c rows early small h)

-- A reservation that succeeds leaves its context reserved.
pub reserve_replay-reserved :
    (prune_fails insert_fails : Bool) (c : VerifiedCallContext) (signer : Text) (now : ℕ)
    (rows : List ReplayReservation)
    → (reserve_replay prune_fails insert_fails c signer now rows).0 ≡ ok reserved
    → IsReserved c (reserve_replay prune_fails insert_fails c signer now rows).1
unfolding reserve_replay insert_or_ignore IsReserved
reserve_replay-reserved pf if_ c signer now rows h =
    ground (arith, protects-reservation c signer now)

-- While a context is reserved and has not expired, no context with its key is reserved.
pub reserve_replay-refused :
    (prune_fails insert_fails : Bool) (c d : VerifiedCallContext) (signer : Text) (now : ℕ)
    (rows : List ReplayReservation)
    → now ≤ c.expires_at
    → c.expires_at < 9223372036854775808
    → same_key c d ≡ true
    → IsReserved c rows
    → (reserve_replay prune_fails insert_fails d signer now rows).0 ≢ ok reserved
unfolding reserve_replay insert_or_ignore IsReserved
reserve_replay-refused pf if_ c d signer now rows early small same h refused =
    let live = (prune_expired_replay_reservations pf now rows).1 in
    let held =
      any_mono (protects c) (same_replay_key (reservation d signer now))
        (conflicts c d signer now same) live (prune-IsReserved pf now c rows early small h) in
    ground (arith, held)
