-- ===== src/Server/Ledger/Tables.antt =====
-- Rows, integers and statements of the ledger.
use sec_s_magik.Base.{
  ℕ, ◌+◌, ◌-◌, Bool, true, false, ◌&&◌, List, ◌∷◌, Text, Result, ok, err, ◌==◌, ltb, any,
  if◌then◌else◌, list_eq, nat_eq,
}

-- A statement that fails: `sqlx::Error`.
pub data SqlError : Type 0 where
  sql_error : SqlError

-- An `i64` is its distance from the least one, so that its order is that of ℕ. This is `v as i64`
-- of a `u64`: from 2^63 on it wraps to a negative number.
unfoldable pub as_i64 : ℕ → ℕ
as_i64 v = if ltb v 9223372036854775808 then v + 9223372036854775808 else v - 9223372036854775808

unfoldable pub checked_sqlite_integer : ℕ → Result SqlError ℕ
checked_sqlite_integer v =
    if ltb v 9223372036854775808 then ok (v + 9223372036854775808) else err sql_error

-- `INSERT OR IGNORE` into a table with a unique key: the rows after it, and whether a row was
-- affected.
unfoldable pub insert_or_ignore : {A : Type 0} → (A → A → Bool) → A → List A → List A × Bool
insert_or_ignore conflict row rows =
    if any (conflict row) rows then (rows, false) else (row ∷ rows, true)

pub record ReplayReservation : Type 0 where
  pub reserved_at : ℕ
  pub expires_at : ℕ
  pub replay_scope : Text
  pub session_id : List ℕ
  pub opcode : ℕ
  pub nonce : List ℕ
  pub packet_hash : List ℕ
  pub context_id : Text
  pub signer_key_id : Text

-- `UNIQUE(session_id, opcode, nonce, replay_scope)`
unfoldable pub same_replay_key : ReplayReservation → ReplayReservation → Bool
same_replay_key r s =
    r.session_id == s.session_id
    && r.opcode == s.opcode
    && r.nonce == s.nonce
    && r.replay_scope == s.replay_scope

pub record ScopedNullifierUse : Type 0 where
  pub recorded_at : ℕ
  pub domain_fingerprint : Text
  pub commitment_fingerprint : Text
  pub commitment_storage_hash : Text
  pub context_id : Text
  pub operation : Text
  pub resource_kind : Text
  pub domain_version : Text

-- `UNIQUE(domain_fingerprint, commitment_storage_hash)`
unfoldable pub same_nullifier_key : ScopedNullifierUse → ScopedNullifierUse → Bool
same_nullifier_key r s =
    r.domain_fingerprint == s.domain_fingerprint
    && r.commitment_storage_hash == s.commitment_storage_hash
