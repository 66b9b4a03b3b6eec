-- ===== src/Server/Ledger/Nullifiers.antt =====
-- Uses of scoped nullifiers: `record_scoped_nullifier_use` and `scoped_nullifier_use_count` of
-- server/src/ledger.rs.
use sec_s_magik.Base.{
  ℕ, Bool, true, false, ◌&&◌, List, Text, Result, ok, err, ◌==◌, select, length, if◌then◌else◌,
  list_eq, nat_eq,
}
use sec_s_magik.Server.Context.{VerifiedCallContext}
use sec_s_magik.Server.Nullifier.{
  NullifierDomainV1, resource_kind_text, domain_fingerprint, commitment_fingerprint, storage_hash,
}
use sec_s_magik.Server.Ledger.Tables.{
  SqlError, sql_error, as_i64, insert_or_ignore, ScopedNullifierUse, same_nullifier_key,
}

pub data ScopedNullifierUseOutcome : Type 0 where
  recorded duplicate : ScopedNullifierUseOutcome

abbrev pub use_outcome : Bool → ScopedNullifierUseOutcome
use_outcome true = recorded
use_outcome false = duplicate

abbrev pub is_recorded : ScopedNullifierUseOutcome → Bool
is_recorded recorded = true
is_recorded duplicate = false

module _ (sha256 : List ℕ → List ℕ) where
  unfoldable pub nullifier_row :
      NullifierDomainV1 → Text → VerifiedCallContext → ℕ → ScopedNullifierUse
  unfolding as_i64 domain_fingerprint commitment_fingerprint storage_hash resource_kind_text
  nullifier_row domain commitment context recorded_at = record {
    recorded_at = as_i64 recorded_at;
    domain_fingerprint = domain_fingerprint sha256 domain;
    commitment_fingerprint = commitment_fingerprint sha256 commitment;
    commitment_storage_hash = storage_hash sha256 commitment;
    context_id = context.context_id;
    operation = context.operation;
    resource_kind = resource_kind_text domain.resource_kind;
    domain_version = domain.domain_version;
  }

  unfoldable pub record_scoped_nullifier_use :
      Bool
      → NullifierDomainV1
      → Text
      → VerifiedCallContext
      → ℕ
      → List ScopedNullifierUse
      → Result SqlError ScopedNullifierUseOutcome × List ScopedNullifierUse
  unfolding insert_or_ignore nullifier_row same_nullifier_key
  record_scoped_nullifier_use fails domain commitment context recorded_at rows =
      let (after, affected) =
        insert_or_ignore same_nullifier_key (nullifier_row domain commitment context recorded_at)
          rows in
      if fails then (err sql_error, rows) else (ok (use_outcome affected), after)

  unfoldable pub is_use_of : NullifierDomainV1 → Text → ScopedNullifierUse → Bool
  unfolding domain_fingerprint storage_hash
  is_use_of domain commitment r =
      r.domain_fingerprint == domain_fingerprint sha256 domain
      && r.commitment_storage_hash == storage_hash sha256 commitment

  unfoldable pub scoped_nullifier_use_count :
      Bool → NullifierDomainV1 → Text → List ScopedNullifierUse → Result SqlError ℕ
  unfolding is_use_of
  scoped_nullifier_use_count fails domain commitment rows =
      if fails then err sql_error else ok (length (select (is_use_of domain commitment) rows))
