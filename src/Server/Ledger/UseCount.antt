-- ===== src/Server/Ledger/UseCount.antt =====
-- A nullifier is used at most once: what the count of server/src/ledger.rs reports.
use sec_s_magik.Base.{
  ℕ, ◌≤◌, Bool, true, false, List, [], ◌∷◌, Text, ok, ◌≡◌, ◌↔◌, refl, any, select, length, beq→eq,
  eq→beq, beq_refl, sym, ◌∙◌, Bool-ext, Bool-cases, inl, inr, list_eq, nat_eq, arith,
}
use sec_s_magik.Server.Context.{VerifiedCallContext}
use sec_s_magik.Server.Nullifier.{NullifierDomainV1, domain_fingerprint, storage_hash}
use sec_s_magik.Server.Ledger.Tables.{ScopedNullifierUse, same_nullifier_key, insert_or_ignore}
use sec_s_magik.Server.Ledger.Uniqueness.{IsUnique, insert_or_ignore-IsUnique}
use sec_s_magik.Server.Ledger.Nullifiers.{
  recorded, nullifier_row, record_scoped_nullifier_use, is_use_of, scoped_nullifier_use_count,
}

module _ (sha256 : List ℕ → List ℕ) where
  -- A recorded use keeps the key of the table unique.
  pub record_use-IsUnique :
      (fails : Bool) (d : NullifierDomainV1) (n : Text) (c : VerifiedCallContext) (at : ℕ)
      (rows : List ScopedNullifierUse)
      → IsUnique same_nullifier_key rows
      → IsUnique same_nullifier_key (record_scoped_nullifier_use sha256 fails d n c at rows).1
  unfolding record_scoped_nullifier_use
  record_use-IsUnique fails d n c at rows h =
      ground
        (arith, insert_or_ignore-IsUnique same_nullifier_key (nullifier_row sha256 d n c at) rows h)

  -- A row of the use is a row with the key of the new row.
  use_key :
      (d : NullifierDomainV1) (n : Text) (c : VerifiedCallContext) (at : ℕ) (r : ScopedNullifierUse)
      → same_nullifier_key (nullifier_row sha256 d n c at) r ≡ is_use_of sha256 d n r
  unfolding same_nullifier_key nullifier_row is_use_of
  use_key d n c at r = Bool-ext _ _ (
    (λ h. ground (
      arith,
      eq→beq r.domain_fingerprint _
          (sym (beq→eq (domain_fingerprint sha256 d) r.domain_fingerprint (ground arith))),
      eq→beq r.commitment_storage_hash _
          (sym (beq→eq (storage_hash sha256 n) r.commitment_storage_hash (ground arith))),
    )),
    λ h. ground (
      arith,
      eq→beq _ r.domain_fingerprint
          (sym (beq→eq r.domain_fingerprint (domain_fingerprint sha256 d) (ground arith))),
      eq→beq _ r.commitment_storage_hash
          (sym (beq→eq r.commitment_storage_hash (storage_hash sha256 n) (ground arith))),
    ),
  )

  any-use_key :
      (d : NullifierDomainV1) (n : Text) (c : VerifiedCallContext) (at : ℕ)
      (rows : List ScopedNullifierUse)
      → any (same_nullifier_key (nullifier_row sha256 d n c at)) rows
        ≡ any (is_use_of sha256 d n) rows
  any-use_key d n c at [] = refl
  any-use_key d n c at (r ∷ rows) = cc (use_key d n c at r, any-use_key d n c at rows)

  length-none :
      (d : NullifierDomainV1) (n : Text) (rows : List ScopedNullifierUse)
      → any (is_use_of sha256 d n) rows ≡ false
      → length (select (is_use_of sha256 d n) rows) ≡ 0
  length-none d n [] h = refl
  length-none d n (r ∷ rows) h = ground (arith, length-none d n rows)

  -- Two uses of one nullifier have the same key.
  same_use :
      (d : NullifierDomainV1) (n : Text) (r s : ScopedNullifierUse)
      → is_use_of sha256 d n r ≡ true
      → is_use_of sha256 d n s ≡ true
      → same_nullifier_key r s ≡ true
  unfolding same_nullifier_key is_use_of
  same_use d n r s h k = ground (
    arith,
    eq→beq r.domain_fingerprint s.domain_fingerprint (
        beq→eq r.domain_fingerprint (domain_fingerprint sha256 d) (ground arith)
        ∙ sym (beq→eq s.domain_fingerprint (domain_fingerprint sha256 d) (ground arith))),
    eq→beq r.commitment_storage_hash s.commitment_storage_hash (
        beq→eq r.commitment_storage_hash (storage_hash sha256 n) (ground arith)
        ∙ sym (beq→eq s.commitment_storage_hash (storage_hash sha256 n) (ground arith))),
  )

  other_uses :
      (d : NullifierDomainV1) (n : Text) (r : ScopedNullifierUse) (rows : List ScopedNullifierUse)
      → is_use_of sha256 d n r ≡ true
      → any (same_nullifier_key r) rows ≡ false
      → any (is_use_of sha256 d n) rows ≡ false
  other_uses d n r [] h k = refl
  other_uses d n r (s ∷ rows) h k = elim (Bool-cases (is_use_of sha256 d n s)) [
    | inl hit ↦ ground (arith, same_use d n r s h hit)
    | inr miss ↦ ground (arith, miss, other_uses d n r rows h (ground arith))
  ]

  pub use_count_bound :
      (d : NullifierDomainV1) (n : Text) (rows : List ScopedNullifierUse)
      → IsUnique same_nullifier_key rows
      → length (select (is_use_of sha256 d n) rows) ≤ 1
  unfolding IsUnique
  use_count_bound d n [] h = omega arith
  use_count_bound d n (r ∷ rows) h = elim (Bool-cases (is_use_of sha256 d n r)) [
    | inl hit ↦ ground (arith, hit, length-none d n rows (other_uses d n r rows hit h.0))
    | inr miss ↦ ground (arith, miss, use_count_bound d n rows h.1)
  ]

  any-none :
      (d : NullifierDomainV1) (n : Text) (rows : List ScopedNullifierUse)
      → length (select (is_use_of sha256 d n) rows) ≡ 0
      → any (is_use_of sha256 d n) rows ≡ false
  any-none d n [] h = refl
  any-none d n (r ∷ rows) h = ground (arith, any-none d n rows)

  new_row_use :
      (d : NullifierDomainV1) (n : Text) (c : VerifiedCallContext) (at : ℕ)
      → is_use_of sha256 d n (nullifier_row sha256 d n c at) ≡ true
  unfolding is_use_of nullifier_row
  new_row_use d n c at =
      ground (arith, beq_refl (domain_fingerprint sha256 d), beq_refl (storage_hash sha256 n))

  -- In a table whose key is unique, and where the statement does not fail, a use is recorded exactly
  -- when the count of the nullifier was zero, and the count is one afterwards in either case.
  pub record_use-count :
      (d : NullifierDomainV1) (n : Text) (c : VerifiedCallContext) (at : ℕ)
      (rows : List ScopedNullifierUse)
      → IsUnique same_nullifier_key rows
      → let (outcome, after) = record_scoped_nullifier_use sha256 false d n c at rows in
        (scoped_nullifier_use_count sha256 false d n after ≡ ok 1)
        × ((outcome ≡ ok recorded) ↔ (scoped_nullifier_use_count sha256 false d n rows ≡ ok 0))
  unfolding record_scoped_nullifier_use scoped_nullifier_use_count insert_or_ignore
  record_use-count d n c at rows h =
      let row = nullifier_row sha256 d n c at in
      let same = any-use_key d n c at rows in
      let fresh = new_row_use d n c at in
      elim (Bool-cases (any (is_use_of sha256 d n) rows)) [
        | inl hit ↦
            let positive = any-none d n rows in
            ground (arith, same, hit, use_count_bound d n rows h, positive)
        | inr miss ↦ ground (arith, same, miss, fresh, length-none d n rows miss)
      ]
