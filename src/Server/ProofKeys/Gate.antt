-- ===== src/Server/ProofKeys/Gate.antt =====
-- What the gate of proof metadata lets through: server/src/proof_keys.rs.
use sec_s_magik.Base.{
  ℕ, ◌≤◌, Bool, true, false, not, ◌||◌, List, Option, some, Result, ok, ◌>>◌, deny, ok_or, ◌≡◌,
  ◌==◌, ◌!=◌, any, find, leb, ltb, >>=-eq-ok, deny-eq-ok, ok_or-eq-ok, ok_injective, bne→eq, beq→eq,
  &&-true, ||-false, find-some, none, ◌⊎◌, inl, inr, refl, ◌<◌, Has, any→Has, subst, sym, ap, ◌∙◌,
  list_eq, nat_eq, arith,
}
use sec_s_magik.Server.Context.{RequiredProofTier, metadata_bound, ObservedProofMetadata}
use sec_s_magik.Server.ProofKeys.{
  ProofKeyEntry, ProofKeyLifecycle, active, deprecated, revoked, ProofGateReason,
  ProofMetadataBinding, match_observed, evaluate_metadata, binding_of, is_metadata_bound, is_after,
  has_key_id, check_tier, check_lifecycle, proof_system_mismatch, proof_circuit_mismatch,
  proof_vk_fingerprint_mismatch, proof_public_input_schema_mismatch, unknown_verification_key,
  proof_key_not_yet_valid, proof_key_expired, proof_tier_below_policy,
  missing_proof_key_registry_entry,
}

tier_facts : (t : RequiredProofTier) {u : Unit {0}} → check_tier t ≡ ok u → t ≡ metadata_bound
tier_facts t h = ground arith

-- The observed metadata agrees with the entry.
pub record IsMatch (o : ObservedProofMetadata) (e : ProofKeyEntry) : Type 0 where
  pub vk_id : e.vk_id ≡ o.vk_id
  pub vk_version : e.vk_version ≡ o.vk_version
  pub proof_system : e.proof_system ≡ o.proof_system
  pub circuit_id : e.circuit_id ≡ o.circuit_id
  pub circuit_version : e.circuit_version ≡ o.circuit_version
  pub vk_fingerprint_algorithm : e.vk_fingerprint_algorithm ≡ o.vk_fingerprint_algorithm
  pub vk_fingerprint : e.vk_fingerprint ≡ o.vk_fingerprint
  pub public_input_schema_id : e.public_input_schema_id ≡ o.public_input_schema_id
  pub public_input_schema_hash_algorithm :
      e.public_input_schema_hash_algorithm ≡ o.public_input_schema_hash_algorithm
  pub public_input_schema_hash : e.public_input_schema_hash ≡ o.public_input_schema_hash

abbrev checks_of : ProofKeyEntry → ObservedProofMetadata → Result ProofGateReason (Unit {0})
checks_of e o =
    deny (e.proof_system != o.proof_system) proof_system_mismatch
    >> deny (e.circuit_id != o.circuit_id || e.circuit_version != o.circuit_version)
        proof_circuit_mismatch
    >> deny
        (e.vk_fingerprint_algorithm != o.vk_fingerprint_algorithm
          || e.vk_fingerprint != o.vk_fingerprint)
        proof_vk_fingerprint_mismatch
    >> deny
        (e.public_input_schema_id != o.public_input_schema_id
          || e.public_input_schema_hash_algorithm != o.public_input_schema_hash_algorithm
          || e.public_input_schema_hash != o.public_input_schema_hash)
        proof_public_input_schema_mismatch

checks_facts :
    (a b c d e f g h : Bool) {u : Unit {0}}
    → (deny a proof_system_mismatch
        >> deny (b || c) proof_circuit_mismatch
        >> deny (d || e) proof_vk_fingerprint_mismatch
        >> deny (f || g || h) proof_public_input_schema_mismatch)
      ≡ ok u
    → (a ≡ false)
      × (b ≡ false)
      × (c ≡ false)
      × (d ≡ false)
      × (e ≡ false)
      × (f ≡ false)
      × (g ≡ false)
      × (h ≡ false)
checks_facts a b c d e f g h passed = ground arith

checks-IsMatch :
    (e : ProofKeyEntry) (o : ObservedProofMetadata) {u : Unit {0}}
    → has_key_id o e ≡ true
    → checks_of e o ≡ ok u
    → IsMatch o e
checks-IsMatch e o key h =
    let (id, version) = &&-true (e.vk_id == o.vk_id) (e.vk_version == o.vk_version) key in
    let (a, b, c, d, f, g, i, j) = checks_facts _ _ _ _ _ _ _ _ h in
    record {
      vk_id = beq→eq e.vk_id o.vk_id id;
      vk_version = beq→eq e.vk_version o.vk_version version;
      proof_system = bne→eq e.proof_system o.proof_system a;
      circuit_id = bne→eq e.circuit_id o.circuit_id b;
      circuit_version = bne→eq e.circuit_version o.circuit_version c;
      vk_fingerprint_algorithm = bne→eq e.vk_fingerprint_algorithm o.vk_fingerprint_algorithm d;
      vk_fingerprint = bne→eq e.vk_fingerprint o.vk_fingerprint f;
      public_input_schema_id = bne→eq e.public_input_schema_id o.public_input_schema_id g;
      public_input_schema_hash_algorithm =
          bne→eq e.public_input_schema_hash_algorithm o.public_input_schema_hash_algorithm i;
      public_input_schema_hash = bne→eq e.public_input_schema_hash o.public_input_schema_hash j;
    }

pub match_observed-IsMatch :
    (entries : List ProofKeyEntry) (o : ObservedProofMetadata) (e : ProofKeyEntry)
    → match_observed entries o ≡ ok e
    → (find (has_key_id o) entries ≡ some e) × IsMatch o e
unfolding match_observed
match_observed-IsMatch entries o e h =
    let (f, found, h0) =
      >>=-eq-ok (ok_or (find (has_key_id o) entries) unknown_verification_key)
        (λ f. checks_of f o >> ok f) h in
    let (u1, h1, done) = >>=-eq-ok (checks_of f o) (λ _. ok f) h0 in
    let here = ok_or-eq-ok _ _ found in
    let matched = checks-IsMatch f o (find-some (has_key_id o) entries f here) h1 in
    (here ∙ ap some (ok_injective done), subst (IsMatch o) (ok_injective done) matched)

lifecycle_facts :
    (r : Bool) (l : ProofKeyLifecycle) {u : Unit {0}}
    → check_lifecycle r l ≡ ok u
    → (l ≡ active) ⊎ ((l ≡ deprecated) × (r ≡ false))
lifecycle_facts r revoked h = cc
lifecycle_facts r deprecated h = inr (refl, deny-eq-ok r _ h)
lifecycle_facts r active h = inl refl

over_facts :
    (last : Option ℕ) (now : ℕ)
    → is_after last (λ not_after. leb not_after now) ≡ false
    → (last ≡ none) ⊎ ((t : ℕ) × (last ≡ some t) × (now < t))
over_facts none now h = inl refl
over_facts (some t) now h = inr (t, refl, ground arith)

bound_tier : (t : RequiredProofTier) → is_metadata_bound t ≡ true → t ≡ metadata_bound
bound_tier t h = ground arith

-- Whether the entry may serve: its life, its window at the time, its tiers.
pub record IsUsable (now : ℕ) (require_active : Bool) (o : ObservedProofMetadata)
    (e : ProofKeyEntry) : Type 0 where
  pub lifecycle : (e.lifecycle ≡ active) ⊎ ((e.lifecycle ≡ deprecated) × (require_active ≡ false))
  pub started : e.not_before ≤ now
  pub not_over : (e.not_after ≡ none) ⊎ ((last : ℕ) × (e.not_after ≡ some last) × (now < last))
  pub observed_tier : o.observed_tier ≡ metadata_bound
  pub allowed_tier : Has (λ tier. tier ≡ metadata_bound) e.allowed_tiers

IsUsable-facts :
    (now : ℕ) (r : Bool) (o : ObservedProofMetadata) (e : ProofKeyEntry) {u : Unit {0}}
    → (check_lifecycle r e.lifecycle
        >> deny (ltb now e.not_before) proof_key_not_yet_valid
        >> deny (is_after e.not_after (λ not_after. leb not_after now)) proof_key_expired
        >> deny
            (not (is_metadata_bound o.observed_tier) || not (any is_metadata_bound e.allowed_tiers))
            proof_tier_below_policy)
      ≡ ok u
    → IsUsable now r o e
IsUsable-facts now r o e h =
    let (u1, h1, tiers) =
      >>=-eq-ok _
        (λ _.
          deny
            (not (is_metadata_bound o.observed_tier) || not (any is_metadata_bound e.allowed_tiers))
            proof_tier_below_policy)
        h in
    let (u2, h2, over) =
      >>=-eq-ok _
        (λ _. deny (is_after e.not_after (λ not_after. leb not_after now)) proof_key_expired) h1 in
    let (u3, life, start) =
      >>=-eq-ok (check_lifecycle r e.lifecycle)
        (λ _. deny (ltb now e.not_before) proof_key_not_yet_valid) h2 in
    let (t1, t2) =
      ||-false (not (is_metadata_bound o.observed_tier))
        (not (any is_metadata_bound e.allowed_tiers)) (deny-eq-ok _ _ tiers) in
    record {
      lifecycle = lifecycle_facts r e.lifecycle life;
      started = ground (arith, deny-eq-ok _ _ start);
      not_over = over_facts e.not_after now (deny-eq-ok _ _ over);
      observed_tier = bound_tier o.observed_tier (ground (arith, t1));
      allowed_tier = any→Has is_metadata_bound bound_tier e.allowed_tiers (ground (arith, t2));
    }

-- Metadata that the gate binds is required at the tier that it can check, was observed, and agrees in
-- every identifier and hash with the entry that the registry finds for its key; the entry is active,
-- or deprecated where no active key is required; the time is from its start and before its end, if
-- it has one; and the tier that was observed and one that the entry allows are the gate's.
pub evaluate_metadata-bound :
    (entries : List ProofKeyEntry) (now : ℕ) (observed : Option ObservedProofMetadata)
    (tier : RequiredProofTier) (require_active : Bool) (b : ProofMetadataBinding)
    → evaluate_metadata entries now observed tier require_active ≡ ok b
    → (o : ObservedProofMetadata) × (e : ProofKeyEntry) × (tier ≡ metadata_bound)
      × (observed ≡ some o)
      × (find (has_key_id o) entries ≡ some e)
      × IsMatch o e
      × IsUsable now require_active o e
      × (b ≡ binding_of e)
unfolding evaluate_metadata
evaluate_metadata-bound entries now observed tier require_active b h =
    let (o, h0, k0) =
      >>=-eq-ok (check_tier tier >> ok_or observed missing_proof_key_registry_entry) _ h in
    let (u, tiered, seen) =
      >>=-eq-ok (check_tier tier) (λ _. ok_or observed missing_proof_key_registry_entry) h0 in
    let (e, matched, k1) = >>=-eq-ok (match_observed entries o) _ k0 in
    let (v, usable, done) = >>=-eq-ok _ (λ _. ok (binding_of e)) k1 in
    let (found, agrees) = match_observed-IsMatch entries o e matched in
    (
      o,
      e,
      tier_facts tier tiered,
      ok_or-eq-ok _ _ seen,
      found,
      agrees,
      IsUsable-facts now require_active o e usable,
      sym (ok_injective done),
    )
