-- ===== src/Examples/Stores.antt =====
-- The theorems on the ledger, nullifiers, proof keys and the privacy scan, at small values.
use sec_s_magik.Base.{
  ℕ, true, false, List, [], ◌∷◌, ◌++◌, none, some, Text, bytes, ok, ◌≡◌, ◌↔◌, ◌⊎◌, refl, is_empty,
  find, drop, All,
}
use sec_s_magik.Contract.Json.{Json, string, object, end, field}
use sec_s_magik.Server.Text.{join}
use sec_s_magik.Server.Context.{VerifiedCallContext, metadata_bound, ObservedProofMetadata}
use sec_s_magik.Server.Nullifier.{
  NullifierDomainV1, ScopedNullifierEvidence, file, canonical_resource_id, canonical_path, resolve,
  resolve_part, scoped_evidence, evidence_value, new_commitment, for_context, from_verified_context,
  reject_empty, reject_subject_commitment, nullifier_domain_version, domain_fingerprint,
  redacted_fingerprint, canonical_bytes, resource_kind_text,
}
use sec_s_magik.Server.Nullifier.Canonical.{IsPlain, canonical_resource_id_normal}
use sec_s_magik.Server.Nullifier.Binding.{IsBoundTo, scoped_evidence_bound}
use sec_s_magik.Server.Ledger.Tables.{same_nullifier_key}
use sec_s_magik.Server.Ledger.Uniqueness.{IsUnique}
use sec_s_magik.Server.Ledger.Nullifiers.{
  recorded, record_scoped_nullifier_use, scoped_nullifier_use_count,
}
use sec_s_magik.Server.Ledger.UseCount.{record_use-count}
use sec_s_magik.Server.Ledger.Devgraph.{DevgraphAuthorityReplayBindingV1}
use sec_s_magik.Server.Privacy.{log, default_i02, scan_value}
use sec_s_magik.Server.Privacy.Names.{names_of, texts_of, is_clean, scan_value_passes}
use sec_s_magik.Server.ProofKeys.{
  ProofKeyEntry, active, has_key_id, evaluate_metadata, match_observed, binding_of,
}
use sec_s_magik.Server.ProofKeys.Gate.{IsMatch, IsUsable, evaluate_metadata-bound}
use sec_s_magik.Examples.Gateway.{context}

abbrev binding : DevgraphAuthorityReplayBindingV1
binding = record {
  actor_id = bytes "a";
  audience = bytes "b";
  expires_at = 1200;
  idempotency_key_digest_sha256 = bytes "c";
  issued_at = 900;
  nonce = 1 ∷ [];
  operation = bytes "o";
  replay_scope = bytes "s";
  receiver_policy_id = bytes "p";
  receiver_policy_version = 1;
  receiver_policy_digest_sha256 = bytes "d";
  request_digest_sha256 = bytes "e";
  resource = bytes "r";
  secs_context_id = bytes "x";
  secs_verifier_key_id = bytes "v";
  session_id = 2 ∷ [];
  wallet_presentation_digest_sha256 = bytes "w";
}

abbrev other_binding : DevgraphAuthorityReplayBindingV1
other_binding = record binding { resource = bytes "z" }

canonical : canonical_resource_id is_empty (bytes "file:///a/./x/../b") ≡ ok (bytes "file:///a/b")
unfolding canonical_resource_id canonical_path resolve resolve_part
canonical = refl

canonical_resource_id_normal_example :
    (parts : List Text) × All IsPlain parts
    × ((bytes "file:///a/b" ≡ bytes "file://" ++ join 47 parts)
        ⊎ (bytes "file:///a/b" ≡ bytes "file:///" ++ join 47 parts))
    × ((canonical_resource_id is_empty (bytes "file:///a/b") ≡ ok (bytes "file:///a/b"))
        ⊎ (is_empty (drop 7 (bytes "file:///a/b")) ≡ true))
canonical_resource_id_normal_example =
    canonical_resource_id_normal is_empty (bytes "file:///a/./x/../b") (bytes "file:///a/b")
      canonical

abbrev one_byte : List ℕ → List ℕ
one_byte data_bytes = 171 ∷ []

abbrev scoped_context : VerifiedCallContext
scoped_context = record context {
  operation = bytes "file.write";
  resource = some (bytes "file:///a/b");
  evidence_summary =
      bytes "scoped_use_required"
      ∷ bytes "nullifier_commitment:n1"
      ∷ bytes "nullifier_epoch:e"
      ∷ bytes "nullifier_issuer:i"
      ∷ bytes "nullifier_root:t"
      ∷ bytes "subject_commitment:c"
      ∷ [];
}

abbrev domain : NullifierDomainV1
domain = record {
  domain_version = bytes "nullifier-domain-v1";
  audience = bytes "here";
  operation = bytes "file.write";
  resource_kind = file;
  canonical_resource = bytes "file:///a/b";
  epoch_or_window = bytes "e";
  issuer_or_authority_source_id = bytes "i";
  root_or_checkpoint_id = bytes "t";
  subject_commitment = bytes "c";
  allowance_id = none;
}

abbrev evidence : ScopedNullifierEvidence
evidence = record { domain = domain; commitment = bytes "n1" }

is_evidence : scoped_evidence one_byte is_empty scoped_context ≡ ok evidence
unfolding scoped_evidence evidence_value new_commitment for_context from_verified_context
    reject_empty reject_subject_commitment canonical_resource_id canonical_path resolve resolve_part
    nullifier_domain_version domain_fingerprint redacted_fingerprint canonical_bytes
    resource_kind_text
is_evidence = refl

scoped_evidence_bound_example : IsBoundTo one_byte is_empty scoped_context evidence
scoped_evidence_bound_example =
    scoped_evidence_bound one_byte is_empty scoped_context evidence is_evidence

no_uses : IsUnique same_nullifier_key []
unfolding IsUnique
no_uses = tt

record_use-count_example :
    let (outcome, after) =
      record_scoped_nullifier_use one_byte false domain (bytes "n1") scoped_context 1000 [] in
    (scoped_nullifier_use_count one_byte false domain (bytes "n1") after ≡ ok 1)
    × ((outcome ≡ ok recorded)
        ↔ (scoped_nullifier_use_count one_byte false domain (bytes "n1") [] ≡ ok 0))
record_use-count_example =
    record_use-count one_byte domain (bytes "n1") scoped_context 1000 [] no_uses

abbrev page : Json
page = object (field (bytes "holder_sha256") (string (bytes "note: ok")) end)

scan_value_passes_example :
    (scan_value log default_i02 page ≡ ok tt)
    ↔ (is_clean log default_i02 (names_of page) (texts_of page) ≡ true)
scan_value_passes_example = scan_value_passes log default_i02 page

abbrev observed : ObservedProofMetadata
observed = record {
  vk_id = bytes "k";
  vk_version = 1;
  proof_system = bytes "s";
  circuit_id = bytes "c";
  circuit_version = 2;
  vk_fingerprint_algorithm = bytes "sha256";
  vk_fingerprint = bytes "f";
  public_input_schema_id = bytes "i";
  public_input_schema_hash_algorithm = bytes "sha256";
  public_input_schema_hash = bytes "h";
  observed_tier = metadata_bound;
  adapter_claim_label = none;
}

abbrev entry : ProofKeyEntry
entry = record {
  vk_id = bytes "k";
  vk_version = 1;
  proof_system = bytes "s";
  circuit_id = bytes "c";
  circuit_version = 2;
  vk_fingerprint_algorithm = bytes "sha256";
  vk_fingerprint = bytes "f";
  public_input_schema_id = bytes "i";
  public_input_schema_hash_algorithm = bytes "sha256";
  public_input_schema_hash = bytes "h";
  lifecycle = active;
  not_before = 10;
  not_after = some 20;
  allowed_tiers = metadata_bound ∷ [];
  supersedes = none;
  deprecated_historical_only = false;
  claim_label = bytes "proof_metadata_bound";
}

gate_passes :
    evaluate_metadata (entry ∷ []) 15 (some observed) metadata_bound true ≡ ok (binding_of entry)
unfolding evaluate_metadata match_observed
gate_passes = refl

evaluate_metadata-bound_example :
    (o : ObservedProofMetadata) × (e : ProofKeyEntry) × (metadata_bound ≡ metadata_bound)
    × (some observed ≡ some o)
    × (find (has_key_id o) (entry ∷ []) ≡ some e)
    × IsMatch o e
    × IsUsable 15 true o e
    × (binding_of entry ≡ binding_of e)
evaluate_metadata-bound_example =
    evaluate_metadata-bound (entry ∷ []) 15 (some observed) metadata_bound true (binding_of entry)
      gate_passes
