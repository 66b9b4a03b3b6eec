-- ===== src/Server/Nullifier.antt =====
-- Scoped nullifiers: server/src/nullifier.rs. SHA-256 and `str::trim` with `is_empty` are parameters.
mod Resource
pub mod Canonical
pub mod Binding
unfoldable pub use Resource.*
use sec_s_magik.Base.{
  ℕ, Bool, true, false, not, ◌&&◌, ◌||◌, List, [], ◌∷◌, ◌++◌, Option, none, some, Text, bytes,
  Result, ok, err, ◌>>=◌, ◌>>◌, deny, ok_or, ◌==◌, ◌!=◌, is_prefix, any, take, if◌then◌else◌,
  list_eq, option_eq, nat_eq, contains,
}
use sec_s_magik.Server.Text.{lower_hex, strip_prefix, contains_text, to_ascii_lowercase}
use sec_s_magik.Server.Context.{VerifiedCallContext}

unfoldable pub nullifier_domain_version : Text
nullifier_domain_version = bytes "nullifier-domain-v1"

pub data ResourceKind : Type 0 where
  directory file : ResourceKind

unfoldable pub resource_kind_text : ResourceKind → Text
resource_kind_text directory = bytes "directory"
resource_kind_text file = bytes "file"

-- `ResourceKind::for_context`
unfoldable pub for_context : VerifiedCallContext → Result NullifierReason ResourceKind
for_context context =
    if contains_text (bytes "file") context.operation
    then ok file
    else if contains_text (bytes "directory") context.operation
        || contains_text (bytes "dir") context.operation
    then ok directory
    else err unsupported_scope

-- `NullifierReason::as_str`
unfoldable pub reason_text : NullifierReason → Text
reason_text duplicate_nullifier = bytes "duplicate_nullifier"
reason_text domain_mismatch = bytes "nullifier_domain_mismatch"
reason_text missing_scoped_nullifier = bytes "missing_scoped_nullifier"
reason_text unsupported_scope = bytes "unsupported_nullifier_scope"

-- `evidence_value`
abbrev pub find_stripped : Text → List Text → Option Text
find_stripped start [] = none
find_stripped start (field ∷ fields) =
    let rest = find_stripped start fields in
    elim (strip_prefix start field) [ some value ↦ some value | none ↦ rest ]

unfoldable pub evidence_value : VerifiedCallContext → Text → Option Text
evidence_value context key = find_stripped (key ++ bytes ":") context.evidence_summary

pub record NullifierDomainV1Inputs : Type 0 where
  pub resource_kind : ResourceKind
  pub epoch_or_window : Text
  pub issuer_or_authority_source_id : Text
  pub root_or_checkpoint_id : Text
  pub subject_commitment : Text
  pub allowance_id : Option Text

pub record NullifierDomainV1 : Type 0 where
  pub domain_version : Text
  pub audience : Text
  pub operation : Text
  pub resource_kind : ResourceKind
  pub canonical_resource : Text
  pub epoch_or_window : Text
  pub issuer_or_authority_source_id : Text
  pub root_or_checkpoint_id : Text
  pub subject_commitment : Text
  pub allowance_id : Option Text

pub record ScopedNullifierEvidence : Type 0 where
  pub domain : NullifierDomainV1
  pub commitment : Text

abbrev pub text_or_empty : Option Text → Text
text_or_empty none = []
text_or_empty (some text) = text

unfoldable pub canonical_bytes : NullifierDomainV1 → Text
unfolding resource_kind_text
canonical_bytes d =
    bytes "v="
    ++ d.domain_version
    ++ bytes "|aud="
    ++ d.audience
    ++ bytes "|op="
    ++ d.operation
    ++ bytes "|kind="
    ++ resource_kind_text d.resource_kind
    ++ bytes "|res="
    ++ d.canonical_resource
    ++ bytes "|epoch="
    ++ d.epoch_or_window
    ++ bytes "|issuer="
    ++ d.issuer_or_authority_source_id
    ++ bytes "|root="
    ++ d.root_or_checkpoint_id
    ++ bytes "|subject="
    ++ d.subject_commitment
    ++ bytes "|allowance="
    ++ text_or_empty d.allowance_id

module _ (sha256 : List ℕ → List ℕ) where
  unfoldable pub redacted_fingerprint : Text → List ℕ → Text
  redacted_fingerprint label data_bytes = lower_hex (take 12 (sha256 (label ++ (0 ∷ data_bytes))))

  -- `NullifierDomainV1::fingerprint`, `NullifierCommitment::fingerprint` and `storage_hash`.
  unfoldable pub domain_fingerprint : NullifierDomainV1 → Text
  unfolding redacted_fingerprint canonical_bytes
  domain_fingerprint d = redacted_fingerprint (bytes "nullifier-domain") (canonical_bytes d)

  unfoldable pub commitment_fingerprint : Text → Text
  unfolding redacted_fingerprint
  commitment_fingerprint commitment = redacted_fingerprint (bytes "nullifier-commitment") commitment

  unfoldable pub storage_hash : Text → Text
  unfolding redacted_fingerprint
  storage_hash commitment = redacted_fingerprint (bytes "nullifier-commitment-storage") commitment

module _ (is_blank : Text → Bool) where
  unfoldable pub reject_empty : Text → Result NullifierReason (Unit {0})
  reject_empty value = deny (is_blank value) missing_scoped_nullifier

  unfoldable pub reject_subject_commitment : Text → Result NullifierReason (Unit {0})
  unfolding reject_empty
  reject_subject_commitment value =
      let lower = to_ascii_lowercase value in
      reject_empty value
      >> deny
          (is_prefix (bytes "wallet:") lower
            || is_prefix (bytes "holder:") lower
            || is_prefix (bytes "subject_id:") lower
            || is_prefix (bytes "credential_id:") lower)
          unsupported_scope

  -- `NullifierCommitment::new`
  unfoldable pub new_commitment : Text → Result NullifierReason Text
  new_commitment value =
      deny (is_blank value) missing_scoped_nullifier
      >> deny
          (is_prefix (bytes "global:") value
            || value == bytes "global"
            || value == bytes "domainless")
          unsupported_scope
      >> ok value

  abbrev pub reject_empty_option : Option Text → Result NullifierReason (Unit {0})
  unfolding reject_empty
  reject_empty_option none = ok tt
  reject_empty_option (some value) = reject_empty value

  unfoldable pub from_verified_context :
      VerifiedCallContext → NullifierDomainV1Inputs → Result NullifierReason NullifierDomainV1
  unfolding reject_empty reject_subject_commitment canonical_resource_id nullifier_domain_version
  from_verified_context context inputs =
      ok_or context.resource missing_scoped_nullifier >>= λ resource.
      reject_empty context.audience
      >> reject_empty context.operation
      >> reject_empty inputs.epoch_or_window
      >> reject_empty inputs.issuer_or_authority_source_id
      >> reject_empty inputs.root_or_checkpoint_id
      >> reject_subject_commitment inputs.subject_commitment
      >> reject_empty_option inputs.allowance_id
      >> canonical_resource_id is_blank resource
      >>= λ canonical. ok (record {
        domain_version = nullifier_domain_version;
        audience = context.audience;
        operation = context.operation;
        resource_kind = inputs.resource_kind;
        canonical_resource = canonical;
        epoch_or_window = inputs.epoch_or_window;
        issuer_or_authority_source_id = inputs.issuer_or_authority_source_id;
        root_or_checkpoint_id = inputs.root_or_checkpoint_id;
        subject_commitment = inputs.subject_commitment;
        allowance_id = inputs.allowance_id;
      })

abbrev is_global : Option Text → Bool
is_global scope = scope == some (bytes "global") || scope == some (bytes "domainless")

abbrev pub is_mismatch : Option Text → Text → Bool
is_mismatch none fingerprint = false
is_mismatch (some expected) fingerprint = expected != fingerprint

-- `ScopedNullifierEvidence::from_context`
unfoldable pub scoped_evidence :
    (List ℕ → List ℕ)
    → (Text → Bool)
    → VerifiedCallContext
    → Result NullifierReason ScopedNullifierEvidence
unfolding evidence_value new_commitment from_verified_context for_context domain_fingerprint
scoped_evidence sha256 is_blank context =
    deny (is_global (evidence_value context (bytes "nullifier_scope"))) unsupported_scope
    >> deny (not (contains context.evidence_summary (bytes "scoped_use_required")))
        missing_scoped_nullifier
    >> ok_or (evidence_value context (bytes "nullifier_commitment")) missing_scoped_nullifier
    >>= λ value. new_commitment is_blank value >>= λ commitment. for_context context >>= λ kind.
        ok_or (evidence_value context (bytes "nullifier_epoch")) missing_scoped_nullifier
        >>= λ epoch.
            ok_or (evidence_value context (bytes "nullifier_issuer")) missing_scoped_nullifier
            >>= λ issuer.
                ok_or (evidence_value context (bytes "nullifier_root")) missing_scoped_nullifier
                >>= λ root.
                    ok_or (evidence_value context (bytes "subject_commitment"))
                      missing_scoped_nullifier
                    >>= λ subject.
                        from_verified_context is_blank context (record {
                          resource_kind = kind;
                          epoch_or_window = epoch;
                          issuer_or_authority_source_id = issuer;
                          root_or_checkpoint_id = root;
                          subject_commitment = subject;
                          allowance_id = evidence_value context (bytes "allowance_id");
                        })
                        >>= λ domain.
                            deny
                              (is_mismatch
                                (evidence_value context (bytes "nullifier_domain_fingerprint"))
                                (domain_fingerprint sha256 domain))
                              domain_mismatch
                            >> ok (record { domain = domain; commitment = commitment })
