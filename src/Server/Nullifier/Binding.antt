-- ===== src/Server/Nullifier/Binding.antt =====
-- What a scoped nullifier binds: `ScopedNullifierEvidence::from_context` of
-- server/src/nullifier.rs.
use sec_s_magik.Base.{
  ℕ, Bool, false, ◌||◌, List, Text, bytes, none, some, Option, ◌⊎◌, inl, inr, refl, subst, bne→eq,
  Result, ok, ok_or, deny, ◌≡◌, ◌>>◌, is_prefix, >>=-eq-ok, ok_or-eq-ok, deny-eq-ok, ok_injective,
  ap, sym, ◌∙◌, list_eq, nat_eq, arith,
}
use sec_s_magik.Server.Text.{to_ascii_lowercase}
use sec_s_magik.Server.Context.{VerifiedCallContext}
use sec_s_magik.Server.Nullifier.{
  NullifierReason, ResourceKind, NullifierDomainV1, NullifierDomainV1Inputs,
  ScopedNullifierEvidence, evidence_value, new_commitment, from_verified_context, scoped_evidence,
  canonical_resource_id, domain_fingerprint, nullifier_domain_version, for_context, reject_empty,
  reject_subject_commitment, reject_empty_option, is_mismatch, missing_scoped_nullifier,
  unsupported_scope,
}

-- The checks, over their tests.
checks_passed :
    (a b e f g s w x y z : Bool) (r : Result NullifierReason (Unit {0})) {u : Unit {0}}
    → (deny a missing_scoped_nullifier
        >> deny b missing_scoped_nullifier
        >> deny e missing_scoped_nullifier
        >> deny f missing_scoped_nullifier
        >> deny g missing_scoped_nullifier
        >> (deny s missing_scoped_nullifier >> deny (w || x || y || z) unsupported_scope)
        >> r)
      ≡ ok u
    → (a ≡ false)
      × (b ≡ false)
      × (e ≡ false)
      × (f ≡ false)
      × (g ≡ false)
      × (s ≡ false)
      × (w ≡ false)
      × (x ≡ false)
      × (y ≡ false)
      × (z ≡ false)
      × (r ≡ ok tt)
checks_passed a b e f g s w x y z r h = ground arith

mismatch_facts :
    (declared : Option Text) (fingerprint : Text)
    → is_mismatch declared fingerprint ≡ false
    → (declared ≡ none) ⊎ (declared ≡ some fingerprint)
mismatch_facts none fingerprint h = inl refl
mismatch_facts (some declared) fingerprint h = inr (ap some (bne→eq declared fingerprint h))

module _ (is_blank : Text → Bool) where
  abbrev pub IsPresent : Option Text → Type 0
  IsPresent o = (o ≡ none) ⊎ ((text : Text) × (o ≡ some text) × (is_blank text ≡ false))

  -- The texts that a domain takes from its context and from the evidence are not blank, and its
  -- subject names no wallet, holder, subject or credential.
  pub record IsScoped (d : NullifierDomainV1) : Type 0 where
    pub audience : is_blank d.audience ≡ false
    pub operation : is_blank d.operation ≡ false
    pub epoch_or_window : is_blank d.epoch_or_window ≡ false
    pub issuer_or_authority_source_id : is_blank d.issuer_or_authority_source_id ≡ false
    pub root_or_checkpoint_id : is_blank d.root_or_checkpoint_id ≡ false
    pub subject_commitment : is_blank d.subject_commitment ≡ false
    pub allowance_id : IsPresent d.allowance_id
    pub no_wallet : is_prefix (bytes "wallet:") (to_ascii_lowercase d.subject_commitment) ≡ false
    pub no_holder : is_prefix (bytes "holder:") (to_ascii_lowercase d.subject_commitment) ≡ false
    pub no_subject_id :
        is_prefix (bytes "subject_id:") (to_ascii_lowercase d.subject_commitment) ≡ false
    pub no_credential_id :
        is_prefix (bytes "credential_id:") (to_ascii_lowercase d.subject_commitment) ≡ false

  allowance_facts :
      (o : Option Text) {u : Unit {0}} → reject_empty_option is_blank o ≡ ok u → IsPresent o
  unfolding reject_empty
  allowance_facts none h = inl refl
  allowance_facts (some text) h = inr (text, refl, deny-eq-ok _ _ h)

  unfoldable pub domain_of :
      VerifiedCallContext → NullifierDomainV1Inputs → Text → NullifierDomainV1
  domain_of c i canonical = record {
    domain_version = nullifier_domain_version;
    audience = c.audience;
    operation = c.operation;
    resource_kind = i.resource_kind;
    canonical_resource = canonical;
    epoch_or_window = i.epoch_or_window;
    issuer_or_authority_source_id = i.issuer_or_authority_source_id;
    root_or_checkpoint_id = i.root_or_checkpoint_id;
    subject_commitment = i.subject_commitment;
    allowance_id = i.allowance_id;
  }

  domain_facts :
      (c : VerifiedCallContext) (i : NullifierDomainV1Inputs) (d : NullifierDomainV1)
      → from_verified_context is_blank c i ≡ ok d
      → (resource canonical : Text) × (c.resource ≡ some resource)
        × (canonical_resource_id is_blank resource ≡ ok canonical)
        × (d ≡ domain_of c i canonical)
        × IsScoped (domain_of c i canonical)
  unfolding from_verified_context reject_empty reject_subject_commitment domain_of
  domain_facts c i d h =
      let (resource, present, h0) = >>=-eq-ok (ok_or c.resource _) _ h in
      let checks =
        reject_empty is_blank c.audience
        >> reject_empty is_blank c.operation
        >> reject_empty is_blank i.epoch_or_window
        >> reject_empty is_blank i.issuer_or_authority_source_id
        >> reject_empty is_blank i.root_or_checkpoint_id
        >> reject_subject_commitment is_blank i.subject_commitment
        >> reject_empty_option is_blank i.allowance_id in
      let (canonical, h1, h2) =
        >>=-eq-ok (checks >> canonical_resource_id is_blank resource)
          (λ canonical. ok (domain_of c i canonical)) h0 in
      let (u, h3, good) = >>=-eq-ok checks (λ done. canonical_resource_id is_blank resource) h1 in
      let (a, b, e, f, g, s, w, x, y, z, allowed) =
        checks_passed _ _ _ _ _ _ _ _ _ _ (reject_empty_option is_blank i.allowance_id) h3 in
      (
        resource,
        canonical,
        ok_or-eq-ok c.resource _ present,
        good,
        cc h2,
        record {
          audience = a;
          operation = b;
          epoch_or_window = e;
          issuer_or_authority_source_id = f;
          root_or_checkpoint_id = g;
          subject_commitment = s;
          allowance_id = allowance_facts i.allowance_id allowed;
          no_wallet = w;
          no_holder = x;
          no_subject_id = y;
          no_credential_id = z;
        },
      )

module _ (sha256 : List ℕ → List ℕ) (is_blank : Text → Bool) where
  -- The evidence is made of the context and of what the context's evidence fields name.
  pub record IsBoundTo (c : VerifiedCallContext) (e : ScopedNullifierEvidence) : Type 0 where
    pub resource :
        (resource : Text) × (c.resource ≡ some resource)
        × (canonical_resource_id is_blank resource ≡ ok e.domain.canonical_resource)
    pub audience : e.domain.audience ≡ c.audience
    pub operation : e.domain.operation ≡ c.operation
    pub resource_kind : for_context c ≡ ok e.domain.resource_kind
    pub epoch : evidence_value c (bytes "nullifier_epoch") ≡ some e.domain.epoch_or_window
    pub issuer :
        evidence_value c (bytes "nullifier_issuer") ≡ some e.domain.issuer_or_authority_source_id
    pub root : evidence_value c (bytes "nullifier_root") ≡ some e.domain.root_or_checkpoint_id
    pub subject : evidence_value c (bytes "subject_commitment") ≡ some e.domain.subject_commitment
    pub allowance : evidence_value c (bytes "allowance_id") ≡ e.domain.allowance_id
    pub scoped : IsScoped is_blank e.domain
    pub commitment : evidence_value c (bytes "nullifier_commitment") ≡ some e.commitment
    pub fingerprint :
        (evidence_value c (bytes "nullifier_domain_fingerprint") ≡ none)
        ⊎ (evidence_value c (bytes "nullifier_domain_fingerprint")
            ≡ some (domain_fingerprint sha256 e.domain))

  -- The inputs that the evidence fields of the context give.
  abbrev inputs_of :
      VerifiedCallContext
      → ResourceKind
      → (epoch issuer root subject : Text) → NullifierDomainV1Inputs
  inputs_of c kind epoch issuer root subject = record {
    resource_kind = kind;
    epoch_or_window = epoch;
    issuer_or_authority_source_id = issuer;
    root_or_checkpoint_id = root;
    subject_commitment = subject;
    allowance_id = evidence_value c (bytes "allowance_id");
  }

  evidence_facts :
      (c : VerifiedCallContext) (kind : ResourceKind) (epoch issuer root subject : Text)
      (d : NullifierDomainV1) (n : Text) (e : ScopedNullifierEvidence)
      → from_verified_context is_blank c (inputs_of c kind epoch issuer root subject) ≡ ok d
      → for_context c ≡ ok kind
      → evidence_value c (bytes "nullifier_epoch") ≡ some epoch
      → evidence_value c (bytes "nullifier_issuer") ≡ some issuer
      → evidence_value c (bytes "nullifier_root") ≡ some root
      → evidence_value c (bytes "subject_commitment") ≡ some subject
      → evidence_value c (bytes "nullifier_commitment") ≡ some n
      → is_mismatch
          (evidence_value c (bytes "nullifier_domain_fingerprint"))
          (domain_fingerprint sha256 d)
        ≡ false
      → record { domain = d; commitment = n } ≡ e
      → IsBoundTo c e
  unfolding domain_of
  evidence_facts c kind epoch issuer root subject d n e made kinds e1 e2 e3 e4 named matched same =
      let (resource, canonical, present, good, form, scoped) =
        domain_facts is_blank c (inputs_of c kind epoch issuer root subject) d made in
      rw (sym same) (record {
        resource = (resource, present, good ∙ ap (λ d. ok d.canonical_resource) (sym form));
        audience = ap (λ d. d.audience) form;
        operation = ap (λ d. d.operation) form;
        resource_kind = kinds ∙ ap (λ d. ok d.resource_kind) (sym form);
        epoch = e1 ∙ ap (λ d. some d.epoch_or_window) (sym form);
        issuer = e2 ∙ ap (λ d. some d.issuer_or_authority_source_id) (sym form);
        root = e3 ∙ ap (λ d. some d.root_or_checkpoint_id) (sym form);
        subject = e4 ∙ ap (λ d. some d.subject_commitment) (sym form);
        allowance = ap (λ d. d.allowance_id) (sym form);
        scoped = subst (IsScoped is_blank) (sym form) scoped;
        commitment = named;
        fingerprint = mismatch_facts _ _ matched;
      })

-- Evidence that is accepted is bound to its context: the domain has the context's audience, operation
-- and canonical resource, the kind that its operation names, and the epoch, issuer, root, subject
-- and allowance of its evidence fields; of these texts none but the canonical resource may be blank
-- (an allowance may be missing), and the subject is not a raw identity; the commitment is the one
-- that the evidence names, and the fingerprint that the evidence declares, if it does, is that of
-- the domain.
pub scoped_evidence_bound :
    (sha256 : List ℕ → List ℕ) (is_blank : Text → Bool) (c : VerifiedCallContext)
    (e : ScopedNullifierEvidence)
    → scoped_evidence sha256 is_blank c ≡ ok e
    → IsBoundTo sha256 is_blank c e
unfolding scoped_evidence domain_of new_commitment
scoped_evidence_bound sha256 is_blank c e h =
    let found = ok_or (evidence_value c (bytes "nullifier_commitment")) missing_scoped_nullifier in
    let (value, h0, k0) = >>=-eq-ok (_ >> found) _ h in
    let (u0, h1, named) = >>=-eq-ok _ (λ done. found) h0 in
    let (commitment, fresh, k1) = >>=-eq-ok (new_commitment is_blank value) _ k0 in
    let (kind, kind_found, k2) = >>=-eq-ok (for_context c) _ k1 in
    let (epoch, e1, k3) = >>=-eq-ok (ok_or (evidence_value c (bytes "nullifier_epoch")) _) _ k2 in
    let (issuer, e2, k4) = >>=-eq-ok (ok_or (evidence_value c (bytes "nullifier_issuer")) _) _ k3 in
    let (root, e3, k5) = >>=-eq-ok (ok_or (evidence_value c (bytes "nullifier_root")) _) _ k4 in
    let (subject, e4, k6) =
      >>=-eq-ok (ok_or (evidence_value c (bytes "subject_commitment")) _) _ k5 in
    let (domain, made, k7) = >>=-eq-ok (from_verified_context is_blank c _) _ k6 in
    let (u1, matched, done) =
      >>=-eq-ok
        (deny
          (is_mismatch (evidence_value c (bytes "nullifier_domain_fingerprint"))
            (domain_fingerprint sha256 domain))
          _)
        _ k7 in
    let (u2, fresh_checks, kept) = >>=-eq-ok _ (λ done. ok value) fresh in
    evidence_facts sha256 is_blank c kind epoch issuer root subject domain commitment e made
      kind_found (ok_or-eq-ok _ _ e1) (ok_or-eq-ok _ _ e2) (ok_or-eq-ok _ _ e3) (ok_or-eq-ok _ _ e4)
      (ok_or-eq-ok _ _ named ∙ ap some (ok_injective kept)) (deny-eq-ok _ _ matched)
      (ok_injective done)
