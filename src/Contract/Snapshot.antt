-- ===== src/Contract/Snapshot.antt =====
-- The provider's bounded snapshot: provider_snapshot.rs of the grant contract crate.
use sec_s_magik.Base.{
  ◌≡◌, ◌≢◌, refl, Bool, true, false, ◌&&◌, ◌||◌, not, List, [], ◌∷◌, Text, Result, ok, ◌>>=◌, ◌>>◌,
  deny, each_after, Option, none, some, ◌==◌, ◌!=◌, list_eq, nat_eq, contains, any, find, length,
  ltb, arith, beq_refl, beq→eq, Bool-cases, Option-cases, inl, inr, >>=-eq-ok,
}
use sec_s_magik.Contract.{
  Refusal, check_text, invalid_provider_snapshot, wrong_snapshot_service,
  unsupported_resource_relation,
}
use sec_s_magik.Contract.Selector.{ResourceRef, ref_eq, ResourceSnapshot}
use sec_s_magik.Contract.Selector.Narrowing.{Answers}

pub record ResourceWitness : Type 0 where
  pub resource : ResourceRef
  pub ancestors : List ResourceRef

pub record ProviderSnapshot : Type 0 where
  pub service : Text
  pub relation : Text
  pub resources : List ResourceWitness

-- The inner loop of `ProviderSnapshot::validate`: one ancestor of a witness.
abbrev pub check_ancestor :
    ResourceWitness → List ResourceRef → ResourceRef → Result Refusal (Unit {0})
check_ancestor w seen a = do
  check_text a.kind
  check_text a.id
  deny (a == w.resource || contains seen a) invalid_provider_snapshot

-- The outer loop: one witness.
abbrev pub check_witness : List ResourceWitness → ResourceWitness → Result Refusal (Unit {0})
check_witness seen w = do
  check_text w.resource.kind
  check_text w.resource.id
  deny (any (λ x. x.resource == w.resource) seen || ltb 32 (length w.ancestors))
      invalid_provider_snapshot
  each_after (check_ancestor w) [] w.ancestors

unfoldable pub validate_snapshot : ProviderSnapshot → Result Refusal (Unit {0})
validate_snapshot p = do
  check_text p.service
  check_text p.relation
  deny (ltb 256 (length p.resources)) invalid_provider_snapshot
  each_after check_witness [] p.resources

abbrev pub witness_of : ProviderSnapshot → ResourceRef → Option ResourceWitness
witness_of p r = find (λ w. w.resource == r) p.resources

unfoldable pub exists : ProviderSnapshot → Text → ResourceRef → Result Refusal Bool
exists p service r = do
  validate_snapshot p
  deny (service != p.service) wrong_snapshot_service
  ok (any (λ w. w.resource == r) p.resources)

unfoldable pub supports_relation : ProviderSnapshot → Text → Text → Result Refusal Bool
supports_relation p service relation = do
  validate_snapshot p
  ok (service == p.service && relation == p.relation)

abbrev is_some_and : Option ResourceWitness → (ResourceWitness → Bool) → Bool
is_some_and none f = false
is_some_and (some w) f = f w

unfoldable pub is_descendant :
    ProviderSnapshot → Text → Text → ResourceRef → ResourceRef → Result Refusal Bool
is_descendant p service relation r root = do
  supported ← supports_relation p service relation
  deny (not supported) unsupported_resource_relation
  ok (is_some_and (witness_of p r) (λ w. contains w.ancestors root))

-- The implementation of the trait.
abbrev pub provider : ProviderSnapshot → ResourceSnapshot
provider p = record {
  exists = exists p;
  supports_relation = supports_relation p;
  is_descendant = is_descendant p;
}

-- A valid snapshot answers every question about its own service.
pub provider-Answers :
    (p : ProviderSnapshot) → validate_snapshot p ≡ ok tt → Answers (provider p) p.service
unfolding exists supports_relation is_descendant
provider-Answers p v = record {
  there = λ r. any (λ w. w.resource == r) p.resources;
  supports = λ relation. relation == p.relation;
  below = λ relation r root. is_some_and (witness_of p r) (λ w. contains w.ancestors root);
  exists_eq = λ r. ground (arith, v, beq_refl p.service);
  supports_eq = λ relation. ground (arith, v, beq_refl p.service);
  below_eq = λ relation r root known. ground (arith, v, known, beq_refl p.service);
}

no_self_ancestor :
    (w : ResourceWitness) (seen xs : List ResourceRef)
    → each_after (check_ancestor w) seen xs ≡ ok tt
    → contains xs w.resource ≡ false
no_self_ancestor w seen [] h = refl
no_self_ancestor w seen (x ∷ xs) h =
    let (u, here, later) =
      >>=-eq-ok (check_ancestor w seen x) (λ _. each_after (check_ancestor w) (x ∷ seen) xs) h in
    ground (arith, here, no_self_ancestor w (x ∷ seen) xs later)

found_not_self :
    (seen ws : List ResourceWitness) (r : ResourceRef) (w : ResourceWitness)
    → each_after check_witness seen ws ≡ ok tt
    → find (λ x. x.resource == r) ws ≡ some w
    → contains w.ancestors r ≡ false
found_not_self seen [] r w h f = cc
found_not_self seen (x ∷ ws) r w h f =
    let (u, here, later) =
      >>=-eq-ok (check_witness seen x) (λ _. each_after check_witness (x ∷ seen) ws) h in
    elim (Bool-cases (x.resource == r)) [
      | inl hit ↦ ground (
        arith,
        hit,
        here,
        beq→eq x.resource r hit,
        no_self_ancestor x [] x.ancestors (ground (arith, here)),
      )
      | inr miss ↦ found_not_self (x ∷ seen) ws r w later (ground (arith, miss))
    ]

-- No snapshot answers that a resource lies below itself, for any service and relation.
pub descendant_irreflexive :
    (p : ProviderSnapshot) (service relation : Text) (r : ResourceRef)
    → is_descendant p service relation r r ≢ ok true
unfolding is_descendant supports_relation validate_snapshot
descendant_irreflexive p service relation r h = elim (Option-cases (witness_of p r)) [
  | inl e ↦ ground (arith, e)
  | inr (w, e) ↦ ground (arith, e, found_not_self [] p.resources r w (ground (arith, e)) e)
]
