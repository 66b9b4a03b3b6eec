-- ===== src/Contract/Selector/Narrowing.antt =====
-- A selector that is `within` another selects no more than it: resource_selector.rs.
pub mod Order
use sec_s_magik.Base.{
  ◌≡◌, ◌≢◌, ◌↔◌, refl, ap, sym, ◌∙◌, ◌⊎◌, inl, inr, Bool, true, false, ◌&&◌, ◌||◌, not, List, [],
  ◌∷◌, Text, Result, ok, err, ◌>>=◌, ◌>>◌, deny, Option, none, some, ◌==◌, ◌!=◌, list_eq, nat_eq,
  contains, all, any, all-contains, any_witness, any-contains, all_intro, beq→eq, eq→beq, bne→eq,
  Bool-cases, &&-true, ||-false, >>=-eq-ok, deny-eq-ok, arith, if◌then◌else◌,
}
use sec_s_magik.Contract.{Refusal, check_text, unsupported_resource_relation}
use sec_s_magik.Contract.Selector.{
  ResourceRef, ref_eq, ResourceSnapshot, Hierarchy, Selection, everything, objects, descendants,
  ResourceSelector, hierarchy_within, guard_within, selection_within, within, validate,
  validate_ref, permits_roots, hierarchy_permits, guard_permits, selection_permits, permits,
}

-- What `hierarchy_within` compares.
pub record IsNarrower (child parent : Hierarchy) : Type 0 where
  pub relation : child.relation ≡ parent.relation
  pub self : child.include_self ≡ true → parent.include_self ≡ true
  pub roots :
      (root : ResourceRef) → contains child.roots root ≡ true → contains parent.roots root ≡ true

pub hierarchy_within→IsNarrower :
    (child parent : Hierarchy) → hierarchy_within child parent ≡ true → IsNarrower child parent
unfolding hierarchy_within
hierarchy_within→IsNarrower child parent w = record {
  relation = beq→eq child.relation parent.relation (ground arith);
  self = λ e. ground arith;
  roots = λ root.
      all-contains (λ (a : ResourceRef). contains parent.roots a) child.roots root (ground arith);
}

pub IsNarrower→hierarchy_within :
    (child parent : Hierarchy) → IsNarrower child parent → hierarchy_within child parent ≡ true
unfolding hierarchy_within
IsNarrower→hierarchy_within child parent n = ground (
  arith,
  eq→beq child.relation parent.relation n.relation,
  n.self,
  all_intro (λ root. contains parent.roots root) child.roots n.roots,
)

-- A snapshot that answers each question about one service: what is there, which relations it knows,
-- and, for those, what lies strictly below what.
pub record Answers (snapshot : ResourceSnapshot) (service : Text) : Type 0 where
  pub there : ResourceRef → Bool
  pub supports : Text → Bool
  pub below : Text → ResourceRef → ResourceRef → Bool
  pub exists_eq : (r : ResourceRef) → snapshot.exists service r ≡ ok (there r)
  pub supports_eq : (t : Text) → snapshot.supports_relation service t ≡ ok (supports t)
  pub below_eq :
      (t : Text) (r root : ResourceRef)
      → supports t ≡ true
      → snapshot.is_descendant service t r root ≡ ok (below t r root)

module _ (snapshot : ResourceSnapshot) (service : Text) (answers : Answers snapshot service) where
  open answers use {there, supports, below, exists_eq, supports_eq, below_eq}

  -- The resource is the root, where the hierarchy includes it, or lies below the root.
  abbrev pub under : Hierarchy → ResourceRef → ResourceRef → Bool
  under h r root = there root && (if r == root then h.include_self else below h.relation r root)

  permits_roots-any :
      (h : Hierarchy) (r : ResourceRef) (roots : List ResourceRef)
      → supports h.relation ≡ true
      → permits_roots snapshot h service r roots ≡ ok (any (under h r) roots)
  unfolding permits_roots
  permits_roots-any h r [] known = refl
  permits_roots-any h r (root ∷ rest) known =
      ground
        (arith, exists_eq root, below_eq h.relation r root known, permits_roots-any h r rest known)

  -- In a state that answers the questions about the service, a hierarchy of a known relation
  -- permits exactly what lies under one of its roots, and one of an unknown relation is refused.
  pub hierarchy_permits-any :
      (h : Hierarchy) (r : ResourceRef)
      → hierarchy_permits snapshot h service r ≡ (
          if supports h.relation
          then ok (any (under h r) h.roots)
          else err unsupported_resource_relation)
  unfolding hierarchy_permits
  hierarchy_permits-any h r = ground (arith, supports_eq h.relation, permits_roots-any h r h.roots)

  under_narrows :
      (child parent : Hierarchy) (r root : ResourceRef)
      → IsNarrower child parent
      → under child r root ≡ true
      → under parent r root ≡ true
  under_narrows child parent r root n h = ground (arith, n.relation, n.self)

  hierarchy_narrows :
      (child parent : Hierarchy) (r : ResourceRef)
      → IsNarrower child parent
      → hierarchy_permits snapshot child service r ≡ ok true
      → hierarchy_permits snapshot parent service r ≡ ok true
  hierarchy_narrows child parent r n h =
      let known : (if supports child.relation
            then ok (any (under child r) child.roots)
            else err unsupported_resource_relation)
          ≡ ok true =
        sym (hierarchy_permits-any child r) ∙ h in
      let (root, held, covers) = any_witness (under child r) child.roots (ground (arith, known)) in
      ground (
        arith,
        known,
        n.relation,
        hierarchy_permits-any parent r,
        any-contains (under parent r) parent.roots root (n.roots root held)
            (under_narrows child parent r root n covers),
      )

  guard_narrows :
      (child parent : Option Hierarchy) (r : ResourceRef)
      → guard_within child parent ≡ true
      → guard_permits snapshot child service r ≡ ok true
      → guard_permits snapshot parent service r ≡ ok true
  guard_narrows child none r w h = refl
  guard_narrows (some child) (some parent) r w h =
      hierarchy_narrows child parent r (hierarchy_within→IsNarrower child parent w) h
  guard_narrows none (some parent) r w h = cc

  pub selection_narrows :
      (child parent : Selection) (r : ResourceRef)
      → selection_within child parent ≡ true
      → selection_permits snapshot child service r ≡ ok true
      → selection_permits snapshot parent service r ≡ ok true
  unfolding selection_within selection_permits
  selection_narrows everything everything r w h = refl
  selection_narrows (objects refs guard) everything r w h = refl
  selection_narrows (descendants child) everything r w h = refl
  selection_narrows everything (objects refs guard) r w h = cc
  selection_narrows everything (descendants parent) r w h = cc
  selection_narrows (objects refs guard) (objects parent_refs parent_guard) r w h = ground (
    arith,
    all-contains (λ (a : ResourceRef). contains parent_refs a) refs r,
    guard_narrows guard parent_guard r,
  )
  selection_narrows (objects refs (some child)) (descendants parent) r w h =
      hierarchy_narrows child parent r (hierarchy_within→IsNarrower child parent w) (ground arith)
  selection_narrows (objects refs none) (descendants parent) r w h = cc
  selection_narrows (descendants child) (descendants parent) r w h =
      hierarchy_narrows child parent r (hierarchy_within→IsNarrower child parent w) h
  selection_narrows (descendants child) (objects refs guard) r w h = cc

-- What the answer `true` of `within` says.
pub record IsWithin (child parent : ResourceSelector) : Type 0 where
  pub child_valid : validate child ≡ ok tt
  pub parent_valid : validate parent ≡ ok tt
  pub service : child.service ≡ parent.service
  pub kinds : (k : Text) → contains child.kinds k ≡ true → contains parent.kinds k ≡ true
  pub selection : selection_within child.selection parent.selection ≡ true

pub within→IsWithin :
    (child parent : ResourceSelector) → within child parent ≡ ok true → IsWithin child parent
unfolding within
within→IsWithin child parent h = record {
  child_valid = ground arith;
  parent_valid = ground arith;
  service = bne→eq child.service parent.service (ground arith);
  kinds = λ k. all-contains (λ (a : Text). contains parent.kinds a) child.kinds k (ground arith);
  selection = ground arith;
}

pub IsWithin→within :
    (child parent : ResourceSelector) → IsWithin child parent → within child parent ≡ ok true
unfolding within
IsWithin→within child parent w = ground (
  arith,
  eq→beq child.service parent.service w.service,
  all_intro (λ (a : Text). contains parent.kinds a) child.kinds w.kinds,
)

-- A child selector that is `within` a parent permits no resource that the parent does not permit, in
-- any state that answers the questions about the service.
pub within_narrows :
    (snapshot : ResourceSnapshot) (service : Text)
    → Answers snapshot service
    → (child parent : ResourceSelector) (r : ResourceRef) → within child parent ≡ ok true
    → permits snapshot child service r ≡ ok true
    → permits snapshot parent service r ≡ ok true
unfolding permits
within_narrows snapshot service answers child parent r w h =
    let n = within→IsWithin child parent w in
    ground (
      arith,
      n.parent_valid,
      n.service,
      n.kinds r.kind,
      selection_narrows snapshot service answers child.selection parent.selection r n.selection,
    )
