-- ===== src/Contract/Selector.antt =====
-- Resource selectors: resource_selector.rs of the grant contract crate. The provider's state is an
-- interface, as the trait `ResourceSnapshot` is in the source.
pub mod Narrowing
pub mod Equality
use sec_s_magik.Base.{
  ℕ, Bool, true, false, ◌&&◌, ◌||◌, not, List, [], ◌∷◌, Text, Result, ok, err, ◌>>=◌, ◌>>◌, deny,
  each, each_after, Option, none, some, Eq, ◌==◌, ◌!=◌, list_eq, nat_eq, beq→eq, beq_refl, contains,
  all, any, length, is_empty, ltb, bytes, if◌then◌else◌, ◌≡◌, ◌↔◌, refl, &&-true, arith, ap,
}
use sec_s_magik.Contract.{
  Refusal, check_text, invalid_resource_selector, unsupported_resource_relation,
  wrong_selector_service,
}

pub record ResourceRef : Type 0 where
  pub kind : Text
  pub id : Text

abbrev pub ref_beq : ResourceRef → ResourceRef → Bool
ref_beq a b = a.kind == b.kind && a.id == b.id

pub ref_beq_iff : (a b : ResourceRef) → (ref_beq a b ≡ true) ↔ (a ≡ b)
ref_beq_iff a b = (
  λ h. cc (beq→eq a.kind b.kind (ground arith), beq→eq a.id b.id (ground arith)),
  λ e. ground (arith, beq_refl a.kind, beq_refl a.id, e),
)

instance abbrev pub ref_eq : Eq ResourceRef
ref_eq = record { beq = ref_beq; beq_iff = ref_beq_iff }

-- The provider's consistent current state.
pub record ResourceSnapshot : Type 0 where
  pub exists : Text → ResourceRef → Result Refusal Bool
  pub supports_relation : Text → Text → Result Refusal Bool
  pub is_descendant : Text → Text → ResourceRef → ResourceRef → Result Refusal Bool

-- `ResourceRef::validate`
unfoldable pub validate_ref : ResourceRef → Result Refusal (Unit {0})
validate_ref r = do check_text r.kind; check_text r.id

-- One step of the loop of `references`.
abbrev pub fresh_ref : List ResourceRef → ResourceRef → Result Refusal (Unit {0})
fresh_ref seen r = do validate_ref r; deny (contains seen r) invalid_resource_selector

unfoldable pub references : List ResourceRef → ℕ → Result Refusal (Unit {0})
references refs max = do
  deny (is_empty refs || ltb max (length refs)) invalid_resource_selector
  each_after fresh_ref [] refs

pub record Hierarchy : Type 0 where
  pub relation : Text
  pub roots : List ResourceRef
  pub include_self : Bool

unfoldable pub validate_hierarchy : Hierarchy → Result Refusal (Unit {0})
validate_hierarchy h = do check_text h.relation; references h.roots 16

-- `Hierarchy::within`
unfoldable pub hierarchy_within : Hierarchy → Hierarchy → Bool
hierarchy_within child parent =
    child.relation == parent.relation
    && (not child.include_self || parent.include_self)
    && all (λ root. contains parent.roots root) child.roots

module _ (snapshot : ResourceSnapshot) where
  -- The loop of `Hierarchy::permits` over the roots that are left.
  unfoldable pub permits_roots :
      Hierarchy → Text → ResourceRef → List ResourceRef → Result Refusal Bool
  permits_roots h service resource [] = ok false
  permits_roots h service resource (root ∷ rest) =
      let continue = permits_roots h service resource rest in
      do
        there ← snapshot.exists service root
        if not there
            then continue
            else if resource == root
            then (if h.include_self then ok true else continue)
            else do
              below ← snapshot.is_descendant service h.relation resource root
              if below then ok true else continue

  unfoldable pub hierarchy_permits : Hierarchy → Text → ResourceRef → Result Refusal Bool
  hierarchy_permits h service resource = do
    supported ← snapshot.supports_relation service h.relation
    deny (not supported) unsupported_resource_relation
    permits_roots h service resource h.roots

pub data Selection : Type 0 where
  everything : Selection
  objects : List ResourceRef → Option Hierarchy → Selection
  descendants : Hierarchy → Selection

pub record ResourceSelector : Type 0 where
  pub schema : Text
  pub service : Text
  pub kinds : List Text
  pub selection : Selection

abbrev pub selector_schema : Text
selector_schema = bytes "secs.resource-selector.v1"

abbrev pub fresh_kind : List Text → Text → Result Refusal (Unit {0})
fresh_kind seen kind = do check_text kind; deny (contains seen kind) invalid_resource_selector

abbrev validate_guard : Option Hierarchy → Result Refusal (Unit {0})
validate_guard none = ok tt
validate_guard (some guard) = validate_hierarchy guard

-- The match of `ResourceSelector::validate`.
unfoldable pub validate_selection : List Text → Selection → Result Refusal (Unit {0})
validate_selection kinds everything = ok tt
validate_selection kinds (objects refs guard) = do
  references refs 128
  deny (any (λ r. not (contains kinds r.kind)) refs) invalid_resource_selector
  validate_guard guard
validate_selection kinds (descendants hierarchy) = validate_hierarchy hierarchy

-- `ResourceSelector::validate`
unfoldable pub validate : ResourceSelector → Result Refusal (Unit {0})
validate s = do
  deny (s.schema != selector_schema || is_empty s.kinds || ltb 16 (length s.kinds))
      invalid_resource_selector
  check_text s.service
  each_after fresh_kind [] s.kinds
  validate_selection s.kinds s.selection

abbrev guard_within : Option Hierarchy → Option Hierarchy → Bool
guard_within _ none = true
guard_within (some child) (some parent) = hierarchy_within child parent
guard_within none (some parent) = false

-- The match of `ResourceSelector::within`.
unfoldable pub selection_within : Selection → Selection → Bool
unfolding hierarchy_within
selection_within everything everything = true
selection_within (objects refs guard) everything = true
selection_within (descendants child) everything = true
selection_within everything (objects refs guard) = false
selection_within everything (descendants parent) = false
selection_within (objects refs guard) (objects parent_refs parent_guard) =
    all (λ r. contains parent_refs r) refs && guard_within guard parent_guard
selection_within (objects refs (some child)) (descendants parent) = hierarchy_within child parent
selection_within (objects refs none) (descendants parent) = false
selection_within (descendants child) (descendants parent) = hierarchy_within child parent
selection_within (descendants child) (objects refs guard) = false

-- `ResourceSelector::within`
unfoldable pub within : ResourceSelector → ResourceSelector → Result Refusal Bool
within child parent = do
  validate child
  validate parent
  if child.service != parent.service || not (all (λ k. contains parent.kinds k) child.kinds)
      then ok false
      else ok (selection_within child.selection parent.selection)

module _ (snapshot : ResourceSnapshot) where
  abbrev guard_permits : Option Hierarchy → Text → ResourceRef → Result Refusal Bool
  guard_permits none service resource = ok true
  guard_permits (some guard) service resource = hierarchy_permits snapshot guard service resource

  -- The match of `ResourceSelector::permits`.
  unfoldable pub selection_permits : Selection → Text → ResourceRef → Result Refusal Bool
  selection_permits everything service resource = ok true
  selection_permits (objects refs guard) service resource =
      if not (contains refs resource) then ok false else guard_permits guard service resource
  selection_permits (descendants hierarchy) service resource =
      hierarchy_permits snapshot hierarchy service resource

  -- `ResourceSelector::permits`; `||` does not ask the snapshot about a kind that is not selected.
  unfoldable pub permits : ResourceSelector → Text → ResourceRef → Result Refusal Bool
  permits s expected_service resource = do
    validate s
    check_text expected_service
    validate_ref resource
    deny (s.service != expected_service) wrong_selector_service
    if not (contains s.kinds resource.kind) then ok false else do
      there ← snapshot.exists expected_service resource
      if not there then ok false else selection_permits s.selection expected_service resource
