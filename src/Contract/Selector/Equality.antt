-- ===== src/Contract/Selector/Equality.antt =====
-- The derived equality of selectors: resource_selector.rs.
use sec_s_magik.Base.{
  Bool, true, false, ◌&&◌, Eq, ◌==◌, list_eq, option_eq, nat_eq, beq→eq, beq_refl, ◌≡◌, ◌↔◌, refl,
  arith,
}
use sec_s_magik.Contract.Selector.{
  ref_eq, Hierarchy, Selection, everything, objects, descendants, ResourceSelector,
}

abbrev bool_beq : Bool → Bool → Bool
bool_beq true b = b
bool_beq false true = false
bool_beq false false = true

bool_beq_iff : (a b : Bool) → (bool_beq a b ≡ true) ↔ (a ≡ b)
bool_beq_iff a b = ground arith

instance abbrev bool_eq : Eq Bool
bool_eq = record { beq = bool_beq; beq_iff = bool_beq_iff }

abbrev pub hierarchy_beq : Hierarchy → Hierarchy → Bool
hierarchy_beq a b =
    a.relation == b.relation && a.roots == b.roots && a.include_self == b.include_self

pub hierarchy_beq_iff : (a b : Hierarchy) → (hierarchy_beq a b ≡ true) ↔ (a ≡ b)
hierarchy_beq_iff a b = (
  λ h. cc (
    beq→eq a.relation b.relation (ground arith),
    beq→eq a.roots b.roots (ground arith),
    beq→eq a.include_self b.include_self (ground arith),
  ),
  λ p. ground (arith, beq_refl a.relation, beq_refl a.roots, beq_refl a.include_self, p),
)

instance abbrev pub hierarchy_eq : Eq Hierarchy
hierarchy_eq = record { beq = hierarchy_beq; beq_iff = hierarchy_beq_iff }

abbrev pub selection_beq : Selection → Selection → Bool
selection_beq everything everything = true
selection_beq (objects refs guard) (objects other guard') = refs == other && guard == guard'
selection_beq (descendants h) (descendants k) = h == k
selection_beq _ _ = false

selection_beq→eq : (a b : Selection) → selection_beq a b ≡ true → a ≡ b
selection_beq→eq everything everything h = refl
selection_beq→eq everything (objects refs guard) h = cc
selection_beq→eq everything (descendants k) h = cc
selection_beq→eq (objects refs guard) everything h = cc
selection_beq→eq (objects refs guard) (objects other guard') h =
    cc (beq→eq refs other (ground arith), beq→eq guard guard' (ground arith))
selection_beq→eq (objects refs guard) (descendants k) h = cc
selection_beq→eq (descendants g) everything h = cc
selection_beq→eq (descendants g) (objects refs guard) h = cc
selection_beq→eq (descendants g) (descendants k) h = cc (beq→eq g k h)

selection_beq_refl : (a : Selection) → selection_beq a a ≡ true
selection_beq_refl everything = refl
selection_beq_refl (objects refs guard) = ground (arith, beq_refl refs, beq_refl guard)
selection_beq_refl (descendants h) = beq_refl h

pub selection_beq_iff : (a b : Selection) → (selection_beq a b ≡ true) ↔ (a ≡ b)
selection_beq_iff a b = (selection_beq→eq a b, λ p. rw p (selection_beq_refl b))

instance abbrev pub selection_eq : Eq Selection
selection_eq = record { beq = selection_beq; beq_iff = selection_beq_iff }

abbrev pub selector_beq : ResourceSelector → ResourceSelector → Bool
selector_beq a b =
    a.schema == b.schema
    && a.service == b.service
    && a.kinds == b.kinds
    && a.selection == b.selection

pub selector_beq_iff : (a b : ResourceSelector) → (selector_beq a b ≡ true) ↔ (a ≡ b)
selector_beq_iff a b = (
  λ h. cc (
    beq→eq a.schema b.schema (ground arith),
    beq→eq a.service b.service (ground arith),
    beq→eq a.kinds b.kinds (ground arith),
    beq→eq a.selection b.selection (ground arith),
  ),
  λ p.
      ground
        (arith, beq_refl a.schema, beq_refl a.service, beq_refl a.kinds, beq_refl a.selection, p),
)

instance abbrev pub selector_eq : Eq ResourceSelector
selector_eq = record { beq = selector_beq; beq_iff = selector_beq_iff }
