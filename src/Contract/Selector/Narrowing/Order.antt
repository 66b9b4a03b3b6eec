-- ===== src/Contract/Selector/Narrowing/Order.antt =====
-- `within` orders the valid selectors: resource_selector.rs.
use sec_s_magik.Base.{
  ◌≡◌, refl, ◌∙◌, true, Option, none, some, List, ok, contains, all, all-contains, all_intro, arith,
}
use sec_s_magik.Contract.Selector.{
  ResourceRef, ref_eq, Hierarchy, Selection, everything, objects, descendants, ResourceSelector,
  hierarchy_within, guard_within, selection_within, within, validate,
}
use sec_s_magik.Contract.Selector.Narrowing.{
  hierarchy_within→IsNarrower, IsNarrower→hierarchy_within, within→IsWithin, IsWithin→within,
}

hierarchy_within_refl : (h : Hierarchy) → hierarchy_within h h ≡ true
hierarchy_within_refl h =
    IsNarrower→hierarchy_within h h (record { relation = refl; self = λ e. e; roots = λ root m. m })

hierarchy_within_trans :
    (a b c : Hierarchy)
    → hierarchy_within a b ≡ true
    → hierarchy_within b c ≡ true
    → hierarchy_within a c ≡ true
hierarchy_within_trans a b c h k =
    let n = hierarchy_within→IsNarrower a b h in
    let m = hierarchy_within→IsNarrower b c k in
    IsNarrower→hierarchy_within a c (record {
      relation = n.relation ∙ m.relation;
      self = λ e. m.self (n.self e);
      roots = λ root r. m.roots root (n.roots root r);
    })

guard_within_refl : (g : Option Hierarchy) → guard_within g g ≡ true
guard_within_refl none = refl
guard_within_refl (some h) = hierarchy_within_refl h

guard_within_trans :
    (a b c : Option Hierarchy)
    → guard_within a b ≡ true
    → guard_within b c ≡ true
    → guard_within a c ≡ true
guard_within_trans a b none h k = refl
guard_within_trans none none (some c) h k = cc
guard_within_trans none (some b) (some c) h k = cc
guard_within_trans (some a) none (some c) h k = cc
guard_within_trans (some a) (some b) (some c) h k = hierarchy_within_trans a b c h k

all-contains_refl : (refs : List ResourceRef) → all (λ r. contains refs r) refs ≡ true
all-contains_refl refs = all_intro (λ r. contains refs r) refs (λ r m. m)

all-contains_trans :
    (a b c : List ResourceRef)
    → all (λ r. contains b r) a ≡ true
    → all (λ r. contains c r) b ≡ true
    → all (λ r. contains c r) a ≡ true
all-contains_trans a b c h k =
    all_intro (λ r. contains c r) a
      λ r m. all-contains (λ x. contains c x) b r k (all-contains (λ x. contains b x) a r h m)

selection_within_refl : (s : Selection) → selection_within s s ≡ true
unfolding selection_within
selection_within_refl everything = refl
selection_within_refl (objects refs guard) =
    ground (arith, all-contains_refl refs, guard_within_refl guard)
selection_within_refl (descendants h) = hierarchy_within_refl h

selection_within_trans :
    (a b c : Selection)
    → selection_within a b ≡ true
    → selection_within b c ≡ true
    → selection_within a c ≡ true
unfolding selection_within
selection_within_trans everything everything c h k = k
selection_within_trans everything (objects refs guard) c h k = cc
selection_within_trans everything (descendants p) c h k = cc
selection_within_trans (objects refs guard) b everything h k = refl
selection_within_trans (descendants p) b everything h k = refl
selection_within_trans (objects a ga) everything (objects c gc) h k = cc
selection_within_trans (objects a ga) everything (descendants c) h k = cc
selection_within_trans (objects a ga) (objects b gb) (objects c gc) h k =
    ground (arith, all-contains_trans a b c, guard_within_trans ga gb gc)
selection_within_trans (objects a (some g)) (objects b (some g')) (descendants c) h k =
    hierarchy_within_trans g g' c (ground arith) k
selection_within_trans (objects a (some g)) (objects b none) (descendants c) h k = cc
selection_within_trans (objects a none) (objects b (some g)) (descendants c) h k = ground arith
selection_within_trans (objects a none) (objects b none) (descendants c) h k = cc
selection_within_trans (objects a ga) (descendants b) (objects c gc) h k = cc
selection_within_trans (objects a (some g)) (descendants b) (descendants c) h k =
    hierarchy_within_trans g b c h k
selection_within_trans (objects a none) (descendants b) (descendants c) h k = cc
selection_within_trans (descendants a) everything (objects c gc) h k = cc
selection_within_trans (descendants a) everything (descendants c) h k = cc
selection_within_trans (descendants a) (objects b gb) (objects c gc) h k = cc
selection_within_trans (descendants a) (objects b gb) (descendants c) h k = cc
selection_within_trans (descendants a) (descendants b) (objects c gc) h k = cc
selection_within_trans (descendants a) (descendants b) (descendants c) h k =
    hierarchy_within_trans a b c h k

-- Every valid selector is within itself.
pub within_refl : (s : ResourceSelector) → validate s ≡ ok tt → within s s ≡ ok true
within_refl s v = IsWithin→within s s (record {
  child_valid = v;
  parent_valid = v;
  service = refl;
  kinds = λ k m. m;
  selection = selection_within_refl s.selection;
})

-- Where a selector is `within` a second and the second is `within` a third, the first is `within`
-- the third.
pub within_trans :
    (a b c : ResourceSelector) → within a b ≡ ok true → within b c ≡ ok true → within a c ≡ ok true
within_trans a b c h k =
    let n = within→IsWithin a b h in
    let m = within→IsWithin b c k in
    IsWithin→within a c (record {
      child_valid = n.child_valid;
      parent_valid = m.parent_valid;
      service = n.service ∙ m.service;
      kinds = λ t r. m.kinds t (n.kinds t r);
      selection =
          selection_within_trans a.selection b.selection c.selection n.selection m.selection;
    })
