-- ===== src/Examples/Resources.antt =====
-- A folder with a document: the theorems on resource selectors, rules and snapshots.
use sec_s_magik.Base.{◌≡◌, refl, true, List, [], ◌∷◌, Text, none, some, ok, bytes}
use sec_s_magik.Contract.{check_text, is_bad_text}
use sec_s_magik.Contract.Selector.{
  ResourceRef, Hierarchy, objects, descendants, ResourceSelector, selector_schema, within, permits,
  hierarchy_permits, validate, validate_hierarchy, validate_selection, references, validate_ref,
  hierarchy_within, selection_within, permits_roots, selection_permits,
}
use sec_s_magik.Contract.Selector.Narrowing.{Answers, within_narrows}
use sec_s_magik.Contract.Snapshot.{
  ProviderSnapshot, provider, provider-Answers, validate_snapshot, exists, supports_relation,
  is_descendant,
}
use sec_s_magik.Contract.Compound.{
  EffectContract, EffectRule, ResolvedRole, rule_within, rule_permits, matching_rule,
  validate_contract, validate_plan, validate_rule, roles_within, permits_effects, permits_targets,
  first_permitting,
}
use sec_s_magik.Contract.Compound.Narrowing.{rule_within_narrows}
use sec_s_magik.Contract.Compound.Matching.{IsFirst, matching_rule-IsFirst}

abbrev pub files : Text
files = bytes "files"

abbrev within_folder : Text
within_folder = bytes "contains"

abbrev folder : ResourceRef
folder = record { kind = bytes "folder"; id = bytes "f" }

abbrev document : ResourceRef
document = record { kind = bytes "doc"; id = bytes "d" }

abbrev pub snapshot : ProviderSnapshot
snapshot = record {
  service = files;
  relation = within_folder;
  resources =
      record { resource = folder; ancestors = [] }
      ∷ record { resource = document; ancestors = folder ∷ [] }
      ∷ [];
}

pub snapshot_valid : validate_snapshot snapshot ≡ ok tt
unfolding validate_snapshot check_text is_bad_text
snapshot_valid = refl

abbrev pub answers : Answers (provider snapshot) files
answers = provider-Answers snapshot snapshot_valid

abbrev below_folder : Hierarchy
below_folder = record { relation = within_folder; roots = folder ∷ []; include_self = true }

-- Everything in the folder; its documents; one document.
abbrev wide : ResourceSelector
wide = record {
  schema = selector_schema;
  service = files;
  kinds = bytes "folder" ∷ bytes "doc" ∷ [];
  selection = descendants below_folder;
}

abbrev pub middle : ResourceSelector
middle = record wide { kinds = bytes "doc" ∷ [] }

abbrev pub narrow : ResourceSelector
narrow = record middle { selection = objects (document ∷ []) (some below_folder) }

narrow-within : within narrow middle ≡ ok true
unfolding within validate validate_selection references validate_ref validate_hierarchy check_text
    is_bad_text selection_within hierarchy_within
narrow-within = refl

middle-within : within middle wide ≡ ok true
unfolding within validate validate_selection references validate_ref validate_hierarchy check_text
    is_bad_text selection_within hierarchy_within
middle-within = refl

narrow_permits : permits (provider snapshot) narrow files document ≡ ok true
unfolding permits validate validate_selection references validate_ref validate_hierarchy check_text
    is_bad_text selection_permits hierarchy_permits permits_roots exists supports_relation
    is_descendant validate_snapshot
narrow_permits = refl

within_narrows_example : permits (provider snapshot) middle files document ≡ ok true
within_narrows_example =
    within_narrows (provider snapshot) files answers narrow middle document narrow-within
      narrow_permits

wide_valid : validate wide ≡ ok tt
unfolding validate validate_selection references validate_ref validate_hierarchy check_text
    is_bad_text
wide_valid = refl

-- An operation on one document.
abbrev pub contract : EffectContract
contract = record {
  service = files;
  operation = bytes "read";
  roles = record { name = bytes "source"; kinds = bytes "doc" ∷ []; minimum = 1; maximum = 1 } ∷ [];
}

abbrev pub plan : List ResolvedRole
plan = record { role = bytes "source"; resources = document ∷ [] } ∷ []

abbrev parent_rule : EffectRule
parent_rule = record {
  service = files;
  operation = bytes "read";
  roles = record { role = bytes "source"; selector = middle } ∷ [];
}

abbrev pub child_rule : EffectRule
child_rule = record parent_rule { roles = record { role = bytes "source"; selector = narrow } ∷ [] }

-- A rule for another document.
abbrev other_rule : EffectRule
other_rule = record parent_rule {
  roles =
      record {
        role = bytes "source";
        selector = record middle {
          selection = objects (record { kind = bytes "doc"; id = bytes "e" } ∷ []) none;
        };
      }
      ∷ [];
}

child_within : rule_within child_rule parent_rule contract ≡ ok true
unfolding rule_within validate_rule validate_contract roles_within within validate
    validate_selection references validate_ref validate_hierarchy check_text is_bad_text
    selection_within hierarchy_within
child_within = refl

pub child_permits : rule_permits (provider snapshot) child_rule contract plan ≡ ok true
unfolding rule_permits permits_effects permits_targets validate_plan validate_rule validate_contract
    permits validate validate_selection references validate_ref validate_hierarchy check_text
    is_bad_text selection_permits hierarchy_permits permits_roots exists supports_relation
    is_descendant validate_snapshot
child_permits = refl

rule_within_narrows_example : rule_permits (provider snapshot) parent_rule contract plan ≡ ok true
rule_within_narrows_example =
    rule_within_narrows (provider snapshot) contract answers child_rule parent_rule plan
      child_within child_permits

second_matches :
    matching_rule (provider snapshot) (other_rule ∷ child_rule ∷ []) contract plan ≡ ok (some 1)
unfolding matching_rule first_permitting rule_permits permits_effects permits_targets validate_plan
    validate_rule validate_contract permits validate validate_selection references validate_ref
    validate_hierarchy check_text is_bad_text selection_permits hierarchy_permits permits_roots
    exists supports_relation is_descendant validate_snapshot
second_matches = refl

matching_rule-IsFirst_example :
    IsFirst (provider snapshot) contract plan (other_rule ∷ child_rule ∷ []) 1
matching_rule-IsFirst_example =
    matching_rule-IsFirst (provider snapshot) contract plan (other_rule ∷ child_rule ∷ []) 1
      second_matches

none_matches : matching_rule (provider snapshot) (other_rule ∷ []) contract plan ≡ ok none
unfolding matching_rule first_permitting rule_permits permits_effects permits_targets validate_plan
    validate_rule validate_contract permits validate validate_selection references validate_ref
    validate_hierarchy check_text is_bad_text selection_permits hierarchy_permits permits_roots
    exists supports_relation is_descendant validate_snapshot
none_matches = refl
