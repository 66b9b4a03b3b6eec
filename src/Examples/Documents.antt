-- ===== src/Examples/Documents.antt =====
-- The theorems on values, validities, scopes and lists of permissions.
use sec_s_magik.Base.{
  ◌+◌, ◌≤◌, ◌≡◌, ◌↔◌, refl, true, List, [], ◌∷◌, Text, ok, bytes, list_eq, nat_eq,
}
use sec_s_magik.Contract.{check_text, is_bad_text}
use sec_s_magik.Contract.Json.{Json, object, field, end, number, unsigned, safe, has_key}
use sec_s_magik.Contract.Json.Bounds.{AllSafe, height, safe_iff}
use sec_s_magik.Contract.Validity
use sec_s_magik.Contract.Validity.{deserialize-serialize, contains_bounds}
use sec_s_magik.Contract.Scope.{Node, Scope, all_of, paths, validate_scope, scope_within}
use sec_s_magik.Contract.Scope.Containment.{covers, scope_within_iff}
use sec_s_magik.Contract.Codec.{canonical, key, public_hex, sign, transcript, hex, is_bad_hex}
use sec_s_magik.Contract.Version1
use sec_s_magik.Contract.Version1.{permission_eq as permission_eq1}
use sec_s_magik.Contract.Version2
use sec_s_magik.Contract.Version2.{permission_eq as permission_eq2}
use sec_s_magik.Contract.Selector.{
  validate, validate_selection, references, validate_ref, validate_hierarchy, hierarchy_within,
  selection_within, within,
}
use sec_s_magik.Contract.Selector.Equality.{selector_eq}
use sec_s_magik.Examples.Libraries.{crypto, json, times, encode}
use sec_s_magik.Examples.Resources.{middle, narrow}

abbrev limits : Json
limits = object (field (bytes "limit") (number (unsigned 10)) end)

safe_iff_example : (safe limits 31 ≡ ok tt) ↔ (AllSafe limits × (31 + height limits ≤ 32))
safe_iff_example = safe_iff limits 31

valid_at : Validity.contains (Validity.dated 100 1000) 200 ≡ true
unfolding Validity.contains
valid_at = refl

abbrev folder : Node
folder = record { kind = bytes "folder"; id = bytes "f" }

abbrev document : Node
document = record { kind = bytes "doc"; id = bytes "d" }

abbrev folder_scope : Scope
folder_scope = paths ((folder ∷ []) ∷ [])

abbrev document_scope : Scope
document_scope = paths ((folder ∷ document ∷ []) ∷ [])

folder_scope_valid : validate_scope folder_scope ≡ ok tt
unfolding validate_scope check_text is_bad_text
folder_scope_valid = refl

scope_within_iff_example :
    (scope_within document_scope folder_scope ≡ true)
    ↔ ((path : List Node) → covers document_scope path ≡ true → covers folder_scope path ≡ true)
scope_within_iff_example = scope_within_iff document_scope folder_scope folder_scope_valid

abbrev signature : Text
signature = encode (times 64 1)

good_key : key crypto (public_hex crypto true) ≡ ok true
unfolding key public_hex hex is_bad_hex
good_key = refl

signed : sign crypto json (bytes "domain") (bytes "v") true ≡ ok signature
unfolding sign transcript canonical safe has_key
signed = refl

-- Version 1: everything, the folder, the document.
abbrev every1 : Version1.Permission Text
every1 = record {
  operation = bytes "read";
  resource = bytes "doc";
  scope = all_of;
  constraints = bytes "x";
}

abbrev pub folder1 : Version1.Permission Text
folder1 = record every1 { scope = folder_scope }

abbrev pub document1 : Version1.Permission Text
document1 = record every1 { scope = document_scope }

abbrev pub list_value1 : List (Version1.Permission Text) → Text
list_value1 ps = bytes "permissions"

within1 : Version1.permissions_within json list_value1 (document1 ∷ []) (folder1 ∷ []) ≡ ok tt
unfolding Version1.permissions_within Version1.permissions Version1.permission_within canonical safe
    has_key check_text is_bad_text validate_scope scope_within
within1 = refl

within_every1 : Version1.permissions_within json list_value1 (folder1 ∷ []) (every1 ∷ []) ≡ ok tt
unfolding Version1.permissions_within Version1.permissions Version1.permission_within canonical safe
    has_key check_text is_bad_text validate_scope scope_within
within_every1 = refl

-- Version 2: the documents of the folder, and one document.
abbrev pub middle2 : Version2.Permission Text
middle2 = record {
  operation = bytes "read";
  resource = bytes "doc";
  roles = record { role = bytes "source"; selector = middle } ∷ [];
  constraints = bytes "x";
}

abbrev pub narrow2 : Version2.Permission Text
narrow2 = record middle2 { roles = record { role = bytes "source"; selector = narrow } ∷ [] }

abbrev pub value2 : Version2.Permission Text → Text
value2 p = p.operation

abbrev pub list_value2 : List (Version2.Permission Text) → Text
list_value2 ps = bytes "permissions"

within2 : Version2.permissions_within json value2 list_value2 (narrow2 ∷ []) (middle2 ∷ []) ≡ ok tt
unfolding Version2.permissions_within Version2.permissions Version2.validate Version2.all_narrowed
    Version2.any_narrows Version2.roles_narrower Version2.found_within canonical safe has_key
    check_text is_bad_text within validate validate_selection references validate_ref
    validate_hierarchy selection_within hierarchy_within
within2 = refl
