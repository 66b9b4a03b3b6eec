-- ===== src/Server/Privacy/Policy.antt =====
-- What may be disclosed where: the enumerations and the policy of server/src/privacy.rs.
use sec_s_magik.Base.{ℕ, Bool, ◌&&◌, List, [], ◌∷◌, ◌++◌, Text, bytes, any, Eq, ◌==◌, if◌then◌else◌}
use sec_s_magik.Server.Enums.{discrete_eq}

pub data PrivacySurface : Type 0 where
  verify_receipt reject_receipt execute_receipt readiness_status demo_projection : PrivacySurface
  log operator_cli public_audit handler_context : PrivacySurface

pub data ForbiddenFieldClass : Type 0 where
  wallet_identity holder_identity subject_identity credential_identity : ForbiddenFieldClass
  raw_credential_attributes raw_proof_bytes witness_private_inputs : ForbiddenFieldClass
  trace_debug_material token_secret source_auth_token issuer_private_material : ForbiddenFieldClass
  stable_nullifier network_metadata : ForbiddenFieldClass

pub data DisclosureRepresentation : Type 0 where
  redacted_digest redacted_placeholder derived_status : DisclosureRepresentation

-- `as_str`
unfoldable pub surface_text : PrivacySurface → Text
surface_text verify_receipt = bytes "verify_receipt"
surface_text reject_receipt = bytes "reject_receipt"
surface_text execute_receipt = bytes "execute_receipt"
surface_text readiness_status = bytes "readiness_status"
surface_text demo_projection = bytes "demo_projection"
surface_text log = bytes "log"
surface_text operator_cli = bytes "operator_cli"
surface_text public_audit = bytes "public_audit"
surface_text handler_context = bytes "handler_context"

abbrev pub PrivacySurface-discrete : Discrete PrivacySurface
PrivacySurface-discrete = hlevel

instance abbrev pub surface_eq : Eq PrivacySurface
surface_eq = discrete_eq PrivacySurface-discrete

-- `as_str`
unfoldable pub class_text : ForbiddenFieldClass → Text
class_text wallet_identity = bytes "wallet_identity"
class_text holder_identity = bytes "holder_identity"
class_text subject_identity = bytes "subject_identity"
class_text credential_identity = bytes "credential_identity"
class_text raw_credential_attributes = bytes "raw_credential_attributes"
class_text raw_proof_bytes = bytes "raw_proof_bytes"
class_text witness_private_inputs = bytes "witness_private_inputs"
class_text trace_debug_material = bytes "trace_debug_material"
class_text token_secret = bytes "token_secret"
class_text source_auth_token = bytes "source_auth_token"
class_text issuer_private_material = bytes "issuer_private_material"
class_text stable_nullifier = bytes "stable_nullifier"
class_text network_metadata = bytes "network_metadata"

abbrev pub ForbiddenFieldClass-discrete : Discrete ForbiddenFieldClass
ForbiddenFieldClass-discrete = hlevel

instance abbrev pub class_eq : Eq ForbiddenFieldClass
class_eq = discrete_eq ForbiddenFieldClass-discrete

-- `as_str`
unfoldable pub representation_text : DisclosureRepresentation → Text
representation_text redacted_digest = bytes "redacted_digest"
representation_text redacted_placeholder = bytes "redacted_placeholder"
representation_text derived_status = bytes "derived_status"

abbrev pub DisclosureRepresentation-discrete : Discrete DisclosureRepresentation
DisclosureRepresentation-discrete = hlevel

instance abbrev pub representation_eq : Eq DisclosureRepresentation
representation_eq = discrete_eq DisclosureRepresentation-discrete

pub record DisclosurePermission : Type 0 where
  pub class : ForbiddenFieldClass
  pub surface : PrivacySurface
  pub representation : DisclosureRepresentation

pub record DisclosurePolicy : Type 0 where
  pub policy_id : Text
  pub policy_version : ℕ
  pub permissions : List DisclosurePermission

unfoldable pub deny_by_default : Text → ℕ → DisclosurePolicy
deny_by_default policy_id version = record {
  policy_id = policy_id;
  policy_version = version;
  permissions = [];
}

abbrev pub is_permission :
    ForbiddenFieldClass → PrivacySurface → DisclosureRepresentation → DisclosurePermission → Bool
is_permission class surface representation p =
    p.class == class && p.surface == surface && p.representation == representation

-- `DisclosurePolicy::permits`
unfoldable pub permits :
    DisclosurePolicy → ForbiddenFieldClass → PrivacySurface → DisclosureRepresentation → Bool
permits policy class surface representation =
    any (is_permission class surface representation) policy.permissions

unfoldable pub with_permission : DisclosurePolicy → DisclosurePermission → DisclosurePolicy
with_permission policy p =
    if any (is_permission p.class p.surface p.representation) policy.permissions
    then policy
    else record policy { permissions = policy.permissions ++ (p ∷ []) }

-- The loops of `default_i02`.
abbrev add_representations :
    List DisclosureRepresentation
    → ForbiddenFieldClass
    → PrivacySurface
    → DisclosurePolicy
    → DisclosurePolicy
unfolding with_permission
add_representations [] class surface policy = policy
add_representations (r ∷ rs) class surface policy =
    add_representations rs class surface
      (with_permission policy (record { class = class; surface = surface; representation = r }))

abbrev add_surfaces :
    List PrivacySurface → ForbiddenFieldClass → DisclosurePolicy → DisclosurePolicy
add_surfaces [] class policy = policy
add_surfaces (s ∷ ss) class policy = add_surfaces ss class (
    add_representations (redacted_digest ∷ redacted_placeholder ∷ derived_status ∷ []) class s
      policy)

abbrev add_classes : List ForbiddenFieldClass → DisclosurePolicy → DisclosurePolicy
add_classes [] policy = policy
add_classes (c ∷ cs) policy = add_classes cs (
    add_surfaces
      (verify_receipt ∷ reject_receipt ∷ execute_receipt ∷ readiness_status ∷ demo_projection ∷ log
        ∷ operator_cli ∷ public_audit ∷ [])
      c policy)

unfoldable pub default_i02 : DisclosurePolicy
unfolding deny_by_default with_permission
default_i02 =
    add_classes
      (wallet_identity ∷ holder_identity ∷ subject_identity ∷ credential_identity
        ∷ raw_credential_attributes ∷ raw_proof_bytes ∷ witness_private_inputs
        ∷ trace_debug_material ∷ token_secret ∷ source_auth_token ∷ issuer_private_material
        ∷ stable_nullifier ∷ network_metadata ∷ [])
      (deny_by_default (bytes "secs-i02-deny-by-default") 1)
