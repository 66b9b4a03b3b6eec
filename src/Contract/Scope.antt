-- ===== src/Contract/Scope.antt =====
-- The path scopes of version 1 permissions: `Scope` in lib.rs of the grant contract crate.
pub mod Containment
use sec_s_magik.Base.{
  ℕ, Bool, true, false, ◌&&◌, ◌||◌, not, List, [], ◌∷◌, Text, Result, ok, err, ◌>>=◌, ◌>>◌, deny,
  each_after, Eq, ◌==◌, list_eq, nat_eq, beq→eq, beq_refl, contains, all, any, is_prefix, length,
  is_empty, ltb, ◌≡◌, ◌↔◌, arith, refl,
}
use sec_s_magik.Contract.{Refusal, check_text, invalid_holder_authority}

pub record Node : Type 0 where
  pub kind : Text
  pub id : Text

abbrev pub node_beq : Node → Node → Bool
node_beq a b = a.kind == b.kind && a.id == b.id

pub node_beq_iff : (a b : Node) → (node_beq a b ≡ true) ↔ (a ≡ b)
node_beq_iff a b = (
  λ h. cc (beq→eq a.kind b.kind (ground arith), beq→eq a.id b.id (ground arith)),
  λ e. ground (arith, beq_refl a.kind, beq_refl a.id, e),
)

instance abbrev pub node_eq : Eq Node
node_eq = record { beq = node_beq; beq_iff = node_beq_iff }

pub data Scope : Type 0 where
  all_of : Scope
  paths : List (List Node) → Scope

abbrev pub scope_beq : Scope → Scope → Bool
scope_beq all_of all_of = true
scope_beq (paths a) (paths b) = a == b
scope_beq _ _ = false

pub scope_beq_iff : (a b : Scope) → (scope_beq a b ≡ true) ↔ (a ≡ b)
scope_beq_iff all_of all_of = ((λ h. refl), λ e. refl)
scope_beq_iff all_of (paths b) = ((λ h. cc), λ e. cc)
scope_beq_iff (paths a) all_of = ((λ h. cc), λ e. cc)
scope_beq_iff (paths a) (paths b) = ((λ h. cc (beq→eq a b h)), λ e. ground (arith, beq_refl a, e))

instance abbrev pub scope_eq : Eq Scope
scope_eq = record { beq = scope_beq; beq_iff = scope_beq_iff }

-- One node of a root.
abbrev pub check_node : List Node → Node → Result Refusal (Unit {0})
check_node seen n = do
  check_text n.kind
  check_text n.id
  deny (contains seen n) invalid_holder_authority

-- One root path.
abbrev pub check_root : List (List Node) → List Node → Result Refusal (Unit {0})
check_root seen p = do
  deny (is_empty p || ltb 32 (length p) || contains seen p) invalid_holder_authority
  each_after check_node [] p

-- `Scope::validate`
unfoldable pub validate_scope : Scope → Result Refusal (Unit {0})
validate_scope all_of = ok tt
validate_scope (paths roots) = do
  deny (is_empty roots || ltb 16 (length roots)) invalid_holder_authority
  each_after check_root [] roots

-- `Scope::within`
unfoldable pub scope_within : Scope → Scope → Bool
scope_within all_of all_of = true
scope_within (paths a) all_of = true
scope_within all_of (paths b) = false
scope_within (paths a) (paths b) = all (λ p. any (λ r. is_prefix r p) b) a
