-- ===== src/Contract/Compound/Equality.antt =====
-- The derived equality of role selections: compound_resources.rs.
use sec_s_magik.Base.{
  Bool, true, ◌&&◌, Eq, ◌==◌, list_eq, nat_eq, beq→eq, beq_refl, ◌≡◌, ◌↔◌, arith,
}
use sec_s_magik.Contract.Selector.Equality.{selector_eq}
use sec_s_magik.Contract.Compound.{RoleSelection}

abbrev pub role_selection_beq : RoleSelection → RoleSelection → Bool
role_selection_beq a b = a.role == b.role && a.selector == b.selector

pub role_selection_beq_iff : (a b : RoleSelection) → (role_selection_beq a b ≡ true) ↔ (a ≡ b)
role_selection_beq_iff a b = (
  λ h. cc (beq→eq a.role b.role (ground arith), beq→eq a.selector b.selector (ground arith)),
  λ p. ground (arith, beq_refl a.role, beq_refl a.selector, p),
)

instance abbrev pub role_selection_eq : Eq RoleSelection
role_selection_eq = record { beq = role_selection_beq; beq_iff = role_selection_beq_iff }
