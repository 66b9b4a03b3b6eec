-- ===== src/Server/Enums.antt =====
-- Equality of an enumeration, from its decision.
use sec_s_magik.Base.{Bool, true, false, Eq, ◌≡◌, ◌↔◌, refl}

abbrev pub decide {ℓ} : {A : Type ℓ} → Dec A → Bool
decide (yes a) = true
decide (no n) = false

pub decide_iff {ℓ} : {A : Type ℓ} (d : Dec A) → (decide d ≡ true) ↔ A
decide_iff (yes a) = ((λ h. a), λ h. refl)
decide_iff (no n) = ((λ h. cc), λ h. absurd (n h))

abbrev pub discrete_eq {ℓ} : {A : Type ℓ} → Discrete A → Eq A
discrete_eq d = record { beq = λ s t. decide (d s t); beq_iff = λ s t. decide_iff (d s t) }
