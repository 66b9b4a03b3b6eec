-- ===== src/Contract/Validity.antt =====
-- The time bounds of a grant: `Validity` in lib.rs of the grant contract crate, and its JSON form.
use sec_s_magik.Base.{
  ℕ, ◌≤◌, ◌<◌, ◌≡◌, Bool, true, ◌&&◌, Text, Option, none, some, leb, ltb, ◌!=◌, list_eq, nat_eq,
  bytes, if◌then◌else◌, arith, beq_refl,
}
use sec_s_magik.Contract.Json.{safe_integer}

pub data Validity : Type 0 where
  dated : ℕ → ℕ → Validity
  until_revoked : ℕ → Validity

-- `Validity::contains`
unfoldable pub contains : Validity → ℕ → Bool
contains (dated not_before not_after) now =
    leb not_before now && ltb now not_after && leb not_after safe_integer
contains (until_revoked not_before) now = leb not_before now && leb now safe_integer

-- `Validity::end`
unfoldable pub end_of : Validity → Option ℕ
end_of (dated not_before not_after) = some not_after
end_of (until_revoked not_before) = none

-- The tagged form that serde reads and writes, its schema unchecked.
pub data Wire : Type 0 where
  dated : Text → ℕ → ℕ → Wire
  until_revoked : Text → ℕ → Wire

abbrev pub validity_schema : Text
validity_schema = bytes "castalia.grant-validity.v1"

-- `Serialize for Validity`
unfoldable pub serialize : Validity → Wire
serialize (Validity.dated not_before not_after) = Wire.dated validity_schema not_before not_after
serialize (Validity.until_revoked not_before) = Wire.until_revoked validity_schema not_before

-- `Deserialize for Validity`, after the derived reader of the tagged form.
unfoldable pub deserialize : Wire → Option Validity
deserialize (Wire.dated schema not_before not_after) =
    if schema != validity_schema then none else some (Validity.dated not_before not_after)
deserialize (Wire.until_revoked schema not_before) =
    if schema != validity_schema then none else some (Validity.until_revoked not_before)

-- Reading what was written of a validity gives it back.
pub deserialize-serialize : (v : Validity) → deserialize (serialize v) ≡ some v
unfolding deserialize serialize
deserialize-serialize (Validity.dated not_before not_after) =
    ground (arith, beq_refl validity_schema)
deserialize-serialize (Validity.until_revoked not_before) = ground (arith, beq_refl validity_schema)

-- A time that a validity contains is at most 2^53 - 1 and before the end, where there is one, and
-- that end is at most 2^53 - 1.
pub contains_bounds :
    (v : Validity) (now : ℕ)
    → contains v now ≡ true
    → (now ≤ safe_integer)
      × ((last : ℕ) → end_of v ≡ some last → (now < last) × (last ≤ safe_integer))
unfolding contains end_of
contains_bounds (Validity.dated a b) now h = (ground arith, λ last e. ground arith)
contains_bounds (Validity.until_revoked a) now h = (ground arith, λ last e. ground arith)
