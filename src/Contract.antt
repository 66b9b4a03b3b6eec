-- ===== src/Contract.antt =====
-- The grant contract crate: crates/secs-grant-contract/src. This file has what its modules share:
-- the refusals and the check of a text.
pub mod Selector
pub mod Snapshot
pub mod Json
pub mod Claims
pub mod Holder
pub mod Codec
pub mod Validity
pub mod Scope
pub mod Compound
pub mod Version1
pub mod Version2
pub mod AccessPoint
pub mod Sessions
use sec_s_magik.Base.{
  ℕ, Bool, true, false, ◌&&◌, ◌||◌, not, Text, Result, deny, is_empty, length, all, leb, ltb, eqb,
  ◌≡◌, ◌↔◌,
}

-- The static texts that the crate returns as errors.
pub data Refusal : Type 0 where
  invalid_holder_authority invalid_resource_selector unsupported_resource_relation : Refusal
  wrong_selector_service invalid_compound_resources invalid_provider_snapshot : Refusal
  wrong_snapshot_service invalid_scoped_holder_authority invalid_holder_session : Refusal

-- `u8::is_ascii_graphic`
abbrev is_ascii_graphic : ℕ → Bool
is_ascii_graphic b = leb 33 b && leb b 126

unfoldable pub is_bad_text : Text → Bool
is_bad_text s =
    is_empty s || ltb 256 (length s) || not (all (λ b. is_ascii_graphic b && not (eqb b b'*')) s)

-- `text` of lib.rs
unfoldable pub check_text : Text → Result Refusal (Unit {0})
unfolding is_bad_text
check_text s = deny (is_bad_text s) invalid_holder_authority
