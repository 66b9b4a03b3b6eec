-- ===== src/Contract/Json.antt =====
-- What the grant contract crate sees of a JSON value, and `safe` of lib.rs: only integers that every
-- JSON reader keeps, and a bounded depth.
pub mod Bounds
use sec_s_magik.Base.{
  ℕ, suc, ◌+◌, Bool, false, ◌||◌, not, Text, Result, ok, ◌>>=◌, ◌>>◌, deny, leb, ltb, ◌==◌, list_eq,
  nat_eq, bytes,
}
use sec_s_magik.Contract.{Refusal, invalid_holder_authority}

-- The numbers of serde_json: `negative n` is -(n + 1).
pub data JsonNumber : Type 0 where
  unsigned negative : ℕ → JsonNumber
  float : JsonNumber

mutual
  pub data Json : Type 0 where
    null : Json
    boolean : Bool → Json
    number : JsonNumber → Json
    string : Text → Json
    array : Items → Json
    object : Fields → Json

  pub data Items : Type 0 where
    nil : Items
    cons : Json → Items → Items

  pub data Fields : Type 0 where
    end : Fields
    field : Text → Json → Fields → Fields

-- `SAFE`, 2^53 - 1.
abbrev pub safe_integer : ℕ
safe_integer = 9007199254740991

unfoldable pub is_safe_number : JsonNumber → Bool
is_safe_number (unsigned n) = leb n safe_integer
is_safe_number (negative n) = leb (suc n) safe_integer
is_safe_number float = false

abbrev private_number : Text
private_number = bytes "$serde_json::private::Number"

unfoldable pub has_key : Text → Fields → Bool
has_key k end = false
has_key k (field name v rest) = name == k || has_key k rest

unfoldable mutual
  pub safe : Json → ℕ → Result Refusal (Unit {0})
  safe null depth = deny (ltb 32 depth) invalid_holder_authority
  safe (boolean b) depth = deny (ltb 32 depth) invalid_holder_authority
  safe (string s) depth = deny (ltb 32 depth) invalid_holder_authority
  safe (number n) depth = do
    deny (ltb 32 depth) invalid_holder_authority
    deny (not (is_safe_number n)) invalid_holder_authority
  safe (array xs) depth =
      let items = safe_items xs (depth + 1) in
      do deny (ltb 32 depth) invalid_holder_authority; items
  safe (object fs) depth =
      let fields = safe_fields fs (depth + 1) in
      do
        deny (ltb 32 depth) invalid_holder_authority
        deny (has_key private_number fs) invalid_holder_authority
        fields

  pub safe_items : Items → ℕ → Result Refusal (Unit {0})
  safe_items nil depth = ok tt
  safe_items (cons x xs) depth = let items = safe_items xs depth in do safe x depth; items

  pub safe_fields : Fields → ℕ → Result Refusal (Unit {0})
  safe_fields end depth = ok tt
  safe_fields (field k v fs) depth = let fields = safe_fields fs depth in do safe v depth; fields
