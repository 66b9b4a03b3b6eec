-- ===== src/Contract/Json/Bounds.antt =====
-- What `safe` of lib.rs accepts, without its order of tests.
use Prim.Native.Nat.{max}
use sec_s_magik.Base.{
  ℕ, suc, ◌+◌, ◌≤◌, ◌≡◌, ◌≢◌, ◌↔◌, refl, true, false, ok, bytes, ◌==◌, beq_refl, Bool-cases, inl,
  inr, beq→eq, Text, list_eq, nat_eq, arith,
}
use sec_s_magik.Contract.Json.{
  JsonNumber, unsigned, negative, float, Json, Items, Fields, null, boolean, number, string, array,
  object, nil, cons, end, field, is_safe_number, has_key, private_number, safe, safe_items,
  safe_fields,
}

-- An integer of at most 2^53 - 1 in size; `negative n` is -(n + 1).
abbrev pub IsSafeNumber : JsonNumber → Type 0
IsSafeNumber (unsigned n) = n ≤ 9007199254740991
IsSafeNumber (negative n) = n + 1 ≤ 9007199254740991
IsSafeNumber float = ⊥

-- No field of an object has the name.
abbrev pub IsFreeOf : Text → Fields → Type 0
IsFreeOf name end = Unit
IsFreeOf name (field k v rest) = (k ≢ name) × IsFreeOf name rest

number_sound : (n : JsonNumber) → is_safe_number n ≡ true → IsSafeNumber n
unfolding is_safe_number
number_sound (unsigned n) h = ground arith
number_sound (negative n) h = ground arith
number_sound float h = cc

number_complete : (n : JsonNumber) → IsSafeNumber n → is_safe_number n ≡ true
unfolding is_safe_number
number_complete (unsigned n) h = ground arith
number_complete (negative n) h = ground arith
number_complete float h = absurd h

key_sound : (name : Text) (fs : Fields) → has_key name fs ≡ false → IsFreeOf name fs
unfolding has_key
key_sound name end h = tt
key_sound name (field k v rest) h =
    (λ e. ground (arith, e, beq_refl name), key_sound name rest (ground arith))

key_complete : (name : Text) (fs : Fields) → IsFreeOf name fs → has_key name fs ≡ false
unfolding has_key
key_complete name end h = refl
key_complete name (field k v rest) h = elim (Bool-cases (k == name)) [
  | inl hit ↦ absurd (h.0 (beq→eq k name hit))
  | inr miss ↦ ground (arith, miss, key_complete name rest h.1)
]

-- Every number of a value is an integer of at most 2^53 - 1 in size, and no object has the key by
-- which the JSON library smuggles other numbers.
abbrev mutual
  pub AllSafe : Json → Type 0
  AllSafe null = Unit
  AllSafe (boolean b) = Unit
  AllSafe (string s) = Unit
  AllSafe (number n) = IsSafeNumber n
  AllSafe (array xs) = AllSafeItems xs
  AllSafe (object fs) = IsFreeOf (bytes "$serde_json::private::Number") fs × AllSafeFields fs

  pub AllSafeItems : Items → Type 0
  AllSafeItems nil = Unit
  AllSafeItems (cons x xs) = AllSafe x × AllSafeItems xs

  pub AllSafeFields : Fields → Type 0
  AllSafeFields end = Unit
  AllSafeFields (field k v fs) = AllSafe v × AllSafeFields fs

-- How deep a value is nested.
abbrev mutual
  pub height : Json → ℕ
  height null = 0
  height (boolean b) = 0
  height (string s) = 0
  height (number n) = 0
  height (array xs) = height_items xs
  height (object fs) = height_fields fs

  pub height_items : Items → ℕ
  height_items nil = 0
  height_items (cons x xs) = max (suc (height x)) (height_items xs)

  pub height_fields : Fields → ℕ
  height_fields end = 0
  height_fields (field k v fs) = max (suc (height v)) (height_fields fs)

mutual
  unfolding safe

  safe_sound : (v : Json) (depth : ℕ) → safe v depth ≡ ok tt → AllSafe v × (depth + height v ≤ 32)
  safe_sound null depth h = ground arith
  safe_sound (boolean b) depth h = ground arith
  safe_sound (string s) depth h = ground arith
  safe_sound (number n) depth h = (number_sound n (ground arith), ground arith)
  safe_sound (array xs) depth h = ground (arith, safe_items_sound xs depth)
  safe_sound (object fs) depth h =
      let (fields, inside) = safe_fields_sound fs depth (ground arith) in
      ((key_sound private_number fs (ground arith), fields), ground (arith, inside))

  safe_items_sound :
      (xs : Items) (depth : ℕ)
      → safe_items xs (depth + 1) ≡ ok tt
      → AllSafeItems xs × (depth ≤ 32 → depth + height_items xs ≤ 32)
  safe_items_sound nil depth h = (tt, λ d. omega arith)
  safe_items_sound (cons x xs) depth h =
      let head = safe_sound x (depth + 1) (ground arith) in
      let rest = safe_items_sound xs depth (ground arith) in
      ((head.0, rest.0), λ d. omega (arith, head.1, rest.1 d))

  safe_fields_sound :
      (fs : Fields) (depth : ℕ)
      → safe_fields fs (depth + 1) ≡ ok tt
      → AllSafeFields fs × (depth ≤ 32 → depth + height_fields fs ≤ 32)
  safe_fields_sound end depth h = (tt, λ d. omega arith)
  safe_fields_sound (field k v fs) depth h =
      let head = safe_sound v (depth + 1) (ground arith) in
      let rest = safe_fields_sound fs depth (ground arith) in
      ((head.0, rest.0), λ d. omega (arith, head.1, rest.1 d))

mutual
  unfolding safe

  safe_complete : (v : Json) (depth : ℕ) → AllSafe v → depth + height v ≤ 32 → safe v depth ≡ ok tt
  safe_complete null depth a h = ground arith
  safe_complete (boolean b) depth a h = ground arith
  safe_complete (string s) depth a h = ground arith
  safe_complete (number n) depth a h = ground (arith, number_complete n a)
  safe_complete (array xs) depth a h = ground (arith, safe_items_complete xs depth a h)
  safe_complete (object fs) depth a h =
      ground (arith, key_complete private_number fs a.0, safe_fields_complete fs depth a.1 h)

  safe_items_complete :
      (xs : Items) (depth : ℕ)
      → AllSafeItems xs
      → depth + height_items xs ≤ 32
      → safe_items xs (depth + 1) ≡ ok tt
  safe_items_complete nil depth a h = refl
  safe_items_complete (cons x xs) depth a h =
      rw (safe_complete x (depth + 1) a.0 (omega arith))
        (safe_items_complete xs depth a.1 (omega arith))

  safe_fields_complete :
      (fs : Fields) (depth : ℕ)
      → AllSafeFields fs
      → depth + height_fields fs ≤ 32
      → safe_fields fs (depth + 1) ≡ ok tt
  safe_fields_complete end depth a h = refl
  safe_fields_complete (field k v fs) depth a h =
      rw (safe_complete v (depth + 1) a.0 (omega arith))
        (safe_fields_complete fs depth a.1 (omega arith))

-- `safe` accepts exactly the values whose numbers are all integers of at most 2^53 - 1 in size, with
-- no object that has the private number key, and whose nesting below `depth` ends at depth 32.
pub safe_iff :
    (v : Json) (depth : ℕ) → (safe v depth ≡ ok tt) ↔ (AllSafe v × (depth + height v ≤ 32))
safe_iff v depth = (safe_sound v depth, λ h. safe_complete v depth h.0 h.1)
