-- ===== src/Examples/Libraries.antt =====
-- A small library of keys, digests and values that has the behaviour assumed of the real ones: two
-- keys, signatures that name their key, lowercase hex, and values that are one operation's calls.
use sec_s_magik.Base.{
  ◌/◌, ◌%◌, ℕ, zero, suc, ◌+◌, ◌*◌, ◌-◌, ◌<◌, ◌≡◌, refl, ap, Bool, true, false, [], ◌∷◌, Text,
  Option, none, some, length, all, ltb, eqb, ◌==◌, list_eq, nat_eq, beq_refl, arith, bytes,
  if◌then◌else◌,
}
use sec_s_magik.Contract.Json.{string, object, field, end}
use sec_s_magik.Contract.Codec.{Crypto, JsonLibrary, is_hex_digit, is_bad_hex}
use sec_s_magik.Contract.Codec.Laws.{IsBytes, CryptoLaws}

abbrev digit : ℕ → ℕ
digit n = if ltb n 10 then n + 48 else n + 87

abbrev digit_value : ℕ → ℕ
digit_value c = if ltb c 97 then c - 48 else c - 87

abbrev pub encode : Text → Text
encode [] = []
encode (b ∷ rest) = digit (b / 16) ∷ digit (b % 16) ∷ encode rest

abbrev decode : Text → Option Text
decode [] = some []
decode (c ∷ []) = none
decode (c ∷ d ∷ rest) = elim (decode rest) [
  | some later ↦ some ((digit_value c * 16 + digit_value d) ∷ later)
  | none ↦ none
]

digit_value-digit : (n : ℕ) → n < 16 → digit_value (digit n) ≡ n
digit_value-digit n h = ground (arith, h)

digit-is_hex_digit : (n : ℕ) → n < 16 → is_hex_digit (digit n) ≡ true
digit-is_hex_digit n h = ground (arith, h)

high_digit : (b : ℕ) → b < 256 → b / 16 < 16
high_digit b h = omega arith

low_digit : (b : ℕ) → b % 16 < 16
low_digit b = omega arith

both_digits : (b : ℕ) → (b / 16) * 16 + b % 16 ≡ b
both_digits b = omega arith

decode-encode : (b : Text) → IsBytes b → decode (encode b) ≡ some b
decode-encode [] h = refl
decode-encode (b ∷ rest) (small, others) =
    rw
      (
        decode-encode rest others,
        digit_value-digit (b / 16) (high_digit b small),
        digit_value-digit (b % 16) (low_digit b),
        both_digits b,
      )
      refl

encode-length : (b : Text) → length (encode b) ≡ length b * 2
encode-length [] = refl
encode-length (b ∷ rest) = omega (arith, encode-length rest)

encode-digits : (b : Text) → IsBytes b → all is_hex_digit (encode b) ≡ true
encode-digits [] h = refl
encode-digits (b ∷ rest) (small, others) = ground (
  arith,
  encode-digits rest others,
  digit-is_hex_digit (b / 16) (high_digit b small),
  digit-is_hex_digit (b % 16) (low_digit b),
)

encode-good : (b : Text) → IsBytes b → is_bad_hex (length b) (encode b) ≡ false
unfolding is_bad_hex
encode-good b h = ground (arith, encode-length b, encode-digits b h)

-- Two keys; each is written, and signs, with one byte.
abbrev key_byte : Bool → ℕ
key_byte true = 1
key_byte false = 2

abbrev pub times : ℕ → ℕ → Text
times zero b = []
times (suc n) b = b ∷ times n b

abbrev read_key : Text → Option Bool
read_key [] = none
read_key (b ∷ rest) = some (eqb b 1)

abbrev pub crypto : Crypto Bool Bool
crypto = record {
  from_bytes = read_key;
  to_bytes = λ k. times 32 (key_byte k);
  is_weak = λ k. false;
  verify_strict = λ k message signature. signature == times 64 (key_byte k);
  verifying_key = λ k. k;
  sign_bytes = λ k message. times 64 (key_byte k);
  sha256 = λ message. times 32 (length message % 256);
  hex_encode = encode;
  hex_decode = decode;
}

times-IsBytes : (n b : ℕ) → b < 256 → IsBytes (times n b)
times-IsBytes zero b h = tt
times-IsBytes (suc n) b h = (h, times-IsBytes n b h)

key_byte_small : (k : Bool) → key_byte k < 256
key_byte_small true = omega arith
key_byte_small false = omega arith

times-length : (n b : ℕ) → length (times n b) ≡ n
times-length zero b = refl
times-length (suc n) b = ap suc (times-length n b)

read-write : (k : Bool) → read_key (times 32 (key_byte k)) ≡ some k
read-write true = refl
read-write false = refl

pub crypto_laws : CryptoLaws crypto
crypto_laws = record {
  decode_encode = decode-encode;
  encode_good = encode-good;
  key_IsBytes = λ k. times-IsBytes 32 (key_byte k) (key_byte_small k);
  key_length = λ k. times-length 32 (key_byte k);
  from_to_bytes = read-write;
  signature_IsBytes = λ k m. times-IsBytes 64 (key_byte k) (key_byte_small k);
  signature_length = λ k m. times-length 64 (key_byte k);
  verify_sign = λ k m h. beq_refl (times 64 (key_byte k));
}

-- A value is the text of the parameters of one call.
abbrev pub json : JsonLibrary Text
json = record {
  view = λ t. object (
      field (bytes "operation") (string (bytes "read")) (
        field (bytes "parameters") (string t)
          (field (bytes "resource") (string (bytes "doc")) end)));
  to_vec = some;
}
