-- ===== src/Server/Text.antt =====
-- Rust's text operations that the server uses, on bytes.
use sec_s_magik.Base.{
  ℕ, zero, suc, ◌+◌, ◌-◌, ◌/◌, ◌%◌, Bool, ◌&&◌, ◌||◌, List, [], ◌∷◌, ◌++◌, map, Option, none, some,
  Text, ◌==◌, leb, ltb, is_prefix, drop, take, length, if◌then◌else◌, list_eq, nat_eq,
}

-- `{:x}` of a half byte, and `{:02x}` of the bytes.
abbrev pub hex_digit : ℕ → ℕ
hex_digit d = if ltb d 10 then 48 + d else 87 + d

abbrev pub lower_hex : List ℕ → Text
lower_hex [] = []
lower_hex (b ∷ bs) = hex_digit (b / 16) ∷ hex_digit (b % 16) ∷ lower_hex bs

-- `to_string` of a number, with the number of digits as fuel: a `u64` has at most twenty.
abbrev pub decimal_digits : ℕ → ℕ → Text → Text
decimal_digits zero n written = written
decimal_digits (suc fuel) n written =
    let rest = decimal_digits fuel (n / 10) ((48 + n % 10) ∷ written) in
    if ltb n 10 then (48 + n) ∷ written else rest

abbrev pub decimal : ℕ → Text
decimal n = decimal_digits 20 n []

-- `strip_prefix`
abbrev pub strip_prefix : Text → Text → Option Text
strip_prefix start text = if is_prefix start text then some (drop (length start) text) else none

-- `contains` of a text in another.
abbrev pub contains_text : Text → Text → Bool
contains_text part [] = is_prefix part []
contains_text part (c ∷ cs) = is_prefix part (c ∷ cs) || contains_text part cs

-- `to_ascii_lowercase`
abbrev pub lower_byte : ℕ → ℕ
lower_byte c = if leb 65 c && leb c 90 then c + 32 else c

abbrev pub to_ascii_lowercase : Text → Text
to_ascii_lowercase text = map lower_byte text

abbrev pub first_part : ℕ → List Text → List Text
first_part c [] = (c ∷ []) ∷ []
first_part c (part ∷ parts) = (c ∷ part) ∷ parts

-- `split` at a byte: at least one part.
abbrev pub split : ℕ → Text → List Text
split separator [] = [] ∷ []
split separator (c ∷ cs) =
    let rest = split separator cs in if c == separator then [] ∷ rest else first_part c rest

-- `join` with a byte.
abbrev pub join : ℕ → List Text → Text
join separator [] = []
join separator (part ∷ []) = part
join separator (part ∷ next ∷ parts) = part ++ (separator ∷ join separator (next ∷ parts))

-- `strip_suffix`
abbrev pub strip_suffix : Text → Text → Option Text
strip_suffix ending text =
    let start = length text - length ending in
    if leb (length ending) (length text) && drop start text == ending
    then some (take start text)
    else none

-- `split_once` at a byte.
abbrev pub split_once : ℕ → Text → Option (Text × Text)
split_once separator [] = none
split_once separator (c ∷ cs) =
    let rest = split_once separator cs in
    if c == separator
    then some ([], cs)
    else elim rest [ none ↦ none | some (start, end) ↦ some (c ∷ start, end) ]
