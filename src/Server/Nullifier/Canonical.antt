-- ===== src/Server/Nullifier/Canonical.antt =====
-- The canonical form of a resource has no traversing part and is canonical again:
-- `canonical_resource_id` of server/src/nullifier.rs.
use sec_s_magik.Base.{
  ℕ, Bool, true, false, ◌||◌, List, [], ◌∷◌, ◌++◌, Text, bytes, ok, ◌≡◌, refl, ap, ◌∙◌, ◌⊎◌, ◌==◌,
  is_prefix, All, Bool-cases, inl, inr, if◌then◌else◌, list_eq, nat_eq, arith, drop, ok_or, deny,
  >>=-eq-ok, ||-false,
}
use sec_s_magik.Server.Text.{split, join, first_part, strip_prefix}
use sec_s_magik.Server.Nullifier.Resource.{
  domain_mismatch, missing_scoped_nullifier, pop, resolve_part, resolve, reverse_onto,
  canonical_path, canonical_resource_id,
}

-- A part without a slash; a part that names something.
unfoldable pub has_slash : Text → Bool
has_slash [] = false
has_slash (c ∷ cs) = c == 47 || has_slash cs

unfoldable pub IsPlain : Text → Type 0
IsPlain part =
    (has_slash part ≡ false) × ((part == [] || part == bytes "." || part == bytes "..") ≡ false)

abbrev HasNoSlash : Text → Type 0
HasNoSlash part = has_slash part ≡ false

first_part_lem :
    (c : ℕ) (parts : List Text)
    → (c == 47) ≡ false
    → All HasNoSlash parts
    → All HasNoSlash (first_part c parts)
unfolding has_slash
first_part_lem c [] ne h = (ground arith, tt)
first_part_lem c (part ∷ parts) ne h = (ground (arith, h.0), h.1)

split-HasNoSlash : (t : Text) → All HasNoSlash (split 47 t)
unfolding has_slash
split-HasNoSlash [] = (refl, tt)
split-HasNoSlash (c ∷ cs) = elim (Bool-cases (c == 47)) [
  | inl hit ↦ rw hit (refl, split-HasNoSlash cs)
  | inr miss ↦ rw miss (first_part_lem c (split 47 cs) miss (split-HasNoSlash cs))
]

pop_lem : (parts : List Text) → All IsPlain parts → All IsPlain (pop parts)
pop_lem [] h = tt
pop_lem (part ∷ parts) h = h.1

resolve_part-IsPlain :
    (parts : List Text) (part : Text)
    → All IsPlain parts
    → HasNoSlash part
    → All IsPlain (resolve_part parts part)
unfolding resolve_part IsPlain
resolve_part-IsPlain parts part h n = elim (Bool-cases (part == [] || part == bytes ".")) [
  | inl skip ↦ rw skip h
  | inr other ↦ elim (Bool-cases (part == bytes "..")) [
    | inl up ↦ rw other (rw up (pop_lem parts h))
    | inr name ↦ rw other (rw name ((n, ground (arith, other, name)), h))
  ]
]

pub resolve-IsPlain :
    (parts rest : List Text)
    → All IsPlain parts
    → All HasNoSlash rest
    → All IsPlain (resolve parts rest)
unfolding resolve
resolve-IsPlain parts [] h n = h
resolve-IsPlain parts (part ∷ rest) h n =
    resolve-IsPlain (resolve_part parts part) rest (resolve_part-IsPlain parts part h n.0) n.1

reverse-IsPlain :
    (parts done : List Text)
    → All IsPlain parts
    → All IsPlain done
    → All IsPlain (reverse_onto parts done)
reverse-IsPlain [] done h k = k
reverse-IsPlain (part ∷ parts) done h k = reverse-IsPlain parts (part ∷ done) h.1 (h.0, k)

-- Plain parts are kept, and two reversals cancel.
resolve_plain :
    (parts rest : List Text) → All IsPlain rest → resolve parts rest ≡ reverse_onto rest parts
unfolding resolve resolve_part IsPlain
resolve_plain parts [] h = refl
resolve_plain parts (part ∷ rest) h = ground (arith, h.0.1, resolve_plain (part ∷ parts) rest h.1)

reverse_twice : (a b c : List Text) → reverse_onto (reverse_onto a b) c ≡ reverse_onto b (a ++ c)
reverse_twice [] b c = refl
reverse_twice (x ∷ a) b c = reverse_twice a (x ∷ b) c

append_nil : (a : List Text) → a ++ [] ≡ a
append_nil [] = refl
append_nil (x ∷ a) = ap (λ t. x ∷ t) (append_nil a)

split_last : (p : Text) → HasNoSlash p → split 47 p ≡ p ∷ []
unfolding has_slash
split_last [] h = refl
split_last (c ∷ cs) h =
    let (a, b) = ||-false (c == 47) (has_slash cs) h in rw a (rw (split_last cs b) refl)

split_first : (p t : Text) → HasNoSlash p → split 47 (p ++ (47 ∷ t)) ≡ p ∷ split 47 t
unfolding has_slash
split_first [] t h = refl
split_first (c ∷ cs) t h =
    let (a, b) = ||-false (c == 47) (has_slash cs) h in rw a (rw (split_first cs t b) refl)

-- What joining and splitting gives back.
split-join :
    (part : Text) (parts : List Text)
    → All IsPlain (part ∷ parts)
    → split 47 (join 47 (part ∷ parts)) ≡ part ∷ parts
unfolding IsPlain
split-join part [] h = split_last part h.0.0
split-join part (next ∷ parts) h =
    split_first part (join 47 (next ∷ parts)) h.0.0 ∙ ap (λ t. part ∷ t) (split-join next parts h.1)

-- The parts of a path that its canonical form keeps.
unfoldable pub kept_parts : Text → List Text
kept_parts rest = reverse_onto (resolve [] (split 47 rest)) []

pub kept_parts-IsPlain : (rest : Text) → All IsPlain (kept_parts rest)
unfolding kept_parts
kept_parts-IsPlain rest =
    reverse-IsPlain (resolve [] (split 47 rest)) []
      (resolve-IsPlain [] (split 47 rest) tt (split-HasNoSlash rest)) tt

kept-join : (parts : List Text) → All IsPlain parts → kept_parts (join 47 parts) ≡ parts
unfolding kept_parts resolve resolve_part
kept-join [] h = refl
kept-join (part ∷ parts) h =
    ap (λ t. reverse_onto (resolve [] t) []) (split-join part parts h)
    ∙ ap (λ t. reverse_onto t []) (resolve_plain [] (part ∷ parts) h)
    ∙ reverse_twice (part ∷ parts) [] []
    ∙ append_nil (part ∷ parts)

kept_absolute : (t : Text) → kept_parts (47 ∷ t) ≡ kept_parts t
unfolding kept_parts resolve resolve_part
kept_absolute t = refl

is_relative :
    (parts : List Text) → All IsPlain parts → is_prefix (bytes "/") (join 47 parts) ≡ false
unfolding IsPlain has_slash
is_relative [] h = refl
is_relative ([] ∷ parts) h = cc (h.0.1)
is_relative ((c ∷ cs) ∷ []) h = ground arith
is_relative ((c ∷ cs) ∷ next ∷ parts) h = ground arith

path_of :
    (rest : Text)
    → canonical_path rest ≡ (
        if is_prefix (bytes "/") rest
        then 47 ∷ join 47 (kept_parts rest)
        else join 47 (kept_parts rest))
unfolding canonical_path kept_parts
path_of rest = refl

-- The canonical form of a path is its own canonical form.
pub canonical_path_idempotent :
    (rest : Text) → canonical_path (canonical_path rest) ≡ canonical_path rest
canonical_path_idempotent rest =
    let ps = kept_parts rest in
    let plain = kept_parts-IsPlain rest in
    let same = kept-join ps plain in
    elim (Bool-cases (is_prefix (bytes "/") rest)) [
      | inl absolute ↦
          let form : canonical_path rest ≡ 47 ∷ join 47 ps =
            ground (arith, path_of rest, absolute) in
          rw form (
            path_of (47 ∷ join 47 ps)
            ∙ ap (λ t. 47 ∷ join 47 t) (kept_absolute (join 47 ps) ∙ same))
      | inr relative ↦
          let form : canonical_path rest ≡ join 47 ps = ground (arith, path_of rest, relative) in
          rw form (ground (arith, path_of (join 47 ps), is_relative ps plain, same))
    ]

-- A resource that has a canonical form keeps only parts that name something, none of them a step
-- upwards, and the form is its own canonical form unless its path is blank.
pub canonical_resource_id_normal :
    (is_blank : Text → Bool) (r c : Text)
    → canonical_resource_id is_blank r ≡ ok c
    → (parts : List Text) × All IsPlain parts
      × ((c ≡ bytes "file://" ++ join 47 parts) ⊎ (c ≡ bytes "file:///" ++ join 47 parts))
      × ((canonical_resource_id is_blank c ≡ ok c) ⊎ (is_blank (drop 7 c) ≡ true))
unfolding canonical_resource_id
canonical_resource_id_normal is_blank r c h =
    let (rest, e, h1) = >>=-eq-ok (ok_or (strip_prefix (bytes "file://") r) domain_mismatch) _ h in
    let (u, e1, h2) = >>=-eq-ok (deny (is_blank rest) missing_scoped_nullifier) _ h1 in
    let form : c ≡ bytes "file://" ++ canonical_path rest = cc h2 in
    (
      kept_parts rest,
      kept_parts-IsPlain rest,
      elim (Bool-cases (is_prefix (bytes "/") rest)) [
        | inl absolute ↦ inr (ground (arith, form, path_of rest, absolute))
        | inr relative ↦ inl (ground (arith, form, path_of rest, relative))
      ],
      elim (Bool-cases (is_blank (canonical_path rest))) [
        | inl blank ↦ inr (rw form blank)
        | inr named ↦ inl (
            rw form
              (rw named (ap (λ t. ok (bytes "file://" ++ t)) (canonical_path_idempotent rest))))
      ],
    )
