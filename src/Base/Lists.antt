-- ===== src/Base/Lists.antt =====
-- Lists measured by native numbers, the tests `any`, `all` and `contains`, and texts as bytes.
use Prim.Native.Nat.{ℕ, zero, suc, ◌+◌}
use Prim.Native.Char.{code}
use Prim.Native.String.{String}
use mathlib.Core.Path.{◌≡◌, refl}
use mathlib.Core.Bool.{Bool, true, false, ◌&&◌, ◌||◌}
use mathlib.Core.Logic.{inl, inr}
use mathlib.Core.Option.{Option, none, some}
use mathlib.Core.List.{List, [], ◌∷◌, ◌++◌}
use native.Mathlib.Omega.{arith}
use sec_s_magik.Base.Tests.{Eq, ◌==◌, beq_refl, beq→eq, Bool-cases, &&-true, if◌then◌else◌}

-- A Rust string is its UTF-8 bytes. Literals of the program are ASCII.
abbrev pub Text : Type 0
Text = List ℕ

abbrev pub bytes : String → Text
bytes String.[] = []
bytes (String.◌∷◌ c s) = code c ∷ bytes s

module _ {ℓ} {A : Type ℓ} where
  abbrev pub length : List A → ℕ
  length [] = 0
  length (x ∷ xs) = suc (length xs)

  abbrev pub is_empty : List A → Bool
  is_empty [] = true
  is_empty (x ∷ xs) = false

  abbrev pub take : ℕ → List A → List A
  take zero xs = []
  take (suc n) [] = []
  take (suc n) (x ∷ xs) = x ∷ take n xs

  abbrev pub drop : ℕ → List A → List A
  drop zero xs = xs
  drop (suc n) [] = []
  drop (suc n) (x ∷ xs) = drop n xs

  abbrev pub get_elem? : List A → ℕ → Option A
  get_elem? [] i = none
  get_elem? (x ∷ xs) zero = some x
  get_elem? (x ∷ xs) (suc i) = get_elem? xs i

  pub length-append : (xs ys : List A) → length (xs ++ ys) ≡ length xs + length ys
  length-append [] ys = omega arith
  length-append (x ∷ xs) ys = omega (arith, length-append xs ys)

  abbrev pub any : (A → Bool) → List A → Bool
  any p [] = false
  any p (x ∷ xs) = p x || any p xs

  abbrev pub all : (A → Bool) → List A → Bool
  all p [] = true
  all p (x ∷ xs) = p x && all p xs

  abbrev pub find : (A → Bool) → List A → Option A
  find p [] = none
  find p (x ∷ xs) = if p x then some x else find p xs

  -- `filter` of Rust's iterators, over a Boolean test.
  abbrev pub select : (A → Bool) → List A → List A
  select p [] = []
  select p (x ∷ xs) = let rest = select p xs in if p x then x ∷ rest else rest

  pub any-append : (p : A → Bool) (xs ys : List A) → any p (xs ++ ys) ≡ (any p xs || any p ys)
  any-append p [] ys = refl
  any-append p (x ∷ xs) ys = ground (arith, any-append p xs ys)

  pub all-append : (p : A → Bool) (xs ys : List A) → all p (xs ++ ys) ≡ (all p xs && all p ys)
  all-append p [] ys = refl
  all-append p (x ∷ xs) ys = ground (arith, all-append p xs ys)

  pub any-select : (p q : A → Bool) (xs : List A) → any q (select p xs) ≡ any (λ x. p x && q x) xs
  any-select p q [] = refl
  any-select p q (x ∷ xs) = ground (arith, any-select p q xs)

  pub find-some : (p : A → Bool) (xs : List A) (a : A) → find p xs ≡ some a → p a ≡ true
  find-some p [] a h = cc
  find-some p (x ∷ xs) a h = elim (Bool-cases (p x)) [
    | inl hit ↦ ground (arith, hit)
    | inr miss ↦ find-some p xs a (ground (arith, miss))
  ]

module _ {ℓ} {A : Type ℓ} ⦃e : Eq A⦄ where
  abbrev pub contains : List A → A → Bool
  contains xs a = any (λ x. x == a) xs

  -- A test that passes for all passes for each member.
  pub all-contains :
      (p : A → Bool) (xs : List A) (a : A) → all p xs ≡ true → contains xs a ≡ true → p a ≡ true
  all-contains p [] a h m = cc
  all-contains p (x ∷ xs) a h m =
      let (px, rest) = &&-true (p x) (all p xs) h in
      elim (Bool-cases (x == a)) [
        | inl hit ↦ ground (arith, beq→eq x a hit)
        | inr miss ↦ all-contains p xs a rest (ground (arith, miss))
      ]

  pub any-contains :
      (p : A → Bool) (xs : List A) (a : A) → contains xs a ≡ true → p a ≡ true → any p xs ≡ true
  any-contains p [] a m h = cc
  any-contains p (x ∷ xs) a m h = elim (Bool-cases (x == a)) [
    | inl hit ↦ ground (arith, beq→eq x a hit)
    | inr miss ↦ ground (arith, any-contains p xs a (ground (arith, miss)) h)
  ]

  -- The member for which a test passes.
  pub any_witness :
      (p : A → Bool) (xs : List A)
      → any p xs ≡ true
      → (a : A) × (contains xs a ≡ true) × (p a ≡ true)
  any_witness p [] h = cc
  any_witness p (x ∷ xs) h = elim (Bool-cases (p x)) [
    | inl hit ↦ (x, ground (arith, beq_refl x), hit)
    | inr miss ↦
        let (a, m, pa) = any_witness p xs (ground (arith, miss)) in (a, ground (arith, m), pa)
  ]

  pub all_intro :
      (p : A → Bool) (xs : List A) → ((a : A) → contains xs a ≡ true → p a ≡ true) → all p xs ≡ true
  all_intro p [] h = refl
  all_intro p (x ∷ xs) h =
      ground
        (arith, h x (ground (arith, beq_refl x)), all_intro p xs (λ a m. h a (ground (arith, m))))

  -- Whether the first list begins the second.
  abbrev pub is_prefix : List A → List A → Bool
  is_prefix [] ys = true
  is_prefix (x ∷ xs) [] = false
  is_prefix (x ∷ xs) (y ∷ ys) = x == y && is_prefix xs ys

  pub is_prefix_refl : (xs : List A) → is_prefix xs xs ≡ true
  is_prefix_refl [] = refl
  is_prefix_refl (x ∷ xs) = ground (arith, beq_refl x, is_prefix_refl xs)

  pub is_prefix_trans :
      (xs ys zs : List A) → is_prefix xs ys ≡ true → is_prefix ys zs ≡ true → is_prefix xs zs ≡ true
  is_prefix_trans [] ys zs h k = refl
  is_prefix_trans (x ∷ xs) [] zs h k = cc
  is_prefix_trans (x ∷ xs) (y ∷ ys) [] h k = cc
  is_prefix_trans (x ∷ xs) (y ∷ ys) (z ∷ zs) h k =
      let (p, hs) = &&-true (x == y) (is_prefix xs ys) h in
      let (q, ks) = &&-true (y == z) (is_prefix ys zs) k in
      ground (arith, beq→eq x y p, beq→eq y z q, beq_refl x, is_prefix_trans xs ys zs hs ks)
