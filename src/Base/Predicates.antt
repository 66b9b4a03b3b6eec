-- ===== src/Base/Predicates.antt =====
-- Predicates over lists by recursion, and what the Boolean loops decide of them.
use mathlib.Core.Path.{◌≡◌, refl, ap, ◌∙◌}
use mathlib.Core.Bool.{Bool, true, false, Bool-set}
use mathlib.Core.Logic.{◌⊎◌, inl, inr, ∥∥₁_elim}
use mathlib.Core.List.{List, [], ◌∷◌, ◌++◌, Perm, Permᴰ}
use native.Mathlib.Omega.{arith}
use sec_s_magik.Base.Tests.{Eq, ◌==◌, beq→eq, beq_refl, Bool-cases, &&-true}
use sec_s_magik.Base.Results.{deny}
use sec_s_magik.Base.Loops.{each}
use sec_s_magik.Base.Lists.{any, all, select, is_prefix, is_empty}

-- `P` holds of some member; of every member.
abbrev pub Has {ℓ} : {A : Type ℓ} → (A → Type 0) → List A → Type 0
Has P [] = ⊥
Has P (x ∷ xs) = P x ⊎ Has P xs

abbrev pub All {ℓ} : {A : Type ℓ} → (A → Type 0) → List A → Type 0
All P [] = Unit
All P (x ∷ xs) = P x × All P xs

module _ {ℓ} {A : Type ℓ} {P : A → Type 0} (p : A → Bool) where
  pub any→Has : ((a : A) → p a ≡ true → P a) → (xs : List A) → any p xs ≡ true → Has P xs
  any→Has f [] h = cc
  any→Has f (x ∷ xs) h = elim (Bool-cases (p x)) [
    | inl hit ↦ inl (f x hit)
    | inr miss ↦ inr (any→Has f xs (ground (arith, miss)))
  ]

  pub Has→any : ((a : A) → P a → p a ≡ true) → (xs : List A) → Has P xs → any p xs ≡ true
  Has→any f [] h = absurd h
  Has→any f (x ∷ xs) (inl h) = ground (arith, f x h)
  Has→any f (x ∷ xs) (inr h) = ground (arith, Has→any f xs h)

  pub all→All : ((a : A) → p a ≡ true → P a) → (xs : List A) → all p xs ≡ true → All P xs
  all→All f [] h = tt
  all→All f (x ∷ xs) h = let (px, rest) = &&-true (p x) (all p xs) h in (f x px, all→All f xs rest)

  pub All→all : ((a : A) → P a → p a ≡ true) → (xs : List A) → All P xs → all p xs ≡ true
  All→all f [] h = refl
  All→all f (x ∷ xs) h = ground (arith, f x h.0, All→all f xs h.1)

  -- A test that finds nothing fails of every member.
  pub none→All : ((a : A) → p a ≡ false → P a) → (xs : List A) → any p xs ≡ false → All P xs
  none→All f [] h = tt
  none→All f (x ∷ xs) h = elim (Bool-cases (p x)) [
    | inl hit ↦ cc (hit, h)
    | inr miss ↦ (f x miss, none→All f xs (ground (arith, miss)))
  ]

  pub All→none : ((a : A) → P a → p a ≡ false) → (xs : List A) → All P xs → any p xs ≡ false
  All→none f [] h = refl
  All→none f (x ∷ xs) h = ground (arith, f x h.0, All→none f xs h.1)

module _ {ℓ} {A : Type ℓ} {P Q : A → Type 0} where
  pub Has-mono : ((a : A) → P a → Q a) → (xs : List A) → Has P xs → Has Q xs
  Has-mono f [] h = h
  Has-mono f (x ∷ xs) (inl h) = inl (f x h)
  Has-mono f (x ∷ xs) (inr h) = inr (Has-mono f xs h)

  pub All-mono : ((a : A) → P a → Q a) → (xs : List A) → All P xs → All Q xs
  All-mono f [] h = tt
  All-mono f (x ∷ xs) h = (f x h.0, All-mono f xs h.1)

-- Selecting nothing means that nothing passes.
pub is_empty-select {ℓ} :
    {A : Type ℓ} (p : A → Bool) (xs : List A) → is_empty (select p xs) ≡ true → any p xs ≡ false
is_empty-select p [] h = refl
is_empty-select p (x ∷ xs) h = ground (arith, is_empty-select p xs)

pub select-none {ℓ} :
    {A : Type ℓ} (p : A → Bool) (xs : List A) → any p xs ≡ false → select p xs ≡ []
select-none p [] h = refl
select-none p (x ∷ xs) h = ground (arith, select-none p xs)

module _ {ℓ} {A : Type ℓ} (p : A → Bool) where
  any-permᴰ : {xs ys : List A} → Permᴰ xs ys → any p xs ≡ any p ys
  any-permᴰ Permᴰ.nil = refl
  any-permᴰ (Permᴰ.cons e h) = cc (e, any-permᴰ h)
  any-permᴰ (Permᴰ.swap e f) = ground (arith, ap p e, ap p f)
  any-permᴰ (Permᴰ.trans h k) = any-permᴰ h ∙ any-permᴰ k

  pub any-perm : {xs ys : List A} → Perm xs ys → any p xs ≡ any p ys
  any-perm h = ∥∥₁_elim h (Bool-set _ _) any-permᴰ

module _ {ℓ} {A : Type ℓ} ⦃e : Eq A⦄ where
  -- `is_prefix xs ys` says that something completes `xs` to `ys`.
  pub is_prefix→append :
      (xs ys : List A) → is_prefix xs ys ≡ true → (rest : List A) × (ys ≡ xs ++ rest)
  is_prefix→append [] ys h = (ys, refl)
  is_prefix→append (x ∷ xs) [] h = cc
  is_prefix→append (x ∷ xs) (y ∷ ys) h =
      let (p, q) = &&-true (x == y) (is_prefix xs ys) h in
      let (rest, r) = is_prefix→append xs ys q in (rest, cc (beq→eq x y p, r))

  pub is_prefix-append : (xs rest : List A) → is_prefix xs (xs ++ rest) ≡ true
  is_prefix-append [] rest = refl
  is_prefix-append (x ∷ xs) rest = ground (arith, beq_refl x, is_prefix-append xs rest)

-- A loop of refusals ends exactly when no item is refused.
pub each-deny :
    {E A : Type 0} (bad : A → Bool) (e : E) (xs : List A)
    → each (λ x. deny (bad x) e) xs ≡ deny (any bad xs) e
each-deny bad e [] = refl
each-deny bad e (x ∷ xs) = ground (arith, each-deny bad e xs)

-- A weaker test passes for some member when the stronger one does.
pub any_mono {ℓ} :
    {A : Type ℓ} (p q : A → Bool)
    → ((a : A) → p a ≡ true → q a ≡ true)
    → (xs : List A) → any p xs ≡ true
    → any q xs ≡ true
any_mono p q f [] h = cc
any_mono p q f (x ∷ xs) h = elim (Bool-cases (p x)) [
  | inl hit ↦ ground (arith, f x hit)
  | inr miss ↦ ground (arith, any_mono p q f xs (ground (arith, miss)))
]
