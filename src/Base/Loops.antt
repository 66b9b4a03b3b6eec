-- ===== src/Base/Loops.antt =====
-- The loops of the program that check each item and leave at the first refusal.
use mathlib.Core.Path.{◌≡◌, refl}
use mathlib.Core.Bool.{true}
use mathlib.Core.List.{List, [], ◌∷◌}
use mathlib.Core.Logic.{inl, inr}
use native.Mathlib.Omega.{arith}
use sec_s_magik.Base.Tests.{Eq, ◌==◌, beq→eq, beq_refl, Bool-cases}
use sec_s_magik.Base.Lists.{contains}
use sec_s_magik.Base.Results.{Result, ok, ◌>>◌, >>=-eq-ok}

module _ {E A : Type 0} where
  -- `for x in xs { check(x)?; }`
  abbrev pub each : (A → Result E (Unit {0})) → List A → Result E (Unit {0})
  each check [] = ok tt
  each check (x ∷ xs) = check x >> each check xs

  -- `for (i, x) in xs.iter().enumerate() { check(&xs[..i], x)?; }`; `seen` holds the items of
  -- `xs[..i]`, last first. The checks only ask whether it has a certain member.
  abbrev pub each_after : (List A → A → Result E (Unit {0})) → List A → List A → Result E (Unit {0})
  each_after check seen [] = ok tt
  each_after check seen (x ∷ xs) = check seen x >> each_after check (x ∷ seen) xs

module _ {E A : Type 0} ⦃e : Eq A⦄ (check : A → Result E (Unit {0})) where
  -- A loop that ends has passed each item.
  pub each-contains :
      (xs : List A) (a : A) → each check xs ≡ ok tt → contains xs a ≡ true → check a ≡ ok tt
  each-contains [] a h m = cc
  each-contains (x ∷ xs) a h m =
      let (u, now, later) = >>=-eq-ok (check x) (λ _. each check xs) h in
      elim (Bool-cases (x == a)) [
        | inl hit ↦ ground (arith, beq→eq x a hit)
        | inr miss ↦ each-contains xs a later (ground (arith, miss))
      ]

  pub each_intro :
      (xs : List A) → ((a : A) → contains xs a ≡ true → check a ≡ ok tt) → each check xs ≡ ok tt
  each_intro [] h = refl
  each_intro (x ∷ xs) h =
      rw (h x (ground (arith, beq_refl x))) (each_intro xs (λ a m. h a (ground (arith, m))))
