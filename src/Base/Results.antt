-- ===== src/Base/Results.antt =====
-- Rust's `Result`, with `?` as bind.
use mathlib.Core.Path.{◌≡◌, refl}
use mathlib.Core.Bool.{Bool, true, false}
use mathlib.Core.Option.{Option, none, some}
use mathlib.Core.Logic.{◌⊎◌, inl, inr}

pub data Result {ℓ} (E A : Type ℓ) : Type ℓ where
  ok : A → Result E A
  err : E → Result E A

infixl 5 ◌>>=◌ ◌>>◌
abbrev pub ◌>>=◌ {κ} : {F S T : Type κ} → Result F S → (S → Result F T) → Result F T
ok s >>= next = next s
err refused >>= next = err refused

abbrev pub ◌>>◌ {κ} : {F S T : Type κ} → Result F S → Result F T → Result F T
first >> next = first >>= λ done. next

-- `if refused { return Err(e) }`
abbrev pub deny : {E : Type 0} → Bool → E → Result E (Unit {0})
deny true e = err e
deny false e = ok tt

-- `option.ok_or(e)?`
abbrev pub ok_or {ℓ} : {E A : Type ℓ} → Option A → E → Result E A
ok_or none e = err e
ok_or (some a) e = ok a

abbrev pub is_ok {ℓ} : {E A : Type ℓ} → Result E A → Bool
is_ok (ok a) = true
is_ok (err e) = false

pub >>=-eq-ok {κ} :
    {F S T : Type κ} (first : Result F S) (next : S → Result F T) {t : T}
    → (first >>= next) ≡ ok t
    → (s : S) × (first ≡ ok s) × (next s ≡ ok t)
>>=-eq-ok (err refused) next h = cc
>>=-eq-ok (ok s) next h = (s, refl, h)

pub ok_injective {ℓ} : {E A : Type ℓ} {a b : A} → ◌≡◌ {A = Result E A} (ok a) (ok b) → a ≡ b
ok_injective h = cc h

pub deny-eq-ok : {E : Type 0} (b : Bool) (e : E) {u : Unit {0}} → deny b e ≡ ok u → b ≡ false
deny-eq-ok true e h = cc
deny-eq-ok false e h = refl

pub ok_or-eq-ok {ℓ} : {E A : Type ℓ} (o : Option A) (e : E) {a : A} → ok_or o e ≡ ok a → o ≡ some a
ok_or-eq-ok none e h = cc
ok_or-eq-ok (some x) e h = cc

pub Result-cases {ℓ} :
    {E A : Type ℓ} (r : Result E A) → ((a : A) × (r ≡ ok a)) ⊎ ((e : E) × (r ≡ err e))
Result-cases (ok a) = inl (a, refl)
Result-cases (err e) = inr (e, refl)
