-- ===== src/Permissions/Permctl/Revoke.antt =====
-- What `revoke` of server/src/permctl.rs changes, and what it does to later decisions.
use sec_s_magik.Base.{
  ℕ, suc, ◌+◌, ◌≡◌, refl, inl, inr, Bool, true, false, ◌&&◌, List, [], ◌∷◌, map, ap, ok, sym, ◌∙◌,
  subst, Has, All, Bool-cases, arith, if◌then◌else◌, list_eq,
}
use sec_s_magik.Permissions.{PermissionRecord, Request, revoked, is_active, evaluate, allowed}
use sec_s_magik.Permissions.Decision.{InForce, Grants, Denies, evaluate-allowed_iff}
use sec_s_magik.Permissions.Permctl.{is_named, revoke_from, revoke}

-- What revoking does to one record.
abbrev pub withdraw : Request → PermissionRecord → PermissionRecord
withdraw q r = if is_named q r then record r { status = revoked } else r

-- How many records a revocation still finds active.
abbrev pub count_active : Request → List PermissionRecord → ℕ
count_active q [] = 0
count_active q (r ∷ rs) =
    if is_named q r && is_active r.status then suc (count_active q rs) else count_active q rs

module _ (q : Request) where
  withdraw_inactive :
      (r : PermissionRecord) → (is_named q r && is_active r.status) ≡ false → withdraw q r ≡ r
  withdraw_inactive r h = ground arith

  revoke_from-map :
      (count : ℕ) (rs : List PermissionRecord)
      → revoke_from count rs q ≡ (map (withdraw q) rs, count + count_active q rs)
  unfolding revoke_from
  revoke_from-map count [] = ground arith
  revoke_from-map count (r ∷ rs) =
      ground (arith, withdraw_inactive r, revoke_from-map (count + 1) rs, revoke_from-map count rs)

  -- `revoke` sets every record that it names to revoked, keeps all other records and the order, and
  -- counts the records that were active.
  pub revoke_lem :
      (rs : List PermissionRecord) → revoke rs q ≡ (map (withdraw q) rs, count_active q rs)
  unfolding revoke
  revoke_lem rs = ground (arith, revoke_from-map 0 rs)

  is_named-if :
      (b : Bool) (r : PermissionRecord)
      → is_named q (if b then record r { status = revoked } else r) ≡ is_named q r
  unfolding is_named
  is_named-if true r = refl
  is_named-if false r = refl

  is_named-withdraw : (r : PermissionRecord) → is_named q (withdraw q r) ≡ is_named q r
  is_named-withdraw r = is_named-if (is_named q r) r

  withdraw-withdraw : (r : PermissionRecord) → withdraw q (withdraw q r) ≡ withdraw q r
  withdraw-withdraw r = ground (arith, is_named-withdraw r)

  count_active-map : (rs : List PermissionRecord) → count_active q (map (withdraw q) rs) ≡ 0
  count_active-map [] = refl
  count_active-map (r ∷ rs) = ground (arith, is_named-withdraw r, count_active-map rs)

  map-withdraw_idem :
      (rs : List PermissionRecord) → map (withdraw q) (map (withdraw q) rs) ≡ map (withdraw q) rs
  map-withdraw_idem [] = refl
  map-withdraw_idem (r ∷ rs) = cc (withdraw-withdraw r, map-withdraw_idem rs)

  -- A second revocation of the same name revokes nothing and changes nothing.
  pub revoke_idem : (rs : List PermissionRecord) → revoke (revoke rs q).0 q ≡ ((revoke rs q).0, 0)
  revoke_idem rs =
      rw
        (revoke_lem rs, revoke_lem (map (withdraw q) rs), map-withdraw_idem rs, count_active-map rs)

  -- What is in force after a revocation was in force before, and is not named.
  InForce-withdraw :
      (p : Request) (now : ℕ) (r : PermissionRecord)
      → InForce p now (withdraw q r)
      → InForce p now r × (is_named q r ≡ false) × (withdraw q r ≡ r)
  InForce-withdraw p now r h = elim (Bool-cases (is_named q r)) [
    | inl e ↦ absurd (ground (arith, e, h.active_status))
    | inr e ↦ let same : withdraw q r ≡ r = rw e refl in (subst (InForce p now) same h, e, same)
  ]

  InForce-keep :
      (p : Request) (now : ℕ) (r : PermissionRecord)
      → is_named q r ≡ false
      → InForce p now r
      → InForce p now (withdraw q r)
  InForce-keep p now r e h = rw e h

  effect-withdraw : (r : PermissionRecord) → (withdraw q r).effect ≡ r.effect
  effect-withdraw r = ground arith

  Grants-withdraw :
      (p : Request) (now : ℕ) (rs : List PermissionRecord)
      → Has (Grants p now) (map (withdraw q) rs)
      → Has (λ r. Grants p now r × (is_named q r ≡ false)) rs
  Grants-withdraw p now [] h = h
  Grants-withdraw p now (r ∷ rs) (inr h) = inr (Grants-withdraw p now rs h)
  Grants-withdraw p now (r ∷ rs) (inl (h, e)) =
      let (held, unnamed, same) = InForce-withdraw p now r h in
      inl ((held, sym (effect-withdraw r) ∙ e), unnamed)

  Grants-kept :
      (p : Request) (now : ℕ) (rs : List PermissionRecord)
      → Has (λ r. Grants p now r × (is_named q r ≡ false)) rs
      → Has (Grants p now) (map (withdraw q) rs)
  Grants-kept p now [] h = h
  Grants-kept p now (r ∷ rs) (inr h) = inr (Grants-kept p now rs h)
  Grants-kept p now (r ∷ rs) (inl ((h, e), unnamed)) =
      inl (InForce-keep p now r unnamed h, effect-withdraw r ∙ e)

  not_Denies-withdraw :
      (p : Request) (now : ℕ) (rs : List PermissionRecord)
      → All (λ r. Denies p now r → is_named q r ≡ true) rs
      → All (λ r. ¬ (Denies p now r)) (map (withdraw q) rs)
  not_Denies-withdraw p now [] h = tt
  not_Denies-withdraw p now (r ∷ rs) h = (
    λ d.
        let (held, unnamed, same) = InForce-withdraw p now r d.0 in
        cc (unnamed, h.0 (held, sym (effect-withdraw r) ∙ d.1)),
    not_Denies-withdraw p now rs h.1,
  )

  -- After a revocation a request is allowed only by a record in force that the revocation did not
  -- name.
  pub revoke_ends :
      (rs : List PermissionRecord) (p : Request) (now : ℕ)
      → evaluate (revoke rs q).0 p now ≡ ok allowed
      → Has (λ r. Grants p now r × (is_named q r ≡ false)) rs
  revoke_ends rs p now h =
      Grants-withdraw p now rs
        ((evaluate-allowed_iff p now (map (withdraw q) rs)).0
          (rw (← ap (λ (t : List PermissionRecord × ℕ). t.0) (revoke_lem rs)) h)).0

  -- A revocation names records that deny, too: where it names every record in force that denies a
  -- request, and some record in force that grants it is left, the request is allowed afterwards.
  pub revoke_lifts_denials :
      (rs : List PermissionRecord) (p : Request) (now : ℕ)
      → All (λ r. Denies p now r → is_named q r ≡ true) rs
      → Has (λ r. Grants p now r × (is_named q r ≡ false)) rs
      → evaluate (revoke rs q).0 p now ≡ ok allowed
  revoke_lifts_denials rs p now denied granted = rw (revoke_lem rs) (
      (evaluate-allowed_iff p now (map (withdraw q) rs)).1
        (Grants-kept p now rs granted, not_Denies-withdraw p now rs denied))
